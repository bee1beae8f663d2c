-- ===== src/Archive/Writer/Entries.antt =====
-- Where each entry stands in what `zipChunks` of src/lib/zip.ts has yielded.
use localchune.Archive.Bytes.{encode_fields}
use mathlib.Core.Option.{some-injective}
use localchune.Archive.Writer.Bodies.{
  concat-append, copy_body_lem, Ends-map, Copied, Ends-bind, Broken, content, concat, Ends, Fails,
  AllBytes,
}
use localchune.Archive.Headers.Sizes.{data_descriptor_lem, local_header_lem, local_bytes}
use localchune.Archive.Crc.{u32_max, crc32}
use localchune.Archive.Headers.{local_header, dos_date, dos_time, descriptor_fields, CentralRecord}
use mathlib.Core.List.{append-nil}
use localchune.Common.{
  ℕ, ◌+◌, ◌≤◌, ◌<◌, ◌≡◌, refl, ap, ◌⊎◌, inl, inr, true, false, Option, none, some, List, [], ◌∷◌,
  ◌++◌, arith, Bool-cases, length, length-append,
}
use localchune.Archive.Writer.{
  copy_body, starts_zip64, central_record, modified_at, Platform, Progress, Fault, write_entry,
  emit_packed, EntrySource, read_failed, outgrew, out_of_range,
}

-- One entry of the archive: its local header, its data and its descriptor.
abbrev pub entry_bytes : EntrySource → CentralRecord → List ℕ
entry_bytes source r =
    local_bytes r.name r.time r.date r.zip64
    ++ (content source.body ++ encode_fields (descriptor_fields r.crc r.size r.zip64))

-- A record of the directory describes a source; a number past 32 bits has the 64-bit form.
abbrev pub Describes : Platform → EntrySource → CentralRecord → Type 0
Describes platform source r =
    (r.name ≡ platform.encode source.name)
    × (r.crc ≡ crc32 (content source.body) 0)
    × (r.size ≡ length (content source.body))
    × ((r.zip64 ≡ true) ⊎ ((r.size ≤ u32_max) × r.offset ≤ u32_max))

-- Why one source makes the writer throw.
abbrev pub SourceFault : EntrySource → Fault → Type 0
SourceFault source read_failed = Fails source.body
SourceFault source (outgrew n) =
    (n ≡ source.name) × (source.size ≤ u32_max) × u32_max < length (content source.body)
SourceFault source out_of_range = ⊥

-- One chunk, and its length.
abbrev pub Starts : List ℕ → List (List ℕ) → ℕ → Type 0
Starts bytes chunks n = (chunks ≡ bytes ∷ []) × (n ≡ length bytes)

pub packed-Ends :
    (packed : Option (List ℕ)) (bytes : List ℕ) (F : Fault → Type 0)
    → packed ≡ some bytes
    → Ends
        (λ n. ((emit_packed packed).chunks ≡ bytes ∷ []) × (n ≡ length bytes))
        F
        (emit_packed packed).result
unfolding emit_packed
packed-Ends none bytes F e = absurd (absurd_some e)
  where
    absurd_some : {bytes : List ℕ} → none ≡ some bytes → ⊥
    absurd_some h = cc
packed-Ends (some b) bytes F e =
    let equal = some-injective _ _ e in (ap (λ t. t ∷ []) equal, ap length equal)

-- What one round of the loop over the sources has done.
abbrev pub EntryWritten : Platform → EntrySource → Progress → List (List ℕ) → Progress → Type 0
EntryWritten platform source p chunks q =
    (r : CentralRecord) × (q.central ≡ p.central ++ r ∷ [])
    × (concat chunks ≡ entry_bytes source r)
    × (q.offset ≡ p.offset + length (entry_bytes source r))
    × (r.offset ≡ p.offset)
    × Describes platform source r

source_fault :
    (source : EntrySource) (p : Progress) (e : Fault)
    → Broken source.name (starts_zip64 source p) source.body 0 e
    → SourceFault source e
unfolding starts_zip64
source_fault source p read_failed h = h
source_fault source p (outgrew n) (e, q, r) = (e, ground (arith, q), omega arith)
source_fault source p out_of_range h = h

starts_small :
    (source : EntrySource) (p : Progress) → starts_zip64 source p ≡ false → p.offset ≤ u32_max
unfolding starts_zip64
starts_small source p h = ground (arith, h)

entry_done :
    (platform : Platform) (source : EntrySource) (p : Progress) (r : CentralRecord)
    → (front chunks last : List (List ℕ)) (n k : ℕ)
    → (front ≡ local_bytes r.name r.time r.date r.zip64 ∷ [])
      × (n ≡ length (local_bytes r.name r.time r.date r.zip64))
    → concat chunks ≡ content source.body
    → (last ≡ encode_fields (descriptor_fields r.crc r.size r.zip64) ∷ [])
      × (k ≡ length (encode_fields (descriptor_fields r.crc r.size r.zip64)))
    → r.offset ≡ p.offset
    → Describes platform source r
    → EntryWritten platform source p
        (front ++ (chunks ++ (last ++ [])))
        (record { offset = p.offset + n + r.size + k; central = p.central ++ r ∷ [] })
entry_done platform source p r front chunks last n k (f, fn) c (l, lk) o d =
    let inner =
      length-append (content source.body)
        (encode_fields (descriptor_fields r.crc r.size r.zip64)) in
    let whole =
      length-append (local_bytes r.name r.time r.date r.zip64)
        (content source.body ++ encode_fields (descriptor_fields r.crc r.size r.zip64)) in
    (r, refl, rw (f, l, concat-append chunks, c, append-nil) refl, omega (arith, d.2), o, d)

Describes-made :
    (platform : Platform) (source : EntrySource) (p : Progress) (out : ℕ × ℕ)
    (chunks : List (List ℕ))
    → Copied (starts_zip64 source p) source.body 0 0 chunks out
    → Describes platform source (central_record platform source p out)
unfolding central_record
Describes-made platform source p out chunks (c, q, r, s) = (
  refl,
  q,
  omega (arith, r),
  elim (Bool-cases (starts_zip64 source p)) [
    | inl z ↦ inl z
    | inr z ↦ elim s [ inl t ↦ inl t | inr f ↦ inr (f (omega arith), starts_small source p z) ]
  ],
)

pub write_entry_lem :
    (platform : Platform) (source : EntrySource) (p : Progress)
    → AllBytes source.body
    → Ends
        (EntryWritten platform source p (write_entry platform source p).chunks)
        (SourceFault source)
        (write_entry platform source p).result
unfolding write_entry central_record
write_entry_lem platform source p b =
    let name = platform.encode source.name in
    let d = modified_at platform (length p.central) source.modified in
    let zip64 = starts_zip64 source p in
    let front = local_bytes name (dos_time d) (dos_date d) zip64 in
    let start = emit_packed (local_header name (dos_time d) (dos_date d) zip64) in
    let copy = copy_body source.name zip64 source.body 0 0 in
    let started =
      packed-Ends _ front (SourceFault source)
        (local_header_lem name (dos_time d) (dos_date d) zip64).0 in
    let copied =
      Ends-map {A = ℕ × ℕ} copy.result (λ out h. h) (source_fault source p)
        (copy_body_lem source.name zip64 source.body 0 0 b (omega arith)) in
    Ends-bind (EntryWritten platform source p) (SourceFault source) (Starts front) _ _ _ started
      (λ n st.
        Ends-bind (λ chunks. EntryWritten platform source p (start.chunks ++ chunks))
          (SourceFault source) (Copied zip64 source.body 0 0) _ _ _ copied
          (λ out co.
            let last = encode_fields (descriptor_fields out.0 out.1 zip64) in
            let made =
              packed-Ends _ last (SourceFault source) (data_descriptor_lem out.0 out.1 zip64).0 in
            Ends-bind
              (λ chunks. EntryWritten platform source p (start.chunks ++ (copy.chunks ++ chunks)))
              (SourceFault source) (Starts last) _ _ _ made
              (λ k en.
                entry_done platform source p (central_record platform source p out) start.chunks
                  copy.chunks _ n k st co.0 en refl
                  (Describes-made platform source p out copy.chunks co))))
