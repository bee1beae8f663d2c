-- ===== src/Archive/Writer/Layout.antt =====
-- The archive that `zipChunks` of src/lib/zip.ts yields: entries, directory and end record.
use localchune.Archive.Writer.Entries.{
  write_entry_lem, Describes, entry_bytes, SourceFault, EntryWritten,
}
use localchune.Archive.Writer.Bodies.{
  concat-append, Ends-map, Ends-bind, content, concat, Ends, Fails, AllBytes,
}
use localchune.Archive.Headers.{CentralRecord}
use localchune.Archive.Crc.{u32_max}
use mathlib.Core.List.{append-nil, append_assoc}
use localchune.Common.{
  ℕ, ◌+◌, ◌≤◌, ◌<◌, String, ◌≡◌, refl, sym, ap, subst, ◌∙◌, ◌⊎◌, inl, inr, List, [], ◌∷◌, ◌++◌,
  arith, length, length-append,
}
use localchune.Archive.Writer.{
  write_entry, Progress, Fault, write_entries, Feed, EntrySource, Platform, closed, failed, value,
  read_failed, outgrew, out_of_range,
}

-- The entry of a record stands in `bytes`, which start at `base`, where the record says.
abbrev pub Filed : Platform → ℕ → List ℕ → EntrySource → CentralRecord → Type 0
Filed platform base bytes source r =
    (before after : List ℕ) × (bytes ≡ before ++ (entry_bytes source r ++ after))
    × (r.offset ≡ base + length before)
    × Describes platform source r

-- One record for each source, in their order.
abbrev pub AllFiled : Platform → ℕ → List ℕ → Feed EntrySource → List CentralRecord → Type 0
AllFiled platform base bytes closed [] = Unit
AllFiled platform base bytes closed (r ∷ rs) = ⊥
AllFiled platform base bytes failed rs = ⊥
AllFiled platform base bytes (value source rest) [] = ⊥
AllFiled platform base bytes (value source rest) (r ∷ rs) =
    Filed platform base bytes source r × AllFiled platform base bytes rest rs

-- The bodies of all the sources are bytes.
abbrev pub AllBodies : Feed EntrySource → Type 0
AllBodies closed = Unit
AllBodies failed = Unit
AllBodies (value source rest) = AllBytes source.body × AllBodies rest

-- The iterator or one of the bodies fails.
abbrev pub Breaks : Feed EntrySource → Type 0
Breaks closed = ⊥
Breaks failed = Unit
Breaks (value source rest) = Fails source.body ⊎ Breaks rest

-- A source of that name said at most 4 GiB less a byte, and its body is longer than that.
abbrev pub Outgrown : String → Feed EntrySource → Type 0
Outgrown n closed = ⊥
Outgrown n failed = ⊥
Outgrown n (value source rest) =
    ((n ≡ source.name) × (source.size ≤ u32_max) × u32_max < length (content source.body))
    ⊎ Outgrown n rest

-- Why the writer throws.
abbrev pub Reason : Feed EntrySource → Fault → Type 0
Reason sources read_failed = Breaks sources
Reason sources (outgrew n) = Outgrown n sources
Reason sources out_of_range = ⊥

Reason-here :
    (source : EntrySource) (rest : Feed EntrySource) (e : Fault)
    → SourceFault source e
    → Reason (value source rest) e
Reason-here source rest read_failed h = inl h
Reason-here source rest (outgrew n) h = inl h
Reason-here source rest out_of_range h = h

Reason-later :
    (source : EntrySource) (rest : Feed EntrySource) (e : Fault)
    → Reason rest e
    → Reason (value source rest) e
Reason-later source rest read_failed h = inr h
Reason-later source rest (outgrew n) h = inr h
Reason-later source rest out_of_range h = h

-- Records that are right for the bytes behind an entry are right with the entry in front.
AllFiled-shift :
    (platform : Platform) (base : ℕ) (entry bytes : List ℕ) (sources : Feed EntrySource)
    (rs : List CentralRecord)
    → AllFiled platform (base + length entry) bytes sources rs
    → AllFiled platform base (entry ++ bytes) sources rs
AllFiled-shift platform base entry bytes closed [] h = tt
AllFiled-shift platform base entry bytes closed (r ∷ rs) h = h
AllFiled-shift platform base entry bytes failed rs h = h
AllFiled-shift platform base entry bytes (value source rest) [] h = h
AllFiled-shift platform base entry bytes (value source rest) (r ∷ rs)
      ((before, after, e, o, d), h) =
    (
      (
        entry ++ before,
        after,
        ap (◌++◌ entry) e ∙ sym (append_assoc entry before _),
        omega (arith, length-append entry before),
        d,
      ),
      AllFiled-shift platform base entry bytes rest rs h,
    )

abbrev pub EntriesWritten :
    Platform → Feed EntrySource → Progress → List (List ℕ) → Progress → Type 0
EntriesWritten platform sources p chunks q =
    (rs : List CentralRecord) × (q.central ≡ p.central ++ rs)
    × (q.offset ≡ p.offset + length (concat chunks))
    × AllFiled platform p.offset (concat chunks) sources rs

entries_next :
    (platform : Platform) (source : EntrySource) (rest : Feed EntrySource) (p q t : Progress)
    (front back : List (List ℕ))
    → EntryWritten platform source p front q
    → EntriesWritten platform rest q back t
    → EntriesWritten platform (value source rest) p (front ++ back) t
entries_next platform source rest p q t front back (r, c, b, o, at, d) (rs, c', o', filed) =
    rw (concat-append front back, b)
      (
        r ∷ rs,
        c' ∙ rw c (append_assoc p.central (r ∷ []) rs),
        omega (arith, length-append (entry_bytes source r) (concat back)),
        (
          ([], concat back, refl, omega arith, d),
          AllFiled-shift platform p.offset (entry_bytes source r) (concat back) rest rs
              (subst (λ n. AllFiled platform n (concat back) rest rs) o filed),
        ),
      )

pub write_entries_lem :
    (platform : Platform) (sources : Feed EntrySource) (p : Progress)
    → AllBodies sources
    → Ends
        (EntriesWritten platform sources p (write_entries platform sources p).chunks)
        (Reason sources)
        (write_entries platform sources p).result
unfolding write_entries
write_entries_lem platform closed p b = ([], sym (append-nil p.central), omega arith, tt)
write_entries_lem platform failed p b = tt
write_entries_lem platform (value source rest) p (b, bs) =
    let entry = write_entry platform source p in
    let first =
      Ends-map {P = EntryWritten platform source p entry.chunks} entry.result (λ q h. h)
        (Reason-here source rest) (write_entry_lem platform source p b) in
    Ends-bind (EntriesWritten platform (value source rest) p) (Reason (value source rest))
      (EntryWritten platform source p) entry.chunks entry.result (write_entries platform rest) first
      (λ q h.
        let back = write_entries platform rest q in
        Ends-map {P = EntriesWritten platform rest q back.chunks} back.result
          (λ t k. entries_next platform source rest p q t entry.chunks back.chunks h k)
          (Reason-later source rest) (write_entries_lem platform rest q bs))
