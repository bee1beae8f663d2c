-- ===== src/Archive/Writer/Archived.antt =====
-- What the chunks of `zipChunks` of src/lib/zip.ts are together, and when there are all of them.
use localchune.Archive.Writer.Entries.{packed-Ends, Starts}
use localchune.Archive.Writer.Layout.{
  write_entries_lem, EntriesWritten, Reason, AllFiled, AllBodies,
}
use localchune.Archive.Headers.Sizes.{end_of_central_directory_lem, central_header_lem, end_bytes}
use localchune.Archive.Writer.Bodies.{concat-append, Ends-map, Ends-bind, Ends, concat}
use localchune.Archive.Crc.{u32_max}
use localchune.Archive.Bytes.{encode_fields}
use localchune.Archive.Headers.{
  end_of_central_directory, central_header, central_fields, u16_max, CentralRecord,
}
use mathlib.Core.List.{append-nil}
use localchune.Common.{
  ℕ, ◌+◌, ◌≡◌, refl, Bool, false, ◌||◌, List, [], ◌∷◌, ◌++◌, arith, ltb, length, length-append,
}
use localchune.Archive.Writer.{
  write_entries, emit_packed, Progress, Fault, EntrySource, zip_chunks, write_directory, Feed,
  Platform,
}

-- The directory, as bytes.
abbrev pub directory_bytes : List CentralRecord → List ℕ
directory_bytes [] = []
directory_bytes (r ∷ rs) = encode_fields (central_fields r) ++ directory_bytes rs

-- Some entry has the 64-bit form.
abbrev pub any_wide : Bool → List CentralRecord → Bool
any_wide seen [] = seen
any_wide seen (r ∷ rs) = any_wide (seen || r.zip64 || ltb u32_max r.size || ltb u32_max r.offset) rs

abbrev DirectoryWritten : List CentralRecord → ℕ → Bool → List (List ℕ) → ℕ × Bool → Type 0
DirectoryWritten rs n seen chunks out =
    (concat chunks ≡ directory_bytes rs)
    × (out.0 ≡ n + length (directory_bytes rs))
    × (out.1 ≡ any_wide seen rs)

directory_next :
    (r : CentralRecord) (rs : List CentralRecord) (n : ℕ) (seen : Bool)
    → (front back : List (List ℕ)) (k : ℕ) (out : ℕ × Bool)
    → front ≡ encode_fields (central_fields r) ∷ []
    → k ≡ length (encode_fields (central_fields r))
    → DirectoryWritten rs
        (n + k)
        (seen || r.zip64 || ltb u32_max r.size || ltb u32_max r.offset)
        back
        out
    → DirectoryWritten (r ∷ rs) n seen (front ++ back) out
directory_next r rs n seen front back k out c e (p, q, w) = (
  rw (c, p) refl,
  omega (arith, length-append (encode_fields (central_fields r)) (directory_bytes rs)),
  w,
)

write_directory_lem :
    (rs : List CentralRecord) (n : ℕ) (seen : Bool) (F : Fault → Type 0)
    → Ends
        (DirectoryWritten rs n seen (write_directory rs n seen).chunks)
        F
        (write_directory rs n seen).result
unfolding write_directory
write_directory_lem [] n seen F = (refl, omega arith, refl)
write_directory_lem (r ∷ rs) n seen F =
    let bytes = encode_fields (central_fields r) in
    let wide = seen || r.zip64 || ltb u32_max r.size || ltb u32_max r.offset in
    Ends-bind (DirectoryWritten (r ∷ rs) n seen) F (Starts bytes) _ _ _
      (packed-Ends (central_header r) bytes F (central_header_lem r).0)
      (λ k (c, e).
        let back = write_directory rs (n + k) wide in
        Ends-map {P = DirectoryWritten rs (n + k) wide back.chunks} back.result
          (λ out h.
            directory_next r rs n seen (emit_packed (central_header r)).chunks back.chunks k out c e
              h)
          (λ x h. h) (write_directory_lem rs (n + k) wide F))

-- The whole archive, for the records of its entries and the bytes in front of the directory.
abbrev pub archive_bytes : List CentralRecord → List ℕ → List ℕ
archive_bytes rs front =
    let directory = directory_bytes rs in
    let wide =
      any_wide false rs
      || ltb u16_max (length rs)
      || ltb u32_max (length directory)
      || ltb u32_max (length front) in
    front ++ (directory ++ end_bytes (length rs) (length directory) (length front) wide)

-- The chunks are an archive of the sources.
abbrev pub IsArchive : Platform → Feed EntrySource → List (List ℕ) → Type 0
IsArchive platform sources chunks =
    (rs : List CentralRecord) × (front : List ℕ) × (concat chunks ≡ archive_bytes rs front)
    × AllFiled platform 0 front sources rs

IsArchive-done :
    (platform : Platform) (sources : Feed EntrySource) (p : Progress)
    → (front middle last : List (List ℕ)) (out : ℕ × Bool)
    → EntriesWritten platform sources (record { offset = 0; central = [] }) front p
    → DirectoryWritten p.central 0 false middle out
    → last
      ≡ end_bytes
          (length p.central)
          out.0
          p.offset
          (out.1 || ltb u16_max (length p.central) || ltb u32_max out.0 || ltb u32_max p.offset)
        ∷ []
    → IsArchive platform sources (front ++ (middle ++ (last ++ [])))
IsArchive-done platform sources p front middle last out (rs, c, o, filed) (d, n, w) l = (
  rs,
  concat front,
  rw (concat-append front, concat-append middle, l, d, append-nil, size, start, w, c) refl,
  filed,
)
  where
    size : out.0 ≡ length (directory_bytes p.central)
    size = omega arith

    start : p.offset ≡ length (concat front)
    start = omega arith

-- For bodies of bytes, the chunks of a run that finishes are the entries of the sources in their
-- order, then the directory, then its end: each record has the name, the CRC, the size and the offset
-- of its entry, and the end has the count, the size and the offset of the directory. A run that
-- throws does so because a read fails, or an entry that said less than 4 GiB has more.
pub zip_chunks-IsArchive :
    (platform : Platform) (sources : Feed EntrySource)
    → AllBodies sources
    → Ends
        (λ done. IsArchive platform sources (zip_chunks platform sources).chunks)
        (Reason sources)
        (zip_chunks platform sources).result
unfolding zip_chunks
zip_chunks-IsArchive platform sources b =
    let begin : Progress = record { offset = 0; central = [] } in
    let entries = write_entries platform sources begin in
    Ends-bind (λ chunks done. IsArchive platform sources chunks) (Reason sources)
      (EntriesWritten platform sources begin) entries.chunks entries.result _
      (write_entries_lem platform sources begin b)
      (λ p written.
        let middle = write_directory p.central 0 false in
        Ends-bind (λ chunks done. IsArchive platform sources (entries.chunks ++ chunks))
          (Reason sources) (DirectoryWritten p.central 0 false) middle.chunks middle.result _
          (write_directory_lem p.central 0 false (Reason sources))
          (λ out directory.
            let packed = end_of_central_directory (length p.central) out.0 p.offset out.1 in
            let last = emit_packed packed in
            Ends-bind
              (λ chunks done.
                IsArchive platform sources (entries.chunks ++ (middle.chunks ++ chunks)))
              (Reason sources) (Starts _) last.chunks last.result _
              (packed-Ends packed _ (Reason sources)
                (end_of_central_directory_lem (length p.central) out.0 p.offset out.1))
              (λ n ended.
                IsArchive-done platform sources p entries.chunks middle.chunks last.chunks out
                  written directory ended.0)))
