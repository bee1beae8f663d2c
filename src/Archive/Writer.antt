-- ===== src/Archive/Writer.antt =====
-- src/lib/zip.ts: `zipChunks`, as the chunks that it yields and how it ends.
pub mod Bodies
pub mod Entries
pub mod Layout
pub mod Archived
use localchune.Archive.Crc.{u32_max, crc32}
use localchune.Archive.Headers.{
  data_descriptor, dos_date, dos_time, local_header, central_header, end_of_central_directory,
  UtcDate, CentralRecord,
}
use localchune.Common.{
  ℕ, zero, suc, ◌+◌, ◌-◌, ◌*◌, ◌/◌, ◌%◌, ◌^◌, ◌≤◌, ◌<◌, min, max, String, ◌≡◌, refl, sym, ap, subst,
  ◌∙◌, ◌≡⟨◌⟩◌, ◌∎, ◌≢◌, ◌↔◌, ◌⊎◌, inl, inr, Bool, true, false, not, ◌&&◌, ◌||◌, Option, none, some,
  List, [], ◌∷◌, ◌++◌, map, arith, dec_lt, dec_le, ℕ_discrete, ltb, leb, ◌==◌, if◌then◌else◌,
  Bool-cases, Option-cases, dec_str, same, length, get_elem?, take, drop, keep, find_index,
  remove_at, insert_at, set, length-append, length-take, length-drop, take_of_length-le,
  length-keep-le, length-map, All, All-append, All-take, All-drop, All-keep, has, has-append,
  has_self, Uniq, Uniq-append, unique_by, has-take, has-of_take, has-drop, has-keep, Uniq-take,
  Uniq-drop, Uniq-keep, has-keep-not, unique_by-fresh, unique_by-Uniq, has-unique_by, has-drop-suc,
  has-remove_at, has-at, Uniq-remove_at, has-of_unique_by, All-of_has,
}

-- What an async iterator gives to the loop that reads it: values, then its end or its failure.
pub data Feed (A : Type 0) : Type 0 where
  closed : Feed A
  failed : Feed A
  value : A → Feed A → Feed A

pub record EntrySource : Type 0 where
  pub name : String
  pub size : ℕ
  pub body : Feed (List ℕ)
  pub modified : Option UtcDate

-- What the platform gives: `TextEncoder`, and the clock when so many entries have been written.
pub record Platform : Type 0 where
  pub encode : String → List ℕ
  pub now : ℕ → UtcDate

-- Why the generator throws: a read that rejects, an entry past 4 GiB, or a `Packer` out of range.
pub data Fault : Type 0 where
  read_failed : Fault
  outgrew : String → Fault
  out_of_range : Fault

pub data Result (A : Type 0) : Type 0 where
  ok : A → Result A
  threw : Fault → Result A

pub record Written (A : Type 0) : Type 0 where
  pub chunks : List (List ℕ)
  pub result : Result A

abbrev pub wrote : {A : Type 0} → List (List ℕ) → Result A → Written A
wrote chunks result = record { chunks = chunks; result = result }

unfoldable pub then_on : {A B : Type 0} → List (List ℕ) → Result A → (A → Written B) → Written B
then_on chunks (threw e) f = wrote chunks (threw e)
then_on chunks (ok a) f = wrote (chunks ++ (f a).chunks) (f a).result

infixl 5 ◌>>=◌
abbrev pub ◌>>=◌ : {A B : Type 0} → Written A → (A → Written B) → Written B
m >>= f = then_on m.chunks m.result f

-- `yield chunk`, and a chunk that a `Packer` makes or throws.
abbrev pub emit : List ℕ → Written Unit
emit chunk = wrote (chunk ∷ []) (ok tt)

unfoldable pub emit_packed : Option (List ℕ) → Written ℕ
emit_packed none = wrote [] (threw out_of_range)
emit_packed (some chunk) = wrote (chunk ∷ []) (ok (length chunk))

unfoldable pub put_front : {A : Type 0} → List ℕ → Written A → Written A
put_front chunk m = wrote (chunk ∷ m.chunks) m.result

-- The `for (;;)` over the reads of a body, to the CRC and the number of the bytes written.
unfoldable pub copy_body : String → Bool → Feed (List ℕ) → ℕ → ℕ → Written (ℕ × ℕ)
copy_body name zip64 closed crc written = wrote [] (ok (crc, written))
copy_body name zip64 failed crc written = wrote [] (threw read_failed)
copy_body name zip64 (value chunk rest) crc written =
    let skip = copy_body name zip64 rest crc written in
    let next = copy_body name zip64 rest (crc32 chunk crc) (written + length chunk) in
    if length chunk == 0
    then skip
    else if not zip64 && ltb u32_max (written + length chunk)
    then wrote [] (threw (outgrew name))
    else put_front chunk next

-- `offset` and `central`, which the loop over the sources keeps.
pub record Progress : Type 0 where
  pub offset : ℕ
  pub central : List CentralRecord

unfoldable pub modified_at : Platform → ℕ → Option UtcDate → UtcDate
modified_at platform count (some d) = d
modified_at platform count none = platform.now count

-- `zip64`, decided before the first byte of an entry goes out.
unfoldable pub starts_zip64 : EntrySource → Progress → Bool
starts_zip64 source p = ltb u32_max source.size || ltb u32_max p.offset

-- What `central.push` keeps of an entry.
unfoldable pub central_record : Platform → EntrySource → Progress → ℕ × ℕ → CentralRecord
central_record platform source p (crc, written) =
    let d = modified_at platform (length p.central) source.modified in
    record {
      name = platform.encode source.name;
      crc = crc;
      size = written;
      offset = p.offset;
      time = dos_time d;
      date = dos_date d;
      zip64 = starts_zip64 source p;
    }

-- One round of the loop over the sources.
unfoldable pub write_entry : Platform → EntrySource → Progress → Written Progress
write_entry platform source p =
    let name = platform.encode source.name in
    let d = modified_at platform (length p.central) source.modified in
    let zip64 = starts_zip64 source p in
    do
      header ← emit_packed (local_header name (dos_time d) (dos_date d) zip64)
      (crc, written) ← copy_body source.name zip64 source.body 0 0
      descriptor ← emit_packed (data_descriptor crc written zip64)
      wrote [] (
          ok (record {
            offset = p.offset + header + written + descriptor;
            central = p.central ++ central_record platform source p (crc, written) ∷ [];
          }))

unfoldable pub write_entries : Platform → Feed EntrySource → Progress → Written Progress
write_entries platform closed p = wrote [] (ok p)
write_entries platform failed p = wrote [] (threw read_failed)
write_entries platform (value source rest) p =
    write_entry platform source p >>= write_entries platform rest

-- The loop over `central`, to `cdSize` and `anyZip64`.
unfoldable pub write_directory : List CentralRecord → ℕ → Bool → Written (ℕ × Bool)
write_directory [] cd_size any_zip64 = wrote [] (ok (cd_size, any_zip64))
write_directory (r ∷ rs) cd_size any_zip64 =
    let wide = any_zip64 || r.zip64 || ltb u32_max r.size || ltb u32_max r.offset in
    emit_packed (central_header r) >>= (λ n. write_directory rs (cd_size + n) wide)

unfoldable pub zip_chunks : Platform → Feed EntrySource → Written Unit
zip_chunks platform sources = do
  p ← write_entries platform sources (record { offset = 0; central = [] })
  (cd_size, any_zip64) ← write_directory p.central 0 false
  eocd ← emit_packed (end_of_central_directory (length p.central) cd_size p.offset any_zip64)
  wrote [] (ok tt)
