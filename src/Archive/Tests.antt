-- ===== src/Archive/Tests.antt =====
-- The theorems on archives at concrete inputs, and tests of the CRC and of the directory.
use localchune.Archive.Names.Numbered.{plain-KeepsNumbers, plain_host}
use localchune.Archive.Plan.Limits.{plan_crate_zip-IsPlan, IsPlan}
use localchune.Archive.Directory.RoundTrip.{read_directory-directory_bytes, shown}
use localchune.Archive.Crc.Blocks.{IsWord}
use localchune.Archive.Names.Safe.{clean-IsSafe, sanitize_segment-IsSafe, IsSafe}
use localchune.Archive.Names.{
  or_fallback, guard_device, strip_tail, drop_dots, is_among, is_device, collapse, legal_char,
  is_tail, or_nothing, is_illegal, sanitize_segment, TextHost,
}
use localchune.Archive.Crc.Rolling.{crc32-crc_serial, crc32_detects, crc32-append}
use localchune.Archive.Writer.Archived.{directory_bytes, zip_chunks-IsArchive, IsArchive}
use localchune.Archive.Writer.Layout.{Reason, AllBodies}
use localchune.Archive.Writer.Bodies.{Ends}
use localchune.Archive.Headers.{UtcDate, CentralRecord}
use localchune.Archive.Directory.{read_directory}
use localchune.Archive.Crc.{
  crc_serial, invert, shift_bit, shift_bits, crc_table, crc_slice, crc_bytes, crc_blocks, crc32,
}
use localchune.Common.{
  ◌≡◌, refl, ◌≢◌, inl, inr, true, false, none, some, [], ◌∷◌, ◌++◌, map, arith, keep,
}
use localchune.Archive.Writer.{EntrySource, zip_chunks, Feed, Platform, closed, value}
use localchune.Archive.Plan.{plan_crate_zip, has_key, CrateZipRow}
use localchune.Queue.Camelot.{trim_end, trim_start, is_space, to_upper, codes}

abbrev sample_date : UtcDate
sample_date = record { year = 2024; month = 1; day = 29; hours = 23; minutes = 59; seconds = 58 }

abbrev sample_platform : Platform
sample_platform = record { encode = codes; now = λ n. sample_date }

abbrev sample_sources : Feed EntrySource
sample_sources =
    value
      (record {
        name = "01 - A.flac";
        size = 5;
        body = value (1 ∷ 2 ∷ 3 ∷ []) (value [] (value (255 ∷ 0 ∷ []) closed));
        modified = none;
      })
      (value
        (record {
          name = "02 - B.mp3";
          size = 5000000000;
          body = value (7 ∷ []) closed;
          modified = some sample_date;
        })
        closed)

sample_bodies : AllBodies sample_sources
sample_bodies = (
  ((omega arith, (omega arith, (omega arith, tt))), (tt, ((omega arith, (omega arith, tt)), tt))),
  (((omega arith, tt), tt), tt),
)

zip_chunks-IsArchive_example :
    Ends
      (λ done.
        IsArchive sample_platform sample_sources (zip_chunks sample_platform sample_sources).chunks)
      (Reason sample_sources)
      (zip_chunks sample_platform sample_sources).result
zip_chunks-IsArchive_example = zip_chunks-IsArchive sample_platform sample_sources sample_bodies

crc32_test : crc32 (codes "123456789") 0 ≡ 0xcbf43926
unfolding crc32 crc_blocks crc_bytes crc_slice crc_table shift_bits shift_bit
crc32_test = refl

-- A record with 32-bit fields, and one whose size and offset need 64 bits.
abbrev small_record : CentralRecord
small_record = record {
  name = codes "a";
  crc = 1;
  size = 5;
  offset = 0;
  time = 0;
  date = 33;
  zip64 = false;
}

abbrev large_record : CentralRecord
large_record = record {
  name = codes "b";
  crc = 2;
  size = 4294967296;
  offset = 6000000000;
  time = 0;
  date = 33;
  zip64 = true;
}

read_directory-directory_bytes_example :
    read_directory 2 (directory_bytes (small_record ∷ large_record ∷ []) ++ (9 ∷ []))
    ≡ some (shown small_record ∷ shown large_record ∷ [], 9 ∷ [])
read_directory-directory_bytes_example =
    read_directory-directory_bytes (small_record ∷ large_record ∷ []) (9 ∷ []) (
      (
        omega arith,
        omega arith,
        omega arith,
        omega arith,
        omega arith,
        omega arith,
        λ e. absurd (omega (arith, e)),
        inr (omega arith, omega arith),
      ),
      (
        (
          omega arith,
          omega arith,
          omega arith,
          omega arith,
          omega arith,
          omega arith,
          λ e. absurd (omega (arith, e)),
          inl refl,
        ),
        tt,
      ),
    )

crc32-crc_serial_example :
    (crc32 (49 ∷ 50 ∷ 51 ∷ 52 ∷ 53 ∷ 54 ∷ 55 ∷ 56 ∷ 57 ∷ []) 0
      ≡ invert (crc_serial (49 ∷ 50 ∷ 51 ∷ 52 ∷ 53 ∷ 54 ∷ 55 ∷ 56 ∷ 57 ∷ []) (invert 0)))
    × IsWord (crc32 (49 ∷ 50 ∷ 51 ∷ 52 ∷ 53 ∷ 54 ∷ 55 ∷ 56 ∷ 57 ∷ []) 0)
crc32-crc_serial_example =
    crc32-crc_serial (49 ∷ 50 ∷ 51 ∷ 52 ∷ 53 ∷ 54 ∷ 55 ∷ 56 ∷ 57 ∷ []) 0
      (
        omega arith,
        (
          omega arith,
          (
            omega arith,
            (
              omega arith,
              (omega arith, (omega arith, (omega arith, (omega arith, (omega arith, tt))))),
            ),
          ),
        ),
      )
      (omega arith)

crc32-append_example :
    crc32 (4 ∷ 5 ∷ []) (crc32 (1 ∷ 2 ∷ 3 ∷ []) 0) ≡ crc32 (1 ∷ 2 ∷ 3 ∷ 4 ∷ 5 ∷ []) 0
crc32-append_example =
    crc32-append (1 ∷ 2 ∷ 3 ∷ []) (4 ∷ 5 ∷ []) 0 (omega arith, (omega arith, (omega arith, tt)))
      (omega arith, (omega arith, tt)) (omega arith)

crc32_detects_example : crc32 (1 ∷ 2 ∷ 7 ∷ 3 ∷ []) 0 ≢ crc32 (1 ∷ 2 ∷ 8 ∷ 3 ∷ []) 0
crc32_detects_example =
    crc32_detects (1 ∷ 2 ∷ []) (3 ∷ []) 7 8 0 (omega arith, (omega arith, tt)) (omega arith, tt)
      (omega arith) (omega arith) (omega arith) (λ e. absurd (omega (arith, e)))

abbrev sample_host : TextHost
sample_host = record { nfc = λ s. s; lower = map to_upper; clock = 0 }

crate-IsSafe : IsSafe (codes "crate")
unfolding is_illegal is_tail is_device is_among
crate-IsSafe =
    clean-IsSafe (codes "crate")
      ((refl, (refl, (refl, (refl, (refl, tt))))), refl, refl, refl, λ e. absurd (ground arith))

sanitize_segment-IsSafe_example :
    IsSafe (sanitize_segment sample_host (some (codes "..//AC/DC: <live> . ")) (codes "crate"))
sanitize_segment-IsSafe_example =
    sanitize_segment-IsSafe sample_host (some (codes "..//AC/DC: <live> . ")) (codes "crate")
      crate-IsSafe

-- A device name with an extension is left as it is.
device_extension_test :
    sanitize_segment sample_host (some (codes "con.mix")) (codes "crate") ≡ codes "con.mix"
unfolding sanitize_segment or_nothing legal_char is_illegal collapse is_space trim_start trim_end
    drop_dots strip_tail is_tail guard_device is_device is_among or_fallback
device_extension_test = refl

sanitize_segment_test :
    sanitize_segment sample_host (some (codes "..con ")) (codes "crate") ≡ codes "_con"
unfolding sanitize_segment or_nothing legal_char is_illegal collapse is_space trim_start trim_end
    drop_dots strip_tail is_tail guard_device is_device is_among or_fallback
sanitize_segment_test = refl

abbrev sample_row : CrateZipRow
sample_row = record {
  file_id = "f";
  r2_key = some "k";
  original_filename = none;
  display_artist = some (codes "A");
  display_title = some (codes "B");
  container = some (codes "flac");
  byte_size = some 1000;
}

plan_crate_zip-IsPlan_example :
    IsPlan plain_host
      (keep has_key (sample_row ∷ sample_row ∷ []))
      (plan_crate_zip plain_host (sample_row ∷ sample_row ∷ []) none)
plan_crate_zip-IsPlan_example =
    plan_crate_zip-IsPlan plain_host (sample_row ∷ sample_row ∷ []) none plain-KeepsNumbers
