-- ===== src/Archive/Directory/Tests.antt =====
-- A record of src/lib/zip.ts that a reader does not find again.
use localchune.Archive.Bytes.{field_bytes, encode_fields}
use localchune.Archive.Headers.{
  needs64, big_offset, big_size, extra_len, extra_fields, central_fields, CentralRecord,
}
use localchune.Archive.Directory.{read_central}
use localchune.Queue.Camelot.{codes}
use localchune.Common.{◌≡◌, refl, true, none}

-- The record of an entry with the 64-bit form that starts at the last 32-bit offset.
abbrev late_record : CentralRecord
late_record = record {
  name = codes "a";
  crc = 0;
  size = 1;
  offset = 4294967295;
  time = 0;
  date = 33;
  zip64 = true;
}

-- Its offset field is one of ones, and the ZIP64 block has no offset to stand for it.
late_record_test : read_central (encode_fields (central_fields late_record)) ≡ none
unfolding read_central central_fields encode_fields field_bytes extra_fields extra_len big_size
    big_offset needs64
late_record_test = refl
