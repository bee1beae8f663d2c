-- ===== src/Upload/Policy/Parts.antt =====
-- The parts of a file: their ranges tile it, and there are at most 10,000.
use localchune.Common.{ℕ, suc, ◌+◌, ◌*◌, ◌≤◌, ◌<◌, min, ◌≡◌, none, some}
use native.Mathlib.Nat.{mul-le-mul_right}
use localchune.Upload.Policy.{
  multipart_threshold_bytes, single, multipart, part_range, UploadPlan, max_parts, part_size_bytes,
}
use native.Mathlib.Nat.{mul-le-mul_right}

-- The range of each part, the last one's end, and the next part.
pub record IsTiling (size part_size count : ℕ) : Type 0 where
  pub few : count ≤ max_parts
  pub large : part_size_bytes ≤ part_size
  pub ranges :
      (k : ℕ)
      → k < count
      → part_range (suc k) part_size size
        ≡ some (record { start = k * part_size; end = min (k * part_size + part_size) size })
  pub all : size ≤ count * part_size
  pub past : part_range (suc count) part_size size ≡ none

-- The plan for a size is tiled, whatever the parts.
abbrev pub IsTiled : ℕ → UploadPlan → Type 0
IsTiled size single = size < multipart_threshold_bytes
IsTiled size (multipart part_size count) = IsTiling size part_size count
