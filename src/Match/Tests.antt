-- ===== src/Match/Tests.antt =====
-- src/lib/ber.ts: the theorem on the sweep at two short fingerprints, and runs of the comparison.
use localchune.Common.{
  ℕ, zero, suc, ◌+◌, ◌*◌, ◌%◌, ◌^◌, ◌≡◌, refl, true, false, none, some, List, [], ◌∷◌, arith, drop,
  All, All-drop,
}
use localchune.Match.Ber.{
  popcount32, faced, differing, bit_error_rate, aligned, is_lower, lower_of, offset_at,
  offsets_from, offsets, sweep, swept_of, sweep_offsets, duration_gate_passes, scored,
}
use localchune.Match.Ber.Range.{IsFrame, sweep_offsets-IsSwept, IsSwept}
use localchune.Common.Number.{pos}

-- `n` words that differ.
abbrev words : ℕ → ℕ → List ℕ
words zero x = []
words (suc n) x = x ∷ words n ((x * 1664525 + n) % 2 ^ 32)

abbrev long : List ℕ
long = words 66 12345

-- A copy that starts one frame late is found there, with no bit that differs.
sweep_late :
    sweep_offsets long (drop 1 long) 2 ≡ scored (record { bits = 0; overlap = 65; offset = pos 1 })
unfolding sweep_offsets swept_of sweep lower_of is_lower offsets offsets_from offset_at
    bit_error_rate aligned faced differing popcount32
sweep_late = refl

popcount32_word : popcount32 0xdeadbeef ≡ 24
unfolding popcount32
popcount32_word = refl

gate_unknown : duration_gate_passes none (some 1) ≡ true
unfolding duration_gate_passes
gate_unknown = refl

gate_far : duration_gate_passes (some 10001) (some 0) ≡ false
unfolding duration_gate_passes
gate_far = refl

words-IsFrame : (n x : ℕ) → IsFrame x → All IsFrame (words n x)
words-IsFrame zero x h = tt
words-IsFrame (suc n) x h = (h, words-IsFrame n ((x * 1664525 + n) % 2 ^ 32) (omega arith))

long_frames : All IsFrame long
long_frames = words-IsFrame 66 12345 (omega arith)

sweep_offsets-IsSwept_example : IsSwept long (drop 1 long) 2 (sweep_offsets long (drop 1 long) 2)
sweep_offsets-IsSwept_example =
    sweep_offsets-IsSwept long (drop 1 long) 2 long_frames (All-drop IsFrame 1 long long_frames)
