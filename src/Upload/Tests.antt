-- ===== src/Upload/Tests.antt =====
-- The theorems on the upload policy at concrete inputs, and a test of the plan.
use localchune.Upload.Head.{
  check_head, check_listed, family_of, find_family, check_family, check_flac, skip_id3v2, skip_tags,
  tag_length, starts_with, has_top_bit, all_zeros, extension_of, extension_after, check_blob_head,
  ok, refused, magic_mismatch,
}
use localchune.Upload.Head.Flac.{Tag, flac_bytes, check_blob_head-flac}
use localchune.Queue.Camelot.{codes}
use localchune.Common.{List}
use localchune.Upload.Pump.Runs.{pump-ends, work, transfers, pump-results}
use localchune.Upload.Pump.Counts.{total, count_results}
use localchune.Upload.Pump.{
  PumpStep, ready_workers, start_pump, PumpReach, abort, settle, pull_from, pull, Pump, ready,
  rejected, pulls, settles, aborts, here, next,
}
use localchune.Upload.Policy.Accepted.{preflight-container, IsAcceptable, preflight-inherited}
use localchune.Common.{inr, inl, ◌⊎◌, ◌≤◌, [], ◌∷◌, false, ℕ, ◌≡◌, refl, none, some, arith}
use localchune.Upload.Policy.{
  max_bytes_for, find_extension, part_size_for, last_dot, preflight, plan_upload,
  container_from_filename, single, multipart, accepted, inherited, mp3,
}

plan_upload_test : plan_upload 60000000 ≡ multipart 16777216 4
unfolding plan_upload part_size_for
plan_upload_test = refl

preflight-container_example : IsAcceptable 1000 (some 200000) mp3 single
unfolding preflight container_from_filename last_dot find_extension max_bytes_for plan_upload
preflight-container_example = preflight-container "set.01.MP3" 1000 (some 200000) mp3 single refl

preflight-inherited_example :
    preflight "set.constructor" 1000000000000 none ≡ accepted inherited (plan_upload 1000000000000)
preflight-inherited_example =
    preflight-inherited "set.constructor" b's' (b'e' ∷ b't' ∷ []) (codes "constructor")
      1000000000000 none refl (inl refl) (omega arith) tt

-- Two tasks and one worker: the first task runs and fails, and the second is skipped.
abbrev first_pump : Pump ℕ
first_pump = record { tasks = 2; issued = 0; aborted = false; workers = ready ∷ []; results = [] }

abbrev running_pump : Pump ℕ
running_pump = pull 0 first_pump

abbrev failed_pump : Pump ℕ
failed_pump = abort (settle 0 0 (rejected "gone") running_pump)

abbrev skipped_pump : Pump ℕ
skipped_pump = pull 0 failed_pump

failed_run : PumpReach first_pump 2 failed_pump
unfolding pull pull_from settle abort
failed_run =
    next
      (next (next here (pulls first_pump 0 refl))
        (settles running_pump 0 0 (rejected "gone") refl tt))
      (aborts _)

whole_run : PumpReach first_pump 4 (pull 0 skipped_pump)
unfolding pull pull_from settle abort
whole_run = next (next failed_run (pulls failed_pump 0 refl)) (pulls skipped_pump 0 refl)

starts_first : start_pump 1 2 false ≡ some first_pump
unfolding start_pump ready_workers
starts_first = refl

none_working : total work (pull 0 skipped_pump).workers ≡ 0
unfolding pull pull_from settle abort
none_working = refl

pump-ends_example :
    (total transfers failed_pump.workers ≤ 1)
    × (2 ≤ 7)
    × ((total work failed_pump.workers ≡ 0) ⊎ ((u : Pump ℕ) × PumpStep failed_pump 1 u))
pump-ends_example = pump-ends 1 2 2 false first_pump failed_pump starts_first failed_run

pump-results_example : count_results 1 (pull 0 skipped_pump).results ≡ 1
pump-results_example =
    pump-results 1 2 4 false first_pump (pull 0 skipped_pump) starts_first whole_run none_working 1

-- A tag with a body of two bytes, and one with none but its footer.
abbrev two_tags : List Tag
two_tags =
    record { major = 4; minor = 0; flags = 0; s0 = 0; s1 = 0; s2 = 0; s3 = 2; body = 7 ∷ 8 ∷ [] }
    ∷ record {
      major = 4;
      minor = 0;
      flags = 16;
      s0 = 0;
      s1 = 0;
      s2 = 0;
      s3 = 0;
      body = 51 ∷ 68 ∷ 73 ∷ 4 ∷ 0 ∷ 16 ∷ 0 ∷ 0 ∷ 0 ∷ 0 ∷ [];
    }
    ∷ []

two_tags_test : check_head (some (codes "flac")) (flac_bytes two_tags (1 ∷ 2 ∷ [])) ≡ some ok
unfolding check_head check_listed family_of find_family check_family check_flac skip_id3v2 skip_tags
    tag_length starts_with has_top_bit all_zeros
two_tags_test = refl

no_magic_test :
    check_head (some (codes "flac")) (1 ∷ 2 ∷ 3 ∷ 4 ∷ 5 ∷ []) ≡ some (refused magic_mismatch)
unfolding check_head check_listed family_of find_family check_family check_flac skip_id3v2 skip_tags
    tag_length starts_with has_top_bit all_zeros
no_magic_test = refl

-- An extension that the table inherits gives neither verdict.
inherited_head_test : check_head (some (codes "constructor")) (1 ∷ 2 ∷ []) ≡ none
unfolding check_head check_listed family_of find_family check_family all_zeros
inherited_head_test = refl

check_blob_head-flac_example :
    check_blob_head "Set.FLAC" (some (flac_bytes two_tags (1 ∷ 2 ∷ []))) ≡ some ok
unfolding extension_of extension_after last_dot
check_blob_head-flac_example = check_blob_head-flac "Set.FLAC" two_tags (1 ∷ 2 ∷ []) refl (
  (omega arith, omega arith, omega arith, omega arith, inl (refl, refl)),
  ((omega arith, omega arith, omega arith, omega arith, inr (refl, refl)), tt),
)
