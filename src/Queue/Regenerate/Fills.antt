-- ===== src/Queue/Regenerate/Fills.antt =====
-- The automatic tail fills its room whenever the candidates allow it.
use localchune.Queue.Model.Assemble.{length-head_of, tail_of, assemble_queue-layout}
use localchune.Queue.Regenerate.Entries.{
  length-entries_of, entries_of-Apart, entries_of-All, Offered,
}
use mathlib.Core.List.{append-nil}
use localchune.Queue.Strategies.Walk.{method_label, select, fallback_method}
use localchune.Queue.Engine.Valid.{IsValid}
use localchune.Queue.Strategies.Contract.{select-IsSelection, distinct}
use text.Mathlib.TextLemmas.{append_cancel_left}
use localchune.Queue.Model.Fill.{
  is_taken-take_tokens, fill-push, Free, same_recording, same_file, SameTrack, Apart,
}
use localchune.Queue.Regenerate.Collapse.{collapse_by_recording-recs, recs}
use localchune.Queue.Regenerate.{
  picked_ids, context_of, with_fetched, fall_back, seen_at, preferred_copy, collapse_by_recording,
  offered_to, collapse_from, better_at, entries_of,
}
use localchune.Common.{
  length-append, has-of_unique_by, ◌-◌, ◌+◌, All-keep, ltb, ℕ, zero, suc, ◌≤◌, min, String, ◌≡◌,
  refl, sym, ap, ◌∙◌, ◌≢◌, inl, inr, false, not, some, List, [], ◌∷◌, ◌++◌, arith, Bool-cases,
  Option-cases, length, get_elem?, keep, set, All, All-append, has, Uniq,
}
use localchune.Queue.Strategies.{StrategyContext, track_id_of, Host, TrackFeatures}
use localchune.Queue.Model.{
  head_of, slots_for, head_size, AutoMethod, recording_token, excluded_keys, take_tokens,
  identity_tokens, fill, recording_key, is_taken, has_any, TrackIdentity, recording_of, QueueState,
  QueueEntry,
}

-- A file id that is no recording's token; the ids of the database are.
abbrev pub IsFileId : String → Type 0
IsFileId id = (r : String) → id ≢ recording_key r

pub tokens_apart :
    (e f : TrackIdentity)
    → IsFileId e.file_id
    → IsFileId f.file_id
    → ¬ SameTrack e f
    → has_any (identity_tokens e) (identity_tokens f) ≡ false
unfolding has_any has identity_tokens
tokens_apart e f p q n =
    let files : e.file_id ≢ f.file_id = λ h. n (same_file h) in
    elim (Option-cases (recording_of e)) [
      | inl a ↦ elim (Option-cases (recording_of f)) [
        | inl b ↦ rw (a, identity_tokens, b) (ground arith)
        | inr (r, b) ↦ rw (a, identity_tokens, b) (let x = p r in ground arith)
      ]
      | inr (r, a) ↦ elim (Option-cases (recording_of f)) [
        | inl b ↦
            rw (a, identity_tokens, b)
              (let x : recording_key r ≢ f.file_id = λ h. q r (sym h) in ground arith)
        | inr (r', b) ↦
            let y : recording_key r ≢ recording_key r' = λ h. n (
              same_recording r a (b ∙ ap some (sym (append_cancel_left recording_token r r' h)))) in
            let x : recording_key r ≢ f.file_id = λ h. q r (sym h) in
            rw (a, identity_tokens, b) (let z = p r' in ground arith)
      ]
    ]

Free-more :
    (taken : List String) (x : TrackIdentity) (xs : List QueueEntry)
    → IsFileId x.file_id
    → All (λ f. IsFileId f.file_id) xs
    → All (λ f. ¬ SameTrack x f.identity) xs
    → Free taken xs
    → Free (take_tokens taken x) xs
Free-more taken x [] p q n h = tt
Free-more taken x (f ∷ xs) p (q, qs) (n, ns) (h, hs) = (
  ground (arith, is_taken-take_tokens taken x f.identity, tokens_apart x f.identity p q n),
  Free-more taken x xs p qs ns hs,
)

-- Entries that are free and apart go into the tail, up to its room.
fill-prefix :
    (room : ℕ) (taken : List String) (xs ys : List QueueEntry)
    → All (λ f. IsFileId f.file_id) xs
    → Free taken xs
    → Apart xs
    → min room (length xs) ≤ length (fill room taken (xs ++ ys))
fill-prefix zero taken xs ys q h k = omega arith
fill-prefix (suc room) taken [] ys q h k = omega arith
fill-prefix (suc room) taken (x ∷ xs) ys (q, qs) (h, hs) (n, k) =
    let more = take_tokens taken x.identity in
    omega (
      arith,
      ap length (fill-push room taken x (xs ++ ys) h),
      fill-prefix room more xs ys qs (Free-more taken x.identity xs q qs n hs) k,
    )

All-set {ℓ κ} :
    {A : Type ℓ} (P : A → Type κ) (xs : List A) (i : ℕ) (y : A)
    → P y
    → All P xs
    → All P (set xs i y)
All-set P [] i y p h = tt
All-set P (x ∷ xs) zero y p (q, h) = (p, h)
All-set P (x ∷ xs) (suc i) y p (q, h) = (q, All-set P xs i y p h)

module _ (P : TrackIdentity → Type 0) (host : Host) where
  abbrev Holds : List TrackFeatures → Type 0
  Holds = All (λ c. P c.identity)

  better_at-All :
      (c : TrackFeatures) (out : List TrackFeatures) (i : ℕ)
      → P c.identity
      → Holds out
      → Holds (better_at host c out i)
  better_at-All c out i p h = elim (Option-cases (get_elem? out i)) [
    | inl gone ↦ rw (gone, better_at) h
    | inr (t, found) ↦ elim (Bool-cases (preferred_copy host c t)) [
      | inl better ↦ rw (found, better_at, better) (All-set (λ c. P c.identity) out i c p h)
      | inr worse ↦ rw (found, better_at, worse) h
    ]
  ]

  collapse_from-All :
      (at : List (String × ℕ)) (out cs : List TrackFeatures)
      → Holds out
      → Holds cs
      → Holds (collapse_from host at out cs)
  unfolding collapse_from
  collapse_from-All at out [] h k = h
  collapse_from-All at out (c ∷ cs) h (p, k) =
      let longer = All-append (λ (c : TrackFeatures). P c.identity) out (c ∷ []) h (p, tt) in
      elim (Option-cases (recording_of c.identity)) [
        | inl e ↦ rw (e, collapse_from) (collapse_from-All at (out ++ c ∷ []) cs longer k)
        | inr (rec, e) ↦ elim (Option-cases (seen_at at rec)) [
          | inl new ↦
              rw (e, collapse_from, new)
                (collapse_from-All ((rec, length out) ∷ at) (out ++ c ∷ []) cs longer k)
          | inr (i, old) ↦
              rw (e, collapse_from, old)
                (collapse_from-All at (better_at host c out i) cs (better_at-All c out i p h) k)
        ]
      ]

module _ (host : Host) (s : QueueState) (fetched : List TrackFeatures) where
  keep-Free :
      (taken : List String) (cs : List TrackFeatures)
      → All
          (λ c. is_taken taken c.identity ≡ false)
          (keep (λ c. not (is_taken taken c.identity)) cs)
  keep-Free taken [] = tt
  keep-Free taken (c ∷ cs) = ground (arith, keep-Free taken cs)

  offered_to-Free :
      All (λ c. is_taken (excluded_keys s) c.identity ≡ false) (offered_to host s fetched)
  unfolding offered_to collapse_by_recording
  offered_to-Free =
      collapse_from-All (λ t. is_taken (excluded_keys s) t ≡ false) host [] [] _ tt
        (keep-Free (excluded_keys s) fetched)

offered_to-proper :
    (host : Host) (s : QueueState) (fetched : List TrackFeatures)
    → All (λ c. IsFileId c.file_id) fetched
    → All (λ c. IsFileId c.file_id) (offered_to host s fetched)
unfolding offered_to collapse_by_recording
offered_to-proper host s fetched h =
    collapse_from-All (λ t. IsFileId t.file_id) host [] [] _ tt
      (All-keep (λ (c : TrackFeatures). IsFileId c.file_id)
        (λ c. not (is_taken (excluded_keys s) c.identity)) fetched h)

offered_to-once :
    (host : Host) (s : QueueState) (fetched : List TrackFeatures)
    → Uniq (recs (offered_to host s fetched))
unfolding offered_to
offered_to-once host s fetched =
    (collapse_by_recording-recs host
      (keep (λ c. not (is_taken (excluded_keys s) c.identity)) fetched)).0

entries_of-append :
    (label : String) (cands : List TrackFeatures) (xs ys : List String)
    → entries_of label cands (xs ++ ys) ≡ entries_of label cands xs ++ entries_of label cands ys
unfolding entries_of
entries_of-append label cands [] ys = refl
entries_of-append label cands (x ∷ xs) ys = ground (arith, entries_of-append label cands xs ys)

fall_back-prefix :
    (host : Host) (method : AutoMethod) (ctx : StrategyContext) (picked : List String)
    → (more : List String) × (fall_back host method ctx picked ≡ picked ++ more)
unfolding fall_back
fall_back-prefix host method ctx picked = elim (Bool-cases (ltb (length picked) ctx.need)) [
  | inl short ↦ elim (Option-cases (fallback_method method)) [
    | inl no_other ↦ ([], rw (short, no_other) (sym (append-nil picked)))
    | inr (other, p) ↦
        let rest : StrategyContext = record ctx {
          candidates = keep (λ c. not (has picked (track_id_of c))) ctx.candidates;
          need = ctx.need - length picked;
        } in
        (select host other rest, rw (short, p) refl)
  ]
  | inr full ↦ ([], rw full (sym (append-nil picked)))
]

-- How many files the candidates offer after the collapse.
abbrev pub files_offered : Host → QueueState → List TrackFeatures → ℕ
files_offered host s fetched = length (distinct (context_of s (offered_to host s fetched)))

-- The room of the tail or the files that the strategy is offered, whichever is less, are filled.
pub with_fetched-offered :
    (host : Host) (s : QueueState) (fetched : List TrackFeatures)
    → IsValid s
    → s.method ≢ AutoMethod.off
    → All (λ c. IsFileId c.file_id) fetched
    → head_size s.current
        + (length s.intent + min (slots_for s).need (files_offered host s fetched))
      ≤ length (with_fetched host s fetched)
unfolding with_fetched picked_ids
with_fetched-offered host s fetched v on proper =
    let cands = offered_to host s fetched in
    let ctx = context_of s cands in
    let sel = select host s.method ctx in
    let label = method_label s.method in
    let chosen = select-IsSelection host s.method ctx on in
    let once = offered_to-once host s fetched in
    let o : Offered label cands once sel =
      λ k h. has-of_unique_by track_id_of [] cands k (chosen.offered k h) in
    let (more, split) = fall_back-prefix host s.method ctx sel in
    let entries = entries_of label cands sel in
    let later = entries_of label cands more in
    let es : entries_of label cands (fall_back host s.method ctx sel) ≡ entries ++ later =
      ap (entries_of label cands) split ∙ entries_of-append label cands sel more in
    let ids_ok =
      entries_of-All label cands once (λ t. IsFileId t.file_id) sel o
        (offered_to-proper host s fetched proper) in
    let free =
      entries_of-All label cands once (λ t. is_taken (excluded_keys s) t ≡ false) sel o
        (offered_to-Free host s fetched) in
    let apart = entries_of-Apart label cands once sel o chosen.once in
    let filled = fill-prefix (slots_for s).need (excluded_keys s) entries later ids_ok free apart in
    rw (es, assemble_queue-layout s (entries ++ later) v.cap)
      (omega (
        arith,
        filled,
        length-entries_of label cands once sel o,
        chosen.size,
        length-append {0} (head_of s.current) (s.intent ++ tail_of s (entries ++ later)),
        length-append {0} s.intent (tail_of s (entries ++ later)),
        length-head_of s.current,
      ))
