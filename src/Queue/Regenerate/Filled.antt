-- ===== src/Queue/Regenerate/Filled.antt =====
-- The tail takes as many tracks of the fetched rows as it has room for: `regenerate` of
-- src/lib/queue-engine.ts.
use localchune.Common.{
  ℕ, zero, suc, ◌+◌, ◌≤◌, min, String, ◌≡◌, refl, sym, ap, subst, ◌∙◌, ◌≢◌, inl, inr, Bool, true,
  false, not, Option, none, some, List, [], ◌∷◌, ◌++◌, arith, Bool-cases, Option-cases, length,
  get_elem?, keep, length-map, All, has, has_self, Uniq, unique_by, Uniq-keep,
}
use mathlib.Core.Option.{some-injective}
use localchune.Queue.Regenerate.Kept.{
  keys, files, track_key, collapse_by_recording-keys, collapse_by_recording-files,
}
use localchune.Queue.Regenerate.Fills.{IsFileId, tokens_apart, files_offered, with_fetched-offered}
use localchune.Queue.Regenerate.{offered_to, with_fetched}
use localchune.Queue.Strategies.{Host, TrackFeatures, track_id_of}
use localchune.Queue.Model.Assemble.{IsFresh, is_taken-append, unlisted-is_taken}
use localchune.Queue.Model.Fill.{SameTrack, same_file, same_recording, is_taken-take_tokens}
use localchune.Queue.Engine.Valid.{IsValid}
use localchune.Queue.Model.{
  has_any, identity_tokens, recording_of, recording_token, TrackIdentity, QueueState, QueueEntry,
  AutoMethod, head_of, head_size, slots_for, take_all, take_current, take_tokens, excluded_keys,
  is_taken,
}
use localchune.Queue.Regenerate.Counting.{length_of-Uniq}
use text.Mathlib.TextLemmas.{append_cancel_left}

track_key-SameTrack :
    (e f : TrackIdentity)
    → IsFileId e.file_id
    → IsFileId f.file_id
    → track_key e ≡ track_key f
    → SameTrack e f
track_key-SameTrack e f p q h = elim (Option-cases (recording_of e)) [
  | inl a ↦ elim (Option-cases (recording_of f)) [
    | inl b ↦ same_file (rw (a, b, track_key) at h)
    | inr (r, b) ↦ absurd (p r (rw (a, b, track_key) at h))
  ]
  | inr (r, a) ↦ elim (Option-cases (recording_of f)) [
    | inl b ↦ absurd (q r (sym (rw (a, b, track_key) at h)))
    | inr (r', b) ↦
        let e = append_cancel_left recording_token r r' (rw (a, b, track_key) at h) in
        same_recording r a (b ∙ ap some (sym e))
  ]
]

-- No two rows are of one track.
abbrev pub ApartRows : List TrackFeatures → Type 0
ApartRows [] = Unit
ApartRows (c ∷ cs) = All (λ d. ¬ SameTrack c.identity d.identity) cs × ApartRows cs

-- A row of a list.
abbrev pub IsRow : List TrackFeatures → TrackFeatures → Type 0
IsRow rows c = (i : ℕ) × (get_elem? rows i ≡ some c)

abbrev pub IsFile : TrackFeatures → Type 0
IsFile c = IsFileId c.file_id

not_listed :
    (c : TrackFeatures) (cs : List TrackFeatures)
    → IsFile c
    → All IsFile cs
    → All (λ d. ¬ SameTrack c.identity d.identity) cs
    → has (keys cs) (track_key c.identity) ≡ false
unfolding has
not_listed c [] p q n = refl
not_listed c (d ∷ cs) p (q, qs) (n, ns) =
    let apart : track_key d.identity ≢ track_key c.identity =
      λ e. n (track_key-SameTrack c.identity d.identity p q (sym e)) in
    ground (arith, apart, not_listed c cs p qs ns)

ApartRows-Uniq : (cs : List TrackFeatures) → All IsFile cs → ApartRows cs → Uniq (keys cs)
ApartRows-Uniq [] q h = tt
ApartRows-Uniq (c ∷ cs) (p, q) (n, h) = (not_listed c cs p q n, ApartRows-Uniq cs q h)

All-row {ℓ} :
    {A : Type ℓ} (P : A → Type 0) (xs : List A) (i : ℕ) (x : A)
    → get_elem? xs i ≡ some x
    → All P xs
    → P x
All-row P [] i x h all = cc
All-row P (y ∷ xs) zero x h (p, all) = subst P (some-injective _ _ h) p
All-row P (y ∷ xs) (suc i) x h (p, all) = All-row P xs i x h all

kept_row :
    (test : TrackFeatures → Bool) (rows : List TrackFeatures) (i : ℕ) (c : TrackFeatures)
    → get_elem? rows i ≡ some c
    → test c ≡ true
    → has (keys (keep test rows)) (track_key c.identity) ≡ true
unfolding has
kept_row test [] i c h t = cc
kept_row test (x ∷ rows) zero c h t =
    let e = some-injective _ _ h in
    let yes : test x ≡ true = subst (λ u. test u ≡ true) (sym e) t in
    rw yes (
      subst (λ (u : TrackFeatures). has (keys (x ∷ keep test rows)) (track_key u.identity) ≡ true) e
        (has_self (keys (keep test rows)) (track_key x.identity)))
kept_row test (x ∷ rows) (suc i) c h t = elim (Bool-cases (test x)) [
  | inl e ↦ rw e (ground (arith, kept_row test rows i c h t))
  | inr e ↦ rw e (kept_row test rows i c h t)
]

has-keep_file :
    (test : TrackFeatures → Bool) (rows : List TrackFeatures)
    → Uniq (files rows)
    → Uniq (files (keep test rows))
has-keep_file test rows h = Uniq-keep (λ (c : TrackFeatures). c.file_id) test rows h

All-of_none : (ks : List String) → All (λ k. has [] k ≡ false) ks
unfolding has
All-of_none [] = tt
All-of_none (k ∷ ks) = (refl, All-of_none ks)

seen_more :
    (y : String) (seen ks : List String)
    → has ks y ≡ false
    → All (λ k. has seen k ≡ false) ks
    → All (λ k. has (y ∷ seen) k ≡ false) ks
unfolding has
seen_more y seen [] n h = tt
seen_more y seen (k ∷ ks) n (p, h) =
    (ground (arith, n, p), seen_more y seen ks (ground (arith, n)) h)

fresh_seen :
    (seen : List String) (rows : List TrackFeatures)
    → All (λ k. has seen k ≡ false) (files rows)
    → Uniq (files rows)
    → length (unique_by track_id_of seen rows) ≡ length rows
unfolding unique_by has
fresh_seen seen [] h u = refl
fresh_seen seen (x ∷ rows) (p, h) (n, u) =
    rw p (ap suc (fresh_seen (x.file_id ∷ seen) rows (seen_more x.file_id seen (files rows) n h) u))

-- A queue whose entries are of files, and a row that is fresh for it, are apart.
free_user :
    (taken : List String) (es : List QueueEntry) (f : TrackIdentity)
    → IsFileId f.file_id
    → All (λ e. IsFileId e.file_id) es
    → All (λ e. ¬ SameTrack e.identity f) es
    → is_taken taken f ≡ false
    → is_taken (take_all taken es) f ≡ false
unfolding take_all
free_user taken [] f p q n h = h
free_user taken (e ∷ es) f p (q, qs) (n, ns) h =
    free_user (take_tokens taken e.identity) es f p qs ns
      (ground (arith, h, is_taken-take_tokens taken e.identity f, tokens_apart e.identity f q p n))

none_taken : (ts : List String) → has_any [] ts ≡ false
unfolding has_any has
none_taken [] = refl
none_taken (t ∷ ts) = none_taken ts

free_current :
    (o : Option QueueEntry) (f : TrackIdentity)
    → IsFileId f.file_id
    → All (λ e. IsFileId e.file_id) (head_of o)
    → All (λ e. ¬ SameTrack e.identity f) (head_of o)
    → is_taken (take_current [] o) f ≡ false
unfolding take_current is_taken
free_current none f p q n = none_taken (identity_tokens f)
free_current (some e) f p (q, qs) (n, ns) = ground (
  arith,
  tokens_apart e.identity f q p n,
  none_taken (identity_tokens f),
  is_taken-take_tokens [] e.identity f,
)

fresh-is_taken :
    (s : QueueState) (f : TrackIdentity)
    → IsFileId f.file_id
    → All (λ e. IsFileId e.file_id) (head_of s.current)
    → All (λ e. IsFileId e.file_id) s.intent
    → IsFresh s f
    → is_taken (excluded_keys s) f ≡ false
unfolding excluded_keys
fresh-is_taken s f p q r h =
    let pins = take_all (take_current [] s.current) s.intent in
    let last : is_taken pins f ≡ false =
      free_user (take_current [] s.current) s.intent f p r h.not_intent
        (free_current s.current f p q h.not_current) in
    ground (
      arith,
      last,
      unlisted-is_taken s.suppressed f h.not_suppressed,
      unlisted-is_taken s.failed f h.not_failed,
      unlisted-is_taken s.history f h.not_history,
      is_taken-append s.suppressed (s.failed ++ (s.history ++ pins)) f,
      is_taken-append s.failed (s.history ++ pins) f,
      is_taken-append s.history pins f,
    )

module _ (host : Host) (s : QueueState) (fetched : List TrackFeatures) (once : Uniq (files fetched))
    (here : All (λ e. IsFileId e.file_id) (head_of s.current))
    (user : All (λ e. IsFileId e.file_id) s.intent) where
  abbrev test : TrackFeatures → Bool
  test c = not (is_taken (excluded_keys s) c.identity)

  files_offered-length : files_offered host s fetched ≡ length (offered_to host s fetched)
  unfolding offered_to has
  files_offered-length =
      let apart =
        collapse_by_recording-files host (keep test fetched) (has-keep_file test fetched once) in
      fresh_seen [] (offered_to host s fetched) (All-of_none (files (offered_to host s fetched)))
        apart

  picked_keys :
      (picks : List TrackFeatures)
      → All IsFile picks
      → All (IsRow fetched) picks
      → All (λ c. IsFresh s c.identity) picks
      → All (λ k. has (keys (offered_to host s fetched)) k ≡ true) (keys picks)
  unfolding offered_to
  picked_keys [] p q r = tt
  picked_keys (c ∷ picks) (p, ps) ((i, h), qs) (r, rs) =
      let free = fresh-is_taken s c.identity p here user r in
      let passes : test c ≡ true = ground (arith, free) in
      (
        collapse_by_recording-keys host (keep test fetched) (track_key c.identity)
            (kept_row test fetched i c h passes),
        picked_keys picks ps qs rs,
      )

rows-IsFile :
    (fetched picks : List TrackFeatures)
    → All IsFile fetched
    → All (IsRow fetched) picks
    → All IsFile picks
rows-IsFile fetched [] h q = tt
rows-IsFile fetched (c ∷ picks) h ((i, e), q) =
    (All-row IsFile fetched i c e h, rows-IsFile fetched picks h q)

-- In a valid state whose method is not off, where no file's id has the form of a recording's key and the
-- fetched rows are of different files: take any of the fetched rows, no two of one track and each of a
-- track that is not playing, not in the user's layer and without a token in the history, the failures
-- or the removals; then the regenerated queue has what is playing, the user's layer and, up to the room
-- of the tail, at least as many entries as rows were taken.
pub with_fetched-fills :
    (host : Host) (s : QueueState) (fetched picks : List TrackFeatures)
    → IsValid s
    → s.method ≢ AutoMethod.off
    → All IsFile fetched
    → All (λ e. IsFileId e.file_id) (head_of s.current)
    → All (λ e. IsFileId e.file_id) s.intent
    → Uniq (files fetched)
    → All (IsRow fetched) picks
    → All (λ c. IsFresh s c.identity) picks
    → ApartRows picks
    → head_size s.current + (length s.intent + min (slots_for s).need (length picks))
      ≤ length (with_fetched host s fetched)
with_fetched-fills host s fetched picks v on proper here user once rows fresh apart =
    let picked = rows-IsFile fetched picks proper rows in
    let offered = offered_to host s fetched in
    omega (
      arith,
      with_fetched-offered host s fetched v on proper,
      files_offered-length host s fetched once here user,
      length_of-Uniq (keys picks) (keys offered) (ApartRows-Uniq picks picked apart)
          (picked_keys host s fetched once here user picks picked rows fresh),
      length-map (λ (c : TrackFeatures). track_key c.identity) picks,
      length-map (λ (c : TrackFeatures). track_key c.identity) offered,
    )
