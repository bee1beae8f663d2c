-- ===== src/Queue/Regenerate/Kept.antt =====
-- The collapse by recording loses no track and no file occurs twice after it.
use localchune.Common.{
  ℕ, zero, suc, String, ◌≡◌, refl, ap, subst, inl, inr, true, false, ◌||◌, none, some, List, [],
  ◌∷◌, ◌++◌, map, arith, Bool-cases, Option-cases, length, get_elem?, set, has, has-append,
  has_self, Uniq,
}
use mathlib.Core.Option.{some-injective}
use mathlib.Core.List.{append-nil}
use localchune.Queue.Regenerate.Collapse.{
  IsIndex, append_free, append_new, replace_held, empty-IsIndex,
}
use localchune.Queue.Regenerate.{
  collapse_by_recording, preferred_copy, collapse_from, better_at, seen_at,
}
use localchune.Queue.Strategies.{Host, TrackFeatures}
use localchune.Queue.Model.{recording_of, recording_key, TrackIdentity}

-- What tells two tracks apart: the recording where it is known, or else the file.
abbrev pub track_key : TrackIdentity → String
track_key e = elim (recording_of e) [ none ↦ e.file_id | some r ↦ recording_key r ]

abbrev pub keys : List TrackFeatures → List String
keys cs = map (λ c. track_key c.identity) cs

abbrev pub files : List TrackFeatures → List String
files cs = map (λ c. c.file_id) cs

keys-append : (xs ys : List TrackFeatures) → keys (xs ++ ys) ≡ keys xs ++ keys ys
keys-append [] ys = refl
keys-append (x ∷ xs) ys = rw (keys-append xs ys) refl

keys-set :
    (ts : List TrackFeatures) (i : ℕ) (c t : TrackFeatures)
    → get_elem? ts i ≡ some t
    → track_key t.identity ≡ track_key c.identity
    → keys (set ts i c) ≡ keys ts
keys-set [] i c t h e = refl
keys-set (x ∷ ts) zero c t h e = ground arith
keys-set (x ∷ ts) (suc i) c t h e = ground (arith, keys-set ts i c t h e)

keys-has :
    (ts : List TrackFeatures) (i : ℕ) (t : TrackFeatures)
    → get_elem? ts i ≡ some t
    → has (keys ts) (track_key t.identity) ≡ true
unfolding has
keys-has [] i t h = cc
keys-has (x ∷ ts) zero t h =
    subst (λ (u : TrackFeatures). has (keys (x ∷ ts)) (track_key u.identity) ≡ true)
      (some-injective _ _ h) (has_self (keys ts) (track_key x.identity))
keys-has (x ∷ ts) (suc i) t h = ground (arith, keys-has ts i t h)

key_of-recording :
    (e f : TrackIdentity) (r : String)
    → recording_of e ≡ some r
    → recording_of f ≡ some r
    → track_key e ≡ track_key f
key_of-recording e f r p q = rw (p, track_key, q) refl

better_at-keys :
    (host : Host) (at : List (String × ℕ)) (out : List TrackFeatures) (c : TrackFeatures)
    (r : String) (i : ℕ)
    → recording_of c.identity ≡ some r
    → seen_at at r ≡ some i
    → IsIndex at out
    → (keys (better_at host c out i) ≡ keys out) × (has (keys out) (track_key c.identity) ≡ true)
better_at-keys host at out c r i p old ix =
    let (t, found, q) = ix.known r i old in
    let e = key_of-recording t.identity c.identity r q p in
    let held = subst (λ k. has (keys out) k ≡ true) e (keys-has out i t found) in
    elim (Bool-cases (preferred_copy host c t)) [
      | inl better ↦ rw (found, better_at, better) (keys-set out i c t found e, held)
      | inr worse ↦ rw (found, better_at, worse) (refl, held)
    ]

collapse_from-keys :
    (host : Host) (at : List (String × ℕ)) (out cs : List TrackFeatures) (k : String)
    → IsIndex at out
    → (has (keys out) k || has (keys cs) k) ≡ true
    → has (keys (collapse_from host at out cs)) k ≡ true
unfolding collapse_from has
collapse_from-keys host at out [] k ix h = ground (arith, h)
collapse_from-keys host at out (c ∷ cs) k ix h =
    let more : (has (keys (out ++ c ∷ [])) k || has (keys cs) k) ≡ true = ground (
      arith,
      h,
      ap (λ (l : List String). has l k) (keys-append out (c ∷ [])),
      has-append (keys out) (track_key c.identity ∷ []) k,
    ) in
    elim (Option-cases (recording_of c.identity)) [
      | inl p ↦
          let rest =
            collapse_from-keys host at (out ++ c ∷ []) cs k (append_free at out c p ix) more in
          rw (p, collapse_from) rest
      | inr (rec, p) ↦ elim (Option-cases (seen_at at rec)) [
        | inl new ↦
            let rest =
              collapse_from-keys host ((rec, length out) ∷ at) (out ++ c ∷ []) cs k
                (append_new at out c rec p new ix) more in
            rw (p, collapse_from, new) rest
        | inr (i, old) ↦
            let (ix', kept) = replace_held host at out c rec i p old ix in
            let (e, held) = better_at-keys host at out c rec i p old ix in
            let rest =
              collapse_from-keys host at (better_at host c out i) cs k ix'
                (ground (arith, h, held, ap (λ (l : List String). has l k) e)) in
            rw (p, collapse_from, old) rest
      ]
    ]

-- Each track of the candidates has a row after the collapse.
pub collapse_by_recording-keys :
    (host : Host) (cs : List TrackFeatures) (k : String)
    → has (keys cs) k ≡ true
    → has (keys (collapse_by_recording host cs)) k ≡ true
unfolding collapse_by_recording has
collapse_by_recording-keys host cs k h =
    collapse_from-keys host [] [] cs k empty-IsIndex (ground (arith, h))

-- The files of the rows stay apart.
Uniq-without : (xs ys : List String) (k : String) → Uniq (xs ++ k ∷ ys) → Uniq (xs ++ ys)
unfolding has
Uniq-without [] ys k (p, h) = h
Uniq-without (x ∷ xs) ys k (p, h) =
    (ground (arith, p, has-append xs (k ∷ ys) x, has-append xs ys x), Uniq-without xs ys k h)

Uniq-middle : (xs ys : List String) (k : String) → Uniq (xs ++ k ∷ ys) → has (xs ++ ys) k ≡ false
unfolding has
Uniq-middle [] ys k (p, h) = p
Uniq-middle (x ∷ xs) ys k (p, h) =
    ground (arith, p, has-append xs (k ∷ ys) x, Uniq-middle xs ys k h)

has-set :
    (xs ys : List String) (i : ℕ) (k x : String)
    → has (xs ++ k ∷ ys) x ≡ false
    → has (set xs i k ++ ys) x ≡ false
unfolding has
has-set [] ys i k x h = ground (arith, h)
has-set (y ∷ xs) ys zero k x h = ground (arith, h, has-append xs (k ∷ ys) x, has-append xs ys x)
has-set (y ∷ xs) ys (suc i) k x h = ground (arith, h, has-set xs ys i k x)

Uniq-set :
    (xs ys : List String) (i : ℕ) (k : String) → Uniq (xs ++ k ∷ ys) → Uniq (set xs i k ++ ys)
Uniq-set [] ys i k (p, h) = h
Uniq-set (x ∷ xs) ys zero k (p, h) = (Uniq-middle xs ys k h, Uniq-without xs ys k h)
Uniq-set (x ∷ xs) ys (suc i) k (p, h) = (has-set xs ys i k x p, Uniq-set xs ys i k h)

files-append : (xs ys : List TrackFeatures) → files (xs ++ ys) ≡ files xs ++ files ys
files-append [] ys = refl
files-append (x ∷ xs) ys = rw (files-append xs ys) refl

files-set :
    (ts : List TrackFeatures) (i : ℕ) (c : TrackFeatures)
    → files (set ts i c) ≡ set (files ts) i c.file_id
files-set [] i c = refl
files-set (x ∷ ts) zero c = refl
files-set (x ∷ ts) (suc i) c = rw (files-set ts i c) refl

append_assoc {ℓ} :
    {A : Type ℓ} (xs : List A) (y : A) (ys : List A) → (xs ++ y ∷ []) ++ ys ≡ xs ++ y ∷ ys
append_assoc [] y ys = refl
append_assoc (x ∷ xs) y ys = rw (append_assoc xs y ys) refl

better_at-files :
    (host : Host) (out : List TrackFeatures) (c : TrackFeatures) (i : ℕ) (ys : List String)
    → Uniq (files out ++ c.file_id ∷ ys)
    → Uniq (files (better_at host c out i) ++ ys)
better_at-files host out c i ys h = elim (Option-cases (get_elem? out i)) [
  | inl gone ↦ rw (gone, better_at) (Uniq-without (files out) ys c.file_id h)
  | inr (t, found) ↦ elim (Bool-cases (preferred_copy host c t)) [
    | inl better ↦
        rw (found, better_at, better, files-set out i c) (Uniq-set (files out) ys i c.file_id h)
    | inr worse ↦ rw (found, better_at, worse) (Uniq-without (files out) ys c.file_id h)
  ]
]

collapse_from-files :
    (host : Host) (at : List (String × ℕ)) (out cs : List TrackFeatures)
    → Uniq (files out ++ files cs)
    → Uniq (files (collapse_from host at out cs))
unfolding collapse_from
collapse_from-files host at out [] h = subst Uniq (append-nil (files out)) h
collapse_from-files host at out (c ∷ cs) h =
    let longer : Uniq (files (out ++ c ∷ []) ++ files cs) =
      rw (files-append out (c ∷ []), append_assoc (files out) c.file_id (files cs)) h in
    elim (Option-cases (recording_of c.identity)) [
      | inl p ↦ rw (p, collapse_from) (collapse_from-files host at (out ++ c ∷ []) cs longer)
      | inr (rec, p) ↦ elim (Option-cases (seen_at at rec)) [
        | inl new ↦
            rw (p, collapse_from, new)
              (collapse_from-files host ((rec, length out) ∷ at) (out ++ c ∷ []) cs longer)
        | inr (i, old) ↦
            rw (p, collapse_from, old)
              (collapse_from-files host at (better_at host c out i) cs
                (better_at-files host out c i (files cs) h))
      ]
    ]

-- Rows of files that differ are of files that differ after the collapse.
pub collapse_by_recording-files :
    (host : Host) (cs : List TrackFeatures)
    → Uniq (files cs)
    → Uniq (files (collapse_by_recording host cs))
unfolding collapse_by_recording
collapse_by_recording-files host cs h = collapse_from-files host [] [] cs h
