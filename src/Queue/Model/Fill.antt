-- ===== src/Queue/Model/Fill.antt =====
-- The loop that fills the automatic tail of the queue.

use localchune.Common.{
  ℕ, zero, suc, ◌≤◌, ◌<◌, String, ◌≡◌, refl, sym, ap, subst, inl, inr, true, false, ◌||◌, some,
  List, [], ◌∷◌, ◌++◌, arith, Bool-cases, Option-cases, length, All, has, has-append, has_self,
}
use mathlib.Core.List.{Sublist, nil-sublist}
use mathlib.Core.List.Sublist
use localchune.Queue.Model.{
  TrackIdentity, QueueEntry, recording_of, recording_key, identity_tokens, has_any, is_taken,
  take_tokens, take_all, fill,
}

-- Two identities of one track: the same file, or the same known recording.
pub data SameTrack (e f : TrackIdentity) : Type 0 where
  same_file : e.file_id ≡ f.file_id → SameTrack e f
  same_recording : (r : String) → recording_of e ≡ some r → recording_of f ≡ some r → SameTrack e f

-- No two entries of the list are of one track.
abbrev pub Apart : List QueueEntry → Type 0
Apart [] = Unit
Apart (e ∷ es) = All (λ f. ¬ SameTrack e.identity f.identity) es × Apart es

pub has_any-append :
    (xs ys ts : List String) → has_any (xs ++ ys) ts ≡ (has_any xs ts || has_any ys ts)
unfolding has_any
has_any-append xs ys [] = refl
has_any-append xs ys (t ∷ ts) = ground (arith, has-append xs ys t, has_any-append xs ys ts)

pub is_taken-take_tokens :
    (taken : List String) (e f : TrackIdentity)
    → is_taken (take_tokens taken e) f
      ≡ (has_any (identity_tokens e) (identity_tokens f) || is_taken taken f)
unfolding is_taken take_tokens
is_taken-take_tokens taken e f = has_any-append (identity_tokens e) taken (identity_tokens f)

has_any_common :
    (xs ys : List String) (k : String) → has xs k ≡ true → has ys k ≡ true → has_any xs ys ≡ true
unfolding has has_any
has_any_common xs [] k h j = cc
has_any_common xs (y ∷ ys) k h j = ground (arith, has_any_common xs ys k)

has-file_id : (e : TrackIdentity) → has (identity_tokens e) e.file_id ≡ true
unfolding identity_tokens
has-file_id e = elim (Option-cases (recording_of e)) [
  | inl p ↦ rw (p, identity_tokens) (has_self _ _)
  | inr (r, p) ↦ rw (p, identity_tokens) (has_self _ _)
]

has-recording :
    (e : TrackIdentity) (r : String)
    → recording_of e ≡ some r
    → has (identity_tokens e) (recording_key r) ≡ true
unfolding identity_tokens has
has-recording e r p = rw (p, identity_tokens) (ground arith)

-- Entries of one track have a token in common.
pub SameTrack-has_any :
    {e f : TrackIdentity} → SameTrack e f → has_any (identity_tokens e) (identity_tokens f) ≡ true
SameTrack-has_any {e} {f} (same_file p) =
    has_any_common _ _ f.file_id (subst (λ k. has (identity_tokens e) k ≡ true) p (has-file_id e))
      (has-file_id f)
SameTrack-has_any {e} {f} (same_recording r p q) =
    has_any_common _ _ _ (has-recording e r p) (has-recording f r q)

-- What an entry's tokens exclude is not of its track.
pub not-SameTrack :
    (taken : List String) (e f : TrackIdentity)
    → is_taken (take_tokens taken e) f ≡ false
    → ¬ SameTrack e f
not-SameTrack taken e f h = λ s. ground (arith, SameTrack-has_any s, is_taken-take_tokens taken e f)

pub is_taken-false :
    (taken : List String) (e f : TrackIdentity)
    → is_taken (take_tokens taken e) f ≡ false
    → is_taken taken f ≡ false
is_taken-false taken e f h = ground (arith, is_taken-take_tokens taken e f)

-- The free entries, apart from what is taken.
abbrev pub Free : List String → List QueueEntry → Type 0
Free taken = All (λ e. is_taken taken e.identity ≡ false)

Free-weaken :
    (taken : List String) (e : TrackIdentity) (es : List QueueEntry)
    → Free (take_tokens taken e) es
    → Free taken es × All (λ f. ¬ SameTrack e f.identity) es
Free-weaken taken e [] h = (tt, tt)
Free-weaken taken e (f ∷ es) (h, k) =
    let (a, b) = Free-weaken taken e es k in
    ((is_taken-false taken e f.identity h, a), (not-SameTrack taken e f.identity h, b))

-- The loop takes nothing that is excluded, and no track twice.
pub fill-Free :
    (room : ℕ) (taken : List String) (es : List QueueEntry)
    → Free taken (fill room taken es) × Apart (fill room taken es)
unfolding fill
fill-Free zero taken es = (tt, tt)
fill-Free (suc room) taken [] = (tt, tt)
fill-Free (suc room) taken (e ∷ es) = elim (Bool-cases (is_taken taken e.identity)) [
  | inl old ↦ rw old (fill-Free (suc room) taken es)
  | inr new ↦
      let (free, apart) = fill-Free room (take_tokens taken e.identity) es in
      let (a, b) = Free-weaken taken e.identity _ free in rw new ((new, a), (b, apart))
]

pub length-fill-le :
    (room : ℕ) (taken : List String) (es : List QueueEntry) → length (fill room taken es) ≤ room
unfolding fill
length-fill-le zero taken es = omega arith
length-fill-le (suc room) taken [] = omega arith
length-fill-le (suc room) taken (e ∷ es) = ground (
  arith,
  length-fill-le (suc room) taken es,
  length-fill-le room (take_tokens taken e.identity) es,
)

is_taken-take_self :
    (taken : List String) (e : TrackIdentity) → is_taken (take_tokens taken e) e ≡ true
is_taken-take_self taken e =
    ground
      (arith, is_taken-take_tokens taken e e, SameTrack-has_any {e = e} {f = e} (same_file refl))

is_taken-take_all :
    (es : List QueueEntry) (taken : List String) (f : TrackIdentity)
    → is_taken taken f ≡ true
    → is_taken (take_all taken es) f ≡ true
unfolding take_all
is_taken-take_all [] taken f h = h
is_taken-take_all (e ∷ es) taken f h =
    is_taken-take_all es (take_tokens taken e.identity) f
      (ground (arith, is_taken-take_tokens taken e.identity f))

module _ (room : ℕ) (taken : List String) (e : QueueEntry) (es : List QueueEntry) where
  fill-skip :
      is_taken taken e.identity ≡ true → fill (suc room) taken (e ∷ es) ≡ fill (suc room) taken es
  unfolding fill
  fill-skip h = rw h

  pub fill-push :
      is_taken taken e.identity ≡ false
      → fill (suc room) taken (e ∷ es) ≡ e ∷ fill room (take_tokens taken e.identity) es
  unfolding fill
  fill-push h = rw h

-- The loop leaves room only when every entry is excluded or of a track that it took.
pub fill-full :
    (room : ℕ) (taken : List String) (es : List QueueEntry)
    → length (fill room taken es) < room
    → All (λ e. is_taken (take_all taken (fill room taken es)) e.identity ≡ true) es
unfolding take_all
fill-full zero taken es h = absurd (omega arith)
fill-full (suc room) taken [] h = tt
fill-full (suc room) taken (e ∷ es) h = elim (Bool-cases (is_taken taken e.identity)) [
  | inl old ↦
      let e1 = fill-skip room taken e es old in
      subst (λ t. All (λ f. is_taken (take_all taken t) f.identity ≡ true) (e ∷ es)) (sym e1)
        (
          is_taken-take_all (fill (suc room) taken es) taken e.identity old,
          fill-full (suc room) taken es (rw e1 at h),
        )
  | inr new ↦
      let more = take_tokens taken e.identity in
      let e1 = fill-push room taken e es new in
      subst (λ t. All (λ f. is_taken (take_all taken t) f.identity ≡ true) (e ∷ es)) (sym e1)
        (
          is_taken-take_all (fill room more es) more e.identity
              (is_taken-take_self taken e.identity),
          fill-full room more es (omega (arith, ap length e1)),
        )
]

-- The loop keeps the order of the ranking.
pub fill-sublist :
    (room : ℕ) (taken : List String) (es : List QueueEntry) → Sublist (fill room taken es) es
unfolding fill
fill-sublist zero taken es = nil-sublist es
fill-sublist (suc room) taken [] = nil-sublist []
fill-sublist (suc room) taken (e ∷ es) = elim (Bool-cases (is_taken taken e.identity)) [
  | inl old ↦ rw old (Sublist.cons e (fill-sublist (suc room) taken es))
  | inr new ↦ rw new (Sublist.cons-cons e (fill-sublist room (take_tokens taken e.identity) es))
]
