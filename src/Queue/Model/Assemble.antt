-- ===== src/Queue/Model/Assemble.antt =====
-- What the assembled queue holds: its length, its layout, and what it never repeats.
use localchune.Common.{
  ◌+◌, ◌-◌, ◌≤◌, ◌<◌, String, ◌≡◌, refl, inl, inr, true, false, ◌||◌, Option, none, some, List, [],
  ◌∷◌, ◌++◌, arith, Option-cases, length, length-append, length-take, take_of_length-le, All, has,
}
use localchune.Queue.Model.{has_any, identity_tokens, recording_of, recording_key}
use mathlib.Core.List.{Sublist}
use localchune.Queue.Model.{
  TrackIdentity, QueueEntry, QueueState, queue_max, head_size, head_of, identity_tokens, is_taken,
  take_tokens, take_all, take_current, excluded_keys, slots_for, fill, assemble_queue,
}
use localchune.Queue.Model.Fill.{
  SameTrack, Apart, Free, has_any-append, not-SameTrack, is_taken-false, fill-Free, length-fill-le,
  fill-full, fill-sublist,
}

-- The user's layer fits behind what is playing.
abbrev pub WithinCap : QueueState → Type 0
WithinCap s = length s.intent + head_size s.current ≤ queue_max

-- The automatic tail for the ranked entries `es`.
abbrev pub tail_of : QueueState → List QueueEntry → List QueueEntry
tail_of s es = fill (slots_for s).need (excluded_keys s) es

-- The assembled queue never has more than 25 entries, whatever the state and the ranking.
pub length-assemble_queue-le :
    (s : QueueState) (es : List QueueEntry) → length (assemble_queue s es) ≤ queue_max
unfolding assemble_queue
length-assemble_queue-le s es = omega (arith, length-take {0} queue_max _)

pub length-head_of : (o : Option QueueEntry) → length (head_of o) ≡ head_size o
length-head_of none = refl
length-head_of (some e) = refl

-- While the user's layer fits, the queue is what is playing, then the user's entries in their
-- order, then the tail: the slices cut nothing.
pub assemble_queue-layout :
    (s : QueueState) (es : List QueueEntry)
    → WithinCap s
    → assemble_queue s es ≡ head_of s.current ++ (s.intent ++ tail_of s es)
unfolding assemble_queue slots_for
assemble_queue-layout s es h =
    let slots = queue_max - head_size s.current in
    let tail = fill (slots - length s.intent) (excluded_keys s) es in
    let bound = length-fill-le (slots - length s.intent) (excluded_keys s) es in
    rw (take_of_length-le slots s.intent (omega arith)) (
      take_of_length-le queue_max _ (
        omega (
          arith,
          length-append {0} (head_of s.current) (s.intent ++ tail),
          length-append {0} s.intent tail,
          length-head_of s.current,
        )))

pub is_taken-append :
    (xs ys : List String) (e : TrackIdentity)
    → is_taken (xs ++ ys) e ≡ (is_taken xs e || is_taken ys e)
unfolding is_taken
is_taken-append xs ys e = has_any-append xs ys (identity_tokens e)

is_taken-take_all :
    (es : List QueueEntry) (taken : List String) (f : TrackIdentity)
    → is_taken (take_all taken es) f ≡ false
    → (is_taken taken f ≡ false) × All (λ e. ¬ SameTrack e.identity f) es
unfolding take_all
is_taken-take_all [] taken f h = (h, tt)
is_taken-take_all (e ∷ es) taken f h =
    let (a, b) = is_taken-take_all es (take_tokens taken e.identity) f h in
    (is_taken-false taken e.identity f a, (not-SameTrack taken e.identity f a, b))

is_taken-take_current :
    (o : Option QueueEntry) (f : TrackIdentity)
    → is_taken (take_current [] o) f ≡ false
    → All (λ e. ¬ SameTrack e.identity f) (head_of o)
unfolding take_current
is_taken-take_current none f h = tt
is_taken-take_current (some e) f h = (not-SameTrack [] e.identity f h, tt)

-- A list of tokens has no token of a recording, where one is known.
abbrev pub RecordingUnlisted : List String → Option String → Type 0
RecordingUnlisted taken none = Unit
RecordingUnlisted taken (some rec) = has taken (recording_key rec) ≡ false

-- A list of tokens has neither the file id of an identity nor its recording's key.
abbrev pub IsUnlisted : List String → TrackIdentity → Type 0
IsUnlisted taken f = (has taken f.file_id ≡ false) × RecordingUnlisted taken (recording_of f)

pub untaken-IsUnlisted :
    (taken : List String) (f : TrackIdentity) → is_taken taken f ≡ false → IsUnlisted taken f
unfolding is_taken has_any identity_tokens
untaken-IsUnlisted taken f h = elim (Option-cases (recording_of f)) [
  | inl p ↦ (let e = rw (p, is_taken, identity_tokens) at h in rw p (ground (arith, e), tt))
  | inr (rec, p) ↦
      let e = rw (p, is_taken, identity_tokens) at h in rw p (ground (arith, e), ground (arith, e))
]

pub unlisted-is_taken :
    (taken : List String) (f : TrackIdentity) → IsUnlisted taken f → is_taken taken f ≡ false
unfolding is_taken has_any identity_tokens
unlisted-is_taken taken f (a, b) = elim (Option-cases (recording_of f)) [
  | inl p ↦ rw (p, is_taken, identity_tokens) (ground (arith, a))
  | inr (rec, p) ↦ (let c = rw p at b in rw (p, is_taken, identity_tokens) (ground (arith, a, c)))
]

-- An identity of no queued track, and with no token in a list of the state.
pub record IsFresh (s : QueueState) (f : TrackIdentity) : Type 0 where
  pub not_current : All (λ e. ¬ SameTrack e.identity f) (head_of s.current)
  pub not_intent : All (λ e. ¬ SameTrack e.identity f) s.intent
  pub not_history : IsUnlisted s.history f
  pub not_failed : IsUnlisted s.failed f
  pub not_suppressed : IsUnlisted s.suppressed f

pub excluded_keys-IsFresh :
    (s : QueueState) (f : TrackIdentity) → is_taken (excluded_keys s) f ≡ false → IsFresh s f
unfolding excluded_keys
excluded_keys-IsFresh s f h =
    let pins = take_all (take_current [] s.current) s.intent in
    let e1 = is_taken-append s.suppressed (s.failed ++ (s.history ++ pins)) f in
    let e2 = is_taken-append s.failed (s.history ++ pins) f in
    let e3 = is_taken-append s.history pins f in
    let last : is_taken pins f ≡ false = ground arith in
    let (here, intent) = is_taken-take_all s.intent (take_current [] s.current) f last in
    record {
      not_current = is_taken-take_current s.current f here;
      not_intent = intent;
      not_history = untaken-IsUnlisted s.history f (ground arith);
      not_failed = untaken-IsUnlisted s.failed f (ground arith);
      not_suppressed = untaken-IsUnlisted s.suppressed f (ground arith);
    }

Free-IsFresh :
    (s : QueueState) (es : List QueueEntry)
    → Free (excluded_keys s) es
    → All (λ e. IsFresh s e.identity) es
Free-IsFresh s [] h = tt
Free-IsFresh s (e ∷ es) (p, h) = (excluded_keys-IsFresh s e.identity p, Free-IsFresh s es h)

-- Every entry of the tail is of a track that is not playing and not in the user's layer, neither its
-- file id nor its recording's key is in the history, the failures or the removals, and no two of its
-- entries are of one track.
pub tail_of-IsFresh :
    (s : QueueState) (es : List QueueEntry)
    → All (λ e. IsFresh s e.identity) (tail_of s es) × Apart (tail_of s es)
tail_of-IsFresh s es =
    let (free, apart) = fill-Free (slots_for s).need (excluded_keys s) es in
    (Free-IsFresh s (tail_of s es) free, apart)

-- The tail is shorter than the room for it only when every ranked entry is excluded or of a track
-- that the tail already has.
pub tail_of-full :
    (s : QueueState) (es : List QueueEntry)
    → length (tail_of s es) < (slots_for s).need
    → All (λ e. is_taken (take_all (excluded_keys s) (tail_of s es)) e.identity ≡ true) es
tail_of-full s es h = fill-full (slots_for s).need (excluded_keys s) es h

-- The tail keeps the order of the ranking.
pub tail_of-sublist : (s : QueueState) (es : List QueueEntry) → Sublist (tail_of s es) es
tail_of-sublist s es = fill-sublist (slots_for s).need (excluded_keys s) es
