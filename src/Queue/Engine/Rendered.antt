-- ===== src/Queue/Engine/Rendered.antt =====
-- The events that address the array that was rendered from the same state.
use mathlib.Core.List.{append_assoc, map-append, append-nil}
use mathlib.Core.Path.{ap₂}
use localchune.Common.{
  ℕ, zero, suc, ◌-◌, String, ◌≡◌, refl, ap, ◌∙◌, Bool, true, false, List, [], ◌∷◌, ◌++◌, arith,
  length, drop, keep, All, All-drop, has, has-append, has_self, Uniq, Uniq-append, All-of_has,
}
use localchune.Queue.Model.{TrackIdentity, QueueEntry, QueueState, head_of, assemble_queue}
use localchune.Queue.Engine.{entry_id, ids}
use localchune.Queue.Model.Assemble.{
  length-assemble_queue-le, tail_of, tail_of-IsFresh, IsFresh, assemble_queue-layout,
}
use localchune.Queue.Model.Fill.{SameTrack, same_file, Apart}
use localchune.Queue.Engine.Valid.{IsValid, Fits}

drop-append {ℓ} :
    {A : Type ℓ} (n : ℕ) (xs ys : List A) → drop n (xs ++ ys) ≡ drop n xs ++ drop (n - length xs) ys
drop-append zero xs ys = ap (λ (k : ℕ). xs ++ drop k ys) (zero_sub (length xs))
  where
    zero_sub : (m : ℕ) → 0 ≡ 0 - m
    zero_sub m = omega arith
drop-append (suc n) [] ys = ap (λ (k : ℕ). drop k ys) (sub_zero n)
  where
    sub_zero : (m : ℕ) → suc m ≡ suc m - 0
    sub_zero m = omega arith
drop-append (suc n) (x ∷ xs) ys =
    drop-append n xs ys ∙ ap (λ (k : ℕ). drop n xs ++ drop k ys) (suc_sub n (length xs))
  where
    suc_sub : (m k : ℕ) → m - k ≡ suc m - suc k
    suc_sub m k = omega arith

keep-append {ℓ} :
    {A : Type ℓ} (p : A → Bool) (xs ys : List A) → keep p (xs ++ ys) ≡ keep p xs ++ keep p ys
keep-append p [] ys = refl
keep-append p (x ∷ xs) ys = ground (arith, keep-append p xs ys)

keep-All {ℓ} : {A : Type ℓ} (p : A → Bool) (xs : List A) → All (λ x. p x ≡ true) xs → keep p xs ≡ xs
keep-All p [] h = refl
keep-All p (x ∷ xs) (q, h) = rw (q, keep-All p xs h)

keep_none {ℓ} :
    {A : Type ℓ} (p : A → Bool) (xs : List A) → All (λ x. p x ≡ false) xs → keep p xs ≡ []
keep_none p [] h = refl
keep_none p (x ∷ xs) (q, h) = rw (q, keep_none p xs h)

-- An identity of none of the entries' tracks has none of their files.
has-ids :
    (f : TrackIdentity) (es : List QueueEntry)
    → All (λ e. ¬ SameTrack e.identity f) es
    → has (ids es) f.file_id ≡ false
unfolding has
has-ids f [] h = refl
has-ids f (e ∷ es) (p, h) =
    ground (arith, has-ids f es h, λ (q : e.file_id ≡ f.file_id). p (same_file q))

module _ (s : QueueState) (es : List QueueEntry) where
  tail_not_in :
      (ts : List QueueEntry)
      → All (λ e. IsFresh s e.identity) ts
      → All (λ e. has (ids s.intent) (entry_id e) ≡ false) ts
  tail_not_in [] h = tt
  tail_not_in (t ∷ ts) (p, h) = (has-ids t.identity s.intent p.not_intent, tail_not_in ts h)

  -- No entry of the automatic tail has the file of an entry of the user's layer.
  pub tail_of-not_intent : All (λ e. has (ids s.intent) (entry_id e) ≡ false) (tail_of s es)
  tail_of-not_intent = tail_not_in (tail_of s es) (tail_of-IsFresh s es).0

pub intent_in : (xs : List QueueEntry) → All (λ e. has (ids xs) (entry_id e) ≡ true) xs
unfolding has
intent_in [] = tt
intent_in (x ∷ xs) = (has_self (ids xs) (entry_id x), more xs (intent_in xs))
  where
    more :
        (ys : List QueueEntry)
        → All (λ e. has (ids xs) (entry_id e) ≡ true) ys
        → All (λ e. has (ids (x ∷ xs)) (entry_id e) ≡ true) ys
    more [] h = tt
    more (y ∷ ys) (p, h) = (ground arith, more ys h)

-- The pinned rows from a position of the two layers on are the rest of the user's layer.
pub keep-pinned :
    (s : QueueState) (es : List QueueEntry) (n : ℕ)
    → keep (λ e. has (ids s.intent) (entry_id e)) (drop n (s.intent ++ tail_of s es))
      ≡ drop n s.intent
keep-pinned s es n =
    let p = λ (e : QueueEntry). has (ids s.intent) (entry_id e) in
    let rest = drop (n - length s.intent) (tail_of s es) in
    ap (keep p) (drop-append n s.intent (tail_of s es))
    ∙ keep-append p (drop n s.intent) rest
    ∙ ap₂ ◌++◌
        (keep-All p (drop n s.intent) (All-drop (λ e. p e ≡ true) n s.intent (intent_in s.intent)))
        (keep_none p rest (
          All-drop (λ e. p e ≡ false) (n - length s.intent) (tail_of s es)
            (tail_of-not_intent s es)))
    ∙ append-nil (drop n s.intent)

apart_ids :
    (t : QueueEntry) (ts : List QueueEntry)
    → All (λ f. ¬ SameTrack t.identity f.identity) ts
    → has (ids ts) (entry_id t) ≡ false
unfolding has
apart_ids t [] h = refl
apart_ids t (f ∷ ts) (p, h) =
    ground (arith, apart_ids t ts h, λ (q : t.file_id ≡ f.file_id). p (same_file q))

Apart-Uniq : (ts : List QueueEntry) → Apart ts → Uniq (ids ts)
Apart-Uniq [] h = tt
Apart-Uniq (t ∷ ts) (p, h) = (apart_ids t ts p, Apart-Uniq ts h)

disjoint :
    (ks : List String) (ts : List QueueEntry) (k : String)
    → All (λ t. has ks (entry_id t) ≡ false) ts
    → has ks k ≡ true
    → has (ids ts) k ≡ false
unfolding has
disjoint ks [] k h p = refl
disjoint ks (t ∷ ts) k (q, h) p = ground (arith, disjoint ks ts k h p)

fresh_ids :
    (s : QueueState) (ts : List QueueEntry)
    → All (λ e. IsFresh s e.identity) ts
    → All (λ t. has (ids (head_of s.current) ++ ids s.intent) (entry_id t) ≡ false) ts
fresh_ids s [] h = tt
fresh_ids s (t ∷ ts) (p, h) = (
  ground (
    arith,
    has-append (ids (head_of s.current)) (ids s.intent) (entry_id t),
    has-ids t.identity (head_of s.current) p.not_current,
    has-ids t.identity s.intent p.not_intent,
  ),
  fresh_ids s ts h,
)

-- The array that a valid state renders has at most 25 rows and no file twice.
pub assemble_queue-Fits :
    (s : QueueState) (es : List QueueEntry) → IsValid s → Fits (assemble_queue s es)
assemble_queue-Fits s es v =
    let tail = tail_of s es in
    let (fresh, apart) = tail_of-IsFresh s es in
    let pins = ids (head_of s.current) ++ ids s.intent in
    let once : Uniq (pins ++ ids tail) =
      Uniq-append pins (ids tail) v.files (Apart-Uniq tail apart)
        (All-of_has pins (ids tail) (λ k h. disjoint pins tail k (fresh_ids s tail fresh) h)) in
    let spread : ids (head_of s.current ++ (s.intent ++ tail)) ≡ pins ++ ids tail =
      simp (map-append, append_assoc) in
    record {
      size = length-assemble_queue-le s es;
      once = rw (assemble_queue-layout s es v.cap, spread) once;
    }
