-- ===== src/Queue/Engine/Valid.antt =====
-- The invariant of the reducer's state, and what each of its helpers does to it.
use localchune.Common.{
  ℕ, zero, suc, ◌+◌, ◌≤◌, String, ◌≡◌, refl, true, false, Option, none, some, List, [], ◌∷◌, ◌++◌,
  arith, length, get_elem?, take, drop, keep, length-take, length-drop, length-keep-le, has,
  has_self, Uniq, unique_by, has-take, has-keep, Uniq-take, Uniq-drop, Uniq-keep, has-keep-not,
  unique_by-Uniq, has-unique_by, has-drop-suc,
}
use localchune.Queue.Model.{
  QueueEntry, QueueState, QueueOrigin, queue_max, history_max, head_size, head_of, slots_for,
  identity_tokens, truncate_intent,
}
use localchune.Queue.Engine.{
  AdvanceReason, push_from, push_front, entry_id, ids, without, stamp, dedupe, remember,
  flat_tokens, replace_chosen, advance_to, arrived,
}

-- At most `history_max` tokens, none of them twice.
pub record IsMemory (tokens : List String) : Type 0 where
  pub bound : length tokens ≤ history_max
  pub once : Uniq tokens

-- The cap holds, no file is queued twice, and the memories are bounded.
pub record IsValid (s : QueueState) : Type 0 where
  pub cap : length s.intent + head_size s.current ≤ queue_max
  pub files : Uniq (ids (head_of s.current) ++ ids s.intent)
  pub history : IsMemory s.history
  pub failed : IsMemory s.failed
  pub suppressed : IsMemory s.suppressed

-- A rendered array that the drawer may report: at most 25 rows, no file twice.
pub record Fits (queue : List QueueEntry) : Type 0 where
  pub size : length queue ≤ queue_max
  pub once : Uniq (ids queue)

push_from-fresh :
    (n : ℕ) (seen tokens : List String) (k : String)
    → has seen k ≡ true
    → has (push_from n seen tokens) k ≡ false
unfolding push_from has
push_from-fresh zero seen [] k h = refl
push_from-fresh (suc n) seen [] k h = refl
push_from-fresh zero seen (t ∷ ts) k h = ground (arith, push_from-fresh zero seen ts k)
push_from-fresh (suc n) seen (t ∷ ts) k h =
    ground (arith, push_from-fresh (suc n) seen ts k, push_from-fresh n (t ∷ seen) ts k)

push_from-Uniq : (n : ℕ) (seen tokens : List String) → Uniq (push_from n seen tokens)
unfolding push_from has
push_from-Uniq zero seen [] = tt
push_from-Uniq (suc n) seen [] = tt
push_from-Uniq zero seen (t ∷ ts) = ground (arith, push_from-Uniq zero seen ts)
push_from-Uniq (suc n) seen (t ∷ ts) = ground (
  arith,
  push_from-Uniq (suc n) seen ts,
  push_from-Uniq n (t ∷ seen) ts,
  push_from-fresh n (t ∷ seen) ts t (has_self seen t),
)

length-push_from-le : (n : ℕ) (seen tokens : List String) → length (push_from n seen tokens) ≤ suc n
unfolding push_from
length-push_from-le zero seen [] = omega arith
length-push_from-le (suc n) seen [] = omega arith
length-push_from-le zero seen (t ∷ ts) = ground (arith, length-push_from-le zero seen ts)
length-push_from-le (suc n) seen (t ∷ ts) =
    ground (arith, length-push_from-le (suc n) seen ts, length-push_from-le n (t ∷ seen) ts)

-- Whatever is pushed, a memory stays bounded and free of repetitions.
pub push_front-IsMemory :
    (list tokens : List String) → IsMemory (push_front list tokens history_max)
unfolding push_front
push_front-IsMemory list tokens = record {
  bound = length-push_from-le 199 [] (tokens ++ list);
  once = push_from-Uniq 199 [] (tokens ++ list);
}

pub remember-IsMemory :
    (history : List String) (o : Option QueueEntry)
    → IsMemory history
    → IsMemory (remember history o)
remember-IsMemory history none h = h
remember-IsMemory history (some e) h = push_front-IsMemory history (identity_tokens e.identity)

module _ (s : QueueState) (v : IsValid s) where
  pub replace_chosen-IsValid :
      (list : List QueueEntry) (at : ℕ) (origin : QueueOrigin) (label : Option String)
      (chosen : QueueEntry)
      → IsValid (replace_chosen s list at origin label chosen).state
  unfolding replace_chosen truncate_intent dedupe slots_for
  replace_chosen-IsValid list at origin label chosen =
      let tail = without chosen.file_id (stamp (drop (suc at) list) origin label) in
      record {
        cap = omega (arith, length-take {0} 24 (unique_by entry_id [] tail));
        files = (
          has-take entry_id 24 (unique_by entry_id [] tail) chosen.file_id (
              has-unique_by entry_id [] tail chosen.file_id
                (has-keep-not entry_id chosen.file_id (stamp (drop (suc at) list) origin label))),
          Uniq-take entry_id 24 (unique_by entry_id [] tail) (unique_by-Uniq entry_id [] tail),
        );
        history = remember-IsMemory s.history s.current v.history;
        failed = v.failed;
        suppressed = v.suppressed;
      }

  advanced-IsValid :
      (queue : List QueueEntry) (index : ℕ) (history : List String) (o : Option QueueEntry)
      → Fits queue
      → IsMemory history
      → get_elem? queue index ≡ o
      → IsValid (record s {
        current = arrived o;
        intent = keep (λ e. has (ids s.intent) (entry_id e)) (drop (suc index) queue);
        history = history;
      })
  advanced-IsValid queue index history o f m e =
      let rest = drop (suc index) queue in
      let p = λ (e : QueueEntry). has (ids s.intent) (entry_id e) in
      let once : Uniq (ids (keep p rest)) =
        Uniq-keep entry_id p rest (Uniq-drop entry_id (suc index) queue f.once) in
      let size : length (keep p rest) + 1 ≤ queue_max =
        omega (arith, length-keep-le {0} p rest, length-drop {0} (suc index) queue, f.size) in
      record {
        cap = room o size;
        files = files o e once;
        history = m;
        failed = v.failed;
        suppressed = v.suppressed;
      }
    where
      kept : List QueueEntry
      kept = keep (λ e. has (ids s.intent) (entry_id e)) (drop (suc index) queue)

      room :
          (o : Option QueueEntry)
          → length kept + 1 ≤ queue_max
          → length kept + head_size (arrived o) ≤ queue_max
      room none h = omega arith
      room (some e) h = h

      files :
          (o : Option QueueEntry)
          → get_elem? queue index ≡ o
          → Uniq (ids kept)
          → Uniq (ids (head_of (arrived o)) ++ ids kept)
      files none e h = h
      files (some x) e h = (
        has-keep entry_id (λ e. has (ids s.intent) (entry_id e)) (drop (suc index) queue)
            (entry_id x) (has-drop-suc entry_id index queue f.once e),
        h,
      )

  pub advance_to-IsValid :
      (queue : List QueueEntry) (index : ℕ) (reason : AdvanceReason)
      → Fits queue
      → IsValid (advance_to s queue index reason).state
  unfolding advance_to
  advance_to-IsValid queue index reason f =
      advanced-IsValid queue index
        (push_front s.history (flat_tokens (take index queue)) history_max) (get_elem? queue index)
        f (push_front-IsMemory s.history (flat_tokens (take index queue))) refl
