-- ===== src/Queue/Engine/Steps.antt =====
-- Each case of the reducer keeps the invariant of its state.
use localchune.Common.Reordered.{Uniq-perm}
use localchune.Queue.Reorder.{move_item}
use localchune.Queue.Reorder.Laws.{length-move_item, move_item-perm}
use localchune.Common.Number.{minus, pos, int, Number}
use localchune.Common.{
  ℕ, ◌-◌, ◌≤◌, String, ◌≡◌, subst, inl, inr, Bool, not, Option, none, some, List, [], ◌∷◌, ◌++◌,
  arith, Bool-cases, Option-cases, same, length, get_elem?, take, find_index, length-append,
  length-take, length-keep-le, has, Uniq, Uniq-append, unique_by, has-take, has-keep, Uniq-take,
  Uniq-keep, has-keep-not, unique_by-fresh, unique_by-Uniq, All-of_has,
}
use mathlib.Core.List.Perm
use mathlib.Core.List.{map-append, append_assoc}
use localchune.Queue.Model.{
  identity_tokens, QueueEntry, QueueState, QueueOrigin, queue_max, head_size, head_of, slots_for,
  truncate_intent,
}
use localchune.Queue.Engine.{
  crate_start, without, AdvanceReason, ReduceResult, entry_id, ids, replace_chosen, replace_with,
}
use localchune.Queue.Engine.Valid.{
  push_front-IsMemory, IsValid, Fits, replace_chosen-IsValid, advance_to-IsValid,
}
use localchune.Queue.Engine.Reduce.{
  reduce_play_track, reduce_play_crate, move_target, restore_into, remove_target, reduce_restore,
  reduce_remove, reduce_move, reduce_add, reduce_select, reduce_advance,
}

pub IsValid-some : {t r : ReduceResult} → IsValid t.state → some t ≡ some r → IsValid r.state
IsValid-some {t} {r} v e =
    let same_result : t ≡ r = cc in subst (λ x. IsValid x.state) same_result v

module _ (s : QueueState) (v : IsValid s) where
  pub with_intent :
      (intent : List QueueEntry)
      → length intent ≤ length s.intent
      → Uniq (ids (head_of s.current) ++ ids intent)
      → IsValid (record s { intent = intent })
  with_intent intent small once = record {
    cap = omega (arith, v.cap);
    files = once;
    history = v.history;
    failed = v.failed;
    suppressed = v.suppressed;
  }

  replace_with-IsValid :
      (list : List QueueEntry) (at : ℕ) (origin : QueueOrigin) (label : Option String)
      {r : ReduceResult}
      → replace_with s list at origin label ≡ some r
      → IsValid r.state
  unfolding replace_with
  replace_with-IsValid list at origin label {r} e = elim (Option-cases (get_elem? list at)) [
    | inl gone ↦ ground arith
    | inr (chosen, here) ↦
        let same : replace_chosen s list at origin label chosen ≡ r = ground arith in
        subst (λ t. IsValid t.state) same (replace_chosen-IsValid s v list at origin label chosen)
  ]

  pub reduce_add-IsValid : (entries : List QueueEntry) → IsValid (reduce_add s entries).state
  unfolding reduce_add truncate_intent slots_for
  reduce_add-IsValid entries =
      let taken = ids (head_of s.current) ++ ids s.intent in
      let room = queue_max - head_size s.current - length s.intent in
      let fresh = unique_by entry_id taken entries in
      record {
        cap = omega (
          arith,
          length-append {0} s.intent (take room fresh),
          length-take {0} room fresh,
          v.cap,
        );
        files =
            rw (map-append, ← append_assoc)
              (Uniq-append taken (ids (take room fresh)) v.files
                (Uniq-take entry_id room fresh (unique_by-Uniq entry_id taken entries))
                (All-of_has taken (ids (take room fresh)) (λ k h.
                  has-take entry_id room fresh k (unique_by-fresh entry_id taken entries k h))));
        history = v.history;
        failed = v.failed;
        suppressed = v.suppressed;
      }

  pub reduce_advance-IsValid :
      (queue : List QueueEntry) (reason : AdvanceReason)
      → Fits queue
      → IsValid (reduce_advance s queue reason).state
  unfolding reduce_advance
  reduce_advance-IsValid queue reason f = elim (Option-cases s.current) [
    | inl gone ↦ rw (gone, reduce_advance) v
    | inr (e, here) ↦ rw (here, reduce_advance) (advance_to-IsValid s v queue 1 reason f)
  ]

  pub reduce_select-IsValid :
      (queue : List QueueEntry) (i : Option ℕ)
      → Fits queue
      → IsValid (reduce_select s queue i).state
  unfolding reduce_select
  reduce_select-IsValid queue none f = v
  reduce_select-IsValid queue (some i) f = advance_to-IsValid s v queue i _ f

  without-files : (k : String) → Uniq (ids (head_of s.current) ++ ids (without k s.intent))
  without-files k = within s.current v.files
    where
      p : QueueEntry → Bool
      p = λ e. not (same (entry_id e) k)

      within :
          (o : Option QueueEntry)
          → Uniq (ids (head_of o) ++ ids s.intent)
          → Uniq (ids (head_of o) ++ ids (without k s.intent))
      within none u = Uniq-keep entry_id p s.intent u
      within (some e) (h, u) =
          (has-keep entry_id p s.intent (entry_id e) h, Uniq-keep entry_id p s.intent u)

  remove_target-IsValid : (target : QueueEntry) → IsValid (remove_target s target)
  remove_target-IsValid target = elim (Bool-cases (has (ids s.intent) (entry_id target))) [
    | inl pinned ↦ rw pinned (
        with_intent (without (entry_id target) s.intent) (length-keep-le {0} _ s.intent)
          (without-files (entry_id target)))
    | inr ranked ↦ rw ranked (record {
      cap = v.cap;
      files = v.files;
      history = v.history;
      failed = v.failed;
      suppressed = push_front-IsMemory s.suppressed (identity_tokens target.identity);
    })
  ]

  pub reduce_remove-IsValid :
      (queue : List QueueEntry) (i : Option ℕ) → IsValid (reduce_remove s queue i).state
  unfolding reduce_remove
  reduce_remove-IsValid queue none = v
  reduce_remove-IsValid queue (some i) = elim (Option-cases (get_elem? queue i)) [
    | inl gone ↦ rw (gone, reduce_remove) v
    | inr (target, e) ↦ rw (e, reduce_remove) (remove_target-IsValid target)
  ]

  move_target-IsValid : (target : QueueEntry) (to : Number) → IsValid (move_target s target to)
  move_target-IsValid target to =
      elim (Option-cases (find_index (λ e. same (entry_id e) (entry_id target)) s.intent)) [
        | inl gone ↦ rw (gone, move_target) v
        | inr (at, e) ↦
            let perm = move_item-perm s.intent (int (pos at)) (minus to (head_size s.current)) in
            rw (e, move_target)
              (with_intent (move_item s.intent (int (pos at)) (minus to (head_size s.current)))
                (omega (
                  arith,
                  length-move_item {0} s.intent (int (pos at)) (minus to (head_size s.current)),
                ))
                (Uniq-perm
                  (Perm.append_left (ids (head_of s.current)) (Perm.symm (Perm.map entry_id perm)))
                  v.files))
      ]

  pub reduce_move-IsValid :
      (queue : List QueueEntry) (i : Option ℕ) (to : Number)
      → IsValid (reduce_move s queue i to).state
  unfolding reduce_move
  reduce_move-IsValid queue none to = v
  reduce_move-IsValid queue (some i) to = elim (Option-cases (get_elem? queue i)) [
    | inl gone ↦ rw (gone, reduce_move) v
    | inr (target, e) ↦ rw (e, reduce_move) (move_target-IsValid target to)
  ]

  intent_once : Uniq (ids s.intent)
  intent_once = within s.current v.files
    where
      within :
          (o : Option QueueEntry) → Uniq (ids (head_of o) ++ ids s.intent) → Uniq (ids s.intent)
      within none u = u
      within (some e) (h, u) = u

  restore_into-IsValid : (entry : QueueEntry) → IsValid (restore_into s entry)
  unfolding restore_into truncate_intent slots_for
  restore_into-IsValid entry =
      let rest = without (entry_id entry) s.intent in
      record {
        cap = omega (arith, length-take {0} 24 rest);
        files = (
          has-take entry_id 24 rest (entry_id entry)
              (has-keep-not entry_id (entry_id entry) s.intent),
          Uniq-take entry_id 24 rest (
              Uniq-keep entry_id (λ e. not (same (entry_id e) (entry_id entry))) s.intent
                intent_once),
        );
        history = v.history;
        failed = v.failed;
        suppressed = v.suppressed;
      }

  pub reduce_restore-IsValid : (entry : QueueEntry) → IsValid (reduce_restore s entry).state
  unfolding reduce_restore
  reduce_restore-IsValid entry = elim (Option-cases s.current) [
    | inl gone ↦ rw (gone, reduce_restore) (restore_into-IsValid entry)
    | inr (e, here) ↦ elim (Bool-cases (same (entry_id e) (entry_id entry))) [
      | inl kept ↦ rw (here, reduce_restore, kept) v
      | inr other ↦ rw (here, reduce_restore, other) (restore_into-IsValid entry)
    ]
  ]

  pub reduce_play_track-IsValid :
      (list : List QueueEntry) (at : Option ℕ) (label : Option String) {r : ReduceResult}
      → reduce_play_track s list at label ≡ some r
      → IsValid r.state
  unfolding reduce_play_track
  reduce_play_track-IsValid list none label e = IsValid-some v e
  reduce_play_track-IsValid list (some at) label e = replace_with-IsValid list at _ label e

  pub reduce_play_crate-IsValid :
      (list : List QueueEntry) (start : Number) (label : Option String) {r : ReduceResult}
      → reduce_play_crate s list start label ≡ some r
      → IsValid r.state
  unfolding reduce_play_crate
  reduce_play_crate-IsValid [] start label e = IsValid-some v e
  reduce_play_crate-IsValid (x ∷ xs) start label {r} e =
      elim (Option-cases (crate_start start (length xs))) [
        | inl broken ↦ absurd (ground arith)
        | inr (at, p) ↦
            replace_with-IsValid (x ∷ xs) at QueueOrigin.crate label
              (rw (p, reduce_play_crate) at e)
      ]
