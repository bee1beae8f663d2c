-- ===== src/Queue/Drawer/Played.antt =====
-- A click on a row of a list: `readListContext`, then PLAY_TRACK.
use localchune.Queue.Model.{
  truncate_intent, head_of, slots_for, QueueState, QueueOrigin, QueueEntry,
}
use localchune.Common.{
  ℕ, zero, suc, ◌<◌, String, ◌≡◌, refl, sym, ap, subst, ◌∙◌, ◌≢◌, inl, inr, true, false, not,
  Option, some, List, [], ◌∷◌, map, arith, if◌then◌else◌, Bool-cases, same, length, get_elem?, take,
  drop, keep, find_index, All, has, Uniq, unique_by, Uniq-drop, unique_by-Uniq, has-drop-suc,
}
use localchune.Queue.Drawer.{QueueRowData, ToNumber, list_from, read_list_context, to_queue_entry}
use localchune.Queue.Engine.{
  ReduceResult, ids, entry_id, stamp, without, dedupe, replace_with, replace_chosen, play_track,
}
use localchune.Queue.Engine.Reduce.{reduce, reduce_play_track, track_at}
use localchune.Queue.Engine.Advancing.{Returns}
use localchune.Common.Number.{int, pos, whole_between}

abbrev pub row_id : QueueRowData → String
row_id row = row.file_id

-- The files of the rows that name one, each once, in their order.
abbrev pub playable : List QueueRowData → List String
playable rows = unique_by (λ k. k) [] (keep (λ k. not (same k "")) (map row_id rows))

-- What stands behind the first occurrence of a key.
abbrev pub after : String → List String → List String
after k [] = []
after k (x ∷ xs) = let later = after k xs in if same x k then xs else later

abbrev first_of : String → List QueueEntry → Option ℕ
first_of k list = find_index (λ e. same (entry_id e) k) list

ids-list_from :
    (to_number : ToNumber) (label : Option String) (seen : List String) (rows : List QueueRowData)
    → ids (list_from to_number label seen rows)
      ≡ unique_by (λ k. k) seen (keep (λ k. not (same k "")) (map row_id rows))
unfolding list_from to_queue_entry unique_by
ids-list_from to_number label seen [] = refl
ids-list_from to_number label seen (row ∷ rows) = ground (
  arith,
  ids-list_from to_number label seen rows,
  ids-list_from to_number label (row.file_id ∷ seen) rows,
)

-- Where a list with a file first has it.
record IsFirst (k : String) (list : List QueueEntry) (i : ℕ) (x : QueueEntry) : Type 0 where
  found : first_of k list ≡ some i
  here : get_elem? list i ≡ some x
  file : same (entry_id x) k ≡ true
  inside : i < length list
  behind : ids (drop (suc i) list) ≡ after k (ids list)

IsFirst-of_has :
    (k : String) (list : List QueueEntry)
    → has (ids list) k ≡ true
    → (i : ℕ) × (x : QueueEntry) × IsFirst k list i x
unfolding has
IsFirst-of_has k [] h = cc
IsFirst-of_has k (x ∷ xs) h = elim (Bool-cases (same (entry_id x) k)) [
  | inl p ↦ (
    0,
    x,
    record { found = rw p refl; here = refl; file = p; inside = omega arith; behind = rw p refl },
  )
  | inr p ↦
      let (i, y, f) = IsFirst-of_has k xs (ground arith) in
      (
        suc i,
        y,
        record {
          found = rw (p, f.found) refl;
          here = f.here;
          file = f.file;
          inside = omega (arith, f.inside);
          behind = rw p f.behind;
        },
      )
]

track_at-first :
    (k : String) (list : List QueueEntry) (i : ℕ) (x : QueueEntry)
    → IsFirst k list i x
    → track_at list k (int (pos i)) ≡ some i
track_at-first k list i x f =
    let reached : whole_between 0 (length list) (int (pos i)) ≡ some i = ground (arith, f.inside) in
    rw (reached, track_at, f.here, f.file) refl

ids-stamp :
    (origin : QueueOrigin) (label : Option String) (xs : List QueueEntry)
    → ids (stamp xs origin label) ≡ ids xs
ids-stamp origin label [] = refl
ids-stamp origin label (x ∷ xs) = ap (◌∷◌ (entry_id x)) (ids-stamp origin label xs)

ids-take : (n : ℕ) (xs : List QueueEntry) → ids (take n xs) ≡ take n (ids xs)
ids-take zero xs = refl
ids-take (suc n) [] = refl
ids-take (suc n) (x ∷ xs) = ap (◌∷◌ (entry_id x)) (ids-take n xs)

ids-without :
    (k : String) (xs : List QueueEntry) → has (ids xs) k ≡ false → ids (without k xs) ≡ ids xs
unfolding has
ids-without k [] h = refl
ids-without k (x ∷ xs) h = ground (arith, ids-without k xs)

-- No key of the list is among the keys seen.
abbrev Unseen : List String → List QueueEntry → Type 0
Unseen seen xs = All (λ x. has seen (entry_id x) ≡ false) xs

Unseen-nil : (xs : List QueueEntry) → Unseen [] xs
unfolding has
Unseen-nil [] = tt
Unseen-nil (x ∷ xs) = (refl, Unseen-nil xs)

Unseen-more :
    (k : String) (seen : List String) (xs : List QueueEntry)
    → has (ids xs) k ≡ false
    → Unseen seen xs
    → Unseen (k ∷ seen) xs
unfolding has
Unseen-more k seen [] h u = tt
Unseen-more k seen (x ∷ xs) h (p, u) = (ground arith, Unseen-more k seen xs (ground arith) u)

unique_by-same :
    (seen : List String) (xs : List QueueEntry)
    → Uniq (ids xs)
    → Unseen seen xs
    → unique_by entry_id seen xs ≡ xs
unfolding unique_by
unique_by-same seen [] u h = refl
unique_by-same seen (x ∷ xs) (q, u) (p, h) =
    rw p
      (ap (◌∷◌ x) (unique_by-same (entry_id x ∷ seen) xs u (Unseen-more (entry_id x) seen xs q h)))

-- What PLAY_TRACK makes of a list without repetitions: the file plays, and the next 24 behind it
-- are the user's layer.
abbrev pub IsPlayed : String → List String → ReduceResult → Type 0
IsPlayed k files r =
    (ids (head_of r.state.current) ≡ k ∷ []) × (ids r.state.intent ≡ take 24 (after k files))

replace_with-IsPlayed :
    (s : QueueState) (list : List QueueEntry) (k : String) (i : ℕ) (x : QueueEntry)
    (origin : QueueOrigin) (label : Option String)
    → Uniq (ids list)
    → IsFirst k list i x
    → Returns (replace_with s list i origin label) (IsPlayed k (ids list))
unfolding replace_with replace_chosen slots_for truncate_intent dedupe
replace_with-IsPlayed s list k i x origin label u f =
    let rest = drop (suc i) list in
    let left = without x.file_id (stamp rest origin label) in
    let absent : has (ids (stamp rest origin label)) x.file_id ≡ false =
      rw (ids-stamp origin label rest) (has-drop-suc entry_id i list u f.here) in
    let kept : ids left ≡ ids rest =
      ids-without x.file_id (stamp rest origin label) absent ∙ ids-stamp origin label rest in
    let once : unique_by entry_id [] left ≡ left =
      unique_by-same [] left (subst Uniq (sym kept) (Uniq-drop entry_id (suc i) list u))
        (Unseen-nil left) in
    rw (f.here, replace_with)
      (
        ap (λ (j : String). j ∷ []) (ground (arith, f.file)),
        ids-take 24 (unique_by entry_id [] left) ∙ ap (take 24) (ap ids once ∙ (kept ∙ f.behind)),
      )

has-list_from :
    (to_number : ToNumber) (label : Option String) (seen : List String) (rows : List QueueRowData)
    (k : String)
    → k ≢ ""
    → has seen k ≡ false
    → has (map row_id rows) k ≡ true
    → has (ids (list_from to_number label seen rows)) k ≡ true
unfolding list_from to_queue_entry has
has-list_from to_number label seen [] k named fresh h = h
has-list_from to_number label seen (row ∷ rows) k named fresh h = ground (
  arith,
  has-list_from to_number label seen rows k named,
  has-list_from to_number label (row.file_id ∷ seen) rows k named,
)

unseen : (k : String) → has [] k ≡ false
unfolding has
unseen k = refl

map_same : (ks : List String) → map (λ k. k) ks ≡ ks
map_same [] = refl
map_same (k ∷ ks) = ap (◌∷◌ k) (map_same ks)

playable-Uniq : (rows : List QueueRowData) → Uniq (playable rows)
playable-Uniq rows =
    subst Uniq (map_same (playable rows))
      (unique_by-Uniq (λ k. k) [] (keep (λ k. not (same k "")) (map row_id rows)))

-- Where a row of the list names a file, and that is not the empty text, a click on it plays the file
-- from any state, and the next 24 files behind it in the list, each once, are the user's layer.
pub read_list_context-IsPlayed :
    (to_number : ToNumber) (rows : List QueueRowData) (k : String) (label : Option String)
    (s : QueueState)
    → k ≢ ""
    → has (map row_id rows) k ≡ true
    → Returns
        (reduce s (
          play_track k
            (read_list_context to_number rows k label).list
            (read_list_context to_number rows k label).index
            label))
        (IsPlayed k (playable rows))
unfolding reduce reduce_play_track read_list_context
read_list_context-IsPlayed to_number rows k label s h p =
    let list = list_from to_number label [] rows in
    let files = ids-list_from to_number label [] rows in
    let (i, x, f) =
      IsFirst-of_has k list (has-list_from to_number label [] rows k h (unseen k) p) in
    rw (f.found, track_at-first k list i x f)
      (subst (λ ks. Returns (replace_with s list i QueueOrigin.list label) (IsPlayed k ks)) files
        (replace_with-IsPlayed s list k i x QueueOrigin.list label
          (subst Uniq (sym files) (playable-Uniq rows)) f))
