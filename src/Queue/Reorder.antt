-- ===== src/Queue/Reorder.antt =====
-- src/lib/reorder.ts: `moveItem`, the one move behind every reorder.
pub mod Laws
use localchune.Common.{
  ℕ, zero, suc, ◌+◌, ◌-◌, ◌*◌, ◌/◌, ◌%◌, ◌^◌, ◌≤◌, ◌<◌, min, max, String, ◌≡◌, refl, sym, ap, subst,
  ◌∙◌, ◌≡⟨◌⟩◌, ◌∎, ◌≢◌, ◌↔◌, ◌⊎◌, inl, inr, Bool, true, false, not, ◌&&◌, ◌||◌, Option, none, some,
  List, [], ◌∷◌, ◌++◌, map, arith, dec_lt, dec_le, ℕ_discrete, ltb, leb, ◌==◌, if◌then◌else◌,
  Bool-cases, Option-cases, dec_str, length, get_elem?, take, drop, keep, find_index, remove_at,
  insert_at, set, length-append, length-take, length-drop, take_of_length-le, length-keep-le, All,
  All-append, All-take, All-drop, All-keep, has, has-append, has_self,
}
use localchune.Common.Number.{ℤ, pos, negsuc, Number, int, whole_between}

-- `Math.max(0, Math.min(to, last))` for a whole `to`.
unfoldable pub clamp : ℕ → ℤ → ℕ
clamp last (pos to) = min to last
clamp last (negsuc to) = 0

module _ {ℓ} {A : Type ℓ} where
  -- The two calls of `splice`.
  unfoldable pub move_to : List A → ℕ → ℕ → List A
  move_to list from dest = elim (get_elem? list from) [
    | none ↦ list
    | some moved ↦ insert_at dest moved (remove_at from list)
  ]

  unfoldable pub move_from : List A → ℕ → ℕ → List A
  move_from list from dest = if dest == from then list else move_to list from dest

  unfoldable pub move_item : List A → Number → Number → List A
  move_item list from (int to) = elim (whole_between 0 (length list) from) [
    | none ↦ list
    | some i ↦ move_from list i (clamp (length list - 1) to)
  ]
  move_item list from _ = list
