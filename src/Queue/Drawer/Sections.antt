-- ===== src/Queue/Drawer/Sections.antt =====
-- The sections of the drawer on the array that the state renders.
use localchune.Queue.Model.{head_of, assemble_queue, head_size, QueueState, QueueEntry}
use localchune.Common.{
  ℕ, suc, ◌+◌, ◌≡◌, refl, ap, ◌∙◌, Bool, true, false, ◌&&◌, Option, none, some, List, [], ◌∷◌, ◌++◌,
  map, arith, ltb, ◌==◌, length, All, has,
}
use localchune.Queue.Drawer.{QueueRow, Layers, place, rows_from}
use localchune.Queue.Drawer.Lines.{render_queue_sections, RenderOptions}
use localchune.Queue.Model.Assemble.{tail_of, assemble_queue-layout}
use localchune.Queue.Engine.Rendered.{tail_of-not_intent, intent_in}
use localchune.Queue.Engine.Valid.{IsValid}
use localchune.Queue.Engine.{ids, entry_id}

-- The entries as rows that are numbered from an index on.
abbrev pub numbered : ℕ → Bool → Bool → List QueueEntry → List QueueRow
numbered index removable reorderable [] = []
numbered index removable reorderable (e ∷ es) =
    record { index = index; entry = e; removable = removable; reorderable = reorderable }
    ∷ numbered (suc index) removable reorderable es

-- Rows that are not the one that plays.
abbrev Behind : QueueState → ℕ → Type 0
Behind s index = (index == 0 && ltb 0 (head_size s.current)) ≡ false

abbrev as_layers : List QueueRow → List QueueRow → Layers
as_layers yours auto = record { now = []; yours = yours; auto = auto }

add_nil : (n : ℕ) → n ≡ n + 0
add_nil n = omega arith

add_cons : (n m : ℕ) → suc n + m ≡ n + suc m
add_cons n m = omega arith

module _ (s : QueueState) where
  Behind-suc : (index : ℕ) → Behind s (suc index)
  Behind-suc index = ground arith

  place-yours :
      (index : ℕ) (e : QueueEntry) (rest : Layers)
      → Behind s index
      → has (ids s.intent) (entry_id e) ≡ true
      → place s index e rest ≡ record rest {
        yours =
            record { index = index; entry = e; removable = true; reorderable = true } ∷ rest.yours;
      }
  unfolding place
  place-yours index e rest b p = rw (place, b, p) refl

  place-auto :
      (index : ℕ) (e : QueueEntry) (rest : Layers)
      → Behind s index
      → has (ids s.intent) (entry_id e) ≡ false
      → place s index e rest ≡ record rest {
        auto =
            record { index = index; entry = e; removable = true; reorderable = false } ∷ rest.auto;
      }
  unfolding place
  place-auto index e rest b p = rw (place, b, p) refl

  rows_from-auto :
      (index : ℕ) (es : List QueueEntry)
      → Behind s index
      → All (λ e. has (ids s.intent) (entry_id e) ≡ false) es
      → rows_from s index es ≡ record { now = []; yours = []; auto = numbered index true false es }
  unfolding rows_from
  rows_from-auto index [] b h = refl
  rows_from-auto index (e ∷ es) b (p, h) =
      rw (rows_from-auto (suc index) es (Behind-suc index) h) (place-auto index e _ b p)

  rows_from-yours :
      (index : ℕ) (xs es : List QueueEntry)
      → Behind s index
      → All (λ e. has (ids s.intent) (entry_id e) ≡ true) xs
      → All (λ e. has (ids s.intent) (entry_id e) ≡ false) es
      → rows_from s index (xs ++ es) ≡ record {
        now = [];
        yours = numbered index true true xs;
        auto = numbered (index + length xs) true false es;
      }
  unfolding rows_from
  rows_from-yours index [] es b k h =
      rows_from-auto index es b h
      ∙ ap (λ (n : ℕ). as_layers [] (numbered n true false es)) (add_nil index)
  rows_from-yours index (x ∷ xs) es b (p, k) h =
      rw (rows_from-yours (suc index) xs es (Behind-suc index) k h) (
        place-yours index x _ b p
        ∙ ap (λ (n : ℕ). as_layers (numbered index true true (x ∷ xs)) (numbered n true false es))
            (add_cons index (length xs)))

  place-now :
      (e : QueueEntry) (rest : Layers)
      → ltb 0 (head_size s.current) ≡ true
      → place s 0 e rest ≡ record rest {
        now = record { index = 0; entry = e; removable = false; reorderable = false } ∷ rest.now;
      }
  unfolding place
  place-now e rest b = rw (b, place) refl

  rows_of_layers :
      (es : List QueueEntry) (o : Option QueueEntry)
      → s.current ≡ o
      → All (λ e. has (ids s.intent) (entry_id e) ≡ false) es
      → rows_from s 0 (head_of o ++ (s.intent ++ es)) ≡ record {
        now = numbered 0 false false (head_of o);
        yours = numbered (head_size o) true true s.intent;
        auto = numbered (head_size o + length s.intent) true false es;
      }
  unfolding rows_from
  rows_of_layers es none p h =
      rows_from-yours 0 s.intent es (ap (λ o. ltb 0 (head_size o)) p) (intent_in s.intent) h
  rows_of_layers es (some e) p h =
      rw (rows_from-yours 1 s.intent es (Behind-suc 0) (intent_in s.intent) h)
        (place-now e _ (ap (λ o. ltb 0 (head_size o)) p))

-- In a valid state, the drawer's three sections on the rendered array are what is playing, the
-- user's layer and the automatic tail, each in its order; a row's index is its place in the array,
-- every row but the one that plays may be removed, and exactly the user's rows may be moved.
pub render_queue_sections-rows :
    (s : QueueState) (es : List QueueEntry) (opts : RenderOptions)
    → IsValid s
    → map (λ d. d.rows) (render_queue_sections (assemble_queue s es) s opts)
      ≡ numbered 0 false false (head_of s.current)
        ∷ numbered (head_size s.current) true true s.intent
        ∷ numbered (head_size s.current + length s.intent) true false (tail_of s es)
        ∷ []
unfolding render_queue_sections
render_queue_sections-rows s es opts v =
    ap (λ (l : Layers). l.now ∷ l.yours ∷ l.auto ∷ [])
      (ap (rows_from s 0) (assemble_queue-layout s es v.cap)
        ∙ rows_of_layers s (tail_of s es) s.current refl (tail_of-not_intent s es))
