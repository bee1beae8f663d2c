-- ===== src/Archive/Names/Fresh.antt =====
-- The names of an archive differ: `dedupeName` of src/lib/zip.ts.
use mathlib.Core.Path.{ap₂}
use localchune.Archive.Names.{numbered_name, split_name, free_name, dedupe_name, TextHost, seen_has}
use localchune.Upload.Policy.{same_codes}
use localchune.Common.{
  ℕ, zero, suc, ◌+◌, ◌≤◌, ◌<◌, ◌≡◌, refl, sym, subst, ◌∙◌, ◌⊎◌, inl, inr, true, false, List, [],
  ◌∷◌, arith, ℕ_discrete, ◌==◌, if◌then◌else◌, Bool-cases, length,
}

same_codes_self : (s : List ℕ) → same_codes s s ≡ true
same_codes_self [] = refl
same_codes_self (c ∷ cs) = ground (arith, same_codes_self cs)

same_codes_eq : (s t : List ℕ) → same_codes s t ≡ true → s ≡ t
same_codes_eq [] [] h = refl
same_codes_eq [] (y ∷ ys) h = absurd (ground arith)
same_codes_eq (x ∷ xs) [] h = absurd (ground arith)
same_codes_eq (x ∷ xs) (y ∷ ys) h = elim (Bool-cases (x == y)) [
  | inl e ↦ ap₂ ◌∷◌ (ground arith) (same_codes_eq xs ys (ground arith))
  | inr e ↦ absurd (ground arith)
]

-- The list without the first key that is the given one.
abbrev without_key : List (List ℕ) → List ℕ → List (List ℕ)
without_key [] key = []
without_key (k ∷ ks) key = if same_codes k key then ks else k ∷ without_key ks key

length-without_key :
    (seen : List (List ℕ)) (key : List ℕ)
    → seen_has seen key ≡ true
    → suc (length (without_key seen key)) ≡ length seen
unfolding seen_has
length-without_key [] key h = absurd (ground arith)
length-without_key (k ∷ ks) key h = ground (arith, length-without_key ks key)

seen_has-without_key :
    (seen : List (List ℕ)) (key other : List ℕ)
    → seen_has seen other ≡ true
    → (key ≡ other → ⊥)
    → seen_has (without_key seen key) other ≡ true
unfolding seen_has
seen_has-without_key [] key other h d = absurd (ground arith)
seen_has-without_key (k ∷ ks) key other h d = elim (Bool-cases (same_codes k key)) [
  | inl e ↦ elim (Bool-cases (same_codes k other)) [
    | inl f ↦ absurd (d (sym (same_codes_eq k key e) ∙ same_codes_eq k other f))
    | inr f ↦ ground arith
  ]
  | inr e ↦ elim (Bool-cases (same_codes k other)) [
    | inl f ↦ ground arith
    | inr f ↦ ground (arith, seen_has-without_key ks key other (ground arith) d)
  ]
]

-- More keys than the list has are not all in it.
module _ (key : ℕ → List ℕ) (apart : (n m : ℕ) → key n ≡ key m → n ≡ m) where
  pigeonhole :
      (rounds n : ℕ) (seen : List (List ℕ))
      → length seen < rounds
      → ((m : ℕ) → n ≤ m → m < n + rounds → seen_has seen (key m) ≡ true)
      → ⊥
  pigeonhole zero n seen h all = absurd (omega arith)
  pigeonhole (suc rounds) n seen h all =
      let here = all n (omega arith) (omega arith) in
      let shorter = length-without_key seen (key n) here in
      pigeonhole rounds (suc n) (without_key seen (key n)) (omega arith) (λ m p q.
        seen_has-without_key seen (key n) (key m) (all m (omega arith) (omega arith))
          (λ e. absurd (omega (arith, apart n m e))))

-- A round gives a name that is not taken, or all the names up to there are taken.
free_name_lem :
    (host : TextHost) (seen : List (List ℕ)) (parts : List ℕ × List ℕ) (rounds n : ℕ)
    → (seen_has seen (host.lower (free_name host seen parts rounds n)) ≡ false)
      ⊎ ((m : ℕ)
          → n ≤ m
          → m < n + rounds
          → seen_has seen (host.lower (numbered_name parts m)) ≡ true)
unfolding free_name
free_name_lem host seen parts zero n = inr (λ m p q. absurd (omega arith))
free_name_lem host seen parts (suc rounds) n =
    elim (Bool-cases (seen_has seen (host.lower (numbered_name parts n)))) [
      | inl e ↦ elim (free_name_lem host seen parts rounds (suc n)) [
        | inl f ↦ inl (rw e f)
        | inr f ↦ inr (taken e f)
      ]
      | inr e ↦ inl (rw e e)
    ]
  where
    taken :
        seen_has seen (host.lower (numbered_name parts n)) ≡ true
        → ((m : ℕ)
            → suc n ≤ m
            → m < suc n + rounds
            → seen_has seen (host.lower (numbered_name parts m)) ≡ true)
        → (m : ℕ) → n ≤ m
        → m < n + suc rounds
        → seen_has seen (host.lower (numbered_name parts m)) ≡ true
    taken e f m p q = elim (ℕ_discrete n m) [
      | yes here ↦ subst (λ k. seen_has seen (host.lower (numbered_name parts k)) ≡ true) here e
      | no later ↦ f m (omega arith) (omega arith)
    ]

-- Lower case keeps the numbered_name names of a file apart.
abbrev pub KeepsNumbers : TextHost → Type 0
KeepsNumbers host =
    (parts : List ℕ × List ℕ) (n m : ℕ)
    → host.lower (numbered_name parts n) ≡ host.lower (numbered_name parts m)
    → n ≡ m

pub dedupe_name-fresh :
    (host : TextHost) (name : List ℕ) (seen : List (List ℕ))
    → KeepsNumbers host
    → length seen < 9998
    → seen_has seen (host.lower (dedupe_name host name seen)) ≡ false
unfolding dedupe_name
dedupe_name-fresh host name seen keeps few = elim (Bool-cases (seen_has seen (host.lower name))) [
  | inl e ↦ rw e (elim (free_name_lem host seen (split_name name) 9998 2) [
    | inl f ↦ f
    | inr f ↦ absurd (
        pigeonhole (λ n. host.lower (numbered_name (split_name name) n)) (keeps (split_name name))
          9998 2 seen few f)
  ])
  | inr e ↦ rw e e
]
