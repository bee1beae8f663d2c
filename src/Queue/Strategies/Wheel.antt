-- ===== src/Queue/Strategies/Wheel.antt =====
-- The penalties of keys and the neighbours of a key on the Camelot wheel.
use localchune.Common.{
  ◌+◌, inr, ◌-◌, inl, ap, String, Bool-cases, none, Option, ℕ, ◌≤◌, ◌≡◌, refl, Bool, false, ◌&&◌,
  ◌||◌, some, List, [], ◌∷◌, arith, leb, ◌==◌,
}
use localchune.Queue.Camelot.{
  letter_of, key_of, parse_camelot, match_key, Camelot, Letter, harmonic_keys,
}
use localchune.Queue.Strategies.{
  key_penalty, wheel_penalty, distance, same_letter, relative_penalty,
}

-- An hour of the wheel, 1 to 12.
pub record IsOnWheel (c : Camelot) : Type 0 where
  pub first : 1 ≤ c.num
  pub last : c.num ≤ 12

same_letter_sym : (a b : Letter) → same_letter a b ≡ same_letter b a
same_letter_sym Letter.a_side Letter.a_side = refl
same_letter_sym Letter.a_side Letter.b_side = refl
same_letter_sym Letter.b_side Letter.a_side = refl
same_letter_sym Letter.b_side Letter.b_side = refl

distance_sym : (a b : ℕ) → distance a b ≡ distance b a
distance_sym a b = ground arith

wheel_penalty_sym : (a b : Camelot) → wheel_penalty a b ≡ wheel_penalty b a
unfolding wheel_penalty
wheel_penalty_sym a b = rw (same_letter_sym a.letter b.letter, distance_sym a.num b.num) refl

abbrev same_key : Camelot → Camelot → Bool
same_key a b = a.num == b.num && same_letter a.letter b.letter

-- The list has the key.
abbrev pub listed : Camelot → List Camelot → Bool
listed c [] = false
listed c (k ∷ ks) = same_key c k || listed c ks

module _ (n m : ℕ) (first : (1 ≤ n) × (1 ≤ m)) (last : (n ≤ 12) × (m ≤ 12)) where
  listed-near :
      (k l : Letter)
      → leb
          (wheel_penalty (record { num = n; letter = k }) (record { num = m; letter = l }))
          relative_penalty
        ≡ listed
            (record { num = m; letter = l })
            (harmonic_keys (some (record { num = n; letter = k })))
  unfolding wheel_penalty harmonic_keys
  listed-near Letter.a_side Letter.a_side = ground arith
  listed-near Letter.a_side Letter.b_side = ground arith
  listed-near Letter.b_side Letter.a_side = ground arith
  listed-near Letter.b_side Letter.b_side = ground arith

abbrev num_or : ℕ → Option Camelot → ℕ
num_or n none = n
num_or n (some c) = c.num

none-some : {c : Camelot} → none ≡ some c → ⊥
none-some h = cc

key_of-IsOnWheel :
    (n : ℕ) (l : Option Letter) (c : Camelot) → 1 ≤ n → n ≤ 12 → key_of n l ≡ some c → IsOnWheel c
key_of-IsOnWheel n none c p q h = cc
key_of-IsOnWheel n (some l) c p q h =
    let same_num : n ≡ c.num = ap (λ (o : Option Camelot). num_or n o) h in
    record { first = omega (arith, same_num); last = omega (arith, same_num) }

match_key-IsOnWheel : (cs : List ℕ) (c : Camelot) → match_key cs ≡ some c → IsOnWheel c
unfolding match_key
match_key-IsOnWheel [] c h = cc
match_key-IsOnWheel (d ∷ []) c h = cc
match_key-IsOnWheel (d ∷ l ∷ []) c h = elim (Bool-cases (leb b'1' d && leb d b'9')) [
  | inl p ↦
      key_of-IsOnWheel (d - b'0') (letter_of l) c (ground arith) (ground arith)
        (rw (p, match_key) at h)
  | inr p ↦ absurd (none-some (rw (p, match_key) at h))
]
match_key-IsOnWheel (d ∷ e ∷ l ∷ []) c h =
    elim (Bool-cases (d == b'1' && (leb b'0' e && leb e b'2'))) [
      | inl p ↦
          key_of-IsOnWheel (10 + (e - b'0')) (letter_of l) c (omega arith) (ground arith)
            (rw (p, match_key) at h)
      | inr p ↦ absurd (none-some (rw (p, match_key) at h))
    ]
match_key-IsOnWheel (d ∷ e ∷ f ∷ g ∷ cs) c h = cc

parse_camelot-IsOnWheel :
    (key : Option String) (c : Camelot) → parse_camelot key ≡ some c → IsOnWheel c
unfolding parse_camelot
parse_camelot-IsOnWheel none c h = cc
parse_camelot-IsOnWheel (some key) c h = match_key-IsOnWheel _ c h

-- Where two texts are keys, their hours are 1 to 12; the strategies price the second at the relative's
-- penalty or less exactly when it is one of the first's neighbours that the filter shows; and the
-- penalty is symmetric.
pub key_penalty-harmonic_keys :
    (s t : Option String) (a b : Camelot)
    → parse_camelot s ≡ some a
    → parse_camelot t ≡ some b
    → IsOnWheel a
      × IsOnWheel b
      × (leb (key_penalty s t) relative_penalty ≡ listed b (harmonic_keys (some a)))
      × (key_penalty s t ≡ key_penalty t s)
unfolding key_penalty
key_penalty-harmonic_keys s t a b p q =
    let on_a = parse_camelot-IsOnWheel s a p in
    let on_b = parse_camelot-IsOnWheel t b q in
    (
      on_a,
      on_b,
      rw (p, key_penalty, q)
          (listed-near a.num b.num (on_a.first, on_b.first) (on_a.last, on_b.last) a.letter
            b.letter),
      rw (p, key_penalty, q) (wheel_penalty_sym a b),
    )
