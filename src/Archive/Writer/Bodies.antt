-- ===== src/Archive/Writer/Bodies.antt =====
-- The chunks of one body, as `zipChunks` of src/lib/zip.ts copies them.
use localchune.Archive.Crc.Rolling.{crc32-crc_serial, crc32-append, crc32-none}
use localchune.Archive.Crc.Blocks.{IsWord, IsByte}
use localchune.Archive.Crc.{u32_max, crc32}
use mathlib.Core.List.{append_assoc}
use localchune.Common.{
  ℕ, ◌+◌, ◌≤◌, ◌<◌, String, ◌≡◌, refl, sym, ap, ◌∙◌, ◌≢◌, ◌⊎◌, inl, inr, Bool, true, false, List,
  [], ◌∷◌, ◌++◌, arith, dec_le, ℕ_discrete, Bool-cases, length, length-append, All, All-append,
}
use localchune.Archive.Writer.{
  out_of_range, read_failed, Written, then_on, outgrew, Result, Fault, wrote, put_front, copy_body,
  Feed, closed, failed, value, ok, threw,
}

abbrev pub concat : List (List ℕ) → List ℕ
concat [] = []
concat (chunk ∷ chunks) = chunk ++ concat chunks

pub concat-append : (xs ys : List (List ℕ)) → concat (xs ++ ys) ≡ concat xs ++ concat ys
concat-append [] ys = refl
concat-append (x ∷ xs) ys = rw (concat-append xs ys) (sym (append_assoc x (concat xs) (concat ys)))

-- What a body holds, up to its end.
abbrev pub content : Feed (List ℕ) → List ℕ
content closed = []
content failed = []
content (value chunk rest) = chunk ++ content rest

-- The chunks of a body are bytes.
abbrev pub AllBytes : Feed (List ℕ) → Type 0
AllBytes closed = Unit
AllBytes failed = Unit
AllBytes (value chunk rest) = All IsByte chunk × AllBytes rest

-- A body that fails before its end.
abbrev pub Fails : Feed (List ℕ) → Type 0
Fails closed = ⊥
Fails failed = Unit
Fails (value chunk rest) = Fails rest

-- What holds of a result: one claim for a value, another for a fault.
abbrev pub Ends : {A : Type 0} → (A → Type 0) → (Fault → Type 0) → Result A → Type 0
Ends P F (ok a) = P a
Ends P F (threw e) = F e

module _ {A B : Type 0} (Q : List (List ℕ) → B → Type 0) (F : Fault → Type 0) where
  pub Ends-bind :
      (P : List (List ℕ) → A → Type 0) (chunks : List (List ℕ)) (result : Result A)
      (f : A → Written B)
      → Ends (P chunks) F result
      → ((a : A) → P chunks a → Ends (Q (chunks ++ (f a).chunks)) F (f a).result)
      → Ends (Q (then_on chunks result f).chunks) F (then_on chunks result f).result
  unfolding then_on
  Ends-bind P chunks (ok a) f h k = k a h
  Ends-bind P chunks (threw e) f h k = h

pub Ends-map :
    {A : Type 0} {P Q : A → Type 0} {F G : Fault → Type 0} (result : Result A)
    → ((a : A) → P a → Q a)
    → ((e : Fault) → F e → G e)
    → Ends P F result
    → Ends Q G result
Ends-map (ok a) p f h = p a h
Ends-map (threw e) p f h = f e h

-- What the copy of a body has done when it did not throw.
abbrev pub Copied : Bool → Feed (List ℕ) → ℕ → ℕ → List (List ℕ) → ℕ × ℕ → Type 0
Copied zip64 body crc written chunks out =
    (concat chunks ≡ content body)
    × (out.0 ≡ crc32 (content body) crc)
    × (out.1 ≡ written + length (content body))
    × (zip64 ≡ true ⊎ (written ≤ u32_max → out.1 ≤ u32_max))

-- Why it threw.
abbrev pub Broken : String → Bool → Feed (List ℕ) → ℕ → Fault → Type 0
Broken name zip64 body written read_failed = Fails body
Broken name zip64 body written (outgrew n) =
    (n ≡ name) × (zip64 ≡ false) × u32_max < written + length (content body)
Broken name zip64 body written out_of_range = ⊥

length_zero : (xs : List ℕ) → length xs ≡ 0 → xs ≡ []
length_zero [] h = refl
length_zero (x ∷ xs) h = absurd (omega arith)

module _ (name : String) (zip64 : Bool) (chunk : List ℕ) (rest : Feed (List ℕ))
    (crc written : ℕ) where
  copy_skip :
      length chunk ≡ 0
      → copy_body name zip64 (value chunk rest) crc written ≡ copy_body name zip64 rest crc written
  unfolding copy_body
  copy_skip h = ground arith

  copy_over :
      length chunk ≢ 0
      → zip64 ≡ false
      → u32_max < written + length chunk
      → copy_body name zip64 (value chunk rest) crc written ≡ wrote [] (threw (outgrew name))
  unfolding copy_body
  copy_over h z k = ground arith

  copy_next :
      length chunk ≢ 0
      → (zip64 ≡ true) ⊎ (written + length chunk ≤ u32_max)
      → copy_body name zip64 (value chunk rest) crc written
        ≡ put_front chunk (copy_body name zip64 rest (crc32 chunk crc) (written + length chunk))
  unfolding copy_body
  copy_next h k = ground arith

-- What a round does: it skips an empty chunk, throws at one too many, or goes on.
copy_cases :
    (zip64 : Bool) (n written : ℕ)
    → (n ≡ 0)
      ⊎ ((n ≢ 0) × (zip64 ≡ false) × u32_max < written + n)
      ⊎ ((n ≢ 0) × ((zip64 ≡ true) ⊎ (written + n ≤ u32_max)))
copy_cases zip64 n written = elim (ℕ_discrete n 0) [
  | yes e ↦ inl e
  | no e ↦ elim (Bool-cases zip64) [
    | inl z ↦ inr (inr (e, inl z))
    | inr z ↦ elim (dec_le (written + n) u32_max) [
      | yes h ↦ inr (inr (e, inr h))
      | no h ↦ inr (inl (e, z, omega arith))
    ]
  ]
]

pub content-IsByte : (body : Feed (List ℕ)) → AllBytes body → All IsByte (content body)
content-IsByte closed h = tt
content-IsByte failed h = tt
content-IsByte (value chunk rest) (b, h) =
    All-append IsByte chunk (content rest) b (content-IsByte rest h)

Copied-next :
    (zip64 : Bool) (chunk : List ℕ) (rest : Feed (List ℕ)) (crc written : ℕ)
    → All IsByte chunk
    → AllBytes rest
    → IsWord crc
    → (zip64 ≡ true) ⊎ (written + length chunk ≤ u32_max)
    → (chunks : List (List ℕ)) (out : ℕ × ℕ)
    → Copied zip64 rest (crc32 chunk crc) (written + length chunk) chunks out
    → Copied zip64 (value chunk rest) crc written (chunk ∷ chunks) out
Copied-next zip64 chunk rest crc written b bs w h chunks out (p, q, r, s) = (
  ap (◌++◌ chunk) p,
  q ∙ crc32-append chunk (content rest) crc b (content-IsByte rest bs) w,
  omega (arith, length-append chunk (content rest)),
  elim h [ inl z ↦ inl z | inr k ↦ elim s [ inl z ↦ inl z | inr m ↦ inr (λ _. m k) ] ],
)

Broken-next :
    (name : String) (zip64 : Bool) (chunk : List ℕ) (rest : Feed (List ℕ)) (written : ℕ) (e : Fault)
    → Broken name zip64 rest (written + length chunk) e
    → Broken name zip64 (value chunk rest) written e
Broken-next name zip64 chunk rest written read_failed h = h
Broken-next name zip64 chunk rest written (outgrew n) (p, q, r) =
    (p, q, omega (arith, length-append chunk (content rest)))
Broken-next name zip64 chunk rest written out_of_range h = h

pub copy_body_lem :
    (name : String) (zip64 : Bool) (body : Feed (List ℕ)) (crc written : ℕ)
    → AllBytes body
    → IsWord crc
    → Ends
        (Copied zip64 body crc written (copy_body name zip64 body crc written).chunks)
        (Broken name zip64 body written)
        (copy_body name zip64 body crc written).result
unfolding copy_body put_front
copy_body_lem name zip64 closed crc written b w =
    (refl, sym (crc32-none crc w), omega arith, inr (λ h. h))
copy_body_lem name zip64 failed crc written b w = tt
copy_body_lem name zip64 (value chunk rest) crc written (b, bs) w =
    elim (copy_cases zip64 (length chunk) written) [
      | inl e ↦
          rw (copy_skip name zip64 chunk rest crc written e, length_zero chunk e)
            (copy_body_lem name zip64 rest crc written bs w)
      | inr (inl (n, z, h)) ↦
          rw (copy_over name zip64 chunk rest crc written n z h)
            (refl, z, omega (arith, length-append chunk (content rest)))
      | inr (inr (n, h)) ↦
          let next = copy_body name zip64 rest (crc32 chunk crc) (written + length chunk) in
          let word = (crc32-crc_serial chunk crc b w).1 in
          rw (copy_next name zip64 chunk rest crc written n h) (
            Ends-map next.result (Copied-next zip64 chunk rest crc written b bs w h next.chunks)
              (Broken-next name zip64 chunk rest written)
              (copy_body_lem name zip64 rest (crc32 chunk crc) (written + length chunk) bs word))
    ]
