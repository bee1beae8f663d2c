-- ===== src/Upload/Policy/Accepted.antt =====
-- What the preflight accepts.
use localchune.Common.{
  ℕ, suc, ◌+◌, ◌*◌, ◌≤◌, ◌<◌, String, ◌≡◌, refl, ap, ◌∙◌, ◌⊎◌, inl, inr, false, Option, none, some,
  List, [], ◌∷◌, ◌++◌, arith, ◌==◌, Bool-cases, Option-cases, length, All,
}
use localchune.Queue.Camelot.{codes}
use localchune.Upload.Policy.{
  last_dot, extension_at, find_extension, accepted, container, inherited, preflight, judge,
  container_from_filename, plan_upload, UploadPlan, Found, Container, max_bytes_for, is_too_long,
  above, mp3, flac, wav, aiff, m4a, ogg, opus,
}

-- 1.1 times the bytes of 15 minutes at 320, 512 and 4608 kbit/s.
abbrev pub byte_limit : Container → ℕ
byte_limit mp3 = 39600000
byte_limit m4a = 63360000
byte_limit ogg = 63360000
byte_limit opus = 63360000
byte_limit wav = 570240000
byte_limit aiff = 570240000
byte_limit flac = 570240000

-- Not longer than 15 minutes, or of unknown length.
abbrev pub IsShort : Option ℕ → Type 0
IsShort none = Unit
IsShort (some d) = d ≤ 15 * 60 * 1000

not_too_long-IsShort : (duration : Option ℕ) → is_too_long duration ≡ false → IsShort duration
not_too_long-IsShort none h = tt
not_too_long-IsShort (some d) h = ground (arith, h)

too_long-IsShort : (duration : Option ℕ) → IsShort duration → is_too_long duration ≡ false
too_long-IsShort none h = refl
too_long-IsShort (some d) h = ground (arith, h)

bytes_of-container :
    (c : Container) (size : ℕ)
    → above size (max_bytes_for (container c)) ≡ false
    → size ≤ byte_limit c
unfolding max_bytes_for
bytes_of-container mp3 size h = ground arith
bytes_of-container flac size h = ground arith
bytes_of-container wav size h = ground arith
bytes_of-container aiff size h = ground arith
bytes_of-container m4a size h = ground arith
bytes_of-container ogg size h = ground arith
bytes_of-container opus size h = ground arith

-- What holds of an accepted file.
abbrev pub IsAcceptable : ℕ → Option ℕ → Container → UploadPlan → Type 0
IsAcceptable size duration c plan =
    (0 < size) × IsShort duration × (size ≤ byte_limit c) × (plan ≡ plan_upload size)

judge-container :
    (c : Container) (size : ℕ) (duration : Option ℕ) (found : Found) (plan : UploadPlan)
    → judge found size duration ≡ accepted (container c) plan
    → IsAcceptable size duration c plan
judge-container c size duration found plan h =
    let shape =
      λ (f : above size (max_bytes_for (container c)) ≡ false). bytes_of-container c size f in
    elim (Bool-cases (size == 0)) [
      | inl p ↦ (let q = rw p at h in cc)
      | inr p ↦ elim (Bool-cases (is_too_long duration)) [
        | inl q ↦ (let e = rw (p, q) at h in cc)
        | inr q ↦ elim (Bool-cases (above size (max_bytes_for found))) [
          | inl r ↦ (let e = rw (p, q, r) at h in cc)
          | inr r ↦
              let e : accepted found (plan_upload size) ≡ accepted (container c) plan =
                rw (p, q, r) at h in
              (
                ground arith,
                not_too_long-IsShort duration q,
                shape (ground (arith, e, r)),
                ground (arith, e),
              )
        ]
      ]
    ]

-- An accepted file of a known container is not empty, is not longer than 15 minutes where its length
-- is known, is no larger than 39,600,000 bytes as MP3, 63,360,000 as M4A, Ogg or Opus and 570,240,000
-- as FLAC, WAV or AIFF, and has the plan of its size.
pub preflight-container :
    (name : String) (size : ℕ) (duration : Option ℕ) (c : Container) (plan : UploadPlan)
    → preflight name size duration ≡ accepted (container c) plan
    → IsAcceptable size duration c plan
unfolding preflight
preflight-container name size duration c plan h =
    elim (Option-cases (container_from_filename name)) [
      | inl p ↦ (let e = rw (p, preflight) at h in cc)
      | inr (found, p) ↦ judge-container c size duration found plan (rw (p, preflight) at h)
    ]

-- The last dot of a text stands behind the stem.
last_dot-none : (i : ℕ) (s : List ℕ) → All (λ c. (c == b'.') ≡ false) s → last_dot i s ≡ none
unfolding last_dot
last_dot-none i [] h = refl
last_dot-none i (c ∷ cs) (p, h) = rw (last_dot-none (suc i) cs h, p) refl

last_dot-append :
    (i : ℕ) (stem ext : List ℕ)
    → All (λ c. (c == b'.') ≡ false) ext
    → last_dot i (stem ++ b'.' ∷ ext) ≡ some (i + length stem, ext)
unfolding last_dot
last_dot-append i [] ext h =
    rw (last_dot-none (suc i) ext h) (ap (λ k. some (k, ext)) (omega arith))
last_dot-append i (c ∷ stem) ext h =
    rw (last_dot-append (suc i) stem ext h) (ap (λ k. some (k, ext)) (omega arith))

-- The extensions that the table only inherits.
abbrev pub IsInherited : List ℕ → Type 0
IsInherited ext = (ext ≡ codes "constructor") ⊎ (ext ≡ codes "__proto__")

constructor_found : (i : ℕ) → extension_at (some (suc i, codes "constructor")) ≡ some inherited
unfolding find_extension
constructor_found i = refl

proto_found : (i : ℕ) → extension_at (some (suc i, codes "__proto__")) ≡ some inherited
unfolding find_extension
proto_found i = refl

stem_dot :
    (c : ℕ) (stem ext : List ℕ)
    → All (λ x. (x == b'.') ≡ false) ext
    → last_dot 0 (c ∷ stem ++ b'.' ∷ ext) ≡ some (suc (length stem), ext)
stem_dot c stem ext h = last_dot-append 0 (c ∷ stem) ext h ∙ ap (λ k. some (k, ext)) (omega arith)

constructor_dotless : All (λ c. (c == b'.') ≡ false) (codes "constructor")
constructor_dotless =
    (refl, (refl, (refl, (refl, (refl, (refl, (refl, (refl, (refl, (refl, (refl, tt)))))))))))

proto_dotless : All (λ c. (c == b'.') ≡ false) (codes "__proto__")
proto_dotless = (refl, (refl, (refl, (refl, (refl, (refl, (refl, (refl, (refl, tt)))))))))

inherited_name :
    (name : String) (c : ℕ) (stem ext : List ℕ)
    → codes name ≡ c ∷ stem ++ b'.' ∷ ext
    → IsInherited ext
    → container_from_filename name ≡ some inherited
unfolding container_from_filename
inherited_name name c stem ext e (inl h) =
    rw (e, h, stem_dot c stem (codes "constructor") constructor_dotless)
      (constructor_found (length stem))
inherited_name name c stem ext e (inr h) =
    rw (e, h, stem_dot c stem (codes "__proto__") proto_dotless) (proto_found (length stem))

-- A name that ends in `.constructor` or `.__proto__`, with something in front of that dot, is accepted as
-- of no container with every size above 0, unless it is known to be longer than 15 minutes.
pub preflight-inherited :
    (name : String) (c : ℕ) (stem ext : List ℕ) (size : ℕ) (duration : Option ℕ)
    → codes name ≡ c ∷ stem ++ b'.' ∷ ext
    → IsInherited ext
    → 0 < size
    → IsShort duration
    → preflight name size duration ≡ accepted inherited (plan_upload size)
unfolding preflight max_bytes_for
preflight-inherited name c stem ext size duration e k h q =
    let p = inherited_name name c stem ext e k in
    let more : (size == 0) ≡ false = ground arith in
    rw (p, preflight, more, too_long-IsShort duration q) refl
