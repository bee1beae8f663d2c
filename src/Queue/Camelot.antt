-- ===== src/Queue/Camelot.antt =====
-- src/lib/track-format.ts: Camelot keys, as far as the queue reads them. A text is its code points.
use localchune.Common.{
  ℕ, ◌+◌, ◌-◌, ◌*◌, ◌%◌, String, Bool, ◌&&◌, ◌||◌, Option, none, some, List, [], ◌∷◌, map, leb,
  ◌==◌, if◌then◌else◌,
}
use Prim.Native.Char.{code}

pub data Letter : Type 0 where
  a_side b_side : Letter

pub record Camelot : Type 0 where
  pub num : ℕ
  pub letter : Letter

abbrev pub codes : String → List ℕ
codes String.[] = []
codes (String.◌∷◌ c s) = code c ∷ codes s

-- The white space and line ends that `trim` removes.
unfoldable pub is_space : ℕ → Bool
is_space c =
    (leb 9 c && leb c 13)
    || c == 32
    || c == 160
    || c == 5760
    || (leb 8192 c && leb c 8202)
    || c == 8232
    || c == 8233
    || c == 8239
    || c == 8287
    || c == 12288
    || c == 65279

unfoldable pub trim_start : List ℕ → List ℕ
trim_start [] = []
trim_start (c ∷ cs) = let rest = trim_start cs in if is_space c then rest else c ∷ cs

-- Without the white space at its end.
unfoldable pub trim_end : List ℕ → List ℕ
trim_end [] = []
trim_end (c ∷ cs) = elim (trim_end cs) [
  | [] ↦ if is_space c then [] else c ∷ []
  | d ∷ ds ↦ c ∷ d ∷ ds
]

-- `toUpperCase` on the letters that a key is made of; no other character turns into one of them.
abbrev pub to_upper : ℕ → ℕ
to_upper c = if leb b'a' c && leb c b'z' then c - 32 else c

unfoldable pub letter_of : ℕ → Option Letter
letter_of c =
    if c == b'A' then some Letter.a_side else if c == b'B' then some Letter.b_side else none

abbrev pub key_of : ℕ → Option Letter → Option Camelot
key_of num none = none
key_of num (some letter) = some (record { num = num; letter = letter })

-- The regular expression `^([1-9]|1[0-2])([AB])$`.
unfoldable pub match_key : List ℕ → Option Camelot
match_key (d ∷ l ∷ []) = if leb b'1' d && leb d b'9' then key_of (d - b'0') (letter_of l) else none
match_key (d ∷ e ∷ l ∷ []) =
    if d == b'1' && (leb b'0' e && leb e b'2') then key_of (10 + (e - b'0')) (letter_of l) else none
match_key _ = none

unfoldable pub parse_camelot : Option String → Option Camelot
parse_camelot none = none
parse_camelot (some key) = match_key (map to_upper (trim_end (trim_start (codes key))))

abbrev pub unknown_sort_key : ℕ
unknown_sort_key = 999

unfoldable pub sort_key : Option Camelot → ℕ
sort_key none = unknown_sort_key
sort_key (some c) = c.num * 10 + elim c.letter [ Letter.a_side ↦ 0 | Letter.b_side ↦ 1 ]

unfoldable pub camelot_sort_key : Option String → ℕ
camelot_sort_key key = sort_key (parse_camelot key)

abbrev pub other_side : Letter → Letter
other_side Letter.a_side = Letter.b_side
other_side Letter.b_side = Letter.a_side

-- The neighbours of `harmonicKeys` in their order, before they are printed.
unfoldable pub harmonic_keys : Option Camelot → List Camelot
harmonic_keys none = []
harmonic_keys (some c) =
    let up = c.num % 12 + 1 in
    let down = (c.num + 10) % 12 + 1 in
    c
    ∷ record { num = up; letter = c.letter }
    ∷ record { num = down; letter = c.letter }
    ∷ record { num = c.num; letter = other_side c.letter }
    ∷ []
