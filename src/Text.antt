-- ===== src/Text.antt =====
-- What the code takes from Go's `strings`, `unicode` and `strconv`. A Go string that is valid UTF-8
-- is the list of its code points, so `string(b)` and `[]byte(s)` are the identity here.
-- `unicode.ToLower` beyond ASCII is an instance argument with the two laws that are relied on.
pub mod Trim
pub mod Normalize
pub mod Decimal
use Prim.Native.Char.{code}
use Prim.Native.String
use hosthalla.Base.{
  ℕ, zero, suc, ◌+◌, ◌-◌, ◌*◌, ◌<◌, ◌≤◌, ◌≡◌, String, Bool, true, false, not, ◌&&◌, ◌||◌, List, [],
  ◌∷◌, ◌++◌, map, Option, none, some, leb, ltb, if◌then◌else◌, Eq, ◌==◌, nat_eq, text_eq, any,
}

abbrev pub Text : Type 0
Text = List ℕ

abbrev pub codes : String → Text
codes String.[] = []
codes (String.◌∷◌ c s) = code c ∷ codes s

-- `unicode.IsSpace`
unfoldable pub is_space : ℕ → Bool
is_space c =
    (leb 9 c && leb c 13)
    || (leb 0x2000 c && leb c 0x200a)
    || any (λ space. c == space)
        (32 ∷ 0x85 ∷ 0xa0 ∷ 0x1680 ∷ 0x2028 ∷ 0x2029 ∷ 0x202f ∷ 0x205f ∷ 0x3000 ∷ [])

unfoldable pub trim_left : Text → Text
trim_left [] = []
trim_left (c ∷ s) = let rest = trim_left s in if is_space c then rest else c ∷ s

unfoldable pub trim_right : Text → Text
trim_right [] = []
trim_right (c ∷ s) = let rest = trim_right s in if is_space c && rest == [] then [] else c ∷ rest

-- `strings.TrimSpace`
unfoldable pub trim_space : Text → Text
trim_space s = trim_right (trim_left s)

-- The case mapping of one rune, given the one of the runes beyond ASCII.
abbrev pub lower_with : (ℕ → ℕ) → ℕ → ℕ
lower_with wide c = if ltb c 128 then (if leb b'A' c && leb c b'Z' then c + 32 else c) else wide c

pub record Unicode : Type 0 where
  pub wide : ℕ → ℕ
  pub folded : (c : ℕ) → lower_with wide (lower_with wide c) ≡ lower_with wide c
  pub keeps_space : (c : ℕ) → is_space (lower_with wide c) ≡ is_space c

-- `unicode.ToLower`
abbrev pub lower_rune : ⦃u : Unicode⦄ → ℕ → ℕ
lower_rune ⦃u⦄ = lower_with u.wide

-- `strings.ToLower`
unfoldable pub to_lower : ⦃u : Unicode⦄ → Text → Text
to_lower [] = []
to_lower (c ∷ s) = lower_rune c ∷ to_lower s

-- `strings.HasPrefix(s, prefix)`
unfoldable pub has_prefix : Text → Text → Bool
has_prefix s [] = true
has_prefix [] (p ∷ prefix) = false
has_prefix (c ∷ s) (p ∷ prefix) = let rest = has_prefix s prefix in if c == p then rest else false

-- `strings.Contains(s, part)`
unfoldable pub has_part : Text → Text → Bool
unfolding has_prefix
has_part [] part = part == []
has_part (c ∷ s) part = has_prefix (c ∷ s) part || has_part s part

-- The bytes of a rune in UTF-8, and `len` of a string.
abbrev pub rune_width : ℕ → ℕ
rune_width c = if ltb c 0x80 then 1 else if ltb c 0x800 then 2 else if ltb c 0x10000 then 3 else 4

unfoldable pub byte_length : Text → ℕ
byte_length [] = 0
byte_length (c ∷ s) = rune_width c + byte_length s
