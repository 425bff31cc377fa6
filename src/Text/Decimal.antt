-- ===== src/Text/Decimal.antt =====
-- `strconv.Atoi` and `strconv.Itoa`, and their round trip.
use hosthalla.Base.{
  ℕ, zero, suc, ◌+◌, ◌-◌, ◌*◌, ◌/◌, ◌%◌, ◌^◌, ◌<◌, ◌≡◌, refl, Bool, true, false, ◌&&◌, inl, inr, [],
  ◌∷◌, ◌++◌, Option, none, some, arith, leb, ltb, ℤ, pos, negsuc, All, All-append, ◌==◌, text_eq,
  Bool-cases, if◌then◌else◌, ◌≢◌, nat_eq,
}
use hosthalla.Text.{Text, is_space, trim_left, trim_right, trim_space}

is_digit : ℕ → Bool
is_digit c = leb b'0' c && leb c b'9'

-- The value of a run of digits after those that gave `acc`.
scan : Text → ℕ → Option ℕ
unfolding is_digit
scan [] acc = some acc
scan (c ∷ s) acc = let rest = scan s (acc * 10 + (c - b'0')) in if is_digit c then rest else none

unsigned : Text → Option ℕ
unfolding scan
unsigned [] = none
unsigned (c ∷ s) = scan (c ∷ s) 0

-- The range of a 64-bit `int` on either side of 0.
in_range : Bool → Option ℕ → Option ℤ
in_range negative none = none
in_range false (some n) = if ltb n (2 ^ 63) then some (pos n) else none
in_range true (some zero) = some (pos zero)
in_range true (some (suc n)) = if ltb n (2 ^ 63) then some (negsuc n) else none

signed : ℕ → Text → Option ℤ
unfolding in_range unsigned
signed c s =
    if c == b'-'
    then in_range true (unsigned s)
    else if c == b'+'
    then in_range false (unsigned s)
    else in_range false (unsigned (c ∷ s))

-- `strconv.Atoi`; `none` is its error.
unfoldable pub atoi : Text → Option ℤ
unfolding signed nat_eq
atoi [] = none
atoi (c ∷ s) = signed c s

digits : ℕ → ℕ → Text
digits zero n = []
digits (suc fuel) n =
    let front = digits fuel (n / 10) in
    if ltb n 10 then (b'0' + n) ∷ [] else front ++ (b'0' + n % 10) ∷ []

-- `strconv.Itoa` on a number that is not negative.
unfoldable pub itoa : ℕ → Text
unfolding digits
itoa n = digits (suc n) n

scan-append :
    (s : Text) (c acc n : ℕ)
    → scan s acc ≡ some n
    → is_digit c ≡ true
    → scan (s ++ c ∷ []) acc ≡ some (n * 10 + (c - b'0'))
unfolding scan
scan-append [] c acc n e d = ground arith
scan-append (x ∷ s) c acc n e d = ground (arith, scan-append s c (acc * 10 + (x - b'0')) n)

abbrev IsDigit : ℕ → Type 0
IsDigit c = is_digit c ≡ true

append-ne-nil : (s : Text) (c : ℕ) → s ++ c ∷ [] ≢ []
append-ne-nil [] c e = cc
append-ne-nil (x ∷ s) c e = cc

digits-IsDigit : (fuel n : ℕ) → n < fuel → All IsDigit (digits fuel n) × (digits fuel n ≢ [])
unfolding digits is_digit
digits-IsDigit zero n h = elim h [ ]
digits-IsDigit (suc fuel) n h = elim (Bool-cases (ltb n 10)) [
  | inl small ↦ rw small ((ground arith, tt), λ e. cc)
  | inr big ↦ rw big (
    All-append IsDigit (digits fuel (n / 10)) ((b'0' + n % 10) ∷ [])
        (digits-IsDigit fuel (n / 10) (ground arith)).0 (ground arith, tt),
    append-ne-nil (digits fuel (n / 10)) (b'0' + n % 10),
  )
]

scan-digits : (fuel n : ℕ) → n < fuel → scan (digits fuel n) 0 ≡ some n
unfolding digits
scan-digits zero n h = elim h [ ]
scan-digits (suc fuel) n h = elim (Bool-cases (ltb n 10)) [
  | inl small ↦ rw small (unfold scan is_digit in ground arith)
  | inr big ↦
      rw
        (
          big,
          scan-append (digits fuel (n / 10)) (b'0' + n % 10) 0 (n / 10)
              (scan-digits fuel (n / 10) (ground arith)) (unfold is_digit in ground arith),
        )
        (ground arith)
]

digit_not_space : (c : ℕ) → IsDigit c → is_space c ≡ false
unfolding is_digit is_space nat_eq
digit_not_space c h = ground arith

trim_left_of_digits : (s : Text) → All IsDigit s → trim_left s ≡ s
unfolding trim_left
trim_left_of_digits [] h = refl
trim_left_of_digits (c ∷ s) (d, h) = rw (digit_not_space c d)

trim_right_of_digits : (s : Text) → All IsDigit s → trim_right s ≡ s
unfolding trim_right
trim_right_of_digits [] h = refl
trim_right_of_digits (c ∷ s) (d, h) = rw (digit_not_space c d, trim_right_of_digits s h)

-- A printed number has nothing to trim, and is not empty.
pub trim_space-itoa : (n : ℕ) → (trim_space (itoa n) ≡ itoa n) × (itoa n ≢ [])
unfolding trim_space itoa
trim_space-itoa n =
    let (all, filled) = digits-IsDigit (suc n) n (omega arith) in
    (rw (trim_left_of_digits _ all) (trim_right_of_digits _ all), filled)

unsigned-digits : (s : Text) → s ≢ [] → unsigned s ≡ scan s 0
unfolding unsigned
unsigned-digits [] h = absurd (h refl)
unsigned-digits (c ∷ s) h = refl

atoi_of_digits : (s : Text) → All IsDigit s → s ≢ [] → atoi s ≡ in_range false (scan s 0)
unfolding atoi is_digit
atoi_of_digits [] all h = absurd (h refl)
atoi_of_digits (c ∷ s) (d, all) h = ground arith

-- Reading a printed number that fits a 64-bit `int` gives it back.
pub atoi-itoa : (n : ℕ) → n < 2 ^ 63 → atoi (itoa n) ≡ some (pos n)
unfolding itoa in_range
atoi-itoa n h =
    let (all, filled) = digits-IsDigit (suc n) n (omega arith) in
    rw (atoi_of_digits _ all filled, scan-digits (suc n) n (omega arith)) (ground arith)
