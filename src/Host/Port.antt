-- ===== src/Host/Port.antt =====
-- `ParsePort` and `normalizePort` of internal/host/service.go.
use hosthalla.Base.{
  ℕ, ◌≡◌, ◌≤◌, ◌<◌, inl, inr, Option, none, some, [], failed, Result, ok, err, ℤ, pos, negsuc, ltb,
  ◌||◌, if◌then◌else◌, ◌==◌, nat_eq, text_eq, arith, ◌^◌, ◌%◌, Bool-cases,
}
use hosthalla.Text.{Text, trim_space}
use hosthalla.Text.Decimal.{atoi, itoa, atoi-itoa, trim_space-itoa}

-- The `uint16` of an `int` that was found to be a port.
abbrev pub checked_port : Option ℤ → Result ℕ
checked_port none = err (failed "invalid syntax")
checked_port (some (negsuc n)) = err (failed "port must be between 1 and 65535")
checked_port (some (pos n)) =
    if ltb n 1 || ltb 65535 n
    then err (failed "port must be between 1 and 65535")
    else ok (n % 2 ^ 16)

unfoldable pub parse_port : Text → Result ℕ
parse_port raw =
    let trimmed = trim_space raw in if trimmed == [] then ok 22 else checked_port (atoi trimmed)

unfoldable pub normalize_port : ℕ → ℕ
normalize_port port = if port == 0 then 22 else port

checked_port_bounds : (o : Option ℤ) (p : ℕ) → checked_port o ≡ ok p → (1 ≤ p) × (p ≤ 65535)
checked_port_bounds none p e = cc
checked_port_bounds (some (negsuc n)) p e = cc
checked_port_bounds (some (pos n)) p e = ground arith

-- Whatever the text, a port that is accepted is from 1 to 65535.
pub parse_port_bounds : (raw : Text) (p : ℕ) → parse_port raw ≡ ok p → (1 ≤ p) × (p ≤ 65535)
unfolding parse_port
parse_port_bounds raw p e = elim (Bool-cases (trim_space raw == [])) [
  | inl blank ↦ ground arith
  | inr filled ↦ checked_port_bounds (atoi (trim_space raw)) p (rw filled at e)
]

-- Every port is read back from its decimal text.
pub parse_port-itoa : (p : ℕ) → 1 ≤ p → p ≤ 65535 → parse_port (itoa p) ≡ ok p
unfolding parse_port
parse_port-itoa p low high =
    let (trimmed, filled) = trim_space-itoa p in
    rw (trimmed, atoi-itoa p (omega arith)) (ground (arith, filled))

pub normalize_port_bounds :
    (p : ℕ) → p < 2 ^ 16 → (1 ≤ normalize_port p) × (normalize_port p < 2 ^ 16)
unfolding normalize_port
normalize_port_bounds p h = ground arith
