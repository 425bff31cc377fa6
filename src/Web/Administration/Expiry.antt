-- ===== src/Web/Administration/Expiry.antt =====
-- The lifetime that the form of a new token asks for.
use hosthalla.Base.{ℕ, ◌*◌, ◌-◌, ◌^◌, ◌≡◌, ◌≤◌, pos, negsuc, ok, arith, text_eq}
use hosthalla.Text.Decimal.{itoa, atoi-itoa, trim_space-itoa}
use hosthalla.Web.Administration.{parse_token_expires_in_days, hour, signed64}

signed64_small : (n : ℕ) → n ≤ 2 ^ 63 - 1 → signed64 n ≡ pos n
signed64_small n h = ground arith

signed64_wrapped : (n : ℕ) → 2 ^ 63 ≤ n → n ≤ 2 ^ 64 - 1 → (m : ℕ) × (signed64 n ≡ negsuc m)
signed64_wrapped n low high = (2 ^ 64 - n - 1, ground arith)

-- Up to 106751 days, the lifetime that the form of a new token asks for is that of its decimal text
-- in nanoseconds; from 106752 to 213503 days it is negative, the product having wrapped at 64 bits.
pub parse_token_expires_in_days-itoa :
    (days : ℕ)
    → (days ≤ 106751 → parse_token_expires_in_days (itoa days) ≡ ok (pos (days * 24 * hour)))
      × (106752 ≤ days
          → days ≤ 213503
          → (m : ℕ) × (parse_token_expires_in_days (itoa days) ≡ ok (negsuc m)))
unfolding parse_token_expires_in_days
parse_token_expires_in_days-itoa days =
    let (trimmed, filled) = trim_space-itoa days in
    (
      λ le.
          rw (trimmed, atoi-itoa days (omega arith))
            (ground (arith, filled, signed64_small (days * 24 * hour) (omega arith))),
      λ low high.
          let (m, wrapped) = signed64_wrapped (days * 24 * hour) (omega arith) (omega arith) in
          (m, rw (trimmed, atoi-itoa days (omega arith)) (ground (arith, filled, wrapped))),
    )
