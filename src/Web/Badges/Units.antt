-- ===== src/Web/Badges/Units.antt =====
-- The unit that `formatBytes` chooses.
use mathlib.Core.Path.{subst}
use native.Mathlib.Nat.{
  pow-suc, pow-le-pow_right, div-div-eq-div-mul, le-div_iff_mul-le, div-lt_iff_lt-mul,
}
use hosthalla.Base.{
  ℕ, zero, suc, ◌+◌, ◌*◌, ◌/◌, ◌%◌, ◌^◌, ◌≡◌, ◌≤◌, ◌<◌, refl, sym, ap, ◌∙◌, ok, ltb, leb, arith,
  Bool-cases, inl, inr, IsOk,
}
use hosthalla.Text.{Text}
use hosthalla.Web.Badges.{Float64, scale, scale_fuel, format_bytes, index, suffixes}

-- The state of the loop: the product is exact and no more than the number, and what is left of
-- the number is its quotient by the product.
record Inv (fuel bytes n div exp : ℕ) : Type 0 where
  exact : div ≡ 1024 ^ (exp + 1)
  fits : div ≤ bytes
  quotient : n ≡ bytes / div
  enough : 7 ≤ fuel + exp

-- The product and the exponent of the unit that fits the number.
pub record IsUnit (bytes div exp : ℕ) : Type 0 where
  pub exact : div ≡ 1024 ^ (exp + 1)
  pub named : exp ≤ 5
  pub low : div ≤ bytes
  pub high : bytes < 1024 * div

module _ (bytes : ℕ) (b : bytes < 2 ^ 64) where
  exp_bound : (div exp : ℕ) → div ≡ 1024 ^ (exp + 1) → div ≤ bytes → exp ≤ 5
  exp_bound div exp e le = elim (Bool-cases (leb exp 5)) [
    | inl small ↦ ground arith
    | inr big ↦
        let more : 7 ≤ exp + 1 = ground arith in
        let power : 1024 ^ 7 ≤ 1024 ^ (exp + 1) = pow-le-pow_right {n = 1024} (omega arith) more in
        let large : 1024 ^ 7 ≤ bytes = omega (arith, e, le, power) in absurd (too_large large)
  ]
    where
      too_large : ¬ (1024 ^ 7 ≤ bytes)
      too_large h = omega arith

  pos_div : (div exp : ℕ) → div ≡ 1024 ^ (exp + 1) → 0 < div
  pos_div div exp e =
      let power : 1024 ^ 0 ≤ 1024 ^ (exp + 1) =
        pow-le-pow_right {n = 1024} (omega arith) {i = 0} (omega arith) in
      omega (arith, power)

  divided-IsUnit :
      (fuel n div exp : ℕ)
      → Inv fuel bytes n div exp
      → IsUnit bytes (scale fuel n div exp).0 (scale fuel n div exp).1
  unfolding scale
  divided-IsUnit zero n div exp h =
      absurd (short (exp_bound div exp h.exact h.fits) (omega (arith, h.enough)))
    where
      short : exp ≤ 5 → ¬ (7 ≤ exp)
      short le ge = omega arith
  divided-IsUnit (suc fuel) n div exp h = elim (Bool-cases (leb 1024 n)) [
    | inl large ↦
        let up : 1024 ≤ bytes / div = subst (λ q. 1024 ≤ q) h.quotient (ground arith) in
        let product : 1024 * div ≤ bytes = (le-div_iff_mul-le (pos_div div exp h.exact)).0 up in
        let after : suc (exp + 1) ≡ exp + 1 + 1 = omega arith in
        let same : div * 1024 % 2 ^ 64 ≡ div * 1024 = omega arith in
        rw (large, same)
          (divided-IsUnit fuel (n / 1024) (div * 1024) (exp + 1) (record {
            exact =
                ap (λ d. d * 1024) h.exact
                ∙ sym (pow-suc 1024 (exp + 1))
                ∙ ap (λ k. 1024 ^ k) after;
            fits = omega arith;
            quotient = ap (λ m. m / 1024) h.quotient ∙ div-div-eq-div-mul bytes div 1024;
            enough = omega (arith, h.enough);
          }))
    | inr small ↦
        let down : bytes / div < 1024 = subst (λ q. q < 1024) h.quotient (ground arith) in
        rw small (record {
          exact = h.exact;
          named = exp_bound div exp h.exact h.fits;
          low = h.fits;
          high = (div-lt_iff_lt-mul (pos_div div exp h.exact)).0 down;
        })
  ]

  scale-IsUnit :
      1024 ≤ bytes
      → IsUnit bytes
          (scale scale_fuel (bytes / 1024) 1024 0).0
          (scale scale_fuel (bytes / 1024) 1024 0).1
  scale-IsUnit le =
      divided-IsUnit scale_fuel (bytes / 1024) 1024 0
        (record { exact = refl; fits = le; quotient = refl; enough = omega arith })

  index_ok : (exp : ℕ) → exp ≤ 5 → (t : Text) × (index suffixes exp ≡ ok t)
  index_ok zero le = (_, refl)
  index_ok (suc zero) le = (_, refl)
  index_ok (suc (suc zero)) le = (_, refl)
  index_ok (suc (suc (suc zero))) le = (_, refl)
  index_ok (suc (suc (suc (suc zero)))) le = (_, refl)
  index_ok (suc (suc (suc (suc (suc zero))))) le = (_, refl)
  index_ok (suc (suc (suc (suc (suc (suc n)))))) le = absurd (omega arith)

  pub format_bytes-IsUnit :
      ⦃f : Float64⦄
      → IsOk (format_bytes bytes)
        × (1024 ≤ bytes
            → IsUnit bytes
                (scale scale_fuel (bytes / 1024) 1024 0).0
                (scale scale_fuel (bytes / 1024) 1024 0).1)
  unfolding format_bytes
  format_bytes-IsUnit = (
    elim (Bool-cases (ltb bytes 1024)) [
      | inl small ↦ rw small tt
      | inr large ↦
          let (t, e) =
            index_ok (scale scale_fuel (bytes / 1024) 1024 0).1
              (scale-IsUnit (ground arith)).named in
          rw (large, e) tt
    ],
    scale-IsUnit,
  )
