-- ===== src/Text/Trim.antt =====
-- Laws of trimming and of the change to lower case.
use hosthalla.Base.{
  ℕ, ◌≡◌, refl, ◌∙◌, ap, false, ◌⊎◌, inl, inr, [], ◌∷◌, arith, ◌==◌, text_eq, Bool-cases,
}
use hosthalla.Text.{Text, is_space, trim_left, trim_right, trim_space, Unicode, to_lower}

trim_left-cases :
    (s : Text)
    → (trim_left s ≡ []) ⊎ ((c : ℕ) × (t : Text) × (trim_left s ≡ c ∷ t) × (is_space c ≡ false))
unfolding trim_left
trim_left-cases [] = inl refl
trim_left-cases (c ∷ s) = elim (Bool-cases (is_space c)) [
  | inl space ↦ rw space (trim_left-cases s)
  | inr plain ↦ rw plain (inr (c, s, refl, plain))
]

trim_left-cons : (c : ℕ) (s : Text) → is_space c ≡ false → trim_left (c ∷ s) ≡ c ∷ s
unfolding trim_left
trim_left-cons c s plain = rw plain

trim_right-cons : (c : ℕ) (s : Text) → is_space c ≡ false → trim_right (c ∷ s) ≡ c ∷ trim_right s
unfolding trim_right
trim_right-cons c s plain = rw plain

trim_right_idempotent : (s : Text) → trim_right (trim_right s) ≡ trim_right s
unfolding trim_right
trim_right_idempotent [] = refl
trim_right_idempotent (c ∷ s) = ground (arith, trim_right_idempotent s)

-- Trimming a second time changes nothing.
pub trim_space_idempotent : (s : Text) → trim_space (trim_space s) ≡ trim_space s
unfolding trim_space
trim_space_idempotent s = elim (trim_left-cases s) [
  | inl e ↦ rw e (unfold trim_left trim_right in refl)
  | inr (c, t, e, plain) ↦
      rw (e, trim_right-cons c t plain, trim_left-cons c (trim_right t) plain)
        (trim_right-cons c (trim_right t) plain ∙ ap (λ r. c ∷ r) (trim_right_idempotent t))
]

module _ ⦃u : Unicode⦄ where
  pub to_lower_idempotent : (s : Text) → to_lower (to_lower s) ≡ to_lower s
  unfolding to_lower
  to_lower_idempotent [] = refl
  to_lower_idempotent (c ∷ s) = cc (u.folded c, to_lower_idempotent s)

  trim_left-to_lower : (s : Text) → trim_left (to_lower s) ≡ to_lower (trim_left s)
  unfolding to_lower trim_left
  trim_left-to_lower [] = refl
  trim_left-to_lower (c ∷ s) = rw (u.keeps_space c) (ground (arith, trim_left-to_lower s))

  to_lower-eq-nil : (s : Text) → (to_lower s == []) ≡ (s == [])
  unfolding to_lower
  to_lower-eq-nil [] = refl
  to_lower-eq-nil (c ∷ s) = ground arith

  trim_right-to_lower : (s : Text) → trim_right (to_lower s) ≡ to_lower (trim_right s)
  unfolding to_lower trim_right
  trim_right-to_lower [] = refl
  trim_right-to_lower (c ∷ s) =
      rw (u.keeps_space c, trim_right-to_lower s, to_lower-eq-nil) (ground arith)

  pub trim_space-to_lower : (s : Text) → trim_space (to_lower s) ≡ to_lower (trim_space s)
  unfolding trim_space
  trim_space-to_lower s = rw (trim_left-to_lower, trim_right-to_lower)
