-- ===== src/Web/HostsPage/Order.antt =====
-- The order of the hosts page.
use mathlib.Core.List.{Perm}
use mathlib.Core.List.Perm
use hosthalla.Base.{
  ℕ, zero, suc, ◌-◌, ℤ, pos, negsuc, ◌≡◌, refl, sym, ◌∙◌, Bool, true, false, List, [], ◌∷◌,
  if◌then◌else◌, ltb, ◌==◌, text_eq, arith, Bool-cases, inl, inr, sort_by, insert_sorted,
}
use hosthalla.Text.{Text, Unicode, codes, to_lower}
use hosthalla.Model.{Host}
use hosthalla.Web.Badges.{Float64}
use hosthalla.Web.HostsPage.{
  HostsPageQuery, PageData, difference, compare_text, compare_time, compare_float, is_zero,
  is_positive, is_negative, compare_keys, compare_names, compare_hosts, host_before, sort_hosts,
}
use hosthalla.Web.HostsPage.Keys.{text_before_asym, belongs_before, host_before-belongs_before}

module _ {A : Type 0} (before : A → A → Bool) where
  -- No entry belongs before the one that it follows.
  abbrev pub IsOrdered : List A → Type 0
  IsOrdered [] = Unit
  IsOrdered (x ∷ []) = Unit
  IsOrdered (x ∷ y ∷ rest) = (before y x ≡ false) × IsOrdered (y ∷ rest)

  module _ (asym : (x y : A) → before x y ≡ true → before y x ≡ false) where
    insert-cons :
        (y x : A) (ys : List A)
        → before x y ≡ false
        → IsOrdered (y ∷ ys)
        → IsOrdered (insert_sorted before x ys)
        → IsOrdered (y ∷ insert_sorted before x ys)
    unfolding insert_sorted
    insert-cons y x [] le h k = (le, tt)
    insert-cons y x (z ∷ zs) le h k = elim (Bool-cases (before z x)) [
      | inl less ↦ rw less (h.0, rw less at k)
      | inr more ↦ rw more (le, rw more at k)
    ]

    insert_sorted-IsOrdered :
        (x : A) (ys : List A) → IsOrdered ys → IsOrdered (insert_sorted before x ys)
    unfolding insert_sorted
    insert_sorted-IsOrdered x [] h = tt
    insert_sorted-IsOrdered x (y ∷ ys) h = elim (Bool-cases (before y x)) [
      | inl less ↦
          rw less
            (insert-cons y x ys (asym y x less) h (insert_sorted-IsOrdered x ys (tail y ys h)))
      | inr more ↦ rw more (more, h)
    ]
      where
        tail : (y : A) (ys : List A) → IsOrdered (y ∷ ys) → IsOrdered ys
        tail y [] h = tt
        tail y (z ∷ zs) h = h.1

    sort_by-IsOrdered : (xs : List A) → IsOrdered (sort_by before xs)
    unfolding sort_by
    sort_by-IsOrdered [] = tt
    sort_by-IsOrdered (x ∷ xs) =
        insert_sorted-IsOrdered x (sort_by before xs) (sort_by-IsOrdered xs)

  insert_sorted-perm : (x : A) (ys : List A) → Perm (insert_sorted before x ys) (x ∷ ys)
  unfolding insert_sorted
  insert_sorted-perm x [] = Perm.refl (x ∷ [])
  insert_sorted-perm x (y ∷ ys) = elim (Bool-cases (before y x)) [
    | inl less ↦ rw less (Perm.trans (Perm.cons y (insert_sorted-perm x ys)) (Perm.swap x y ys))
    | inr more ↦ rw more (Perm.refl (x ∷ y ∷ ys))
  ]

  sort_by-perm : (xs : List A) → Perm (sort_by before xs) xs
  unfolding sort_by
  sort_by-perm [] = Perm.refl []
  sort_by-perm (x ∷ xs) =
      Perm.trans (insert_sorted-perm x (sort_by before xs)) (Perm.cons x (sort_by-perm xs))

IsOrdered-same :
    {A : Type 0} (p q : A → A → Bool)
    → ((x y : A) → p x y ≡ q x y)
    → (xs : List A) → IsOrdered p xs
    → IsOrdered q xs
IsOrdered-same p q same [] h = tt
IsOrdered-same p q same (x ∷ []) h = tt
IsOrdered-same p q same (x ∷ y ∷ rest) (first, h) =
    (sym (same y x) ∙ first, IsOrdered-same p q same (y ∷ rest) h)

-- The sign of a comparison turns over with its arguments.
abbrev IsOpposite : ℤ → ℤ → Type 0
IsOpposite a b = (is_positive a ≡ is_negative b) × (is_negative a ≡ is_positive b)

compare_text-IsOpposite : (a b : Text) → IsOpposite (compare_text a b) (compare_text b a)
unfolding compare_text
compare_text-IsOpposite a b = ground (arith, text_before_asym a b, text_before_asym b a)

compare_time-IsOpposite : (a b : ℕ) → IsOpposite (compare_time a b) (compare_time b a)
unfolding compare_time
compare_time-IsOpposite a b = ground arith

is_positive-pos : (n : ℕ) → is_positive (pos n) ≡ ltb 0 n
is_positive-pos zero = refl
is_positive-pos (suc n) = ground arith

is_positive-difference : (a b : ℕ) → is_positive (difference a b) ≡ ltb b a
is_positive-difference a b = ground (arith, is_positive-pos (a - b))

is_negative-difference : (a b : ℕ) → is_negative (difference a b) ≡ ltb a b
is_negative-difference a b = ground arith

difference-IsOpposite : (a b : ℕ) → IsOpposite (difference a b) (difference b a)
difference-IsOpposite a b = (
  is_positive-difference a b ∙ sym (is_negative-difference b a),
  is_negative-difference a b ∙ sym (is_positive-difference b a),
)

compare_float-IsOpposite :
    ⦃f : Float64⦄ (a b : ℕ) → IsOpposite (compare_float a b) (compare_float b a)
unfolding compare_float
compare_float-IsOpposite ⦃f⦄ a b = ground (arith, f.less_asym a b, f.less_asym b a)

either-IsOpposite :
    (b : Bool) (v w x y : ℤ)
    → IsOpposite v w
    → IsOpposite x y
    → IsOpposite (if b then v else x) (if b then w else y)
either-IsOpposite true v w x y h k = h
either-IsOpposite false v w x y h k = k

-- A number that is not 0 has one of the two signs.
unless_zero : (a b : ℤ) → IsOpposite a b → is_zero a ≡ is_zero b
unless_zero (pos zero) (pos zero) h = refl
unless_zero (pos zero) (pos (suc n)) h = cc
unless_zero (pos zero) (negsuc n) h = cc
unless_zero (pos (suc m)) (pos zero) h = cc
unless_zero (pos (suc m)) (pos (suc n)) h = refl
unless_zero (pos (suc m)) (negsuc n) h = refl
unless_zero (negsuc m) (pos zero) h = cc
unless_zero (negsuc m) (pos (suc n)) h = refl
unless_zero (negsuc m) (negsuc n) h = refl

positive_not_negative : (a : ℤ) → is_positive a ≡ true → is_negative a ≡ false
positive_not_negative (pos n) h = refl
positive_not_negative (negsuc n) h = cc

negative_not_positive : (a : ℤ) → is_negative a ≡ true → is_positive a ≡ false
negative_not_positive (pos n) h = cc
negative_not_positive (negsuc n) h = refl

module _ ⦃u : Unicode⦄ ⦃f : Float64⦄ (query : HostsPageQuery) (page : PageData) (now : ℕ) where
  compare_names-IsOpposite :
      (l r : Host)
      → IsOpposite (compare_names query page now l r) (compare_names query page now r l)
  compare_names-IsOpposite l r = compare_text-IsOpposite (to_lower l.name) (to_lower r.name)

  compare_keys-IsOpposite :
      (l r : Host) → IsOpposite (compare_keys query page now l r) (compare_keys query page now r l)
  unfolding compare_keys
  compare_keys-IsOpposite l r =
      let key = λ (name : Text). query.sort_key == name in
      either-IsOpposite (key (codes "name")) _ _ _ _ (compare_names-IsOpposite l r) (
        either-IsOpposite (key (codes "status")) _ _ _ _ (difference-IsOpposite _ _) (
          either-IsOpposite (key (codes "address")) _ _ _ _ (compare_text-IsOpposite l.ip r.ip) (
            either-IsOpposite (key (codes "cpu")) _ _ _ _ (compare_float-IsOpposite _ _) (
              either-IsOpposite (key (codes "memory")) _ _ _ _ (compare_float-IsOpposite _ _) (
                either-IsOpposite (key (codes "disk")) _ _ _ _ (compare_float-IsOpposite _ _) (
                  either-IsOpposite (key (codes "updated")) _ _ _ _
                    (compare_time-IsOpposite l.updated_at r.updated_at)
                    (compare_time-IsOpposite l.created_at r.created_at)))))))

  compare_hosts-IsOpposite :
      (l r : Host)
      → IsOpposite (compare_hosts query page now l r) (compare_hosts query page now r l)
  compare_hosts-IsOpposite l r =
      let by_key = compare_keys-IsOpposite l r in
      let by_name = compare_names-IsOpposite l r in
      rw (unless_zero _ _ by_key)
        (either-IsOpposite (is_zero (compare_keys query page now r l)) _ _ _ _ by_name by_key)

  host_before_asym :
      (l r : Host) → host_before query page now l r ≡ true → host_before query page now r l ≡ false
  unfolding host_before
  host_before_asym l r h = elim (Bool-cases (query.sort_direction == codes "desc")) [
    | inl desc ↦ rw desc (
        (compare_hosts-IsOpposite r l).0
        ∙ positive_not_negative (compare_hosts query page now l r) (rw desc at h))
    | inr asc ↦ rw asc (
        (compare_hosts-IsOpposite r l).1
        ∙ negative_not_positive (compare_hosts query page now l r) (rw asc at h))
  ]

  -- For every sort key and direction, `sortHostsForHostsPage` gives the same hosts back, each as
  -- often as before, and none of them belongs before the one that it follows: by the field that the
  -- key names, or the time of creation for any other key, by the name where that makes no
  -- difference, and the other way round if the direction is "desc".
  pub sort_hosts-IsOrdered :
      (hosts : List Host)
      → Perm (sort_hosts query page now hosts) hosts
        × IsOrdered (belongs_before query page now) (sort_hosts query page now hosts)
  unfolding sort_hosts
  sort_hosts-IsOrdered hosts = (
    sort_by-perm (host_before query page now) hosts,
    IsOrdered-same (host_before query page now) (belongs_before query page now)
        (host_before-belongs_before query page now) _
        (sort_by-IsOrdered (host_before query page now) host_before_asym hosts),
  )
