-- ===== src/Text/Normalize.antt =====
-- The loop of `normalizeTags` (internal/host/service.go) and `normalizeScopes`
-- (internal/authentication/service/service.go), which is the same text in both.
use hosthalla.Base.{
  ◌≡◌, refl, sym, ap, ◌∙◌, false, not, ◌&&◌, ◌||◌, List, [], ◌∷◌, ◌++◌, arith, ◌==◌, text_eq,
  contains, any, All, Bool-cases, if◌then◌else◌, ◌≢◌, All-append, inl, inr,
}
use mathlib.Core.List.{append-nil, append_assoc}
use hosthalla.Text.{Text, trim_space, Unicode, to_lower}
use hosthalla.Text.Trim.{trim_space_idempotent, to_lower_idempotent, trim_space-to_lower}

-- No entry occurs twice.
abbrev pub IsNodup : List Text → Type 0
IsNodup [] = Unit
IsNodup (x ∷ xs) = (contains xs x ≡ false) × IsNodup xs

contains-append :
    (xs ys : List Text) (a : Text) → contains (xs ++ ys) a ≡ (contains xs a || contains ys a)
contains-append [] ys a = refl
contains-append (x ∷ xs) ys a = ground (arith, contains-append xs ys a)

IsNodup-append :
    (xs : List Text) (x : Text) → IsNodup xs → contains xs x ≡ false → IsNodup (xs ++ x ∷ [])
IsNodup-append [] x h fresh = (refl, tt)
IsNodup-append (y ∷ ys) x (h, hs) fresh =
    (rw contains-append (ground arith), IsNodup-append ys x hs (ground arith))

IsNodup-fresh :
    (xs : List Text) (x : Text) (ys : List Text) → IsNodup (xs ++ x ∷ ys) → contains xs x ≡ false
IsNodup-fresh [] x ys h = refl
IsNodup-fresh (y ∷ xs) x ys (fresh, h) =
    ground (arith, IsNodup-fresh xs x ys h, contains-append xs (x ∷ ys) y)

module _ ⦃u : Unicode⦄ where
  unfoldable pub normalized : Text → Text
  normalized tag = to_lower (trim_space tag)

  -- One round: `seen` is the key set of the map, `result` the list under construction.
  unfoldable pub normalize_step : List Text × List Text → Text → List Text × List Text
  normalize_step (seen, result) tag =
      let normal = normalized tag in
      if normal == []
      then (seen, result)
      else if contains seen normal
      then (seen, result)
      else (normal ∷ seen, result ++ normal ∷ [])

  unfoldable pub normalize_loop : List Text × List Text → List Text → List Text
  unfolding normalize_step
  normalize_loop state [] = state.1
  normalize_loop state (tag ∷ tags) = normalize_loop (normalize_step state tag) tags

  -- Trimmed, in lower case and not empty.
  pub record IsNormal (t : Text) : Type 0 where
    pub filled : t ≢ []
    pub trimmed : trim_space t ≡ t
    pub lowered : to_lower t ≡ t

  normalized-IsNormal : (t : Text) → normalized t ≢ [] → IsNormal (normalized t)
  unfolding normalized
  normalized-IsNormal t h = record {
    filled = h;
    trimmed = trim_space-to_lower (trim_space t) ∙ ap to_lower (trim_space_idempotent t);
    lowered = to_lower_idempotent (trim_space t);
  }

  normalized_of_IsNormal : (t : Text) → IsNormal t → normalized t ≡ t
  unfolding normalized
  normalized_of_IsNormal t h = rw h.trimmed h.lowered

  -- The invariant of the loop.
  record Inv (state : List Text × List Text) : Type 0 where
    same : (t : Text) → contains state.0 t ≡ contains state.1 t
    normal : All IsNormal state.1
    nodup : IsNodup state.1

  extend-Inv :
      (seen result : List Text) (n : Text)
      → Inv (seen, result)
      → IsNormal n
      → contains seen n ≡ false
      → Inv (n ∷ seen, result ++ n ∷ [])
  extend-Inv seen result n h normal fresh = record {
    same = λ t. rw (contains-append result (n ∷ []) t, ← h.same t) (ground arith);
    normal = All-append IsNormal result (n ∷ []) h.normal (normal, tt);
    nodup = IsNodup-append result n h.nodup (rw (← h.same n) fresh);
  }

  step-Inv :
      (state : List Text × List Text) (tag : Text) → Inv state → Inv (normalize_step state tag)
  unfolding normalize_step
  step-Inv (seen, result) tag h = elim (Bool-cases (normalized tag == [])) [
    | inl blank ↦ rw blank h
    | inr filled ↦ elim (Bool-cases (contains seen (normalized tag))) [
      | inl old ↦ rw (filled, old) h
      | inr fresh ↦
          rw (filled, fresh)
            (extend-Inv seen result _ h (normalized-IsNormal tag (ground arith)) fresh)
    ]
  ]

  step-contains :
      (state : List Text × List Text) (tag t : Text)
      → Inv state
      → contains (normalize_step state tag).1 t
        ≡ (contains state.1 t || not (t == []) && normalized tag == t)
  unfolding normalize_step
  step-contains (seen, result) tag t h =
      ground (arith, h.same (normalized tag), contains-append result (normalized tag ∷ []) t)

  loop-Inv :
      (state : List Text × List Text) (tags : List Text)
      → Inv state
      → All IsNormal (normalize_loop state tags) × IsNodup (normalize_loop state tags)
  unfolding normalize_loop
  loop-Inv state [] h = (h.normal, h.nodup)
  loop-Inv state (tag ∷ tags) h = loop-Inv (normalize_step state tag) tags (step-Inv state tag h)

  loop-contains :
      (state : List Text × List Text) (tags : List Text) (t : Text)
      → Inv state
      → contains (normalize_loop state tags) t
        ≡ (contains state.1 t || not (t == []) && any (λ tag. normalized tag == t) tags)
  unfolding normalize_loop
  loop-contains state [] t h = ground arith
  loop-contains state (tag ∷ tags) t h =
      loop-contains (normalize_step state tag) tags t (step-Inv state tag h)
      ∙ rw (step-contains state tag t h) (ground arith)

  step_of_normal :
      (seen result : List Text) (tag : Text)
      → IsNormal tag
      → contains seen tag ≡ false
      → normalize_step (seen, result) tag ≡ (tag ∷ seen, result ++ tag ∷ [])
  unfolding normalize_step
  step_of_normal seen result tag n fresh =
      rw (normalized_of_IsNormal tag n) (ground (arith, n.filled))

  loop_of_normal :
      (seen result tags : List Text)
      → ((t : Text) → contains seen t ≡ contains result t)
      → All IsNormal tags
      → IsNodup (result ++ tags)
      → normalize_loop (seen, result) tags ≡ result ++ tags
  unfolding normalize_loop
  loop_of_normal seen result [] same h d = sym (append-nil result)
  loop_of_normal seen result (tag ∷ tags) same (n, h) d =
      rw (step_of_normal seen result tag n (same tag ∙ IsNodup-fresh result tag tags d)) (
        loop_of_normal (tag ∷ seen) (result ++ tag ∷ []) tags
          (λ t. rw (contains-append result (tag ∷ []) t, ← same t) (ground arith)) h
          (rw append_assoc d)
        ∙ append_assoc result (tag ∷ []) tags)

  initial-Inv : Inv ([], [])
  initial-Inv = record { same = λ t. refl; normal = tt; nodup = tt }

  -- Every entry of the result is normal, and none occurs twice.
  pub normalize_loop-IsNormal :
      (tags : List Text)
      → All IsNormal (normalize_loop ([], []) tags) × IsNodup (normalize_loop ([], []) tags)
  normalize_loop-IsNormal tags = loop-Inv ([], []) tags initial-Inv

  -- A text is in the result exactly when it is not empty and is the normal form of an entry.
  pub contains-normalize_loop :
      (tags : List Text) (t : Text)
      → contains (normalize_loop ([], []) tags) t
        ≡ (not (t == []) && any (λ tag. normalized tag == t) tags)
  contains-normalize_loop tags t = loop-contains ([], []) tags t initial-Inv

  -- A second pass changes nothing.
  pub normalize_loop_idempotent :
      (tags : List Text)
      → let once = normalize_loop ([], []) tags in normalize_loop ([], []) once ≡ once
  normalize_loop_idempotent tags =
      let (normal, nodup) = normalize_loop-IsNormal tags in
      loop_of_normal [] [] (normalize_loop ([], []) tags) (λ t. refl) normal nodup
