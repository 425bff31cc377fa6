-- ===== src/Web/Forms/Normal.antt =====
-- The loops over form and query values against `normalizeTags`.
use mathlib.Core.List.{flat_map, append-nil}
use hosthalla.Base.{
  ◌≡◌, refl, sym, ap, ◌∙◌, Bool, ◌&&◌, List, [], ◌∷◌, ◌++◌, arith, ◌==◌, text_eq, contains,
  select_rows, Bool-cases, inl, inr, eq_of_==,
}
use hosthalla.Text.{Text, Unicode}
use hosthalla.Text.Normalize.{normalized, normalize_step, normalize_loop}
use hosthalla.Web.Forms.{
  parse_tags, parse_values, parse_host_tags, parse_host_tags_values, split_comma, query_step,
  query_parts, query_values, normalize_hosts_query_values,
}

module _ ⦃u : Unicode⦄ where
  parse_tags-loop :
      (state : List Text × List Text) (tags more : List Text)
      → normalize_loop (parse_tags state tags) more ≡ normalize_loop state (tags ++ more)
  unfolding parse_tags normalize_loop
  parse_tags-loop state [] more = refl
  parse_tags-loop state (tag ∷ tags) more = parse_tags-loop (normalize_step state tag) tags more

  parse_values-loop :
      (state : List Text × List Text) (values : List Text)
      → (parse_values state values).1 ≡ normalize_loop state (flat_map parse_host_tags values)
  unfolding parse_values flat_map
  parse_values-loop state [] = unfold normalize_loop in refl
  parse_values-loop state (value ∷ values) =
      parse_values-loop (parse_tags state (parse_host_tags value)) values
      ∙ parse_tags-loop state (parse_host_tags value) (flat_map parse_host_tags values)

  pub parse_host_tags_values_lem :
      (values : List Text)
      → parse_host_tags_values values ≡ normalize_loop ([], []) (flat_map parse_host_tags values)
  unfolding parse_host_tags_values
  parse_host_tags_values_lem values = parse_values-loop ([], []) values

  module _ (valid : Text → Bool) where
    abbrev select : List Text → List Text
    select = select_rows valid

    select-append : (xs ys : List Text) → select (xs ++ ys) ≡ select xs ++ select ys
    select-append [] ys = refl
    select-append (x ∷ xs) ys = ground (arith, select-append xs ys)

    contains-select :
        (xs : List Text) (t : Text) → contains (select xs) t ≡ (contains xs t && valid t)
    contains-select [] t = refl
    contains-select (x ∷ xs) t = elim (Bool-cases (valid x)) [
      | inl good ↦ elim (Bool-cases (t == x)) [
        | inl same ↦ let e = eq_of_== t x same in rw good (rw same (sym (ap valid e ∙ good)))
        | inr differ ↦ rw good (rw differ (contains-select xs t))
      ]
      | inr bad ↦ elim (Bool-cases (t == x)) [
        | inl same ↦
            let e = eq_of_== t x same in
            rw bad (rw same (contains-select xs t ∙ ground (arith, ap valid e)))
        | inr differ ↦ rw bad (rw differ (contains-select xs t))
      ]
    ]

    step-select :
        (seen result : List Text) (part : Text)
        → query_step valid (select seen, select result) part ≡ (
          select (normalize_step (seen, result) part).0,
          select (normalize_step (seen, result) part).1,
        )
    unfolding query_step normalize_step
    step-select seen result part =
        let n = normalized part in
        elim (Bool-cases (n == [])) [
          | inl blank ↦ rw blank refl
          | inr filled ↦ elim (Bool-cases (contains seen n)) [
            | inl old ↦ elim (Bool-cases (valid n)) [
              | inl good ↦ rw (filled, contains-select seen n, old, good) refl
              | inr bad ↦ rw (filled, contains-select seen n, old, bad) refl
            ]
            | inr fresh ↦ elim (Bool-cases (valid n)) [
              | inl good ↦
                  rw (filled, contains-select seen n, fresh, select-append result (n ∷ []), good)
                    refl
              | inr bad ↦
                  rw (filled, contains-select seen n, fresh, select-append result (n ∷ []), bad)
                    (rw append-nil refl)
            ]
          ]
        ]

    abbrev selected : List Text × List Text → List Text × List Text
    selected state = (select state.0, select state.1)

    parts-select :
        (state : List Text × List Text) (parts : List Text)
        → query_parts valid (selected state) parts ≡ selected (parse_tags state parts)
    unfolding query_parts parse_tags
    parts-select state [] = refl
    parts-select state (part ∷ parts) =
        ap (λ s. query_parts valid s parts) (step-select state.0 state.1 part)
        ∙ parts-select (normalize_step state part) parts

    values-select :
        (state : List Text × List Text) (values : List Text)
        → (query_values valid (selected state) values).1
          ≡ select (normalize_loop state (flat_map split_comma values))
    unfolding query_values flat_map
    values-select state [] = unfold normalize_loop in refl
    values-select state (value ∷ values) =
        ap (λ s. (query_values valid s values).1) (parts-select state (split_comma value))
        ∙ values-select (parse_tags state (split_comma value)) values
        ∙ ap select (parse_tags-loop state (split_comma value) (flat_map split_comma values))

    pub normalize_hosts_query_values_lem :
        (values : List Text)
        → normalize_hosts_query_values valid values
          ≡ select_rows valid (normalize_loop ([], []) (flat_map split_comma values))
    unfolding normalize_hosts_query_values
    normalize_hosts_query_values_lem values = values-select ([], []) values
