-- ===== src/Web/Forms.antt =====
-- `parseHostTags`, `parseHostTagsValues` and `normalizeHostsQueryValues` of
-- internal/web/handlers/hosts.go.
pub mod Normal
use hosthalla.Base.{
  ℕ, Bool, not, ◌||◌, List, [], ◌∷◌, ◌++◌, if◌then◌else◌, ◌==◌, nat_eq, text_eq, contains,
  select_rows,
}
use hosthalla.Text.{Text, Unicode}
use hosthalla.Text.Normalize.{normalized, normalize_step}

abbrev add_front : ℕ → List Text → List Text
add_front c [] = (c ∷ []) ∷ []
add_front c (part ∷ parts) = (c ∷ part) ∷ parts

-- The pieces between the separators, of which there is always one.
unfoldable pub split_where : (ℕ → Bool) → Text → List Text
split_where p [] = [] ∷ []
split_where p (c ∷ s) = let rest = split_where p s in if p c then [] ∷ rest else add_front c rest

-- `strings.Split(s, ",")`
abbrev pub split_comma : Text → List Text
split_comma = split_where (λ c. c == b',')

-- `strings.FieldsFunc`
unfoldable pub fields_func : (ℕ → Bool) → Text → List Text
fields_func p s = select_rows (λ part. not (part == [])) (split_where p s)

unfoldable pub parse_host_tags : Text → List Text
parse_host_tags = fields_func (λ c. c == b',' || c == 10)

module _ ⦃u : Unicode⦄ where
  -- The inner loop of `parseHostTagsValues`: the body is the one of `normalizeTags`.
  unfoldable pub parse_tags : List Text × List Text → List Text → List Text × List Text
  parse_tags state [] = state
  parse_tags state (tag ∷ tags) = parse_tags (normalize_step state tag) tags

  unfoldable pub parse_values : List Text × List Text → List Text → List Text × List Text
  parse_values state [] = state
  parse_values state (value ∷ values) =
      parse_values (parse_tags state (parse_host_tags value)) values

  unfoldable pub parse_host_tags_values : List Text → List Text
  parse_host_tags_values values = (parse_values ([], []) values).1

  module _ (valid : Text → Bool) where
    unfoldable pub query_step : List Text × List Text → Text → List Text × List Text
    query_step (seen, result) part =
        let normal = normalized part in
        if normal == [] || contains seen normal || not (valid normal)
        then (seen, result)
        else (normal ∷ seen, result ++ normal ∷ [])

    unfoldable pub query_parts : List Text × List Text → List Text → List Text × List Text
    query_parts state [] = state
    query_parts state (part ∷ parts) = query_parts (query_step state part) parts

    unfoldable pub query_values : List Text × List Text → List Text → List Text × List Text
    query_values state [] = state
    query_values state (value ∷ values) =
        query_values (query_parts state (split_comma value)) values

    unfoldable pub normalize_hosts_query_values : List Text → List Text
    normalize_hosts_query_values values = (query_values ([], []) values).1
