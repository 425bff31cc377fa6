-- ===== src/Auth/Tokens.antt =====
-- `APITokenRepositorySQLiteImpl` of internal/authentication/storage/sqlite/repositories.go.
use hosthalla.Base.{
  ℕ, Bool, true, false, not, ◌&&◌, ◌||◌, List, [], ◌∷◌, ◌++◌, Option, none, some, any, find_row,
  select_rows, update_rows, if◌then◌else◌, ◌==◌, text_eq, ltb, pure, ◌>>=◌, ◌>>◌, query, query_row,
  exec, exec_affecting, new_id, time_now, sort_by,
}
use hosthalla.Text.{Text}
use hosthalla.Auth.Tables.{ApiToken, AuthTables, AuthRun, has_profile}

pub record TokenDto : Type 0 where
  pub profile_id : Text
  pub name : Text
  pub prefix : Text
  pub hash : Text
  pub scopes : List Text
  pub expires_at : Option ℕ

-- `insert into api_token`: the identifier and the hash are unique, and the profile exists.
unfoldable pub insert_token : ApiToken → AuthTables → Option AuthTables
insert_token k t =
    if any (λ (q : ApiToken). q.id == k.id || q.hash == k.hash) t.tokens
      || not (has_profile k.profile_id t)
    then none
    else some (record t { tokens = t.tokens ++ k ∷ [] })

abbrev pub token_of : TokenDto → Text → ℕ → ApiToken
token_of dto id now = record {
  id = id;
  profile_id = dto.profile_id;
  name = dto.name;
  prefix = dto.prefix;
  hash = dto.hash;
  scopes = dto.scopes;
  last_used_at = none;
  created_at = now;
  expires_at = dto.expires_at;
  revoked_at = none;
}

unfoldable pub create_api_token : TokenDto → AuthRun ApiToken
create_api_token dto = do
  id ← new_id
  now ← time_now
  exec (insert_token (token_of dto id now))
  pure (token_of dto id now)

abbrev pub token_with_id : Text → AuthTables → Option ApiToken
token_with_id id t = find_row (λ (k : ApiToken). k.id == id) t.tokens

abbrev pub token_with_hash : Text → AuthTables → Option ApiToken
token_with_hash hash t = find_row (λ (k : ApiToken). k.hash == hash) t.tokens

unfoldable pub get_api_token_by_id : Text → AuthRun ApiToken
get_api_token_by_id id = query_row (token_with_id id)

unfoldable pub get_api_token_by_hash : Text → AuthRun ApiToken
get_api_token_by_hash hash = query_row (token_with_hash hash)

-- `order by created_at desc`
abbrev pub newer_token : ApiToken → ApiToken → Bool
newer_token a b = ltb b.created_at a.created_at

unfoldable pub list_api_tokens : AuthRun (List ApiToken)
list_api_tokens = query (λ t. sort_by newer_token t.tokens)

unfoldable pub list_api_tokens_by_profile_id : Text → AuthRun (List ApiToken)
list_api_tokens_by_profile_id profile_id =
    query (λ t.
      sort_by newer_token (select_rows (λ (k : ApiToken). k.profile_id == profile_id) t.tokens))

abbrev pub is_null : Option ℕ → Bool
is_null none = true
is_null (some _) = false

-- The row is there and not revoked yet.
abbrev pub is_live : Text → ApiToken → Bool
is_live id k = k.id == id && is_null k.revoked_at

unfoldable pub revoke_row : Text → ℕ → AuthTables → Option AuthTables
revoke_row id now t = some (record t {
  tokens = update_rows (is_live id) (λ k. record k { revoked_at = some now }) t.tokens;
})

unfoldable pub revoke_api_token : Text → AuthRun Unit
revoke_api_token id = do
  now ← time_now
  exec_affecting "api token not found or already revoked" (λ t. any (is_live id) t.tokens)
      (revoke_row id now)

abbrev pub has_token : Text → AuthTables → Bool
has_token id t = any (λ (k : ApiToken). k.id == id) t.tokens

unfoldable pub use_row : Text → ℕ → AuthTables → Option AuthTables
use_row id now t = some (record t {
  tokens =
      update_rows (λ (k : ApiToken). k.id == id) (λ k. record k { last_used_at = some now })
        t.tokens;
})

unfoldable pub update_last_used_at : Text → ℕ → AuthRun Unit
update_last_used_at id now = exec_affecting "api token not found" (has_token id) (use_row id now)
