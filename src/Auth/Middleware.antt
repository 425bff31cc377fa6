-- ===== src/Auth/Middleware.antt =====
-- internal/api/middlewares/api_token.go. SHA-256 is a parameter, as in the service. The instant
-- `ExpiresAt.Before(time.Now())` compares against is read only where there is an expiry.
pub mod Laws
use hosthalla.Base.{
  ℕ, Bool, true, false, not, List, [], Option, none, some, drop, length, if◌then◌else◌, ◌==◌,
  text_eq, ltb, String, Result, ok, err, Exec, pure, attempt, ◌>>=◌, ◌>>◌, time_now,
}
use hosthalla.Text.{Text, trim_space, has_prefix, codes}
use hosthalla.Auth.Tables.{ApiToken, AuthRun}
use hosthalla.Auth.Tokens.{get_api_token_by_hash, update_last_used_at, is_null}
use hosthalla.Auth.Service.{hash_token, token_prefix}

-- What the middleware does with a request: it answers, or hands the token on to the handler.
pub data Verdict : Type 0 where
  answered : ℕ → String → Verdict
  passed : ApiToken → Verdict

abbrev pub bearer_prefix : Text
bearer_prefix = codes "Bearer "

-- `extractBearerToken`
unfoldable pub extract_bearer_token : Text → Text
extract_bearer_token header =
    let value = trim_space header in
    if has_prefix value bearer_prefix then trim_space (drop (length bearer_prefix) value) else []

-- The token of the two headers `X-API-Token` and `Authorization`.
unfoldable pub token_value : Text → Text → Text
token_value own authorization =
    if trim_space own == [] then extract_bearer_token authorization else trim_space own

-- `apiToken.ExpiresAt != nil && apiToken.ExpiresAt.Before(time.Now())`
unfoldable pub is_expired : Option ℕ → AuthRun Bool
is_expired none = pure false
is_expired (some at) = do now ← time_now; pure (ltb at now)

-- The last step: the row is marked as used.
unfoldable pub admit : ApiToken → Result (Unit {0}) → AuthRun Verdict
admit k (ok _) = pure (passed k)
admit k (err _) = pure (answered 500 "failed to update api token activity")

unfoldable pub admit_current : ApiToken → Bool → AuthRun Verdict
admit_current k true = pure (answered 401 "api token is expired")
admit_current k false = do
  now ← time_now
  marked ← attempt (update_last_used_at k.id now)
  admit k marked

unfoldable pub admit_live : ApiToken → Option ℕ → AuthRun Verdict
admit_live k (some _) = pure (answered 401 "api token is revoked")
admit_live k none = do expired ← is_expired k.expires_at; admit_current k expired

unfoldable pub check_token : Result ApiToken → AuthRun Verdict
check_token (err _) = pure (answered 401 "invalid api token")
check_token (ok k) = admit_live k k.revoked_at

unfoldable pub look_up : Text → AuthRun Verdict
look_up hash = do found ← attempt (get_api_token_by_hash hash); check_token found

unfoldable pub api_token_auth : (Text → List ℕ) → Text → Text → AuthRun Verdict
api_token_auth sha256 own authorization =
    let value = token_value own authorization in
    if value == []
    then pure (answered 401 "api token is required")
    else if not (has_prefix value token_prefix)
    then pure (answered 401 "invalid api token")
    else if drop (length token_prefix) value == []
    then pure (answered 401 "invalid api token")
    else look_up (hash_token sha256 value)
