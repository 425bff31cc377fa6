-- ===== src/Web/Sessions.antt =====
-- internal/web/handlers/auth.go and internal/web/middlewares/auth.go: logging in and out, and the
-- check of the session's cookie.
pub mod Login
use hosthalla.Base.{
  ℕ, Bool, true, false, not, ◌||◌, List, [], ◌∷◌, Option, none, some, if◌then◌else◌, ◌==◌, text_eq,
  nat_eq, Error, failed, Result, ok, err, pure, attempt, ◌>>=◌, ◌>>◌, leb, ◌+◌, ◌&&◌,
}
use hosthalla.Text.{Text, codes, trim_space}
use hosthalla.Auth.Tables.{Profile, Session, AuthRun}
use hosthalla.Auth.Service.{
  validate_password, get_profile_by_username, create_session, delete_session,
}
use hosthalla.Auth.Repository.{get_session_by_id}
use hosthalla.Web.Request.{Request, form_value, Response, refused, redirected, rendered, or_refuse}
use hosthalla.Web.Forms.{split_comma}
use hosthalla.Web.Request.{first_value}

-- The fold of a letter under which `strings.EqualFold` compares with "https", which has one letter
-- with a fold beyond ASCII: U+017F folds to s.
abbrev fold : ℕ → ℕ
fold c = if leb b'A' c && leb c b'Z' then c + 32 else if c == 0x17f then b's' else c

unfoldable pub folds_to : Text → Text → Bool
folds_to [] [] = true
folds_to [] (b ∷ t) = false
folds_to (a ∷ s) [] = false
folds_to (a ∷ s) (b ∷ t) = let rest = folds_to s t in if fold a == b then rest else false

-- `isHTTPSRequest`
unfoldable pub is_https_request : Request → Bool
is_https_request r =
    let forwarded = trim_space (r.header (codes "X-Forwarded-Proto")) in
    if r.is_tls
    then true
    else if forwarded == []
    then false
    else folds_to (first_value (split_comma forwarded)) (codes "https")

-- The cookie `session_id` that an answer sets; `is_expired` is `MaxAge: -1`.
pub record Cookie : Type 0 where
  pub value : Text
  pub is_secure : Bool
  pub is_expired : Bool

abbrev invalid_credentials : Error
invalid_credentials = failed "Invalid username or password"

module _ (compare_password : Text → Text → Bool) where
  abbrev pub login_response : Request → Session → Response Cookie
  login_response r session =
      rendered (record { value = session.id; is_secure = is_https_request r; is_expired = false })

  abbrev pub after_session : Request → Result Session → Response Cookie
  after_session r (ok session) = login_response r session
  after_session r (err e) = refused 500 (failed "Failed to login")

  abbrev pub after_profile : Request → Result Profile → AuthRun (Response Cookie)
  after_profile r (err e) = pure (refused 401 invalid_credentials)
  after_profile r (ok profile) = do
    session ← attempt (create_session profile.id)
    pure (after_session r session)

  abbrev pub after_password : Request → Result Bool → AuthRun (Response Cookie)
  after_password r (err e) = pure (refused 401 invalid_credentials)
  after_password r (ok false) = pure (refused 401 invalid_credentials)
  after_password r (ok true) = do
    profile ← attempt (get_profile_by_username (form_value r (codes "username")))
    after_profile r profile

  -- `Login`: the cookie, with which it redirects to "/", or an error.
  unfoldable pub login : Request → AuthRun (Response Cookie)
  login r = do
    valid ← attempt (
        validate_password compare_password (form_value r (codes "username"))
          (form_value r (codes "password")))
    after_password r valid

-- `Logout`: the session is deleted where the cookie has one, and the cookie is cleared in any case.
unfoldable pub clear_session : Option Text → AuthRun Unit
clear_session none = pure tt
clear_session (some value) =
    if trim_space value == [] then pure tt else do deleted ← attempt (delete_session value); pure tt

unfoldable pub logout : Request → AuthRun Cookie
logout r = do
  clear_session (r.cookie (codes "session_id"))
  pure (record { value = []; is_secure = is_https_request r; is_expired = true })

-- What `AuthMiddleware` does with a request: it redirects to "/auth", or hands it on.
pub data Gate : Type 0 where
  to_auth : Gate
  passed : Session → Gate

abbrev pub gate : Result Session → Gate
gate (ok session) = passed session
gate (err e) = to_auth

unfoldable pub auth_middleware : Option Text → AuthRun Gate
auth_middleware none = pure to_auth
auth_middleware (some value) = do session ← attempt (get_session_by_id value); pure (gate session)

-- `GetSessionFromContext`
unfoldable pub get_session_from_context : Option Session → Result Session
get_session_from_context none = err (failed "session not found")
get_session_from_context (some session) = ok session
