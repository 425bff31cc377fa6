-- ===== src/Web/Administration.antt =====
-- internal/web/handlers/administration.go: the forms on users and API tokens. A form that fails
-- shows the page again with its error; what that page reads is a parameter, `page`.
pub mod Expiry
use hosthalla.Base.{
  ℕ, suc, zero, ◌+◌, ◌*◌, ◌-◌, ◌%◌, ◌^◌, ℤ, pos, negsuc, Bool, String, List, [], ◌∷◌, Option, none,
  some, if◌then◌else◌, ◌==◌, text_eq, ltb, Error, failed, Result, ok, err, pure, lift, attempt,
  ◌>>=◌, ◌>>◌,
}
use hosthalla.Text.{Text, Unicode, codes, trim_space}
use hosthalla.Text.Decimal.{atoi}
use hosthalla.Auth.Tables.{Profile, Session, ApiToken, AuthRun}
use hosthalla.Auth.Service.{
  create_user, update_user, set_password, delete_user, get_profile_by_id, create_api_token,
  get_api_token_by_id, revoke_api_token, CreateTokenDto, TokenResult,
}
use hosthalla.Web.Request.{
  Request, form_value, query_value, Response, refused, redirected, rendered, or_refuse, parse_form,
}

-- `AdministrationNotice`
pub data Notice : Type 0 where
  nothing : Notice
  success : String → Notice
  danger : Error → Notice

-- What a page shows besides its data: the status, the notice and the new token.
pub record Shown : Type 0 where
  pub status : ℕ
  pub notice : Notice
  pub created_token : Text

unfoldable pub administration_notice : Request → Notice
administration_notice r =
    if query_value r (codes "created") == codes "1"
    then success "User created."
    else if query_value r (codes "updated") == codes "1"
    then success "User updated."
    else if query_value r (codes "password") == codes "1"
    then success "Password updated."
    else if query_value r (codes "deleted") == codes "1"
    then success "User deleted."
    else if query_value r (codes "revoked") == codes "1"
    then success "API token revoked."
    else nothing

abbrev pub hour : ℕ
hour = 3600 * 1000000000

-- `int64` arithmetic: the signed value of 64 bits.
abbrev pub signed64 : ℕ → ℤ
signed64 n =
    let bits = n % 2 ^ 64 in if ltb bits (2 ^ 63) then pos bits else negsuc (2 ^ 64 - bits - 1)

-- `time.Duration(days) * 24 * time.Hour`, which wraps.
abbrev expiry_of : Option ℤ → Result ℤ
expiry_of none = err (failed "invalid syntax")
expiry_of (some (negsuc n)) = err (failed "expiresInDays must be greater or equal to 0")
expiry_of (some (pos days)) = ok (signed64 (days * 24 * hour))

unfoldable pub parse_token_expires_in_days : Text → Result ℤ
parse_token_expires_in_days raw =
    let value = trim_space raw in if value == [] then ok (pos 0) else expiry_of (atoi value)

module _ (page : AuthRun (Result (Unit {0}))) where
  -- What `administrationPageProps` comes to, and the page.
  abbrev show : Shown → Result (Unit {0}) → Response Shown
  show shown (ok _) = rendered shown
  show shown (err e) = refused 500 e

  unfoldable pub render : Shown → AuthRun (Response Shown)
  render shown = do loaded ← page; pure (show shown loaded)

  -- `renderAdministrationFormError`
  unfoldable pub render_form_error : Error → AuthRun (Response Shown)
  render_form_error e = render (record { status = 400; notice = danger e; created_token = [] })

  abbrev form_step :
      {A : Type 0} → (A → AuthRun (Response Shown)) → Result A → AuthRun (Response Shown)
  form_step next (ok a) = next a
  form_step next (err e) = render_form_error e

  -- `if err != nil { h.renderAdministrationFormError(...); return }` after a call.
  unfoldable pub or_form_error :
      {A : Type 0} → AuthRun A → (A → AuthRun (Response Shown)) → AuthRun (Response Shown)
  or_form_error call next = do result ← attempt call; form_step next result

  -- `Administration`
  unfoldable pub administration : Request → AuthRun (Response Shown)
  administration r =
      render (record { status = 200; notice = administration_notice r; created_token = [] })

  -- `CreateUser`
  unfoldable pub create_user_request : (Text → Option Text) → Request → AuthRun (Response Shown)
  create_user_request hash_password r = or_form_error (lift (parse_form r)) λ parsed.
      or_form_error
        (create_user hash_password (record {
          username = form_value r (codes "username");
          password = form_value r (codes "password");
        }))
        λ made. pure (redirected (codes "/administration/users?created=1"))

  -- `UpdateUser`
  unfoldable pub update_user_request : Request → AuthRun (Response Shown)
  update_user_request r = or_form_error (lift (parse_form r)) λ parsed.
      or_form_error (update_user (r.path_value (codes "id")) (form_value r (codes "username")))
        λ updated. pure (redirected (codes "/administration/users?updated=1"))

  -- `SetUserPassword`
  unfoldable pub set_user_password_request :
      (Text → Option Text) → Request → AuthRun (Response Shown)
  set_user_password_request hash_password r = or_form_error (lift (parse_form r)) λ parsed.
      or_form_error
        (set_password hash_password (r.path_value (codes "id")) (form_value r (codes "password")))
        λ stored. pure (redirected (codes "/administration/users?password=1"))

  -- `DeleteUser`; `session` is what `GetSessionFromContext` finds.
  unfoldable pub delete_user_request : Result Session → Request → AuthRun (Response Shown)
  delete_user_request session r = or_refuse 500 (lift session) λ current.
      let user_id = r.path_value (codes "id") in
      if user_id == current.profile_id
      then render_form_error (failed "you cannot delete your own user")
      else or_form_error (delete_user user_id)
          λ done. pure (redirected (codes "/administration/users?deleted=1"))

  -- `CreateAPIToken`
  unfoldable pub create_api_token_request :
      ⦃u : Unicode⦄ → (Text → List ℕ) → Result Session → Request → AuthRun (Response Shown)
  create_api_token_request sha256 session r = or_refuse 500 (lift session) λ current.
      or_refuse 500 (get_profile_by_id current.profile_id) λ profile.
        or_form_error (lift (parse_form r)) λ parsed.
          or_form_error (lift (parse_token_expires_in_days (form_value r (codes "expiresInDays"))))
            λ expires_in.
              or_form_error
                (create_api_token sha256 (record {
                  profile_id = profile.id;
                  name = form_value r (codes "name");
                  scopes = r.form (codes "scope");
                  expires_in = expires_in;
                }))
                λ created. render (record {
                  status = 200;
                  notice = success "API token created.";
                  created_token = created.plain_token;
                })

-- `RevokeAPIToken`
unfoldable pub revoke_api_token_request : Request → AuthRun (Response Unit)
revoke_api_token_request r =
    or_refuse 404 (get_api_token_by_id (r.path_value (codes "id"))) λ token.
      or_refuse 400 (revoke_api_token token.id)
        λ done. pure (redirected (codes "/administration/tokens?revoked=1"))
