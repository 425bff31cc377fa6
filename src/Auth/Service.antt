-- ===== src/Auth/Service.antt =====
-- internal/authentication/service/service.go. bcrypt and SHA-256 are parameters; `hash_password`
-- is `GenerateFromPassword` at the default cost, `none` where it fails.
pub mod Users
pub mod TokenLife
use hosthalla.Base.{
  ℕ, zero, suc, ◌+◌, ℤ, pos, negsuc, Bool, List, [], ◌∷◌, ◌++◌, map, Option, none, some, take,
  if◌then◌else◌, ◌==◌, text_eq, ltb, Error, failed, wrap, joined, Result, ok, err, pure, raise,
  lift, attempt, ◌>>=◌, ◌>>◌, require, draw_random, time_now, value_or, not, ◌/◌, ◌%◌,
}
use hosthalla.Text.{Text, Unicode, trim_space, byte_length, codes}
use hosthalla.Text.Normalize.{normalize_loop}
use hosthalla.Auth.Tables.{Profile, PasswordAuthentication, Session, ApiToken, AuthRun}
use hosthalla.Auth.Repository
use hosthalla.Auth.Tokens
use hosthalla.Auth.Tokens.{TokenDto}

pub record CreateUserDto : Type 0 where
  pub username : Text
  pub password : Text

abbrev pub invalid_username : Error
invalid_username = failed "invalid username"

abbrev pub invalid_password : Error
invalid_password = failed "invalid password"

abbrev pub invalid_profile : Error
invalid_profile = failed "invalid profile"

abbrev pub invalid_token : Error
invalid_token = failed "invalid token"

abbrev pub min_password_length : ℕ
min_password_length = 8

abbrev pub api_token_prefix_length : ℕ
api_token_prefix_length = 8

abbrev pub api_token_bytes : ℕ
api_token_bytes = 32

abbrev pub default_scope : Text
default_scope = codes "hosts:register"

-- `hex.EncodeToString`
abbrev pub hex_digit : ℕ → ℕ
hex_digit n = if ltb n 10 then 48 + n else 87 + n

unfoldable pub hex : List ℕ → Text
hex [] = []
hex (b ∷ bytes) = hex_digit (b / 16) ∷ hex_digit (b % 16) ∷ hex bytes

-- `normalizeScopes`
unfoldable pub normalize_scopes : ⦃u : Unicode⦄ → List Text → List Text
normalize_scopes scopes = normalize_loop ([], []) scopes

abbrev pub or_default_scope : List Text → List Text
or_default_scope [] = default_scope ∷ []
or_default_scope (s ∷ scopes) = s ∷ scopes

-- The error of `CreateUser` after the second insert failed, by the outcome of the taking back.
unfoldable pub back_out : Error → Result (Unit {0}) → AuthRun Profile
back_out e (ok _) = raise e
back_out e (err e') = raise (joined e e')

-- What `CreateUser` does with the outcome of the second insert: a failure takes the profile back.
unfoldable pub settle_user : Profile → Result PasswordAuthentication → AuthRun Profile
settle_user created (ok _) = pure created
settle_user created (err e) = do
  rolled ← attempt (Repository.delete_profile created.id)
  back_out e rolled

module _ (hash_password : Text → Option Text) where
  unfoldable pub hashed : Text → Result Text
  hashed password =
      if ltb (byte_length password) min_password_length
      then err invalid_password
      else value_or (failed "bcrypt") (hash_password password)

  unfoldable pub create_user : CreateUserDto → AuthRun Profile
  create_user dto = do
    require (not (trim_space dto.username == [])) invalid_username
    hash ← lift (hashed dto.password)
    created ← Repository.create_profile (trim_space dto.username)
    stored ← attempt (Repository.create_password created.id hash)
    settle_user created stored

  unfoldable pub set_password : Text → Text → AuthRun PasswordAuthentication
  set_password profile_id password = do
    hash ← lift (hashed password)
    Repository.create_password profile_id hash

unfoldable pub get_profile_by_id : Text → AuthRun Profile
get_profile_by_id = Repository.get_profile_by_id

unfoldable pub list_users : AuthRun (List Profile)
list_users = Repository.list_profiles

unfoldable pub get_profile_by_username : Text → AuthRun Profile
get_profile_by_username = Repository.get_profile_by_username

unfoldable pub update_user : Text → Text → AuthRun Profile
update_user id username = do
  require (not (trim_space username == [])) invalid_username
  current ← Repository.get_profile_by_id id
  Repository.update_profile (record current { username = trim_space username })

unfoldable pub delete_user : Text → AuthRun Unit
delete_user = Repository.delete_profile

-- `compare_password` is `bcrypt.CompareHashAndPassword` with no error.
unfoldable pub validate_password : (Text → Text → Bool) → Text → Text → AuthRun Bool
validate_password compare_password username password = do
  held ← Repository.get_password_by_username username
  pure (compare_password held.password_hash password)

unfoldable pub create_session : Text → AuthRun Session
create_session profile_id = do
  require (not (trim_space profile_id == [])) invalid_profile
  Repository.create_session (trim_space profile_id)

unfoldable pub get_session_by_id : Text → AuthRun Session
get_session_by_id = Repository.get_session_by_id

unfoldable pub get_session_by_profile_id : Text → AuthRun Session
get_session_by_profile_id = Repository.get_session_by_profile_id

unfoldable pub delete_session : Text → AuthRun Unit
delete_session id = Repository.delete_session (trim_space id)

pub record CreateTokenDto : Type 0 where
  pub profile_id : Text
  pub name : Text
  pub scopes : List Text
  pub expires_in : ℤ

pub record TokenResult : Type 0 where
  pub token : ApiToken
  pub plain_token : Text

-- `generateRawToken`
unfoldable pub generate_raw_token : AuthRun Text
generate_raw_token = do
  bytes ← draw_random
  drawn ← lift (value_or (failed "rand") (bytes api_token_bytes))
  pure (hex drawn)

-- `ExpiresAt`: none, or the sum of the clock and a duration above 0.
unfoldable pub expiry : ℤ → AuthRun (Option ℕ)
expiry (pos zero) = pure none
expiry (pos (suc n)) = do now ← time_now; pure (some (now + suc n))
expiry (negsuc n) = pure none

abbrev pub token_prefix : Text
token_prefix = codes "hht_"

module _ (sha256 : Text → List ℕ) where
  unfoldable pub hash_token : Text → Text
  hash_token value = hex (sha256 value)

module _ ⦃u : Unicode⦄ (sha256 : Text → List ℕ) where
  abbrev pub token_dto : CreateTokenDto → Text → Option ℕ → TokenDto
  token_dto dto raw expires_at = record {
    profile_id = trim_space dto.profile_id;
    name = trim_space dto.name;
    prefix = take api_token_prefix_length raw;
    hash = hash_token sha256 (token_prefix ++ raw);
    scopes = or_default_scope (normalize_scopes dto.scopes);
    expires_at = expires_at;
  }

  unfoldable pub create_api_token : CreateTokenDto → AuthRun TokenResult
  create_api_token dto = do
    require (not (trim_space dto.profile_id == [])) invalid_profile
    require (not (trim_space dto.name == [])) (wrap "name is required" invalid_token)
    raw ← generate_raw_token
    expires_at ← expiry dto.expires_in
    created ← Tokens.create_api_token (token_dto dto raw expires_at)
    pure (record { token = created; plain_token = token_prefix ++ raw })

unfoldable pub get_api_token_by_id : Text → AuthRun ApiToken
get_api_token_by_id = Tokens.get_api_token_by_id

unfoldable pub list_api_tokens : AuthRun (List ApiToken)
list_api_tokens = Tokens.list_api_tokens

unfoldable pub list_api_tokens_by_profile_id : Text → AuthRun (List ApiToken)
list_api_tokens_by_profile_id = Tokens.list_api_tokens_by_profile_id

unfoldable pub revoke_api_token : Text → AuthRun Unit
revoke_api_token = Tokens.revoke_api_token
