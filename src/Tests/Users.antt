-- ===== src/Tests/Users.antt =====
-- Runs of the authentication.
use mathlib.Core.Path.{subst}
use hosthalla.Base.{
  ℕ, zero, suc, ◌<◌, ◌≡◌, ◌≢◌, refl, true, List, [], ◌∷◌, ◌++◌, none, some, ok, nat_eq, text_eq,
  arith, All, length, driver, query, query_row, exec, store, exec_affecting, require, new_id,
  time_now, draw_random, pure, raise, lift, attempt, ◌>>=◌, pos, violation,
}
use hosthalla.Text.{
  Text, codes, trim_space, trim_left, trim_right, is_space, has_prefix, byte_length,
}
use hosthalla.Text.Normalize.{normalize_loop, normalize_step}
use hosthalla.Auth.Tables.{ApiToken, AuthDb}
use hosthalla.Auth.Repository
use hosthalla.Auth.Tokens
use hosthalla.Auth.Tokens.{token_with_hash, TokenDto, is_null}
use hosthalla.Auth.Service.{
  hash_token, hex, token_prefix, CreateTokenDto, TokenResult, create_api_token, generate_raw_token,
  expiry, normalize_scopes, CreateUserDto, create_user, hashed, settle_user, back_out,
  revoke_api_token,
}
use hosthalla.Auth.Service.TokenLife.{
  api_token_auth-create_api_token, revoked_token_refused, GivesBytes,
}
use hosthalla.Auth.Service.Users.{create_user-IsUndone, IsUndone}
use hosthalla.Auth.Middleware.{
  passed, token_value, extract_bearer_token, is_expired, admit, admit_current, admit_live,
  check_token, look_up, api_token_auth,
}
use hosthalla.Auth.Middleware.Laws.{IsCurrent, api_token_auth-passed, api_token_auth-passes}
use hosthalla.Tests.{ascii, auth_db, fair_random, repeated, length-repeated}

abbrev plain_hash : Text → List ℕ
plain_hash t = 1 ∷ []

abbrev token : ApiToken
token = record {
  id = codes "t";
  profile_id = codes "p";
  name = codes "ci";
  prefix = codes "abcd";
  hash = codes "01";
  scopes = [];
  last_used_at = none;
  created_at = 3;
  expires_at = some 500;
  revoked_at = none;
}

abbrev token_db : AuthDb
token_db = record auth_db { tables = record auth_db.tables { tokens = token ∷ [] } }

abbrev header : Text
header = codes "hht_abcd"

api_token_auth-passed_example :
    (has_prefix (token_value header []) token_prefix ≡ true)
    × (token_with_hash (hash_token plain_hash (token_value header [])) token_db.tables ≡ some token)
    × IsCurrent token (token_db.world.times token_db.world.reads)
unfolding api_token_auth look_up check_token admit_live admit_current admit is_expired token_value
    extract_bearer_token hash_token hex Tokens.get_api_token_by_hash Tokens.update_last_used_at
    Tokens.use_row query_row query driver exec store exec_affecting require time_now pure lift
    attempt ◌>>=◌ trim_space trim_left trim_right is_space has_prefix nat_eq text_eq
api_token_auth-passed_example = api_token_auth-passed plain_hash header [] token_db token refl

token-IsCurrent : IsCurrent token (token_db.world.times token_db.world.reads)
token-IsCurrent = record { live = refl; fresh = λ at e. ground arith }

api_token_auth-passes_example : (api_token_auth plain_hash header [] token_db).0 ≡ ok (passed token)
unfolding token_value extract_bearer_token hash_token hex trim_space trim_left trim_right is_space
    has_prefix nat_eq text_eq
api_token_auth-passes_example =
    api_token_auth-passes plain_hash header [] token_db token (λ n. refl) refl (λ e. ground arith)
      refl token-IsCurrent

revoked_token_refused_example :
    (api_token_auth plain_hash header [] (revoke_api_token token.id token_db).1).0
    ≢ ok (passed token)
unfolding revoke_api_token Tokens.revoke_api_token Tokens.revoke_row token_value
    extract_bearer_token hash_token hex driver exec store exec_affecting require time_now pure lift
    attempt ◌>>=◌ trim_space trim_left trim_right is_space has_prefix nat_eq text_eq
revoked_token_refused_example =
    revoked_token_refused plain_hash header [] token_db token token refl refl

abbrev token_request : CreateTokenDto
token_request = record {
  profile_id = codes "p";
  name = codes "ci";
  scopes = [];
  expires_in = pos 1000;
}

abbrev issued_token : TokenResult
issued_token = record {
  token = record {
    id = codes "a";
    profile_id = codes "p";
    name = codes "ci";
    prefix = codes "07070707";
    hash = codes "01";
    scopes = codes "hosts:register" ∷ [];
    last_used_at = none;
    created_at = 101;
    expires_at = some 1100;
    revoked_at = none;
  };
  plain_token = codes "hht_" ++ hex (repeated 32 7);
}

small : (n : ℕ) → All (λ b. b < 256) (repeated n 7)
small zero = tt
small (suc n) = (omega arith, small n)

un_some : {a b : List ℕ} → some a ≡ some b → a ≡ b
un_some e = cc

fair_bytes : GivesBytes fair_random
fair_bytes k size bytes e =
    subst (λ l. (length l ≡ size) × All (λ b. b < 256) l) (un_some e)
      (length-repeated size 7, small size)

api_token_auth-create_api_token_example :
    (api_token_auth plain_hash issued_token.plain_token []
      (create_api_token plain_hash token_request auth_db).1).0
    ≡ ok (passed issued_token.token)
unfolding create_api_token Tokens.create_api_token Tokens.insert_token generate_raw_token expiry
    normalize_scopes normalize_loop normalize_step hash_token hex draw_random new_id driver exec
    store require time_now pure lift attempt ◌>>=◌ trim_space trim_left trim_right is_space nat_eq
    text_eq
api_token_auth-create_api_token_example =
    api_token_auth-create_api_token plain_hash token_request [] auth_db issued_token fair_bytes refl
      (λ n. refl) (λ at e. ground arith)

abbrev taken_name : CreateUserDto
taken_name = record { username = codes " ann "; password = codes "correct horse" }

create_user-IsUndone_example :
    IsUndone auth_db.tables violation (create_user (λ t. some t) taken_name auth_db).1
unfolding create_user hashed byte_length settle_user back_out Repository.create_profile
    Repository.insert_profile Repository.create_password new_id driver exec store require time_now
    pure raise lift attempt ◌>>=◌ trim_space trim_left trim_right is_space nat_eq text_eq
create_user-IsUndone_example =
    create_user-IsUndone (λ t. some t) taken_name auth_db violation
      (record { passwords = tt; sessions = tt; tokens = tt }) refl
