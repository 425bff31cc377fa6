-- ===== src/Auth/Middleware/Laws.antt =====
-- Who passes the middleware.
use hosthalla.Base.{
  ℕ, ◌≡◌, ◌≢◌, refl, sym, ap, ◌∙◌, Bool, true, false, List, [], ◌∷◌, Option, none, some, any,
  find_row, drop, length, ◌==◌, text_eq, nat_eq, ltb, Result, ok, err, arith, pure, attempt, ◌>>=◌,
  query_row, query, driver, exec, exec_affecting, require, store, time_now, ◌+◌,
}
use hosthalla.Base.Inversion.{>>=-ok, query_row-Frame, query_row-ok, query_row_answers}
use hosthalla.Text.{Text, has_prefix}
use hosthalla.Auth.Tables.{ApiToken, AuthTables, AuthDb}
use hosthalla.Auth.Tokens.{
  token_with_hash, get_api_token_by_hash, update_last_used_at, use_row, has_token,
}
use hosthalla.Auth.Service.{hash_token, token_prefix}
use hosthalla.Auth.Middleware.{
  passed, token_value, is_expired, admit, admit_current, admit_live, check_token, look_up,
  api_token_auth,
}

-- A token that may be used at an instant.
pub record IsCurrent (k : ApiToken) (now : ℕ) : Type 0 where
  pub live : k.revoked_at ≡ none
  pub fresh : (at : ℕ) → k.expires_at ≡ some at → ltb at now ≡ false

admit-passed :
    (c k : ApiToken) (r : Result (Unit {0})) (s : AuthDb) → (admit c r s).0 ≡ ok (passed k) → c ≡ k
unfolding admit pure
admit-passed c k (ok x) s e = ground arith
admit-passed c k (err x) s e = ground arith

admit_current-passed :
    (c k : ApiToken) (expired : Bool) (s : AuthDb)
    → (admit_current c expired s).0 ≡ ok (passed k)
    → (expired ≡ false) × (c ≡ k)
unfolding admit_current pure
admit_current-passed c k true s e = ground arith
admit_current-passed c k false s e =
    let (now, _, rest) = >>=-ok time_now _ s e in
    let (marked, _, rest') =
      >>=-ok (attempt (update_last_used_at c.id now)) (admit c) (time_now s).1
        (ap (λ r. r.0) (sym rest) ∙ e) in
    (refl, admit-passed c k marked _ (ap (λ r. r.0) (sym rest') ∙ ap (λ r. r.0) (sym rest) ∙ e))

is_expired_value :
    (expires_at : Option ℕ) (s : AuthDb) (expired : Bool)
    → (is_expired expires_at s).0 ≡ ok expired
    → expired ≡ false
    → (at : ℕ) → expires_at ≡ some at
    → ltb at (s.world.times s.world.reads) ≡ false
unfolding is_expired ◌>>=◌ pure time_now
is_expired_value none s expired e f at h = cc
is_expired_value (some b) s expired e f at h = ground arith

admit_live-passed :
    (c k : ApiToken) (revoked : Option ℕ) (s : AuthDb)
    → c.revoked_at ≡ revoked
    → (admit_live c revoked s).0 ≡ ok (passed k)
    → (c ≡ k) × IsCurrent c (s.world.times s.world.reads)
unfolding admit_live pure
admit_live-passed c k (some at) s live e = ground arith
admit_live-passed c k none s live e =
    let (expired, tested, rest) = >>=-ok (is_expired c.expires_at) (admit_current c) s e in
    let (current, same) = admit_current-passed c k expired _ (ap (λ r. r.0) (sym rest) ∙ e) in
    (same, record { live = live; fresh = is_expired_value c.expires_at s expired tested current })

check_token-passed :
    (r : Result ApiToken) (k : ApiToken) (s : AuthDb)
    → (check_token r s).0 ≡ ok (passed k)
    → (r ≡ ok k) × IsCurrent k (s.world.times s.world.reads)
unfolding check_token pure
check_token-passed (err x) k s e = ground arith
check_token-passed (ok c) k s e =
    let (same, current) = admit_live-passed c k c.revoked_at s refl e in
    (ap ok same, rw (← same) current)

query_row-clock :
    (f : AuthTables → Option ApiToken) (s : AuthDb)
    → (query_row f s).1.world.times (query_row f s).1.world.reads ≡ s.world.times s.world.reads
unfolding query_row query driver ◌>>=◌
query_row-clock f s = ground arith

look_up-passed :
    (hash : Text) (k : ApiToken) (s : AuthDb)
    → (look_up hash s).0 ≡ ok (passed k)
    → (token_with_hash hash s.tables ≡ some k) × IsCurrent k (s.world.times s.world.reads)
unfolding look_up get_api_token_by_hash attempt ◌>>=◌
look_up-passed hash k s e =
    let f = token_with_hash hash in
    let (found, current) = check_token-passed (query_row f s).0 k (query_row f s).1 e in
    (query_row-ok f s found, rw (← query_row-clock f s) current)

-- Only a request with the text of a stored token gets to the handler, with a token that has the
-- prefix, is not revoked and is not expired when the clock is read.
pub api_token_auth-passed :
    (sha256 : Text → List ℕ) (own authorization : Text) (s : AuthDb) (k : ApiToken)
    → (api_token_auth sha256 own authorization s).0 ≡ ok (passed k)
    → (has_prefix (token_value own authorization) token_prefix ≡ true)
      × (token_with_hash (hash_token sha256 (token_value own authorization)) s.tables ≡ some k)
      × IsCurrent k (s.world.times s.world.reads)
unfolding api_token_auth pure
api_token_auth-passed sha256 own authorization s k e =
    ground (arith, look_up-passed (hash_token sha256 (token_value own authorization)) k s)

admit_current-passes :
    (k : ApiToken) (s : AuthDb)
    → ((n : ℕ) → s.world.faults n ≡ none)
    → has_token k.id s.tables ≡ true
    → (admit_current k false s).0 ≡ ok (passed k)
unfolding admit_current admit pure attempt time_now update_last_used_at use_row exec_affecting exec
    store driver require ◌>>=◌
admit_current-passes k s quiet known =
    ground (arith, quiet s.world.calls, quiet (s.world.calls + 1))

-- Looking at the clock leaves what the last step needs.
expiry_passes :
    (k : ApiToken) (expires_at : Option ℕ) (s : AuthDb)
    → ((n : ℕ) → s.world.faults n ≡ none)
    → has_token k.id s.tables ≡ true
    → ((at : ℕ) → expires_at ≡ some at → ltb at (s.world.times s.world.reads) ≡ false)
    → ((is_expired expires_at >>= admit_current k) s).0 ≡ ok (passed k)
unfolding is_expired pure time_now ◌>>=◌
expiry_passes k none s quiet known fresh = admit_current-passes k s quiet known
expiry_passes k (some at) s quiet known fresh =
    rw (fresh at refl) (admit_current-passes k (time_now s).1 quiet known)

has_found :
    (hash : Text) (tokens : List ApiToken) (k : ApiToken)
    → find_row (λ (c : ApiToken). c.hash == hash) tokens ≡ some k
    → any (λ (c : ApiToken). c.id == k.id) tokens ≡ true
has_found hash [] k e = cc
has_found hash (c ∷ tokens) k e = ground (arith, has_found hash tokens k)

look_up-passes :
    (hash : Text) (k : ApiToken) (s : AuthDb)
    → ((n : ℕ) → s.world.faults n ≡ none)
    → token_with_hash hash s.tables ≡ some k
    → IsCurrent k (s.world.times s.world.reads)
    → (look_up hash s).0 ≡ ok (passed k)
unfolding look_up get_api_token_by_hash attempt ◌>>=◌ check_token admit_live
look_up-passes hash k s quiet held current =
    let f = token_with_hash hash in
    let frame = query_row-Frame f s in
    rw (query_row_answers f s quiet held) (
      ap (λ r. (admit_live k r (query_row f s).1).0) current.live
      ∙ expiry_passes k k.expires_at (query_row f s).1 (λ n. ap (λ g. g n) frame.faults ∙ quiet n)
          (ap (has_token k.id) frame.tables ∙ has_found hash s.tables.tokens k held)
          (rw (query_row-clock f s) current.fresh))

-- A request whose token has the prefix with text after it, is stored, not revoked and not expired
-- gets to the handler, where no call of the driver fails.
pub api_token_auth-passes :
    (sha256 : Text → List ℕ) (own authorization : Text) (s : AuthDb) (k : ApiToken)
    → ((n : ℕ) → s.world.faults n ≡ none)
    → has_prefix (token_value own authorization) token_prefix ≡ true
    → drop (length token_prefix) (token_value own authorization) ≢ []
    → token_with_hash (hash_token sha256 (token_value own authorization)) s.tables ≡ some k
    → IsCurrent k (s.world.times s.world.reads)
    → (api_token_auth sha256 own authorization s).0 ≡ ok (passed k)
unfolding api_token_auth has_prefix
api_token_auth-passes sha256 own authorization s k quiet prefixed filled held current =
    let done =
      look_up-passes (hash_token sha256 (token_value own authorization)) k s quiet held current in
    ground arith
