-- ===== src/Auth/Service/TokenLife.antt =====
-- A token from its creation to its revocation.
use hosthalla.Base.{
  ℕ, ◌<◌, ◌≡◌, ◌≢◌, refl, sym, ap, ◌∙◌, false, ◌||◌, List, [], ◌∷◌, ◌++◌, Option, none, some, any,
  find_row, update_rows, length, ◌==◌, text_eq, nat_eq, ltb, Result, ok, err, arith, pure, ◌>>=◌,
  exec, time_now, new_id, lift, draw_random, Option-cases, inl, inr, All, ◌/◌, ◌%◌,
}
use hosthalla.Base.Inversion.{>>=-ok, exec_affecting-ok, exec-ok, require-ok}
use hosthalla.Text.{Text, Unicode, has_prefix, trim_space, trim_left, trim_right, is_space}
use hosthalla.Auth.Tables.{ApiToken, AuthTables, AuthDb}
use hosthalla.Auth.Tokens
use hosthalla.Auth.Tokens.{
  token_with_hash, update_last_used_at, is_live, revoke_row, use_row, has_token, is_null,
  insert_token, get_api_token_by_hash, TokenDto, token_of,
}
use hosthalla.Auth.Service.{
  hash_token, token_prefix, revoke_api_token, create_api_token, CreateTokenDto, TokenResult, hex,
  hex_digit, expiry, generate_raw_token, token_dto,
}
use hosthalla.Auth.Middleware.{passed, token_value, api_token_auth}
use hosthalla.Auth.Middleware.Laws.{api_token_auth-passed, api_token_auth-passes}

-- Revoking.

revoked_row :
    (id hash : Text) (now : ℕ) (tokens : List ApiToken) (k k' : ApiToken)
    → find_row (λ (c : ApiToken). c.hash == hash) tokens ≡ some k
    → k.id ≡ id
    → find_row
        (λ (c : ApiToken). c.hash == hash)
        (update_rows (is_live id) (λ c. record c { revoked_at = some now }) tokens)
      ≡ some k'
    → k'.revoked_at ≢ none
revoked_row id hash now [] k k' e own f = cc
revoked_row id hash now (c ∷ tokens) k k' e own f =
    ground (arith, revoked_row id hash now tokens k k')

revoke-tables :
    (id : Text) (s : AuthDb)
    → (revoke_api_token id s).0 ≡ ok tt
    → (now : ℕ) × (revoke_row id now s.tables ≡ some (revoke_api_token id s).1.tables)
unfolding revoke_api_token Tokens.revoke_api_token time_now ◌>>=◌
revoke-tables id s e = (
  s.world.times s.world.reads,
  (exec_affecting-ok _ (λ t. any (is_live id) t.tokens)
      (revoke_row id (s.world.times s.world.reads)) (time_now s).1 e).1,
)

-- Right after a token is revoked, no request with a text of which the token is the one found gets
-- past the middleware.
pub revoked_token_refused :
    (sha256 : Text → List ℕ) (own authorization : Text) (s : AuthDb) (k k' : ApiToken)
    → token_with_hash (hash_token sha256 (token_value own authorization)) s.tables ≡ some k
    → (revoke_api_token k.id s).0 ≡ ok tt
    → (api_token_auth sha256 own authorization (revoke_api_token k.id s).1).0 ≢ ok (passed k')
unfolding revoke_row
revoked_token_refused sha256 own authorization s k k' held done e =
    let (now, changed) = revoke-tables k.id s done in
    let (_, found, current) =
      api_token_auth-passed sha256 own authorization (revoke_api_token k.id s).1 k' e in
    ground (
      arith,
      current.live,
      revoked_row k.id (hash_token sha256 (token_value own authorization)) now s.tables.tokens k k',
    )

-- Creating.

abbrev IsSolid : ℕ → Type 0
IsSolid c = is_space c ≡ false

trim_right_of_solid : (s : Text) → All IsSolid s → trim_right s ≡ s
unfolding trim_right
trim_right_of_solid [] h = refl
trim_right_of_solid (c ∷ s) (h, hs) = ground (arith, trim_right_of_solid s)

trim_space_of_solid : (s : Text) → All IsSolid s → trim_space s ≡ s
unfolding trim_space trim_left
trim_space_of_solid [] h = trim_right_of_solid [] h
trim_space_of_solid (c ∷ s) (h, hs) = rw h (trim_right_of_solid (c ∷ s) (h, hs))

hex_digit-IsSolid : (n : ℕ) → n < 16 → IsSolid (hex_digit n)
unfolding is_space
hex_digit-IsSolid n h = ground arith

hex-IsSolid : (bytes : List ℕ) → All (λ b. b < 256) bytes → All IsSolid (hex bytes)
unfolding hex
hex-IsSolid [] h = tt
hex-IsSolid (b ∷ bytes) (h, hs) = (
  hex_digit-IsSolid (b / 16) (omega arith),
  (hex_digit-IsSolid (b % 16) (omega arith), hex-IsSolid bytes hs),
)

-- What reading random bytes gives: as many bytes as were asked for.
abbrev pub GivesBytes : (ℕ → ℕ → Option (List ℕ)) → Type 0
GivesBytes random =
    (k size : ℕ) (bytes : List ℕ)
    → random k size ≡ some bytes
    → (length bytes ≡ size) × All (λ b. b < 256) bytes

plain_value :
    (bytes : List ℕ) (authorization : Text)
    → All (λ b. b < 256) bytes
    → token_value (token_prefix ++ hex bytes) authorization ≡ token_prefix ++ hex bytes
unfolding token_value is_space nat_eq
plain_value bytes authorization h =
    rw
      (trim_space_of_solid (token_prefix ++ hex bytes)
        (refl, (refl, (refl, (refl, hex-IsSolid bytes h)))))
      (ground arith)

find_inserted :
    (tokens : List ApiToken) (k : ApiToken)
    → any (λ (q : ApiToken). q.id == k.id || q.hash == k.hash) tokens ≡ false
    → find_row (λ (c : ApiToken). c.hash == k.hash) (tokens ++ k ∷ []) ≡ some k
find_inserted [] k h = ground arith
find_inserted (c ∷ tokens) k h = ground (arith, find_inserted tokens k)

insert_token-found :
    (k : ApiToken) (t t' : AuthTables)
    → insert_token k t ≡ some t'
    → token_with_hash k.hash t' ≡ some k
unfolding insert_token
insert_token-found k t t' e = ground (arith, find_inserted t.tokens k)

stored_token :
    (dto : TokenDto) (s : AuthDb) (k : ApiToken)
    → (Tokens.create_api_token dto s).0 ≡ ok k
    → (k.hash ≡ dto.hash)
      × (k.revoked_at ≡ none)
      × (token_with_hash dto.hash (Tokens.create_api_token dto s).1.tables ≡ some k)
unfolding Tokens.create_api_token ◌>>=◌ new_id time_now pure
stored_token dto s k e =
    let made = token_of dto (s.world.ids s.world.drawn) (s.world.times s.world.reads) in
    let t = (time_now (new_id s).1).1 in
    ground (
      arith,
      exec-ok (insert_token made) t {x = tt},
      insert_token-found made t.tables (exec (insert_token made) t).1.tables,
    )

raw_token :
    (s : AuthDb) (raw : Text)
    → (generate_raw_token s).0 ≡ ok raw
    → (bytes : List ℕ) × (s.world.random s.world.random_reads 32 ≡ some bytes) × (raw ≡ hex bytes)
unfolding generate_raw_token draw_random lift ◌>>=◌
raw_token s raw e = elim (Option-cases (s.world.random s.world.random_reads 32)) [
  | inl missing ↦ ground arith
  | inr (bytes, drawn) ↦ (bytes, drawn, ground arith)
]

hex_filled : (bytes : List ℕ) → length bytes ≡ 32 → hex bytes ≢ []
unfolding hex
hex_filled [] h = ground arith
hex_filled (b ∷ bytes) h = ground arith

-- What a creation that succeeds leaves behind.
abbrev IsIssued : ⦃u : Unicode⦄ → (Text → List ℕ) → TokenResult → AuthDb → Type 0
IsIssued sha256 r t =
    (bytes : List ℕ) × (r.plain_token ≡ token_prefix ++ hex bytes)
    × (length bytes ≡ 32)
    × (All (λ b. b < 256) bytes)
    × (r.token.revoked_at ≡ none)
    × (token_with_hash (hash_token sha256 r.plain_token) t.tables ≡ some r.token)

module _ ⦃u : Unicode⦄ (sha256 : Text → List ℕ) where
  issued :
      (raw : Text) (bytes : List ℕ) (k : ApiToken) (r : TokenResult)
      → (m : Result TokenResult × AuthDb) (t : AuthDb) → m.0 ≡ ok r
      → m ≡ (ok (record { token = k; plain_token = token_prefix ++ raw }), t)
      → raw ≡ hex bytes
      → length bytes ≡ 32
      → All (λ b. b < 256) bytes
      → k.revoked_at ≡ none
      → token_with_hash (hash_token sha256 (token_prefix ++ raw)) t.tables ≡ some k
      → IsIssued sha256 r m.1
  issued raw bytes k r (ok q, t') t e whole same size small live held =
      let stays : t' ≡ t = ap (λ x. x.1) whole in
      let token : r.token ≡ k = ground arith in
      let plain : r.plain_token ≡ token_prefix ++ raw = ground arith in
      (
        bytes,
        plain ∙ ap (λ x. token_prefix ++ x) same,
        size,
        small,
        ap (λ x. x.revoked_at) token ∙ live,
        ap (λ x. token_with_hash (hash_token sha256 x) t'.tables) plain
            ∙ ap (λ x. token_with_hash (hash_token sha256 (token_prefix ++ raw)) x.tables) stays
            ∙ held
            ∙ ap some (sym token),
      )
  issued raw bytes k r (err x, t') t e whole same size small live held = ground arith

  create_api_token-IsIssued :
      (dto : CreateTokenDto) (s : AuthDb) (r : TokenResult)
      → GivesBytes s.world.random
      → (create_api_token sha256 dto s).0 ≡ ok r
      → IsIssued sha256 r (create_api_token sha256 dto s).1
  unfolding create_api_token pure
  create_api_token-IsIssued dto s r gives e =
      let (_, e1) = require-ok _ _ _ s e in
      let (_, e2) = require-ok _ _ _ s (ap (λ q. q.0) (sym e1) ∙ e) in
      let (raw, drawn, e3) = >>=-ok generate_raw_token _ s (ap (λ q. q.0) (sym (e1 ∙ e2)) ∙ e) in
      let (at, timed, e4) =
        >>=-ok (expiry dto.expires_in) _ (generate_raw_token s).1
          (ap (λ q. q.0) (sym (e1 ∙ e2 ∙ e3)) ∙ e) in
      let (k, made, e5) =
        >>=-ok (Tokens.create_api_token (token_dto sha256 dto raw at)) _ _
          (ap (λ q. q.0) (sym (e1 ∙ e2 ∙ e3 ∙ e4)) ∙ e) in
      let whole = e1 ∙ e2 ∙ e3 ∙ e4 ∙ e5 in
      let (bytes, random, same) = raw_token s raw drawn in
      let (size, small) = gives s.world.random_reads 32 bytes random in
      let (hashed, live, held) = stored_token (token_dto sha256 dto raw at) _ k made in
      issued raw bytes k r _ _ e whole same size small live held

  -- Right after a token was created, the text that the creation returned gets a request past the
  -- middleware, with the token as it was returned, while the token is not expired and no call of
  -- the driver fails, if every read of random bytes gives as many bytes as were asked for.
  pub api_token_auth-create_api_token :
      (dto : CreateTokenDto) (authorization : Text) (s : AuthDb) (r : TokenResult)
      → GivesBytes s.world.random
      → (create_api_token sha256 dto s).0 ≡ ok r
      → let t = (create_api_token sha256 dto s).1 in
        ((n : ℕ) → t.world.faults n ≡ none)
        → ((at : ℕ) → r.token.expires_at ≡ some at → ltb at (t.world.times t.world.reads) ≡ false)
        → (api_token_auth sha256 r.plain_token authorization t).0 ≡ ok (passed r.token)
  unfolding has_prefix
  api_token_auth-create_api_token dto authorization s r gives e quiet fresh =
      let (bytes, plain, size, small, live, held) = create_api_token-IsIssued dto s r gives e in
      let value = plain_value bytes authorization small in
      let same : token_value r.plain_token authorization ≡ r.plain_token =
        ap (λ t. token_value t authorization) plain ∙ value ∙ sym plain in
      api_token_auth-passes sha256 r.plain_token authorization (create_api_token sha256 dto s).1
        r.token quiet (rw (same, plain) (ground arith)) (rw (same, plain) (hex_filled bytes size))
        (rw same held) (record { live = live; fresh = fresh })
