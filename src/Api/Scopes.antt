-- ===== src/Api/Scopes.antt =====
-- A scope that is asked of a token, against the scopes that the token was created with.
use hosthalla.Base.{◌≡◌, refl, List, [], ◌∷◌, any, ◌==◌, text_eq, contains, arith, All}
use hosthalla.Text.{Text, Unicode}
use hosthalla.Text.Normalize.{
  normalized, normalize_loop, IsNormal, normalize_loop-IsNormal, contains-normalize_loop,
}
use hosthalla.Auth.Service.{normalize_scopes}
use hosthalla.Api.Hosts.{has_scope}

module _ ⦃u : Unicode⦄ where
  any_of_normal :
      (scopes : List Text) (wanted : Text)
      → All IsNormal scopes
      → any (λ scope. normalized scope == wanted) scopes ≡ contains scopes wanted
  unfolding normalized
  any_of_normal [] wanted h = refl
  any_of_normal (s ∷ scopes) wanted (n, h) =
      rw (n.trimmed, n.lowered) (ground (arith, any_of_normal scopes wanted h))

  -- A token has a scope after its scopes are put in normal form exactly when it had it before.
  pub has_scope-normalize_scopes :
      (scopes : List Text) (required : Text)
      → has_scope (normalize_scopes scopes) required ≡ has_scope scopes required
  unfolding has_scope normalize_scopes
  has_scope-normalize_scopes scopes required =
      rw
        (
          any_of_normal (normalize_loop ([], []) scopes) (normalized required)
              (normalize_loop-IsNormal scopes).0,
          contains-normalize_loop scopes (normalized required),
        )
        (ground arith)
