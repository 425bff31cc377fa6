-- ===== src/Web/Request.antt =====
-- What the web handlers read of an `http.Request`, and how they answer.
pub mod Laws
use hosthalla.Base.{
  ℕ, Bool, List, [], ◌∷◌, Option, none, some, Error, Result, ok, err, Exec, pure, attempt, ◌>>=◌,
}
use hosthalla.Text.{Text}

-- `form` is `r.Form` as far as it could be parsed, and `form_error` the error of `ParseForm`. A key
-- that is present has a value. `header` gives the empty text for a header that is missing.
pub record Request : Type 0 where
  pub path : Text
  pub path_value : Text → Text
  pub query : Text → List Text
  pub form : Text → List Text
  pub form_error : Option Error
  pub header : Text → Text
  pub cookie : Text → Option Text
  pub is_tls : Bool

abbrev pub first_value : List Text → Text
first_value [] = []
first_value (v ∷ vs) = v

-- `r.FormValue(key)`
abbrev pub form_value : Request → Text → Text
form_value r key = first_value (r.form key)

-- `r.URL.Query().Get(key)`
abbrev pub query_value : Request → Text → Text
query_value r key = first_value (r.query key)

-- `http.Error`, with the error whose text is the body; `http.Redirect` with 303; and a body.
pub data Response (A : Type 0) : Type 0 where
  refused : ℕ → Error → Response A
  redirected : Text → Response A
  rendered : A → Response A

module _ {S A B : Type 0} where
  unfoldable pub answer : ℕ → (A → Exec S (Response B)) → Result A → Exec S (Response B)
  answer code next (ok a) = next a
  answer code next (err e) = pure (refused code e)

  -- `if err != nil { http.Error(w, err.Error(), code); return }` after a call.
  unfoldable pub or_refuse : ℕ → Exec S A → (A → Exec S (Response B)) → Exec S (Response B)
  or_refuse code call next = do result ← attempt call; answer code next result

-- `r.ParseForm()`
abbrev pub parse_form : Request → Result (Unit {0})
parse_form r = elim r.form_error [ none ↦ ok tt | some e ↦ err e ]
