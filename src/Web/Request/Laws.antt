-- ===== src/Web/Request/Laws.antt =====
-- How a handler that answers early leaves its state.
use hosthalla.Base.{
  ℕ, ◌≡◌, ◌⊎◌, inl, inr, refl, sym, ap, ◌∙◌, Error, Result, ok, err, Exec, pure, attempt, lift,
  ◌>>=◌, Db, ◌≢◌,
}
use hosthalla.Text.{Text}
use hosthalla.Web.Request.{Response, refused, redirected, answer, or_refuse}

module _ {S A B : Type 0} where
  or_refuse-err :
      (code : ℕ) (m : Exec S A) (k : A → Exec S (Response B)) (s : S) (e : Error)
      → (m s).0 ≡ err e
      → or_refuse code m k s ≡ (ok (refused code e), (m s).1)
  unfolding or_refuse answer attempt pure ◌>>=◌
  or_refuse-err code m k s e h = ap (λ r. answer code k r (m s).1) h

  or_refuse-ok :
      (code : ℕ) (m : Exec S A) (k : A → Exec S (Response B)) (s : S) (a : A)
      → (m s).0 ≡ ok a
      → or_refuse code m k s ≡ k a (m s).1
  unfolding or_refuse answer attempt pure ◌>>=◌
  or_refuse-ok code m k s a h = ap (λ r. answer code k r (m s).1) h

  -- A step of a handler: it answers with the error, or goes on.
  pub or_refuse-cases :
      (code : ℕ) (m : Exec S A) (k : A → Exec S (Response B)) (s : S)
      → ((e : Error) × ((m s).0 ≡ err e) × (or_refuse code m k s ≡ (ok (refused code e), (m s).1)))
        ⊎ ((a : A) × ((m s).0 ≡ ok a) × (or_refuse code m k s ≡ k a (m s).1))
  or_refuse-cases code m k s = go (m s).0 refl
    where
      go :
          (r : Result A)
          → (m s).0 ≡ r
          → ((e : Error) × ((m s).0 ≡ err e)
              × (or_refuse code m k s ≡ (ok (refused code e), (m s).1)))
            ⊎ ((a : A) × ((m s).0 ≡ ok a) × (or_refuse code m k s ≡ k a (m s).1))
      go (ok a) h = inr (a, h, or_refuse-ok code m k s a h)
      go (err e) h = inl (e, h, or_refuse-err code m k s e h)

  -- A check on the request alone.
  pub or_refuse-lift :
      (code : ℕ) (r : Result A) (k : A → Exec S (Response B)) (s : S)
      → ((e : Error) × (r ≡ err e) × (or_refuse code (lift r) k s ≡ (ok (refused code e), s)))
        ⊎ ((a : A) × (r ≡ ok a) × (or_refuse code (lift r) k s ≡ k a s))
  unfolding or_refuse answer attempt pure lift ◌>>=◌
  or_refuse-lift code (ok a) k s = inr (a, refl, refl)
  or_refuse-lift code (err e) k s = inl (e, refl, refl)

-- An answer that is no error.
abbrev pub Accepts : {B : Type 0} → Response B → Type 0
Accepts a = (code : ℕ) (e : Error) → a ≢ refused code e

module _ {S A B : Type 0} where
  -- The step of a handler that did not answer with an error.
  pub or_refuse-went :
      (code : ℕ) (m : Exec S A) (k : A → Exec S (Response B)) (s : S) {a : Response B}
      → (or_refuse code m k s).0 ≡ ok a
      → Accepts a
      → (x : A) × ((m s).0 ≡ ok x) × (or_refuse code m k s ≡ k x (m s).1)
  or_refuse-went code m k s {a} h fine = elim (or_refuse-cases code m k s) [
    | inl (e, bad, rest) ↦
        let same : ok a ≡ ok (refused code e) = sym h ∙ ap (λ q. q.0) rest in
        absurd (fine code e cc)
    | inr went ↦ went
  ]

  pub lift-went :
      (code : ℕ) (r : Result A) (k : A → Exec S (Response B)) (s : S) {a : Response B}
      → (or_refuse code (lift r) k s).0 ≡ ok a
      → Accepts a
      → (x : A) × (r ≡ ok x) × (or_refuse code (lift r) k s ≡ k x s)
  lift-went code r k s {a} h fine = elim (or_refuse-lift code r k s) [
    | inl (e, bad, rest) ↦
        let same : ok a ≡ ok (refused code e) = sym h ∙ ap (λ q. q.0) rest in
        absurd (fine code e cc)
    | inr went ↦ went
  ]

-- A handler that leaves the tables as they were where it answers with an error.
pub record Declines {I T E B : Type 0} (m : Exec (Db I T E) (Response B)) : Type 0 where
  pub kept :
      (s : Db I T E) (code : ℕ) (e : Error)
      → (m s).0 ≡ ok (refused code e)
      → (m s).1.tables ≡ s.tables

module _ {I T E A B : Type 0} (code : ℕ) where
  pub Declines-lift :
      (r : Result A) (k : A → Exec (Db I T E) (Response B))
      → ((a : A) → Declines (k a))
      → Declines (or_refuse code (lift r) k)
  Declines-lift r k next = record {
    kept = λ s c e h. elim (or_refuse-lift code r k s) [
      | inl (x, bad, rest) ↦ ap (λ q. q.1.tables) rest
      | inr (a, good, rest) ↦
          ap (λ q. q.1.tables) rest ∙ (next a).kept s c e (ap (λ q. q.0) (sym rest) ∙ h)
    ];
  }

  pub Declines-read :
      (m : Exec (Db I T E) A) (k : A → Exec (Db I T E) (Response B))
      → ((s : Db I T E) → (m s).1.tables ≡ s.tables)
      → ((a : A) → Declines (k a))
      → Declines (or_refuse code m k)
  Declines-read m k reads next = record {
    kept = λ s c e h. elim (or_refuse-cases code m k s) [
      | inl (x, bad, rest) ↦ ap (λ q. q.1.tables) rest ∙ reads s
      | inr (a, good, rest) ↦
          ap (λ q. q.1.tables) rest
          ∙ (next a).kept (m s).1 c e (ap (λ q. q.0) (sym rest) ∙ h)
          ∙ reads s
    ];
  }

  -- The one write of a handler, after which it answers with no error.
  pub Declines-write :
      (m : Exec (Db I T E) A) (k : A → Exec (Db I T E) (Response B))
      → ((s : Db I T E) (x : Error) → (m s).0 ≡ err x → (m s).1.tables ≡ s.tables)
      → ((a : A) (s : Db I T E) (c : ℕ) (e : Error) → (k a s).0 ≢ ok (refused c e))
      → Declines (or_refuse code m k)
  Declines-write m k fails never = record {
    kept = λ s c e h. elim (or_refuse-cases code m k s) [
      | inl (x, bad, rest) ↦ ap (λ q. q.1.tables) rest ∙ fails s x bad
      | inr (a, good, rest) ↦ absurd (never a (m s).1 c e (ap (λ q. q.0) (sym rest) ∙ h))
    ];
  }

module _ {S B : Type 0} where
  abbrev pub redirect : Text → Exec S (Response B)
  redirect path = pure (redirected path)

  pub redirect_never :
      (path : Text) (s : S) (code : ℕ) (e : Error) → (redirect path s).0 ≢ ok (refused code e)
  unfolding pure
  redirect_never path s code e h = cc
