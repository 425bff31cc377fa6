-- ===== src/Base/Inversion.antt =====
-- What is known of a step that succeeded: the equations behind each way to build code.
use mathlib.Core.Path.{◌≡◌, refl, sym, ◌∙◌, ap}
use mathlib.Core.Bool.{Bool, true, false}
use mathlib.Core.Option.{Option, none, some}
use mathlib.Core.List.{[], ◌∷◌, ◌++◌}
use mathlib.Core.Logic.{◌⊎◌, inl, inr}
use Prim.Native.Nat.{ℕ}
use Prim.Native.String.{String}
use native.Mathlib.Omega.{arith}
use hosthalla.Base.Effects.{Error, Result, ok, err, Exec, pure, lift, require, ◌>>=◌}
use hosthalla.Base.Sql.{
  Db, driver, new_id, time_now, draw_random, publish, store, query, query_row, exec, exec_affecting,
  transaction, framed, rollback,
}

pub Result-cases {ℓ} :
    {A : Type ℓ} (r : Result A) → ((a : A) × (r ≡ ok a)) ⊎ ((e : Error) × (r ≡ err e))
Result-cases (ok a) = inl (a, refl)
Result-cases (err e) = inr (e, refl)

module _ {S A B : Type 0} where
  -- The steps of a `do` block that succeeded.
  pub >>=-ok :
      (m : Exec S A) (f : A → Exec S B) (s : S) {b : B}
      → ((m >>= f) s).0 ≡ ok b
      → (a : A) × ((m s).0 ≡ ok a) × ((m >>= f) s ≡ f a (m s).1)
  unfolding ◌>>=◌
  >>=-ok m f s {b} e = go (m s).0 (m s).1 refl e
    where
      go :
          (r : Result A) (t : S)
          → (m s).0 ≡ r
          → ((lift r >>= f) t).0 ≡ ok b
          → (a : A) × ((m s).0 ≡ ok a) × ((m >>= f) s ≡ f a (m s).1)
      go (ok a) t same e' = (a, same, rw same refl)
      go (err x) t same e' = cc

-- What a read leaves alone.
pub record Frame {I T E : Type 0} (s t : Db I T E) : Type 0 where
  pub tables : t.tables ≡ s.tables
  pub published : t.published ≡ s.published
  pub faults : t.world.faults ≡ s.world.faults
  pub random : t.world.random ≡ s.world.random

module _ {I T E : Type 0} where
  pub Frame-trans : {s t v : Db I T E} → Frame s t → Frame t v → Frame s v
  Frame-trans f g = record {
    tables = g.tables ∙ f.tables;
    published = g.published ∙ f.published;
    faults = g.faults ∙ f.faults;
    random = g.random ∙ f.random;
  }

  pub driver-Frame : (s : Db I T E) → Frame s (driver s).1
  unfolding driver
  driver-Frame s = ground arith

  pub new_id-Frame : (s : Db I T E) → Frame s (new_id s).1
  unfolding new_id
  new_id-Frame s = record { tables = refl; published = refl; faults = refl; random = refl }

  pub time_now-Frame : (s : Db I T E) → Frame s (time_now s).1
  unfolding time_now
  time_now-Frame s = record { tables = refl; published = refl; faults = refl; random = refl }

  pub draw_random-Frame : (s : Db I T E) → Frame s (draw_random s).1
  unfolding draw_random
  draw_random-Frame s = record { tables = refl; published = refl; faults = refl; random = refl }

module _ {I T E A : Type 0} where
  pub query-Frame : (f : T → A) (s : Db I T E) → Frame s (query f s).1
  unfolding query driver ◌>>=◌
  query-Frame f s = ground arith

  pub query-ok : (f : T → A) (s : Db I T E) {a : A} → (query f s).0 ≡ ok a → a ≡ f s.tables
  unfolding query driver ◌>>=◌
  query-ok f s e = ground arith

  -- With no fault ahead, a query answers.
  pub query_answers :
      (f : T → A) (s : Db I T E)
      → ((k : ℕ) → s.world.faults k ≡ none)
      → (query f s).0 ≡ ok (f s.tables)
  unfolding query driver ◌>>=◌
  query_answers f s quiet = ground (arith, quiet s.world.calls)

  pub query_row-Frame : (f : T → Option A) (s : Db I T E) → Frame s (query_row f s).1
  unfolding query_row query driver ◌>>=◌
  query_row-Frame f s = ground arith

  pub query_row-ok :
      (f : T → Option A) (s : Db I T E) {a : A} → (query_row f s).0 ≡ ok a → f s.tables ≡ some a
  unfolding query_row query driver ◌>>=◌
  query_row-ok f s e = ground arith

  pub query_row_answers :
      (f : T → Option A) (s : Db I T E) {a : A}
      → ((k : ℕ) → s.world.faults k ≡ none)
      → f s.tables ≡ some a
      → (query_row f s).0 ≡ ok a
  unfolding query_row query driver ◌>>=◌
  query_row_answers f s quiet e = ground (arith, quiet s.world.calls)

module _ {I T E : Type 0} where
  -- A statement that succeeded, or changed nothing.
  pub exec-ok :
      (f : T → Option T) (s : Db I T E) {x : Unit {0}}
      → (exec f s).0 ≡ ok x
      → (f s.tables ≡ some (exec f s).1.tables)
        × ((exec f s).1.published ≡ s.published)
        × ((exec f s).1.world.random ≡ s.world.random)
  unfolding exec store driver ◌>>=◌
  exec-ok f s e = ground arith

  pub exec-err :
      (f : T → Option T) (s : Db I T E) {e : Error} → (exec f s).0 ≡ err e → Frame s (exec f s).1
  unfolding exec store driver ◌>>=◌
  exec-err f s h = ground arith

module _ {I T E A : Type 0} where
  -- A transaction that fails leaves the tables as they were.
  pub transaction-err :
      (body : Exec (Db I T E) A) (s : Db I T E) {e : Error}
      → (transaction body s).0 ≡ err e
      → (transaction body s).1.tables ≡ s.tables
  unfolding transaction
  transaction-err body s h = ground arith

module _ {S A B : Type 0} where
  -- The steps of a `do` block after one that failed are not taken.
  pub >>=-err :
      (m : Exec S A) (f : A → Exec S B) (s : S) {e : Error}
      → (m s).0 ≡ err e
      → (m >>= f) s ≡ (err e, (m s).1)
  unfolding ◌>>=◌
  >>=-err m f s h = ground arith

  pub >>=-step :
      (m : Exec S A) (f : A → Exec S B) (s : S) {a : A} → (m s).0 ≡ ok a → (m >>= f) s ≡ f a (m s).1
  unfolding ◌>>=◌
  >>=-step m f s h = ground arith

module _ {S A B : Type 0} where
  -- The two ways on from the first step of a `do` block.
  pub >>=-cases :
      (m : Exec S A) (f : A → Exec S B) (s : S)
      → ((a : A) × ((m s).0 ≡ ok a) × ((m >>= f) s ≡ f a (m s).1))
        ⊎ ((e : Error) × ((m s).0 ≡ err e) × ((m >>= f) s ≡ (err e, (m s).1)))
  >>=-cases m f s = elim (Result-cases (m s).0) [
    | inl (a, h) ↦ inl (a, h, >>=-step m f s h)
    | inr (e, h) ↦ inr (e, h, >>=-err m f s h)
  ]

module _ {I T E A : Type 0} where
  framed-ok :
      (body : Exec (Db I T E) A) (s : Db I T E) {a : A}
      → (framed body s).0 ≡ ok a
      → (t : Db I T E) × Frame s t
        × ((body t).0 ≡ ok a)
        × ((framed body s).1.tables ≡ (body t).1.tables)
        × ((framed body s).1.published ≡ (body t).1.published)
  unfolding framed pure
  framed-ok body s e =
      let (x, began, first) = >>=-ok driver _ s e in
      let t = (driver s).1 in
      let (b, got, second) = >>=-ok body _ t (ap (λ r. r.0) (sym first) ∙ e) in
      let (y, ended, third) =
        >>=-ok driver _ (body t).1 (ap (λ r. r.0) (sym (first ∙ second)) ∙ e) in
      let same = first ∙ second ∙ third in
      let frame = driver-Frame (body t).1 in
      (
        t,
        driver-Frame s,
        got ∙ ap (λ r. r.0) (sym same) ∙ e,
        ap (λ r. r.1.tables) same ∙ frame.tables,
        ap (λ r. r.1.published) same ∙ frame.published,
      )

  -- A transaction that succeeds is its body, run after the call that begins it.
  pub transaction-ok :
      (body : Exec (Db I T E) A) (s : Db I T E) {a : A}
      → (transaction body s).0 ≡ ok a
      → (t : Db I T E) × Frame s t
        × ((body t).0 ≡ ok a)
        × ((transaction body s).1.tables ≡ (body t).1.tables)
        × ((transaction body s).1.published ≡ (body t).1.published)
  unfolding transaction
  transaction-ok body s {a} e = go (framed body s).0 (framed body s).1 refl e
    where
      go :
          (r : Result A) (t : Db I T E)
          → framed body s ≡ (r, t)
          → (rollback s.tables r t).0 ≡ ok a
          → (t' : Db I T E) × Frame s t'
            × ((body t').0 ≡ ok a)
            × ((rollback s.tables r t).1.tables ≡ (body t').1.tables)
            × ((rollback s.tables r t).1.published ≡ (body t').1.published)
      go (ok b) t same h =
          let (t', frame, done, tables, published) = framed-ok body s (ap (λ r. r.0) same ∙ h) in
          (
            t',
            frame,
            done,
            ap (λ r. r.1.tables) (sym same) ∙ tables,
            ap (λ r. r.1.published) (sym same) ∙ published,
          )
      go (err x) t same h = cc

module _ {S B : Type 0} where
  -- A test that let a `do` block go on.
  pub require-ok :
      (test : Bool) (e : Error) (f : Unit {0} → Exec S B) (s : S) {b : B}
      → ((require test e >>= f) s).0 ≡ ok b
      → (test ≡ true) × ((require test e >>= f) s ≡ f tt s)
  unfolding ◌>>=◌ require
  require-ok true e f s h = (refl, refl)
  require-ok false e f s h = cc

-- What code establishes when it succeeds.
pub record Establishes {S A : Type 0} (P Q : S → Type 0) (m : Exec S A) : Type 0 where
  pub result : (s : S) {a : A} → P s → (m s).0 ≡ ok a → Q (m s).1

module _ {S A B : Type 0} where
  pub Establishes-bind :
      {P Q R : S → Type 0} (m : Exec S A) (f : A → Exec S B)
      → Establishes P Q m
      → ((a : A) → Establishes Q R (f a))
      → Establishes P R (m >>= f)
  Establishes-bind m f hm hf = record {
    result = λ s p e.
        let (a, got, rest) = >>=-ok m f s e in
        rw rest ((hf a).result (m s).1 (hm.result s p got) (ap (λ r. r.0) (sym rest) ∙ e));
  }

module _ {I T E : Type 0} where
  pub Establishes-exec :
      {P Q : T → Type 0} (f : T → Option T)
      → ((t t' : T) → P t → f t ≡ some t' → Q t')
      → Establishes {S = Db I T E} (λ s. P s.tables) (λ s. Q s.tables) (exec f)
  Establishes-exec f keep = record {
    result = λ s p e. keep s.tables (exec f s).1.tables p (exec-ok f s e).0;
  }

module _ {I T E A : Type 0} (P : T → Type 0) where
  pub Establishes-Frame :
      (m : Exec (Db I T E) A)
      → ((s : Db I T E) → Frame s (m s).1)
      → Establishes {S = Db I T E} (λ s. P s.tables) (λ s. P s.tables) m
  Establishes-Frame m frame = record { result = λ s p e. rw ((frame s).tables) p }

module _ {I T E A : Type 0} (P : T → Type 0) where
  framed-keeps :
      (body : Exec (Db I T E) A)
      → Establishes {S = Db I T E} (λ s. P s.tables) (λ s. P s.tables) body
      → Establishes {S = Db I T E} (λ s. P s.tables) (λ s. P s.tables) (framed body)
  unfolding framed pure
  framed-keeps body keep =
      let step = Establishes-Frame P driver driver-Frame in
      Establishes-bind driver _ step λ _.
        Establishes-bind body _ keep
          λ a. Establishes-bind driver _ step λ _. record { result = λ s p e. p }

  -- A transaction keeps what its body keeps when it succeeds.
  pub transaction-keeps :
      (body : Exec (Db I T E) A) (s : Db I T E)
      → Establishes {S = Db I T E} (λ t. P t.tables) (λ t. P t.tables) body
      → P s.tables
      → P (transaction body s).1.tables
  unfolding transaction
  transaction-keeps body s keep p =
      go (framed body s).0 (framed body s).1 (λ a e. (framed-keeps body keep).result s p e)
    where
      go :
          (r : Result A) (t : Db I T E)
          → ((a : A) → r ≡ ok a → P t.tables)
          → P (rollback s.tables r t).1.tables
      go (ok a) t q = q a refl
      go (err e) t q = p

module _ {I T E : Type 0} where
  -- An `update` or `delete` that succeeded touched a row.
  pub exec_affecting-ok :
      (message : String) (touched : T → Bool) (f : T → Option T) (s : Db I T E) {x : Unit {0}}
      → (exec_affecting message touched f s).0 ≡ ok x
      → (touched s.tables ≡ true)
        × (f s.tables ≡ some (exec_affecting message touched f s).1.tables)
        × ((exec_affecting message touched f s).1.published ≡ s.published)
  unfolding exec_affecting exec store driver require ◌>>=◌
  exec_affecting-ok message touched f s e = ground arith

  pub publish-ok :
      (e : E) (s : Db I T E)
      → ((publish e s).1.tables ≡ s.tables) × ((publish e s).1.published ≡ s.published ++ e ∷ [])
  unfolding publish
  publish-ok e s = (refl, refl)
