-- ===== src/Base/Preserves.antt =====
-- What a piece of code leaves true of the state, whether it succeeds or fails: one rule for each
-- way to build code, so that `search` follows the text of a `do` block.
use mathlib.Core.Path.{◌≡◌}
use mathlib.Core.Bool.{Bool, true, false}
use mathlib.Core.Option.{Option, some}
use Prim.Native.String.{String}
use hosthalla.Base.Tests.{if◌then◌else◌, Option-cases}
use mathlib.Core.Logic.{inl, inr}
use mathlib.Core.List.{[], ◌∷◌}
use native.Mathlib.Omega.{arith}
use hosthalla.Base.Lists.{All, All-append}
use hosthalla.Base.Effects.{
  Error, Result, ok, err, Exec, pure, raise, lift, attempt, require, ◌>>=◌,
}
use hosthalla.Base.Sql.{
  Db, driver, new_id, time_now, draw_random, publish, query, query_row, exec, exec_affecting,
  transaction, get_tables, store, framed, rollback,
}

pub record Preserves {ℓ} {S A : Type ℓ} (P : S → Type ℓ) (m : Exec S A) : Type ℓ where
  pub after : (s : S) → P s → P (m s).1

module _ {ℓ} {S A : Type ℓ} {P : S → Type ℓ} where
  pub Preserves-pure : (a : A) → Preserves P (pure a)
  unfolding pure
  Preserves-pure a = record { after = λ s p. p }

  pub Preserves-raise : (e : Error) → Preserves P (raise {A = A} e)
  unfolding raise
  Preserves-raise e = record { after = λ s p. p }

  pub Preserves-lift : (r : Result A) → Preserves P (lift r)
  unfolding lift
  Preserves-lift r = record { after = λ s p. p }

  pub Preserves-if :
      (b : Bool) (m n : Exec S A) → Preserves P m → Preserves P n → Preserves P (if b then m else n)
  Preserves-if true m n pm pn = pm
  Preserves-if false m n pm pn = pn

  pub Preserves-attempt : (m : Exec S A) → Preserves P m → Preserves P (attempt m)
  unfolding attempt
  Preserves-attempt m pm = record { after = λ s p. pm.after s p }

module _ {ℓ} {S A B : Type ℓ} {P : S → Type ℓ} where
  pub Preserves-bind :
      (m : Exec S A) (f : A → Exec S B)
      → Preserves P m
      → ((a : A) → Preserves P (f a))
      → Preserves P (m >>= f)
  unfolding ◌>>=◌
  Preserves-bind m f pm pf = record { after = λ s p. go (m s).0 (m s).1 (pm.after s p) }
    where
      go : (r : Result A) (t : S) → P t → P ((lift r >>= f) t).1
      go (ok a) t p = (pf a).after t p
      go (err e) t p = p

module _ {ℓ} {S : Type ℓ} {P : S → Type ℓ} where
  pub Preserves-require : (b : Bool) (e : Error) → Preserves P (require b e)
  unfolding require
  Preserves-require true e = record { after = λ s p. p }
  Preserves-require false e = record { after = λ s p. p }

-- A predicate on the tables together with one on every published event.
pub record OnDb {I T E : Type 0} (P : T → Type 0) (Q : E → Type 0) (s : Db I T E) : Type 0 where
  pub tables_hold : P s.tables
  pub events_hold : All Q s.published

module _ {I T E : Type 0} {P : T → Type 0} {Q : E → Type 0} where
  pub OnDb-driver : Preserves (OnDb {I = I} P Q) driver
  unfolding driver
  OnDb-driver = record { after = λ s p. ground (arith, p) }

  pub OnDb-new_id : Preserves (OnDb {I = I} P Q) new_id
  unfolding new_id
  OnDb-new_id = record {
    after = λ s p. record { tables_hold = p.tables_hold; events_hold = p.events_hold };
  }

  pub OnDb-time_now : Preserves (OnDb {I = I} P Q) time_now
  unfolding time_now
  OnDb-time_now = record {
    after = λ s p. record { tables_hold = p.tables_hold; events_hold = p.events_hold };
  }

  pub OnDb-draw_random : Preserves (OnDb {I = I} P Q) draw_random
  unfolding draw_random
  OnDb-draw_random = record {
    after = λ s p. record { tables_hold = p.tables_hold; events_hold = p.events_hold };
  }

  pub OnDb-publish : (e : E) → Q e → Preserves (OnDb {I = I} P Q) (publish e)
  unfolding publish
  OnDb-publish e q = record {
    after = λ s p. record {
      tables_hold = p.tables_hold;
      events_hold = All-append Q s.published (e ∷ []) p.events_hold (q, tt);
    };
  }

  OnDb-get_tables : {A : Type 0} (f : T → A) → Preserves (OnDb {I = I} P Q) (get_tables f)
  OnDb-get_tables f = record { after = λ s p. p }

  pub OnDb-query : {A : Type 0} (f : T → A) → Preserves (OnDb {I = I} P Q) (query f)
  unfolding query
  OnDb-query f = Preserves-bind driver _ OnDb-driver (λ _. OnDb-get_tables f)

  pub OnDb-query_row : {A : Type 0} (f : T → Option A) → Preserves (OnDb {I = I} P Q) (query_row f)
  unfolding query_row
  OnDb-query_row f = Preserves-bind (query f) _ (OnDb-query f) (λ o. Preserves-lift _)

  OnDb-store :
      (f : T → Option T)
      → ((t t' : T) → P t → f t ≡ some t' → P t')
      → Preserves (OnDb {I = I} P Q) (store f)
  unfolding store
  OnDb-store f keep = record {
    after = λ s p. elim (Option-cases (f s.tables)) [
      | inl failed ↦ rw (failed, store) p
      | inr (t, e) ↦
          rw (e, store)
            (record { tables_hold = keep s.tables t p.tables_hold e; events_hold = p.events_hold })
    ];
  }

  pub OnDb-exec :
      (f : T → Option T)
      → ((t t' : T) → P t → f t ≡ some t' → P t')
      → Preserves (OnDb {I = I} P Q) (exec f)
  unfolding exec
  OnDb-exec f keep = Preserves-bind driver _ OnDb-driver (λ _. OnDb-store f keep)

  pub OnDb-exec_affecting :
      (message : String) (touched : T → Bool) (f : T → Option T)
      → ((t t' : T) → P t → f t ≡ some t' → P t')
      → Preserves (OnDb {I = I} P Q) (exec_affecting message touched f)
  unfolding exec_affecting
  OnDb-exec_affecting message touched f keep = record {
    after = λ s p.
        (Preserves-bind (exec f) _ (OnDb-exec f keep)
            (λ _. Preserves-bind driver _ OnDb-driver (λ _. Preserves-require _ _))).after
          s p;
  }

module _ {I T E A : Type 0} {P : T → Type 0} {Q : E → Type 0} where
  pub OnDb-transaction :
      (body : Exec (Db I T E) A)
      → Preserves (OnDb P Q) body
      → Preserves (OnDb P Q) (transaction body)
  unfolding transaction framed
  OnDb-transaction body keep = record {
    after = λ s p. go s.tables p.tables_hold _ _ ((whole).after s p);
  }
    where
      whole : Preserves (OnDb P Q) (framed body)
      whole = Preserves-bind driver _ OnDb-driver λ _.
          Preserves-bind body _ keep λ a. Preserves-bind driver _ OnDb-driver λ _. Preserves-pure a

      go :
          (before : T)
          → P before
          → (r : Result A) (t : Db I T E) → OnDb P Q t
          → OnDb P Q (rollback before r t).1
      go before q (ok a) t p = p
      go before q (err e) t p = record { tables_hold = q; events_hold = p.events_hold }

pub ruleset preserve_rules = (
  Preserves-pure, Preserves-raise, Preserves-lift, Preserves-if, Preserves-attempt, Preserves-bind,
  Preserves-require, OnDb-new_id, OnDb-time_now, OnDb-draw_random, OnDb-query, OnDb-query_row,
  OnDb-driver, OnDb-transaction,
)
