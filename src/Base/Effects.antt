-- ===== src/Base/Effects.antt =====
-- Code that changes a state and may fail. What was written before a failure stays written, so the
-- state comes back beside the error too.
use Prim.Native.String.{String}
use mathlib.Core.Bool.{Bool, true, false}
use mathlib.Core.Option.{Option, none, some}
use mathlib.Core.List.{List}
use Prim.Native.Nat.{ℕ}

-- Go's `error` values. `wrap` is `fmt.Errorf` with `%w`, `about` is a message with a text in it,
-- and `joined` is `errors.Join`. `no_rows` is `sql.ErrNoRows`, `violation` a failed constraint of
-- the schema, and `usage` a `UsageError` with its message and usage line.
pub data Error : Type 0 where
  no_rows violation : Error
  failed : String → Error
  about : String → List ℕ → Error
  wrap : String → Error → Error
  joined : Error → Error → Error

-- `errors.Is(err, sql.ErrNoRows)`
abbrev pub is_no_rows : Error → Bool
is_no_rows no_rows = true
is_no_rows violation = false
is_no_rows (failed _) = false
is_no_rows (about _ _) = false
is_no_rows (wrap _ e) = is_no_rows e
is_no_rows (joined a b) = elim (is_no_rows a) [ true ↦ true | false ↦ is_no_rows b ]

pub data Result {ℓ} (A : Type ℓ) : Type ℓ where
  ok : A → Result A
  err : Error → Result A

module _ {ℓ} {A : Type ℓ} where
  abbrev pub value_or : Error → Option A → Result A
  value_or e none = err e
  value_or e (some a) = ok a

  abbrev pub IsOk : Result A → Type 0
  IsOk (ok _) = Unit {0}
  IsOk (err _) = ⊥

abbrev pub Exec {ℓ} : Type ℓ → Type ℓ → Type ℓ
Exec S A = S → Result A × S

module _ {ℓ} {S A : Type ℓ} where
  unfoldable pub pure : A → Exec S A
  pure a s = (ok a, s)

  unfoldable pub raise : Error → Exec S A
  raise e s = (err e, s)

  unfoldable pub lift : Result A → Exec S A
  lift r s = (r, s)

  -- The error of a call, as a value: `if err := f(); err != nil { ... }`.
  unfoldable pub attempt : Exec S A → Exec S (Result A)
  attempt m s = let (r, s') = m s in (ok r, s')

module _ {ℓ} {S A B : Type ℓ} where
  abbrev continue : Result A → (A → Exec S B) → Exec S B
  continue (ok a) f s = f a s
  continue (err e) f s = (err e, s)

  infixl 10 ◌>>=◌ ◌>>◌
  -- Opening this opens `pure`, `raise`, `lift` and `attempt` too.
  unfoldable pub ◌>>=◌ : Exec S A → (A → Exec S B) → Exec S B
  unfolding pure raise lift attempt
  ◌>>=◌ m f s = let (r, s') = m s in continue r f s'

  abbrev pub ◌>>◌ : Exec S A → Exec S B → Exec S B
  m >> n = m >>= λ _. n

module _ {ℓ} {S : Type ℓ} where
  -- `if !test { return err }`
  unfoldable pub require : Bool → Error → Exec S Unit
  require true e s = (ok tt, s)
  require false e s = (err e, s)
