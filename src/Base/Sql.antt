-- ===== src/Base/Sql.antt =====
-- A database behind a driver. The environment decides when a driver call fails, which identifiers
-- `uuid.New` draws, which instants `time.Now` reads and which bytes `crypto/rand` gives.
use Prim.Native.Nat.{ℕ, ◌+◌}
use Prim.Native.String.{String}
use mathlib.Core.Bool.{Bool}
use mathlib.Core.Option.{Option, none, some}
use mathlib.Core.List.{List, [], ◌∷◌, ◌++◌}
use hosthalla.Base.Effects.{
  Error, no_rows, violation, wrap, Result, ok, err, Exec, pure, lift, require, ◌>>=◌, ◌>>◌,
  value_or,
}

-- The streams are arbitrary; the counters say how much of each was used. `random k n` is what the
-- k-th read of n random bytes gives, `none` where it fails.
pub record World (I : Type 0) : Type 0 where
  pub faults : ℕ → Option Error
  pub calls : ℕ
  pub ids : ℕ → I
  pub drawn : ℕ
  pub times : ℕ → ℕ
  pub reads : ℕ
  pub random : ℕ → ℕ → Option (List ℕ)
  pub random_reads : ℕ

-- `published` is what was handed to the event bus, in order.
pub record Db (I T E : Type 0) : Type 0 where
  pub tables : T
  pub world : World I
  pub published : List E

module _ {I T E : Type 0} where
  abbrev fault : Option Error → Db I T E → Result (Unit {0}) × Db I T E
  fault none s = (ok tt, s)
  fault (some e) s = (err e, s)

  -- One call of the driver.
  unfoldable pub driver : Exec (Db I T E) Unit
  driver s =
      fault (s.world.faults s.world.calls)
        (record s { world = record s.world { calls = s.world.calls + 1 } })

  -- `uuid.New()`
  unfoldable pub new_id : Exec (Db I T E) I
  new_id s = (
    ok (s.world.ids s.world.drawn),
    record s { world = record s.world { drawn = s.world.drawn + 1 } },
  )

  -- `time.Now()`
  unfoldable pub time_now : Exec (Db I T E) ℕ
  time_now s = (
    ok (s.world.times s.world.reads),
    record s { world = record s.world { reads = s.world.reads + 1 } },
  )

  -- What the next read of random bytes gives, as a function of its size.
  unfoldable pub draw_random : Exec (Db I T E) (ℕ → Option (List ℕ))
  draw_random s = (
    ok (s.world.random s.world.random_reads),
    record s { world = record s.world { random_reads = s.world.random_reads + 1 } },
  )

  -- `eventBus.Publish`; the code logs its error and goes on.
  unfoldable pub publish : E → Exec (Db I T E) Unit
  publish e s = (ok tt, record s { published = s.published ++ e ∷ [] })

module _ {I T E A : Type 0} where
  abbrev pub get_tables : (T → A) → Exec (Db I T E) A
  get_tables f s = (ok (f s.tables), s)

  -- A query: a driver call, and an answer from the tables.
  unfoldable pub query : (T → A) → Exec (Db I T E) A
  query f = do driver; get_tables f

module _ {I T E A : Type 0} where
  -- `QueryRow(...).Scan(...)`: no row is `sql.ErrNoRows`.
  unfoldable pub query_row : (T → Option A) → Exec (Db I T E) A
  query_row f = do found ← query f; lift (value_or no_rows found)

module _ {I T E : Type 0} where
  unfoldable pub store : (T → Option T) → Exec (Db I T E) Unit
  store f s = elim (f s.tables) [
    | none ↦ (err violation, s)
    | some t ↦ (ok tt, record s { tables = t })
  ]

  -- A statement. `none` means that a constraint of the schema fails, which changes nothing.
  unfoldable pub exec : (T → Option T) → Exec (Db I T E) Unit
  exec f = do driver; store f

  -- An `update` or `delete` with `requireAffected`: no row touched is an error, found
  -- by `RowsAffected` after the statement ran.
  unfoldable pub exec_affecting : String → (T → Bool) → (T → Option T) → Exec (Db I T E) Unit
  exec_affecting message touched f s =
      (do exec f; driver; require (touched s.tables) (wrap message no_rows)) s

module _ {I T E A : Type 0} where
  abbrev pub rollback : T → Result A → Db I T E → Result A × Db I T E
  rollback before (ok a) s = (ok a, s)
  rollback before (err e) s = (err e, record s { tables = before })

  unfoldable pub framed : Exec (Db I T E) A → Exec (Db I T E) A
  framed body = do driver; a ← body; driver; pure a

  -- `BeginTx`, the body, `Commit`, and the deferred `Rollback` where one of them fails.
  unfoldable pub transaction : Exec (Db I T E) A → Exec (Db I T E) A
  transaction body s = let (r, s') = framed body s in rollback s.tables r s'
