-- ===== src/Config/App/Laws.antt =====
-- The defaults of the configuration, and when it names a database.
use hosthalla.Base.{
  ◌≡◌, ◌≢◌, refl, sym, ap, ◌∙◌, Bool, true, false, not, ◌||◌, [], if◌then◌else◌, ◌==◌, text_eq,
  nat_eq, arith, Bool-cases, inl, inr, eq_of_==, ◌⊎◌, Result, ok, err,
}
use hosthalla.Text.{Text, Unicode, codes, trim_space, trim_left, trim_right, is_space}
use hosthalla.Config.App.{
  DatabaseConfig, apply_database_defaults, Connection, connection_settings, settings_of,
  sqlite_settings, postgres_settings, with_driver, Driver, sqlite, postgres, parse_database_driver,
  is_port, is_zero,
}

sqlite_filled : (trim_space (codes "sqlite") == []) ≡ false
unfolding trim_space trim_left trim_right is_space nat_eq text_eq
sqlite_filled = refl

postgres_filled : (trim_space (codes "postgres") == []) ≡ false
unfolding trim_space trim_left trim_right is_space nat_eq text_eq
postgres_filled = refl

-- A configuration whose driver is not blank is left alone.
defaults_of_filled :
    (d : DatabaseConfig) → (trim_space d.driver == []) ≡ false → apply_database_defaults d ≡ d
unfolding apply_database_defaults
defaults_of_filled d filled = ground arith

defaults-cases :
    (d : DatabaseConfig)
    → (apply_database_defaults d ≡ d)
      ⊎ ((apply_database_defaults d ≡ record d { driver = codes "sqlite" })
          ⊎ (apply_database_defaults d ≡ record d { driver = codes "postgres" }))
unfolding apply_database_defaults
defaults-cases d = pick (not (trim_space d.driver == [])) (not (trim_space d.path == [])) (
    not (d.host == [])
    || not (is_zero d.port)
    || not (d.user == [])
    || not (d.password == [])
    || not (d.database == []))
  where
    pick :
        (a b c : Bool)
        → let e =
            if a
            then d
            else if b
            then record d { driver = codes "sqlite" }
            else if c
            then record d { driver = codes "postgres" }
            else d in
          (e ≡ d)
          ⊎ ((e ≡ record d { driver = codes "sqlite" })
              ⊎ (e ≡ record d { driver = codes "postgres" }))
    pick true b c = inl refl
    pick false true c = inr (inl refl)
    pick false false true = inr (inr refl)
    pick false false false = inl refl

driver_named :
    (d : DatabaseConfig)
    → (trim_space d.path == []) ≡ false
    → trim_space (apply_database_defaults d).driver ≢ []
unfolding apply_database_defaults
driver_named d h e = elim (Bool-cases (trim_space d.driver == [])) [
  | inl blank ↦ ground (arith, sqlite_filled)
  | inr filled ↦ ground arith
]

-- The defaults of the database are applied once: a second time changes nothing. A driver is set
-- whenever a path is, and one that was set stays.
pub apply_database_defaults_lem :
    (d : DatabaseConfig)
    → (apply_database_defaults (apply_database_defaults d) ≡ apply_database_defaults d)
      × (trim_space d.path ≢ [] → trim_space (apply_database_defaults d).driver ≢ [])
      × (trim_space d.driver ≢ [] → apply_database_defaults d ≡ d)
apply_database_defaults_lem d = (once, named, λ h. defaults_of_filled d (ground arith))
  where
    once : apply_database_defaults (apply_database_defaults d) ≡ apply_database_defaults d
    once = elim (defaults-cases d) [
      | inl e ↦ ap apply_database_defaults e
      | inr (inl e) ↦ rw e (defaults_of_filled _ sqlite_filled)
      | inr (inr e) ↦ rw e (defaults_of_filled _ postgres_filled)
    ]

    named : trim_space d.path ≢ [] → trim_space (apply_database_defaults d).driver ≢ []
    named h = driver_named d (ground arith)

-- What a connection rests on.
pub record IsComplete (d : DatabaseConfig) (driver : Driver) : Type 0 where
  pub for_sqlite : driver ≡ sqlite → trim_space d.path ≢ []
  pub for_postgres :
      driver ≡ postgres
      → (trim_space d.host ≢ [])
        × (is_port d.port ≡ true)
        × (trim_space d.user ≢ [])
        × (trim_space d.database ≢ [])

module _ ⦃u : Unicode⦄ (sqlite_url : Text → Text) (postgres_url : DatabaseConfig → Text) where
  settings_of-IsComplete :
      (d : DatabaseConfig) (driver : Driver) (c : Connection)
      → settings_of sqlite_url postgres_url d driver ≡ ok c
      → (c.driver ≡ driver) × IsComplete d driver
  unfolding settings_of sqlite_settings postgres_settings
  settings_of-IsComplete d sqlite c e = ground arith
  settings_of-IsComplete d postgres c e = ground arith

  -- `ConnectionSettings` fails unless a driver is named, by the override or the configuration; it
  -- then uses the DSN of the override as it is, or else asks that the configuration be complete.
  pub connection_settings-IsComplete :
      (d : DatabaseConfig) (driver_override dsn_override : Text) (c : Connection)
      → connection_settings sqlite_url postgres_url d driver_override dsn_override ≡ ok c
      → (parse_database_driver
            (if trim_space driver_override == [] then d.driver else driver_override)
          ≡ ok c.driver)
        × (trim_space dsn_override ≢ [] → c.dsn ≡ dsn_override)
        × (trim_space dsn_override ≡ [] → IsComplete d c.driver)
  unfolding connection_settings with_driver
  connection_settings-IsComplete d driver_override dsn_override c e = go _ refl e
    where
      go :
          (r : Result Driver)
          → parse_database_driver
              (if trim_space driver_override == [] then d.driver else driver_override)
            ≡ r
          → with_driver sqlite_url postgres_url d dsn_override r ≡ ok c
          → (parse_database_driver
                (if trim_space driver_override == [] then d.driver else driver_override)
              ≡ ok c.driver)
            × (trim_space dsn_override ≢ [] → c.dsn ≡ dsn_override)
            × (trim_space dsn_override ≡ [] → IsComplete d c.driver)
      go (err x) same h = ground arith
      go (ok driver) same h = elim (Bool-cases (trim_space dsn_override == [])) [
        | inl blank ↦
            let (named, whole) = settings_of-IsComplete d driver c (ground arith) in
            (
              same ∙ ap ok (sym named),
              λ filled. absurd (filled (eq_of_== _ _ blank)),
              λ _. rw named whole,
            )
        | inr filled ↦ (same ∙ ground arith, λ _. ground arith, λ blank. ground arith)
      ]
