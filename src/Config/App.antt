-- ===== src/Config/App.antt =====
-- internal/config/app_config.go. The printing of a connection as a URL, and the decoding of
-- base64, are parameters.
pub mod Laws
use hosthalla.Base.{
  ℕ, ℤ, pos, negsuc, ◌+◌, Bool, true, false, not, ◌&&◌, ◌||◌, List, [], ◌∷◌, ◌++◌, Option, none,
  some, length, if◌then◌else◌, ◌==◌, text_eq, nat_eq, leb, ltb, Error, failed, about, wrap, Result,
  ok, err,
}
use hosthalla.Text.{Text, Unicode, codes, trim_space, to_lower}
use hosthalla.Text.Normalize.{normalized}

pub record WebConfig : Type 0 where
  pub host : Text
  pub port : ℤ

pub record DatabaseConfig : Type 0 where
  pub driver : Text
  pub path : Text
  pub host : Text
  pub port : ℤ
  pub user : Text
  pub password : Text
  pub database : Text

pub record AppConfig : Type 0 where
  pub web : WebConfig
  pub web_origin : Text
  pub database : DatabaseConfig
  pub secret_encryption_key : Text
  pub log_level : Text

pub data Driver : Type 0 where
  sqlite postgres : Driver

pub data Level : Type 0 where
  debug info warn error : Level

abbrev pub default_log_level : Text
default_log_level = codes "warning"

abbrev pub default_web_origin : Text
default_web_origin = codes "http://localhost:8080"

abbrev pub is_zero : ℤ → Bool
is_zero (pos n) = n == 0
is_zero (negsuc n) = false

-- `DatabaseConfig.ApplyDefaults`
unfoldable pub apply_database_defaults : DatabaseConfig → DatabaseConfig
apply_database_defaults d =
    if not (trim_space d.driver == [])
    then d
    else if not (trim_space d.path == [])
    then record d { driver = codes "sqlite" }
    else if not (d.host == [])
        || not (is_zero d.port)
        || not (d.user == [])
        || not (d.password == [])
        || not (d.database == [])
    then record d { driver = codes "postgres" }
    else d

-- `strings.TrimRight(s, "/")`
unfoldable pub trim_slashes : Text → Text
trim_slashes [] = []
trim_slashes (c ∷ s) = let rest = trim_slashes s in if c == b'/' && rest == [] then [] else c ∷ rest

unfoldable pub normalize_web_origin : Text → Text
normalize_web_origin origin = trim_slashes (trim_space origin)

abbrev pub or_text : Text → Text → Text
or_text default [] = default
or_text default (c ∷ s) = c ∷ s

-- `AppConfig.ApplyDefaults`
unfoldable pub apply_defaults : AppConfig → AppConfig
apply_defaults a = record {
  web = a.web;
  web_origin = or_text default_web_origin (normalize_web_origin a.web_origin);
  database = apply_database_defaults a.database;
  secret_encryption_key = a.secret_encryption_key;
  log_level = if trim_space a.log_level == [] then default_log_level else a.log_level;
}

module _ ⦃u : Unicode⦄ where
  unfoldable pub parse_database_driver : Text → Result Driver
  parse_database_driver raw =
      let name = normalized raw in
      if name == codes "sqlite"
      then ok sqlite
      else if name == codes "postgres" || name == codes "postgresql"
      then ok postgres
      else err (about "unsupported database driver" raw)

  unfoldable pub parse_log_level : Text → Result Level
  parse_log_level raw =
      let name = normalized raw in
      if name == codes "debug"
      then ok debug
      else if name == codes "info"
      then ok info
      else if name == codes "warn" || name == codes "warning"
      then ok warn
      else if name == codes "error"
      then ok error
      else err (about "unsupported log_level" raw)

-- A port from 1 to 65535.
abbrev pub is_port : ℤ → Bool
is_port (pos n) = leb 1 n && leb n 65535
is_port (negsuc n) = false

pub record Connection : Type 0 where
  pub driver : Driver
  pub dsn : Text

module _ (sqlite_url : Text → Text) (postgres_url : DatabaseConfig → Text) where
  unfoldable pub sqlite_settings : DatabaseConfig → Result Connection
  sqlite_settings d =
      if trim_space d.path == []
      then err (failed "database.path is required for sqlite")
      else ok (record { driver = sqlite; dsn = sqlite_url (trim_space d.path) })

  unfoldable pub postgres_settings : DatabaseConfig → Result Connection
  postgres_settings d =
      if trim_space d.host == []
      then err (failed "database.host is required for postgres")
      else if not (is_port d.port)
      then err (failed "database.port must be between 1 and 65535 for postgres")
      else if trim_space d.user == []
      then err (failed "database.user is required for postgres")
      else if trim_space d.database == []
      then err (failed "database.database is required for postgres")
      else ok (record { driver = postgres; dsn = postgres_url d })

  unfoldable pub settings_of : DatabaseConfig → Driver → Result Connection
  settings_of d sqlite = sqlite_settings d
  settings_of d postgres = postgres_settings d

  unfoldable pub with_driver : DatabaseConfig → Text → Result Driver → Result Connection
  with_driver d dsn (err e) = err e
  with_driver d dsn (ok driver) =
      if trim_space dsn == []
      then settings_of d driver
      else ok (record { driver = driver; dsn = dsn })

  -- `ConnectionSettings`
  unfoldable pub connection_settings :
      ⦃u : Unicode⦄ → DatabaseConfig → Text → Text → Result Connection
  connection_settings d driver_override dsn_override = with_driver d dsn_override (
      parse_database_driver
        (if trim_space driver_override == [] then d.driver else driver_override))

unfoldable pub key_of_bytes : Option (List ℕ) → Result (List ℕ)
key_of_bytes none = err (failed "decode security.secret_encryption_key")
key_of_bytes (some value) =
    if length value == 32
    then ok value
    else err (failed "security.secret_encryption_key must decode to 32 bytes")

-- `SecretEncryptionKey`
unfoldable pub secret_encryption_key : (Text → Option (List ℕ)) → AppConfig → Result (List ℕ)
secret_encryption_key decode a =
    let encoded = trim_space a.secret_encryption_key in
    if encoded == []
    then err (failed "security.secret_encryption_key is required")
    else key_of_bytes (decode encoded)
