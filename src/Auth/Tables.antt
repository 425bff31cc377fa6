-- ===== src/Auth/Tables.antt =====
-- internal/authentication/model.go, and the tables `profile`, `password_authentication`, `session`
-- and `api_token` of migrations/sqlite/20260803121000_baseline.up.sql. An identifier is the text
-- of a uuid. The scopes are kept as the list that their JSON text encodes.
use hosthalla.Base.{ℕ, Bool, List, Option, Db, Exec, any, ◌==◌, text_eq}
use hosthalla.Text.{Text}

pub record Profile : Type 0 where
  pub id : Text
  pub username : Text
  pub created_at : ℕ
  pub updated_at : ℕ

pub record PasswordAuthentication : Type 0 where
  pub password_hash : Text
  pub created_at : ℕ
  pub updated_at : ℕ

pub record Session : Type 0 where
  pub id : Text
  pub profile_id : Text
  pub created_at : ℕ
  pub updated_at : ℕ

pub record ApiToken : Type 0 where
  pub id : Text
  pub profile_id : Text
  pub name : Text
  pub prefix : Text
  pub hash : Text
  pub scopes : List Text
  pub last_used_at : Option ℕ
  pub created_at : ℕ
  pub expires_at : Option ℕ
  pub revoked_at : Option ℕ

-- A row of `password_authentication`.
pub record PasswordRow : Type 0 where
  pub id : Text
  pub profile_id : Text
  pub password_hash : Text
  pub created_at : ℕ
  pub updated_at : ℕ

pub record AuthTables : Type 0 where
  pub profiles : List Profile
  pub passwords : List PasswordRow
  pub sessions : List Session
  pub tokens : List ApiToken

-- This part of the program publishes nothing.
abbrev pub AuthDb : Type 0
AuthDb = Db Text AuthTables Unit

abbrev pub AuthRun : Type 0 → Type 0
AuthRun A = Exec AuthDb A

abbrev pub has_profile : Text → AuthTables → Bool
has_profile id t = any (λ (p : Profile). p.id == id) t.profiles
