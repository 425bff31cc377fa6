-- ===== src/Tests.antt =====
-- The data that the tests run on: a world in which nothing fails, a cipher that adds a nonce, and
-- a store with one host, one agent, one method and one snapshot.
pub mod Texts
pub mod Users
pub mod Hosts
pub mod Requests
pub mod Live
pub mod Pages
use hosthalla.Base.{
  ℕ, zero, suc, ◌+◌, ◌≡◌, refl, Bool, true, List, [], ◌∷◌, ◌++◌, Option, none, some, ok, Error,
  World, Db, length, arith,
}
use hosthalla.Text.{Text, Unicode, codes, is_space, lower_with}
use hosthalla.Model.{Uuid, Host, Method, ssh_password, Agent, Event}
use hosthalla.Schema.{HostRow, SnapshotRow, Tables, Inventory}
use hosthalla.Auth.Tables.{AuthTables, AuthDb, Profile}
use hosthalla.Host.Cipher.{Aead, SecretCipher, aes_gcm_cipher}
use hosthalla.Host.Service.Methods.{KeyCodec}

pub ascii_folded : (c : ℕ) → lower_with (λ c. c) (lower_with (λ c. c) c) ≡ lower_with (λ c. c) c
ascii_folded c = ground arith

pub ascii_keeps_space : (c : ℕ) → is_space (lower_with (λ c. c) c) ≡ is_space c
unfolding is_space
ascii_keeps_space c = ground arith

-- Only ASCII has a lower case.
instance unfoldable pub ascii : Unicode
ascii = record { wide = λ c. c; folded = ascii_folded; keeps_space = ascii_keeps_space }

abbrev pub repeated : ℕ → ℕ → List ℕ
repeated zero b = []
repeated (suc n) b = b ∷ repeated n b

pub length-repeated : (n b : ℕ) → length (repeated n b) ≡ n
length-repeated zero b = refl
length-repeated (suc n) b = omega (arith, length-repeated n b)

abbrev pub fair_random : ℕ → ℕ → Option (List ℕ)
fair_random k n = some (repeated n 7)

-- The identifiers are 10, 11, and so on, and the clock ticks from 100.
abbrev pub quiet_world : World Uuid
quiet_world = record {
  faults = λ k. none;
  calls = 0;
  ids = λ k. k + 10;
  drawn = 0;
  times = λ k. k + 100;
  reads = 0;
  random = fair_random;
  random_reads = 0;
}

abbrev pub text_world : World Text
text_world = record {
  faults = λ k. none;
  calls = 0;
  ids = λ k. (k + 97) ∷ [];
  drawn = 0;
  times = λ k. k + 100;
  reads = 0;
  random = fair_random;
  random_reads = 0;
}

abbrev pub host_row : HostRow
host_row = record {
  id = 1;
  name = codes "web";
  description = [];
  ip = codes "10.0.0.1";
  monitoring_agent_id = none;
  created_at = 5;
  updated_at = 5;
}

abbrev pub method_row : Method
method_row = record {
  id = 3;
  host_id = 1;
  name = codes "root";
  kind = ssh_password;
  username = codes "root";
  port = 22;
  secret = 1 ∷ 2 ∷ [];
  description = [];
  created_at = 6;
  updated_at = 6;
}

abbrev pub agent_row : Agent
agent_row = record { id = 2; host_id = 1; version = codes "1.0"; created_at = 7; last_seen_at = 7 }

abbrev pub tables : Tables
tables = record {
  hosts = host_row ∷ [];
  tags = [];
  host_tags = [];
  credentials = method_row ∷ [];
  agents = agent_row ∷ [];
  agent_configs = [];
  system_infos = [];
  gpus = [];
  snapshots = record { id = 1; host_id = 1; timestamp = 50 } ∷ [];
  metrics = [];
  next_snapshot = 2;
}

abbrev pub inventory : Inventory
inventory = record { tables = tables; world = quiet_world; published = [] }

abbrev pub profile : Profile
profile = record { id = codes "p"; username = codes "ann"; created_at = 1; updated_at = 1 }

abbrev pub auth_db : AuthDb
auth_db = record {
  tables = record { profiles = profile ∷ []; passwords = []; sessions = []; tokens = [] };
  world = text_world;
  published = [];
}

-- Not a cipher that hides anything: the seal is the plain text.
abbrev pub open_aead : Aead
open_aead = record {
  nonce_size = 2;
  seal = λ nonce plain. plain;
  unseal = λ nonce sealed. some sealed;
  unseal-seal = λ nonce plain. refl;
}

abbrev pub cipher : SecretCipher
cipher = aes_gcm_cipher open_aead

abbrev pub parse_any : Text → Option Uuid
parse_any t = some 1
