-- ===== src/Tests/Hosts.antt =====
-- Runs of the host service and of the agent's registration.
use mathlib.Core.Path.{subst}
use hosthalla.Base.{
  ℕ, ◌≡◌, refl, ap, true, List, [], ◌∷◌, ◌++◌, map, some, ok, err, failed, Result, ◌==◌, nat_eq,
  text_eq, arith, All, length, take, drop, driver, query, query_row, exec, store, exec_affecting,
  require, new_id, time_now, draw_random, publish, pure, lift, attempt, ◌>>=◌, sort_by,
  insert_sorted, Bool-cases, inl, inr,
}
use hosthalla.Text.{Text, codes, trim_space, trim_left, trim_right, is_space}
use hosthalla.Model.{Uuid, Host, Method, Agent, PingResult}
use hosthalla.Host.MethodRepository as MethodRepository
use hosthalla.Host.SnapshotRepository.{create_snapshot}
use hosthalla.Host.SnapshotRepository.Bounded.{IsBounded, IsCapped, create_snapshot-IsBounded}
use hosthalla.Host.Cipher.{FillsBuffer, encrypt, decrypt, decrypt-encrypt}
use hosthalla.Host.Port.{normalize_port}
use hosthalla.Host.Service.Methods.{
  KeyCodec, CreatePasswordDto, CreateKeyDto, UpdateInput, create_password_method, create_key_method,
  store_method, encrypted, publish_method_created, get_method_secret, update_method, delete_method,
  password_only, key_pair, list_methods, list_methods_by_hosts, redacted,
}
use hosthalla.Host.Service.Methods.Ownership.{
  Refused, foreign_method-Refused, delete_method-keeps_others, elsewhere,
}
use hosthalla.Host.Service.Methods.Secrecy.{
  IsRedacted, HidesSecret, create_method-IsRedacted, list_methods-HidesSecret,
}
use hosthalla.Host.Service.Methods.RoundTrip.{
  get_method_secret-create_password_method, get_method_secret-create_key_method,
}
use hosthalla.Host.Service.Ping.{
  Outcome, succeeded, judge, ping_one, ping_each, IsJudged, ping_each-IsJudged,
}
use hosthalla.Agent.Repository as Agents
use hosthalla.Agent.Repository.{agent_of_host}
use hosthalla.Agent.Service.{
  register_host_agent, register_found, get_agent_by_host_id, update_agent,
}
use hosthalla.Agent.Service.Registration.{IsRegistered, register_host_agent-IsRegistered}
use hosthalla.Tests.{
  ascii, inventory, tables, method_row, agent_row, open_aead, cipher, length-repeated, fair_random,
}

-- Snapshots.

one_each : (host_id : Uuid) → IsCapped host_id tables
one_each host_id = elim (Bool-cases (1 == host_id)) [
  | inl own ↦ rw own (omega arith)
  | inr other ↦ rw other (omega arith)
]

store-IsBounded : IsBounded inventory.tables
store-IsBounded = record {
  keys = record { distinct = (tt, tt); below = (omega arith, tt) };
  capped = one_each;
}

create_snapshot-IsBounded_example :
    IsBounded
      (create_snapshot
        (λ n. true)
        (record { host_id = 1; timestamp = 60; metrics = [] })
        inventory).1.tables
create_snapshot-IsBounded_example =
    create_snapshot-IsBounded (λ n. true) (record { host_id = 1; timestamp = 60; metrics = [] })
      inventory store-IsBounded

-- Management methods.

fills : (random : ℕ) → FillsBuffer (fair_random random)
fills k size bytes e = subst (λ l. length l ≡ size) (un_some e) (length-repeated size 7)
  where
    un_some : {a b : List ℕ} → some a ≡ some b → a ≡ b
    un_some e = cc

decrypt-encrypt_example : decrypt open_aead (7 ∷ 7 ∷ 1 ∷ []) ≡ ok (1 ∷ [])
unfolding encrypt
decrypt-encrypt_example =
    decrypt-encrypt open_aead (fair_random 0) (1 ∷ []) (7 ∷ 7 ∷ 1 ∷ []) (fills 0) refl

taken : (xs ys : List ℕ) → take (length xs) (xs ++ ys) ≡ xs
taken [] ys = refl
taken (x ∷ xs) ys = ap (λ l. x ∷ l) (taken xs ys)

dropped : (xs ys : List ℕ) → drop (length xs) (xs ++ ys) ≡ ys
dropped [] ys = refl
dropped (x ∷ xs) ys = dropped xs ys

abbrev split_key : List ℕ → Result (Text × Text)
split_key [] = err (failed "no key")
split_key (n ∷ bytes) = ok (take n bytes, drop n bytes)

pub join_key :
    (public_key private_key bytes : List ℕ)
    → ok (length public_key ∷ (public_key ++ private_key)) ≡ ok bytes
    → split_key bytes ≡ ok (public_key, private_key)
join_key p k bytes e =
    subst (λ l. split_key l ≡ ok (p, k)) (un_ok e) (rw (taken p k, dropped p k) refl)
  where
    un_ok : {a b : List ℕ} → ok a ≡ ok b → a ≡ b
    un_ok e = cc

abbrev pub codec : KeyCodec
codec = record {
  encode = λ p k. ok (length p ∷ (p ++ k));
  decode = split_key;
  decode-encode = join_key;
}

abbrev blank_input : UpdateInput
blank_input = record {
  name = codes "n";
  username = codes "u";
  password = [];
  public_key = [];
  private_key = [];
  port = 22;
  description = [];
}

foreign_method-Refused_example :
    Refused 9 3 inventory (get_method_secret cipher codec 9 3)
    × Refused 9 3 inventory (update_method cipher codec 9 3 blank_input)
    × Refused 9 3 inventory (delete_method 9 3)
unfolding nat_eq
foreign_method-Refused_example =
    foreign_method-Refused 9 3 inventory cipher codec blank_input method_row refl
      (λ e. omega (arith, e))

delete_method-keeps_others_example :
    elsewhere 1 (delete_method 1 3 inventory).1.tables.credentials
    ≡ elsewhere 1 inventory.tables.credentials
delete_method-keeps_others_example = delete_method-keeps_others 1 3 inventory (tt, tt)

abbrev password_dto : CreatePasswordDto
password_dto = record {
  name = codes "ops";
  username = codes "ops";
  password = codes "pw";
  port = 0;
  description = [];
}

abbrev key_dto : CreateKeyDto
key_dto = record {
  name = codes "ops";
  username = codes "ops";
  public_key = codes "pk";
  private_key = codes "sk";
  port = 0;
  description = [];
}

create_method-IsRedacted_example :
    All IsRedacted (create_password_method cipher codec 1 password_dto inventory).1.published
    × All IsRedacted (create_key_method cipher codec 1 key_dto inventory).1.published
create_method-IsRedacted_example =
    create_method-IsRedacted cipher codec 1 password_dto key_dto inventory tt

list_methods-HidesSecret_example :
    All HidesSecret (redacted method_row ∷ []) × All HidesSecret (redacted method_row ∷ [])
unfolding list_methods list_methods_by_hosts MethodRepository.list_methods
    MethodRepository.list_methods_by_hosts query driver pure ◌>>=◌ nat_eq sort_by insert_sorted
list_methods-HidesSecret_example =
    list_methods-HidesSecret 1 (1 ∷ []) inventory (redacted method_row ∷ [])
      (redacted method_row ∷ []) refl refl

abbrev made_password : Method
made_password = record {
  id = 10;
  host_id = 1;
  name = codes "ops";
  kind = method_row.kind;
  username = codes "ops";
  port = 22;
  secret = [];
  description = [];
  created_at = 100;
  updated_at = 100;
}

get_method_secret-create_password_method_example :
    (get_method_secret cipher codec 1 10
      (create_password_method cipher codec 1 password_dto inventory).1).0
    ≡ ok (password_only (trim_space password_dto.password))
unfolding create_password_method store_method encrypted encrypt publish_method_created
    MethodRepository.create_method MethodRepository.insert_method normalize_port draw_random new_id
    driver exec store require time_now publish pure lift ◌>>=◌ trim_space trim_left trim_right
    is_space nat_eq text_eq
get_method_secret-create_password_method_example =
    get_method_secret-create_password_method cipher codec 1 password_dto inventory
      (create_method_of (create_password_method cipher codec 1 password_dto inventory).0) fills refl
      (λ k. refl)
  where
    create_method_of : Result Method → Method
    create_method_of (ok m) = m
    create_method_of (err e) = made_password

get_method_secret-create_key_method_example :
    (get_method_secret cipher codec 1 10 (create_key_method cipher codec 1 key_dto inventory).1).0
    ≡ ok (key_pair (trim_space key_dto.public_key, trim_space key_dto.private_key))
unfolding create_key_method store_method encrypted encrypt publish_method_created
    MethodRepository.create_method MethodRepository.insert_method normalize_port draw_random new_id
    driver exec store require time_now publish pure lift ◌>>=◌ trim_space trim_left trim_right
    is_space nat_eq text_eq
get_method_secret-create_key_method_example =
    get_method_secret-create_key_method cipher codec 1 key_dto inventory
      (create_method_of (create_key_method cipher codec 1 key_dto inventory).0) fills refl
      (λ k. refl)
  where
    create_method_of : Result Method → Method
    create_method_of (ok m) = m
    create_method_of (err e) = made_password

-- Hosts and agents.

abbrev reached_host : Host
reached_host = record {
  id = 1;
  name = [];
  description = [];
  tags = [];
  ip = [];
  monitoring_agent_id = 0;
  created_at = 0;
  updated_at = 0;
}

abbrev ping_always : ℕ → Text → Outcome
ping_always started ip = succeeded

abbrev ping_result : PingResult
ping_result = record {
  host_id = 1;
  ip = [];
  is_reachable = true;
  duration = 1;
  error_message = "";
  checked_at = 102;
}

ping_each-IsJudged_example :
    (map (λ (r : PingResult). r.host_id) (ping_result ∷ [])
      ≡ map (λ (h : Host). h.id) (reached_host ∷ []))
    × All IsJudged (ping_result ∷ [])
unfolding ping_each ping_one judge time_now pure ◌>>=◌
ping_each-IsJudged_example =
    ping_each-IsJudged ping_always (reached_host ∷ []) inventory (ping_result ∷ []) refl

register_host_agent-IsRegistered_example :
    (agent_row.host_id ≡ 1)
    × IsRegistered 1 agent_row.id
        (codes "2.0")
        (register_host_agent 1 (codes "2.0") inventory).1.tables
    × ((c : Agent) → agent_of_host 1 inventory.tables ≡ some c → agent_row.id ≡ c.id)
unfolding register_host_agent register_found get_agent_by_host_id update_agent Agents.get_by_host_id
    Agents.update Agents.update_agent query_row query exec_affecting require exec store driver
    publish pure lift attempt ◌>>=◌ nat_eq
register_host_agent-IsRegistered_example =
    register_host_agent-IsRegistered 1 (codes "2.0") inventory
      (record agent_row { version = codes "2.0" }) refl
