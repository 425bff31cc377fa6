-- ===== src/Tests/Requests.antt =====
-- Runs of the handlers and of the configuration.
use hosthalla.Base.{
  ℤ, pos, ◌≡◌, ◌≢◌, refl, [], ◌∷◌, map, Option, none, some, ok, ◌==◌, nat_eq, text_eq, arith,
  driver, query, query_row, exec, store, exec_affecting, require, time_now, publish, pure, lift,
  attempt, ◌>>=◌, transaction, framed, sort_by, if◌then◌else◌,
}
use hosthalla.Base.Inversion.{Frame}
use hosthalla.Text.{Text, codes, trim_space, trim_left, trim_right, is_space, to_lower}
use hosthalla.Text.Normalize.{normalized, normalize_loop}
use hosthalla.Model.{AgentConfig}
use hosthalla.Auth.Tables.{ApiToken}
use hosthalla.Host.HostRepository as HostRepository
use hosthalla.Host.Service.Hosts.{
  get_host_by_id, assign_monitoring_agent, update_host, normalize_tags,
}
use hosthalla.Agent.Repository as Agents
use hosthalla.Agent.Service.{
  register_host_agent, register_found, get_agent_by_host_id, update_agent,
}
use hosthalla.Api.Hosts.{
  register_agent, register_allowed, register_decoded, register_version, assign_registered, assigned,
  has_scope, parse_and_ensure_host_exists, ensure_parsed, lookup_result,
}
use hosthalla.Api.Registration.{IsServed, register_agent-IsServed}
use hosthalla.Api.Rejection.{register_agent-rejected}
use hosthalla.Config.App.{
  DatabaseConfig, connection_settings, with_driver, settings_of, sqlite_settings,
  parse_database_driver, sqlite, Connection,
}
use hosthalla.Config.App.Laws.{IsComplete, connection_settings-IsComplete}
use hosthalla.Config.AgentFile.{
  FileConfig, to_agent_config, with_id, with_heartbeat, with_metrics, parse_interval_or_default,
  LoadedConfig, load_configs, checked_configs, collect, duplicates, same_key, normalized_endpoint,
}
use hosthalla.Config.AgentFile.Laws.{
  IsUsable, to_agent_config-IsUsable, IsDistinct, load_configs_lem,
}
use hosthalla.Tests.{ascii, inventory, parse_any}

abbrev register_token : ApiToken
register_token = record {
  id = codes "t";
  profile_id = codes "p";
  name = codes "ci";
  prefix = [];
  hash = codes "h";
  scopes = codes "hosts:register" ∷ [];
  last_used_at = none;
  created_at = 1;
  expires_at = none;
  revoked_at = none;
}

register_agent-rejected_example :
    Frame inventory (register_agent parse_any none (codes "x") (some (codes "2.0")) inventory).1
unfolding register_agent pure
register_agent-rejected_example =
    register_agent-rejected 401 "unauthorized" parse_any none (codes "x") (some (codes "2.0"))
      inventory refl (λ e. omega (arith, e))

register_agent-IsServed_example :
    IsServed parse_any register_token.scopes
      (codes "x")
      (some (codes " 2.0"))
      2
      1
      (codes "2.0")
      (register_agent parse_any
        (some register_token)
        (codes "x")
        (some (codes " 2.0"))
        inventory).1.tables
unfolding register_agent register_allowed register_decoded register_version assign_registered
    assigned has_scope parse_and_ensure_host_exists ensure_parsed lookup_result get_host_by_id
    assign_monitoring_agent update_host normalize_tags normalize_loop HostRepository.get_host_by_id
    HostRepository.list_tag_names HostRepository.tag_names HostRepository.update_host
    HostRepository.update_host_body HostRepository.update_host_row HostRepository.sync_host_tags
    HostRepository.sync_host_tag_loop HostRepository.clear_host_tags register_host_agent
    register_found get_agent_by_host_id update_agent Agents.get_by_host_id Agents.update
    Agents.update_agent query_row query exec_affecting require exec store driver time_now
    transaction framed publish pure lift attempt sort_by ◌>>=◌ normalized to_lower trim_space
    trim_left trim_right is_space ascii nat_eq text_eq
register_agent-IsServed_example =
    register_agent-IsServed parse_any register_token (codes "x") (some (codes " 2.0")) inventory 2 1
      (codes "2.0") refl

abbrev database : DatabaseConfig
database = record {
  driver = codes "SQLite";
  path = codes " /db ";
  host = [];
  port = pos 0;
  user = [];
  password = [];
  database = [];
}

abbrev connection : Connection
connection = record { driver = sqlite; dsn = codes "/db" }

connection_settings-IsComplete_example :
    (parse_database_driver (if trim_space [] == [] then database.driver else []) ≡ ok sqlite)
    × (trim_space [] ≢ [] → connection.dsn ≡ [])
    × (trim_space [] ≡ [] → IsComplete database sqlite)
unfolding connection_settings with_driver settings_of sqlite_settings parse_database_driver
    normalized to_lower trim_space trim_left trim_right is_space ascii nat_eq text_eq
connection_settings-IsComplete_example =
    connection_settings-IsComplete (λ path. path) (λ d. []) database [] [] connection refl

abbrev file : FileConfig
file = record {
  agent_id = codes "id";
  host = codes "h";
  scheme = codes "https";
  api_key = codes "k";
  heartbeat = codes "1s";
  metrics = [];
  version = pos 0;
}

abbrev parse_second : Text → Option ℤ
parse_second t = some (pos 1000000000)

abbrev file_agent : AgentConfig
file_agent = record {
  id = 0;
  agent_id = 1;
  host = codes "h";
  scheme = codes "https";
  api_key = codes "k";
  heartbeat_interval = pos 1000000000;
  metrics_interval = pos 4000000000;
  version = pos 1;
}

to_agent_config-IsUsable_example :
    IsUsable file_agent × (parse_any (trim_space file.agent_id) ≡ some 1)
unfolding to_agent_config with_id with_heartbeat with_metrics parse_interval_or_default trim_space
    trim_left trim_right is_space nat_eq text_eq
to_agent_config-IsUsable_example =
    to_agent_config-IsUsable parse_any parse_second file file_agent refl

abbrev loaded : LoadedConfig
loaded = record { name = codes "a"; path = codes "/a.yaml"; config = file_agent }

abbrev loaded_other : LoadedConfig
loaded_other = record {
  name = codes "b";
  path = codes "/b.yaml";
  config = record file_agent { agent_id = 2 };
}

load_configs_lem_example :
    (ok loaded ∷ ok loaded_other ∷ [] ≡ map ok (loaded ∷ loaded_other ∷ []))
    × (loaded ∷ loaded_other ∷ [] ≢ [])
    × IsDistinct (loaded ∷ loaded_other ∷ [])
unfolding load_configs checked_configs collect duplicates same_key normalized_endpoint normalized
    to_lower trim_space trim_left trim_right is_space ascii nat_eq text_eq
load_configs_lem_example =
    load_configs_lem (ok loaded ∷ ok loaded_other ∷ []) (loaded ∷ loaded_other ∷ []) refl
