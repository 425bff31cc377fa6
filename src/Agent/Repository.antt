-- ===== src/Agent/Repository.antt =====
-- internal/agent/sqlite/repositories.go
use hosthalla.Base.{
  ℕ, zero, suc, ◌-◌, ◌*◌, ◌/◌, ℤ, pos, negsuc, Bool, not, ◌&&◌, ◌||◌, List, [], ◌∷◌, ◌++◌, Option,
  none, some, any, find_row, update_rows, if◌then◌else◌, ◌==◌, nat_eq, ltb, no_rows, Result, ok,
  err, pure, raise, attempt, ◌>>=◌, ◌>>◌, query, query_row, exec, exec_affecting, new_id, time_now,
  sort_by, ◌+◌, get_tables, lift, value_or, wrap,
}
use hosthalla.Text.{Text}
use hosthalla.Model.{Uuid, Agent, AgentConfig}
use hosthalla.Schema.{ConfigRow, Tables, Run, has_host, has_agent}
use hosthalla.Host.HostRepository.{cascade_agents}

-- `insert into agent`: the host exists and has no agent yet.
unfoldable pub insert_agent : Agent → Tables → Option Tables
insert_agent a t =
    if any (λ (b : Agent). b.id == a.id || b.host_id == a.host_id) t.agents
      || not (has_host a.host_id t)
    then none
    else some (record t { agents = t.agents ++ a ∷ [] })

abbrev pub agent_of : Uuid → Text → Uuid → ℕ → Agent
agent_of host_id version id now = record {
  id = id;
  host_id = host_id;
  version = version;
  created_at = now;
  last_seen_at = now;
}

unfoldable pub create : Uuid → Text → Run Agent
create host_id version = do
  now ← time_now
  id ← new_id
  exec (insert_agent (agent_of host_id version id now))
  pure (agent_of host_id version id now)

-- `order by created_at desc`
abbrev pub newer_agent : Agent → Agent → Bool
newer_agent a b = ltb b.created_at a.created_at

unfoldable pub list : Run (List Agent)
list = query (λ t. sort_by newer_agent t.agents)

abbrev pub agent_with_id : Uuid → Tables → Option Agent
agent_with_id id t = find_row (λ (a : Agent). a.id == id) t.agents

abbrev pub agent_of_host : Uuid → Tables → Option Agent
agent_of_host host_id t = find_row (λ (a : Agent). a.host_id == host_id) t.agents

unfoldable pub get_by_id : Uuid → Run Agent
get_by_id id = query_row (agent_with_id id)

unfoldable pub get_by_host_id : Uuid → Run Agent
get_by_host_id host_id = query_row (agent_of_host host_id)

-- `update agent set host_id = ?, version = ? where id = ?`
unfoldable pub update_agent : Agent → Tables → Option Tables
update_agent a t =
    if not (has_agent a.id t)
    then some t
    else if any (λ (b : Agent). not (b.id == a.id) && b.host_id == a.host_id) t.agents
        || not (has_host a.host_id t)
    then none
    else some (record t {
      agents =
          update_rows (λ (b : Agent). b.id == a.id)
            (λ b. record b { host_id = a.host_id; version = a.version }) t.agents;
    })

unfoldable pub update : Agent → Run Unit
update a = exec_affecting "agent not found" (has_agent a.id) (update_agent a)

unfoldable pub delete : Uuid → Run Unit
delete id =
    exec_affecting "agent not found" (has_agent id)
      (λ t. some (cascade_agents (λ (a : Agent). a.id == id) t))

unfoldable pub touch : Uuid → ℕ → Tables → Option Tables
touch id seen t = some (record t {
  agents = update_rows (λ (a : Agent). a.id == id) (λ a. record a { last_seen_at = seen }) t.agents;
})

unfoldable pub update_last_seen_at : Uuid → ℕ → Run Unit
update_last_seen_at id seen = exec_affecting "agent not found" (has_agent id) (touch id seen)

-- Nanoseconds in a second.
abbrev pub second : ℕ
second = 1000000000

abbrev pub negated : ℕ → ℤ
negated zero = pos zero
negated (suc n) = negsuc n

-- `int(d / time.Second)`: division of signed numbers, towards 0.
unfoldable pub seconds_of : ℤ → ℤ
seconds_of (pos n) = pos (n / second)
seconds_of (negsuc n) = negated ((n + 1) / second)

-- `time.Duration(n) * time.Second`, where the product fits 64 bits.
unfoldable pub duration_of : ℤ → ℤ
duration_of (pos n) = pos (n * second)
duration_of (negsuc n) = negsuc (n * second + (second - 1))

-- `agent.NewAgentConfig`: 2 and 4 seconds.
abbrev pub default_heartbeat_interval : ℤ
default_heartbeat_interval = pos (2 * second)

abbrev pub default_metrics_interval : ℤ
default_metrics_interval = pos (4 * second)

abbrev pub or_default : ℤ → ℤ → ℤ
or_default default (pos zero) = default
or_default default (pos (suc n)) = pos (suc n)
or_default default (negsuc n) = negsuc n

-- The value that `AgentConfigRepositorySQLiteImpl.Create` returns.
abbrev pub config_of : Uuid → ℤ → ℤ → ℤ → Uuid → AgentConfig
config_of agent_id heartbeat metrics version id = record {
  id = id;
  agent_id = agent_id;
  host = [];
  scheme = [];
  api_key = [];
  heartbeat_interval = or_default default_heartbeat_interval heartbeat;
  metrics_interval = or_default default_metrics_interval metrics;
  version = or_default (pos 1) version;
}

abbrev pub row_of_config : AgentConfig → ConfigRow
row_of_config c = record {
  id = c.id;
  agent_id = c.agent_id;
  heartbeat_interval_seconds = seconds_of c.heartbeat_interval;
  metrics_interval_seconds = seconds_of c.metrics_interval;
  version = c.version;
}

-- `insert into agent_config`
unfoldable pub insert_config : ConfigRow → Tables → Option Tables
insert_config c t =
    if any (λ (d : ConfigRow). d.id == c.id || d.agent_id == c.agent_id) t.agent_configs
      || not (has_agent c.agent_id t)
    then none
    else some (record t { agent_configs = t.agent_configs ++ c ∷ [] })

unfoldable pub create_config : Uuid → ℤ → ℤ → ℤ → Run AgentConfig
create_config agent_id heartbeat metrics version = do
  id ← new_id
  exec (insert_config (row_of_config (config_of agent_id heartbeat metrics version id)))
  pure (config_of agent_id heartbeat metrics version id)

-- `scanAgentConfig`
abbrev pub config_of_row : ConfigRow → AgentConfig
config_of_row c = record {
  id = c.id;
  agent_id = c.agent_id;
  host = [];
  scheme = [];
  api_key = [];
  heartbeat_interval = duration_of c.heartbeat_interval_seconds;
  metrics_interval = duration_of c.metrics_interval_seconds;
  version = c.version;
}

abbrev pub config_row : Uuid → Tables → Option ConfigRow
config_row agent_id t = find_row (λ (c : ConfigRow). c.agent_id == agent_id) t.agent_configs

-- A missing configuration is made with the defaults; any other error is passed on.
unfoldable pub config_or_new : Uuid → Result ConfigRow → Run AgentConfig
config_or_new agent_id (ok row) = pure (config_of_row row)
config_or_new agent_id (err no_rows) = create_config agent_id (pos 0) (pos 0) (pos 1)
config_or_new agent_id (err e) = raise e

unfoldable pub get_config_by_agent_id : Uuid → Run AgentConfig
get_config_by_agent_id agent_id = do
  found ← attempt (query_row (config_row agent_id))
  config_or_new agent_id found

-- `update agent_config set ... where id = ? returning agent_id`
unfoldable pub update_config_row : AgentConfig → Tables → Option Tables
update_config_row c t = some (record t {
  agent_configs =
      update_rows (λ (d : ConfigRow). d.id == c.id)
        (λ d. record (row_of_config c) { agent_id = d.agent_id }) t.agent_configs;
})

abbrev config_with_id : Uuid → Tables → Option ConfigRow
config_with_id id t = find_row (λ (d : ConfigRow). d.id == id) t.agent_configs

-- `AgentConfigRepositorySQLiteImpl.Update`, which gives the value back with the `AgentID` that Go
-- writes through the pointer.
unfoldable pub update_config : AgentConfig → Run AgentConfig
update_config c = do
  before ← get_tables (config_with_id c.id)
  exec (update_config_row c)
  row ← lift (value_or (wrap "agent config not found" no_rows) before)
  pure (record c { agent_id = row.agent_id })
