-- ===== src/Api/Agents.antt =====
-- internal/api/handlers/agents.go
use hosthalla.Base.{
  ℕ, ℤ, String, Bool, [], ◌∷◌, Option, none, some, if◌then◌else◌, ◌==◌, text_eq, Error, is_no_rows,
  Result, ok, err, pure, attempt, ◌>>=◌, time_now,
}
use hosthalla.Text.{Text}
use hosthalla.Model.{Uuid, Agent, AgentConfig, Metric, Snapshot}
use hosthalla.Schema.{Run}
use hosthalla.Agent.Service.{get_by_id, update_last_seen_at, get_config_by_agent_id}
use hosthalla.Agent.Repository.{seconds_of}
use hosthalla.Host.Service.Metrics.{create_snapshot}

pub data Reply : Type 0 where
  replied : ℕ → String → Reply
  heartbeat_reply : ℤ → Reply
  config_reply : ℤ → ℤ → ℤ → Reply
  accepted : Reply

abbrev internal_error : Reply
internal_error = replied 500 "internal server error"

unfoldable pub lookup_failure : Error → Reply
lookup_failure e = if is_no_rows e then replied 404 "agent not found" else internal_error

-- The start of the three handlers: the header, its uuid and the agent.
unfoldable pub with_agent : (Agent → Run Reply) → Result Agent → Run Reply
with_agent handle (err e) = pure (lookup_failure e)
with_agent handle (ok current) = handle current

unfoldable pub with_parsed : (Uuid → Agent → Run Reply) → Option Uuid → Run Reply
with_parsed handle none = pure (replied 400 "failed to parse agent_id")
with_parsed handle (some agent_id) = do
  current ← attempt (get_by_id agent_id)
  with_agent (handle agent_id) current

unfoldable pub reply_version : Result AgentConfig → Run Reply
reply_version (err _) = pure internal_error
reply_version (ok config) = pure (heartbeat_reply config.version)

unfoldable pub after_seen : Uuid → Result (Unit {0}) → Run Reply
after_seen agent_id (err _) = pure internal_error
after_seen agent_id (ok _) = do
  config ← attempt (get_config_by_agent_id agent_id)
  reply_version config

unfoldable pub heartbeat : Uuid → Agent → Run Reply
heartbeat agent_id current = do
  now ← time_now
  seen ← attempt (update_last_seen_at current now)
  after_seen agent_id seen

unfoldable pub reply_config : Result AgentConfig → Run Reply
reply_config (err _) = pure internal_error
reply_config (ok config) = pure (
    config_reply config.version (seconds_of config.heartbeat_interval)
      (seconds_of config.metrics_interval))

unfoldable pub send_config : Uuid → Agent → Run Reply
send_config agent_id current = do
  config ← attempt (get_config_by_agent_id agent_id)
  reply_config config

unfoldable pub saved : Result Snapshot → Reply
saved (err _) = internal_error
saved (ok _) = accepted

-- `metric` is the decoded body; the snapshot is stored under the agent's host.
unfoldable pub store_metric : (ℕ → Bool) → Option Metric → Uuid → Agent → Run Reply
store_metric not_negative none agent_id current = pure (replied 400 "invalid request body")
store_metric not_negative (some metric) agent_id current = do
  now ← time_now
  done ← attempt (
      create_snapshot not_negative
        (record { host_id = current.host_id; timestamp = now; metrics = metric ∷ [] }))
  pure (saved done)

module _ (parse_uuid : Text → Option Uuid) where
  unfoldable pub guarded : (Uuid → Agent → Run Reply) → Text → Run Reply
  guarded handle header =
      if header == []
      then pure (replied 400 "agent_id is required")
      else with_parsed handle (parse_uuid header)

  unfoldable pub handle_heartbeat : Text → Run Reply
  handle_heartbeat = guarded heartbeat

  unfoldable pub get_config : Text → Run Reply
  get_config = guarded send_config

  unfoldable pub handle_metrics : (ℕ → Bool) → Option Metric → Text → Run Reply
  handle_metrics not_negative metric = guarded (store_metric not_negative metric)
