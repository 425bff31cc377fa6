-- ===== src/Agent/Service.antt =====
-- internal/agent/service.go, the service of the server's side.
pub mod Registration
use hosthalla.Base.{
  ℕ, Bool, true, false, List, Error, is_no_rows, Result, ok, err, pure, raise, attempt, ◌>>=◌, ◌>>◌,
  publish, if◌then◌else◌,
}
use hosthalla.Text.{Text}
use hosthalla.Model.{
  Uuid, Agent, AgentConfig, agent_registered, agent_updated, agent_deleted, agent_seen,
}
use hosthalla.Schema.{Run}
use hosthalla.Agent.Repository

unfoldable pub get_by_id : Uuid → Run Agent
get_by_id = Repository.get_by_id

unfoldable pub list_agents : Run (List Agent)
list_agents = Repository.list

unfoldable pub get_agent_by_host_id : Uuid → Run Agent
get_agent_by_host_id = Repository.get_by_host_id

unfoldable pub create_agent : Uuid → Text → Run Agent
create_agent host_id version = do
  created ← Repository.create host_id version
  publish (agent_registered created.id created.host_id)
  pure created

unfoldable pub update_agent : Agent → Run Unit
update_agent target = do Repository.update target; publish (agent_updated target)

unfoldable pub delete_agent : Uuid → Run Unit
delete_agent id = do Repository.delete id; publish (agent_deleted id)

unfoldable pub update_last_seen_at : Agent → ℕ → Run Unit
update_last_seen_at current seen = do
  Repository.update_last_seen_at current.id seen
  publish (agent_seen current.id current.host_id)

-- What `RegisterHostAgent` does with the host's agent, or with the error of the lookup.
unfoldable pub register_found : Uuid → Text → Result Agent → Run Agent
register_found host_id version (ok current) = do
  update_agent (record current { version = version })
  pure (record current { version = version })
register_found host_id version (err e) =
    if is_no_rows e then create_agent host_id version else raise e

unfoldable pub register_host_agent : Uuid → Text → Run Agent
register_host_agent host_id version = do
  found ← attempt (get_agent_by_host_id host_id)
  register_found host_id version found

unfoldable pub get_config_by_agent_id : Uuid → Run AgentConfig
get_config_by_agent_id = Repository.get_config_by_agent_id
