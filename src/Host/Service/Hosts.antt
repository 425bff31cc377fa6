-- ===== src/Host/Service/Hosts.antt =====
-- The operations on hosts of internal/host/service.go.
pub mod Laws
use hosthalla.Base.{ℕ, List, [], ◌∷◌, pure, ◌>>=◌, ◌>>◌, publish}
use hosthalla.Text.{Text, Unicode}
use hosthalla.Text.Normalize.{normalize_loop}
use hosthalla.Model.{
  Uuid, Host, Tag, host_created, host_updated, host_deleted, monitoring_agent_assigned,
}
use hosthalla.Schema.{Run}
use hosthalla.Host.HostRepository as Repository
use hosthalla.Host.HostRepository.{CreateHostDto}

module _ ⦃u : Unicode⦄ where
  -- `normalizeTags`
  unfoldable pub normalize_tags : List Text → List Text
  normalize_tags tags = normalize_loop ([], []) tags

  unfoldable pub list_hosts : List Text → Run (List Host)
  list_hosts filter = Repository.list_hosts (normalize_tags filter)

  unfoldable pub create_host : CreateHostDto → Run Host
  create_host dto = do
    created ← Repository.create_host (record dto { tags = normalize_tags dto.tags })
    publish (host_created created)
    pure created

  -- The host comes back as Go leaves it behind the pointer, with its tags and `UpdatedAt` set.
  unfoldable pub update_host : Host → Run Host
  update_host target = do
    updated ← Repository.update_host (record target { tags = normalize_tags target.tags })
    publish (host_updated updated)
    pure updated

  unfoldable pub assign_monitoring_agent : Uuid → Uuid → Run Unit
  assign_monitoring_agent host_id agent_id = do
    target ← Repository.get_host_by_id host_id
    update_host (record target { monitoring_agent_id = agent_id })
    publish (monitoring_agent_assigned host_id agent_id)

unfoldable pub get_host_by_id : Uuid → Run Host
get_host_by_id = Repository.get_host_by_id

unfoldable pub list_tags : Run (List Tag)
list_tags = Repository.list_tags

unfoldable pub delete_host : Uuid → Run Unit
delete_host host_id = do Repository.delete_host host_id; publish (host_deleted host_id)
