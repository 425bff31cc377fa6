-- ===== src/Host/Service/Metrics.antt =====
-- The operations on system information and metrics of internal/host/service.go.
use hosthalla.Base.{ℕ, ℤ, Bool, List, [], ◌∷◌, pure, ◌>>=◌, ◌>>◌, publish}
use hosthalla.Model.{
  Uuid, Metric, Snapshot, SystemInfo, metric_received, snapshot_created, system_info_updated,
}
use hosthalla.Schema.{Run}
use hosthalla.Host.SnapshotRepository as Repository
use hosthalla.Host.SystemInfoRepository as Systems

unfoldable pub get_system_info : Uuid → Run SystemInfo
get_system_info = Systems.get_system_info

unfoldable pub list_system_infos : List Uuid → Run (List SystemInfo)
list_system_infos = Systems.list_system_infos

unfoldable pub upsert_system_info : (ℕ → Bool) → SystemInfo → Run SystemInfo
upsert_system_info not_negative i = do
  info ← Systems.upsert_system_info not_negative i
  publish (system_info_updated i.host_id info)
  pure info

unfoldable pub list_recent_snapshots : List Uuid → ℤ → Run (List Snapshot)
list_recent_snapshots = Repository.list_recent_snapshots

unfoldable pub list_latest_snapshots : List Uuid → Run (List Snapshot)
list_latest_snapshots = Repository.list_latest_snapshots

unfoldable pub list_snapshots : Uuid → Run (List Snapshot)
list_snapshots = Repository.list_snapshots

unfoldable pub publish_metrics : Uuid → List Metric → Run Unit
publish_metrics host_id [] = pure tt
publish_metrics host_id (m ∷ ms) = do
  publish (metric_received host_id m)
  publish_metrics host_id ms

unfoldable pub create_snapshot : (ℕ → Bool) → Snapshot → Run Snapshot
create_snapshot not_negative snapshot = do
  created ← Repository.create_snapshot not_negative snapshot
  publish_metrics snapshot.host_id created.metrics
  publish (snapshot_created snapshot.host_id created)
  pure created
