-- ===== src/Host/SnapshotRepository.antt =====
-- internal/host/sqlite/host_metric_snapshot.go
pub mod Retention
pub mod Bounded
use hosthalla.Base.{
  ℕ, ℤ, pos, negsuc, zero, suc, ◌+◌, Bool, true, false, not, ◌&&◌, ◌||◌, ◌^◌, List, [], ◌∷◌, ◌++◌,
  map, Option, none, some, any, find_row, select_rows, delete_rows, length, take, if◌then◌else◌,
  ◌==◌, nat_eq, contains, leb, ltb, pure, ◌>>=◌, ◌>>◌, query, query_row, exec, driver, transaction,
  sort_by,
}
use hosthalla.Model.{Uuid, Metric, Snapshot}
use hosthalla.Schema.{Tables, Run, SnapshotRow, MetricRow, has_host}

abbrev pub max_snapshots_per_host : ℕ
max_snapshots_per_host = 500

-- `insert into host_metric_snapshot`
unfoldable pub insert_snapshot : Uuid → ℕ → Tables → Option Tables
insert_snapshot host_id timestamp t =
    if any (λ s. s.host_id == host_id && s.timestamp == timestamp) t.snapshots
      || not (has_host host_id t)
    then none
    else some (record t {
      snapshots =
          t.snapshots
          ++ record { id = t.next_snapshot; host_id = host_id; timestamp = timestamp } ∷ [];
      next_snapshot = t.next_snapshot + 1;
    })

-- The conversion `int64(n)` of an `uint64` is not negative; the checks of the schema refuse others.
abbrev pub fits_column : ℕ → Bool
fits_column n = ltb n (2 ^ 63)

-- `insert into host_metric`. The percentage is bits, so its check, at least 0, is a parameter.
unfoldable pub insert_metric : (ℕ → Bool) → ℕ → ℕ → Metric → Tables → Option Tables
insert_metric not_negative snapshot_id position m t =
    if any (λ (r : MetricRow). r.snapshot_id == snapshot_id && r.position == position) t.metrics
      || not (any (λ (s : SnapshotRow). s.id == snapshot_id) t.snapshots)
      || not (
          not_negative m.cpu_usage_percentage
          && fits_column m.memory_usage_bytes
          && fits_column m.disk_usage_bytes
          && fits_column m.network_rx_bytes
          && fits_column m.network_tx_bytes)
    then none
    else some (record t {
      metrics =
          t.metrics ++ record { snapshot_id = snapshot_id; position = position; value = m } ∷ [];
    })

-- `order by timestamp desc`
abbrev pub newer : SnapshotRow → SnapshotRow → Bool
newer a b = ltb b.timestamp a.timestamp

abbrev pub snapshots_of : Uuid → List SnapshotRow → List SnapshotRow
snapshots_of host_id = select_rows (λ s. s.host_id == host_id)

-- The subquery: the newest of the host's snapshots, as many as are kept.
unfoldable pub kept_ids : Uuid → Tables → List ℕ
kept_ids host_id t =
    map (λ (s : SnapshotRow). s.id)
      (take max_snapshots_per_host (sort_by newer (snapshots_of host_id t.snapshots)))

-- `delete from host_metric_snapshot where host_id = ? and id not in (...)`; metrics go with them.
unfoldable pub prune_snapshots : Uuid → Tables → Option Tables
prune_snapshots host_id t =
    let keep = kept_ids host_id t in
    let gone = λ (s : SnapshotRow). s.host_id == host_id && not (contains keep s.id) in
    some (record t {
      snapshots = delete_rows gone t.snapshots;
      metrics = delete_rows (λ m. any (λ s. gone s && s.id == m.snapshot_id) t.snapshots) t.metrics;
    })

abbrev pub by_position : MetricRow → MetricRow → Bool
by_position a b = ltb a.position b.position

-- `loadMetrics` for one snapshot.
unfoldable pub metrics_of : ℕ → Tables → List Metric
metrics_of id t =
    map (λ (m : MetricRow). m.value)
      (sort_by by_position (select_rows (λ m. m.snapshot_id == id) t.metrics))

unfoldable pub load_metrics : SnapshotRow → Run Snapshot
load_metrics row = do
  metrics ← query (metrics_of row.id)
  pure (record { host_id = row.host_id; timestamp = row.timestamp; metrics = metrics })

unfoldable pub get_snapshot_by_id : ℕ → Run Snapshot
get_snapshot_by_id id = do
  row ← query_row (λ t. find_row (λ (s : SnapshotRow). s.id == id) t.snapshots)
  load_metrics row

unfoldable pub insert_metrics : (ℕ → Bool) → ℕ → ℕ → List Metric → Run Unit
insert_metrics not_negative id position [] = pure tt
insert_metrics not_negative id position (m ∷ ms) = do
  exec (insert_metric not_negative id position m)
  insert_metrics not_negative id (position + 1) ms

-- The insert, and `LastInsertId`.
unfoldable pub insert_snapshot_id : Snapshot → Run ℕ
insert_snapshot_id snapshot s =
    (do
      exec (insert_snapshot snapshot.host_id snapshot.timestamp)
      driver
      pure s.tables.next_snapshot)
      s

unfoldable pub create_snapshot_body : (ℕ → Bool) → Snapshot → Run Snapshot
create_snapshot_body not_negative snapshot = do
  id ← insert_snapshot_id snapshot
  insert_metrics not_negative id 0 snapshot.metrics
  exec (prune_snapshots snapshot.host_id)
  get_snapshot_by_id id

unfoldable pub create_snapshot : (ℕ → Bool) → Snapshot → Run Snapshot
create_snapshot not_negative snapshot = transaction (create_snapshot_body not_negative snapshot)

-- `listSnapshotRecords`, then one query for the metrics of all records, if there are any.
unfoldable pub load_all_metrics : List SnapshotRow → Run (List Snapshot)
load_all_metrics [] = pure []
load_all_metrics (row ∷ rows) = query λ t.
    map
      (λ (s : SnapshotRow). record {
        host_id = s.host_id;
        timestamp = s.timestamp;
        metrics = metrics_of s.id t;
      })
      (row ∷ rows)

unfoldable pub list_snapshots : Uuid → Run (List Snapshot)
list_snapshots host_id = do
  rows ← query (λ t. sort_by newer (snapshots_of host_id t.snapshots))
  load_all_metrics rows

-- `row_number() over (partition by host_id order by timestamp desc)`. The instants of a host's
-- snapshots differ, so the number is one more than that of the host's newer snapshots.
unfoldable pub snapshot_rank : Tables → SnapshotRow → ℕ
snapshot_rank t row =
    length
      (select_rows (λ s. s.host_id == row.host_id && ltb row.timestamp s.timestamp) t.snapshots)
    + 1

-- `order by host_id asc, timestamp desc`
abbrev pub by_host_newer : SnapshotRow → SnapshotRow → Bool
by_host_newer a b = ltb a.host_id b.host_id || a.host_id == b.host_id && ltb b.timestamp a.timestamp

unfoldable pub ranked_snapshots : List Uuid → ℕ → Tables → List SnapshotRow
ranked_snapshots host_ids limit t =
    sort_by by_host_newer
      (select_rows (λ s. contains host_ids s.host_id && leb (snapshot_rank t s) limit) t.snapshots)

-- The map from hosts to snapshots, as the list of its values: a host's stand together, newest first.
unfoldable pub list_recent_snapshots : List Uuid → ℤ → Run (List Snapshot)
list_recent_snapshots [] limit = pure []
list_recent_snapshots (id ∷ ids) (negsuc n) = pure []
list_recent_snapshots (id ∷ ids) (pos zero) = pure []
list_recent_snapshots (id ∷ ids) (pos (suc n)) = do
  rows ← query (ranked_snapshots (id ∷ ids) (suc n))
  load_all_metrics rows

unfoldable pub list_latest_snapshots : List Uuid → Run (List Snapshot)
list_latest_snapshots [] = pure []
list_latest_snapshots (id ∷ ids) = do
  rows ← query (ranked_snapshots (id ∷ ids) 1)
  load_all_metrics rows
