-- ===== src/Host/SystemInfoRepository.antt =====
-- internal/host/sqlite/host_system_info.go
pub mod RoundTrip
use hosthalla.Base.{
  ℕ, ◌+◌, Bool, not, ◌&&◌, List, [], ◌∷◌, ◌++◌, map, Option, none, some, any, find_row, select_rows,
  delete_rows, update_rows, if◌then◌else◌, ◌==◌, nat_eq, contains, ltb, pure, ◌>>=◌, ◌>>◌, query,
  query_row, exec, time_now, transaction, sort_by,
}
use hosthalla.Text.{Text}
use hosthalla.Model.{Uuid, SystemInfo}
use hosthalla.Schema.{Tables, Run, SystemRow, GpuRow, has_host}
use hosthalla.Host.SnapshotRepository.{fits_column}

abbrev pub has_system_info : Uuid → Tables → Bool
has_system_info host_id t = any (λ (r : SystemRow). r.value.host_id == host_id) t.system_infos

-- The columns of a value: the GPUs stand in a table of their own.
abbrev pub columns : SystemInfo → SystemInfo
columns i = record i { gpus = [] }

-- The checks of the table `host_system_info` on the values that are converted to `int64`; the
-- one of the frequency, at least 0, is a parameter.
abbrev pub system_check : (ℕ → Bool) → SystemInfo → Bool
system_check not_negative i =
    fits_column i.total_memory_bytes
    && fits_column i.cpu_cores
    && not_negative i.cpu_frequency
    && fits_column i.cpu_threads
    && fits_column i.total_disk_bytes

-- `insert into host_system_info ... on conflict(host_id) do update set ...`
unfoldable pub upsert_system_row : (ℕ → Bool) → SystemInfo → ℕ → Tables → Option Tables
upsert_system_row not_negative i now t =
    if not (system_check not_negative i)
    then none
    else if has_system_info i.host_id t
    then some (record t {
      system_infos =
          update_rows (λ (r : SystemRow). r.value.host_id == i.host_id)
            (λ r. record { value = columns i; created_at = r.created_at; updated_at = now })
            t.system_infos;
    })
    else if not (has_host i.host_id t)
    then none
    else some (record t {
      system_infos =
          t.system_infos ++ record { value = columns i; created_at = now; updated_at = now } ∷ [];
    })

-- `delete from host_system_info_gpu where host_id = ?`
unfoldable pub clear_gpus : Uuid → Tables → Option Tables
clear_gpus host_id t = some (record t { gpus = delete_rows (λ g. g.host_id == host_id) t.gpus })

-- `insert into host_system_info_gpu`
unfoldable pub insert_gpu : Uuid → ℕ → Text → Tables → Option Tables
insert_gpu host_id position name t =
    if any (λ (g : GpuRow). g.host_id == host_id && g.position == position) t.gpus
    then none
    else if not (has_system_info host_id t)
    then none
    else some (record t {
      gpus = t.gpus ++ record { host_id = host_id; position = position; name = name } ∷ [];
    })

unfoldable pub insert_gpus : Uuid → ℕ → List Text → Run Unit
insert_gpus host_id position [] = pure tt
insert_gpus host_id position (name ∷ names) = do
  exec (insert_gpu host_id position name)
  insert_gpus host_id (position + 1) names

-- `order by position asc`
abbrev pub by_gpu_position : GpuRow → GpuRow → Bool
by_gpu_position a b = ltb a.position b.position

unfoldable pub gpu_names : Uuid → Tables → List Text
gpu_names host_id t =
    map (λ (g : GpuRow). g.name)
      (sort_by by_gpu_position (select_rows (λ g. g.host_id == host_id) t.gpus))

unfoldable pub system_row : Uuid → Tables → Option SystemRow
system_row host_id t = find_row (λ (r : SystemRow). r.value.host_id == host_id) t.system_infos

-- `getHostSystemInfoByHostID`; the checks of the schema keep negative values out of the rows.
unfoldable pub get_system_info : Uuid → Run SystemInfo
get_system_info host_id = do
  row ← query_row (system_row host_id)
  names ← query (gpu_names host_id)
  pure (record row.value { gpus = names })

-- The map from hosts to their information, as the list of its values.
unfoldable pub list_system_infos : List Uuid → Run (List SystemInfo)
list_system_infos [] = pure []
list_system_infos (id ∷ ids) = do
  rows ← query (λ t. select_rows (λ r. contains (id ∷ ids) r.value.host_id) t.system_infos)
  query λ t. map (λ (r : SystemRow). record r.value { gpus = gpu_names r.value.host_id t }) rows

unfoldable pub upsert_system_info_body : (ℕ → Bool) → SystemInfo → Run SystemInfo
upsert_system_info_body not_negative i = do
  now ← time_now
  exec (upsert_system_row not_negative i now)
  exec (clear_gpus i.host_id)
  insert_gpus i.host_id 0 i.gpus
  get_system_info i.host_id

unfoldable pub upsert_system_info : (ℕ → Bool) → SystemInfo → Run SystemInfo
upsert_system_info not_negative i = transaction (upsert_system_info_body not_negative i)
