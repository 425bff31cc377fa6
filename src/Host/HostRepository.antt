-- ===== src/Host/HostRepository.antt =====
-- internal/host/sqlite/host.go: each method is code over the database. Texts of identifiers and
-- addresses in the rows are those that this code wrote, so they parse.
use hosthalla.Base.{
  ℕ, Bool, true, not, ◌&&◌, ◌||◌, List, [], ◌∷◌, ◌++◌, map, Option, none, some, any, find_row,
  select_rows, delete_rows, update_rows, contains, length, if◌then◌else◌, ◌==◌, nat_eq, text_eq,
  pure, ◌>>=◌, ◌>>◌, query, query_row, exec, exec_affecting, new_id, time_now, transaction, sort_by,
  text_before, ltb,
}
use hosthalla.Text.{Text}
use hosthalla.Model.{Uuid, nil_uuid, Host, Tag, Agent}
use hosthalla.Schema.{
  HostRow, HostTag, SnapshotRow, Tables, Run, has_host, has_agent, refers, tag_check,
}

-- `insert into host`
unfoldable pub insert_host : HostRow → Tables → Option Tables
insert_host row t =
    if any (λ r. r.id == row.id || r.ip == row.ip) t.hosts
    then none
    else some (record t { hosts = t.hosts ++ row ∷ [] })

-- `update host set ... where id = ?`, with the row's new values but for `created_at`.
unfoldable pub update_host_row : HostRow → Tables → Option Tables
update_host_row row t =
    if not (has_host row.id t)
    then some t
    else if any (λ r. not (r.id == row.id) && r.ip == row.ip) t.hosts
        || not (refers row.monitoring_agent_id (λ id. has_agent id t))
    then none
    else some (record t {
      hosts =
          update_rows (λ r. r.id == row.id) (λ r. record row { created_at = r.created_at }) t.hosts;
    })

-- Rows of `agent` go, with their configurations; a host that names one has its column set to null.
unfoldable pub cascade_agents : (Agent → Bool) → Tables → Tables
cascade_agents gone t =
    let lost = λ (id : Uuid). any (λ (a : Agent). gone a && a.id == id) t.agents in
    record t {
      agents = delete_rows gone t.agents;
      agent_configs = delete_rows (λ c. lost c.agent_id) t.agent_configs;
      hosts =
          update_rows (λ r. not (refers r.monitoring_agent_id (λ id. not (lost id))))
            (λ r. record r { monitoring_agent_id = none }) t.hosts;
    }

-- `delete from host where id = ?`, with all that refers to the host.
unfoldable pub delete_host_row : Uuid → Tables → Option Tables
unfolding cascade_agents
delete_host_row id t =
    let t' = cascade_agents (λ a. a.host_id == id) t in
    let gone = λ (n : ℕ). any (λ (s : SnapshotRow). s.host_id == id && s.id == n) t.snapshots in
    some (record t' {
      hosts = delete_rows (λ r. r.id == id) t'.hosts;
      host_tags = delete_rows (λ l. l.host_id == id) t.host_tags;
      credentials = delete_rows (λ m. m.host_id == id) t.credentials;
      system_infos = delete_rows (λ i. i.value.host_id == id) t.system_infos;
      gpus = delete_rows (λ g. g.host_id == id) t.gpus;
      snapshots = delete_rows (λ s. s.host_id == id) t.snapshots;
      metrics = delete_rows (λ m. gone m.snapshot_id) t.metrics;
    })

abbrev pub is_linked : Uuid → Tables → Tag → Bool
is_linked host_id t tag = any (λ l. l.tag_id == tag.id && l.host_id == host_id) t.host_tags

-- The answer of `listTagNames`
unfoldable pub tag_names : Uuid → Tables → List Text
tag_names host_id t =
    sort_by text_before (map (λ (tag : Tag). tag.name) (select_rows (is_linked host_id t) t.tags))

unfoldable pub list_tag_names : Uuid → Run (List Text)
list_tag_names host_id = query (tag_names host_id)

-- `scanHost`; a null agent is left as `uuid.Nil`.
abbrev pub agent_or_nil : Option Uuid → Uuid
agent_or_nil none = nil_uuid
agent_or_nil (some id) = id

abbrev pub host_of_row : HostRow → List Text → Host
host_of_row row tags = record {
  id = row.id;
  name = row.name;
  description = row.description;
  tags = tags;
  ip = row.ip;
  monitoring_agent_id = agent_or_nil row.monitoring_agent_id;
  created_at = row.created_at;
  updated_at = row.updated_at;
}

unfoldable pub get_host_by_id : Uuid → Run Host
get_host_by_id host_id = do
  row ← query_row (λ t. find_row (λ (r : HostRow). r.id == host_id) t.hosts)
  tags ← list_tag_names host_id
  pure (host_of_row row tags)

-- `insert into tag ... on conflict(name) do nothing`
unfoldable pub insert_tag : Tag → Tables → Option Tables
insert_tag tag t =
    if not (tag_check tag.name)
    then none
    else if any (λ (other : Tag). other.name == tag.name) t.tags
    then some t
    else if any (λ (other : Tag). other.id == tag.id) t.tags
    then none
    else some (record t { tags = t.tags ++ tag ∷ [] })

-- `insert into host_tag ... on conflict do nothing`
unfoldable pub insert_host_tag : HostTag → Tables → Option Tables
insert_host_tag link t =
    if not (has_host link.host_id t && any (λ (tag : Tag). tag.id == link.tag_id) t.tags)
    then none
    else if any (λ l. l.host_id == link.host_id && l.tag_id == link.tag_id) t.host_tags
    then some t
    else some (record t { host_tags = t.host_tags ++ link ∷ [] })

-- One round of the loop of `syncHostTags`.
unfoldable pub sync_host_tag : Uuid → Text → Run Unit
sync_host_tag host_id name = do
  now ← time_now
  id ← new_id
  exec (insert_tag (record { id = id; name = name; created_at = now; updated_at = now }))
  found ← query_row (λ t. find_row (λ (tag : Tag). tag.name == name) t.tags)
  exec (insert_host_tag (record { host_id = host_id; tag_id = found.id }))

unfoldable pub sync_host_tag_loop : Uuid → List Text → Run Unit
sync_host_tag_loop host_id [] = pure tt
sync_host_tag_loop host_id (name ∷ names) = do
  sync_host_tag host_id name
  sync_host_tag_loop host_id names

unfoldable pub clear_host_tags : Uuid → Tables → Option Tables
clear_host_tags host_id t =
    some (record t { host_tags = delete_rows (λ l. l.host_id == host_id) t.host_tags })

unfoldable pub sync_host_tags : Uuid → List Text → Run Unit
sync_host_tags host_id tags = do exec (clear_host_tags host_id); sync_host_tag_loop host_id tags

-- `CreateHostDTO`
pub record CreateHostDto : Type 0 where
  pub name : Text
  pub description : Text
  pub tags : List Text
  pub ip : Text

unfoldable pub create_host_body : CreateHostDto → Run Host
create_host_body dto = do
  now ← time_now
  id ← new_id
  exec (
      insert_host (record {
        id = id;
        name = dto.name;
        description = dto.description;
        ip = dto.ip;
        monitoring_agent_id = none;
        created_at = now;
        updated_at = now;
      }))
  sync_host_tags id dto.tags
  get_host_by_id id

unfoldable pub create_host : CreateHostDto → Run Host
create_host dto = transaction (create_host_body dto)

abbrev pub agent_column : Uuid → Option Uuid
agent_column id = if id == nil_uuid then none else some id

unfoldable pub update_host_body : Host → Run ℕ
update_host_body value = do
  updated_at ← time_now
  exec_affecting "host not found" (has_host value.id) (
      update_host_row (record {
        id = value.id;
        name = value.name;
        description = value.description;
        ip = value.ip;
        monitoring_agent_id = agent_column value.monitoring_agent_id;
        created_at = 0;
        updated_at = updated_at;
      }))
  sync_host_tags value.id value.tags
  pure updated_at

-- `UpdateHost`, which gives the host back with the new `UpdatedAt` that Go writes through the pointer.
unfoldable pub update_host : Host → Run Host
update_host value = do
  updated_at ← transaction (update_host_body value)
  pure (record value { updated_at = updated_at })

unfoldable pub delete_host : Uuid → Run Unit
delete_host host_id = exec_affecting "host not found" (has_host host_id) (delete_host_row host_id)

-- The rows that the query of `ListHosts` selects. Names in `tag` are unique, so a count of rows is
-- the count of distinct names.
unfoldable pub matches_tags : List Text → Tables → HostRow → Bool
matches_tags [] t row = true
matches_tags (name ∷ names) t row =
    length (select_rows (λ tag. is_linked row.id t tag && contains (name ∷ names) tag.name) t.tags)
    == length (name ∷ names)

-- `order by h.created_at desc`
abbrev pub newer_host : HostRow → HostRow → Bool
newer_host a b = ltb b.created_at a.created_at

unfoldable pub hosts_of_rows : List HostRow → Run (List Host)
hosts_of_rows [] = pure []
hosts_of_rows (row ∷ rows) = do
  tags ← list_tag_names row.id
  rest ← hosts_of_rows rows
  pure (host_of_row row tags ∷ rest)

unfoldable pub list_hosts : List Text → Run (List Host)
list_hosts filter = do
  rows ← query (λ t. sort_by newer_host (select_rows (matches_tags filter t) t.hosts))
  hosts_of_rows rows

unfoldable pub list_tags : Run (List Tag)
list_tags = query (λ t. sort_by (λ (a b : Tag). text_before a.name b.name) t.tags)
