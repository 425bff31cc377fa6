-- ===== src/Schema.antt =====
-- The tables of migrations/sqlite/20260803121000_baseline.up.sql for hosts, tags, credentials,
-- agents, system information and metrics, and the effect of the statements of the repositories on them. A statement
-- whose constraint fails is `none`. Foreign keys are on: `_foreign_keys=on` in the connection.
use hosthalla.Base.{
  ℕ, ℤ, ◌+◌, Bool, true, not, ◌&&◌, List, [], ◌∷◌, Option, none, some, any, leb, if◌then◌else◌,
  ◌==◌, nat_eq, text_eq, Db, Exec,
}
use hosthalla.Text.{Text}
use hosthalla.Model.{Uuid, Tag, Method, Metric, SystemInfo, Agent, Event}

-- A row of `host`: the tags stand in tables of their own, and the agent may be null.
pub record HostRow : Type 0 where
  pub id : Uuid
  pub name : Text
  pub description : Text
  pub ip : Text
  pub monitoring_agent_id : Option Uuid
  pub created_at : ℕ
  pub updated_at : ℕ

pub record HostTag : Type 0 where
  pub host_id : Uuid
  pub tag_id : Uuid

-- A row of `host_metric_snapshot`, whose id is the autoincrement of the table.
pub record SnapshotRow : Type 0 where
  pub id : ℕ
  pub host_id : Uuid
  pub timestamp : ℕ

pub record MetricRow : Type 0 where
  pub snapshot_id : ℕ
  pub position : ℕ
  pub value : Metric

-- A row of `agent_config`, with whole seconds.
pub record ConfigRow : Type 0 where
  pub id : Uuid
  pub agent_id : Uuid
  pub heartbeat_interval_seconds : ℤ
  pub metrics_interval_seconds : ℤ
  pub version : ℤ

-- A row of `host_system_info`: the columns that are read, without the GPUs.
pub record SystemRow : Type 0 where
  pub value : SystemInfo
  pub created_at : ℕ
  pub updated_at : ℕ

-- A row of `host_system_info_gpu`
pub record GpuRow : Type 0 where
  pub host_id : Uuid
  pub position : ℕ
  pub name : Text

-- `next_snapshot` is the sequence of `host_metric_snapshot`.
pub record Tables : Type 0 where
  pub hosts : List HostRow
  pub tags : List Tag
  pub host_tags : List HostTag
  pub credentials : List Method
  pub agents : List Agent
  pub agent_configs : List ConfigRow
  pub system_infos : List SystemRow
  pub gpus : List GpuRow
  pub snapshots : List SnapshotRow
  pub metrics : List MetricRow
  pub next_snapshot : ℕ

abbrev pub Inventory : Type 0
Inventory = Db Uuid Tables Event

abbrev pub Run : Type 0 → Type 0
Run A = Exec Inventory A

abbrev pub has_host : Uuid → Tables → Bool
has_host id t = any (λ (r : HostRow). r.id == id) t.hosts

abbrev pub has_agent : Uuid → Tables → Bool
has_agent id t = any (λ (a : Agent). a.id == id) t.agents

-- A foreign key that may be null.
abbrev pub refers : Option Uuid → (Uuid → Bool) → Bool
refers none known = true
refers (some id) known = known id

-- `lower` and `trim` of SQLite: ASCII letters, and spaces only.
unfoldable pub sql_lower : Text → Text
sql_lower [] = []
sql_lower (c ∷ s) = (if leb b'A' c && leb c b'Z' then c + 32 else c) ∷ sql_lower s

unfoldable pub sql_ltrim : Text → Text
sql_ltrim [] = []
sql_ltrim (c ∷ s) = let rest = sql_ltrim s in if c == 32 then rest else c ∷ s

unfoldable pub sql_rtrim : Text → Text
sql_rtrim [] = []
sql_rtrim (c ∷ s) = let rest = sql_rtrim s in if c == 32 && rest == [] then [] else c ∷ rest

-- The two checks of the table `tag`.
unfoldable pub tag_check : Text → Bool
tag_check name =
    let trimmed = sql_rtrim (sql_ltrim name) in name == sql_lower trimmed && not (trimmed == [])
