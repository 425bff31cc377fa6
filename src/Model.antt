-- ===== src/Model.antt =====
-- The data of internal/host/model.go, internal/host/events.go, internal/agent/model.go,
-- internal/agent/config.go and internal/agent/events.go. A `uuid.UUID` is the number of its 128 bits
-- (`uuid.Nil` is 0), a `netip.Addr` the text that its `String` gives, a `time.Time` a number.
use hosthalla.Base.{ℕ, ℤ, Bool, List, String}
use hosthalla.Text.{Text}

abbrev pub Uuid : Type 0
Uuid = ℕ

abbrev pub nil_uuid : Uuid
nil_uuid = 0

pub record Host : Type 0 where
  pub id : Uuid
  pub name : Text
  pub description : Text
  pub tags : List Text
  pub ip : Text
  pub monitoring_agent_id : Uuid
  pub created_at : ℕ
  pub updated_at : ℕ

pub record Tag : Type 0 where
  pub id : Uuid
  pub name : Text
  pub created_at : ℕ
  pub updated_at : ℕ

-- `other` is any string but the two that the code names.
pub data MethodType : Type 0 where
  ssh_password ssh_key : MethodType
  other : Text → MethodType

-- `HostManagementMethod`. A `nil` secret is the empty list of bytes.
pub record Method : Type 0 where
  pub id : Uuid
  pub host_id : Uuid
  pub name : Text
  pub kind : MethodType
  pub username : Text
  pub port : ℕ
  pub secret : List ℕ
  pub description : Text
  pub created_at : ℕ
  pub updated_at : ℕ

-- `HostManagementMethodSecret`
pub record MethodSecret : Type 0 where
  pub password : Text
  pub public_key : Text
  pub private_key : Text

-- `HostMetric`. The percentage is a `float64` that the code only stores and copies: its 64 bits.
pub record Metric : Type 0 where
  pub cpu_usage_percentage : ℕ
  pub memory_usage_bytes : ℕ
  pub disk_usage_bytes : ℕ
  pub network_rx_bytes : ℕ
  pub network_tx_bytes : ℕ

pub record Snapshot : Type 0 where
  pub host_id : Uuid
  pub timestamp : ℕ
  pub metrics : List Metric

-- `HostSystemInfo`, whose `OS` and `CPU` are spread out, and whose GPUs are their names. The frequency
-- is a `float64` that the code only stores and copies: its 64 bits.
pub record SystemInfo : Type 0 where
  pub host_id : Uuid
  pub hostname : Text
  pub os_name : Text
  pub os_version : Text
  pub os_kernel : Text
  pub total_memory_bytes : ℕ
  pub cpu_name : Text
  pub cpu_architecture : Text
  pub cpu_cores : ℕ
  pub cpu_frequency : ℕ
  pub cpu_threads : ℕ
  pub gpus : List Text
  pub total_disk_bytes : ℕ

pub record Agent : Type 0 where
  pub id : Uuid
  pub host_id : Uuid
  pub version : Text
  pub created_at : ℕ
  pub last_seen_at : ℕ

-- `AgentConfig`; a `time.Duration` is a signed number of nanoseconds.
pub record AgentConfig : Type 0 where
  pub id : Uuid
  pub agent_id : Uuid
  pub host : Text
  pub scheme : Text
  pub api_key : Text
  pub heartbeat_interval : ℤ
  pub metrics_interval : ℤ
  pub version : ℤ

-- `PingResult`
pub record PingResult : Type 0 where
  pub host_id : Uuid
  pub ip : Text
  pub is_reachable : Bool
  pub duration : ℕ
  pub error_message : String
  pub checked_at : ℕ

-- The events of both packages that the modelled code publishes.
pub data Event : Type 0 where
  host_created host_updated : Host → Event
  host_deleted : Uuid → Event
  monitoring_agent_assigned : Uuid → Uuid → Event
  method_created : Uuid → Method → Event
  metric_received : Uuid → Metric → Event
  snapshot_created : Uuid → Snapshot → Event
  system_info_updated : Uuid → SystemInfo → Event
  ping_completed : PingResult → Event
  ping_all_completed : List PingResult → Event
  agent_registered : Uuid → Uuid → Event
  agent_updated : Agent → Event
  agent_deleted : Uuid → Event
  agent_seen : Uuid → Uuid → Event
