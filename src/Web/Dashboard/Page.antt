-- ===== src/Web/Dashboard/Page.antt =====
-- `collectDashboardData` and `renderLiveUpdate` of internal/web/handlers/dashboard.go. The texts of an
-- identifier and of an instant (`Format`) are parameters; the instant 0 is the zero `time.Time`.
use hosthalla.Base.{
  ℕ, ◌+◌, ◌-◌, ◌*◌, ◌/◌, pos, Bool, true, false, not, ◌&&◌, ◌||◌, List, [], ◌∷◌, ◌++◌, map, Option,
  none, some, length, select_rows, find_row, if◌then◌else◌, ◌==◌, nat_eq, text_eq, ltb, leb, pure,
  ◌>>=◌,
}
use hosthalla.Text.{Text, Unicode, codes}
use hosthalla.Text.Decimal.{itoa}
use hosthalla.Model.{Uuid, nil_uuid, Host, Method, Snapshot, SystemInfo, Metric}
use hosthalla.Schema.{Run}
use hosthalla.Web.Badges.{Float64, format_bytes, text_or_empty, total_memory, total_disk}
use hosthalla.Host.Service.Hosts.{list_hosts}
use hosthalla.Host.Service.Methods.{list_methods_by_hosts}
use hosthalla.Host.Service.Metrics.{list_system_infos, list_recent_snapshots}

pub record DashboardHostRow : Type 0 where
  pub id : Text
  pub name : Text
  pub ip : Text
  pub tags : List Text
  pub management_method_count : ℕ
  pub has_monitoring_agent : Bool
  pub status : Text
  pub status_label : Text
  pub status_variant : Text
  pub last_metric_label : Text
  pub cpu_usage_label : Text
  pub cpu_usage_series : List ℕ
  pub memory_usage_label : Text
  pub memory_usage_series : List ℕ
  pub disk_usage_label : Text
  pub network_usage_label : Text
  pub system_label : Text

pub record DashboardSummary : Type 0 where
  pub total_hosts : ℕ
  pub reporting_hosts : ℕ
  pub stale_hosts : ℕ
  pub waiting_hosts : ℕ
  pub monitored_hosts : ℕ
  pub system_info_hosts : ℕ
  pub management_methods : ℕ
  pub latest_metric_at_label : Text

pub record DashboardData : Type 0 where
  pub generated_at_label : Text
  pub summary : DashboardSummary
  pub hosts : List DashboardHostRow

abbrev pub minute : ℕ
minute = 60 * 1000000000

-- `dashboardHostSparklineSamples`
abbrev pub sparkline_samples : ℕ
sparkline_samples = 12

unfoldable pub format_system_label : SystemInfo → Text
format_system_label info =
    if not (info.hostname == []) && not (info.os_name == [])
    then info.hostname ++ (b' ' ∷ 0xb7 ∷ b' ' ∷ info.os_name)
    else if not (info.hostname == [])
    then info.hostname
    else if not (info.os_name == [])
    then info.os_name
    else codes "System info received"

unfoldable pub host_monitoring_status : Host → Text
host_monitoring_status value =
    if value.monitoring_agent_id == nil_uuid then codes "no_agent" else codes "waiting"

unfoldable pub host_monitoring_status_label : Host → Text
host_monitoring_status_label value =
    if value.monitoring_agent_id == nil_uuid then codes "No agent" else codes "Awaiting metrics"

module _ (format_time : Text → ℕ → Text) where
  -- An instant after `now` is "just now" as well: its age is negative in Go and 0 here.
  unfoldable pub format_metric_age : ℕ → ℕ → Text
  format_metric_age now value =
      let duration = now - value in
      if value == 0
      then codes "No metrics yet"
      else if ltb duration minute
      then codes "just now"
      else if ltb duration (60 * minute)
      then itoa (duration / minute) ++ codes " min ago"
      else if ltb duration (24 * (60 * minute))
      then itoa (duration / (60 * minute)) ++ codes " h ago"
      else format_time (codes "2006-01-02 15:04") value

module _ ⦃f : Float64⦄ where
  -- `formatBytes` of dashboard.go, which has the body of the one of the hosts page.
  abbrev pub bytes_label : ℕ → Text
  bytes_label bytes = text_or_empty (format_bytes bytes)

  unfoldable pub format_usage_bytes : ℕ → ℕ → Text
  format_usage_bytes used total =
      if total == 0
      then bytes_label used
      else bytes_label used ++ (codes " / " ++ bytes_label total)

  unfoldable pub usage_percentage : ℕ → ℕ → Option ℕ
  usage_percentage used total =
      let value = f.times (f.divide (f.of_nat used) (f.of_nat total)) (f.of_nat 100) in
      if total == 0
      then none
      else if f.is_nan value || f.is_inf value
      then none
      else some (f.max (f.of_nat 0) (f.min (f.of_nat 100) value))

  abbrev first_cpu : List Metric → List ℕ
  first_cpu [] = []
  first_cpu (metric ∷ rest) = metric.cpu_usage_percentage ∷ []

  -- The snapshots come newest first, and the series has them oldest first.
  unfoldable pub cpu_usage_series : List Snapshot → List ℕ
  cpu_usage_series [] = []
  cpu_usage_series (snapshot ∷ older) = cpu_usage_series older ++ first_cpu snapshot.metrics

  abbrev value_of : Option ℕ → List ℕ
  value_of none = []
  value_of (some value) = value ∷ []

  abbrev first_memory : ℕ → List Metric → List ℕ
  first_memory total [] = []
  first_memory total (metric ∷ rest) = value_of (usage_percentage metric.memory_usage_bytes total)

  abbrev memory_values : ℕ → List Snapshot → List ℕ
  memory_values total [] = []
  memory_values total (snapshot ∷ older) =
      memory_values total older ++ first_memory total snapshot.metrics

  unfoldable pub memory_usage_series : List Snapshot → ℕ → List ℕ
  memory_usage_series snapshots total = if total == 0 then [] else memory_values total snapshots

-- The counters, the rows and `latestMetricTime` of the loop of `collectDashboardData`.
pub record Counted : Type 0 where
  pub rows : List DashboardHostRow
  pub total_methods : ℕ
  pub monitored : ℕ
  pub reporting : ℕ
  pub stale : ℕ
  pub with_system_info : ℕ
  pub latest_metric_time : ℕ

abbrev pub nothing_counted : Counted
nothing_counted = record {
  rows = [];
  total_methods = 0;
  monitored = 0;
  reporting = 0;
  stale = 0;
  with_system_info = 0;
  latest_metric_time = 0;
}

abbrev pub one_if : Bool → ℕ
one_if true = 1
one_if false = 0

abbrev is_some : Option SystemInfo → Bool
is_some none = false
is_some (some info) = true

abbrev system_label_of : Option SystemInfo → Text
system_label_of none = codes "Unknown system"
system_label_of (some info) = format_system_label info

module _ ⦃f : Float64⦄ (uuid_text : Uuid → Text) (format_time : Text → ℕ → Text) (now : ℕ) where
  -- A row before the metrics of its host are looked at.
  abbrev pub waiting_row : Host → List Method → Option SystemInfo → DashboardHostRow
  waiting_row value methods info = record {
    id = uuid_text value.id;
    name = value.name;
    ip = value.ip;
    tags = value.tags;
    management_method_count = length methods;
    has_monitoring_agent = not (value.monitoring_agent_id == nil_uuid);
    status = host_monitoring_status value;
    status_label = host_monitoring_status_label value;
    status_variant = codes "neutral";
    last_metric_label = codes "No metrics yet";
    cpu_usage_label = codes "n/a";
    cpu_usage_series = [];
    memory_usage_label = codes "n/a";
    memory_usage_series = [];
    disk_usage_label = codes "n/a";
    network_usage_label = codes "n/a";
    system_label = system_label_of info;
  }

  -- `now.Sub(snapshot.Timestamp) <= 2*time.Minute`
  abbrev pub is_recent : Snapshot → Bool
  is_recent snapshot = leb (now - snapshot.timestamp) (2 * minute)

  abbrev pub metric_row :
      Snapshot → Metric → List Snapshot → Option SystemInfo → DashboardHostRow → DashboardHostRow
  metric_row snapshot metric snapshots info row = record row {
    last_metric_label = format_metric_age format_time now snapshot.timestamp;
    cpu_usage_label = f.print metric.cpu_usage_percentage ++ codes "%";
    cpu_usage_series = cpu_usage_series snapshots;
    memory_usage_label = format_usage_bytes metric.memory_usage_bytes (total_memory info);
    memory_usage_series = memory_usage_series snapshots (total_memory info);
    disk_usage_label = format_usage_bytes metric.disk_usage_bytes (total_disk info);
    network_usage_label =
        bytes_label metric.network_rx_bytes
        ++ (codes " in / " ++ (bytes_label metric.network_tx_bytes ++ codes " out"));
    status = if is_recent snapshot then codes "reporting" else codes "stale";
    status_label = if is_recent snapshot then codes "Reporting" else codes "Stale metrics";
    status_variant = if is_recent snapshot then codes "success" else codes "warning";
  }

  -- The newest snapshot, where it has a metric, which is the first.
  abbrev pub newest : List Snapshot → Option (Snapshot × Metric)
  newest [] = none
  newest (snapshot ∷ older) = elim snapshot.metrics [
    | [] ↦ none
    | metric ∷ rest ↦ some (snapshot, metric)
  ]

  abbrev pub count_metrics :
      Option (Snapshot × Metric)
      → List Snapshot
      → Option SystemInfo
      → DashboardHostRow
      → Counted
      → Counted
  count_metrics none snapshots info row c = record c { rows = c.rows ++ row ∷ [] }
  count_metrics (some (snapshot, metric)) snapshots info row c = record c {
    rows = c.rows ++ metric_row snapshot metric snapshots info row ∷ [];
    reporting = c.reporting + one_if (is_recent snapshot);
    stale = c.stale + one_if (not (is_recent snapshot));
    latest_metric_time =
        if c.latest_metric_time == 0 || ltb c.latest_metric_time snapshot.timestamp
        then snapshot.timestamp
        else c.latest_metric_time;
  }

  -- One round of the loop.
  unfoldable pub count_host :
      Host → List Method → Option SystemInfo → List Snapshot → Counted → Counted
  count_host value methods info snapshots c =
      count_metrics (newest snapshots) snapshots info (waiting_row value methods info) (record c {
        total_methods = c.total_methods + length methods;
        monitored = c.monitored + one_if (not (value.monitoring_agent_id == nil_uuid));
        with_system_info = c.with_system_info + one_if (is_some info);
      })

  unfoldable pub count_hosts :
      List Method → List SystemInfo → List Snapshot → List Host → Counted → Counted
  count_hosts methods infos snapshots [] c = c
  count_hosts methods infos snapshots (value ∷ values) c =
      count_hosts methods infos snapshots values (
        count_host value (select_rows (λ (m : Method). m.host_id == value.id) methods)
          (find_row (λ (i : SystemInfo). i.host_id == value.id) infos)
          (select_rows (λ (s : Snapshot). s.host_id == value.id) snapshots) c)

  -- The waiting hosts are those that neither report nor are stale.
  unfoldable pub data_of : ℕ → Counted → DashboardData
  data_of total c = record {
    generated_at_label = format_time (codes "15:04:05") now;
    summary = record {
      total_hosts = total;
      reporting_hosts = c.reporting;
      stale_hosts = c.stale;
      waiting_hosts = total - c.reporting - c.stale;
      monitored_hosts = c.monitored;
      system_info_hosts = c.with_system_info;
      management_methods = c.total_methods;
      latest_metric_at_label = format_metric_age format_time now c.latest_metric_time;
    };
    hosts = c.rows;
  }

  unfoldable pub collect_dashboard_data : ⦃u : Unicode⦄ → Run DashboardData
  collect_dashboard_data = do
    hosts ← list_hosts []
    let ids = map (λ (h : Host). h.id) hosts
    methods ← list_methods_by_hosts ids
    infos ← list_system_infos ids
    snapshots ← list_recent_snapshots ids (pos sparkline_samples)
    pure (data_of (length hosts) (count_hosts methods infos snapshots hosts nothing_counted))
