-- ===== src/Tests/Pages.antt =====
-- Runs of the web interface.
use mathlib.Core.List.{Perm}
use hosthalla.Base.{
  ℕ, ◌+◌, ◌*◌, ◌/◌, ◌≡◌, ◌≢◌, ◌≤◌, refl, Bool, true, false, List, [], ◌∷◌, none, some, Error,
  failed, Result, ok, err, IsOk, ltb, leb, All, length, map, arith, pos, negsuc, nat_eq, text_eq,
  driver, exec, store, query, query_row, time_now, new_id, transaction, framed, lift, pure, attempt,
  publish, require, if◌then◌else◌, ◌⊎◌, contains, sort_by, insert_sorted, text_before, ◌>>=◌,
}
use hosthalla.Text.{Text, codes, trim_space, trim_left, trim_right, is_space, has_part, has_prefix}
use hosthalla.Text.Decimal.{itoa}
use hosthalla.Text.Normalize.{normalize_loop}
use hosthalla.Model.{Uuid, Host}
use hosthalla.Auth.Tables.{AuthDb, PasswordRow}
use hosthalla.Auth.Repository as Accounts
use hosthalla.Auth.Service.{validate_password, get_profile_by_username, create_session}
use hosthalla.Host.HostRepository as HostRows
use hosthalla.Host.Service.Hosts.{create_host, list_hosts, normalize_tags}
use hosthalla.Web.Request.{Request, Response, refused, rendered, or_refuse, answer}
use hosthalla.Web.Badges.{Float64, scale, scale_fuel, format_bytes}
use hosthalla.Web.Badges.Units.{IsUnit, format_bytes-IsUnit}
use hosthalla.Web.HostsPage.{HostsPageQuery, PageData, sort_hosts}
use hosthalla.Web.HostsPage.Keys.{belongs_before}
use hosthalla.Web.HostsPage.Order.{IsOrdered, sort_hosts-IsOrdered}
use hosthalla.Web.Hosts.{create_host_request, update_host_request}
use hosthalla.Web.Hosts.Unchanged.{host_forms-refused}
use hosthalla.Web.Transfer.{
  ExportedHost, ImportCounts, import_hosts, import_candidates, import_methods, gather, gather_valid,
  validate_imported_methods,
}
use hosthalla.Web.Transfer.Trace.{fresh_orders, HostsMade}
use hosthalla.Web.Transfer.Complete.{IsPresent, import_hosts_complete}
use hosthalla.Host.MethodRepository as MethodRows
use hosthalla.Host.SnapshotRepository as SnapshotRows
use hosthalla.Host.SystemInfoRepository as SystemRows
use hosthalla.Host.Service.Methods.{list_methods_by_hosts}
use hosthalla.Host.Service.Metrics.{list_system_infos, list_recent_snapshots}
use hosthalla.Web.Dashboard.Page.{
  DashboardHostRow, DashboardData, collect_dashboard_data, count_hosts, count_host, data_of,
  format_metric_age, host_monitoring_status, host_monitoring_status_label,
}
use hosthalla.Web.Dashboard.Summary.{IsSummary, collect_dashboard_data-IsSummary}
use hosthalla.Web.Dashboard.{DashboardUpdate, no_sections}
use hosthalla.Web.Dashboard.Live.{row_part, metrics_part, hosts_part, row_by_id, render_live_update}
use hosthalla.Web.Dashboard.Shown.{Holds, render_live_update-Holds}
use hosthalla.Web.Administration.{parse_token_expires_in_days, hour}
use hosthalla.Web.Administration.Expiry.{parse_token_expires_in_days-itoa}
use hosthalla.Web.Sessions.{Cookie, login, auth_middleware, passed, is_https_request}
use hosthalla.Web.Sessions.Login.{IsAdmitted, login-admits}
use hosthalla.Tests.{host_row, ascii, inventory, cipher, auth_db}
use hosthalla.Tests.Hosts.{codec}

less_than_asym : (a b : ℕ) → ltb a b ≡ true → ltb b a ≡ false
less_than_asym a b h = ground arith

-- Whole numbers in the place of floating point.
instance unfoldable whole : Float64
whole = record {
  of_nat = λ n. n;
  divide = λ a b. a / b;
  times = λ a b. a * b;
  less = ltb;
  at_least = λ a n. leb n a;
  is_nan = λ n. false;
  is_inf = λ n. false;
  max = λ a b. if leb a b then b else a;
  min = λ a b. if leb a b then a else b;
  print = itoa;
  less_asym = less_than_asym;
}

format_bytes-IsUnit_example :
    IsOk (format_bytes 2000000)
    × (1024 ≤ 2000000
        → IsUnit 2000000
            (scale scale_fuel (2000000 / 1024) 1024 0).0
            (scale scale_fuel (2000000 / 1024) 1024 0).1)
format_bytes-IsUnit_example = format_bytes-IsUnit 2000000 (omega arith)

abbrev listed : Uuid → Text → Host
listed id name = record {
  id = id;
  name = name;
  description = [];
  tags = [];
  ip = codes "10.0.0.9";
  monitoring_agent_id = 0;
  created_at = 1;
  updated_at = 1;
}

abbrev by_name : HostsPageQuery
by_name = record {
  search = [];
  tags = [];
  statuses = [];
  management_filters = [];
  sort_key = codes "name";
  sort_direction = codes "asc";
}

abbrev empty_page : PageData
empty_page = record { methods = λ id. []; system_info = λ id. none; badges = λ id. none }

abbrev two_hosts : List Host
two_hosts = listed 1 (codes "web") ∷ listed 2 (codes "db") ∷ []

sort_hosts-IsOrdered_example :
    Perm (sort_hosts by_name empty_page 5 two_hosts) two_hosts
    × IsOrdered (belongs_before by_name empty_page 5) (sort_hosts by_name empty_page 5 two_hosts)
sort_hosts-IsOrdered_example = sort_hosts-IsOrdered by_name empty_page 5 two_hosts

abbrev request : Request
request = record {
  path = codes "/hosts";
  path_value = λ key. codes "1";
  query = λ key. [];
  form = λ key. [];
  form_error = none;
  header = λ key. codes "application/json";
  cookie = λ key. none;
  is_tls = true;
}

abbrev no_addr : Text → Result Text
no_addr t = err (failed "unable to parse IP")

abbrev any_uuid : Text → Result Uuid
any_uuid t = ok 1

host_forms-refused_example :
    ((create_host_request no_addr request inventory).0
        ≡ ok (refused 400 (failed "unable to parse IP"))
      → (create_host_request no_addr request inventory).1.tables ≡ inventory.tables)
    × ((update_host_request no_addr any_uuid request inventory).0
          ≡ ok (refused 400 (failed "unable to parse IP"))
        → (update_host_request no_addr any_uuid request inventory).1.tables ≡ inventory.tables)
host_forms-refused_example =
    host_forms-refused no_addr any_uuid request inventory 400 (failed "unable to parse IP")

abbrev exported : Text → ExportedHost
exported ip = record { name = codes "n"; description = []; tags = []; ip = some ip; methods = [] }

-- One address that is in the inventory and one that is not.
abbrev payload : List ExportedHost
payload = exported (codes "10.0.0.1") ∷ exported (codes "10.0.0.9") ∷ []

abbrev counted : Response ImportCounts
counted = rendered (record { imported = 1; skipped = 1; total_received = 2 })

counted_fine : (code : ℕ) (e : Error) → counted ≢ refused code e
counted_fine code e h = cc

import_hosts_complete_example :
    ((existing : List Host) × ((list_hosts [] inventory).0 ≡ ok existing)
      × HostsMade cipher codec
          (fresh_orders (map (λ (h : Host). h.ip) existing) [] payload)
          (list_hosts [] inventory).1
          (import_hosts cipher codec request (ok payload) inventory).1
      × ((counts : ImportCounts)
          → counted ≡ rendered counts
          → counts.imported ≡ length (fresh_orders (map (λ (h : Host). h.ip) existing) [] payload)))
    × All (IsPresent (import_hosts cipher codec request (ok payload) inventory).1.tables) payload
    × ((counts : ImportCounts)
        → counted ≡ rendered counts
        → (counts.imported + counts.skipped ≡ counts.total_received)
          × (counts.total_received ≡ length payload))
unfolding import_hosts import_candidates import_methods gather gather_valid
    validate_imported_methods or_refuse answer list_hosts create_host normalize_tags normalize_loop
    HostRows.list_hosts HostRows.matches_tags HostRows.hosts_of_rows HostRows.list_tag_names
    HostRows.tag_names HostRows.create_host HostRows.create_host_body HostRows.insert_host
    HostRows.sync_host_tags HostRows.clear_host_tags HostRows.sync_host_tag_loop
    HostRows.get_host_by_id query_row query exec store driver time_now new_id transaction framed
    publish pure lift attempt sort_by insert_sorted text_before ◌>>=◌ trim_space trim_left
    trim_right is_space has_part has_prefix ascii nat_eq text_eq
import_hosts_complete_example =
    import_hosts_complete cipher codec request payload inventory counted refl counted_fine

parse_token_expires_in_days-itoa_example :
    (30 ≤ 106751 → parse_token_expires_in_days (itoa 30) ≡ ok (pos (30 * 24 * hour)))
    × (106752 ≤ 30
        → 30 ≤ 213503
        → (m : ℕ) × (parse_token_expires_in_days (itoa 30) ≡ ok (negsuc m)))
parse_token_expires_in_days-itoa_example = parse_token_expires_in_days-itoa 30

abbrev password_row : PasswordRow
password_row = record {
  id = codes "k";
  profile_id = codes "p";
  password_hash = codes "secret";
  created_at = 1;
  updated_at = 1;
}

abbrev accounts : AuthDb
accounts = record auth_db { tables = record auth_db.tables { passwords = password_row ∷ [] } }

-- A form that gives "ann" for every field; and a comparison that accepts it.
abbrev login_form : Request
login_form = record request { form = λ key. codes "ann" ∷ [] }

abbrev accept_any : Text → Text → Bool
accept_any hash password = true

abbrev cookie : Cookie
cookie = record { value = codes "a"; is_secure = true; is_expired = false }

login-admits_example :
    (admitted : IsAdmitted accept_any login_form accounts.tables
      (login accept_any login_form accounts).1.tables
      cookie)
    × ((t : AuthDb)
        → t.tables ≡ (login accept_any login_form accounts).1.tables
        → ((k : ℕ) → t.world.faults k ≡ none)
        → (auth_middleware (some cookie.value) t).0 ≡ ok (passed admitted.session))
unfolding login is_https_request validate_password get_profile_by_username create_session
    Accounts.get_password_by_username Accounts.get_profile_by_username Accounts.create_session
    Accounts.insert_session query_row query exec store driver time_now new_id require pure lift
    attempt sort_by insert_sorted ◌>>=◌ trim_space trim_left trim_right is_space nat_eq text_eq
login-admits_example = login-admits accept_any login_form accounts cookie refl

abbrev date_text : Text → ℕ → Text
date_text layout t = codes "12:00"

abbrev dashboard_row : DashboardHostRow
dashboard_row = record {
  id = itoa host_row.id;
  name = host_row.name;
  ip = host_row.ip;
  tags = [];
  management_method_count = 1;
  has_monitoring_agent = false;
  status = codes "no_agent";
  status_label = codes "No agent";
  status_variant = codes "neutral";
  last_metric_label = codes "No metrics yet";
  cpu_usage_label = codes "n/a";
  cpu_usage_series = [];
  memory_usage_label = codes "n/a";
  memory_usage_series = [];
  disk_usage_label = codes "n/a";
  network_usage_label = codes "n/a";
  system_label = codes "Unknown system";
}

abbrev dashboard : DashboardData
dashboard = record {
  generated_at_label = codes "12:00";
  summary = record {
    total_hosts = 1;
    reporting_hosts = 0;
    stale_hosts = 0;
    waiting_hosts = 1;
    monitored_hosts = 0;
    system_info_hosts = 0;
    management_methods = 1;
    latest_metric_at_label = codes "No metrics yet";
  };
  hosts = dashboard_row ∷ [];
}

collect_dashboard_data-IsSummary_example :
    (hosts : List Host) × ((list_hosts [] inventory).0 ≡ ok hosts)
    × IsSummary itoa date_text 5 hosts dashboard
unfolding collect_dashboard_data count_hosts count_host data_of format_metric_age
    host_monitoring_status host_monitoring_status_label list_hosts normalize_tags normalize_loop
    list_methods_by_hosts list_system_infos list_recent_snapshots MethodRows.list_methods_by_hosts
    SystemRows.list_system_infos SnapshotRows.list_recent_snapshots SnapshotRows.ranked_snapshots
    SnapshotRows.load_all_metrics SnapshotRows.snapshot_rank SnapshotRows.metrics_of
    HostRows.list_hosts HostRows.matches_tags HostRows.hosts_of_rows HostRows.list_tag_names
    HostRows.tag_names query driver time_now pure attempt sort_by insert_sorted text_before ◌>>=◌
    nat_eq text_eq
collect_dashboard_data-IsSummary_example =
    collect_dashboard_data-IsSummary itoa date_text 5 inventory dashboard refl

-- An update that asks for the row of host 1.
abbrev asks_row : DashboardUpdate
asks_row = record {
  sections = record no_sections { host_rows = true };
  host_row_ids = 1 ∷ [];
  host_metric_ids = [];
}

render_live_update-Holds_example :
    (false ≡ true → Holds hosts_part (render_live_update itoa asks_row dashboard))
    × (false ≡ false
        → true ≡ true
        → contains asks_row.host_row_ids 1 ≡ true
        → Holds (row_part dashboard_row) (render_live_update itoa asks_row dashboard))
    × (false ≡ false
        → false ≡ true
        → contains asks_row.host_metric_ids 1 ≡ true
        → Holds (row_part dashboard_row) (render_live_update itoa asks_row dashboard)
          ⊎ Holds (metrics_part dashboard_row) (render_live_update itoa asks_row dashboard))
unfolding row_by_id text_eq itoa
render_live_update-Holds_example =
    render_live_update-Holds itoa asks_row dashboard 1 dashboard_row refl
