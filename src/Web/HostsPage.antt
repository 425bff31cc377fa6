-- ===== src/Web/HostsPage.antt =====
-- The list of hosts of internal/web/handlers/hosts.go: its query, filters and order.
pub mod Keys
pub mod Order
use hosthalla.Base.{
  ℕ, zero, suc, ◌+◌, ◌-◌, ◌*◌, ℤ, pos, negsuc, Bool, true, false, not, ◌&&◌, ◌||◌, List, [], ◌∷◌,
  ◌++◌, map, Option, none, some, contains, select_rows, find_row, sort_by, text_before, any,
  if◌then◌else◌, ◌==◌, nat_eq, text_eq, ltb, Result, ok, err, Error, pure, attempt, lift, time_now,
  ◌>>=◌, ◌>>◌,
}
use hosthalla.Text.{Text, Unicode, codes, trim_space, to_lower, has_part}
use hosthalla.Model.{
  Uuid, nil_uuid, Host, Method, MethodType, ssh_password, ssh_key, other, Snapshot, SystemInfo,
  Metric, Tag,
}
use hosthalla.Schema.{Run}
use hosthalla.Web.Request.{Request, query_value}
use hosthalla.Web.Forms.{parse_host_tags_values, normalize_hosts_query_values}
use hosthalla.Web.Badges.{Float64, Badges, build_host_latest_metrics_badges}
use hosthalla.Host.Service.Hosts.{list_hosts, list_tags}
use hosthalla.Host.Service.Methods.{list_methods_by_hosts}
use hosthalla.Host.Service.Metrics.{list_system_infos, list_latest_snapshots}

abbrev is_one_of : List Text → Text → Bool
is_one_of words word = contains words word

unfoldable pub valid_hosts_status : Text → Bool
valid_hosts_status =
    is_one_of
      (codes "reporting" ∷ codes "stale" ∷ codes "waiting" ∷ codes "offline" ∷ codes "warning" ∷ [])

unfoldable pub valid_hosts_management_filter : Text → Bool
valid_hosts_management_filter =
    is_one_of (codes "agent" ∷ codes "ssh_password" ∷ codes "ssh_key" ∷ codes "unmanaged" ∷ [])

unfoldable pub valid_hosts_sort_key : Text → Bool
valid_hosts_sort_key = is_one_of (
    codes "name"
    ∷ codes "status"
    ∷ codes "address"
    ∷ codes "cpu"
    ∷ codes "memory"
    ∷ codes "disk"
    ∷ codes "updated"
    ∷ codes "created"
    ∷ [])

-- `hostsPageQuery`
pub record HostsPageQuery : Type 0 where
  pub search : Text
  pub tags : List Text
  pub statuses : List Text
  pub management_filters : List Text
  pub sort_key : Text
  pub sort_direction : Text

module _ ⦃u : Unicode⦄ where
  unfoldable pub parse_hosts_page_query : Request → HostsPageQuery
  parse_hosts_page_query r =
      let sort_key = trim_space (query_value r (codes "sort")) in
      let direction = to_lower (trim_space (query_value r (codes "direction"))) in
      record {
        search = trim_space (query_value r (codes "q"));
        tags =
            parse_host_tags_values (r.query (codes "tag"))
            ++ parse_host_tags_values (r.query (codes "tags"));
        statuses = normalize_hosts_query_values valid_hosts_status (r.query (codes "status"));
        management_filters =
            normalize_hosts_query_values valid_hosts_management_filter
              (r.query (codes "management"));
        sort_key = if valid_hosts_sort_key sort_key then sort_key else codes "created";
        sort_direction =
            if direction == codes "asc" || direction == codes "desc"
            then direction
            else codes "desc";
      }

-- `string(method.Type)`
unfoldable pub type_text : MethodType → Text
type_text ssh_password = codes "ssh_password"
type_text ssh_key = codes "ssh_key"
type_text (other t) = t

-- The three maps that the page is built from, by the host.
pub record PageData : Type 0 where
  pub methods : Uuid → List Method
  pub system_info : Uuid → Option SystemInfo
  pub badges : Uuid → Option Badges

abbrev unless_empty : List Text → List Text
unless_empty [] = codes "unmanaged" ∷ []
unless_empty (v ∷ vs) = v ∷ vs

-- `hostManagementFiltersForHostsPage`
unfoldable pub host_management_filters : Host → List Method → List Text
host_management_filters target methods = unless_empty (
    (if target.monitoring_agent_id == nil_uuid then [] else codes "agent" ∷ [])
    ++ map (λ (m : Method). type_text m.kind) methods)

-- 24 hours in nanoseconds.
abbrev pub day : ℕ
day = 24 * 3600 * 1000000000

module _ ⦃f : Float64⦄ where
  abbrev pub is_strained : Badges → Bool
  is_strained b =
      f.at_least b.cpu_usage_percentage 85
      || f.at_least b.memory_usage_percentage 90
      || f.at_least b.disk_usage_percentage 90

  -- `hostStatusForHostsPage`; `none` is a host without metrics.
  unfoldable pub host_status : Host → List Method → Option Badges → ℕ → Text
  host_status target methods (some b) now =
      if is_strained b
      then codes "warning"
      else if ltb day (now - target.updated_at)
      then codes "stale"
      else codes "reporting"
  host_status target [] none now =
      if target.monitoring_agent_id == nil_uuid then codes "offline" else codes "waiting"
  host_status target (m ∷ methods) none now = codes "waiting"

-- `hostStatusRankForHostsPage`
unfoldable pub host_status_rank : Text → ℕ
host_status_rank status =
    if status == codes "reporting"
    then 1
    else if status == codes "waiting"
    then 2
    else if status == codes "stale"
    then 3
    else if status == codes "warning"
    then 4
    else 5

unfoldable pub string_in_slice : Text → List Text → Bool
string_in_slice value [] = false
string_in_slice value (candidate ∷ values) =
    if candidate == value then true else string_in_slice value values

unfoldable pub any_string_in_slice : List Text → List Text → Bool
any_string_in_slice [] candidates = false
any_string_in_slice (value ∷ values) candidates =
    if string_in_slice value candidates then true else any_string_in_slice values candidates

-- `strings.Join(parts, " ")`
unfoldable pub join_space : List Text → Text
join_space [] = []
join_space (part ∷ []) = part
join_space (part ∷ next ∷ parts) = part ++ b' ' ∷ join_space (next ∷ parts)

abbrev info_text : (SystemInfo → Text) → Option SystemInfo → Text
info_text field none = []
info_text field (some info) = field info

module _ ⦃u : Unicode⦄ where
  -- `hostSearchTextForHostsPage`; a host without system information has empty texts there.
  unfoldable pub host_search_text : Host → List Method → Option SystemInfo → List Text → Text
  host_search_text target methods info filters = to_lower (
      join_space (
        target.name
        ∷ target.description
        ∷ target.ip
        ∷ join_space target.tags
        ∷ join_space (map (λ (m : Method). m.name) methods)
        ∷ info_text (λ i. i.hostname) info
        ∷ info_text (λ i. i.os_name) info
        ∷ info_text (λ i. i.os_version) info
        ∷ join_space filters
        ∷ []))

abbrev is_empty {ℓ} : {A : Type ℓ} → List A → Bool
is_empty [] = true
is_empty (x ∷ xs) = false

module _ ⦃u : Unicode⦄ ⦃f : Float64⦄ (query : HostsPageQuery) (page : PageData) where
  -- The three tests of `filterHostsForHostsPage`, at the instant at which the host's turn comes.
  unfoldable pub is_listed : Host → ℕ → Bool
  is_listed target now =
      let methods = page.methods target.id in
      let filters = host_management_filters target methods in
      let search = to_lower query.search in
      (is_empty query.statuses
        || string_in_slice (host_status target methods (page.badges target.id) now) query.statuses)
      && (is_empty query.management_filters || any_string_in_slice filters query.management_filters)
      && (is_empty search
          || has_part (host_search_text target methods (page.system_info target.id) filters) search)

  unfoldable pub filter_hosts : List Host → Run (List Host)
  filter_hosts [] = pure []
  filter_hosts (target ∷ targets) = do
    now ← time_now
    rest ← filter_hosts targets
    pure (if is_listed target now then target ∷ rest else rest)

-- `a - b` of two ranks.
abbrev pub difference : ℕ → ℕ → ℤ
difference a b = if ltb a b then negsuc (b - a - 1) else pos (a - b)

abbrev minus_one : ℤ
minus_one = negsuc 0

-- `strings.Compare`
unfoldable pub compare_text : Text → Text → ℤ
compare_text a b = if text_before a b then minus_one else if text_before b a then pos 1 else pos 0

unfoldable pub compare_time : ℕ → ℕ → ℤ
compare_time left right =
    if ltb left right then minus_one else if ltb right left then pos 1 else pos 0

abbrev pub is_zero : ℤ → Bool
is_zero (pos zero) = true
is_zero (pos (suc n)) = false
is_zero (negsuc n) = false

abbrev pub is_positive : ℤ → Bool
is_positive (pos zero) = false
is_positive (pos (suc n)) = true
is_positive (negsuc n) = false

abbrev pub is_negative : ℤ → Bool
is_negative (pos n) = false
is_negative (negsuc n) = true

module _ ⦃f : Float64⦄ where
  unfoldable pub compare_float : ℕ → ℕ → ℤ
  compare_float left right =
      if f.less left right then minus_one else if f.less right left then pos 1 else pos 0

  -- The field of a map's value, 0 where the map has none.
  abbrev pub usage : (Badges → ℕ) → Option Badges → ℕ
  usage field none = f.of_nat 0
  usage field (some b) = field b

module _ ⦃u : Unicode⦄ ⦃f : Float64⦄ (query : HostsPageQuery) (page : PageData) (now : ℕ) where
  abbrev pub rank : Host → ℕ
  rank target =
      host_status_rank (host_status target (page.methods target.id) (page.badges target.id) now)

  abbrev compare_usage : (Badges → ℕ) → Host → Host → ℤ
  compare_usage field left right =
      compare_float (usage field (page.badges left.id)) (usage field (page.badges right.id))

  abbrev pub compare_names : Host → Host → ℤ
  compare_names left right = compare_text (to_lower left.name) (to_lower right.name)

  -- The switch on the sort key.
  unfoldable pub compare_keys : Host → Host → ℤ
  compare_keys left right =
      if query.sort_key == codes "name"
      then compare_names left right
      else if query.sort_key == codes "status"
      then difference (rank left) (rank right)
      else if query.sort_key == codes "address"
      then compare_text left.ip right.ip
      else if query.sort_key == codes "cpu"
      then compare_usage (λ b. b.cpu_usage_percentage) left right
      else if query.sort_key == codes "memory"
      then compare_usage (λ b. b.memory_usage_percentage) left right
      else if query.sort_key == codes "disk"
      then compare_usage (λ b. b.disk_usage_percentage) left right
      else if query.sort_key == codes "updated"
      then compare_time left.updated_at right.updated_at
      else compare_time left.created_at right.created_at

  abbrev or_names : ℤ → ℤ → ℤ
  or_names by_key by_name = if is_zero by_key then by_name else by_key

  abbrev pub compare_hosts : Host → Host → ℤ
  compare_hosts left right = or_names (compare_keys left right) (compare_names left right)

  -- The `less` of `sort.SliceStable`.
  unfoldable pub host_before : Host → Host → Bool
  host_before left right =
      if query.sort_direction == codes "desc"
      then is_positive (compare_hosts left right)
      else is_negative (compare_hosts left right)

  -- `sortHostsForHostsPage`
  unfoldable pub sort_hosts : List Host → List Host
  sort_hosts hosts = sort_by host_before hosts
