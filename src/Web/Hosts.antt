-- ===== src/Web/Hosts.antt =====
-- The handlers on hosts of internal/web/handlers/hosts.go. Identifiers, addresses and their texts
-- come from libraries: `parse_uuid`, `parse_addr` and `uuid_text` are parameters.
pub mod Unchanged
use hosthalla.Base.{
  ℕ, suc, ◌/◌, Bool, true, false, not, ◌&&◌, ◌||◌, List, [], ◌∷◌, ◌++◌, map, Option, none, some,
  contains, select_rows, find_row, sort_by, text_before, if◌then◌else◌, ◌==◌, nat_eq, text_eq,
  Result, ok, err, Error, failed, pure, lift, time_now, ◌>>=◌, ◌>>◌, Exec, String,
}
use hosthalla.Text.{Text, Unicode, codes, trim_space}
use hosthalla.Model.{Uuid, Host, Method, Snapshot, SystemInfo, Metric, Tag, PingResult}
use hosthalla.Schema.{Run}
use hosthalla.Auth.Tables.{Profile}
use hosthalla.Web.Request.{
  Request, form_value, query_value, Response, refused, redirected, rendered, or_refuse, parse_form,
}
use hosthalla.Web.Forms.{parse_host_tags_values}
use hosthalla.Web.Badges.{Float64, Badges, build_host_latest_metrics_badges}
use hosthalla.Web.HostsPage.{
  HostsPageQuery, PageData, parse_hosts_page_query, host_management_filters, filter_hosts,
  sort_hosts,
}
use hosthalla.Host.HostRepository.{CreateHostDto}
use hosthalla.Host.Service.Hosts.{
  list_hosts, list_tags, create_host, update_host, delete_host, get_host_by_id,
}
use hosthalla.Host.Service.Methods.{list_methods_by_hosts}
use hosthalla.Host.Service.Metrics.{list_system_infos, list_latest_snapshots}
use hosthalla.Host.Service.Ping.{Outcome, ping_host, ping_all_hosts}

-- The values of a list, each once.
abbrev pub distinct : List Text → List Text
distinct [] = []
distinct (t ∷ ts) = let rest = distinct ts in if contains rest t then rest else t ∷ rest

abbrev filters_of : (Uuid → List Method) → List Host → List Text
filters_of methods [] = []
filters_of methods (target ∷ targets) =
    host_management_filters target (methods target.id) ++ filters_of methods targets

-- `availableHostManagementFilters`
unfoldable pub available_host_management_filters : (Uuid → List Method) → List Host → List Text
available_host_management_filters methods hosts =
    sort_by text_before (distinct (filters_of methods hosts))

-- `HostsPageProps`, less the texts of its layout.
pub record HostsPageProps : Type 0 where
  pub hosts : List Host
  pub available_tags : List Tag
  pub available_management_filters : List Text
  pub query : HostsPageQuery
  pub page : PageData
  pub open_dialog_id : Text
  pub profile : Profile

abbrev strip_suffix : Text → Text
strip_suffix [] = []
strip_suffix (c ∷ []) = if c == b'/' then [] else c ∷ []
strip_suffix (c ∷ d ∷ s) = c ∷ strip_suffix (d ∷ s)

-- `strings.HasSuffix`
abbrev has_suffix : Text → Text → Bool
has_suffix [] suffix = suffix == []
has_suffix (c ∷ s) suffix = c ∷ s == suffix || has_suffix s suffix

unfoldable pub hosts_open_dialog_id : Request → Text
hosts_open_dialog_id r =
    let path = strip_suffix r.path in
    let host_id = r.path_value (codes "id") in
    let method_id = r.path_value (codes "methodID") in
    if path == codes "/hosts/create"
    then codes "create-host-dialog"
    else if not (host_id == []) && has_suffix path (codes "/methods/create")
    then codes "add-host-management-method-dialog-" ++ host_id
    else if not (method_id == []) && has_suffix path (codes "/update")
    then codes "update-host-management-method-" ++ method_id
    else if not (method_id == [])
    then codes "host-management-method-details-" ++ method_id
    else if not (host_id == []) && has_suffix path (codes "/update")
    then codes "update-host-dialog-" ++ host_id
    else if not (host_id == [])
    then codes "host-details-dialog-" ++ host_id
    else []

module _ ⦃f : Float64⦄ where
  abbrev badges_of : Option SystemInfo → Option Snapshot → Option Badges
  badges_of info none = none
  badges_of info (some snapshot) = elim snapshot.metrics [
    | [] ↦ none
    | metric ∷ rest ↦ some (build_host_latest_metrics_badges metric info)
  ]

  -- The loop of `ListHosts` that fills the three maps.
  unfoldable pub page_data : List Method → List SystemInfo → List Snapshot → PageData
  page_data methods infos snapshots =
      let info = λ (id : Uuid). find_row (λ (i : SystemInfo). i.host_id == id) infos in
      record {
        methods = λ id. select_rows (λ (m : Method). m.host_id == id) methods;
        system_info = info;
        badges = λ id. badges_of (info id) (find_row (λ (s : Snapshot). s.host_id == id) snapshots);
      }

abbrev pub hosts_path : Text
hosts_path = codes "/hosts"

module _ ⦃u : Unicode⦄ ⦃f : Float64⦄ where
  -- `ListHosts`; `profile` is what the session in the context and its profile come to.
  unfoldable pub list_hosts_page : Request → Result Profile → Run (Response HostsPageProps)
  list_hosts_page r loaded =
      let query = parse_hosts_page_query r in
      or_refuse 500 (list_hosts query.tags) λ hosts.
        let ids = map (λ (h : Host). h.id) hosts in
        or_refuse 500 (list_methods_by_hosts ids) λ methods.
          or_refuse 500 (list_system_infos ids) λ infos.
            or_refuse 500 (list_latest_snapshots ids) λ snapshots.
              let page = page_data methods infos snapshots in
              do
                shown ← filter_hosts query page hosts
                now ← time_now
                or_refuse 500 list_tags λ tags. or_refuse 500 (lift loaded) λ profile. pure (
                    rendered (record {
                      hosts = sort_hosts query page now shown;
                      available_tags = tags;
                      available_management_filters =
                          available_host_management_filters page.methods hosts;
                      query = query;
                      page = page;
                      open_dialog_id = hosts_open_dialog_id r;
                      profile = profile;
                    }))

module _ (parse_uuid : Text → Result Uuid) where
  abbrev pub host_id_of : Request → Result Uuid
  host_id_of r = parse_uuid (r.path_value (codes "id"))

  abbrev pub method_id_of : Request → Result Uuid
  method_id_of r = parse_uuid (r.path_value (codes "methodID"))

module _ ⦃u : Unicode⦄ (parse_addr : Text → Result Text) where
  abbrev form_of : Request → Result Text → Result CreateHostDto
  form_of r (err e) = err e
  form_of r (ok ip) = ok (record {
    name = form_value r (codes "name");
    description = form_value r (codes "description");
    tags =
        parse_host_tags_values (r.form (codes "tag"))
        ++ parse_host_tags_values (r.form (codes "tags"));
    ip = ip;
  })

  -- `parseHostForm`
  unfoldable pub parse_host_form : Request → Result CreateHostDto
  parse_host_form r = elim (parse_form r) [
    | err e ↦ err e
    | ok _ ↦ form_of r (parse_addr (form_value r (codes "ip")))
  ]

  -- `CreateHost`
  unfoldable pub create_host_request : Request → Run (Response Unit)
  create_host_request r =
      or_refuse 400 (lift (parse_host_form r))
        λ dto. or_refuse 500 (create_host dto) λ created. pure (redirected hosts_path)

  abbrev is_present : List Text → Bool
  is_present [] = false
  is_present (v ∷ vs) = true

  -- `hostTagsSubmitted`
  unfoldable pub host_tags_submitted : Request → Bool
  host_tags_submitted r = is_present (r.form (codes "tag")) || is_present (r.form (codes "tags"))

  unfoldable pub with_form : Request → CreateHostDto → Host → Host
  with_form r dto current = record current {
    name = dto.name;
    description = dto.description;
    tags = if host_tags_submitted r then dto.tags else current.tags;
    ip = dto.ip;
  }

  module _ (parse_uuid : Text → Result Uuid) where
    -- `UpdateHost`
    unfoldable pub update_host_request : Request → Run (Response Unit)
    update_host_request r = or_refuse 400 (lift (host_id_of parse_uuid r)) λ host_id.
        or_refuse 400 (lift (parse_host_form r)) λ dto.
          or_refuse 404 (get_host_by_id host_id) λ current.
            or_refuse 500 (update_host (with_form r dto current))
              λ updated. pure (redirected hosts_path)

module _ (parse_uuid : Text → Result Uuid) where
  -- `DeleteHost`
  unfoldable pub delete_host_request : Request → Run (Response Unit)
  delete_host_request r =
      or_refuse 400 (lift (host_id_of parse_uuid r))
        λ host_id. or_refuse 500 (delete_host host_id) λ done. pure (redirected hosts_path)

-- `hosts_page.PingResult`
pub record PageResult : Type 0 where
  pub host_id : Text
  pub is_reachable : Bool
  pub duration_ms : ℕ
  pub message : String

module _ (uuid_text : Uuid → Text) where
  abbrev pub page_result : PingResult → PageResult
  page_result result = record {
    host_id = uuid_text result.host_id;
    is_reachable = result.is_reachable;
    duration_ms = result.duration / 1000000;
    message = result.error_message;
  }

  -- `hostPingResultTargetID`
  unfoldable pub host_ping_result_target_id : Request → Text → Text
  host_ping_result_target_id r host_id =
      let target = trim_space (query_value r (codes "target")) in
      if target == codes "host-ping-result-card-" ++ host_id
      then target
      else codes "host-ping-result-" ++ host_id

  module _ ⦃u : Unicode⦄ (parse_uuid : Text → Result Uuid) (ping : ℕ → Text → Outcome) where
    -- `PingHost`: the slot's identifier and the result in it.
    unfoldable pub ping_host_request : Request → Run (Response (Text × PageResult))
    ping_host_request r = or_refuse 400 (lift (host_id_of parse_uuid r)) λ host_id.
        or_refuse 500 (ping_host ping host_id) λ result.
          pure
            (rendered (host_ping_result_target_id r (uuid_text result.host_id), page_result result))

    -- `PingAllHosts`
    unfoldable pub ping_all_hosts_request : Run (Response (List PageResult))
    ping_all_hosts_request =
        or_refuse 500 (ping_all_hosts ping) λ results. pure (rendered (map page_result results))
