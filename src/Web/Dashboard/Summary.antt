-- ===== src/Web/Dashboard/Summary.antt =====
-- The numbers of the dashboard's overview against its rows.
use mathlib.Core.List.{append-nil, append_assoc}
use hosthalla.Base.{
  ℕ, ◌+◌, ◌≤◌, ◌≡◌, refl, sym, ap, ◌∙◌, Bool, true, false, not, List, [], ◌∷◌, ◌++◌, map, Option,
  none, some, length, select_rows, find_row, if◌then◌else◌, ◌==◌, nat_eq, text_eq, eq_of_==, arith,
  Bool-cases, inl, inr, pos, ok, pure,
}
use hosthalla.Base.Inversion.{>>=-ok}
use hosthalla.Text.{Text, Unicode, codes}
use hosthalla.Model.{Uuid, nil_uuid, Host, Method, Snapshot, SystemInfo, Metric}
use hosthalla.Schema.{Inventory}
use hosthalla.Web.Badges.{Float64}
use hosthalla.Host.Service.Hosts.{list_hosts}
use hosthalla.Host.Service.Methods.{list_methods_by_hosts}
use hosthalla.Host.Service.Metrics.{list_system_infos, list_recent_snapshots}
use hosthalla.Web.Dashboard.Page.{
  DashboardHostRow, DashboardData, Counted, nothing_counted, sparkline_samples, newest,
  count_metrics, count_host, count_hosts, data_of, is_recent, one_if, waiting_row, metric_row,
  host_monitoring_status, collect_dashboard_data,
}

abbrev pub row_ids : List DashboardHostRow → List Text
row_ids rows = map (λ (row : DashboardHostRow). row.id) rows

-- How many rows have a status.
abbrev pub tally : Text → List DashboardHostRow → ℕ
tally status [] = 0
tally status (row ∷ rows) = one_if (row.status == status) + tally status rows

abbrev pub reporting_status : Text
reporting_status = codes "reporting"

abbrev pub stale_status : Text
stale_status = codes "stale"

-- The counters are those of the rows, which are for the given identifiers.
record IsTallied (ids : List Text) (c : Counted) : Type 0 where
  reporting : c.reporting ≡ tally reporting_status c.rows
  stale : c.stale ≡ tally stale_status c.rows
  rows : row_ids c.rows ≡ ids

row_ids-append :
    (rows : List DashboardHostRow) (row : DashboardHostRow)
    → row_ids (rows ++ row ∷ []) ≡ row_ids rows ++ row.id ∷ []
row_ids-append [] row = refl
row_ids-append (r ∷ rows) row = ap (λ ids. r.id ∷ ids) (row_ids-append rows row)

tally-append :
    (status : Text) (rows : List DashboardHostRow) (row : DashboardHostRow)
    → tally status (rows ++ row ∷ []) ≡ tally status rows + one_if (row.status == status)
tally-append status [] row = omega arith
tally-append status (r ∷ rows) row = omega (arith, tally-append status rows row)

one_if-le : (b : Bool) → one_if b ≤ 1
one_if-le true = omega arith
one_if-le false = omega arith

-- The status of a row with metrics.
reporting-recent :
    (b : Bool)
    → one_if ((if b then reporting_status else stale_status) == reporting_status) ≡ one_if b
unfolding text_eq
reporting-recent true = refl
reporting-recent false = refl

stale-recent :
    (b : Bool)
    → one_if ((if b then reporting_status else stale_status) == stale_status) ≡ one_if (not b)
unfolding text_eq
stale-recent true = refl
stale-recent false = refl

apart :
    one_if (reporting_status == reporting_status) + one_if (reporting_status == stale_status) ≤ 1
unfolding text_eq
apart = omega arith

-- No row is counted under both.
tally-le :
    (rows : List DashboardHostRow)
    → tally reporting_status rows + tally stale_status rows ≤ length rows
tally-le [] = omega arith
tally-le (row ∷ rows) = omega (arith, tally-le rows, once row.status)
  where
    once : (s : Text) → one_if (s == reporting_status) + one_if (s == stale_status) ≤ 1
    once s = elim (Bool-cases (s == reporting_status)) [
      | inl same ↦ rw (eq_of_== s reporting_status same) apart
      | inr differ ↦ omega (arith, ap one_if differ, one_if-le (s == stale_status))
    ]

length-row_ids : (rows : List DashboardHostRow) → length (row_ids rows) ≡ length rows
length-row_ids [] = refl
length-row_ids (row ∷ rows) = omega (arith, length-row_ids rows)

module _ ⦃f : Float64⦄ (uuid_text : Uuid → Text) (format_time : Text → ℕ → Text) (now : ℕ) where
  count_metrics-IsTallied :
      (latest : Option (Snapshot × Metric)) (snapshots : List Snapshot) (info : Option SystemInfo)
      (row : DashboardHostRow) (ids : List Text) (c : Counted)
      → (row.status == reporting_status) ≡ false
      → (row.status == stale_status) ≡ false
      → IsTallied ids c
      → IsTallied
          (ids ++ row.id ∷ [])
          (count_metrics uuid_text format_time now latest snapshots info row c)
  count_metrics-IsTallied none snapshots info row ids c not_reporting not_stale h = record {
    reporting =
        omega
          (arith, h.reporting, tally-append reporting_status c.rows row, ap one_if not_reporting);
    stale = omega (arith, h.stale, tally-append stale_status c.rows row, ap one_if not_stale);
    rows = row_ids-append c.rows row ∙ ap (λ i. i ++ row.id ∷ []) h.rows;
  }
  count_metrics-IsTallied (some (snapshot, metric)) snapshots info row ids c not_reporting not_stale
        h =
      let new = metric_row uuid_text format_time now snapshot metric snapshots info row in
      record {
        reporting = omega (
          arith,
          h.reporting,
          tally-append reporting_status c.rows new,
          reporting-recent (is_recent uuid_text format_time now snapshot),
        );
        stale = omega (
          arith,
          h.stale,
          tally-append stale_status c.rows new,
          stale-recent (is_recent uuid_text format_time now snapshot),
        );
        rows = row_ids-append c.rows new ∙ ap (λ i. i ++ row.id ∷ []) h.rows;
      }

  waiting_row-status :
      (value : Host) (methods : List Method) (info : Option SystemInfo)
      → let row = waiting_row uuid_text format_time now value methods info in
        ((row.status == reporting_status) ≡ false) × ((row.status == stale_status) ≡ false)
  unfolding host_monitoring_status text_eq
  waiting_row-status value methods info =
      elim (Bool-cases (value.monitoring_agent_id == nil_uuid)) [
        | inl unset ↦ rw unset (refl, refl)
        | inr assigned ↦ rw assigned (refl, refl)
      ]

  count_hosts-IsTallied :
      (methods : List Method) (infos : List SystemInfo) (snapshots : List Snapshot)
      (hosts : List Host) (ids : List Text) (c : Counted)
      → IsTallied ids c
      → IsTallied
          (ids ++ map (λ (h : Host). uuid_text h.id) hosts)
          (count_hosts uuid_text format_time now methods infos snapshots hosts c)
  unfolding count_hosts count_host
  count_hosts-IsTallied methods infos snapshots [] ids c h = rw append-nil h
  count_hosts-IsTallied methods infos snapshots (value ∷ values) ids c h =
      let own = select_rows (λ (m : Method). m.host_id == value.id) methods in
      let info = find_row (λ (i : SystemInfo). i.host_id == value.id) infos in
      let recent = select_rows (λ (s : Snapshot). s.host_id == value.id) snapshots in
      let (not_reporting, not_stale) = waiting_row-status value own info in
      let one =
        count_metrics-IsTallied (newest uuid_text format_time now recent) recent info
          (waiting_row uuid_text format_time now value own info) ids _ not_reporting not_stale
          (record { reporting = h.reporting; stale = h.stale; rows = h.rows }) in
      rw
        (sym
          (append_assoc ids (uuid_text value.id ∷ []) (map (λ (h : Host). uuid_text h.id) values)))
        (count_hosts-IsTallied methods infos snapshots values (ids ++ uuid_text value.id ∷ []) _
          one)

  -- What the overview says of the hosts, against the rows below it.
  pub record IsSummary (hosts : List Host) (d : DashboardData) : Type 0 where
    pub rows : row_ids d.hosts ≡ map (λ (h : Host). uuid_text h.id) hosts
    pub reporting : d.summary.reporting_hosts ≡ tally reporting_status d.hosts
    pub stale : d.summary.stale_hosts ≡ tally stale_status d.hosts
    pub all :
        d.summary.reporting_hosts + d.summary.stale_hosts + d.summary.waiting_hosts ≡ length hosts
    pub total : d.summary.total_hosts ≡ length hosts

  length-ids :
      (hosts : List Host) → length (map (λ (h : Host). uuid_text h.id) hosts) ≡ length hosts
  length-ids [] = refl
  length-ids (h ∷ hosts) = omega (arith, length-ids hosts)

  counted-IsSummary :
      (hosts : List Host) (c : Counted)
      → IsTallied (map (λ (h : Host). uuid_text h.id) hosts) c
      → IsSummary hosts (data_of uuid_text format_time now (length hosts) c)
  unfolding data_of
  counted-IsSummary hosts c h =
      let many = sym (length-row_ids c.rows) ∙ ap length h.rows ∙ length-ids hosts in
      record {
        rows = h.rows;
        reporting = h.reporting;
        stale = h.stale;
        all = omega (arith, h.reporting, h.stale, tally-le c.rows, many);
        total = refl;
      }

  given :
      (hosts : List Host) (d d' : DashboardData)
      → ok d ≡ ok d'
      → IsSummary hosts d
      → IsSummary hosts d'
  given hosts d d' e h = let same : d ≡ d' = cc in rw (sym same) h

  module _ ⦃u : Unicode⦄ where
    -- The data that `collectDashboardData` collects have a row for each host that is listed, in the
    -- order of the list; the hosts that report and those that are stale are as many as the rows with
    -- that status, and with the waiting ones they are all hosts.
    pub collect_dashboard_data-IsSummary :
        (s : Inventory) (d : DashboardData)
        → (collect_dashboard_data uuid_text format_time now s).0 ≡ ok d
        → (hosts : List Host) × ((list_hosts [] s).0 ≡ ok hosts) × IsSummary hosts d
    unfolding collect_dashboard_data pure
    collect_dashboard_data-IsSummary s d e =
        let (hosts, listed, first) = >>=-ok (list_hosts []) _ s e in
        let ids = map (λ (h : Host). h.id) hosts in
        let e1 = ap (λ q. q.0) (sym first) ∙ e in
        let (methods, x, second) = >>=-ok (list_methods_by_hosts ids) _ _ e1 in
        let e2 = ap (λ q. q.0) (sym second) ∙ e1 in
        let (infos, y, third) = >>=-ok (list_system_infos ids) _ _ e2 in
        let e3 = ap (λ q. q.0) (sym third) ∙ e2 in
        let (snapshots, z, fourth) =
          >>=-ok (list_recent_snapshots ids (pos sparkline_samples)) _ _ e3 in
        let done = ap (λ q. q.0) (sym fourth) ∙ e3 in
        let counted =
          count_hosts uuid_text format_time now methods infos snapshots hosts nothing_counted in
        (
          hosts,
          listed,
          given hosts _ d done (
              counted-IsSummary hosts counted (
                count_hosts-IsTallied methods infos snapshots hosts [] nothing_counted
                  (record { reporting = refl; stale = refl; rows = refl }))),
        )
