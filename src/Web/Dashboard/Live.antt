-- ===== src/Web/Dashboard/Live.antt =====
-- `renderLiveUpdate` of internal/web/handlers/dashboard.go: the parts of the page that an update
-- makes it render, in their order. No template renders to nothing.
use hosthalla.Base.{
  Bool, true, false, not, ◌&&◌, List, [], ◌∷◌, ◌++◌, map, Option, none, some, contains, sort_by,
  text_before, if◌then◌else◌, ◌==◌, text_eq, Result, ok, err,
}
use hosthalla.Text.{Text}
use hosthalla.Model.{Uuid}
use hosthalla.Web.Hosts.{distinct}
use hosthalla.Web.Dashboard.{DashboardUpdate}
use hosthalla.Web.Dashboard.Page.{DashboardHostRow, DashboardData}

-- A template with the row that it is given; all others get the whole data.
pub data Fragment : Type 0 where
  generated_at_part : Fragment
  overview_part : Fragment
  hosts_part : Fragment
  row_part : DashboardHostRow → Fragment
  metrics_part : DashboardHostRow → Fragment
  whole_part : Fragment

-- A look-up in `dashboardHostRowsByID`: a later row of the same identifier takes the place of an
-- earlier one, and a row without one is left out.
unfoldable pub row_by_id : Text → List DashboardHostRow → Option DashboardHostRow
row_by_id id [] = none
row_by_id id (row ∷ rows) = elim (row_by_id id rows) [
  | some later ↦ some later
  | none ↦ if not (row.id == []) && (row.id == id) then some row else none
]

module _ (uuid_text : Uuid → Text) where
  unfoldable pub sorted_dashboard_host_ids : List Uuid → List Text
  sorted_dashboard_host_ids ids = sort_by text_before (distinct (map uuid_text ids))

  abbrev pub shown_row : (DashboardHostRow → Fragment) → Option DashboardHostRow → List Fragment
  shown_row part none = []
  shown_row part (some row) = part row ∷ []

  -- The loop over `hostRowIDs`.
  unfoldable pub row_parts : List DashboardHostRow → List Text → List Fragment
  row_parts rows [] = []
  row_parts rows (id ∷ ids) = shown_row row_part (row_by_id id rows) ++ row_parts rows ids

  abbrev pub is_found : Option DashboardHostRow → Bool
  is_found none = false
  is_found (some row) = true

  -- `renderedRowIDs`
  unfoldable pub rendered_row_ids : List DashboardHostRow → List Text → List Text
  rendered_row_ids rows [] = []
  rendered_row_ids rows (id ∷ ids) =
      let rest = rendered_row_ids rows ids in
      if is_found (row_by_id id rows) then id ∷ rest else rest

  -- The loop over `hostMetricIDs`.
  unfoldable pub metric_parts : List Text → List DashboardHostRow → List Text → List Fragment
  metric_parts rendered rows [] = []
  metric_parts rendered rows (id ∷ ids) =
      let rest = metric_parts rendered rows ids in
      if contains rendered id then rest else shown_row metrics_part (row_by_id id rows) ++ rest

  abbrev pub part_if : Bool → Fragment → List Fragment
  part_if true part = part ∷ []
  part_if false part = []

  abbrev pub asked_ids : Bool → List Uuid → List Text
  asked_ids true ids = sorted_dashboard_host_ids ids
  asked_ids false ids = []

  -- The two loops, in place of the whole list of hosts.
  unfoldable pub host_parts : DashboardUpdate → List DashboardHostRow → List Fragment
  host_parts update rows =
      let row_ids = asked_ids update.sections.host_rows update.host_row_ids in
      row_parts rows row_ids
      ++ metric_parts (rendered_row_ids rows row_ids) rows
          (asked_ids update.sections.host_metrics update.host_metric_ids)

  abbrev pub or_whole : List Fragment → List Fragment
  or_whole [] = whole_part ∷ []
  or_whole (part ∷ parts) = part ∷ parts

  unfoldable pub render_live_update : DashboardUpdate → DashboardData → List Fragment
  render_live_update update data_now = or_whole (
      part_if update.sections.generated_at generated_at_part
      ++ (part_if update.sections.overview overview_part
          ++ (if update.sections.hosts then hosts_part ∷ [] else host_parts update data_now.hosts)))

  -- `renderLiveUpdate`, with what `dashboardData` gives it.
  unfoldable pub live_update : DashboardUpdate → Result DashboardData → Result (List Fragment)
  live_update update (err e) = err e
  live_update update (ok data_now) = ok (render_live_update update data_now)
