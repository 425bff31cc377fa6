-- ===== src/Web/Dashboard/Shown.antt =====
-- What a live update renders against what it was asked for.
use hosthalla.Base.{
  ◌≡◌, refl, sym, ap, ◌∙◌, true, false, ◌||◌, List, [], ◌∷◌, ◌++◌, map, some, contains, any,
  any-sort_by, text_before, if◌then◌else◌, ◌==◌, ==_refl, eq_of_==, nat_eq, text_eq, arith,
  Bool-cases, ◌⊎◌, inl, inr,
}
use hosthalla.Text.{Text}
use hosthalla.Model.{Uuid}
use hosthalla.Web.Hosts.{distinct}
use hosthalla.Web.Dashboard.{DashboardUpdate}
use hosthalla.Web.Dashboard.Page.{DashboardHostRow, DashboardData}
use hosthalla.Web.Dashboard.Live.{
  Fragment, generated_at_part, overview_part, row_part, metrics_part, hosts_part, row_by_id,
  sorted_dashboard_host_ids, row_parts, rendered_row_ids, metric_parts, asked_ids, host_parts,
  render_live_update, is_found, shown_row, or_whole, part_if,
}

-- A template is rendered for a row.
abbrev pub Holds : Fragment → List Fragment → Type 0
Holds part [] = ⊥
Holds part (p ∷ parts) = (p ≡ part) ⊎ Holds part parts

Holds-right : (part : Fragment) (ps qs : List Fragment) → Holds part qs → Holds part (ps ++ qs)
Holds-right part [] qs h = h
Holds-right part (p ∷ ps) qs h = inr (Holds-right part ps qs h)

Holds-left : (part : Fragment) (ps qs : List Fragment) → Holds part ps → Holds part (ps ++ qs)
Holds-left part [] qs h = absurd h
Holds-left part (p ∷ ps) qs (inl same) = inl same
Holds-left part (p ∷ ps) qs (inr h) = inr (Holds-left part ps qs h)

contains-any : (ts : List Text) (t : Text) → contains ts t ≡ any (λ x. t == x) ts
contains-any [] t = refl
contains-any (x ∷ ts) t = ap (λ b. t == x || b) (contains-any ts t)

contains-distinct : (ts : List Text) (t : Text) → contains (distinct ts) t ≡ contains ts t
contains-distinct [] t = refl
contains-distinct (x ∷ ts) t = elim (Bool-cases (contains (distinct ts) x)) [
  | inl old ↦ rw old (elim (Bool-cases (t == x)) [
    | inl same ↦ rw (same, eq_of_== t x same) old
    | inr other ↦ rw other (contains-distinct ts t)
  ])
  | inr new ↦ rw (new, contains-distinct ts t) refl
]

contains-map :
    (f : Uuid → Text) (ids : List Uuid) (id : Uuid)
    → contains ids id ≡ true
    → contains (map f ids) (f id) ≡ true
contains-map f [] id h = cc
contains-map f (i ∷ ids) id h = elim (Bool-cases (id == i)) [
  | inl same ↦ rw (eq_of_== id i same, ==_refl (f i)) refl
  | inr other ↦ ground (arith, other, h, contains-map f ids id)
]

module _ (uuid_text : Uuid → Text) where
  contains-sorted :
      (ids : List Uuid) (id : Uuid)
      → contains ids id ≡ true
      → contains (sorted_dashboard_host_ids uuid_text ids) (uuid_text id) ≡ true
  unfolding sorted_dashboard_host_ids
  contains-sorted ids id h =
      contains-any _ (uuid_text id)
      ∙ any-sort_by text_before (λ x. uuid_text id == x) (distinct (map uuid_text ids))
      ∙ sym (contains-any (distinct (map uuid_text ids)) (uuid_text id))
      ∙ contains-distinct (map uuid_text ids) (uuid_text id)
      ∙ contains-map uuid_text ids id h

  row_parts-Holds :
      (rows : List DashboardHostRow) (ids : List Text) (id : Text) (row : DashboardHostRow)
      → contains ids id ≡ true
      → row_by_id id rows ≡ some row
      → Holds (row_part row) (row_parts uuid_text rows ids)
  unfolding row_parts
  row_parts-Holds rows [] id row h found = cc
  row_parts-Holds rows (i ∷ ids) id row h found = elim (Bool-cases (id == i)) [
    | inl same ↦ rw (sym (eq_of_== id i same), found) (inl refl)
    | inr other ↦
        Holds-right _ (shown_row uuid_text row_part (row_by_id i rows)) _
          (row_parts-Holds rows ids id row (ground (arith, other, h)) found)
  ]

  rendered_asked :
      (rows : List DashboardHostRow) (ids : List Text) (id : Text)
      → contains (rendered_row_ids uuid_text rows ids) id ≡ true
      → contains ids id ≡ true
  unfolding rendered_row_ids
  rendered_asked rows [] id h = cc
  rendered_asked rows (i ∷ ids) id h = elim (Bool-cases (is_found uuid_text (row_by_id i rows))) [
    | inl there ↦ ground (arith, there, h, rendered_asked rows ids id)
    | inr missing ↦ ground (arith, missing, h, rendered_asked rows ids id)
  ]

  metric_parts-Holds :
      (rendered : List Text) (rows : List DashboardHostRow) (ids : List Text) (id : Text)
      (row : DashboardHostRow)
      → contains ids id ≡ true
      → contains rendered id ≡ false
      → row_by_id id rows ≡ some row
      → Holds (metrics_part row) (metric_parts uuid_text rendered rows ids)
  unfolding metric_parts
  metric_parts-Holds rendered rows [] id row h new found = cc
  metric_parts-Holds rendered rows (i ∷ ids) id row h new found = elim (Bool-cases (id == i)) [
    | inl same ↦ rw (sym (eq_of_== id i same), new, found) (inl refl)
    | inr other ↦
        let later =
          metric_parts-Holds rendered rows ids id row (ground (arith, other, h)) new found in
        elim (Bool-cases (contains rendered i)) [
          | inl old ↦ rw old later
          | inr fresh ↦
              rw fresh (Holds-right _ (shown_row uuid_text metrics_part (row_by_id i rows)) _ later)
        ]
  ]

  -- What stands where the list of hosts would be.
  host_parts-Holds :
      (update : DashboardUpdate) (rows : List DashboardHostRow) (id : Uuid) (row : DashboardHostRow)
      → row_by_id (uuid_text id) rows ≡ some row
      → (update.sections.host_rows ≡ true
          → contains update.host_row_ids id ≡ true
          → Holds (row_part row) (host_parts uuid_text update rows))
        × (update.sections.host_metrics ≡ true
            → contains update.host_metric_ids id ≡ true
            → Holds (row_part row) (host_parts uuid_text update rows)
              ⊎ Holds (metrics_part row) (host_parts uuid_text update rows))
  unfolding host_parts
  host_parts-Holds update rows id row found =
      let asked = asked_ids uuid_text update.sections.host_rows update.host_row_ids in
      let rendered = rendered_row_ids uuid_text rows asked in
      let shown = λ (h : contains asked (uuid_text id) ≡ true).
        Holds-left (row_part row) (row_parts uuid_text rows asked)
          (metric_parts uuid_text rendered rows
            (asked_ids uuid_text update.sections.host_metrics update.host_metric_ids))
          (row_parts-Holds rows asked (uuid_text id) row h found) in
      (
        λ on h. shown (rw on (contains-sorted update.host_row_ids id h)),
        λ on h. elim (Bool-cases (contains rendered (uuid_text id))) [
          | inl old ↦ inl (shown (rendered_asked rows asked (uuid_text id) old))
          | inr new ↦ inr (
              Holds-right _ (row_parts uuid_text rows asked) _ (
                metric_parts-Holds rendered rows _ (uuid_text id) row
                  (rw on (contains-sorted update.host_metric_ids id h)) new found))
        ],
      )

  Holds-or_whole :
      (part : Fragment) (parts : List Fragment)
      → Holds part parts
      → Holds part (or_whole uuid_text parts)
  Holds-or_whole part (p ∷ parts) h = h
  Holds-or_whole part [] h = absurd h

  -- The part of the hosts is within what is rendered.
  Holds-rendered :
      (update : DashboardUpdate) (d : DashboardData) (part : Fragment)
      → Holds part
          (if update.sections.hosts then hosts_part ∷ [] else host_parts uuid_text update d.hosts)
      → Holds part (render_live_update uuid_text update d)
  unfolding render_live_update
  Holds-rendered update d part h = Holds-or_whole part _ (
      Holds-right part (part_if uuid_text update.sections.generated_at generated_at_part) _
        (Holds-right part (part_if uuid_text update.sections.overview overview_part) _ h))

  -- A live update shows every host that it is asked for and that the data have a row of: the whole
  -- list where that is asked for; else its row, if it is asked for by row, and if it is asked for by
  -- metrics then its row or its metrics.
  pub render_live_update-Holds :
      (update : DashboardUpdate) (d : DashboardData) (id : Uuid) (row : DashboardHostRow)
      → row_by_id (uuid_text id) d.hosts ≡ some row
      → (update.sections.hosts ≡ true → Holds hosts_part (render_live_update uuid_text update d))
        × (update.sections.hosts ≡ false
            → update.sections.host_rows ≡ true
            → contains update.host_row_ids id ≡ true
            → Holds (row_part row) (render_live_update uuid_text update d))
        × (update.sections.hosts ≡ false
            → update.sections.host_metrics ≡ true
            → contains update.host_metric_ids id ≡ true
            → Holds (row_part row) (render_live_update uuid_text update d)
              ⊎ Holds (metrics_part row) (render_live_update uuid_text update d))
  unfolding host_parts
  render_live_update-Holds update d id row found =
      let (by_row, by_metrics) = host_parts-Holds update d.hosts id row found in
      (
        λ whole. Holds-rendered update d hosts_part (rw whole (inl refl)),
        λ rest on h. Holds-rendered update d (row_part row) (rw rest (by_row on h)),
        λ rest on h. elim (by_metrics on h) [
          | inl shown ↦ inl (Holds-rendered update d (row_part row) (rw rest shown))
          | inr shown ↦ inr (Holds-rendered update d (metrics_part row) (rw rest shown))
        ],
      )
