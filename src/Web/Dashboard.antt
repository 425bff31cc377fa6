-- ===== src/Web/Dashboard.antt =====
-- The live updates of internal/web/handlers/dashboard.go: what an event asks for, the queue of each
-- client, and the cache of the page's data, which are a parameter here and stand in Page.antt.
pub mod Queue
pub mod Page
pub mod Live
pub mod Shown
pub mod Summary
use hosthalla.Base.{
  ℕ, zero, suc, ◌+◌, ◌*◌, Bool, true, false, not, ◌&&◌, ◌||◌, List, [], ◌∷◌, ◌++◌, map, Option,
  none, some, length, if◌then◌else◌, ◌==◌, nat_eq, ltb, Exec, Result, ok, err, pure, ◌>>=◌,
}
use hosthalla.Model.{
  Uuid, nil_uuid, Event, host_created, host_updated, host_deleted, monitoring_agent_assigned,
  method_created, metric_received, snapshot_created, system_info_updated, ping_completed,
  ping_all_completed, agent_registered, agent_updated, agent_deleted, agent_seen,
}

-- `dashboardUpdateSections`: a Boolean for each bit.
pub record Sections : Type 0 where
  pub generated_at : Bool
  pub overview : Bool
  pub hosts : Bool
  pub host_rows : Bool
  pub host_metrics : Bool

abbrev pub no_sections : Sections
no_sections = record {
  generated_at = false;
  overview = false;
  hosts = false;
  host_rows = false;
  host_metrics = false;
}

-- `dashboardUpdateAll`
abbrev pub all_sections : Sections
all_sections = record no_sections { generated_at = true; overview = true; hosts = true }

-- `a | b`
abbrev pub either_section : Sections → Sections → Sections
either_section a b = record {
  generated_at = a.generated_at || b.generated_at;
  overview = a.overview || b.overview;
  hosts = a.hosts || b.hosts;
  host_rows = a.host_rows || b.host_rows;
  host_metrics = a.host_metrics || b.host_metrics;
}

-- `sections == 0`
abbrev pub is_zero : Sections → Bool
is_zero s = not (s.generated_at || s.overview || s.hosts || s.host_rows || s.host_metrics)

-- `dashboardUpdate`, whose two maps are lists of their keys.
pub record DashboardUpdate : Type 0 where
  pub sections : Sections
  pub host_row_ids : List Uuid
  pub host_metric_ids : List Uuid

abbrev pub only_sections : Sections → DashboardUpdate
only_sections s = record { sections = s; host_row_ids = []; host_metric_ids = [] }

-- `dashboardHostRowUpdate` for one host.
unfoldable pub dashboard_host_row_update : Sections → Uuid → DashboardUpdate
dashboard_host_row_update s host_id =
    if host_id == nil_uuid
    then only_sections (either_section s (record no_sections { hosts = true }))
    else record {
      sections = either_section s (record no_sections { host_rows = true });
      host_row_ids = host_id ∷ [];
      host_metric_ids = [];
    }

-- `dashboardHostMetricUpdate` for one host.
unfoldable pub dashboard_host_metric_update : Sections → Uuid → DashboardUpdate
dashboard_host_metric_update s host_id =
    if host_id == nil_uuid
    then only_sections (either_section s (record no_sections { hosts = true }))
    else record {
      sections = either_section s (record no_sections { host_metrics = true });
      host_row_ids = [];
      host_metric_ids = host_id ∷ [];
    }

abbrev clock_section : Sections
clock_section = record no_sections { generated_at = true }

abbrev clock_and_overview : Sections
clock_and_overview = record no_sections { generated_at = true; overview = true }

unfoldable pub dashboard_update_for_event : Event → DashboardUpdate
dashboard_update_for_event (host_created h) = only_sections all_sections
dashboard_update_for_event (host_deleted id) = only_sections all_sections
dashboard_update_for_event (host_updated h) = dashboard_host_row_update clock_section h.id
dashboard_update_for_event (snapshot_created id s) =
    dashboard_host_metric_update clock_and_overview id
dashboard_update_for_event (system_info_updated id i) =
    dashboard_host_row_update clock_and_overview id
dashboard_update_for_event (monitoring_agent_assigned id agent) =
    dashboard_host_row_update clock_and_overview id
dashboard_update_for_event (method_created id m) = dashboard_host_row_update clock_and_overview id
dashboard_update_for_event (ping_completed r) = only_sections no_sections
dashboard_update_for_event (ping_all_completed rs) = only_sections no_sections
dashboard_update_for_event (metric_received id m) = only_sections no_sections
dashboard_update_for_event (agent_registered a h) = only_sections no_sections
dashboard_update_for_event (agent_updated a) = only_sections no_sections
dashboard_update_for_event (agent_deleted a) = only_sections no_sections
dashboard_update_for_event (agent_seen a h) = only_sections no_sections

-- `mergeDashboardUpdates`
unfoldable pub merge_dashboard_updates : DashboardUpdate → DashboardUpdate → DashboardUpdate
merge_dashboard_updates left right = record {
  sections = either_section left.sections right.sections;
  host_row_ids = left.host_row_ids ++ right.host_row_ids;
  host_metric_ids = left.host_metric_ids ++ right.host_metric_ids;
}

-- `make(chan dashboardUpdate, 8)`
abbrev pub client_capacity : ℕ
client_capacity = 8

-- A client's channel, what the client has taken from it, and what `signalClient` let go of.
pub record Client : Type 0 where
  pub taken : List DashboardUpdate
  pub channel : List DashboardUpdate
  pub dropped : List DashboardUpdate

abbrev pub new_client : Client
new_client = record { taken = []; channel = []; dropped = [] }

-- The client takes the next update, if there is one.
abbrev pub take_from : List DashboardUpdate → Client → Client
take_from [] c = c
take_from (update ∷ rest) c = record c { taken = c.taken ++ update ∷ []; channel = rest }

-- The client takes a number of updates, or all that there are.
unfoldable pub take_up_to : ℕ → Client → Client
take_up_to zero c = c
take_up_to (suc n) c = take_up_to n (take_from c.channel c)

-- How many updates the client takes between the selects of `signalClient`, the outer and the middle
-- one, and the middle and the inner one.
pub record Gaps : Type 0 where
  pub first : ℕ
  pub second : ℕ

-- `select { case client.updateCh <- update: default: ... }`, where `otherwise` is the default.
abbrev pub send_or : (Client → Client) → DashboardUpdate → Client → Client
send_or otherwise update c =
    if ltb (length c.channel) client_capacity
    then record c { channel = c.channel ++ update ∷ [] }
    else otherwise c

abbrev pub drop_update : DashboardUpdate → Client → Client
drop_update update c = record c { dropped = c.dropped ++ update ∷ [] }

-- The middle select: the oldest update comes out and goes back merged, unless the client has
-- emptied the channel.
abbrev pub merge_oldest : ℕ → DashboardUpdate → List DashboardUpdate → Client → Client
merge_oldest second update [] c = drop_update update c
merge_oldest second update (pending ∷ rest) c =
    let merged = merge_dashboard_updates pending update in
    send_or (drop_update merged) merged (take_up_to second (record c { channel = rest }))

abbrev pub signal_full : Gaps → DashboardUpdate → Client → Client
signal_full gaps update c = merge_oldest gaps.second update c.channel c

-- `signalClient`, while no other goroutine signals the client.
unfoldable pub signal_client : Gaps → DashboardUpdate → Client → Client
signal_client gaps update c =
    send_or (λ full. signal_full gaps update (take_up_to gaps.first full)) update c

-- The loop of `queueLiveUpdate`, with the gaps at each client.
unfoldable pub signal_all : (ℕ → Gaps) → DashboardUpdate → List Client → List Client
signal_all gaps update [] = []
signal_all gaps update (c ∷ cs) =
    signal_client (gaps 0) update c ∷ signal_all (λ n. gaps (suc n)) update cs

-- The handler's cache, and its clients.
pub record Dashboard (D : Type 0) : Type 0 where
  pub cached : Option (D × ℕ)
  pub clients : List Client

-- 30 seconds in nanoseconds.
abbrev pub cache_ttl : ℕ
cache_ttl = 30 * 1000000000

abbrev without : ℕ → List Client → List Client
without place [] = []
without zero (client ∷ clients) = clients
without (suc place) (client ∷ clients) = client ∷ without place clients

module _ {D : Type 0} where
  -- The handler that `subscribeDashboardEvent` subscribes, with `invalidateCache` and
  -- `queueLiveUpdate`.
  unfoldable pub on_event : (ℕ → Gaps) → Event → Dashboard D → Dashboard D
  on_event gaps event h =
      let update = dashboard_update_for_event event in
      if is_zero update.sections
      then h
      else record { cached = none; clients = signal_all gaps update h.clients }

  abbrev collected : ℕ → Dashboard D → Result D → Result D × Dashboard D
  collected now h (ok fresh) = (ok fresh, record h { cached = some (fresh, now + cache_ttl) })
  collected now h (err e) = (err e, h)

  -- `dashboardData`, with what `collectDashboardData` gives at that instant.
  unfoldable pub dashboard_data : ℕ → Result D → Dashboard D → Result D × Dashboard D
  dashboard_data now fresh h = elim h.cached [
    | none ↦ collected now h fresh
    | some entry ↦ if ltb now entry.1 then (ok entry.0, h) else collected now h fresh
  ]

  -- `registerClient`, and the first signal of `SubscribeToDashboard`, before the client takes any.
  unfoldable pub connect : Dashboard D → Dashboard D
  connect h = record h {
    clients =
        h.clients
        ++ signal_client (record { first = 0; second = 0 }) (only_sections all_sections) new_client
          ∷ [];
  }

  -- `unregisterClient`, for the client at a place of the list.
  unfoldable pub unregister_client : ℕ → Dashboard D → Dashboard D
  unregister_client place h = record h { clients = without place h.clients }
