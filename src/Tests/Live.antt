-- ===== src/Tests/Live.antt =====
-- Runs of the agent's process, of the event bus and of the dashboard's queue.
use mathlib.Core.List.{Perm}
use hosthalla.Base.{
  ◌||◌, ℕ, ◌+◌, ◌*◌, ◌≡◌, ◌≤◌, ◌⊎◌, ◌↔◌, refl, Bool, true, false, List, [], ◌∷◌, none, some, Result,
  ok, length, contains, nat_eq, pure, ◌>>=◌, ◌>>◌, if◌then◌else◌, ◌==◌, arith, driver, exec, store,
  query, query_row, time_now, transaction, framed, lift, sort_by, insert_sorted,
}
use hosthalla.Text.{codes}
use hosthalla.Model.{Uuid, SystemInfo}
use hosthalla.Agent.Runtime.{
  Run, Step, Steps, start, send, receive, here, next, run, finished, run_instance,
}
use hosthalla.Agent.Runtime.Termination.{run_terminates, names_of}
use hosthalla.Agent.Collector as Collector
use hosthalla.Agent.Collector.{Collector, Reach, collecting, waiting, enter, with_phase}
use hosthalla.Agent.Collector.Exclusive.{Spaced, Reach-IsExclusive}
use hosthalla.Bus.{Handler, Bus, subscribe, publish_event, subscribe-publish_event}
use hosthalla.Web.Dashboard.{
  DashboardUpdate, dashboard_host_row_update, dashboard_host_metric_update, all_sections,
  client_capacity, new_client, take_up_to, signal_client,
}
use hosthalla.Web.Dashboard.Queue.{
  row, metric, Move, signal, take_next, held, lost, asked, moves, moves-asked,
}
use hosthalla.Host.SystemInfoRepository.{
  upsert_system_info, upsert_system_info_body, upsert_system_row, clear_gpus, insert_gpu,
  insert_gpus, get_system_info, gpu_names, system_row,
}
use hosthalla.Host.SystemInfoRepository.RoundTrip.{stored, upsert_system_info-stored}
use hosthalla.Tests.{inventory}

-- One instance, which ends by itself: the loop is over after two steps.
abbrev ended : Run
ended = record {
  running = [];
  channel = [];
  capacity = 1;
  remaining = 0;
  is_stopping = false;
  is_cancelled = false;
  logged = run_instance (codes "a") (finished none) ∷ [];
}

abbrev sent_one : Run
sent_one = record {
  running = [];
  channel = run_instance (codes "a") (finished none) ∷ [];
  capacity = 1;
  remaining = 1;
  is_stopping = false;
  is_cancelled = false;
  logged = [];
}

ended-Steps : Steps (start (codes "a" ∷ [])) 2 ended
unfolding start
ended-Steps =
    next {t = sent_one} (next here (send [] (codes "a") [] (finished none) refl (omega arith) refl))
      (receive (run_instance (codes "a") (finished none)) [] (omega arith) refl refl)

run_terminates_example :
    (2 ≤ 2 * length (codes "a" ∷ []) + 2)
    × (run (codes "a" ∷ []) ended ≡ none → (u : Run) × Step ended u)
    × ((r : Result (Unit {0}))
        → run (codes "a" ∷ []) ended ≡ some r
        → Perm (names_of ended.logged) (codes "a" ∷ [])
          × ((r ≡ ok tt) ↔ (ended.is_cancelled ≡ true)))
run_terminates_example = run_terminates (codes "a") [] 2 ended ended-Steps

-- Two callers: the second comes while the first collects.
abbrev two_callers : Collector
two_callers = enter 5 2 (enter 5 1 Collector.initial)

two_calls : Reach 5 Collector.initial two_callers
unfolding enter nat_eq
two_calls =
    Reach.next (Reach.next Reach.here (Collector.call 1 refl refl)) (Collector.call 2 refl refl)

Reach-IsExclusive_example :
    ((a b g k : ℕ)
      → two_callers.phases a ≡ collecting g
      → two_callers.phases b ≡ collecting k
      → a ≡ b)
    × Spaced 5 two_callers.starts
    × ((a g : ℕ)
        → two_callers.phases a ≡ waiting g
        → (contains two_callers.closed g ≡ true)
          ⊎ ((b : ℕ) × (two_callers.phases b ≡ collecting g)))
Reach-IsExclusive_example = Reach-IsExclusive 5 two_callers two_calls

-- Handlers that note the number of the event in a list.
abbrev note : Handler (List ℕ) ℕ
note event seen = (ok tt, event ∷ seen)

abbrev empty_bus : Bus (List ℕ) ℕ
empty_bus key = []

abbrev noting_bus : Bus (List ℕ) ℕ
noting_bus key = if key == 4 then note ∷ [] else []

abbrev four : ℕ
four = 4

abbrev own_key : ℕ → ℕ
own_key n = n

subscribe-publish_event_example : publish_event own_key noting_bus (some four) [] ≡ (
    if own_key four == own_key four
    then (publish_event own_key empty_bus (some four) >> note four) []
    else publish_event own_key empty_bus (some four) [])
unfolding subscribe
subscribe-publish_event_example =
    subscribe-publish_event own_key four four note empty_bus noting_bus [] refl

abbrev plain : DashboardUpdate → Move
plain = signal (record { first = 0; second = 0 })

abbrev of_row : DashboardUpdate
of_row = dashboard_host_row_update all_sections 7

-- Eight signals fill the channel; at the ninth the client takes all of them between the selects.
abbrev some_moves : List Move
some_moves =
    plain of_row
    ∷ plain of_row
    ∷ plain of_row
    ∷ plain of_row
    ∷ plain of_row
    ∷ plain of_row
    ∷ plain of_row
    ∷ plain of_row
    ∷ signal (record { first = 8; second = 0 }) (dashboard_host_metric_update all_sections 9)
    ∷ take_next
    ∷ []

-- The ninth is dropped, and the client never hears of what it asks for.
some_moves-drop :
    (lost (metric 9) (moves some_moves new_client) ≡ true)
    × (held (metric 9) (moves some_moves new_client) ≡ false)
unfolding moves signal_client take_up_to dashboard_host_row_update dashboard_host_metric_update
    nat_eq
some_moves-drop = (refl, refl)

moves-asked_example :
    ((held (row 7) (moves some_moves new_client) || lost (row 7) (moves some_moves new_client))
      ≡ asked some_moves (row 7))
    × (length (moves some_moves new_client).channel ≤ client_capacity)
    × (client_capacity * length (moves some_moves new_client).dropped
        ≤ length (moves some_moves new_client).taken)
moves-asked_example = moves-asked some_moves (row 7)

abbrev machine : SystemInfo
machine = record {
  host_id = 1;
  hostname = codes "web";
  os_name = codes "linux";
  os_version = [];
  os_kernel = [];
  total_memory_bytes = 1024;
  cpu_name = codes "x";
  cpu_architecture = [];
  cpu_cores = 4;
  cpu_frequency = 0;
  cpu_threads = 8;
  gpus = codes "a" ∷ codes "b" ∷ [];
  total_disk_bytes = 4096;
}

abbrev any_bits : ℕ → Bool
any_bits n = true

upsert_system_info-stored_example :
    (machine ≡ machine)
    × (stored 1 (upsert_system_info any_bits machine inventory).1.tables ≡ some machine)
    × ((other : Uuid)
        → ¬ (other ≡ 1)
        → stored other (upsert_system_info any_bits machine inventory).1.tables
          ≡ stored other inventory.tables)
unfolding upsert_system_info upsert_system_info_body upsert_system_row clear_gpus insert_gpu
    insert_gpus get_system_info gpu_names system_row query_row query exec store driver time_now
    transaction framed pure lift sort_by insert_sorted ◌>>=◌ nat_eq
upsert_system_info-stored_example =
    upsert_system_info-stored any_bits machine inventory machine refl
