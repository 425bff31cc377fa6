-- ===== src/Agent/Collector.antt =====
-- `CachedMetricsCollector` of internal/agent/service.go. The mutex makes each stretch of code
-- between a `Lock` and its `Unlock` one step; a caller waits or collects between two of them. The
-- wrapped collector and the moments at which callers go on are choices of the step relation.
pub mod Exclusive
use hosthalla.Base.{
  ℕ, suc, ◌+◌, ◌-◌, ◌≤◌, ◌≡◌, ◌≢◌, Bool, true, false, List, [], ◌∷◌, ◌||◌, ◌&&◌, not, Option, none,
  some, Error, failed, about, Result, ok, err, ltb, if◌then◌else◌, ◌==◌, nat_eq, contains,
}
use hosthalla.Text.{Text}
use hosthalla.Model.{Metric}

-- Where a caller stands: outside, in the wrapped collector, waiting for the channel of that number
-- to be closed, or back with a result or a panic.
pub data Phase : Type 0 where
  outside : Phase
  collecting : ℕ → Phase
  waiting : ℕ → Phase
  returned : Result Metric → Phase
  panicking : Text → Phase

pub record Start : Type 0 where
  pub caller : ℕ
  pub instant : ℕ

-- `metric` and `err` are one result. `updated` is `none` while it is the zero time. A channel is
-- its number: `completed` is the newest one, and `closed` are the numbers of those closed.
-- `starts` lists the collections that were started, the newest first.
pub record Collector : Type 0 where
  pub result : Result Metric
  pub updated : Option ℕ
  pub is_running : Bool
  pub completed : ℕ
  pub closed : List ℕ
  pub phases : ℕ → Phase
  pub clock : ℕ
  pub starts : List Start

-- `!c.updated.IsZero() && time.Since(c.updated) < c.ttl`; a `ttl` that is not positive counts as 0.
abbrev pub is_fresh : ℕ → ℕ → Option ℕ → Bool
is_fresh ttl clock none = false
is_fresh ttl clock (some updated) = ltb (clock - updated) ttl

abbrev pub with_phase : ℕ → Phase → (ℕ → Phase) → ℕ → Phase
with_phase caller phase phases other = if other == caller then phase else phases other

-- `GetMetrics` up to the call of the wrapped collector, or up to its wait.
unfoldable pub enter : ℕ → ℕ → Collector → Collector
enter ttl caller c =
    if is_fresh ttl c.clock c.updated
    then record c { phases = with_phase caller (returned c.result) c.phases }
    else if c.is_running
    then record c { phases = with_phase caller (waiting c.completed) c.phases }
    else record c {
      is_running = true;
      completed = c.completed + 1;
      phases = with_phase caller (collecting (c.completed + 1)) c.phases;
      starts = record { caller = caller; instant = c.clock } ∷ c.starts;
    }

-- What the wrapped collector does.
pub data Collected : Type 0 where
  gave : Result Metric → Collected
  panicked : Text → Collected

abbrev pub result_of : Collected → Result Metric
result_of (gave r) = r
result_of (panicked message) = err (about "metrics collector panic" message)

abbrev pub phase_of : Collected → Phase
phase_of (gave r) = returned r
phase_of (panicked message) = panicking message

-- The end of `GetMetrics` after the wrapped collector came back.
unfoldable pub finish : ℕ → ℕ → Collected → Collector → Collector
finish caller channel outcome c = record c {
  result = result_of outcome;
  updated = some c.clock;
  is_running = false;
  closed = channel ∷ c.closed;
  phases = with_phase caller (phase_of outcome) c.phases;
}

-- `case <-completed` of a caller that waits.
unfoldable pub wake : ℕ → Collector → Collector
wake caller c = record c { phases = with_phase caller (returned c.result) c.phases }

-- `case <-ctx.Done()`
unfoldable pub give_up : ℕ → Collector → Collector
give_up caller c = record c {
  phases = with_phase caller (returned (err (failed "context done"))) c.phases;
}

abbrev pub is_busy : Phase → Bool
is_busy outside = false
is_busy (collecting _) = true
is_busy (waiting _) = true
is_busy (returned _) = false
is_busy (panicking _) = false

pub data Step (ttl : ℕ) (c d : Collector) : Type 0 where
  call : (caller : ℕ) → is_busy (c.phases caller) ≡ false → d ≡ enter ttl caller c → Step ttl c d
  collected :
      (caller channel : ℕ) (outcome : Collected)
      → c.phases caller ≡ collecting channel
      → d ≡ finish caller channel outcome c
      → Step ttl c d
  woken :
      (caller channel : ℕ)
      → c.phases caller ≡ waiting channel
      → contains c.closed channel ≡ true
      → d ≡ wake caller c
      → Step ttl c d
  gave_up :
      (caller channel : ℕ) → c.phases caller ≡ waiting channel → d ≡ give_up caller c → Step ttl c d
  tick : (later : ℕ) → c.clock ≤ later → d ≡ record c { clock = later } → Step ttl c d

pub data Reach (ttl : ℕ) (c : Collector) : Collector → Type 0 where
  here : Reach ttl c c
  next : {d e : Collector} → Reach ttl c d → Step ttl d e → Reach ttl c e

-- `host.HostMetric{}`, whose `float64` 0 has no bit set.
abbrev zero_metric : Metric
zero_metric = record {
  cpu_usage_percentage = 0;
  memory_usage_bytes = 0;
  disk_usage_bytes = 0;
  network_rx_bytes = 0;
  network_tx_bytes = 0;
}

-- `NewCachedMetricsCollector`
abbrev pub initial : Collector
initial = record {
  result = ok zero_metric;
  updated = none;
  is_running = false;
  completed = 0;
  closed = [];
  phases = λ caller. outside;
  clock = 0;
  starts = [];
}
