-- ===== src/Agent/Runtime.antt =====
-- internal/agent/runtime.go: `Runtime.Run`, the goroutines that it starts and the channel between
-- them. What the goroutines do next, and when the context is cancelled, is a choice of the step
-- relation.
pub mod Termination
use hosthalla.Base.{
  ℕ, suc, ◌-◌, ◌<◌, ◌≡◌, Bool, true, false, List, [], ◌∷◌, ◌++◌, map, Option, none, some, length,
  Error, failed, about, Result, ok, err, if◌then◌else◌, ◌==◌, nat_eq, text_eq, String,
}
use hosthalla.Text.{Text}

-- How the `Run` of an instance ends.
pub data Ending : Type 0 where
  finished : Option Error → Ending
  panicked : Text → Text → Ending

-- `instanceResult`
pub record InstanceResult : Type 0 where
  pub name : Text
  pub error : Option Error
  pub stack : Text

-- `runInstance`: what it sends, panics recovered.
unfoldable pub run_instance : Text → Ending → InstanceResult
run_instance name (finished e) = record { name = name; error = e; stack = [] }
run_instance name (panicked message stack) = record {
  name = name;
  error = some (about "panic" message);
  stack = stack;
}

-- What `logInstanceResult` writes, where one of the two loggers is there.
pub data LogLine : Type 0 where
  stopped_after_panic : Error → Text → LogLine
  stopped_with : Error → LogLine
  stopped : LogLine

abbrev error_line : Option Error → Text → LogLine
error_line none stack = stopped
error_line (some e) stack = if stack == [] then stopped_with e else stopped_after_panic e stack

unfoldable pub log_instance_result : Bool → Bool → InstanceResult → Option LogLine
log_instance_result false false result = none
log_instance_result true fallback result = some (error_line result.error result.stack)
log_instance_result false true result = some (error_line result.error result.stack)

-- `running` are the instances that have not ended, `channel` is `results` with its capacity, and
-- `logged` what went to `logInstanceResult`.
pub record Run : Type 0 where
  pub running : List Text
  pub channel : List InstanceResult
  pub capacity : ℕ
  pub remaining : ℕ
  pub is_stopping : Bool
  pub is_cancelled : Bool
  pub logged : List InstanceResult

-- The state in which the loop is entered.
unfoldable pub start : List Text → Run
start names = record {
  running = names;
  channel = [];
  capacity = length names;
  remaining = length names;
  is_stopping = false;
  is_cancelled = false;
  logged = [];
}

-- `results <- result` of an instance that ended; a send into a full channel waits.
abbrev pub sent : List Text → InstanceResult → Run → Run
sent left result s = record s { running = left; channel = s.channel ++ result ∷ [] }

-- `result := <-results; remaining--; logInstanceResult(...)`, the same in both places.
abbrev pub received : InstanceResult → List InstanceResult → Run → Run
received result rest s = record s {
  channel = rest;
  remaining = s.remaining - 1;
  logged = s.logged ++ result ∷ [];
}

pub data Step (s t : Run) : Type 0 where
  cancel : s.is_cancelled ≡ false → t ≡ record s { is_cancelled = true } → Step s t
  send :
      (before : List Text) (name : Text) (after : List Text) (ending : Ending)
      → s.running ≡ before ++ name ∷ after
      → length s.channel < s.capacity
      → t ≡ sent (before ++ after) (run_instance name ending) s
      → Step s t
  receive :
      (result : InstanceResult) (rest : List InstanceResult)
      → 0 < s.remaining
      → s.channel ≡ result ∷ rest
      → t ≡ received result rest s
      → Step s t
  stop :
      0 < s.remaining
      → s.is_stopping ≡ false
      → s.is_cancelled ≡ true
      → t ≡ record s { is_stopping = true }
      → Step s t

-- Runs of a number of steps.
pub data Steps (s : Run) : ℕ → Run → Type 0 where
  here : Steps s 0 s
  next : {n : ℕ} {t u : Run} → Steps s n t → Step t u → Steps s (suc n) u

-- What `Run` returns after the loop, `none` while it is in it.
unfoldable pub outcome : Run → Option (Result (Unit {0}))
outcome s =
    if s.remaining == 0
    then some (if s.is_cancelled then ok tt else err (failed "all agent instances stopped"))
    else none

-- `Run`, by the state that its loop has come to.
unfoldable pub run : List Text → Run → Option (Result (Unit {0}))
run [] s = some (err (failed "agent runtime requires at least one instance"))
run (name ∷ names) s = outcome s
