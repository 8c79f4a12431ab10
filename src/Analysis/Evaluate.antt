-- ===== src/Analysis/Evaluate.antt =====
-- The `evaluate_...` functions of analysis.py.
pub mod Latency
use vdev_lab.Base.{
  ℕ, suc, String, ◌==◌, Bool, true, false, not, ◌&&◌, List, [], ◌∷◌, ◌++◌, map, Option, none, some,
  eqb, count, any, length, is_in, if◌then◌else◌,
}
use vdev_lab.Base.Int.{ℤ, pos, sub_ℕ, leb_ℤ, ltb_ℤ}
use vdev_lab.Base.Value.{Value, null, bool, int, str, Mapping, get}
use vdev_lab.Base.Result.{Result, ok, err, value_error, ◌>>=◌}
use vdev_lab.Analysis.Records.{
  ApplicationLogEvent, RecoveryMetrics, RetryAssertion, RecoveryLatencyAssertion,
  EventCountAssertion, StdoutAssertion, DisconnectAssertion, KernelWarningAssertion,
}
use vdev_lab.Analysis.Log.{require_nonnegative_integer}

unfoldable pub evaluate_retry_count : RecoveryMetrics → Value → Result RetryAssertion
evaluate_retry_count metrics expected = do
  expected_count ← require_nonnegative_integer expected 0 "expected retry count"
  ok (record {
    expected = expected_count;
    observed = metrics.application_retry_count;
    passed = eqb metrics.application_retry_count expected_count;
  })

-- `max(numbers, default=None)`, given the largest so far.
abbrev pub larger : ℤ → Option ℤ → ℤ
larger x none = x
larger x (some y) = if ltb_ℤ x y then y else x

unfoldable pub maximum : List ℤ → Option ℤ
maximum [] = none
maximum (x ∷ xs) = some (larger x (maximum xs))

-- `observed is not None and observed <= maximum`
abbrev pub at_most : Option ℤ → ℕ → Bool
at_most none bound = false
at_most (some observed) bound = leb_ℤ observed (pos bound)

unfoldable pub evaluate_recovery_latency : RecoveryMetrics → Value → Result RecoveryLatencyAssertion
evaluate_recovery_latency metrics maximum_ms = do
  bound ← require_nonnegative_integer maximum_ms 0 "maximum recovery latency"
  let observed = maximum (map (λ window. window.recovery_latency_ms) metrics.recoveries)
  ok (record { maximum_ms = bound; observed_ms = observed; passed = at_most observed bound })

unfoldable pub assertion_event : Value → Result String
assertion_event (str s) =
    if s == "" then err (value_error "assertion event must be a non-empty string") else ok s
assertion_event _ = err (value_error "assertion event must be a non-empty string")

unfoldable pub assertion_count : Value → Result ℕ
assertion_count (int (pos (suc n))) = ok (suc n)
assertion_count _ = err (value_error "assertion count must be a positive integer")

unfoldable pub assertion_within : Value → Result (Option ℕ)
assertion_within null = ok none
assertion_within (int (pos n)) = ok (some n)
assertion_within _ = err (value_error "assertion within_ms must be a non-negative integer")

-- `events[0].timestamp_ms if events else None`
abbrev pub origin_of : List ApplicationLogEvent → Option ℕ
origin_of [] = none
origin_of (e ∷ es) = some e.timestamp_ms

-- `within_ms is None or (origin is not None and timestamp - origin <= within_ms)`
abbrev pub in_time : Option ℕ → Option ℕ → ℕ → Bool
in_time none origin timestamp_ms = true
in_time (some within_ms) none timestamp_ms = false
in_time (some within_ms) (some origin) timestamp_ms =
    leb_ℤ (sub_ℕ timestamp_ms origin) (pos within_ms)

-- The number of events of the given name in the given time from the first.
unfoldable pub observed_count : List ApplicationLogEvent → String → Option ℕ → ℕ
observed_count events event within_ms =
    count (λ item. item.event == event && in_time within_ms (origin_of events) item.timestamp_ms)
      events

-- The body of the loop of `evaluate_event_assertions`.
unfoldable pub evaluate_event_assertion :
    List ApplicationLogEvent → Mapping → Result EventCountAssertion
evaluate_event_assertion events definition = do
  event ← assertion_event (get definition "event")
  expected ← assertion_count (get definition "count")
  within_ms ← assertion_within (get definition "within_ms")
  let observed = observed_count events event within_ms
  ok (record {
    event = event;
    expected = expected;
    observed = observed;
    within_ms = within_ms;
    passed = eqb observed expected;
  })

unfoldable pub evaluate_event_assertions :
    List ApplicationLogEvent → List Mapping → Result (List EventCountAssertion)
evaluate_event_assertions events [] = ok []
evaluate_event_assertions events (definition ∷ definitions) = do
  result ← evaluate_event_assertion events definition
  results ← evaluate_event_assertions events definitions
  ok (result ∷ results)

abbrev contains_result : String → Value → List StdoutAssertion
contains_result stdout (str text) =
    record { operator = "contains"; text = text; passed = is_in text stdout } ∷ []
contains_result stdout _ = []

abbrev not_contains_result : String → Value → List StdoutAssertion
not_contains_result stdout (str text) =
    record { operator = "not_contains"; text = text; passed = not (is_in text stdout) } ∷ []
not_contains_result stdout _ = []

-- `if not results: raise`
abbrev require_results : List StdoutAssertion → Result (List StdoutAssertion)
require_results [] = err (value_error "stdout assertion requires contains or not_contains")
require_results (r ∷ rs) = ok (r ∷ rs)

unfoldable pub evaluate_stdout_assertion : String → Mapping → Result (List StdoutAssertion)
evaluate_stdout_assertion stdout definition = require_results (
    contains_result stdout (get definition "contains")
    ++ not_contains_result stdout (get definition "not_contains"))

-- `any(event.event == "DEVICE_DISCONNECTED" for event in events)`
unfoldable pub disconnected : List ApplicationLogEvent → Bool
disconnected events = any (λ event. event.event == "DEVICE_DISCONNECTED") events

-- `observed is expected`, of two booleans.
abbrev pub same : Bool → Bool → Bool
same true b = b
same false b = not b

unfoldable pub evaluate_disconnect : List ApplicationLogEvent → Value → Result DisconnectAssertion
evaluate_disconnect events (bool expected) =
    let observed = disconnected events in
    ok (record { expected = expected; observed = observed; passed = same observed expected })
evaluate_disconnect events _ = err (value_error "disconnect expected value must be a boolean")

unfoldable pub evaluate_kernel_warnings : List String → Value → Bool → Result KernelWarningAssertion
evaluate_kernel_warnings warnings (int (pos expected)) available = ok (record {
  expected = expected;
  observed = if available then some (length warnings) else none;
  available = available;
  passed = available && eqb (length warnings) expected;
})
evaluate_kernel_warnings warnings _ available =
    err (value_error "kernel warning count must be a non-negative integer")
