-- ===== src/Scenario/Assertions.antt =====
-- `_parse_event_assertion`, `_parse_stdout_assertion` and `_parse_assertions` of scenario.py.
pub mod Shape
pub mod Normal
use vdev_lab.Base.{
  ℕ, suc, ◌<>◌, String, ◌==◌, not, ◌&&◌, List, [], ◌∷◌, decimal, ltb, if◌then◌else◌, Option, none,
  some,
}
use vdev_lab.Base.Int.{pos}
use vdev_lab.Base.Value.{
  Value, bool, str, int, list, Items, nil, cons, Mapping, insert, get_or, has_key, is_str, contains,
  lookup,
}
use vdev_lab.Base.Result.{Result, ok, err, scenario_error, raise_if, ◌>>=◌, ◌>>◌}
use vdev_lab.Scenario.Schema.{log_events}
use vdev_lab.Scenario.Fields.{mapping, required, allowed, index, non_empty_string, bounded_integer}
use vdev_lab.Scenario.Duration.{parse_duration}

-- A duration that may not exceed the scenario's.
unfoldable pub parse_limit : Value → String → ℕ → Result ℕ
parse_limit value path timeout_ms = do
  limit_ms ← parse_duration value path
  raise_if (ltb timeout_ms limit_ms) (scenario_error path "must not exceed scenario.timeout")
  ok limit_ms

-- The block under `if "within" in assertion`.
unfoldable pub add_within : Option Value → String → ℕ → Mapping → Result Mapping
add_within none path timeout_ms normalized = ok normalized
add_within (some value) path timeout_ms normalized = do
  within_ms ← parse_limit value (path <> ".within") timeout_ms
  ok (insert "within_ms" (int (pos within_ms)) normalized)

-- The block under `if "max_latency" in assertion`.
unfoldable pub add_max_latency : Option Value → String → String → ℕ → Mapping → Result Mapping
add_max_latency none event path timeout_ms normalized = ok normalized
add_max_latency (some value) event path timeout_ms normalized = do
  raise_if (not (event == "RECOVERY_SUCCESS"))
      (scenario_error (path <> ".max_latency") "is only valid for RECOVERY_SUCCESS")
  maximum_latency_ms ← parse_limit value (path <> ".max_latency") timeout_ms
  ok (insert "max_latency_ms" (int (pos maximum_latency_ms)) normalized)

unfoldable pub parse_event_assertion : Mapping → String → ℕ → Result Mapping
parse_event_assertion assertion path timeout_ms = do
  required assertion ("event" ∷ "count" ∷ []) path
  allowed assertion ("type" ∷ "event" ∷ "count" ∷ "within" ∷ "max_latency" ∷ []) path
  raw_event ← index assertion "event"
  event ← non_empty_string raw_event (path <> ".event")
  raise_if (not (contains event log_events))
      (scenario_error (path <> ".event") "is not a supported log event")
  raw_count ← index assertion "count"
  count ← bounded_integer raw_count (path <> ".count") 1 1_000_000
  let normalized =
      ("type", str "event_count") ∷ ("event", str event) ∷ ("count", int (pos count)) ∷ []
  with_within ← add_within (lookup "within" assertion) path timeout_ms normalized
  add_max_latency (lookup "max_latency" assertion) event path timeout_ms with_within

-- The block under `if "contains" in assertion`, and that under `if "not_contains" in assertion`.
unfoldable pub add_text : String → Option Value → String → Mapping → Result Mapping
add_text field none path normalized = ok normalized
add_text field (some value) path normalized = do
  text ← non_empty_string value (path <> "." <> field)
  ok (insert field (str text) normalized)

unfoldable pub parse_stdout_assertion : Mapping → String → Result Mapping
parse_stdout_assertion assertion path = do
  allowed assertion ("type" ∷ "contains" ∷ "not_contains" ∷ []) path
  raise_if (not (has_key "contains" assertion) && not (has_key "not_contains" assertion))
      (scenario_error path "stdout assertion requires contains or not_contains")
  with_contains ←
      add_text "contains" (lookup "contains" assertion) path (("type", str "stdout") ∷ [])
  add_text "not_contains" (lookup "not_contains" assertion) path with_contains

-- The value of `expected`, which must be a boolean.
abbrev pub parse_expected : Value → String → Result Mapping
parse_expected (bool b) path = ok (("type", str "disconnect") ∷ ("expected", bool b) ∷ [])
parse_expected _ path = err (scenario_error (path <> ".expected") "must be a boolean")

unfoldable pub parse_disconnect_assertion : Mapping → String → Result Mapping
parse_disconnect_assertion assertion path = do
  required assertion ("type" ∷ "expected" ∷ []) path
  allowed assertion ("type" ∷ "expected" ∷ []) path
  expected ← index assertion "expected"
  parse_expected expected path

unfoldable pub parse_kernel_warnings_assertion : Mapping → String → Result Mapping
parse_kernel_warnings_assertion assertion path = do
  required assertion ("type" ∷ "count" ∷ []) path
  allowed assertion ("type" ∷ "count" ∷ []) path
  raw_count ← index assertion "count"
  count ← bounded_integer raw_count (path <> ".count") 0 1_000_000
  ok (("type", str "kernel_warnings") ∷ ("count", int (pos count)) ∷ [])

-- The branches on `assertion_type`.
unfoldable pub parse_typed : Mapping → String → Value → ℕ → Result Mapping
parse_typed assertion path assertion_type timeout_ms =
    if is_str "event_count" assertion_type
    then parse_event_assertion assertion path timeout_ms
    else if is_str "stdout" assertion_type
    then parse_stdout_assertion assertion path
    else if is_str "disconnect" assertion_type
    then parse_disconnect_assertion assertion path
    else if is_str "kernel_warnings" assertion_type
    then parse_kernel_warnings_assertion assertion path
    else err (
        scenario_error (path <> ".type")
          "must be one of: disconnect, event_count, kernel_warnings, stdout")

-- The body of the loop of `_parse_assertions`.
unfoldable pub parse_assertion : ℕ → Value → ℕ → Result Mapping
parse_assertion i raw_assertion timeout_ms = do
  let path = "assertions[" <> decimal i <> "]"
  assertion ← mapping raw_assertion path
  parse_typed assertion path (get_or assertion "type" (str "event_count")) timeout_ms

unfoldable pub parse_all_assertions : ℕ → Items → ℕ → Result (List Mapping)
parse_all_assertions i nil timeout_ms = ok []
parse_all_assertions i (cons assertion assertions) timeout_ms = do
  normalized ← parse_assertion i assertion timeout_ms
  rest ← parse_all_assertions (suc i) assertions timeout_ms
  ok (normalized ∷ rest)

unfoldable pub parse_assertions : Value → ℕ → Result (List Mapping)
parse_assertions (list (cons assertion assertions)) timeout_ms =
    parse_all_assertions 0 (cons assertion assertions) timeout_ms
parse_assertions _ timeout_ms = err (scenario_error "assertions" "must be a non-empty list")
