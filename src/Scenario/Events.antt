-- ===== src/Scenario/Events.antt =====
-- `_parse_fault_event`, `_parse_event` and `_parse_scenario` of scenario.py.
pub mod Shape
pub mod Actions
pub mod Order
use vdev_lab.Base.{
  ℕ, suc, ◌<>◌, String, ◌==◌, ◌||◌, List, [], ◌∷◌, map, decimal, ltb, if◌then◌else◌,
}
use vdev_lab.Base.Int.{pos}
use vdev_lab.Base.Value.{Value, str, int, list, Items, nil, cons, Mapping, insert}
use vdev_lab.Base.Result.{Result, ok, err, scenario_error, raise_if, ◌>>=◌, ◌>>◌}
use vdev_lab.Scenario.Schema.{max_eio_repeat, max_partial_read_bytes}
use vdev_lab.Scenario.Fields.{mapping, required, allowed, index, non_empty_string, bounded_integer}
use vdev_lab.Scenario.Duration.{parse_duration}

unfoldable pub parse_eio : Mapping → String → Mapping → Result Mapping
parse_eio event path normalized = do
  required event ("at" ∷ "action" ∷ "type" ∷ "repeat" ∷ []) path
  allowed event ("at" ∷ "action" ∷ "type" ∷ "repeat" ∷ []) path
  raw ← index event "repeat"
  repeat ← bounded_integer raw (path <> ".repeat") 1 max_eio_repeat
  ok (insert "repeat" (int (pos repeat)) normalized)

unfoldable pub parse_delay : Mapping → String → Mapping → Result Mapping
parse_delay event path normalized = do
  required event ("at" ∷ "action" ∷ "type" ∷ "duration" ∷ []) path
  allowed event ("at" ∷ "action" ∷ "type" ∷ "duration" ∷ []) path
  raw ← index event "duration"
  duration_ms ← parse_duration raw (path <> ".duration")
  ok (insert "duration_ms" (int (pos duration_ms)) normalized)

unfoldable pub parse_partial_read : Mapping → String → Mapping → Result Mapping
parse_partial_read event path normalized = do
  required event ("at" ∷ "action" ∷ "type" ∷ "bytes" ∷ []) path
  allowed event ("at" ∷ "action" ∷ "type" ∷ "bytes" ∷ []) path
  raw ← index event "bytes"
  bytes ← bounded_integer raw (path <> ".bytes") 1 max_partial_read_bytes
  ok (insert "bytes" (int (pos bytes)) normalized)

unfoldable pub parse_disconnect : Mapping → String → Mapping → Result Mapping
parse_disconnect event path normalized = do
  required event ("at" ∷ "action" ∷ "type" ∷ []) path
  allowed event ("at" ∷ "action" ∷ "type" ∷ []) path
  ok normalized

-- The branches on `fault_type`.
unfoldable pub parse_fault : Mapping → String → String → Mapping → Result Mapping
parse_fault event path fault_type normalized =
    if fault_type == "eio"
    then parse_eio event path normalized
    else if fault_type == "delay"
    then parse_delay event path normalized
    else if fault_type == "partial-read"
    then parse_partial_read event path normalized
    else if fault_type == "disconnect"
    then parse_disconnect event path normalized
    else err
        (scenario_error (path <> ".type") "must be one of: delay, disconnect, eio, partial-read")

unfoldable pub parse_fault_event : Mapping → String → Result Mapping
parse_fault_event event path = do
  required event ("type" ∷ []) path
  raw_type ← index event "type"
  fault_type ← non_empty_string raw_type (path <> ".type")
  parse_fault event path fault_type (("action", str "fault") ∷ ("type", str fault_type) ∷ [])

-- The branch `action == "write"`.
unfoldable pub parse_write : Mapping → String → Result Mapping
parse_write event path = do
  required event ("at" ∷ "action" ∷ "data" ∷ []) path
  allowed event ("at" ∷ "action" ∷ "data" ∷ []) path
  raw_data ← index event "data"
  text ← non_empty_string raw_data (path <> ".data")
  ok (("action", str "write") ∷ ("data", str text) ∷ [])

-- The branch `action in {"clear", "reset"}`.
unfoldable pub parse_plain : Mapping → String → String → Result Mapping
parse_plain event path action = do
  allowed event ("at" ∷ "action" ∷ []) path
  ok (("action", str action) ∷ [])

-- The branches on `action`, which give `normalized` before its `at_ms`.
unfoldable pub parse_action : Mapping → String → String → Result Mapping
parse_action event path action =
    if action == "write"
    then parse_write event path
    else if action == "fault"
    then parse_fault_event event path
    else if action == "clear" || action == "reset"
    then parse_plain event path action
    else err (scenario_error (path <> ".action") "must be one of: clear, fault, reset, write")

-- The path of an event in the messages.
unfoldable pub event_path : ℕ → String
event_path i = "scenario.events[" <> decimal i <> "]"

unfoldable pub parse_event : Value → ℕ → ℕ → Result (ℕ × ℕ × Mapping)
parse_event value i timeout_ms = do
  let path = event_path i
  event ← mapping value path
  required event ("at" ∷ "action" ∷ []) path
  raw_at ← index event "at"
  at_ms ← parse_duration raw_at (path <> ".at")
  raise_if (ltb timeout_ms at_ms)
      (scenario_error (path <> ".at") "must not exceed scenario.timeout")
  raw_action ← index event "action"
  action ← non_empty_string raw_action (path <> ".action")
  normalized ← parse_action event path action
  ok (at_ms, i, insert "at_ms" (int (pos at_ms)) normalized)

-- `[_parse_event(event, index, timeout_ms) for index, event in enumerate(events)]`
unfoldable pub parse_all_events : ℕ → Items → ℕ → Result (List (ℕ × ℕ × Mapping))
parse_all_events i nil timeout_ms = ok []
parse_all_events i (cons event events) timeout_ms = do
  parsed ← parse_event event i timeout_ms
  rest ← parse_all_events (suc i) events timeout_ms
  ok (parsed ∷ rest)

-- The loop over `range(1, len(parsed))`; `i` is the index of the first event in the list.
unfoldable pub check_order : ℕ → ℕ → List (ℕ × ℕ × Mapping) → Result (Unit {0})
check_order i previous_ms [] = ok tt
check_order i previous_ms ((at_ms, _, _) ∷ rest) = do
  raise_if (ltb at_ms previous_ms)
      (scenario_error (event_path i <> ".at") "must not be earlier than the previous event")
  check_order (suc i) at_ms rest

-- The whole loop: nothing stands before the first event.
unfoldable pub check_all_orders : List (ℕ × ℕ × Mapping) → Result (Unit {0})
check_all_orders [] = ok tt
check_all_orders ((at_ms, _, _) ∷ rest) = check_order 1 at_ms rest

unfoldable pub parse_event_list : Value → ℕ → Result (List Mapping)
parse_event_list (list (cons event events)) timeout_ms = do
  parsed ← parse_all_events 0 (cons event events) timeout_ms
  check_all_orders parsed
  ok (map (λ (_, _, normalized). normalized) parsed)
parse_event_list _ timeout_ms = err (scenario_error "scenario.events" "must be a non-empty list")

unfoldable pub parse_scenario_section : Value → Result (String × ℕ × List Mapping)
parse_scenario_section value = do
  scenario ← mapping value "scenario"
  required scenario ("name" ∷ "timeout" ∷ "events" ∷ []) "scenario"
  allowed scenario ("name" ∷ "timeout" ∷ "events" ∷ []) "scenario"
  raw_name ← index scenario "name"
  name ← non_empty_string raw_name "scenario.name"
  raw_timeout ← index scenario "timeout"
  timeout_ms ← parse_duration raw_timeout "scenario.timeout"
  events ← index scenario "events"
  normalized ← parse_event_list events timeout_ms
  ok (name, timeout_ms, normalized)
