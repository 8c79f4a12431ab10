-- ===== src/Report/Timeline.antt =====
-- `_dispatch_timeline`, `_application_timeline`, `_sorted_timeline`, `_first_fault_timestamp` and
-- `_causal_duration` of report.py.
pub mod Sorted
use vdev_lab.Base.{
  ℕ, ◌<>◌, String, ◌==◌, Bool, true, false, not, ◌||◌, List, [], ◌∷◌, map, Option, none, some,
  select, get_elem?, ltb, upper, if◌then◌else◌,
}
use vdev_lab.Base.Int.{ℤ, pos, ◌-ℤ◌}
use vdev_lab.Base.Value.{Value, Float, int, float, str, dict, Mapping, entries, get, is_str}
use vdev_lab.Base.Result.{Result, ok, err, foreign, ◌>>=◌}
use vdev_lab.Base.Interpreter.{Interpreter}
use vdev_lab.Scenario.Fields.{index}
use vdev_lab.Analysis.{ApplicationLogEvent}
use vdev_lab.Runner.{DispatchRecord}

-- `scenario.events[i]`
unfoldable pub event_at : List Mapping → ℕ → Result Mapping
event_at events i = elim (get_elem? events i) [
  | none ↦ err (foreign "IndexError" "tuple index out of range")
  | some event ↦ ok event
]

unfoldable pub dispatch_name : String → String
dispatch_name action = if action == "fault" then "FAULT_INJECTED" else upper action <> "_DISPATCHED"

abbrev pub event_details : Mapping → Mapping
event_details definition =
    select (λ (key, value). not (key == "action" || key == "at_ms")) definition

abbrev pub application_item : ApplicationLogEvent → Mapping
application_item event =
    ("source", str "application")
    ∷ ("event", str event.event)
    ∷ ("timestamp_ms", int (pos event.timestamp_ms))
    ∷ ("line", int (pos event.line))
    ∷ ("details", dict (entries event.fields))
    ∷ []

unfoldable pub application_timeline : List ApplicationLogEvent → List Mapping
application_timeline events = map application_item events

unfoldable pub causal_duration : Option ℤ → Option ℤ → Option ℤ
causal_duration none start_ms = none
causal_duration (some end_ms) none = none
causal_duration (some end_ms) (some start_ms) = some (end_ms -ℤ start_ms)

-- The key of the sort: the time as a float, and the rank of the source.
abbrev pub SortKey : Type 0
SortKey = Float × ℕ

abbrev pub rank : Value → ℕ
rank source = if is_str "scenario" source then 0 else 1

module _ (python : Interpreter) where
  unfoldable pub dispatch_item : List Mapping → DispatchRecord → Result Mapping
  dispatch_item events dispatch = do
    definition ← event_at events dispatch.index
    timestamp_ms ← python.trunc dispatch.monotonic_started_ms
    ok (
        ("source", str "scenario")
        ∷ ("event", str (dispatch_name dispatch.action))
        ∷ ("timestamp_ms", int timestamp_ms)
        ∷ ("event_index", int (pos dispatch.index))
        ∷ ("scheduled_ms", int (pos dispatch.scheduled_ms))
        ∷ ("duration_ms", float (python.sub dispatch.finished_ms dispatch.started_ms))
        ∷ ("details", dict (entries (event_details definition)))
        ∷ [])

  unfoldable pub dispatch_timeline : List Mapping → List DispatchRecord → Result (List Mapping)
  dispatch_timeline events [] = ok []
  dispatch_timeline events (dispatch ∷ dispatches) = do
    first ← dispatch_item events dispatch
    rest ← dispatch_timeline events dispatches
    ok (first ∷ rest)

  -- `float(item["timestamp_ms"])`
  abbrev pub float_of : Value → Result Float
  float_of (int n) = python.of_int n
  float_of (float x) = ok x
  float_of _ = err (foreign "TypeError" "float() argument must be a string or a number")

  unfoldable pub sort_key : Mapping → Result SortKey
  sort_key item = do
    raw ← index item "timestamp_ms"
    time ← float_of raw
    source ← index item "source"
    ok (time, rank source)

  -- `<` of two keys.
  unfoldable pub ltb_key : SortKey → SortKey → Bool
  ltb_key (t, r) (u, q) = if python.eq t u then ltb r q else python.lt t u

  -- The keys of all items, which `sorted` computes before it compares any.
  unfoldable pub keyed : List Mapping → Result (List (SortKey × Mapping))
  keyed [] = ok []
  keyed (item ∷ rest) = do key ← sort_key item; others ← keyed rest; ok ((key, item) ∷ others)

  unfoldable pub insert_keyed :
      SortKey × Mapping → List (SortKey × Mapping) → List (SortKey × Mapping)
  insert_keyed x [] = x ∷ []
  insert_keyed x (y ∷ ys) =
      let rest = insert_keyed x ys in if ltb_key y.0 x.0 then y ∷ rest else x ∷ y ∷ ys

  -- A stable sort: an item stands before the later ones with the same key.
  unfoldable pub sort_keyed : List (SortKey × Mapping) → List (SortKey × Mapping)
  sort_keyed [] = []
  sort_keyed (x ∷ xs) = insert_keyed x (sort_keyed xs)

  unfoldable pub sorted_timeline : List Mapping → Result (List Mapping)
  sorted_timeline items = do pairs ← keyed items; ok (map (λ (key, item). item) (sort_keyed pairs))

  -- The time of a dispatch if it is a fault, or else the answer of the rest.
  abbrev pub fault_time : Bool → Float → Result (Option ℤ) → Result (Option ℤ)
  fault_time true started later = do time ← python.trunc started; ok (some time)
  fault_time false started later = later

  unfoldable pub first_fault_timestamp : List Mapping → List DispatchRecord → Result (Option ℤ)
  first_fault_timestamp events [] = ok none
  first_fault_timestamp events (dispatch ∷ dispatches) =
      let later = first_fault_timestamp events dispatches in
      event_at events dispatch.index >>= λ definition.
      fault_time (is_str "fault" (get definition "action")) dispatch.monotonic_started_ms later
