-- ===== src/Analysis/Log.antt =====
-- `_require_nonnegative_integer` and `parse_application_log` of analysis.py. The JSON reader is not
-- part of the repository: `json_loads` gives the value of a line, or the exception that it raises.
pub mod Sound
use vdev_lab.Base.{
  ℕ, suc, ◌<>◌, String, ◌==◌, not, ◌||◌, Bool, true, false, List, [], ◌∷◌, Option, none, some, ltb,
  is_blank, splitlines, select, if◌then◌else◌,
}
use vdev_lab.Base.Int.{pos}
use vdev_lab.Base.Value.{Value, int, str, dict, Entries, end, entry, Mapping, get}
use vdev_lab.Base.Result.{
  Result, ok, err, Exception, application_log_error, json_decode_error, raise_if, ◌>>=◌, ◌>>◌,
}
use vdev_lab.Analysis.Records.{ApplicationLogEvent}

unfoldable pub require_nonnegative_integer : Value → ℕ → String → Result ℕ
require_nonnegative_integer (int (pos n)) line field = ok n
require_nonnegative_integer _ line field =
    err (application_log_error line (field <> " must be a non-negative integer"))

-- The handler around `json.loads`.
abbrev pub loads_error : Exception → ℕ → Exception
loads_error (json_decode_error message) line = application_log_error line "invalid JSON"
loads_error e line = e

abbrev pub loads_result : Result Value → ℕ → Result Value
loads_result (ok value) line = ok value
loads_result (err e) line = err (loads_error e line)

-- The entries of a JSON object; its keys are texts, so none is left out.
abbrev pub text_entries : Entries → Mapping
text_entries end = []
text_entries (entry (str k) v es) = (k, v) ∷ text_entries es
text_entries (entry _ v es) = text_entries es

unfoldable pub require_object : Value → ℕ → Result Mapping
require_object (dict es) line = ok (text_entries es)
require_object _ line = err (application_log_error line "event must be a JSON object")

unfoldable pub require_event_name : Value → ℕ → Result String
require_event_name (str s) line =
    if is_blank s then err (application_log_error line "event must be a non-empty string") else ok s
require_event_name _ line = err (application_log_error line "event must be a non-empty string")

-- `previous_timestamp is not None and timestamp_ms < previous_timestamp`
abbrev pub goes_back : Option ℕ → ℕ → Bool
goes_back none timestamp_ms = false
goes_back (some previous) timestamp_ms = ltb timestamp_ms previous

-- The event of a JSON value.
unfoldable pub parse_log_value : Value → ℕ → Option ℕ → Result ApplicationLogEvent
parse_log_value raw line previous_timestamp = do
  value ← require_object raw line
  timestamp_ms ← require_nonnegative_integer (get value "timestamp_ms") line "timestamp_ms"
  raise_if (goes_back previous_timestamp timestamp_ms)
      (application_log_error line "timestamp_ms must be monotonically non-decreasing")
  event ← require_event_name (get value "event") line
  ok (record {
    line = line;
    timestamp_ms = timestamp_ms;
    event = event;
    fields = select (λ (key, _). not (key == "timestamp_ms" || key == "event")) value;
  })

module _ (json_loads : String → Result Value) where
  -- The loop over the numbered lines, from `line_number` on.
  unfoldable pub parse_lines : ℕ → Option ℕ → List String → Result (List ApplicationLogEvent)
  parse_lines line_number previous_timestamp [] = ok []
  parse_lines line_number previous_timestamp (raw_line ∷ lines) = elim (is_blank raw_line) [
    | true ↦ parse_lines (suc line_number) previous_timestamp lines
    | false ↦ do
      value ← loads_result (json_loads raw_line) line_number
      event ← parse_log_value value line_number previous_timestamp
      events ← parse_lines (suc line_number) (some event.timestamp_ms) lines
      ok (event ∷ events)
  ]

  unfoldable pub parse_application_log : String → Result (List ApplicationLogEvent)
  parse_application_log text = parse_lines 1 none (splitlines text)
