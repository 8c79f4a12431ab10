-- ===== src/Report/Documents.antt =====
-- The documents of report.py: the application's, those of the evaluated assertions, and the
-- observations.
use vdev_lab.Base.{
  ℕ, String, ◌==◌, Bool, true, false, not, ◌||◌, List, [], ◌∷◌, map, Option, none, some, eqb,
}
use vdev_lab.Base.Int.{ℤ, pos, negsuc}
use vdev_lab.Base.Value.{
  Value, double, null, bool, int, float, str, list, dict, other, nil, cons, end, entry, Mapping,
  items,
}
use vdev_lab.Analysis.{
  RecoveryWindow, RecoveryLatencyAssertion, EventCountAssertion, StdoutAssertion,
  DisconnectAssertion, KernelWarningAssertion,
}
use vdev_lab.Runner.{ApplicationResult}

abbrev pub nat_or_none : Option ℕ → Value
nat_or_none none = null
nat_or_none (some n) = int (pos n)

abbrev pub int_or_none : Option ℤ → Value
int_or_none none = null
int_or_none (some n) = int n

abbrev pub str_or_none : Option String → Value
str_or_none none = null
str_or_none (some s) = str s

abbrev pub str_list : List String → Value
str_list ss = list (items (map str ss))

unfoldable pub application_document : ApplicationResult → Mapping
application_document application =
    ("command", str_list application.command)
    ∷ ("exit_code", int application.exit_code)
    ∷ ("timed_out", bool application.timed_out)
    ∷ ("forced", bool application.forced)
    ∷ ("stdout", str application.stdout)
    ∷ ("stderr", str application.stderr)
    ∷ []

-- `{"type": ..., **asdict(assertion)}` for each class of assertion.
abbrev pub event_count_document : EventCountAssertion → Mapping
event_count_document a =
    ("type", str "event_count")
    ∷ ("event", str a.event)
    ∷ ("expected", int (pos a.expected))
    ∷ ("observed", int (pos a.observed))
    ∷ ("within_ms", nat_or_none a.within_ms)
    ∷ ("passed", bool a.passed)
    ∷ []

abbrev pub stdout_document : StdoutAssertion → Mapping
stdout_document a =
    ("type", str "stdout")
    ∷ ("operator", str a.operator)
    ∷ ("text", str a.text)
    ∷ ("passed", bool a.passed)
    ∷ []

abbrev pub disconnect_document : DisconnectAssertion → Mapping
disconnect_document a =
    ("type", str "disconnect")
    ∷ ("expected", bool a.expected)
    ∷ ("observed", bool a.observed)
    ∷ ("passed", bool a.passed)
    ∷ []

abbrev pub kernel_warnings_document : KernelWarningAssertion → Mapping
kernel_warnings_document a =
    ("type", str "kernel_warnings")
    ∷ ("expected", int (pos a.expected))
    ∷ ("observed", nat_or_none a.observed)
    ∷ ("available", bool a.available)
    ∷ ("passed", bool a.passed)
    ∷ []

abbrev pub recovery_latency_document : RecoveryLatencyAssertion → Mapping
recovery_latency_document a =
    ("type", str "recovery_latency")
    ∷ ("maximum_ms", int (pos a.maximum_ms))
    ∷ ("observed_ms", int_or_none a.observed_ms)
    ∷ ("passed", bool a.passed)
    ∷ []

abbrev pub is_zero : ℤ → Bool
is_zero (pos n) = eqb n 0
is_zero (negsuc n) = false

abbrev pub exit_code_document : ℤ → Mapping
exit_code_document exit_code =
    ("type", str "process_exit_code")
    ∷ ("expected", int (pos 0))
    ∷ ("observed", int exit_code)
    ∷ ("passed", bool (is_zero exit_code))
    ∷ []

-- `asdict(window)`
abbrev pub window_document : RecoveryWindow → Mapping
window_document w =
    ("first_error_timestamp_ms", int (pos w.first_error_timestamp_ms))
    ∷ ("recovery_timestamp_ms", int (pos w.recovery_timestamp_ms))
    ∷ ("recovery_latency_ms", int w.recovery_latency_ms)
    ∷ ("observed_retries", int (pos w.observed_retries))
    ∷ ("reported_retries", int (pos w.reported_retries))
    ∷ []

-- `bool(value)`; the two zeros are the floats that are false.
abbrev pub truthy : Value → Bool
truthy null = false
truthy (bool b) = b
truthy (int n) = not (is_zero n)
truthy (float (double bits)) = not (eqb bits 0 || eqb bits 0x8000000000000000)
truthy (str s) = not (s == "")
truthy (list nil) = false
truthy (list (cons v vs)) = true
truthy (dict end) = false
truthy (dict (entry k v es)) = true
truthy (other n) = true
