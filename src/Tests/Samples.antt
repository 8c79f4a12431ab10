-- ===== src/Tests/Samples.antt =====
-- A scenario file as the YAML reader returns it, and what it means.
use vdev_lab.Base.{ℕ, ◌+◌, ◌-◌, ltb, eqb, false, List, [], ◌∷◌, none, some, map}
use vdev_lab.Base.Int.{ℤ, pos, negsuc}
use vdev_lab.Base.Value.{Value, Float, double, str, int, list, dict, bool, Mapping, entries, items}
use vdev_lab.Base.Result.{ok, err, value_error}
use vdev_lab.Base.Interpreter.{Interpreter}
use vdev_lab.Scenario.Document.Print.{Contents}
use vdev_lab.Scenario.{ScenarioDefinition}
use vdev_lab.Scenario.Events.Shape.{Event, eio, clear, encode_event}
use vdev_lab.Scenario.Assertions.Shape.{
  Assertion, event_count, stdout, disconnect, encode_assertion,
}

abbrev pub dict_of : Mapping → Value
dict_of m = dict (entries m)

abbrev pub sample_event_values : Value
sample_event_values = list (
    items (
      dict_of (
        ("at", str "100ms")
        ∷ ("action", str "fault")
        ∷ ("type", str "eio")
        ∷ ("repeat", int (pos 2))
        ∷ [])
      ∷ dict_of (("at", str "1s") ∷ ("action", str "clear") ∷ [])
      ∷ []))

abbrev pub sample_assertion_values : Value
sample_assertion_values = list (
    items (
      dict_of (
        ("type", str "event_count")
        ∷ ("event", str "RECOVERY_SUCCESS")
        ∷ ("count", int (pos 1))
        ∷ ("max_latency", str "500ms")
        ∷ [])
      ∷ dict_of (("type", str "stdout") ∷ ("contains", str "READ_RETRY") ∷ [])
      ∷ dict_of (("type", str "disconnect") ∷ ("expected", bool false) ∷ [])
      ∷ []))

abbrev pub sample_document : Value
sample_document = dict_of (
    ("schema_version", int (pos 1))
    ∷ ("device", dict_of (("path", str "/dev/vdevlab0") ∷ []))
    ∷ ("application", dict_of (("command", list (items (str "./monitor" ∷ str "-q" ∷ []))) ∷ []))
    ∷ (
      "scenario",
      dict_of
          (("name", str "retry") ∷ ("timeout", str "5s") ∷ ("events", sample_event_values) ∷ []),
    )
    ∷ ("assertions", sample_assertion_values)
    ∷ [])

abbrev pub sample_events : List Event
sample_events =
    record { at_ms = 100; action = eio 2 } ∷ record { at_ms = 1000; action = clear } ∷ []

abbrev pub sample_assertions : List Assertion
sample_assertions =
    event_count "RECOVERY_SUCCESS" 1 none (some 500)
    ∷ stdout (some "READ_RETRY") none
    ∷ disconnect false
    ∷ []

abbrev pub sample_scenario : ScenarioDefinition
sample_scenario = record {
  source = "retry.yaml";
  schema_version = 1;
  device_path = "/dev/vdevlab0";
  command = "./monitor" ∷ "-q" ∷ [];
  startup_timeout_ms = 2000;
  name = "retry";
  timeout_ms = 5000;
  events = map encode_event sample_events;
  assertions = map encode_assertion sample_assertions;
}

abbrev pub bits : Float → ℕ
bits (double n) = n

abbrev pub whole : ℤ → Float
whole (pos n) = double n
whole (negsuc n) = double 0

-- Floats that are natural numbers, for the tests: times in milliseconds, so that a conversion to
-- seconds or back keeps the number.
abbrev pub toy_python : Interpreter
toy_python = record {
  add = λ x y. double (bits x + bits y);
  sub = λ x y. double (bits x - bits y);
  mul_int = λ x n. x;
  true_div = λ n m. ok (double n);
  is_positive = λ x. ltb 0 (bits x);
  lt = λ x y. ltb (bits x) (bits y);
  eq = λ x y. eqb (bits x) (bits y);
  of_int = λ n. ok (whole n);
  trunc = λ x. ok (pos (bits x));
  int_of_text = λ s. err (value_error "invalid literal for int()");
  repr = λ v. "value";
}

abbrev pub sample_contents : Contents
sample_contents = record {
  device_path = "/dev/vdevlab0";
  command = "./monitor" ∷ "-q" ∷ [];
  startup_timeout_ms = 2000;
  name = "retry";
  timeout_ms = 5000;
  events = sample_events;
  assertions = sample_assertions;
}
