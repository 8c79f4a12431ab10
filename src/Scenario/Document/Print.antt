-- ===== src/Scenario/Document/Print.antt =====
-- A scenario as the document of a scenario file: what the parser of scenario.py accepts for it, with
-- every duration in milliseconds.
pub mod Parts
pub mod Assertions
pub mod RoundTrip
use vdev_lab.Base.{ℕ, ◌<>◌, String, List, [], ◌∷◌, map, Option, none, some, decimal}
use vdev_lab.Base.Int.{pos}
use vdev_lab.Base.Value.{Value, str, int, bool, list, dict, Mapping, entries, items}
use vdev_lab.Scenario.Schema.{ScenarioDefinition}
use vdev_lab.Scenario.Events.Shape.{
  Event, EventAction, clear, reset, disconnect, write, eio, delay, partial_read, encode_event,
}
use vdev_lab.Scenario.Assertions.Shape as Shape
use vdev_lab.Scenario.Assertions.Shape.{Assertion, encode_assertion}

-- What a scenario says.
pub record Contents : Type 0 where
  pub device_path : String
  pub command : List String
  pub startup_timeout_ms : ℕ
  pub name : String
  pub timeout_ms : ℕ
  pub events : List Event
  pub assertions : List Assertion

abbrev pub duration : ℕ → Value
duration n = str (decimal n <> "ms")

abbrev pub dict_of : Mapping → Value
dict_of m = dict (entries m)

abbrev pub action_fields : EventAction → Mapping
action_fields clear = ("action", str "clear") ∷ []
action_fields reset = ("action", str "reset") ∷ []
action_fields disconnect = ("action", str "fault") ∷ ("type", str "disconnect") ∷ []
action_fields (write text) = ("action", str "write") ∷ ("data", str text) ∷ []
action_fields (eio n) = ("action", str "fault") ∷ ("type", str "eio") ∷ ("repeat", int (pos n)) ∷ []
action_fields (delay n) =
    ("action", str "fault") ∷ ("type", str "delay") ∷ ("duration", duration n) ∷ []
action_fields (partial_read n) =
    ("action", str "fault") ∷ ("type", str "partial-read") ∷ ("bytes", int (pos n)) ∷ []

-- The value of the key `action`.
abbrev pub action_word : EventAction → String
action_word clear = "clear"
action_word reset = "reset"
action_word (write text) = "write"
action_word _ = "fault"

abbrev pub event_value : Event → Value
event_value e = dict_of (("at", duration e.at_ms) ∷ action_fields e.action)

abbrev optional : String → Option ℕ → Mapping → Mapping
optional key none m = m
optional key (some n) m = (key, duration n) ∷ m

abbrev optional_text : String → Option String → Mapping → Mapping
optional_text key none m = m
optional_text key (some s) m = (key, str s) ∷ m

abbrev pub assertion_fields : Assertion → Mapping
assertion_fields (Shape.event_count event count within max_latency) =
    ("type", str "event_count")
    ∷ ("event", str event)
    ∷ ("count", int (pos count))
    ∷ optional "within" within (optional "max_latency" max_latency [])
assertion_fields (Shape.stdout contained absent) =
    ("type", str "stdout")
    ∷ optional_text "contains" contained (optional_text "not_contains" absent [])
assertion_fields (Shape.disconnect expected) =
    ("type", str "disconnect") ∷ ("expected", bool expected) ∷ []
assertion_fields (Shape.kernel_warnings count) =
    ("type", str "kernel_warnings") ∷ ("count", int (pos count)) ∷ []

abbrev pub assertion_value : Assertion → Value
assertion_value a = dict_of (assertion_fields a)

abbrev pub document_value : Contents → Value
document_value c = dict_of (
    ("schema_version", int (pos 1))
    ∷ ("device", dict_of (("path", str c.device_path) ∷ []))
    ∷ (
      "application",
      dict_of (
          ("command", list (items (map str c.command)))
          ∷ ("startup_timeout", duration c.startup_timeout_ms)
          ∷ []),
    )
    ∷ (
      "scenario",
      dict_of (
          ("name", str c.name)
          ∷ ("timeout", duration c.timeout_ms)
          ∷ ("events", list (items (map event_value c.events)))
          ∷ []),
    )
    ∷ ("assertions", list (items (map assertion_value c.assertions)))
    ∷ [])

-- The scenario that the document defines.
abbrev pub definition_of : String → Contents → ScenarioDefinition
definition_of source c = record {
  source = source;
  schema_version = 1;
  device_path = c.device_path;
  command = c.command;
  startup_timeout_ms = c.startup_timeout_ms;
  name = c.name;
  timeout_ms = c.timeout_ms;
  events = map encode_event c.events;
  assertions = map encode_assertion c.assertions;
}
