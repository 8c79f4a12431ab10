-- ===== src/Scenario/Events/Shape.antt =====
-- The normal form of an event, as data, and its encoding as the dict that the parser of scenario.py
-- makes.
use vdev_lab.Base.{ℕ, ◌≤◌, String, ◌≢◌, [], ◌∷◌}
use vdev_lab.Base.Int.{pos}
use vdev_lab.Base.Value.{str, int, Mapping, insert}
use vdev_lab.Scenario.Schema.{max_duration_ms, max_eio_repeat, max_partial_read_bytes}

pub data EventAction : Type 0 where
  clear reset disconnect : EventAction
  write : String → EventAction
  eio delay partial_read : ℕ → EventAction

-- The dict before its `at_ms`.
abbrev pub action_fields : EventAction → Mapping
action_fields clear = ("action", str "clear") ∷ []
action_fields reset = ("action", str "reset") ∷ []
action_fields disconnect = ("action", str "fault") ∷ ("type", str "disconnect") ∷ []
action_fields (write text) = ("action", str "write") ∷ ("data", str text) ∷ []
action_fields (eio n) = ("action", str "fault") ∷ ("type", str "eio") ∷ ("repeat", int (pos n)) ∷ []
action_fields (delay n) =
    ("action", str "fault") ∷ ("type", str "delay") ∷ ("duration_ms", int (pos n)) ∷ []
action_fields (partial_read n) =
    ("action", str "fault") ∷ ("type", str "partial-read") ∷ ("bytes", int (pos n)) ∷ []

abbrev pub IsValidAction : EventAction → Type 0
IsValidAction (write text) = text ≢ ""
IsValidAction (eio n) = (1 ≤ n) × (n ≤ max_eio_repeat)
IsValidAction (delay n) = n ≤ max_duration_ms
IsValidAction (partial_read n) = (1 ≤ n) × (n ≤ max_partial_read_bytes)
IsValidAction _ = Unit

pub record Event : Type 0 where
  pub at_ms : ℕ
  pub action : EventAction

abbrev pub encode_event : Event → Mapping
encode_event e = insert "at_ms" (int (pos e.at_ms)) (action_fields e.action)

abbrev pub IsValidEvent : ℕ → Event → Type 0
IsValidEvent timeout_ms e = (e.at_ms ≤ timeout_ms) × IsValidAction e.action

-- The events stand in the order of their times.
abbrev pub Precedes : Event → Event → Type 0
Precedes e f = e.at_ms ≤ f.at_ms
