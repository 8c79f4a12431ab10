-- ===== src/Scenario/Schema.antt =====
-- The constants of scenario.py and the validated scenario.
use vdev_lab.Base.{ℕ, String, List, [], ◌∷◌}
use vdev_lab.Base.Value.{Mapping}

abbrev pub schema_version : ℕ
schema_version = 1

abbrev pub max_duration_ms : ℕ
max_duration_ms = 86_400_000

abbrev pub max_eio_repeat : ℕ
max_eio_repeat = 1_000_000

abbrev pub max_partial_read_bytes : ℕ
max_partial_read_bytes = 4096

abbrev pub root_fields : List String
root_fields = "schema_version" ∷ "device" ∷ "application" ∷ "scenario" ∷ "assertions" ∷ []

abbrev pub log_events : List String
log_events =
    "MONITOR_STARTED" ∷ "TEMPERATURE" ∷ "THERMAL_WARNING" ∷ "READ_RETRY" ∷ "RECOVERY_SUCCESS"
    ∷ "DEVICE_DISCONNECTED" ∷ "READ_FAILED" ∷ "INVALID_INPUT" ∷ "INPUT_TOO_LONG" ∷ []

pub record ScenarioDefinition : Type 0 where
  pub source : String
  pub schema_version : ℕ
  pub device_path : String
  pub command : List String
  pub startup_timeout_ms : ℕ
  pub name : String
  pub timeout_ms : ℕ
  pub events : List Mapping
  pub assertions : List Mapping
