-- ===== src/Scenario/Document.antt =====
-- `parse_scenario` and `load_scenario` of scenario.py. The YAML reader and the file system are not
-- part of the repository: `safe_load` gives the document and `read_text` the text of a file, or the
-- exception that it raises.
pub mod Valid
pub mod Print
pub mod Findings
use vdev_lab.Base.{ℕ, ◌<>◌, String, not, ◌==◌, decimal, if◌then◌else◌}
use vdev_lab.Base.Int.{pos, eqb_ℤ}
use vdev_lab.Base.Value.{Value, int}
use vdev_lab.Base.Result.{
  Result, ok, err, Exception, scenario_error, os_error, yaml_error, raise_if, ◌>>=◌, ◌>>◌,
}
use vdev_lab.Scenario.Schema.{ScenarioDefinition, schema_version, root_fields}
use vdev_lab.Scenario.Fields.{mapping, required, allowed, index}
use vdev_lab.Scenario.Sections.{parse_device, parse_application}
use vdev_lab.Scenario.Events.{parse_scenario_section}
use vdev_lab.Scenario.Assertions.{parse_assertions}

-- The checks of `schema_version`.
unfoldable pub parse_schema_version : Value → Result ℕ
parse_schema_version (int n) = do
  raise_if (not (eqb_ℤ n (pos schema_version)))
      (scenario_error "schema_version" ("must equal " <> decimal schema_version))
  ok schema_version
parse_schema_version _ = err (scenario_error "schema_version" "must be an integer")

-- `parse_scenario`, from the document that the YAML reader returned.
unfoldable pub parse_document : Value → String → Result ScenarioDefinition
parse_document document source = do
  root ← mapping document "$"
  required root root_fields "$"
  allowed root root_fields "$"
  raw_schema_version ← index root "schema_version"
  version ← parse_schema_version raw_schema_version
  raw_device ← index root "device"
  device_path ← parse_device raw_device
  raw_application ← index root "application"
  (command, startup_timeout_ms) ← parse_application raw_application
  raw_scenario ← index root "scenario"
  (name, timeout_ms, events) ← parse_scenario_section raw_scenario
  raw_assertions ← index root "assertions"
  assertions ← parse_assertions raw_assertions timeout_ms
  ok (record {
    source = source;
    schema_version = version;
    device_path = device_path;
    command = command;
    startup_timeout_ms = startup_timeout_ms;
    name = name;
    timeout_ms = timeout_ms;
    events = events;
    assertions = assertions;
  })

-- `error.strerror or "cannot read file"`
abbrev strerror : String → String
strerror message = if message == "" then "cannot read file" else message

-- The handler of `load_scenario`: an `OSError` is a finding about the path, and any other exception
-- passes.
abbrev pub read_error : Exception → String → Exception
read_error (os_error message) path = scenario_error path (strerror message)
read_error e path = e

-- The handler of `parse_scenario`.
abbrev load_error : Exception → Exception
load_error (yaml_error message) = scenario_error "$" "invalid YAML"
load_error e = e

module _ (safe_load : String → Result Value) (read_text : String → Result String) where
  unfoldable pub parse_scenario : String → String → Result ScenarioDefinition
  parse_scenario text source = elim (safe_load text) [
    | err e ↦ err (load_error e)
    | ok document ↦ parse_document document source
  ]

  -- The path stands for its normal form `Path(path)`.
  unfoldable pub load_scenario : String → Result ScenarioDefinition
  load_scenario path = elim (read_text path) [
    | err e ↦ err (read_error e path)
    | ok text ↦ parse_scenario text path
  ]
