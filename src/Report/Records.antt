-- ===== src/Report/Records.antt =====
-- `ReportStatus`, `ScenarioReport` with `to_dict` and `to_json`, and `build_error_report` of report.py.
use vdev_lab.Base.{ℕ, ◌<>◌, String, List, [], ◌∷◌, map, Option, none, some}
use vdev_lab.Base.Int.{pos}
use vdev_lab.Base.Value.{Value, null, int, str, list, dict, Mapping, entries, items}
use vdev_lab.Base.Result.{Exception, type_name, error_message}

pub data ReportStatus : Type 0 where
  pass fail error timeout : ReportStatus

abbrev pub status_value : ReportStatus → String
status_value pass = "PASS"
status_value fail = "FAIL"
status_value error = "ERROR"
status_value timeout = "TIMEOUT"

abbrev pub report_schema_version : ℕ
report_schema_version = 1

pub record ScenarioReport : Type 0 where
  pub status : ReportStatus
  pub scenario_name : String
  pub application : Option Mapping
  pub observations : Mapping
  pub assertions : List Mapping
  pub timeline : List Mapping
  pub error : Option Mapping
  pub schema_version : ℕ

-- A dict or `None` as a value, and a list of dicts as one.
abbrev pub dict_or_none : Option Mapping → Value
dict_or_none none = null
dict_or_none (some m) = dict (entries m)

abbrev pub dict_list : List Mapping → Value
dict_list ms = list (items (map (λ m. dict (entries m)) ms))

unfoldable pub to_dict : ScenarioReport → Mapping
to_dict report =
    ("schema_version", int (pos report.schema_version))
    ∷ ("status", str (status_value report.status))
    ∷ ("scenario", dict (entries (("name", str report.scenario_name) ∷ [])))
    ∷ ("application", dict_or_none report.application)
    ∷ ("observations", dict (entries report.observations))
    ∷ ("assertions", dict_list report.assertions)
    ∷ ("timeline", dict_list report.timeline)
    ∷ ("error", dict_or_none report.error)
    ∷ []

-- `json.dumps` with the options of the report is a parameter.
unfoldable pub to_json : (Value → String) → ScenarioReport → String
to_json dumps report = dumps (dict (entries (to_dict report))) <> "\n"

-- `{"type": type(error).__name__, "message": str(error)}`
abbrev pub error_document : Exception → Mapping
error_document e = ("type", str (type_name e)) ∷ ("message", str (error_message e)) ∷ []

unfoldable pub build_error_report : String → Exception → ScenarioReport
build_error_report scenario_name e = record {
  status = error;
  scenario_name = scenario_name;
  application = none;
  observations = [];
  assertions = [];
  timeline = [];
  error = some (error_document e);
  schema_version = report_schema_version;
}
