-- ===== src/JUnit.antt =====
-- src/vdevlab/junit.py: the JUnit suite of a report. `Element` is the tree that is built with
-- `ElementTree`; its indentation and printing are the library's, and so a parameter.
pub mod Counts
pub mod Failed
use vdev_lab.Base.{
  ℕ, ◌<>◌, String, Bool, false, not, List, [], ◌∷◌, Option, none, some, length, select, decimal,
}
use vdev_lab.Base.Value.{Value, bool, str, dict, Mapping, entries, lookup}
use vdev_lab.Base.Interpreter.{Interpreter, text_of}
use vdev_lab.Report.{
  ReportStatus, pass, fail, error, timeout, status_value, ScenarioReport, dict_list,
}

mutual
  pub data Element : Type 0 where
    element : String → List (String × String) → Option String → Elements → Element

  pub data Elements : Type 0 where
    nil : Elements
    cons : Element → Elements → Elements

abbrev pub failures_of : ReportStatus → ℕ
failures_of fail = 1
failures_of _ = 0

abbrev pub errors_of : ReportStatus → ℕ
errors_of error = 1
errors_of timeout = 1
errors_of _ = 0

-- `assertion.get("passed") is False`
abbrev pub is_false : Option Value → Bool
is_false (some (bool b)) = not b
is_false _ = false

unfoldable pub failed_assertions : List Mapping → List Mapping
failed_assertions assertions = select (λ assertion. is_false (lookup "passed" assertion)) assertions

-- `dict(document or {})`
abbrev document_or_empty : Option Mapping → Mapping
document_or_empty none = []
document_or_empty (some m) = m

-- `str(document.get(key, default))`
abbrev text_at : Interpreter → Option Value → String → String
text_at python none default = default
text_at python (some v) default = text_of python v

module _ (python : Interpreter) (json_text : Value → String) where
  unfoldable pub failure_element : List Mapping → Element
  failure_element assertions =
      let failed = failed_assertions assertions in
      element "failure"
        (("message", decimal (length failed) <> " assertion(s) failed")
          ∷ ("type", "VDevLabAssertionFailure")
          ∷ [])
        (some (json_text (dict (entries (("failed_assertions", dict_list failed) ∷ []))))) nil

  unfoldable pub error_element : Option Mapping → Element
  error_element report_error =
      let document = document_or_empty report_error in
      element "error"
        (("message", text_at python (lookup "message" document) "scenario report error")
          ∷ ("type", text_at python (lookup "type" document) "VDevLabError")
          ∷ [])
        (some (json_text (dict (entries document)))) nil

  unfoldable pub timeout_element : Option Mapping → Element
  timeout_element application =
      element "error" (("message", "scenario timed out") ∷ ("type", "VDevLabTimeout") ∷ [])
        (some (
          json_text (
            dict (
              entries (
                ("application", dict (entries (document_or_empty application)))
                ∷ ("status", str (status_value timeout))
                ∷ [])))))
        nil

  -- What the test case holds.
  unfoldable pub case_children : ReportStatus → ScenarioReport → Elements
  case_children pass report = nil
  case_children fail report = cons (failure_element report.assertions) nil
  case_children error report = cons (error_element report.error) nil
  case_children timeout report = cons (timeout_element report.application) nil

  property_element : String → String → Element
  property_element name value = element "property" (("name", name) ∷ ("value", value) ∷ []) none nil

  unfoldable pub suite_element : ScenarioReport → Element
  unfolding property_element
  suite_element report =
      element "testsuite"
        (("name", "vdevlab")
          ∷ ("tests", "1")
          ∷ ("failures", decimal (failures_of report.status))
          ∷ ("errors", decimal (errors_of report.status))
          ∷ ("skipped", "0")
          ∷ [])
        none
        (cons
          (element "properties" [] none (
            cons (property_element "vdevlab.report_schema_version" (decimal report.schema_version))
              (cons (property_element "vdevlab.status" (status_value report.status)) nil)))
          (cons
            (element "testcase"
              (("classname", "vdevlab.scenario") ∷ ("name", report.scenario_name) ∷ []) none
              (case_children report.status report))
            nil))

  -- `to_text` is the indented print with its XML declaration.
  unfoldable pub report_to_junit_xml : (Element → String) → ScenarioReport → String
  report_to_junit_xml to_text report = to_text (suite_element report) <> "\n"
