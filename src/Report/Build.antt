-- ===== src/Report/Build.antt =====
-- `build_scenario_report` of report.py.
pub mod Holds
pub mod Asserted
pub mod Verdict
pub mod Status
pub mod Chronology
pub mod Total
use vdev_lab.Base.{
  ℕ, String, ◌==◌, Bool, not, ◌&&◌, List, [], ◌∷◌, ◌++◌, map, Option, none, some, all, select,
  length, if◌then◌else◌,
}
use vdev_lab.Base.Int.{ℤ, pos}
use vdev_lab.Base.Value.{Value, int, str, bool, dict, Mapping, entries, get, get_or, is_str}
use vdev_lab.Base.Result.{Result, ok, err, Exception, application_log_error, ◌>>=◌}
use vdev_lab.Base.Interpreter.{Interpreter}
use vdev_lab.Scenario.{ScenarioDefinition}
use vdev_lab.Scenario.Fields.{index}
use vdev_lab.Analysis.{ApplicationLogEvent, RecoveryMetrics}
use vdev_lab.Analysis.Log.{parse_application_log}
use vdev_lab.Analysis.Recovery.{calculate_recovery_metrics}
use vdev_lab.Analysis.Evaluate.{
  evaluate_event_assertions, evaluate_stdout_assertion, evaluate_disconnect,
  evaluate_kernel_warnings, evaluate_recovery_latency, disconnected,
}
use vdev_lab.Runner.{ScenarioRunResult}
use vdev_lab.Runner.Run.{requires_kernel_log}
use vdev_lab.Report.Records.{
  ReportStatus, pass, fail, error, timeout, ScenarioReport, report_schema_version, error_document,
  dict_list,
}
use vdev_lab.Report.Timeline.{
  dispatch_timeline, application_timeline, sorted_timeline, first_fault_timestamp, causal_duration,
}
use vdev_lab.Report.Documents.{
  application_document, event_count_document, stdout_document, disconnect_document,
  kernel_warnings_document, recovery_latency_document, exit_code_document, window_document,
  nat_or_none, int_or_none, str_or_none, str_list, truthy,
}

-- The definitions of the assertions on event counts.
unfoldable pub event_definitions : List Mapping → List Mapping
event_definitions definitions =
    select (λ definition. is_str "event_count" (get_or definition "type" (str "event_count")))
      definitions

unfoldable pub stdout_documents : ScenarioRunResult → Mapping → Result (List Mapping)
stdout_documents result definition = do
  assertions ← evaluate_stdout_assertion result.application.stdout definition
  ok (map stdout_document assertions)

unfoldable pub disconnect_documents : List ApplicationLogEvent → Mapping → Result (List Mapping)
disconnect_documents events definition = do
  expected ← index definition "expected"
  assertion ← evaluate_disconnect events expected
  ok (disconnect_document assertion ∷ [])

unfoldable pub kernel_warnings_documents : ScenarioRunResult → Mapping → Result (List Mapping)
kernel_warnings_documents result definition = do
  expected ← index definition "count"
  assertion ← evaluate_kernel_warnings result.kernel_warnings expected result.kernel_log_available
  ok (kernel_warnings_document assertion ∷ [])

-- The body of the first loop over the assertions.
unfoldable pub other_documents :
    ScenarioRunResult → List ApplicationLogEvent → Mapping → Result (List Mapping)
other_documents result events definition =
    let assertion_type = get definition "type" in
    if is_str "stdout" assertion_type
    then stdout_documents result definition
    else if is_str "disconnect" assertion_type
    then disconnect_documents events definition
    else if is_str "kernel_warnings" assertion_type
    then kernel_warnings_documents result definition
    else ok []

-- The body of the second loop, over the value of `max_latency_ms`.
unfoldable pub latency_documents : RecoveryMetrics → Value → Result (List Mapping)
latency_documents metrics (int maximum_ms) = do
  assertion ← evaluate_recovery_latency metrics (int maximum_ms)
  ok (recovery_latency_document assertion ∷ [])
latency_documents metrics _ = ok []

-- A loop that extends the documents for each definition.
unfoldable pub collect_documents :
    (Mapping → Result (List Mapping)) → List Mapping → Result (List Mapping)
collect_documents body [] = ok []
collect_documents body (definition ∷ definitions) = do
  documents ← body definition
  rest ← collect_documents body definitions
  ok (documents ++ rest)

unfoldable pub assertion_documents :
    ScenarioDefinition
    → ScenarioRunResult
    → List ApplicationLogEvent
    → RecoveryMetrics
    → Result (List Mapping)
assertion_documents scenario result events metrics = do
  event_assertions ← evaluate_event_assertions events (event_definitions scenario.assertions)
  others ← collect_documents (other_documents result events) scenario.assertions
  latencies ←
      collect_documents (λ definition. latency_documents metrics (get definition "max_latency_ms"))
        scenario.assertions
  ok (
      map event_count_document event_assertions
      ++ (others ++ (exit_code_document result.application.exit_code ∷ latencies)))

abbrev pub int_of_nat : Option ℕ → Option ℤ
int_of_nat none = none
int_of_nat (some n) = some (pos n)

abbrev kernel_log_document : ScenarioRunResult → Mapping
kernel_log_document result =
    ("available", bool result.kernel_log_available)
    ∷ (
      "warning_count",
      nat_or_none
          (if result.kernel_log_available then some (length result.kernel_warnings) else none),
    )
    ∷ ("warnings", str_list result.kernel_warnings)
    ∷ ("error", str_or_none result.kernel_log_error)
    ∷ []

unfoldable pub observations_of :
    ScenarioRunResult → List ApplicationLogEvent → RecoveryMetrics → Option ℤ → Mapping
observations_of result events metrics fault_timestamp_ms =
    ("observed_eio_count", int (pos metrics.observed_eio_count))
    ∷ ("application_retry_count", int (pos metrics.application_retry_count))
    ∷ ("fault_injection_timestamp_ms", int_or_none fault_timestamp_ms)
    ∷ ("first_error_timestamp_ms", nat_or_none metrics.first_error_timestamp_ms)
    ∷ ("recovery_timestamp_ms", nat_or_none metrics.recovery_timestamp_ms)
    ∷ ("recovery_latency_ms", int_or_none metrics.recovery_latency_ms)
    ∷ (
      "fault_to_first_error_ms",
      int_or_none
          (causal_duration (int_of_nat metrics.first_error_timestamp_ms) fault_timestamp_ms),
    )
    ∷ (
      "fault_to_recovery_ms",
      int_or_none (causal_duration (int_of_nat metrics.recovery_timestamp_ms) fault_timestamp_ms),
    )
    ∷ ("recoveries", dict_list (map window_document metrics.recoveries))
    ∷ ("disconnected", bool (disconnected events))
    ∷ ("kernel_log", dict (entries (kernel_log_document result)))
    ∷ []

-- `all(bool(assertion["passed"]) for assertion in assertion_documents)`; every document has the key.
unfoldable pub assertions_passed : List Mapping → Bool
assertions_passed documents = all (λ document. truthy (get document "passed")) documents

-- `result.kernel_log_error or "kernel log is unavailable"`
abbrev kernel_log_message : Option String → String
kernel_log_message none = "kernel log is unavailable"
kernel_log_message (some s) = if s == "" then "kernel log is unavailable" else s

-- The last branches: the status, and the error that goes with it.
unfoldable pub status_of : Bool → ScenarioRunResult → Bool → ReportStatus × Option Mapping
status_of kernel_log_required result passed =
    if kernel_log_required && not result.kernel_log_available
    then (
      error,
      some (
          ("type", str "KernelLogUnavailable")
          ∷ ("message", str (kernel_log_message result.kernel_log_error))
          ∷ []),
    )
    else if result.application.timed_out
    then (timeout, none)
    else if not passed
    then (fail, none)
    else (pass, none)

-- The events and the metrics of a log: the body of the `try`.
unfoldable pub analyse_log :
    (String → Result Value) → String → Result (List ApplicationLogEvent × RecoveryMetrics)
analyse_log json_loads stdout = do
  events ← parse_application_log json_loads stdout
  metrics ← calculate_recovery_metrics events
  ok (events, metrics)

module _ (python : Interpreter) (json_loads : String → Result Value) where
  -- The report of a log that is invalid.
  unfoldable pub log_error_report :
      ScenarioDefinition → ScenarioRunResult → List Mapping → Exception → Result ScenarioReport
  log_error_report scenario result dispatches e = do
    timeline ← sorted_timeline python dispatches
    ok (record {
      status = error;
      scenario_name = scenario.name;
      application = some (application_document result.application);
      observations = [];
      assertions = [];
      timeline = timeline;
      error = some (error_document e);
      schema_version = report_schema_version;
    })

  -- The report of a log that was analysed.
  unfoldable pub analysed_report :
      ScenarioDefinition
      → ScenarioRunResult
      → List Mapping
      → List ApplicationLogEvent
      → RecoveryMetrics
      → Result ScenarioReport
  analysed_report scenario result dispatches events metrics = do
    documents ← assertion_documents scenario result events metrics
    fault_timestamp_ms ← first_fault_timestamp python scenario.events result.dispatches
    timeline ← sorted_timeline python (dispatches ++ application_timeline events)
    let verdict =
        status_of (requires_kernel_log scenario.assertions) result (assertions_passed documents)
    ok (record {
      status = verdict.0;
      scenario_name = scenario.name;
      application = some (application_document result.application);
      observations = observations_of result events metrics fault_timestamp_ms;
      assertions = documents;
      timeline = timeline;
      error = verdict.1;
      schema_version = report_schema_version;
    })

  -- `except ApplicationLogError`; any other exception passes.
  unfoldable pub report_of_analysis :
      ScenarioDefinition
      → ScenarioRunResult
      → List Mapping
      → Result (List ApplicationLogEvent × RecoveryMetrics)
      → Result ScenarioReport
  report_of_analysis scenario result dispatches (ok (events, metrics)) =
      analysed_report scenario result dispatches events metrics
  report_of_analysis scenario result dispatches (err (application_log_error line message)) =
      log_error_report scenario result dispatches (application_log_error line message)
  report_of_analysis scenario result dispatches (err e) = err e

  unfoldable pub build_scenario_report :
      ScenarioDefinition → ScenarioRunResult → Result ScenarioReport
  build_scenario_report scenario result = do
    dispatches ← dispatch_timeline python scenario.events result.dispatches
    report_of_analysis scenario result dispatches (analyse_log json_loads result.application.stdout)
