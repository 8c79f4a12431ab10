-- ===== src/Tests/Console.antt =====
-- The theorems on report.py and cli.py at the log of a run.
use vdev_lab.Base.{
  upper, String, ◌≡◌, ◌↔◌, refl, true, false, List, [], ◌∷◌, ◌++◌, none, some, is_in,
}
use vdev_lab.Base.Int.{pos}
use vdev_lab.Base.Value.{str, int, float, double, Mapping}
use vdev_lab.Base.Result.{ok, ◌>>=◌}
use vdev_lab.Scenario.Fields.{index}
use vdev_lab.Scenario.Events.Shape.{eio, clear, encode_event}
use vdev_lab.Analysis.Log.{require_nonnegative_integer}
use vdev_lab.Analysis.Evaluate.{
  maximum, evaluate_recovery_latency, assertion_event, assertion_count, assertion_within,
  observed_count, evaluate_event_assertion, evaluate_event_assertions, evaluate_stdout_assertion,
  disconnected, evaluate_disconnect,
}
use vdev_lab.Runner.Run.{requires_kernel_log}
use vdev_lab.Runner.{DispatchRecord, ScenarioRunResult}
use vdev_lab.Report.{pass, ScenarioReport}
use vdev_lab.Report.Timeline.{
  event_at, dispatch_name, event_details, dispatch_item, application_timeline, dispatch_timeline,
  sort_key, keyed, ltb_key, insert_keyed, sort_keyed, sorted_timeline, first_fault_timestamp,
}
use vdev_lab.Report.Documents.{
  application_document, event_count_document, stdout_document, disconnect_document,
  recovery_latency_document, exit_code_document,
}
use vdev_lab.Report.Build.{
  event_definitions, stdout_documents, disconnect_documents, kernel_warnings_documents,
  other_documents, latency_documents, collect_documents, assertion_documents, observations_of,
  assertions_passed, status_of, analyse_log, analysed_report, report_of_analysis,
  build_scenario_report,
}
use vdev_lab.Report.Build.Status.{HasPassed, build_scenario_report-HasPassed}
use vdev_lab.Tests.Samples.{toy_python, sample_scenario, sample_assertions, dict_of}
use vdev_lab.Tests.Print.{sample_assertions-IsValidAssertion}
use vdev_lab.Tests.Analyse.{
  read_line, log_text, log_events, metrics, parse_application_log-sample,
  calculate_recovery_metrics-sample,
}

-- The dispatches of the scenario's events, in milliseconds of a clock that shows 4 at their start.
abbrev fault_record : DispatchRecord
fault_record = record {
  index = 0;
  action = "fault";
  scheduled_ms = 100;
  started_ms = double 101;
  finished_ms = double 103;
  monotonic_started_ms = double 105;
  monotonic_finished_ms = double 107;
}

abbrev clear_record : DispatchRecord
clear_record = record {
  index = 1;
  action = "clear";
  scheduled_ms = 1000;
  started_ms = double 1001;
  finished_ms = double 1003;
  monotonic_started_ms = double 1005;
  monotonic_finished_ms = double 1007;
}

abbrev pub fault_item : Mapping
fault_item =
    ("source", str "scenario")
    ∷ ("event", str "FAULT_INJECTED")
    ∷ ("timestamp_ms", int (pos 105))
    ∷ ("event_index", int (pos 0))
    ∷ ("scheduled_ms", int (pos 100))
    ∷ ("duration_ms", float (double 2))
    ∷ ("details", dict_of (event_details (encode_event (record { at_ms = 100; action = eio 2 }))))
    ∷ []

abbrev pub clear_item : Mapping
clear_item =
    ("source", str "scenario")
    ∷ ("event", str "CLEAR_DISPATCHED")
    ∷ ("timestamp_ms", int (pos 1005))
    ∷ ("event_index", int (pos 1))
    ∷ ("scheduled_ms", int (pos 1000))
    ∷ ("duration_ms", float (double 2))
    ∷ ("details", dict_of (event_details (encode_event (record { at_ms = 1000; action = clear }))))
    ∷ []

abbrev pub sample_timeline : List Mapping
sample_timeline = fault_item ∷ (application_timeline log_events ++ (clear_item ∷ []))

abbrev pub run_result : String → ScenarioRunResult
run_result stdout = record {
  scenario_name = "retry";
  dispatches = fault_record ∷ clear_record ∷ [];
  application = record {
    command = sample_scenario.command;
    exit_code = pos 0;
    stdout = stdout;
    stderr = "";
    timed_out = false;
    forced = false;
  };
  kernel_warnings = [];
  kernel_log_available = false;
  kernel_log_error = none;
}

abbrev documents : List Mapping
documents =
    event_count_document (record {
      event = "RECOVERY_SUCCESS";
      expected = 1;
      observed = 1;
      within_ms = none;
      passed = true;
    })
    ∷ stdout_document (record { operator = "contains"; text = "READ_RETRY"; passed = true })
    ∷ disconnect_document (record { expected = false; observed = false; passed = true })
    ∷ exit_code_document (pos 0)
    ∷ recovery_latency_document
        (record { maximum_ms = 500; observed_ms = some (pos 50); passed = true })
    ∷ []

abbrev pub sample_report : ScenarioReport
sample_report = record {
  status = pass;
  scenario_name = "retry";
  application = some (application_document (run_result log_text).application);
  observations = observations_of (run_result log_text) log_events metrics (some (pos 105));
  assertions = documents;
  timeline = sample_timeline;
  error = none;
  schema_version = 1;
}

documents-sample :
    assertion_documents sample_scenario (run_result log_text) log_events metrics ≡ ok documents
unfolding assertion_documents event_definitions stdout_documents disconnect_documents
    kernel_warnings_documents other_documents latency_documents collect_documents maximum
    evaluate_recovery_latency assertion_event assertion_count assertion_within observed_count
    evaluate_event_assertion evaluate_event_assertions evaluate_stdout_assertion disconnected
    evaluate_disconnect require_nonnegative_integer index is_in ◌>>=◌
documents-sample = refl

pub analyse_log-sample : analyse_log read_line log_text ≡ ok (log_events, metrics)
unfolding analyse_log ◌>>=◌
analyse_log-sample = rw (parse_application_log-sample, calculate_recovery_metrics-sample) refl

analysed_report-sample :
    analysed_report toy_python read_line sample_scenario
      (run_result log_text)
      (fault_item ∷ clear_item ∷ [])
      log_events
      metrics
    ≡ ok sample_report
unfolding analysed_report application_timeline sort_key keyed ltb_key insert_keyed sort_keyed
    sorted_timeline event_at first_fault_timestamp index assertions_passed status_of
    requires_kernel_log ◌>>=◌
analysed_report-sample = rw documents-sample refl

pub build_scenario_report-sample :
    build_scenario_report toy_python read_line sample_scenario (run_result log_text)
    ≡ ok sample_report
unfolding build_scenario_report event_at dispatch_name dispatch_item dispatch_timeline
    report_of_analysis upper ◌>>=◌
build_scenario_report-sample = rw analyse_log-sample analysed_report-sample

build_scenario_report-HasPassed_example :
    (sample_report.status ≡ pass)
    ↔ HasPassed sample_scenario (run_result log_text) log_events metrics sample_assertions
build_scenario_report-HasPassed_example =
    build_scenario_report-HasPassed toy_python read_line sample_scenario (run_result log_text) 5000
      sample_assertions log_events metrics sample_assertions-IsValidAssertion refl
      analyse_log-sample build_scenario_report-sample
