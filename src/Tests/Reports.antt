-- ===== src/Tests/Reports.antt =====
-- The theorems on the timeline and on the failed reports of report.py.
use vdev_lab.Base.{
  upper, ◌≡◌, refl, [], ◌∷◌, some, decimal, decimal_onto, digit, arith, splitlines, is_blank,
}
use vdev_lab.Base.Int.{ℤ, pos, ltb_ℤ, eqb_ℤ}
use vdev_lab.Base.Value.{str, double, Float}
use vdev_lab.Base.Result.{ok, err, application_log_error, ◌>>=◌}
use vdev_lab.Scenario.Fields.{index}
use vdev_lab.Analysis.Log.{parse_lines, parse_application_log}
use vdev_lab.Report.{error, ScenarioReport}
use vdev_lab.Report.Timeline.{
  event_at, dispatch_name, dispatch_item, dispatch_timeline, sort_key, keyed, ltb_key, insert_keyed,
  sort_keyed, sorted_timeline,
}
use vdev_lab.Report.Documents.{application_document}
use vdev_lab.Report.Build.{analyse_log, log_error_report, report_of_analysis, build_scenario_report}
use vdev_lab.Report.Timeline.Sorted.{IntFloats}
use vdev_lab.Tests.Samples.{toy_python, sample_scenario, bits, whole}
use vdev_lab.Tests.Analyse.{read_line}
use vdev_lab.Tests.Console.{run_result, fault_item, clear_item}

abbrev failed_report : ScenarioReport
failed_report = record {
  status = error;
  scenario_name = "retry";
  application = some (application_document (run_result "oops").application);
  observations = [];
  assertions = [];
  timeline = fault_item ∷ clear_item ∷ [];
  error =
      some (("type", str "ApplicationLogError") ∷ ("message", str "stdout[1]: invalid JSON") ∷ []);
  schema_version = 1;
}

analyse_log-failed : analyse_log read_line "oops" ≡ err (application_log_error 1 "invalid JSON")
unfolding analyse_log parse_application_log parse_lines splitlines is_blank ◌>>=◌
analyse_log-failed = refl

build_scenario_report-failed :
    build_scenario_report toy_python read_line sample_scenario (run_result "oops")
    ≡ ok failed_report
unfolding build_scenario_report event_at dispatch_name dispatch_item dispatch_timeline
    report_of_analysis log_error_report sort_key index keyed ltb_key insert_keyed sort_keyed
    sorted_timeline upper ◌>>=◌ decimal decimal_onto digit
build_scenario_report-failed = rw analyse_log-failed refl

lt_of_int-toy :
    (m n : ℤ) (x y : Float)
    → ok (whole m) ≡ ok x
    → ok (whole n) ≡ ok y
    → toy_python.lt x y ≡ ltb_ℤ (pos (bits x)) (pos (bits y))
lt_of_int-toy m n (double x) (double y) _ _ = ground arith

eq_of_int-toy :
    (m n : ℤ) (x y : Float)
    → ok (whole m) ≡ ok x
    → ok (whole n) ≡ ok y
    → toy_python.eq x y ≡ eqb_ℤ (pos (bits x)) (pos (bits y))
eq_of_int-toy m n (double x) (double y) _ _ = ground arith

abbrev toy_floats : IntFloats toy_python
toy_floats = record {
  value = λ x. pos (bits x);
  lt_of_int = lt_of_int-toy;
  eq_of_int = eq_of_int-toy;
}
