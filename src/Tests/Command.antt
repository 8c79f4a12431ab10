-- ===== src/Tests/Command.antt =====
-- The theorems on the commands of cli.py at a file system with one scenario, in a world whose state is
-- the time in milliseconds.
use vdev_lab.Base.{
  inl, ℕ, suc, ◌+◌, ◌≤◌, ◌≡◌, ◌==◌, length, if◌then◌else◌, String, List, ◌∷◌, refl, false, [], none,
  some,
}
use vdev_lab.Base.Int.{pos, ◌-ℤ◌}
use vdev_lab.Base.Result.{
  Raises, Raises-ok, Raises-if, Raises-err, yaml_error, scenario_error, err, ok,
}
use vdev_lab.Base.Action.{try_except, ◌>>=◌}
use vdev_lab.Runner.{ApplicationResult}
use vdev_lab.Runner.Run.{
  Application, Environment, requires_kernel_log, new_runner, cleanup_backend, finish_application,
  run_started, run, run_opened,
}
use vdev_lab.Runner.Decode.{scheduled_ms, fault_configuration, eio_configuration}
use vdev_lab.Runner.Process.{checked_timeout}
use vdev_lab.Scenario.Fields.{index}
use vdev_lab.Runner.Scheduler.{run_schedule, run_events, run_event, dispatch, dispatch_fault}
use vdev_lab.Scenario.Document.{load_scenario, parse_scenario}
use vdev_lab.Cli.{write_reports, exit_code_of, conclude, report_run, run_loaded, run_command}
use vdev_lab.Cli.Program.{Outside, program}
use vdev_lab.Tests.Parse.{parse_document-sample}
use vdev_lab.Tests.Console.{
  run_result, build_scenario_report-sample, sample_report, analyse_log-sample,
}
use vdev_lab.Runner.Run.Success.{Completed, run-Completed}
use vdev_lab.Cli.Reported.{run-Gives}
use vdev_lab.Report.{pass, fail, build_error_report}
use vdev_lab.Report.Build.{build_scenario_report}
use vdev_lab.Report.Build.Total.{Gives}
use vdev_lab.JUnit.{nil, cons, suite_element}
use vdev_lab.JUnit.Failed.{Selects, HasFailed, HasCase, listing, build_scenario_report-ListsFailed}
use vdev_lab.JUnit.Counts.{HasCounts, suite_element-HasCounts}
use vdev_lab.Base.Value.{Mapping, double}
use vdev_lab.Tests.Samples.{toy_python, bits, sample_document, sample_scenario}
use vdev_lab.Tests.Analyse.{read_line, log_text}
use vdev_lab.Tests.Execute.{toy_backend, toy_clock, toy_kernel_log, step}

abbrev log_result : ApplicationResult
log_result = record {
  command = sample_scenario.command;
  exit_code = pos 0;
  stdout = log_text;
  stderr = "";
  timed_out = false;
  forced = false;
}

abbrev log_application : Application ℕ
log_application = record {
  start = λ command cwd. step;
  poll = λ w. (ok none, suc w);
  terminate = λ grace_ms w. (ok log_result, suc w);
  collect_with_timeout = λ timeout_ms grace_ms w. (ok log_result, suc w);
}

abbrev calm_environment : Environment ℕ
calm_environment = record {
  open_backend = λ path. step;
  backend = toy_backend;
  application = log_application;
  kernel_log = toy_kernel_log;
  clock = toy_clock;
  sleeper = λ x w. (ok tt, bits x + w);
  terminate_grace_ms = pos 1000;
}

abbrev pub toy_outside : Outside ℕ
toy_outside = record {
  print = λ text. step;
  print_error = λ text. step;
  write_text = λ path text. step;
  read_text = λ path w. (ok "scenario: ...", suc w);
  stem = λ path. path;
  has_magic = λ path. false;
  sorted_glob = λ path w. (ok [], w);
  show = λ n. "0";
  safe_load = λ text. ok sample_document;
  json_loads = read_line;
  dumps = λ v. "{}";
  json_text = λ v. "{}";
  to_text = λ e. "<testsuite />";
  python = toy_python;
  environment = calm_environment;
}

run-sample :
    run toy_python calm_environment sample_scenario (some ".") 1 ≡ (ok (run_result log_text), 1111)
unfolding requires_kernel_log run_opened run_started run_schedule run_events run_event dispatch
    dispatch_fault scheduled_ms fault_configuration finish_application cleanup_backend try_except
    run eio_configuration index ◌-ℤ◌ ◌>>=◌ vdev_lab.Base.Result.◌>>=◌
run-sample = refl

load_scenario-sample :
    load_scenario toy_outside.safe_load (λ path. ok "scenario: ...") "retry.yaml"
    ≡ ok sample_scenario
unfolding load_scenario parse_scenario
load_scenario-sample = parse_document-sample

run_scenario-sample :
    (program toy_outside).run_scenario sample_scenario (some ".") 1
    ≡ (ok (run_result log_text), 1111)
unfolding program new_runner checked_timeout run ◌>>=◌
run_scenario-sample = run-sample

report_run-sample :
    report_run
      (program toy_outside)
      (some "report.json")
      none
      sample_scenario
      (run_result log_text)
      1111
    ≡ (ok (pos 0), 1114)
unfolding program report_run conclude write_reports try_except exit_code_of ◌>>=◌
report_run-sample = rw build_scenario_report-sample refl

pub run_command-sample :
    run_command (program toy_outside) "retry.yaml" (some ".") (some "report.json") none 0
    ≡ (ok (pos 0), 1114)
unfolding run_command run_loaded program
run_command-sample = rw (load_scenario-sample, run_scenario-sample) report_run-sample

run-Completed_example :
    Completed toy_python calm_environment sample_scenario (some ".") (run_result log_text) 1111
run-Completed_example =
    run-Completed toy_python calm_environment sample_scenario (some ".") 1 run-sample

run-Gives_example :
    Gives (build_scenario_report toy_python read_line sample_scenario (run_result log_text))
run-Gives_example =
    run-Gives toy_python calm_environment toy_outside.safe_load read_line
      (λ path. ok "scenario: ...") "retry.yaml" (some ".") 1 load_scenario-sample run-sample
      ((pos 105, refl, (double 105, refl)), ((pos 1005, refl, (double 1005, refl)), tt))
      analyse_log-sample ((double 110, refl), ((double 160, refl), tt))

build_scenario_report-ListsFailed_example :
    (sample_report.status ≡ fail
      → (failed : List Mapping) × Selects HasFailed sample_report.assertions failed
        × (1 ≤ length failed)
        × HasCase
            (suite_element toy_python (λ v. "{}") sample_report)
            (cons (listing (λ v. "{}") failed) nil))
    × (sample_report.status ≡ pass
        → HasCase (suite_element toy_python (λ v. "{}") sample_report) nil)
build_scenario_report-ListsFailed_example =
    build_scenario_report-ListsFailed toy_python read_line sample_scenario (run_result log_text)
      (λ v. "{}") build_scenario_report-sample

suite_element-HasCounts_example :
    HasCounts
      (suite_element toy_python (λ v. "{}") (build_error_report "retry" (yaml_error "line 3")))
suite_element-HasCounts_example =
    suite_element-HasCounts toy_python (λ v. "{}")
      (build_error_report "retry" (yaml_error "line 3"))
