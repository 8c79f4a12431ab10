-- ===== src/Cli/Reported.antt =====
-- From a scenario file over its run to its report: scenario.py, runner.py, analysis.py and report.py
-- as cli.py's `run` composes them.
use vdev_lab.Base.{◌≡◌, String, List, Option, All}
use vdev_lab.Base.Int.{pos}
use vdev_lab.Base.Value.{Value}
use vdev_lab.Base.Result.{Result, ok}
use vdev_lab.Base.Interpreter.{Interpreter}
use vdev_lab.Scenario.{ScenarioDefinition}
use vdev_lab.Scenario.Document.{load_scenario}
use vdev_lab.Scenario.Document.Valid.{load_scenario-IsValidScenario}
use vdev_lab.Analysis.{ApplicationLogEvent, RecoveryMetrics}
use vdev_lab.Runner.{ScenarioRunResult}
use vdev_lab.Runner.Run.{Environment, run}
use vdev_lab.Runner.Run.Success.{run-Completed}
use vdev_lab.Report.Build.{analyse_log, build_scenario_report}
use vdev_lab.Report.Build.Total.{Gives, Converts, HasClock, build_scenario_report-Gives}

module _ {ℓ} {W : Type ℓ} (python : Interpreter) (env : Environment W)
    (safe_load json_loads : String → Result Value) (read_text : String → Result String) where
  -- A report is built of every run that returned of a scenario that was loaded, where the application's
  -- log was analysed, the times of the dispatches are finite floats, and the times of the dispatches
  -- and of the log, as integers, are small enough for a float.
  pub run-Gives :
      (path : String) {scenario : ScenarioDefinition} (cwd : Option String) (w : W)
      {result : ScenarioRunResult} {end : W} {events : List ApplicationLogEvent}
      {metrics : RecoveryMetrics}
      → load_scenario safe_load read_text path ≡ ok scenario
      → run python env scenario cwd w ≡ (ok result, end)
      → All (HasClock python) result.dispatches
      → analyse_log json_loads result.application.stdout ≡ ok (events, metrics)
      → All (λ e. Converts python (pos e.timestamp_ms)) events
      → Gives (build_scenario_report python json_loads scenario result)
  run-Gives path {scenario} cwd w {result} {end} {events} {metrics} loaded ran clocked analysed
        small =
      let valid = load_scenario-IsValidScenario safe_load read_text path loaded in
      let (as', good, encoded) = valid.assertions in
      build_scenario_report-Gives python json_loads scenario result scenario.timeout_ms as' events
        metrics good encoded (run-Completed python env scenario cwd w ran).recorded clocked analysed
        small
