-- ===== src/Cli/Program.antt =====
-- The commands of cli.py over the other files' functions: `load_scenario`, `ScenarioRunner().run`,
-- `build_scenario_report`, `to_json` and `report_to_junit_xml`.
use vdev_lab.Base.{◌≡◌, sym, ap, ◌∙◌, String, Bool, List, map, Option}
use vdev_lab.Base.Int.{ℤ, pos}
use vdev_lab.Base.Value.{Value}
use vdev_lab.Base.Result.{Result, ok}
use vdev_lab.Base.Action.{Action, ◌>>=◌}
use vdev_lab.Base.Interpreter.{Interpreter}
use vdev_lab.Scenario.{ScenarioDefinition}
use vdev_lab.Scenario.Assertions.Shape.{Assertion, encode_assertion}
use vdev_lab.Scenario.Document.{load_scenario}
use vdev_lab.Scenario.Document.Valid.{IsValidScenario, load_scenario-IsValidScenario}
use vdev_lab.Analysis.{ApplicationLogEvent, RecoveryMetrics}
use vdev_lab.Runner.{ScenarioRunResult}
use vdev_lab.Runner.Run.{Environment, new_runner, run}
use vdev_lab.Report.{to_json}
use vdev_lab.Report.Build.{analyse_log, build_scenario_report}
use vdev_lab.Report.Build.Status.{
  HasPassed, build_scenario_report-HasPassed, build_scenario_report-Analysed, pass_ne_error,
}
use vdev_lab.JUnit.{Element, report_to_junit_xml}
use vdev_lab.Cli.{Services, run_command}
use vdev_lab.Cli.Success.{run_command-Passed}

-- What the program takes from outside the repository, at the command line.
pub record Outside {ℓ} (W : Type ℓ) : Type ℓ where
  pub print : String → Action W (Unit {0})
  pub print_error : String → Action W (Unit {0})
  pub write_text : String → String → Action W (Unit {0})
  pub read_text : String → Action W String
  pub stem : String → String
  pub has_magic : String → Bool
  pub sorted_glob : String → Action W (List String)
  pub show : ℤ → String
  -- the YAML reader, the JSON reader, and the two printers of JSON and the one of XML
  pub safe_load : String → Result Value
  pub json_loads : String → Result Value
  pub dumps : Value → String
  pub json_text : Value → String
  pub to_text : Element → String
  pub python : Interpreter
  pub environment : Environment W

module _ {ℓ} {W : Type ℓ} (outside : Outside W) where
  open outside use {python, json_loads, safe_load, read_text, environment}

  abbrev load : String → Action W ScenarioDefinition
  load path w = let (r, w') = read_text path w in (load_scenario safe_load (λ _. r) path, w')

  unfoldable pub program : Services W
  program = record {
    print = outside.print;
    print_error = outside.print_error;
    write_text = outside.write_text;
    stem = outside.stem;
    has_magic = outside.has_magic;
    sorted_glob = outside.sorted_glob;
    load_scenario = load;
    run_scenario = λ scenario cwd. new_runner environment >>= λ env. run python env scenario cwd;
    build_report = build_scenario_report python json_loads;
    to_json = to_json outside.dumps;
    to_junit_xml = report_to_junit_xml python outside.json_text outside.to_text;
    show = outside.show;
  }

  -- A valid scenario that was loaded and run, and of whose run all the scenario's assertions hold.
  pub record PassedScenario (path : String) (cwd : Option String) (w : W) : Type ℓ where
    pub scenario : ScenarioDefinition
    pub result : ScenarioRunResult
    pub asserted : List Assertion
    pub events : List ApplicationLogEvent
    pub metrics : RecoveryMetrics
    pub after_load : W
    pub after_run : W
    pub loaded : load path w ≡ (ok scenario, after_load)
    pub ran : program.run_scenario scenario cwd after_load ≡ (ok result, after_run)
    pub valid : IsValidScenario scenario
    pub encoded : scenario.assertions ≡ map encode_assertion asserted
    pub analysed : analyse_log json_loads result.application.stdout ≡ ok (events, metrics)
    pub passed : HasPassed scenario result events metrics asserted

  -- `run` returns 0 only where the file is a valid scenario that was run without an
  -- exception, the application's log could be analysed, every assertion of the scenario holds of the
  -- run, the application exited with 0 and was not timed out, and the kernel log was read where the
  -- scenario asks about it.
  pub run_command-PassedScenario :
      (path : String) (cwd json_path junit_path : Option String) (w : W) {end : W}
      → run_command program path cwd json_path junit_path w ≡ (ok (pos 0), end)
      → PassedScenario path cwd w
  unfolding program
  run_command-PassedScenario path cwd json_path junit_path w h =
      let run = run_command-Passed program cwd json_path junit_path path w h in
      let valid = load_scenario-IsValidScenario safe_load _ path (ap (λ t. t.0) run.loaded) in
      let (asserted, good, encoded) = valid.assertions in
      let (_, events, metrics, analysed, _) =
        build_scenario_report-Analysed python json_loads run.scenario run.result run.built
          (λ e. pass_ne_error (sym run.status ∙ e)) in
      record {
        scenario = run.scenario;
        result = run.result;
        asserted = asserted;
        events = events;
        metrics = metrics;
        after_load = run.after_load;
        after_run = run.after_run;
        loaded = run.loaded;
        ran = run.ran;
        valid = valid;
        encoded = encoded;
        analysed = analysed;
        passed =
            (build_scenario_report-HasPassed python json_loads run.scenario run.result
                run.scenario.timeout_ms asserted events metrics good encoded analysed run.built).0
              run.status;
      }
