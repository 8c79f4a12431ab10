-- ===== src/Cli.antt =====
-- src/vdevlab/cli.py: the two commands, and `main` with its argument parser in Main. What the commands call outside
-- the modelled files is a record of operations: the console, the file system and the glob module.
pub mod ExitCode
pub mod Success
pub mod Failure
pub mod Validate
pub mod Program
pub mod Reported
pub mod Main
use vdev_lab.Base.{
  ℕ, ◌<>◌, String, ◌==◌, Bool, true, false, not, ◌&&◌, List, [], ◌∷◌, ◌++◌, Option, none, some,
  length, decimal, if◌then◌else◌,
}
use vdev_lab.Base.Int.{ℤ, pos, leb_ℤ, eqb_ℤ}
use vdev_lab.Base.Result.{
  Result, ok, err, Exception, scenario_error, os_error, runner_error, event_dispatch_error,
  application_timeout_error, keyboard_interrupt, runtime_error, error_message,
}
use vdev_lab.Base.Action.{Action, pure, raise, lift, try_except, ◌>>=◌, ◌>>◌}
use vdev_lab.Scenario.{ScenarioDefinition}
use vdev_lab.Runner.{ScenarioRunResult}
use vdev_lab.Report.{
  ReportStatus, pass, fail, error, timeout, status_value, ScenarioReport, build_error_report,
}

pub record Services {ℓ} (W : Type ℓ) : Type ℓ where
  -- standard output and standard error, with the text that is printed
  pub print : String → Action W (Unit {0})
  pub print_error : String → Action W (Unit {0})
  -- `Path.write_text`, `Path.stem`, `has_magic` and `sorted(glob(path))`
  pub write_text : String → String → Action W (Unit {0})
  pub stem : String → String
  pub has_magic : String → Bool
  pub sorted_glob : String → Action W (List String)
  -- the modelled parts, with what they take from outside filled in
  pub load_scenario : String → Action W ScenarioDefinition
  pub run_scenario : ScenarioDefinition → Option String → Action W ScenarioRunResult
  pub build_report : ScenarioDefinition → ScenarioRunResult → Result ScenarioReport
  pub to_json : ScenarioReport → String
  pub to_junit_xml : ScenarioReport → String
  pub show : ℤ → String

abbrev lower_bool : Bool → String
lower_bool true = "true"
lower_bool false = "false"

abbrev pub pass_code : ReportStatus → ℤ
pass_code pass = pos 0
pass_code _ = pos 1

abbrev pub result_code : ReportStatus → ℤ → ℤ
result_code status exit_code =
    if not (eqb_ℤ exit_code (pos 0))
    then (if leb_ℤ (pos 1) exit_code && leb_ℤ exit_code (pos 125) then exit_code else pos 1)
    else pass_code status

-- The exit code of a run that produced a report, by its status and the application's exit code.
unfoldable pub exit_code_of : ReportStatus → ℤ → ℤ
exit_code_of timeout exit_code = pos 124
exit_code_of pass exit_code = result_code pass exit_code
exit_code_of fail exit_code = result_code fail exit_code
exit_code_of error exit_code = result_code error exit_code

-- `matches or [path]`
abbrev or_path : List String → String → List String
or_path [] path = path ∷ []
or_path (match ∷ matches) path = match ∷ matches

module _ {ℓ} {W : Type ℓ} (services : Services W) where
  open services use {print, print_error, write_text}

  abbrev write_to : Option String → String → Action W (Unit {0})
  write_to none text = pure tt
  write_to (some path) text = write_text path text

  -- `_write_reports`
  unfoldable pub write_reports :
      Option String → Option String → ScenarioReport → Action W (Unit {0})
  write_reports json_path junit_path report = do
    write_to json_path (services.to_json report)
    write_to junit_path (services.to_junit_xml report)

  -- `except OSError`, with what is returned after the message.
  abbrev on_os_error {κ} : {A : Type κ} → A → Exception → Action W A
  on_os_error result (os_error message) = do
    print_error ("error: cannot write report: " <> message <> "\n")
    pure result
  on_os_error result e = raise e

  -- `_write_error_report`
  unfoldable pub write_error_report :
      Option String → Option String → String → Exception → Action W Bool
  write_error_report json_path junit_path scenario_name e =
      try_except
        (do write_reports json_path junit_path (build_error_report scenario_name e); pure true)
        (on_os_error false)

  -- The end of each handler of `run`: the error report, the message and the exit code.
  abbrev give_up : Option String → Option String → String → Exception → ℕ → Action W ℤ
  give_up json_path junit_path scenario_name e code = do
    written ← write_error_report json_path junit_path scenario_name e
    print_error ("error: " <> error_message e <> "\n")
    pure (pos code)

  -- The handlers of `run`, in their order; any other exception passes.
  unfoldable pub run_failed : Option String → Option String → String → Exception → Action W ℤ
  run_failed json_path junit_path scenario_name (scenario_error path message) =
      give_up json_path junit_path scenario_name (scenario_error path message) 2
  run_failed json_path junit_path scenario_name keyboard_interrupt =
      give_up json_path junit_path scenario_name (runtime_error "interrupted") 130
  run_failed json_path junit_path scenario_name (os_error message) =
      give_up json_path junit_path scenario_name (os_error message) 1
  run_failed json_path junit_path scenario_name (runner_error message) =
      give_up json_path junit_path scenario_name (runner_error message) 1
  run_failed json_path junit_path scenario_name (event_dispatch_error i action cause) =
      give_up json_path junit_path scenario_name (event_dispatch_error i action cause) 1
  run_failed json_path junit_path scenario_name (application_timeout_error command timeout_ms) =
      give_up json_path junit_path scenario_name (application_timeout_error command timeout_ms) 1
  run_failed json_path junit_path scenario_name e = raise e

  abbrev print_unless_empty : (String → Action W (Unit {0})) → String → Action W (Unit {0})
  print_unless_empty put text = if text == "" then pure tt else put text

  -- The line that begins with `result:`.
  unfoldable pub result_line : ScenarioRunResult → ScenarioReport → String
  result_line result report =
      "result: name="
      <> result.scenario_name
      <> " exit_code="
      <> services.show result.application.exit_code
      <> " timed_out="
      <> lower_bool result.application.timed_out
      <> " forced="
      <> lower_bool result.application.forced
      <> " events="
      <> decimal (length result.dispatches)
      <> " status="
      <> status_value report.status
      <> "\n"

  -- The prints behind the reports, and the exit code.
  unfoldable pub conclude : ScenarioRunResult → ScenarioReport → Action W ℤ
  conclude result report = do
    print_unless_empty print result.application.stdout
    print_unless_empty print_error result.application.stderr
    print (result_line result report)
    pure (exit_code_of report.status result.application.exit_code)

  abbrev conclude_if : Bool → ScenarioRunResult → ScenarioReport → Action W ℤ
  conclude_if true result report = conclude result report
  conclude_if false result report = pure (pos 1)

  -- From the end of the run on.
  unfoldable pub report_run :
      Option String → Option String → ScenarioDefinition → ScenarioRunResult → Action W ℤ
  report_run json_path junit_path scenario result = do
    report ← lift (services.build_report scenario result)
    written ←
        try_except (do write_reports json_path junit_path report; pure true) (on_os_error false)
    conclude_if written result report

  -- The `try` of `run`, around the load and the run of the scenario.
  abbrev run_finished :
      Option String → Option String → ScenarioDefinition → Result ScenarioRunResult → Action W ℤ
  run_finished json_path junit_path scenario (err e) =
      run_failed json_path junit_path scenario.name e
  run_finished json_path junit_path scenario (ok result) =
      report_run json_path junit_path scenario result

  unfoldable pub run_loaded :
      Option String
      → Option String
      → Option String
      → String
      → Result ScenarioDefinition
      → Action W ℤ
  run_loaded cwd json_path junit_path stem (err e) w = run_failed json_path junit_path stem e w
  run_loaded cwd json_path junit_path stem (ok scenario) w =
      let (r, w') = services.run_scenario scenario cwd w in
      run_finished json_path junit_path scenario r w'

  -- The command `run`.
  unfoldable pub run_command : String → Option String → Option String → Option String → Action W ℤ
  run_command path cwd json_path junit_path w =
      let (r, w') = services.load_scenario path w in
      run_loaded cwd json_path junit_path (services.stem path) r w'

  -- The files that a path of `validate` stands for.
  unfoldable pub expand : String → Action W (List String)
  expand path =
      if services.has_magic path
      then (do matches ← services.sorted_glob path; pure (or_path matches path))
      else pure (path ∷ [])

  unfoldable pub expand_all : List String → Action W (List String)
  expand_all [] = pure []
  expand_all (path ∷ paths) = do first ← expand path; rest ← expand_all paths; pure (first ++ rest)

  abbrev valid_line : String → ScenarioDefinition → String
  valid_line path scenario =
      "valid: "
      <> path
      <> " name="
      <> scenario.name
      <> " events="
      <> decimal (length scenario.events)
      <> " assertions="
      <> decimal (length scenario.assertions)
      <> "\n"

  -- A file that is not valid: the message, and the exit code.
  abbrev invalid : Exception → Action W ℤ
  invalid (scenario_error path message) = do
    print_error ("error: " <> error_message (scenario_error path message) <> "\n")
    pure (pos 2)
  invalid e = raise e

  abbrev validated : String → Action W ℤ → Result ScenarioDefinition × W → Result ℤ × W
  validated path rest (err e, w) = invalid e w
  validated path rest (ok scenario, w) = (print (valid_line path scenario) >> rest) w

  -- The loop over the files.
  unfoldable pub validate_files : List String → Action W ℤ
  validate_files [] w = (ok (pos 0), w)
  validate_files (path ∷ paths) w =
      validated path (validate_files paths) (services.load_scenario path w)

  -- The command `validate`.
  unfoldable pub validate_command : List String → Action W ℤ
  validate_command arguments = do paths ← expand_all arguments; validate_files paths
