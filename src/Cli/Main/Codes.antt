-- ===== src/Cli/Main/Codes.antt =====
-- The exit codes of the two commands of cli.py.
use vdev_lab.Base.{
  ℕ, ◌≤◌, ◌≡◌, ◌⊎◌, inl, inr, refl, sym, ap, ◌∙◌, String, Bool, true, false, List, Option, arith,
}
use vdev_lab.Base.Int.{ℤ, pos}
use vdev_lab.Base.Result.{
  Result, ok, err, Exception, scenario_error, os_error, runner_error, event_dispatch_error,
  application_timeout_error, keyboard_interrupt, ok-injective,
}
use vdev_lab.Base.Action.{>>=-eq-ok}
use vdev_lab.Scenario.{ScenarioDefinition}
use vdev_lab.Runner.{ScenarioRunResult}
use vdev_lab.Report.{ScenarioReport}
use vdev_lab.Cli.{
  Services, run_command, validate_command, run_loaded, run_finished, run_failed, report_run,
  conclude_if, conclude,
}
use vdev_lab.Cli.ExitCode.{exit_code_of-bounds}
use vdev_lab.Cli.Success.{give_up-code}
use vdev_lab.Cli.Validate.{Verdict, validate_command-Verdict}

-- A number that the program exits with.
abbrev pub IsExitCode : ℤ → Type 0
IsExitCode code = (n : ℕ) × (code ≡ pos n) × ((n ≤ 125) ⊎ (n ≡ 130))

IsExitCode-le : (n : ℕ) → n ≤ 125 → {code : ℤ} → pos n ≡ code → IsExitCode code
IsExitCode-le n h e = (n, sym e, inl h)

module _ {ℓ} {W : Type ℓ} (services : Services W) (cwd json_path junit_path : Option String) where
  run_failed-IsExitCode :
      (name : String) (e : Exception) (w : W) {code : ℤ} {end : W}
      → run_failed services json_path junit_path name e w ≡ (ok code, end)
      → IsExitCode code
  unfolding run_failed
  run_failed-IsExitCode name (scenario_error path message) w h =
      IsExitCode-le 2 (omega arith) (give_up-code services cwd json_path junit_path name _ 2 w h)
  run_failed-IsExitCode name keyboard_interrupt w h =
      (130, sym (give_up-code services cwd json_path junit_path name _ 130 w h), inr refl)
  run_failed-IsExitCode name (os_error message) w h =
      IsExitCode-le 1 (omega arith) (give_up-code services cwd json_path junit_path name _ 1 w h)
  run_failed-IsExitCode name (runner_error message) w h =
      IsExitCode-le 1 (omega arith) (give_up-code services cwd json_path junit_path name _ 1 w h)
  run_failed-IsExitCode name (event_dispatch_error i action cause) w h =
      IsExitCode-le 1 (omega arith) (give_up-code services cwd json_path junit_path name _ 1 w h)
  run_failed-IsExitCode name (application_timeout_error command timeout_ms) w h =
      IsExitCode-le 1 (omega arith) (give_up-code services cwd json_path junit_path name _ 1 w h)
  run_failed-IsExitCode name _ w h = cc h

  conclude_if-IsExitCode :
      (written : Bool) (result : ScenarioRunResult) (report : ScenarioReport) (w : W) {code : ℤ}
      {end : W}
      → conclude_if services written result report w ≡ (ok code, end)
      → IsExitCode code
  unfolding conclude
  conclude_if-IsExitCode false result report w h =
      IsExitCode-le 1 (omega arith) (ok-injective (ap (λ t. t.0) h))
  conclude_if-IsExitCode true result report w h =
      let (_, w1, _, h1) = >>=-eq-ok _ _ w h in
      let (_, w2, _, h2) = >>=-eq-ok _ _ w1 h1 in
      let (_, w3, _, h3) = >>=-eq-ok _ _ w2 h2 in
      let (n, e, bound) = exit_code_of-bounds report.status result.application.exit_code in
      IsExitCode-le n bound (sym e ∙ ok-injective (ap (λ t. t.0) h3))

  run_finished-IsExitCode :
      (scenario : ScenarioDefinition) (r : Result ScenarioRunResult) (w : W) {code : ℤ} {end : W}
      → run_finished services json_path junit_path scenario r w ≡ (ok code, end)
      → IsExitCode code
  unfolding report_run
  run_finished-IsExitCode scenario (err e) w h = run_failed-IsExitCode scenario.name e w h
  run_finished-IsExitCode scenario (ok result) w h =
      let (report, w1, _, h1) = >>=-eq-ok _ _ w h in
      let (written, w2, _, h2) = >>=-eq-ok _ _ w1 h1 in
      conclude_if-IsExitCode written result report w2 h2

  run_loaded-IsExitCode :
      (stem : String) (r : Result ScenarioDefinition) (w : W) {code : ℤ} {end : W}
      → run_loaded services cwd json_path junit_path stem r w ≡ (ok code, end)
      → IsExitCode code
  unfolding run_loaded
  run_loaded-IsExitCode stem (err e) w h = run_failed-IsExitCode stem e w h
  run_loaded-IsExitCode stem (ok scenario) w h =
      run_finished-IsExitCode scenario (services.run_scenario scenario cwd w).0 _ h

  pub run_command-IsExitCode :
      (path : String) (w : W) {code : ℤ} {end : W}
      → run_command services path cwd json_path junit_path w ≡ (ok code, end)
      → IsExitCode code
  unfolding run_command
  run_command-IsExitCode path w h =
      run_loaded-IsExitCode (services.stem path) (services.load_scenario path w).0 _ h

module _ {ℓ} {W : Type ℓ} (services : Services W) where
  pub validate_command-IsExitCode :
      (arguments : List String) (w : W) {code : ℤ} {end : W}
      → validate_command services arguments w ≡ (ok code, end)
      → IsExitCode code
  validate_command-IsExitCode arguments w {code} h =
      let (_, _, _, _, verdict) = validate_command-Verdict services arguments w h in
      by_verdict verdict
    where
      by_verdict : {paths : List String} → Verdict services paths code → IsExitCode code
      by_verdict (inl (e, _)) = (0, e, inl (omega arith))
      by_verdict (inr (e, _)) = (2, e, inl (omega arith))
