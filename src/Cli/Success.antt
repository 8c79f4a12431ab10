-- ===== src/Cli/Success.antt =====
-- The exit code 0 of the command `run` of cli.py.
use vdev_lab.Base.{ℕ, ◌≡◌, ◌≢◌, refl, ap, ◌∙◌, String, Bool, true, false, Option, inl, inr}
use vdev_lab.Base.Int.{ℤ, pos}
use vdev_lab.Base.Result.{
  Result, ok, err, Exception, scenario_error, os_error, runner_error, event_dispatch_error,
  application_timeout_error, keyboard_interrupt, ok-injective,
}
use vdev_lab.Base.Action.{pure, try_except, >>=-eq-ok, try_except-eq-ok, ◌>>◌}
use vdev_lab.Scenario.{ScenarioDefinition}
use vdev_lab.Runner.{ScenarioRunResult}
use vdev_lab.Report.{pass, ScenarioReport}
use vdev_lab.Cli.{
  Services, write_reports, give_up, run_failed, on_os_error, conclude, conclude_if, report_run,
  run_loaded, run_command, run_finished, exit_code_of,
}
use vdev_lab.Cli.ExitCode.{exit_code_of-zero}

module _ {ℓ} {W : Type ℓ} (services : Services W) where
  -- The steps of a run whose scenario was loaded, run and reported on with status `PASS`, whose
  -- reports were written and whose application exited with 0.
  pub record Passed (path : String) (cwd json_path junit_path : Option String) (w : W)
      : Type ℓ where
    pub scenario : ScenarioDefinition
    pub result : ScenarioRunResult
    pub report : ScenarioReport
    pub after_load : W
    pub after_run : W
    pub after_reports : W
    pub loaded : services.load_scenario path w ≡ (ok scenario, after_load)
    pub ran : services.run_scenario scenario cwd after_load ≡ (ok result, after_run)
    pub built : services.build_report scenario result ≡ ok report
    pub reported :
        write_reports services json_path junit_path report after_run ≡ (ok tt, after_reports)
    pub status : report.status ≡ pass
    pub exit_code : result.application.exit_code ≡ pos 0

  module _ (cwd : Option String) (json_path junit_path : Option String) where
    returned : {A : Type 0} {a b : A} {v v' : W} → pure {W = W} a v ≡ (ok b, v') → a ≡ b
    returned h = ok-injective (ap (λ t. t.0) h)

    pub give_up-code :
        (name : String) (e : Exception) (code : ℕ) (w : W) {z : ℤ} {end : W}
        → give_up services json_path junit_path name e code w ≡ (ok z, end)
        → pos code ≡ z
    give_up-code name e code w h =
        let (_, w1, _, h1) = >>=-eq-ok _ _ w h in
        let (_, w2, _, h2) = >>=-eq-ok _ _ w1 h1 in returned h2

    run_failed-ne :
        (name : String) (e : Exception) (w : W) {end : W}
        → run_failed services json_path junit_path name e w ≢ (ok (pos 0), end)
    unfolding run_failed
    run_failed-ne name (scenario_error path message) w h = cc (give_up-code name _ 2 w h)
    run_failed-ne name keyboard_interrupt w h = cc (give_up-code name _ 130 w h)
    run_failed-ne name (os_error message) w h = cc (give_up-code name _ 1 w h)
    run_failed-ne name (runner_error message) w h = cc (give_up-code name _ 1 w h)
    run_failed-ne name (event_dispatch_error i action cause) w h = cc (give_up-code name _ 1 w h)
    run_failed-ne name (application_timeout_error command timeout_ms) w h =
        cc (give_up-code name _ 1 w h)
    run_failed-ne name _ w h = cc h

    conclude-zero :
        (result : ScenarioRunResult) (report : ScenarioReport) (w : W) {end : W}
        → conclude services result report w ≡ (ok (pos 0), end)
        → exit_code_of report.status result.application.exit_code ≡ pos 0
    unfolding conclude
    conclude-zero result report w h =
        let (_, w1, _, h1) = >>=-eq-ok _ _ w h in
        let (_, w2, _, h2) = >>=-eq-ok _ _ w1 h1 in
        let (_, w3, _, h3) = >>=-eq-ok _ _ w2 h2 in returned h3

    on_os_error-false :
        (e : Exception) (w : W) {end : W} → on_os_error services false e w ≢ (ok true, end)
    on_os_error-false (os_error message) w h =
        let (_, w1, _, h1) = >>=-eq-ok _ _ w h in cc (returned h1)
    on_os_error-false _ w h = cc h

    written-reports :
        (report : ScenarioReport) (w : W) {end : W}
        → try_except
            (write_reports services json_path junit_path report >> pure true)
            (on_os_error services false)
            w
          ≡ (ok true, end)
        → (w' : W) × (write_reports services json_path junit_path report w ≡ (ok tt, w'))
    written-reports report w h = elim (try_except-eq-ok _ _ w h) [
      | inl e ↦ let (_, w1, e1, _) = >>=-eq-ok _ _ w e in (w1, e1)
      | inr (x, w1, _, e) ↦ absurd (on_os_error-false x w1 e)
    ]

    -- What `report_run` did where it returned 0.
    abbrev Reported : ScenarioDefinition → ScenarioRunResult → W → Type ℓ
    Reported scenario result w =
        (report : ScenarioReport) × (w' : W) × (services.build_report scenario result ≡ ok report)
        × (write_reports services json_path junit_path report w ≡ (ok tt, w'))
        × (report.status ≡ pass)
        × (result.application.exit_code ≡ pos 0)

    report_run-Reported :
        (scenario : ScenarioDefinition) (result : ScenarioRunResult) (w : W) {end : W}
        → report_run services json_path junit_path scenario result w ≡ (ok (pos 0), end)
        → Reported scenario result w
    unfolding report_run
    report_run-Reported scenario result w h =
        let (report, w1, e1, h1) = >>=-eq-ok _ _ w h in
        let (written, w2, e2, h2) = >>=-eq-ok _ _ w1 h1 in
        concluded report w1 written w2 (ap (λ t. t.0) e1) (ap (λ t. t.1) e1) e2 h2
      where
        concluded :
            (report : ScenarioReport) (w1 : W) (written : Bool) (w2 : W) {end : W}
            → services.build_report scenario result ≡ ok report
            → w ≡ w1
            → try_except
                (write_reports services json_path junit_path report >> pure true)
                (on_os_error services false)
                w1
              ≡ (ok written, w2)
            → conclude_if services written result report w2 ≡ (ok (pos 0), end)
            → Reported scenario result w
        concluded report w1 false w2 b e t h = cc (returned h)
        concluded report w1 true w2 b e t h =
            let zero = exit_code_of-zero report.status result.application.exit_code in
            let (passed, code) = zero.0 (conclude-zero result report w2 h) in
            let (w3, e3) = written-reports report w1 t in
            (
              report,
              w3,
              b,
              ap (write_reports services json_path junit_path report) e ∙ e3,
              passed,
              code,
            )

    -- The command `run` returns 0 only where the scenario was loaded and run without an exception, the
    -- report of the run has the status `PASS`, both reports were written as far as they are wanted,
    -- and the application exited with 0.
    pub run_command-Passed :
        (path : String) (w : W) {end : W}
        → run_command services path cwd json_path junit_path w ≡ (ok (pos 0), end)
        → Passed path cwd json_path junit_path w
    unfolding run_command run_loaded
    run_command-Passed path w {end} h = loaded (services.load_scenario path w) refl h
      where
        finished :
            (scenario : ScenarioDefinition) (w1 : W) (r : Result ScenarioRunResult × W)
            → services.load_scenario path w ≡ (ok scenario, w1)
            → services.run_scenario scenario cwd w1 ≡ r
            → run_finished services json_path junit_path scenario r.0 r.1 ≡ (ok (pos 0), end)
            → Passed path cwd json_path junit_path w
        finished scenario w1 (err e, w2) l r h = absurd (run_failed-ne scenario.name e w2 h)
        finished scenario w1 (ok result, w2) l r h =
            let (report, w3, b, t, s, c) = report_run-Reported scenario result w2 h in
            record {
              scenario = scenario;
              result = result;
              report = report;
              after_load = w1;
              after_run = w2;
              after_reports = w3;
              loaded = l;
              ran = r;
              built = b;
              reported = t;
              status = s;
              exit_code = c;
            }

        loaded :
            (r : Result ScenarioDefinition × W)
            → services.load_scenario path w ≡ r
            → run_loaded services cwd json_path junit_path (services.stem path) r.0 r.1
              ≡ (ok (pos 0), end)
            → Passed path cwd json_path junit_path w
        loaded (err e, w1) l h = absurd (run_failed-ne (services.stem path) e w1 h)
        loaded (ok scenario, w1) l h =
            finished scenario w1 (services.run_scenario scenario cwd w1) l refl h
