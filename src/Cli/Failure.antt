-- ===== src/Cli/Failure.antt =====
-- The handlers of the command `run` of cli.py.
use vdev_lab.Base.{
  ◌⊎◌, inl, inr, ℕ, ◌≡◌, refl, ap, ◌∙◌, String, Bool, true, false, Option, none, some,
}
use vdev_lab.Base.Int.{ℤ, pos}
use vdev_lab.Base.Result.{
  Result, ok, err, Exception, scenario_error, os_error, runner_error, event_dispatch_error,
  application_timeout_error, keyboard_interrupt, runtime_error, Raises, Raises-ok,
}
use vdev_lab.Base.Action.{
  Action, handle, try_except, Terminates, Terminates-bind, Raises-then, >>=-ok,
}
use vdev_lab.Scenario.Document.Findings.{IsOsError}
use vdev_lab.Scenario.{ScenarioDefinition}
use vdev_lab.Report.{ScenarioReport}
use vdev_lab.Cli.{
  Services, write_to, write_reports, on_os_error, write_error_report, give_up, run_failed,
  run_finished, run_loaded, run_command,
}

-- The exit code of the handler that catches the exception, if one does.
abbrev pub failure_code : Exception → Option ℕ
failure_code (scenario_error path message) = some 2
failure_code keyboard_interrupt = some 130
failure_code (os_error message) = some 1
failure_code (runner_error message) = some 1
failure_code (event_dispatch_error i action cause) = some 1
failure_code (application_timeout_error command timeout_ms) = some 1
failure_code _ = none

some-injective : {m n : ℕ} → some m ≡ some n → m ≡ n
some-injective h = cc

module _ {ℓ} {W : Type ℓ} (services : Services W)
    (prints_error : (text : String) (w : W) → Terminates (services.print_error text) w)
    (writes : (path text : String) (w : W) → Raises IsOsError (services.write_text path text w).0)
    (cwd : Option String) (json_path junit_path : Option String) where
  write_to-Raises :
      (path : Option String) (text : String) (w : W)
      → Raises IsOsError (write_to services path text w).0
  write_to-Raises none text w = Raises-ok tt
  write_to-Raises (some path) text w = writes path text w

  write_reports-Raises :
      (report : ScenarioReport) (w : W)
      → Raises IsOsError (write_reports services json_path junit_path report w).0
  unfolding write_reports
  write_reports-Raises report w =
      Raises-then _ _ w (write_to-Raises json_path _ w) λ _ w'. write_to-Raises junit_path _ w'

  handled-Terminates :
      (m : Action W Bool) (w : W)
      → Raises IsOsError (m w).0
      → Terminates (try_except m (on_os_error services false)) w
  unfolding try_except
  handled-Terminates m w h = handled (m w) h
    where
      handled :
          (r : Result Bool × W)
          → Raises IsOsError r.0
          → (a : Bool) × (w' : W) × (handle r.0 (on_os_error services false) r.1 ≡ (ok a, w'))
      handled (ok a, w') _ = (a, w', refl)
      handled (err e, w') h =
          let (message, found) = h.raised e refl in
          let (a, w'', p) = Terminates-bind _ _ w' (prints_error _ w') λ _ v. (false, v, refl) in
          (a, w'', ap (λ x. on_os_error services false x w') found ∙ p)

  write_error_report-Terminates :
      (name : String) (e : Exception) (w : W)
      → Terminates (write_error_report services json_path junit_path name e) w
  unfolding write_error_report
  write_error_report-Terminates name e w =
      handled-Terminates _ w (Raises-then _ _ w (write_reports-Raises _ w) λ _ w'. Raises-ok true)

  -- The handler ends with the exit code.
  abbrev Ends : Action W ℤ → W → ℤ → Type ℓ
  Ends m w code = (end : W) × (m w ≡ (ok code, end))

  give_up-Ends :
      (name : String) (e : Exception) (n : ℕ) (w : W) {code : ℕ}
      → some n ≡ some code
      → Ends (give_up services json_path junit_path name e n) w (pos code)
  give_up-Ends name e n w h =
      let (_, w1, h1) = write_error_report-Terminates name e w in
      let (_, w2, h2) = prints_error _ w1 in
      let same = ap (λ c. (ok (pos c), w2)) (some-injective h) in
      (w2, >>=-ok _ _ w h1 ∙ (>>=-ok _ _ w1 h2 ∙ same))

  run_failed-Ends :
      (name : String) (e : Exception) (code : ℕ) (w : W)
      → failure_code e ≡ some code
      → Ends (run_failed services json_path junit_path name e) w (pos code)
  unfolding run_failed
  run_failed-Ends name (scenario_error path message) code w h =
      give_up-Ends name (scenario_error path message) 2 w h
  run_failed-Ends name keyboard_interrupt code w h =
      give_up-Ends name (runtime_error "interrupted") 130 w h
  run_failed-Ends name (os_error message) code w h = give_up-Ends name (os_error message) 1 w h
  run_failed-Ends name (runner_error message) code w h =
      give_up-Ends name (runner_error message) 1 w h
  run_failed-Ends name (event_dispatch_error i action cause) code w h =
      give_up-Ends name (event_dispatch_error i action cause) 1 w h
  run_failed-Ends name (application_timeout_error command timeout_ms) code w h =
      give_up-Ends name (application_timeout_error command timeout_ms) 1 w h
  run_failed-Ends name _ code w h = cc h

  -- The load of the scenario or its run raised the exception.
  abbrev pub Fails : String → W → Exception → Type ℓ
  Fails path w e =
      ((w' : W) × (services.load_scenario path w ≡ (err e, w')))
      ⊎ ((scenario : ScenarioDefinition) × (w' : W) × (w'' : W) × (services.load_scenario path w
            ≡ (ok scenario, w'))
          × (services.run_scenario scenario cwd w' ≡ (err e, w'')))

  -- Where the load or the run of the scenario raises an exception that `run` handles, the command
  -- returns its exit code: 2 for a `ScenarioError`, 130 for a keyboard interrupt, and 1 for an
  -- `OSError` or a `RunnerError`. A report that cannot be written does not change it. The prints have
  -- to return, and the writes to raise nothing but `OSError`.
  pub run_command-failure_code :
      (path : String) (w : W) (e : Exception) (code : ℕ)
      → Fails path w e
      → failure_code e ≡ some code
      → (end : W) × (run_command services path cwd json_path junit_path w ≡ (ok (pos code), end))
  unfolding run_command run_loaded
  run_command-failure_code path w e code (inl (w', l)) h =
      let (end, k) = run_failed-Ends (services.stem path) e code w' h in
      (
        end,
        ap (λ r. run_loaded services cwd json_path junit_path (services.stem path) r.0 r.1) l ∙ k,
      )
  run_command-failure_code path w e code (inr (scenario, w', w'', l, r)) h =
      let (end, k) = run_failed-Ends scenario.name e code w'' h in
      (
        end,
        ap (λ x. run_loaded services cwd json_path junit_path (services.stem path) x.0 x.1) l
            ∙ (ap (λ x. run_finished services json_path junit_path scenario x.0 x.1) r ∙ k),
      )
