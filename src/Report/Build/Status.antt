-- ===== src/Report/Build/Status.antt =====
-- The status of the report that report.py makes of a run.
use vdev_lab.Base.{
  ℕ, String, ◌≡◌, ◌≢◌, refl, ◌↔◌, ◌∙◌, sym, ap, Bool, true, false, List, map, All, arith,
}
use vdev_lab.Base.Int.{pos}
use vdev_lab.Base.Value.{Value, Mapping}
use vdev_lab.Base.Result.{Result, ok, err, application_log_error, ok-injective, >>=-eq-ok}
use vdev_lab.Base.Interpreter.{Interpreter}
use vdev_lab.Scenario.{ScenarioDefinition}
use vdev_lab.Scenario.Assertions.Shape.{Assertion, encode_assertion, IsValidAssertion}
use vdev_lab.Analysis.{ApplicationLogEvent, RecoveryMetrics}
use vdev_lab.Runner.{ScenarioRunResult}
use vdev_lab.Runner.Run.{requires_kernel_log}
use vdev_lab.Report.Records.{pass, error, ScenarioReport}
use vdev_lab.Report.Build.{
  status_of, assertions_passed, assertion_documents, analyse_log, analysed_report, log_error_report,
  report_of_analysis, build_scenario_report,
}
use vdev_lab.Report.Build.Holds.{run_holds}
use vdev_lab.Report.Build.Asserted.{Holds, run_holds_iff}
use vdev_lab.Report.Build.Verdict.{assertion_documents-run_holds}

-- What a report with status `PASS` says of a run with the events and the recovery windows of its log.
pub record HasPassed (scenario : ScenarioDefinition) (result : ScenarioRunResult)
    (events : List ApplicationLogEvent) (metrics : RecoveryMetrics) (as' : List Assertion)
    : Type 0 where
  pub all_hold : All (Holds result events metrics) as'
  pub exited : result.application.exit_code ≡ pos 0
  pub in_time : result.application.timed_out ≡ false
  pub kernel_log_read :
      requires_kernel_log scenario.assertions ≡ true → result.kernel_log_available ≡ true

pub pass_ne_error : pass ≢ error
pass_ne_error h = cc h

pub status_of-pass :
    (required : Bool) (result : ScenarioRunResult) (holds : Bool)
    → (status_of required result holds).0 ≡ pass
    → (holds ≡ true)
      × (result.application.timed_out ≡ false)
      × (required ≡ true → result.kernel_log_available ≡ true)
unfolding status_of
status_of-pass required result holds h = (ground arith, ground arith, λ r. ground arith)

module _ (scenario : ScenarioDefinition) (result : ScenarioRunResult)
    (events : List ApplicationLogEvent) (metrics : RecoveryMetrics) (as' : List Assertion) where
  HasPassed-pass :
      HasPassed scenario result events metrics as'
      → (status_of
          (requires_kernel_log scenario.assertions)
          result
          (run_holds result events metrics as')).0
        ≡ pass
  unfolding status_of
  HasPassed-pass h =
      let a : run_holds result events metrics as' ≡ true =
        (run_holds_iff result events metrics as').1 (h.all_hold, h.exited) in
      let t = h.in_time in let k = h.kernel_log_read in rw a (ground arith)

  pass-HasPassed :
      (status_of
          (requires_kernel_log scenario.assertions)
          result
          (run_holds result events metrics as')).0
        ≡ pass
      → HasPassed scenario result events metrics as'
  pass-HasPassed h =
      let (all_true, in_time, read) = status_of-pass _ _ _ h in
      let (all_hold, exited) = (run_holds_iff result events metrics as').0 all_true in
      record { all_hold = all_hold; exited = exited; in_time = in_time; kernel_log_read = read }

module _ (python : Interpreter) (json_loads : String → Result Value) (scenario : ScenarioDefinition)
    (result : ScenarioRunResult) where
  analysed_report-status :
      (dispatches : List Mapping) (events : List ApplicationLogEvent) (metrics : RecoveryMetrics)
      (docs : List Mapping) {report : ScenarioReport}
      → assertion_documents scenario result events metrics ≡ ok docs
      → analysed_report python json_loads scenario result dispatches events metrics ≡ ok report
      → report.status
        ≡ (status_of (requires_kernel_log scenario.assertions) result (assertions_passed docs)).0
  unfolding analysed_report
  analysed_report-status dispatches events metrics docs e h =
      let (docs', e', h1) = >>=-eq-ok _ _ h in
      let (stamp, _, h2) = >>=-eq-ok _ _ h1 in
      let (timeline, _, h3) = >>=-eq-ok _ _ h2 in
      sym (ap (λ r. r.status) (ok-injective h3))
      ∙ ap
          (λ d.
            (status_of (requires_kernel_log scenario.assertions) result (assertions_passed d)).0)
          (ok-injective (sym e' ∙ e))

  log_error_report-status :
      (dispatches : List Mapping) (line : ℕ) (message : String) {report : ScenarioReport}
      → log_error_report python json_loads scenario result dispatches
          (application_log_error line message)
        ≡ ok report
      → report.status ≡ error
  unfolding log_error_report
  log_error_report-status dispatches line message h =
      let (timeline, _, h1) = >>=-eq-ok _ _ h in sym (ap (λ r. r.status) (ok-injective h1))

  -- The report of a run with a readable log, whose scenario's assertions are valid, has status `PASS`
  -- if and only if the application exited with 0 and was not timed out, the kernel log was read where
  -- the scenario asks about it, and every assertion holds: the log has exactly the given number of
  -- events with the given name, counting those at most `within` after the first event of the log where
  -- that is given, and with a bound on the latency there is a recovery and none takes longer; the output
  -- has the one text and has not the other; there is a `DEVICE_DISCONNECTED` event exactly where one is
  -- expected; and the kernel log, which was read, has exactly the given number of warnings.
  pub build_scenario_report-HasPassed :
      (timeout_ms : ℕ) (as' : List Assertion) (events : List ApplicationLogEvent)
      (metrics : RecoveryMetrics) {report : ScenarioReport}
      → All (IsValidAssertion timeout_ms) as'
      → scenario.assertions ≡ map encode_assertion as'
      → analyse_log json_loads result.application.stdout ≡ ok (events, metrics)
      → build_scenario_report python json_loads scenario result ≡ ok report
      → (report.status ≡ pass) ↔ HasPassed scenario result events metrics as'
  unfolding build_scenario_report report_of_analysis
  build_scenario_report-HasPassed timeout_ms as' events metrics v encoded log h =
      let (dispatches, _, h1) = >>=-eq-ok _ _ h in
      let h2 = rw log at h1 in
      let (docs, e, p) =
        assertion_documents-run_holds scenario result events metrics as' timeout_ms v encoded in
      let s =
        analysed_report-status dispatches events metrics docs e h2
        ∙ ap (λ b. (status_of (requires_kernel_log scenario.assertions) result b).0) p in
      (
        λ q. pass-HasPassed scenario result events metrics as' (sym s ∙ q),
        λ q. s ∙ HasPassed-pass scenario result events metrics as' q,
      )

  -- The report is the one of a log that was analysed.
  abbrev pub Analysed : ScenarioReport → Type 0
  Analysed report =
      (dispatches : List Mapping) × (events : List ApplicationLogEvent)
      × (metrics : RecoveryMetrics) × (analyse_log json_loads result.application.stdout
          ≡ ok (events, metrics))
      × (analysed_report python json_loads scenario result dispatches events metrics ≡ ok report)

  report_of_analysis-Analysed :
      (dispatches : List Mapping) {report : ScenarioReport}
      (r : Result (List ApplicationLogEvent × RecoveryMetrics))
      → analyse_log json_loads result.application.stdout ≡ r
      → report_of_analysis python json_loads scenario result dispatches r ≡ ok report
      → report.status ≢ error
      → Analysed report
  unfolding report_of_analysis
  report_of_analysis-Analysed dispatches (ok (events, metrics)) e k _ =
      (dispatches, events, metrics, e, k)
  report_of_analysis-Analysed dispatches (err (application_log_error line message)) e k n =
      absurd (n (log_error_report-status dispatches line message k))
  report_of_analysis-Analysed dispatches (err _) e k n = cc k

  -- A report with any status but `ERROR` is one of a log that was analysed.
  pub build_scenario_report-Analysed :
      {report : ScenarioReport}
      → build_scenario_report python json_loads scenario result ≡ ok report
      → report.status ≢ error
      → Analysed report
  unfolding build_scenario_report
  build_scenario_report-Analysed h n =
      let (dispatches, _, h1) = >>=-eq-ok _ _ h in
      report_of_analysis-Analysed dispatches (analyse_log json_loads result.application.stdout) refl
        h1 n
