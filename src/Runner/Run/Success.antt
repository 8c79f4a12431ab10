-- ===== src/Runner/Run/Success.antt =====
-- What `ScenarioRunner.run` did where it returned.
use vdev_lab.Base.{
  String, ◌≡◌, inl, inr, refl, sym, ap, ◌∙◌, subst, Bool, true, false, [], Option, none, some,
}
use vdev_lab.Base.Value.{Float}
use vdev_lab.Base.Result.{Result, ok, err, Exception, ok-injective}
use vdev_lab.Base.Action.{>>=-eq-ok, try_except, try_except-eq-ok, err_ne_ok}
use vdev_lab.Base.Interpreter.{Interpreter}
use vdev_lab.Scenario.{ScenarioDefinition}
use vdev_lab.Runner.Records.{KernelLogSnapshot, ScenarioRunResult}
use vdev_lab.Runner.Scheduler.Recorded.{AreRecords, run_schedule-AreRecords}
use vdev_lab.Runner.Run.{
  Environment, requires_kernel_log, cleanup_backend, cleanup_result, run_started, abort_started,
  abort_unstarted, add_kernel_log, first_snapshot, run_opened, run,
}

module _ {ℓ} {W : Type ℓ} (python : Interpreter) (env : Environment W) where
  open env use {backend, application, clock}

  -- From one world to the other the device was reset and closed, neither with an exception.
  pub record Released (before_reset end : W) : Type ℓ where
    pub after_reset : W
    pub reset_returned : backend.reset before_reset ≡ (ok tt, after_reset)
    pub close_returned : backend.close after_reset ≡ (ok tt, end)

  abbrev Ran : ScenarioDefinition → ScenarioRunResult → Type 0
  Ran scenario result =
      (result.scenario_name ≡ scenario.name)
      × AreRecords python 0 scenario.events result.dispatches
      × (result.kernel_log_available ≡ false)
      × (result.kernel_warnings ≡ [])

  run_started-Ran :
      (scenario : ScenarioDefinition) (started : Float) (w : W) {result : ScenarioRunResult}
      {end : W}
      → run_started python env scenario started w ≡ (ok result, end)
      → Ran scenario result
  unfolding run_started
  run_started-Ran scenario started w h =
      let (dispatches, w1, e, h1) = >>=-eq-ok _ _ w h in
      let (now, w2, _, h2) = >>=-eq-ok _ _ w1 h1 in
      let (elapsed, w3, _, h3) = >>=-eq-ok _ _ w2 h2 in
      let (result, w4, _, h4) = >>=-eq-ok _ _ w3 h3 in
      subst (Ran scenario) (ok-injective (ap (λ t. t.0) h4)) (
        refl,
        run_schedule-AreRecords python backend clock env.sleeper scenario.events w e,
        refl,
        refl,
      )

  cleanup_result-ok :
      (r c : Result (Unit {0}))
      → cleanup_result backend false r c ≡ ok tt
      → (r ≡ ok tt) × (c ≡ ok tt)
  cleanup_result-ok (ok _) (ok _) h = (refl, refl)
  cleanup_result-ok (ok _) (err e) h = cc h
  cleanup_result-ok (err e) c h = cc h

  cleanup_backend-Released :
      (w : W) {end : W} → cleanup_backend backend false w ≡ (ok tt, end) → Released w end
  unfolding cleanup_backend
  cleanup_backend-Released w h =
      let (r, c) = cleanup_result-ok _ _ (ap (λ t. t.0) h) in
      record {
        after_reset = (backend.reset w).1;
        reset_returned = λ i. (r i, (backend.reset w).1);
        close_returned = λ i. (c i, (h i).1);
      }

  abort_started-ne :
      (e : Exception) (w : W) {result : ScenarioRunResult} {end : W}
      → abort_started python env e w ≡ (ok result, end)
      → ⊥
  unfolding abort_started
  abort_started-ne e w h =
      let (status, w1, _, h1) = >>=-eq-ok _ _ w h in
      let (_, w2, _, h2) = >>=-eq-ok _ _ w1 h1 in
      let (_, w3, _, h3) = >>=-eq-ok _ _ w2 h2 in err_ne_ok (ap (λ t. t.0) h3)

  abort_unstarted-ne :
      (e : Exception) (w : W) {end : W} → abort_unstarted python env e w ≡ (ok tt, end) → ⊥
  unfolding abort_unstarted
  abort_unstarted-ne e w h = let (_, w1, _, h1) = >>=-eq-ok _ _ w h in err_ne_ok (ap (λ t. t.0) h1)

  -- A run that returned, with the result: the events ran and the application ended behind its start,
  -- the device was reset and closed behind that, and the kernel log was looked at last.
  pub record Completed (scenario : ScenarioDefinition) (cwd : Option String)
      (result : ScenarioRunResult) (end : W) : Type ℓ where
    pub started : Float
    pub ran : ScenarioRunResult
    pub snapshot : Option KernelLogSnapshot
    pub before_start : W
    pub after_start : W
    pub after_run : W
    pub after_release : W
    pub start_returned : application.start scenario.command cwd before_start ≡ (ok tt, after_start)
    pub events_ran : run_started python env scenario started after_start ≡ (ok ran, after_run)
    pub released : Released after_run after_release
    pub observed : add_kernel_log python env snapshot ran after_release ≡ (ok result, end)
    pub named : result.scenario_name ≡ scenario.name
    pub recorded : AreRecords python 0 scenario.events result.dispatches
    pub unread :
        requires_kernel_log scenario.assertions ≡ false
        → (result.kernel_log_available ≡ false) × (result.kernel_warnings ≡ [])

  -- What `add_kernel_log` keeps.
  add_kernel_log-keeps :
      (snapshot : Option KernelLogSnapshot) (before result : ScenarioRunResult) (w : W) {end : W}
      → add_kernel_log python env snapshot before w ≡ (ok result, end)
      → (result.scenario_name ≡ before.scenario_name)
        × (result.dispatches ≡ before.dispatches)
        × (snapshot ≡ none → result ≡ before)
  add_kernel_log-keeps none before result w h =
      let e = sym (ok-injective (ap (λ t. t.0) h)) in
      (ap (λ r. r.scenario_name) e, ap (λ r. r.dispatches) e, λ _. e)
  add_kernel_log-keeps (some s) before result w h =
      let (observation, w1, _, h1) = >>=-eq-ok _ _ w h in
      let e = sym (ok-injective (ap (λ t. t.0) h1)) in
      (ap (λ r. r.scenario_name) e, ap (λ r. r.dispatches) e, λ n. cc n)

  run_opened-Completed :
      (scenario : ScenarioDefinition) (cwd : Option String) (snapshot : Option KernelLogSnapshot)
      (w : W) {result : ScenarioRunResult} {end : W}
      → (requires_kernel_log scenario.assertions ≡ false → snapshot ≡ none)
      → run_opened python env scenario cwd snapshot w ≡ (ok result, end)
      → Completed scenario cwd result end
  unfolding run_opened
  run_opened-Completed scenario cwd snapshot w {result} {end} wanted h =
      let (started, w1, _, h1) = >>=-eq-ok _ _ w h in
      let (_, w2, s, h2) = >>=-eq-ok _ _ w1 h1 in
      let (ran, w3, e, h3) = >>=-eq-ok _ _ w2 h2 in
      let (_, w4, c, h4) = >>=-eq-ok _ _ w3 h3 in
      let running = returned started w2 ran e in
      let (named, recorded, available, warnings) = run_started-Ran scenario started w2 running in
      let (n, d, same) = add_kernel_log-keeps snapshot ran result w4 h4 in
      record {
        named = n ∙ named;
        recorded = subst (AreRecords python 0 scenario.events) (sym d) recorded;
        started = started;
        ran = ran;
        snapshot = snapshot;
        before_start = w1;
        after_start = w2;
        after_run = w3;
        after_release = w4;
        start_returned = start_ok w1 s;
        events_ran = running;
        released = cleanup_backend-Released w3 c;
        observed = h4;
        unread = λ r.
            let s = same (wanted r) in
            (
              ap (λ x. x.kernel_log_available) s ∙ available,
              ap (λ x. x.kernel_warnings) s ∙ warnings,
            );
      }
    where
      returned :
          (started : Float) (w2 : W) (ran : ScenarioRunResult) {w3 : W}
          → try_except (run_started python env scenario started) (abort_started python env) w2
            ≡ (ok ran, w3)
          → run_started python env scenario started w2 ≡ (ok ran, w3)
      returned started w2 ran e = elim (try_except-eq-ok _ _ w2 e) [
        | inl k ↦ k
        | inr (x, w', _, k) ↦ absurd (abort_started-ne x w' k)
      ]

      start_ok :
          (w1 : W) {w2 : W}
          → try_except (application.start scenario.command cwd) (abort_unstarted python env) w1
            ≡ (ok tt, w2)
          → application.start scenario.command cwd w1 ≡ (ok tt, w2)
      start_ok w1 e = elim (try_except-eq-ok _ _ w1 e) [
        | inl k ↦ k
        | inr (x, w', _, k) ↦ absurd (abort_unstarted-ne x w' k)
      ]

  first_snapshot-none :
      (required : Bool) (w : W) {snapshot : Option KernelLogSnapshot} {end : W}
      → first_snapshot python env required w ≡ (ok snapshot, end)
      → required ≡ false
      → snapshot ≡ none
  first_snapshot-none false w h _ = sym (ok-injective (ap (λ t. t.0) h))
  first_snapshot-none true w h r = cc r

  -- Where `run` returns, the application was started; behind that the events ran and the application's
  -- result was taken; in the world that this left the device was reset and closed, neither with an
  -- exception; and the kernel log, if it was read again at all, was read behind that. The result has
  -- the scenario's name and one record for each event, in order and with its index, action and planned
  -- time; and without an assertion on kernel warnings no kernel log is reported.
  pub run-Completed :
      (scenario : ScenarioDefinition) (cwd : Option String) (w : W) {result : ScenarioRunResult}
      {end : W}
      → run python env scenario cwd w ≡ (ok result, end)
      → Completed scenario cwd result end
  unfolding run
  run-Completed scenario cwd w h =
      let (snapshot, w1, e, h1) = >>=-eq-ok _ _ w h in
      let (_, w2, _, h2) = >>=-eq-ok _ _ w1 h1 in
      run_opened-Completed scenario cwd snapshot w2 (first_snapshot-none _ w e) h2
