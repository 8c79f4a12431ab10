-- ===== src/Runner/Run/Cleanup.antt =====
-- What `ScenarioRunner.run` leaves behind where it raises.
use vdev_lab.Base.{String, ◌≡◌, refl, true, ◌∙◌, Option, none, some}
use vdev_lab.Base.Int.{ℤ}
use vdev_lab.Base.Value.{Float}
use vdev_lab.Base.Result.{ok, err, Exception}
use vdev_lab.Base.Action.{>>=-ok, >>=-err, try_except, try_except-ok, try_except-err}
use vdev_lab.Base.Interpreter.{Interpreter}
use vdev_lab.Scenario.{ScenarioDefinition}
use vdev_lab.Runner.Records.{ApplicationResult, DeviceBackend, KernelLogSnapshot}
use vdev_lab.Runner.Run.{
  Environment, cleanup_backend, run_started, terminate_unless_ended, abort_started, run_opened,
}

-- The world behind a call of `reset` and then one of `close`, each of which may have raised.
abbrev pub cleaned {ℓ} : {W : Type ℓ} → DeviceBackend W → W → W
cleaned backend w = (backend.close (backend.reset w).1).1

module _ {ℓ} {W : Type ℓ} (python : Interpreter) (env : Environment W) where
  open env use {backend, application, clock}

  -- What stands between `poll` and the clean-up: nothing where the application had ended with a status,
  -- and a call of `terminate` that returned where it had not.
  pub data Stopped : Option ℤ → W → W → Type ℓ where
    had_ended : {code : ℤ} {w : W} → Stopped (some code) w w
    was_terminated :
        {w w' : W} {result : ApplicationResult}
        → application.terminate env.terminate_grace_ms w ≡ (ok result, w')
        → Stopped none w w'

  terminate_unless_ended-Stopped :
      {status : Option ℤ} {w w' : W}
      → Stopped status w w'
      → terminate_unless_ended python env status w ≡ (ok tt, w')
  terminate_unless_ended-Stopped had_ended = refl
  terminate_unless_ended-Stopped (was_terminated {w = w} h) =
      >>=-ok (application.terminate env.terminate_grace_ms) _ w h

  cleanup_backend-suppressed : (w : W) → cleanup_backend backend true w ≡ (ok tt, cleaned backend w)
  unfolding cleanup_backend
  cleanup_backend-suppressed w = refl

  abort_started-reraises :
      (e : Exception) (w : W) {status : Option ℤ} {w1 w2 : W}
      → application.poll w ≡ (ok status, w1)
      → terminate_unless_ended python env status w1 ≡ (ok tt, w2)
      → abort_started python env e w ≡ (err e, cleaned backend w2)
  unfolding abort_started
  abort_started-reraises e w {status = status} {w1 = w1} {w2 = w2} p t =
      >>=-ok application.poll _ w p
      ∙ (>>=-ok (terminate_unless_ended python env status) _ w1 t
          ∙ >>=-ok (cleanup_backend backend true) _ w2 (cleanup_backend-suppressed w2))

  abort_started-terminate :
      (e e' : Exception) (w : W) {w1 w2 : W}
      → application.poll w ≡ (ok none, w1)
      → application.terminate env.terminate_grace_ms w1 ≡ (err e', w2)
      → abort_started python env e w ≡ (err e', w2)
  unfolding abort_started
  abort_started-terminate e e' w {w1 = w1} p t =
      >>=-ok application.poll _ w p
      ∙ >>=-err (terminate_unless_ended python env none) _ w1
          (>>=-err (application.terminate env.terminate_grace_ms) _ w1 t)

  module _ (scenario : ScenarioDefinition) (cwd : Option String)
      (snapshot : Option KernelLogSnapshot) (w : W) {started : Float} {e : Exception} {w1 w2 w3 : W}
      (clock-ok : clock w ≡ (ok started, w1))
      (start-ok : application.start scenario.command cwd w1 ≡ (ok tt, w2))
      (run-err : run_started python env scenario started w2 ≡ (err e, w3)) where
    -- An exception behind the start of the application is raised again. Before that `poll` is called;
    -- then `terminate` with the runner's grace time if and only if the application had not ended; and
    -- then `reset` and `close` of the device, whatever these two raise. `poll` and `terminate` have to
    -- return.
    pub run_opened-cleaned :
        {status : Option ℤ} {w4 w5 : W}
        → application.poll w3 ≡ (ok status, w4)
        → Stopped status w4 w5
        → run_opened python env scenario cwd snapshot w ≡ (err e, cleaned backend w5)
    unfolding run_opened
    run_opened-cleaned p t =
        >>=-ok clock _ w clock-ok
        ∙ (>>=-ok (try_except (application.start scenario.command cwd) _) _ w1
              (try_except-ok (application.start scenario.command cwd) _ w1 start-ok)
            ∙ >>=-err (try_except (run_started python env scenario started) _) _ w2 (
                try_except-err (run_started python env scenario started) _ w2 run-err
                ∙ abort_started-reraises e w3 p (terminate_unless_ended-Stopped t)))

    -- Where `terminate` raises in the handler, its exception takes the place of the first one, and the
    -- device is neither reset nor closed.
    pub run_opened-terminate :
        {e' : Exception} {w4 w5 : W}
        → application.poll w3 ≡ (ok none, w4)
        → application.terminate env.terminate_grace_ms w4 ≡ (err e', w5)
        → run_opened python env scenario cwd snapshot w ≡ (err e', w5)
    unfolding run_opened
    run_opened-terminate {e' = e'} p t =
        >>=-ok clock _ w clock-ok
        ∙ (>>=-ok (try_except (application.start scenario.command cwd) _) _ w1
              (try_except-ok (application.start scenario.command cwd) _ w1 start-ok)
            ∙ >>=-err (try_except (run_started python env scenario started) _) _ w2 (
                try_except-err (run_started python env scenario started) _ w2 run-err
                ∙ abort_started-terminate e e' w3 p t))
