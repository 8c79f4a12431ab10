-- ===== src/Runner/Run.antt =====
-- `ScenarioRunner` of runner.py. The factories and the collector are operations on the state of the
-- world: the backend and the application that they make are parts of it.
pub mod Cleanup
pub mod Success
pub mod Quiet
pub mod Delivered
use vdev_lab.Base.{String, Bool, true, false, List, [], Option, none, some, any, if◌then◌else◌}
use vdev_lab.Base.Int.{ℤ, pos, leb_ℤ, ◌-ℤ◌}
use vdev_lab.Base.Value.{Float, Mapping, get, is_str}
use vdev_lab.Base.Result.{Result, ok, err, Exception, runner_error}
use vdev_lab.Base.Action.{Action, pure, raise, lift, try_except, ◌>>=◌, ◌>>◌}
use vdev_lab.Base.Interpreter.{Interpreter}
use vdev_lab.Scenario.{ScenarioDefinition}
use vdev_lab.Runner.Records.{
  ApplicationResult, DeviceBackend, KernelLogCollector, KernelLogSnapshot, ScenarioRunResult,
}
use vdev_lab.Runner.Scheduler.{run_schedule}
use vdev_lab.Runner.Process.{checked_timeout}

-- `application_factory`, and the methods of the process that it starts.
pub record Application {ℓ} (W : Type ℓ) : Type ℓ where
  pub start : List String → Option String → Action W (Unit {0})
  pub poll : Action W (Option ℤ)
  pub terminate : ℤ → Action W ApplicationResult
  pub collect_with_timeout : ℤ → ℤ → Action W ApplicationResult

pub record Environment {ℓ} (W : Type ℓ) : Type ℓ where
  pub open_backend : String → Action W (Unit {0})
  pub backend : DeviceBackend W
  pub application : Application W
  pub kernel_log : KernelLogCollector W
  pub clock : Action W Float
  pub sleeper : Float → Action W (Unit {0})
  pub terminate_grace_ms : ℤ

-- `ScenarioRunner.__init__`: the grace time is checked, and the operations are kept.
unfoldable pub new_runner {ℓ} : {W : Type ℓ} → Environment W → Action W (Environment W)
new_runner env = do
  checked ← lift (checked_timeout (some env.terminate_grace_ms) "terminate_grace_ms")
  pure env

-- `any(assertion.get("type") == "kernel_warnings" for assertion in assertions)`
unfoldable pub requires_kernel_log : List Mapping → Bool
requires_kernel_log assertions =
    any (λ assertion. is_str "kernel_warnings" (get assertion "type")) assertions

module _ {ℓ} {W : Type ℓ} (backend : DeviceBackend W) where
  abbrev is_error {κ} : {A : Type κ} → Result A → Bool
  is_error (ok a) = false
  is_error (err e) = true

  -- The end of `_cleanup_backend`, from the outcomes of its two attempts.
  abbrev cleanup_result : Bool → Result (Unit {0}) → Result (Unit {0}) → Result (Unit {0})
  cleanup_result true r c = ok tt
  cleanup_result false (err e) c = err (runner_error "failed to reset and close device backend")
  cleanup_result false (ok _) (err e) =
      err (runner_error "failed to reset and close device backend")
  cleanup_result false (ok _) (ok _) = ok tt

  unfoldable pub cleanup_backend : Bool → Action W (Unit {0})
  cleanup_backend suppress_errors w =
      let (r, w') = backend.reset w in
      let (c, w'') = backend.close w' in (cleanup_result suppress_errors r c, w'')

module _ {ℓ} {W : Type ℓ} (python : Interpreter) (env : Environment W) where
  open env use {backend, application, kernel_log, clock, sleeper, terminate_grace_ms}

  -- The snapshot before the run, if one is wanted.
  abbrev first_snapshot : Bool → Action W (Option KernelLogSnapshot)
  first_snapshot false = pure none
  first_snapshot true = do s ← kernel_log.snapshot; pure (some s)

  -- The result of the application, given the milliseconds that remain.
  unfoldable pub finish_application : ℤ → Action W ApplicationResult
  finish_application remaining_ms =
      if leb_ℤ remaining_ms (pos 0)
      then (do
        result ← application.terminate terminate_grace_ms
        pure (record result { timed_out = true }))
      else application.collect_with_timeout remaining_ms terminate_grace_ms

  -- The body of the `try` behind the start of the application.
  unfoldable pub run_started : ScenarioDefinition → Float → Action W ScenarioRunResult
  run_started scenario started = do
    dispatches ← run_schedule python backend clock sleeper scenario.events
    now ← clock
    elapsed_ms ← lift (python.trunc (python.mul_int (python.sub now started) 1000))
    result ← finish_application (pos scenario.timeout_ms -ℤ elapsed_ms)
    pure (record {
      scenario_name = scenario.name;
      dispatches = dispatches;
      application = result;
      kernel_warnings = [];
      kernel_log_available = false;
      kernel_log_error = none;
    })

  -- `if application.poll() is None: application.terminate(...)`
  abbrev pub terminate_unless_ended : Option ℤ → Action W (Unit {0})
  terminate_unless_ended (some code) = pure tt
  terminate_unless_ended none = do result ← application.terminate terminate_grace_ms; pure tt

  -- The handler of the `try`, where the application was started.
  unfoldable pub abort_started : Exception → Action W ScenarioRunResult
  abort_started e = do
    status ← application.poll
    terminate_unless_ended status
    cleanup_backend backend true
    raise e

  -- The handler, where it was not.
  unfoldable pub abort_unstarted : Exception → Action W (Unit {0})
  abort_unstarted e = do cleanup_backend backend true; raise e

  -- What is added to the result after the clean-up.
  abbrev add_kernel_log : Option KernelLogSnapshot → ScenarioRunResult → Action W ScenarioRunResult
  add_kernel_log none result = pure result
  add_kernel_log (some before) result = do
    observation ← kernel_log.observe before
    pure (record result {
      kernel_warnings = observation.warnings;
      kernel_log_available = observation.available;
      kernel_log_error = observation.error;
    })

  -- From the opened backend on.
  unfoldable pub run_opened :
      ScenarioDefinition → Option String → Option KernelLogSnapshot → Action W ScenarioRunResult
  run_opened scenario cwd snapshot = do
    started ← clock
    try_except (application.start scenario.command cwd) abort_unstarted
    result ← try_except (run_started scenario started) abort_started
    cleanup_backend backend false
    add_kernel_log snapshot result

  -- `run`
  unfoldable pub run : ScenarioDefinition → Option String → Action W ScenarioRunResult
  run scenario cwd = do
    snapshot ← first_snapshot (requires_kernel_log scenario.assertions)
    env.open_backend scenario.device_path
    run_opened scenario cwd snapshot
