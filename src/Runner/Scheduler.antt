-- ===== src/Runner/Scheduler.antt =====
-- `ScenarioScheduler` of runner.py: every event waits for its time and is dispatched to the backend.
pub mod Encoded
pub mod Recorded
pub mod Delivered
use vdev_lab.Base.{ℕ, suc, ◌<>◌, String, List, [], ◌∷◌, if◌then◌else◌}
use vdev_lab.Base.Value.{Float, Value, str, Mapping, get, get_or, is_str}
use vdev_lab.Base.Result.{Exception, runner_error, event_dispatch_error, keyboard_interrupt}
use vdev_lab.Base.Action.{Action, pure, raise, lift, try_except, ◌>>=◌, ◌>>◌}
use vdev_lab.Base.Interpreter.{Interpreter, text_of}
use vdev_lab.Runner.Records.{DispatchRecord, DeviceBackend}
use vdev_lab.Runner.Decode.{scheduled_ms, encode_utf8, fault_configuration}

-- The handler around a dispatch: `except Exception` lets a keyboard interrupt pass.
abbrev pub dispatch_error : ℕ → String → Exception → Exception
dispatch_error i action keyboard_interrupt = keyboard_interrupt
dispatch_error i action e = event_dispatch_error i action e

module _ {ℓ} {W : Type ℓ} (python : Interpreter) (backend : DeviceBackend W) where
  -- The branch of `write`.
  abbrev pub dispatch_write : Value → Action W (Unit {0})
  dispatch_write (str text) = backend.write (encode_utf8 text)
  dispatch_write _ = raise (runner_error "write event data must be a string")

  -- The branch of `fault`.
  unfoldable pub dispatch_fault : Mapping → Action W (Unit {0})
  dispatch_fault event = do
    configuration ← lift (fault_configuration python event)
    backend.set_fault configuration

  -- `_dispatch`
  unfoldable pub dispatch : Mapping → Action W (Unit {0})
  dispatch event =
      let action = get event "action" in
      if is_str "reset" action
      then backend.reset
      else if is_str "clear" action
      then backend.clear_fault
      else if is_str "write" action
      then dispatch_write (get event "data")
      else if is_str "fault" action
      then dispatch_fault event
      else raise (runner_error ("unsupported event action: " <> text_of python action))

module _ {ℓ} {W : Type ℓ} (python : Interpreter) (backend : DeviceBackend W)
    (clock : Action W Float) (sleeper : Float → Action W (Unit {0})) where
  -- `if remaining > 0: sleep(remaining)`
  abbrev pub wait : Float → Action W (Unit {0})
  wait remaining = if python.is_positive remaining then sleeper remaining else pure tt

  -- The body of the loop of `run`.
  unfoldable pub run_event : Float → ℕ → Mapping → Action W DispatchRecord
  run_event origin i event = do
    scheduled ← lift (scheduled_ms (get event "at_ms") i)
    offset ← lift (python.true_div scheduled 1000)
    now ← clock
    wait (python.sub (python.add origin offset) now)
    started ← clock
    let action = text_of python (get_or event "action" (str "<missing>"))
    try_except (dispatch python backend event) (λ e. raise (dispatch_error i action e))
    finished ← clock
    pure (record {
      index = i;
      action = action;
      scheduled_ms = scheduled;
      started_ms = python.mul_int (python.sub started origin) 1000;
      finished_ms = python.mul_int (python.sub finished origin) 1000;
      monotonic_started_ms = python.mul_int started 1000;
      monotonic_finished_ms = python.mul_int finished 1000;
    })

  -- The loop of `run`, from the event of index `i` on.
  unfoldable pub run_events : Float → ℕ → List Mapping → Action W (List DispatchRecord)
  run_events origin i [] = pure []
  run_events origin i (event ∷ events) = do
    record_of_event ← run_event origin i event
    records ← run_events origin (suc i) events
    pure (record_of_event ∷ records)

  unfoldable pub run_schedule : List Mapping → Action W (List DispatchRecord)
  run_schedule events = do origin ← clock; run_events origin 0 events
