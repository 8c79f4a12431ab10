-- ===== src/Tests/Execute.antt =====
-- The theorems on runner.py at the sample scenario, in a world that counts its steps.
use vdev_lab.Base.{
  ℕ, suc, ◌+◌, ◌≡◌, refl, String, true, false, List, [], ◌∷◌, ◌++◌, none, some, length, arith,
}
use vdev_lab.Base.Int.{pos, ◌-ℤ◌}
use vdev_lab.Base.Value.{Float, double}
use vdev_lab.Base.Result.{Exception, ok, err, runner_error, os_error}
use vdev_lab.Base.Action.{Action, ◌>>=◌}
use vdev_lab.Scenario.{ScenarioDefinition}
use vdev_lab.Scenario.Events.Shape.{eio, encode_event}
use vdev_lab.Runner.{DeviceBackend, ApplicationResult, KernelLogCollector}
use vdev_lab.Runner.Fault.{fault_number, fault_payload}
use vdev_lab.Runner.Fault.Payload.{payload_fields, fault_payload-payload_fields}
use vdev_lab.Runner.KernelLog.{new_lines}
use vdev_lab.Runner.KernelLog.NewLines.{new_lines-overlap, new_lines-least}
use vdev_lab.Runner.Scheduler.{dispatch, run_schedule, run_events}
use vdev_lab.Runner.Scheduler.Encoded.{dispatch-encode_event}
use vdev_lab.Runner.Run.{Application, Environment, run_opened, run_started, finish_application}
use vdev_lab.Runner.Run.Cleanup.{cleaned, was_terminated, run_opened-cleaned, run_opened-terminate}
use vdev_lab.Tests.Samples.{toy_python, sample_scenario}

abbrev pub step : Action ℕ (Unit {0})
step w = (ok tt, suc w)

abbrev pub toy_backend : DeviceBackend ℕ
toy_backend = record {
  reset = step;
  clear_fault = step;
  write = λ bytes. step;
  set_fault = λ configuration. step;
  close = λ w. (ok tt, 100 + w);
}

abbrev pub toy_clock : Action ℕ Float
toy_clock w = (ok (double w), suc w)

fault_number-delay : fault_number "delay" ≡ some 2
unfolding fault_number
fault_number-delay = refl

fault_payload-payload_fields_example :
    (bytes : List ℕ) × (fault_payload (record {
      fault_type = "delay";
      repeat = pos 1;
      delay_ms = pos 70000;
      partial_read_bytes = pos 0;
    })
      ≡ ok bytes)
    × (length bytes ≡ 16)
    × (payload_fields bytes ≡ (2, 1, 70000, 0))
fault_payload-payload_fields_example =
    fault_payload-payload_fields "delay" 2 1 70000 0 fault_number-delay (omega arith) (omega arith)
      (omega arith) (omega arith)

dispatch-encode_event_example :
    dispatch toy_python toy_backend (encode_event (record { at_ms = 100; action = eio 2 })) 7
    ≡ (ok tt, 8)
dispatch-encode_event_example =
    dispatch-encode_event toy_python toy_backend (record { at_ms = 100; action = eio 2 }) 7

new_lines-overlap_example :
    (xs ys : List String) × ("a" ∷ "b" ∷ [] ≡ xs ++ ys)
    × ("b" ∷ "c" ∷ [] ≡ ys ++ new_lines ("a" ∷ "b" ∷ []) ("b" ∷ "c" ∷ []))
new_lines-overlap_example = new_lines-overlap ("a" ∷ "b" ∷ []) ("b" ∷ "c" ∷ [])

new_lines-least_example :
    (ws : List String) × ("c" ∷ [] ≡ ws ++ new_lines ("a" ∷ "b" ∷ []) ("b" ∷ "c" ∷ []))
new_lines-least_example = new_lines-least ("a" ∷ []) ("b" ∷ []) ("c" ∷ [])

abbrev toy_result : ApplicationResult
toy_result = record {
  command = sample_scenario.command;
  exit_code = pos 0;
  stdout = "";
  stderr = "";
  timed_out = false;
  forced = false;
}

abbrev toy_application : Action ℕ ApplicationResult → Application ℕ
toy_application stop = record {
  start = λ command cwd. step;
  poll = λ w. (ok none, suc w);
  terminate = λ grace_ms. stop;
  collect_with_timeout =
      λ timeout_ms grace_ms w. (err (runner_error "failed to collect application output"), suc w);
}

abbrev pub toy_kernel_log : KernelLogCollector ℕ
toy_kernel_log = record {
  snapshot = λ w. (ok (record { lines = []; error = none }), w);
  observe = λ before w. (ok (record { available = true; warnings = []; error = none }), w);
}

abbrev toy_environment : Action ℕ ApplicationResult → Environment ℕ
toy_environment stop = record {
  open_backend = λ path. step;
  backend = toy_backend;
  application = toy_application stop;
  kernel_log = toy_kernel_log;
  clock = toy_clock;
  sleeper = λ x. step;
  terminate_grace_ms = pos 1000;
}

abbrev quiet_scenario : ScenarioDefinition
quiet_scenario = record sample_scenario { events = [] }

abbrev stops : Action ℕ ApplicationResult
stops w = (ok toy_result, suc w)

abbrev fails : Action ℕ ApplicationResult
fails w = (err (os_error "killpg"), suc w)

abbrev collect_failure : Exception
collect_failure = runner_error "failed to collect application output"

run_started-err :
    (stop : Action ℕ ApplicationResult)
    → run_started toy_python (toy_environment stop) quiet_scenario (double 0) 2
      ≡ (err collect_failure, 5)
unfolding run_started run_schedule run_events finish_application ◌-ℤ◌ ◌>>=◌
run_started-err stop = refl

run_opened-cleaned_example :
    run_opened toy_python (toy_environment stops) quiet_scenario none none 0
    ≡ (err collect_failure, cleaned toy_backend 7)
run_opened-cleaned_example =
    run_opened-cleaned toy_python (toy_environment stops) quiet_scenario none none 0 refl refl
      (run_started-err stops) refl (was_terminated refl)

run_opened-terminate_example :
    run_opened toy_python (toy_environment fails) quiet_scenario none none 0
    ≡ (err (os_error "killpg"), 7)
run_opened-terminate_example =
    run_opened-terminate toy_python (toy_environment fails) quiet_scenario none none 0 refl refl
      (run_started-err fails) refl refl
