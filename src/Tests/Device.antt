-- ===== src/Tests/Device.antt =====
-- A run of runner.py over `LinuxDeviceBackend`, with a device that takes at most two bytes at a time and keeps
-- what it hears.
use vdev_lab.Base.{
  ◌≡◌, ◌≢◌, ◌≤◌, refl, ◌∙◌, ℕ, String, ◌==◌, eq_iff, Bool, ◌&&◌, ◌||◌, eqb, leb, List, [], ◌∷◌,
  ◌++◌, map, All, length, take, none, some, true, false, if◌then◌else◌, arith,
}
use vdev_lab.Base.Int.{pos}
use vdev_lab.Base.Value.{double}
use vdev_lab.Base.Result.{Result, ok, err, runner_error, os_error}
use vdev_lab.Scenario.{ScenarioDefinition}
use vdev_lab.Scenario.Events.Shape.{
  Event, write, disconnect, clear, delay, encode_event, IsValidEvent,
}
use vdev_lab.Runner.{ApplicationResult, KernelLogCollector, ScenarioRunResult}
use vdev_lab.Runner.Decode.{encode_utf8}
use vdev_lab.Runner.KernelLog.{smaller}
use vdev_lab.Runner.Device as Device
use vdev_lab.Runner.Device.{SystemCalls, Opened, written, failed}
use vdev_lab.Runner.Device.Write.{Accepts, write-sent}
use vdev_lab.Runner.Device.Messages.{
  Message, byte, configure, other, clear_fault, connected, IsAcceptable, IsConnected,
  request_message, reset_device, Listens,
}
use vdev_lab.Runner.Scheduler.Delivered.{all_messages, connected-heard, Deliverable}
use vdev_lab.Runner.Run.{Application, Environment, run}
use vdev_lab.Runner.Run.Quiet.{linux_environment}
use vdev_lab.Runner.Run.Delivered.{run-Finished}
use vdev_lab.Tests.Samples.{toy_python, sample_scenario}

-- What docs/fault-model.md says of the requests, as a test.
abbrev acceptable : Message → Bool
acceptable (configure t r d p) =
    (eqb t 1 && (leb 1 r && leb r 1000000))
    || ((eqb t 2 && (leb 1 d && leb d 10000)) || (eqb t 3 || (eqb t 4 && (leb 1 p && leb p 4096))))
acceptable other = false
acceptable _ = true

acceptable-eq : (m : Message) → IsAcceptable m → acceptable m ≡ true
acceptable-eq (configure t r d p) h = ground arith
acceptable-eq reset_device h = refl
acceptable-eq clear_fault h = refl
acceptable-eq other h = absurd h
acceptable-eq (byte b) h = refl

abbrev two_of : List ℕ → ℕ
two_of bytes = smaller 2 (length bytes)

abbrev record_request : Message → List Message → Result (Unit {0}) × List Message
record_request m k =
    if acceptable m then (ok tt, k ++ (m ∷ [])) else (err (os_error "Invalid argument"), k)

abbrev recorder : SystemCalls (List Message)
recorder = record {
  has_ioctl = true;
  open_file = λ path k. (ok 3, k);
  close_file = λ n k. (ok tt, k);
  ioctl = λ n request payload k. record_request (request_message request payload) k;
  write_file = λ n bytes k.
      if connected true k
      then (written (two_of bytes), k ++ map byte (take (two_of bytes) bytes))
      else (failed "No such device", k);
}

record_request-acceptable :
    (m : Message) (k : List Message) → IsAcceptable m → record_request m k ≡ (ok tt, k ++ (m ∷ []))
record_request-acceptable m k h = rw (acceptable-eq m h) refl

connected-bytes : (c : Bool) (bytes : List ℕ) → connected c (map byte bytes) ≡ c
connected-bytes c [] = refl
connected-bytes c (b ∷ bytes) = connected-bytes c bytes

two_of_pos : (b : ℕ) (bytes : List ℕ) → 1 ≤ two_of (b ∷ bytes)
two_of_pos b bytes = ground arith

two_of_le : (bytes : List ℕ) → two_of bytes ≤ length bytes
two_of_le bytes = ground arith

recorder-Accepts : Accepts recorder 3 byte (λ k. k) (IsConnected recorder 3 (λ k. k))
recorder-Accepts = record {
  taken = λ b bytes k. two_of (b ∷ bytes);
  after = λ b bytes k. k ++ map byte (take (two_of (b ∷ bytes)) (b ∷ bytes));
  progress = λ b bytes k _. two_of_pos b bytes;
  fits = λ b bytes k _. two_of_le (b ∷ bytes);
  replies = λ b bytes k h. rw h refl;
  keeps = λ b bytes k _. refl;
  stays = λ b bytes k h.
      connected-heard true k (map byte (take (two_of (b ∷ bytes)) (b ∷ bytes))) _ h refl
      ∙ connected-bytes true (take (two_of (b ∷ bytes)) (b ∷ bytes));
}

recorder-Listens : Listens recorder 3 (λ k. k)
recorder-Listens = record {
  after_request = λ request payload k. k ++ (request_message request payload ∷ []);
  answers = λ request payload k h. record_request-acceptable (request_message request payload) k h;
  hears = λ request payload k _. refl;
  accepts = recorder-Accepts;
}

write-sent_example :
    (s : Opened (List Message)) × (Device.write recorder 4
        (50 ∷ 53 ∷ 10 ∷ [])
        (record { kernel = []; fd = some 3 })
      ≡ (some (ok tt), s))
    × (s.fd ≡ some 3)
    × (s.kernel ≡ byte 50 ∷ byte 53 ∷ byte 10 ∷ [])
write-sent_example =
    write-sent recorder 3 byte (λ k. k) (IsConnected recorder 3 (λ k. k)) recorder-Accepts
      (50 ∷ 53 ∷ 10 ∷ []) [] refl

-- Bytes, a disconnect, its clearing, more bytes, and a delay.
abbrev device_events : List Event
device_events =
    record { at_ms = 0; action = write "ping" }
    ∷ record { at_ms = 10; action = disconnect }
    ∷ record { at_ms = 20; action = clear }
    ∷ record { at_ms = 20; action = write "x" }
    ∷ record { at_ms = 30; action = delay 100 }
    ∷ []

abbrev device_scenario : ScenarioDefinition
device_scenario = record sample_scenario { events = map encode_event device_events }

ne_of_eqb : (s t : String) → (s == t) ≡ false → s ≢ t
ne_of_eqb s t h = ground (arith, eq_iff s t)

device_events-IsValidEvent : All (IsValidEvent 5000) device_events
device_events-IsValidEvent = (
  (omega arith, ne_of_eqb "ping" "" refl),
  (
    (omega arith, tt),
    ((omega arith, tt), ((omega arith, ne_of_eqb "x" "" refl), ((omega arith, omega arith), tt))),
  ),
)

device_events-Deliverable : Deliverable true device_events
unfolding encode_utf8
device_events-Deliverable = (refl, (tt, (tt, (refl, ((omega arith, omega arith), tt)))))

abbrev ended : ApplicationResult
ended = record {
  command = sample_scenario.command;
  exit_code = pos 0;
  stdout = "";
  stderr = "";
  timed_out = false;
  forced = false;
}

abbrev ended_application : Application (Opened (List Message))
ended_application = record {
  start = λ command cwd s. (ok tt, s);
  poll = λ s. (ok (some (pos 0)), s);
  terminate = λ grace_ms s. (ok ended, s);
  collect_with_timeout = λ timeout_ms grace_ms s. (ok ended, s);
}

abbrev empty_log : KernelLogCollector (Opened (List Message))
empty_log = record {
  snapshot = λ s. (ok (record { lines = []; error = none }), s);
  observe = λ before s. (ok (record { available = true; warnings = []; error = none }), s);
}

abbrev closed_recorder : Opened (List Message)
closed_recorder = record { kernel = []; fd = none }

abbrev device_environment : Environment (Opened (List Message))
device_environment =
    linux_environment recorder (runner_error "unfinished") ended_application empty_log
      (λ s. (ok (double 0), s)) (λ x s. (ok tt, s)) (pos 1000)

run-Finished_example :
    (result : ScenarioRunResult) × (s : Opened (List Message)) × (run toy_python device_environment
        device_scenario
        (some ".")
        closed_recorder
      ≡ (ok result, s))
    × (s.fd ≡ none)
    × (s.kernel ≡ all_messages device_events ++ (reset_device ∷ []))
run-Finished_example =
    run-Finished recorder 3 (λ k. k) recorder-Listens (runner_error "unfinished") toy_python
      ended_application empty_log (λ s. (ok (double 0), s)) (λ x s. (ok tt, s)) (pos 1000)
      (record {
        supported = refl;
        opens = λ path k. (k, refl, refl);
        closes = λ k. (k, refl, refl);
      })
      (record {
        starts = λ command cwd. record { quiet = λ s. (tt, s, refl, refl, refl) };
        terminates = λ grace_ms. record { quiet = λ s. (ended, s, refl, refl, refl) };
        collects = λ timeout_ms grace_ms. record { quiet = λ s. (ended, s, refl, refl, refl) };
      })
      (record {
        snapshots = record { quiet = λ s. (_, s, refl, refl, refl) };
        observes = λ before. record { quiet = λ s. (_, s, refl, refl, refl) };
      })
      (λ x. record { quiet = λ s. (tt, s, refl, refl, refl) }) (λ x. Unit)
      (record { tells = λ s. (double 0, s, refl, tt, refl, refl); elapsed = λ x y _ _. (_, refl) })
      (λ t _. (double t, refl)) device_scenario device_events (some ".") closed_recorder
      (omega arith) refl device_events-IsValidEvent device_events-Deliverable refl
