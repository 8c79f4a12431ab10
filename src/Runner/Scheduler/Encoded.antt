-- ===== src/Runner/Scheduler/Encoded.antt =====
-- The scheduler on the events of a valid scenario: each is dispatched to the operation that it names.
use vdev_lab.Base.{ℕ, ◌≡◌, refl}
use vdev_lab.Base.Int.{pos}
use vdev_lab.Base.Value.{int, get}
use vdev_lab.Base.Result as Res
use vdev_lab.Base.Result.{Result, ok, err, Exception}
use vdev_lab.Base.Action.{Action, ◌>>=◌}
use vdev_lab.Base.Interpreter.{Interpreter}
use vdev_lab.Scenario.Fields.{index}
use vdev_lab.Scenario.Events.Shape.{
  EventAction, clear, reset, disconnect, write, eio, delay, partial_read, Event, encode_event,
}
use vdev_lab.Runner.Records.{FaultConfiguration, DeviceBackend}
use vdev_lab.Runner.Decode.{
  encode_utf8, fault_configuration, eio_configuration, delay_configuration,
  partial_read_configuration, plain_fault,
}
use vdev_lab.Runner.Scheduler.{dispatch, dispatch_fault}

-- The configuration that a fault stands for.
abbrev pub eio_fault : ℕ → FaultConfiguration
eio_fault n = record (plain_fault "eio") { repeat = pos n }

abbrev pub delay_fault : ℕ → FaultConfiguration
delay_fault n = record (plain_fault "delay") { delay_ms = pos n }

abbrev pub partial_read_fault : ℕ → FaultConfiguration
partial_read_fault n = record (plain_fault "partial-read") { partial_read_bytes = pos n }

module _ {ℓ} {W : Type ℓ} (backend : DeviceBackend W) where
  -- The operation of the backend that an action names.
  abbrev pub perform : EventAction → Action W (Unit {0})
  perform clear = backend.clear_fault
  perform reset = backend.reset
  perform (write text) = backend.write (encode_utf8 text)
  perform disconnect = backend.set_fault (plain_fault "disconnect")
  perform (eio n) = backend.set_fault (eio_fault n)
  perform (delay n) = backend.set_fault (delay_fault n)
  perform (partial_read n) = backend.set_fault (partial_read_fault n)

module _ {ℓ} {W : Type ℓ} (python : Interpreter) (backend : DeviceBackend W) where
  -- The dispatch of an event in normal form is the operation that its action names, with the numbers
  -- and the text of the event.
  pub dispatch-encode_event :
      (e : Event) (w : W) → dispatch python backend (encode_event e) w ≡ perform backend e.action w
  unfolding dispatch dispatch_fault fault_configuration eio_configuration delay_configuration
      partial_read_configuration index Res.◌>>=◌ ◌>>=◌
  dispatch-encode_event e w = dispatch_action e.action
    where
      dispatch_action :
          (a : EventAction)
          → dispatch python backend (encode_event (record { at_ms = e.at_ms; action = a })) w
            ≡ perform backend a w
      dispatch_action clear = refl
      dispatch_action reset = refl
      dispatch_action (write text) = refl
      dispatch_action disconnect = refl
      dispatch_action (eio n) = refl
      dispatch_action (delay n) = refl
      dispatch_action (partial_read n) = refl

pub get-at_ms :
    (n : ℕ) (a : EventAction)
    → get (encode_event (record { at_ms = n; action = a })) "at_ms" ≡ int (pos n)
get-at_ms n clear = refl
get-at_ms n reset = refl
get-at_ms n disconnect = refl
get-at_ms n (write text) = refl
get-at_ms n (eio k) = refl
get-at_ms n (delay k) = refl
get-at_ms n (partial_read k) = refl
