-- ===== src/Runner/Records.antt =====
-- The dataclasses of runner.py, and its protocols as records of operations on the world's state.
use vdev_lab.Base.{ℕ, String, Bool, List, Option}
use vdev_lab.Base.Int.{ℤ}
use vdev_lab.Base.Value.{Float}
use vdev_lab.Base.Action.{Action}

pub record FaultConfiguration : Type 0 where
  pub fault_type : String
  pub repeat : ℤ
  pub delay_ms : ℤ
  pub partial_read_bytes : ℤ

pub record DispatchRecord : Type 0 where
  pub index : ℕ
  pub action : String
  pub scheduled_ms : ℕ
  pub started_ms : Float
  pub finished_ms : Float
  pub monotonic_started_ms : Float
  pub monotonic_finished_ms : Float

pub record ApplicationResult : Type 0 where
  pub command : List String
  pub exit_code : ℤ
  pub stdout : String
  pub stderr : String
  pub timed_out : Bool
  pub forced : Bool

pub record ScenarioRunResult : Type 0 where
  pub scenario_name : String
  pub dispatches : List DispatchRecord
  pub application : ApplicationResult
  pub kernel_warnings : List String
  pub kernel_log_available : Bool
  pub kernel_log_error : Option String

pub record KernelLogSnapshot : Type 0 where
  pub lines : List String
  pub error : Option String

pub record KernelLogObservation : Type 0 where
  pub available : Bool
  pub warnings : List String
  pub error : Option String

-- The protocol, with the `close` that a backend may have (one without it does nothing there).
pub record DeviceBackend {ℓ} (W : Type ℓ) : Type ℓ where
  pub reset : Action W (Unit {0})
  pub clear_fault : Action W (Unit {0})
  pub write : List ℕ → Action W (Unit {0})
  pub set_fault : FaultConfiguration → Action W (Unit {0})
  pub close : Action W (Unit {0})

pub record KernelLogCollector {ℓ} (W : Type ℓ) : Type ℓ where
  pub snapshot : Action W KernelLogSnapshot
  pub observe : KernelLogSnapshot → Action W KernelLogObservation
