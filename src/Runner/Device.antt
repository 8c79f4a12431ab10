-- ===== src/Runner/Device.antt =====
-- `LinuxDeviceBackend` of runner.py. The system calls are the kernel's: a record of operations on
-- its state. The loop of `write` runs on fuel, one unit for each call of `os.write`.
pub mod Write
pub mod Closed
pub mod Messages
use vdev_lab.Base.{
  Bool, ℕ, zero, suc, String, List, [], ◌∷◌, drop, Option, none, some, eqb, if◌then◌else◌,
}
use vdev_lab.Base.Result.{Result, ok, err, runner_error, os_error}
use vdev_lab.Base.Action.{Action, lift, ◌>>=◌}
use vdev_lab.Runner.Records.{FaultConfiguration}
use vdev_lab.Runner.Fault.{ioc_set_fault, ioc_clear_fault, ioc_reset, fault_payload}

-- What `os.write` does: it accepts some bytes, is interrupted by a signal, or raises an `OSError`.
pub data WriteReply : Type 0 where
  written : ℕ → WriteReply
  interrupted : WriteReply
  failed : String → WriteReply

pub record SystemCalls {ℓ} (K : Type ℓ) : Type ℓ where
  -- `_system_ioctl is not None`
  pub has_ioctl : Bool
  pub open_file : String → Action K ℕ
  pub close_file : ℕ → Action K (Unit {0})
  pub ioctl : ℕ → ℕ → List ℕ → Action K (Unit {0})
  pub write_file : ℕ → List ℕ → K → WriteReply × K

-- The kernel's state, and the attribute `_fd`.
pub record Opened {ℓ} (K : Type ℓ) : Type ℓ where
  pub kernel : K
  pub fd : Option ℕ

module _ {ℓ} {K : Type ℓ} (os : SystemCalls K) where
  -- An action of the kernel inside the backend.
  abbrev on_kernel {κ} : {A : Type κ} → Action K A → Action (Opened K) A
  on_kernel m s = let (r, k) = m s.kernel in (r, record s { kernel = k })

  abbrev fileno_of : Option ℕ → Result ℕ
  fileno_of none = err (runner_error "device backend is closed")
  fileno_of (some n) = ok n

  -- `_fileno`
  unfoldable pub fileno : Action (Opened K) ℕ
  fileno s = (fileno_of s.fd, s)

  abbrev opened : Result ℕ × K → Result (Unit {0}) × Opened K
  opened (ok n, k) = (ok tt, record { kernel = k; fd = some n })
  opened (err e, k) = (err e, record { kernel = k; fd = none })

  -- `__init__`: the file is opened, and its descriptor kept.
  unfoldable pub open_device : String → Action (Opened K) (Unit {0})
  open_device path s =
      if os.has_ioctl
      then opened (os.open_file path s.kernel)
      else (err (runner_error "Linux ioctl support is unavailable on this platform"), s)

  -- After a failed `os.close` the descriptor is still kept.
  abbrev close_result : Option ℕ → Result (Unit {0}) × K → Result (Unit {0}) × Opened K
  close_result fd (ok _, k) = (ok tt, record { kernel = k; fd = none })
  close_result fd (err e, k) = (err e, record { kernel = k; fd = fd })

  abbrev close_fd : Option ℕ → Action (Opened K) (Unit {0})
  close_fd none s = (ok tt, s)
  close_fd (some n) s = close_result (some n) (os.close_file n s.kernel)

  unfoldable pub close : Action (Opened K) (Unit {0})
  close s = close_fd s.fd s

  -- `__enter__`, and `__exit__`, which lets an exception of the block pass.
  unfoldable pub enter : Action (Opened K) (Unit {0})
  enter s = (ok tt, s)

  unfoldable pub exit : Action (Opened K) (Unit {0})
  exit = close

  unfoldable pub reset : Action (Opened K) (Unit {0})
  reset = do n ← fileno; on_kernel (os.ioctl n ioc_reset [])

  unfoldable pub clear_fault : Action (Opened K) (Unit {0})
  clear_fault = do n ← fileno; on_kernel (os.ioctl n ioc_clear_fault [])

  unfoldable pub set_fault : FaultConfiguration → Action (Opened K) (Unit {0})
  set_fault configuration = do
    payload ← lift (fault_payload configuration)
    n ← fileno
    on_kernel (os.ioctl n ioc_set_fault payload)

  -- `while remaining`, over the bytes that remain, on an open descriptor; `none` means that the fuel
  -- ran out.
  unfoldable pub write_loop : ℕ → ℕ → List ℕ → K → Option (Result (Unit {0})) × K
  write_loop zero n remaining k = (none, k)
  write_loop (suc fuel) n [] k = (some (ok tt), k)
  write_loop (suc fuel) n (byte ∷ remaining) k =
      let (reply, k') = os.write_file n (byte ∷ remaining) k in
      elim reply [
        | written count ↦
            let rest = write_loop fuel n (drop count (byte ∷ remaining)) k' in
            if eqb count 0
            then (some (err (os_error "device write made no progress")), k')
            else rest
        | interrupted ↦ write_loop fuel n (byte ∷ remaining) k'
        | failed message ↦ (some (err (os_error message)), k')
      ]

  abbrev write_open : ℕ → List ℕ → Opened K → Result ℕ → Option (Result (Unit {0})) × Opened K
  write_open fuel content s (err e) = (some (err e), s)
  write_open fuel content s (ok n) =
      let (r, k) = write_loop fuel n content s.kernel in (r, record s { kernel = k })

  -- `write`: the descriptor is looked up only where there is something to write.
  unfoldable pub write : ℕ → List ℕ → Opened K → Option (Result (Unit {0})) × Opened K
  write fuel [] s = (some (ok tt), s)
  write fuel (byte ∷ bytes) s = write_open fuel (byte ∷ bytes) s (fileno_of s.fd)
