-- ===== src/Runner/Run/Quiet.antt =====
-- What a run of runner.py takes from its clock, its application and its kernel log, if these leave the
-- device alone.
use vdev_lab.Base.{ℕ, String, ◌≡◌, sym, ◌∙◌, Bool, true, List, [], append_nil, Option}
use vdev_lab.Base.Int.{ℤ}
use vdev_lab.Base.Value.{Float}
use vdev_lab.Base.Result.{ok, Exception}
use vdev_lab.Base.Action.{Action}
use vdev_lab.Base.Interpreter.{Interpreter}
use vdev_lab.Runner.Records.{KernelLogCollector, KernelLogSnapshot}
use vdev_lab.Runner.Device.{SystemCalls, Opened, open_device}
use vdev_lab.Runner.Device.Messages.{Message, linux_backend, Delivers}
use vdev_lab.Runner.Run.{Application, Environment}

module _ {ℓ} {K : Type ℓ} (heard : K → List Message) where
  -- The action returns and has nothing to do with the device.
  pub record Quiet {κ} {A : Type κ} (m : Action (Opened K) A) : Type (ℓ ⊔ κ) where
    pub quiet :
        (s : Opened K)
        → (a : A) × (s' : Opened K) × (m s ≡ (ok a, s'))
          × (s'.fd ≡ s.fd)
          × (heard s'.kernel ≡ heard s.kernel)

  pub Quiet-Delivers {κ} :
      {A : Type κ} (m : Action (Opened K) A) (n : ℕ) (c : Bool) → Quiet m → Delivers n heard c m []
  Quiet-Delivers m n c q = record {
    delivers = λ s fd _.
        let (a, s', e, fd', h) = q.quiet s in
        (a, s', e, fd' ∙ fd, h ∙ sym (append_nil (heard s.kernel)));
  }

  -- The application's process, which runs beside the device.
  pub record QuietApplication (application : Application (Opened K)) : Type ℓ where
    pub starts :
        (command : List String) (cwd : Option String) → Quiet (application.start command cwd)
    pub terminates : (grace_ms : ℤ) → Quiet (application.terminate grace_ms)
    pub collects :
        (timeout_ms grace_ms : ℤ) → Quiet (application.collect_with_timeout timeout_ms grace_ms)

  pub record QuietKernelLog (kernel_log : KernelLogCollector (Opened K)) : Type ℓ where
    pub snapshots : Quiet kernel_log.snapshot
    pub observes : (before : KernelLogSnapshot) → Quiet (kernel_log.observe before)

  -- The device file can be opened, with descriptor `n`, and closed.
  pub record OpensAndCloses (os : SystemCalls K) (n : ℕ) : Type ℓ where
    pub supported : os.has_ioctl ≡ true
    pub opens :
        (path : String) (k : K)
        → (k' : K) × (os.open_file path k ≡ (ok n, k')) × (heard k' ≡ heard k)
    pub closes : (k : K) → (k' : K) × (os.close_file n k ≡ (ok tt, k')) × (heard k' ≡ heard k)

  -- A clock whose times are floats with a difference that is an integer in milliseconds.
  pub record Clocked (python : Interpreter) (clock : Action (Opened K) Float)
      (IsTime : Float → Type 0) : Type ℓ where
    pub tells :
        (s : Opened K)
        → (x : Float) × (s' : Opened K) × (clock s ≡ (ok x, s'))
          × IsTime x
          × (s'.fd ≡ s.fd)
          × (heard s'.kernel ≡ heard s.kernel)
    pub elapsed :
        (x y : Float)
        → IsTime x
        → IsTime y
        → (z : ℤ) × (python.trunc (python.mul_int (python.sub x y) 1000) ≡ ok z)

-- The environment of `ScenarioRunner` with the backend that it has by default.
abbrev pub linux_environment {ℓ} :
    {K : Type ℓ}
    → SystemCalls K
    → Exception
    → Application (Opened K)
    → KernelLogCollector (Opened K)
    → Action (Opened K) Float
    → (Float → Action (Opened K) (Unit {0}))
    → ℤ
    → Environment (Opened K)
linux_environment os unfinished application kernel_log clock sleeper terminate_grace_ms = record {
  open_backend = open_device os;
  backend = linux_backend os unfinished;
  application = application;
  kernel_log = kernel_log;
  clock = clock;
  sleeper = sleeper;
  terminate_grace_ms = terminate_grace_ms;
}
