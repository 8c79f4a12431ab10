-- ===== src/Runner/Device/Closed.antt =====
-- `LinuxDeviceBackend` of runner.py after its `close`.
use vdev_lab.Base.{ℕ, ◌≡◌, refl, List, [], ◌∷◌, map, Option, none, some}
use vdev_lab.Base.Result.{Result, ok, err, Exception, runner_error}
use vdev_lab.Base.Action.{◌>>=◌}
use vdev_lab.Runner.Records.{FaultConfiguration}
use vdev_lab.Runner.Fault.{fault_payload}
use vdev_lab.Runner.Device.{
  SystemCalls, Opened, fileno, close_fd, close_result, close, enter, exit, reset, clear_fault,
  set_fault, write,
}

-- The methods of the class.
pub data Operation : Type 0 where
  call_reset call_clear_fault call_close call_enter call_exit : Operation
  call_set_fault : FaultConfiguration → Operation
  call_write : List ℕ → Operation

-- What the methods of a closed backend give: the ones that need the device raise, `set_fault` only
-- after it has packed its argument.
abbrev closed_error : Exception
closed_error = runner_error "device backend is closed"

abbrev outcome_packed : Result (List ℕ) → Result (Unit {0})
outcome_packed (ok payload) = err closed_error
outcome_packed (err x) = err x

abbrev pub outcome_closed : Operation → Option (Result (Unit {0}))
outcome_closed call_reset = some (err closed_error)
outcome_closed call_clear_fault = some (err closed_error)
outcome_closed call_close = some (ok tt)
outcome_closed call_enter = some (ok tt)
outcome_closed call_exit = some (ok tt)
outcome_closed (call_set_fault configuration) = some (outcome_packed (fault_payload configuration))
outcome_closed (call_write []) = some (ok tt)
outcome_closed (call_write (byte ∷ bytes)) = some (err closed_error)

module _ {ℓ} {K : Type ℓ} (os : SystemCalls K) (fuel : ℕ) where
  abbrev returning : Result (Unit {0}) × Opened K → Option (Result (Unit {0})) × Opened K
  returning (r, s) = (some r, s)

  abbrev call : Operation → Opened K → Option (Result (Unit {0})) × Opened K
  call call_reset s = returning (reset os s)
  call call_clear_fault s = returning (clear_fault os s)
  call call_close s = returning (close os s)
  call call_enter s = returning (enter os s)
  call call_exit s = returning (exit os s)
  call (call_set_fault configuration) s = returning (set_fault os configuration s)
  call (call_write content) s = write os fuel content s

  -- A sequence of calls, of which none ends it.
  abbrev pub calls : List Operation → Opened K → List (Option (Result (Unit {0}))) × Opened K
  calls [] s = ([], s)
  calls (op ∷ ops) s = let (r, s') = call op s in let (rs, s'') = calls ops s' in (r ∷ rs, s'')

  set_fault-closed :
      (configuration : FaultConfiguration) (s : Opened K) (p : Result (List ℕ))
      → s.fd ≡ none
      → fault_payload configuration ≡ p
      → returning (set_fault os configuration s) ≡ (some (outcome_packed p), s)
  unfolding set_fault fileno ◌>>=◌
  set_fault-closed configuration s (ok payload) h e = rw (e, h) refl
  set_fault-closed configuration s (err x) h e = rw e refl

  call-closed : (op : Operation) (s : Opened K) → s.fd ≡ none → call op s ≡ (outcome_closed op, s)
  unfolding reset clear_fault close enter exit fileno write ◌>>=◌
  call-closed call_reset s h = rw h refl
  call-closed call_clear_fault s h = rw h refl
  call-closed call_close s h = rw h refl
  call-closed call_enter s h = refl
  call-closed call_exit s h = rw h refl
  call-closed (call_set_fault configuration) s h = set_fault-closed configuration s _ h refl
  call-closed (call_write []) s h = refl
  call-closed (call_write (byte ∷ bytes)) s h = rw h refl

  calls-closed :
      (ops : List Operation) (s : Opened K)
      → s.fd ≡ none
      → calls ops s ≡ (map outcome_closed ops, s)
  calls-closed [] s h = refl
  calls-closed (op ∷ ops) s h = rw (call-closed op s h, calls-closed ops s h) refl

  close_fd-none :
      (fd : Option ℕ) (s : Opened K) {s' : Opened K}
      → s.fd ≡ fd
      → close_fd os fd s ≡ (ok tt, s')
      → s'.fd ≡ none
  close_fd-none none s e h = cc
  close_fd-none (some n) s e h = closed (os.close_file n s.kernel) h
    where
      closed :
          (r : Result (Unit {0}) × K) {s' : Opened K}
          → close_result os (some n) r ≡ (ok tt, s')
          → s'.fd ≡ none
      closed (ok _, k) {s'} h = cc
      closed (err x, k) {s'} h = cc

  -- After a `close` that returned, no sequence of calls of the backend's methods reaches the device:
  -- the state, the kernel's included, stays as it is, `close` and the context manager's methods return
  -- once more, and every method that needs the device raises.
  pub close-outcome_closed :
      (s : Opened K) {s' : Opened K} (ops : List Operation)
      → close os s ≡ (ok tt, s')
      → calls ops s' ≡ (map outcome_closed ops, s')
  unfolding close
  close-outcome_closed s {s'} ops h = calls-closed ops s' (close_fd-none s.fd s refl h)
