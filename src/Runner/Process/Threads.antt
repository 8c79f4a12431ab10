-- ===== src/Runner/Process/Threads.antt =====
-- `ApplicationProcess` of runner.py as two threads over one object: the collector of
-- `_collect_output`, and a caller of `collect` or `terminate`. Every step is one access to the state
-- that they share, and the operating system moves in between.
pub mod Invariant
pub mod Safety
use vdev_lab.Base.{◌<>◌, ◌≤◌, String, ◌≡◌, ◌≢◌, ◌⊎◌, Bool, true, false, List, Option, none, some, ℕ}
use vdev_lab.Base.Int.{ℤ}
use vdev_lab.Base.Result.{
  Result, ok, err, Exception, runner_error, os_error, application_timeout_error, assertion_error,
}
use vdev_lab.Runner.Records.{ApplicationResult}
use vdev_lab.Runner.Process.{result_of}

-- The process and the attributes that the collector writes.
pub record Shared : Type 0 where
  -- the exit code of the process, once it ended
  pub exit : Option ℤ
  -- `_process.returncode`, `_output` as decoded texts, `_collector_error`
  pub returncode : Option ℤ
  pub output : Option (String × String)
  pub error : Option Exception
  -- `_collector.is_alive()`
  pub alive : Bool

-- What the process and the collector do. `communicate` returns only after the process ended, and
-- sets the return code.
pub data Collect (m : Shared) : Shared → Type 0 where
  exits : (code : ℤ) → m.exit ≡ none → Collect m (record m { exit = some code })
  communicates :
      (code : ℤ) (texts : String × String)
      → m.alive ≡ true
      → m.output ≡ none
      → m.error ≡ none
      → m.exit ≡ some code
      → Collect m (record m { output = some texts; returncode = some code })
  fails :
      (e : Exception) → m.alive ≡ true → m.output ≡ none → Collect m (record m { error = some e })
  ends :
      m.alive ≡ true → (m.output ≢ none) ⊎ (m.error ≢ none) → Collect m (record m { alive = false })

-- Where the caller stands, with the values that it still needs: the timeout of the join, and whether
-- the process was killed.
pub data Pc : Type 0 where
  -- the start of `terminate`, the signal, the first join, and its `is_alive`
  polling : (grace_ms : ℕ) → Pc
  signalling : (grace_ms : ℕ) → Pc
  waiting : (grace_ms : ℕ) → Pc
  waited : Pc
  killing : Pc
  -- the join of `collect`, its `is_alive`, and `_result`
  joining : (timeout_ms : Option ℕ) (forced : Bool) → Pc
  joined : (timeout_ms : Option ℕ) (forced : Bool) → Pc
  reading : (forced : Bool) → Pc
  finished : Result ApplicationResult → Pc

abbrev pub set_forced : Bool → Result ApplicationResult → Result ApplicationResult
set_forced forced (ok r) = ok (record r { forced = forced })
set_forced forced (err e) = err e

-- What `collect` raises where the collector still runs after the join.
abbrev pub still_alive : List String → Option ℕ → Exception
still_alive command none = assertion_error
still_alive command (some timeout_ms) = application_timeout_error command timeout_ms

-- The caller's steps. A signal that was sent has no effect of its own on the state; what the process does next is
-- one of its own steps. `poll` may find the process ended, and then sets the return code.
pub data Call (command : List String) (m : Shared) : Pc → Shared → Pc → Type 0 where
  poll_ended :
      {grace_ms : ℕ} (code : ℤ)
      → m.exit ≡ some code
      → Call command m (polling grace_ms) (record m { returncode = some code }) (joining none false)
  -- `poll` also returns `None` for a process that ended while the collector waits for it
  poll_running : {grace_ms : ℕ} → Call command m (polling grace_ms) m (signalling grace_ms)
  signal : {grace_ms : ℕ} → Call command m (signalling grace_ms) m (waiting grace_ms)
  -- `killpg` raises an `OSError` that is no `ProcessLookupError`
  signal_fails :
      {grace_ms : ℕ} (message : String)
      → Call command m (signalling grace_ms) m (finished (err (os_error message)))
  wait_over : {grace_ms : ℕ} → Call command m (waiting grace_ms) m waited
  wait_ended : m.alive ≡ false → Call command m waited m (joining none false)
  wait_alive : m.alive ≡ true → Call command m waited m killing
  kill : Call command m killing m (joining none true)
  kill_fails : (message : String) → Call command m killing m (finished (err (os_error message)))
  -- a join returns when the thread is dead, and one with a timeout also when the time is over
  join_ended :
      {timeout_ms : Option ℕ} {forced : Bool}
      → m.alive ≡ false
      → Call command m (joining timeout_ms forced) m (joined timeout_ms forced)
  join_timeout :
      {timeout_ms : ℕ} {forced : Bool}
      → Call command m (joining (some timeout_ms) forced) m (joined (some timeout_ms) forced)
  alive_after :
      {timeout_ms : Option ℕ} {forced : Bool}
      → m.alive ≡ true
      → Call command m
          (joined timeout_ms forced)
          m
          (finished (err (still_alive command timeout_ms)))
  dead_after :
      {timeout_ms : Option ℕ} {forced : Bool}
      → m.alive ≡ false
      → Call command m (joined timeout_ms forced) m (reading forced)
  read :
      {forced : Bool}
      → Call command m
          (reading forced)
          m
          (finished (set_forced forced (result_of command m.error m.output m.returncode)))

pub record System : Type 0 where
  pub mem : Shared
  pub pc : Pc

pub data Step (command : List String) (s : System) : System → Type 0 where
  collector : {m : Shared} → Collect s.mem m → Step command s (record { mem = m; pc = s.pc })
  caller :
      {m : Shared} {p : Pc}
      → Call command s.mem s.pc m p
      → Step command s (record { mem = m; pc = p })

-- A process that was just started.
abbrev pub started : Shared
started = record { exit = none; returncode = none; output = none; error = none; alive = true }

-- What a timeout that is no positive integer raises.
abbrev pub not_positive : String → Exception
not_positive name = runner_error (name <> " must be a positive integer")

-- A call of `collect` or of `terminate`, at any time after the start, behind the check of its timeout.
pub data Entry : Pc → Type 0 where
  collect_all : Entry (joining none false)
  collect : (timeout_ms : ℕ) → 1 ≤ timeout_ms → Entry (joining (some timeout_ms) false)
  terminate : (grace_ms : ℕ) → 1 ≤ grace_ms → Entry (polling grace_ms)
  rejected : (name : String) → Entry (finished (err (not_positive name)))

pub data Reach (command : List String) (p : Pc) : System → Type 0 where
  here : Reach command p (record { mem = started; pc = p })
  next : {s t : System} → Reach command p s → Step command s t → Reach command p t
