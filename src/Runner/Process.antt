-- ===== src/Runner/Process.antt =====
-- `ApplicationProcess` of runner.py. The operating system and the collector thread are a record of
-- operations on the state of the world.
pub mod Collected
pub mod Threads
use vdev_lab.Base.{
  ℕ, suc, ◌<>◌, String, ◌==◌, Bool, true, false, List, [], ◌∷◌, Option, none, some, any,
  if◌then◌else◌,
}
use vdev_lab.Base.Int.{ℤ, pos}
use vdev_lab.Base.Result.{
  Result, ok, err, Exception, runner_error, application_timeout_error, assertion_error,
}
use vdev_lab.Base.Action.{Action, pure, raise, lift, try_except, ◌>>=◌, ◌>>◌}
use vdev_lab.Runner.Records.{ApplicationResult}

pub record ProcessCalls {ℓ} (W : Type ℓ) : Type ℓ where
  -- `Popen` of the command in a working directory, and the start of the collector thread
  pub spawn : List String → Option String → Action W (Unit {0})
  -- `Popen.poll`
  pub poll : Action W (Option ℤ)
  -- `Thread.join`, with a timeout in milliseconds or without one, and `Thread.is_alive`
  pub join : Option ℕ → W → W
  pub is_alive : W → Bool
  -- `os.name == "nt"`
  pub is_windows : Bool
  -- `Popen.kill` or `Popen.terminate`, and `os.killpg` with SIGKILL or SIGTERM; `false` is a
  -- `ProcessLookupError`
  pub signal_process : Bool → Action W Bool
  pub killpg : Bool → Action W Bool
  -- what the collector left: its error, its output as decoded texts, and `Popen.returncode`
  pub collector_error : W → Option Exception
  pub output : W → Option (String × String)
  pub returncode : W → Option ℤ

-- `_timeout_seconds`, with its result in milliseconds.
unfoldable pub checked_timeout : Option ℤ → String → Result (Option ℕ)
checked_timeout none name = ok none
checked_timeout (some (pos (suc n))) name = ok (some (suc n))
checked_timeout (some _) name = err (runner_error (name <> " must be a positive integer"))

abbrev is_empty : List String → Bool
is_empty [] = true
is_empty (s ∷ ss) = false

-- The result of a process that ended.
abbrev result_of :
    List String → Option Exception → Option (String × String) → Option ℤ → Result ApplicationResult
result_of command (some e) output code = err (runner_error "failed to collect application output")
result_of command none (some (stdout, stderr)) (some exit_code) = ok (record {
  command = command;
  exit_code = exit_code;
  stdout = stdout;
  stderr = stderr;
  timed_out = false;
  forced = false;
})
result_of command none output code =
    err (runner_error "application output collector ended without a result")

module _ {ℓ} {W : Type ℓ} (os : ProcessCalls W) (command : List String) where
  -- `__init__`
  unfoldable pub start : Option String → Action W (Unit {0})
  start cwd =
      if is_empty command
      then raise (runner_error "application command must contain non-empty strings")
      else if any (λ argument. argument == "") command
      then raise (runner_error "application command must contain non-empty strings")
      else os.spawn command cwd

  -- `_result`
  unfoldable pub process_result : Action W ApplicationResult
  process_result w = (result_of command (os.collector_error w) (os.output w) (os.returncode w), w)

  -- `_signal_group`: a process that is gone is no error.
  unfoldable pub signal_group : Bool → Action W (Unit {0})
  signal_group force = do
    found ← if os.is_windows then os.signal_process force else os.killpg force
    pure tt

  -- The end of `collect`, after the join; without a timeout the join ends only with the thread.
  abbrev collect_joined : Bool → Option ℕ → Action W ApplicationResult
  collect_joined true (some timeout_ms) = raise (application_timeout_error command timeout_ms)
  collect_joined true none = raise assertion_error
  collect_joined false timeout = process_result

  unfoldable pub collect : Option ℤ → Action W ApplicationResult
  collect timeout_ms = do
    timeout ← lift (checked_timeout timeout_ms "timeout_ms")
    λ w. let w' = os.join timeout w in collect_joined (os.is_alive w') timeout w'

  -- The part of `terminate` behind the first join: `SIGKILL` if the thread still runs.
  abbrev pub finish : Bool → Action W ApplicationResult
  finish true = do signal_group true; result ← collect none; pure (record result { forced = true })
  finish false = do result ← collect none; pure (record result { forced = false })

  abbrev pub terminate_running : Option ℕ → Option ℤ → Action W ApplicationResult
  terminate_running grace (some code) = collect none
  terminate_running grace none = do
    signal_group false
    λ w. let w' = os.join grace w in finish (os.is_alive w') w'

  unfoldable pub terminate : ℤ → Action W ApplicationResult
  terminate grace_ms = do
    grace ← lift (checked_timeout (some grace_ms) "grace_ms")
    status ← os.poll
    terminate_running grace status

  -- The handler of `collect_with_timeout`.
  abbrev pub on_timeout : ℤ → Exception → Action W ApplicationResult
  on_timeout terminate_grace_ms (application_timeout_error _ _) = do
    result ← terminate terminate_grace_ms
    pure (record result { timed_out = true })
  on_timeout terminate_grace_ms e = raise e

  unfoldable pub collect_with_timeout : ℤ → ℤ → Action W ApplicationResult
  collect_with_timeout timeout_ms terminate_grace_ms =
      try_except (collect (some timeout_ms)) (on_timeout terminate_grace_ms)
