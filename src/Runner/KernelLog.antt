-- ===== src/Runner/KernelLog.antt =====
-- `DmesgKernelLogCollector` of runner.py. The runner of the command is a parameter: it gives the exit
-- code and the two outputs of `dmesg`, or raises.
pub mod NewLines
use vdev_lab.Base.{
  ℕ, zero, suc, ◌-◌, ◌<>◌, String, ◌==◌, Bool, true, false, ◌&&◌, List, [], ◌∷◌, Option, none, some,
  length, take, drop, leb, splitlines, if◌then◌else◌,
}
use vdev_lab.Base.Int.{ℤ, pos, eqb_ℤ}
use vdev_lab.Base.Result.{Exception, os_error}
use vdev_lab.Base.Action.{Action, pure, raise, ◌>>=◌, try_except}
use vdev_lab.Runner.Records.{KernelLogSnapshot, KernelLogObservation}

pub record CompletedProcess : Type 0 where
  pub returncode : ℤ
  pub stdout : String
  -- `stderr.strip()`, which is all that is read of it
  pub stderr_stripped : String

abbrev failed_snapshot : String → KernelLogSnapshot
failed_snapshot message = record { lines = []; error = some message }

unfoldable pub snapshot_of : CompletedProcess → (ℤ → String) → KernelLogSnapshot
snapshot_of completed show =
    if eqb_ℤ completed.returncode (pos 0)
    then record { lines = splitlines completed.stdout; error = none }
    else failed_snapshot (
        if completed.stderr_stripped == ""
        then "dmesg exited with " <> show completed.returncode
        else completed.stderr_stripped)

-- `list == list`
unfoldable pub same_lines : List String → List String → Bool
same_lines [] [] = true
same_lines [] (t ∷ ts) = false
same_lines (s ∷ ss) [] = false
same_lines (s ∷ ss) (t ∷ ts) = let rest = same_lines ss ts in s == t && rest

abbrev pub smaller : ℕ → ℕ → ℕ
smaller a b = if leb a b then a else b

-- `lines[-n:]`, for a positive `n` of at most the length.
abbrev pub last_lines : ℕ → List String → List String
last_lines n lines = drop (length lines - n) lines

-- `while overlap and before.lines[-overlap:] != after.lines[:overlap]: overlap -= 1`
unfoldable pub shrink_overlap : ℕ → List String → List String → ℕ
shrink_overlap zero before after = zero
shrink_overlap (suc n) before after =
    let less = shrink_overlap n before after in
    if same_lines (last_lines (suc n) before) (take (suc n) after) then suc n else less

-- The lines of `after` that are new.
unfoldable pub new_lines : List String → List String → List String
new_lines before after =
    drop (shrink_overlap (smaller (length before) (length after)) before after) after

-- The part of `observe` behind the second read.
unfoldable pub compare_snapshots : KernelLogSnapshot → KernelLogSnapshot → KernelLogObservation
compare_snapshots before after = elim after.error [
  | some message ↦ record { available = false; warnings = []; error = some message }
  | none ↦ record { available = true; warnings = new_lines before.lines after.lines; error = none }
]

module _ {ℓ} {W : Type ℓ} (command_runner : Action W CompletedProcess) (show : ℤ → String) where
  -- The handler of `_read`.
  abbrev read_failed : Exception → Action W KernelLogSnapshot
  read_failed (os_error message) = pure (failed_snapshot message)
  read_failed e = raise e

  -- `_read`, and `snapshot`
  unfoldable pub snapshot : Action W KernelLogSnapshot
  snapshot =
      try_except (command_runner >>= λ completed. pure (snapshot_of completed show)) read_failed

  abbrev observe_after : Option String → KernelLogSnapshot → Action W KernelLogObservation
  observe_after (some message) before =
      pure (record { available = false; warnings = []; error = some message })
  observe_after none before = do after ← snapshot; pure (compare_snapshots before after)

  unfoldable pub observe : KernelLogSnapshot → Action W KernelLogObservation
  observe before = observe_after before.error before
