-- ===== src/Tests/Threads.antt =====
-- The theorems on the two threads of `ApplicationProcess`, at a process that has to be killed.
use vdev_lab.Base.{refl, true, false, List, [], ◌∷◌, String, some, inl, none, arith}
use vdev_lab.Base.Int.{negsuc}
use vdev_lab.Base.Result.{ok}
use vdev_lab.Runner.{ApplicationResult}
use vdev_lab.Runner.Process.Threads.{
  Shared, exits, communicates, ends, polling, killing, joining, finished, poll_running, signal,
  wait_over, wait_alive, kill, join_ended, dead_after, read, collector, caller, started, Entry,
  Reach, here, next,
}
use vdev_lab.Runner.Process.Threads.Invariant.{Outcome}
use vdev_lab.Runner.Process.Threads.Safety.{Reach-Outcome}

abbrev sleeper : List String
sleeper = "./sleeper" ∷ []

abbrev killed : Shared
killed = record {
  exit = some (negsuc 8);
  returncode = some (negsuc 8);
  output = some ("", "");
  error = none;
  alive = false;
}

abbrev killed_result : ApplicationResult
killed_result = record {
  command = sleeper;
  exit_code = negsuc 8;
  stdout = "";
  stderr = "";
  timed_out = false;
  forced = true;
}

killing-Reach : Reach sleeper (polling 10) (record { mem = started; pc = killing })
killing-Reach =
    next (next (next (next here (caller poll_running)) (caller signal)) (caller wait_over))
      (caller (wait_alive refl))

killed-Reach : Reach sleeper (polling 10) (record { mem = killed; pc = joining none true })
killed-Reach =
    next
      (next (next (next killing-Reach (collector (exits (negsuc 8) refl))) (caller kill))
        (collector (communicates (negsuc 8) ("", "") refl refl refl refl)))
      (collector (ends refl (inl (λ k. cc))))

finished-Reach :
    Reach sleeper (polling 10) (record { mem = killed; pc = finished (ok killed_result) })
finished-Reach =
    next (next (next killed-Reach (caller (join_ended refl))) (caller (dead_after refl)))
      (caller read)

Reach-Outcome_example : Outcome sleeper killed (ok killed_result)
Reach-Outcome_example = Reach-Outcome sleeper (Entry.terminate 10 (omega arith)) finished-Reach refl
