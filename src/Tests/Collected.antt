-- ===== src/Tests/Collected.antt =====
-- The theorem on the results of `ApplicationProcess` of runner.py, for a process that ends after five
-- steps.
use vdev_lab.Base.{ℕ, suc, String, ◌≡◌, refl, Bool, true, false, List, [], ◌∷◌, none, some, ltb}
use vdev_lab.Base.Int.{pos}
use vdev_lab.Base.Result.{ok}
use vdev_lab.Base.Action.{◌>>=◌, try_except}
use vdev_lab.Runner.{ApplicationResult}
use vdev_lab.Runner.Process.{
  ProcessCalls, checked_timeout, process_result, signal_group, collect, terminate,
  collect_with_timeout,
}
use vdev_lab.Runner.Process.Collected.{IsCollected, collect_with_timeout-IsCollected}

abbrev slow_process : ProcessCalls ℕ
slow_process = record {
  spawn = λ command cwd w. (ok tt, w);
  poll = λ w. (ok none, suc w);
  join = λ timeout w. suc w;
  is_alive = λ w. ltb w 5;
  is_windows = false;
  signal_process = λ force w. (ok false, w);
  killpg = λ force w. (ok true, suc w);
  collector_error = λ w. none;
  output = λ w. some ("", "");
  returncode = λ w. some (pos 137);
}

abbrev monitor : List String
monitor = "./monitor" ∷ []

abbrev stopped_result : Bool → ApplicationResult
stopped_result timed_out = record {
  command = monitor;
  exit_code = pos 137;
  stdout = "";
  stderr = "";
  timed_out = timed_out;
  forced = true;
}

collect_with_timeout-slow :
    collect_with_timeout slow_process monitor (pos 50) (pos 1000) 0 ≡ (ok (stopped_result true), 6)
unfolding collect_with_timeout terminate checked_timeout signal_group collect process_result
    try_except ◌>>=◌
collect_with_timeout-slow = refl

collect_with_timeout-IsCollected_example :
    IsCollected slow_process monitor 6 (stopped_result true) × (true ≡ slow_process.is_alive 1)
collect_with_timeout-IsCollected_example =
    collect_with_timeout-IsCollected slow_process monitor 49 (pos 1000) 0 collect_with_timeout-slow
