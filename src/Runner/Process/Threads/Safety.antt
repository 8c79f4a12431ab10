-- ===== src/Runner/Process/Threads/Safety.antt =====
-- What a call of `collect` or `terminate` gives, in every interleaving.
use vdev_lab.Base.{◌≡◌, List, String}
use vdev_lab.Base.Result.{Result}
use vdev_lab.Runner.Records.{ApplicationResult}
use vdev_lab.Runner.Process.Threads.{Pc, finished, System, Entry, Reach}
use vdev_lab.Runner.Process.Threads.Invariant.{Outcome, Reach-IsConsistent}

module _ (command : List String) where
  -- However the process, the collector and the caller interleave, a call of `collect` or `terminate`
  -- that returns gives the exit code of the process that ended and its whole output, with the
  -- collector dead. It raises nothing but the timeout of `collect`, the error about the output where
  -- the collector failed, an `OSError` of a signal that could not be sent, and the error about a
  -- timeout that is no positive integer. An interrupt of the caller itself is left out.
  pub Reach-Outcome :
      {p : Pc} {s : System} {r : Result ApplicationResult}
      → Entry p
      → Reach command p s
      → s.pc ≡ finished r
      → Outcome command s.mem r
  Reach-Outcome {s = s} entry reached e =
      rw e at ((Reach-IsConsistent command entry reached).placed)
