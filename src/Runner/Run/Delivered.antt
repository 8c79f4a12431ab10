-- ===== src/Runner/Run/Delivered.antt =====
-- The run of runner.py with `LinuxDeviceBackend`: what the device hears from its opening to its
-- closing.
use vdev_lab.Base.{
  ℕ, ◌≤◌, String, ◌≡◌, refl, sym, ap, ◌∙◌, subst, Bool, true, false, List, [], ◌∷◌, ◌++◌, map, All,
  append_nil, append_assoc, Option, none, some, if◌then◌else◌,
}
use vdev_lab.Base.Int.{ℤ, pos, leb_ℤ}
use vdev_lab.Base.Value.{Float}
use vdev_lab.Base.Result.{ok, Exception}
use vdev_lab.Base.Action.{Action, pure, ◌>>=◌, >>=-ok}
use vdev_lab.Base.Interpreter.{Interpreter}
use vdev_lab.Scenario.{ScenarioDefinition, max_duration_ms}
use vdev_lab.Scenario.Events.Shape.{Event, encode_event, IsValidEvent}
use vdev_lab.Runner.Records.{KernelLogCollector, KernelLogSnapshot, ScenarioRunResult}
use vdev_lab.Runner.Device.{SystemCalls, Opened, open_device, close}
use vdev_lab.Runner.Device.Messages.{
  Message, reset_device, connected, IsConnected, Listens, linux_backend, Delivers, reset-Delivers,
}
use vdev_lab.Runner.Scheduler.Delivered.{
  connected-heard, Deliverable, pure-Delivers, try_except-Delivers, bind-Delivers, known-Delivers,
  all_messages, run_schedule-Delivers,
}
use vdev_lab.Runner.Scheduler.{run_schedule}
use vdev_lab.Runner.Run.{
  Application, Environment, requires_kernel_log, first_snapshot, finish_application, run_started,
  cleanup_backend, add_kernel_log, run_opened, run,
}
use vdev_lab.Runner.Run.Quiet.{
  Quiet, Quiet-Delivers, QuietApplication, QuietKernelLog, OpensAndCloses, Clocked,
  linux_environment,
}

module _ {ℓ} {K : Type ℓ} (os : SystemCalls K) (n : ℕ) (heard : K → List Message)
    (device : Listens os n heard) (unfinished : Exception) where
  linux_backend-close :
      (s : Opened K) (k : K)
      → s.fd ≡ some n
      → os.close_file n s.kernel ≡ (ok tt, k)
      → (linux_backend os unfinished).close s ≡ (ok tt, record { kernel = k; fd = none })
  unfolding linux_backend close
  linux_backend-close s k fd e = rw fd (rw e refl)

  -- Behind the run the device is reset and closed.
  cleanup_backend-closed :
      (s : Opened K)
      → OpensAndCloses heard os n
      → s.fd ≡ some n
      → (s' : Opened K) × (cleanup_backend (linux_backend os unfinished) false s ≡ (ok tt, s'))
        × (s'.fd ≡ none)
        × (heard s'.kernel ≡ heard s.kernel ++ (reset_device ∷ []))
  unfolding cleanup_backend
  cleanup_backend-closed s files fd =
      let (_, s1, e, fd1, h) = (reset-Delivers os n heard device unfinished _).delivers s fd refl in
      let (k, e2, h2) = files.closes s1.kernel in
      (
        record { kernel = k; fd = none },
        rw e (rw (linux_backend-close s1 k fd1 e2) refl),
        refl,
        h2 ∙ h,
      )

module _ {ℓ} {K : Type ℓ} (os : SystemCalls K) (n : ℕ) (heard : K → List Message)
    (device : Listens os n heard) (unfinished : Exception) (python : Interpreter)
    (application : Application (Opened K)) (kernel_log : KernelLogCollector (Opened K))
    (clock : Action (Opened K) Float) (sleeper : Float → Action (Opened K) (Unit {0}))
    (grace_ms : ℤ) (files : OpensAndCloses heard os n) (beside : QuietApplication heard application)
    (logged : QuietKernelLog heard kernel_log) (slept : (x : Float) → Quiet heard (sleeper x))
    (IsTime : Float → Type 0) (clocked : Clocked heard python clock IsTime)
    (divided : (t : ℕ) → t ≤ max_duration_ms → (x : Float) × (python.true_div t 1000 ≡ ok x)) where
  abbrev env : Environment (Opened K)
  env = linux_environment os unfinished application kernel_log clock sleeper grace_ms

  clock-Delivers :
      {A : Type 0} (c : Bool) (f : Float → Action (Opened K) A) (news : List Message)
      → ((x : Float) → IsTime x → Delivers n heard c (f x) news)
      → Delivers n heard c (clock >>= f) news
  clock-Delivers c f news d = record {
    delivers = λ s fd k.
        let (x, s1, e, time, fd1, h) = clocked.tells s in
        let (a, s2, e1, fd2, h1) = (d x time).delivers s1 (fd1 ∙ fd) (ap (connected true) h ∙ k) in
        (a, s2, >>=-ok clock f s e ∙ e1, fd2, h1 ∙ ap (λ l. l ++ news) h);
  }

  clock-quiet : (c : Bool) → Delivers n heard c clock []
  clock-quiet c = record {
    delivers = λ s fd _.
        let (x, s1, e, _, fd1, h) = clocked.tells s in
        (x, s1, e, fd1 ∙ fd, h ∙ sym (append_nil (heard s.kernel)));
  }

  finish_application-Delivers :
      (c : Bool) (remaining_ms : ℤ)
      → Delivers n heard c (finish_application python env remaining_ms) []
  unfolding finish_application
  finish_application-Delivers c remaining_ms = by_time (leb_ℤ remaining_ms (pos 0))
    where
      by_time :
          (b : Bool)
          → Delivers n heard c
              (if b
                then (application.terminate grace_ms >>= λ result.
                    pure (record result { timed_out = true }))
                else application.collect_with_timeout remaining_ms grace_ms)
              []
      by_time true =
          bind-Delivers n heard c _ _ [] []
            (Quiet-Delivers heard _ n c (beside.terminates grace_ms))
            λ result. pure-Delivers n heard c _
      by_time false = Quiet-Delivers heard _ n c (beside.collects remaining_ms grace_ms)

  -- The body of the `try` tells the device what its scheduler tells it.
  run_started-Delivers :
      (c : Bool) (d : ScenarioDefinition) (started : Float) (news : List Message)
      → IsTime started
      → Delivers n heard c
          (run_schedule python (linux_backend os unfinished) clock sleeper d.events)
          news
      → Delivers n heard c (run_started python env d started) news
  unfolding run_started
  run_started-Delivers c d started news time scheduled =
      subst (Delivers n heard c _) (append_nil news) (
        bind-Delivers n heard c _ _ news [] scheduled λ dispatches.
          clock-Delivers _ _ [] λ now time'.
            let (z, whole) = clocked.elapsed now started time' time in
            known-Delivers n heard _ _ z _ [] whole (
              bind-Delivers n heard _ _ _ [] [] (finish_application-Delivers _ _)
                λ result. pure-Delivers n heard _ _))

  add_kernel_log-Quiet :
      (snapshot : Option KernelLogSnapshot) (result : ScenarioRunResult)
      → Quiet heard (add_kernel_log python env snapshot result)
  add_kernel_log-Quiet none result = record { quiet = λ s. (result, s, refl, refl, refl) }
  add_kernel_log-Quiet (some before) result = record {
    quiet = λ s.
        let (_, s1, e, fd, h) = (logged.observes before).quiet s in (_, s1, >>=-ok _ _ s e, fd, h);
  }

  first_snapshot-Quiet : (wanted : Bool) → Quiet heard (first_snapshot python env wanted)
  first_snapshot-Quiet false = record { quiet = λ s. (none, s, refl, refl, refl) }
  first_snapshot-Quiet true = record {
    quiet = λ s. let (_, s1, e, fd, h) = logged.snapshots.quiet s in (_, s1, >>=-ok _ _ s e, fd, h);
  }

  -- The run returned, the device is closed and heard the messages and the reset.
  abbrev pub Finished : Action (Opened K) ScenarioRunResult → List Message → Opened K → Type ℓ
  Finished m news s =
      (result : ScenarioRunResult) × (s' : Opened K) × (m s ≡ (ok result, s'))
      × (s'.fd ≡ none)
      × (heard s'.kernel ≡ heard s.kernel ++ (news ++ (reset_device ∷ [])))

  run_opened-Finished :
      (d : ScenarioDefinition) (cwd : Option String) (snapshot : Option KernelLogSnapshot)
      (news : List Message) (c : Bool)
      → Delivers n heard c
          (run_schedule python (linux_backend os unfinished) clock sleeper d.events)
          news
      → (s : Opened K) → s.fd ≡ some n
      → connected true (heard s.kernel) ≡ c
      → Finished (run_opened python env d cwd snapshot) news s
  unfolding run_opened
  run_opened-Finished d cwd snapshot news c scheduled s fd k =
      let (started, s1, e1, time, fd1, h1) = clocked.tells s in
      let k1 = ap (connected true) h1 ∙ k in
      let (_, s2, e2, fd2, h2) =
        (try_except-Delivers n heard c _ _ []
            (Quiet-Delivers heard _ n c (beside.starts d.command cwd))).delivers
          s1 (fd1 ∙ fd) k1 in
      let (result, s3, e3, fd3, h3) =
        (try_except-Delivers n heard c _ _ news
            (run_started-Delivers c d started news time scheduled)).delivers
          s2 fd2 (connected-heard c (heard s1.kernel) [] (heard s2.kernel) k1 h2) in
      let (s4, e4, fd4, h4) = cleanup_backend-closed os n heard device unfinished s3 files fd3 in
      let (result', s5, e5, fd5, h5) = (add_kernel_log-Quiet snapshot result).quiet s4 in
      (
        result',
        s5,
        >>=-ok _ _ s e1 ∙ >>=-ok _ _ s1 e2 ∙ >>=-ok _ _ s2 e3 ∙ >>=-ok _ _ s3 e4 ∙ e5,
        fd5 ∙ fd4,
        h5
            ∙ h4
            ∙ ap (λ l. l ++ (reset_device ∷ []))
                (h3 ∙ ap (λ l. l ++ news) (h2 ∙ append_nil (heard s1.kernel) ∙ h1))
            ∙ append_assoc (heard s.kernel) news (reset_device ∷ []),
      )

  open_device-Opened :
      (path : String) (s : Opened K)
      → (s' : Opened K) × (open_device os path s ≡ (ok tt, s'))
        × (s'.fd ≡ some n)
        × (heard s'.kernel ≡ heard s.kernel)
  unfolding open_device
  open_device-Opened path s =
      let (k, e, h) = files.opens path s.kernel in
      (record { kernel = k; fd = some n }, rw files.supported (rw e refl), refl, h)

  -- A scenario with valid events that the device accepts in turn is run to its end: `run` returns, the
  -- device is closed, and from its opening on it has heard for each event of the scenario, in their
  -- order, exactly what the event says, and the reset behind the last. The device accepts a scenario in
  -- which every delay is from 1 to 10000 ms and nothing is written between a disconnect and the next
  -- clearing, reset or other fault; it has to be connected when it is opened. It has to open, to answer
  -- every such request, to take at least one byte of each write that is not empty and to close; the
  -- clock, the sleep, the application and the kernel log have to return and to leave the device alone;
  -- and the times have to be floats that can be subtracted and divided as the code does.
  pub run-Finished :
      (d : ScenarioDefinition) (es : List Event) (cwd : Option String) (s : Opened K)
      → d.timeout_ms ≤ max_duration_ms
      → d.events ≡ map encode_event es
      → All (IsValidEvent d.timeout_ms) es
      → Deliverable true es
      → IsConnected os n heard s.kernel
      → Finished (run python env d cwd) (all_messages es) s
  unfolding run
  run-Finished d es cwd s in_time encoded vs fs k =
      let scheduled =
        run_schedule-Delivers os n heard device unfinished python clock sleeper clock-quiet
          (λ c x. Quiet-Delivers heard _ n c (slept x)) divided true d es in_time encoded vs fs in
      let (snapshot, s1, e1, _, h1) =
        (first_snapshot-Quiet (requires_kernel_log d.assertions)).quiet s in
      let (s2, e2, fd2, h2) = open_device-Opened d.device_path s1 in
      let (result, s3, e3, fd3, h3) =
        run_opened-Finished d cwd snapshot (all_messages es) true scheduled s2 fd2
          (ap (connected true) (h2 ∙ h1) ∙ k) in
      (
        result,
        s3,
        >>=-ok _ _ s e1 ∙ >>=-ok _ _ s1 e2 ∙ e3,
        fd3,
        h3 ∙ ap (λ l. l ++ (all_messages es ++ (reset_device ∷ []))) (h2 ∙ h1),
      )
