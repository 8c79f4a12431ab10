-- ===== src/Runner/Scheduler/Delivered.antt =====
-- The scheduler of runner.py over `LinuxDeviceBackend`: what the device hears of a scenario.
use vdev_lab.Base.{
  ℕ, suc, ◌≤◌, ◌≡◌, refl, sym, ap, ◌∙◌, subst, Bool, true, List, [], ◌∷◌, ◌++◌, map, All, All-map,
  append_nil, append_assoc, Bool-cases, inl, inr, arith,
}
use vdev_lab.Base.Value.{Float, get}
use vdev_lab.Base.Result.{Result, ok, Exception}
use vdev_lab.Base.Action.{Action, pure, lift, try_except, ◌>>=◌, >>=-ok, try_except-ok}
use vdev_lab.Base.Interpreter.{Interpreter}
use vdev_lab.Scenario.{ScenarioDefinition, max_duration_ms}
use vdev_lab.Scenario.Events.Shape.{Event, encode_event, IsValidAction, IsValidEvent}
use vdev_lab.Runner.Decode.{scheduled_ms}
use vdev_lab.Runner.Device.{SystemCalls, Opened}
use vdev_lab.Runner.Device.Messages.{
  Message, messages, connected, connected_by, Fits, Listens, linux_backend, Delivers,
  perform-Delivers,
}
use vdev_lab.Runner.Scheduler.{wait, dispatch, run_event, run_events, run_schedule}
use vdev_lab.Runner.Scheduler.Encoded.{dispatch-encode_event, get-at_ms}

connected-append :
    (c : Bool) (ms ns : List Message) → connected c (ms ++ ns) ≡ connected (connected c ms) ns
connected-append c [] ns = refl
connected-append c (m ∷ ms) ns = connected-append (connected_by c m) ms ns

-- Whether the device is connected behind what it has just heard.
pub connected-heard :
    (c : Bool) (past news heard : List Message)
    → connected true past ≡ c
    → heard ≡ past ++ news
    → connected true heard ≡ connected c news
connected-heard c past news heard k h =
    ap (connected true) h ∙ connected-append true past news ∙ ap (λ b. connected b news) k

module _ {ℓ} {K : Type ℓ} (n : ℕ) (heard : K → List Message) where
  module _ {κ} {A : Type κ} where
    pub pure-Delivers : (c : Bool) (a : A) → Delivers n heard c (pure a) []
    pure-Delivers c a = record { delivers = λ s fd k. (a, s, refl, fd, sym (append_nil _)) }

    pub try_except-Delivers :
        (c : Bool) (m : Action (Opened K) A) (handler : Exception → Action (Opened K) A)
        (news : List Message)
        → Delivers n heard c m news
        → Delivers n heard c (try_except m handler) news
    try_except-Delivers c m handler news d = record {
      delivers = λ s fd k.
          let (a, s', e, fd', h) = d.delivers s fd k in
          (a, s', try_except-ok m handler s e, fd', h);
    }

  -- A block tells the device what its parts tell it.
  pub bind-Delivers {κ μ} :
      {A : Type κ} {B : Type μ} (c : Bool) (m : Action (Opened K) A) (f : A → Action (Opened K) B)
      (news later : List Message)
      → Delivers n heard c m news
      → ((a : A) → Delivers n heard (connected c news) (f a) later)
      → Delivers n heard c (m >>= f) (news ++ later)
  bind-Delivers c m f news later d g = record {
    delivers = λ s fd k.
        let (a, s1, e, fd1, h) = d.delivers s fd k in
        let (b, s2, e1, fd2, h1) =
          (g a).delivers s1 fd1 (connected-heard c (heard s.kernel) news (heard s1.kernel) k h) in
        (
          b,
          s2,
          >>=-ok m f s e ∙ e1,
          fd2,
          h1 ∙ ap (λ l. l ++ later) h ∙ append_assoc (heard s.kernel) news later,
        );
  }

  -- A block that begins with what is known to return.
  pub known-Delivers {κ μ} :
      {A : Type κ} {B : Type μ} (c : Bool) (r : Result A) (a : A) (f : A → Action (Opened K) B)
      (news : List Message)
      → r ≡ ok a
      → Delivers n heard c (f a) news
      → Delivers n heard c (lift r >>= f) news
  known-Delivers c r a f news e d = record {
    delivers = λ s fd k.
        let (b, s', e', fd', h) = d.delivers s fd k in
        (b, s', >>=-ok (lift r) f s (ap (λ x. (x, s)) e) ∙ e', fd', h);
  }

-- What the device is told for the events, in their order.
abbrev pub all_messages : List Event → List Message
all_messages [] = []
all_messages (e ∷ es) = messages e.action ++ all_messages es

-- The device accepts each event in turn.
abbrev pub Deliverable : Bool → List Event → Type 0
Deliverable c [] = Unit
Deliverable c (e ∷ es) = Fits c e.action × Deliverable (connected c (messages e.action)) es

module _ {ℓ} {K : Type ℓ} (os : SystemCalls K) (n : ℕ) (heard : K → List Message)
    (device : Listens os n heard) (unfinished : Exception) (python : Interpreter)
    (clock : Action (Opened K) Float) (sleeper : Float → Action (Opened K) (Unit {0}))
    (clocked : (c : Bool) → Delivers n heard c clock [])
    (slept : (c : Bool) (x : Float) → Delivers n heard c (sleeper x) [])
    (divided : (t : ℕ) → t ≤ max_duration_ms → (x : Float) × (python.true_div t 1000 ≡ ok x)) where
  waited :
      (c : Bool) (x : Float)
      → Delivers n heard c (wait python (linux_backend os unfinished) clock sleeper x) []
  waited c x = elim (Bool-cases (python.is_positive x)) [
    | inl p ↦ rw p (slept c x)
    | inr q ↦ rw q (pure-Delivers n heard c tt)
  ]

  dispatch-Delivers :
      (c : Bool) (e : Event)
      → IsValidAction e.action
      → Fits c e.action
      → Delivers n heard c
          (dispatch python (linux_backend os unfinished) (encode_event e))
          (messages e.action)
  dispatch-Delivers c e v f = record {
    delivers = λ s fd k.
        let (a, s', d, fd', h) =
          (perform-Delivers os n heard device unfinished c e.action v f).delivers s fd k in
        (a, s', dispatch-encode_event python (linux_backend os unfinished) e s ∙ d, fd', h);
  }

  scheduled_ms-encode_event :
      (e : Event) (i : ℕ) → scheduled_ms (get (encode_event e) "at_ms") i ≡ ok e.at_ms
  unfolding scheduled_ms
  scheduled_ms-encode_event e i = rw (get-at_ms e.at_ms e.action) refl

  run_event-Delivers :
      (c : Bool) (origin : Float) (i : ℕ) (e : Event)
      → e.at_ms ≤ max_duration_ms
      → IsValidAction e.action
      → Fits c e.action
      → Delivers n heard c
          (run_event python (linux_backend os unfinished) clock sleeper origin i (encode_event e))
          (messages e.action)
  unfolding run_event
  run_event-Delivers c origin i e at v f =
      let (offset, shown) = divided e.at_ms at in
      known-Delivers n heard c _ e.at_ms _ _ (scheduled_ms-encode_event e i) (
        known-Delivers n heard c _ offset _ _ shown (
          bind-Delivers n heard c _ _ [] _ (clocked c) λ now.
            bind-Delivers n heard c _ _ [] _ (waited c _) λ _.
              bind-Delivers n heard c _ _ [] _ (clocked c) λ started.
                subst (Delivers n heard c _) (append_nil (messages e.action)) (
                  bind-Delivers n heard c _ _ (messages e.action) []
                    (try_except-Delivers n heard c _ _ _ (dispatch-Delivers c e v f))
                    λ _.
                      bind-Delivers n heard _ _ _ [] [] (clocked _)
                        λ finished. pure-Delivers n heard _ _)))

  run_events-Delivers :
      (origin : Float) (i : ℕ) (es : List Event) (c : Bool)
      → All (λ e. (e.at_ms ≤ max_duration_ms) × IsValidAction e.action) es
      → Deliverable c es
      → Delivers n heard c
          (run_events python
            (linux_backend os unfinished)
            clock
            sleeper
            origin
            i
            (map encode_event es))
          (all_messages es)
  unfolding run_events
  run_events-Delivers origin i [] c _ _ = pure-Delivers n heard c []
  run_events-Delivers origin i (e ∷ es) c ((at, v), vs) (f, fs) =
      bind-Delivers n heard c _ _ (messages e.action) _ (run_event-Delivers c origin i e at v f)
        λ r. subst (Delivers n heard _ _) (append_nil (all_messages es)) (
          bind-Delivers n heard _ _ _ (all_messages es) []
            (run_events-Delivers origin (suc i) es _ vs fs) λ rs. pure-Delivers n heard _ _)

  -- The scheduler runs all events of a scenario with valid events that the device accepts in turn, and
  -- the device hears for each of them, in their order, exactly what it says: the request of a reset or
  -- a clearing, the request of a fault with its number and its three fields, or the bytes of the text.
  -- The device has to answer as `Listens` says, and the clock and the sleep have to return and to leave
  -- the device alone.
  pub run_schedule-Delivers :
      (c : Bool) (d : ScenarioDefinition) (es : List Event)
      → d.timeout_ms ≤ max_duration_ms
      → d.events ≡ map encode_event es
      → All (IsValidEvent d.timeout_ms) es
      → Deliverable c es
      → Delivers n heard c
          (run_schedule python (linux_backend os unfinished) clock sleeper d.events)
          (all_messages es)
  unfolding run_schedule
  run_schedule-Delivers c d es in_time e vs fs =
      subst
        (λ ms.
          Delivers n heard c (run_schedule python (linux_backend os unfinished) clock sleeper ms)
            (all_messages es))
        (sym e)
        (bind-Delivers n heard c _ _ [] _ (clocked c) λ origin.
          run_events-Delivers origin 0 es c
            (All-map (IsValidEvent d.timeout_ms) _ es (λ e (at, v). (omega arith, v)) vs) fs)
