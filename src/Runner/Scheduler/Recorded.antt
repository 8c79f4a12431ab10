-- ===== src/Runner/Scheduler/Recorded.antt =====
-- The records that `ScenarioScheduler.run` returns, whatever its clock and its backend do.
use vdev_lab.Base.{ℕ, suc, ◌≡◌, refl, ap, subst, List, [], ◌∷◌}
use vdev_lab.Base.Value.{Float, str, Mapping, get, get_or}
use vdev_lab.Base.Result.{ok, ok-injective}
use vdev_lab.Base.Action.{Action, >>=-eq-ok}
use vdev_lab.Base.Interpreter.{Interpreter, text_of}
use vdev_lab.Runner.Records.{DispatchRecord, DeviceBackend}
use vdev_lab.Runner.Decode.{scheduled_ms}
use vdev_lab.Runner.Scheduler.{run_event, run_events, run_schedule}

module _ (python : Interpreter) where
  -- The record of the event of index `i`.
  abbrev pub IsRecord : ℕ → Mapping → DispatchRecord → Type 0
  IsRecord i event r =
      (r.index ≡ i)
      × (r.action ≡ text_of python (get_or event "action" (str "<missing>")))
      × (scheduled_ms (get event "at_ms") i ≡ ok r.scheduled_ms)

  -- One record for each event, in order, with its index, from index `i` on.
  abbrev pub AreRecords : ℕ → List Mapping → List DispatchRecord → Type 0
  AreRecords i [] [] = Unit
  AreRecords i [] (r ∷ rs) = ⊥
  AreRecords i (event ∷ events) [] = ⊥
  AreRecords i (event ∷ events) (r ∷ rs) = IsRecord i event r × AreRecords (suc i) events rs

  module _ {ℓ} {W : Type ℓ} (backend : DeviceBackend W) (clock : Action W Float)
      (sleeper : Float → Action W (Unit {0})) where
    run_event-IsRecord :
        (origin : Float) (i : ℕ) (event : Mapping) (w : W) {r : DispatchRecord} {end : W}
        → run_event python backend clock sleeper origin i event w ≡ (ok r, end)
        → IsRecord i event r
    unfolding run_event
    run_event-IsRecord origin i event w h =
        let (scheduled, w1, e, h1) = >>=-eq-ok _ _ w h in
        let (offset, w2, _, h2) = >>=-eq-ok _ _ w1 h1 in
        let (now, w3, _, h3) = >>=-eq-ok _ _ w2 h2 in
        let (_, w4, _, h4) = >>=-eq-ok _ _ w3 h3 in
        let (started, w5, _, h5) = >>=-eq-ok _ _ w4 h4 in
        let (_, w6, _, h6) = >>=-eq-ok _ _ w5 h5 in
        let (finished, w7, _, h7) = >>=-eq-ok _ _ w6 h6 in
        subst (IsRecord i event) (ok-injective (ap (λ t. t.0) h7)) (refl, refl, ap (λ t. t.0) e)

    run_events-AreRecords :
        (origin : Float) (i : ℕ) (events : List Mapping) (w : W) {rs : List DispatchRecord}
        {end : W}
        → run_events python backend clock sleeper origin i events w ≡ (ok rs, end)
        → AreRecords i events rs
    unfolding run_events
    run_events-AreRecords origin i [] w h =
        subst (AreRecords i []) (ok-injective (ap (λ t. t.0) h)) tt
    run_events-AreRecords origin i (event ∷ events) w h =
        let (r, w1, e, h1) = >>=-eq-ok _ _ w h in
        let (rs, w2, e1, h2) = >>=-eq-ok _ _ w1 h1 in
        subst (AreRecords i (event ∷ events)) (ok-injective (ap (λ t. t.0) h2))
          (run_event-IsRecord origin i event w e, run_events-AreRecords origin (suc i) events w1 e1)

    pub run_schedule-AreRecords :
        (events : List Mapping) (w : W) {rs : List DispatchRecord} {end : W}
        → run_schedule python backend clock sleeper events w ≡ (ok rs, end)
        → AreRecords 0 events rs
    unfolding run_schedule
    run_schedule-AreRecords events w h =
        let (origin, w1, _, h1) = >>=-eq-ok _ _ w h in run_events-AreRecords origin 0 events w1 h1
