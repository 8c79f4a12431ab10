-- ===== src/Report/Build/Total.antt =====
-- `build_scenario_report` of report.py returns for the runs that the runner returns.
use vdev_lab.Base.{
  ℕ, ◌≡◌, refl, sym, ap, ◌∙◌, subst, Bool, true, false, String, List, [], ◌∷◌, ◌++◌, map, Option,
  none, some, All, All-append, length, get_elem?, arith, append_assoc, length-append,
}
use vdev_lab.Base.Int.{ℤ, pos}
use vdev_lab.Base.Value.{Value, int, Mapping, get, is_str}
use vdev_lab.Base.Result.{Result, ok, err, foreign, ok-injective, >>=-eq-ok, ◌>>=◌}
use vdev_lab.Base.Interpreter.{Interpreter}
use vdev_lab.Scenario.{ScenarioDefinition}
use vdev_lab.Scenario.Fields.{index}
use vdev_lab.Scenario.Assertions.Shape.{Assertion, encode_assertion, IsValidAssertion}
use vdev_lab.Analysis.{ApplicationLogEvent, RecoveryMetrics}
use vdev_lab.Runner.{DispatchRecord, ScenarioRunResult}
use vdev_lab.Runner.Scheduler.Recorded.{AreRecords}
use vdev_lab.Report.Timeline.{
  event_at, dispatch_item, dispatch_timeline, application_timeline, sort_key, keyed,
  sorted_timeline, fault_time, first_fault_timestamp,
}
use vdev_lab.Report.Build.{
  analyse_log, assertion_documents, report_of_analysis, analysed_report, build_scenario_report,
}
use vdev_lab.Report.Build.Verdict.{assertion_documents-run_holds}

abbrev pub Gives : {A : Type 0} → Result A → Type 0
Gives {A} r = (a : A) × (r ≡ ok a)

Gives-bind :
    {A : Type 0} {B : Type 0} (m : Result A) (f : A → Result B)
    → Gives m
    → ((a : A) → Gives (f a))
    → Gives (m >>= f)
unfolding ◌>>=◌
Gives-bind m f (a, e) g = let (b, e') = g a in (b, ap (λ r. r >>= f) e ∙ e')

Gives-at :
    {A : Type 0} {B : Type 0} (m : Result A) (f : A → Result B) {a : A}
    → m ≡ ok a
    → Gives (f a)
    → Gives (m >>= f)
unfolding ◌>>=◌
Gives-at m f e (b, e') = (b, ap (λ r. r >>= f) e ∙ e')

get_elem?-append :
    (front : List Mapping) (e : Mapping) (rest : List Mapping)
    → get_elem? (front ++ e ∷ rest) (length front) ≡ some e
get_elem?-append [] e rest = refl
get_elem?-append (x ∷ front) e rest = get_elem?-append front e rest

event_at-append :
    (front : List Mapping) (e : Mapping) (rest : List Mapping) (i : ℕ)
    → i ≡ length front
    → event_at (front ++ e ∷ rest) i ≡ ok e
unfolding event_at
event_at-append front e rest i h =
    ap (event_at (front ++ e ∷ rest)) h ∙ ap event_of (get_elem?-append front e rest)
  where
    event_of : Option Mapping → Result Mapping
    event_of o = elim o [
      | none ↦ err (foreign "IndexError" "tuple index out of range")
      | some event ↦ ok event
    ]

module _ (python : Interpreter) where
  -- An integer that has a float, and a record whose time is a finite float with such an integer.
  abbrev pub Converts : ℤ → Type 0
  Converts n = Gives (python.of_int n)

  abbrev pub HasClock : DispatchRecord → Type 0
  HasClock r = (n : ℤ) × (python.trunc r.monotonic_started_ms ≡ ok n) × Converts n

  abbrev HasKey : Mapping → Type 0
  HasKey item = Gives (sort_key python item)

  dispatch_item-Gives :
      (events : List Mapping) (e : Mapping) (r : DispatchRecord)
      → event_at events r.index ≡ ok e
      → HasClock r
      → Gives (dispatch_item python events r)
  unfolding dispatch_item
  dispatch_item-Gives events e r found (n, t, _) =
      Gives-bind _ _ (e, found) λ _. Gives-bind _ _ (n, t) λ _. (_, refl)

  HasKey-at :
      (item : Mapping) {n : ℤ}
      → index item "timestamp_ms" ≡ ok (int n)
      → Gives (index item "source")
      → Converts n
      → HasKey item
  unfolding sort_key
  HasKey-at item timed source c =
      Gives-at _ _ timed (Gives-bind _ _ c λ _. Gives-bind _ _ source λ _. (_, refl))

  dispatch_item-HasKey :
      (events : List Mapping) (r : DispatchRecord) {item : Mapping}
      → dispatch_item python events r ≡ ok item
      → HasClock r
      → HasKey item
  unfolding dispatch_item index
  dispatch_item-HasKey events r h (n, t, c) =
      let (definition, _, h1) = >>=-eq-ok _ _ h in
      let (time, e, h2) = >>=-eq-ok _ _ h1 in
      subst HasKey (ok-injective h2)
        (HasKey-at _ refl (_, refl) (subst Converts (ok-injective (sym t ∙ e)) c))

  dispatch_timeline-Gives :
      (front events : List Mapping) (rs : List DispatchRecord)
      → AreRecords python (length front) events rs
      → All HasClock rs
      → (items : List Mapping) × (dispatch_timeline python (front ++ events) rs ≡ ok items)
        × All HasKey items
  unfolding dispatch_timeline ◌>>=◌
  dispatch_timeline-Gives front [] [] a c = ([], refl, tt)
  dispatch_timeline-Gives front [] (r ∷ rs) a c = absurd a
  dispatch_timeline-Gives front (e ∷ events) [] a c = absurd a
  dispatch_timeline-Gives front (e ∷ events) (r ∷ rs) ((i, _, _), as') (c, cs) =
      let (item, h) =
        dispatch_item-Gives (front ++ e ∷ events) e r (event_at-append front e events r.index i)
          c in
      let k = dispatch_item-HasKey (front ++ e ∷ events) r h c in
      let moved = append_assoc front (e ∷ []) events in
      let more = length-append front (e ∷ []) in
      let (items, h', ks) =
        dispatch_timeline-Gives (front ++ e ∷ []) events rs
          (subst (λ n. AreRecords python n events rs) (omega (arith, more)) as') cs in
      (item ∷ items, rw (h, sym (ap (λ l. dispatch_timeline python l rs) moved) ∙ h') refl, (k, ks))

  first_fault_timestamp-Gives :
      (front events : List Mapping) (rs : List DispatchRecord)
      → AreRecords python (length front) events rs
      → All HasClock rs
      → Gives (first_fault_timestamp python (front ++ events) rs)
  unfolding first_fault_timestamp ◌>>=◌
  first_fault_timestamp-Gives front [] [] a c = (none, refl)
  first_fault_timestamp-Gives front [] (r ∷ rs) a c = absurd a
  first_fault_timestamp-Gives front (e ∷ events) [] a c = absurd a
  first_fault_timestamp-Gives front (e ∷ events) (r ∷ rs) ((i, _, _), as') ((n, t, _), cs) =
      let found = event_at-append front e events r.index i in
      let more = length-append front (e ∷ []) in
      let (later, h) =
        first_fault_timestamp-Gives (front ++ e ∷ []) events rs
          (subst (λ m. AreRecords python m events rs) (omega (arith, more)) as') cs in
      let rest =
        sym (ap (λ l. first_fault_timestamp python l rs) (append_assoc front (e ∷ []) events))
        ∙ h in
      rw found (of_kind (is_str "fault" (get e "action")) rest)
    where
      of_kind :
          (b : Bool) {later : Option ℤ} {rest : Result (Option ℤ)}
          → rest ≡ ok later
          → Gives (fault_time python b r.monotonic_started_ms rest)
      of_kind true h = Gives-bind (python.trunc r.monotonic_started_ms) _ (n, t) λ _. (_, refl)
      of_kind false {later} h = (later, h)

  application_timeline-HasKey :
      (events : List ApplicationLogEvent)
      → All (λ e. Converts (pos e.timestamp_ms)) events
      → All HasKey (application_timeline events)
  unfolding application_timeline index
  application_timeline-HasKey [] c = tt
  application_timeline-HasKey (e ∷ events) (c, cs) =
      (HasKey-at _ refl (_, refl) c, application_timeline-HasKey events cs)

  keyed-Gives : (items : List Mapping) → All HasKey items → Gives (keyed python items)
  unfolding keyed
  keyed-Gives [] _ = (_, refl)
  keyed-Gives (item ∷ items) (k, ks) =
      Gives-bind _ _ k λ _. Gives-bind _ _ (keyed-Gives items ks) λ _. (_, refl)

  sorted_timeline-Gives :
      (items : List Mapping) → All HasKey items → Gives (sorted_timeline python items)
  unfolding sorted_timeline
  sorted_timeline-Gives items ks = Gives-bind _ _ (keyed-Gives items ks) λ _. (_, refl)

  -- A report is built of every run that has a record for each event of the scenario, in order, whose
  -- times are finite floats, and a log that was analysed, where the assertions of the scenario are
  -- valid and the times of the timeline are small enough for a float.
  pub build_scenario_report-Gives :
      (json_loads : String → Result Value) (scenario : ScenarioDefinition)
      (result : ScenarioRunResult) (timeout_ms : ℕ) (as' : List Assertion)
      (events : List ApplicationLogEvent) (metrics : RecoveryMetrics)
      → All (IsValidAssertion timeout_ms) as'
      → scenario.assertions ≡ map encode_assertion as'
      → AreRecords python 0 scenario.events result.dispatches
      → All HasClock result.dispatches
      → analyse_log json_loads result.application.stdout ≡ ok (events, metrics)
      → All (λ e. Converts (pos e.timestamp_ms)) events
      → Gives (build_scenario_report python json_loads scenario result)
  unfolding build_scenario_report report_of_analysis analysed_report
  build_scenario_report-Gives json_loads scenario result timeout_ms as' events metrics valid encoded
        recorded clocked analysed converted =
      let (dispatches, made, ks) =
        dispatch_timeline-Gives [] scenario.events result.dispatches recorded clocked in
      let fault =
        first_fault_timestamp-Gives [] scenario.events result.dispatches recorded clocked in
      let (documents, e, _) =
        assertion_documents-run_holds scenario result events metrics as' timeout_ms valid encoded in
      let keys =
        All-append HasKey dispatches (application_timeline events) ks
          (application_timeline-HasKey events converted) in
      Gives-at _ _ made (
        subst (λ r. Gives (report_of_analysis python json_loads scenario result dispatches r))
          (sym analysed)
          (Gives-bind (assertion_documents scenario result events metrics) _ (documents, e)
            λ _.
              Gives-bind _ _ fault
                λ _. Gives-bind _ _ (sorted_timeline-Gives _ keys) λ _. (_, refl)))
