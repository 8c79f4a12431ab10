-- ===== src/JUnit/Failed.antt =====
-- The test case that junit.py makes of report.py's reports, by the status.
use vdev_lab.Base.{
  ◌≤◌, ◌≡◌, ◌≢◌, refl, sym, ap, ◌∙◌, subst, ◌↔◌, ◌<>◌, Option, none, decimal, Bool-cases, inl, inr,
  String, Bool, true, false, List, [], ◌∷◌, map, some, All, All-append, length, arith,
}
use vdev_lab.Base.Value.{
  Value, null, float, str, list, dict, other, entries, bool, int, Mapping, lookup, get, is_str,
}
use vdev_lab.Base.Result.{
  Result, ok, ok-injective, >>=-eq-ok, Ensures, Ensures-ok, Ensures-if, Ensures-bind,
}
use vdev_lab.Base.Interpreter.{Interpreter}
use vdev_lab.Scenario.{ScenarioDefinition}
use vdev_lab.Analysis.{ApplicationLogEvent, RecoveryMetrics}
use vdev_lab.Runner.{ScenarioRunResult}
use vdev_lab.Runner.Run.{requires_kernel_log}
use vdev_lab.Report.{dict_list, pass, fail, error, ScenarioReport}
use vdev_lab.Report.Documents.{event_count_document, stdout_document}
use vdev_lab.Report.Build.{
  stdout_documents, disconnect_documents, kernel_warnings_documents, other_documents,
  latency_documents, collect_documents, assertion_documents, assertions_passed, status_of,
  analysed_report, build_scenario_report,
}
use vdev_lab.Report.Build.Status.{
  Analysed, status_of-pass, build_scenario_report-Analysed, pass_ne_error,
}
use vdev_lab.JUnit.{
  Element, element, Elements, nil, cons, failed_assertions, is_false, case_children,
  failure_element, suite_element,
}

-- A document whose key `passed` holds a truth value.
abbrev HasVerdict : Mapping → Type 0
HasVerdict document = (b : Bool) × (lookup "passed" document ≡ some (bool b))

map-HasVerdict {ℓ} :
    {A : Type ℓ} (document_of : A → Mapping) (xs : List A)
    → ((x : A) → HasVerdict (document_of x))
    → All HasVerdict (map document_of xs)
map-HasVerdict document_of [] h = tt
map-HasVerdict document_of (x ∷ xs) h = (h x, map-HasVerdict document_of xs h)

collect_documents-HasVerdict :
    (body : Mapping → Result (List Mapping)) (definitions : List Mapping)
    → ((definition : Mapping) → Ensures (All HasVerdict) (body definition))
    → Ensures (All HasVerdict) (collect_documents body definitions)
unfolding collect_documents
collect_documents-HasVerdict body [] h = Ensures-ok _ tt
collect_documents-HasVerdict body (definition ∷ definitions) h = Ensures-bind _ _ λ documents e.
    Ensures-bind _ _ λ rest e'. Ensures-ok _ (
      All-append HasVerdict documents rest ((h definition).at documents e)
        ((collect_documents-HasVerdict body definitions h).at rest e'))

other_documents-HasVerdict :
    (result : ScenarioRunResult) (events : List ApplicationLogEvent) (definition : Mapping)
    → Ensures (All HasVerdict) (other_documents result events definition)
unfolding other_documents stdout_documents disconnect_documents kernel_warnings_documents
other_documents-HasVerdict result events definition =
    Ensures-if (is "stdout") (stdout_documents result definition) _ (λ _. of_stdout)
      λ _.
        Ensures-if (is "disconnect") (disconnect_documents events definition) _ (λ _. of_disconnect)
          λ _.
            Ensures-if (is "kernel_warnings") (kernel_warnings_documents result definition) (ok [])
              (λ _. of_warnings) λ _. Ensures-ok [] tt
  where
    is : String → Bool
    is kind = is_str kind (get definition "type")

    of_stdout : Ensures (All HasVerdict) (stdout_documents result definition)
    of_stdout = Ensures-bind _ _ λ assertions _.
        Ensures-ok _ (map-HasVerdict stdout_document assertions λ a. (a.passed, refl))

    of_disconnect : Ensures (All HasVerdict) (disconnect_documents events definition)
    of_disconnect = Ensures-bind _ _ λ _ _. Ensures-bind _ _ λ a _. Ensures-ok _ ((_, refl), tt)

    of_warnings : Ensures (All HasVerdict) (kernel_warnings_documents result definition)
    of_warnings = Ensures-bind _ _ λ _ _. Ensures-bind _ _ λ a _. Ensures-ok _ ((_, refl), tt)

latency_documents-HasVerdict :
    (metrics : RecoveryMetrics) (v : Value) → Ensures (All HasVerdict) (latency_documents metrics v)
unfolding latency_documents
latency_documents-HasVerdict metrics (int maximum_ms) =
    Ensures-bind _ _ λ a _. Ensures-ok _ ((_, refl), tt)
latency_documents-HasVerdict metrics _ = Ensures-ok _ tt

assertion_documents-HasVerdict :
    (scenario : ScenarioDefinition) (result : ScenarioRunResult) (events : List ApplicationLogEvent)
    (metrics : RecoveryMetrics)
    → Ensures (All HasVerdict) (assertion_documents scenario result events metrics)
unfolding assertion_documents
assertion_documents-HasVerdict scenario result events metrics = Ensures-bind _ _ λ counts _.
    Ensures-bind _ _ λ others e. Ensures-bind _ _ λ latencies e'. Ensures-ok _ (
      All-append HasVerdict _ _ (map-HasVerdict event_count_document counts λ a. (a.passed, refl)) (
        All-append HasVerdict others _
          ((collect_documents-HasVerdict _ scenario.assertions
              (other_documents-HasVerdict result events)).at
            others e)
          (
            (_, refl),
            (collect_documents-HasVerdict _ scenario.assertions
                  (λ definition. latency_documents-HasVerdict metrics _)).at
                latencies e',
          )))

-- Where all passed nothing is picked, and otherwise something is.
abbrev Picked : List Mapping → Bool → Type 0
Picked documents true = failed_assertions documents ≡ []
Picked documents false = 1 ≤ length (failed_assertions documents)

Picked-same :
    (document : Mapping) (documents : List Mapping) (b : Bool)
    → failed_assertions (document ∷ documents) ≡ failed_assertions documents
    → Picked documents b
    → Picked (document ∷ documents) b
Picked-same document documents true e h = e ∙ h
Picked-same document documents false e h = omega (arith, ap length e, h)

Picked-cons :
    (document : Mapping) (documents : List Mapping)
    → HasVerdict document
    → Picked documents (assertions_passed documents)
    → Picked (document ∷ documents) (assertions_passed (document ∷ documents))
unfolding assertions_passed failed_assertions
Picked-cons document documents (true, e) h =
    let same : failed_assertions (document ∷ documents) ≡ failed_assertions documents = rw e refl in
    rw e (Picked-same document documents _ same h)
Picked-cons document documents (false, e) h =
    let picked : failed_assertions (document ∷ documents) ≡ document ∷ failed_assertions documents =
      rw e refl in
    rw e (omega (arith, ap length picked))

assertions_passed-Picked :
    (documents : List Mapping)
    → All HasVerdict documents
    → Picked documents (assertions_passed documents)
unfolding assertions_passed failed_assertions
assertions_passed-Picked [] _ = refl
assertions_passed-Picked (document ∷ documents) (h, hs) =
    Picked-cons document documents h (assertions_passed-Picked documents hs)

status_of-fail :
    (required : Bool) (result : ScenarioRunResult) (passed : Bool)
    → (status_of required result passed).0 ≡ fail
    → passed ≡ false
unfolding status_of
status_of-fail required result passed h = ground arith

fail_ne_error : fail ≢ error
fail_ne_error h = cc h

-- `Selects P xs ys`: `ys` are all items of `xs` with the property, in order.
pub data Selects {A : Type 0} (P : A → Type 0) : List A → List A → Type 0 where
  nothing : Selects P [] []
  selected : {x : A} {xs ys : List A} → P x → Selects P xs ys → Selects P (x ∷ xs) (x ∷ ys)
  passed_over : {x : A} {xs ys : List A} → (P x → ⊥) → Selects P xs ys → Selects P (x ∷ xs) ys

abbrev pub HasFailed : Mapping → Type 0
HasFailed assertion = lookup "passed" assertion ≡ some (bool false)

is_false-HasFailed : (v : Option Value) → (is_false v ≡ true) ↔ (v ≡ some (bool false))
is_false-HasFailed none = (λ h. let e : false ≡ true = h in cc, λ e. cc)
is_false-HasFailed (some (bool true)) = (λ h. let e : false ≡ true = h in cc, λ e. cc)
is_false-HasFailed (some (bool false)) = (λ _. refl, λ _. refl)
is_false-HasFailed (some null) = (λ h. let e : false ≡ true = h in cc, λ e. cc)
is_false-HasFailed (some (int x)) = (λ h. let e : false ≡ true = h in cc, λ e. cc)
is_false-HasFailed (some (float x)) = (λ h. let e : false ≡ true = h in cc, λ e. cc)
is_false-HasFailed (some (str x)) = (λ h. let e : false ≡ true = h in cc, λ e. cc)
is_false-HasFailed (some (list x)) = (λ h. let e : false ≡ true = h in cc, λ e. cc)
is_false-HasFailed (some (dict x)) = (λ h. let e : false ≡ true = h in cc, λ e. cc)
is_false-HasFailed (some (other x)) = (λ h. let e : false ≡ true = h in cc, λ e. cc)

failed_assertions-Selects :
    (assertions : List Mapping) → Selects HasFailed assertions (failed_assertions assertions)
unfolding failed_assertions
failed_assertions-Selects [] = nothing
failed_assertions-Selects (a ∷ as') = elim (Bool-cases (is_false (lookup "passed" a))) [
  | inl h ↦
      rw h (selected ((is_false-HasFailed (lookup "passed" a)).0 h) (failed_assertions-Selects as'))
  | inr h ↦ rw h (
      passed_over
        (λ e. let t : false ≡ true = sym h ∙ (is_false-HasFailed (lookup "passed" a)).1 e in cc)
        (failed_assertions-Selects as'))
]

-- The suite has one test case, which holds the elements.
abbrev pub HasCase : Element → Elements → Type 0
HasCase suite children =
    (attributes : List (String × String)) × (properties : Element) × (case_attributes : List
      (String × String))
    × (suite
        ≡ element "testsuite" attributes none
            (cons properties (cons (element "testcase" case_attributes none children) nil)))

-- The `failure` element that lists the assertions.
abbrev pub listing : (Value → String) → List Mapping → Element
listing json_text failed =
    element "failure"
      (("message", decimal (length failed) <> " assertion(s) failed")
        ∷ ("type", "VDevLabAssertionFailure")
        ∷ [])
      (some (json_text (dict (entries (("failed_assertions", dict_list failed) ∷ []))))) nil

module _ (python : Interpreter) (json_loads : String → Result Value) (scenario : ScenarioDefinition)
    (result : ScenarioRunResult) where
  Analysed-Picked :
      {report : ScenarioReport}
      → Analysed python json_loads scenario result report
      → (b : Bool) × (report.status
          ≡ (status_of (requires_kernel_log scenario.assertions) result b).0)
        × Picked report.assertions b
  unfolding analysed_report
  Analysed-Picked {report} (dispatches, events, metrics, _, h) =
      let (documents, e, h1) = >>=-eq-ok _ _ h in
      let (fault, _, h2) = >>=-eq-ok _ _ h1 in
      let (timeline, _, h3) = >>=-eq-ok _ _ h2 in
      let picked =
        assertions_passed-Picked documents
          ((assertion_documents-HasVerdict scenario result events metrics).at documents e) in
      (
        assertions_passed documents,
        sym (ap (λ r. r.status) (ok-injective h3)),
        subst (λ ds. Picked ds (assertions_passed documents))
            (ap (λ r. r.assertions) (ok-injective h3)) picked,
      )

  failed_assertions-Picked :
      {report : ScenarioReport}
      → build_scenario_report python json_loads scenario result ≡ ok report
      → (report.status ≡ fail → 1 ≤ length (failed_assertions report.assertions))
        × (report.status ≡ pass → failed_assertions report.assertions ≡ [])
  failed_assertions-Picked {report} h = (when_failed, when_passed)
    where
      when_failed : report.status ≡ fail → 1 ≤ length (failed_assertions report.assertions)
      when_failed s =
          let analysed =
            build_scenario_report-Analysed python json_loads scenario result h
              (λ e. fail_ne_error (sym s ∙ e)) in
          let (b, e, p) = Analysed-Picked analysed in
          subst (Picked report.assertions) (status_of-fail _ result b (sym e ∙ s)) p

      when_passed : report.status ≡ pass → failed_assertions report.assertions ≡ []
      when_passed s =
          let analysed =
            build_scenario_report-Analysed python json_loads scenario result h
              (λ e. pass_ne_error (sym s ∙ e)) in
          let (b, e, p) = Analysed-Picked analysed in
          subst (Picked report.assertions) (status_of-pass _ result b (sym e ∙ s)).0 p

  suite_element-HasCase :
      (json_text : Value → String) (report : ScenarioReport)
      → HasCase
          (suite_element python json_text report)
          (case_children python json_text report.status report)
  unfolding suite_element
  suite_element-HasCase json_text report = (_, _, _, refl)

  module _ (json_text : Value → String) where
    -- The JUnit suite of a built report has one test case. For the status `FAIL` it holds one `failure`
    -- element, whose text is the JSON of the report's assertions that have `passed` false, all of them
    -- and in order, and whose message gives their number, which is at least 1. For the status `PASS` it
    -- is empty.
    pub build_scenario_report-ListsFailed :
        {report : ScenarioReport}
        → build_scenario_report python json_loads scenario result ≡ ok report
        → (report.status ≡ fail
            → (failed : List Mapping) × Selects HasFailed report.assertions failed
              × (1 ≤ length failed)
              × HasCase
                  (suite_element python json_text report)
                  (cons (listing json_text failed) nil))
          × (report.status ≡ pass → HasCase (suite_element python json_text report) nil)
    unfolding case_children failure_element
    build_scenario_report-ListsFailed {report} h = (
      λ s. (
        failed_assertions report.assertions,
        failed_assertions-Selects report.assertions,
        (failed_assertions-Picked h).0 s,
        subst (HasCase (suite_element python json_text report))
            (ap (λ r. case_children python json_text r report) s)
            (suite_element-HasCase json_text report),
      ),
      λ s.
          subst (HasCase (suite_element python json_text report))
            (ap (λ r. case_children python json_text r report) s)
            (suite_element-HasCase json_text report),
    )
