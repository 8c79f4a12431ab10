-- ===== src/Report/Build/Holds.antt =====
-- The tests that report.py computes of the assertions of a scenario, and the documents that the report makes of it.
use vdev_lab.Base.{
  ℕ, zero, suc, ◌≤◌, String, ◌==◌, ◌≡◌, refl, ◌≢◌, ap, Bool, true, false, not, ◌&&◌, List, [], ◌∷◌,
  map, Option, none, some, all, All, length, eqb, if◌then◌else◌, is_in, arith, eq_iff,
}
use vdev_lab.Base.Value.{str, Mapping, get_or, is_str}
use vdev_lab.Base.Result.{ok, ◌>>=◌}
use vdev_lab.Scenario.Assertions.Shape.{
  Assertion, event_count, stdout, disconnect, kernel_warnings, encode_assertion, IsValidAssertion,
}
use vdev_lab.Analysis.{ApplicationLogEvent, EventCountAssertion, RecoveryMetrics}
use vdev_lab.Analysis.Evaluate.{
  observed_count, maximum, at_most, disconnected, same, assertion_event, assertion_count,
  assertion_within, evaluate_event_assertion, evaluate_event_assertions,
}
use vdev_lab.Runner.{ScenarioRunResult}
use vdev_lab.Report.Documents.{event_count_document, is_zero}
use vdev_lab.Report.Build.{event_definitions, assertions_passed}

module _ (events : List ApplicationLogEvent) where
  -- The part of an assertion that is about the number of events.
  abbrev pub event_holds : Assertion → Bool
  event_holds (event_count event n within l) = eqb (observed_count events event within) n
  event_holds _ = true

abbrev pub contained_holds : String → Option String → Bool
contained_holds out none = true
contained_holds out (some s) = is_in s out

abbrev pub absent_holds : String → Option String → Bool
absent_holds out none = true
absent_holds out (some s) = not (is_in s out)

module _ (result : ScenarioRunResult) (events : List ApplicationLogEvent) where
  -- The assertions on the output, the disconnect and the kernel log.
  abbrev pub other_holds : Assertion → Bool
  other_holds (event_count event n within l) = true
  other_holds (stdout contained absent) =
      contained_holds result.application.stdout contained
      && absent_holds result.application.stdout absent
  other_holds (disconnect expected) = same (disconnected events) expected
  other_holds (kernel_warnings n) =
      result.kernel_log_available && eqb (length result.kernel_warnings) n

module _ (metrics : RecoveryMetrics) where
  -- The part of an assertion that is about the recovery latency.
  abbrev pub latency_holds : Assertion → Bool
  latency_holds (event_count event n within (some bound)) =
      at_most (maximum (map (λ w. w.recovery_latency_ms) metrics.recoveries)) bound
  latency_holds _ = true

-- The tests of an assertion of the scenario.
abbrev pub assertion_holds :
    ScenarioRunResult → List ApplicationLogEvent → RecoveryMetrics → Assertion → Bool
assertion_holds result events metrics a =
    event_holds events a && (other_holds result events a && latency_holds metrics a)

-- The tests of every assertion, and of the exit code.
abbrev pub run_holds :
    ScenarioRunResult → List ApplicationLogEvent → RecoveryMetrics → List Assertion → Bool
run_holds result events metrics as' =
    all (assertion_holds result events metrics) as' && is_zero result.application.exit_code

ne-empty : (s : String) → s ≢ "" → (s == "") ≡ false
ne-empty s h = ground (arith, eq_iff s "")

abbrev is_event_count : Assertion → Bool
is_event_count (event_count event n within l) = true
is_event_count _ = false

type-encode :
    (a : Assertion)
    → is_str "event_count" (get_or (encode_assertion a) "type" (str "event_count"))
      ≡ is_event_count a
type-encode (event_count event n none none) = refl
type-encode (event_count event n none (some l)) = refl
type-encode (event_count event n (some w) none) = refl
type-encode (event_count event n (some w) (some l)) = refl
type-encode (stdout none none) = refl
type-encode (stdout none (some a)) = refl
type-encode (stdout (some c) none) = refl
type-encode (stdout (some c) (some a)) = refl
type-encode (disconnect b) = refl
type-encode (kernel_warnings n) = refl

event_definitions-cons :
    (a : Assertion) (ms : List Mapping)
    → event_definitions (encode_assertion a ∷ ms) ≡ (
        if is_event_count a
        then encode_assertion a ∷ event_definitions ms
        else event_definitions ms)
unfolding event_definitions
event_definitions-cons a ms = rw (type-encode a)

module _ (events : List ApplicationLogEvent) where
  abbrev count_result : String → ℕ → Option ℕ → EventCountAssertion
  count_result event n within = record {
    event = event;
    expected = n;
    observed = observed_count events event within;
    within_ms = within;
    passed = eqb (observed_count events event within) n;
  }

  evaluate-count :
      (event : String) (n : ℕ) (within l : Option ℕ)
      → event ≢ ""
      → 1 ≤ n
      → evaluate_event_assertion events (encode_assertion (event_count event n within l))
        ≡ ok (count_result event n within)
  unfolding evaluate_event_assertion assertion_event assertion_count assertion_within ◌>>=◌
  evaluate-count event zero within l h k = absurd (omega arith)
  evaluate-count event (suc n) none none h k = rw (ne-empty event h)
  evaluate-count event (suc n) none (some b) h k = rw (ne-empty event h)
  evaluate-count event (suc n) (some w) none h k = rw (ne-empty event h)
  evaluate-count event (suc n) (some w) (some b) h k = rw (ne-empty event h)

  -- The evaluated event counts of a list of assertions pass if and only if the counts hold.
  abbrev pub EventDocuments : List Assertion → Type 0
  EventDocuments as' =
      (rs : List EventCountAssertion) × (evaluate_event_assertions events
          (event_definitions (map encode_assertion as'))
        ≡ ok rs)
      × (assertions_passed (map event_count_document rs) ≡ all (event_holds events) as')

  evaluate_event_assertions-nil : EventDocuments []
  unfolding evaluate_event_assertions event_definitions assertions_passed
  evaluate_event_assertions-nil = ([], refl, refl)

  evaluate_event_assertions-count :
      (event : String) (n : ℕ) (within l : Option ℕ) (as' : List Assertion)
      → event ≢ ""
      → 1 ≤ n
      → EventDocuments as'
      → EventDocuments (event_count event n within l ∷ as')
  unfolding evaluate_event_assertions assertions_passed ◌>>=◌
  evaluate_event_assertions-count event n within l as' h k (rs, e, p) = (
    count_result event n within ∷ rs,
    rw
        (
          event_definitions-cons (event_count event n within l),
          evaluate-count event n within l h k,
          e,
        )
        refl,
    ap (λ b. eqb (observed_count events event within) n && b) p,
  )

  evaluate_event_assertions-skip :
      (a : Assertion) (as' : List Assertion)
      → is_event_count a ≡ false
      → event_holds events a ≡ true
      → EventDocuments as'
      → EventDocuments (a ∷ as')
  evaluate_event_assertions-skip a as' h k (rs, e, p) =
      (rs, rw (event_definitions-cons a, h) e, rw k p)

  pub evaluate_event_assertions-EventDocuments :
      (timeout_ms : ℕ) (as' : List Assertion)
      → All (IsValidAssertion timeout_ms) as'
      → EventDocuments as'
  evaluate_event_assertions-EventDocuments timeout_ms [] _ = evaluate_event_assertions-nil
  evaluate_event_assertions-EventDocuments timeout_ms (event_count event n w l ∷ as') (v, vs) =
      evaluate_event_assertions-count event n w l as' v.1 v.2
        (evaluate_event_assertions-EventDocuments timeout_ms as' vs)
  evaluate_event_assertions-EventDocuments timeout_ms (stdout c a ∷ as') (v, vs) =
      evaluate_event_assertions-skip (stdout c a) as' refl refl
        (evaluate_event_assertions-EventDocuments timeout_ms as' vs)
  evaluate_event_assertions-EventDocuments timeout_ms (disconnect b ∷ as') (v, vs) =
      evaluate_event_assertions-skip (disconnect b) as' refl refl
        (evaluate_event_assertions-EventDocuments timeout_ms as' vs)
  evaluate_event_assertions-EventDocuments timeout_ms (kernel_warnings n ∷ as') (v, vs) =
      evaluate_event_assertions-skip (kernel_warnings n) as' refl refl
        (evaluate_event_assertions-EventDocuments timeout_ms as' vs)
