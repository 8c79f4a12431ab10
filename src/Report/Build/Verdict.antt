-- ===== src/Report/Build/Verdict.antt =====
-- The assertion documents that report.py makes of a run, against what the assertions of the
-- scenario say.
use vdev_lab.Base.{
  ℕ, ◌≡◌, refl, ◌∙◌, ap, Bool, true, ◌&&◌, List, [], ◌∷◌, ◌++◌, map, none, some, all, All, arith,
  inl, inr,
}
use vdev_lab.Base.Value.{Mapping, get}
use vdev_lab.Base.Result.{Result, ok, ◌>>=◌}
use vdev_lab.Scenario.{ScenarioDefinition}
use vdev_lab.Scenario.Fields.{index}
use vdev_lab.Scenario.Assertions.Shape.{
  Assertion, event_count, stdout, disconnect, kernel_warnings, encode_assertion, IsValidAssertion,
}
use vdev_lab.Analysis.{ApplicationLogEvent, RecoveryMetrics}
use vdev_lab.Analysis.Log.{require_nonnegative_integer}
use vdev_lab.Analysis.Evaluate.{
  evaluate_stdout_assertion, evaluate_disconnect, evaluate_kernel_warnings,
  evaluate_recovery_latency,
}
use vdev_lab.Runner.{ScenarioRunResult}
use vdev_lab.Report.Documents.{event_count_document, exit_code_document, is_zero}
use vdev_lab.Report.Build.{
  stdout_documents, disconnect_documents, kernel_warnings_documents, other_documents,
  latency_documents, collect_documents, assertions_passed, assertion_documents,
}
use vdev_lab.Report.Build.Holds.{
  run_holds, event_holds, other_holds, latency_holds, evaluate_event_assertions-EventDocuments,
}

and_assoc : (a b c : Bool) → (a && (b && c)) ≡ ((a && b) && c)
and_assoc a b c = ground arith

all-append : (p : Mapping → Bool) (xs ys : List Mapping) → all p (xs ++ ys) ≡ (all p xs && all p ys)
all-append p [] ys = refl
all-append p (x ∷ xs) ys =
    ap (λ b. p x && b) (all-append p xs ys) ∙ and_assoc (p x) (all p xs) (all p ys)

assertions_passed-append :
    (xs ys : List Mapping)
    → assertions_passed (xs ++ ys) ≡ (assertions_passed xs && assertions_passed ys)
unfolding assertions_passed
assertions_passed-append xs ys = all-append _ xs ys

-- Documents that are returned, and that pass if and only if `b`.
abbrev Documents : Result (List Mapping) → Bool → Type 0
Documents r b = (docs : List Mapping) × (r ≡ ok docs) × (assertions_passed docs ≡ b)

module _ (body : Mapping → Result (List Mapping)) (holds : Assertion → Bool)
    (V : Assertion → Type 0)
    (passes : (a : Assertion) → V a → Documents (body (encode_assertion a)) (holds a)) where
  collect_documents-cons :
      (a : Assertion) (as' : List Assertion)
      → Documents (body (encode_assertion a)) (holds a)
      → Documents (collect_documents body (map encode_assertion as')) (all holds as')
      → Documents (collect_documents body (map encode_assertion (a ∷ as'))) (all holds (a ∷ as'))
  unfolding collect_documents ◌>>=◌
  collect_documents-cons a as' (docs, e, p) (rest, e', p') =
      (docs ++ rest, rw (e, e') refl, assertions_passed-append docs rest ∙ (rw (p, p') refl))

  collect_documents-nil : Documents (collect_documents body []) true
  unfolding collect_documents assertions_passed
  collect_documents-nil = ([], refl, refl)

  collect_documents-Documents :
      (as' : List Assertion)
      → All V as'
      → Documents (collect_documents body (map encode_assertion as')) (all holds as')
  collect_documents-Documents [] _ = collect_documents-nil
  collect_documents-Documents (a ∷ as') (v, vs) =
      collect_documents-cons a as' (passes a v) (collect_documents-Documents as' vs)

module _ (result : ScenarioRunResult) (events : List ApplicationLogEvent) (timeout_ms : ℕ) where
  other_documents-Documents :
      (a : Assertion)
      → IsValidAssertion timeout_ms a
      → Documents (other_documents result events (encode_assertion a)) (other_holds result events a)
  unfolding other_documents stdout_documents disconnect_documents kernel_warnings_documents
      evaluate_stdout_assertion evaluate_disconnect evaluate_kernel_warnings index assertions_passed
      ◌>>=◌
  other_documents-Documents (event_count event n none none) v = (_, refl, refl)
  other_documents-Documents (event_count event n none (some l)) v = (_, refl, refl)
  other_documents-Documents (event_count event n (some w) none) v = (_, refl, refl)
  other_documents-Documents (event_count event n (some w) (some l)) v = (_, refl, refl)
  other_documents-Documents (stdout none none) (_, _, inl h) = absurd (h refl)
  other_documents-Documents (stdout none none) (_, _, inr h) = absurd (h refl)
  other_documents-Documents (stdout none (some a)) v = (_, refl, ground arith)
  other_documents-Documents (stdout (some c) none) v = (_, refl, ground arith)
  other_documents-Documents (stdout (some c) (some a)) v = (_, refl, ground arith)
  other_documents-Documents (disconnect b) v = (_, refl, ground arith)
  other_documents-Documents (kernel_warnings n) v = (_, refl, ground arith)

  latency_documents-Documents :
      (metrics : RecoveryMetrics) (a : Assertion)
      → IsValidAssertion timeout_ms a
      → Documents
          (latency_documents metrics (get (encode_assertion a) "max_latency_ms"))
          (latency_holds metrics a)
  unfolding latency_documents evaluate_recovery_latency require_nonnegative_integer
      assertions_passed ◌>>=◌
  latency_documents-Documents metrics (event_count event n none none) v = (_, refl, refl)
  latency_documents-Documents metrics (event_count event n none (some l)) v =
      (_, refl, ground arith)
  latency_documents-Documents metrics (event_count event n (some w) none) v = (_, refl, refl)
  latency_documents-Documents metrics (event_count event n (some w) (some l)) v =
      (_, refl, ground arith)
  latency_documents-Documents metrics (stdout none none) v = (_, refl, refl)
  latency_documents-Documents metrics (stdout none (some a)) v = (_, refl, refl)
  latency_documents-Documents metrics (stdout (some c) none) v = (_, refl, refl)
  latency_documents-Documents metrics (stdout (some c) (some a)) v = (_, refl, refl)
  latency_documents-Documents metrics (disconnect b) v = (_, refl, refl)
  latency_documents-Documents metrics (kernel_warnings n) v = (_, refl, refl)

all-and :
    (p q : Assertion → Bool) (as' : List Assertion)
    → (all p as' && all q as') ≡ all (λ a. p a && q a) as'
all-and p q [] = refl
all-and p q (a ∷ as') =
    and_swap (p a) (q a) (all p as') (all q as') ∙ ap (λ b. (p a && q a) && b) (all-and p q as')
  where
    and_swap : (a b c d : Bool) → ((a && c) && (b && d)) ≡ ((a && b) && (c && d))
    and_swap a b c d = ground arith

module _ (scenario : ScenarioDefinition) (result : ScenarioRunResult)
    (events : List ApplicationLogEvent) (metrics : RecoveryMetrics) (as' : List Assertion) where
  run_holds-split :
      (all (event_holds events) as'
        && (all (other_holds result events) as'
            && (is_zero result.application.exit_code && all (latency_holds metrics) as')))
      ≡ run_holds result events metrics as'
  run_holds-split =
      and_rotate (all (event_holds events) as') (all (other_holds result events) as')
        (is_zero result.application.exit_code) (all (latency_holds metrics) as')
      ∙ (ap (λ b. (all (event_holds events) as' && b) && is_zero result.application.exit_code)
            (all-and (other_holds result events) (latency_holds metrics) as')
          ∙ ap (λ b. b && is_zero result.application.exit_code)
              (all-and (event_holds events) _ as'))
    where
      and_rotate : (a b c d : Bool) → (a && (b && (c && d))) ≡ ((a && (b && d)) && c)
      and_rotate a b c d = ground arith

  exit_code_document-passed :
      (rest : List Mapping)
      → assertions_passed (exit_code_document result.application.exit_code ∷ rest)
        ≡ (is_zero result.application.exit_code && assertions_passed rest)
  unfolding assertions_passed
  exit_code_document-passed rest = refl

  -- The assertions of a valid scenario are evaluated without an error, and the documents pass if and
  -- only if the tests of every assertion and of the exit code do.
  pub assertion_documents-run_holds :
      (timeout_ms : ℕ)
      → All (IsValidAssertion timeout_ms) as'
      → scenario.assertions ≡ map encode_assertion as'
      → (docs : List Mapping) × (assertion_documents scenario result events metrics ≡ ok docs)
        × (assertions_passed docs ≡ run_holds result events metrics as')
  unfolding assertion_documents ◌>>=◌
  assertion_documents-run_holds timeout_ms v encoded =
      let (rs, e, p) = evaluate_event_assertions-EventDocuments events timeout_ms as' v in
      let (others, e', p') =
        collect_documents-Documents (other_documents result events) (other_holds result events)
          (IsValidAssertion timeout_ms) (other_documents-Documents result events timeout_ms) as'
          v in
      let (lats, e'', p'') =
        collect_documents-Documents (λ m. latency_documents metrics (get m "max_latency_ms"))
          (latency_holds metrics) (IsValidAssertion timeout_ms)
          (latency_documents-Documents result events timeout_ms metrics) as' v in
      (
        map event_count_document rs
            ++ (others ++ (exit_code_document result.application.exit_code ∷ lats)),
        rw (encoded, e, e', e'') refl,
        assertions_passed-append (map event_count_document rs)
              (others ++ (exit_code_document result.application.exit_code ∷ lats))
            ∙ (rw (p, assertions_passed-append, p', exit_code_document-passed, p'')
                run_holds-split),
      )
