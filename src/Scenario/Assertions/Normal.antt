-- ===== src/Scenario/Assertions/Normal.antt =====
-- `_parse_assertions` returns valid assertions.
use vdev_lab.Base.{
  ℕ, suc, ◌≤◌, String, ◌≡◌, refl, ◌∙◌, ◌≢◌, ◌==◌, not, ◌&&◌, true, false, List, [], ◌∷◌, map,
  length, ap, inl, inr, ◌⊎◌, eq_iff, arith, Option, none, some, All, ltb,
}
use mathlib.Core.Path.{ap₂}
use vdev_lab.Base.Value.{
  Value, bool, list, Mapping, Items, nil, cons, values, lookup, is_str, contains, has_key,
}
use vdev_lab.Base.Result.{
  ok, Ensures, Ensures-ok, Ensures-err, Ensures-if, Ensures-bind, raise_if-eq-ok,
}
use vdev_lab.Scenario.Schema.{log_events}
use vdev_lab.Scenario.Fields.Accepted.{bounded_integer-bounds, non_empty_string-ne}
use vdev_lab.Scenario.Assertions.{
  parse_limit, add_within, add_max_latency, parse_event_assertion, add_text, parse_stdout_assertion,
  parse_expected, parse_disconnect_assertion, parse_kernel_warnings_assertion, parse_typed,
  parse_assertion, parse_all_assertions, parse_assertions,
}
use vdev_lab.Scenario.Assertions.Shape.{
  Assertion, event_count, stdout, disconnect, kernel_warnings, with_number, with_text, count_dict,
  encode_assertion, IsWithin, IsLatency, IsText, IsValidAssertion,
}

parse_limit-le :
    (v : Value) (path : String) (timeout_ms : ℕ)
    → Ensures (λ n. n ≤ timeout_ms) (parse_limit v path timeout_ms)
unfolding parse_limit
parse_limit-le v path timeout_ms = Ensures-bind _ _ λ n _.
    Ensures-bind _ _
      λ _ e. let late = raise_if-eq-ok (ltb timeout_ms n) _ e in Ensures-ok n (ground arith)

add_within-with_number :
    (v : Option Value) (path : String) (timeout_ms : ℕ) (m : Mapping)
    → Ensures
        (λ m'. (w : Option ℕ) × IsWithin timeout_ms w × (m' ≡ with_number "within_ms" w m))
        (add_within v path timeout_ms m)
unfolding add_within
add_within-with_number none path timeout_ms m = Ensures-ok _ (none, tt, refl)
add_within-with_number (some v) path timeout_ms m =
    Ensures-bind _ _ λ n e. Ensures-ok _ (some n, (parse_limit-le v _ timeout_ms).at n e, refl)

add_max_latency-with_number :
    (v : Option Value) (event path : String) (timeout_ms : ℕ) (m : Mapping)
    → Ensures
        (λ m'.
          (l : Option ℕ) × IsLatency event timeout_ms l × (m' ≡ with_number "max_latency_ms" l m))
        (add_max_latency v event path timeout_ms m)
unfolding add_max_latency
add_max_latency-with_number none event path timeout_ms m = Ensures-ok _ (none, tt, refl)
add_max_latency-with_number (some v) event path timeout_ms m = Ensures-bind _ _ λ _ e.
    let named = raise_if-eq-ok (not (event == "RECOVERY_SUCCESS")) _ e in
    Ensures-bind _ _ λ n e'. Ensures-ok _ (
      some n,
      (ground (arith, eq_iff event "RECOVERY_SUCCESS"), (parse_limit-le v _ timeout_ms).at n e'),
      refl,
    )

abbrev IsAssertionDict : ℕ → Mapping → Type 0
IsAssertionDict timeout_ms m =
    (a : Assertion) × IsValidAssertion timeout_ms a × (m ≡ encode_assertion a)

add_text-with_text :
    (field : String) (v : Option Value) (path : String) (m : Mapping)
    → Ensures
        (λ m'.
          (t : Option String) × IsText t × ((v ≢ none) → t ≢ none) × (m' ≡ with_text field t m))
        (add_text field v path m)
unfolding add_text
add_text-with_text field none path m = Ensures-ok _ (none, tt, (λ h. absurd (h refl)), refl)
add_text-with_text field (some v) path m =
    Ensures-bind _ _
      λ text e. Ensures-ok _ (some text, (non_empty_string-ne v _ e).1, (λ _ h. cc h), refl)

some_present :
    (m : Mapping)
    → (not (has_key "contains" m) && not (has_key "not_contains" m)) ≡ false
    → (lookup "contains" m ≢ none) ⊎ (lookup "not_contains" m ≢ none)
some_present m h = ground arith

module _ (assertion : Mapping) (path : String) (timeout_ms : ℕ) where
  -- The last step, from what the steps before it found.
  event_count-IsAssertionDict :
      (event : String) (count : ℕ) (m : Mapping)
      → contains event log_events ≡ true
      → event ≢ ""
      → 1 ≤ count
      → count ≤ 1_000_000
      → (w : Option ℕ) × IsWithin timeout_ms w
        × (m ≡ with_number "within_ms" w (count_dict event count))
      → Ensures
          (IsAssertionDict timeout_ms)
          (add_max_latency (lookup "max_latency" assertion) event path timeout_ms m)
  event_count-IsAssertionDict event count m known named low high (w, wv, we) = record {
    at = λ m' e.
        let (l, lv, le) = (add_max_latency-with_number _ event path timeout_ms m).at m' e in
        (
          event_count event count w l,
          (known, named, low, high, wv, lv),
          le ∙ ap (with_number "max_latency_ms" l) we,
        );
  }

  parse_event_assertion-IsAssertionDict :
      Ensures (IsAssertionDict timeout_ms) (parse_event_assertion assertion path timeout_ms)
  unfolding parse_event_assertion
  parse_event_assertion-IsAssertionDict = Ensures-bind _ _ λ _ _. Ensures-bind _ _ λ _ _.
      Ensures-bind _ _ λ raw_event _. Ensures-bind _ _ λ event named. Ensures-bind _ _ λ _ known.
        Ensures-bind _ _ λ raw_count _. Ensures-bind _ _ λ count counted. Ensures-bind _ _ λ m e.
          event_count-IsAssertionDict event count m (ground (arith, raise_if-eq-ok _ _ known))
            (non_empty_string-ne raw_event _ named).1
            (bounded_integer-bounds raw_count _ 1 _ counted).1
            (bounded_integer-bounds raw_count _ 1 _ counted).2
            ((add_within-with_number _ path timeout_ms _).at m e)

  parse_stdout_assertion-IsAssertionDict :
      Ensures (IsAssertionDict timeout_ms) (parse_stdout_assertion assertion path)
  unfolding parse_stdout_assertion
  parse_stdout_assertion-IsAssertionDict = Ensures-bind _ _ λ _ _. Ensures-bind _ _ λ _ present.
      Ensures-bind _ _ λ m e. record {
        at = λ m' e'.
            let (c, cv, cs, ce) =
              (add_text-with_text "contains" (lookup "contains" assertion) path _).at m e in
            let (n, nv, ns, ne) =
              (add_text-with_text "not_contains" (lookup "not_contains" assertion) path _).at m'
                e' in
            let kept : (c ≢ none) ⊎ (n ≢ none) =
              elim (some_present assertion (raise_if-eq-ok _ _ present)) [
                | inl h ↦ inl (cs h)
                | inr h ↦ inr (ns h)
              ] in
            (stdout c n, (cv, nv, kept), ne ∙ ap (with_text "not_contains" n) ce);
      }

  parse_expected-IsAssertionDict :
      (v : Value) → Ensures (IsAssertionDict timeout_ms) (parse_expected v path)
  parse_expected-IsAssertionDict (bool b) = Ensures-ok _ (disconnect b, tt, refl)
  parse_expected-IsAssertionDict _ = Ensures-err _

  parse_disconnect_assertion-IsAssertionDict :
      Ensures (IsAssertionDict timeout_ms) (parse_disconnect_assertion assertion path)
  unfolding parse_disconnect_assertion
  parse_disconnect_assertion-IsAssertionDict =
      Ensures-bind _ _
        λ _ _. Ensures-bind _ _ λ _ _. Ensures-bind _ _ λ v _. parse_expected-IsAssertionDict v

  parse_kernel_warnings_assertion-IsAssertionDict :
      Ensures (IsAssertionDict timeout_ms) (parse_kernel_warnings_assertion assertion path)
  unfolding parse_kernel_warnings_assertion
  parse_kernel_warnings_assertion-IsAssertionDict = Ensures-bind _ _ λ _ _. Ensures-bind _ _ λ _ _.
      Ensures-bind _ _ λ raw _.
        Ensures-bind _ _
          λ n e. Ensures-ok _ (kernel_warnings n, (bounded_integer-bounds raw _ 0 _ e).2, refl)

  parse_typed-IsAssertionDict :
      (t : Value) → Ensures (IsAssertionDict timeout_ms) (parse_typed assertion path t timeout_ms)
  unfolding parse_typed
  parse_typed-IsAssertionDict t =
      Ensures-if (is_str "event_count" t) _ _ (λ _. parse_event_assertion-IsAssertionDict)
        λ _.
          Ensures-if (is_str "stdout" t) _ _ (λ _. parse_stdout_assertion-IsAssertionDict)
            λ _.
              Ensures-if (is_str "disconnect" t) _ _
                (λ _. parse_disconnect_assertion-IsAssertionDict)
                λ _.
                  Ensures-if (is_str "kernel_warnings" t) _ _
                    (λ _. parse_kernel_warnings_assertion-IsAssertionDict) λ _. Ensures-err _

parse_assertion-IsAssertionDict :
    (i : ℕ) (v : Value) (timeout_ms : ℕ)
    → Ensures (IsAssertionDict timeout_ms) (parse_assertion i v timeout_ms)
unfolding parse_assertion
parse_assertion-IsAssertionDict i v timeout_ms =
    Ensures-bind _ _ λ assertion _. parse_typed-IsAssertionDict assertion _ timeout_ms _

-- The dicts are the encodings of valid assertions.
abbrev pub AreAssertions : ℕ → List Mapping → Type 0
AreAssertions timeout_ms ms =
    (as' : List Assertion) × All (IsValidAssertion timeout_ms) as' × (ms ≡ map encode_assertion as')

abbrev pub AssertionList : ℕ → ℕ → List Mapping → Type 0
AssertionList timeout_ms size ms = AreAssertions timeout_ms ms × (length ms ≡ size)

parse_all_assertions-AssertionList :
    (i : ℕ) (vs : Items) (timeout_ms : ℕ)
    → Ensures (AssertionList timeout_ms (length (values vs))) (parse_all_assertions i vs timeout_ms)
unfolding parse_all_assertions
parse_all_assertions-AssertionList i nil timeout_ms = Ensures-ok _ (([], tt, refl), refl)
parse_all_assertions-AssertionList i (cons v vs) timeout_ms = Ensures-bind _ _ λ m e.
    Ensures-bind _ _ λ ms e'.
      let (a, av, ae) = (parse_assertion-IsAssertionDict i v timeout_ms).at m e in
      let (rest, l) = (parse_all_assertions-AssertionList (suc i) vs timeout_ms).at ms e' in
      Ensures-ok _ ((a ∷ rest.0, (av, rest.1), ap₂ (λ x xs. x ∷ xs) ae rest.2), ap suc l)

-- What `_parse_assertions` accepts is a non-empty list, and it returns the encodings of as many valid
-- assertions.
pub parse_assertions-AreAssertions :
    (v : Value) (timeout_ms : ℕ) {ms : List Mapping}
    → parse_assertions v timeout_ms ≡ ok ms
    → (w : Value) × (ws : Items) × (v ≡ list (cons w ws))
      × (length ms ≡ suc (length (values ws)))
      × AreAssertions timeout_ms ms
unfolding parse_assertions
parse_assertions-AreAssertions (list (cons v vs)) timeout_ms {ms} h =
    let (p, l) = (parse_all_assertions-AssertionList 0 (cons v vs) timeout_ms).at ms h in
    (v, vs, refl, l, p)
parse_assertions-AreAssertions _ timeout_ms h = cc
