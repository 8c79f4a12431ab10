-- ===== src/Scenario/Document/Findings/Assertions.antt =====
-- What the parsers of the assertions in scenario.py raise.
use vdev_lab.Base.{inl, ℕ, suc, refl, String, Option, none, some}
use vdev_lab.Base.Value.{Value, bool, str, list, Items, nil, cons, Mapping, lookup, is_str, get_or}
use vdev_lab.Base.Result.{Raises-ok, Raises-if, Raises-bind, Raises-raise_if}
use vdev_lab.Scenario.Fields.Findings.{
  Finds, Finds-err, mapping-Finds, required-Finds, allowed-Finds, index-Finds,
  non_empty_string-Finds, bounded_integer-Finds, parse_duration-Finds,
}
use vdev_lab.Scenario.Assertions.{
  parse_limit, add_within, add_max_latency, parse_event_assertion, add_text, parse_stdout_assertion,
  parse_expected, parse_disconnect_assertion, parse_kernel_warnings_assertion, parse_typed,
  parse_assertion, parse_all_assertions, parse_assertions,
}

parse_limit-Finds :
    (v : Value) (path : String) (timeout_ms : ℕ) → Finds (parse_limit v path timeout_ms)
unfolding parse_limit
parse_limit-Finds v path timeout_ms =
    Raises-bind _ _ (parse_duration-Finds v path)
      λ _ _. Raises-bind _ _ (Raises-raise_if _ _ (inl (_, _, refl))) λ _ _. Raises-ok _

add_within-Finds :
    (o : Option Value) (path : String) (timeout_ms : ℕ) (normalized : Mapping)
    → Finds (add_within o path timeout_ms normalized)
unfolding add_within
add_within-Finds none path timeout_ms normalized = Raises-ok _
add_within-Finds (some v) path timeout_ms normalized =
    Raises-bind _ _ (parse_limit-Finds v _ timeout_ms) λ _ _. Raises-ok _

add_max_latency-Finds :
    (o : Option Value) (event path : String) (timeout_ms : ℕ) (normalized : Mapping)
    → Finds (add_max_latency o event path timeout_ms normalized)
unfolding add_max_latency
add_max_latency-Finds none event path timeout_ms normalized = Raises-ok _
add_max_latency-Finds (some v) event path timeout_ms normalized =
    Raises-bind _ _ (Raises-raise_if _ _ (inl (_, _, refl)))
      λ _ _. Raises-bind _ _ (parse_limit-Finds v _ timeout_ms) λ _ _. Raises-ok _

add_text-Finds :
    (field : String) (o : Option Value) (path : String) (normalized : Mapping)
    → Finds (add_text field o path normalized)
unfolding add_text
add_text-Finds field none path normalized = Raises-ok _
add_text-Finds field (some v) path normalized =
    Raises-bind _ _ (non_empty_string-Finds v _) λ _ _. Raises-ok _

parse_expected-Finds : (v : Value) (path : String) → Finds (parse_expected v path)
parse_expected-Finds (bool b) path = Raises-ok _
parse_expected-Finds _ path = Finds-err _ _

module _ (assertion : Mapping) (path : String) where
  parse_event_assertion-Finds :
      (timeout_ms : ℕ) → Finds (parse_event_assertion assertion path timeout_ms)
  unfolding parse_event_assertion
  parse_event_assertion-Finds timeout_ms = Raises-bind _ _ (required-Finds assertion _ path) λ _ r.
      Raises-bind _ _ (allowed-Finds assertion _ path) λ _ _.
        Raises-bind _ _ (index-Finds assertion _ _ "event" r refl) λ raw_event _.
          Raises-bind _ _ (non_empty_string-Finds raw_event _) λ event _.
            Raises-bind _ _ (Raises-raise_if _ _ (inl (_, _, refl))) λ _ _.
              Raises-bind _ _ (index-Finds assertion _ _ "count" r refl) λ raw_count _.
                Raises-bind _ _ (bounded_integer-Finds raw_count _ 1 1_000_000) λ _ _.
                  Raises-bind _ _ (add_within-Finds (lookup "within" assertion) path timeout_ms _)
                    λ _ _.
                      add_max_latency-Finds (lookup "max_latency" assertion) event path timeout_ms _

  parse_stdout_assertion-Finds : Finds (parse_stdout_assertion assertion path)
  unfolding parse_stdout_assertion
  parse_stdout_assertion-Finds = Raises-bind _ _ (allowed-Finds assertion _ path) λ _ _.
      Raises-bind _ _ (Raises-raise_if _ _ (inl (_, _, refl))) λ _ _.
        Raises-bind _ _ (add_text-Finds "contains" (lookup "contains" assertion) path _)
          λ _ _. add_text-Finds "not_contains" (lookup "not_contains" assertion) path _

  parse_disconnect_assertion-Finds : Finds (parse_disconnect_assertion assertion path)
  unfolding parse_disconnect_assertion
  parse_disconnect_assertion-Finds = Raises-bind _ _ (required-Finds assertion _ path) λ _ r.
      Raises-bind _ _ (allowed-Finds assertion _ path) λ _ _.
        Raises-bind _ _ (index-Finds assertion _ _ "expected" r refl)
          λ expected _. parse_expected-Finds expected path

  parse_kernel_warnings_assertion-Finds : Finds (parse_kernel_warnings_assertion assertion path)
  unfolding parse_kernel_warnings_assertion
  parse_kernel_warnings_assertion-Finds = Raises-bind _ _ (required-Finds assertion _ path) λ _ r.
      Raises-bind _ _ (allowed-Finds assertion _ path) λ _ _.
        Raises-bind _ _ (index-Finds assertion _ _ "count" r refl) λ raw_count _.
          Raises-bind _ _ (bounded_integer-Finds raw_count _ 0 1_000_000) λ _ _. Raises-ok _

  parse_typed-Finds :
      (kind : Value) (timeout_ms : ℕ) → Finds (parse_typed assertion path kind timeout_ms)
  unfolding parse_typed
  parse_typed-Finds kind timeout_ms =
      Raises-if (is_str "event_count" kind) _ _ (parse_event_assertion-Finds timeout_ms) (
        Raises-if (is_str "stdout" kind) _ _ parse_stdout_assertion-Finds (
          Raises-if (is_str "disconnect" kind) _ _ parse_disconnect_assertion-Finds (
            Raises-if (is_str "kernel_warnings" kind) _ _ parse_kernel_warnings_assertion-Finds
              (Finds-err _ _))))

parse_all_assertions-Finds :
    (i : ℕ) (vs : Items) (timeout_ms : ℕ) → Finds (parse_all_assertions i vs timeout_ms)
unfolding parse_all_assertions parse_assertion
parse_all_assertions-Finds i nil timeout_ms = Raises-ok _
parse_all_assertions-Finds i (cons v vs) timeout_ms =
    Raises-bind (parse_assertion i v timeout_ms) _
      (Raises-bind _ _ (mapping-Finds v _) λ assertion _.
        parse_typed-Finds assertion _ (get_or assertion "type" (str "event_count")) timeout_ms)
      λ _ _. Raises-bind _ _ (parse_all_assertions-Finds (suc i) vs timeout_ms) λ _ _. Raises-ok _

pub parse_assertions-Finds : (v : Value) (timeout_ms : ℕ) → Finds (parse_assertions v timeout_ms)
unfolding parse_assertions
parse_assertions-Finds (list (cons v vs)) timeout_ms =
    parse_all_assertions-Finds 0 (cons v vs) timeout_ms
parse_assertions-Finds _ timeout_ms = Finds-err _ _
