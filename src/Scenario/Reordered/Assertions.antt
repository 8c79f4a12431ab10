-- ===== src/Scenario/Reordered/Assertions.antt =====
-- The assertions of scenario.py do not depend on the order of the fields.
use vdev_lab.Base.{ℕ, suc, ◌≡◌, refl, ap, String, Bool, not, ◌&&◌, ◌∙◌, Option}
use vdev_lab.Base.Value.{
  Value, str, list, Items, Mapping, nil, cons, lookup, has_key, is_str, get_or,
}
use vdev_lab.Base.Result.{scenario_error, raise_if}
use vdev_lab.Scenario.Assertions.{
  parse_limit, add_within, add_max_latency, parse_event_assertion, add_text, parse_stdout_assertion,
  parse_expected, parse_disconnect_assertion, parse_kernel_warnings_assertion, parse_typed,
  parse_assertion, parse_all_assertions, parse_assertions,
}
use vdev_lab.Scenario.Reordered.{
  Same, SameItems, no_items, cons_items, SameMapping, Same-eq, non_empty_string-Same,
  parse_duration-Same, bounded_integer-Same,
}
use vdev_lab.Scenario.Reordered.Mappings.{mapping-Same}
use vdev_lab.Scenario.Reordered.Fields.{
  SameFound, missing, found, lookup-Same, get_or-Same, required-Same, allowed-Same, bind-eq,
  index-Same, if-eq,
}

parse_limit-Same :
    {v w : Value} (path : String) (timeout_ms : ℕ)
    → Same v w
    → parse_limit v path timeout_ms ≡ parse_limit w path timeout_ms
unfolding parse_limit
parse_limit-Same path timeout_ms h = bind-eq _ _ (parse_duration-Same _ h) λ _. refl

add_within-Same :
    {o p : Option Value} (path : String) (timeout_ms : ℕ) (normalized : Mapping)
    → SameFound o p
    → add_within o path timeout_ms normalized ≡ add_within p path timeout_ms normalized
unfolding add_within
add_within-Same path timeout_ms normalized missing = refl
add_within-Same path timeout_ms normalized (found h) =
    bind-eq _ _ (parse_limit-Same _ timeout_ms h) λ _. refl

add_max_latency-Same :
    {o p : Option Value} (event path : String) (timeout_ms : ℕ) (normalized : Mapping)
    → SameFound o p
    → add_max_latency o event path timeout_ms normalized
      ≡ add_max_latency p event path timeout_ms normalized
unfolding add_max_latency
add_max_latency-Same event path timeout_ms normalized missing = refl
add_max_latency-Same event path timeout_ms normalized (found h) =
    bind-eq _ _ refl λ _. bind-eq _ _ (parse_limit-Same _ timeout_ms h) λ _. refl

add_text-Same :
    {o p : Option Value} (field path : String) (normalized : Mapping)
    → SameFound o p
    → add_text field o path normalized ≡ add_text field p path normalized
unfolding add_text
add_text-Same field path normalized missing = refl
add_text-Same field path normalized (found h) = bind-eq _ _ (non_empty_string-Same _ h) λ _. refl

found-Same :
    {o p : Option Value} → SameFound o p → vdev_lab.Base.Value.found o ≡ vdev_lab.Base.Value.found p
found-Same missing = refl
found-Same (found h) = refl

has_key-Same : (key : String) {m n : Mapping} → SameMapping m n → has_key key m ≡ has_key key n
has_key-Same key s = found-Same (lookup-Same key s)

parse_expected-Same :
    {v w : Value} (path : String) → Same v w → parse_expected v path ≡ parse_expected w path
parse_expected-Same path h = Same-eq (λ v. parse_expected v path) h (λ _ _ _. refl) (λ _ _ _. refl)

is_str-Same : (text : String) {v w : Value} → Same v w → is_str text v ≡ is_str text w
is_str-Same text h = Same-eq (is_str text) h (λ _ _ _. refl) (λ _ _ _. refl)

module _ {m n : Mapping} (s : SameMapping m n) (path : String) where
  parse_event_assertion-Same :
      (timeout_ms : ℕ)
      → parse_event_assertion m path timeout_ms ≡ parse_event_assertion n path timeout_ms
  unfolding parse_event_assertion
  parse_event_assertion-Same timeout_ms = bind-eq _ _ (required-Same _ _ s) λ _.
      bind-eq _ _ (allowed-Same _ _ s) λ _. index-Same _ _ _ s λ _ _ e.
        bind-eq _ _ (non_empty_string-Same _ e) λ event. bind-eq _ _ refl λ _.
          index-Same _ _ _ s λ _ _ e'. bind-eq _ _ (bounded_integer-Same _ _ _ e') λ count.
            bind-eq _ _ (add_within-Same _ _ _ (lookup-Same "within" s))
              λ _. add_max_latency-Same event _ _ _ (lookup-Same "max_latency" s)

  parse_stdout_assertion-Same : parse_stdout_assertion m path ≡ parse_stdout_assertion n path
  unfolding parse_stdout_assertion
  parse_stdout_assertion-Same = bind-eq _ _ (allowed-Same _ _ s) λ _. bind-eq _ _ neither λ _.
      bind-eq _ _ (add_text-Same _ _ _ (lookup-Same "contains" s))
        λ _. add_text-Same _ _ _ (lookup-Same "not_contains" s)
    where
      neither :
          raise_if
            (not (has_key "contains" m) && not (has_key "not_contains" m))
            (scenario_error path "stdout assertion requires contains or not_contains")
          ≡ raise_if
              (not (has_key "contains" n) && not (has_key "not_contains" n))
              (scenario_error path "stdout assertion requires contains or not_contains")
      neither = λ i.
          raise_if (not (has_key-Same "contains" s i) && not (has_key-Same "not_contains" s i))
            (scenario_error path "stdout assertion requires contains or not_contains")

  parse_disconnect_assertion-Same :
      parse_disconnect_assertion m path ≡ parse_disconnect_assertion n path
  unfolding parse_disconnect_assertion
  parse_disconnect_assertion-Same =
      bind-eq _ _ (required-Same _ _ s) λ _.
        bind-eq _ _ (allowed-Same _ _ s) λ _. index-Same _ _ _ s λ _ _ e. parse_expected-Same _ e

  parse_kernel_warnings_assertion-Same :
      parse_kernel_warnings_assertion m path ≡ parse_kernel_warnings_assertion n path
  unfolding parse_kernel_warnings_assertion
  parse_kernel_warnings_assertion-Same = bind-eq _ _ (required-Same _ _ s) λ _.
      bind-eq _ _ (allowed-Same _ _ s)
        λ _. index-Same _ _ _ s λ _ _ e. bind-eq _ _ (bounded_integer-Same _ _ _ e) λ _. refl

  -- The branches on the type, for one type.
  parse_typed-mapping :
      (v : Value) (timeout_ms : ℕ)
      → parse_typed m path v timeout_ms ≡ parse_typed n path v timeout_ms
  unfolding parse_typed
  parse_typed-mapping v timeout_ms =
      if-eq (is_str "event_count" v) (parse_event_assertion-Same timeout_ms) (
        if-eq (is_str "stdout" v) parse_stdout_assertion-Same (
          if-eq (is_str "disconnect" v) parse_disconnect_assertion-Same
            (if-eq (is_str "kernel_warnings" v) parse_kernel_warnings_assertion-Same refl)))

  parse_typed-Same :
      {v w : Value} (timeout_ms : ℕ)
      → Same v w
      → parse_typed m path v timeout_ms ≡ parse_typed n path w timeout_ms
  unfolding parse_typed
  parse_typed-Same {v} {w} timeout_ms h =
      Same-eq (λ v. parse_typed m path v timeout_ms) h (λ _ _ _. refl) (λ _ _ _. refl)
      ∙ parse_typed-mapping w timeout_ms

parse_assertion-Same :
    (i : ℕ) {v w : Value} (timeout_ms : ℕ)
    → Same v w
    → parse_assertion i v timeout_ms ≡ parse_assertion i w timeout_ms
unfolding parse_assertion
parse_assertion-Same i timeout_ms h =
    mapping-Same _ _ h
      λ m n s. parse_typed-Same s _ timeout_ms (get_or-Same "type" (str "event_count") s)

parse_all_assertions-Same :
    (i : ℕ) {vs ws : Items} (timeout_ms : ℕ)
    → SameItems vs ws
    → parse_all_assertions i vs timeout_ms ≡ parse_all_assertions i ws timeout_ms
unfolding parse_all_assertions
parse_all_assertions-Same i timeout_ms no_items = refl
parse_all_assertions-Same i timeout_ms (cons_items h s) =
    bind-eq _ _ (parse_assertion-Same i timeout_ms h)
      λ _. bind-eq _ _ (parse_all_assertions-Same (suc i) timeout_ms s) λ _. refl

pub parse_assertions-Same :
    {v w : Value} (timeout_ms : ℕ)
    → Same v w
    → parse_assertions v timeout_ms ≡ parse_assertions w timeout_ms
unfolding parse_assertions
parse_assertions-Same timeout_ms h =
    Same-eq (λ v. parse_assertions v timeout_ms) h (λ _ _ _. refl) in_lists
  where
    in_lists :
        (vs ws : Items)
        → SameItems vs ws
        → parse_assertions (list vs) timeout_ms ≡ parse_assertions (list ws) timeout_ms
    in_lists nil nil no_items = refl
    in_lists (cons v vs) (cons w ws) (cons_items e s) =
        parse_all_assertions-Same 0 timeout_ms (cons_items e s)
    in_lists nil (cons w ws) s = elim s [ ]
    in_lists (cons v vs) nil s = elim s [ ]
