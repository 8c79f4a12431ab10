-- ===== src/Scenario/Document/Print/Assertions.antt =====
-- The parser of scenario.py accepts the printed assertions.
use vdev_lab.Base.{
  ℕ, suc, ◌≤◌, String, ◌≡◌, refl, List, [], ◌∷◌, map, Option, none, some, All, inl, inr, arith,
  sort_strings,
}
use vdev_lab.Base.Value.{Value, Mapping, items}
use vdev_lab.Base.Result.{ok, ◌>>=◌}
use vdev_lab.Scenario.Schema.{max_duration_ms}
use vdev_lab.Scenario.Fields.{mapping, required, allowed, index, non_empty_string}
use vdev_lab.Scenario.Duration.RoundTrip.{parse_duration-milliseconds}
use vdev_lab.Scenario.Assertions.{
  parse_limit, add_within, add_max_latency, parse_event_assertion, add_text, parse_stdout_assertion,
  parse_disconnect_assertion, parse_kernel_warnings_assertion, parse_typed, parse_assertion,
  parse_all_assertions,
}
use vdev_lab.Scenario.Assertions.Shape.{
  Assertion, event_count, stdout, disconnect, kernel_warnings, encode_assertion, IsValidAssertion,
  IsWithin, IsLatency, with_number,
}
use vdev_lab.Scenario.Document.Print.{duration, assertion_value}
use vdev_lab.Scenario.Document.Print.Parts.{ne_empty, le_ltb, bounded_integer-ok}

parse_limit-duration :
    (n : ℕ) (path : String) (timeout_ms : ℕ)
    → n ≤ timeout_ms
    → timeout_ms ≤ max_duration_ms
    → parse_limit (duration n) path timeout_ms ≡ ok n
unfolding parse_limit ◌>>=◌
parse_limit-duration n path timeout_ms h bound =
    rw (parse_duration-milliseconds n path (omega arith), le_ltb n timeout_ms h) refl

abbrev duration_or_none : Option ℕ → Option Value
duration_or_none none = none
duration_or_none (some n) = some (duration n)

add_within-duration :
    (within : Option ℕ) (path : String) (timeout_ms : ℕ) (m : Mapping)
    → IsWithin timeout_ms within
    → timeout_ms ≤ max_duration_ms
    → add_within (duration_or_none within) path timeout_ms m ≡ ok (with_number "within_ms" within m)
unfolding add_within ◌>>=◌
add_within-duration none path timeout_ms m v bound = refl
add_within-duration (some n) path timeout_ms m v bound =
    rw (parse_limit-duration n _ timeout_ms v bound) refl

add_max_latency-duration :
    (l : Option ℕ) (event path : String) (timeout_ms : ℕ) (m : Mapping)
    → IsLatency event timeout_ms l
    → timeout_ms ≤ max_duration_ms
    → add_max_latency (duration_or_none l) event path timeout_ms m
      ≡ ok (with_number "max_latency_ms" l m)
unfolding add_max_latency ◌>>=◌
add_max_latency-duration none event path timeout_ms m v bound = refl
add_max_latency-duration (some n) event path timeout_ms m (e, v) bound =
    rw (e, parse_limit-duration n _ timeout_ms v bound) refl

module _ (timeout_ms : ℕ) (bound : timeout_ms ≤ max_duration_ms) where
  parse_assertion-assertion_value :
      (a : Assertion) (i : ℕ)
      → IsValidAssertion timeout_ms a
      → parse_assertion i (assertion_value a) timeout_ms ≡ ok (encode_assertion a)
  unfolding parse_assertion parse_typed parse_event_assertion parse_stdout_assertion add_text
      parse_disconnect_assertion parse_kernel_warnings_assertion mapping required allowed index
      non_empty_string sort_strings ◌>>=◌
  parse_assertion-assertion_value (event_count event n none none) i (k, ne, lo, hi, w, l) =
      rw (ne_empty event ne, k, bounded_integer-ok n 1 1_000_000 _ lo hi)
        (rw (add_within-duration none _ timeout_ms _ w bound)
          (add_max_latency-duration none event _ timeout_ms _ l bound))
  parse_assertion-assertion_value (event_count event n none (some b)) i (k, ne, lo, hi, w, l) =
      rw (ne_empty event ne, k, bounded_integer-ok n 1 1_000_000 _ lo hi)
        (rw (add_within-duration none _ timeout_ms _ w bound)
          (add_max_latency-duration (some b) event _ timeout_ms _ l bound))
  parse_assertion-assertion_value (event_count event n (some x) none) i (k, ne, lo, hi, w, l) =
      rw (ne_empty event ne, k, bounded_integer-ok n 1 1_000_000 _ lo hi)
        (rw (add_within-duration (some x) _ timeout_ms _ w bound)
          (add_max_latency-duration none event _ timeout_ms _ l bound))
  parse_assertion-assertion_value (event_count event n (some x) (some b)) i (k, ne, lo, hi, w, l) =
      rw (ne_empty event ne, k, bounded_integer-ok n 1 1_000_000 _ lo hi)
        (rw (add_within-duration (some x) _ timeout_ms _ w bound)
          (add_max_latency-duration (some b) event _ timeout_ms _ l bound))
  parse_assertion-assertion_value (stdout none none) i (_, _, inl h) = absurd (h refl)
  parse_assertion-assertion_value (stdout none none) i (_, _, inr h) = absurd (h refl)
  parse_assertion-assertion_value (stdout none (some t)) i (c, a, h) = rw (ne_empty t a) refl
  parse_assertion-assertion_value (stdout (some s) none) i (c, a, h) = rw (ne_empty s c) refl
  parse_assertion-assertion_value (stdout (some s) (some t)) i (c, a, h) =
      rw (ne_empty s c, ne_empty t a) refl
  parse_assertion-assertion_value (disconnect b) i v = refl
  parse_assertion-assertion_value (kernel_warnings n) i v =
      rw (bounded_integer-ok n 0 1_000_000 _ (omega arith) v) refl

  pub parse_all_assertions-items :
      (i : ℕ) (as' : List Assertion)
      → All (IsValidAssertion timeout_ms) as'
      → parse_all_assertions i (items (map assertion_value as')) timeout_ms
        ≡ ok (map encode_assertion as')
  unfolding parse_all_assertions ◌>>=◌
  parse_all_assertions-items i [] v = refl
  parse_all_assertions-items i (a ∷ as') (v, vs) =
      rw (parse_assertion-assertion_value a i v, parse_all_assertions-items (suc i) as' vs) refl
