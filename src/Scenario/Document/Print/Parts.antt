-- ===== src/Scenario/Document/Print/Parts.antt =====
-- The parser of scenario.py accepts the printed events and assertions.
use vdev_lab.Base.{
  ℕ, suc, ◌≤◌, String, ◌==◌, eq_iff, ◌≡◌, ◌≢◌, refl, false, List, [], ◌∷◌, map, All, Linked, ltb,
  arith, sort_strings,
}
use vdev_lab.Base.Int.{pos}
use vdev_lab.Base.Value.{Value, int, items}
use vdev_lab.Base.Result.{ok, ◌>>=◌}
use vdev_lab.Scenario.Schema.{max_duration_ms}
use vdev_lab.Scenario.Fields.{mapping, required, allowed, index, non_empty_string, bounded_integer}
use vdev_lab.Scenario.Duration.RoundTrip.{parse_duration-milliseconds}
use vdev_lab.Scenario.Events.{
  parse_eio, parse_delay, parse_partial_read, parse_disconnect, parse_fault, parse_fault_event,
  parse_write, parse_plain, parse_action, parse_event, parse_all_events, check_order,
  check_all_orders,
}
use vdev_lab.Scenario.Events.Order.{enumerate}
use vdev_lab.Scenario.Events.Shape.{
  Event, EventAction, clear, reset, disconnect, write, eio, delay, partial_read, encode_event,
  IsValidAction, IsValidEvent, Precedes, action_fields,
}
use vdev_lab.Scenario.Document.Print as Print
use vdev_lab.Scenario.Document.Print.{event_value, assertion_value}

pub ne_empty : (s : String) → s ≢ "" → (s == "") ≡ false
ne_empty s h = ground (arith, eq_iff s "")

pub le_ltb : (m n : ℕ) → m ≤ n → ltb n m ≡ false
le_ltb m n h = ground arith

pub bounded_integer-ok :
    (n minimum maximum : ℕ) (path : String)
    → minimum ≤ n
    → n ≤ maximum
    → bounded_integer (int (pos n)) path minimum maximum ≡ ok n
unfolding bounded_integer
bounded_integer-ok n minimum maximum path h k = ground arith

parse_action-action_fields :
    (a : EventAction) (at : Value) (path : String)
    → IsValidAction a
    → parse_action (("at", at) ∷ Print.action_fields a) path (Print.action_word a)
      ≡ ok (action_fields a)
unfolding parse_action parse_write parse_plain parse_fault_event parse_fault parse_eio parse_delay
    parse_partial_read parse_disconnect required allowed index non_empty_string sort_strings ◌>>=◌
parse_action-action_fields clear at path v = refl
parse_action-action_fields reset at path v = refl
parse_action-action_fields disconnect at path v = refl
parse_action-action_fields (write text) at path v = rw (ne_empty text v) refl
parse_action-action_fields (eio n) at path v = rw (bounded_integer-ok n 1 1_000_000 _ v.0 v.1) refl
parse_action-action_fields (delay n) at path v = rw (parse_duration-milliseconds n _ v) refl
parse_action-action_fields (partial_read n) at path v =
    rw (bounded_integer-ok n 1 4096 _ v.0 v.1) refl

parse_event-action :
    (n : ℕ) (a : EventAction) (i timeout_ms : ℕ)
    → IsValidAction a
    → n ≤ timeout_ms
    → timeout_ms ≤ max_duration_ms
    → parse_event (event_value (record { at_ms = n; action = a })) i timeout_ms
      ≡ ok (n, i, encode_event (record { at_ms = n; action = a }))
unfolding parse_event mapping required index non_empty_string sort_strings ◌>>=◌
parse_event-action n clear i timeout_ms v h bound =
    rw (parse_duration-milliseconds n _ (omega arith), le_ltb n timeout_ms h)
      (rw (parse_action-action_fields clear (Print.duration n) _ v) refl)
parse_event-action n a i timeout_ms v h bound =
    rw (parse_duration-milliseconds n _ (omega arith), le_ltb n timeout_ms h)
      (rw (parse_action-action_fields a (Print.duration n) _ v) refl)

pub parse_all_events-items :
    (i : ℕ) (es : List Event) (timeout_ms : ℕ)
    → All (IsValidEvent timeout_ms) es
    → timeout_ms ≤ max_duration_ms
    → parse_all_events i (items (map event_value es)) timeout_ms ≡ ok (enumerate i es)
unfolding parse_all_events ◌>>=◌
parse_all_events-items i [] timeout_ms v bound = refl
parse_all_events-items i (e ∷ es) timeout_ms (v, vs) bound =
    rw
      (
        parse_event-action e.at_ms e.action i timeout_ms v.1 v.0 bound,
        parse_all_events-items (suc i) es timeout_ms vs bound,
      )
      refl

check_order-ok :
    (i : ℕ) (e : Event) (es : List Event)
    → Linked Precedes (e ∷ es)
    → check_order i e.at_ms (enumerate i es) ≡ ok tt
unfolding check_order ◌>>=◌
check_order-ok i e [] h = refl
check_order-ok i e (f ∷ es) (h, l) = rw (le_ltb e.at_ms f.at_ms h) (check_order-ok (suc i) f es l)

pub check_all_orders-ok :
    (es : List Event) → Linked Precedes es → check_all_orders (enumerate 0 es) ≡ ok tt
unfolding check_all_orders
check_all_orders-ok [] l = refl
check_all_orders-ok (e ∷ es) l = check_order-ok 1 e es l
