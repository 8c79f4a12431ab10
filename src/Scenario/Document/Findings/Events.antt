-- ===== src/Scenario/Document/Findings/Events.antt =====
-- What the parsers of the events in scenario.py raise.
use vdev_lab.Base.{inl, ℕ, suc, refl, String, ◌==◌, ◌||◌, List, [], ◌∷◌}
use vdev_lab.Base.Value.{Value, list, Items, nil, cons, Mapping}
use vdev_lab.Base.Result.{Raises-ok, Raises-if, Raises-bind, Raises-raise_if}
use vdev_lab.Scenario.Schema.{max_eio_repeat, max_partial_read_bytes}
use vdev_lab.Scenario.Fields.Findings.{
  Finds, Finds-err, mapping-Finds, required-Finds, allowed-Finds, index-Finds,
  non_empty_string-Finds, bounded_integer-Finds, parse_duration-Finds,
}
use vdev_lab.Scenario.Events.{
  parse_eio, parse_delay, parse_partial_read, parse_disconnect, parse_fault, parse_fault_event,
  parse_write, parse_plain, parse_action, parse_event, parse_all_events, check_order,
  check_all_orders, parse_event_list, parse_scenario_section,
}

module _ (event : Mapping) (path : String) where
  parse_eio-Finds : (normalized : Mapping) → Finds (parse_eio event path normalized)
  unfolding parse_eio
  parse_eio-Finds normalized = Raises-bind _ _ (required-Finds event _ path) λ _ r.
      Raises-bind _ _ (allowed-Finds event _ path) λ _ _.
        Raises-bind _ _ (index-Finds event _ _ "repeat" r refl)
          λ raw _. Raises-bind _ _ (bounded_integer-Finds raw _ 1 max_eio_repeat) λ _ _. Raises-ok _

  parse_delay-Finds : (normalized : Mapping) → Finds (parse_delay event path normalized)
  unfolding parse_delay
  parse_delay-Finds normalized = Raises-bind _ _ (required-Finds event _ path) λ _ r.
      Raises-bind _ _ (allowed-Finds event _ path) λ _ _.
        Raises-bind _ _ (index-Finds event _ _ "duration" r refl)
          λ raw _. Raises-bind _ _ (parse_duration-Finds raw _) λ _ _. Raises-ok _

  parse_partial_read-Finds :
      (normalized : Mapping) → Finds (parse_partial_read event path normalized)
  unfolding parse_partial_read
  parse_partial_read-Finds normalized = Raises-bind _ _ (required-Finds event _ path) λ _ r.
      Raises-bind _ _ (allowed-Finds event _ path) λ _ _.
        Raises-bind _ _ (index-Finds event _ _ "bytes" r refl) λ raw _.
          Raises-bind _ _ (bounded_integer-Finds raw _ 1 max_partial_read_bytes) λ _ _. Raises-ok _

  parse_disconnect-Finds : (normalized : Mapping) → Finds (parse_disconnect event path normalized)
  unfolding parse_disconnect
  parse_disconnect-Finds normalized =
      Raises-bind _ _ (required-Finds event _ path)
        λ _ _. Raises-bind _ _ (allowed-Finds event _ path) λ _ _. Raises-ok _

  parse_fault-Finds :
      (fault_type : String) (normalized : Mapping)
      → Finds (parse_fault event path fault_type normalized)
  unfolding parse_fault
  parse_fault-Finds fault_type normalized =
      Raises-if (fault_type == "eio") _ _ (parse_eio-Finds normalized) (
        Raises-if (fault_type == "delay") _ _ (parse_delay-Finds normalized) (
          Raises-if (fault_type == "partial-read") _ _ (parse_partial_read-Finds normalized) (
            Raises-if (fault_type == "disconnect") _ _ (parse_disconnect-Finds normalized)
              (Finds-err _ _))))

  parse_fault_event-Finds : Finds (parse_fault_event event path)
  unfolding parse_fault_event
  parse_fault_event-Finds = Raises-bind _ _ (required-Finds event _ path) λ _ r.
      Raises-bind _ _ (index-Finds event _ _ "type" r refl) λ raw _.
        Raises-bind _ _ (non_empty_string-Finds raw _)
          λ fault_type _. parse_fault-Finds fault_type _

  parse_write-Finds : Finds (parse_write event path)
  unfolding parse_write
  parse_write-Finds = Raises-bind _ _ (required-Finds event _ path) λ _ r.
      Raises-bind _ _ (allowed-Finds event _ path) λ _ _.
        Raises-bind _ _ (index-Finds event _ _ "data" r refl)
          λ raw _. Raises-bind _ _ (non_empty_string-Finds raw _) λ _ _. Raises-ok _

  parse_plain-Finds : (action : String) → Finds (parse_plain event path action)
  unfolding parse_plain
  parse_plain-Finds action = Raises-bind _ _ (allowed-Finds event _ path) λ _ _. Raises-ok _

  parse_action-Finds : (action : String) → Finds (parse_action event path action)
  unfolding parse_action
  parse_action-Finds action = Raises-if (action == "write") _ _ parse_write-Finds (
      Raises-if (action == "fault") _ _ parse_fault_event-Finds (
        Raises-if (action == "clear" || action == "reset") _ _ (parse_plain-Finds action)
          (Finds-err _ _)))

parse_event-Finds : (v : Value) (i timeout_ms : ℕ) → Finds (parse_event v i timeout_ms)
unfolding parse_event
parse_event-Finds v i timeout_ms = Raises-bind _ _ (mapping-Finds v _) λ event _.
    Raises-bind _ _ (required-Finds event _ _) λ _ r.
      Raises-bind _ _ (index-Finds event _ _ "at" r refl) λ raw_at _.
        Raises-bind _ _ (parse_duration-Finds raw_at _) λ at_ms _.
          Raises-bind _ _ (Raises-raise_if _ _ (inl (_, _, refl))) λ _ _.
            Raises-bind _ _ (index-Finds event _ _ "action" r refl) λ raw_action _.
              Raises-bind _ _ (non_empty_string-Finds raw_action _)
                λ action _. Raises-bind _ _ (parse_action-Finds event _ action) λ _ _. Raises-ok _

parse_all_events-Finds :
    (i : ℕ) (vs : Items) (timeout_ms : ℕ) → Finds (parse_all_events i vs timeout_ms)
unfolding parse_all_events
parse_all_events-Finds i nil timeout_ms = Raises-ok _
parse_all_events-Finds i (cons v vs) timeout_ms =
    Raises-bind _ _ (parse_event-Finds v i timeout_ms)
      λ _ _. Raises-bind _ _ (parse_all_events-Finds (suc i) vs timeout_ms) λ _ _. Raises-ok _

check_order-Finds :
    (i previous_ms : ℕ) (parsed : List (ℕ × ℕ × Mapping)) → Finds (check_order i previous_ms parsed)
unfolding check_order
check_order-Finds i previous_ms [] = Raises-ok _
check_order-Finds i previous_ms ((at_ms, _, _) ∷ rest) =
    Raises-bind _ _ (Raises-raise_if _ _ (inl (_, _, refl)))
      λ _ _. check_order-Finds (suc i) at_ms rest

check_all_orders-Finds : (parsed : List (ℕ × ℕ × Mapping)) → Finds (check_all_orders parsed)
unfolding check_all_orders
check_all_orders-Finds [] = Raises-ok _
check_all_orders-Finds ((at_ms, _, _) ∷ rest) = check_order-Finds 1 at_ms rest

parse_event_list-Finds : (v : Value) (timeout_ms : ℕ) → Finds (parse_event_list v timeout_ms)
unfolding parse_event_list
parse_event_list-Finds (list (cons v vs)) timeout_ms =
    Raises-bind _ _ (parse_all_events-Finds 0 (cons v vs) timeout_ms)
      λ parsed _. Raises-bind _ _ (check_all_orders-Finds parsed) λ _ _. Raises-ok _
parse_event_list-Finds _ timeout_ms = Finds-err _ _

pub parse_scenario_section-Finds : (v : Value) → Finds (parse_scenario_section v)
unfolding parse_scenario_section
parse_scenario_section-Finds v = Raises-bind _ _ (mapping-Finds v _) λ scenario _.
    Raises-bind _ _ (required-Finds scenario _ _) λ _ r.
      Raises-bind _ _ (allowed-Finds scenario _ _) λ _ _.
        Raises-bind _ _ (index-Finds scenario _ _ "name" r refl) λ raw_name _.
          Raises-bind _ _ (non_empty_string-Finds raw_name _) λ _ _.
            Raises-bind _ _ (index-Finds scenario _ _ "timeout" r refl) λ raw_timeout _.
              Raises-bind _ _ (parse_duration-Finds raw_timeout _) λ timeout_ms _.
                Raises-bind _ _ (index-Finds scenario _ _ "events" r refl) λ events _.
                  Raises-bind _ _ (parse_event_list-Finds events timeout_ms) λ _ _. Raises-ok _
