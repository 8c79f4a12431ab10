-- ===== src/Scenario/Reordered/Events.antt =====
-- The events of scenario.py do not depend on the order of the fields.
use vdev_lab.Base.{ℕ, suc, ◌≡◌, refl, String, ◌==◌, ◌||◌}
use vdev_lab.Base.Value.{Value, list, Items, Mapping, nil, cons}
use vdev_lab.Scenario.Events.{
  parse_eio, parse_delay, parse_partial_read, parse_disconnect, parse_fault, parse_fault_event,
  parse_write, parse_plain, parse_action, parse_event, parse_all_events, parse_event_list,
  parse_scenario_section,
}
use vdev_lab.Scenario.Reordered.{
  Same, SameItems, no_items, cons_items, SameMapping, Same-eq, non_empty_string-Same,
  parse_duration-Same, bounded_integer-Same,
}
use vdev_lab.Scenario.Reordered.Mappings.{mapping-Same}
use vdev_lab.Scenario.Reordered.Fields.{required-Same, allowed-Same, bind-eq, index-Same, if-eq}

module _ {m n : Mapping} (s : SameMapping m n) (path : String) where
  parse_eio-Same :
      (normalized : Mapping) → parse_eio m path normalized ≡ parse_eio n path normalized
  unfolding parse_eio
  parse_eio-Same normalized = bind-eq _ _ (required-Same _ _ s) λ _.
      bind-eq _ _ (allowed-Same _ _ s)
        λ _. index-Same _ _ _ s λ _ _ e. bind-eq _ _ (bounded_integer-Same _ _ _ e) λ _. refl

  parse_delay-Same :
      (normalized : Mapping) → parse_delay m path normalized ≡ parse_delay n path normalized
  unfolding parse_delay
  parse_delay-Same normalized = bind-eq _ _ (required-Same _ _ s) λ _.
      bind-eq _ _ (allowed-Same _ _ s)
        λ _. index-Same _ _ _ s λ _ _ e. bind-eq _ _ (parse_duration-Same _ e) λ _. refl

  parse_partial_read-Same :
      (normalized : Mapping)
      → parse_partial_read m path normalized ≡ parse_partial_read n path normalized
  unfolding parse_partial_read
  parse_partial_read-Same normalized = bind-eq _ _ (required-Same _ _ s) λ _.
      bind-eq _ _ (allowed-Same _ _ s)
        λ _. index-Same _ _ _ s λ _ _ e. bind-eq _ _ (bounded_integer-Same _ _ _ e) λ _. refl

  parse_disconnect-Same :
      (normalized : Mapping)
      → parse_disconnect m path normalized ≡ parse_disconnect n path normalized
  unfolding parse_disconnect
  parse_disconnect-Same normalized =
      bind-eq _ _ (required-Same _ _ s) λ _. bind-eq _ _ (allowed-Same _ _ s) λ _. refl

  parse_fault-Same :
      (fault_type : String) (normalized : Mapping)
      → parse_fault m path fault_type normalized ≡ parse_fault n path fault_type normalized
  unfolding parse_fault
  parse_fault-Same fault_type normalized = if-eq (fault_type == "eio") (parse_eio-Same normalized) (
      if-eq (fault_type == "delay") (parse_delay-Same normalized) (
        if-eq (fault_type == "partial-read") (parse_partial_read-Same normalized)
          (if-eq (fault_type == "disconnect") (parse_disconnect-Same normalized) refl)))

  parse_fault_event-Same : parse_fault_event m path ≡ parse_fault_event n path
  unfolding parse_fault_event
  parse_fault_event-Same = bind-eq _ _ (required-Same _ _ s) λ _.
      index-Same _ _ _ s
        λ _ _ e. bind-eq _ _ (non_empty_string-Same _ e) λ fault_type. parse_fault-Same fault_type _

  parse_write-Same : parse_write m path ≡ parse_write n path
  unfolding parse_write
  parse_write-Same = bind-eq _ _ (required-Same _ _ s) λ _.
      bind-eq _ _ (allowed-Same _ _ s)
        λ _. index-Same _ _ _ s λ _ _ e. bind-eq _ _ (non_empty_string-Same _ e) λ _. refl

  parse_plain-Same : (action : String) → parse_plain m path action ≡ parse_plain n path action
  unfolding parse_plain
  parse_plain-Same action = bind-eq _ _ (allowed-Same _ _ s) λ _. refl

  parse_action-Same : (action : String) → parse_action m path action ≡ parse_action n path action
  unfolding parse_action
  parse_action-Same action = if-eq (action == "write") parse_write-Same (
      if-eq (action == "fault") parse_fault_event-Same
        (if-eq (action == "clear" || action == "reset") (parse_plain-Same action) refl))

parse_event-Same :
    {v w : Value} (i timeout_ms : ℕ)
    → Same v w
    → parse_event v i timeout_ms ≡ parse_event w i timeout_ms
unfolding parse_event
parse_event-Same i timeout_ms h = mapping-Same _ _ h λ m n s. bind-eq _ _ (required-Same _ _ s) λ _.
    index-Same _ _ _ s λ _ _ e. bind-eq _ _ (parse_duration-Same _ e) λ _. bind-eq _ _ refl λ _.
      index-Same _ _ _ s λ _ _ e'.
        bind-eq _ _ (non_empty_string-Same _ e')
          λ action. bind-eq _ _ (parse_action-Same s _ action) λ _. refl

parse_all_events-Same :
    {vs ws : Items} (i timeout_ms : ℕ)
    → SameItems vs ws
    → parse_all_events i vs timeout_ms ≡ parse_all_events i ws timeout_ms
unfolding parse_all_events
parse_all_events-Same i timeout_ms no_items = refl
parse_all_events-Same i timeout_ms (cons_items h s) =
    bind-eq _ _ (parse_event-Same i timeout_ms h)
      λ _. bind-eq _ _ (parse_all_events-Same (suc i) timeout_ms s) λ _. refl

parse_event_list-Same :
    {v w : Value} (timeout_ms : ℕ)
    → Same v w
    → parse_event_list v timeout_ms ≡ parse_event_list w timeout_ms
unfolding parse_event_list
parse_event_list-Same timeout_ms h =
    Same-eq (λ v. parse_event_list v timeout_ms) h (λ _ _ _. refl) in_lists
  where
    in_lists :
        (vs ws : Items)
        → SameItems vs ws
        → parse_event_list (list vs) timeout_ms ≡ parse_event_list (list ws) timeout_ms
    in_lists nil nil no_items = refl
    in_lists (cons v vs) (cons w ws) (cons_items e s) =
        bind-eq _ _ (parse_all_events-Same 0 timeout_ms (cons_items e s)) λ _. refl
    in_lists nil (cons w ws) s = elim s [ ]
    in_lists (cons v vs) nil s = elim s [ ]

pub parse_scenario_section-Same :
    {v w : Value} → Same v w → parse_scenario_section v ≡ parse_scenario_section w
unfolding parse_scenario_section
parse_scenario_section-Same h = mapping-Same _ _ h λ m n s. bind-eq _ _ (required-Same _ _ s) λ _.
    bind-eq _ _ (allowed-Same _ _ s) λ _. index-Same _ _ _ s λ _ _ e.
      bind-eq _ _ (non_empty_string-Same _ e) λ _. index-Same _ _ _ s λ _ _ e'.
        bind-eq _ _ (parse_duration-Same _ e') λ timeout_ms.
          index-Same _ _ _ s λ _ _ e''. bind-eq _ _ (parse_event_list-Same timeout_ms e'') λ _. refl
