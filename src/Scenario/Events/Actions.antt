-- ===== src/Scenario/Events/Actions.antt =====
-- The branches of `_parse_event` return valid actions.
use vdev_lab.Base.{String, ◌≡◌, refl, ◌==◌, [], ◌∷◌, sym, inl, inr, eq_iff, ◌||◌, true, arith, ◌⊎◌}
use vdev_lab.Base.Value.{str, Mapping}
use vdev_lab.Base.Result.{Ensures, Ensures-ok, Ensures-err, Ensures-if, Ensures-bind}
use vdev_lab.Scenario.Fields.Accepted.{bounded_integer-bounds, non_empty_string-ne}
use vdev_lab.Scenario.Duration.Canonical.{parse_duration-Denotes}
use vdev_lab.Scenario.Events.{
  parse_eio, parse_delay, parse_partial_read, parse_disconnect, parse_fault, parse_fault_event,
  parse_write, parse_plain, parse_action,
}
use vdev_lab.Scenario.Events.Shape.{
  EventAction, clear, reset, disconnect, write, eio, delay, partial_read, action_fields,
  IsValidAction,
}

abbrev pub IsActionDict : Mapping → Type 0
IsActionDict m = (a : EventAction) × IsValidAction a × (m ≡ action_fields a)

abbrev fault_dict : String → Mapping
fault_dict fault_type = ("action", str "fault") ∷ ("type", str fault_type) ∷ []

is_plain :
    (action : String)
    → (action == "clear" || action == "reset") ≡ true
    → (action ≡ "clear") ⊎ (action ≡ "reset")
is_plain action h = ground (arith, eq_iff action "clear", eq_iff action "reset")

module _ (event : Mapping) (path : String) where
  parse_eio-IsActionDict : Ensures IsActionDict (parse_eio event path (fault_dict "eio"))
  unfolding parse_eio
  parse_eio-IsActionDict = Ensures-bind _ _ λ _ _. Ensures-bind _ _ λ _ _. Ensures-bind _ _ λ raw _.
      Ensures-bind _ _ λ n e.
        let bounds = bounded_integer-bounds raw _ 1 _ e in
        Ensures-ok _ (eio n, (bounds.1, bounds.2), refl)

  parse_delay-IsActionDict : Ensures IsActionDict (parse_delay event path (fault_dict "delay"))
  unfolding parse_delay
  parse_delay-IsActionDict = Ensures-bind _ _ λ _ _. Ensures-bind _ _ λ _ _.
      Ensures-bind _ _ λ raw _.
        Ensures-bind _ _ λ n e. Ensures-ok _ (delay n, (parse_duration-Denotes raw _ e).3, refl)

  parse_partial_read-IsActionDict :
      Ensures IsActionDict (parse_partial_read event path (fault_dict "partial-read"))
  unfolding parse_partial_read
  parse_partial_read-IsActionDict = Ensures-bind _ _ λ _ _. Ensures-bind _ _ λ _ _.
      Ensures-bind _ _ λ raw _. Ensures-bind _ _ λ n e.
        let bounds = bounded_integer-bounds raw _ 1 _ e in
        Ensures-ok _ (partial_read n, (bounds.1, bounds.2), refl)

  parse_disconnect-IsActionDict :
      Ensures IsActionDict (parse_disconnect event path (fault_dict "disconnect"))
  unfolding parse_disconnect
  parse_disconnect-IsActionDict =
      Ensures-bind _ _ λ _ _. Ensures-bind _ _ λ _ _. Ensures-ok _ (disconnect, tt, refl)

  parse_fault-IsActionDict :
      (fault_type : String)
      → Ensures IsActionDict (parse_fault event path fault_type (fault_dict fault_type))
  unfolding parse_fault
  parse_fault-IsActionDict fault_type =
      Ensures-if _ _ _ (λ e. rw ((eq_iff fault_type "eio").0 e) parse_eio-IsActionDict)
        λ _.
          Ensures-if _ _ _ (λ e. rw ((eq_iff fault_type "delay").0 e) parse_delay-IsActionDict)
            λ _.
              Ensures-if _ _ _
                (λ e. rw ((eq_iff fault_type "partial-read").0 e) parse_partial_read-IsActionDict)
                λ _.
                  Ensures-if _ _ _
                    (λ e. rw ((eq_iff fault_type "disconnect").0 e) parse_disconnect-IsActionDict)
                    λ _. Ensures-err _

  parse_fault_event-IsActionDict : Ensures IsActionDict (parse_fault_event event path)
  unfolding parse_fault_event
  parse_fault_event-IsActionDict = Ensures-bind _ _ λ _ _.
      Ensures-bind _ _ λ _ _. Ensures-bind _ _ λ fault_type _. parse_fault-IsActionDict fault_type

  parse_write-IsActionDict : Ensures IsActionDict (parse_write event path)
  unfolding parse_write
  parse_write-IsActionDict = Ensures-bind _ _ λ _ _. Ensures-bind _ _ λ _ _.
      Ensures-bind _ _ λ raw _.
        Ensures-bind _ _ λ text e. Ensures-ok _ (write text, (non_empty_string-ne raw _ e).1, refl)

  parse_plain-IsActionDict :
      (a : EventAction) (action : String)
      → IsValidAction a
      → action_fields a ≡ ("action", str action) ∷ []
      → Ensures IsActionDict (parse_plain event path action)
  unfolding parse_plain
  parse_plain-IsActionDict a action v e = Ensures-bind _ _ λ _ _. Ensures-ok _ (a, v, sym e)

  parse_named :
      (action : String)
      → (action ≡ "clear") ⊎ (action ≡ "reset")
      → Ensures IsActionDict (parse_plain event path action)
  parse_named action (inl e) = rw e (parse_plain-IsActionDict clear "clear" tt refl)
  parse_named action (inr e) = rw e (parse_plain-IsActionDict reset "reset" tt refl)

  pub parse_action-IsActionDict :
      (action : String) → Ensures IsActionDict (parse_action event path action)
  unfolding parse_action
  parse_action-IsActionDict action =
      Ensures-if (action == "write") _ _ (λ _. parse_write-IsActionDict)
        λ _.
          Ensures-if (action == "fault") _ _ (λ _. parse_fault_event-IsActionDict)
            λ _. Ensures-if _ _ _ (λ e. parse_named action (is_plain action e)) λ _. Ensures-err _
