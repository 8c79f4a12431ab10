-- ===== src/Scenario/Reordered/Document.antt =====
-- `parse_scenario` of scenario.py does not depend on the order of the entries of the dicts.
use vdev_lab.Base.{ℕ, suc, ◌≡◌, refl, String}
use vdev_lab.Base.Value.{Value, str, list, Items, nil, cons}
use vdev_lab.Scenario.Schema.{root_fields}
use vdev_lab.Scenario.Sections.{parse_device, parse_arguments, parse_command, parse_application}
use vdev_lab.Scenario.Document.{parse_schema_version, parse_document}
use vdev_lab.Scenario.Reordered.{
  Same, SameItems, no_items, cons_items, Same-eq, non_empty_string-Same, parse_duration-Same,
}
use vdev_lab.Scenario.Reordered.Mappings.{mapping-Same}
use vdev_lab.Scenario.Reordered.Fields.{
  get_or-Same, required-Same, allowed-Same, bind-eq, index-Same,
}
use vdev_lab.Scenario.Reordered.Events.{parse_scenario_section-Same}
use vdev_lab.Scenario.Reordered.Assertions.{parse_assertions-Same}

parse_device-Same : {v w : Value} → Same v w → parse_device v ≡ parse_device w
unfolding parse_device
parse_device-Same h = mapping-Same _ _ h λ m n s. bind-eq _ _ (required-Same _ _ s) λ _.
    bind-eq _ _ (allowed-Same _ _ s)
      λ _. index-Same _ _ _ s λ _ _ e. bind-eq _ _ (non_empty_string-Same _ e) λ _. refl

parse_arguments-Same :
    {vs ws : Items} (i : ℕ) → SameItems vs ws → parse_arguments i vs ≡ parse_arguments i ws
unfolding parse_arguments
parse_arguments-Same i no_items = refl
parse_arguments-Same i (cons_items h s) =
    bind-eq _ _ (non_empty_string-Same _ h)
      λ _. bind-eq _ _ (parse_arguments-Same (suc i) s) λ _. refl

parse_command-Same : {v w : Value} → Same v w → parse_command v ≡ parse_command w
unfolding parse_command
parse_command-Same h = Same-eq parse_command h (λ _ _ _. refl) in_lists
  where
    in_lists : (vs ws : Items) → SameItems vs ws → parse_command (list vs) ≡ parse_command (list ws)
    in_lists nil nil no_items = refl
    in_lists (cons v vs) (cons w ws) (cons_items e s) = parse_arguments-Same 0 (cons_items e s)
    in_lists nil (cons w ws) s = elim s [ ]
    in_lists (cons v vs) nil s = elim s [ ]

parse_application-Same : {v w : Value} → Same v w → parse_application v ≡ parse_application w
unfolding parse_application
parse_application-Same h = mapping-Same _ _ h λ m n s. bind-eq _ _ (required-Same _ _ s) λ _.
    bind-eq _ _ (allowed-Same _ _ s) λ _. index-Same _ _ _ s λ _ _ e.
      bind-eq _ _ (parse_command-Same e) λ _.
        bind-eq _ _ (parse_duration-Same _ (get_or-Same "startup_timeout" (str "2s") s)) λ _. refl

parse_schema_version-Same :
    {v w : Value} → Same v w → parse_schema_version v ≡ parse_schema_version w
unfolding parse_schema_version
parse_schema_version-Same h = Same-eq parse_schema_version h (λ _ _ _. refl) (λ _ _ _. refl)

-- Two documents that differ only in the order of the entries of their dicts, at any depth, are read
-- as the same scenario, or refused with the same message.
pub parse_document-Same :
    {v w : Value} (source : String) → Same v w → parse_document v source ≡ parse_document w source
unfolding parse_document
parse_document-Same source h = mapping-Same _ _ h λ m n s.
    bind-eq _ _ (required-Same root_fields _ s) λ _. bind-eq _ _ (allowed-Same root_fields _ s) λ _.
      index-Same _ _ _ s λ _ _ e. bind-eq _ _ (parse_schema_version-Same e) λ _.
        index-Same _ _ _ s λ _ _ e. bind-eq _ _ (parse_device-Same e) λ _.
          index-Same _ _ _ s λ _ _ e. bind-eq _ _ (parse_application-Same e) λ _.
            index-Same _ _ _ s λ _ _ e.
              bind-eq _ _ (parse_scenario_section-Same e)
                λ _. index-Same _ _ _ s λ _ _ e. bind-eq _ _ (parse_assertions-Same _ e) λ _. refl
