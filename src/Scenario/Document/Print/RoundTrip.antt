-- ===== src/Scenario/Document/Print/RoundTrip.antt =====
-- The parser of scenario.py reads a printed scenario back.
use vdev_lab.Base.{
  ℕ, suc, ◌≤◌, String, starts_with, ◌≡◌, ◌≢◌, refl, ap, true, List, [], ◌∷◌, map, All, Linked,
  length, arith, sort_strings,
}
use vdev_lab.Base.Value.{str, list, items}
use vdev_lab.Base.Result.{ok, ◌>>=◌}
use vdev_lab.Scenario.Schema.{max_duration_ms}
use vdev_lab.Scenario.Fields.{mapping, required, allowed, index, non_empty_string}
use vdev_lab.Scenario.Duration.RoundTrip.{parse_duration-milliseconds}
use vdev_lab.Scenario.Sections.{parse_device, parse_arguments, parse_command, parse_application}
use vdev_lab.Scenario.Events.{parse_event_list, parse_scenario_section}
use vdev_lab.Scenario.Events.Shape.{Event, encode_event, IsValidEvent, Precedes}
use vdev_lab.Scenario.Events.Order.{map-enumerate}
use vdev_lab.Scenario.Assertions.{parse_assertions}
use vdev_lab.Scenario.Assertions.Shape.{Assertion, encode_assertion, IsValidAssertion}
use vdev_lab.Scenario.Document.{parse_schema_version, parse_document}
use vdev_lab.Scenario.Document.Valid.{IsCommand}
use vdev_lab.Scenario.Document.Print.{
  Contents, event_value, assertion_value, document_value, definition_of, dict_of,
}
use vdev_lab.Scenario.Document.Print.Parts.{ne_empty, parse_all_events-items, check_all_orders-ok}
use vdev_lab.Scenario.Document.Print.Assertions.{parse_all_assertions-items}

pub record IsValidContents (c : Contents) : Type 0 where
  pub device : starts_with c.device_path "/dev/" ≡ true
  pub command : IsCommand c.command
  pub startup : c.startup_timeout_ms ≤ max_duration_ms
  pub named : c.name ≢ ""
  pub timeout : c.timeout_ms ≤ max_duration_ms
  pub events : All (IsValidEvent c.timeout_ms) c.events
  pub ordered : Linked Precedes c.events
  pub some_event : 1 ≤ length c.events
  pub assertions : All (IsValidAssertion c.timeout_ms) c.assertions
  pub some_assertion : 1 ≤ length c.assertions

starts_with-ne : (s : String) → starts_with s "/dev/" ≡ true → s ≢ ""
starts_with-ne s h e = let k = rw e at h in cc k

parse_device-path :
    (s : String)
    → starts_with s "/dev/" ≡ true
    → parse_device (dict_of (("path", str s) ∷ [])) ≡ ok s
unfolding parse_device mapping required allowed index non_empty_string sort_strings ◌>>=◌
parse_device-path s h = rw (ne_empty s (starts_with-ne s h), h) refl

parse_arguments-items :
    (i : ℕ) (ss : List String)
    → All (λ s. s ≢ "") ss
    → parse_arguments i (items (map str ss)) ≡ ok ss
unfolding parse_arguments non_empty_string ◌>>=◌
parse_arguments-items i [] h = refl
parse_arguments-items i (s ∷ ss) (h, hs) =
    rw (ne_empty s h, parse_arguments-items (suc i) ss hs) refl

parse_command-items :
    (ss : List String) → IsCommand ss → parse_command (list (items (map str ss))) ≡ ok ss
unfolding parse_command
parse_command-items [] h = absurd (omega arith)
parse_command-items (s ∷ ss) h = parse_arguments-items 0 (s ∷ ss) h.0

parse_event_list-items :
    (es : List Event) (timeout_ms : ℕ)
    → All (IsValidEvent timeout_ms) es
    → Linked Precedes es
    → 1 ≤ length es
    → timeout_ms ≤ max_duration_ms
    → parse_event_list (list (items (map event_value es))) timeout_ms ≡ ok (map encode_event es)
unfolding parse_event_list ◌>>=◌
parse_event_list-items [] timeout_ms v l h bound = absurd (omega arith)
parse_event_list-items (e ∷ es) timeout_ms v l h bound =
    rw (parse_all_events-items 0 (e ∷ es) timeout_ms v bound, check_all_orders-ok (e ∷ es) l)
      (ap ok (map-enumerate 0 (e ∷ es)))

parse_assertions-items :
    (as' : List Assertion) (timeout_ms : ℕ)
    → All (IsValidAssertion timeout_ms) as'
    → 1 ≤ length as'
    → timeout_ms ≤ max_duration_ms
    → parse_assertions (list (items (map assertion_value as'))) timeout_ms
      ≡ ok (map encode_assertion as')
unfolding parse_assertions
parse_assertions-items [] timeout_ms v h bound = absurd (omega arith)
parse_assertions-items (a ∷ as') timeout_ms v h bound =
    parse_all_assertions-items timeout_ms bound 0 (a ∷ as') v

-- Every valid scenario can be written: its document, with the durations in milliseconds, is accepted
-- by the parser and read back as the scenario, with nothing lost or changed.
pub parse_document-document_value :
    (c : Contents) (source : String)
    → IsValidContents c
    → parse_document (document_value c) source ≡ ok (definition_of source c)
unfolding parse_document parse_schema_version parse_application parse_scenario_section mapping
    required allowed index non_empty_string sort_strings ◌>>=◌
parse_document-document_value c source v =
    rw
      (
        parse_device-path c.device_path v.device,
        parse_command-items c.command v.command,
        parse_duration-milliseconds c.startup_timeout_ms "application.startup_timeout" v.startup,
        ne_empty c.name v.named,
        parse_duration-milliseconds c.timeout_ms "scenario.timeout" v.timeout,
        parse_event_list-items c.events c.timeout_ms v.events v.ordered v.some_event v.timeout,
        parse_assertions-items c.assertions c.timeout_ms v.assertions v.some_assertion v.timeout,
      )
      refl
