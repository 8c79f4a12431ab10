-- ===== src/Scenario/Document/Valid.antt =====
-- A scenario that the parser of scenario.py returns is valid in every field.
use vdev_lab.Base.{
  ℕ, suc, ◌≤◌, String, ◌≡◌, refl, ◌≢◌, not, true, starts_with, List, length, All, arith,
}
use vdev_lab.Base.Value.{Value, int, str, list, Items, nil, cons, get_or, Mapping}
use vdev_lab.Base.Result.{
  Result, ok, err, Ensures, Ensures-ok, Ensures-err, Ensures-bind, raise_if-eq-ok,
}
use vdev_lab.Scenario.Schema.{ScenarioDefinition, max_duration_ms}
use vdev_lab.Scenario.Fields.Accepted.{non_empty_string-ne}
use vdev_lab.Scenario.Duration.Canonical.{parse_duration-Denotes}
use vdev_lab.Scenario.Sections.{parse_device, parse_arguments, parse_command, parse_application}
use vdev_lab.Scenario.Events.{parse_scenario_section}
use vdev_lab.Scenario.Events.Order.{AreEvents, parse_event_list-AreEvents}
use vdev_lab.Scenario.Assertions.Normal.{AreAssertions, parse_assertions-AreAssertions}
use vdev_lab.Scenario.Document.{
  parse_schema_version, parse_document, load_error, read_error, parse_scenario, load_scenario,
}

abbrev pub IsCommand : List String → Type 0
IsCommand command = All (λ s. s ≢ "") command × (1 ≤ length command)

pub record IsValidScenario (d : ScenarioDefinition) : Type 0 where
  pub version : d.schema_version ≡ 1
  pub device : starts_with d.device_path "/dev/" ≡ true
  pub command : IsCommand d.command
  pub startup : d.startup_timeout_ms ≤ max_duration_ms
  pub named : d.name ≢ ""
  pub timeout : d.timeout_ms ≤ max_duration_ms
  pub events : AreEvents d.timeout_ms d.events
  pub some_event : 1 ≤ length d.events
  pub assertions : AreAssertions d.timeout_ms d.assertions
  pub some_assertion : 1 ≤ length d.assertions

parse_device-starts_with :
    (v : Value) → Ensures (λ path. starts_with path "/dev/" ≡ true) (parse_device v)
unfolding parse_device
parse_device-starts_with v = Ensures-bind _ _ λ _ _. Ensures-bind _ _ λ _ _. Ensures-bind _ _ λ _ _.
    Ensures-bind _ _ λ _ _. Ensures-bind _ _ λ path _. Ensures-bind _ _ λ _ e.
      let absolute = raise_if-eq-ok (not (starts_with path "/dev/")) _ e in
      Ensures-ok path (ground arith)

parse_arguments-All :
    (i : ℕ) (vs : Items) → Ensures (λ ss. All (λ s. s ≢ "") ss) (parse_arguments i vs)
unfolding parse_arguments
parse_arguments-All i nil = Ensures-ok _ tt
parse_arguments-All i (cons v vs) = Ensures-bind _ _ λ s e.
    Ensures-bind _ _ λ ss e'.
      Ensures-ok _ ((non_empty_string-ne v _ e).1, (parse_arguments-All (suc i) vs).at ss e')

parse_arguments-pos :
    (i : ℕ) (v : Value) (vs : Items) → Ensures (λ ss. 1 ≤ length ss) (parse_arguments i (cons v vs))
unfolding parse_arguments
parse_arguments-pos i v vs =
    Ensures-bind _ _ λ s _. Ensures-bind _ _ λ ss _. Ensures-ok _ (omega arith)

parse_command-IsCommand : (v : Value) → Ensures IsCommand (parse_command v)
unfolding parse_command
parse_command-IsCommand (list (cons v vs)) = record {
  at = λ ss e. ((parse_arguments-All 0 (cons v vs)).at ss e, (parse_arguments-pos 0 v vs).at ss e);
}
parse_command-IsCommand _ = Ensures-err _

parse_application-IsCommand :
    (v : Value) → Ensures (λ r. IsCommand r.0 × (r.1 ≤ max_duration_ms)) (parse_application v)
unfolding parse_application
parse_application-IsCommand v = Ensures-bind _ _ λ application _. Ensures-bind _ _ λ _ _.
    Ensures-bind _ _ λ _ _. Ensures-bind _ _ λ raw _. Ensures-bind _ _ λ command e.
      Ensures-bind _ _ λ startup e'. Ensures-ok _ (
        (parse_command-IsCommand raw).at command e,
        (parse_duration-Denotes (get_or application "startup_timeout" (str "2s")) _ e').3,
      )

abbrev IsSection : String × ℕ × List Mapping → Type 0
IsSection r = (r.0 ≢ "") × (r.1 ≤ max_duration_ms) × AreEvents r.1 r.2 × (1 ≤ length r.2)

parse_scenario_section-IsSection : (v : Value) → Ensures IsSection (parse_scenario_section v)
unfolding parse_scenario_section
parse_scenario_section-IsSection v = Ensures-bind _ _ λ _ _. Ensures-bind _ _ λ _ _.
    Ensures-bind _ _ λ _ _. Ensures-bind _ _ λ raw_name _. Ensures-bind _ _ λ name named.
      Ensures-bind _ _ λ raw_timeout _. Ensures-bind _ _ λ timeout_ms timed.
        Ensures-bind _ _ λ raw_events _. Ensures-bind _ _ λ events e.
          let (_, _, _, l, valid) = parse_event_list-AreEvents raw_events timeout_ms e in
          Ensures-ok _ (
            (non_empty_string-ne raw_name _ named).1,
            (parse_duration-Denotes raw_timeout _ timed).3,
            valid,
            omega arith,
          )

parse_schema_version-one : (v : Value) → Ensures (λ n. n ≡ 1) (parse_schema_version v)
unfolding parse_schema_version
parse_schema_version-one (int n) = Ensures-bind _ _ λ _ _. Ensures-ok _ refl
parse_schema_version-one _ = Ensures-err _

-- Every scenario that `parse_scenario` returns is valid: version 1, a device below /dev/, a command of
-- non-empty texts, durations of at most 24 hours, a non-empty name, at least one event and one
-- assertion, events in the order of their times that fit the timeout, and assertions in bounds.
pub parse_document-IsValidScenario :
    (v : Value) (source : String) {d : ScenarioDefinition}
    → parse_document v source ≡ ok d
    → IsValidScenario d
unfolding parse_document
parse_document-IsValidScenario v source {d} h = valid.at d h
  where
    valid : Ensures IsValidScenario (parse_document v source)
    valid = Ensures-bind _ _ λ root _. Ensures-bind _ _ λ _ _. Ensures-bind _ _ λ _ _.
        Ensures-bind _ _ λ _ _. Ensures-bind _ _ λ version one. Ensures-bind _ _ λ raw_device _.
          Ensures-bind _ _ λ device_path device. Ensures-bind _ _ λ raw_application _.
            Ensures-bind _ _ λ a started. Ensures-bind _ _ λ raw_scenario _.
              Ensures-bind _ _ λ r parsed. Ensures-bind _ _ λ raw_assertions _.
                Ensures-bind _ _ λ assertions asserted.
                  let app = (parse_application-IsCommand raw_application).at a started in
                  let sec = (parse_scenario_section-IsSection raw_scenario).at r parsed in
                  let (_, _, _, l, ok_assertions) =
                    parse_assertions-AreAssertions raw_assertions r.1 asserted in
                  Ensures-ok _ (record {
                    version = (parse_schema_version-one _).at version one;
                    device = (parse_device-starts_with raw_device).at device_path device;
                    command = app.0;
                    startup = app.1;
                    named = sec.0;
                    timeout = sec.1;
                    events = sec.2;
                    some_event = sec.3;
                    assertions = ok_assertions;
                    some_assertion = omega arith;
                  })

-- A scenario that was loaded from a file is valid.
pub load_scenario-IsValidScenario :
    (safe_load : String → Result Value) (read_text : String → Result String) (path : String)
    {d : ScenarioDefinition}
    → load_scenario safe_load read_text path ≡ ok d
    → IsValidScenario d
unfolding load_scenario parse_scenario
load_scenario-IsValidScenario safe_load read_text path {d} h = of_text (read_text path) h
  where
    of_document :
        (r : Result Value)
        → (elim r [ err e ↦ err (load_error e) | ok document ↦ parse_document document path ])
          ≡ ok d
        → IsValidScenario d
    of_document (err e) k = cc k
    of_document (ok document) k = parse_document-IsValidScenario document path k

    of_text :
        (r : Result String)
        → (elim r [
          | err e ↦ err (read_error e path)
          | ok text ↦ parse_scenario safe_load read_text text path
        ])
          ≡ ok d
        → IsValidScenario d
    of_text (err e) k = cc k
    of_text (ok text) k = of_document (safe_load text) k
