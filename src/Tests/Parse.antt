-- ===== src/Tests/Parse.antt =====
-- The theorems on scenario.py at a scenario file.
use vdev_lab.Base.{
  ◌≡◌, refl, length, suc, String, ◌<>◌, decimal, decimal_onto, digit, ◌≤◌, sort_strings,
}
use vdev_lab.Base.Value.{Value, Items, list, cons, values, str}
use vdev_lab.Base.Result.{ok, err, scenario_error, ◌>>=◌}
use vdev_lab.Scenario.Fields.{mapping, required, allowed, index, non_empty_string, bounded_integer}
use vdev_lab.Scenario.Duration.{
  int_of_text, count_chars, split_digits, is_magnitude, match_duration, int_of_digits, duration_of,
  parse_duration,
}
use vdev_lab.Scenario.Sections.{parse_device, parse_arguments, parse_command, parse_application}
use vdev_lab.Scenario.Events.{
  parse_eio, parse_delay, parse_partial_read, parse_disconnect, parse_fault, parse_fault_event,
  parse_write, parse_plain, parse_action, event_path, parse_event, parse_all_events, check_order,
  check_all_orders, parse_event_list, parse_scenario_section,
}
use vdev_lab.Scenario.Assertions.{
  parse_limit, add_within, add_max_latency, parse_event_assertion, add_text, parse_stdout_assertion,
  parse_disconnect_assertion, parse_kernel_warnings_assertion, parse_typed, parse_assertion,
  parse_all_assertions, parse_assertions,
}
use vdev_lab.Scenario.Document.{parse_schema_version, parse_document, parse_scenario, load_scenario}
use vdev_lab.Scenario.Duration.RoundTrip.{seconds, parse_duration-decimal}
use vdev_lab.Scenario.Duration.Canonical.{Denotes, parse_duration-Denotes}
use vdev_lab.Scenario.Events.Order.{AreEvents, parse_event_list-AreEvents}
use vdev_lab.Scenario.Assertions.Normal.{AreAssertions, parse_assertions-AreAssertions}
use vdev_lab.Scenario.Document.Valid.{IsValidScenario, parse_document-IsValidScenario}
use vdev_lab.Tests.Samples.{
  sample_document, sample_scenario, sample_event_values, sample_assertion_values,
}

pub parse_document-sample : parse_document sample_document "retry.yaml" ≡ ok sample_scenario
unfolding mapping required allowed index non_empty_string bounded_integer split_digits is_magnitude
    match_duration int_of_digits int_of_text count_chars duration_of parse_duration parse_device
    parse_arguments parse_command parse_application parse_eio parse_delay parse_partial_read
    parse_disconnect parse_fault parse_fault_event parse_write parse_plain parse_action event_path
    parse_event parse_all_events check_order check_all_orders parse_event_list
    parse_scenario_section parse_limit add_within add_max_latency parse_event_assertion add_text
    parse_stdout_assertion parse_disconnect_assertion parse_kernel_warnings_assertion parse_typed
    parse_assertion parse_all_assertions parse_assertions parse_schema_version parse_document
    parse_scenario load_scenario ◌>>=◌ decimal decimal_onto digit sort_strings
parse_document-sample = refl

parse_document-IsValidScenario_example : IsValidScenario sample_scenario
parse_document-IsValidScenario_example =
    parse_document-IsValidScenario sample_document "retry.yaml" parse_document-sample

parse_duration-decimal_example :
    parse_duration (str (decimal 90000 <> "s")) "at"
    ≡ err (scenario_error "at" "must not exceed 24h")
unfolding decimal decimal_onto count_chars
parse_duration-decimal_example = parse_duration-decimal 90000 seconds "at"

parse_duration-five : parse_duration (str "5s") "at" ≡ ok 5000
unfolding parse_duration match_duration split_digits is_magnitude int_of_digits int_of_text
    count_chars ◌>>=◌ duration_of
parse_duration-five = refl

parse_duration-Denotes_example :
    (s : String) × (str "5s" ≡ str s) × Denotes s 5000 × (5000 ≤ 86_400_000)
parse_duration-Denotes_example = parse_duration-Denotes (str "5s") "at" parse_duration-five

parse_event_list-sample : parse_event_list sample_event_values 5000 ≡ ok sample_scenario.events
unfolding mapping required allowed index non_empty_string bounded_integer split_digits is_magnitude
    match_duration int_of_digits int_of_text count_chars duration_of parse_duration parse_device
    parse_arguments parse_command parse_application parse_eio parse_delay parse_partial_read
    parse_disconnect parse_fault parse_fault_event parse_write parse_plain parse_action event_path
    parse_event parse_all_events check_order check_all_orders parse_event_list
    parse_scenario_section parse_limit add_within add_max_latency parse_event_assertion add_text
    parse_stdout_assertion parse_disconnect_assertion parse_kernel_warnings_assertion parse_typed
    parse_assertion parse_all_assertions parse_assertions parse_schema_version parse_document
    parse_scenario load_scenario ◌>>=◌ decimal decimal_onto digit sort_strings
parse_event_list-sample = refl

parse_event_list-AreEvents_example :
    (w : Value) × (ws : Items) × (sample_event_values ≡ list (cons w ws))
    × (length sample_scenario.events ≡ suc (length (values ws)))
    × AreEvents 5000 sample_scenario.events
parse_event_list-AreEvents_example =
    parse_event_list-AreEvents sample_event_values 5000 parse_event_list-sample

parse_assertions-sample :
    parse_assertions sample_assertion_values 5000 ≡ ok sample_scenario.assertions
unfolding mapping required allowed index non_empty_string bounded_integer split_digits is_magnitude
    match_duration int_of_digits int_of_text count_chars duration_of parse_duration parse_device
    parse_arguments parse_command parse_application parse_eio parse_delay parse_partial_read
    parse_disconnect parse_fault parse_fault_event parse_write parse_plain parse_action event_path
    parse_event parse_all_events check_order check_all_orders parse_event_list
    parse_scenario_section parse_limit add_within add_max_latency parse_event_assertion add_text
    parse_stdout_assertion parse_disconnect_assertion parse_kernel_warnings_assertion parse_typed
    parse_assertion parse_all_assertions parse_assertions parse_schema_version parse_document
    parse_scenario load_scenario ◌>>=◌ decimal decimal_onto digit sort_strings
parse_assertions-sample = refl

parse_assertions-AreAssertions_example :
    (w : Value) × (ws : Items) × (sample_assertion_values ≡ list (cons w ws))
    × (length sample_scenario.assertions ≡ suc (length (values ws)))
    × AreAssertions 5000 sample_scenario.assertions
parse_assertions-AreAssertions_example =
    parse_assertions-AreAssertions sample_assertion_values 5000 parse_assertions-sample
