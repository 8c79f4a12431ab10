-- ===== src/Tests/Reordered.antt =====
-- A scenario file whose fields stand in another order.
use vdev_lab.Base.{◌≡◌, ◌≢◌, [], ◌∷◌}
use vdev_lab.Base.Int.{pos}
use vdev_lab.Base.Value.{Value, str, int, list, items}
use vdev_lab.Scenario.Document.{parse_document}
use vdev_lab.Scenario.Reordered.{
  Same, same, dicts, keep_entry, swap_entries, trans_entries, no_entries,
}
use vdev_lab.Scenario.Reordered.Document.{parse_document-Same}
use vdev_lab.Tests.Samples.{dict_of, sample_document, sample_event_values, sample_assertion_values}

-- The device before the version, and the timeout of the scenario before its name.
abbrev reordered_document : Value
reordered_document = dict_of (
    ("device", dict_of (("path", str "/dev/vdevlab0") ∷ []))
    ∷ ("schema_version", int (pos 1))
    ∷ ("application", dict_of (("command", list (items (str "./monitor" ∷ str "-q" ∷ []))) ∷ []))
    ∷ (
      "scenario",
      dict_of
          (("timeout", str "5s") ∷ ("name", str "retry") ∷ ("events", sample_event_values) ∷ []),
    )
    ∷ ("assertions", sample_assertion_values)
    ∷ [])

device_ne : str "device" ≢ str "schema_version"
device_ne h = cc h

timeout_ne : str "timeout" ≢ str "name"
timeout_ne h = cc h

reordered_document-Same : Same reordered_document sample_document
reordered_document-Same = dicts (
    trans_entries (swap_entries device_ne) (
      keep_entry (same _) (
        keep_entry (same _) (
          keep_entry (same _)
            (keep_entry (dicts (swap_entries timeout_ne)) (keep_entry (same _) no_entries))))))

parse_document-Same_example :
    parse_document reordered_document "retry.yaml" ≡ parse_document sample_document "retry.yaml"
parse_document-Same_example = parse_document-Same "retry.yaml" reordered_document-Same
