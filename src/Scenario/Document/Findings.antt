-- ===== src/Scenario/Document/Findings.antt =====
-- What `parse_scenario` and `load_scenario` of scenario.py raise.
mod Events
mod Assertions
use vdev_lab.Base.{
  inl, ℕ, suc, ◌≡◌, refl, ap, String, not, starts_with, List, [], ◌∷◌, ◌<>◌, decimal,
}
use vdev_lab.Base.Int.{pos, eqb_ℤ}
use vdev_lab.Base.Value.{Value, str, list, int, Items, nil, cons, get_or}
use vdev_lab.Base.Result.{
  Result, ok, err, Exception, os_error, yaml_error, Raises, Raises-ok, Raises-err, Raises-bind,
  Raises-raise_if,
}
use vdev_lab.Scenario.Schema.{root_fields}
use vdev_lab.Scenario.Fields.Findings.{
  IsFinding, Finds, Finds-err, mapping-Finds, required-Finds, allowed-Finds, index-Finds,
  non_empty_string-Finds, parse_duration-Finds,
}
use vdev_lab.Scenario.Sections.{parse_device, parse_arguments, parse_command, parse_application}
use vdev_lab.Scenario.Document.{
  strerror, parse_schema_version, parse_document, load_error, read_error, parse_scenario,
  load_scenario,
}
use vdev_lab.Scenario.Document.Findings.Events.{parse_scenario_section-Finds}
use vdev_lab.Scenario.Document.Findings.Assertions.{parse_assertions-Finds}

parse_device-Finds : (v : Value) → Finds (parse_device v)
unfolding parse_device
parse_device-Finds v = Raises-bind _ _ (mapping-Finds v _) λ device _.
    Raises-bind _ _ (required-Finds device _ _) λ _ r.
      Raises-bind _ _ (allowed-Finds device _ _) λ _ _.
        Raises-bind _ _ (index-Finds device _ _ "path" r refl) λ raw_path _.
          Raises-bind _ _ (non_empty_string-Finds raw_path _)
            λ path _. Raises-bind _ _ (Raises-raise_if _ _ (inl (_, _, refl))) λ _ _. Raises-ok path

parse_arguments-Finds : (i : ℕ) (vs : Items) → Finds (parse_arguments i vs)
unfolding parse_arguments
parse_arguments-Finds i nil = Raises-ok _
parse_arguments-Finds i (cons v vs) =
    Raises-bind _ _ (non_empty_string-Finds v _)
      λ _ _. Raises-bind _ _ (parse_arguments-Finds (suc i) vs) λ _ _. Raises-ok _

parse_command-Finds : (v : Value) → Finds (parse_command v)
unfolding parse_command
parse_command-Finds (list (cons v vs)) = parse_arguments-Finds 0 (cons v vs)
parse_command-Finds _ = Finds-err _ _

parse_application-Finds : (v : Value) → Finds (parse_application v)
unfolding parse_application
parse_application-Finds v = Raises-bind _ _ (mapping-Finds v _) λ application _.
    Raises-bind _ _ (required-Finds application _ _) λ _ r.
      Raises-bind _ _ (allowed-Finds application _ _) λ _ _.
        Raises-bind _ _ (index-Finds application _ _ "command" r refl) λ raw _.
          Raises-bind _ _ (parse_command-Finds raw) λ _ _.
            Raises-bind _ _
              (parse_duration-Finds (get_or application "startup_timeout" (str "2s")) _)
              λ _ _. Raises-ok _

parse_schema_version-Finds : (v : Value) → Finds (parse_schema_version v)
unfolding parse_schema_version
parse_schema_version-Finds (int n) =
    Raises-bind _ _ (Raises-raise_if _ _ (inl (_, _, refl))) λ _ _. Raises-ok _
parse_schema_version-Finds _ = Finds-err _ _

parse_document-Finds : (v : Value) (source : String) → Finds (parse_document v source)
unfolding parse_document
parse_document-Finds v source = Raises-bind _ _ (mapping-Finds v _) λ root _.
    Raises-bind _ _ (required-Finds root root_fields _) λ _ r.
      Raises-bind _ _ (allowed-Finds root _ _) λ _ _.
        Raises-bind _ _ (index-Finds root _ _ "schema_version" r refl) λ v1 _.
          Raises-bind _ _ (parse_schema_version-Finds v1) λ _ _.
            Raises-bind _ _ (index-Finds root _ _ "device" r refl) λ v2 _.
              Raises-bind _ _ (parse_device-Finds v2) λ _ _.
                Raises-bind _ _ (index-Finds root _ _ "application" r refl) λ v3 _.
                  Raises-bind _ _ (parse_application-Finds v3) λ _ _.
                    Raises-bind _ _ (index-Finds root _ _ "scenario" r refl) λ v4 _.
                      Raises-bind _ _ (parse_scenario_section-Finds v4) λ _ _.
                        Raises-bind _ _ (index-Finds root _ _ "assertions" r refl)
                          λ v5 _. Raises-bind _ _ (parse_assertions-Finds v5 _) λ _ _. Raises-ok _

-- An `OSError`, and an error of the YAML reader.
abbrev pub IsOsError : Exception → Type 0
IsOsError e = (message : String) × (e ≡ os_error message)

abbrev pub IsYamlError : Exception → Type 0
IsYamlError e = (message : String) × (e ≡ yaml_error message)

module _ (safe_load : String → Result Value) (read_text : String → Result String) where
  parse_scenario-Finds :
      (text source : String)
      → Raises IsYamlError (safe_load text)
      → Finds (parse_scenario safe_load read_text text source)
  unfolding parse_scenario
  parse_scenario-Finds text source h = of_document (safe_load text) h
    where
      of_document :
          (r : Result Value)
          → Raises IsYamlError r
          → Finds
              (elim r [ err e ↦ err (load_error e) | ok document ↦ parse_document document source ])
      of_document (ok document) _ = parse_document-Finds document source
      of_document (err e) h =
          let (message, y) = h.raised e refl in
          Raises-err _ (inl ("$", "invalid YAML", ap load_error y))

  -- A scenario file is loaded, or a `ScenarioError` is raised, or the `ValueError` of `int` about a
  -- number of more than 4300 digits: no other exception escapes, not the `KeyError` of a missing field
  -- either, where the file read raises only `OSError` and the YAML reader only its own errors.
  pub load_scenario-Finds :
      (path : String)
      → Raises IsOsError (read_text path)
      → ((text : String) → Raises IsYamlError (safe_load text))
      → Finds (load_scenario safe_load read_text path)
  unfolding load_scenario
  load_scenario-Finds path readable yaml = of_text (read_text path) readable
    where
      of_text :
          (r : Result String)
          → Raises IsOsError r
          → Finds (elim r [
            | err e ↦ err (read_error e path)
            | ok text ↦ parse_scenario safe_load read_text text path
          ])
      of_text (ok text) _ = parse_scenario-Finds text path (yaml text)
      of_text (err e) h =
          let (message, y) = h.raised e refl in
          Raises-err _ (inl (path, strerror message, ap (λ x. read_error x path) y))
