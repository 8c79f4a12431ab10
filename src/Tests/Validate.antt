-- ===== src/Tests/Validate.antt =====
-- The theorems on `validate` and on the failures of `run` in cli.py, at a file system with two files.
use vdev_lab.Base.{
  inl, ℕ, suc, ◌≤◌, ◌≡◌, ◌==◌, length, if◌then◌else◌, String, List, ◌∷◌, refl, [], none, some,
}
use vdev_lab.Scenario.Fields.Findings.{Finds}
use vdev_lab.Scenario.Document.Findings.{IsOsError, IsYamlError, load_scenario-Finds}
use vdev_lab.Cli.Failure.{run_command-failure_code}
use vdev_lab.Base.Int.{pos}
use vdev_lab.Base.Result.{
  Raises, Raises-ok, Raises-if, Raises-err, yaml_error, scenario_error, err, ok,
}
use vdev_lab.Base.Action.{Terminates, ◌>>=◌}
use vdev_lab.Scenario.Document.{load_scenario, parse_scenario}
use vdev_lab.Cli.{run_command, validate_command, validate_files, expand, expand_all}
use vdev_lab.Cli.Validate.{Verdict, validate_command-Verdict}
use vdev_lab.Cli.Program.{Outside, program}
use vdev_lab.Tests.Parse.{parse_document-sample}
use vdev_lab.Tests.Samples.{sample_document, sample_scenario}
use vdev_lab.Tests.Command.{toy_outside}

-- A file system in which the second of two files is no YAML.
abbrev two_files : Outside ℕ
two_files = record toy_outside {
  read_text = λ path w. (ok path, suc w);
  has_magic = λ path. path == "*.yaml";
  sorted_glob = λ path w. (ok ("retry.yaml" ∷ "slow.yaml" ∷ []), w);
  safe_load =
      λ text. if text == "retry.yaml" then ok sample_document else err (yaml_error "line 3");
}

load_scenario-retry :
    load_scenario two_files.safe_load (λ path. ok "retry.yaml") "retry.yaml" ≡ ok sample_scenario
unfolding load_scenario parse_scenario
load_scenario-retry = parse_document-sample

load_scenario-slow :
    load_scenario two_files.safe_load (λ path. ok "slow.yaml") "slow.yaml"
    ≡ err (scenario_error "$" "invalid YAML")
unfolding load_scenario parse_scenario
load_scenario-slow = refl

validate_command-sample : validate_command (program two_files) ("*.yaml" ∷ []) 0 ≡ (ok (pos 2), 4)
unfolding program validate_command validate_files expand_all expand ◌>>=◌
validate_command-sample = rw (load_scenario-retry, load_scenario-slow) refl

validate_command-Verdict_example :
    (paths : List String) × (w' : ℕ) × (expand_all (program two_files) ("*.yaml" ∷ []) 0
      ≡ (ok paths, w'))
    × (1 ≤ length paths)
    × Verdict (program two_files) paths (pos 2)
validate_command-Verdict_example =
    validate_command-Verdict (program two_files) ("*.yaml" ∷ []) 0 validate_command-sample

yaml-two_files : (text : String) → Raises IsYamlError (two_files.safe_load text)
yaml-two_files text =
    Raises-if (text == "retry.yaml") _ _ (Raises-ok _) (Raises-err _ ("line 3", refl))

load_scenario-Finds_example :
    Finds (load_scenario two_files.safe_load (λ path. ok "slow.yaml") "slow.yaml")
load_scenario-Finds_example =
    load_scenario-Finds two_files.safe_load (λ path. ok "slow.yaml") "slow.yaml"
      (Raises-ok "slow.yaml") yaml-two_files

prints_error-two_files :
    (text : String) (w : ℕ) → Terminates ((program two_files).print_error text) w
unfolding program
prints_error-two_files text w = (tt, suc w, refl)

writes-two_files :
    (path text : String) (w : ℕ) → Raises IsOsError ((program two_files).write_text path text w).0
unfolding program
writes-two_files path text w = Raises-ok tt

load-slow :
    (program two_files).load_scenario "slow.yaml" 0 ≡ (err (scenario_error "$" "invalid YAML"), 1)
unfolding program
load-slow = rw load_scenario-slow refl

run_command-failure_code_example :
    (end : ℕ) × (run_command (program two_files) "slow.yaml" (some ".") (some "report.json") none 0
      ≡ (ok (pos 2), end))
run_command-failure_code_example =
    run_command-failure_code (program two_files) prints_error-two_files writes-two_files (some ".")
      (some "report.json") none "slow.yaml" 0 (scenario_error "$" "invalid YAML") 2
      (inl (1, load-slow)) refl
