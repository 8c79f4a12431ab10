-- ===== src/Tests/Main.antt =====
-- The theorems on `main` of cli.py, with an argument parser that knows one option.
use vdev_lab.Base.{
  ◌⊎◌, inl, inr, ℕ, ◌≡◌, ◌==◌, refl, ap, subst, String, Bool, true, false, List, [], ◌∷◌, none,
  some, arith, if◌then◌else◌,
}
use vdev_lab.Base.Int.{pos}
use vdev_lab.Base.Result.{Result, ok, err, foreign, ok-injective}
use vdev_lab.Base.Action.{Action, ◌>>=◌}
use vdev_lab.Cli.Program.{program}
use vdev_lab.Cli.Main.{Parser, Namespace, parser, run_arguments, main}
use vdev_lab.Cli.Main.Codes.{IsExitCode}
use vdev_lab.Cli.Main.Exit.{Given, AllLoaded, RunPassed, main-zero, main-IsExitCode}
use vdev_lab.Tests.Command.{toy_outside, run_command-sample}

abbrev arguments_for : String → String → String → Namespace
arguments_for command path report = record {
  command = command;
  paths = path ∷ [];
  path = path;
  cwd = some ".";
  report = some report;
  junit_xml = none;
}

abbrev toy_result : String → String → String → Result Namespace
toy_result command path report =
    if command == "validate"
    then ok (arguments_for "validate" path report)
    else if command == "run"
    then ok (arguments_for "run" path report)
    else err (foreign "SystemExit" "2")

-- An argument parser for a command, a path and the option `--report`.
abbrev toy_parse_args : Parser → List String → Action ℕ Namespace
toy_parse_args p (command ∷ path ∷ option ∷ report ∷ []) w = (toy_result command path report, w)
toy_parse_args p _ w = (err (foreign "SystemExit" "2"), w)

toy_result-Given :
    (command path report : String) (arguments : Namespace)
    → toy_result command path report ≡ ok arguments
    → Given arguments parser.commands
unfolding parser
toy_result-Given command path report arguments h =
    by_command (command == "validate") (command == "run") h
  where
    by_command :
        (b c : Bool)
        → (if b
            then ok (arguments_for "validate" path report)
            else if c
            then ok (arguments_for "run" path report)
            else err (foreign "SystemExit" "2"))
          ≡ ok arguments
        → Given arguments parser.commands
    by_command true c e =
        subst (λ a. Given a parser.commands) (ok-injective e)
          (inl (refl, ((λ _ _. omega arith), tt)))
    by_command false true e =
        subst (λ a. Given a parser.commands) (ok-injective e)
          (inr (inl (refl, ((λ h. cc), ((λ _ _ h. cc), ((λ _ h. cc), ((λ _ h. cc), tt)))))))
    by_command false false e = cc

toy_parse_args-Given :
    (argv : List String) (w : ℕ) (arguments : Namespace) (w' : ℕ)
    → toy_parse_args parser argv w ≡ (ok arguments, w')
    → Given arguments parser.commands
toy_parse_args-Given (command ∷ path ∷ option ∷ report ∷ []) w arguments w' h =
    toy_result-Given command path report arguments (ap (λ t. t.0) h)
toy_parse_args-Given _ w arguments w' h = cc h

main-sample :
    main toy_parse_args
      (program toy_outside)
      ("run" ∷ "retry.yaml" ∷ "--report" ∷ "report.json" ∷ [])
      0
    ≡ (ok (pos 0), 1114)
unfolding main run_arguments ◌>>=◌
main-sample = run_command-sample

main-zero_example :
    (arguments : Namespace) × (w' : ℕ) × (toy_parse_args parser
        ("run" ∷ "retry.yaml" ∷ "--report" ∷ "report.json" ∷ [])
        0
      ≡ (ok arguments, w'))
    × (AllLoaded toy_outside arguments.paths w' ⊎ RunPassed toy_outside arguments w')
main-zero_example =
    main-zero toy_parse_args toy_outside toy_parse_args-Given
      ("run" ∷ "retry.yaml" ∷ "--report" ∷ "report.json" ∷ []) 0 main-sample

main-IsExitCode_example : IsExitCode (pos 0)
main-IsExitCode_example =
    main-IsExitCode toy_parse_args toy_outside toy_parse_args-Given
      ("run" ∷ "retry.yaml" ∷ "--report" ∷ "report.json" ∷ []) 0 main-sample
