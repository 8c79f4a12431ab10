-- ===== src/Cli/Main/Exit.antt =====
-- The exit codes of `main` of cli.py, for both commands.
use vdev_lab.Base.{
  ◌≤◌, ◌≡◌, ◌≢◌, ◌⊎◌, inl, inr, refl, sym, subst, ◌∙◌, String, List, [], ◌∷◌, All, Option, none,
  some, length, arith,
}
use vdev_lab.Base.Int.{ℤ, pos}
use vdev_lab.Base.Result.{ok}
use vdev_lab.Base.Action.{Action, >>=-eq-ok}
use vdev_lab.Cli.{Services, run_command, validate_command, expand_all}
use vdev_lab.Cli.Validate.{Loads, Verdict, validate_command-Verdict}
use vdev_lab.Cli.Program.{Outside, program, PassedScenario, run_command-PassedScenario}
use vdev_lab.Cli.Main.Codes.{IsExitCode, run_command-IsExitCode, validate_command-IsExitCode}
use vdev_lab.Cli.Main.{
  Argument, positional, optional, Subcommand, Parser, Namespace, parser, run_arguments, main,
}

-- What argparse documents of an argument: with `nargs` "+" there is at least one value, and an
-- argument that has a default is never `None`.
abbrev Stored : Namespace → Argument → Type 0
Stored arguments (positional name nargs help) =
    nargs ≡ some "+" → name ≡ "paths" → 1 ≤ length arguments.paths
Stored arguments (optional name default help) =
    default ≢ none → name ≡ "--cwd" → arguments.cwd ≢ none

-- What argparse documents of required subcommands: one of them was given, with its arguments.
abbrev pub Given : Namespace → List Subcommand → Type 0
Given arguments [] = ⊥
Given arguments (c ∷ cs) =
    ((c.name ≡ arguments.command) × All (Stored arguments) c.arguments) ⊎ Given arguments cs

some-of : {A : Type 0} (m : Option A) → m ≢ none → (a : A) × (m ≡ some a)
some-of none h = absurd (h refl)
some-of (some a) h = (a, refl)

-- With one of the program's two commands, the arguments that the command needs are there.
Given-parser :
    (arguments : Namespace)
    → Given arguments parser.commands
    → ((arguments.command ≡ "validate") × (1 ≤ length arguments.paths))
      ⊎ ((arguments.command ≡ "run") × ((directory : String) × (arguments.cwd ≡ some directory)))
unfolding parser
Given-parser arguments (inl (e, (paths, _))) = inl (sym e, paths refl refl)
Given-parser arguments (inr (inl (e, (_, (cwd, _))))) =
    inr (sym e, some-of arguments.cwd (cwd (λ h. cc) refl))
Given-parser arguments (inr (inr x)) = absurd x

module _ {ℓ} {W : Type ℓ} (parse_args : Parser → List String → Action W Namespace)
    (services : Services W) (arguments : Namespace) (w : W) where
  run_arguments-validate :
      arguments.command ≡ "validate"
      → run_arguments parse_args services arguments w ≡ validate_command services arguments.paths w
  unfolding run_arguments
  run_arguments-validate h = rw h refl

  run_arguments-run :
      arguments.command ≡ "run"
      → run_arguments parse_args services arguments w
        ≡ run_command services arguments.path arguments.cwd arguments.report arguments.junit_xml w
  unfolding run_arguments
  run_arguments-run h = rw h refl

module _ {ℓ} {W : Type ℓ} (outside : Outside W) where
  -- All files that the arguments of `validate` stand for were loaded, and there are some.
  abbrev pub AllLoaded : List String → W → Type ℓ
  AllLoaded arguments w =
      (paths : List String) × (w' : W) × (expand_all (program outside) arguments w ≡ (ok paths, w'))
      × (1 ≤ length paths)
      × All (Loads (program outside)) paths

  -- The run of a scenario in a directory has passed.
  abbrev pub RunPassed : Namespace → W → Type ℓ
  RunPassed arguments w =
      (directory : String) × (arguments.cwd ≡ some directory)
      × PassedScenario outside arguments.path (some directory) w

  validate-AllLoaded :
      (arguments : List String) (w : W) {end : W}
      → 1 ≤ length arguments
      → validate_command (program outside) arguments w ≡ (ok (pos 0), end)
      → AllLoaded arguments w
  validate-AllLoaded arguments w some_path h =
      loaded (validate_command-Verdict (program outside) arguments w h)
    where
      loaded :
          ((paths : List String) × (w' : W) × (expand_all (program outside) arguments w
              ≡ (ok paths, w'))
            × (length arguments ≤ length paths)
            × Verdict (program outside) paths (pos 0))
          → AllLoaded arguments w
      loaded (paths, w', e, more, inl (_, ls)) = (paths, w', e, omega arith, ls)
      loaded (paths, w', e, more, inr (h, _)) = cc

  run-RunPassed :
      (arguments : Namespace) (w : W) {directory : String} {end : W}
      → arguments.cwd ≡ some directory
      → run_command
          (program outside)
          arguments.path
          arguments.cwd
          arguments.report
          arguments.junit_xml
          w
        ≡ (ok (pos 0), end)
      → RunPassed arguments w
  run-RunPassed arguments w {directory} e h = (
    directory,
    e,
    subst (λ d. PassedScenario outside arguments.path d w) e
        (run_command-PassedScenario outside arguments.path _ _ _ w h),
  )

module _ {ℓ} {W : Type ℓ} (parse_args : Parser → List String → Action W Namespace)
    (outside : Outside W)
    (documented : (argv : List String) (w : W) (arguments : Namespace) (w' : W)
      → parse_args parser argv w ≡ (ok arguments, w')
      → Given arguments parser.commands) where
  -- Where `main` returns, one of the two commands returned, with the arguments that it needs.
  main-cases :
      (argv : List String) (w : W) {code : ℤ} {end : W}
      → main parse_args (program outside) argv w ≡ (ok code, end)
      → (arguments : Namespace) × (w' : W) × (parse_args parser argv w ≡ (ok arguments, w'))
        × (((1 ≤ length arguments.paths)
              × (validate_command (program outside) arguments.paths w' ≡ (ok code, end)))
            ⊎ (((directory : String) × (arguments.cwd ≡ some directory))
                × (run_command
                      (program outside)
                      arguments.path
                      arguments.cwd
                      arguments.report
                      arguments.junit_xml
                      w'
                    ≡ (ok code, end))))
  unfolding main
  main-cases argv w h =
      let (arguments, w', e, k) = >>=-eq-ok _ _ w h in
      (
        arguments,
        w',
        e,
        elim (Given-parser arguments (documented argv w arguments w' e)) [
          | inl (v, some_path) ↦ inl (
            some_path,
            sym (run_arguments-validate parse_args (program outside) arguments w' v) ∙ k,
          )
          | inr (r, cwd) ↦
              inr (cwd, sym (run_arguments-run parse_args (program outside) arguments w' r) ∙ k)
        ],
      )

  -- `main` returns 0 only from `validate` with at least one file, all of which were loaded, or from
  -- `run` where the scenario was valid and was run in a given directory without an exception, and the
  -- run has passed: the log could be analysed, every assertion of the scenario holds of the log's
  -- events, its recoveries, the output and the kernel log, the application exited with 0 and was not
  -- timed out, and the kernel log was read where the scenario asks about it. The argument parser has to
  -- do what argparse documents. (`--help` and `--version` end inside the parser: `main` does not return.)
  pub main-zero :
      (argv : List String) (w : W) {end : W}
      → main parse_args (program outside) argv w ≡ (ok (pos 0), end)
      → (arguments : Namespace) × (w' : W) × (parse_args parser argv w ≡ (ok arguments, w'))
        × (AllLoaded outside arguments.paths w' ⊎ RunPassed outside arguments w')
  main-zero argv w h =
      let (arguments, w', e, cases) = main-cases argv w h in
      (
        arguments,
        w',
        e,
        elim cases [
          | inl (some_path, k) ↦ inl (validate-AllLoaded outside arguments.paths w' some_path k)
          | inr ((_, cwd), k) ↦ inr (run-RunPassed outside arguments w' cwd k)
        ],
      )

  -- Where `main` returns, its exit code is at most 125, or 130. The argument parser has to do
  -- what argparse documents.
  pub main-IsExitCode :
      (argv : List String) (w : W) {code : ℤ} {end : W}
      → main parse_args (program outside) argv w ≡ (ok code, end)
      → IsExitCode code
  main-IsExitCode argv w {code} h =
      let (arguments, w', _, cases) = main-cases argv w h in
      elim cases [
        | inl (_, k) ↦ validate_command-IsExitCode (program outside) arguments.paths w' k
        | inr (_, k) ↦
            run_command-IsExitCode (program outside) arguments.cwd arguments.report
              arguments.junit_xml arguments.path w' k
      ]
