-- ===== src/Cli/Main.antt =====
-- `_parser` and `main` of cli.py. The parser is the data that `_parser` hands to argparse; argparse
-- itself is a parameter.
pub mod Codes
pub mod Exit
use vdev_lab.Base.{ℕ, String, ◌==◌, List, [], ◌∷◌, Option, none, some, if◌then◌else◌}
use vdev_lab.Base.Int.{ℤ, pos}
use vdev_lab.Base.Action.{Action, pure, ◌>>=◌}
use vdev_lab.Cli.{Services, validate_command, run_command}

-- A call of `add_argument`: an argument by its place, with its `nargs`, or one by its name, with its
-- default.
pub data Argument : Type 0 where
  positional : (name : String) (nargs : Option String) (help : String) → Argument
  optional : (name : String) (default : Option String) (help : String) → Argument

-- A call of `add_parser`, with the arguments that are added to what it returns.
pub record Subcommand : Type 0 where
  pub name : String
  pub help : String
  pub arguments : List Argument

-- An `ArgumentParser` whose subcommands are required.
pub record Parser : Type 0 where
  pub prog : String
  pub version : String
  pub commands : List Subcommand

-- `__version__` of __init__.py
abbrev version : String
version = "0.1.0"

abbrev pub validate_parser : Subcommand
validate_parser = record {
  name = "validate";
  help = "validate scenario YAML";
  arguments = positional "paths" (some "+") "scenario YAML path" ∷ [];
}

abbrev pub run_parser : Subcommand
run_parser = record {
  name = "run";
  help = "run a scenario against its device";
  arguments =
      positional "path" none "scenario YAML path"
      ∷ optional "--cwd" (some ".") "application working directory"
      ∷ optional "--report" none "write a causal JSON report to this path"
      ∷ optional "--junit-xml" none "write a JUnit XML report to this path"
      ∷ [];
}

unfoldable pub parser : Parser
parser = record {
  prog = "vdevlab";
  version = version;
  commands = validate_parser ∷ run_parser ∷ [];
}

-- What `parse_args` returns. The attributes of a command that was not given are not read.
pub record Namespace : Type 0 where
  pub command : String
  pub paths : List String
  pub path : String
  pub cwd : Option String
  pub report : Option String
  pub junit_xml : Option String

module _ {ℓ} {W : Type ℓ} (parse_args : Parser → List String → Action W Namespace)
    (services : Services W) where
  -- `main` behind its first line
  unfoldable pub run_arguments : Namespace → Action W ℤ
  run_arguments arguments =
      if arguments.command == "validate"
      then validate_command services arguments.paths
      else if arguments.command == "run"
      then run_command services arguments.path arguments.cwd arguments.report arguments.junit_xml
      else pure (pos 2)

  unfoldable pub main : List String → Action W ℤ
  main argv = do arguments ← parse_args parser argv; run_arguments arguments
