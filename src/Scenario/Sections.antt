-- ===== src/Scenario/Sections.antt =====
-- `_parse_device` and `_parse_application` of scenario.py.
use vdev_lab.Base.{ℕ, suc, ◌<>◌, String, not, starts_with, List, [], ◌∷◌, decimal}
use vdev_lab.Base.Value.{Value, str, list, Items, nil, cons, get_or}
use vdev_lab.Base.Result.{Result, ok, err, scenario_error, raise_if, ◌>>=◌, ◌>>◌}
use vdev_lab.Scenario.Fields.{mapping, required, allowed, index, non_empty_string}
use vdev_lab.Scenario.Duration.{parse_duration}

unfoldable pub parse_device : Value → Result String
parse_device value = do
  device ← mapping value "device"
  required device ("path" ∷ []) "device"
  allowed device ("path" ∷ []) "device"
  raw_path ← index device "path"
  path ← non_empty_string raw_path "device.path"
  raise_if (not (starts_with path "/dev/"))
      (scenario_error "device.path" "must be an absolute /dev path")
  ok path

-- The tuple over `enumerate(command)`, from the given index on.
unfoldable pub parse_arguments : ℕ → Items → Result (List String)
parse_arguments i nil = ok []
parse_arguments i (cons argument arguments) = do
  parsed ← non_empty_string argument ("application.command[" <> decimal i <> "]")
  rest ← parse_arguments (suc i) arguments
  ok (parsed ∷ rest)

unfoldable pub parse_command : Value → Result (List String)
parse_command (list (cons argument arguments)) = parse_arguments 0 (cons argument arguments)
parse_command _ = err (scenario_error "application.command" "must be a non-empty list")

unfoldable pub parse_application : Value → Result (List String × ℕ)
parse_application value = do
  application ← mapping value "application"
  required application ("command" ∷ []) "application"
  allowed application ("command" ∷ "startup_timeout" ∷ []) "application"
  command ← index application "command"
  parsed_command ← parse_command command
  startup_timeout_ms ←
      parse_duration (get_or application "startup_timeout" (str "2s")) "application.startup_timeout"
  ok (parsed_command, startup_timeout_ms)
