-- ===== src/Runner/Decode.antt =====
-- What the scheduler of runner.py reads from an event: `_scheduled_ms`, `_fault_configuration`, and the
-- bytes of a text.
use Prim.Native.Char.{code}
use Prim.Native.String as Str
use vdev_lab.Base.{ℕ, ◌+◌, ◌/◌, ◌%◌, ◌<>◌, String, List, [], ◌∷◌, ◌++◌, decimal, ltb, if◌then◌else◌}
use vdev_lab.Base.Int.{ℤ, pos}
use vdev_lab.Base.Value.{Value, int, Mapping, get, is_str}
use vdev_lab.Base.Result.{Result, ok, err, runner_error, ◌>>=◌}
use vdev_lab.Base.Interpreter.{Interpreter, int_of, text_of}
use vdev_lab.Scenario.Fields.{index}
use vdev_lab.Runner.Records.{FaultConfiguration}

-- The bytes of a character in UTF-8.
abbrev utf8_bytes : ℕ → List ℕ
utf8_bytes c =
    if ltb c 0x80
    then c ∷ []
    else if ltb c 0x800
    then (0xc0 + c / 64) ∷ (0x80 + c % 64) ∷ []
    else if ltb c 0x10000
    then (0xe0 + c / 4096) ∷ (0x80 + c / 64 % 64) ∷ (0x80 + c % 64) ∷ []
    else (0xf0 + c / 262144) ∷ (0x80 + c / 4096 % 64) ∷ (0x80 + c / 64 % 64) ∷ (0x80 + c % 64) ∷ []

-- `text.encode("utf-8")`
unfoldable pub encode_utf8 : String → List ℕ
encode_utf8 Str.[] = []
encode_utf8 (Str.◌∷◌ c s) = utf8_bytes (code c) ++ encode_utf8 s

-- `_scheduled_ms`, of the value of `at_ms`
unfoldable pub scheduled_ms : Value → ℕ → Result ℕ
scheduled_ms (int (pos n)) i = ok n
scheduled_ms _ i = err (runner_error ("event " <> decimal i <> " has an invalid at_ms value"))

abbrev pub plain_fault : String → FaultConfiguration
plain_fault fault_type = record {
  fault_type = fault_type;
  repeat = pos 0;
  delay_ms = pos 0;
  partial_read_bytes = pos 0;
}

module _ (python : Interpreter) where
  -- `int(event[field])`
  abbrev int_field : Mapping → String → Result ℤ
  int_field event field = do value ← index event field; int_of python value

  unfoldable pub eio_configuration : Mapping → Result FaultConfiguration
  eio_configuration event = do
    n ← int_field event "repeat"
    ok (record (plain_fault "eio") { repeat = n })

  unfoldable pub delay_configuration : Mapping → Result FaultConfiguration
  delay_configuration event = do
    n ← int_field event "duration_ms"
    ok (record (plain_fault "delay") { delay_ms = n })

  unfoldable pub partial_read_configuration : Mapping → Result FaultConfiguration
  partial_read_configuration event = do
    n ← int_field event "bytes"
    ok (record (plain_fault "partial-read") { partial_read_bytes = n })

  unfoldable pub fault_configuration : Mapping → Result FaultConfiguration
  fault_configuration event =
      let fault_type = get event "type" in
      if is_str "eio" fault_type
      then eio_configuration event
      else if is_str "delay" fault_type
      then delay_configuration event
      else if is_str "partial-read" fault_type
      then partial_read_configuration event
      else if is_str "disconnect" fault_type
      then ok (plain_fault "disconnect")
      else err (runner_error ("unsupported fault type: " <> text_of python fault_type))
