-- ===== src/Scenario/Fields.antt =====
-- The field checks of scenario.py: `_mapping`, `_required`, `_allowed`, `_non_empty_string` and
-- `_bounded_integer`.
pub mod Accepted
pub mod Findings
use vdev_lab.Base.{
  ℕ, ◌<>◌, String, ◌==◌, not, ◌||◌, List, [], ◌∷◌, Option, none, some, select, join, sort_strings,
  decimal, ltb, if◌then◌else◌,
}
use vdev_lab.Base.Int.{pos, negsuc}
use vdev_lab.Base.Value.{
  Value, str, dict, int, Entries, end, entry, Mapping, keys, contains, lookup,
}
use vdev_lab.Base.Result.{Result, ok, err, scenario_error, key_error}

-- The entries of a dict, if all its keys are texts.
abbrev pub string_keys : Entries → Option Mapping
string_keys end = some []
string_keys (entry (str k) v es) = elim (string_keys es) [
  | none ↦ none
  | some m ↦ some ((k, v) ∷ m)
]
string_keys (entry _ v es) = none

unfoldable pub mapping : Value → String → Result Mapping
mapping (dict es) path = elim (string_keys es) [
  | none ↦ err (scenario_error path "field names must be strings")
  | some m ↦ ok m
]
mapping _ path = err (scenario_error path "must be a mapping")

-- The tail of `_required` and of `_allowed`, over the sorted names that offend.
abbrev pub reject_fields : String → String → List String → Result (Unit {0})
reject_fields path complaint [] = ok tt
reject_fields path complaint (name ∷ names) =
    err (scenario_error path (complaint <> join ", " (name ∷ names)))

unfoldable pub required : Mapping → List String → String → Result (Unit {0})
required m fields path =
    reject_fields path "missing required field(s): "
      (sort_strings (select (λ field. not (contains field (keys m))) fields))

unfoldable pub allowed : Mapping → List String → String → Result (Unit {0})
allowed m fields path =
    reject_fields path "unexpected field(s): "
      (sort_strings (select (λ key. not (contains key fields)) (keys m)))

-- `m[key]`
unfoldable pub index : Mapping → String → Result Value
index m key = elim (lookup key m) [ none ↦ err (key_error key) | some v ↦ ok v ]

unfoldable pub non_empty_string : Value → String → Result String
non_empty_string (str s) path =
    if s == "" then err (scenario_error path "must be a non-empty string") else ok s
non_empty_string _ path = err (scenario_error path "must be a non-empty string")

-- The bounds are natural numbers at every call, so what is accepted is one too.
unfoldable pub bounded_integer : Value → String → ℕ → ℕ → Result ℕ
bounded_integer (int (pos n)) path minimum maximum =
    if ltb n minimum || ltb maximum n
    then err
        (scenario_error path ("must be between " <> decimal minimum <> " and " <> decimal maximum))
    else ok n
bounded_integer (int (negsuc n)) path minimum maximum =
    err (scenario_error path ("must be between " <> decimal minimum <> " and " <> decimal maximum))
bounded_integer _ path minimum maximum = err (scenario_error path "must be an integer")
