-- ===== src/Scenario/Duration.antt =====
-- `parse_duration` of scenario.py, with its pattern `(0|[1-9][0-9]*)(ms|s)` as a matcher.
pub mod Digits
pub mod RoundTrip
pub mod Canonical
use Prim.Native.Char.{code}
use Prim.Native.String as Str
use vdev_lab.Base.{
  ℕ, suc, ◌+◌, ◌-◌, ◌*◌, ◌<>◌, decimal, String, ◌==◌, Bool, true, false, not, ◌&&◌, ◌||◌, Option,
  none, some, leb, eqb, ltb, if◌then◌else◌,
}
use vdev_lab.Base.Value.{Value, str}
use vdev_lab.Base.Result.{Result, ok, err, Exception, scenario_error, value_error, ◌>>=◌}
use vdev_lab.Scenario.Schema.{max_duration_ms}

abbrev pub is_digit : ℕ → Bool
is_digit c = leb 48 c && leb c 57

-- The longest prefix of ASCII digits, and what follows it.
unfoldable pub split_digits : String → String × String
split_digits Str.[] = ("", "")
split_digits (Str.◌∷◌ c s) =
    let (digits, suffix) = split_digits s in
    if is_digit (code c) then (Str.◌∷◌ c digits, suffix) else ("", Str.◌∷◌ c s)

-- `0|[1-9][0-9]*`, over digits.
unfoldable pub is_magnitude : String → Bool
is_magnitude Str.[] = false
is_magnitude (Str.◌∷◌ c Str.[]) = true
is_magnitude (Str.◌∷◌ c _) = not (eqb (code c) 48)

-- `_DURATION_PATTERN.fullmatch`: the two groups. A suffix begins with no digit, so the first group
-- takes all digits.
unfoldable pub match_duration : String → Option (String × String)
match_duration s =
    let (digits, suffix) = split_digits s in
    if is_magnitude digits && (suffix == "ms" || suffix == "s") then some (digits, suffix) else none

-- The value of a text of digits, behind those already read.
unfoldable pub int_of_digits : ℕ → String → ℕ
int_of_digits n Str.[] = n
int_of_digits n (Str.◌∷◌ c s) = int_of_digits (n * 10 + (code c - 48)) s

unfoldable pub count_chars : String → ℕ
count_chars Str.[] = 0
count_chars (Str.◌∷◌ c s) = suc (count_chars s)

-- What `int` raises for a text of more than 4300 digits, which is the limit of CPython.
abbrev pub digit_limit : ℕ → Exception
digit_limit n = value_error (
    "Exceeds the limit (4300 digits) for integer string conversion: value has "
    <> decimal n
    <> " digits; use sys.set_int_max_str_digits() to increase the limit")

-- `int(digits)`, with the limit
unfoldable pub int_of_text : String → Result ℕ
int_of_text digits =
    if ltb 4300 (count_chars digits)
    then err (digit_limit (count_chars digits))
    else ok (int_of_digits 0 digits)

-- The number of milliseconds of a magnitude in the given unit, with the bound of 24 hours.
unfoldable pub duration_of : ℕ → String → String → Result ℕ
duration_of magnitude unit path =
    let milliseconds = if unit == "ms" then magnitude else magnitude * 1000 in
    if ltb max_duration_ms milliseconds
    then err (scenario_error path "must not exceed 24h")
    else ok milliseconds

unfoldable pub parse_duration : Value → String → Result ℕ
parse_duration (str s) path = elim (match_duration s) [
  | none ↦ err (scenario_error path "must be an integer duration such as 250ms or 2s")
  | some (digits, unit) ↦ int_of_text digits >>= λ magnitude. duration_of magnitude unit path
]
parse_duration _ path = err (scenario_error path "must use an ms or s suffix")
