-- ===== src/Scenario/Duration/RoundTrip.antt =====
-- Printed durations are read back, in both units.
use vdev_lab.Base.{
  inl, inr, Bool-cases, ltb, false, ◌∙◌, suc, if◌then◌else◌, ℕ, ◌*◌, ◌≤◌, ◌<>◌, String, ◌≡◌, refl,
  true, some, arith, decimal, ◌==◌, ◌||◌,
}
use vdev_lab.Base.Value.{str}
use vdev_lab.Base.Result.{Result, ok, err, scenario_error, ◌>>=◌}
use vdev_lab.Scenario.Schema.{max_duration_ms}
use vdev_lab.Scenario.Duration.{
  split_digits, match_duration, duration_of, parse_duration, int_of_text, digit_limit, count_chars,
}
use vdev_lab.Scenario.Duration.Digits.{
  split_digits-append, decimal-AllDigits, is_magnitude-decimal, int_of_digits-decimal,
  count_chars-decimal_onto,
}

match_duration-decimal :
    (n : ℕ) (unit : String)
    → split_digits unit ≡ ("", unit)
    → (unit == "ms" || unit == "s") ≡ true
    → match_duration (decimal n <> unit) ≡ some (decimal n, unit)
unfolding match_duration
match_duration-decimal n unit h k =
    rw (split_digits-append (decimal n) unit (decimal-AllDigits n) h)
      (rw (is_magnitude-decimal n, k))

pub data DurationUnit : Type 0 where
  milliseconds : DurationUnit
  seconds : DurationUnit

abbrev pub suffix : DurationUnit → String
suffix milliseconds = "ms"
suffix seconds = "s"

abbrev pub in_milliseconds : DurationUnit → ℕ → ℕ
in_milliseconds milliseconds n = n
in_milliseconds seconds n = n * 1000

-- What a duration is read as, by its number and its unit.
abbrev pub duration_in : ℕ → DurationUnit → String → Result ℕ
duration_in n unit path =
    if ltb max_duration_ms (in_milliseconds unit n)
    then err (scenario_error path "must not exceed 24h")
    else ok (in_milliseconds unit n)

match_duration-suffix :
    (n : ℕ) (unit : DurationUnit)
    → match_duration (decimal n <> suffix unit) ≡ some (decimal n, suffix unit)
unfolding split_digits
match_duration-suffix n milliseconds = match_duration-decimal n "ms" refl refl
match_duration-suffix n seconds = match_duration-decimal n "s" refl refl

duration_of-suffix :
    (n : ℕ) (unit : DurationUnit) (path : String)
    → duration_of n (suffix unit) path ≡ duration_in n unit path
unfolding duration_of
duration_of-suffix n milliseconds path = refl
duration_of-suffix n seconds path = refl

-- A number that is printed with a unit is read as that many milliseconds, or a thousand times as many.
-- It is refused with a `ScenarioError` if that is more than 24 hours, but with the `ValueError` of
-- `int` if the number has more than 4300 digits.
pub parse_duration-decimal :
    (n : ℕ) (unit : DurationUnit) (path : String)
    → parse_duration (str (decimal n <> suffix unit)) path ≡ (
        if ltb 4300 (count_chars (decimal n))
        then err (digit_limit (count_chars (decimal n)))
        else duration_in n unit path)
unfolding parse_duration int_of_text ◌>>=◌
parse_duration-decimal n unit path =
    rw (match_duration-suffix n unit, parse_duration)
      (elim (Bool-cases (ltb 4300 (count_chars (decimal n)))) [
        | inl long ↦ rw long refl
        | inr short ↦ rw (short, int_of_digits-decimal n) (duration_of-suffix n unit path)
      ])

count_chars-decimal : (n : ℕ) → n ≤ max_duration_ms → ltb 4300 (count_chars (decimal n)) ≡ false
unfolding decimal count_chars
count_chars-decimal n h =
    let few = count_chars-decimal_onto 7 (suc n) n "" (omega arith) in ground arith

duration_in-le :
    (n : ℕ) (unit : DurationUnit) (path : String)
    → in_milliseconds unit n ≤ max_duration_ms
    → duration_in n unit path ≡ ok (in_milliseconds unit n)
duration_in-le n unit path h = ground arith

in_milliseconds-le : (n : ℕ) (unit : DurationUnit) → n ≤ in_milliseconds unit n
in_milliseconds-le n milliseconds = omega arith
in_milliseconds-le n seconds = omega arith

-- A number of milliseconds or seconds that is at most 24 hours, printed with its unit, is accepted and
-- read as it was.
pub parse_duration-printed :
    (n : ℕ) (unit : DurationUnit) (path : String)
    → in_milliseconds unit n ≤ max_duration_ms
    → parse_duration (str (decimal n <> suffix unit)) path ≡ ok (in_milliseconds unit n)
parse_duration-printed n unit path h =
    let more = in_milliseconds-le n unit in
    let short = count_chars-decimal n (omega arith) in
    parse_duration-decimal n unit path ∙ (rw short (duration_in-le n unit path h))

pub parse_duration-milliseconds :
    (n : ℕ) (path : String)
    → n ≤ max_duration_ms
    → parse_duration (str (decimal n <> "ms")) path ≡ ok n
parse_duration-milliseconds n path h = parse_duration-printed n milliseconds path h

pub parse_duration-seconds :
    (n : ℕ) (path : String)
    → n * 1000 ≤ max_duration_ms
    → parse_duration (str (decimal n <> "s")) path ≡ ok (n * 1000)
parse_duration-seconds n path h = parse_duration-printed n seconds path h
