-- ===== src/Scenario/Duration/Canonical.antt =====
-- The texts that `parse_duration` accepts, exactly: a decimal numeral with no leading zero and a unit.
use Prim.Native.Char.{Char, code}
use Prim.Native.String as Str
use text.Mathlib.TextEquality.{Char-path}
use text.Mathlib.TextLemmas.{nil-append, cons-append}
use mathlib.Core.Path.{ap₂}
use vdev_lab.Base.{
  ℕ, zero, suc, ◌+◌, ◌*◌, ◌/◌, ◌%◌, ◌-◌, ◌≤◌, ◌<◌, ◌<>◌, String, ◌==◌, ◌≡◌, refl, sym, ap, ◌∙◌,
  true, ◌||◌, ◌⊎◌, inl, inr, Option-cases, some, arith, digit, decimal_onto, decimal, Bool-cases,
  ltb, ltb→lt, lt→ltb, eq_iff,
}
use vdev_lab.Base.Value.{Value, str}
use vdev_lab.Base.Result.{ok, ◌>>=◌, >>=-eq-ok}
use vdev_lab.Scenario.Schema.{max_duration_ms}
use vdev_lab.Scenario.Duration.{
  is_digit, split_digits, is_magnitude, int_of_digits, int_of_text, match_duration, duration_of,
  parse_duration,
}
use vdev_lab.Scenario.Duration.Digits.{AllDigits, code-digit}

digit-code : (c : Char) → is_digit (code c) ≡ true → digit (code c - 48) ≡ c
digit-code c h = Char-path _ _ (code-digit (code c - 48) (ground arith) ∙ ground arith)

decimal_onto-small :
    (f n : ℕ) (rest : String) → n < 10 → decimal_onto (suc f) n rest ≡ Str.◌∷◌ (digit n) rest
unfolding decimal_onto
decimal_onto-small f n rest h = rw (lt→ltb n 10 h)

decimal_onto-large :
    (f n : ℕ) (rest : String)
    → 10 ≤ n
    → decimal_onto (suc f) n rest ≡ decimal_onto f (n / 10) (Str.◌∷◌ (digit (n % 10)) rest)
unfolding decimal_onto
decimal_onto-large f n rest h = elim (Bool-cases (ltb n 10)) [
  | inl small ↦ absurd (omega (arith, ltb→lt n 10 small))
  | inr large ↦ rw large
]

decimal_onto-fuel :
    (f g n : ℕ) (rest : String) → n < f → n < g → decimal_onto f n rest ≡ decimal_onto g n rest
unfolding decimal_onto
decimal_onto-fuel zero g n rest h k = elim h [ ]
decimal_onto-fuel (suc f) zero n rest h k = elim k [ ]
decimal_onto-fuel (suc f) (suc g) n rest h k = elim (Bool-cases (ltb n 10)) [
  | inl small ↦ rw small
  | inr large ↦ rw large (decimal_onto-fuel f g (n / 10) _ (ground arith) (ground arith))
]

-- A digit that is appended to a number is the first that is printed in front of the rest.
push_digit :
    (c : Char) (a g : ℕ) (ds : String)
    → is_digit (code c) ≡ true
    → 0 < a
    → a < g
    → decimal_onto (suc (a * 10 + (code c - 48))) (a * 10 + (code c - 48)) ds
      ≡ decimal_onto g a (Str.◌∷◌ c ds)
push_digit c a g ds d h k =
    let small : code c - 48 < 10 = ground arith in
    decimal_onto-large _ (a * 10 + (code c - 48)) ds (omega arith)
    ∙ ap₂ (λ m e. decimal_onto (a * 10 + (code c - 48)) m (Str.◌∷◌ e ds)) (omega arith)
        (ap digit (omega arith) ∙ digit-code c d)
    ∙ decimal_onto-fuel (a * 10 + (code c - 48)) g a (Str.◌∷◌ c ds) (omega arith) k

decimal_onto-int_of_digits :
    (ds : String) (a f g : ℕ)
    → AllDigits ds
    → 0 < a
    → int_of_digits a ds < f
    → a < g
    → decimal_onto f (int_of_digits a ds) "" ≡ decimal_onto g a ds
unfolding int_of_digits
decimal_onto-int_of_digits Str.[] a f g _ h k l = decimal_onto-fuel f g a "" k l
decimal_onto-int_of_digits (Str.◌∷◌ c ds) a f g (d, all) h k l =
    let b = a * 10 + (code c - 48) in
    decimal_onto-int_of_digits ds b f (suc b) all (omega arith) k (omega arith)
    ∙ push_digit c a g ds d h l

-- A numeral without a leading zero is what is printed for its value.
decimal-int_of_digits :
    (ds : String) → AllDigits ds → is_magnitude ds ≡ true → decimal (int_of_digits 0 ds) ≡ ds
unfolding decimal is_magnitude int_of_digits
decimal-int_of_digits Str.[] _ h = cc
decimal-int_of_digits (Str.◌∷◌ c Str.[]) (d, _) h =
    decimal_onto-small _ (0 * 10 + (code c - 48)) "" (ground arith)
    ∙ ap (λ e. Str.◌∷◌ e "") (ap digit (omega arith) ∙ digit-code c d)
decimal-int_of_digits (Str.◌∷◌ c (Str.◌∷◌ e ds)) (d, all) h =
    let a = 0 * 10 + (code c - 48) in
    decimal_onto-int_of_digits (Str.◌∷◌ e ds) a _ (suc a) all (ground arith) (omega arith)
      (omega arith)
    ∙ decimal_onto-small a a (Str.◌∷◌ e ds) (ground arith)
    ∙ ap (λ x. Str.◌∷◌ x (Str.◌∷◌ e ds)) (ap digit (omega arith) ∙ digit-code c d)

split_digits-AllDigits : (s : String) → AllDigits (split_digits s).0
unfolding split_digits
split_digits-AllDigits Str.[] = tt
split_digits-AllDigits (Str.◌∷◌ c s) = elim (Bool-cases (is_digit (code c))) [
  | inl d ↦ rw d (d, split_digits-AllDigits s)
  | inr n ↦ rw n tt
]

append-split_digits : (s : String) → (split_digits s).0 <> (split_digits s).1 ≡ s
unfolding split_digits
append-split_digits Str.[] = nil-append _
append-split_digits (Str.◌∷◌ c s) = elim (Bool-cases (is_digit (code c))) [
  | inl d ↦ rw d (cons-append c _ _ ∙ ap (λ t. Str.◌∷◌ c t) (append-split_digits s))
  | inr n ↦ rw n (nil-append _)
]

is_unit : (unit : String) → (unit == "ms" || unit == "s") ≡ true → (unit ≡ "ms") ⊎ (unit ≡ "s")
is_unit unit h = ground (arith, eq_iff unit "ms", eq_iff unit "s")

match_duration-some :
    (s : String) {digits unit : String}
    → match_duration s ≡ some (digits, unit)
    → (decimal (int_of_digits 0 digits) <> unit ≡ s) × ((unit ≡ "ms") ⊎ (unit ≡ "s"))
unfolding match_duration
match_duration-some s {digits} {unit} h =
    let facts : (is_magnitude digits ≡ true)
        × ((unit == "ms" || unit == "s") ≡ true)
        × ((split_digits s).0 ≡ digits)
        × ((split_digits s).1 ≡ unit) =
      ground arith in
    let all : AllDigits digits = rw (facts.2) at (split_digits-AllDigits s) in
    (
      rw (decimal-int_of_digits digits all facts.0, ← facts.2, ← facts.3) (append-split_digits s),
      is_unit unit facts.1,
    )

duration_of-ms :
    (m : ℕ) (path : String) {n : ℕ}
    → duration_of m "ms" path ≡ ok n
    → (n ≡ m) × (n ≤ max_duration_ms)
unfolding duration_of
duration_of-ms m path h = ground arith

duration_of-s :
    (m : ℕ) (path : String) {n : ℕ}
    → duration_of m "s" path ≡ ok n
    → (n ≡ m * 1000) × (n ≤ max_duration_ms)
unfolding duration_of
duration_of-s m path h = ground arith

-- What the text of a duration says.
abbrev pub Denotes : String → ℕ → Type 0
Denotes s n =
    (m : ℕ) × ((s ≡ decimal m <> "ms") × (n ≡ m) ⊎ (s ≡ decimal m <> "s") × (n ≡ m * 1000))

int_of_text-eq-ok :
    (digits : String) {m : ℕ} → int_of_text digits ≡ ok m → int_of_digits 0 digits ≡ m
unfolding int_of_text
int_of_text-eq-ok digits h = ground arith

duration_of-int :
    (digits unit path : String) {n : ℕ}
    → (int_of_text digits >>= λ magnitude. duration_of magnitude unit path) ≡ ok n
    → duration_of (int_of_digits 0 digits) unit path ≡ ok n
duration_of-int digits unit path h =
    let (m, e, k) = >>=-eq-ok _ _ h in
    ap (λ x. duration_of x unit path) (int_of_text-eq-ok digits e) ∙ k

duration_of-Denotes :
    (s digits unit path : String) {n : ℕ}
    → match_duration s ≡ some (digits, unit)
    → (int_of_text digits >>= λ magnitude. duration_of magnitude unit path) ≡ ok n
    → Denotes s n × (n ≤ max_duration_ms)
duration_of-Denotes s digits unit path {n} h r = elim (match_duration-some s h).1 [
  | inl ms ↦
      let t = duration_of-ms _ path {n = n} (rw ms at (duration_of-int digits unit path r)) in
      ((_, inl (rw ms at (sym (match_duration-some s h).0), t.0)), t.1)
  | inr sec ↦
      let t = duration_of-s _ path {n = n} (rw sec at (duration_of-int digits unit path r)) in
      ((_, inr (rw sec at (sym (match_duration-some s h).0), t.0)), t.1)
]

-- What is accepted as a duration is a text: a decimal numeral without a leading zero and the unit
-- `ms` or `s`. The result is the number, or a thousand times the number, and at most 24 hours.
pub parse_duration-Denotes :
    (v : Value) (path : String) {n : ℕ}
    → parse_duration v path ≡ ok n
    → (s : String) × (v ≡ str s) × Denotes s n × (n ≤ max_duration_ms)
unfolding parse_duration
parse_duration-Denotes (str s) path {n} h = elim (Option-cases (match_duration s)) [
  | inl e ↦ let t = rw (e, parse_duration) at h in cc t
  | inr ((digits, unit), e) ↦
      let t = duration_of-Denotes s digits unit path {n = n} e (rw (e, parse_duration) at h) in
      (s, refl, t.0, t.1)
]
parse_duration-Denotes _ path h = cc
