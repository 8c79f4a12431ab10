-- ===== src/Scenario/Duration/Digits.antt =====
-- Decimal numerals as `decimal` prints them and as the durations of scenario.py are read.
use Prim.Native.Char.{code}
use Prim.Native.String as Str
use text.Mathlib.TextLemmas.{nil-append, cons-append}
use vdev_lab.Base.{
  ℕ, zero, suc, ◌+◌, ◌/◌, ◌%◌, ◌<◌, ◌<>◌, String, ◌≡◌, refl, ◌∙◌, true, arith, digit, decimal_onto,
  decimal, inl, inr, Bool-cases, ltb, ltb→lt, lt→ltb, ap, ◌≤◌, ◌^◌,
}
use vdev_lab.Scenario.Duration.{is_digit, split_digits, is_magnitude, int_of_digits, count_chars}

abbrev pub AllDigits : String → Type 0
AllDigits Str.[] = Unit
AllDigits (Str.◌∷◌ c s) = (is_digit (code c) ≡ true) × AllDigits s

pub code-digit : (d : ℕ) → d < 10 → code (digit d) ≡ 48 + d
unfolding digit
code-digit zero h = refl
code-digit (suc zero) h = refl
code-digit (suc (suc zero)) h = refl
code-digit (suc (suc (suc zero))) h = refl
code-digit (suc (suc (suc (suc zero)))) h = refl
code-digit (suc (suc (suc (suc (suc zero))))) h = refl
code-digit (suc (suc (suc (suc (suc (suc zero)))))) h = refl
code-digit (suc (suc (suc (suc (suc (suc (suc zero))))))) h = refl
code-digit (suc (suc (suc (suc (suc (suc (suc (suc zero)))))))) h = refl
code-digit (suc (suc (suc (suc (suc (suc (suc (suc (suc zero))))))))) h = refl
code-digit (suc (suc (suc (suc (suc (suc (suc (suc (suc (suc d)))))))))) h = absurd (omega arith)

is_digit-digit : (d : ℕ) → d < 10 → is_digit (code (digit d)) ≡ true
is_digit-digit d h = ground (arith, code-digit d h)

-- The digits before a suffix that begins with none.
pub split_digits-append :
    (s suffix : String)
    → AllDigits s
    → split_digits suffix ≡ ("", suffix)
    → split_digits (s <> suffix) ≡ (s, suffix)
unfolding split_digits
split_digits-append Str.[] suffix _ h = rw nil-append h
split_digits-append (Str.◌∷◌ c s) suffix (d, ds) h =
    rw (cons-append, split_digits) (rw (split_digits-append s suffix ds h, d))

pub decimal_onto-AllDigits :
    (fuel n : ℕ) (rest : String) → AllDigits rest → AllDigits (decimal_onto fuel n rest)
unfolding decimal_onto
decimal_onto-AllDigits zero n rest h = h
decimal_onto-AllDigits (suc fuel) n rest h = elim (Bool-cases (ltb n 10)) [
  | inl small ↦ rw small (is_digit-digit n (ltb→lt n 10 small), h)
  | inr large ↦
      rw large (decimal_onto-AllDigits fuel (n / 10) _ (is_digit-digit (n % 10) (omega arith), h))
]

pub int_of_digits-decimal_onto :
    (fuel n : ℕ) (rest : String)
    → n < fuel
    → int_of_digits 0 (decimal_onto fuel n rest) ≡ int_of_digits n rest
unfolding decimal_onto int_of_digits
int_of_digits-decimal_onto zero n rest h = elim h [ ]
int_of_digits-decimal_onto (suc fuel) n rest h = elim (Bool-cases (ltb n 10)) [
  | inl small ↦
      rw small (ap (λ m. int_of_digits m rest) (omega (arith, code-digit n (ltb→lt n 10 small))))
  | inr large ↦ rw large (
      int_of_digits-decimal_onto fuel (n / 10) _ (ground arith)
      ∙ ap (λ m. int_of_digits m rest) (omega (arith, code-digit (n % 10) (omega arith))))
]

is_magnitude-digit :
    (d : ℕ) (rest : String) → 0 < d → d < 10 → is_magnitude (Str.◌∷◌ (digit d) rest) ≡ true
unfolding is_magnitude
is_magnitude-digit d Str.[] h k = refl
is_magnitude-digit d (Str.◌∷◌ c s) h k = ground (arith, code-digit d k)

is_magnitude-decimal_onto :
    (fuel n : ℕ) (rest : String) → 0 < n → n < fuel → is_magnitude (decimal_onto fuel n rest) ≡ true
unfolding decimal_onto
is_magnitude-decimal_onto zero n rest h k = elim k [ ]
is_magnitude-decimal_onto (suc fuel) n rest h k = elim (Bool-cases (ltb n 10)) [
  | inl small ↦ rw small (is_magnitude-digit n rest h (ltb→lt n 10 small))
  | inr large ↦ rw large (is_magnitude-decimal_onto fuel (n / 10) _ (ground arith) (ground arith))
]

-- A printed number is digits, without a leading zero, and reads back as the number.
pub decimal-AllDigits : (n : ℕ) → AllDigits (decimal n)
unfolding decimal
decimal-AllDigits n = decimal_onto-AllDigits (suc n) n "" tt

pub is_magnitude-decimal : (n : ℕ) → is_magnitude (decimal n) ≡ true
unfolding decimal decimal_onto is_magnitude
is_magnitude-decimal zero = refl
is_magnitude-decimal (suc n) =
    is_magnitude-decimal_onto (suc (suc n)) (suc n) "" (omega arith) (omega arith)

pub int_of_digits-decimal : (n : ℕ) → int_of_digits 0 (decimal n) ≡ n
unfolding decimal int_of_digits
int_of_digits-decimal n = int_of_digits-decimal_onto (suc n) n "" (omega arith)

-- A printed number has no more digits than a power of ten has zeros that is larger.
pub count_chars-decimal_onto :
    (k fuel n : ℕ) (rest : String)
    → n < 10 ^ suc k
    → count_chars (decimal_onto fuel n rest) ≤ suc k + count_chars rest
unfolding decimal_onto count_chars
count_chars-decimal_onto k zero n rest h = omega arith
count_chars-decimal_onto zero (suc fuel) n rest h = rw (lt→ltb n 10 h) (omega arith)
count_chars-decimal_onto (suc k) (suc fuel) n rest h = elim (Bool-cases (ltb n 10)) [
  | inl small ↦ rw small (omega arith)
  | inr large ↦
      let fewer =
        count_chars-decimal_onto k fuel (n / 10) (Str.◌∷◌ (digit (n % 10)) rest) (omega arith) in
      rw large (omega arith)
]
