-- ===== src/Base/Interpreter.antt =====
-- What the program takes from the Python interpreter: the arithmetic of floats and conversions. The
-- operations are parameters, and a conversion raises where Python does (`OverflowError` for an
-- integer too large for a float, `ValueError` for a float that is no number or a text that is none).
use mathlib.Core.Bool.{Bool, true, false}
use Prim.Native.Nat.{ℕ}
use Prim.Native.String.{String}
use vdev_lab.Base.Int.{ℤ, pos}
use vdev_lab.Base.Value.{Float, Value, bool, int, float, str}
use vdev_lab.Base.Result.{Result, ok, err, foreign}

pub record Interpreter : Type 0 where
  pub add : Float → Float → Float
  pub sub : Float → Float → Float
  -- `x * n` and `n / m` with integers, and `x > 0`
  pub mul_int : Float → ℕ → Float
  pub true_div : ℕ → ℕ → Result Float
  pub is_positive : Float → Bool
  pub lt : Float → Float → Bool
  pub eq : Float → Float → Bool
  -- `float(n)`
  pub of_int : ℤ → Result Float
  -- `int(x)` of a float, and of a text
  pub trunc : Float → Result ℤ
  pub int_of_text : String → Result ℤ
  -- `str(value)` of a value that is no text
  pub repr : Value → String

module _ (python : Interpreter) where
  -- `int(value)`
  abbrev pub int_of : Value → Result ℤ
  int_of (int n) = ok n
  int_of (bool true) = ok (pos 1)
  int_of (bool false) = ok (pos 0)
  int_of (float x) = python.trunc x
  int_of (str s) = python.int_of_text s
  int_of _ = err (foreign "TypeError" "int() argument must be a string or a number")

  -- `str(value)`
  abbrev pub text_of : Value → String
  text_of (str s) = s
  text_of v = python.repr v
