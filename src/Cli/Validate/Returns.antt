-- ===== src/Cli/Validate/Returns.antt =====
-- What the command `validate` of cli.py returns and raises.
use vdev_lab.Base.{◌≡◌, ◌⊎◌, ℕ, ◌<◌, String, List}
use vdev_lab.Base.Int.{ℤ}
use vdev_lab.Base.Result.{Result, ok, err, Exception, foreign}
use vdev_lab.Base.Action.{Action}
use vdev_lab.Base.Value.{Value}
use vdev_lab.Scenario.Duration.{digit_limit}
use vdev_lab.Scenario.Fields.Findings.{IsFinding, IsDigitLimit}
use vdev_lab.Scenario.Document.Findings.{IsOsError}
use vdev_lab.Cli.{Services, validate_command}
use vdev_lab.Cli.Validate.{Verdict}

-- What `Path.read_text` raises for a file that is not UTF-8.
abbrev pub IsDecodeError : Exception → Type 0
IsDecodeError e = (message : String) × (e ≡ foreign "UnicodeDecodeError" message)

-- What reading a text file may raise.
abbrev pub IsReadError : Exception → Type 0
IsReadError e = IsOsError e ⊎ IsDecodeError e

-- What may escape from `validate`.
abbrev Escapes : Exception → Type 0
Escapes e = IsDigitLimit e ⊎ IsDecodeError e

abbrev LoadRaises : Exception → Type 0
LoadRaises e = IsFinding e ⊎ IsDecodeError e

module _ {ℓ} {W : Type ℓ} (services : Services W) (arguments : List String) (w : W) where
  -- `validate` returned 0 or 2, with the files that it looked at.
  abbrev pub ReturnsVerdict : Type ℓ
  ReturnsVerdict =
      (code : ℤ) × (end : W) × (paths : List String) × (validate_command services arguments w
        ≡ (ok code, end))
      × Verdict services paths code

  -- `validate` met a number of more than 4300 digits.
  abbrev pub MeetsDigitLimit : Type ℓ
  MeetsDigitLimit =
      (n : ℕ) × (end : W) × (4300 < n)
      × (validate_command services arguments w ≡ (err (digit_limit n), end))

  -- `validate` met a file that is not UTF-8.
  abbrev pub CannotDecode : Type ℓ
  CannotDecode =
      (message : String) × (end : W) × (validate_command services arguments w
        ≡ (err (foreign "UnicodeDecodeError" message), end))
