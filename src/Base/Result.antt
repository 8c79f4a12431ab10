-- ===== src/Base/Result.antt =====
-- The exceptions of the program and of the libraries that it calls, and computations that raise.
use Prim.Native.Nat.{ℕ}
use Prim.Native.String.{String}
use mathlib.Core.Path.{◌≡◌, refl, subst, ap}
use mathlib.Core.Bool.{Bool, true, false}
use mathlib.Core.List.{List}
use vdev_lab.Base.Tests.{if◌then◌else◌}
use vdev_lab.Base.Text.{◌<>◌, decimal}

-- The first two are scenario.py's `ScenarioError` and analysis.py's `ApplicationLogError`; the next
-- three are runner.py's.
pub data Exception : Type 0 where
  scenario_error : String → String → Exception
  application_log_error : ℕ → String → Exception
  runner_error : String → Exception
  event_dispatch_error : ℕ → String → Exception → Exception
  application_timeout_error : List String → ℕ → Exception
  value_error : String → Exception
  key_error : String → Exception
  os_error : String → Exception
  overflow_error : String → Exception
  assertion_error : Exception
  keyboard_interrupt : Exception
  runtime_error : String → Exception
  yaml_error : String → Exception
  json_decode_error : String → Exception
  -- any other class, by its name and its message
  foreign : String → String → Exception

-- `type(error).__name__`
abbrev pub type_name : Exception → String
type_name (scenario_error path message) = "ScenarioError"
type_name (application_log_error line message) = "ApplicationLogError"
type_name (runner_error message) = "RunnerError"
type_name (event_dispatch_error i action cause) = "EventDispatchError"
type_name (application_timeout_error command timeout_ms) = "ApplicationTimeoutError"
type_name (value_error message) = "ValueError"
type_name (key_error key) = "KeyError"
type_name (os_error message) = "OSError"
type_name (overflow_error message) = "OverflowError"
type_name assertion_error = "AssertionError"
type_name keyboard_interrupt = "KeyboardInterrupt"
type_name (runtime_error message) = "RuntimeError"
type_name (yaml_error message) = "YAMLError"
type_name (json_decode_error message) = "JSONDecodeError"
type_name (foreign name message) = name

-- `str(error)`
abbrev pub error_message : Exception → String
error_message (scenario_error path message) = path <> ": " <> message
error_message (application_log_error line message) = "stdout[" <> decimal line <> "]: " <> message
error_message (runner_error message) = message
error_message (event_dispatch_error i action cause) =
    "event " <> decimal i <> " (" <> action <> ") failed: " <> error_message cause
error_message (application_timeout_error command timeout_ms) =
    "application exceeded timeout of " <> decimal timeout_ms <> "ms"
error_message (value_error message) = message
error_message (key_error key) = "'" <> key <> "'"
error_message (os_error message) = message
error_message (overflow_error message) = message
error_message assertion_error = ""
error_message keyboard_interrupt = ""
error_message (runtime_error message) = message
error_message (yaml_error message) = message
error_message (json_decode_error message) = message
error_message (foreign name message) = message

pub data Result {ℓ} (A : Type ℓ) : Type ℓ where
  ok : A → Result A
  err : Exception → Result A

-- The rest of a block is skipped where its first part raised.
infixl 5 ◌>>=◌
unfoldable pub ◌>>=◌ {ℓ κ} : {T : Type ℓ} {U : Type κ} → Result T → (T → Result U) → Result U
err raised >>= rest = err raised
ok returned >>= rest = rest returned

-- `if failed: raise e`
abbrev pub raise_if : Bool → Exception → Result (Unit {0})
raise_if true e = err e
raise_if false e = ok tt

infixl 5 ◌>>◌
abbrev pub ◌>>◌ {κ} : {U : Type κ} → Result (Unit {0}) → Result U → Result U
check >> rest = check >>= λ _. rest

-- A block that returned has returned from its first part.
pub >>=-eq-ok {ℓ κ} :
    {T : Type ℓ} {U : Type κ} (first : Result T) (rest : T → Result U) {u : U}
    → (first >>= rest) ≡ ok u
    → (t : T) × (first ≡ ok t) × (rest t ≡ ok u)
unfolding ◌>>=◌
>>=-eq-ok (ok t) rest returned = (t, refl, returned)
>>=-eq-ok (err e) rest returned = cc

pub raise_if-eq-ok : (b : Bool) (e : Exception) {u : Unit {0}} → raise_if b e ≡ ok u → b ≡ false
raise_if-eq-ok true e h = cc
raise_if-eq-ok false e h = refl

pub ok-injective {ℓ} : {A : Type ℓ} {a b : A} → ok a ≡ ok b → a ≡ b
ok-injective e = cc

-- What is returned, if anything is, has the property.
pub record Ensures {ℓ κ} {A : Type ℓ} (P : A → Type κ) (r : Result A) : Type (ℓ ⊔ κ) where
  pub at : (a : A) → r ≡ ok a → P a

module _ {ℓ κ} {A : Type ℓ} {P : A → Type κ} where
  pub Ensures-ok : (a : A) → P a → Ensures P (ok a)
  Ensures-ok a p = record { at = λ b e. subst P (ok-injective e) p }

  pub Ensures-err : (e : Exception) → Ensures P (err e)
  Ensures-err e = record { at = λ b h. cc }

  pub Ensures-if :
      (b : Bool) (m n : Result A)
      → (b ≡ true → Ensures P m)
      → (b ≡ false → Ensures P n)
      → Ensures P (if b then m else n)
  Ensures-if true m n p q = p refl
  Ensures-if false m n p q = q refl

  -- The rest of the block may use what was returned.
  pub Ensures-bind {μ} :
      {B : Type μ} (m : Result B) (f : B → Result A)
      → ((b : B) → m ≡ ok b → Ensures P (f b))
      → Ensures P (m >>= f)
  Ensures-bind m f k = record { at = λ a h. let (b, e, e') = >>=-eq-ok m f h in (k b e).at a e' }

-- What is raised, if anything is, has the property.
pub record Raises {ℓ κ} (P : Exception → Type κ) {A : Type ℓ} (r : Result A) : Type (ℓ ⊔ κ) where
  pub raised : (e : Exception) → r ≡ err e → P e

pub err-injective {ℓ} :
    {A : Type ℓ} {e e' : Exception} → ◌≡◌ {A = Result A} (err e) (err e') → e ≡ e'
err-injective h = cc

module _ {ℓ κ} {A : Type ℓ} {P : Exception → Type κ} where
  pub Raises-ok : (a : A) → Raises P (ok a)
  Raises-ok a = record { raised = λ e h. cc }

  pub Raises-err : (e : Exception) → P e → Raises P {A = A} (err e)
  Raises-err e p = record { raised = λ e' h. subst P (err-injective h) p }

  pub Raises-if :
      (b : Bool) (m n : Result A) → Raises P m → Raises P n → Raises P (if b then m else n)
  Raises-if true m n p q = p
  Raises-if false m n p q = q

  -- The rest of the block may use what was returned.
  pub Raises-bind {μ} :
      {B : Type μ} (m : Result B) (f : B → Result A)
      → Raises P m
      → ((b : B) → m ≡ ok b → Raises P (f b))
      → Raises P (m >>= f)
  unfolding ◌>>=◌
  Raises-bind (ok b) f p q = q b refl
  Raises-bind (err x) f p q = record { raised = λ e h. p.raised e (ap err (err-injective h)) }

pub Raises-raise_if {κ} :
    {P : Exception → Type κ} (b : Bool) (e : Exception) → P e → Raises P (raise_if b e)
Raises-raise_if true e p = Raises-err e p
Raises-raise_if false e p = Raises-ok tt
