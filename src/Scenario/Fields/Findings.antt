-- ===== src/Scenario/Fields/Findings.antt =====
-- What the field checks of scenario.py raise: a `ScenarioError`, and of other exceptions only the one
-- of `int` about a text of too many digits. A field that `_required` asked for is there when it is
-- read.
use vdev_lab.Base.{
  ◌⊎◌, ◌<◌, ltb, ltb→lt, ℕ, ◌≡◌, refl, String, ◌==◌, Bool, true, false, not, List, [], ◌∷◌, Option,
  none, some, select, All, Bool-cases, eq_iff, subst, inl, inr, sort_strings-nil, All-map,
}
use vdev_lab.Base.Int.{pos, negsuc}
use vdev_lab.Base.Value.{Value, str, dict, int, Mapping, keys, contains, lookup}
use vdev_lab.Base.Result.{
  ◌>>=◌, Result, ok, err, Exception, scenario_error, Raises, Raises-ok, Raises-err, Raises-if,
  Raises-bind,
}
use vdev_lab.Scenario.Fields.{
  string_keys, mapping, reject_fields, required, allowed, index, non_empty_string, bounded_integer,
}
use vdev_lab.Scenario.Duration.{
  parse_duration, match_duration, duration_of, int_of_text, digit_limit, count_chars,
}

-- The `ValueError` of a number of more than 4300 digits.
abbrev pub IsDigitLimit : Exception → Type 0
IsDigitLimit e = (n : ℕ) × (4300 < n) × (e ≡ digit_limit n)

-- A `ScenarioError`, or that.
abbrev pub IsFinding : Exception → Type 0
IsFinding e =
    ((path : String) × (message : String) × (e ≡ scenario_error path message)) ⊎ IsDigitLimit e

-- Code that raises nothing else.
abbrev pub Finds {ℓ} : {A : Type ℓ} → Result A → Type ℓ
Finds r = Raises IsFinding r

pub Finds-err {ℓ} :
    {A : Type ℓ} (path message : String) → Finds {A = A} (err (scenario_error path message))
Finds-err path message = Raises-err _ (inl (path, message, refl))

Finds-option {ℓ κ} :
    {A : Type ℓ} {B : Type κ} (o : Option B) (m : Result A) (f : B → Result A)
    → Finds m
    → ((b : B) → Finds (f b))
    → Finds (elim o [ none ↦ m | some b ↦ f b ])
Finds-option none m f p q = p
Finds-option (some b) m f p q = q b

-- The field has a value.
abbrev Has : Mapping → String → Type 0
Has m field = (v : Value) × (lookup field m ≡ some v)

pub mapping-Finds : (v : Value) (path : String) → Finds (mapping v path)
unfolding mapping
mapping-Finds (dict es) path =
    Finds-option (string_keys es) _ (λ m. ok m) (Finds-err path _) Raises-ok
mapping-Finds _ path = Finds-err path _

reject_fields-Finds :
    (path complaint : String) (names : List String) → Finds (reject_fields path complaint names)
reject_fields-Finds path complaint [] = Raises-ok tt
reject_fields-Finds path complaint (name ∷ names) = Finds-err path _

pub required-Finds :
    (m : Mapping) (fields : List String) (path : String) → Finds (required m fields path)
unfolding required
required-Finds m fields path = reject_fields-Finds path _ _

pub allowed-Finds :
    (m : Mapping) (fields : List String) (path : String) → Finds (allowed m fields path)
unfolding allowed
allowed-Finds m fields path = reject_fields-Finds path _ _

reject_fields-nil :
    (path complaint : String) (names : List String) {u : Unit {0}}
    → reject_fields path complaint names ≡ ok u
    → names ≡ []
reject_fields-nil path complaint [] h = refl
reject_fields-nil path complaint (name ∷ names) h = cc h

select-nil :
    (p : String → Bool) (fields : List String)
    → select p fields ≡ []
    → All (λ field. p field ≡ false) fields
select-nil p [] h = tt
select-nil p (field ∷ fields) h = elim (Bool-cases (p field)) [
  | inl e ↦ cc (rw e at h)
  | inr e ↦ (e, select-nil p fields (rw e at h))
]

contains-Has : (field : String) (m : Mapping) → not (contains field (keys m)) ≡ false → Has m field
contains-Has field [] h = cc h
contains-Has field ((k, v) ∷ m) h = elim (Bool-cases (k == field)) [
  | inl e ↦ (v, rw e refl)
  | inr e ↦ let (w, found) = contains-Has field m (rw e at h) in (w, rw e found)
]

-- The fields that `_required` accepted are there.
required-Has :
    (m : Mapping) (fields : List String) (path : String) {u : Unit {0}}
    → required m fields path ≡ ok u
    → All (Has m) fields
unfolding required
required-Has m fields path h =
    All-map (λ field. not (contains field (keys m)) ≡ false) (Has m) fields
      (λ field e. contains-Has field m e)
      (select-nil _ fields (sort_strings-nil _ (reject_fields-nil path _ _ h)))

Has-contains :
    (m : Mapping) (field : String) (fields : List String)
    → contains field fields ≡ true
    → All (Has m) fields
    → Has m field
Has-contains m field [] e h = cc e
Has-contains m field (f ∷ fields) e (h, hs) = elim (Bool-cases (f == field)) [
  | inl same ↦ subst (Has m) ((eq_iff f field).0 same) h
  | inr other ↦ Has-contains m field fields (rw other at e) hs
]

-- A field that was asked for is read without a `KeyError`.
pub index-Finds :
    (m : Mapping) (fields : List String) (path field : String) {u : Unit {0}}
    → required m fields path ≡ ok u
    → contains field fields ≡ true
    → Finds (index m field)
unfolding index
index-Finds m fields path field r e =
    let (v, found) = Has-contains m field fields e (required-Has m fields path r) in
    rw (found, index) (Raises-ok v)

pub non_empty_string-Finds : (v : Value) (path : String) → Finds (non_empty_string v path)
unfolding non_empty_string
non_empty_string-Finds (str s) path = Raises-if _ _ _ (Finds-err path _) (Raises-ok s)
non_empty_string-Finds _ path = Finds-err path _

pub bounded_integer-Finds :
    (v : Value) (path : String) (minimum maximum : ℕ)
    → Finds (bounded_integer v path minimum maximum)
unfolding bounded_integer
bounded_integer-Finds (int (pos n)) path minimum maximum =
    Raises-if _ _ _ (Finds-err path _) (Raises-ok n)
bounded_integer-Finds (int (negsuc n)) path minimum maximum = Finds-err path _
bounded_integer-Finds _ path minimum maximum = Finds-err path _

duration_of-Finds : (n : ℕ) (unit path : String) → Finds (duration_of n unit path)
unfolding duration_of
duration_of-Finds n unit path = Raises-if _ _ _ (Finds-err path _) (Raises-ok _)

int_of_text-Finds : (digits : String) → Finds (int_of_text digits)
unfolding int_of_text
int_of_text-Finds digits = elim (Bool-cases (ltb 4300 (count_chars digits))) [
  | inl h ↦ rw h (Raises-err _ (inr (_, ltb→lt 4300 _ h, refl)))
  | inr h ↦ rw h (Raises-ok _)
]

pub parse_duration-Finds : (v : Value) (path : String) → Finds (parse_duration v path)
unfolding parse_duration
parse_duration-Finds (str s) path =
    Finds-option (match_duration s) _
      (λ (digits, unit). int_of_text digits >>= λ magnitude. duration_of magnitude unit path)
      (Finds-err path _)
      λ (digits, unit).
        Raises-bind _ _ (int_of_text-Finds digits)
          λ magnitude _. duration_of-Finds magnitude unit path
parse_duration-Finds _ path = Finds-err path _
