-- ===== src/Scenario/Reordered/Fields.antt =====
-- What the field checks of scenario.py make of a dict whose entries stand in another order.
use vdev_lab.Base.{
  ◌≡◌, ◌≢◌, refl, sym, ap, ◌∙◌, subst, String, ◌==◌, eq_iff, Bool, not, Bool-cases, inl, inr, List,
  ◌∷◌, Option, none, some, select, sort_strings, if◌then◌else◌,
}
use vdev_lab.Base.Text.Sorted.{sort_strings-swap, sort_strings-cons}
use vdev_lab.Base.Value.{Value, Mapping, keys, contains, lookup, get_or, found_or}
use vdev_lab.Base.Result.{Result, ok, err, key_error, ◌>>=◌}
use vdev_lab.Scenario.Fields.{reject_fields, required, allowed, index}
use vdev_lab.Scenario.Reordered.{
  Same, same, same_trans, SameMapping, no_fields, keep_field, swap_fields, trans_fields,
}

-- What is found under a key.
pub data SameFound : Option Value → Option Value → Type 0 where
  missing : SameFound none none
  found : {v w : Value} → Same v w → SameFound (some v) (some w)

SameFound-refl : (o : Option Value) → SameFound o o
SameFound-refl none = missing
SameFound-refl (some v) = found (same v)

SameFound-trans : {o p q : Option Value} → SameFound o p → SameFound p q → SameFound o q
SameFound-trans missing k = k
SameFound-trans (found h) (found k) = found (same_trans h k)

-- Two different keys are not both the one that is looked up.
lookup-swap :
    (key k j : String) (v w : Value) (m : Mapping)
    → k ≢ j
    → lookup key ((k, v) ∷ (j, w) ∷ m) ≡ lookup key ((j, w) ∷ (k, v) ∷ m)
lookup-swap key k j v w m d = elim (Bool-cases (k == key)) [
  | inl h ↦ elim (Bool-cases (j == key)) [
    | inl i ↦ absurd (d ((eq_iff k key).0 h ∙ sym ((eq_iff j key).0 i)))
    | inr i ↦ rw (h, i) refl
  ]
  | inr h ↦ rw h refl
]

pub lookup-Same :
    (key : String) {m n : Mapping} → SameMapping m n → SameFound (lookup key m) (lookup key n)
lookup-Same key no_fields = missing
lookup-Same key (keep_field {k = k} h s) = elim (Bool-cases (k == key)) [
  | inl e ↦ rw e (found h)
  | inr e ↦ rw e (lookup-Same key s)
]
lookup-Same key (swap_fields {k = k} {j = j} {v = v} {w = w} {m = m} d) =
    subst (SameFound (lookup key ((k, v) ∷ (j, w) ∷ m))) (lookup-swap key k j v w m d)
      (SameFound-refl _)
lookup-Same key (trans_fields s t) = SameFound-trans (lookup-Same key s) (lookup-Same key t)

contains-Same :
    (field : String) {m n : Mapping}
    → SameMapping m n
    → contains field (keys m) ≡ contains field (keys n)
contains-Same field no_fields = refl
contains-Same field (keep_field {k = k} h s) = elim (Bool-cases (k == field)) [
  | inl e ↦ rw e refl
  | inr e ↦ rw e (contains-Same field s)
]
contains-Same field (swap_fields {k = k} {j = j} d) = elim (Bool-cases (k == field)) [
  | inl e ↦ elim (Bool-cases (j == field)) [ inl i ↦ rw (e, i) refl | inr i ↦ rw (e, i) refl ]
  | inr e ↦ rw e refl
]
contains-Same field (trans_fields s t) = contains-Same field s ∙ contains-Same field t

-- The names that offend, sorted.
select-Same :
    (p : String → Bool) {m n : Mapping}
    → SameMapping m n
    → sort_strings (select p (keys m)) ≡ sort_strings (select p (keys n))
select-Same p no_fields = refl
select-Same p (keep_field {k = k} h s) = elim (Bool-cases (p k)) [
  | inl e ↦ rw e (sort_strings-cons k _ _ (select-Same p s))
  | inr e ↦ rw e (select-Same p s)
]
select-Same p (swap_fields {k = k} {j = j} {m = m} d) = elim (Bool-cases (p k)) [
  | inl e ↦ elim (Bool-cases (p j)) [
    | inl i ↦ rw (e, i) (sort_strings-swap k j (select p (keys m)))
    | inr i ↦ rw (e, i) refl
  ]
  | inr e ↦ rw e refl
]
select-Same p (trans_fields s t) = select-Same p s ∙ select-Same p t

pub required-Same :
    (fields : List String) (path : String) {m n : Mapping}
    → SameMapping m n
    → required m fields path ≡ required n fields path
unfolding required
required-Same fields path s =
    let same_tests : (λ field. not (contains field (keys _)))
        ≡ (λ field. not (contains field (keys _))) =
      λ i field. not (contains-Same field s i) in
    ap (λ p. reject_fields path "missing required field(s): " (sort_strings (select p fields)))
      same_tests

pub allowed-Same :
    (fields : List String) (path : String) {m n : Mapping}
    → SameMapping m n
    → allowed m fields path ≡ allowed n fields path
unfolding allowed
allowed-Same fields path s =
    ap (reject_fields path "unexpected field(s): ")
      (select-Same (λ key. not (contains key fields)) s)

module _ {ℓ κ} {A : Type ℓ} {B : Type κ} where
  -- A block whose first part and whose rest give the same.
  pub bind-eq :
      {r r' : Result A} (f g : A → Result B)
      → r ≡ r'
      → ((a : A) → f a ≡ g a)
      → (r >>= f) ≡ (r' >>= g)
  bind-eq f g e h = λ i. e i >>= (λ a. h a i)

module _ {ℓ} {B : Type ℓ} where
  -- A block that begins with the look-up of a field.
  pub index-Same :
      (key : String) {m n : Mapping} (f g : Value → Result B)
      → SameMapping m n
      → ((v w : Value) → Same v w → f v ≡ g w)
      → (index m key >>= f) ≡ (index n key >>= g)
  unfolding index ◌>>=◌
  index-Same key {m} {n} f g s h = by_found (lookup key m) (lookup key n) (lookup-Same key s)
    where
      by_found :
          (o p : Option Value)
          → SameFound o p
          → ((elim o [ none ↦ err (key_error key) | some v ↦ ok v ]) >>= f)
            ≡ ((elim p [ none ↦ err (key_error key) | some v ↦ ok v ]) >>= g)
      by_found none none missing = refl
      by_found (some v) (some w) (found e) = h v w e
      by_found none (some w) e = elim e [ ]
      by_found (some v) none e = elim e [ ]

found_or-Same :
    (default : Value) {o p : Option Value}
    → SameFound o p
    → Same (found_or default o) (found_or default p)
found_or-Same default missing = same default
found_or-Same default (found h) = h

pub get_or-Same :
    (key : String) (default : Value) {m n : Mapping}
    → SameMapping m n
    → Same (get_or m key default) (get_or n key default)
get_or-Same key default s = found_or-Same default (lookup-Same key s)

-- A branch on a test.
pub if-eq {ℓ} :
    {A : Type ℓ} (b : Bool) {x x' y y' : A}
    → x ≡ x'
    → y ≡ y'
    → (if b then x else y) ≡ (if b then x' else y')
if-eq b p q = λ i. if b then p i else q i
