-- ===== src/Scenario/Reordered/Mappings.antt =====
-- `_mapping` of scenario.py on a dict whose entries stand in another order.
use vdev_lab.Base.{◌≡◌, ◌≢◌, refl, ap, String, [], ◌∷◌, Option, none, some}
use vdev_lab.Base.Value.{Value, str, Entries, entry, Mapping}
use vdev_lab.Base.Result.{Result, ok, err, scenario_error, ◌>>=◌}
use vdev_lab.Scenario.Fields.{string_keys, mapping}
use vdev_lab.Scenario.Reordered.{
  Same, same, SameEntries, no_entries, keep_entry, swap_entries, trans_entries, SameMapping,
  no_fields, keep_field, swap_fields, trans_fields, Same-eq,
}

-- `string_keys` of two dicts.
data SameKeys : Option Mapping → Option Mapping → Type 0 where
  no_mapping : SameKeys none none
  mappings : {m n : Mapping} → SameMapping m n → SameKeys (some m) (some n)

SameMapping-refl : (m : Mapping) → SameMapping m m
SameMapping-refl [] = no_fields
SameMapping-refl ((k, v) ∷ m) = keep_field (same v) (SameMapping-refl m)

SameKeys-refl : (o : Option Mapping) → SameKeys o o
SameKeys-refl none = no_mapping
SameKeys-refl (some m) = mappings (SameMapping-refl m)

SameKeys-trans : {o p q : Option Mapping} → SameKeys o p → SameKeys p q → SameKeys o q
SameKeys-trans no_mapping k = k
SameKeys-trans (mappings s) (mappings t) = mappings (trans_fields s t)

string_keys-keep :
    (k : Value) {v w : Value} (es fs : Entries)
    → Same v w
    → SameKeys (string_keys es) (string_keys fs)
    → SameKeys (string_keys (entry k v es)) (string_keys (entry k w fs))
string_keys-keep (str k) {v} {w} es fs h s = keep (string_keys es) (string_keys fs) s
  where
    keep :
        (o p : Option Mapping)
        → SameKeys o p
        → SameKeys
            (elim o [ none ↦ none | some m ↦ some ((k, v) ∷ m) ])
            (elim p [ none ↦ none | some m ↦ some ((k, w) ∷ m) ])
    keep none none no_mapping = no_mapping
    keep (some m) (some n) (mappings t) = mappings (keep_field h t)
    keep none (some n) t = elim t [ ]
    keep (some m) none t = elim t [ ]
string_keys-keep _ es fs h s = no_mapping

string_keys-swap :
    (k j v w : Value) (es : Entries)
    → k ≢ j
    → SameKeys (string_keys (entry k v (entry j w es))) (string_keys (entry j w (entry k v es)))
string_keys-swap (str k) (str j) v w es d = swap (string_keys es)
  where
    swap :
        (o : Option Mapping)
        → SameKeys
            (elim (elim o as (λ _. Option Mapping) [ none ↦ none | some m ↦ some ((j, w) ∷ m) ]) [
              | none ↦ none
              | some m ↦ some ((k, v) ∷ m)
            ])
            (elim (elim o as (λ _. Option Mapping) [ none ↦ none | some m ↦ some ((k, v) ∷ m) ]) [
              | none ↦ none
              | some m ↦ some ((j, w) ∷ m)
            ])
    swap none = no_mapping
    swap (some m) = mappings (swap_fields (λ e. d (ap str e)))
string_keys-swap (str k) _ v w es d = no_mapping
string_keys-swap _ (str j) v w es d = no_mapping
string_keys-swap _ _ v w es d = no_mapping

string_keys-Same :
    {es fs : Entries} → SameEntries es fs → SameKeys (string_keys es) (string_keys fs)
string_keys-Same no_entries = mappings no_fields
string_keys-Same (keep_entry {k = k} {es = es} {fs = fs} h s) =
    string_keys-keep k es fs h (string_keys-Same s)
string_keys-Same (swap_entries {k = k} {j = j} {v = v} {w = w} {es = es} d) =
    string_keys-swap k j v w es d
string_keys-Same (trans_entries s t) = SameKeys-trans (string_keys-Same s) (string_keys-Same t)

module _ {ℓ} {B : Type ℓ} where
  -- A block that begins with `_mapping`, and whose rest does not look at the order.
  pub mapping-Same :
      (path : String) {v w : Value} (f : Mapping → Result B)
      → Same v w
      → ((m n : Mapping) → SameMapping m n → f m ≡ f n)
      → (mapping v path >>= f) ≡ (mapping w path >>= f)
  unfolding mapping ◌>>=◌
  mapping-Same path f h rest =
      Same-eq (λ v. mapping v path >>= f) h
        (λ es fs s. by_keys (string_keys es) (string_keys fs) (string_keys-Same s)) (λ _ _ _. refl)
    where
      by_keys :
          (o p : Option Mapping)
          → SameKeys o p
          → ((elim o [
            | none ↦ err (scenario_error path "field names must be strings")
            | some m ↦ ok m
          ])
              >>= f)
            ≡ ((elim p [
              | none ↦ err (scenario_error path "field names must be strings")
              | some m ↦ ok m
            ])
                >>= f)
      by_keys none none no_mapping = refl
      by_keys (some m) (some n) (mappings s) = rest m n s
      by_keys none (some n) s = elim s [ ]
      by_keys (some m) none s = elim s [ ]
