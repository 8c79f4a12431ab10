-- ===== src/Base/Value.antt =====
-- The values that the program handles as `Any`: what the YAML and JSON readers return, and the
-- dicts that it builds itself.
use Prim.Native.Nat.{ℕ}
use Prim.Native.String.{String}
use mathlib.Core.Bool.{Bool, true, false}
use mathlib.Core.Option.{Option, none, some}
use mathlib.Core.List.{List, [], ◌∷◌}
use text.Mathlib.Text.{◌==◌}
use vdev_lab.Base.Tests.{if◌then◌else◌}
use vdev_lab.Base.Int.{ℤ}

-- A Python `float`, by its 64 bits.
pub data Float : Type 0 where
  double : ℕ → Float

-- `other` is any value of a further type, such as a date or a set.
mutual
  pub data Value : Type 0 where
    null : Value
    bool : Bool → Value
    int : ℤ → Value
    float : Float → Value
    str : String → Value
    list : Items → Value
    dict : Entries → Value
    other : ℕ → Value

  pub data Items : Type 0 where
    nil : Items
    cons : Value → Items → Items

  -- The keys of a dict that was read may be of any type.
  pub data Entries : Type 0 where
    end : Entries
    entry : Value → Value → Entries → Entries

-- A dict whose keys are all texts, in insertion order.
abbrev pub Mapping : Type 0
Mapping = List (String × Value)

abbrev pub values : Items → List Value
values nil = []
values (cons v vs) = v ∷ values vs

-- `m.get(key)`, with `none` for a missing key.
abbrev pub lookup : String → Mapping → Option Value
lookup key [] = none
lookup key ((k, v) ∷ m) = let rest = lookup key m in if k == key then some v else rest

abbrev pub found_or : Value → Option Value → Value
found_or default none = default
found_or default (some v) = v

-- `m.get(key, default)`
abbrev pub get_or : Mapping → String → Value → Value
get_or m key default = found_or default (lookup key m)

-- `m.get(key)`
abbrev pub get : Mapping → String → Value
get m key = get_or m key null

abbrev pub found : Option Value → Bool
found none = false
found (some v) = true

-- `key in m`
abbrev pub has_key : String → Mapping → Bool
has_key key m = found (lookup key m)

-- `m[key] = value`
abbrev pub insert : String → Value → Mapping → Mapping
insert key value [] = (key, value) ∷ []
insert key value ((k, v) ∷ m) =
    let rest = insert key value m in if k == key then (k, value) ∷ m else (k, v) ∷ rest

-- `m.keys()`
abbrev pub keys : Mapping → List String
keys [] = []
keys ((k, v) ∷ m) = k ∷ keys m

-- A dict of the program as a value, and a list of values as one.
abbrev pub entries : Mapping → Entries
entries [] = end
entries ((k, v) ∷ m) = entry (str k) v (entries m)

abbrev pub items : List Value → Items
items [] = nil
items (v ∷ vs) = cons v (items vs)

-- `v == text`
abbrev pub is_str : String → Value → Bool
is_str text (str s) = s == text
is_str text _ = false

abbrev pub contains : String → List String → Bool
contains s [] = false
contains s (t ∷ ts) = let rest = contains s ts in if t == s then true else rest
