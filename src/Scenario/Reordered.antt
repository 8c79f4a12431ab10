-- ===== src/Scenario/Reordered.antt =====
-- Documents that differ only in the order of the entries of their dicts.
pub mod Fields
pub mod Mappings
pub mod Events
pub mod Assertions
pub mod Document
use vdev_lab.Base.{ℕ, ◌≡◌, ◌≢◌, refl, ◌∙◌, String, not, [], ◌∷◌}
use vdev_lab.Base.Value.{Value, list, dict, Items, nil, cons, Entries, end, entry, Mapping, keys}
use vdev_lab.Scenario.Fields.{non_empty_string, bounded_integer}
use vdev_lab.Scenario.Duration.{parse_duration}

-- The same document, up to the order of the entries of its dicts. The keys of a dict differ.
mutual
  pub data Same : Value → Value → Type 0 where
    same : (v : Value) → Same v v
    dicts : {es fs : Entries} → SameEntries es fs → Same (dict es) (dict fs)
    lists : {vs ws : Items} → SameItems vs ws → Same (list vs) (list ws)
    same_trans : {v w u : Value} → Same v w → Same w u → Same v u

  pub data SameItems : Items → Items → Type 0 where
    no_items : SameItems nil nil
    cons_items :
        {v w : Value} {vs ws : Items}
        → Same v w
        → SameItems vs ws
        → SameItems (cons v vs) (cons w ws)

  pub data SameEntries : Entries → Entries → Type 0 where
    no_entries : SameEntries end end
    keep_entry :
        {k v w : Value} {es fs : Entries}
        → Same v w
        → SameEntries es fs
        → SameEntries (entry k v es) (entry k w fs)
    swap_entries :
        {k j v w : Value} {es : Entries}
        → k ≢ j
        → SameEntries (entry k v (entry j w es)) (entry j w (entry k v es))
    trans_entries : {es fs gs : Entries} → SameEntries es fs → SameEntries fs gs → SameEntries es gs

-- The same for a dict whose keys are all texts.
pub data SameMapping : Mapping → Mapping → Type 0 where
  no_fields : SameMapping [] []
  keep_field :
      {k : String} {v w : Value} {m n : Mapping}
      → Same v w
      → SameMapping m n
      → SameMapping ((k, v) ∷ m) ((k, w) ∷ n)
  swap_fields :
      {k j : String} {v w : Value} {m : Mapping}
      → k ≢ j
      → SameMapping ((k, v) ∷ (j, w) ∷ m) ((j, w) ∷ (k, v) ∷ m)
  trans_fields : {l m n : Mapping} → SameMapping l m → SameMapping m n → SameMapping l n

-- Of a value, what does not look into dicts and lists is the same.
pub Same-eq {ℓ} :
    {A : Type ℓ} (f : Value → A) {v w : Value}
    → Same v w
    → ((es fs : Entries) → SameEntries es fs → f (dict es) ≡ f (dict fs))
    → ((vs ws : Items) → SameItems vs ws → f (list vs) ≡ f (list ws))
    → f v ≡ f w
Same-eq f (same v) d l = refl
Same-eq f (dicts e) d l = d _ _ e
Same-eq f (lists i) d l = l _ _ i
Same-eq f (same_trans h k) d l = Same-eq f h d l ∙ Same-eq f k d l

pub non_empty_string-Same :
    {v w : Value} (path : String) → Same v w → non_empty_string v path ≡ non_empty_string w path
unfolding non_empty_string
non_empty_string-Same path h =
    Same-eq (λ v. non_empty_string v path) h (λ _ _ _. refl) (λ _ _ _. refl)

pub parse_duration-Same :
    {v w : Value} (path : String) → Same v w → parse_duration v path ≡ parse_duration w path
unfolding parse_duration
parse_duration-Same path h = Same-eq (λ v. parse_duration v path) h (λ _ _ _. refl) (λ _ _ _. refl)

pub bounded_integer-Same :
    {v w : Value} (path : String) (minimum maximum : ℕ)
    → Same v w
    → bounded_integer v path minimum maximum ≡ bounded_integer w path minimum maximum
unfolding bounded_integer
bounded_integer-Same path minimum maximum h =
    Same-eq (λ v. bounded_integer v path minimum maximum) h (λ _ _ _. refl) (λ _ _ _. refl)
