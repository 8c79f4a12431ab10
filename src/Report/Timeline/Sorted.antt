-- ===== src/Report/Timeline/Sorted.antt =====
-- The sort of report.py's `_sorted_timeline`: a permutation of the items, in the order of their times.
use mathlib.Core.List.{Perm}
use mathlib.Core.List.Perm
use vdev_lab.Base.{
  String, eq_iff, ℕ, ◌≤◌, ◌≡◌, ◌⊎◌, inl, inr, refl, sym, ap, ◌∙◌, subst, true, false, List, [], ◌∷◌,
  map, All, Linked, Follows, Bool-cases, ltb, if◌then◌else◌, arith,
}
use vdev_lab.Base.Int.{ℤ, pos, negsuc, ltb_ℤ, eqb_ℤ}
use vdev_lab.Base.Value.{
  Value, Float, int, str, null, bool, float, list, dict, other, is_str, Mapping,
}
use vdev_lab.Base.Result.{ok, ok-injective, >>=-eq-ok}
use vdev_lab.Base.Interpreter.{Interpreter}
use vdev_lab.Scenario.Fields.{index}
use vdev_lab.Report.Timeline.{
  SortKey, float_of, rank, sort_key, ltb_key, keyed, insert_keyed, sort_keyed, sorted_timeline,
}

-- The comparison of the floats that are made of integers goes by their numerical values.
pub record IntFloats (python : Interpreter) : Type 0 where
  pub value : Float → ℤ
  pub lt_of_int :
      (m n : ℤ) (x y : Float)
      → python.of_int m ≡ ok x
      → python.of_int n ≡ ok y
      → python.lt x y ≡ ltb_ℤ (value x) (value y)
  pub eq_of_int :
      (m n : ℤ) (x y : Float)
      → python.of_int m ≡ ok x
      → python.of_int n ≡ ok y
      → python.eq x y ≡ eqb_ℤ (value x) (value y)

-- An item whose source is the scenario.
abbrev pub FromScenario : Mapping → Type 0
FromScenario item = index item "source" ≡ ok (str "scenario")

is_str-eq : (text : String) (v : Value) → is_str text v ≡ true → v ≡ str text
is_str-eq text (str s) h = ap str ((eq_iff s text).0 h)
is_str-eq text null h = cc
is_str-eq text (bool b) h = cc
is_str-eq text (int n) h = cc
is_str-eq text (float x) h = cc
is_str-eq text (list x) h = cc
is_str-eq text (dict x) h = cc
is_str-eq text (other n) h = cc

-- Of a source with no later rank than that of the scenario.
rank-scenario : (source : Value) → rank source ≤ 0 → source ≡ str "scenario"
rank-scenario source h = is_str-eq "scenario" source (ground arith)

rank-FromScenario :
    (a b : Mapping) {r q : ℕ}
    → (source : Value) × (index a "source" ≡ ok source) × (r ≡ rank source)
    → (source : Value) × (index b "source" ≡ ok source) × (q ≡ rank source)
    → r ≤ q
    → FromScenario b
    → FromScenario a
rank-FromScenario a b (source, e, k) (source', e', k') h of_b =
    let s : source' ≡ str "scenario" = ok-injective (sym e' ∙ of_b) in
    let zero_rank : rank source' ≡ 0 = rw s refl in e ∙ ap ok (rank-scenario source (omega arith))

-- An item with an integer time.
abbrev pub HasTime : Mapping → Type 0
HasTime item = (n : ℤ) × (index item "timestamp_ms" ≡ ok (int n))

not_less :
    (a b : ℤ) (r q : ℕ)
    → (if eqb_ℤ b a then ltb q r else ltb_ℤ b a) ≡ false
    → (ltb_ℤ a b ≡ true) ⊎ ((a ≡ b) × (r ≤ q))
not_less (pos a) (pos b) r q h = ground arith
not_less (pos a) (negsuc b) r q h = ground arith
not_less (negsuc a) (pos b) r q h = ground arith
not_less (negsuc a) (negsuc b) r q h = ground arith

less :
    (a b : ℤ) (r q : ℕ)
    → (if eqb_ℤ a b then ltb r q else ltb_ℤ a b) ≡ true
    → (ltb_ℤ a b ≡ true) ⊎ ((a ≡ b) × (r ≤ q))
less (pos a) (pos b) r q h = ground arith
less (pos a) (negsuc b) r q h = ground arith
less (negsuc a) (pos b) r q h = ground arith
less (negsuc a) (negsuc b) r q h = ground arith

module _ (python : Interpreter) (floats : IntFloats python) where
  open floats use {value, lt_of_int, eq_of_int}

  -- An earlier time, or the same time and no later rank.
  abbrev KeyBefore : SortKey → SortKey → Type 0
  KeyBefore (t, r) (u, q) = (ltb_ℤ (value t) (value u) ≡ true) ⊎ ((value t ≡ value u) × (r ≤ q))

  -- The item's time, as the float that Python makes of it.
  abbrev pub TimeOf : Mapping → Float → Type 0
  TimeOf item t = (n : ℤ) × (index item "timestamp_ms" ≡ ok (int n)) × (python.of_int n ≡ ok t)

  -- An earlier time; or the same time, and then the second item is only of the scenario where the first
  -- is, too.
  abbrev pub Before : Mapping → Mapping → Type 0
  Before a b =
      (t : Float) × (u : Float) × TimeOf a t
      × TimeOf b u
      × ((ltb_ℤ (value t) (value u) ≡ true)
          ⊎ ((value t ≡ value u) × (FromScenario b → FromScenario a)))

  abbrev IsKeyed : SortKey × Mapping → Type 0
  IsKeyed p =
      TimeOf p.1 p.0.0
      × ((source : Value) × (index p.1 "source" ≡ ok source) × (p.0.1 ≡ rank source))

  abbrev PairBefore : SortKey × Mapping → SortKey × Mapping → Type 0
  PairBefore p q = KeyBefore p.0 q.0

  ltb_key-value :
      (p q : SortKey × Mapping)
      → IsKeyed p
      → IsKeyed q
      → ltb_key python p.0 q.0 ≡ (
          if eqb_ℤ (value p.0.0) (value q.0.0)
          then ltb p.0.1 q.0.1
          else ltb_ℤ (value p.0.0) (value q.0.0))
  unfolding ltb_key
  ltb_key-value ((t, r), a) ((u, q), b) ((m, _, hm), _) ((n, _, hn), _) =
      rw (lt_of_int m n t u hm hn, eq_of_int m n t u hm hn) refl

  insert_keyed-perm :
      (x : SortKey × Mapping) (ys : List (SortKey × Mapping))
      → Perm (insert_keyed python x ys) (x ∷ ys)
  unfolding insert_keyed
  insert_keyed-perm x [] = Perm.rfl
  insert_keyed-perm x (y ∷ ys) = elim (Bool-cases (ltb_key python y.0 x.0)) [
    | inl h ↦ rw h (Perm.trans (Perm.cons y (insert_keyed-perm x ys)) (Perm.swap x y ys))
    | inr h ↦ rw h Perm.rfl
  ]

  sort_keyed-perm : (xs : List (SortKey × Mapping)) → Perm (sort_keyed python xs) xs
  unfolding sort_keyed
  sort_keyed-perm [] = Perm.rfl
  sort_keyed-perm (x ∷ xs) =
      Perm.trans (insert_keyed-perm x (sort_keyed python xs)) (Perm.cons x (sort_keyed-perm xs))

  insert_keyed-All :
      (x : SortKey × Mapping) (ys : List (SortKey × Mapping))
      → IsKeyed x
      → All IsKeyed ys
      → All IsKeyed (insert_keyed python x ys)
  unfolding insert_keyed
  insert_keyed-All x [] h hs = (h, tt)
  insert_keyed-All x (y ∷ ys) h (k, ks) = elim (Bool-cases (ltb_key python y.0 x.0)) [
    | inl e ↦ rw e (k, insert_keyed-All x ys h ks)
    | inr e ↦ rw e (h, (k, ks))
  ]

  insert_keyed-Follows :
      (y x : SortKey × Mapping) (ys : List (SortKey × Mapping))
      → PairBefore y x
      → Follows PairBefore y ys
      → Follows PairBefore y (insert_keyed python x ys)
  unfolding insert_keyed
  insert_keyed-Follows y x [] h f = h
  insert_keyed-Follows y x (z ∷ zs) h f = elim (Bool-cases (ltb_key python z.0 x.0)) [
    | inl e ↦ rw e f
    | inr e ↦ rw e h
  ]

  insert_keyed-Linked :
      (x : SortKey × Mapping) (ys : List (SortKey × Mapping))
      → IsKeyed x
      → All IsKeyed ys
      → Linked PairBefore ys
      → Linked PairBefore (insert_keyed python x ys)
  unfolding insert_keyed
  insert_keyed-Linked x [] h hs l = (tt, tt)
  insert_keyed-Linked x (y ∷ ys) h (k, ks) (f, l) = elim (Bool-cases (ltb_key python y.0 x.0)) [
    | inl e ↦
        let b = less (value y.0.0) (value x.0.0) y.0.1 x.0.1 (sym (ltb_key-value y x k h) ∙ e) in
        rw e (insert_keyed-Follows y x ys b f, insert_keyed-Linked x ys h ks l)
    | inr e ↦
        let b =
          not_less (value x.0.0) (value y.0.0) x.0.1 y.0.1 (sym (ltb_key-value y x k h) ∙ e) in
        rw e (b, (f, l))
  ]

  sort_keyed-All :
      (xs : List (SortKey × Mapping)) → All IsKeyed xs → All IsKeyed (sort_keyed python xs)
  unfolding sort_keyed
  sort_keyed-All [] h = tt
  sort_keyed-All (x ∷ xs) (h, hs) =
      insert_keyed-All x (sort_keyed python xs) h (sort_keyed-All xs hs)

  sort_keyed-Linked :
      (xs : List (SortKey × Mapping)) → All IsKeyed xs → Linked PairBefore (sort_keyed python xs)
  unfolding sort_keyed
  sort_keyed-Linked [] h = tt
  sort_keyed-Linked (x ∷ xs) (h, hs) =
      insert_keyed-Linked x (sort_keyed python xs) h (sort_keyed-All xs hs)
        (sort_keyed-Linked xs hs)

  PairBefore-Before :
      (p q : SortKey × Mapping) → IsKeyed p → IsKeyed q → PairBefore p q → Before p.1 q.1
  PairBefore-Before p q (t, s) (u, s') f = (
    p.0.0,
    q.0.0,
    t,
    u,
    elim f [ inl l ↦ inl l | inr (e, r) ↦ inr (e, rank-FromScenario p.1 q.1 s s' r) ],
  )

  map-Linked :
      (ps : List (SortKey × Mapping))
      → All IsKeyed ps
      → Linked PairBefore ps
      → Linked Before (map (λ (key, item). item) ps)
  map-Linked [] h l = tt
  map-Linked (p ∷ []) h l = (tt, tt)
  map-Linked (p ∷ q ∷ ps) (h, (k, ks)) (f, l) =
      (PairBefore-Before p q h k f, map-Linked (q ∷ ps) (k, ks) l)

  sort_key-IsKeyed :
      (item : Mapping) {k : SortKey}
      → HasTime item
      → sort_key python item ≡ ok k
      → IsKeyed (k, item)
  unfolding sort_key
  sort_key-IsKeyed item (n, timed) h =
      let (raw, e, h1) = >>=-eq-ok _ _ h in
      let (time, e', h2) = >>=-eq-ok _ _ h1 in
      let (source, s, h3) = >>=-eq-ok _ _ h2 in
      let p : python.of_int n ≡ ok time =
        subst (λ v. float_of python v ≡ ok time) (ok-injective (sym e ∙ timed)) e' in
      (
        (n, timed, p ∙ ap (λ t. ok t.0) (ok-injective h3)),
        (source, s, sym (ap (λ t. t.1) (ok-injective h3))),
      )

  keyed-IsKeyed :
      (items : List Mapping) {ps : List (SortKey × Mapping)}
      → All HasTime items
      → keyed python items ≡ ok ps
      → All IsKeyed ps × (map (λ (key, item). item) ps ≡ items)
  unfolding keyed
  keyed-IsKeyed [] h e =
      subst (λ ps. All IsKeyed ps × (map (λ (key, item). item) ps ≡ [])) (ok-injective e) (tt, refl)
  keyed-IsKeyed (item ∷ rest) (h, hs) e =
      let (key, e1, h1) = >>=-eq-ok _ _ e in
      let (others, e2, h2) = >>=-eq-ok _ _ h1 in
      let (k, q) = keyed-IsKeyed rest hs e2 in
      subst (λ ps. All IsKeyed ps × (map (λ (key, item). item) ps ≡ item ∷ rest)) (ok-injective h2)
        ((sort_key-IsKeyed item h e1, k), ap (λ l. item ∷ l) q)

  -- The timeline that `_sorted_timeline` returns for items with integer times is a permutation of the
  -- items, and each comes before the next: its time is smaller as a float, or equal and then the next
  -- item is only of the scenario where this one is.
  pub sorted_timeline-Before :
      (items : List Mapping) {timeline : List Mapping}
      → All HasTime items
      → sorted_timeline python items ≡ ok timeline
      → Perm timeline items × Linked Before timeline
  unfolding sorted_timeline
  sorted_timeline-Before items h e =
      let (ps, made, h1) = >>=-eq-ok _ _ e in
      let (k, q) = keyed-IsKeyed items h made in
      subst (λ t. Perm t items × Linked Before t) (ok-injective h1)
        (
          subst (λ l. Perm (map (λ (key, item). item) (sort_keyed python ps)) l) q
              (Perm.map (λ (key, item). item) (sort_keyed-perm ps)),
          map-Linked (sort_keyed python ps) (sort_keyed-All ps k) (sort_keyed-Linked ps k),
        )
