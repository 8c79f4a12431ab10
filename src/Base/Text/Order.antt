-- ===== src/Base/Text/Order.antt =====
-- The order of `str`: by code points, from the left.
use Prim.Native.Char.{Char, code}
use Prim.Native.Nat.{ℕ, ◌<◌, Ordering, compare as compare_ℕ}
use Prim.Native.String.compare
use Prim.Native.String as Str
use Prim.Native.String.{String, compare, then}
use mathlib.Core.Path.{◌≡◌, refl, sym, ap₂, ◌∙◌, subst}
use mathlib.Core.Logic.{◌⊎◌, inl, inr}
use mathlib.Core.Bool.{true, false}
use native.Mathlib.Omega.{arith}
use text.Mathlib.Text.{is_lt}
use text.Mathlib.TextEquality.{Char-path}
use vdev_lab.Base.Tests.{ltb, eqb, ltb→lt, eqb_iff, Bool-cases}
use vdev_lab.Base.Text.{ltb_str}

-- One text comes before another.
Before : String → String → Type 0
Before s Str.[] = ⊥
Before Str.[] (Str.◌∷◌ d t) = Unit
Before (Str.◌∷◌ c s) (Str.◌∷◌ d t) = (code c < code d) ⊎ ((c ≡ d) × Before s t)

abbrev Ordered : Ordering → String → String → Type 0
Ordered Ordering.lt s t = Before s t
Ordered Ordering.eq s t = s ≡ t
Ordered Ordering.gt s t = Before t s

abbrev OrderedNumbers : Ordering → ℕ → ℕ → Type 0
OrderedNumbers Ordering.lt m n = m < n
OrderedNumbers Ordering.eq m n = m ≡ n
OrderedNumbers Ordering.gt m n = n < m

compare-OrderedNumbers : (m n : ℕ) → OrderedNumbers (compare_ℕ m n) m n
compare-OrderedNumbers m n = by_answer (compare_ℕ m n) refl
  where
    by_answer : (o : Ordering) → compare_ℕ m n ≡ o → OrderedNumbers o m n
    by_answer Ordering.lt e = ltb→lt m n (rw (ltb, e) refl)
    by_answer Ordering.eq e = (eqb_iff m n).0 (rw (eqb, e) refl)
    by_answer Ordering.gt e =
        let not_less : ltb m n ≡ false = rw (ltb, e) refl in
        let not_same : eqb m n ≡ false = rw (eqb, e) refl in ground arith

then-Ordered :
    (o r : Ordering) (c d : Char) (s t : String)
    → OrderedNumbers o (code c) (code d)
    → Ordered r s t
    → Ordered ((then) o r) (Str.◌∷◌ c s) (Str.◌∷◌ d t)
unfolding Before
then-Ordered Ordering.lt r c d s t h k = inl h
then-Ordered Ordering.gt r c d s t h k = inl h
then-Ordered Ordering.eq Ordering.lt c d s t h k = inr (Char-path c d h, k)
then-Ordered Ordering.eq Ordering.eq c d s t h k = ap₂ Str.◌∷◌ (Char-path c d h) k
then-Ordered Ordering.eq Ordering.gt c d s t h k = inr (sym (Char-path c d h), k)

compare-Ordered : (s t : String) → Ordered (compare s t) s t
unfolding Before
compare-Ordered Str.[] Str.[] = subst (λ o. Ordered o Str.[] Str.[]) (sym compare.nil-nil) refl
compare-Ordered Str.[] (Str.◌∷◌ d t) =
    subst (λ o. Ordered o Str.[] (Str.◌∷◌ d t)) (sym (compare.nil-cons d t)) tt
compare-Ordered (Str.◌∷◌ c s) Str.[] =
    subst (λ o. Ordered o (Str.◌∷◌ c s) Str.[]) (sym (compare.cons-nil c s)) tt
compare-Ordered (Str.◌∷◌ c s) (Str.◌∷◌ d t) =
    subst (λ o. Ordered o (Str.◌∷◌ c s) (Str.◌∷◌ d t)) (sym (compare.cons-cons c d s t))
      (then-Ordered (compare_ℕ (code c) (code d)) (compare s t) c d s t
        (compare-OrderedNumbers (code c) (code d)) (compare-Ordered s t))

Before-irrefl : (s : String) → Before s s → ⊥
unfolding Before
Before-irrefl Str.[] h = h
Before-irrefl (Str.◌∷◌ c s) (inl h) = absurd (omega (arith, h))
Before-irrefl (Str.◌∷◌ c s) (inr (_, h)) = Before-irrefl s h

Before-trans : (s t u : String) → Before s t → Before t u → Before s u
unfolding Before
Before-trans s t Str.[] h k = k
Before-trans s Str.[] (Str.◌∷◌ e u) h k = absurd h
Before-trans Str.[] (Str.◌∷◌ d t) (Str.◌∷◌ e u) h k = tt
Before-trans (Str.◌∷◌ c s) (Str.◌∷◌ d t) (Str.◌∷◌ e u) (inl h) (inl k) = inl (omega (arith, h, k))
Before-trans (Str.◌∷◌ c s) (Str.◌∷◌ d t) (Str.◌∷◌ e u) (inl h) (inr (p, k)) =
    inl (subst (λ x. code c < code x) p h)
Before-trans (Str.◌∷◌ c s) (Str.◌∷◌ d t) (Str.◌∷◌ e u) (inr (p, h)) (inl k) =
    inl (subst (λ x. code x < code e) (sym p) k)
Before-trans (Str.◌∷◌ c s) (Str.◌∷◌ d t) (Str.◌∷◌ e u) (inr (p, h)) (inr (q, k)) =
    inr (p ∙ q, Before-trans s t u h k)

ltb_str-true : (s t : String) → ltb_str s t ≡ true → Before s t
ltb_str-true s t h = by_answer (compare s t) (compare-Ordered s t) h
  where
    by_answer : (o : Ordering) → Ordered o s t → is_lt o ≡ true → Before s t
    by_answer Ordering.lt b h = b
    by_answer Ordering.eq b h = cc h
    by_answer Ordering.gt b h = cc h

ltb_str-false : (s t : String) → ltb_str s t ≡ false → (s ≡ t) ⊎ Before t s
ltb_str-false s t h = by_answer (compare s t) (compare-Ordered s t) h
  where
    by_answer : (o : Ordering) → Ordered o s t → is_lt o ≡ false → (s ≡ t) ⊎ Before t s
    by_answer Ordering.lt b h = cc h
    by_answer Ordering.eq b h = inl b
    by_answer Ordering.gt b h = inr b

Before-ltb_str : (s t : String) → Before s t → ltb_str s t ≡ true
Before-ltb_str s t b = elim (Bool-cases (ltb_str s t)) [
  | inl h ↦ h
  | inr h ↦ elim (ltb_str-false s t h) [
    | inl e ↦ absurd (Before-irrefl t (subst (λ x. Before x t) e b))
    | inr k ↦ absurd (Before-irrefl s (Before-trans s t s b k))
  ]
]

pub ltb_str_asymm : (s t : String) → ltb_str s t ≡ true → ltb_str t s ≡ false
ltb_str_asymm s t h = elim (Bool-cases (ltb_str t s)) [
  | inr k ↦ k
  | inl k ↦ absurd (Before-irrefl s (Before-trans s t s (ltb_str-true s t h) (ltb_str-true t s k)))
]

pub ltb_str_antisymm : (s t : String) → ltb_str s t ≡ false → ltb_str t s ≡ false → s ≡ t
ltb_str_antisymm s t h k = elim (ltb_str-false s t h) [
  | inl e ↦ e
  | inr b ↦ cc (sym (Before-ltb_str t s b) ∙ k)
]

-- What is not after `u` is before what `u` is before.
pub ltb_str-le-lt : (u s t : String) → ltb_str u s ≡ true → ltb_str u t ≡ false → ltb_str t s ≡ true
ltb_str-le-lt u s t h k = elim (ltb_str-false u t k) [
  | inl e ↦ subst (λ x. ltb_str x s ≡ true) e h
  | inr b ↦ Before-ltb_str t s (Before-trans t u s b (ltb_str-true u s h))
]
