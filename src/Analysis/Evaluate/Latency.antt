-- ===== src/Analysis/Evaluate/Latency.antt =====
-- `evaluate_recovery_latency` of analysis.py against every recovery window.
use vdev_lab.Base.{
  ℕ, ◌≤◌, ◌≡◌, ◌↔◌, refl, sym, ap, ◌∙◌, true, false, List, [], ◌∷◌, map, some, All, length, arith,
}
use vdev_lab.Base.Int.{ℤ, pos, negsuc, leb_ℤ}
use vdev_lab.Base.Value.{int}
use vdev_lab.Base.Result.{ok, ok-injective, ◌>>=◌}
use vdev_lab.Analysis.Records.{RecoveryWindow, RecoveryMetrics, RecoveryLatencyAssertion}
use vdev_lab.Analysis.Log.{require_nonnegative_integer}
use vdev_lab.Analysis.Evaluate.{maximum, larger, at_most, evaluate_recovery_latency}

-- The latency is at most the bound.
abbrev pub Within : ℕ → ℤ → Type 0
Within bound latency = leb_ℤ latency (pos bound) ≡ true

larger-Within :
    (bound : ℕ) (x y : ℤ)
    → (leb_ℤ (larger x (some y)) (pos bound) ≡ true) ↔ (Within bound x × Within bound y)
larger-Within bound (pos m) (pos n) = ground arith
larger-Within bound (pos m) (negsuc n) = ground arith
larger-Within bound (negsuc m) (pos n) = ground arith
larger-Within bound (negsuc m) (negsuc n) = ground arith

maximum-cons :
    (x y : ℤ) (ys : List ℤ)
    → (z : ℤ) × (maximum (x ∷ y ∷ ys) ≡ some (larger x (some z))) × (maximum (y ∷ ys) ≡ some z)
unfolding maximum
maximum-cons x y ys = (larger y (maximum ys), refl, refl)

pub at_most-All :
    (bound : ℕ) (x : ℤ) (xs : List ℤ)
    → (at_most (maximum (x ∷ xs)) bound ≡ true) ↔ All (Within bound) (x ∷ xs)
unfolding maximum
at_most-All bound x [] = (λ h. (h, tt), λ (h, _). h)
at_most-All bound x (y ∷ ys) =
    let (there, back) = at_most-All bound y ys in
    let (split, join) = larger-Within bound x (larger y (maximum ys)) in
    (λ h. let (a, b) = split h in (a, there b), λ (a, all_within). join (a, back all_within))

-- The assertion on the recovery latency passes if and only if there is a recovery window and the
-- latency of every window is at most the bound.
pub evaluate_recovery_latency-All :
    (metrics : RecoveryMetrics) (bound : ℕ) {a : RecoveryLatencyAssertion}
    → evaluate_recovery_latency metrics (int (pos bound)) ≡ ok a
    → (a.passed ≡ true) ↔ (
        (1 ≤ length metrics.recoveries)
        × All (Within bound) (map (λ w. w.recovery_latency_ms) metrics.recoveries))
unfolding evaluate_recovery_latency maximum require_nonnegative_integer ◌>>=◌
evaluate_recovery_latency-All metrics bound {a = a} h = split metrics.recoveries passed
  where
    passed :
        a.passed ≡ at_most (maximum (map (λ w. w.recovery_latency_ms) metrics.recoveries)) bound
    passed = sym (ap (λ x. x.passed) (ok-injective h))

    split :
        (ws : List RecoveryWindow)
        → a.passed ≡ at_most (maximum (map (λ w. w.recovery_latency_ms) ws)) bound
        → (a.passed ≡ true)
          ↔ ((1 ≤ length ws) × All (Within bound) (map (λ w. w.recovery_latency_ms) ws))
    split [] e = (λ p. let q : false ≡ true = sym e ∙ p in cc, λ (l, _). absurd (omega arith))
    split (w ∷ ws) e =
        let (there, back) =
          at_most-All bound w.recovery_latency_ms (map (λ w. w.recovery_latency_ms) ws) in
        (λ p. (omega arith, there (sym e ∙ p)), λ (_, q). e ∙ back q)
