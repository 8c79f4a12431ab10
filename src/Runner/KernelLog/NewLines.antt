-- ===== src/Runner/KernelLog/NewLines.antt =====
-- The lines that runner.py's `observe` takes for new.
use vdev_lab.Base.{
  take-drop, ℕ, zero, suc, ◌-◌, ◌≤◌, String, eq_iff, ◌≡◌, refl, sym, ap, ◌∙◌, true, false, List, [],
  ◌∷◌, ◌++◌, length, take, drop, Bool-cases, inl, inr, arith, ◌≢◌, length-append,
}
use vdev_lab.Runner.KernelLog.{same_lines, last_lines, shrink_overlap, new_lines, smaller}

same_lines-eq : (ss ts : List String) → same_lines ss ts ≡ true → ss ≡ ts
unfolding same_lines
same_lines-eq [] [] h = refl
same_lines-eq [] (t ∷ ts) h = cc
same_lines-eq (s ∷ ss) [] h = cc
same_lines-eq (s ∷ ss) (t ∷ ts) h =
    let e : s ≡ t = ground (arith, eq_iff s t) in
    let e' : ss ≡ ts = same_lines-eq ss ts (ground arith) in cc

same_lines_refl : (ss : List String) → same_lines ss ss ≡ true
unfolding same_lines
same_lines_refl [] = refl
same_lines_refl (s ∷ ss) = let e = same_lines_refl ss in ground (arith, eq_iff s s)

absurd_bool : true ≢ false
absurd_bool h = cc

drop-length : (xs : List String) → drop (length xs) xs ≡ []
drop-length [] = refl
drop-length (x ∷ xs) = drop-length xs

module _ (before after : List String) where
  shrink_overlap-overlaps :
      (n : ℕ)
      → last_lines (shrink_overlap n before after) before
        ≡ take (shrink_overlap n before after) after
  unfolding shrink_overlap
  shrink_overlap-overlaps zero =
      let e : length before - 0 ≡ length before = omega arith in rw e (drop-length before)
  shrink_overlap-overlaps (suc n) =
      elim (Bool-cases (same_lines (last_lines (suc n) before) (take (suc n) after))) [
        | inl h ↦ rw h (same_lines-eq _ _ h)
        | inr h ↦ rw h (shrink_overlap-overlaps n)
      ]

  not_suc :
      (n m : ℕ)
      → same_lines (last_lines (suc n) before) (take (suc n) after) ≡ false
      → last_lines m before ≡ take m after
      → m ≢ suc n
  not_suc n m k e q =
      let e' = rw q at e in
      let t = same_lines_refl (take (suc n) after) in
      let k' = rw e' at k in absurd_bool (sym t ∙ k')

  shrink_overlap-max :
      (n m : ℕ) → m ≤ n → last_lines m before ≡ take m after → m ≤ shrink_overlap n before after
  unfolding shrink_overlap
  shrink_overlap-max zero m h e = h
  shrink_overlap-max (suc n) m h e =
      elim (Bool-cases (same_lines (last_lines (suc n) before) (take (suc n) after))) [
        | inl k ↦ rw k h
        | inr k ↦ rw k (shrink_overlap-max n m (let q = not_suc n m k e in omega (arith, q)) e)
      ]

  -- What `observe` takes for new stands behind lines that the earlier log ended with.
  pub new_lines-overlap :
      (xs ys : List String) × (before ≡ xs ++ ys) × (after ≡ ys ++ new_lines before after)
  unfolding new_lines
  new_lines-overlap =
      let k = shrink_overlap (smaller (length before) (length after)) before after in
      (
        take (length before - k) before,
        take k after,
        sym (take-drop (length before - k) before)
            ∙ ap (λ l. take (length before - k) before ++ l)
                (shrink_overlap-overlaps (smaller (length before) (length after))),
        sym (take-drop k after),
      )

drop-append : (xs ys : List String) → drop (length xs) (xs ++ ys) ≡ ys
drop-append [] ys = refl
drop-append (x ∷ xs) ys = drop-append xs ys

take-append : (xs ys : List String) → take (length xs) (xs ++ ys) ≡ xs
take-append [] ys = refl
take-append (x ∷ xs) ys = ap (λ l. x ∷ l) (take-append xs ys)

last_lines-append : (xs ys : List String) → last_lines (length ys) (xs ++ ys) ≡ ys
last_lines-append xs ys =
    let e : length (xs ++ ys) - length ys ≡ length xs = omega (arith, length-append xs ys) in
    rw e (drop-append xs ys)

smaller-le : (a b n : ℕ) → n ≤ a → n ≤ b → n ≤ smaller a b
smaller-le a b n h k = ground arith

-- What is left behind more lines than the first list has is an end of the second.
drop-suffix :
    (k : ℕ) (ys zs : List String)
    → length ys ≤ k
    → (ws : List String) × (zs ≡ ws ++ drop k (ys ++ zs))
drop-suffix k [] zs h = (take k zs, sym (take-drop k zs))
drop-suffix zero (y ∷ ys) zs h = absurd (omega arith)
drop-suffix (suc k) (y ∷ ys) zs h = drop-suffix k ys zs (omega arith)

-- If the later log goes on from where the earlier one ended, or from any part of its end, the lines that
-- are taken for new are the last ones of those that were appended.
pub new_lines-least :
    (xs ys zs : List String) → (ws : List String) × (zs ≡ ws ++ new_lines (xs ++ ys) (ys ++ zs))
unfolding new_lines
new_lines-least xs ys zs =
    let n = smaller (length (xs ++ ys)) (length (ys ++ zs)) in
    let bound : length ys ≤ n =
      smaller-le (length (xs ++ ys)) (length (ys ++ zs)) (length ys)
        (omega (arith, length-append xs ys)) (omega (arith, length-append ys zs)) in
    drop-suffix (shrink_overlap n (xs ++ ys) (ys ++ zs)) ys zs (
      shrink_overlap-max (xs ++ ys) (ys ++ zs) n (length ys) bound
        (last_lines-append xs ys ∙ sym (take-append ys zs)))
