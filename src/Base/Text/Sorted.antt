-- ===== src/Base/Text/Sorted.antt =====
-- `sorted` of texts does not look at their order.
use Prim.Native.String.{String}
use mathlib.Core.Path.{◌≡◌, refl, sym, ap, ap₂, ◌∙◌}
use mathlib.Core.Logic.{inl, inr}
use mathlib.Core.Bool.{true, false}
use mathlib.Core.List.{List, [], ◌∷◌}
use vdev_lab.Base.Tests.{Bool-cases}
use vdev_lab.Base.Text.{ltb_str, insert_sorted, sort_strings}
use vdev_lab.Base.Text.Order.{ltb_str_asymm, ltb_str_antisymm, ltb_str-le-lt}

insert_sorted-after :
    (s t : String) (ts : List String)
    → ltb_str t s ≡ true
    → insert_sorted s (t ∷ ts) ≡ t ∷ insert_sorted s ts
unfolding insert_sorted
insert_sorted-after s t ts h = rw h refl

insert_sorted-before :
    (s t : String) (ts : List String) → ltb_str t s ≡ false → insert_sorted s (t ∷ ts) ≡ s ∷ t ∷ ts
unfolding insert_sorted
insert_sorted-before s t ts h = rw h refl

-- Two texts in front of a list that neither comes after.
insert_sorted-swap-before :
    (s t u : String) (us : List String)
    → ltb_str u s ≡ false
    → ltb_str u t ≡ false
    → insert_sorted s (t ∷ u ∷ us) ≡ insert_sorted t (s ∷ u ∷ us)
insert_sorted-swap-before s t u us hs ht = elim (Bool-cases (ltb_str t s)) [
  | inl h ↦
      insert_sorted-after s t (u ∷ us) h
      ∙ ap (λ l. t ∷ l) (insert_sorted-before s u us hs)
      ∙ sym (insert_sorted-before t s (u ∷ us) (ltb_str_asymm t s h))
  | inr h ↦ elim (Bool-cases (ltb_str s t)) [
    | inl k ↦
        insert_sorted-before s t (u ∷ us) h
        ∙ ap (λ l. s ∷ l) (sym (insert_sorted-before t u us ht))
        ∙ sym (insert_sorted-after t s (u ∷ us) k)
    | inr k ↦
        ap₂ (λ x y. insert_sorted x (y ∷ u ∷ us)) (ltb_str_antisymm s t k h)
          (sym (ltb_str_antisymm s t k h))
  ]
]

-- A text that comes after the head of the list, and one that does not.
insert_sorted-swap-between :
    (s t u : String) (us : List String)
    → ltb_str u s ≡ true
    → ltb_str u t ≡ false
    → insert_sorted s (t ∷ u ∷ us) ≡ insert_sorted t (u ∷ insert_sorted s us)
insert_sorted-swap-between s t u us hs ht =
    insert_sorted-after s t (u ∷ us) (ltb_str-le-lt u s t hs ht)
    ∙ ap (λ l. t ∷ l) (insert_sorted-after s u us hs)
    ∙ sym (insert_sorted-before t u (insert_sorted s us) ht)

insert_sorted-swap :
    (s t : String) (us : List String)
    → insert_sorted s (insert_sorted t us) ≡ insert_sorted t (insert_sorted s us)
unfolding insert_sorted
insert_sorted-swap s t [] = swap_two
  where
    swap_two : insert_sorted s (insert_sorted t []) ≡ insert_sorted t (insert_sorted s [])
    swap_two = elim (Bool-cases (ltb_str t s)) [
      | inl h ↦
          insert_sorted-after s t [] h ∙ sym (insert_sorted-before t s [] (ltb_str_asymm t s h))
      | inr h ↦ elim (Bool-cases (ltb_str s t)) [
        | inl k ↦ insert_sorted-before s t [] h ∙ sym (insert_sorted-after t s [] k)
        | inr k ↦
            ap₂ (λ x y. insert_sorted x (y ∷ [])) (ltb_str_antisymm s t k h)
              (sym (ltb_str_antisymm s t k h))
      ]
    ]
insert_sorted-swap s t (u ∷ us) = elim (Bool-cases (ltb_str u t)) [
  | inl ht ↦ elim (Bool-cases (ltb_str u s)) [
    | inl hs ↦
        ap (insert_sorted s) (insert_sorted-after t u us ht)
        ∙ insert_sorted-after s u (insert_sorted t us) hs
        ∙ ap (λ l. u ∷ l) (insert_sorted-swap s t us)
        ∙ sym (insert_sorted-after t u (insert_sorted s us) ht)
        ∙ ap (insert_sorted t) (sym (insert_sorted-after s u us hs))
    | inr hs ↦
        ap (insert_sorted s) (insert_sorted-after t u us ht)
        ∙ sym (insert_sorted-swap-between t s u us ht hs)
        ∙ ap (insert_sorted t) (sym (insert_sorted-before s u us hs))
  ]
  | inr ht ↦ elim (Bool-cases (ltb_str u s)) [
    | inl hs ↦
        ap (insert_sorted s) (insert_sorted-before t u us ht)
        ∙ insert_sorted-swap-between s t u us hs ht
        ∙ ap (insert_sorted t) (sym (insert_sorted-after s u us hs))
    | inr hs ↦
        ap (insert_sorted s) (insert_sorted-before t u us ht)
        ∙ insert_sorted-swap-before s t u us hs ht
        ∙ ap (insert_sorted t) (sym (insert_sorted-before s u us hs))
  ]
]

-- The order of the first two of the texts does not matter to `sorted`.
pub sort_strings-swap :
    (s t : String) (us : List String) → sort_strings (s ∷ t ∷ us) ≡ sort_strings (t ∷ s ∷ us)
unfolding sort_strings
sort_strings-swap s t us = insert_sorted-swap s t (sort_strings us)

pub sort_strings-cons :
    (s : String) (ts us : List String)
    → sort_strings ts ≡ sort_strings us
    → sort_strings (s ∷ ts) ≡ sort_strings (s ∷ us)
unfolding sort_strings
sort_strings-cons s ts us h = ap (insert_sorted s) h
