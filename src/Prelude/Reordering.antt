-- ===== src/Prelude/Reordering.antt =====
-- Sorting forgets the order that a list had.
use mathlib.Core.Path.{◌≡◌, refl, sym, ap, ◌∙◌}
use mathlib.Core.Logic.{◌≢◌, inl, inr}
use mathlib.Core.Bool.{true}
use mathlib.Core.List.{List, [], ◌∷◌, map}
use native.Mathlib.Omega.{arith}
use self_improving_trading_s.Prelude.Tests.{Bool-cases}
use self_improving_trading_s.Prelude.Lists.{All}
use self_improving_trading_s.Prelude.Order.{LinOrd, lt_asymm, compare-cases}
use self_improving_trading_s.Prelude.Sorting.{insert_by, sorted_by, Distinct}

-- The same items in another order, each as often.
pub data Reordered {ℓ} {A : Type ℓ} : List A → List A → Type ℓ where
  none_left : Reordered [] []
  same_first : (x : A) {xs ys : List A} → Reordered xs ys → Reordered (x ∷ xs) (x ∷ ys)
  swapped : (x y : A) (zs : List A) → Reordered (x ∷ y ∷ zs) (y ∷ x ∷ zs)
  in_turn : {xs ys zs : List A} → Reordered xs ys → Reordered ys zs → Reordered xs zs

module _ {ℓ κ} {A : Type ℓ} {K : Type κ} (o : LinOrd K) (key : A → K) where
  insert-insert_less :
      (x y : A) (zs : List A)
      → o.lt (key x) (key y) ≡ true
      → insert_by o key x (insert_by o key y zs) ≡ insert_by o key y (insert_by o key x zs)
  unfolding insert_by
  insert-insert_less x y [] h = rw (h, lt_asymm o (key x) (key y) h) refl
  insert-insert_less x y (z ∷ zs) h = ground (
    arith,
    insert-insert_less x y zs h,
    lt_asymm o (key x) (key y) h,
    o.trans (key z) (key x) (key y),
  )

  insert-insert_by :
      (x y : A) (zs : List A)
      → key x ≢ key y
      → insert_by o key x (insert_by o key y zs) ≡ insert_by o key y (insert_by o key x zs)
  insert-insert_by x y zs n = elim (compare-cases o (key x) (key y)) [
    | inl h ↦ insert-insert_less x y zs h
    | inr (inl h) ↦ sym (insert-insert_less y x zs h)
    | inr (inr e) ↦ absurd (n e)
  ]

  module _ {μ} (P : A → Type μ) where
    All-Reordered : {xs ys : List A} → Reordered xs ys → All P xs → All P ys
    All-Reordered none_left h = tt
    All-Reordered (same_first x p) (h, hs) = (h, All-Reordered p hs)
    All-Reordered (swapped x y zs) (h, (k, hs)) = (k, (h, hs))
    All-Reordered (in_turn p q) h = All-Reordered q (All-Reordered p h)

  Distinct-Reordered : {xs ys : List A} → Reordered xs ys → Distinct o key xs → Distinct o key ys
  Distinct-Reordered none_left h = tt
  Distinct-Reordered (same_first x p) (h, hs) =
      (All-Reordered (λ y. key x ≢ key y) p h, Distinct-Reordered p hs)
  Distinct-Reordered (swapped x y zs) ((n, h), (k, hs)) = ((λ q. n (sym q), k), (h, hs))
  Distinct-Reordered (in_turn p q) h = Distinct-Reordered q (Distinct-Reordered p h)

  -- Two lists with the same items in any order are sorted to one list, if no two keys are equal.
  pub sorted_by-Reordered :
      {xs ys : List A}
      → Reordered xs ys
      → Distinct o key xs
      → sorted_by o key xs ≡ sorted_by o key ys
  unfolding sorted_by
  sorted_by-Reordered none_left h = refl
  sorted_by-Reordered (same_first x p) (h, hs) = ap (insert_by o key x) (sorted_by-Reordered p hs)
  sorted_by-Reordered (swapped x y zs) ((n, h), (k, hs)) =
      insert-insert_by x y (sorted_by o key zs) n
  sorted_by-Reordered (in_turn p q) h =
      sorted_by-Reordered p h ∙ sorted_by-Reordered q (Distinct-Reordered p h)

  module _ (f : A → A) (same_key : (a : A) → key (f a) ≡ key a) where
    insert_by-map :
        (x : A) (ys : List A) → insert_by o key (f x) (map f ys) ≡ map f (insert_by o key x ys)
    unfolding insert_by
    insert_by-map x [] = refl
    insert_by-map x (y ∷ ys) =
        rw (same_key x, same_key y)
          (elim (Bool-cases (o.lt (key y) (key x))) [
            | inl e ↦ rw e (ap (λ zs. f y ∷ zs) (insert_by-map x ys))
            | inr e ↦ rw e refl
          ])

    -- A change that keeps every key can be made before or after sorting.
    pub sorted_by-map : (xs : List A) → sorted_by o key (map f xs) ≡ map f (sorted_by o key xs)
    unfolding sorted_by
    sorted_by-map [] = refl
    sorted_by-map (x ∷ xs) =
        ap (insert_by o key (f x)) (sorted_by-map xs) ∙ insert_by-map x (sorted_by o key xs)
