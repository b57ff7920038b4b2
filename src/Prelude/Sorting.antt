-- ===== src/Prelude/Sorting.antt =====
-- `sorted(items, key=...)` of Python: a stable sort, by a strict total order of the keys.
use Prim.Native.Nat.{suc}
use mathlib.Core.Path.{◌≡◌, refl, ap, ◌∙◌}
use mathlib.Core.Logic.{◌≢◌}
use mathlib.Core.Bool.{true, false}
use mathlib.Core.List.{List, [], ◌∷◌, Perm}
use mathlib.Core.List.Perm
use native.Mathlib.Omega.{arith}
use self_improving_trading_s.Prelude.Tests.{if◌then◌else◌, Bool-cases}
use self_improving_trading_s.Prelude.Lists.{All, All-imp, length}
use self_improving_trading_s.Prelude.Int.{ℤ, ◌+ℤ◌, int_laws, sum_by}
use self_improving_trading_s.Prelude.Order.{LinOrd}
use mathlib.Core.Logic.{inl, inr}

module _ {ℓ κ} {A : Type ℓ} {K : Type κ} (o : LinOrd K) (key : A → K) where
  -- `x` stood before the items of the list, so it goes before those with an equal key.
  unfoldable pub insert_by : A → List A → List A
  insert_by x [] = x ∷ []
  insert_by x (y ∷ ys) = if o.lt (key y) (key x) then y ∷ insert_by x ys else x ∷ y ∷ ys

  unfoldable pub sorted_by : List A → List A
  unfolding insert_by
  sorted_by [] = []
  sorted_by (x ∷ xs) = insert_by x (sorted_by xs)

  insert_by-sum : (f : A → ℤ) (x : A) (ys : List A) → sum_by f (insert_by x ys) ≡ f x +ℤ sum_by f ys
  unfolding insert_by
  insert_by-sum f x [] = refl
  insert_by-sum f x (y ∷ ys) = elim (Bool-cases (o.lt (key y) (key x))) [
    | inl e ↦ rw e (rw (insert_by-sum f x ys) (omega int_laws))
    | inr e ↦ rw e
  ]

  -- Sorting keeps sums and the number of items.
  pub sorted_by-sum : (f : A → ℤ) (xs : List A) → sum_by f (sorted_by xs) ≡ sum_by f xs
  unfolding sorted_by
  sorted_by-sum f [] = refl
  sorted_by-sum f (x ∷ xs) =
      insert_by-sum f x (sorted_by xs) ∙ ap (λ s. f x +ℤ s) (sorted_by-sum f xs)

  insert_by-length : (x : A) (ys : List A) → length (insert_by x ys) ≡ suc (length ys)
  unfolding insert_by
  insert_by-length x [] = refl
  insert_by-length x (y ∷ ys) = ground (arith, insert_by-length x ys)

  pub sorted_by-length : (xs : List A) → length (sorted_by xs) ≡ length xs
  unfolding sorted_by
  sorted_by-length [] = refl
  sorted_by-length (x ∷ xs) = omega (arith, insert_by-length x (sorted_by xs), sorted_by-length xs)

  -- No two items of the list have one key.
  abbrev pub Distinct : List A → Type (ℓ ⊔ κ)
  Distinct [] = Unit
  Distinct (x ∷ xs) = All (λ y. key x ≢ key y) xs × Distinct xs

  -- Each key is not below the one before it.
  abbrev pub IsSorted : List A → Type ℓ
  IsSorted [] = Unit
  IsSorted (x ∷ xs) = All (λ y. o.lt (key y) (key x) ≡ false) xs × IsSorted xs

  -- Each key is above all keys before it.
  abbrev pub IsIncreasing : List A → Type ℓ
  IsIncreasing [] = Unit
  IsIncreasing (x ∷ xs) = All (λ y. o.lt (key x) (key y) ≡ true) xs × IsIncreasing xs

  insert_by-perm : (x : A) (ys : List A) → Perm (insert_by x ys) (x ∷ ys)
  unfolding insert_by
  insert_by-perm x [] = Perm.refl (x ∷ [])
  insert_by-perm x (y ∷ ys) = elim (Bool-cases (o.lt (key y) (key x))) [
    | inl e ↦ rw e (Perm.trans (Perm.cons y (insert_by-perm x ys)) (Perm.swap x y ys))
    | inr e ↦ rw e (Perm.refl (x ∷ y ∷ ys))
  ]

  pub sorted_by-perm : (xs : List A) → Perm (sorted_by xs) xs
  unfolding sorted_by
  sorted_by-perm [] = Perm.refl []
  sorted_by-perm (x ∷ xs) =
      Perm.trans (insert_by-perm x (sorted_by xs)) (Perm.cons x (sorted_by-perm xs))

  module _ {μ} (P : A → Type μ) where
    All-insert_by : (x : A) (ys : List A) → P x → All P ys → All P (insert_by x ys)
    unfolding insert_by
    All-insert_by x [] p h = (p, tt)
    All-insert_by x (y ∷ ys) p (q, h) = elim (Bool-cases (o.lt (key y) (key x))) [
      | inl e ↦ rw e (q, All-insert_by x ys p h)
      | inr e ↦ rw e (p, (q, h))
    ]

    pub All-sorted_by : (xs : List A) → All P xs → All P (sorted_by xs)
    unfolding sorted_by
    All-sorted_by [] h = tt
    All-sorted_by (x ∷ xs) (p, h) = All-insert_by x (sorted_by xs) p (All-sorted_by xs h)

  module _ {μ} (P : A → Type μ) where
    All-of-insert_by : (x : A) (ys : List A) → All P (insert_by x ys) → P x × All P ys
    unfolding insert_by
    All-of-insert_by x [] (p, _) = (p, tt)
    All-of-insert_by x (y ∷ ys) h = elim (Bool-cases (o.lt (key y) (key x))) [
      | inl e ↦ let (q, r) = rw e at h in let (p, hs) = All-of-insert_by x ys r in (p, (q, hs))
      | inr e ↦ let (p, r) = rw e at h in (p, r)
    ]

    -- What holds of all items once they are sorted holds of them before.
    pub All-of-sorted_by : (xs : List A) → All P (sorted_by xs) → All P xs
    unfolding sorted_by
    All-of-sorted_by [] h = tt
    All-of-sorted_by (x ∷ xs) h =
        let (p, hs) = All-of-insert_by x (sorted_by xs) h in (p, All-of-sorted_by xs hs)

  below-All :
      (x y : A) (ys : List A)
      → o.lt (key x) (key y) ≡ true
      → All (λ z. o.lt (key y) (key z) ≡ true) ys
      → All (λ z. o.lt (key x) (key z) ≡ true) ys
  below-All x y ys h = All-imp (λ z k. o.trans (key x) (key y) (key z) h k) ys

  not_above :
      (x y z : A)
      → o.lt (key y) (key x) ≡ false
      → o.lt (key z) (key y) ≡ false
      → o.lt (key z) (key x) ≡ false
  not_above x y z h k = elim (Bool-cases (o.lt (key z) (key x))) [
    | inr e ↦ e
    | inl e ↦ ground (arith, o.trans (key y) (key z) (key x), o.conn (key y) (key z))
  ]

  above_false : (x y : A) → o.lt (key y) (key x) ≡ true → o.lt (key x) (key y) ≡ false
  above_false x y h = elim (Bool-cases (o.lt (key x) (key y))) [
    | inr e ↦ e
    | inl e ↦ cc (o.trans (key x) (key y) (key x) e h, o.irrefl (key x))
  ]

  insert_by-IsSorted : (x : A) (ys : List A) → IsSorted ys → IsSorted (insert_by x ys)
  unfolding insert_by
  insert_by-IsSorted x [] h = (tt, tt)
  insert_by-IsSorted x (y ∷ ys) (h, hs) = elim (Bool-cases (o.lt (key y) (key x))) [
    | inl e ↦ rw e (All-insert_by _ x ys (above_false x y e) h, insert_by-IsSorted x ys hs)
    | inr e ↦ rw e ((e, All-imp (λ z. not_above x y z e) ys h), (h, hs))
  ]

  pub sorted_by-IsSorted : (xs : List A) → IsSorted (sorted_by xs)
  unfolding sorted_by
  sorted_by-IsSorted [] = tt
  sorted_by-IsSorted (x ∷ xs) = insert_by-IsSorted x (sorted_by xs) (sorted_by-IsSorted xs)

  insert_by-IsIncreasing :
      (x : A) (ys : List A)
      → All (λ y. key x ≢ key y) ys
      → IsIncreasing ys
      → IsIncreasing (insert_by x ys)
  unfolding insert_by
  insert_by-IsIncreasing x [] d h = (tt, tt)
  insert_by-IsIncreasing x (y ∷ ys) (d, ds) (h, hs) = elim (Bool-cases (o.lt (key y) (key x))) [
    | inl e ↦ rw e (All-insert_by _ x ys e h, insert_by-IsIncreasing x ys ds hs)
    | inr e ↦
        let less : o.lt (key x) (key y) ≡ true = elim (Bool-cases (o.lt (key x) (key y))) [
          | inl l ↦ l
          | inr l ↦ absurd (d (o.conn (key x) (key y) l e))
        ] in
        rw e ((less, below-All x y ys less h), (h, hs))
  ]

  -- Where no two keys are equal, the sorted list increases strictly.
  pub sorted_by-IsIncreasing : (xs : List A) → Distinct xs → IsIncreasing (sorted_by xs)
  unfolding sorted_by
  sorted_by-IsIncreasing [] h = tt
  sorted_by-IsIncreasing (x ∷ xs) (d, h) =
      insert_by-IsIncreasing x (sorted_by xs) (All-sorted_by _ xs d) (sorted_by-IsIncreasing xs h)
