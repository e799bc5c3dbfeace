-- ===== src/Prelude/Sort.antt =====
-- `sort`, `sort_by_key` and `sort_by`, which are stable: insertion sort by a Boolean order.
use Prim.Native.Nat.{ℕ, suc, ◌+◌}
use mathlib.Core.Path.{◌≡◌, refl}
use mathlib.Core.Logic.{inl, inr}
use mathlib.Core.Bool.{Bool, true, false}
use mathlib.Core.List.{List, [], ◌∷◌, Perm}
use mathlib.Core.List.Perm
use native.Mathlib.Omega.{arith}
use omnivore.Prelude.Lists.{length, All}
use omnivore.Prelude.Tests.{if◌then◌else◌, Bool-cases}

module _ {ℓ} {A : Type ℓ} (le : A → A → Bool) where
  unfoldable pub insert_sorted : A → List A → List A
  insert_sorted x [] = x ∷ []
  insert_sorted x (y ∷ ys) = if le x y then x ∷ (y ∷ ys) else y ∷ insert_sorted x ys

  unfoldable pub sort : List A → List A
  unfolding insert_sorted
  sort [] = []
  sort (x ∷ xs) = insert_sorted x (sort xs)

  -- Every element is below all that follow.
  abbrev pub AllAbove : A → List A → Type 0
  AllAbove x [] = Unit
  AllAbove x (y ∷ ys) = (le x y ≡ true) × AllAbove x ys

  abbrev pub IsSorted : List A → Type 0
  IsSorted [] = Unit
  IsSorted (x ∷ xs) = AllAbove x xs × IsSorted xs

  insert_sorted-perm : (x : A) (ys : List A) → Perm (insert_sorted x ys) (x ∷ ys)
  unfolding insert_sorted
  insert_sorted-perm x [] = Perm.refl (x ∷ [])
  insert_sorted-perm x (y ∷ ys) = elim (Bool-cases (le x y)) [
    | inl p ↦ rw p (Perm.refl (x ∷ (y ∷ ys)))
    | inr p ↦ rw p (Perm.trans (Perm.cons y (insert_sorted-perm x ys)) (Perm.swap x y ys))
  ]

  -- Sorting rearranges.
  pub sort-perm : (xs : List A) → Perm (sort xs) xs
  unfolding sort
  sort-perm [] = Perm.refl []
  sort-perm (x ∷ xs) = Perm.trans (insert_sorted-perm x (sort xs)) (Perm.cons x (sort-perm xs))

  module _ (total : (x y : A) → le x y ≡ false → le y x ≡ true)
      (trans : (x y z : A) → le x y ≡ true → le y z ≡ true → le x z ≡ true) where
    AllAbove-trans : (x y : A) (ys : List A) → le x y ≡ true → AllAbove y ys → AllAbove x ys
    AllAbove-trans x y [] p h = tt
    AllAbove-trans x y (z ∷ zs) p (q, h) = (trans x y z p q, AllAbove-trans x y zs p h)

    AllAbove-insert :
        (x y : A) (ys : List A) → le y x ≡ true → AllAbove y ys → AllAbove y (insert_sorted x ys)
    unfolding insert_sorted
    AllAbove-insert x y [] p h = (p, tt)
    AllAbove-insert x y (z ∷ zs) p (q, h) = ground (arith, AllAbove-insert x y zs p h)

    insert_sorted-IsSorted : (x : A) (ys : List A) → IsSorted ys → IsSorted (insert_sorted x ys)
    unfolding insert_sorted
    insert_sorted-IsSorted x [] h = (tt, tt)
    insert_sorted-IsSorted x (y ∷ ys) (a, h) = elim (Bool-cases (le x y)) [
      | inl p ↦ rw p ((p, AllAbove-trans x y ys p a), (a, h))
      | inr p ↦ rw p (AllAbove-insert x y ys (total x y p) a, insert_sorted-IsSorted x ys h)
    ]

    -- With a total and transitive order the result is sorted.
    pub sort-IsSorted : (xs : List A) → IsSorted (sort xs)
    unfolding sort
    sort-IsSorted [] = tt
    sort-IsSorted (x ∷ xs) = insert_sorted-IsSorted x (sort xs) (sort-IsSorted xs)

-- What a sum over a list does not notice.
module _ {ℓ} {A : Type ℓ} where
  abbrev pub sum_by : (A → ℕ) → List A → ℕ
  sum_by f [] = 0
  sum_by f (x ∷ xs) = f x + sum_by f xs

module _ {ℓ} {A : Type ℓ} (le : A → A → Bool) (f : A → ℕ) where
  sum_by-insert : (x : A) (ys : List A) → sum_by f (insert_sorted le x ys) ≡ f x + sum_by f ys
  unfolding insert_sorted
  sum_by-insert x [] = refl
  sum_by-insert x (y ∷ ys) = ground (arith, sum_by-insert x ys)

  pub sum_by-sort : (xs : List A) → sum_by f (sort le xs) ≡ sum_by f xs
  unfolding sort
  sum_by-sort [] = refl
  sum_by-sort (x ∷ xs) = omega (arith, sum_by-insert x (sort le xs), sum_by-sort xs)

module _ {ℓ} {A : Type ℓ} (le : A → A → Bool) where
  length-insert : (x : A) (ys : List A) → length (insert_sorted le x ys) ≡ suc (length ys)
  unfolding insert_sorted
  length-insert x [] = refl
  length-insert x (y ∷ ys) = ground (arith, length-insert x ys)

  pub length-sort : (xs : List A) → length (sort le xs) ≡ length xs
  unfolding sort
  length-sort [] = refl
  length-sort (x ∷ xs) = omega (arith, length-insert x (sort le xs), length-sort xs)

  module _ {κ} (P : A → Type κ) where
    All-insert : (x : A) (ys : List A) → P x → All P ys → All P (insert_sorted le x ys)
    unfolding insert_sorted
    All-insert x [] p h = (p, tt)
    All-insert x (y ∷ ys) p (q, h) = elim (Bool-cases (le x y)) [
      | inl e ↦ rw e (p, (q, h))
      | inr e ↦ rw e (q, All-insert x ys p h)
    ]

    pub All-sort : (xs : List A) → All P xs → All P (sort le xs)
    unfolding sort
    All-sort [] h = tt
    All-sort (x ∷ xs) (p, h) = All-insert x (sort le xs) p (All-sort xs h)

    All-uninsert : (x : A) (ys : List A) → All P (insert_sorted le x ys) → P x × All P ys
    unfolding insert_sorted
    All-uninsert x [] h = (h.0, tt)
    All-uninsert x (y ∷ ys) h = ground (arith, All-uninsert x ys)

    -- what holds of all of a sorted list held of the list
    pub All-unsort : (xs : List A) → All P (sort le xs) → All P xs
    unfolding sort
    All-unsort [] h = tt
    All-unsort (x ∷ xs) h = (let (p, q) = All-uninsert x (sort le xs) h in (p, All-unsort xs q))
