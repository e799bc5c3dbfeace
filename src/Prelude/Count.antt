-- ===== src/Prelude/Count.antt =====
-- Filtering and counting, and what a rearrangement leaves of a count.
use Prim.Native.Nat.{ℕ, ◌+◌, ◌≤◌}
use mathlib.Core.Path.{◌≡◌, refl, ap, ◌∙◌}
use mathlib.Core.Bool.{Bool, true, false, ◌&&◌}
use mathlib.Core.List.{List, [], ◌∷◌, ◌++◌, map, Perm, Permᴰ}
use mathlib.Core.Logic.{inl, inr, ∥∥₁_elim}
use native.Mathlib.Nat.{ℕ_set}
use native.Mathlib.Omega.{arith}
use omnivore.Prelude.Lists.{length, All, take, drop, take-append-drop, length-take}
use omnivore.Prelude.Sort.{sum_by}
use omnivore.Prelude.Tests.{if◌then◌else◌, Bool-cases}

module _ {ℓ} {A : Type ℓ} where
  abbrev pub filter : (A → Bool) → List A → List A
  filter p [] = []
  filter p (x ∷ xs) = if p x then x ∷ filter p xs else filter p xs

  abbrev pub count : (A → Bool) → List A → ℕ
  count p xs = sum_by (λ x. if p x then 1 else 0) xs

module _ {ℓ} {A : Type ℓ} where
  sum_by-Permᴰ : (f : A → ℕ) {xs ys : List A} → Permᴰ xs ys → sum_by f xs ≡ sum_by f ys
  sum_by-Permᴰ f Permᴰ.nil = refl
  sum_by-Permᴰ f (Permᴰ.cons e d) = omega (arith, ap f e, sum_by-Permᴰ f d)
  sum_by-Permᴰ f (Permᴰ.swap e e') = omega (arith, ap f e, ap f e')
  sum_by-Permᴰ f (Permᴰ.trans d d') = sum_by-Permᴰ f d ∙ sum_by-Permᴰ f d'

  pub sum_by-perm : (f : A → ℕ) {xs ys : List A} → Perm xs ys → sum_by f xs ≡ sum_by f ys
  sum_by-perm f {xs} {ys} p = ∥∥₁_elim p (ℕ_set (sum_by f xs) (sum_by f ys)) (λ d. sum_by-Permᴰ f d)

module _ {ℓ} {A : Type ℓ} (p : A → Bool) where
  pub count-append : (xs ys : List A) → count p (xs ++ ys) ≡ count p xs + count p ys
  count-append [] ys = omega arith
  count-append (x ∷ xs) ys = omega (arith, count-append xs ys)

  pub count-le : (xs : List A) → count p xs ≤ length xs
  count-le [] = omega arith
  count-le (x ∷ xs) = ground (arith, count-le xs)

  pub count-none : (xs : List A) → All (λ x. p x ≡ false) xs → count p xs ≡ 0
  count-none [] h = refl
  count-none (x ∷ xs) (q, h) = ground (arith, q, count-none xs h)

  pub count_mono :
      (q : A → Bool) (xs : List A) → ((x : A) → p x ≡ true → q x ≡ true) → count p xs ≤ count q xs
  count_mono q [] h = omega arith
  count_mono q (x ∷ xs) h = ground (arith, h x, count_mono q xs h)

  pub count-filter :
      (q : A → Bool) (xs : List A) → count p (filter q xs) ≡ count (λ x. q x && p x) xs
  count-filter q [] = refl
  count-filter q (x ∷ xs) = ground (arith, count-filter q xs)

  pub count-filter_le : (q : A → Bool) (xs : List A) → count p (filter q xs) ≤ count p xs
  count-filter_le q [] = omega arith
  count-filter_le q (x ∷ xs) = ground (arith, count-filter_le q xs)

  pub count-drop_le : (n : ℕ) (xs : List A) → count p (drop n xs) ≤ count p xs
  count-drop_le n xs =
      omega (arith, count-append (take n xs) (drop n xs), ap (count p) (take-append-drop n xs))

  -- What the first `n` have not is at most what they are.
  pub count-take_bound : (n : ℕ) (xs : List A) → count p (drop n xs) ≡ 0 → count p xs ≤ n
  count-take_bound n xs h = omega (
    arith,
    h,
    count-append (take n xs) (drop n xs),
    ap (count p) (take-append-drop n xs),
    count-le (take n xs),
    length-take n xs,
  )

pub count-map :
    {A : Type 0} (p : A → Bool) (f : A → A) (xs : List A)
    → count p (map f xs) ≡ count (λ x. p (f x)) xs
count-map p f [] = refl
count-map p f (x ∷ xs) = omega (arith, count-map p f xs)

module _ {ℓ κ μ} {A : Type ℓ} {P : A → Type κ} {Q : A → Type μ} {p : A → Bool} where
  -- what holds of the elements that a filter keeps
  pub All-filter :
      ((x : A) → P x → p x ≡ true → Q x) → (xs : List A) → All P xs → All Q (filter p xs)
  All-filter f [] h = tt
  All-filter f (x ∷ xs) (q, h) = elim (Bool-cases (p x)) [
    | inl e ↦ rw e (f x q e, All-filter f xs h)
    | inr e ↦ rw e (All-filter f xs h)
  ]

module _ {ℓ} {A : Type ℓ} (p : A → Bool) where
  pub filter-keep : (x : A) (xs : List A) → p x ≡ true → filter p (x ∷ xs) ≡ x ∷ filter p xs
  filter-keep x xs h = rw h refl

  pub filter-skip : (x : A) (xs : List A) → p x ≡ false → filter p (x ∷ xs) ≡ filter p xs
  filter-skip x xs h = rw h refl
