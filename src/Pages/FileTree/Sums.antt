-- ===== src/Pages/FileTree/Sums.antt =====
-- About the groups of a directory: what they hold, and the sum of a function over the paths.

use omnivore.Prelude.{
  ℕ, ◌+◌, ◌<◌, ◌≡◌, refl, sym, ap, ◌∙◌, Option, some, inl, inr, List, [], ◌∷◌, ◌++◌, arith,
}
use omnivore.Prelude.Tests.{if◌then◌else◌, Bool-cases, Option-cases}
use omnivore.Prelude.Lists.{length, length-append, All, All-append}
use omnivore.Prelude.Sort.{sum_by}
use omnivore.Text.Base.{Text, text_eq, text_le, text_eq_sound}
use omnivore.Float.{F64}
use omnivore.Model.Report.{FileCoverage}
use omnivore.Pages.FileTree.{
  FileTreeNode, node, Forest, nil, cons, Groups, PrevRates, push_to, groups_by, leaves_by,
  add_leaves, append,
}

-- The sum of `h` over the paths of the leaves.
unfoldable mutual
  pub leaf_sum : {R : Type 0} → (Text → ℕ) → FileTreeNode R → ℕ
  leaf_sum h (node i cs) = if i.is_dir then forest_sum h cs else h i.full_path

  pub forest_sum : {R : Type 0} → (Text → ℕ) → Forest R → ℕ
  forest_sum h nil = 0
  forest_sum h (cons n ns) = leaf_sum h n + forest_sum h ns

abbrev pub by_path : {R : Type 0} → (Text → ℕ) → FileCoverage R → ℕ
by_path h f = h f.path

abbrev pub group_sum : {R : Type 0} → (Text → ℕ) → Groups R → ℕ
group_sum h groups = sum_by (λ g. sum_by (by_path h) g.1) groups

sum_by-append :
    {A : Type 0} (h : A → ℕ) (xs ys : List A) → sum_by h (xs ++ ys) ≡ sum_by h xs + sum_by h ys
sum_by-append h [] ys = omega arith
sum_by-append h (x ∷ xs) ys = omega (arith, sum_by-append h xs ys)

module _ {R : Type 0} (h : Text → ℕ) where
  pub push_to-sum :
      (d : Text) (f : FileCoverage R) (groups : Groups R)
      → group_sum h (push_to d f groups) ≡ h f.path + group_sum h groups
  unfolding push_to
  push_to-sum d f [] = omega arith
  push_to-sum d f ((k, fs) ∷ groups) =
      ground (arith, sum_by-append (by_path h) fs (f ∷ []), push_to-sum d f groups)

  pub groups_by-sum :
      (dir_of : FileCoverage R → Option Text) (fs : List (FileCoverage R)) (groups : Groups R)
      → group_sum h (groups_by dir_of fs groups) + sum_by (by_path h) (leaves_by dir_of fs)
        ≡ group_sum h groups + sum_by (by_path h) fs
  unfolding groups_by leaves_by
  groups_by-sum dir_of [] groups = refl
  groups_by-sum dir_of (f ∷ fs) groups = elim (Option-cases (dir_of f)) [
    | inl e ↦ rw (e, leaves_by) (omega (arith, groups_by-sum dir_of fs groups))
    | inr (d, e) ↦
        rw (e, leaves_by)
          (omega (arith, groups_by-sum dir_of fs (push_to d f groups), push_to-sum d f groups))
  ]

  pub forest_sum-append :
      (xs ys : Forest R) → forest_sum h (append xs ys) ≡ forest_sum h xs + forest_sum h ys
  unfolding forest_sum append
  forest_sum-append nil ys = omega arith
  forest_sum-append (cons x xs) ys = omega (arith, forest_sum-append xs ys)

  pub add_leaves-sum :
      ⦃f64 : F64 R⦄ (prev : PrevRates R) (name_of : Text → Text) (fs : List (FileCoverage R))
      → forest_sum h (add_leaves prev name_of fs) ≡ sum_by (by_path h) fs
  unfolding forest_sum add_leaves
  add_leaves-sum prev name_of [] = refl
  add_leaves-sum prev name_of (f ∷ fs) = omega (arith, add_leaves-sum prev name_of fs)

-- A group is not empty, and its files have its directory and what all files have.
abbrev pub IsGroup :
    {R : Type 0}
    → (FileCoverage R → Option Text)
    → (FileCoverage R → Type 0)
    → Text × List (FileCoverage R)
    → Type 0
IsGroup dir_of P (d, fs) = (0 < length fs) × All (λ f. (dir_of f ≡ some d) × P f) fs

module _ {R : Type 0} (dir_of : FileCoverage R → Option Text) (P : FileCoverage R → Type 0) where
  push_to-IsGroup :
      (d : Text) (f : FileCoverage R) (groups : Groups R)
      → dir_of f ≡ some d
      → P f
      → All (IsGroup dir_of P) groups
      → All (IsGroup dir_of P) (push_to d f groups)
  unfolding push_to
  push_to-IsGroup d f [] e p h = ((omega arith, ((e, p), tt)), tt)
  push_to-IsGroup d f ((k, fs) ∷ groups) e p ((n, a), h) = elim (Bool-cases (text_eq k d)) [
    | inl q ↦ rw q (
      (
        omega (arith, length-append fs (f ∷ [])),
        All-append _ fs (f ∷ []) a ((e ∙ ap some (sym (text_eq_sound k d q)), p), tt),
      ),
      h,
    )
    | inr q ↦ elim (Bool-cases (text_le d k)) [
      | inl r ↦ rw q (rw r ((omega arith, ((e, p), tt)), ((n, a), h)))
      | inr r ↦ rw q (rw r ((n, a), push_to-IsGroup d f groups e p h))
    ]
  ]

  pub groups_by-IsGroup :
      (fs : List (FileCoverage R)) (groups : Groups R)
      → All P fs
      → All (IsGroup dir_of P) groups
      → All (IsGroup dir_of P) (groups_by dir_of fs groups)
  unfolding groups_by
  groups_by-IsGroup [] groups a h = h
  groups_by-IsGroup (f ∷ fs) groups (p, a) h = elim (Option-cases (dir_of f)) [
    | inl e ↦ rw e (groups_by-IsGroup fs groups a h)
    | inr (d, e) ↦
        rw e (groups_by-IsGroup fs (push_to d f groups) a (push_to-IsGroup d f groups e p h))
  ]
