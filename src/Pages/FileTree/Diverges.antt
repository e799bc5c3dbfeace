-- ===== src/Pages/FileTree/Diverges.antt =====
-- About `build_dir_node` on absolute paths: once the directory has lost the slash that its paths
-- start with, no call returns.
use mathlib.Core.Option
use omnivore.Prelude.{
  ℕ, zero, suc, ◌≡◌, ◌≢◌, refl, false, none, some, inl, inr, [], ◌∷◌, ◌++◌, arith,
}
use omnivore.Prelude.Tests.{Bool-cases}
use omnivore.Text.Base.{Text, strip_prefix, is_empty, text_eq, text_eq_sound}
use omnivore.Text.Split.{split_once, split_once-append, Lacks}
use omnivore.Float.{F64}
use omnivore.Model.Report.{FileCoverage}
use omnivore.Pages.FileTree.{
  PrevRates, push_to, groups_by, leaves_by, first_dir, full_dir, relative, dir_below, lone_group,
  build_groups, build_step, build_dir_node, build_file_tree,
}

module _ {R : Type 0} ⦃f64 : F64 R⦄ (prev : PrevRates R) where
  -- The file is in no directory that the call makes, and each call makes one longer.
  pub build_dir_node-absolute :
      (fuel c : ℕ) (dir p : Text) (f : FileCoverage R)
      → c ≢ b'/'
      → f.path ≡ b'/' ∷ p
      → build_dir_node fuel prev (c ∷ dir) [] (f ∷ []) ≡ none
  unfolding build_dir_node build_step full_dir dir_below first_dir relative groups_by leaves_by
      push_to lone_group split_once strip_prefix is_empty
  build_dir_node-absolute zero c dir p f n e = refl
  build_dir_node-absolute (suc fuel) c dir p f n e =
      ground (arith, n, e, build_dir_node-absolute fuel c (dir ++ b'/' ∷ []) p f)

first_dir-append : (a b : Text) → Lacks b'/' a → first_dir (a ++ b'/' ∷ b) ≡ some a
unfolding first_dir
first_dir-append a b h = rw (split_once-append b'/' a b h, Option.map) refl

-- a first directory that is not empty
abbrev pub IsName : Text → Type 0
IsName x = (x ≢ []) × Lacks b'/' x

below_root :
    {R : Type 0} (x p : Text) (f : FileCoverage R)
    → IsName x
    → f.path ≡ b'/' ∷ (x ++ b'/' ∷ p)
    → dir_below [] f ≡ some x
unfolding dir_below relative strip_prefix
below_root x p f h e = rw e (first_dir-append x p h.1)

text_eq-false : (a b : Text) → a ≢ b → text_eq a b ≡ false
text_eq-false a b n = elim (Bool-cases (text_eq a b)) [
  | inl e ↦ absurd (n (text_eq_sound a b e))
  | inr e ↦ e
]

module _ {R : Type 0} ⦃f64 : F64 R⦄ (prev : PrevRates R) where
  child-absolute :
      (fuel : ℕ) (x p : Text) (f : FileCoverage R)
      → IsName x
      → f.path ≡ b'/' ∷ p
      → build_dir_node fuel prev x [] (f ∷ []) ≡ none
  child-absolute fuel [] p f h e = absurd (h.0 refl)
  child-absolute fuel (c ∷ x) p f h e = build_dir_node-absolute prev fuel c x p f h.1.0 e

  two-groups :
      (fuel : ℕ) (x y p q : Text) (f g : FileCoverage R)
      → IsName x
      → IsName y
      → x ≢ y
      → f.path ≡ b'/' ∷ (x ++ b'/' ∷ p)
      → g.path ≡ b'/' ∷ (y ++ b'/' ∷ q)
      → build_step (build_dir_node fuel prev) prev [] [] (f ∷ (g ∷ [])) ≡ none
  unfolding build_step full_dir groups_by leaves_by push_to lone_group build_groups is_empty
  two-groups fuel x y p q f g hx hy n e e' = ground (
    arith,
    below_root x p f hx e,
    below_root y q g hy e',
    text_eq-false x y n,
    child-absolute fuel x (x ++ b'/' ∷ p) f hx e,
    child-absolute fuel y (y ++ b'/' ∷ q) g hy e',
  )

  -- Two files with absolute paths that differ in their first directory: no fuel is enough, so the
  -- code recurs without end.
  pub build_file_tree-absolute :
      (fuel : ℕ) (x y p q : Text) (f g : FileCoverage R)
      → IsName x
      → IsName y
      → x ≢ y
      → f.path ≡ b'/' ∷ (x ++ b'/' ∷ p)
      → g.path ≡ b'/' ∷ (y ++ b'/' ∷ q)
      → build_file_tree fuel (f ∷ (g ∷ [])) prev ≡ none
  unfolding build_file_tree build_groups groups_by push_to first_dir split_once build_dir_node
  build_file_tree-absolute zero x y p q f g hx hy n e e' = ground (arith, e, e')
  build_file_tree-absolute (suc fuel) x y p q f g hx hy n e e' =
      ground (arith, e, e', two-groups fuel x y p q f g hx hy n e e')
