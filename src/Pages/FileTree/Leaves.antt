-- ===== src/Pages/FileTree/Leaves.antt =====
-- About `build_file_tree`: where no path starts with a slash it returns, and each file is one leaf.
use mathlib.Core.Option
use mathlib.Core.Path.{subst}
use omnivore.Prelude.{
  ℕ, zero, suc, ◌<◌, ◌≡◌, ◌≢◌, refl, ap, ◌∙◌, none, some, inl, inr, List, [], ◌∷◌, ◌++◌, arith,
}
use omnivore.Prelude.Tests.{Option-cases}
use omnivore.Prelude.Lists.{length, length-append, All, All-weaken}
use omnivore.Prelude.Sort.{sum_by}
use omnivore.Text.Base.{Text}
use omnivore.Float.{F64}
use omnivore.Model.Report.{FileCoverage}
use omnivore.Pages.FileTree.{
  Forest, Groups, PrevRates, Build, groups_by, leaves_by, first_dir, full_dir, dir_below,
  lone_group, add_leaves, append, dir_node, build_step, build_dir_node, build_file_tree, file_name,
}
use omnivore.Pages.FileTree.Sums.{
  leaf_sum, forest_sum, by_path, group_sum, groups_by-sum, IsGroup, groups_by-IsGroup,
}
-- a directory and the slash behind it start the path
use omnivore.Pages.FileTree.Below.{
  first_dir_sound, Fits, Fits-below, Built, build_groups-Built, finish-Built, lone_group-sum,
  full_dir-collapse, full_dir-child, below-ne-nil,
}

module _ {R : Type 0} ⦃f64 : F64 R⦄ (prev : PrevRates R) where
  -- what a call promises with this fuel
  abbrev Promise : ℕ → Build R → Type 0
  Promise n build =
      (dir parent full : Text) (files : List (FileCoverage R))
      → full_dir parent dir ≡ full
      → full ≢ []
      → 0 < length files
      → All (Fits n full) files
      → Built (build dir parent files) files

  group-Fits :
      (n : ℕ) (full : Text) (g : Text × List (FileCoverage R))
      → IsGroup (dir_below full) (Fits (suc n) full) g
      → (0 < length g.1) × All (Fits n (full ++ b'/' ∷ g.0)) g.1
  group-Fits n full (d, fs) (k, a) = (k, All-weaken (Fits-below n full d) fs a)

  child-Built :
      (n : ℕ) (build : Build R) (full : Text)
      → Promise n build
      → full ≢ []
      → (g : Text × List (FileCoverage R)) → IsGroup (dir_below full) (Fits (suc n) full) g
      → Built (build g.0 full g.1) g.1
  child-Built n build full good ne g h =
      let (k, a) = group-Fits n full g h in
      good g.0 full (full ++ b'/' ∷ g.0) g.1 (full_dir-child full g.0 ne) (below-ne-nil full g.0) k
        a

  module _ (n : ℕ) (build : Build R) (good : Promise n build) (dir parent : Text)
      (files : List (FileCoverage R)) where
    abbrev full : Text
    full = full_dir parent dir

    abbrev groups : Groups R
    groups = groups_by (dir_below full) files []

    abbrev leaves : List (FileCoverage R)
    leaves = leaves_by (dir_below full) files

    node-Built :
        full ≢ []
        → All (IsGroup (dir_below full) (Fits (suc n) full)) groups
        → lone_group groups leaves ≡ none
        → Built (build_step build prev dir parent files) files
    unfolding build_step leaf_sum dir_node
    node-Built ne are q =
        let (ns, r, s) =
          build_groups-Built build full groups
            (All-weaken (child-Built n build full good ne) groups are) in
        (
          dir_node dir full files (append ns (add_leaves prev file_name leaves)),
          rw (q, build_step) (rw (r, Option.map) refl),
          λ h. finish-Built prev file_name (dir_below full) files ns h (s h),
        )

    collapse-Built :
        All (IsGroup (dir_below full) (Fits (suc n) full)) groups
        → (g : Text × List (FileCoverage R)) → lone_group groups leaves ≡ some g
        → Built (build_step build prev dir parent files) files
    unfolding build_step
    collapse-Built are (d, fs) q =
        let (p, l) = lone_group-sum groups leaves (d, fs) q in
        let only = subst (All (IsGroup (dir_below full) (Fits (suc n) full))) p are in
        let (k, a) = group-Fits n full (d, fs) only.0 in
        let (t, r, s) =
          good (dir ++ b'/' ∷ d) parent (full ++ b'/' ∷ d) fs (full_dir-collapse parent dir d)
            (below-ne-nil full d) k a in
        (
          t,
          rw (q, build_step) r,
          λ h. omega (
            arith,
            s h,
            ap (group_sum h) p,
            ap (sum_by (by_path h)) l,
            groups_by-sum h (dir_below full) files [],
          ),
        )

    step-Built :
        full ≢ []
        → All (Fits (suc n) full) files
        → Built (build_step build prev dir parent files) files
    step-Built ne a =
        let are = groups_by-IsGroup (dir_below full) (Fits (suc n) full) files [] a tt in
        elim (Option-cases (lone_group groups leaves)) [
          | inl q ↦ node-Built ne are q
          | inr (g, q) ↦ collapse-Built are g q
        ]

  build_dir_node-Promise : (n : ℕ) → Promise n (build_dir_node n prev)
  unfolding build_dir_node
  build_dir_node-Promise zero dir parent d [] e ne k a = absurd (omega arith)
  build_dir_node-Promise zero dir parent d (f ∷ fs) e ne k (((r, p), l), a) =
      absurd (omega (arith, l, ap length p, length-append d (b'/' ∷ r)))
  build_dir_node-Promise (suc n) dir parent d files e ne k a =
      subst
        (λ (x : Text).
          x ≢ []
          → All (Fits (suc n) x) files
          → Built (build_dir_node (suc n) prev dir parent files) files)
        e (step-Built n (build_dir_node n prev) (build_dir_node-Promise n) dir parent files) ne a

-- no slash in front
abbrev pub IsRelative : Text → Type 0
IsRelative path = (p : Text) → path ≢ b'/' ∷ p

root-Fits :
    {R : Type 0} (n : ℕ) (d : Text) (f : FileCoverage R)
    → (first_dir f.path ≡ some d) × (IsRelative f.path × (length f.path < n))
    → (d ≢ []) × Fits n d f
root-Fits n d f (e, (r, l)) =
    let (q, s) = first_dir_sound f.path d e in
    (λ z. r q (s ∙ ap (λ t. t ++ b'/' ∷ q) z), ((q, s), omega arith))

root-Built :
    {R : Type 0} ⦃f64 : F64 R⦄ (prev : PrevRates R) (fuel : ℕ) (g : Text × List (FileCoverage R))
    → IsGroup (λ f. first_dir f.path) (λ f. IsRelative f.path × (length f.path < fuel)) g
    → Built (build_dir_node fuel prev g.0 [] g.1) g.1
root-Built prev fuel (d, []) (k, a) = absurd (omega arith)
root-Built prev fuel (d, f ∷ fs) (k, a) =
    build_dir_node-Promise prev fuel d [] d (f ∷ fs) (unfold full_dir in refl)
      (root-Fits fuel d f a.0).0 k (All-weaken (λ f x. (root-Fits fuel d f x).1) (f ∷ fs) a)

-- Where no path starts with a slash and the fuel is above the length of every path, the tree is
-- built, and each path is at as many leaves as there are files with it: any function has the same
-- sum over the leaves as over the files.
pub build_file_tree-leaves :
    {R : Type 0} ⦃f64 : F64 R⦄ (prev : PrevRates R) (fuel : ℕ) (files : List (FileCoverage R))
    → All (λ f. IsRelative f.path × (length f.path < fuel)) files
    → (ns : Forest R) × (build_file_tree fuel files prev ≡ some ns)
      × ((h : Text → ℕ) → forest_sum h ns ≡ sum_by (by_path h) files)
unfolding build_file_tree
build_file_tree-leaves {R} prev fuel files a =
    let dir_of = λ (f : FileCoverage R). first_dir f.path in
    let are =
      groups_by-IsGroup dir_of (λ f. IsRelative f.path × (length f.path < fuel)) files [] a tt in
    let (ns, r, s) =
      build_groups-Built (build_dir_node fuel prev) [] (groups_by dir_of files [])
        (All-weaken (root-Built prev fuel) (groups_by dir_of files []) are) in
    (
      append ns (add_leaves prev (λ path. path) (leaves_by dir_of files)),
      rw (r, Option.map) refl,
      λ h. finish-Built prev (λ path. path) dir_of files ns h (s h),
    )
