-- ===== src/Pages/FileTree/Below.antt =====
-- About the parts of the file tree: the files below a directory, and a directory of built parts.
use mathlib.Core.Option
use omnivore.Prelude.{
  ℕ, suc, ◌+◌, ◌<◌, ◌≡◌, ◌≢◌, refl, sym, ap, ◌∙◌, Option, some, inl, inr, List, [], ◌∷◌, ◌++◌,
  arith,
}
use omnivore.Prelude.Tests.{Option-cases}
use omnivore.Prelude.Lists.{length, length-append, All}
use omnivore.Prelude.Sort.{sum_by}
use omnivore.Text.Base.{Text, strip_prefix_iff}
use omnivore.Text.Split.{split_once, split_once_sound}
use omnivore.Float.{F64}
use omnivore.Model.Report.{FileCoverage}
use omnivore.Pages.FileTree.{
  FileTreeNode, Forest, nil, cons, Groups, PrevRates, Build, groups_by, leaves_by, first_dir,
  full_dir, relative, dir_below, lone_group, add_leaves, append, build_groups,
}
use omnivore.Pages.FileTree.Sums.{
  leaf_sum, forest_sum, by_path, group_sum, groups_by-sum, forest_sum-append, add_leaves-sum,
}
use mathlib.Core.List.{append_assoc}

-- a directory and the slash behind it start the path
abbrev Under : {R : Type 0} → Text → FileCoverage R → Type 0
Under full f = (r : Text) × (f.path ≡ full ++ b'/' ∷ r)

pub first_dir_sound : (s d : Text) → first_dir s ≡ some d → (r : Text) × (s ≡ d ++ b'/' ∷ r)
unfolding first_dir
first_dir_sound s d h = elim (Option-cases (split_once b'/' s)) [
  | inl e ↦ absurd (ground (arith, h, e))
  | inr ((a, b), e) ↦ (b, ground (arith, h, e, (split_once_sound b'/' s a b e).0))
]

relative-under : (full path r : Text) → path ≡ full ++ b'/' ∷ r → relative full path ≡ r
unfolding relative
relative-under full path r h =
    rw
      (
        (strip_prefix_iff (full ++ b'/' ∷ []) path r).1 (h ∙ sym (append_assoc full (b'/' ∷ []) r)),
        relative,
      )
      refl

-- What a call is given: files below the directory, with paths that the fuel reaches.
abbrev pub Fits : {R : Type 0} → ℕ → Text → FileCoverage R → Type 0
Fits n full f = Under full f × (length f.path < n + length full)

pub Fits-below :
    {R : Type 0} (n : ℕ) (full d : Text) (f : FileCoverage R)
    → (dir_below full f ≡ some d) × Fits (suc n) full f
    → Fits n (full ++ b'/' ∷ d) f
unfolding dir_below
Fits-below n full d f (e, ((r, p), l)) =
    let (q, s) = first_dir_sound r d (ap first_dir (sym (relative-under full f.path r p)) ∙ e) in
    (
      (q, p ∙ ap (λ t. full ++ b'/' ∷ t) s ∙ sym (append_assoc full (b'/' ∷ d) (b'/' ∷ q))),
      omega (arith, length-append full (b'/' ∷ d)),
    )

-- A tree was built, and its leaves are the files.
abbrev pub Built : {R : Type 0} → Option (FileTreeNode R) → List (FileCoverage R) → Type 0
Built {R} result files =
    (t : FileTreeNode R) × (result ≡ some t)
    × ((h : Text → ℕ) → leaf_sum h t ≡ sum_by (by_path h) files)

module _ {R : Type 0} ⦃f64 : F64 R⦄ where
  pub build_groups-Built :
      (build : Build R) (parent : Text) (groups : Groups R)
      → All (λ g. Built (build g.0 parent g.1) g.1) groups
      → (ns : Forest R) × (build_groups build parent groups ≡ some ns)
        × ((h : Text → ℕ) → forest_sum h ns ≡ group_sum h groups)
  unfolding build_groups forest_sum
  build_groups-Built build parent [] a = (nil, refl, λ h. refl)
  build_groups-Built build parent ((d, fs) ∷ groups) ((t, e, s), a) =
      let (ns, q, k) = build_groups-Built build parent groups a in
      (cons t ns, rw (e, build_groups) (rw (q, Option.map) refl), λ h. omega (arith, s h, k h))

  -- what a node made of groups and leaves sums to
  pub finish-Built :
      (prev : PrevRates R) (name_of : Text → Text) (dir_of : FileCoverage R → Option Text)
      (files : List (FileCoverage R)) (ns : Forest R) (h : Text → ℕ)
      → forest_sum h ns ≡ group_sum h (groups_by dir_of files [])
      → forest_sum h (append ns (add_leaves prev name_of (leaves_by dir_of files)))
        ≡ sum_by (by_path h) files
  finish-Built prev name_of dir_of files ns h e = omega (
    arith,
    e,
    forest_sum-append h ns (add_leaves prev name_of (leaves_by dir_of files)),
    add_leaves-sum h prev name_of (leaves_by dir_of files),
    groups_by-sum h dir_of files [],
  )

  pub lone_group-sum :
      (groups : Groups R) (leaves : List (FileCoverage R)) (g : Text × List (FileCoverage R))
      → lone_group groups leaves ≡ some g
      → (groups ≡ g ∷ []) × (leaves ≡ [])
  unfolding lone_group
  lone_group-sum [] leaves g h = cc
  lone_group-sum (x ∷ []) [] g h = ground (arith, h)
  lone_group-sum (x ∷ []) (l ∷ ls) g h = cc
  lone_group-sum (x ∷ (y ∷ xs)) leaves g h = cc

pub full_dir-collapse :
    (parent dir d : Text) → full_dir parent (dir ++ b'/' ∷ d) ≡ full_dir parent dir ++ b'/' ∷ d
unfolding full_dir
full_dir-collapse [] dir d = refl
full_dir-collapse (c ∷ p) dir d = sym (append_assoc (c ∷ p) (b'/' ∷ dir) (b'/' ∷ d))

pub full_dir-child : (full d : Text) → full ≢ [] → full_dir full d ≡ full ++ b'/' ∷ d
unfolding full_dir
full_dir-child [] d h = absurd (h refl)
full_dir-child (c ∷ p) d h = refl

pub below-ne-nil : (full d : Text) → full ++ b'/' ∷ d ≢ []
below-ne-nil full d e = absurd (omega (arith, length-append full (b'/' ∷ d), ap length e))
