-- ===== src/Pages/FileTree.antt =====
-- The file tree of crates/omnivore-server/src/routes/pages/mod.rs. A node holds a list of nodes, so
-- nodes and lists of nodes are two types of one block. `build_dir_node` recurs on what it computes:
-- it takes fuel, and `none` says that it did not return.
pub mod Sums
pub mod Below
pub mod Leaves
pub mod Diverges
use mathlib.Core.Option
use omnivore.Prelude.{
  ℕ, zero, suc, ◌+◌, Bool, true, false, ◌||◌, Option, none, some, List, [], ◌∷◌, ◌++◌, map,
}
use omnivore.Prelude.Tests.{if◌then◌else◌}
use omnivore.Prelude.Lists.{length}
use omnivore.Prelude.Int.{pos, is_positive}
use omnivore.Text.Base.{Text, text_eq, text_le, is_empty, strip_prefix, any}
use omnivore.Text.Split.{split_once, rsplit_once}
use omnivore.Float.{F64, ratio, sum_f64}
use omnivore.Model.Report.{FileCoverage, covered_lines, sum_i64}

-- what a node holds beside its children
pub record NodeInfo (R : Type 0) : Type 0 where
  pub name : Text
  pub full_path : Text
  pub is_dir : Bool
  pub line_rate : R
  pub branch_rate : R
  pub file_count : ℕ
  pub line_delta : Option R
  pub branch_delta : Option R

mutual
  pub data FileTreeNode (R : Type 0) : Type 0 where
    node : NodeInfo R → Forest R → FileTreeNode R

  pub data Forest (R : Type 0) : Type 0 where
    nil : Forest R
    cons : FileTreeNode R → Forest R → Forest R

-- a `BTreeMap` from a directory to its files: the entries in the order of their keys
abbrev pub Groups : Type 0 → Type 0
Groups R = List (Text × List (FileCoverage R))

-- the call of `build_dir_node`, less what is the same in each
abbrev pub Build : Type 0 → Type 0
Build R = Text → Text → List (FileCoverage R) → Option (FileTreeNode R)

-- the previous line and branch rates of a path
abbrev pub PrevRates : Type 0 → Type 0
PrevRates R = Text → Option (R × R)

module _ {R : Type 0} where
  -- `groups.entry(dir).or_default().push(f)`
  unfoldable pub push_to : Text → FileCoverage R → Groups R → Groups R
  unfolding text_eq text_le
  push_to dir f [] = (dir, f ∷ []) ∷ []
  push_to dir f ((k, fs) ∷ groups) =
      if text_eq k dir
      then (k, fs ++ f ∷ []) ∷ groups
      else if text_le dir k
      then (dir, f ∷ []) ∷ ((k, fs) ∷ groups)
      else (k, fs) ∷ push_to dir f groups

  -- The loop over the files: those with a directory go to its group,
  unfoldable pub groups_by :
      (FileCoverage R → Option Text) → List (FileCoverage R) → Groups R → Groups R
  unfolding push_to
  groups_by dir_of [] groups = groups
  groups_by dir_of (f ∷ fs) groups =
      groups_by dir_of fs (elim (dir_of f) [ none ↦ groups | some d ↦ push_to d f groups ])

  -- and the others are leaves.
  unfoldable pub leaves_by :
      (FileCoverage R → Option Text) → List (FileCoverage R) → List (FileCoverage R)
  leaves_by dir_of [] = []
  leaves_by dir_of (f ∷ fs) = elim (dir_of f) [
    | none ↦ f ∷ leaves_by dir_of fs
    | some d ↦ leaves_by dir_of fs
  ]

-- what stands before the first slash
unfoldable pub first_dir : Text → Option Text
unfolding split_once
first_dir path = Option.map (λ parts. parts.0) (split_once b'/' path)

-- `if parent_path.is_empty() { dir_name } else { format!("{parent_path}/{dir_name}") }`
unfoldable pub full_dir : Text → Text → Text
unfolding is_empty
full_dir parent_path dir_name =
    if is_empty parent_path then dir_name else parent_path ++ b'/' ∷ dir_name

-- `strip_prefix(&format!("{full_dir}/")).unwrap_or(path)`
unfoldable pub relative : Text → Text → Text
unfolding strip_prefix
relative full path = elim (strip_prefix (full ++ b'/' ∷ []) path) [ none ↦ path | some rest ↦ rest ]

-- `path.rsplit('/').next()`
file_name : Text → Text
unfolding rsplit_once
file_name path = elim (rsplit_once b'/' path) [ none ↦ path | some parts ↦ parts.1 ]

module _ {R : Type 0} where
  unfoldable pub dir_below : Text → FileCoverage R → Option Text
  unfolding first_dir relative
  dir_below full f = first_dir (relative full f.path)

  -- the one group of a directory that has nothing else
  unfoldable pub lone_group :
      Groups R → List (FileCoverage R) → Option (Text × List (FileCoverage R))
  lone_group (g ∷ []) [] = some g
  lone_group _ _ = none

  unfoldable pub append : Forest R → Forest R → Forest R
  append nil ys = ys
  append (cons x xs) ys = cons x (append xs ys)

  infos : Forest R → List (NodeInfo R)
  infos nil = []
  infos (cons (node i _) rest) = i ∷ infos rest

  somes : List (Option R) → List R
  somes [] = []
  somes (none ∷ xs) = somes xs
  somes (some x ∷ xs) = x ∷ somes xs

module _ {R : Type 0} ⦃f64 : F64 R⦄ where
  leaf : PrevRates R → Text → FileCoverage R → FileTreeNode R
  leaf prev name f =
      node
        (record {
          name = name;
          full_path = f.path;
          is_dir = false;
          line_rate = f.line_rate;
          branch_rate = f.branch_rate;
          file_count = 1;
          line_delta = Option.map (λ (p : R × R). f64.sub f.line_rate p.0) (prev f.path);
          branch_delta = Option.map (λ (p : R × R). f64.sub f.branch_rate p.1) (prev f.path);
        })
        nil

  unfoldable pub add_leaves : PrevRates R → (Text → Text) → List (FileCoverage R) → Forest R
  unfolding leaf
  add_leaves prev name_of [] = nil
  add_leaves prev name_of (f ∷ fs) =
      cons (leaf prev (name_of f.path) f) (add_leaves prev name_of fs)

  -- the mean over all children of the deltas that there are, if there is one
  mean_delta : List (Option R) → Option R
  unfolding somes sum_f64
  mean_delta deltas = elim (somes deltas) [
    | [] ↦ none
    | d ∷ ds ↦ some (f64.div (sum_f64 (f64.tenths 0) (d ∷ ds)) (f64.of_i64 (pos (length deltas))))
  ]

  -- weighted by branches where the files carry counts, else the mean of the rates that are there
  dir_branch_rate : List (FileCoverage R) → R
  unfolding sum_i64 sum_f64 any
  dir_branch_rate files =
      let covered = sum_i64 (pos 0) (map (λ f. f.branches_covered) files) in
      let total = sum_i64 (pos 0) (map (λ f. f.branches_total) files) in
      if is_positive total
      then f64.div (f64.of_i64 covered) (f64.of_i64 total)
      else if any (λ f. f64.lt (f64.tenths 0) f.branch_rate) files
      then f64.div (sum_f64 (f64.tenths 0) (map (λ f. f.branch_rate) files))
          (f64.of_i64 (pos (length files)))
      else f64.tenths 0

  dir_line_rate : List (FileCoverage R) → R
  unfolding sum_i64 ratio covered_lines
  dir_line_rate files =
      ratio (sum_i64 (pos 0) (map (λ f. pos (covered_lines f.lines)) files))
        (sum_i64 (pos 0) (map (λ f. pos (length f.lines)) files))

  unfoldable pub dir_node : Text → Text → List (FileCoverage R) → Forest R → FileTreeNode R
  unfolding infos mean_delta dir_branch_rate dir_line_rate
  dir_node dir_name full files children =
      node
        (record {
          name = dir_name;
          full_path = full;
          is_dir = true;
          line_rate = dir_line_rate files;
          branch_rate = dir_branch_rate files;
          file_count = length files;
          line_delta = mean_delta (map (λ i. i.line_delta) (infos children));
          branch_delta = mean_delta (map (λ i. i.branch_delta) (infos children));
        })
        children

  -- a node for each group, in order
  unfoldable pub build_groups : Build R → Text → Groups R → Option (Forest R)
  build_groups build parent [] = some nil
  build_groups build parent ((sub, fs) ∷ groups) = elim (build sub parent fs) [
    | none ↦ none
    | some n ↦ Option.map (cons n) (build_groups build parent groups)
  ]

  -- One call, with `build` for the calls it makes.
  unfoldable pub build_step : Build R → PrevRates R → Build R
  unfolding full_dir dir_below groups_by leaves_by lone_group build_groups add_leaves append
      dir_node file_name
  build_step build prev dir_name parent_path files =
      let full = full_dir parent_path dir_name in
      let groups = groups_by (dir_below full) files [] in
      let leaves = leaves_by (dir_below full) files in
      elim (lone_group groups leaves) [
        | some (sub, fs) ↦ build (dir_name ++ b'/' ∷ sub) parent_path fs
        | none ↦
            Option.map
              (λ forest.
                dir_node dir_name full files (append forest (add_leaves prev file_name leaves)))
              (build_groups build full groups)
      ]

  unfoldable pub build_dir_node : ℕ → PrevRates R → Build R
  unfolding build_step
  build_dir_node zero prev dir_name parent_path files = none
  build_dir_node (suc fuel) prev dir_name parent_path files =
      build_step (build_dir_node fuel prev) prev dir_name parent_path files

  unfoldable pub build_file_tree : ℕ → List (FileCoverage R) → PrevRates R → Option (Forest R)
  unfolding build_dir_node build_groups groups_by leaves_by first_dir add_leaves append
  build_file_tree fuel files prev =
      let dir_of = λ (f : FileCoverage R). first_dir f.path in
      Option.map (λ forest. append forest (add_leaves prev (λ path. path) (leaves_by dir_of files)))
        (build_groups (build_dir_node fuel prev) [] (groups_by dir_of files []))
