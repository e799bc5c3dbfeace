-- ===== src/Pages/Composite.antt =====
-- `compute_composite` of crates/omnivore-server/src/routes/pages/mod.rs. A map
-- is the list of its entries.
pub mod Union
pub mod Once
pub mod Bounds
pub mod Counts
use omnivore.Prelude.{
  ℕ, zero, suc, Bool, true, false, not, ◌&&◌, ◌||◌, Option, none, some, List, [], ◌∷◌, map,
}
use omnivore.Prelude.Tests.{◌==◌, if◌then◌else◌}
use omnivore.Prelude.Lists.{length}
use omnivore.Prelude.Count.{filter, count}
use omnivore.Prelude.Int.{ℤ, pos, is_positive, pos_part, neg_part}
use omnivore.Text.Base.{Text, text_eq, any, all}
use omnivore.Float.{F64, ratio, sum_f64}
use omnivore.Model.Report.{LineCoverage, FileCoverage, sum_i64, add_i64}
use omnivore.Pages.Target.{TargetSnapshot}

pub record CompositeSnapshot (R : Type 0) : Type 0 where
  pub line_rate : R
  pub branch_rate : R
  pub lines_covered : ℤ
  pub lines_total : ℤ
  pub branches_covered : ℤ
  pub branches_total : ℤ
  pub file_count : ℤ
  pub line_delta : Option R
  pub branch_delta : Option R
  pub lines_are_union : Bool
  pub branches_are_union : Bool

-- line numbers, each with whether a target covers it
abbrev pub LineMap : Type 0
LineMap = List (ℤ × Bool)

-- paths with their lines
abbrev pub UnionMap : Type 0
UnionMap = List (Text × LineMap)

unfoldable pub same_line : ℤ → ℤ → Bool
same_line a b = pos_part a == pos_part b && neg_part a == neg_part b

-- `*lines.entry(n).or_insert(false) |= hit`
unfoldable pub mark : ℤ → Bool → LineMap → LineMap
unfolding same_line
mark n hit [] = (n, hit) ∷ []
mark n hit ((m, b) ∷ lines) =
    if same_line m n then (m, b || hit) ∷ lines else (m, b) ∷ mark n hit lines

unfoldable pub mark_all : List LineCoverage → LineMap → LineMap
unfolding mark
mark_all [] lines = lines
mark_all (l ∷ ls) lines = mark_all ls (mark l.line_number (is_positive l.hit_count) lines)

-- `union.entry(path).or_default()` with the lines of a file
unfoldable pub mark_file : Text → List LineCoverage → UnionMap → UnionMap
unfolding mark_all text_eq
mark_file path ls [] = (path, mark_all ls []) ∷ []
mark_file path ls ((p, lines) ∷ union) =
    if text_eq p path then (p, mark_all ls lines) ∷ union else (p, lines) ∷ mark_file path ls union

unfoldable pub has_any : {A : Type 0} → List A → Bool
has_any [] = false
has_any (x ∷ xs) = true

is_there : {A : Type 0} → Option A → Bool
is_there none = false
is_there (some a) = true

module _ {R : Type 0} where
  unfoldable pub has_lines : TargetSnapshot R → Bool
  unfolding any has_any
  has_lines t = any (λ f. has_any f.lines) t.files

  unfoldable pub mark_files : List (FileCoverage R) → UnionMap → UnionMap
  unfolding mark_file
  mark_files [] union = union
  mark_files (f ∷ fs) union = mark_files fs (mark_file f.path f.lines union)

  -- the loop over the targets that have lines
  unfoldable pub union_of : List (TargetSnapshot R) → UnionMap → UnionMap
  unfolding mark_files
  union_of [] union = union
  union_of (t ∷ ts) union = union_of ts (mark_files t.files union)

-- `l.values().filter(|hit| **hit).count()`
unfoldable pub covered_in : LineMap → ℕ
covered_in lines = count (λ l. l.1) lines

module _ {R : Type 0} ⦃f64 : F64 R⦄ where
  -- the lines that were covered before, by the delta of a rate
  previous_covered : ℤ → ℤ → Option R → R
  previous_covered covered total none = f64.of_i64 covered
  previous_covered covered total (some delta) =
      f64.sub (f64.of_i64 covered) (f64.mul delta (f64.of_i64 total))

  -- The rate less the previous rate, which is that of the sums, where there is something to divide by.
  delta_of :
      (TargetSnapshot R → ℤ)
      → (TargetSnapshot R → ℤ)
      → (TargetSnapshot R → Option R)
      → R
      → List (TargetSnapshot R)
      → Option R
  unfolding sum_f64 previous_covered
  delta_of covered total delta rate ts =
      let c =
        sum_f64 (f64.tenths 0) (map (λ t. previous_covered (covered t) (total t) (delta t)) ts) in
      let n = sum_f64 (f64.tenths 0) (map (λ t. f64.of_i64 (total t)) ts) in
      if f64.lt (f64.tenths 0) n then some (f64.sub rate (f64.div c n)) else none

  -- the totals from the union, with the summaries of the targets that have nothing to union
  unfoldable pub line_totals : List (TargetSnapshot R) → UnionMap → ℤ × ℤ × ℤ
  unfolding sum_i64 covered_in has_lines
  line_totals ts [] = (
    sum_i64 (pos 0) (map (λ t. t.lines_covered) ts),
    sum_i64 (pos 0) (map (λ t. t.lines_total) ts),
    sum_i64 (pos 0) (map (λ t. t.file_count) ts),
  )
  line_totals ts (e ∷ union) =
      let pruned = filter (λ t. not (has_lines t)) ts in
      (
        add_i64 (sum_i64 (pos 0) (map (λ (u : Text × LineMap). pos (covered_in u.1)) (e ∷ union)))
            (sum_i64 (pos 0) (map (λ t. t.lines_covered) pruned)),
        add_i64 (sum_i64 (pos 0) (map (λ (u : Text × LineMap). pos (length u.1)) (e ∷ union)))
            (sum_i64 (pos 0) (map (λ t. t.lines_total) pruned)),
        add_i64 (pos (length (e ∷ union))) (sum_i64 (pos 0) (map (λ t. t.file_count) pruned)),
      )

  unfoldable pub composite_of : List (TargetSnapshot R) → CompositeSnapshot R
  unfolding sum_i64 line_totals has_lines union_of ratio delta_of is_there has_any all
  composite_of ts =
      let union = union_of (filter has_lines ts) [] in
      let (lines_covered, lines_total, file_count) = line_totals ts union in
      let branches_covered = sum_i64 (pos 0) (map (λ t. t.branches_covered) ts) in
      let branches_total = sum_i64 (pos 0) (map (λ t. t.branches_total) ts) in
      let line_rate = ratio lines_covered lines_total in
      let branch_rate = ratio branches_covered branches_total in
      let lines_are_union = has_any union && all has_lines ts in
      record {
        line_rate = line_rate;
        branch_rate = branch_rate;
        lines_covered = lines_covered;
        lines_total = lines_total;
        branches_covered = branches_covered;
        branches_total = branches_total;
        file_count = file_count;
        line_delta =
            if not lines_are_union && all (λ t. is_there t.line_delta) ts
            then delta_of (λ t. t.lines_covered) (λ t. t.lines_total) (λ t. t.line_delta) line_rate
                ts
            else none;
        branch_delta =
            if all (λ t. is_there t.branch_delta) ts
            then delta_of (λ t. t.branches_covered) (λ t. t.branches_total) (λ t. t.branch_delta)
                branch_rate ts
            else none;
        lines_are_union = lines_are_union;
        branches_are_union = false;
      }

  -- Fewer than two targets have no composite.
  unfoldable pub compute_composite : List (TargetSnapshot R) → Option (CompositeSnapshot R)
  unfolding composite_of
  compute_composite [] = none
  compute_composite (t ∷ []) = none
  compute_composite (t ∷ (u ∷ ts)) = some (composite_of (t ∷ (u ∷ ts)))
