-- ===== src/Model/Report.antt =====
-- The report records of model/coverage.rs, over a type `R` of `f64` values.
use omnivore.Prelude.{ℕ, suc, Bool, Option, none, some, List, [], ◌∷◌, ◌++◌, ◌≡◌, refl, map}
use omnivore.Prelude.Tests.{if◌then◌else◌}
use omnivore.Prelude.Int.{ℤ, pos, ◌+ℤ◌, wrap_i64, is_positive}
use omnivore.Text.Base.{Text}
use omnivore.Model.Target.{CoverageTarget}

-- `a + b` on `i64`
abbrev pub add_i64 : ℤ → ℤ → ℤ
add_i64 a b = wrap_i64 (a +ℤ b)

-- `iter().sum::<i64>()`
unfoldable pub sum_i64 : ℤ → List ℤ → ℤ
sum_i64 acc [] = acc
sum_i64 acc (x ∷ xs) = sum_i64 (add_i64 acc x) xs

abbrev pub max_line_number : ℕ
max_line_number = 2_000_000

pub record LineCoverage : Type 0 where
  pub line_number : ℤ
  pub hit_count : ℤ

pub record FileCoverage (R : Type 0) : Type 0 where
  pub path : Text
  pub line_rate : R
  pub branch_rate : R
  pub lines : List LineCoverage
  pub branches_covered : ℤ
  pub branches_total : ℤ
  pub source_content : Option Text

pub record CoverageSummary (R : Type 0) : Type 0 where
  pub line_rate : R
  pub branch_rate : R
  pub lines_covered : ℤ
  pub lines_total : ℤ
  pub branches_covered : ℤ
  pub branches_total : ℤ

pub record ProjectInfo : Type 0 where
  pub id : Text
  pub name : Text
  pub commit_sha : Option Text
  pub branch : Option Text
  pub target : CoverageTarget
  pub source : Option Text

pub data ModuleType : Type 0 where
  internal external : ModuleType

pub record ModuleNode : Type 0 where
  pub id : Text
  pub name : Text
  pub module_type : ModuleType
  pub group : Option Text
  pub version : Option Text

pub record ModuleEdge : Type 0 where
  pub from : Text
  pub to : Text
  pub configuration : Text

pub record DependencyGraph : Type 0 where
  pub modules : List ModuleNode
  pub edges : List ModuleEdge

pub record OmnivoreReport (R : Type 0) : Type 0 where
  pub version : Text
  pub format : Text
  pub project : ProjectInfo
  pub coverage : CoverageSummary R
  pub files : List (FileCoverage R)
  pub dependencies : Option DependencyGraph

-- `lines.iter().filter(|l| l.hit_count > 0).count()`
unfoldable pub covered_lines : List LineCoverage → ℕ
covered_lines [] = 0
covered_lines (l ∷ ls) =
    if is_positive l.hit_count then suc (covered_lines ls) else covered_lines ls

module _ {R : Type 0} where
  unfoldable pub has_branch_counts : FileCoverage R → Bool
  has_branch_counts f = is_positive f.branches_total

  unfoldable pub branch_totals : List (FileCoverage R) → Option (ℤ × ℤ)
  unfolding sum_i64
  branch_totals files =
      let covered = sum_i64 (pos 0) (map (λ f. f.branches_covered) files) in
      let total = sum_i64 (pos 0) (map (λ f. f.branches_total) files) in
      if is_positive total then some (covered, total) else none

pub sum_i64-append :
    (acc x : ℤ) (xs : List ℤ) → sum_i64 acc (xs ++ x ∷ []) ≡ add_i64 (sum_i64 acc xs) x
unfolding sum_i64
sum_i64-append acc x [] = refl
sum_i64-append acc x (y ∷ xs) = sum_i64-append (add_i64 acc y) x xs
