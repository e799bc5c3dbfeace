-- ===== src/Github/Comment.antt =====
-- `build_file_table` of crates/omnivore-core/src/github/comment.rs: the rows of a comment's table.
pub mod Rows
use mathlib.Core.Option
use omnivore.Prelude.{ℕ, Bool, true, false, not, Option, none, some, List, [], ◌∷◌, map}
use omnivore.Prelude.Tests.{if◌then◌else◌}
use omnivore.Prelude.Lists.{take}
use omnivore.Prelude.Sort.{sort}
use omnivore.Text.Base.{Text, text_eq}
use omnivore.Float.{F64}
use omnivore.Model.Report.{FileCoverage}

abbrev pub max_rows : ℕ
max_rows = 15

pub record Row (R : Type 0) : Type 0 where
  pub path : Text
  pub rate : R
  pub delta : Option R

module _ {R : Type 0} where
  -- the map of the baseline: a later file of a path replaces an earlier one
  unfoldable pub base_rate : List (FileCoverage R) → Text → Option R
  unfolding text_eq
  base_rate [] path = none
  base_rate (f ∷ fs) path = elim (base_rate fs path) [
    | some r ↦ some r
    | none ↦ if text_eq f.path path then some f.line_rate else none
  ]

module _ {R : Type 0} ⦃f64 : F64 R⦄ where
  unfoldable pub row_of : List (FileCoverage R) → FileCoverage R → Row R
  unfolding base_rate
  row_of baseline f = record {
    path = f.path;
    rate = f.line_rate;
    delta = Option.map (λ b. f64.sub f.line_rate b) (base_rate baseline f.path);
  }

  -- The comparison is not `Greater`; where `partial_cmp` has no answer it is `Equal`.
  unfoldable pub rate_le : R → R → Bool
  rate_le a b = not (f64.lt b a)

  by_delta : Option R → Option R → Row R → Row R → Bool
  unfolding rate_le
  by_delta none (some e) a b = true
  by_delta (some d) none a b = false
  by_delta (some d) (some e) a b = rate_le d e
  by_delta none none a b = rate_le a.rate b.rate

  unfoldable pub row_le : List (FileCoverage R) → Row R → Row R → Bool
  unfolding by_delta rate_le
  row_le [] a b = rate_le a.rate b.rate
  row_le (f ∷ fs) a b = by_delta a.delta b.delta a b

  unfoldable pub build_file_table : List (FileCoverage R) → List (FileCoverage R) → List (Row R)
  unfolding row_of row_le sort
  build_file_table current baseline =
      take max_rows (sort (row_le baseline) (map (row_of baseline) current))
