-- ===== src/Model/Plausible.antt =====
-- `OmnivoreReport::drop_implausible_lines` of model/coverage.rs.
pub mod Dropped
use omnivore.Prelude.{ℕ, ◌+◌, ◌-◌, ◌≤◌, ◌≡◌, ◌≢◌, refl, Bool, ◌&&◌, List, [], ◌∷◌, map, arith}
use mathlib.Core.Path.{ap, ap₂}
use omnivore.Prelude.Tests.{ltb, ◌==◌, if◌then◌else◌}
use omnivore.Prelude.Lists.{length}
use omnivore.Prelude.Int.{ℤ, pos, leb_ℤ, ◌≤ℤ◌}
use omnivore.Text.Base.{All}
use omnivore.Float.{F64, ratio}
use omnivore.Model.Report.{
  max_line_number, LineCoverage, FileCoverage, CoverageSummary, OmnivoreReport, covered_lines,
  sum_i64,
}

unfoldable pub plausible : ℤ → Bool
plausible n = leb_ℤ (pos 1) n && leb_ℤ n (pos max_line_number)

-- `file.lines.retain(|l| plausible(l.line_number))`
unfoldable pub retain_plausible : List LineCoverage → List LineCoverage
unfolding plausible
retain_plausible [] = []
retain_plausible (l ∷ ls) =
    if plausible l.line_number then l ∷ retain_plausible ls else retain_plausible ls

module _ {R : Type 0} where
  -- The lines of all files, and how many of them were hit.
  unfoldable pub total_lines : List (FileCoverage R) → ℕ
  total_lines [] = 0
  total_lines (f ∷ fs) = length f.lines + total_lines fs

  unfoldable pub total_covered : List (FileCoverage R) → ℕ
  unfolding covered_lines
  total_covered [] = 0
  total_covered (f ∷ fs) = covered_lines f.lines + total_covered fs

module _ {R : Type 0} ⦃f64 : F64 R⦄ where
  -- the body of the loop over the files: the file that is left, and the records that it lost
  unfoldable pub drop_in_file : FileCoverage R → FileCoverage R × ℕ
  unfolding retain_plausible covered_lines ratio
  drop_in_file file =
      let before = length file.lines in
      let lines = retain_plausible file.lines in
      if length lines == before then (record file { lines = lines }, 0) else (
        record file {
          lines = lines;
          line_rate = ratio (pos (covered_lines lines)) (pos (length lines));
        },
        before - length lines,
      )

  unfoldable pub drop_in_files : List (FileCoverage R) → List (FileCoverage R) × ℕ
  unfolding drop_in_file
  drop_in_files [] = ([], 0)
  drop_in_files (f ∷ fs) =
      let (f', n) = drop_in_file f in let (fs', m) = drop_in_files fs in (f' ∷ fs', n + m)

  -- the summary derived from the records that survived
  unfoldable pub summary_of : CoverageSummary R → List (FileCoverage R) → CoverageSummary R
  unfolding total_lines total_covered ratio
  summary_of c files = record c {
    lines_total = pos (total_lines files);
    lines_covered = pos (total_covered files);
    line_rate = ratio (pos (total_covered files)) (pos (total_lines files));
  }

  -- The mutated report, and the number that is returned.
  unfoldable pub drop_implausible_lines : OmnivoreReport R → OmnivoreReport R × ℕ
  unfolding drop_in_files summary_of
  drop_implausible_lines report =
      let (files, dropped) = drop_in_files report.files in
      if ltb 0 dropped
      then (record report { files = files; coverage = summary_of report.coverage files }, dropped)
      else (record report { files = files }, dropped)
