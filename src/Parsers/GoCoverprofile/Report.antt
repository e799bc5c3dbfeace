-- ===== src/Parsers/GoCoverprofile/Report.antt =====
-- The report of a Go profile: the common prefix, the sorted files and lines, and `parse` itself.
use omnivore.Prelude.{ℕ, not, none, some, List, [], ◌∷◌, ◌++◌, map}
use omnivore.Prelude.Tests.{leb, ◌==◌, if◌then◌else◌}
use omnivore.Prelude.Lists.{length}
use omnivore.Prelude.Sort.{sort}
use omnivore.Prelude.Int.{ℤ, pos}
use omnivore.Text.Base.{Text, codes, text_eq, text_le, starts_with, strip_prefix, all}
use omnivore.Text.Split.{lines}
use omnivore.Float.{F64, ratio, ratio_f64}
use omnivore.Model.Target
use omnivore.Model.Report.{LineCoverage, FileCoverage, OmnivoreReport, covered_lines}
use omnivore.Model.Plausible.{total_lines, total_covered}
use omnivore.Model.Source
use omnivore.Model.Snapshot.{Outside, unwrap_or, from_report}
use omnivore.Parsers.Errors.{
  go_coverprofile, missing_mode, no_coverage_data, Result, ok, err, ◌>>=◌, ◌>>◌, IngestMeta, Parsed,
}
use omnivore.Parsers.GoCoverprofile.{LineMap, FileMap, State, loop, initial}

-- The walk over the characters of the first name: `seen` stands before them, `valid` is the prefix
-- up to the last slash that every name shares.
unfoldable pub prefix_loop : List Text → Text → Text → Text → Text
unfolding starts_with all
prefix_loop names seen [] valid = valid
prefix_loop names seen (c ∷ s) valid =
    let prefix = seen ++ c ∷ [] in
    let shared = prefix_loop names prefix s prefix in
    let on = prefix_loop names prefix s valid in
    if not (c == b'/') then on else if all (starts_with prefix) names then shared else valid

unfoldable pub find_common_prefix : List Text → Text
unfolding prefix_loop
find_common_prefix [] = []
find_common_prefix (first ∷ names) = prefix_loop (first ∷ names) [] first []

-- `line_map[&ln]`
unfoldable pub count_at : ℕ → LineMap → ℤ
count_at n [] = pos 0
count_at n ((k, c) ∷ m) = if k == n then c else count_at n m

unfoldable pub line_numbers : LineMap → List ℕ
line_numbers m = map (λ e. e.0) m

unfoldable pub sorted_lines : LineMap → List LineCoverage
unfolding count_at line_numbers sort
sorted_lines m =
    map (λ n. record { line_number = pos n; hit_count = count_at n m }) (sort leb (line_numbers m))

unfoldable pub file_names : FileMap → List Text
file_names fs = map (λ e. e.0) fs

-- `&files[file_name]`
unfoldable pub lines_at : Text → FileMap → LineMap
unfolding text_eq
lines_at file [] = []
lines_at file ((k, m) ∷ fs) = if text_eq k file then m else lines_at file fs

unfoldable pub require_data : State → Result (Unit {0})
require_data s =
    if not s.has_mode_line
    then err (go_coverprofile missing_mode)
    else elim s.files [ [] ↦ err (go_coverprofile no_coverage_data) | f ∷ fs ↦ ok tt ]

module _ {R : Type 0} ⦃f64 : F64 R⦄ where
  unfoldable pub file_of : Text → Text → LineMap → FileCoverage R
  unfolding sorted_lines covered_lines ratio_f64 unwrap_or strip_prefix
  file_of prefix name m =
      let lines = sorted_lines m in
      record {
        path = unwrap_or (strip_prefix prefix name) name;
        line_rate = ratio_f64 (pos (covered_lines lines)) (pos (length lines));
        branch_rate = f64.tenths 0;
        lines = lines;
        branches_covered = pos 0;
        branches_total = pos 0;
        source_content = none;
      }

  -- the loop over the sorted file names
  unfoldable pub file_coverages : (List Text → List Text) → FileMap → List (FileCoverage R)
  unfolding file_of file_names lines_at find_common_prefix sort text_le
  file_coverages iterate fs =
      let prefix = find_common_prefix (iterate (file_names fs)) in
      map (λ name. file_of prefix name (lines_at name fs)) (sort text_le (file_names fs))

  unfoldable pub report_of : IngestMeta → List (FileCoverage R) → OmnivoreReport R
  unfolding ratio total_lines total_covered unwrap_or
  report_of meta files = record {
    version = codes "0.1.0";
    format = codes "go-coverprofile";
    dependencies = none;
    project = record {
      id = unwrap_or meta.project_id (codes "go-project");
      name = unwrap_or meta.project_name (codes "go import");
      commit_sha = meta.commit_sha;
      branch = meta.branch;
      target = Target.go_cover;
      source = some Source.go;
    };
    coverage = record {
      line_rate = ratio (pos (total_covered files)) (pos (total_lines files));
      branch_rate = f64.tenths 0;
      lines_covered = pos (total_covered files);
      lines_total = pos (total_lines files);
      branches_covered = pos 0;
      branches_total = pos 0;
    };
    files = files;
  }

  unfoldable pub parse : (List Text → List Text) → Outside R → Text → IngestMeta → Result (Parsed R)
  unfolding loop require_data file_coverages report_of from_report lines
  parse iterate out input meta = do
    s ← loop (lines input) initial
    require_data s
    ok (from_report out (report_of meta (file_coverages iterate s.files)) (some Source.go))
