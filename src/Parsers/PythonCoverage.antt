-- ===== src/Parsers/PythonCoverage.antt =====
-- crates/omnivore-core/src/parsers/python_coverage.rs, with the deserializer of serde_json as an
-- argument. A `HashMap` is the list of its entries, one for each key.
pub mod Lines
use omnivore.Prelude.{ℕ, Bool, true, false, Option, none, some, List, [], ◌∷◌, ◌++◌, map}
use omnivore.Prelude.Tests.{if◌then◌else◌}
use omnivore.Prelude.Lists.{length}
use omnivore.Prelude.Sort.{sort}
use omnivore.Prelude.Int.{ℤ, pos, leb_ℤ}
use omnivore.Text.Base.{Text, codes, text_eq, text_le}
use omnivore.Float.{F64, ratio, ratio_f64}
use omnivore.Model.Target
use omnivore.Model.Report.{LineCoverage, FileCoverage, OmnivoreReport}
use omnivore.Model.Source
use omnivore.Model.Snapshot.{Outside, unwrap_or, from_report}
use omnivore.Parsers.Errors.{
  python_coverage, malformed_json, no_files, Result, ok, err, ◌>>=◌, ◌>>◌, ok_or, IngestMeta,
  Parsed,
}

pub record FileSummary : Type 0 where
  pub num_branches : Option ℤ
  pub covered_branches : Option ℤ
  pub missing_branches : Option ℤ

pub record FileEntry : Type 0 where
  pub executed_lines : List ℤ
  pub missing_lines : List ℤ
  pub summary : FileSummary

pub record TotalsSummary : Type 0 where
  pub covered_lines : ℤ
  pub num_statements : ℤ
  pub num_branches : Option ℤ
  pub covered_branches : Option ℤ

pub record CoverageJson : Type 0 where
  pub branch_coverage : Bool
  pub files : List (Text × FileEntry)
  pub totals : TotalsSummary

unwrap_or_zero : Option ℤ → ℤ
unwrap_or_zero none = pos 0
unwrap_or_zero (some n) = n

abbrev pub with_count : ℤ → ℤ → LineCoverage
with_count count n = record { line_number = n; hit_count = count }

abbrev pub by_number : LineCoverage → LineCoverage → Bool
by_number a b = leb_ℤ a.line_number b.line_number

-- executed lines count 1 and missing ones 0, in the order of their numbers
unfoldable pub lines_of : FileEntry → List LineCoverage
unfolding sort
lines_of entry =
    sort by_number (
      map (with_count (pos 1)) entry.executed_lines ++ map (with_count (pos 0)) entry.missing_lines)

-- the covered branches of a file, and all of them
unfoldable pub branches_of : Bool → FileSummary → ℤ × ℤ
unfolding unwrap_or_zero
branches_of branch_coverage summary =
    if branch_coverage
    then (unwrap_or_zero summary.covered_branches, unwrap_or_zero summary.num_branches)
    else (pos 0, pos 0)

no_entry : FileEntry
no_entry = record {
  executed_lines = [];
  missing_lines = [];
  summary = record { num_branches = none; covered_branches = none; missing_branches = none };
}

-- `&cov.files[file_name]`, for a name that is a key
entry_at : Text → List (Text × FileEntry) → FileEntry
unfolding text_eq no_entry
entry_at name [] = no_entry
entry_at name ((k, e) ∷ fs) = if text_eq k name then e else entry_at name fs

require_files : List (Text × FileEntry) → Result (Unit {0})
require_files [] = err (python_coverage no_files)
require_files (f ∷ fs) = ok tt

module _ {R : Type 0} ⦃f64 : F64 R⦄ where
  unfoldable pub file_of : Bool → Text → FileEntry → FileCoverage R
  unfolding lines_of branches_of ratio ratio_f64
  file_of branch_coverage name entry =
      let lines = lines_of entry in
      let (covered, total) = branches_of branch_coverage entry.summary in
      record {
        path = name;
        line_rate = ratio_f64 (pos (length entry.executed_lines)) (pos (length lines));
        branch_rate = ratio covered total;
        lines = lines;
        branches_covered = covered;
        branches_total = total;
        source_content = none;
      }

  -- the loop over the sorted names
  unfoldable pub file_coverages : CoverageJson → List (FileCoverage R)
  unfolding file_of entry_at sort text_le
  file_coverages cov =
      map (λ name. file_of cov.branch_coverage name (entry_at name cov.files))
        (sort text_le (map (λ f. f.0) cov.files))

  unfoldable pub report_of : IngestMeta → CoverageJson → List (FileCoverage R) → OmnivoreReport R
  unfolding ratio unwrap_or unwrap_or_zero
  report_of meta cov files =
      let lines_total = cov.totals.num_statements in
      let lines_covered = cov.totals.covered_lines in
      let branches_total = unwrap_or_zero cov.totals.num_branches in
      let branches_covered = unwrap_or_zero cov.totals.covered_branches in
      record {
        version = codes "0.1.0";
        format = codes "python-coverage";
        dependencies = none;
        project = record {
          id = unwrap_or meta.project_id (codes "python-project");
          name = unwrap_or meta.project_name (codes "python import");
          commit_sha = meta.commit_sha;
          branch = meta.branch;
          target = Target.python_coverage;
          source = some Source.python_coverage;
        };
        coverage = record {
          line_rate = ratio lines_covered lines_total;
          branch_rate = ratio branches_covered branches_total;
          lines_covered = lines_covered;
          lines_total = lines_total;
          branches_covered = branches_covered;
          branches_total = branches_total;
        };
        files = files;
      }

  unfoldable pub parse :
      (Text → Option CoverageJson) → Outside R → Text → IngestMeta → Result (Parsed R)
  unfolding require_files file_coverages report_of from_report
  parse decode out input meta = do
    cov ← ok_or (decode input) (python_coverage malformed_json)
    require_files cov.files
    ok (from_report out (report_of meta cov (file_coverages cov)) (some Source.python_coverage))
