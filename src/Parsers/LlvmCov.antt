-- ===== src/Parsers/LlvmCov.antt =====
-- crates/omnivore-core/src/parsers/llvm_cov.rs, with the deserializer of serde_json as an argument. A
-- value of a segment is an integer that fits an `i64`, a Boolean, or neither; a `BTreeMap` is the
-- list of its entries in the order of their keys.
pub mod Segments
use omnivore.Prelude.{ℕ, Bool, true, false, not, ◌&&◌, Option, none, some, List, [], ◌∷◌, ◌++◌, map}
use omnivore.Prelude.Tests.{if◌then◌else◌}
use omnivore.Prelude.Lists.{length}
use omnivore.Prelude.Int.{ℤ, pos, ltb_ℤ, leb_ℤ, max_ℤ, wrap_i32}
use omnivore.Text.Base.{Text, codes}
use omnivore.Float.{F64, ratio, ratio_f64}
use omnivore.Model.Target
use omnivore.Model.Report.{LineCoverage, FileCoverage, OmnivoreReport, covered_lines}
use omnivore.Model.Plausible.{total_lines, total_covered}
use omnivore.Model.Source
use omnivore.Model.Snapshot.{Outside, unwrap_or, from_report}
use omnivore.Parsers.Errors.{
  json, llvm_cov, no_data_entries, no_files_with_coverage, Result, ok, err, ◌>>=◌, ◌>>◌, ok_or,
  IngestMeta, Parsed,
}

pub data Value : Type 0 where
  number : ℤ → Value
  boolean : Bool → Value
  other : Value

pub record LlvmCovMetric (R : Type 0) : Type 0 where
  pub count : ℤ
  pub covered : ℤ
  pub percent : R

pub record LlvmCovTotals (R : Type 0) : Type 0 where
  pub lines : Option (LlvmCovMetric R)
  pub branches : Option (LlvmCovMetric R)

pub record LlvmCovFile (R : Type 0) : Type 0 where
  pub filename : Text
  pub segments : List (List Value)
  pub summary : Option (LlvmCovTotals R)

pub record LlvmCovData (R : Type 0) : Type 0 where
  pub files : List (LlvmCovFile R)
  pub totals : Option (LlvmCovTotals R)

abbrev pub LlvmCovExport : Type 0 → Type 0
LlvmCovExport R = List (LlvmCovData R)

is_zero : ℤ → Bool
is_zero n = leb_ℤ n (pos 0) && leb_ℤ (pos 0) n

-- `as_bool().or_else(|| as_i64().map(|n| n != 0))` is `Some(true)`
unfoldable pub has_count : Value → Bool
unfolding is_zero
has_count (boolean b) = b
has_count (number n) = not (is_zero n)
has_count other = false

abbrev pub LineCounts : Type 0
LineCounts = List (ℤ × ℤ)

-- `let entry = line_counts.entry(line).or_insert(0); *entry = (*entry).max(count)`
unfoldable pub raise : ℤ → ℤ → LineCounts → LineCounts
raise line count [] = (line, max_ℤ (pos 0) count) ∷ []
raise line count ((k, c) ∷ m) =
    if ltb_ℤ line k
    then (line, max_ℤ (pos 0) count) ∷ (k, c) ∷ m
    else if leb_ℤ line k
    then (k, max_ℤ c count) ∷ m
    else (k, c) ∷ raise line count m

-- a segment `[line, column, count, has_count, …]`
unfoldable pub add_segment : List Value → LineCounts → LineCounts
unfolding has_count raise wrap_i32
add_segment (number line ∷ (column ∷ (number count ∷ (flag ∷ more)))) m =
    if has_count flag then raise (wrap_i32 line) count m else m
add_segment _ m = m

unfoldable pub add_segments : List (List Value) → LineCounts → LineCounts
unfolding add_segment
add_segments [] m = m
add_segments (seg ∷ segs) m = add_segments segs (add_segment seg m)

pub line_of : ℤ × ℤ → LineCoverage
line_of (line_number, hit_count) = record { line_number = line_number; hit_count = hit_count }

unfoldable pub segments_to_lines : List (List Value) → List LineCoverage
unfolding add_segments line_of
segments_to_lines segments = map line_of (add_segments segments [])

module _ {R : Type 0} where
  covered_of : Option (LlvmCovMetric R) → ℤ
  covered_of none = pos 0
  covered_of (some m) = m.covered

  count_of : Option (LlvmCovMetric R) → ℤ
  count_of none = pos 0
  count_of (some m) = m.count

  branches_of : Option (LlvmCovTotals R) → Option (LlvmCovMetric R)
  branches_of none = none
  branches_of (some s) = s.branches

module _ {R : Type 0} ⦃f64 : F64 R⦄ where
  -- `b.percent / 100.0`
  percent_rate : Option (LlvmCovMetric R) → R
  percent_rate none = f64.tenths 0
  percent_rate (some m) = f64.div m.percent (f64.tenths 1000)

  unfoldable pub file_of : LlvmCovFile R → List LineCoverage → FileCoverage R
  unfolding covered_lines ratio_f64 branches_of percent_rate covered_of count_of
  file_of file lines =
      let branches = branches_of file.summary in
      record {
        path = file.filename;
        line_rate = ratio_f64 (pos (covered_lines lines)) (pos (length lines));
        branch_rate = percent_rate branches;
        lines = lines;
        branches_covered = covered_of branches;
        branches_total = count_of branches;
        source_content = none;
      }

  keep_file : LlvmCovFile R → List LineCoverage → List (FileCoverage R) → List (FileCoverage R)
  unfolding file_of
  keep_file file [] fs = fs
  keep_file file (l ∷ ls) fs = file_of file (l ∷ ls) ∷ fs

  -- the loop over the files, without those that have no lines
  unfoldable pub files_of : List (LlvmCovFile R) → List (FileCoverage R)
  unfolding keep_file segments_to_lines
  files_of [] = []
  files_of (file ∷ files) = keep_file file (segments_to_lines file.segments) (files_of files)

  -- lines covered, lines, branches covered, branches
  totals_of : Option (LlvmCovTotals R) → List (FileCoverage R) → ℤ × ℤ × ℤ × ℤ
  unfolding covered_of count_of total_covered total_lines
  totals_of none files = (pos (total_covered files), pos (total_lines files), pos 0, pos 0)
  totals_of (some t) files =
      (covered_of t.lines, count_of t.lines, covered_of t.branches, count_of t.branches)

  unfoldable pub report_of :
      IngestMeta → Option (LlvmCovTotals R) → List (FileCoverage R) → OmnivoreReport R
  unfolding totals_of ratio unwrap_or
  report_of meta totals files =
      let (lines_covered, lines_total, branches_covered, branches_total) = totals_of totals files in
      record {
        version = codes "0.1.0";
        format = codes "llvm-cov";
        dependencies = none;
        project = record {
          id = unwrap_or meta.project_id (codes "llvm-cov-project");
          name = unwrap_or meta.project_name (codes "llvm-cov import");
          commit_sha = meta.commit_sha;
          branch = meta.branch;
          target = Target.rust_llvm_cov;
          source = some Source.llvm_cov;
        };
        coverage = record {
          line_rate = ratio lines_covered lines_total;
          branch_rate = ratio branches_covered branches_total;
          lines_covered = lines_covered;
          lines_total = lines_total;
          branches_covered = branches_covered;
          branches_total = branches_total;
        };
        files = files;
      }

  -- `&export.data[0]`
  first_entry : LlvmCovExport R → Result (LlvmCovData R)
  first_entry [] = err (llvm_cov no_data_entries)
  first_entry (d ∷ ds) = ok d

  require_files : List (FileCoverage R) → Result (Unit {0})
  require_files [] = err (llvm_cov no_files_with_coverage)
  require_files (f ∷ fs) = ok tt

  unfoldable pub parse :
      (Text → Option (LlvmCovExport R)) → Outside R → Text → IngestMeta → Result (Parsed R)
  unfolding first_entry files_of require_files report_of from_report
  parse decode out input meta = do
    exported ← ok_or (decode input) json
    data_entry ← first_entry exported
    let files = files_of data_entry.files
    require_files files
    ok (from_report out (report_of meta data_entry.totals files) (some Source.llvm_cov))
