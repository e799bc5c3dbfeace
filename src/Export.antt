-- ===== src/Export.antt =====
-- The export report: crates/omnivore-core/src/report.rs and the route that answers it,
-- crates/omnivore-server/src/routes/export.rs. The formatting of dates and the decoder of `serde_json`
-- are arguments; the Markdown and the JSON of the report are left out.
pub mod Route
pub mod Totals
use mathlib.Core.Option
use omnivore.Prelude.{
  ℕ, zero, suc, ◌+◌, Bool, true, false, not, Option, none, some, List, [], ◌∷◌, ◌++◌, map,
}
use omnivore.Prelude.Tests.{if◌then◌else◌}
use omnivore.Prelude.Lists.{get_elem?}
use omnivore.Prelude.Count.{count}
use omnivore.Prelude.Int.{ℤ, pos}
use omnivore.Text.Base.{Text, codes}
use omnivore.Float.{F64, ratio}
use omnivore.Model.Report.{FileCoverage, add_i64}
use omnivore.Model.Snapshot.{CoverageSnapshot}
use omnivore.Storage.Records.{Project}
use omnivore.Storage.Queries.{first_row}
use omnivore.Pages.Target.{target_label, files_in}

pub record SnapshotInfo : Type 0 where
  pub date : Text
  pub commit_sha : Option Text
  pub branch : Option Text

pub record TargetReport (R : Type 0) : Type 0 where
  pub target : Text
  pub label : Text
  pub line_rate : R
  pub branch_rate : R
  pub lines_covered : ℤ
  pub lines_total : ℤ
  pub branches_covered : ℤ
  pub branches_total : ℤ
  pub file_count : ℤ
  pub line_delta : Option R
  pub branch_delta : Option R
  pub status : Text

pub record CoverageOverview (R : Type 0) : Type 0 where
  pub total_files : ℤ
  pub total_lines : ℤ
  pub total_lines_covered : ℤ
  pub total_branches : ℤ
  pub total_branches_covered : ℤ
  pub overall_line_rate : R
  pub overall_branch_rate : R
  pub overall_line_delta : Option R
  pub overall_branch_delta : Option R
  pub files_with_zero_coverage : ℕ
  pub files_below_50_pct : ℕ
  pub files_above_80_pct : ℕ
  pub status : Text

pub record ExportReport (R : Type 0) : Type 0 where
  pub project_name : Text
  pub project_id : Text
  pub current : SnapshotInfo
  pub baseline : Option SnapshotInfo
  pub targets : List (TargetReport R)
  pub overview : CoverageOverview R

-- the five counters of a list of snapshots
pub record Counters : Type 0 where
  pub lines : ℤ
  pub lines_covered : ℤ
  pub branches : ℤ
  pub branches_covered : ℤ
  pub files : ℤ

abbrev pub no_counts : Counters
no_counts = record {
  lines = pos 0;
  lines_covered = pos 0;
  branches = pos 0;
  branches_covered = pos 0;
  files = pos 0;
}

module _ {R : Type 0} where
  unfoldable pub add_counts : Counters → CoverageSnapshot R → Counters
  add_counts c s = record {
    lines = add_i64 c.lines s.lines_total;
    lines_covered = add_i64 c.lines_covered s.lines_covered;
    branches = add_i64 c.branches s.branches_total;
    branches_covered = add_i64 c.branches_covered s.branches_covered;
    files = add_i64 c.files s.file_count;
  }

  -- the part of the loop that adds
  unfoldable pub totals_of : Counters → List (CoverageSnapshot R) → Counters
  unfolding add_counts
  totals_of c [] = c
  totals_of c (s ∷ ss) = totals_of (add_counts c s) ss

  -- `iter().flatten()`
  unfoldable pub flatten : List (Option (CoverageSnapshot R)) → List (CoverageSnapshot R)
  flatten [] = []
  flatten (none ∷ xs) = flatten xs
  flatten (some x ∷ xs) = x ∷ flatten xs

  -- `baseline_snapshots.get(i).and_then(|b| b.as_ref())`
  unfoldable pub baseline_at : List (Option (CoverageSnapshot R)) → ℕ → Option (CoverageSnapshot R)
  baseline_at bs i = elim (get_elem? bs i) [ none ↦ none | some b ↦ b ]

  info_of : (ℕ → Text) → CoverageSnapshot R → SnapshotInfo
  info_of format_date s = record {
    date = format_date s.created_at;
    commit_sha = s.commit_sha;
    branch = s.branch;
  }

  current_info : (ℕ → Text) → Option (CoverageSnapshot R) → SnapshotInfo
  unfolding info_of
  current_info format_date none = record { date = []; commit_sha = none; branch = none }
  current_info format_date (some s) = info_of format_date s

  all_files :
      (Text → Option (List (FileCoverage R))) → List (CoverageSnapshot R) → List (FileCoverage R)
  unfolding files_in
  all_files decode [] = []
  all_files decode (s ∷ ss) = files_in decode s.files_json ++ all_files decode ss

module _ {R : Type 0} ⦃f64 : F64 R⦄ where
  unfoldable pub status_label : R → Text
  status_label rate =
      if f64.le (f64.tenths 8) rate
      then codes "Passing"
      else if f64.le (f64.tenths 5) rate
      then codes "Warning"
      else codes "Failing"

  unfoldable pub target_report : CoverageSnapshot R → Option (CoverageSnapshot R) → TargetReport R
  unfolding status_label target_label
  target_report snap baseline = record {
    target = snap.target;
    label = target_label snap.target;
    line_rate = snap.line_rate;
    branch_rate = snap.branch_rate;
    lines_covered = snap.lines_covered;
    lines_total = snap.lines_total;
    branches_covered = snap.branches_covered;
    branches_total = snap.branches_total;
    file_count = snap.file_count;
    line_delta =
        Option.map (λ (b : CoverageSnapshot R). f64.sub snap.line_rate b.line_rate) baseline;
    branch_delta =
        Option.map (λ (b : CoverageSnapshot R). f64.sub snap.branch_rate b.branch_rate) baseline;
    status = status_label snap.line_rate;
  }

  -- the part of the loop that reports the targets, with the index that it is at
  unfoldable pub target_reports :
      ℕ → List (CoverageSnapshot R) → List (Option (CoverageSnapshot R)) → List (TargetReport R)
  unfolding target_report baseline_at
  target_reports i [] baselines = []
  target_reports i (s ∷ ss) baselines =
      target_report s (baseline_at baselines i) ∷ target_reports (i + 1) ss baselines

  -- the delta of a rate to that of the baseline, where there is a snapshot of it
  delta_to : R → List (CoverageSnapshot R) → (Counters → R) → Option R
  unfolding totals_of
  delta_to rate [] rate_of = none
  delta_to rate (s ∷ ss) rate_of = some (f64.sub rate (rate_of (totals_of no_counts (s ∷ ss))))

  unfoldable pub overview_of :
      Counters → List (CoverageSnapshot R) → List (FileCoverage R) → CoverageOverview R
  unfolding ratio delta_to status_label
  overview_of c baselines files =
      let line_rate = ratio c.lines_covered c.lines in
      let branch_rate = ratio c.branches_covered c.branches in
      record {
        total_files = c.files;
        total_lines = c.lines;
        total_lines_covered = c.lines_covered;
        total_branches = c.branches;
        total_branches_covered = c.branches_covered;
        overall_line_rate = line_rate;
        overall_branch_rate = branch_rate;
        overall_line_delta =
            delta_to line_rate baselines (λ (b : Counters). ratio b.lines_covered b.lines);
        overall_branch_delta =
            delta_to branch_rate baselines (λ (b : Counters). ratio b.branches_covered b.branches);
        files_with_zero_coverage = count (λ f. f64.lt f.line_rate (f64.thousandths 5)) files;
        files_below_50_pct = count (λ f. f64.lt f.line_rate (f64.tenths 5)) files;
        files_above_80_pct = count (λ f. f64.le (f64.tenths 8) f.line_rate) files;
        status = status_label line_rate;
      }

  unfoldable pub build_export_report :
      (ℕ → Text)
      → (Text → Option (List (FileCoverage R)))
      → Project R
      → List (CoverageSnapshot R)
      → List (Option (CoverageSnapshot R))
      → ExportReport R
  unfolding current_info first_row info_of target_reports overview_of totals_of flatten all_files
  build_export_report format_date decode project current baselines = record {
    project_name = project.name;
    project_id = project.id;
    current = current_info format_date (first_row current);
    baseline = Option.map (info_of format_date) (first_row (flatten baselines));
    targets = target_reports 0 current baselines;
    overview =
        overview_of (totals_of no_counts current) (flatten baselines) (all_files decode current);
  }
