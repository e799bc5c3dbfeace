-- ===== src/Model/Snapshot.antt =====
-- `CoverageSnapshot` of model/coverage.rs and how it is built from a report.
pub mod Mirror
use omnivore.Prelude.{ℕ, Option, none, some, List}
use omnivore.Prelude.Tests.{if◌then◌else◌}
use omnivore.Prelude.Lists.{length}
use omnivore.Prelude.Int.{ℤ, pos}
use omnivore.Text.Base.{Text, is_empty}
use omnivore.Float.{F64}
use omnivore.Model.Target.{as_str}
use omnivore.Model.Report.{FileCoverage, DependencyGraph, OmnivoreReport}
use omnivore.Model.Plausible.{drop_implausible_lines}
use omnivore.Model.Source

pub record CoverageSnapshot (R : Type 0) : Type 0 where
  pub id : Text
  pub project_id : Text
  pub commit_sha : Option Text
  pub branch : Option Text
  pub target : Text
  pub source : Text
  pub line_rate : R
  pub branch_rate : R
  pub lines_covered : ℤ
  pub lines_total : ℤ
  pub branches_covered : ℤ
  pub branches_total : ℤ
  pub file_count : ℤ
  pub created_at : ℕ
  pub files_json : Option Text
  pub dependencies_json : Option Text

-- What comes from outside: a fresh identifier, the time, and the two serializers of `serde_json`.
pub record Outside (R : Type 0) : Type 0 where
  pub new_id : Text
  pub now : ℕ
  pub files_to_json : List (FileCoverage R) → Option Text
  pub dependencies_to_json : DependencyGraph → Option Text

-- `.filter(|s| !s.is_empty())`
unfoldable pub nonempty : Option Text → Option Text
unfolding is_empty
nonempty none = none
nonempty (some s) = if is_empty s then none else some s

unfoldable pub or_else : Option Text → Option Text → Option Text
or_else none b = b
or_else (some a) b = some a

unfoldable pub unwrap_or : Option Text → Text → Text
unwrap_or none d = d
unwrap_or (some a) d = a

and_then : {A : Type 0} → Option A → (A → Option Text) → Option Text
and_then none f = none
and_then (some a) f = f a

-- The argument's source, else the report's, else the Omnivore agent; empty ones do not count.
unfoldable pub resolve_source : Option Text → Option Text → Text
unfolding nonempty or_else unwrap_or
resolve_source source reported =
    unwrap_or (or_else (nonempty source) (nonempty reported)) Source.omnivore_agent

module _ {R : Type 0} ⦃f64 : F64 R⦄ where
  unfoldable pub snapshot_of : Outside R → OmnivoreReport R → Option Text → CoverageSnapshot R
  unfolding resolve_source and_then
  snapshot_of out report source = record {
    id = out.new_id;
    project_id = report.project.id;
    commit_sha = report.project.commit_sha;
    branch = report.project.branch;
    target = as_str report.project.target;
    source = resolve_source source report.project.source;
    line_rate = report.coverage.line_rate;
    branch_rate = report.coverage.branch_rate;
    lines_covered = report.coverage.lines_covered;
    lines_total = report.coverage.lines_total;
    branches_covered = report.coverage.branches_covered;
    branches_total = report.coverage.branches_total;
    file_count = pos (length report.files);
    created_at = out.now;
    files_json = out.files_to_json report.files;
    dependencies_json = and_then report.dependencies out.dependencies_to_json;
  }

  -- The report as it is left, and its snapshot.
  unfoldable pub from_report :
      Outside R → OmnivoreReport R → Option Text → OmnivoreReport R × CoverageSnapshot R
  unfolding snapshot_of
  from_report out report source =
      let report' = (drop_implausible_lines report).0 in (report', snapshot_of out report' source)
