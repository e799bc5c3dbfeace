-- ===== src/Model/Snapshot/Mirror.antt =====
-- About `CoverageSnapshot::from_report` of model/coverage.rs: the report beside its snapshot.
use omnivore.Prelude.{◌≡◌, refl, false, Option, none, some, arith}
use omnivore.Prelude.Lists.{length}
use omnivore.Prelude.Int.{pos}
use omnivore.Text.Base.{Text, is_empty}
use omnivore.Float.{F64}
use omnivore.Model.Target.{as_str}
use omnivore.Model.Report.{OmnivoreReport}
use omnivore.Model.Plausible.Dropped.{
  LinesPlausible, drop_implausible_lines-IsPlausible, drop_implausible_lines-project,
}
use omnivore.Model.Snapshot.{CoverageSnapshot, Outside, resolve_source, from_report}

module _ {R : Type 0} where
  pub record Mirrors (source : Text) (report : OmnivoreReport R) (snapshot : CoverageSnapshot R)
      : Type 0 where
    pub plausible : LinesPlausible report.files
    pub lines_total : snapshot.lines_total ≡ report.coverage.lines_total
    pub lines_covered : snapshot.lines_covered ≡ report.coverage.lines_covered
    pub branches_total : snapshot.branches_total ≡ report.coverage.branches_total
    pub branches_covered : snapshot.branches_covered ≡ report.coverage.branches_covered
    pub line_rate : snapshot.line_rate ≡ report.coverage.line_rate
    pub branch_rate : snapshot.branch_rate ≡ report.coverage.branch_rate
    pub file_count : snapshot.file_count ≡ pos (length report.files)
    pub project : snapshot.project_id ≡ report.project.id
    pub target : snapshot.target ≡ as_str report.project.target
    pub named : snapshot.source ≡ source

-- A source that is given and not empty wins.
pub resolve_source_given :
    (source : Text) (reported : Option Text)
    → is_empty source ≡ false
    → resolve_source (some source) reported ≡ source
unfolding resolve_source
resolve_source_given source reported h = ground arith

-- Without one the report's own counts, and an empty one is as none: never is the source empty.
pub resolve_source-ne-empty :
    (source reported : Option Text) → is_empty (resolve_source source reported) ≡ false
unfolding resolve_source is_empty
resolve_source-ne-empty none none = refl
resolve_source-ne-empty none (some r) = ground arith
resolve_source-ne-empty (some s) none = ground arith
resolve_source-ne-empty (some s) (some r) = ground arith

module _ {R : Type 0} ⦃f64 : F64 R⦄ where
  pub from_report-Mirrors :
      (out : Outside R) (report : OmnivoreReport R) (source : Option Text)
      → (let (report', snapshot) = from_report out report source in
          Mirrors (resolve_source source report.project.source) report' snapshot)
  unfolding from_report
  from_report-Mirrors out report source = record {
    plausible = drop_implausible_lines-IsPlausible report;
    lines_total = refl;
    lines_covered = refl;
    branches_total = refl;
    branches_covered = refl;
    line_rate = refl;
    branch_rate = refl;
    file_count = refl;
    project = refl;
    target = refl;
    named = rw (drop_implausible_lines-project report);
  }

  -- With a source that is not empty, the snapshot of a report repeats the totals, rates, file count,
  -- project and target of the report as it is left, whose line numbers are all plausible, and has
  -- that source.
  pub from_report-Mirrors_given :
      (out : Outside R) (report : OmnivoreReport R) (source : Text)
      → is_empty source ≡ false
      → Mirrors source
          (from_report out report (some source)).0
          (from_report out report (some source)).1
  from_report-Mirrors_given out report source h =
      rw (resolve_source_given source report.project.source h) at
        (from_report-Mirrors out report (some source))
