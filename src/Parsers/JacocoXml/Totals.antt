-- ===== src/Parsers/JacocoXml/Totals.antt =====
-- About `parse` of parsers/jacoco_xml.rs: the totals of the report.
use omnivore.Prelude.{◌≡◌, ◌≢◌, refl, Option, none, some, false, List, [], ◌∷◌}
use omnivore.Text.Base.{Text, codes, is_empty}
use omnivore.Float.{F64}
use omnivore.Model.Target.{CoverageTarget}
use omnivore.Model.Report.{sum_i64, FileCoverage}
use omnivore.Model.Plausible.Dropped.{
  LinesAgree, BranchesAgree, drop-LinesAgree, drop-BranchesAgree, drop_implausible_lines-ne-nil,
}
use omnivore.Model.Snapshot.{Outside, from_report}
use omnivore.Model.Snapshot.Mirror.{Mirrors, from_report-Mirrors_given}
use omnivore.Parsers.Errors.{Ensures, Ensures-bind, IngestMeta, Parsed}
use omnivore.Parsers.Sums.{BranchTotals, BranchTotals-append}
use omnivore.Parsers.JacocoXml.{
  Line, SourceFile, Package, Report, State, initial, strip_prolog, counter, path_of, file_of,
  push_file, add_lines, add_files, add_packages, counted, report_of, require_files, parse,
}

module _ {R : Type 0} ⦃f64 : F64 R⦄ where
  abbrev IsSummed : State R → Type 0
  IsSummed s = BranchTotals s.agg_branches_total s.agg_branches_covered s.files

  add_lines-IsSummed :
      (path : Text) (ls : List Line) (s : State R) → IsSummed s → IsSummed (add_lines path ls s)
  unfolding add_lines push_file
  add_lines-IsSummed path [] s h = h
  add_lines-IsSummed path (l ∷ ls) s h =
      BranchTotals-append s.agg_branches_total s.agg_branches_covered s.files
        (file_of path (l ∷ ls)) h

  add_files-IsSummed :
      (parent : Text) (sfs : List SourceFile) (s : State R)
      → IsSummed s
      → IsSummed (add_files parent sfs s)
  unfolding add_files
  add_files-IsSummed parent [] s h = h
  add_files-IsSummed parent (sf ∷ sfs) s h =
      add_files-IsSummed parent sfs (add_lines (path_of parent sf.name) sf.lines s)
        (add_lines-IsSummed (path_of parent sf.name) sf.lines s h)

  add_packages-IsSummed :
      (ps : List Package) (s : State R) → IsSummed s → IsSummed (add_packages ps s)
  unfolding add_packages
  add_packages-IsSummed [] s h = h
  add_packages-IsSummed (p ∷ ps) s h =
      add_packages-IsSummed ps (add_files p.name p.sourcefiles s)
        (add_files-IsSummed p.name p.sourcefiles s h)

  require_files-ne-nil : (fs : List (FileCoverage R)) → Ensures (λ gs. fs ≢ []) (require_files fs)
  unfolding require_files
  require_files-ne-nil [] = tt
  require_files-ne-nil (f ∷ fs) = cc

  -- What the parser promises of a report without counters of its own, and of its snapshot.
  abbrev pub IsConsistent : Text → Parsed R → Type 0
  IsConsistent source (report, snapshot) =
      LinesAgree report
      × BranchesAgree report
      × (report.files ≢ [])
      × Mirrors source report snapshot

  -- Without counters in the report, its totals are those of the files.
  report_of-Agrees :
      (meta : IngestMeta) (target : CoverageTarget) (source : Text) (report : Report) (s : State R)
      → counter (codes "LINE") report.counters ≡ none
      → counter (codes "BRANCH") report.counters ≡ none
      → IsSummed s
      → LinesAgree (report_of meta target source report s)
        × BranchesAgree (report_of meta target source report s)
  unfolding report_of counted
  report_of-Agrees meta target source report s l b h = rw (l, b) ((refl, refl), h)

  report_of-files :
      (meta : IngestMeta) (target : CoverageTarget) (source : Text) (report : Report) (s : State R)
      → (report_of meta target source report s).files ≡ s.files
  unfolding report_of
  report_of-files meta target source report s = refl

  report_of-IsConsistent :
      (out : Outside R) (meta : IngestMeta) (target : CoverageTarget) (source : Text)
      (report : Report) (s : State R)
      → is_empty source ≡ false
      → counter (codes "LINE") report.counters ≡ none
      → counter (codes "BRANCH") report.counters ≡ none
      → IsSummed s
      → s.files ≢ []
      → IsConsistent source (from_report out (report_of meta target source report s) (some source))
  unfolding from_report
  report_of-IsConsistent out meta target source report s g l b h n =
      let r = report_of meta target source report s in
      let (lines_agree, branches_agree) = report_of-Agrees meta target source report s l b h in
      (
        drop-LinesAgree r lines_agree,
        drop-BranchesAgree r branches_agree,
        drop_implausible_lines-ne-nil r (rw (report_of-files meta target source report s) n),
        from_report-Mirrors_given out r source g,
      )

  -- A JaCoCo report without `LINE` and `BRANCH` counters of its own is refused, or has a file, only
  -- plausible line numbers, line totals of the lines of its files, branch totals that are the sums
  -- over its files, and a snapshot that repeats them under the source that was given, not empty.
  pub parse-Consistent :
      (decode : Text → Option Report) (out : Outside R) (xml : Text) (meta : IngestMeta)
      (target : CoverageTarget) (source : Text) (report : Report)
      → decode (strip_prolog xml) ≡ some report
      → is_empty source ≡ false
      → counter (codes "LINE") report.counters ≡ none
      → counter (codes "BRANCH") report.counters ≡ none
      → Ensures (IsConsistent source) (parse decode out xml meta target source)
  unfolding parse
  parse-Consistent decode out xml meta target source report d g l b =
      (let s = add_packages report.packages initial in
        rw d (
          Ensures-bind (λ fs. s.files ≢ []) (IsConsistent source) (require_files s.files) _
            (require_files-ne-nil s.files)
            (λ fs n.
              report_of-IsConsistent out meta target source report s g l b
                (add_packages-IsSummed report.packages initial (unfold sum_i64 in (refl, refl)))
                n)))
