-- ===== src/Parsers/JacocoXml.antt =====
-- crates/omnivore-core/src/parsers/jacoco_xml.rs. The deserializer of quick-xml is the argument
-- `decode`: what it makes of a document, if anything.
pub mod Totals
use omnivore.Prelude.{ℕ, ◌+◌, Bool, true, false, Option, none, some, List, [], ◌∷◌, ◌++◌, map}
use omnivore.Prelude.Tests.{if◌then◌else◌}
use omnivore.Prelude.Lists.{length}
use omnivore.Prelude.Sort.{sort}
use omnivore.Prelude.Int.{ℤ, pos, leb_ℤ, is_positive, ◌+ℤ◌, wrap_i64}
use omnivore.Text.Base.{Text, codes, text_eq, is_empty, trim_start, starts_with, strip_prefix}
use omnivore.Float.{F64, ratio}
use omnivore.Model.Target.{CoverageTarget}
use omnivore.Model.Report.{add_i64, LineCoverage, FileCoverage, OmnivoreReport, covered_lines}
use omnivore.Model.Plausible.{total_lines, total_covered}
use omnivore.Model.Snapshot.{Outside, unwrap_or, from_report}
use omnivore.Parsers.Errors.{
  jacoco, malformed_xml, no_source_files_with_lines, Result, ok, err, ◌>>=◌, ok_or, IngestMeta,
  Parsed,
}

pub record Line : Type 0 where
  pub nr : ℤ
  pub mi : ℤ
  pub ci : ℤ
  pub mb : ℤ
  pub cb : ℤ

pub record SourceFile : Type 0 where
  pub name : Text
  pub lines : List Line

pub record Package : Type 0 where
  pub name : Text
  pub sourcefiles : List SourceFile

pub record Counter : Type 0 where
  pub counter_type : Text
  pub missed : ℤ
  pub covered : ℤ

pub record Report : Type 0 where
  pub name : Text
  pub packages : List Package
  pub counters : List Counter

-- what follows the first occurrence of a text
after : Text → Text → Option Text
unfolding strip_prefix
after p [] = strip_prefix p []
after p (c ∷ s) =
    let later = after p s in elim (strip_prefix p (c ∷ s)) [ none ↦ later | some rest ↦ some rest ]

-- `if s.starts_with(start) { if let Some(end) = s.find(stop) { s = s[end..].trim_start() } }`
strip_markup : Text → Text → Text → Text
unfolding starts_with after trim_start
strip_markup start stop s =
    if starts_with start s
    then elim (after stop s) [ none ↦ s | some rest ↦ trim_start rest ]
    else s

unfoldable pub strip_prolog : Text → Text
unfolding strip_markup trim_start
strip_prolog xml =
    strip_markup (codes "<!DOCTYPE") (codes ">")
      (strip_markup (codes "<?xml") (codes "?>") (trim_start xml))

unfoldable pub counter : Text → List Counter → Option Counter
unfolding text_eq
counter ty [] = none
counter ty (c ∷ cs) = if text_eq c.counter_type ty then some c else counter ty cs

unfoldable pub path_of : Text → Text → Text
unfolding is_empty
path_of parent name = if is_empty parent then name else parent ++ b'/' ∷ name

unfoldable pub line_of : Line → LineCoverage
line_of l = record { line_number = l.nr; hit_count = l.ci }

-- The three running totals of a file: lines covered, branches covered, branches.
unfoldable pub file_lines_covered : List Line → ℤ → ℤ
file_lines_covered [] n = n
file_lines_covered (l ∷ ls) n =
    file_lines_covered ls (if is_positive l.ci then add_i64 n (pos 1) else n)

unfoldable pub file_branches_covered : List Line → ℤ → ℤ
file_branches_covered [] n = n
file_branches_covered (l ∷ ls) n = file_branches_covered ls (add_i64 n l.cb)

unfoldable pub file_branches_total : List Line → ℤ → ℤ
file_branches_total [] n = n
file_branches_total (l ∷ ls) n = file_branches_total ls (add_i64 n (add_i64 l.cb l.mb))

abbrev by_number : LineCoverage → LineCoverage → Bool
by_number a b = leb_ℤ a.line_number b.line_number

-- the counter's pair, else the fallback
counted : Option Counter → ℤ × ℤ → ℤ × ℤ
counted none d = d
counted (some c) d = (c.covered, add_i64 c.covered c.missed)

project_name : Option Text → Text → Text
unfolding is_empty
project_name (some name) reported = name
project_name none reported = if is_empty reported then codes "JaCoCo import" else reported

-- the files, and the totals of their branches
pub record State (R : Type 0) : Type 0 where
  pub files : List (FileCoverage R)
  pub agg_branches_covered : ℤ
  pub agg_branches_total : ℤ

module _ {R : Type 0} ⦃f64 : F64 R⦄ where
  abbrev pub initial : State R
  initial = record { files = []; agg_branches_covered = pos 0; agg_branches_total = pos 0 }

  unfoldable pub file_of : Text → List Line → FileCoverage R
  unfolding line_of sort ratio file_lines_covered file_branches_covered file_branches_total
  file_of path ls =
      let lines = sort by_number (map line_of ls) in
      let covered = file_branches_covered ls (pos 0) in
      let total = file_branches_total ls (pos 0) in
      record {
        path = path;
        line_rate = ratio (file_lines_covered ls (pos 0)) (pos (length lines));
        branch_rate = ratio covered total;
        lines = lines;
        branches_covered = covered;
        branches_total = total;
        source_content = none;
      }

  unfoldable pub push_file : FileCoverage R → State R → State R
  push_file f s = record {
    files = s.files ++ f ∷ [];
    agg_branches_covered = add_i64 s.agg_branches_covered f.branches_covered;
    agg_branches_total = add_i64 s.agg_branches_total f.branches_total;
  }

  -- one source file, which is passed over where it has no line
  add_lines : Text → List Line → State R → State R
  unfolding file_of push_file
  add_lines path [] s = s
  add_lines path (l ∷ ls) s = push_file (file_of path (l ∷ ls)) s

  unfoldable pub add_files : Text → List SourceFile → State R → State R
  unfolding add_lines path_of
  add_files parent [] s = s
  add_files parent (sf ∷ sfs) s =
      add_files parent sfs (add_lines (path_of parent sf.name) sf.lines s)

  unfoldable pub add_packages : List Package → State R → State R
  unfolding add_files
  add_packages [] s = s
  add_packages (p ∷ ps) s = add_packages ps (add_files p.name p.sourcefiles s)

  unfoldable pub report_of :
      IngestMeta → CoverageTarget → Text → Report → State R → OmnivoreReport R
  unfolding counted counter ratio total_lines total_covered unwrap_or project_name
  report_of meta target source report s =
      let (lines_covered, lines_total) =
        counted (counter (codes "LINE") report.counters)
          (pos (total_covered s.files), pos (total_lines s.files)) in
      let (branches_covered, branches_total) =
        counted (counter (codes "BRANCH") report.counters)
          (s.agg_branches_covered, s.agg_branches_total) in
      record {
        version = codes "0.1.0";
        format = codes "jacoco-xml";
        dependencies = none;
        project = record {
          id = unwrap_or meta.project_id (codes "jacoco-project");
          name = project_name meta.project_name report.name;
          commit_sha = meta.commit_sha;
          branch = meta.branch;
          target = target;
          source = some source;
        };
        coverage = record {
          line_rate = ratio lines_covered lines_total;
          branch_rate = ratio branches_covered branches_total;
          lines_covered = lines_covered;
          lines_total = lines_total;
          branches_covered = branches_covered;
          branches_total = branches_total;
        };
        files = s.files;
      }

  require_files : List (FileCoverage R) → Result (List (FileCoverage R))
  require_files [] = err (jacoco no_source_files_with_lines)
  require_files (f ∷ fs) = ok (f ∷ fs)

  unfoldable pub parse :
      (Text → Option Report)
      → Outside R
      → Text
      → IngestMeta
      → CoverageTarget
      → Text
      → Result (Parsed R)
  unfolding strip_prolog add_packages require_files report_of from_report
  parse decode out xml meta target source = do
    report ← ok_or (decode (strip_prolog xml)) (jacoco malformed_xml)
    let s = add_packages report.packages initial
    files ← require_files s.files
    ok (from_report out (report_of meta target source report s) (some source))
