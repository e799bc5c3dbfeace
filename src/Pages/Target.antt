-- ===== src/Pages/Target.antt =====
-- `TargetSnapshot` of crates/omnivore-server/src/routes/pages/mod.rs: a series with its latest
-- snapshot and what changed since the one before.
use mathlib.Core.Option
use omnivore.Prelude.{ℕ, Bool, ◌||◌, Option, none, some, List, [], ◌∷◌}
use omnivore.Prelude.Tests.{if◌then◌else◌}
use omnivore.Prelude.Int.{ℤ}
use omnivore.Text.Base.{Text, codes, text_eq}
use omnivore.Float.{F64}
use omnivore.Model.Report.{FileCoverage}
use omnivore.Model.Snapshot.{CoverageSnapshot}
use omnivore.Pages.FileTree.{Forest, PrevRates, build_file_tree}

pub record TrendEntry (R : Type 0) : Type 0 where
  pub line_rate : R
  pub branch_rate : R
  pub created_at : Text

pub record TargetSnapshot (R : Type 0) : Type 0 where
  pub target : Text
  pub label : Text
  pub source : Text
  pub source_label : Text
  pub line_rate : R
  pub branch_rate : R
  pub lines_covered : ℤ
  pub lines_total : ℤ
  pub branches_covered : ℤ
  pub branches_total : ℤ
  pub file_count : ℤ
  pub files : List (FileCoverage R)
  pub file_tree : Forest R
  pub trend : List (TrendEntry R)
  pub line_delta : Option R
  pub branch_delta : Option R

either : Text → Text → Text → Bool
unfolding text_eq
either a b s = text_eq s a || text_eq s b

unfoldable pub target_label : Text → Text
unfolding either text_eq
target_label s =
    if either (codes "JVM_UNIT") (codes "JvmUnit") s
    then codes "Unit Tests"
    else if either (codes "ANDROID_INSTRUMENTED") (codes "AndroidInstrumented") s
    then codes "Instrumented Tests"
    else if either (codes "IOS_UNIT") (codes "IosUnit") s
    then codes "iOS Unit Tests"
    else if either (codes "KOTLIN_NATIVE") (codes "KotlinNative") s
    then codes "Kotlin/Native Tests"
    else if either (codes "COMPOSITE") (codes "Composite") s
    then codes "Composite"
    else if either (codes "RUST_LLVM_COV") (codes "RustLlvmCov") s
    then codes "Rust (llvm-cov)"
    else if either (codes "GO_COVER") (codes "GoCover") s
    then codes "Go"
    else if either (codes "PYTHON_COVERAGE") (codes "PythonCoverage") s
    then codes "Python"
    else if either (codes "LCOV") (codes "Lcov") s
    then codes "lcov"
    else s

unfoldable pub source_label : Text → Text
unfolding either text_eq
source_label s =
    if either (codes "omnivore-agent") [] s
    then []
    else if text_eq s (codes "kover")
    then codes "Kover"
    else if text_eq s (codes "jacoco")
    then codes "JaCoCo"
    else if text_eq s (codes "llvm-cov")
    then codes "llvm-cov"
    else if text_eq s (codes "lcov")
    then codes "lcov"
    else if text_eq s (codes "go")
    then codes "Go"
    else if text_eq s (codes "python-coverage")
    then codes "coverage.py"
    else s

module _ {R : Type 0} where
  -- The decoder of `serde_json` is an argument; what it cannot read is no file.
  unfoldable pub files_in :
      (Text → Option (List (FileCoverage R))) → Option Text → List (FileCoverage R)
  files_in decode none = []
  files_in decode (some json) = elim (decode json) [ none ↦ [] | some files ↦ files ]

  -- the map that is collected from pairs: a later one of a path replaces an earlier one
  unfoldable pub rates_of : List (FileCoverage R) → PrevRates R
  unfolding text_eq
  rates_of [] path = none
  rates_of (f ∷ fs) path = elim (rates_of fs path) [
    | some r ↦ some r
    | none ↦ if text_eq f.path path then some (f.line_rate, f.branch_rate) else none
  ]

  prev_files :
      (Text → Option (List (FileCoverage R))) → Option (CoverageSnapshot R) → List (FileCoverage R)
  unfolding files_in
  prev_files decode none = []
  prev_files decode (some p) = files_in decode p.files_json

module _ {R : Type 0} ⦃f64 : F64 R⦄ where
  -- The fuel is that of the file tree.
  unfoldable pub from_snapshot :
      ℕ
      → (Text → Option (List (FileCoverage R)))
      → CoverageSnapshot R
      → Option (CoverageSnapshot R)
      → List (TrendEntry R)
      → Option (TargetSnapshot R)
  unfolding build_file_tree files_in rates_of prev_files target_label source_label
  from_snapshot fuel decode snap prev trend =
      let files = files_in decode snap.files_json in
      Option.map
        (λ tree. record {
          target = snap.target;
          label = target_label snap.target;
          source = snap.source;
          source_label = source_label snap.source;
          line_rate = snap.line_rate;
          branch_rate = snap.branch_rate;
          lines_covered = snap.lines_covered;
          lines_total = snap.lines_total;
          branches_covered = snap.branches_covered;
          branches_total = snap.branches_total;
          file_count = snap.file_count;
          files = files;
          file_tree = tree;
          trend = trend;
          line_delta =
              Option.map (λ (p : CoverageSnapshot R). f64.sub snap.line_rate p.line_rate) prev;
          branch_delta =
              Option.map (λ (p : CoverageSnapshot R). f64.sub snap.branch_rate p.branch_rate) prev;
        })
        (build_file_tree fuel files (rates_of (prev_files decode prev)))
