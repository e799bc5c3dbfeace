-- ===== src/Pages/Tests.antt =====
-- Examples for the pages.
use omnivore.Prelude.{ℕ, ◌≡◌, refl, none, some, List, [], ◌∷◌, arith}
use omnivore.Prelude.Lists.{All}
use omnivore.Prelude.Int.{pos}
use omnivore.Prelude.Sort.{sum_by}
use omnivore.Text.Base.{Text, codes}
use omnivore.Float.{millionths}
use omnivore.Model.Report.{LineCoverage, FileCoverage}
use omnivore.Pages.Escape.{html_escape, html_escape-safe, IsInert, decode}
use omnivore.Pages.FileTree.{Forest, nil, PrevRates, build_file_tree}
use omnivore.Pages.FileTree.Sums.{forest_sum, by_path}
use omnivore.Pages.FileTree.Leaves.{build_file_tree-leaves}
use omnivore.Pages.FileTree.Diverges.{build_file_tree-absolute}
use omnivore.Pages.Target.{TargetSnapshot}

abbrev no_rates : PrevRates ℕ
no_rates path = none

abbrev line : ℕ → ℕ → LineCoverage
line n hits = record { line_number = pos n; hit_count = pos hits }

abbrev file : Text → List LineCoverage → FileCoverage ℕ
file path lines = record {
  path = path;
  line_rate = 0;
  branch_rate = 0;
  lines = lines;
  branches_covered = pos 0;
  branches_total = pos 0;
  source_content = none;
}

abbrev target : Text → List (FileCoverage ℕ) → TargetSnapshot ℕ
target name files = record {
  target = name;
  label = name;
  source = codes "omnivore-agent";
  source_label = [];
  line_rate = 0;
  branch_rate = 0;
  lines_covered = pos 1;
  lines_total = pos 4;
  branches_covered = pos 0;
  branches_total = pos 0;
  file_count = pos 1;
  files = files;
  file_tree = nil;
  trend = [];
  line_delta = none;
  branch_delta = none;
}

abbrev two_files : List (FileCoverage ℕ)
two_files = file (codes "a/x.rs") [] ∷ (file (codes "b.rs") [] ∷ [])

build_file_tree-leaves_example :
    (ns : Forest ℕ) × (build_file_tree 10 two_files no_rates ≡ some ns)
    × ((h : Text → ℕ) → forest_sum h ns ≡ sum_by (by_path h) two_files)
build_file_tree-leaves_example =
    build_file_tree-leaves no_rates 10 two_files
      (((λ p e. cc), omega arith), (((λ p e. cc), omega arith), tt))

build_file_tree-absolute_example :
    build_file_tree 1_000 (file (codes "/a/x") [] ∷ (file (codes "/b/y") [] ∷ [])) no_rates ≡ none
build_file_tree-absolute_example =
    build_file_tree-absolute no_rates 1_000 (codes "a") (codes "b") (codes "x") (codes "y")
      (file (codes "/a/x") []) (file (codes "/b/y") []) (λ e. cc, omega arith)
      (λ e. cc, omega arith) (λ e. ground (arith, e)) refl refl

-- one file that two targets share
abbrev unit : TargetSnapshot ℕ
unit = target (codes "JVM_UNIT") (file (codes "Shared.kt") (line 1 1 ∷ (line 2 0 ∷ [])) ∷ [])

abbrev instrumented : TargetSnapshot ℕ
instrumented =
    target (codes "ANDROID_INSTRUMENTED")
      (file (codes "Shared.kt") (line 1 0 ∷ (line 2 3 ∷ (line 3 0 ∷ []))) ∷ [])

html_escape-safe_example :
    All IsInert (html_escape (codes "a'<b>"))
    × (decode 0 (html_escape (codes "a'<b>")) ≡ codes "a'<b>")
html_escape-safe_example = html_escape-safe (codes "a'<b>")
