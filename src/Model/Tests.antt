-- ===== src/Model/Tests.antt =====
-- The model at concrete inputs.
use omnivore.Prelude.{ℕ, refl, none, some, [], ◌∷◌}
use omnivore.Prelude.Int.{pos}
use omnivore.Text.Base.{codes, is_empty}
use omnivore.Float.{millionths}
use omnivore.Model.Target
use omnivore.Model.Report.{OmnivoreReport, FileCoverage}
use omnivore.Model.Snapshot.{Outside, from_report}
use omnivore.Model.Snapshot.Mirror.{Mirrors, from_report-Mirrors_given}
use omnivore.Model.Target.{CoverageTarget, as_str, from_str_loose, from_str_loose-as_str}

abbrev sample_file : FileCoverage ℕ
sample_file = record {
  path = codes "src/lib.rs";
  line_rate = 500_000;
  branch_rate = 0;
  lines =
      record { line_number = pos 4; hit_count = pos 2 }
      ∷ record { line_number = pos 0; hit_count = pos 9 }
      ∷ record { line_number = pos 2_000_001; hit_count = pos 0 }
      ∷ [];
  branches_covered = pos 1;
  branches_total = pos 2;
  source_content = none;
}

abbrev sample_report : OmnivoreReport ℕ
sample_report = record {
  version = codes "1";
  format = codes "omnivore";
  project = record {
    id = codes "p";
    name = codes "P";
    commit_sha = none;
    branch = some (codes "main");
    target = Target.lcov;
    source = some (codes "kover");
  };
  coverage = record {
    line_rate = 666_666;
    branch_rate = 500_000;
    lines_covered = pos 2;
    lines_total = pos 3;
    branches_covered = pos 1;
    branches_total = pos 2;
  };
  files = sample_file ∷ [];
  dependencies = none;
}

abbrev outside : Outside ℕ
outside = record {
  new_id = codes "7d3f";
  now = 1000;
  files_to_json = λ fs. none;
  dependencies_to_json = λ d. none;
}

from_report-Mirrors_given_example :
    Mirrors
      (codes "lcov")
      (from_report outside sample_report (some (codes "lcov"))).0
      (from_report outside sample_report (some (codes "lcov"))).1
unfolding is_empty
from_report-Mirrors_given_example =
    from_report-Mirrors_given outside sample_report (codes "lcov") refl
