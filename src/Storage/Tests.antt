-- ===== src/Storage/Tests.antt =====
-- The storage at concrete inputs.
use omnivore.Prelude.{ℕ, ◌≤◌, ◌≡◌, refl, true, false, none, some, [], ◌∷◌, arith}
use omnivore.Prelude.Tests.{ltb, leb}
use omnivore.Prelude.Count.{count}
use omnivore.Prelude.Sort.{sort, sort-perm}
use omnivore.Prelude.Int.{pos, pos_part}
use omnivore.Text.Base.{Text, codes}
use omnivore.Float.{millionths}
use omnivore.Model.Report.{add_i64}
use omnivore.Model.Snapshot.{CoverageSnapshot}
use omnivore.Storage.Records.{Project, Tables}
use omnivore.Storage.Tables.{has_project, has_snapshot, get_global_settings}
use omnivore.Storage.Ratchet.{default_policy}
use omnivore.Storage.Retention.{Order, Series, in_series, prune_snapshots}
use omnivore.Storage.Retention.Bounds.{Rearranges, is_full, prune_snapshots-bounded}
use omnivore.Storage.Retention.Others.{IdsDistinct}
use omnivore.Storage.Valid.{IsValid}
use omnivore.Storage.Ingest.{Config, ingest_snapshot}
use omnivore.Storage.Ingest.Floors.{KeepsFloors, ingest_snapshot-KeepsFloors}
use omnivore.Storage.Ingest.Valid.{ingest_snapshot-IsValid}
use omnivore.Storage.Ingest.Outcome.{Answered, ingest_snapshot-Answered}

-- newest first
abbrev newest_first : Order ℕ
newest_first rows = sort (λ a b. leb b.created_at a.created_at) rows

newest_first-Rearranges : Rearranges newest_first
newest_first-Rearranges rows = sort-perm (λ a b. leb b.created_at a.created_at) rows

abbrev row : Text → ℕ → CoverageSnapshot ℕ
row id at = record {
  id = id;
  project_id = codes "p";
  commit_sha = none;
  branch = some (codes "main");
  target = codes "LCOV";
  source = codes "lcov";
  line_rate = 700_000;
  branch_rate = 0;
  lines_covered = pos 7;
  lines_total = pos 10;
  branches_covered = pos 0;
  branches_total = pos 0;
  file_count = pos 1;
  created_at = at;
  files_json = some (codes "[]");
  dependencies_json = none;
}

abbrev project : Project ℕ
project = record {
  id = codes "p";
  name = codes "P";
  description = none;
  github_repo = none;
  source_root = none;
  line_threshold = none;
  branch_threshold = none;
  line_warn_threshold = none;
  branch_warn_threshold = none;
  tags = none;
  ratchet_enabled = true;
  ratchet_line_floor = some 600_000;
  ratchet_branch_floor = none;
  created_at = 1;
  updated_at = 1;
}

abbrev tables : Tables ℕ
tables = record {
  projects = project ∷ [];
  snapshots = row (codes "a") 1 ∷ row (codes "b") 2 ∷ row (codes "c") 3 ∷ [];
  api_keys = [];
  settings = some (record {
    default_line_threshold = 800_000;
    default_branch_threshold = 800_000;
    default_line_warn_threshold = 500_000;
    default_branch_warn_threshold = 500_000;
    retention_full = pos 1;
    retention_summary = pos 1;
  });
}

abbrev series : Series
series = record { project_id = codes "p"; target = codes "LCOV"; source = codes "lcov" }

abbrev config : Config
config = record { allow_project_autocreate = false; ratchet = default_policy }

tables-IsValid : IsValid tables
unfolding IdsDistinct has_snapshot has_project
tables-IsValid = record {
  distinct = (refl, (refl, (refl, tt)));
  parents = (refl, (refl, (refl, tt)));
  scopes = tt;
}

prune_snapshots-bounded_example :
    (count (is_full series) (prune_snapshots newest_first series tables).snapshots
      ≤ pos_part (get_global_settings tables).retention_full)
    × (count (in_series series) (prune_snapshots newest_first series tables).snapshots
        ≤ pos_part (
            add_i64
              (get_global_settings tables).retention_full
              (get_global_settings tables).retention_summary))
prune_snapshots-bounded_example =
    prune_snapshots-bounded newest_first series tables newest_first-Rearranges

ingest_snapshot-IsValid_example :
    IsValid (ingest_snapshot newest_first config (row (codes "d") 4) none 4 tables).1
ingest_snapshot-IsValid_example =
    ingest_snapshot-IsValid newest_first config (row (codes "d") 4) none 4 tables tables-IsValid

ltb_irreflexive : (a : ℕ) → ltb a a ≡ false
ltb_irreflexive a = ground arith

ltb_asymmetric : (a b : ℕ) → ltb a b ≡ true → ltb b a ≡ false
ltb_asymmetric a b h = ground arith

ingest_snapshot-KeepsFloors_example :
    KeepsFloors tables.projects
      (ingest_snapshot newest_first config (row (codes "d") 4) none 4 tables).1.projects
ingest_snapshot-KeepsFloors_example =
    ingest_snapshot-KeepsFloors ltb_irreflexive ltb_asymmetric newest_first config
      (row (codes "d") 4) none 4 tables

-- below the floor of the project
abbrev low : CoverageSnapshot ℕ
low = record (row (codes "d") 4) { line_rate = 500_000 }

ingest_snapshot-Answered_example :
    Answered config low tables (ingest_snapshot newest_first config low none 4 tables).0
ingest_snapshot-Answered_example = ingest_snapshot-Answered newest_first config low none 4 tables
