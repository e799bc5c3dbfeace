-- ===== src/Storage/Retention.antt =====
-- `prune_snapshots`. The order of rows with one timestamp is not determined by SQL, so how a series
-- is put in order, newest first, is the argument `order`.
pub mod Bounds
pub mod Others
use omnivore.Prelude.{ℕ, Bool, true, false, not, ◌&&◌, Option, none, some, List, map}
use omnivore.Prelude.Tests.{if◌then◌else◌}
use omnivore.Prelude.Lists.{drop}
use omnivore.Prelude.Count.{filter}
use omnivore.Prelude.Int.{ℤ, pos_part}
use omnivore.Text.Base.{Text, text_eq}
use omnivore.Float.{F64}
use omnivore.Model.Report.{add_i64}
use omnivore.Model.Snapshot.{CoverageSnapshot}
use omnivore.Storage.Records.{Tables}
use omnivore.Storage.Tables.{has_snapshot, get_global_settings}

-- A series: a project, a target and a source.
pub record Series : Type 0 where
  pub project_id : Text
  pub target : Text
  pub source : Text

abbrev pub Order : Type 0 → Type 0
Order R = List (CoverageSnapshot R) → List (CoverageSnapshot R)

module _ {R : Type 0} where
  -- `WHERE project_id = ? AND target = ? AND source = ?`
  unfoldable pub in_series : Series → CoverageSnapshot R → Bool
  unfolding text_eq
  in_series s row =
      text_eq row.project_id s.project_id
      && text_eq row.target s.target
      && text_eq row.source s.source

  -- `ORDER BY created_at DESC LIMIT -1 OFFSET ?`: an offset below 0 is 0.
  unfoldable pub beyond :
      Order R → ℤ → Series → List (CoverageSnapshot R) → List (CoverageSnapshot R)
  unfolding in_series
  beyond order offset s rows = drop (pos_part offset) (order (filter (in_series s) rows))

  -- `files_json = NULL` for the rows whose identifier is among these
  unfoldable pub strip_files : List (CoverageSnapshot R) → CoverageSnapshot R → CoverageSnapshot R
  unfolding has_snapshot
  strip_files old row = if has_snapshot row.id old then record row { files_json = none } else row

  unfoldable pub strip_rows :
      Order R → ℤ → Series → List (CoverageSnapshot R) → List (CoverageSnapshot R)
  unfolding strip_files beyond
  strip_rows order full s rows = map (strip_files (beyond order full s rows)) rows

  unfoldable pub delete_rows :
      Order R → ℤ → Series → List (CoverageSnapshot R) → List (CoverageSnapshot R)
  unfolding has_snapshot beyond
  delete_rows order total s rows =
      filter (λ row. not (has_snapshot row.id (beyond order total s rows))) rows

module _ {R : Type 0} ⦃f64 : F64 R⦄ where
  unfoldable pub prune_snapshots : Order R → Series → Tables R → Tables R
  unfolding strip_rows delete_rows get_global_settings
  prune_snapshots order s db =
      let settings = get_global_settings db in
      let full = settings.retention_full in
      let total = add_i64 full settings.retention_summary in
      record db { snapshots = delete_rows order total s (strip_rows order full s db.snapshots) }
