-- ===== src/Pages/ProjectDetail.antt =====
-- crates/omnivore-server/src/routes/pages/project_detail.rs: what the page of a project shows, less
-- its HTML and the short forms of commits. The printing of dates, the order of rows, the decoder of
-- stored files and the fuel for the file trees are arguments.
use omnivore.Prelude.{ℕ, ◌-◌, Bool, true, false, not, Option, none, some, List, [], ◌∷◌, ◌++◌, map}
use mathlib.Core.List.{reverse}
use mathlib.Core.Option
use omnivore.Prelude.Tests.{if◌then◌else◌, ltb, ◌==◌}
use omnivore.Prelude.Int.{pos, is_positive}
use omnivore.Prelude.Count.{count}
use omnivore.Prelude.Lists.{length, take}
use omnivore.Prelude.Sort.{sort}
use omnivore.Text.Base.{Text, text_eq, any}
use omnivore.Float.{F64}
use omnivore.Model.Report.{LineCoverage, FileCoverage}
use omnivore.Model.Snapshot.{CoverageSnapshot}
use omnivore.Storage.Records.{Project, Tables}
use omnivore.Storage.Tables.{get_project, get_global_settings}
use omnivore.Storage.Retention.{Order}
use omnivore.Storage.Queries.{
  ActivityEntry, get_latest_snapshot, get_snapshots_for_project,
  get_snapshots_for_project_by_series, get_project_activity,
}
use omnivore.Server.Answer.{not_found, Answer, refused, answered}
use omnivore.Server.Series.{Pair, get_series_for_project}
use omnivore.Server.Badge.{threshold_of}
use omnivore.Pages.Target.{TrendEntry, TargetSnapshot, from_snapshot}
use omnivore.Pages.Composite.{CompositeSnapshot, compute_composite}

pub record HotspotFile (R : Type 0) : Type 0 where
  pub path : Text
  pub line_rate : R
  pub uncovered_lines : ℕ
  pub total_lines : ℕ

-- the lines that have a hit
covered_lines : List LineCoverage → ℕ
covered_lines ls = count (λ l. is_positive l.hit_count) ls

module _ {R : Type 0} where
  hotspot : FileCoverage R → HotspotFile R
  unfolding covered_lines
  hotspot f = record {
    path = f.path;
    line_rate = f.line_rate;
    uncovered_lines = length f.lines - covered_lines f.lines;
    total_lines = length f.lines;
  }

  -- the files with a line that is not covered, of one target
  hotspots_of : List (FileCoverage R) → List (HotspotFile R)
  unfolding hotspot covered_lines
  hotspots_of [] = []
  hotspots_of (f ∷ fs) =
      let rest = hotspots_of fs in
      if ltb (covered_lines f.lines) (length f.lines) then hotspot f ∷ rest else rest

  unfoldable pub all_hotspots : List (TargetSnapshot R) → List (HotspotFile R)
  unfolding hotspots_of
  all_hotspots [] = []
  all_hotspots (t ∷ ts) = hotspots_of t.files ++ all_hotspots ts

module _ {R : Type 0} ⦃f64 : F64 R⦄ where
  -- most lines without a hit first, and the lower rate first among equals
  unfoldable pub hotspot_le : HotspotFile R → HotspotFile R → Bool
  hotspot_le a b =
      if a.uncovered_lines == b.uncovered_lines
      then not (f64.lt b.line_rate a.line_rate)
      else ltb b.uncovered_lines a.uncovered_lines

  unfoldable pub hotspots : List (TargetSnapshot R) → List (HotspotFile R)
  unfolding all_hotspots hotspot_le sort
  hotspots targets = take 15 (sort hotspot_le (all_hotspots targets))

-- what the page takes from outside
pub record Outside (R : Type 0) : Type 0 where
  pub order : Order R
  pub decode : Text → Option (List (FileCoverage R))
  pub fuel : ℕ
  pub to_rfc3339 : ℕ → Text
  -- to the minute
  pub date_key : ℕ → Text

pub record ProjectDetailPage (R : Type 0) : Type 0 where
  pub project : Project R
  pub latest : Option (CoverageSnapshot R)
  pub targets : List (TargetSnapshot R)
  pub composite : Option (CompositeSnapshot R)
  pub has_dependencies : Bool
  -- the identifiers of the snapshots that can be exported
  pub export_snapshots : List Text
  pub ratchet_line_passed : Bool
  pub ratchet_branch_passed : Bool
  pub line_threshold : R
  pub branch_threshold : R
  pub line_warn_threshold : R
  pub branch_warn_threshold : R
  pub activity : List (ActivityEntry R)

module _ {R : Type 0} where
  trend_entry : Outside R → CoverageSnapshot R → TrendEntry R
  trend_entry out s = record {
    line_rate = s.line_rate;
    branch_rate = s.branch_rate;
    created_at = out.to_rfc3339 s.created_at;
  }

  -- the second of a list
  second : List (CoverageSnapshot R) → Option (CoverageSnapshot R)
  second [] = none
  second (s ∷ []) = none
  second (s ∷ (p ∷ ss)) = some p

  -- the first snapshot of each minute
  unfoldable pub first_of_each : (ℕ → Text) → List Text → List (CoverageSnapshot R) → List Text
  unfolding any text_eq
  first_of_each date_key seen [] = []
  first_of_each date_key seen (s ∷ ss) =
      let key = date_key s.created_at in
      elim (any (text_eq key) seen) [
        | true ↦ first_of_each date_key seen ss
        | false ↦ s.id ∷ first_of_each date_key (key ∷ seen) ss
      ]

  has_dependencies_in : Option (CoverageSnapshot R) → Bool
  has_dependencies_in none = false
  has_dependencies_in (some s) = elim s.dependencies_json [ none ↦ false | some json ↦ true ]

module _ {R : Type 0} ⦃f64 : F64 R⦄ where
  -- the target of a series, from its latest 30 snapshots
  target_from :
      Outside R
      → List (CoverageSnapshot R)
      → Option (List (TargetSnapshot R))
      → Option (List (TargetSnapshot R))
  unfolding from_snapshot second trend_entry
  target_from out [] rest = rest
  target_from out (s ∷ ss) rest = elim rest [
    | none ↦ none
    | some ts ↦
        Option.map (λ t. t ∷ ts)
          (from_snapshot out.fuel out.decode s (second (s ∷ ss))
            (reverse (map (trend_entry out) (s ∷ ss))))
  ]

  unfoldable pub targets_of :
      Outside R → Text → Tables R → List Pair → Option (List (TargetSnapshot R))
  unfolding target_from get_snapshots_for_project_by_series
  targets_of out project_id db [] = some []
  targets_of out project_id db ((t, s) ∷ ps) =
      target_from out
        (get_snapshots_for_project_by_series out.order
          (record { project_id = project_id; target = t; source = s }) (pos 30) db)
        (targets_of out project_id db ps)

  -- a floor that there is, against the latest snapshot, if there is one
  unfoldable pub passes_floor : Option R → Option R → Bool
  passes_floor none rate = true
  passes_floor (some floor) none = true
  passes_floor (some floor) (some rate) = f64.le floor rate

  page_with :
      Outside R → Text → Tables R → Project R → List (TargetSnapshot R) → ProjectDetailPage R
  unfolding get_latest_snapshot compute_composite has_dependencies_in first_of_each passes_floor
      threshold_of get_global_settings get_project_activity get_snapshots_for_project
  page_with out project_id db project targets =
      let latest = get_latest_snapshot out.order project_id db in
      let global = get_global_settings db in
      record {
        project = project;
        latest = latest;
        targets = targets;
        composite = compute_composite targets;
        has_dependencies = has_dependencies_in latest;
        export_snapshots =
            first_of_each out.date_key []
              (get_snapshots_for_project out.order project_id (pos 50) db);
        ratchet_line_passed =
            passes_floor project.ratchet_line_floor
              (Option.map (λ (s : CoverageSnapshot R). s.line_rate) latest);
        ratchet_branch_passed =
            passes_floor project.ratchet_branch_floor
              (Option.map (λ (s : CoverageSnapshot R). s.branch_rate) latest);
        line_threshold =
            threshold_of (some project) (λ p. p.line_threshold) global.default_line_threshold;
        branch_threshold =
            threshold_of (some project) (λ p. p.branch_threshold) global.default_branch_threshold;
        line_warn_threshold =
            threshold_of (some project) (λ p. p.line_warn_threshold)
              global.default_line_warn_threshold;
        branch_warn_threshold =
            threshold_of (some project) (λ p. p.branch_warn_threshold)
              global.default_branch_warn_threshold;
        activity = get_project_activity out.order project_id (pos 15) db;
      }

  -- `none` where the fuel runs out
  unfoldable pub project_detail_page :
      Outside R → Text → Tables R → Answer (Option (ProjectDetailPage R))
  unfolding get_project targets_of page_with get_series_for_project
  project_detail_page out project_id db = elim (get_project project_id db) [
    | none ↦ refused not_found
    | some project ↦ answered (
        Option.map (page_with out project_id db project)
          (targets_of out project_id db (get_series_for_project project_id db)))
  ]
