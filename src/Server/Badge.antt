-- ===== src/Server/Badge.antt =====
-- crates/omnivore-server/src/routes/badge.rs, but for the drawing: what a badge shows.
pub mod Shows
use omnivore.Prelude.{ℕ, Bool, true, false, Option, none, some, List, [], ◌∷◌}
use omnivore.Prelude.Tests.{if◌then◌else◌}
use omnivore.Prelude.Count.{filter}
use omnivore.Text.Base.{Text, codes, text_eq}
use omnivore.Float.{F64}
use omnivore.Model.Snapshot.{CoverageSnapshot}
use omnivore.Storage.Records.{Project, GlobalSettings, Tables}
use omnivore.Storage.Tables.{get_project, get_global_settings}
use omnivore.Storage.Retention.{Order, Series}
use omnivore.Server.Series.{
  Pair, SeriesParams, selects, get_series_for_project, get_latest_snapshot_by_series,
}

pub record BadgeQuery : Type 0 where
  pub metric : Option Text
  pub series : SeriesParams

pub data Color : Type 0 where
  green orange red grey : Color

-- the label, the rate where there is one, and the color
pub record Badge (R : Type 0) : Type 0 where
  pub label : Text
  pub rate : Option R
  pub color : Color

unfoldable pub is_branch : Option Text → Bool
unfolding text_eq
is_branch none = false
is_branch (some m) = text_eq m (codes "branch")

module _ {R : Type 0} where
  -- the match on the series that the filters leave
  latest_of_only : Order R → Text → List Pair → Tables R → Option (CoverageSnapshot R)
  unfolding get_latest_snapshot_by_series
  latest_of_only order project_id [] db = none
  latest_of_only order project_id ((t, s) ∷ []) db =
      get_latest_snapshot_by_series order
        (record { project_id = project_id; target = t; source = s }) db
  latest_of_only order project_id (p ∷ (q ∷ ps)) db = none

  unfoldable pub resolve_badge_snapshot :
      Order R → Text → SeriesParams → Tables R → Option (CoverageSnapshot R)
  unfolding latest_of_only selects get_series_for_project
  resolve_badge_snapshot order project_id params db =
      latest_of_only order project_id
        (filter (selects params) (get_series_for_project project_id db)) db

  -- `project.and_then(|p| p.threshold).unwrap_or(default)`
  unfoldable pub threshold_of : Option (Project R) → (Project R → Option R) → R → R
  threshold_of none field default = default
  threshold_of (some p) field default = elim (field p) [ none ↦ default | some t ↦ t ]

module _ {R : Type 0} ⦃f64 : F64 R⦄ where
  color_of : R → R → R → Color
  color_of rate threshold warn =
      if f64.le threshold rate then green else if f64.le warn rate then orange else red

  badge_of : Bool → Option (Project R) → GlobalSettings R → Option (CoverageSnapshot R) → Badge R
  unfolding color_of threshold_of
  badge_of branch project global none = record {
    label = codes "coverage";
    rate = none;
    color = grey;
  }
  badge_of true project global (some snap) = record {
    label = codes "branch coverage";
    rate = some snap.branch_rate;
    color =
        color_of snap.branch_rate
          (threshold_of project (λ p. p.branch_threshold) global.default_branch_threshold)
          (threshold_of project (λ p. p.branch_warn_threshold)
            global.default_branch_warn_threshold);
  }
  badge_of false project global (some snap) = record {
    label = codes "coverage";
    rate = some snap.line_rate;
    color =
        color_of snap.line_rate
          (threshold_of project (λ p. p.line_threshold) global.default_line_threshold)
          (threshold_of project (λ p. p.line_warn_threshold) global.default_line_warn_threshold);
  }

  unfoldable pub badge : Order R → Text → BadgeQuery → Tables R → Badge R
  unfolding badge_of is_branch get_project get_global_settings resolve_badge_snapshot
  badge order project_id params db =
      badge_of (is_branch params.metric) (get_project project_id db) (get_global_settings db)
        (resolve_badge_snapshot order project_id params.series db)
