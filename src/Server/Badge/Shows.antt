-- ===== src/Server/Badge/Shows.antt =====
-- About the badge: the series that it shows is the one that the coverage routes choose.
use omnivore.Prelude.{◌≡◌, refl, Option, none, List, [], ◌∷◌}
use omnivore.Prelude.Count.{filter}
use omnivore.Text.Base.{Text}
use omnivore.Model.Snapshot.{CoverageSnapshot}
use omnivore.Storage.Records.{Tables}
use omnivore.Storage.Retention.{Order}
use omnivore.Server.Answer.{Answer, refused, answered}
use omnivore.Server.Series.{
  Pair, SeriesParams, selects, only, resolve_among, get_series_for_project,
  get_latest_snapshot_by_series, resolve_series,
}
use omnivore.Server.Badge.{latest_of_only, resolve_badge_snapshot}

module _ {R : Type 0} where
  -- the latest snapshot of the series of an answer
  abbrev pub latest_of : Order R → Text → Answer Pair → Tables R → Option (CoverageSnapshot R)
  latest_of order project_id (refused s) db = none
  latest_of order project_id (answered (t, s)) db =
      get_latest_snapshot_by_series order
        (record { project_id = project_id; target = t; source = s }) db

  badge-only :
      (order : Order R) (project_id : Text) (ps : List Pair) (db : Tables R)
      → latest_of_only order project_id ps db ≡ latest_of order project_id (only ps) db
  unfolding latest_of_only only
  badge-only order project_id [] db = refl
  badge-only order project_id (p ∷ []) db = refl
  badge-only order project_id (p ∷ (q ∷ ps)) db = refl

  badge-among :
      (order : Order R) (project_id : Text) (params : SeriesParams) (ps : List Pair) (db : Tables R)
      → latest_of_only order project_id (filter (selects params) ps) db
        ≡ latest_of order project_id (resolve_among params ps) db
  unfolding latest_of_only resolve_among
  badge-among order project_id params [] db = refl
  badge-among order project_id params (p ∷ ps) db =
      badge-only order project_id (filter (selects params) (p ∷ ps)) db

  -- The badge shows the latest snapshot of the series that the coverage routes resolve for the same
  -- filters, and nothing where they refuse to choose.
  pub resolve_badge_snapshot_lem :
      (order : Order R) (project_id : Text) (params : SeriesParams) (db : Tables R)
      → resolve_badge_snapshot order project_id params db
        ≡ latest_of order project_id (resolve_series params project_id db) db
  unfolding resolve_badge_snapshot resolve_series
  resolve_badge_snapshot_lem order project_id params db =
      badge-among order project_id params (get_series_for_project project_id db) db
