-- ===== src/Server/Series.antt =====
-- The series of a project in crates/omnivore-server/src/routes/coverage.rs, with the query of
-- storage/db.rs that lists them.
pub mod Resolve
use omnivore.Prelude.{ℕ, Bool, true, false, not, ◌&&◌, ◌||◌, Option, none, some, List, [], ◌∷◌, map}
use omnivore.Prelude.Tests.{ltb, if◌then◌else◌}
use omnivore.Prelude.Count.{filter}
use omnivore.Prelude.Sort.{sort}
use omnivore.Text.Base.{Text, text_eq, text_le, any, eq_ignore_ascii_case}
use omnivore.Model.Snapshot.{CoverageSnapshot, nonempty}
use omnivore.Storage.Records.{Tables}
use omnivore.Storage.Retention.{Order, Series, in_series}
use omnivore.Server.Answer.{Status, not_found, multiple_choices, Answer, refused, answered}

-- a target and a source
abbrev pub Pair : Type 0
Pair = Text × Text

unfoldable pub pair_eq : Pair → Pair → Bool
unfolding text_eq
pair_eq (t, s) (t', s') = text_eq t t' && text_eq s s'

-- `ORDER BY target, source`
unfoldable pub pair_le : Pair → Pair → Bool
unfolding text_eq text_le
pair_le (t, s) (t', s') = if text_eq t t' then text_le s s' else text_le t t'

-- `SELECT DISTINCT`
unfoldable pub distinct : List Pair → List Pair
unfolding pair_eq any
distinct [] = []
distinct (p ∷ ps) = let rest = distinct ps in if any (pair_eq p) rest then rest else p ∷ rest

-- the query of the series of a project
module _ {R : Type 0} where
  abbrev pub pair_of : CoverageSnapshot R → Pair
  pair_of row = (row.target, row.source)

  unfoldable pub get_series_for_project : Text → Tables R → List Pair
  unfolding distinct pair_le text_eq sort
  get_series_for_project project_id db =
      sort pair_le
        (distinct (map pair_of (filter (λ row. text_eq row.project_id project_id) db.snapshots)))

pub record SeriesParams : Type 0 where
  pub target : Option Text
  pub source : Option Text

-- `is_none_or(|want| want.eq_ignore_ascii_case(t))`
unfoldable pub accepts : Option Text → Text → Bool
unfolding eq_ignore_ascii_case
accepts none t = true
accepts (some want) t = eq_ignore_ascii_case want t

unfoldable pub selects : SeriesParams → Pair → Bool
unfolding accepts nonempty
selects params (t, s) = accepts (nonempty params.target) t && accepts (nonempty params.source) s

unfoldable pub only : List Pair → Answer Pair
only [] = refused not_found
only (p ∷ []) = answered p
only (p ∷ (q ∷ ps)) = refused multiple_choices

-- `if series.is_empty() { … }` and the match on the series that are selected
unfoldable pub resolve_among : SeriesParams → List Pair → Answer Pair
unfolding only selects
resolve_among params [] = refused not_found
resolve_among params (p ∷ ps) = only (filter (selects params) (p ∷ ps))

series_only : Option (Pair × ℕ) → Option Pair
series_only none = none
series_only (some (p, at)) = some p

module _ {R : Type 0} where
  unfoldable pub resolve_series : SeriesParams → Text → Tables R → Answer Pair
  unfolding resolve_among get_series_for_project
  resolve_series params project_id db = resolve_among params (get_series_for_project project_id db)

  first : List (CoverageSnapshot R) → Option (CoverageSnapshot R)
  first [] = none
  first (row ∷ rows) = some row

  -- `ORDER BY created_at DESC LIMIT 1`
  unfoldable pub get_latest_snapshot_by_series :
      Order R → Series → Tables R → Option (CoverageSnapshot R)
  unfolding first in_series
  get_latest_snapshot_by_series order s db = first (order (filter (in_series s) db.snapshots))

  -- `if newest.is_none_or(|(_, at)| latest.created_at > *at) { … }`
  newer : Pair → Option (CoverageSnapshot R) → Option (Pair × ℕ) → Option (Pair × ℕ)
  newer p none best = best
  newer p (some latest) none = some (p, latest.created_at)
  newer p (some latest) (some (q, at)) =
      if ltb at latest.created_at then some (p, latest.created_at) else some (q, at)

  newest_of : Order R → Text → Tables R → List Pair → Option (Pair × ℕ) → Option (Pair × ℕ)
  unfolding newer get_latest_snapshot_by_series
  newest_of order project_id db [] best = best
  newest_of order project_id db ((t, s) ∷ ps) best = newest_of order project_id db ps (
      newer (t, s)
        (get_latest_snapshot_by_series order
          (record { project_id = project_id; target = t; source = s }) db)
        best)

  or_newest : Order R → SeriesParams → Text → Tables R → Answer Pair → Option Pair
  unfolding newest_of series_only selects get_series_for_project
  or_newest order params project_id db (answered p) = some p
  or_newest order params project_id db (refused multiple_choices) = series_only (
      newest_of order project_id db (filter (selects params) (get_series_for_project project_id db))
        none)
  or_newest order params project_id db (refused _) = none

  unfoldable pub resolve_series_or_newest : Order R → SeriesParams → Text → Tables R → Option Pair
  unfolding or_newest resolve_series
  resolve_series_or_newest order params project_id db =
      or_newest order params project_id db (resolve_series params project_id db)
