-- ===== src/Storage/Queries.antt =====
-- The queries of storage/db.rs that read projects, snapshots and keys. How SQL puts rows of one
-- timestamp, and of one distance to a date, in order is an argument.
use omnivore.Prelude.{ℕ, Bool, true, false, ◌&&◌, Option, none, some, List, [], ◌∷◌, map}
use omnivore.Prelude.Tests.{leb, if◌then◌else◌}
use omnivore.Prelude.Lists.{length, take}
use omnivore.Prelude.Count.{filter}
use omnivore.Prelude.Sort.{sort}
use omnivore.Prelude.Int.{ℤ, pos, negsuc}
use omnivore.Text.Base.{Text, text_eq, text_le, any}
use omnivore.Model.Snapshot.{CoverageSnapshot}
use omnivore.Storage.Records.{ApiKey, Project, Tables}
use omnivore.Storage.Tables.{is_text, find_project}
use omnivore.Storage.Retention.{Series, Order, in_series}

-- `LIMIT ?`: below 0 there is no limit.
unfoldable pub limit_to {ℓ} : {A : Type ℓ} → ℤ → List A → List A
limit_to (pos n) xs = take n xs
limit_to (negsuc n) xs = xs

-- the first row of an answer
unfoldable pub first_row {ℓ} : {A : Type ℓ} → List A → Option A
first_row [] = none
first_row (x ∷ xs) = some x

-- `SELECT DISTINCT`
distinct_texts : List Text → List Text
unfolding any text_eq
distinct_texts [] = []
distinct_texts (t ∷ ts) =
    let rest = distinct_texts ts in if any (text_eq t) rest then rest else t ∷ rest

pub record ActivityEntry (R : Type 0) : Type 0 where
  pub created_at : ℕ
  pub project_id : Text
  pub project_name : Text
  pub target : Text
  pub commit_sha : Option Text
  pub line_rate : R
  pub branch_rate : R
  pub lines_covered : ℤ
  pub lines_total : ℤ

pub record HealthStats : Type 0 where
  pub project_count : ℤ
  pub snapshot_count : ℤ
  pub last_ingest : Option ℕ
  pub db_size_bytes : ℤ

module _ {R : Type 0} where
  -- the rows of a project, and those of a target
  unfoldable pub of_project : Text → CoverageSnapshot R → Bool
  unfolding text_eq
  of_project project_id row = text_eq row.project_id project_id

  unfoldable pub of_target : Text → Text → CoverageSnapshot R → Bool
  unfolding text_eq
  of_target project_id target row = text_eq row.project_id project_id && text_eq row.target target

  -- `ORDER BY name`
  unfoldable pub list_projects : Tables R → List (Project R)
  unfolding sort text_le
  list_projects db = sort (λ p q. text_le p.name q.name) db.projects

  unfoldable pub get_latest_snapshot : Order R → Text → Tables R → Option (CoverageSnapshot R)
  unfolding first_row of_project
  get_latest_snapshot order project_id db =
      first_row (order (filter (of_project project_id) db.snapshots))

  unfoldable pub get_snapshots_for_project :
      Order R → Text → ℤ → Tables R → List (CoverageSnapshot R)
  unfolding limit_to of_project
  get_snapshots_for_project order project_id limit db =
      limit_to limit (order (filter (of_project project_id) db.snapshots))

  unfoldable pub get_latest_snapshot_for_branch :
      Order R → Text → Text → Tables R → Option (CoverageSnapshot R)
  unfolding first_row of_project is_text
  get_latest_snapshot_for_branch order project_id branch db =
      first_row (
        order (filter (λ row. of_project project_id row && is_text branch row.branch) db.snapshots))

  unfoldable pub get_latest_snapshot_by_target :
      Order R → Text → Text → Tables R → Option (CoverageSnapshot R)
  unfolding first_row of_target
  get_latest_snapshot_by_target order project_id target db =
      first_row (order (filter (of_target project_id target) db.snapshots))

  unfoldable pub get_snapshots_for_project_by_target :
      Order R → Text → Text → ℤ → Tables R → List (CoverageSnapshot R)
  unfolding limit_to of_target
  get_snapshots_for_project_by_target order project_id target limit db =
      limit_to limit (order (filter (of_target project_id target) db.snapshots))

  unfoldable pub get_snapshot_by_id : Text → Tables R → Option (CoverageSnapshot R)
  unfolding first_row text_eq
  get_snapshot_by_id id db = first_row (filter (λ row. text_eq row.id id) db.snapshots)

  -- `order_near` puts rows in the order of their distance to a date.
  unfoldable pub get_snapshot_closest_to_date :
      (Text → Order R) → Text → Text → Text → Tables R → Option (CoverageSnapshot R)
  unfolding first_row of_target
  get_snapshot_closest_to_date order_near project_id target date db =
      first_row (order_near date (filter (of_target project_id target) db.snapshots))

  unfoldable pub get_targets_for_project : Text → Tables R → List Text
  unfolding distinct_texts of_project sort text_le
  get_targets_for_project project_id db =
      sort text_le
        (distinct_texts (map (λ row. row.target) (filter (of_project project_id) db.snapshots)))

  unfoldable pub get_snapshots_for_project_by_series :
      Order R → Series → ℤ → Tables R → List (CoverageSnapshot R)
  unfolding limit_to in_series
  get_snapshots_for_project_by_series order s limit db =
      limit_to limit (order (filter (in_series s) db.snapshots))

  activity_of : CoverageSnapshot R → Project R → ActivityEntry R
  activity_of s p = record {
    created_at = s.created_at;
    project_id = s.project_id;
    project_name = p.name;
    target = s.target;
    commit_sha = s.commit_sha;
    line_rate = s.line_rate;
    branch_rate = s.branch_rate;
    lines_covered = s.lines_covered;
    lines_total = s.lines_total;
  }

  -- `JOIN projects p ON s.project_id = p.id`, where the identifier is a key
  unfoldable pub join_projects : Tables R → List (CoverageSnapshot R) → List (ActivityEntry R)
  unfolding find_project activity_of
  join_projects db [] = []
  join_projects db (s ∷ ss) = elim (find_project s.project_id db.projects) [
    | none ↦ join_projects db ss
    | some p ↦ activity_of s p ∷ join_projects db ss
  ]

  unfoldable pub get_recent_activity : Order R → ℤ → Tables R → List (ActivityEntry R)
  unfolding limit_to join_projects
  get_recent_activity order limit db = limit_to limit (join_projects db (order db.snapshots))

  unfoldable pub get_project_activity : Order R → Text → ℤ → Tables R → List (ActivityEntry R)
  unfolding limit_to join_projects of_project
  get_project_activity order project_id limit db =
      limit_to limit (join_projects db (order (filter (of_project project_id) db.snapshots)))

  -- `ORDER BY created_at DESC`, with the stable order of rows that SQL leaves open as it stands
  unfoldable pub list_api_keys : Option Text → Tables R → List ApiKey
  unfolding sort is_text
  list_api_keys scope db =
      sort (λ a b. leb b.created_at a.created_at)
        (filter
          (λ k. elim scope [
            | none ↦ elim k.project_id [ none ↦ true | some p ↦ false ]
            | some p ↦ is_text p k.project_id
          ])
          db.api_keys)

  -- The size of the file comes from outside.
  unfoldable pub get_health_stats : Order R → ℤ → Tables R → HealthStats
  unfolding first_row
  get_health_stats order db_size_bytes db = record {
    project_count = pos (length db.projects);
    snapshot_count = pos (length db.snapshots);
    last_ingest = elim (first_row (order db.snapshots)) [
      | none ↦ none
      | some s ↦ some s.created_at
    ];
    db_size_bytes = db_size_bytes;
  }
