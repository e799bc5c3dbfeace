-- ===== src/Storage/Tables.antt =====
-- The operations of storage/db.rs on projects, snapshots and settings. A statement fails where it
-- breaks a primary key, a uniqueness constraint or a foreign key.
use omnivore.Prelude.{ℕ, Bool, false, not, ◌||◌, Option, none, some, List, [], ◌∷◌, ◌++◌, map}
use omnivore.Prelude.Tests.{if◌then◌else◌}
use omnivore.Prelude.Count.{filter}
use omnivore.Prelude.Int.{pos}
use omnivore.Text.Base.{Text, text_eq, any}
use omnivore.Float.{F64}
use omnivore.Model.Snapshot.{CoverageSnapshot}
use omnivore.Storage.Records.{
  constraint, DbResult, done, failed, Project, CreateProject, GlobalSettings, Tables,
}

-- a value of a nullable column is this text
unfoldable pub is_text : Text → Option Text → Bool
unfolding text_eq
is_text s none = false
is_text s (some t) = text_eq t s

-- `COALESCE(?, column)`
unfoldable pub coalesce {ℓ} : {A : Type ℓ} → Option A → Option A → Option A
coalesce none b = b
coalesce (some a) b = some a

module _ {R : Type 0} where
  unfoldable pub has_project : Text → List (Project R) → Bool
  unfolding any text_eq
  has_project id ps = any (λ p. text_eq p.id id) ps

  -- `WHERE id = ?`
  unfoldable pub find_project : Text → List (Project R) → Option (Project R)
  unfolding text_eq
  find_project id [] = none
  find_project id (p ∷ ps) = if text_eq p.id id then some p else find_project id ps

  unfoldable pub get_project : Text → Tables R → Option (Project R)
  unfolding find_project
  get_project id db = find_project id db.projects

  -- the row that is inserted
  unfoldable pub project_row : CreateProject R → ℕ → Project R
  project_row input now = record {
    id = input.id;
    name = input.name;
    description = input.description;
    github_repo = input.github_repo;
    source_root = input.source_root;
    line_threshold = input.line_threshold;
    branch_threshold = input.branch_threshold;
    line_warn_threshold = input.line_warn_threshold;
    branch_warn_threshold = input.branch_warn_threshold;
    tags = none;
    ratchet_enabled = false;
    ratchet_line_floor = none;
    ratchet_branch_floor = none;
    created_at = now;
    updated_at = now;
  }

  unfoldable pub create_project : CreateProject R → ℕ → Tables R → DbResult (Tables R)
  unfolding has_project project_row
  create_project input now db =
      if has_project input.id db.projects
      then failed constraint
      else done (record db { projects = db.projects ++ project_row input now ∷ [] })

  -- `UPDATE projects SET … WHERE id = ?`
  unfoldable pub update_where : Text → (Project R → Project R) → Tables R → Tables R
  unfolding text_eq
  update_where id f db = record db {
    projects = map (λ p. if text_eq p.id id then f p else p) db.projects;
  }

  unfoldable pub update_project_settings :
      Text → Option Text → Option Text → ℕ → Tables R → Tables R
  unfolding update_where coalesce
  update_project_settings id github_repo source_root now db =
      update_where id
        (λ p. record p {
          github_repo = coalesce github_repo p.github_repo;
          source_root = coalesce source_root p.source_root;
          updated_at = now;
        })
        db

  unfoldable pub update_project_thresholds :
      Text → Option R → Option R → Option R → Option R → ℕ → Tables R → Tables R
  unfolding update_where
  update_project_thresholds id line branch line_warn branch_warn now db =
      update_where id
        (λ p. record p {
          line_threshold = line;
          branch_threshold = branch;
          line_warn_threshold = line_warn;
          branch_warn_threshold = branch_warn;
          updated_at = now;
        })
        db

  unfoldable pub update_project_tags : Text → Option Text → ℕ → Tables R → Tables R
  unfolding update_where
  update_project_tags id tags now db =
      update_where id (λ p. record p { tags = tags; updated_at = now }) db

  unfoldable pub update_project_ratchet :
      Text → Bool → Option R → Option R → ℕ → Tables R → Tables R
  unfolding update_where
  update_project_ratchet id enabled line_floor branch_floor now db =
      update_where id
        (λ p. record p {
          ratchet_enabled = enabled;
          ratchet_line_floor = line_floor;
          ratchet_branch_floor = branch_floor;
          updated_at = now;
        })
        db

  -- The three statements of the transaction. No snapshot and no key is left that refers to the
  -- project when its own row goes.
  unfoldable pub delete_project : Text → Tables R → Tables R
  unfolding text_eq is_text
  delete_project id db = record db {
    snapshots = filter (λ s. not (text_eq s.project_id id)) db.snapshots;
    api_keys = filter (λ k. not (is_text id k.project_id)) db.api_keys;
    projects = filter (λ p. not (text_eq p.id id)) db.projects;
  }

  unfoldable pub has_snapshot : Text → List (CoverageSnapshot R) → Bool
  unfolding any text_eq
  has_snapshot id rows = any (λ s. text_eq s.id id) rows

  unfoldable pub insert_snapshot : CoverageSnapshot R → Tables R → DbResult (Tables R)
  unfolding has_snapshot has_project
  insert_snapshot snapshot db =
      if has_snapshot snapshot.id db.snapshots || not (has_project snapshot.project_id db.projects)
      then failed constraint
      else done (record db { snapshots = db.snapshots ++ snapshot ∷ [] })

module _ {R : Type 0} ⦃f64 : F64 R⦄ where
  abbrev pub default_settings : GlobalSettings R
  default_settings = record {
    default_line_threshold = f64.tenths 8;
    default_branch_threshold = f64.tenths 8;
    default_line_warn_threshold = f64.tenths 5;
    default_branch_warn_threshold = f64.tenths 5;
    retention_full = pos 30;
    retention_summary = pos 60;
  }

  unfoldable pub get_global_settings : Tables R → GlobalSettings R
  get_global_settings db = elim db.settings [ none ↦ default_settings | some s ↦ s ]

  unfoldable pub update_global_settings : GlobalSettings R → Tables R → Tables R
  update_global_settings settings db = record db {
    settings = elim db.settings [ none ↦ none | some s ↦ some settings ];
  }
