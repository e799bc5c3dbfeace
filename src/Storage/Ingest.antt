-- ===== src/Storage/Ingest.antt =====
-- `ingest_snapshot`: the project, the snapshot, the ratchet and the pruning, in this order. Each
-- statement is committed on its own, so what was done before an error stays.
pub mod Floors
pub mod Valid
pub mod Links
pub mod Outcome
use omnivore.Prelude.{ℕ, Bool, true, false, not, Option, none, some, List, [], ◌∷◌}
use omnivore.Prelude.Tests.{if◌then◌else◌}
use omnivore.Text.Base.{Text}
use omnivore.Float.{F64}
use omnivore.Model.Snapshot.{CoverageSnapshot, unwrap_or}
use omnivore.Storage.Records.{
  DbError, protocol, DbResult, done, failed, CreateProject, Project, Tables,
}
use omnivore.Storage.Tables.{get_project, create_project, insert_snapshot}
use omnivore.Storage.Ratchet.{RatchetPolicy, RatchetResult, check_ratchet}
use omnivore.Storage.Retention.{Order, prune_snapshots}

-- What a `Database` holds beside its pool.
pub record Config : Type 0 where
  pub allow_project_autocreate : Bool
  pub ratchet : RatchetPolicy

module _ {R : Type 0} where
  -- the project that is created for an identifier that was not seen before
  unfoldable pub new_project : CoverageSnapshot R → Option Text → CreateProject R
  unfolding unwrap_or
  new_project snapshot project_name = record {
    id = snapshot.project_id;
    name = unwrap_or project_name snapshot.project_id;
    description = none;
    github_repo = none;
    source_root = none;
    line_threshold = none;
    branch_threshold = none;
    line_warn_threshold = none;
    branch_warn_threshold = none;
  }

  ensure_found :
      Config
      → CoverageSnapshot R
      → Option Text
      → ℕ
      → Tables R
      → Option (Project R)
      → DbResult (Tables R)
  unfolding new_project create_project
  ensure_found config snapshot project_name now db (some p) = done db
  ensure_found config snapshot project_name now db none =
      if not config.allow_project_autocreate
      then failed protocol
      else create_project (new_project snapshot project_name) now db

  unfoldable pub ensure_project :
      Config → CoverageSnapshot R → Option Text → ℕ → Tables R → DbResult (Tables R)
  unfolding ensure_found get_project
  ensure_project config snapshot project_name now db =
      ensure_found config snapshot project_name now db (get_project snapshot.project_id db)

module _ {R : Type 0} ⦃f64 : F64 R⦄ where
  -- once the snapshot is stored
  finish :
      Order R → Config → CoverageSnapshot R → ℕ → Tables R → DbResult (RatchetResult R) × Tables R
  unfolding check_ratchet prune_snapshots
  finish order config snapshot now db =
      let (result, checked) = check_ratchet config.ratchet snapshot now db in
      (
        done result,
        prune_snapshots order
            (record {
              project_id = snapshot.project_id;
              target = snapshot.target;
              source = snapshot.source;
            })
            checked,
      )

  store :
      Order R
      → Config
      → CoverageSnapshot R
      → ℕ
      → Tables R
      → DbResult (Tables R)
      → DbResult (RatchetResult R) × Tables R
  unfolding finish
  store order config snapshot now db (failed e) = (failed e, db)
  store order config snapshot now db (done stored) = finish order config snapshot now stored

  ensured :
      Order R
      → Config
      → CoverageSnapshot R
      → ℕ
      → Tables R
      → DbResult (Tables R)
      → DbResult (RatchetResult R) × Tables R
  unfolding store insert_snapshot
  ensured order config snapshot now db (failed e) = (failed e, db)
  ensured order config snapshot now db (done db') =
      store order config snapshot now db' (insert_snapshot snapshot db')

  unfoldable pub ingest_snapshot :
      Order R
      → Config
      → CoverageSnapshot R
      → Option Text
      → ℕ
      → Tables R
      → DbResult (RatchetResult R) × Tables R
  unfolding ensured ensure_project
  ingest_snapshot order config snapshot project_name now db =
      ensured order config snapshot now db (ensure_project config snapshot project_name now db)
