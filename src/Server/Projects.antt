-- ===== src/Server/Projects.antt =====
-- crates/omnivore-server/src/routes/projects.rs. The request's body is decoded; the environment, the
-- header with a key and the clock are arguments.
pub mod Links
mod Tests
use omnivore.Prelude.{ℕ, Option, none, some, List}
use omnivore.Prelude.Tests.{if◌then◌else◌}
use omnivore.Text.Base.{Text, is_empty, trim}
use omnivore.Validation.{is_valid_repo_slug}
use omnivore.Storage.Records.{ApiKey, Project, CreateProject, Tables, DbResult, done, failed}
use omnivore.Storage.Tables.{create_project as insert_project, get_project, update_project_settings}
use omnivore.Server.Answer.{Status, bad_request, not_found, conflict, Answer, refused, answered}
use omnivore.Server.ApiAuth.{authenticate_write, enforce_project_scope}

pub record UpdateProject : Type 0 where
  pub github_repo : Option Text
  pub source_root : Option Text

-- what an API request brings beside its body
pub record Caller : Type 0 where
  pub hash_key : Text → Text
  pub require_api_key : Option Text
  pub x_api_key : Option Text
  pub now : ℕ

-- No repository, a blank one, or one that is a slug.
unfoldable pub validate_repo_field : Option Text → Answer (Unit {0})
unfolding is_empty trim is_valid_repo_slug
validate_repo_field none = answered tt
validate_repo_field (some r) =
    if is_empty (trim r)
    then answered tt
    else if is_valid_repo_slug r
    then answered tt
    else refused bad_request

-- `?` after the check of the scope, and after the check of the key
in_scope : Answer (Unit {0}) → Option Text → Answer (Unit {0})
unfolding validate_repo_field
in_scope (refused s) github_repo = refused s
in_scope (answered _) github_repo = validate_repo_field github_repo

with_key : Answer (Option ApiKey) → Text → Option Text → Answer (Unit {0})
unfolding in_scope enforce_project_scope
with_key (refused s) project_id github_repo = refused s
with_key (answered key) project_id github_repo =
    in_scope (enforce_project_scope key project_id) github_repo

module _ {R : Type 0} where
  -- the checks before a handler's statement: the key, its scope, and the repository
  permitted : Caller → Text → Option Text → Tables R → Answer (Unit {0}) × Tables R
  unfolding authenticate_write with_key
  permitted caller project_id github_repo db =
      let (auth, db') =
        authenticate_write caller.hash_key caller.require_api_key caller.x_api_key caller.now db in
      (with_key auth project_id github_repo, db')

  created : DbResult (Tables R) → Tables R → Answer (Unit {0}) × Tables R
  created (failed e) db = (refused conflict, db)
  created (done db') db = (answered tt, db')

  after_create :
      Caller → CreateProject R → Answer (Unit {0}) × Tables R → Answer (Unit {0}) × Tables R
  unfolding created insert_project
  after_create caller input (refused s, db) = (refused s, db)
  after_create caller input (answered _, db) = created (insert_project input caller.now db) db

  -- `create_project`; the answer shows the project that was stored
  unfoldable pub create_project : Caller → CreateProject R → Tables R → Answer (Unit {0}) × Tables R
  unfolding after_create permitted
  create_project caller input db =
      after_create caller input (permitted caller input.id input.github_repo db)

  or_not_found : Option (Project R) → Answer (Project R)
  or_not_found none = refused not_found
  or_not_found (some p) = answered p

  after_update :
      Caller → Text → UpdateProject → Answer (Unit {0}) × Tables R → Answer (Project R) × Tables R
  unfolding or_not_found update_project_settings get_project
  after_update caller project_id input (refused s, db) = (refused s, db)
  after_update caller project_id input (answered _, db) =
      let db' =
        update_project_settings project_id input.github_repo input.source_root caller.now db in
      (or_not_found (get_project project_id db'), db')

  unfoldable pub update_project :
      Caller → Text → UpdateProject → Tables R → Answer (Project R) × Tables R
  unfolding after_update permitted
  update_project caller project_id input db =
      after_update caller project_id input (permitted caller project_id input.github_repo db)
