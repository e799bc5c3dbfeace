-- ===== src/Server/Projects/Links.antt =====
-- About the whole server: the repositories that projects are linked to, after any requests.
use omnivore.Prelude.{◌≡◌, refl, sym, Option, none, some, List, inl, inr, arith}
use mathlib.Core.Path.{subst}
use omnivore.Prelude.Tests.{Bool-cases}
use omnivore.Text.Base.{Text, is_empty, trim}
use omnivore.Float.{F64}
use omnivore.Validation.{is_valid_repo_slug}
use omnivore.Storage.Records.{CreateProject, Tables, DbResult, done, failed, ApiKey}
use omnivore.Storage.Tables.{create_project as insert_project}
use omnivore.Storage.Ingest.Links.{
  IsLink, HasLinks, DoneLinks, create_project-HasLinks, update_project_settings-HasLinks,
}
use omnivore.Server.Answer.{Answer, refused, answered}
use omnivore.Server.ApiAuth.{enforce_project_scope, authenticate_write}
use omnivore.Server.ApiAuth.Decides.{authenticate_write-SameRows}
use omnivore.Server.Csrf.{Jar}
use omnivore.Server.Login.{Site}
use omnivore.Server.Ingest.{IngestParams, Around, Headers, ingest_coverage}
use omnivore.Server.Ingest.Links.{ingest_coverage-HasLinks}
use omnivore.Storage.Caches.{Session, CachedPermission}
use omnivore.Server.RateLimit.{Buckets}
use omnivore.Server.Settings.{Outer, ProjectAction, AdminAction, project_route, admin_route}
use omnivore.Server.Settings.Links.{project_route-HasLinks, admin_route-HasLinks}
use omnivore.Server.Projects.{
  UpdateProject, Caller, validate_repo_field, in_scope, with_key, permitted, created, after_create,
  create_project, after_update, update_project,
}

validate_repo_field-IsLink :
    (repo : Option Text) → validate_repo_field repo ≡ answered tt → IsLink repo
unfolding validate_repo_field
validate_repo_field-IsLink none h = tt
validate_repo_field-IsLink (some r) h = elim (Bool-cases (is_empty (trim r))) [
  | inl e ↦ inl e
  | inr e ↦ elim (Bool-cases (is_valid_repo_slug r)) [
    | inl q ↦ inr q
    | inr q ↦ absurd (ground (arith, h, e, q))
  ]
]

in_scope-IsLink :
    (u : Answer (Unit {0})) (repo : Option Text) → in_scope u repo ≡ answered tt → IsLink repo
unfolding in_scope
in_scope-IsLink (refused s) repo h = cc
in_scope-IsLink (answered u) repo h = validate_repo_field-IsLink repo h

with_key-IsLink :
    (a : Answer (Option ApiKey)) (id : Text) (repo : Option Text)
    → with_key a id repo ≡ answered tt
    → IsLink repo
unfolding with_key
with_key-IsLink (refused s) id repo h = cc
with_key-IsLink (answered key) id repo h = in_scope-IsLink (enforce_project_scope key id) repo h

module _ {R : Type 0} where
  -- what the checks before a statement leave: its tables, and a link where they pass
  abbrev IsChecked : Option Text → Answer (Unit {0}) × Tables R → Type 0
  IsChecked repo (refused s, db) = HasLinks db.projects
  IsChecked repo (answered u, db) = HasLinks db.projects × IsLink repo

  checked :
      (repo : Option Text) (a : Answer (Unit {0})) (db : Tables R)
      → HasLinks db.projects
      → (a ≡ answered tt → IsLink repo)
      → IsChecked repo (a, db)
  checked repo (refused s) db h k = h
  checked repo (answered u) db h k = (h, k refl)

  permitted-IsChecked :
      (caller : Caller) (id : Text) (repo : Option Text) (db : Tables R)
      → HasLinks db.projects
      → IsChecked repo (permitted caller id repo db)
  unfolding permitted
  permitted-IsChecked caller id repo db h =
      let auth =
        authenticate_write caller.hash_key caller.require_api_key caller.x_api_key caller.now db in
      let same =
        authenticate_write-SameRows caller.hash_key caller.require_api_key caller.x_api_key
          caller.now db in
      checked repo _ auth.1 (subst HasLinks (sym same.0) h) (with_key-IsLink auth.0 id repo)

  created-HasLinks :
      (r : DbResult (Tables R)) (db : Tables R)
      → HasLinks db.projects
      → DoneLinks r
      → HasLinks (created r db).1.projects
  unfolding created
  created-HasLinks (failed e) db h k = h
  created-HasLinks (done db') db h k = k

  after_create-HasLinks :
      (caller : Caller) (input : CreateProject R) (x : Answer (Unit {0}) × Tables R)
      → IsChecked input.github_repo x
      → HasLinks (after_create caller input x).1.projects
  unfolding after_create
  after_create-HasLinks caller input (refused s, db) h = h
  after_create-HasLinks caller input (answered u, db) (h, l) =
      created-HasLinks (insert_project input caller.now db) db h
        (create_project-HasLinks input caller.now db l h)

  after_update-HasLinks :
      (caller : Caller) (id : Text) (input : UpdateProject) (x : Answer (Unit {0}) × Tables R)
      → IsChecked input.github_repo x
      → HasLinks (after_update caller id input x).1.projects
  unfolding after_update
  after_update-HasLinks caller id input (refused s, db) h = h
  after_update-HasLinks caller id input (answered u, db) (h, l) =
      update_project_settings-HasLinks id input.github_repo input.source_root caller.now db l h

-- A request that writes, of any caller, with any environment.
pub data Step {R : Type 0} ⦃f64 : F64 R⦄ : Tables R → Tables R → Type 0 where
  creates :
      (caller : Caller) (input : CreateProject R) (db : Tables R)
      → Step db (create_project caller input db).1
  updates :
      (caller : Caller) (id : Text) (input : UpdateProject) (db : Tables R)
      → Step db (update_project caller id input db).1
  uploads :
      (around : Around R) (headers : Headers) (params : IngestParams) (body : Text)
      (buckets : Buckets) (db : Tables R)
      → Step db
          (ingest_coverage around headers params body
            (record { buckets = buckets; tables = db })).1.tables
  sends_form :
      (site : Site) (out : Outer R) (jar : Jar) (id : Text) (token : Option Text)
      (action : ProjectAction) (sessions : List Session) (permissions : List CachedPermission)
      (db : Tables R)
      → Step db
          (project_route site out jar id token action
            (record { tables = db; sessions = sessions; permissions = permissions })).1.tables
  sends_admin_form :
      (site : Site) (out : Outer R) (jar : Jar) (token : Option Text) (action : AdminAction)
      (sessions : List Session) (permissions : List CachedPermission) (db : Tables R)
      → Step db
          (admin_route site out jar token action
            (record { tables = db; sessions = sessions; permissions = permissions })).1.tables

pub data Reached {R : Type 0} ⦃f64 : F64 R⦄ (start : Tables R) : Tables R → Type 0 where
  here : Reached start start
  next : {db db' : Tables R} → Reached start db → Step db db' → Reached start db'

module _ {R : Type 0} ⦃f64 : F64 R⦄ where
  Step-HasLinks : {db db' : Tables R} → Step db db' → HasLinks db.projects → HasLinks db'.projects
  Step-HasLinks (creates caller input db) h =
      unfold create_project in
      after_create-HasLinks caller input (permitted caller input.id input.github_repo db)
        (permitted-IsChecked caller input.id input.github_repo db h)
  Step-HasLinks (updates caller id input db) h =
      unfold update_project in
      after_update-HasLinks caller id input (permitted caller id input.github_repo db)
        (permitted-IsChecked caller id input.github_repo db h)
  Step-HasLinks (uploads around headers params body buckets db) h =
      ingest_coverage-HasLinks around headers params body _ h
  Step-HasLinks (sends_form site out jar id token action sessions permissions db) h =
      project_route-HasLinks site out jar id token action _ h
  Step-HasLinks (sends_admin_form site out jar token action sessions permissions db) h =
      admin_route-HasLinks site out jar token action _ h

  -- However uploads, requests for projects and forms follow each other: where at the start every
  -- project has no repository, a blank one or a well-formed slug, so has every project afterwards.
  pub Reached-HasLinks :
      {start db : Tables R} → Reached start db → HasLinks start.projects → HasLinks db.projects
  Reached-HasLinks here h = h
  Reached-HasLinks (next r s) h = Step-HasLinks s (Reached-HasLinks r h)
