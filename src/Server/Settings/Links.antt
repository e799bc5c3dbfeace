-- ===== src/Server/Settings/Links.antt =====
-- About the forms of the settings: the repositories that projects are linked to.
use omnivore.Prelude.{◌≡◌, refl, sym, Bool, true, false, Option, none, some, List, inl, inr}
use mathlib.Core.Path.{subst}
use omnivore.Prelude.Tests.{if◌then◌else◌, Bool-cases}
use omnivore.Prelude.Count.{All-filter}
use omnivore.Text.Base.{Text, is_empty, trim}
use omnivore.Float.{F64}
use omnivore.Storage.Records.{Tables, done, failed, constraint, ApiKey}
use omnivore.Storage.Tables.{
  delete_project, update_where, update_project_thresholds, update_project_tags,
  update_project_ratchet, update_global_settings,
}
use omnivore.Storage.Keys.{create_api_key, delete_api_key}
use omnivore.Storage.Ingest.Links.{HasLinks, update-HasLinks}
use omnivore.Server.Answer.{Answer-cases}
use omnivore.Server.Csrf.{Jar, verify}
use omnivore.Server.Login.{
  Site, App, Guard, passed, to_login, denied, require_project_write, require_admin,
}
use omnivore.Server.Settings.{
  Outer, Response, ProjectAction, save_thresholds, save_tags, save_ratchet, delete, create_key,
  delete_key, AdminAction, save_settings, create_global_key, delete_global_key, key_result,
  create_key_named, run_project, run_admin, with_token, behind, project_route, admin_route,
}

module _ {R : Type 0} ⦃f64 : F64 R⦄ where
  key_result-projects :
      (out : Outer R) (b : Bool) (db : Tables R) (keys : List ApiKey)
      → (key_result out db
          (if b then failed constraint else done (record db { api_keys = keys }))).1.projects
        ≡ db.projects
  unfolding key_result
  key_result-projects out true db keys = refl
  key_result-projects out false db keys = refl

  create_key-projects :
      (out : Outer R) (name : Text) (scope : Option Text) (db : Tables R)
      → (create_key_named out name scope db).1.projects ≡ db.projects
  unfolding create_key_named create_api_key
  create_key-projects out name scope db = elim (Bool-cases (is_empty (trim name))) [
    | inl e ↦ rw e refl
    | inr e ↦ rw e (key_result-projects out _ db _)
  ]

  run_project-HasLinks :
      (out : Outer R) (id : Text) (action : ProjectAction) (db : Tables R)
      → HasLinks db.projects
      → HasLinks (run_project out id action db).1.projects
  unfolding run_project update_project_thresholds update_project_tags update_project_ratchet
      update_where delete_project delete_api_key
  run_project-HasLinks out id (save_thresholds t) db h =
      update-HasLinks id _ db.projects (λ p k. k) h
  run_project-HasLinks out id (save_tags t) db h = update-HasLinks id _ db.projects (λ p k. k) h
  run_project-HasLinks out id (save_ratchet t) db h = update-HasLinks id _ db.projects (λ p k. k) h
  run_project-HasLinks out id delete db h = All-filter (λ x q e. q) db.projects h
  run_project-HasLinks out id (create_key name) db h =
      subst HasLinks (sym (create_key-projects out name (some id) db)) h
  run_project-HasLinks out id (delete_key k) db h = h

  run_admin-HasLinks :
      (out : Outer R) (action : AdminAction) (db : Tables R)
      → HasLinks db.projects
      → HasLinks (run_admin out action db).1.projects
  unfolding run_admin update_global_settings delete_api_key
  run_admin-HasLinks out (save_settings form) db h = h
  run_admin-HasLinks out (create_global_key name) db h =
      subst HasLinks (sym (create_key-projects out name none db)) h
  run_admin-HasLinks out (delete_global_key k) db h = h

  guarded-HasLinks :
      (site : Site) (jar : Jar) (token : Option Text) (guard : Guard)
      (handler : Tables R → Response × Tables R) (db : Tables R)
      → HasLinks db.projects
      → HasLinks (handler db).1.projects
      → HasLinks (behind guard (with_token site jar token handler) db).1.projects
  unfolding behind with_token
  guarded-HasLinks site jar token (passed u) handler db h k =
      elim (Answer-cases (verify site.signing jar token)) [
        | inl (s, e) ↦ rw (e, with_token) h
        | inr (x, e) ↦ rw (e, with_token) k
      ]
  guarded-HasLinks site jar token to_login handler db h k = h
  guarded-HasLinks site jar token denied handler db h k = h

  pub project_route-HasLinks :
      (site : Site) (out : Outer R) (jar : Jar) (id : Text) (token : Option Text)
      (action : ProjectAction) (app : App R)
      → HasLinks app.tables.projects
      → HasLinks (project_route site out jar id token action app).1.tables.projects
  unfolding project_route
  project_route-HasLinks site out jar id token action app h =
      guarded-HasLinks site jar token (require_project_write site jar id out.now app).0
        (run_project out id action) app.tables h (run_project-HasLinks out id action app.tables h)

  pub admin_route-HasLinks :
      (site : Site) (out : Outer R) (jar : Jar) (token : Option Text) (action : AdminAction)
      (app : App R)
      → HasLinks app.tables.projects
      → HasLinks (admin_route site out jar token action app).1.tables.projects
  unfolding admin_route
  admin_route-HasLinks site out jar token action app h =
      guarded-HasLinks site jar token (require_admin site jar out.now app.sessions)
        (run_admin out action) app.tables h (run_admin-HasLinks out action app.tables h)
