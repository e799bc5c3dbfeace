-- ===== src/Server/Settings/Own.antt =====
-- About the routes of settings: what a request for one project leaves of the others.
use omnivore.Prelude.{
  ℕ, ◌≡◌, refl, sym, ap, ◌∙◌, Bool, true, false, not, Option, some, inl, inr, List, [], ◌∷◌, ◌++◌,
  map,
}
use omnivore.Prelude.Tests.{if◌then◌else◌, Bool-cases}
use omnivore.Prelude.Lists.{take}
use omnivore.Prelude.Count.{filter}
use omnivore.Text.Base.{Text, text_eq, text_eq_refl, trim, is_empty}
use omnivore.Float.{F64}
use omnivore.Model.Snapshot.{CoverageSnapshot}
use omnivore.Storage.Records.{ApiKey, Project, Tables, DbResult, done, failed, constraint}
use omnivore.Storage.Tables.{
  is_text, update_where, update_project_thresholds, update_project_tags, update_project_ratchet,
  delete_project,
}
use omnivore.Storage.Keys.{create_api_key}
use omnivore.Server.Answer.{Answer-cases}
use omnivore.Server.Csrf.{Jar, verify}
use omnivore.Server.Login.{Site, App, Guard, passed, to_login, denied, require_project_write}
use omnivore.Server.Settings.{
  Outer, Response, ProjectAction, save_thresholds, save_tags, save_ratchet, delete, create_key,
  delete_key, run_project, with_token, behind, project_route, create_key_named, key_result,
}

-- What the tables hold that is not of a project: other projects, their snapshots, and the keys that
-- are not scoped to it.
pub record Elsewhere (R : Type 0) : Type 0 where
  pub projects : List (Project R)
  pub snapshots : List (CoverageSnapshot R)
  pub api_keys : List ApiKey

abbrev pub elsewhere : {R : Type 0} → Text → Tables R → Elsewhere R
elsewhere id db = record {
  projects = filter (λ p. not (text_eq p.id id)) db.projects;
  snapshots = filter (λ s. not (text_eq s.project_id id)) db.snapshots;
  api_keys = filter (λ k. not (is_text id k.project_id)) db.api_keys;
}

-- every action but the deletion of a key, which names the key by itself
abbrev pub IsOwn : ProjectAction → Type 0
IsOwn (delete_key key_id) = ⊥
IsOwn _ = Unit

filter_idem : {A : Type 0} (p : A → Bool) (xs : List A) → filter p (filter p xs) ≡ filter p xs
filter_idem p [] = refl
filter_idem p (x ∷ xs) = elim (Bool-cases (p x)) [
  | inl e ↦ rw e (rw e (ap (λ ys. x ∷ ys) (filter_idem p xs)))
  | inr e ↦ rw e (filter_idem p xs)
]

filter-append_skip :
    {A : Type 0} (p : A → Bool) (xs : List A) (x : A)
    → p x ≡ false
    → filter p (xs ++ x ∷ []) ≡ filter p xs
filter-append_skip p [] x h = rw h refl
filter-append_skip p (y ∷ ys) x h = elim (Bool-cases (p y)) [
  | inl e ↦ rw e (ap (λ zs. y ∷ zs) (filter-append_skip p ys x h))
  | inr e ↦ rw e (filter-append_skip p ys x h)
]

-- an update of the rows of one project, which keeps their identifier
filter-update :
    {R : Type 0} (id : Text) (f : Project R → Project R) (ps : List (Project R))
    → ((p : Project R) → (f p).id ≡ p.id)
    → filter (λ p. not (text_eq p.id id)) (map (λ p. if text_eq p.id id then f p else p) ps)
      ≡ filter (λ p. not (text_eq p.id id)) ps
filter-update id f [] h = refl
filter-update id f (p ∷ ps) h = elim (Bool-cases (text_eq p.id id)) [
  | inl e ↦ rw e (rw (h p) (rw e (filter-update id f ps h)))
  | inr e ↦ rw e (rw e (ap (λ qs. p ∷ qs) (filter-update id f ps h)))
]

module _ {R : Type 0} ⦃f64 : F64 R⦄ where
  same_but_projects :
      (id : Text) (f : Project R → Project R) (db : Tables R)
      → ((p : Project R) → (f p).id ≡ p.id)
      → elsewhere id (update_where id f db) ≡ elsewhere id db
  unfolding update_where
  same_but_projects id f db h =
      ap
        (λ ps. record {
          projects = ps;
          snapshots = (elsewhere id db).snapshots;
          api_keys = (elsewhere id db).api_keys;
        })
        (filter-update id f db.projects h)

  append_key-elsewhere :
      (id : Text) (db : Tables R) (key : ApiKey)
      → is_text id key.project_id ≡ true
      → elsewhere id (record db { api_keys = db.api_keys ++ key ∷ [] }) ≡ elsewhere id db
  append_key-elsewhere id db key h =
      ap
        (λ ks. record {
          projects = (elsewhere id db).projects;
          snapshots = (elsewhere id db).snapshots;
          api_keys = ks;
        })
        (filter-append_skip (λ k. not (is_text id k.project_id)) db.api_keys key (rw h refl))

  key_result-elsewhere :
      (out : Outer R) (id : Text) (db : Tables R) (r : DbResult (Tables R))
      → ((db' : Tables R) → r ≡ done db' → elsewhere id db' ≡ elsewhere id db)
      → elsewhere id (key_result out db r).1 ≡ elsewhere id db
  unfolding key_result
  key_result-elsewhere out id db (failed e) h = refl
  key_result-elsewhere out id db (done db') h = h db' refl

  if-done :
      (b : Bool) (x db' : Tables R) → (if b then failed constraint else done x) ≡ done db' → x ≡ db'
  if-done true x db' h = cc
  if-done false x db' h = cc

  create_api_key-elsewhere :
      (key_id hash prefix name id : Text) (now : ℕ) (db db' : Tables R)
      → create_api_key key_id hash prefix name (some id) now db ≡ done db'
      → elsewhere id db' ≡ elsewhere id db
  unfolding create_api_key is_text
  create_api_key-elsewhere key_id hash prefix name id now db db' h =
      ap (elsewhere id) (sym (if-done _ _ db' h)) ∙ append_key-elsewhere id db _ (text_eq_refl id)

  create_key_named-elsewhere :
      (out : Outer R) (name id : Text) (db : Tables R)
      → elsewhere id (create_key_named out name (some id) db).1 ≡ elsewhere id db
  unfolding create_key_named
  create_key_named-elsewhere out name id db = elim (Bool-cases (is_empty (trim name))) [
    | inl e ↦ rw e refl
    | inr e ↦ rw e (
        key_result-elsewhere out id db _ (
          create_api_key-elsewhere out.new_id (out.hash_key out.raw_key) (take 8 out.raw_key)
            (trim name) id out.now db))
  ]

  delete_project-elsewhere :
      (id : Text) (db : Tables R) → elsewhere id (delete_project id db) ≡ elsewhere id db
  unfolding delete_project
  delete_project-elsewhere id db = λ i. record {
    projects = filter_idem (λ p. not (text_eq p.id id)) db.projects i;
    snapshots = filter_idem (λ s. not (text_eq s.project_id id)) db.snapshots i;
    api_keys = filter_idem (λ k. not (is_text id k.project_id)) db.api_keys i;
  }

  run_project-elsewhere :
      (out : Outer R) (id : Text) (action : ProjectAction) (db : Tables R)
      → IsOwn action
      → elsewhere id (run_project out id action db).1 ≡ elsewhere id db
  unfolding run_project update_project_thresholds update_project_tags update_project_ratchet
  run_project-elsewhere out id (save_thresholds t) db h = same_but_projects id _ db (λ p. refl)
  run_project-elsewhere out id (save_tags t) db h = same_but_projects id _ db (λ p. refl)
  run_project-elsewhere out id (save_ratchet t) db h = same_but_projects id _ db (λ p. refl)
  run_project-elsewhere out id delete db h = delete_project-elsewhere id db
  run_project-elsewhere out id (create_key name) db h = create_key_named-elsewhere out name id db
  run_project-elsewhere out id (delete_key k) db h = absurd h

  with_token-elsewhere :
      (site : Site) (jar : Jar) (id : Text) (token : Option Text)
      (handler : Tables R → Response × Tables R) (db : Tables R)
      → elsewhere id (handler db).1 ≡ elsewhere id db
      → elsewhere id (with_token site jar token handler db).1 ≡ elsewhere id db
  unfolding with_token
  with_token-elsewhere site jar id token handler db h =
      elim (Answer-cases (verify site.signing jar token)) [
        | inl (s, e) ↦ rw (e, with_token) refl
        | inr (x, e) ↦ rw (e, with_token) h
      ]

  behind-elsewhere :
      (id : Text) (guard : Guard) (handler : Tables R → Response × Tables R) (db : Tables R)
      → elsewhere id (handler db).1 ≡ elsewhere id db
      → elsewhere id (behind guard handler db).1 ≡ elsewhere id db
  unfolding behind
  behind-elsewhere id (passed u) handler db h = h
  behind-elsewhere id to_login handler db h = refl
  behind-elsewhere id denied handler db h = refl

  -- A request to a route of a project that is not the deletion of a key leaves the other projects,
  -- their snapshots and the keys that are not scoped to the project as they are.
  pub project_route-elsewhere :
      (site : Site) (out : Outer R) (jar : Jar) (id : Text) (token : Option Text)
      (action : ProjectAction) (app : App R)
      → IsOwn action
      → elsewhere id (project_route site out jar id token action app).1.tables
        ≡ elsewhere id app.tables
  unfolding project_route
  project_route-elsewhere site out jar id token action app own =
      behind-elsewhere id (require_project_write site jar id out.now app).0
        (with_token site jar token (run_project out id action)) app.tables
        (with_token-elsewhere site jar id token (run_project out id action) app.tables
          (run_project-elsewhere out id action app.tables own))
