-- ===== src/Server/Settings/AnyKey.antt =====
-- About `delete_project_api_key`: the route asks for access to the project that it names, and deletes
-- the key that it names.
use omnivore.Prelude.{◌≡◌, ◌≢◌, refl, ap, ◌∙◌, not, Option, List, [], ◌∷◌, ◌++◌, arith}
use omnivore.Prelude.Count.{filter}
use omnivore.Text.Base.{Text, text_eq, text_eq_refl, text_eq_iff, All}
use omnivore.Float.{F64}
use omnivore.Storage.Records.{ApiKey}
use omnivore.Storage.Keys.{delete_api_key}
use omnivore.Server.Answer.{answered}
use omnivore.Server.Csrf.{Jar, verify}
use omnivore.Server.Login.{AuthUser, Site, App, passed, require_project_write}
use omnivore.Server.Settings.{Outer, delete_key, run_project, with_token, behind, project_route}

without_others :
    (key_id : Text) (ks : List ApiKey)
    → All (λ k. k.id ≢ key_id) ks
    → filter (λ k. not (text_eq k.id key_id)) ks ≡ ks
without_others key_id [] h = refl
without_others key_id (k ∷ ks) (n, h) =
    ground (arith, text_eq_iff k.id key_id, without_others key_id ks h)

without_key :
    (k : ApiKey) (xs ys : List ApiKey)
    → All (λ j. j.id ≢ k.id) xs
    → All (λ j. j.id ≢ k.id) ys
    → filter (λ j. not (text_eq j.id k.id)) (xs ++ k ∷ ys) ≡ xs ++ ys
without_key k [] ys h l = rw (text_eq_refl k.id) (without_others k.id ys l)
without_key k (x ∷ xs) ys (n, h) l = ground (arith, text_eq_iff x.id k.id, without_key k xs ys h l)

module _ {R : Type 0} ⦃f64 : F64 R⦄ where
  routed :
      (site : Site) (out : Outer R) (jar : Jar) (id : Text) (token : Option Text) (key_id : Text)
      (app : App R) (u : Option AuthUser)
      → (require_project_write site jar id out.now app).0 ≡ passed u
      → verify site.signing jar token ≡ answered tt
      → (project_route site out jar id token (delete_key key_id) app).1.tables
        ≡ delete_api_key key_id app.tables
  unfolding project_route behind with_token run_project
  routed site out jar id token key_id app u g v =
      let handler = with_token site jar token (run_project out id (delete_key key_id)) in
      ap (λ guard. (behind guard handler app.tables).1) g ∙ rw (v, with_token) refl

  -- A request that passes the guard of one project, with a valid token, deletes the key that it
  -- names, be it a key of that project, of another one or of none, and changes nothing else in the
  -- tables. Keys have different identifiers.
  pub project_route-deletes_any :
      (site : Site) (out : Outer R) (jar : Jar) (id : Text) (token : Option Text) (k : ApiKey)
      (xs ys : List ApiKey) (app : App R) (u : Option AuthUser)
      → (require_project_write site jar id out.now app).0 ≡ passed u
      → verify site.signing jar token ≡ answered tt
      → app.tables.api_keys ≡ xs ++ k ∷ ys
      → All (λ j. j.id ≢ k.id) xs
      → All (λ j. j.id ≢ k.id) ys
      → (project_route site out jar id token (delete_key k.id) app).1.tables
        ≡ record app.tables { api_keys = xs ++ ys }
  unfolding delete_api_key
  project_route-deletes_any site out jar id token k xs ys app u g v e h l =
      routed site out jar id token k.id app u g v
      ∙ ap (λ ks. record app.tables { api_keys = ks })
          (ap (λ ks. filter (λ j. not (text_eq j.id k.id)) ks) e ∙ without_key k xs ys h l)
