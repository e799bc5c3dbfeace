-- ===== src/Server/Settings/Permitted.antt =====
-- About the routes of settings: what a request that changes anything has shown.
use omnivore.Prelude.{ℕ, ◌≡◌, ◌⊎◌, refl, ◌∙◌, false, Option, some, inl, inr}
use omnivore.Text.Base.{Text}
use omnivore.Float.{F64}
use omnivore.Storage.Records.{Tables}
use omnivore.Server.Answer.{answered, Answer-cases}
use omnivore.Server.Csrf.{Jar, verify}
use omnivore.Server.Csrf.Pairs.{verify_iff, IsPair}
use omnivore.Server.Login.{
  AuthUser, Site, App, Guard, passed, to_login, denied, require_project_write, extract_user,
}
use omnivore.Server.Login.Write.{CanWrite, require_project_write-passed}
use omnivore.Server.Settings.{
  Outer, Response, ProjectAction, run_project, with_token, behind, project_route,
}

-- What a request for a project has shown: a live session of a user who can write to the project, and
-- a token that the server signed, in its cookie and in its form.
abbrev pub Permitted : {R : Type 0} → Site → Jar → Text → Option Text → ℕ → App R → Type 0
Permitted site jar id token now app =
    (site.signing.oauth ≡ false)
    ⊎ ((user : AuthUser) × (extract_user site jar now app.sessions ≡ some user)
        × CanWrite site user id now app
        × IsPair site.signing jar.csrf token)

both_guards :
    {R : Type 0} (site : Site) (jar : Jar) (id : Text) (token : Option Text) (now : ℕ) (app : App R)
    → (site.signing.oauth ≡ false)
      ⊎ ((user : AuthUser) × (extract_user site jar now app.sessions ≡ some user)
          × CanWrite site user id now app)
    → (site.signing.oauth ≡ false) ⊎ IsPair site.signing jar.csrf token
    → Permitted site jar id token now app
both_guards site jar id token now app (inl e) q = inl e
both_guards site jar id token now app (inr (u, s, w)) (inl e) = inl e
both_guards site jar id token now app (inr (u, s, w)) (inr p) = inr (u, s, w, p)

module _ {R : Type 0} ⦃f64 : F64 R⦄ where
  with_token-changes :
      (site : Site) (jar : Jar) (token : Option Text) (handler : Tables R → Response × Tables R)
      (db : Tables R)
      → ((with_token site jar token handler db).1 ≡ db)
        ⊎ (verify site.signing jar token ≡ answered tt)
  unfolding with_token
  with_token-changes site jar token handler db =
      elim (Answer-cases (verify site.signing jar token)) [
        | inl (s, e) ↦ inl (rw (e, with_token) refl)
        | inr (x, e) ↦ inr e
      ]

  behind-changes :
      (guard : Guard) (handler : Tables R → Response × Tables R) (db : Tables R)
      → ((behind guard handler db).1 ≡ db)
        ⊎ ((u : Option AuthUser) × (guard ≡ passed u)
            × ((behind guard handler db).1 ≡ (handler db).1))
  unfolding behind
  behind-changes (passed u) handler db = inr (u, refl, refl)
  behind-changes to_login handler db = inl refl
  behind-changes denied handler db = inl refl

  -- A request to a route of a project changes projects, snapshots, keys or settings only where OAuth
  -- is not configured, or where the request has a live session of a user who can write to that
  -- project and a token that the server signed, in its cookie and in its form.
  pub project_route-Permitted :
      (site : Site) (out : Outer R) (jar : Jar) (id : Text) (token : Option Text)
      (action : ProjectAction) (app : App R)
      → ((project_route site out jar id token action app).1.tables ≡ app.tables)
        ⊎ Permitted site jar id token out.now app
  unfolding project_route
  project_route-Permitted site out jar id token action app =
      let guard = (require_project_write site jar id out.now app).0 in
      let handler = with_token site jar token (run_project out id action) in
      elim (behind-changes guard handler app.tables) [
        | inl e ↦ inl e
        | inr (u, g, r) ↦
            elim (with_token-changes site jar token (run_project out id action) app.tables) [
              | inl e ↦ inl (r ∙ e)
              | inr v ↦ inr (
                  both_guards site jar id token out.now app
                    (require_project_write-passed site jar id out.now app u g)
                    ((verify_iff site.signing jar token).0 v))
            ]
      ]
