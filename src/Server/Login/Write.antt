-- ===== src/Server/Login/Write.antt =====
-- About `require_project_write`: who passes.
use omnivore.Prelude.{
  ℕ, ◌≡◌, ◌⊎◌, refl, sym, ◌∙◌, true, false, Option, none, some, inl, inr, List, arith,
}
use omnivore.Prelude.Tests.{Bool-cases, Option-cases}
use omnivore.Text.Base.{Text}
use omnivore.Storage.Tables.{get_project}
use omnivore.Storage.Caches.{CachedPermission}
use omnivore.Server.Csrf.{Jar}
use omnivore.Server.Login.{
  AuthUser, Site, App, passed, require_project_write, extract_user, is_dashboard_admin, linked_repo,
  check_repo_permission, may_push, by_permission, user_may_write,
}

-- An admin of the dashboard, or a user who may push to the repository that the project is linked to.
abbrev pub CanWrite : {R : Type 0} → Site → AuthUser → Text → ℕ → App R → Type 0
CanWrite site user id now app =
    (is_dashboard_admin site user ≡ true)
    ⊎ ((repo : Text) × (linked_repo (get_project id app.tables) ≡ some repo)
        × (may_push (check_repo_permission site user repo now app.permissions).0 ≡ true))

by_permission-passed :
    (site : Site) (user : AuthUser) (now : ℕ) (rows : List CachedPermission) (linked : Option Text)
    (u : Option AuthUser)
    → (by_permission site user now rows linked).0 ≡ passed u
    → (repo : Text) × (linked ≡ some repo)
      × (may_push (check_repo_permission site user repo now rows).0 ≡ true)
unfolding by_permission
by_permission-passed site user now rows none u h = cc
by_permission-passed site user now rows (some repo) u h =
    elim (Bool-cases (may_push (check_repo_permission site user repo now rows).0)) [
      | inl e ↦ (repo, refl, e)
      | inr e ↦ absurd (ground (arith, h, e))
    ]

module _ {R : Type 0} where
  user_may_write-passed :
      (site : Site) (user : AuthUser) (id : Text) (now : ℕ) (app : App R) (u : Option AuthUser)
      → (user_may_write site user id now app).0 ≡ passed u
      → CanWrite site user id now app
  unfolding user_may_write
  user_may_write-passed site user id now app u h =
      elim (Bool-cases (is_dashboard_admin site user)) [
        | inl e ↦ inl e
        | inr e ↦ inr (
            by_permission-passed site user now app.permissions
              (linked_repo (get_project id app.tables)) u (sym (rw e refl) ∙ h))
      ]

  pub require_project_write-passed :
      (site : Site) (jar : Jar) (id : Text) (now : ℕ) (app : App R) (u : Option AuthUser)
      → (require_project_write site jar id now app).0 ≡ passed u
      → (site.signing.oauth ≡ false)
        ⊎ ((user : AuthUser) × (extract_user site jar now app.sessions ≡ some user)
            × CanWrite site user id now app)
  unfolding require_project_write
  require_project_write-passed site jar id now app u h = elim (Bool-cases site.signing.oauth) [
    | inr e ↦ inl e
    | inl e ↦ elim (Option-cases (extract_user site jar now app.sessions)) [
      | inl q ↦ absurd (ground (arith, h, e, q))
      | inr (user, q) ↦
          inr (user, q, user_may_write-passed site user id now app u (ground (arith, h, e, q)))
    ]
  ]
