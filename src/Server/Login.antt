-- ===== src/Server/Login.antt =====
-- Sessions and the guards of crates/omnivore-server/src/routes/auth.rs. The environment and what
-- GitHub answers are arguments. The database answers every lookup.
pub mod Write
use omnivore.Prelude.{ℕ, Bool, true, false, not, ◌&&◌, ◌||◌, Option, none, some, List, [], ◌∷◌, map}
use omnivore.Prelude.Tests.{if◌then◌else◌}
use omnivore.Text.Base.{
  Text, codes, text_eq, trim, is_empty, eq_ignore_ascii_case, to_ascii_lower, any, contains,
  starts_with, trim_start,
}
use omnivore.Text.Split.{split}
use omnivore.Storage.Records.{Project, Tables}
use omnivore.Storage.Tables.{get_project}
use omnivore.Storage.Caches.{
  Session, CachedPermission, get_session, delete_session, get_cached_permission, cache_permission,
}
use omnivore.Server.ApiAuth.{is_on}
use omnivore.Server.Csrf.{Jar, Signing}

pub record AuthUser : Type 0 where
  pub username : Text
  pub github_token : Text
  pub avatar_url : Option Text

pub record Site : Type 0 where
  -- the configuration of OAuth and the secrets for the tokens of forms
  pub signing : Signing
  -- `OMNIVORE_ADMIN_USERS`, `OMNIVORE_GITHUB_ORG`, `OMNIVORE_REQUIRE_LOGIN_TO_VIEW`
  pub admin_users : Option Text
  pub github_org : Option Text
  pub require_login : Option Text
  pub cookie_secure_var : Option Text
  pub dashboard_url : Option Text
  pub decrypt : Text → Option Text
  -- what GitHub says of a token's user: the permission on a repository, and the ownership of an
  -- organization
  pub fetch_repo_permission : Text → Text → Text → Option Text
  pub check_org_owner : Text → Text → Text → Bool

pub record App (R : Type 0) : Type 0 where
  pub tables : Tables R
  pub sessions : List Session
  pub permissions : List CachedPermission

-- the values that say yes
says_yes : Text → Bool
unfolding is_on trim to_ascii_lower
says_yes v = is_on (map to_ascii_lower (trim v))

-- `OMNIVORE_COOKIE_SECURE`, else whether the dashboard is reached by HTTPS
unfoldable pub cookie_secure : Option Text → Option Text → Bool
unfolding says_yes is_empty trim starts_with trim_start
cookie_secure none none = false
cookie_secure none (some url) = starts_with (codes "https://") (trim_start url)
cookie_secure (some v) url = elim (not (is_empty (trim v))) [
  | true ↦ says_yes v
  | false ↦ elim url [ none ↦ false | some u ↦ starts_with (codes "https://") (trim_start u) ]
]

user_of : Session → AuthUser
user_of s = record {
  username = s.github_username;
  github_token = s.github_token;
  avatar_url = s.avatar_url;
}

unfoldable pub extract_user : Site → Jar → ℕ → List Session → Option AuthUser
unfolding get_session user_of
extract_user site jar now sessions = elim jar.session [
  | none ↦ none
  | some id ↦ elim (get_session site.decrypt id now sessions) [
    | none ↦ none
    | some s ↦ some (user_of s)
  ]
]

-- The session of the cookie is deleted, and the cookie is removed.
unfoldable pub logout : Jar → List Session → Jar × List Session
unfolding delete_session
logout jar sessions = (
  record jar { session = none },
  elim jar.session [ none ↦ sessions | some id ↦ delete_session id sessions ],
)

fetched : Site → AuthUser → Text → Text
fetched site user repo = elim (site.fetch_repo_permission user.github_token user.username repo) [
  | none ↦ codes "none"
  | some p ↦ p
]

-- The permission, and the cache that it is kept in.
unfoldable pub check_repo_permission :
    Site → AuthUser → Text → ℕ → List CachedPermission → Text × List CachedPermission
unfolding get_cached_permission cache_permission fetched
check_repo_permission site user repo now rows =
    elim (get_cached_permission user.username repo now rows) [
      | some cached ↦ (cached, rows)
      | none ↦ (
        fetched site user repo,
        cache_permission user.username repo (fetched site user repo) now rows,
      )
    ]

-- an environment variable that says something
unfoldable pub filled : Option Text → Option Text
unfolding is_empty trim
filled none = none
filled (some v) = if is_empty (trim v) then none else some v

is_listed : Text → Text → Bool
unfolding any split trim is_empty eq_ignore_ascii_case
is_listed list username =
    any (λ name. not (is_empty (trim name)) && eq_ignore_ascii_case (trim name) username)
      (split b',' list)

-- Named in the list where there is one, else an owner of the organization, else nobody.
unfoldable pub is_dashboard_admin : Site → AuthUser → Bool
unfolding filled is_listed trim
is_dashboard_admin site user = elim (filled site.admin_users) [
  | some list ↦ is_listed list user.username
  | none ↦ elim (filled site.github_org) [
    | some org ↦ site.check_org_owner user.github_token user.username (trim org)
    | none ↦ false
  ]
]

-- How a guard answers: it lets a request pass, sends the client to log in, or denies it.
pub data Guard : Type 0 where
  passed : Option AuthUser → Guard
  to_login : Guard
  denied : Guard

unfoldable pub require_login : Site → Jar → ℕ → List Session → Guard
unfolding extract_user
require_login site jar now sessions =
    if not site.signing.oauth
    then passed none
    else elim (extract_user site jar now sessions) [ none ↦ to_login | some u ↦ passed (some u) ]

unfoldable pub require_admin : Site → Jar → ℕ → List Session → Guard
unfolding extract_user is_dashboard_admin
require_admin site jar now sessions =
    if not site.signing.oauth then passed none else elim (extract_user site jar now sessions) [
      | none ↦ to_login
      | some u ↦ if is_dashboard_admin site u then passed (some u) else denied
    ]

-- the permissions that allow writing
unfoldable pub may_push : Text → Bool
unfolding text_eq
may_push p = text_eq p (codes "admin") || text_eq p (codes "maintain") || text_eq p (codes "write")

-- the repository that a project is linked to
unfoldable pub linked_repo : {R : Type 0} → Option (Project R) → Option Text
unfolding is_empty
linked_repo none = none
linked_repo (some p) = elim p.github_repo [
  | none ↦ none
  | some repo ↦ if is_empty repo then none else some repo
]

by_permission :
    Site → AuthUser → ℕ → List CachedPermission → Option Text → Guard × List CachedPermission
unfolding check_repo_permission may_push
by_permission site user now rows none = (denied, rows)
by_permission site user now rows (some repo) =
    let (perm, rows') = check_repo_permission site user repo now rows in
    (if may_push perm then passed (some user) else denied, rows')

module _ {R : Type 0} where
  -- what is asked of a user who is logged in
  user_may_write : Site → AuthUser → Text → ℕ → App R → Guard × List CachedPermission
  unfolding is_dashboard_admin by_permission linked_repo get_project
  user_may_write site user project_id now app =
      if is_dashboard_admin site user
      then (passed (some user), app.permissions)
      else by_permission site user now app.permissions
          (linked_repo (get_project project_id app.tables))

  unfoldable pub require_project_write :
      Site → Jar → Text → ℕ → App R → Guard × List CachedPermission
  unfolding extract_user user_may_write
  require_project_write site jar project_id now app =
      if not site.signing.oauth
      then (passed none, app.permissions)
      else elim (extract_user site jar now app.sessions) [
        | none ↦ (to_login, app.permissions)
        | some u ↦ user_may_write site u project_id now app
      ]

-- how `require_login_to_view_middleware` answers
pub data ViewGuard : Type 0 where
  view : ViewGuard
  view_login : ViewGuard
  view_unauthorized : ViewGuard

require_login_to_view : Option Text → Bool
unfolding says_yes
require_login_to_view none = says_yes []
require_login_to_view (some v) = says_yes v

unfoldable pub require_login_to_view_middleware :
    Site → Jar → Option Text → ℕ → List Session → ViewGuard
unfolding require_login_to_view extract_user contains
require_login_to_view_middleware site jar accept now sessions =
    if not (require_login_to_view site.require_login) || not site.signing.oauth
    then view
    else elim (extract_user site jar now sessions) [
      | some u ↦ view
      | none ↦ elim accept [
        | none ↦ view_unauthorized
        | some a ↦ if contains (codes "text/html") a then view_login else view_unauthorized
      ]
    ]
