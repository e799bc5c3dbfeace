-- ===== src/Server/Oauth.antt =====
-- The login with GitHub of crates/omnivore-server/src/routes/auth.rs. The environment, fresh
-- identifiers, the cipher for tokens, the clock and what GitHub answers are arguments; the parameters
-- of the address that a browser is sent to are a record.
pub mod Callback
use omnivore.Prelude.{ℕ, Bool, true, false, not, ◌||◌, Option, none, some, List, [], ◌∷◌, ◌++◌, map}
use omnivore.Prelude.Tests.{if◌then◌else◌, ◌==◌}
use omnivore.Text.Base.{Text, codes, is_empty, is_whitespace}
use omnivore.Text.Split.{split, nonempty_parts}
use omnivore.Text.Bytes.{constant_time_eq}
use omnivore.Model.Snapshot.{unwrap_or, nonempty}
use omnivore.Storage.Caches.{Session, create_session, prune_expired_sessions}
use omnivore.Server.Answer.{Status, bad_request, bad_gateway, Answer, refused, answered}
use omnivore.Server.Csrf.{Jar}

pub record OauthConfig : Type 0 where
  pub client_id : Text
  pub client_secret : Text

-- `GITHUB_CLIENT_ID` and `GITHUB_CLIENT_SECRET`
unfoldable pub from_env : Option Text → Option Text → Option OauthConfig
unfolding is_empty
from_env none secret = none
from_env (some id) none = none
from_env (some id) (some secret) =
    if is_empty id || is_empty secret
    then none
    else some (record { client_id = id; client_secret = secret })

-- `parts.join(",")`
join_scopes : List Text → Text
join_scopes [] = []
join_scopes (p ∷ []) = p
join_scopes (p ∷ (q ∷ ps)) = p ++ b',' ∷ join_scopes (q ∷ ps)

-- a comma for white space, so that one split does for both
comma_for : ℕ → ℕ
unfolding is_whitespace
comma_for c = if is_whitespace c then b',' else c

-- `OMNIVORE_GITHUB_SCOPES`, else the default
unfoldable pub oauth_scopes : Option Text → Text
unfolding join_scopes nonempty_parts split comma_for nonempty
oauth_scopes none = codes "read:user,read:org"
oauth_scopes (some s) =
    unwrap_or (nonempty (some (join_scopes (nonempty_parts (split b',' (map comma_for s))))))
      (codes "read:user,read:org")

-- the query of `https://github.com/login/oauth/authorize`
pub record Authorize : Type 0 where
  pub client_id : Text
  pub scope : Text
  pub state : Text

unfoldable pub login : OauthConfig → Option Text → Text → Jar → Jar × Authorize
unfolding oauth_scopes
login config scopes state jar = (
  record jar { oauth_state = some state },
  record { client_id = config.client_id; scope = oauth_scopes scopes; state = state },
)

pub record CallbackParams : Type 0 where
  pub code : Text
  pub state : Option Text

pub record GithubUser : Type 0 where
  pub login : Text
  pub avatar_url : Option Text

-- What GitHub answers, if it does: the token for a code, and the user of a token.
pub record Github : Type 0 where
  pub exchange : OauthConfig → Text → Option Text
  pub user : Text → Option GithubUser

-- what a session is made with
pub record Fresh : Type 0 where
  pub session_id : Text
  pub encrypt : Text → Text
  pub now : ℕ

-- once the user is known
sign_in : Fresh → Text → GithubUser → Jar → List Session → Answer Jar × List Session
unfolding create_session prune_expired_sessions
sign_in fresh token user jar sessions =
    let (session, rows) =
      create_session fresh.encrypt fresh.session_id user.login token user.avatar_url fresh.now
        sessions in
    (
      answered (record jar { session = some session.id; oauth_state = none }),
      prune_expired_sessions fresh.now rows,
    )

with_user : Fresh → Text → Option GithubUser → Jar → List Session → Answer Jar × List Session
unfolding sign_in
with_user fresh token none jar sessions = (refused bad_gateway, sessions)
with_user fresh token (some user) jar sessions = sign_in fresh token user jar sessions

exchanged : Fresh → Github → Option Text → Jar → List Session → Answer Jar × List Session
unfolding with_user
exchanged fresh github none jar sessions = (refused bad_gateway, sessions)
exchanged fresh github (some token) jar sessions =
    with_user fresh token (github.user token) jar sessions

-- The jar that is answered goes back to the browser; a refusal carries no cookies.
unfoldable pub callback :
    OauthConfig → Fresh → Github → CallbackParams → Jar → List Session → Answer Jar × List Session
unfolding constant_time_eq exchanged unwrap_or
callback config fresh github params jar sessions = elim jar.oauth_state [
  | none ↦ (refused bad_request, sessions)
  | some expected ↦
      if not (constant_time_eq expected (unwrap_or params.state []))
      then (refused bad_request, sessions)
      else exchanged fresh github (github.exchange config params.code) jar sessions
]
