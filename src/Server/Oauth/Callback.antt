-- ===== src/Server/Oauth/Callback.antt =====
-- About the callback of the login: who is logged in, and what a refusal leaves.
use omnivore.Prelude.{◌≡◌, ◌≢◌, ◌⊎◌, none, some, List, []}
use omnivore.Text.Base.{Text}
use omnivore.Model.Snapshot.{unwrap_or}
use omnivore.Storage.Caches.{Session}
use omnivore.Server.Answer.{Status, bad_request, bad_gateway, Answer, refused, answered}
use omnivore.Server.Csrf.{Jar}
use omnivore.Server.Login.{AuthUser, Site, extract_user}
use omnivore.Server.Oauth.{OauthConfig, CallbackParams, GithubUser, Github, Fresh}

-- The login of a user of GitHub with a token.
abbrev pub IsUser : AuthUser → Text → GithubUser → Type 0
IsUser u token g = (u.username ≡ g.login) × (u.github_token ≡ token) × (u.avatar_url ≡ g.avatar_url)

-- what has led to an answer: the browser brought the state that its login had stored, GitHub gave a
-- token for the code and named its user, who is logged in for the cookies of the answer
abbrev pub IsSignedIn :
    OauthConfig → Fresh → Github → CallbackParams → Jar → Site → Jar → List Session → Type 0
IsSignedIn config fresh github params jar site jar' rows =
    (jar.oauth_state ≡ some (unwrap_or params.state []))
    × (jar'.oauth_state ≡ none)
    × ((token : Text) × (g : GithubUser) × (u : AuthUser) × (github.exchange config params.code
          ≡ some token)
        × (github.user token ≡ some g)
        × (extract_user site jar' fresh.now rows ≡ some u)
        × IsUser u token g)

-- what has led to a refusal: the browser did not bring the state, or it did and GitHub gave no token
-- for the code, or gave one and did not name its user
abbrev pub IsRefused : OauthConfig → Github → CallbackParams → Jar → Status → Type 0
IsRefused config github params jar s =
    ((s ≡ bad_request) × (jar.oauth_state ≢ some (unwrap_or params.state [])))
    ⊎ ((s ≡ bad_gateway)
        × (jar.oauth_state ≡ some (unwrap_or params.state []))
        × ((github.exchange config params.code ≡ none)
            ⊎ ((token : Text) × (github.exchange config params.code ≡ some token)
                × (github.user token ≡ none))))

abbrev pub Outcome :
    OauthConfig
    → Fresh
    → Github
    → CallbackParams
    → Jar
    → List Session
    → Site
    → Answer Jar × List Session
    → Type 0
Outcome config fresh github params jar sessions site (refused s, rows) =
    (rows ≡ sessions) × IsRefused config github params jar s
Outcome config fresh github params jar sessions site (answered jar', rows) =
    IsSignedIn config fresh github params jar site jar' rows
