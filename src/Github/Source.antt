-- ===== src/Github/Source.antt =====
-- `fetch_source` of crates/omnivore-core/src/github/source.rs.
pub mod Confined
use omnivore.Prelude.{Bool, false, not, ◌||◌, Option, none, some, ◌∷◌, ◌++◌}
use omnivore.Prelude.Tests.{if◌then◌else◌}
use omnivore.Text.Base.{Text, codes}
use omnivore.Model.Snapshot.{unwrap_or}
use omnivore.Validation.{is_valid_repo_slug, is_safe_repo_path, is_valid_git_ref}

unfoldable pub raw_host : Text
raw_host = codes "https://raw.githubusercontent.com/"

-- `format!("https://raw.githubusercontent.com/{}/{}/{}", …)`
unfoldable pub raw_url : Text → Text → Text → Text
raw_url repo git_ref path = raw_host ++ (repo ++ b'/' ∷ (git_ref ++ b'/' ∷ path))

-- a ref that is given and not valid
unfoldable pub bad_ref : Option Text → Bool
bad_ref none = false
bad_ref (some sha) = not (is_valid_git_ref sha)

-- the URL that is requested, `none` where the function returns before the request
unfoldable pub fetch_url : Text → Text → Option Text → Option Text
unfolding raw_url bad_ref unwrap_or
fetch_url github_repo file_path commit_sha =
    if not (is_valid_repo_slug github_repo) || not (is_safe_repo_path file_path)
    then none
    else if bad_ref commit_sha
    then none
    else some (raw_url github_repo (unwrap_or commit_sha (codes "HEAD")) file_path)

-- The request: a URL and a token, and the body of a successful response.
abbrev pub Send : Type 0
Send = Text → Option Text → Option Text

unfoldable pub fetch_source : Send → Text → Text → Option Text → Option Text → Option Text
unfolding fetch_url
fetch_source send github_repo file_path commit_sha github_token =
    elim (fetch_url github_repo file_path commit_sha) [
      | none ↦ none
      | some url ↦ send url github_token
    ]
