-- ===== src/Storage/Caches.antt =====
-- Sessions, cached permissions and cached sources. A timestamp is a number of seconds; the text of
-- one orders as the number does.
pub mod Expiry
use omnivore.Prelude.{ℕ, ◌+◌, ◌-◌, Bool, true, false, not, ◌&&◌, Option, none, some, List, [], ◌∷◌}
use omnivore.Prelude.Tests.{ltb, leb, if◌then◌else◌}
use omnivore.Prelude.Count.{filter}
use omnivore.Text.Base.{Text, text_eq, is_empty}

pub record Session : Type 0 where
  pub id : Text
  pub github_username : Text
  pub github_token : Text
  pub avatar_url : Option Text
  pub created_at : ℕ
  pub expires_at : ℕ

abbrev pub seven_days : ℕ
seven_days = 604_800

-- The session that is answered, and the table with its row, whose token is encrypted.
unfoldable pub create_session :
    (Text → Text) → Text → Text → Text → Option Text → ℕ → List Session → Session × List Session
create_session encrypt id github_username github_token avatar_url now rows =
    let session : Session = record {
      id = id;
      github_username = github_username;
      github_token = github_token;
      avatar_url = avatar_url;
      created_at = now;
      expires_at = now + seven_days;
    } in
    (session, record session { github_token = encrypt github_token } ∷ rows)

-- `WHERE id = ? AND expires_at > ?`
unfoldable pub find_session : Text → ℕ → List Session → Option Session
unfolding text_eq
find_session session_id now [] = none
find_session session_id now (s ∷ rows) =
    if text_eq s.id session_id && ltb now s.expires_at
    then some s
    else find_session session_id now rows

unfoldable pub with_token : Session → Option Text → Option Session
with_token s none = none
with_token s (some token) = some (record s { github_token = token })

unfoldable pub decrypted : (Text → Option Text) → Option Session → Option Session
unfolding with_token
decrypted decrypt none = none
decrypted decrypt (some s) = with_token s (decrypt s.github_token)

unfoldable pub get_session : (Text → Option Text) → Text → ℕ → List Session → Option Session
unfolding decrypted find_session
get_session decrypt session_id now rows = decrypted decrypt (find_session session_id now rows)

unfoldable pub delete_session : Text → List Session → List Session
unfolding text_eq
delete_session session_id rows = filter (λ s. not (text_eq s.id session_id)) rows

unfoldable pub prune_expired_sessions : ℕ → List Session → List Session
prune_expired_sessions now rows = filter (λ s. not (leb s.expires_at now)) rows

pub record CachedPermission : Type 0 where
  pub user_id : Text
  pub repo : Text
  pub permission : Text
  pub expires_at : ℕ

abbrev pub five_minutes : ℕ
five_minutes = 300

unfoldable pub same_key : Text → Text → CachedPermission → Bool
unfolding text_eq
same_key user_id repo p = text_eq p.user_id user_id && text_eq p.repo repo

unfoldable pub get_cached_permission : Text → Text → ℕ → List CachedPermission → Option Text
unfolding same_key
get_cached_permission user_id repo now [] = none
get_cached_permission user_id repo now (p ∷ rows) =
    if same_key user_id repo p && ltb now p.expires_at
    then some p.permission
    else get_cached_permission user_id repo now rows

-- `INSERT OR REPLACE`
unfoldable pub cache_permission :
    Text → Text → Text → ℕ → List CachedPermission → List CachedPermission
unfolding same_key
cache_permission user_id repo permission now rows =
    record {
      user_id = user_id;
      repo = repo;
      permission = permission;
      expires_at = now + five_minutes;
    }
    ∷ filter (λ p. not (same_key user_id repo p)) rows

unfoldable pub prune_permission_cache : ℕ → List CachedPermission → List CachedPermission
prune_permission_cache now rows = filter (λ p. not (leb p.expires_at now)) rows

-- a row of the source cache; no commit is the empty text
pub record CachedSource : Type 0 where
  pub repo : Text
  pub path : Text
  pub commit_ref : Text
  pub content : Text
  pub fetched_at : ℕ

abbrev pub floating_source_ttl : ℕ
floating_source_ttl = 3_600

unfoldable pub same_source : Text → Text → Text → CachedSource → Bool
unfolding text_eq
same_source repo path commit_ref row =
    text_eq row.repo repo && text_eq row.path path && text_eq row.commit_ref commit_ref

unfoldable pub find_source : Text → Text → Text → List CachedSource → Option CachedSource
unfolding same_source
find_source repo path commit_ref [] = none
find_source repo path commit_ref (row ∷ rows) =
    if same_source repo path commit_ref row then some row else find_source repo path commit_ref rows

-- pinned to a commit, or fetched less than an hour ago
servable : Text → ℕ → Option CachedSource → Option Text
unfolding is_empty
servable commit_ref now none = none
servable commit_ref now (some row) =
    if not (is_empty commit_ref)
    then some row.content
    else if ltb (now - row.fetched_at) floating_source_ttl
    then some row.content
    else none

unfoldable pub get_cached_source : Text → Text → Text → ℕ → List CachedSource → Option Text
unfolding servable find_source
get_cached_source repo path commit_ref now rows =
    servable commit_ref now (find_source repo path commit_ref rows)

unfoldable pub prune_source_cache : ℕ → List CachedSource → List CachedSource
unfolding is_empty
prune_source_cache now rows =
    filter (λ row. not (is_empty row.commit_ref && ltb (row.fetched_at + floating_source_ttl) now))
      rows

unfoldable pub cache_source : Text → Text → Text → Text → ℕ → List CachedSource → List CachedSource
unfolding same_source
cache_source repo path commit_ref content now rows =
    record {
      repo = repo;
      path = path;
      commit_ref = commit_ref;
      content = content;
      fetched_at = now;
    }
    ∷ filter (λ row. not (same_source repo path commit_ref row)) rows
