-- ===== src/Storage/Keys.antt =====
-- The operations of storage/db.rs on API keys.
use omnivore.Prelude.{ℕ, Bool, true, not, ◌||◌, Option, none, some, List, [], ◌∷◌, ◌++◌, map}
use omnivore.Prelude.Tests.{ltb, if◌then◌else◌}
use omnivore.Prelude.Lists.{length}
use omnivore.Prelude.Count.{filter}
use omnivore.Text.Base.{Text, text_eq, any}
use omnivore.Storage.Records.{constraint, DbResult, done, failed, Project, ApiKey, Tables}
use omnivore.Storage.Tables.{has_project}

unfoldable pub has_key : ApiKey → List ApiKey → Bool
unfolding any text_eq
has_key key keys = any (λ k. text_eq k.id key.id || text_eq k.key_hash key.key_hash) keys

unfoldable pub find_key : Text → List ApiKey → Option ApiKey
unfolding text_eq
find_key hash [] = none
find_key hash (k ∷ ks) = if text_eq k.key_hash hash then some k else find_key hash ks

-- `UPDATE api_keys SET last_used_at = ? WHERE id = ?`, where a key was found
unfoldable pub touch : Option ApiKey → ℕ → List ApiKey → List ApiKey
unfolding text_eq
touch none now keys = keys
touch (some key) now keys =
    map (λ k. if text_eq k.id key.id then record k { last_used_at = some now } else k) keys

module _ {R : Type 0} where
  -- a project that a key is scoped to is there
  unfoldable pub scope_exists : Option Text → List (Project R) → Bool
  unfolding has_project
  scope_exists none ps = true
  scope_exists (some id) ps = has_project id ps

  -- The identifier, the raw key and the hash come from outside.
  unfoldable pub create_api_key :
      Text → Text → Text → Text → Option Text → ℕ → Tables R → DbResult (Tables R)
  unfolding has_key scope_exists
  create_api_key id key_hash key_prefix name project_id now db =
      let key : ApiKey = record {
        id = id;
        name = name;
        key_prefix = key_prefix;
        key_hash = key_hash;
        project_id = project_id;
        created_at = now;
        last_used_at = none;
      } in
      if has_key key db.api_keys || not (scope_exists project_id db.projects)
      then failed constraint
      else done (record db { api_keys = db.api_keys ++ key ∷ [] })

  unfoldable pub delete_api_key : Text → Tables R → Tables R
  unfolding text_eq
  delete_api_key id db = record db { api_keys = filter (λ k. not (text_eq k.id id)) db.api_keys }

  unfoldable pub validate_api_key : (Text → Text) → Text → ℕ → Tables R → Option ApiKey × Tables R
  unfolding find_key touch
  validate_api_key hash_key raw_key now db =
      let key = find_key (hash_key raw_key) db.api_keys in
      (key, record db { api_keys = touch key now db.api_keys })

  unfoldable pub any_api_keys_exist : Tables R → Bool
  any_api_keys_exist db = ltb 0 (length db.api_keys)
