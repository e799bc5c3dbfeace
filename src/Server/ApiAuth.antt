-- ===== src/Server/ApiAuth.antt =====
-- crates/omnivore-server/src/routes/api_auth.rs. The database answers every lookup.
pub mod Decides
use omnivore.Prelude.{ℕ, Bool, true, false, not, ◌&&◌, ◌||◌, Option, none, some, List, [], ◌∷◌, map}
use omnivore.Prelude.Tests.{if◌then◌else◌}
use omnivore.Text.Base.{Text, codes, text_eq, trim, to_ascii_lower, any}
use omnivore.Storage.Records.{ApiKey, Tables}
use omnivore.Storage.Keys.{any_api_keys_exist, validate_api_key}
use omnivore.Server.Answer.{Status, unauthorized, forbidden, Answer, refused, answered}

-- the values that switch the requirement on
unfoldable pub is_on : Text → Bool
unfolding any text_eq
is_on v = any (λ t. text_eq v t) (codes "1" ∷ codes "true" ∷ codes "yes" ∷ codes "on" ∷ [])

-- `OMNIVORE_REQUIRE_API_KEY`; without it the text is empty
unfoldable pub api_key_required : Option Text → Bool
unfolding is_on trim to_ascii_lower
api_key_required none = is_on []
api_key_required (some v) = is_on (map to_ascii_lower (trim v))

module _ {R : Type 0} where
  -- the key that was found, which is required
  validated : Option ApiKey × Tables R → Answer (Option ApiKey) × Tables R
  validated (none, db) = (refused unauthorized, db)
  validated (some key, db) = (answered (some key), db)

  with_header : (Text → Text) → Option Text → ℕ → Tables R → Answer (Option ApiKey) × Tables R
  unfolding validated validate_api_key
  with_header hash_key none now db = (refused unauthorized, db)
  with_header hash_key (some raw_key) now db = validated (validate_api_key hash_key raw_key now db)

  -- The hash of keys, the environment variable and the header `X-API-Key`, where it is text, come
  -- from outside.
  unfoldable pub authenticate_write :
      (Text → Text) → Option Text → Option Text → ℕ → Tables R → Answer (Option ApiKey) × Tables R
  unfolding with_header api_key_required any_api_keys_exist
  authenticate_write hash_key require_key header now db =
      if not (api_key_required require_key || any_api_keys_exist db)
      then (answered none, db)
      else with_header hash_key header now db

-- the project that a key is scoped to
pub scope_of : Option ApiKey → Option Text
scope_of none = none
scope_of (some key) = key.project_id

allowed_in : Option Text → Text → Answer (Unit {0})
unfolding text_eq
allowed_in none project_id = answered tt
allowed_in (some scoped_to) project_id =
    if text_eq scoped_to project_id then answered tt else refused forbidden

unfoldable pub enforce_project_scope : Option ApiKey → Text → Answer (Unit {0})
unfolding scope_of allowed_in
enforce_project_scope key project_id = allowed_in (scope_of key) project_id
