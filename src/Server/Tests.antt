-- ===== src/Server/Tests.antt =====
-- The routes at concrete inputs.
use omnivore.Prelude.{◌≡◌, refl, [], ◌∷◌, arith, List}
use Prim.Native.Nat.{min}
use omnivore.Prelude.{ℕ, none, some, false, ◌⊎◌}
use omnivore.Prelude.Int.{pos}
use omnivore.Text.Base.{Text}
use omnivore.Model.Snapshot.{CoverageSnapshot}
use omnivore.Storage.Records.{ApiKey, Tables}
use omnivore.Server.ApiAuth.{api_key_required, authenticate_write}
use omnivore.Server.ApiAuth.Decides.{IsKey, authenticate_write-answered}
use omnivore.Server.Series.{Pair}
use omnivore.Text.Base.{codes, text_eq}
use omnivore.Server.RateLimit.{bucket_of}
use omnivore.Server.RateLimit.Throttle.{Request, asked, accepted, accepted-window}

-- a request of a client
abbrev first : Request
first = record { now = 5; client = codes "ci" }

abbrev others : List Request
others =
    record { now = 6; client = codes "ci" }
    ∷ record { now = 7; client = codes "cj" }
    ∷ record { now = 8; client = codes "ci" }
    ∷ []

accepted-window_example :
    accepted 2 (codes "ci") (first ∷ others) [] ≡ min (asked (codes "ci") (first ∷ others)) 2
unfolding text_eq bucket_of
accepted-window_example =
    accepted-window 2 (codes "ci") first others [] (omega arith) (omega arith) refl refl
      (omega arith, (omega arith, (omega arith, tt))) (omega arith)

abbrev key : ApiKey
key = record {
  id = codes "k";
  name = codes "CI";
  key_prefix = codes "omni_123";
  key_hash = codes "#secret";
  project_id = some (codes "p");
  created_at = 1;
  last_used_at = none;
}

abbrev row : Text → Text → CoverageSnapshot ℕ
row id source = record {
  id = id;
  project_id = codes "p";
  commit_sha = none;
  branch = none;
  target = codes "JVM_UNIT";
  source = source;
  line_rate = 0;
  branch_rate = 0;
  lines_covered = pos 0;
  lines_total = pos 0;
  branches_covered = pos 0;
  branches_total = pos 0;
  file_count = pos 0;
  created_at = 1;
  files_json = none;
  dependencies_json = none;
}

abbrev tables : Tables ℕ
tables = record {
  projects = [];
  snapshots = row (codes "a") (codes "kover") ∷ row (codes "b") (codes "jacoco") ∷ [];
  api_keys = key ∷ [];
  settings = none;
}

-- a hash that marks its text
abbrev hash_key : Text → Text
hash_key s = b'#' ∷ s

authenticate_write-answered_example :
    ((some key ≡ none) × (api_key_required none ≡ false) × (tables.api_keys ≡ []))
    ⊎ IsKey hash_key (some (codes "secret")) tables.api_keys (some key)
unfolding authenticate_write
authenticate_write-answered_example =
    authenticate_write-answered hash_key none (some (codes "secret")) 9 tables (some key) refl

abbrev kover : Pair
kover = (codes "JVM_UNIT", codes "kover")
