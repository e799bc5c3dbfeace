-- ===== src/Server/Settings/Tests.antt =====
-- The forms of the settings, their tokens, the login and the sweep of the caches at concrete inputs.
use omnivore.Prelude.{
  ℕ, ◌≡◌, ◌⊎◌, ◌↔◌, refl, Bool, true, false, Option, none, some, List, [], ◌∷◌, arith,
}
use omnivore.Text.Base.{Text, codes, any}
use omnivore.Crypto.{token_of, encrypt, decrypt}
use omnivore.Crypto.Tests.{small, nonce, secret}
use omnivore.Float.{millionths}
use omnivore.Storage.Records.{Project, ApiKey}
use omnivore.Storage.Caches.{Session}
use omnivore.Server.Answer.{answered}
use omnivore.Server.Csrf.{Jar, Signing, verify, mint}
use omnivore.Server.Csrf.Pairs.{IsPair, verify_iff}
use omnivore.Server.Login.{AuthUser, Site, App, passed, require_project_write}
use omnivore.Server.Settings.{Outer, save_tags, delete_key, project_route}
use omnivore.Server.Settings.Permitted.{Permitted, project_route-Permitted}
use omnivore.Server.Settings.Own.{elsewhere, project_route-elsewhere}
use omnivore.Server.Settings.AnyKey.{project_route-deletes_any}
use omnivore.Server.Oauth.{OauthConfig, CallbackParams, Github, Fresh}
use omnivore.Server.Maintenance.{Caches, Succeeds, spawn}
use omnivore.Server.Maintenance.Serves.{ServesAs, IsSwept, spawn-ServesAs, spawn-IsSwept}

abbrev signing : Bool → Signing
signing oauth = record {
  oauth = oauth;
  secret_key = some (codes "k");
  process_key = [];
  digest = λ s. s;
}

-- OAuth is configured or not, and GitHub lets every user write
abbrev pub site : Bool → Site
site oauth = record {
  signing = signing oauth;
  admin_users = none;
  github_org = none;
  require_login = none;
  cookie_secure_var = none;
  dashboard_url = none;
  decrypt = λ s. some s;
  fetch_repo_permission = λ token user repo. some (codes "write");
  check_org_owner = λ token user org. false;
}

abbrev outer : Outer ℕ
outer = record {
  parse_f64 = λ s. none;
  new_id = codes "k2";
  raw_key = codes "omni_0123";
  hash_key = λ s. s;
  now = 10;
}

abbrev pub project : Text → Project ℕ
project id = record {
  id = id;
  name = id;
  description = none;
  github_repo = some (codes "o/n");
  source_root = none;
  line_threshold = none;
  branch_threshold = none;
  line_warn_threshold = none;
  branch_warn_threshold = none;
  tags = none;
  ratchet_enabled = false;
  ratchet_line_floor = none;
  ratchet_branch_floor = none;
  created_at = 1;
  updated_at = 1;
}

abbrev key : Text → Option Text → ApiKey
key id project_id = record {
  id = id;
  name = codes "CI";
  key_prefix = codes "omni_012";
  key_hash = id;
  project_id = project_id;
  created_at = 1;
  last_used_at = none;
}

abbrev user : AuthUser
user = record { username = codes "u"; github_token = codes "t"; avatar_url = none }

abbrev pub session : Session
session = record {
  id = codes "s";
  github_username = codes "u";
  github_token = codes "t";
  avatar_url = none;
  created_at = 1;
  expires_at = 100;
}

abbrev app : App ℕ
app = record {
  tables = record {
    projects = project (codes "p") ∷ project (codes "q") ∷ [];
    snapshots = [];
    api_keys = key (codes "k0") (some (codes "p")) ∷ key (codes "k1") (some (codes "q")) ∷ [];
    settings = none;
  };
  sessions = session ∷ [];
  permissions = [];
}

abbrev token : Text
token = mint (signing true) (codes "r")

abbrev pub jar : Jar
jar = record { session = some (codes "s"); csrf = some token; oauth_state = none }

abbrev pub empty_jar : Jar
empty_jar = record { session = none; csrf = none; oauth_state = none }

project_route-Permitted_example :
    ((project_route (site true) outer jar (codes "p") (some token) (save_tags none) app).1.tables
      ≡ app.tables)
    ⊎ Permitted (site true) jar (codes "p") (some token) 10 app
project_route-Permitted_example =
    project_route-Permitted (site true) outer jar (codes "p") (some token) (save_tags none) app

project_route-elsewhere_example :
    elsewhere
      (codes "p")
      (project_route (site true) outer jar (codes "p") (some token) (save_tags none) app).1.tables
    ≡ elsewhere (codes "p") app.tables
project_route-elsewhere_example =
    project_route-elsewhere (site true) outer jar (codes "p") (some token) (save_tags none) app tt

-- GitHub lets the user of the session write to the repository of the project `p`.
let_write : (require_project_write (site true) jar (codes "p") 10 app).0 ≡ passed (some user)
unfolding require_project_write
let_write = refl

signed : verify (signing true) jar (some token) ≡ answered tt
unfolding verify mint
signed = refl

-- `k1` is a key of the project `q`.
project_route-deletes_any_example :
    (project_route
      (site true)
      outer
      jar
      (codes "p")
      (some token)
      (delete_key (codes "k1"))
      app).1.tables
    ≡ record app.tables { api_keys = key (codes "k0") (some (codes "p")) ∷ [] }
project_route-deletes_any_example =
    project_route-deletes_any (site true) outer jar (codes "p") (some token)
      (key (codes "k1") (some (codes "q"))) (key (codes "k0") (some (codes "p")) ∷ []) [] app
      (some user) let_write signed refl (ground arith) tt

verify_iff_example :
    (verify (signing true) jar (some token) ≡ answered tt)
    ↔ ((◌≡◌ {A = Bool} true false) ⊎ IsPair (signing true) (some token) (some token))
verify_iff_example = verify_iff (signing true) jar (some token)

abbrev caches : Caches
caches = record { sessions = session ∷ []; permissions = []; sources = [] }

abbrev sweeps : List (Succeeds × ℕ)
sweeps =
    (record { sessions = false; permissions = true; sources = true }, 7)
    ∷ (record { sessions = true; permissions = true; sources = false }, 0)
    ∷ []

spawn-ServesAs_example : ServesAs 4_000 (spawn sweeps 0 caches).1 caches
unfolding spawn
spawn-ServesAs_example = spawn-ServesAs sweeps 0 4_000 caches (omega arith)

spawn-IsSwept_example : IsSwept 230 (spawn sweeps 200 caches).1
unfolding any
spawn-IsSwept_example = spawn-IsSwept sweeps 200 caches refl

-- a login that GitHub confirms, with the cipher of the database under the key `ab`
abbrev fresh : Fresh
fresh = record {
  session_id = codes "s2";
  encrypt = encrypt small (some (codes "ab")) nonce;
  now = 10;
}

abbrev sealing : Site
sealing = record (site true) { decrypt = λ s. token_of (decrypt small (some (codes "ab")) s) }

abbrev github : Github
github = record {
  exchange = λ config code. some secret;
  user = λ token. some (record { login = codes "u"; avatar_url = none });
}

abbrev config : OauthConfig
config = record { client_id = codes "id"; client_secret = codes "secret" }

abbrev params : CallbackParams
params = record { code = codes "c"; state = some (codes "x") }

abbrev waiting : Jar
waiting = record { session = none; csrf = none; oauth_state = some (codes "x") }
