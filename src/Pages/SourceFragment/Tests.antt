-- ===== src/Pages/SourceFragment/Tests.antt =====
-- The source of a file, asked for by two users and by nobody.
use omnivore.Prelude.{ℕ, ◌≡◌, refl, true, false, Option, none, some, List, [], ◌∷◌, arith}
use omnivore.Prelude.Int.{pos}
use omnivore.Text.Base.{Text, codes, text_eq}
use omnivore.Model.Report.{FileCoverage}
use omnivore.Model.Snapshot.{CoverageSnapshot}
use omnivore.Storage.Records.{Tables}
use omnivore.Storage.Tables.{get_project}
use omnivore.Storage.Caches.{Session, get_cached_source}
use omnivore.Github.Source.{fetch_source}
use omnivore.Github.Tree.{resolve_file_path}
use omnivore.Validation.{is_valid_repo_slug, is_safe_repo_path}
use omnivore.Server.Answer.{answered}
use omnivore.Server.Csrf.{Jar}
use omnivore.Server.Login.{AuthUser, extract_user}
use omnivore.Server.Settings.Tests.{site, project, session, jar}
use omnivore.Pages.FileCoverage.{line_rows, find_file_across_targets}
use omnivore.Pages.SourceFragment.{Remote, SourceCaches, with_source, file_source_fragment}
use omnivore.Pages.SourceFragment.Gated.{file_source_fragment-own_token}
use omnivore.Pages.SourceFragment.Shares.{file_source_fragment-shares}

abbrev file : FileCoverage ℕ
file = record {
  path = codes "a.rs";
  line_rate = 0;
  branch_rate = 0;
  lines = [];
  branches_covered = pos 0;
  branches_total = pos 0;
  source_content = none;
}

abbrev snapshot : CoverageSnapshot ℕ
snapshot = record {
  id = codes "1";
  project_id = codes "p";
  commit_sha = none;
  branch = none;
  target = codes "t";
  source = codes "lcov";
  line_rate = 0;
  branch_rate = 0;
  lines_covered = pos 0;
  lines_total = pos 0;
  branches_covered = pos 0;
  branches_total = pos 0;
  file_count = pos 1;
  created_at = 1;
  files_json = some (codes "f");
  dependencies_json = none;
}

abbrev db : Tables ℕ
db = record {
  projects = project (codes "p") ∷ [];
  snapshots = snapshot ∷ [];
  api_keys = [];
  settings = none;
}

abbrev decode : Text → Option (List (FileCoverage ℕ))
decode json = some (file ∷ [])

-- the second user's session and its cookie
abbrev guest : Session
guest = record session { id = codes "g"; github_username = codes "v"; github_token = codes "w" }

abbrev guest_jar : Jar
guest_jar = record { session = some (codes "g"); csrf = none; oauth_state = none }

-- GitHub shows the repository to the token `t` only
abbrev github : Remote
github = record {
  iterate = λ ps. ps;
  fetch_tree =
      λ repo token. some (record { path = codes "src/a.rs"; entry_type = codes "blob" } ∷ []);
  send = λ url token. elim token [
    | none ↦ none
    | some t ↦ elim (text_eq t (codes "t")) [ true ↦ some (codes "x") | false ↦ none ]
  ];
  server_token = none;
}

abbrev no_caches : SourceCaches
no_caches = record { sources = []; trees = [] }

-- another server token, and other answers to other tokens
abbrev elsewhere : Remote
elsewhere = record {
  iterate = λ ps. ps;
  fetch_tree =
      λ repo token. some (record { path = codes "src/a.rs"; entry_type = codes "blob" } ∷ []);
  send = λ url token. elim token [
    | none ↦ some (codes "z")
    | some t ↦ elim (text_eq t (codes "t")) [ true ↦ some (codes "x") | false ↦ some (codes "y") ]
  ];
  server_token = some (codes "t");
}

session_user :
    (u : AuthUser)
    → extract_user (site true) jar 10 (session ∷ []) ≡ some u
    → u.github_token ≡ codes "t"
unfolding extract_user
session_user u h = ground (arith, h)

file_source_fragment-own_token_example :
    file_source_fragment
      (λ rows. rows)
      decode
      (site true)
      github
      jar
      10
      12
      (codes "p")
      (codes "a.rs")
      db
      (session ∷ [])
      no_caches
    ≡ file_source_fragment
        (λ rows. rows)
        decode
        (site true)
        elsewhere
        jar
        10
        12
        (codes "p")
        (codes "a.rs")
        db
        (session ∷ [])
        no_caches
unfolding text_eq
file_source_fragment-own_token_example =
    file_source_fragment-own_token (λ rows. rows) decode (site true) refl github elsewhere jar 10 12
      (codes "p") (codes "a.rs") db (session ∷ []) no_caches refl
      (λ u h. rw (session_user u h) ((λ repo. refl), λ url. refl))

abbrev user : Text → Text → AuthUser
user name token = record { username = name; github_token = token; avatar_url = none }

file_source_fragment-shares_example :
    (let held =
        (file_source_fragment
          (λ rows. rows)
          decode
          (site true)
          github
          jar
          10
          12
          (codes "p")
          (codes "a.rs")
          db
          (session ∷ (guest ∷ []))
          no_caches).1 in
      file_source_fragment
        (λ rows. rows)
        decode
        (site true)
        github
        guest_jar
        20
        22
        (codes "p")
        (codes "a.rs")
        db
        (session ∷ (guest ∷ []))
        held
      ≡ (answered (line_rows (with_source file (some (codes "x")))), held))
unfolding is_valid_repo_slug is_safe_repo_path
file_source_fragment-shares_example =
    file_source_fragment-shares (λ rows. rows) decode (site true) refl (codes "p") (codes "a.rs")
      (codes "o/n") (project (codes "p")) file db (unfold get_project in refl)
      (unfold find_file_across_targets in refl) refl github github jar guest_jar 10 12 20 22
      (session ∷ (guest ∷ [])) no_caches (user (codes "u") (codes "t"))
      (user (codes "v") (codes "w")) (codes "src/a.rs") (codes "x") (unfold extract_user in refl)
      (unfold extract_user in refl) (unfold get_cached_source in refl)
      (unfold resolve_file_path in refl) (unfold fetch_source in refl) (omega arith)
