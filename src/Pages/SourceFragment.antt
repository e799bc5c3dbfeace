-- ===== src/Pages/SourceFragment.antt =====
-- `file_source_fragment` of crates/omnivore-server/src/routes/pages/file_coverage.rs: the source of a
-- file with its coverage. What GitHub answers, the server's token and the order of a map are the record
-- `Remote`; `now` is the time of the request and `later` that of GitHub's answers. The answer is the
-- rows, of which the handler makes HTML.
pub mod Gated
pub mod Shares
pub mod Tests
use omnivore.Prelude.{ℕ, Bool, true, false, not, Option, none, some, List, [], ◌∷◌}
use omnivore.Prelude.Tests.{if◌then◌else◌}
use omnivore.Text.Base.{Text}
use omnivore.Model.Report.{FileCoverage}
use omnivore.Storage.Records.{Project, Tables}
use omnivore.Storage.Tables.{get_project}
use omnivore.Storage.Caches.{Session, CachedSource, get_cached_source, cache_source}
use omnivore.Storage.Retention.{Order}
use omnivore.Github.Source.{Send, fetch_source}
use omnivore.Github.Tree.{FetchTree, TreeCache, resolve_file_path}
use omnivore.Server.Answer.{Status, not_found, unauthorized, Answer, refused, answered}
use omnivore.Server.Csrf.{Jar}
use omnivore.Server.Login.{AuthUser, Site, extract_user}
use omnivore.Pages.FileCoverage.{LineRow, line_rows, find_file_across_targets}

pub record Remote : Type 0 where
  pub iterate : List Text → List Text
  pub fetch_tree : FetchTree
  pub send : Send
  -- `GITHUB_TOKEN`
  pub server_token : Option Text

pub record SourceCaches : Type 0 where
  pub sources : List CachedSource
  pub trees : TreeCache

-- The viewer where the request may go on; without OAuth there is none.
unfoldable pub viewer_of : Site → Jar → ℕ → List Session → Option (Option AuthUser)
unfolding extract_user
viewer_of site jar now sessions =
    if not site.signing.oauth
    then some none
    else elim (extract_user site jar now sessions) [ none ↦ none | some u ↦ some (some u) ]

unfoldable pub effective_token : Option AuthUser → Option Text → Option Text
effective_token none env_token = env_token
effective_token (some u) env_token = some u.github_token

unfoldable pub keep_source :
    ℕ → Text → Text → Option Text → SourceCaches → Option Text × SourceCaches
unfolding cache_source
keep_source later repo path none held = (none, held)
keep_source later repo path (some src) held =
    (some src, record held { sources = cache_source repo path [] src later held.sources })

unfoldable pub fetch_resolved :
    Remote → ℕ → Text → Text → Option Text → Option Text → SourceCaches → Option Text × SourceCaches
unfolding keep_source fetch_source
fetch_resolved remote later repo path token none held = (none, held)
fetch_resolved remote later repo path token (some repo_path) held =
    keep_source later repo path (fetch_source remote.send repo repo_path none token) held

unfoldable pub from_github :
    Remote → ℕ → ℕ → Text → Text → Option Text → SourceCaches → Option Text × SourceCaches
unfolding fetch_resolved resolve_file_path
from_github remote now later repo path token held =
    let (resolved, trees) =
      resolve_file_path remote.iterate remote.fetch_tree now later repo path token held.trees in
    fetch_resolved remote later repo path token resolved (record held { trees = trees })

-- the source of a linked project's file: the cached one, else GitHub's
unfoldable pub source_of :
    Remote → ℕ → ℕ → Option Text → Text → Option Text → SourceCaches → Option Text × SourceCaches
unfolding from_github get_cached_source
source_of remote now later none path token held = (none, held)
source_of remote now later (some repo) path token held =
    elim (get_cached_source repo path [] now held.sources) [
      | some cached ↦ (some cached, held)
      | none ↦ from_github remote now later repo path token held
    ]

module _ {R : Type 0} where
  unfoldable pub with_source : FileCoverage R → Option Text → FileCoverage R
  with_source file none = file
  with_source file (some src) = record file { source_content = some src }

  unfoldable pub show_source :
      FileCoverage R → Option Text × SourceCaches → Answer (List LineRow) × SourceCaches
  unfolding line_rows with_source
  show_source file (src, held) = (answered (line_rows (with_source file src)), held)

  unfoldable pub to_viewer :
      Remote
      → ℕ
      → ℕ
      → Text
      → Project R
      → FileCoverage R
      → Option (Option AuthUser)
      → SourceCaches
      → Answer (List LineRow) × SourceCaches
  unfolding show_source source_of effective_token
  to_viewer remote now later path project file none held = (refused unauthorized, held)
  to_viewer remote now later path project file (some viewer) held = show_source file (
      source_of remote now later project.github_repo path
        (effective_token viewer remote.server_token) held)

  unfoldable pub file_source_fragment :
      Order R
      → (Text → Option (List (FileCoverage R)))
      → Site
      → Remote
      → Jar
      → ℕ
      → ℕ
      → Text
      → Text
      → Tables R
      → List Session
      → SourceCaches
      → Answer (List LineRow) × SourceCaches
  unfolding get_project find_file_across_targets to_viewer viewer_of
  file_source_fragment order decode site remote jar now later id path db sessions held =
      elim (get_project id db) [
        | none ↦ (refused not_found, held)
        | some project ↦ elim (find_file_across_targets order decode id path db) [
          | none ↦ (refused not_found, held)
          | some file ↦
              to_viewer remote now later path project file (viewer_of site jar now sessions) held
        ]
      ]
