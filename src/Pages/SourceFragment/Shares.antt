-- ===== src/Pages/SourceFragment/Shares.antt =====
-- About `file_source_fragment` of routes/pages/file_coverage.rs: who is shown the source that a
-- token fetched.
use omnivore.Prelude.{ℕ, ◌+◌, ◌<◌, ◌≡◌, refl, ap, ◌∙◌, true, Option, none, some, List, [], arith}
use omnivore.Text.Base.{Text}
use omnivore.Model.Report.{FileCoverage}
use omnivore.Storage.Records.{Project, Tables}
use omnivore.Storage.Tables.{get_project}
use omnivore.Storage.Caches.{
  Session, CachedSource, get_cached_source, cache_source, floating_source_ttl,
}
use omnivore.Storage.Caches.Expiry.{get_cached_source-cache}
use omnivore.Storage.Retention.{Order}
use omnivore.Github.Source.{fetch_source}
use omnivore.Github.Tree.{resolve_file_path}
use omnivore.Server.Answer.{Answer, answered}
use omnivore.Server.Csrf.{Jar}
use omnivore.Server.Login.{AuthUser, Site, extract_user}
use omnivore.Pages.FileCoverage.{LineRow, line_rows, find_file_across_targets}
use omnivore.Pages.SourceFragment.{
  Remote, SourceCaches, effective_token, keep_source, fetch_resolved, from_github, source_of,
  with_source, show_source, to_viewer, file_source_fragment,
}
use omnivore.Pages.SourceFragment.Gated.{viewer_of-some}

module _ {R : Type 0} (order : Order R) (decode : Text → Option (List (FileCoverage R)))
    (site : Site) (oauth : site.signing.oauth ≡ true) where
  module _ (id path repo : Text) (project : Project R) (file : FileCoverage R) (db : Tables R)
      (p : get_project id db ≡ some project)
      (f : find_file_across_targets order decode id path db ≡ some file)
      (l : project.github_repo ≡ some repo) where
    shown :
        (remote : Remote) (jar : Jar) (now later : ℕ) (sessions : List Session)
        (held : SourceCaches) (u : AuthUser)
        → extract_user site jar now sessions ≡ some u
        → file_source_fragment order decode site remote jar now later id path db sessions held
          ≡ show_source file
              (source_of remote now later (some repo) path (some u.github_token) held)
    unfolding file_source_fragment
    shown remote jar now later sessions held u s =
        rw (p, f, viewer_of-some site jar now sessions oauth u s, file_source_fragment)
          (unfold to_viewer effective_token in rw l refl)

    source_of-cached :
        (remote : Remote) (now later : ℕ) (token : Option Text) (held : SourceCaches) (src : Text)
        → get_cached_source repo path [] now held.sources ≡ some src
        → source_of remote now later (some repo) path token held ≡ (some src, held)
    unfolding source_of
    source_of-cached remote now later token held src h = rw (h, source_of) refl

    source_of-fetched :
        (remote : Remote) (now later : ℕ) (token : Option Text) (held : SourceCaches)
        (repo_path src : Text)
        → get_cached_source repo path [] now held.sources ≡ none
        → (resolve_file_path remote.iterate remote.fetch_tree now later repo path token
            held.trees).0
          ≡ some repo_path
        → fetch_source remote.send repo repo_path none token ≡ some src
        → source_of remote now later (some repo) path token held ≡ (
          some src,
          record {
            sources = cache_source repo path [] src later held.sources;
            trees =
                (resolve_file_path remote.iterate remote.fetch_tree now later repo path token
                  held.trees).1;
          },
        )
    unfolding source_of from_github
    source_of-fetched remote now later token held repo_path src c r e =
        rw (c, source_of)
          (ap
              (λ o. fetch_resolved remote later repo path token o (record held {
                trees =
                    (resolve_file_path remote.iterate remote.fetch_tree now later repo path token
                      held.trees).1;
              }))
              r
            ∙ unfold fetch_resolved keep_source in rw (e, keep_source) refl)

    still_cached :
        (src : Text) (now later : ℕ) (rows : List CachedSource)
        → later < now + floating_source_ttl
        → get_cached_source repo path [] later (cache_source repo path [] src now rows) ≡ some src
    still_cached src now later rows h =
        get_cached_source-cache repo path [] src now later rows ∙ ground (arith, h)

    -- Source that one user's token fetched is shown, within the hour, to any user with a session,
    -- whatever GitHub would answer to the token of that user.
    pub file_source_fragment-shares :
        (remote other : Remote) (jar jar' : Jar) (now later now' later' : ℕ)
        (sessions : List Session) (held : SourceCaches) (a b : AuthUser) (repo_path src : Text)
        → extract_user site jar now sessions ≡ some a
        → extract_user site jar' now' sessions ≡ some b
        → get_cached_source repo path [] now held.sources ≡ none
        → (resolve_file_path remote.iterate remote.fetch_tree now later repo path
            (some a.github_token)
            held.trees).0
          ≡ some repo_path
        → fetch_source remote.send repo repo_path none (some a.github_token) ≡ some src
        → now' < later + floating_source_ttl
        → (let held' =
              (file_source_fragment order decode site remote jar now later id path db sessions
                held).1 in
            file_source_fragment order decode site other jar' now' later' id path db sessions held'
            ≡ (answered (line_rows (with_source file (some src))), held'))
    unfolding show_source
    file_source_fragment-shares remote other jar jar' now later now' later' sessions held a b
          repo_path src u v c r e h =
        (let first =
            shown remote jar now later sessions held a u
            ∙ ap (show_source file) (
                source_of-fetched remote now later (some a.github_token) held repo_path src c r
                  e) in
          let held' =
            (file_source_fragment order decode site remote jar now later id path db sessions
              held).1 in
          shown other jar' now' later' sessions held' b v
          ∙ ap (show_source file) (
              source_of-cached other now' later' (some b.github_token) held' src (
                ap
                  (λ (x : Answer (List LineRow) × SourceCaches).
                    get_cached_source repo path [] now' x.1.sources)
                  first
                ∙ still_cached src later now' held.sources h)))
