-- ===== src/Pages/SourceFragment/Gated.antt =====
-- About `file_source_fragment` of routes/pages/file_coverage.rs: whose tokens are spent.
use omnivore.Prelude.{ℕ, ◌≡◌, refl, ap, ◌∙◌, true, not, Option, none, some, List, [], inl, inr}
use omnivore.Prelude.Tests.{if◌then◌else◌, Option-cases}
use omnivore.Text.Base.{Text}
use omnivore.Model.Report.{FileCoverage}
use omnivore.Storage.Records.{Tables}
use omnivore.Storage.Tables.{get_project}
use omnivore.Storage.Caches.{Session, get_cached_source}
use omnivore.Storage.Retention.{Order}
use omnivore.Github.Source.{fetch_url, fetch_source}
use omnivore.Validation.{is_valid_repo_slug}
use omnivore.Github.Tree.{
  Index, FetchTree, TreeCache, or_fetch, fetched, look_up, get_or_fetch_tree, resolve_in,
  resolve_file_path,
}
use omnivore.Server.Csrf.{Jar}
use omnivore.Server.Login.{AuthUser, Site, extract_user}
use omnivore.Pages.FileCoverage.{find_file_across_targets}
use omnivore.Pages.SourceFragment.{
  Remote, SourceCaches, viewer_of, effective_token, keep_source, fetch_resolved, from_github,
  source_of, show_source, to_viewer, file_source_fragment,
}

module _ (site : Site) (jar : Jar) (now : ℕ) (sessions : List Session)
    (oauth : site.signing.oauth ≡ true) where
  viewer_of-none :
      extract_user site jar now sessions ≡ none → viewer_of site jar now sessions ≡ none
  unfolding viewer_of
  viewer_of-none h = rw (oauth, h) refl

  pub viewer_of-some :
      (u : AuthUser)
      → extract_user site jar now sessions ≡ some u
      → viewer_of site jar now sessions ≡ some (some u)
  unfolding viewer_of
  viewer_of-some u h = rw (oauth, h) refl

-- GitHub says the same to a token.
abbrev pub Agree : Text → Remote → Remote → Type 0
Agree token remote other =
    ((repo : Text) → remote.fetch_tree repo (some token) ≡ other.fetch_tree repo (some token))
    × ((url : Text) → remote.send url (some token) ≡ other.send url (some token))

or_fetch_agree :
    (fetch other : FetchTree) (later : ℕ) (repo : Text) (token : Option Text)
    (l : Option Index × TreeCache)
    → fetch repo token ≡ other repo token
    → or_fetch fetch later repo token l ≡ or_fetch other later repo token l
unfolding or_fetch
or_fetch_agree fetch other later repo token (some index, cache) h = refl
or_fetch_agree fetch other later repo token (none, cache) h = ap (λ o. fetched later repo o cache) h

get_or_fetch_tree_agree :
    (fetch other : FetchTree) (now later : ℕ) (repo : Text) (token : Option Text)
    (cache : TreeCache)
    → fetch repo token ≡ other repo token
    → get_or_fetch_tree fetch now later repo token cache
      ≡ get_or_fetch_tree other now later repo token cache
unfolding get_or_fetch_tree
get_or_fetch_tree_agree fetch other now later repo token cache h =
    ap (λ r. if not (is_valid_repo_slug repo) then (none, cache) else r)
      (or_fetch_agree fetch other later repo token (look_up now repo cache) h)

module _ (remote other : Remote) (token : Text) (i : remote.iterate ≡ other.iterate)
    (h : Agree token remote other) where
  resolve_file_path_agree :
      (now later : ℕ) (repo path : Text) (trees : TreeCache)
      → resolve_file_path remote.iterate remote.fetch_tree now later repo path (some token) trees
        ≡ resolve_file_path other.iterate other.fetch_tree now later repo path (some token) trees
  unfolding resolve_file_path
  resolve_file_path_agree now later repo path trees =
      ap (λ it. resolve_file_path it remote.fetch_tree now later repo path (some token) trees) i
      ∙ ap
          (λ (r : Option Index × TreeCache).
            (elim r.0 [ none ↦ none | some index ↦ resolve_in other.iterate path index ], r.1))
          (get_or_fetch_tree_agree remote.fetch_tree other.fetch_tree now later repo (some token)
            trees (h.0 repo))

  fetch_resolved_agree :
      (later : ℕ) (repo path : Text) (resolved : Option Text) (held : SourceCaches)
      → fetch_resolved remote later repo path (some token) resolved held
        ≡ fetch_resolved other later repo path (some token) resolved held
  unfolding fetch_resolved fetch_source
  fetch_resolved_agree later repo path none held = refl
  fetch_resolved_agree later repo path (some p) held = elim (Option-cases (fetch_url repo p none)) [
    | inl n ↦ rw (n, fetch_source) refl
    | inr (url, e) ↦ rw (e, fetch_source) (ap (λ o. keep_source later repo path o held) (h.1 url))
  ]

  source_of_agree :
      (now later : ℕ) (linked : Option Text) (path : Text) (held : SourceCaches)
      → source_of remote now later linked path (some token) held
        ≡ source_of other now later linked path (some token) held
  unfolding source_of from_github
  source_of_agree now later none path held = refl
  source_of_agree now later (some repo) path held =
      elim (Option-cases (get_cached_source repo path [] now held.sources)) [
        | inl n ↦
            rw (n, source_of)
              (fetch_resolved_agree later repo path
                  (resolve_file_path remote.iterate remote.fetch_tree now later repo path
                    (some token) held.trees).0
                  (record held {
                    trees =
                        (resolve_file_path remote.iterate remote.fetch_tree now later repo path
                          (some token) held.trees).1;
                  })
                ∙ ap
                    (λ (r : Option Text × TreeCache).
                      fetch_resolved other later repo path (some token) r.0
                        (record held { trees = r.1 }))
                    (resolve_file_path_agree now later repo path held.trees))
        | inr (c, e) ↦ rw (e, source_of) refl
      ]

module _ {R : Type 0} (order : Order R) (decode : Text → Option (List (FileCoverage R)))
    (site : Site) (oauth : site.signing.oauth ≡ true) where
  -- Where OAuth is configured, what is answered and cached depends on nothing that GitHub would say to
  -- another token than that of the user of the session, nor on the server's own token; without a
  -- session it does not depend on GitHub at all.
  pub file_source_fragment-own_token :
      (remote other : Remote) (jar : Jar) (now later : ℕ) (id path : Text) (db : Tables R)
      (sessions : List Session) (held : SourceCaches)
      → remote.iterate ≡ other.iterate
      → ((u : AuthUser)
          → extract_user site jar now sessions ≡ some u
          → Agree u.github_token remote other)
      → file_source_fragment order decode site remote jar now later id path db sessions held
        ≡ file_source_fragment order decode site other jar now later id path db sessions held
  unfolding file_source_fragment
  file_source_fragment-own_token remote other jar now later id path db sessions held i h =
      elim (Option-cases (get_project id db)) [
        | inl n ↦ rw (n, file_source_fragment) refl
        | inr (project, p) ↦
            elim (Option-cases (find_file_across_targets order decode id path db)) [
              | inl n ↦ rw (p, n, file_source_fragment) refl
              | inr (file, f) ↦ elim (Option-cases (extract_user site jar now sessions)) [
                | inl n ↦
                    rw (p, f, viewer_of-none site jar now sessions oauth n, file_source_fragment)
                      (unfold to_viewer in refl)
                | inr (u, s) ↦
                    rw (p, f, viewer_of-some site jar now sessions oauth u s, file_source_fragment)
                      (unfold to_viewer effective_token in
                        ap (show_source file) (
                          source_of_agree remote other u.github_token i (h u s) now later
                            project.github_repo path held))
              ]
            ]
      ]
