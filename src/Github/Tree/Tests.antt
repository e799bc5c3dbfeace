-- ===== src/Github/Tree/Tests.antt =====
-- The cache of listings and the choice of a file at concrete inputs.
use omnivore.Prelude.{◌≡◌, refl, true, none, some, List, [], ◌∷◌, arith}
use mathlib.Core.List.Perm
use omnivore.Text.Base.{Text, codes}
use omnivore.Validation.{is_valid_repo_slug}
use omnivore.Github.Tree.{
  TreeEntry, TreeCache, index_from, filename_of, store_tree, get_tree, get_or_fetch_tree, is_match,
  resolve_in,
}
use omnivore.Github.Tree.Bounded.{
  Reached, started, next, stored, IsBounded, fresh_index, tree_cache-IsBounded,
  get_or_fetch_tree-served,
}
use omnivore.Github.Tree.Paths.{IsFile}
use omnivore.Github.Tree.Resolves.{resolve_in-IsFile, resolve_in-prefers}

abbrev blob : Text → TreeEntry
blob path = record { path = path; entry_type = codes "blob" }

abbrev listing : List TreeEntry
listing =
    blob (codes "app/src/test/F.kt")
    ∷ (record { path = codes "app"; entry_type = codes "tree" }
        ∷ (blob (codes "app/src/main/F.kt") ∷ (blob (codes "G.kt") ∷ [])))

abbrev listed : TreeCache
listed = store_tree 5 (codes "o/n") (index_from listing []) []

listed-Reached : Reached listed
listed-Reached = next started (stored 5 (codes "o/n") (index_from listing []) [])

tree_cache-IsBounded_example : IsBounded listed
tree_cache-IsBounded_example = tree_cache-IsBounded listed listed-Reached

-- the listing is served without a request, which here would fail
get_or_fetch_tree-served_example :
    (get_or_fetch_tree (λ repo token. none) 904 904 (codes "o/n") none listed).0
    ≡ some (index_from listing [])
unfolding is_valid_repo_slug store_tree get_tree fresh_index
get_or_fetch_tree-served_example =
    get_or_fetch_tree-served (λ repo token. none) 904 904 (codes "o/n") none listed listed-Reached

resolve_in-IsFile_example :
    IsFile (codes "app/src/main/F.kt") listing
    × (filename_of (codes "app/src/main/F.kt") ≡ filename_of (codes "main/F.kt"))
unfolding resolve_in index_from
resolve_in-IsFile_example =
    resolve_in-IsFile (λ ps. ps) Perm.refl (codes "main/F.kt") (codes "app/src/main/F.kt") listing
      refl

resolve_in-prefers_example :
    (p : Text) × (resolve_in (λ ps. ps) (codes "F.kt") (index_from listing []) ≡ some p)
    × IsFile p listing
    × (is_match (codes "F.kt") p ≡ true)
unfolding is_match
resolve_in-prefers_example =
    resolve_in-prefers (λ ps. ps) Perm.refl (codes "F.kt") (codes "app/src/test/F.kt") listing
      (omega arith) refl
