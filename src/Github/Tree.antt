-- ===== src/Github/Tree.antt =====
-- The file listings of repositories in crates/omnivore-core/src/github/source.rs: their cache, and the
-- choice of the file that a coverage path means. What GitHub answers and the clock are arguments; the
-- lock of the cache is never poisoned. A `HashMap` is the list of its entries, and the order in which
-- its values come is the argument `iterate`.
pub mod Bounded
pub mod Paths
pub mod Resolves
pub mod Tests
use omnivore.Prelude.{
  ℕ, suc, ◌+◌, ◌-◌, Bool, true, false, not, ◌&&◌, ◌||◌, Option, none, some, List, [], ◌∷◌, ◌++◌,
}
use mathlib.Core.List.{reverse}
use omnivore.Prelude.Tests.{ltb, leb, if◌then◌else◌}
use omnivore.Prelude.Count.{filter}
use omnivore.Prelude.Lists.{length}
use omnivore.Prelude.Sort.{sort}
use omnivore.Text.Base.{Text, codes, text_eq, len, contains, starts_with}
use omnivore.Text.Split.{split, rsplit_once}
use omnivore.Validation.{is_valid_repo_slug}

pub record TreeEntry : Type 0 where
  pub path : Text
  pub entry_type : Text

-- from a file's name to the paths with it
abbrev pub Index : Type 0
Index = List (Text × List Text)

pub record CachedTree : Type 0 where
  pub fetched_at : ℕ
  pub index : Index

abbrev pub TreeCache : Type 0
TreeCache = List (Text × CachedTree)

-- in seconds
abbrev pub tree_ttl : ℕ
tree_ttl = 900

abbrev pub tree_cache_max_repos : ℕ
tree_cache_max_repos = 32

-- `path.rsplit('/').next()`
unfoldable pub filename_of : Text → Text
unfolding rsplit_once
filename_of path = elim (rsplit_once b'/' path) [ none ↦ path | some (dir, name) ↦ name ]

-- `index.entry(name).or_default().push(path)`
unfoldable pub push_path : Text → Text → Index → Index
unfolding text_eq
push_path name path [] = (name, path ∷ []) ∷ []
push_path name path ((k, paths) ∷ index) =
    if text_eq k name
    then (k, paths ++ path ∷ []) ∷ index
    else (k, paths) ∷ push_path name path index

-- the loop over the entries, of which blobs are files
unfoldable pub index_from : List TreeEntry → Index → Index
unfolding push_path filename_of text_eq
index_from [] index = index
index_from (e ∷ es) index = index_from es (
    if text_eq e.entry_type (codes "blob")
    then push_path (filename_of e.path) e.path index
    else index)

-- `cache.retain(|_, entry| entry.fetched_at.elapsed() < TREE_TTL)`
unfoldable pub retain_live : ℕ → TreeCache → TreeCache
retain_live now cache =
    filter (λ (e : Text × CachedTree). ltb (now - e.1.fetched_at) tree_ttl) cache

unfoldable pub get_tree : Text → TreeCache → Option CachedTree
unfolding text_eq
get_tree repo [] = none
get_tree repo ((k, tree) ∷ cache) = if text_eq k repo then some tree else get_tree repo cache

unfoldable pub remove_tree : Text → TreeCache → TreeCache
unfolding text_eq
remove_tree repo cache = filter (λ (e : Text × CachedTree). not (text_eq e.0 repo)) cache

-- the first of the oldest entries
unfoldable pub oldest : TreeCache → Option (Text × CachedTree)
oldest [] = none
oldest (e ∷ cache) = elim (oldest cache) [
  | none ↦ some e
  | some o ↦ if leb e.1.fetched_at o.1.fetched_at then some e else some o
]

-- what happens under the lock before a request: the index that is served, and the cache
unfoldable pub look_up : ℕ → Text → TreeCache → Option Index × TreeCache
unfolding retain_live get_tree
look_up now repo cache =
    let live = retain_live now cache in
    (elim (get_tree repo live) [ none ↦ none | some tree ↦ some tree.index ], live)

unfoldable pub evict_oldest : TreeCache → TreeCache
unfolding oldest remove_tree
evict_oldest cache = elim (oldest cache) [ none ↦ cache | some (k, tree) ↦ remove_tree k cache ]

-- what happens under the lock after it
unfoldable pub store_tree : ℕ → Text → Index → TreeCache → TreeCache
unfolding evict_oldest remove_tree
store_tree now repo index cache =
    let room = if leb tree_cache_max_repos (length cache) then evict_oldest cache else cache in
    (repo, record { fetched_at = now; index = index }) ∷ remove_tree repo room

-- The answer of the Git Trees API for a repository and a token, and how many seconds it took.
abbrev pub FetchTree : Type 0
FetchTree = Text → Option Text → Option (List TreeEntry)

unfoldable pub fetched : ℕ → Text → Option (List TreeEntry) → TreeCache → Option Index × TreeCache
unfolding index_from store_tree
fetched now repo none cache = (none, cache)
fetched now repo (some entries) cache =
    (some (index_from entries []), store_tree now repo (index_from entries []) cache)

unfoldable pub or_fetch :
    FetchTree → ℕ → Text → Option Text → Option Index × TreeCache → Option Index × TreeCache
unfolding fetched
or_fetch fetch later repo token (some index, cache) = (some index, cache)
or_fetch fetch later repo token (none, cache) = fetched later repo (fetch repo token) cache

-- With no other request in between; `now` and `later` are the times before and after the request.
unfoldable pub get_or_fetch_tree :
    FetchTree → ℕ → ℕ → Text → Option Text → TreeCache → Option Index × TreeCache
unfolding is_valid_repo_slug or_fetch look_up
get_or_fetch_tree fetch now later repo token cache =
    if not (is_valid_repo_slug repo)
    then (none, cache)
    else or_fetch fetch later repo token (look_up now repo cache)

unfoldable pub invalidate_tree_cache : Text → TreeCache → TreeCache
unfolding remove_tree
invalidate_tree_cache repo cache = remove_tree repo cache

-- `s.ends_with(suffix)`
unfoldable pub ends_with : Text → Text → Bool
unfolding starts_with
ends_with suffix s = starts_with (reverse suffix) (reverse s)

unfoldable pub flatten : Index → List Text
flatten [] = []
flatten ((k, paths) ∷ index) = paths ++ flatten index

unfoldable pub get_paths : Text → Index → Option (List Text)
unfolding text_eq
get_paths name [] = none
get_paths name ((k, paths) ∷ index) = if text_eq k name then some paths else get_paths name index

-- `zip`, `take_while(|(a, b)| a == b)` and `count`
unfoldable pub overlap : List Text → List Text → ℕ
unfolding text_eq
overlap [] ys = 0
overlap (x ∷ xs) [] = 0
overlap (x ∷ xs) (y ∷ ys) = let rest = overlap xs ys in if text_eq x y then suc rest else 0

-- the loop over the paths of one name: the first with the longest overlap
unfoldable pub best_from : List Text → List Text → Option (Text × ℕ) → Option (Text × ℕ)
unfolding overlap split
best_from parts [] best = best
best_from parts (path ∷ paths) best =
    let n = overlap (reverse parts) (reverse (split b'/' path)) in
    best_from parts paths (elim best [
      | none ↦ some (path, n)
      | some (p, m) ↦ if ltb m n then some (path, n) else some (p, m)
    ])

unfoldable pub first_path : List Text → Option Text
first_path [] = none
first_path (p ∷ ps) = some p

unfoldable pub best_path : Option (Text × ℕ) → Option Text
best_path none = none
best_path (some (p, n)) = some p

-- where no path ends with the coverage path: by the name of the file
unfoldable pub by_filename : Text → Option (List Text) → Option Text
unfolding best_from best_path split
by_filename coverage_path none = none
by_filename coverage_path (some (p ∷ [])) = some p
by_filename coverage_path (some paths) = best_path (best_from (split b'/' coverage_path) paths none)

-- where several do: the only one below `/src/main/`, else the shortest
unfoldable pub among : List Text → List Text → Option Text
unfolding first_path sort len
among (p ∷ []) matches = some p
among src_main matches = first_path (sort (λ p q. leb (len p) (len q)) matches)

unfoldable pub by_suffix : Text → Index → List Text → Option Text
unfolding by_filename get_paths filename_of among contains
by_suffix coverage_path tree [] =
    by_filename coverage_path (get_paths (filename_of coverage_path) tree)
by_suffix coverage_path tree (p ∷ []) = some p
by_suffix coverage_path tree (p ∷ (q ∷ ps)) =
    among (filter (contains (codes "/src/main/")) (p ∷ (q ∷ ps))) (p ∷ (q ∷ ps))

unfoldable pub is_match : Text → Text → Bool
unfolding ends_with text_eq
is_match coverage_path full = ends_with (b'/' ∷ coverage_path) full || text_eq full coverage_path

unfoldable pub resolve_in : (List Text → List Text) → Text → Index → Option Text
unfolding by_suffix is_match flatten
resolve_in iterate coverage_path tree =
    by_suffix coverage_path tree (filter (is_match coverage_path) (iterate (flatten tree)))

unfoldable pub resolve_file_path :
    (List Text → List Text)
    → FetchTree
    → ℕ
    → ℕ
    → Text
    → Text
    → Option Text
    → TreeCache
    → Option Text × TreeCache
unfolding resolve_in get_or_fetch_tree
resolve_file_path iterate fetch now later repo coverage_path token cache =
    let (tree, cache') = get_or_fetch_tree fetch now later repo token cache in
    (elim tree [ none ↦ none | some index ↦ resolve_in iterate coverage_path index ], cache')
