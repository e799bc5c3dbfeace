-- ===== src/Github/Tree/Bounded.antt =====
-- About the cache of file listings in github/source.rs, whatever the requests and their order.
use omnivore.Prelude.{
  ℕ, suc, ◌-◌, ◌≤◌, ◌<◌, ◌≡◌, refl, sym, ap, ◌∙◌, Bool, not, Option, none, some, List, [], ◌∷◌, inl,
  inr, arith,
}
use omnivore.Prelude.Tests.{ltb, leb, if◌then◌else◌, Bool-cases, Option-cases}
use omnivore.Prelude.Count.{filter}
use omnivore.Prelude.Lists.{length, IsNew, KeysDistinct}
use omnivore.Text.Base.{Text, text_eq, text_eq_refl, text_eq_iff, text_eq_sound}
use omnivore.Validation.{is_valid_repo_slug}
use omnivore.Github.Tree.{
  Index, CachedTree, TreeCache, tree_ttl, tree_cache_max_repos, retain_live, get_tree, remove_tree,
  or_fetch, fetched, index_from, FetchTree, get_or_fetch_tree, TreeEntry, oldest, evict_oldest,
  look_up, store_tree, invalidate_tree_cache,
}

-- What one request does to the cache under one lock; requests may be in any order and at any time.
pub data Step : TreeCache → TreeCache → Type 0 where
  looked : (now : ℕ) (repo : Text) (c : TreeCache) → Step c (look_up now repo c).1
  stored :
      (now : ℕ) (repo : Text) (index : Index) (c : TreeCache) → Step c (store_tree now repo index c)
  invalidated : (repo : Text) (c : TreeCache) → Step c (invalidate_tree_cache repo c)

pub data Reached : TreeCache → Type 0 where
  started : Reached []
  next : {c d : TreeCache} → Reached c → Step c d → Reached d

abbrev pub IsBounded : TreeCache → Type 0
IsBounded c = (length c ≤ tree_cache_max_repos) × KeysDistinct c

module _ (p : Text × CachedTree → Bool) where
  length-filter_le : (c : TreeCache) → length (filter p c) ≤ length c
  length-filter_le [] = omega arith
  length-filter_le (e ∷ c) = ground (arith, length-filter_le c)

  IsNew-filter : (k : Text) (c : TreeCache) → IsNew k c → IsNew k (filter p c)
  IsNew-filter k [] h = tt
  IsNew-filter k ((j, t) ∷ c) (n, h) = elim (Bool-cases (p (j, t))) [
    | inl e ↦ rw e (n, IsNew-filter k c h)
    | inr e ↦ rw e (IsNew-filter k c h)
  ]

  filter-KeysDistinct : (c : TreeCache) → KeysDistinct c → KeysDistinct (filter p c)
  filter-KeysDistinct [] h = tt
  filter-KeysDistinct ((j, t) ∷ c) (n, h) = elim (Bool-cases (p (j, t))) [
    | inl e ↦ rw e (IsNew-filter j c n, filter-KeysDistinct c h)
    | inr e ↦ rw e (filter-KeysDistinct c h)
  ]

  filter-IsBounded : (c : TreeCache) → IsBounded c → IsBounded (filter p c)
  filter-IsBounded c (b, h) = (omega (arith, b, length-filter_le c), filter-KeysDistinct c h)

remove_tree-IsNew : (repo : Text) (c : TreeCache) → IsNew repo (remove_tree repo c)
unfolding remove_tree
remove_tree-IsNew repo [] = tt
remove_tree-IsNew repo ((k, t) ∷ c) = elim (Bool-cases (text_eq k repo)) [
  | inl e ↦ rw e (remove_tree-IsNew repo c)
  | inr e ↦
      rw e ((λ q. absurd (ground (arith, text_eq_iff k repo, e, q))), remove_tree-IsNew repo c)
]

-- the oldest entry is in the cache, so that its removal makes room
remove_tree-oldest :
    (c : TreeCache) (k : Text) (t : CachedTree)
    → oldest c ≡ some (k, t)
    → length (remove_tree k c) < length c
unfolding oldest remove_tree
remove_tree-oldest [] k t h = cc
remove_tree-oldest (e ∷ c) k t h = elim (Option-cases (oldest c)) [
  | inl n ↦ ground (arith, n, h, text_eq_refl k, length-filter_le (λ x. not (text_eq x.0 k)) c)
  | inr ((j, u), s) ↦ ground (
    arith,
    s,
    h,
    text_eq_refl k,
    length-filter_le (λ x. not (text_eq x.0 k)) c,
    remove_tree-oldest c k t,
  )
]

oldest-some : (c : TreeCache) → oldest c ≡ none → length c ≡ 0
unfolding oldest
oldest-some [] h = refl
oldest-some (e ∷ c) h = elim (Option-cases (oldest c)) [
  | inl n ↦ ground (arith, n, h)
  | inr (o, s) ↦ ground (arith, s, h)
]

length-evict_oldest : (c : TreeCache) → 1 ≤ length c → suc (length (evict_oldest c)) ≤ length c
unfolding evict_oldest
length-evict_oldest c h = elim (Option-cases (oldest c)) [
  | inl n ↦ absurd (omega (arith, h, oldest-some c n))
  | inr ((k, t), s) ↦ rw (s, evict_oldest) (remove_tree-oldest c k t s)
]

evict_oldest-IsBounded : (c : TreeCache) → IsBounded c → IsBounded (evict_oldest c)
unfolding evict_oldest remove_tree
evict_oldest-IsBounded c h = elim (Option-cases (oldest c)) [
  | inl n ↦ rw (n, evict_oldest) h
  | inr ((k, t), s) ↦ rw (s, evict_oldest) (filter-IsBounded (λ x. not (text_eq x.0 k)) c h)
]

added_tree :
    (repo : Text) (t : CachedTree) (c : TreeCache)
    → IsBounded c
    → suc (length c) ≤ tree_cache_max_repos
    → IsBounded ((repo, t) ∷ remove_tree repo c)
unfolding remove_tree
added_tree repo t c h n =
    (let (b, d) = filter-IsBounded (λ x. not (text_eq x.0 repo)) c h in
      (
        omega (arith, n, length-filter_le (λ x. not (text_eq x.0 repo)) c),
        (remove_tree-IsNew repo c, d),
      ))

store_tree-IsBounded :
    (now : ℕ) (repo : Text) (index : Index) (c : TreeCache)
    → IsBounded c
    → IsBounded (store_tree now repo index c)
unfolding store_tree
store_tree-IsBounded now repo index c h = elim (Bool-cases (leb tree_cache_max_repos (length c))) [
  | inl e ↦
      rw (e, store_tree)
        (added_tree repo (record { fetched_at = now; index = index }) (evict_oldest c)
          (evict_oldest-IsBounded c h) (ground (arith, e, h.0, length-evict_oldest c)))
  | inr e ↦
      rw (e, store_tree)
        (added_tree repo (record { fetched_at = now; index = index }) c h (ground (arith, e)))
]

Step-IsBounded : {c d : TreeCache} → Step c d → IsBounded c → IsBounded d
Step-IsBounded (looked now repo c) h =
    unfold look_up retain_live in filter-IsBounded (λ e. ltb (now - e.1.fetched_at) tree_ttl) c h
Step-IsBounded (stored now repo index c) h = store_tree-IsBounded now repo index c h
Step-IsBounded (invalidated repo c) h =
    unfold invalidate_tree_cache remove_tree in filter-IsBounded (λ e. not (text_eq e.0 repo)) c h

-- Whatever the requests and however they interleave, the cache holds the listings of at most 32
-- repositories, and one of each.
pub tree_cache-IsBounded : (c : TreeCache) → Reached c → IsBounded c
tree_cache-IsBounded _ started = (omega arith, tt)
tree_cache-IsBounded _ (next r s) = Step-IsBounded s (tree_cache-IsBounded _ r)

-- what an entry of the cache answers: its listing, while it is younger than 15 minutes
unfoldable pub fresh_index : ℕ → Option CachedTree → Option Index
fresh_index now none = none
fresh_index now (some t) = if ltb (now - t.fetched_at) tree_ttl then some t.index else none

get_tree-new : (repo : Text) (c : TreeCache) → IsNew repo c → get_tree repo c ≡ none
unfolding get_tree
get_tree-new repo [] h = refl
get_tree-new repo ((k, t) ∷ c) (n, h) = ground (arith, n, text_eq_iff k repo, get_tree-new repo c h)

get_tree-filter_new :
    (p : Text × CachedTree → Bool) (repo : Text) (c : TreeCache)
    → IsNew repo c
    → get_tree repo (filter p c) ≡ none
get_tree-filter_new p repo c h = get_tree-new repo (filter p c) (IsNew-filter p repo c h)

look_up-fresh :
    (now : ℕ) (repo : Text) (c : TreeCache)
    → KeysDistinct c
    → (look_up now repo c).0 ≡ fresh_index now (get_tree repo c)
unfolding look_up retain_live get_tree fresh_index
look_up-fresh now repo [] h = refl
look_up-fresh now repo ((k, t) ∷ c) (n, h) = elim (Bool-cases (text_eq k repo)) [
  | inl e ↦ ground (
    arith,
    e,
    get_tree-filter_new (λ x. ltb (now - x.1.fetched_at) tree_ttl) repo c
        (rw (sym (text_eq_sound k repo e)) n),
  )
  | inr e ↦ ground (arith, e, look_up-fresh now repo c h)
]

abbrev answer_of : Option (List TreeEntry) → Option Index
answer_of none = none
answer_of (some entries) = some (index_from entries [])

abbrev or_else : Option Index → Option Index → Option Index
or_else none o = o
or_else (some i) o = some i

fetched_answer :
    (now : ℕ) (repo : Text) (o : Option (List TreeEntry)) (c : TreeCache)
    → (fetched now repo o c).0 ≡ answer_of o
unfolding fetched
fetched_answer now repo none c = refl
fetched_answer now repo (some es) c = refl

or_fetch_answer :
    (fetch : FetchTree) (later : ℕ) (repo : Text) (token : Option Text)
    (l : Option Index × TreeCache)
    → (or_fetch fetch later repo token l).0 ≡ or_else l.0 (answer_of (fetch repo token))
unfolding or_fetch
or_fetch_answer fetch later repo token (some i, c) = refl
or_fetch_answer fetch later repo token (none, c) = fetched_answer later repo (fetch repo token) c

-- In any cache that requests can reach, a valid repository is answered with the listing that was
-- stored for it less than 15 minutes before; without one, with the index of GitHub's answer to this
-- request, or with nothing where that fails. Another slug is answered with nothing.
pub get_or_fetch_tree-served :
    (fetch : FetchTree) (now later : ℕ) (repo : Text) (token : Option Text) (c : TreeCache)
    → Reached c
    → (get_or_fetch_tree fetch now later repo token c).0 ≡ (
        if is_valid_repo_slug repo
        then or_else (fresh_index now (get_tree repo c)) (answer_of (fetch repo token))
        else none)
unfolding get_or_fetch_tree
get_or_fetch_tree-served fetch now later repo token c r =
    elim (Bool-cases (is_valid_repo_slug repo)) [
      | inl v ↦
          rw (v, get_or_fetch_tree)
            (or_fetch_answer fetch later repo token (look_up now repo c)
              ∙ ap (λ o. or_else o (answer_of (fetch repo token)))
                  (look_up-fresh now repo c (tree_cache-IsBounded c r).1))
      | inr v ↦ rw (v, get_or_fetch_tree) refl
    ]
