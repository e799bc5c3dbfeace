-- ===== src/Github/Tree/Resolves.antt =====
-- About `resolve_file_path` in github/source.rs: the file that a coverage path is taken for.
use omnivore.Prelude.{
  ℕ, ◌≤◌, ◌≡◌, refl, sym, ap, ◌∙◌, ◌⊎◌, inl, inr, true, Option, none, some, List, [], ◌∷◌, arith,
}
use mathlib.Core.List.{Perm, reverse}
use omnivore.Prelude.Tests.{ltb, leb, if◌then◌else◌, Bool-cases, Option-cases}
use omnivore.Prelude.Count.{filter, count-filter_le, sum_by-perm}
use omnivore.Prelude.Sort.{sort, sum_by-sort, length-sort}
use omnivore.Prelude.Lists.{length}
use omnivore.Text.Base.{Text, codes, text_eq, text_eq_refl, len, contains}
use omnivore.Text.Split.{split}
use omnivore.Github.Tree.{
  TreeEntry, Index, filename_of, index_from, flatten, get_paths, overlap, best_from, first_path,
  best_path, by_filename, among, by_suffix, is_match, resolve_in,
}
use omnivore.Github.Tree.Paths.{
  held, IsFile, IsIndex, index_from-held, index_from-IsIndex, get_paths-held, is_match-name,
  filter-held, kept,
}

first_path-held : (p : Text) (ps : List Text) → first_path ps ≡ some p → 1 ≤ held p ps
unfolding first_path
first_path-held p [] h = cc
first_path-held p (q ∷ ps) h = ground (arith, h, text_eq_refl p)

shortest-held :
    (p : Text) (ms : List Text)
    → first_path (sort (λ p q. leb (len p) (len q)) ms) ≡ some p
    → 1 ≤ held p ms
shortest-held p ms h = omega (
  arith,
  first_path-held p (sort (λ p q. leb (len p) (len q)) ms) h,
  sum_by-sort (λ p q. leb (len p) (len q)) (λ q. if text_eq q p then 1 else 0) ms,
)

among-held :
    (p : Text) (few ms : List Text) → held p few ≤ held p ms → among few ms ≡ some p → 1 ≤ held p ms
unfolding among
among-held p [] ms b h = shortest-held p ms h
among-held p (q ∷ []) ms b h = ground (arith, b, h, text_eq_refl p)
among-held p (q ∷ (r ∷ few)) ms b h = shortest-held p ms h

best_from-held :
    (p : Text) (n : ℕ) (parts paths : List Text) (best : Option (Text × ℕ))
    → best_from parts paths best ≡ some (p, n)
    → (1 ≤ held p paths) ⊎ ((m : ℕ) × (best ≡ some (p, m)))
unfolding best_from
best_from-held p n parts [] best h = inr (n, h)
best_from-held p n parts (q ∷ paths) none h = elim (best_from-held p n parts paths _ h) [
  | inl b ↦ inl (omega (arith, b))
  | inr (m, e) ↦ inl (ground (arith, e, text_eq_refl p))
]
best_from-held p n parts (q ∷ paths) (some (r, m)) h = elim (best_from-held p n parts paths _ h) [
  | inl b ↦ inl (omega (arith, b))
  | inr (k, e) ↦ elim (Bool-cases (ltb m (overlap (reverse parts) (reverse (split b'/' q))))) [
    | inl t ↦ inl (ground (arith, e, t, text_eq_refl p))
    | inr t ↦ inr (m, ground (arith, e, t))
  ]
]

best_path-held :
    (p : Text) (parts paths : List Text)
    → best_path (best_from parts paths none) ≡ some p
    → 1 ≤ held p paths
unfolding best_path
best_path-held p parts paths h = elim (Option-cases (best_from parts paths none)) [
  | inl e ↦ absurd (ground (arith, e, h))
  | inr ((q, n), e) ↦ elim (best_from-held p n parts paths none (ground (arith, e, h))) [
    | inl b ↦ b
    | inr (m, t) ↦ absurd (ground (arith, t))
  ]
]

by_filename-held :
    (p path : Text) (paths : List Text) → by_filename path (some paths) ≡ some p → 1 ≤ held p paths
unfolding by_filename best_path
by_filename-held p path [] h = cc
by_filename-held p path (q ∷ []) h = ground (arith, h, text_eq_refl p)
by_filename-held p path (q ∷ (r ∷ paths)) h = best_path-held p (split b'/' path) (q ∷ (r ∷ paths)) h

by_suffix-held :
    (path p : Text) (tree : Index) (ms : List Text)
    → by_suffix path tree ms ≡ some p
    → (1 ≤ held p ms) ⊎ (by_filename path (get_paths (filename_of path) tree) ≡ some p)
unfolding by_suffix
by_suffix-held path p tree [] h = inr h
by_suffix-held path p tree (q ∷ []) h = inl (ground (arith, h, text_eq_refl p))
by_suffix-held path p tree (q ∷ (r ∷ ms)) h = inl (
    among-held p (filter (contains (codes "/src/main/")) (q ∷ (r ∷ ms))) (q ∷ (r ∷ ms))
      (count-filter_le (λ q. text_eq q p) (contains (codes "/src/main/")) (q ∷ (r ∷ ms))) h)

found_by_name :
    (path p : Text) (tree : Index)
    → IsIndex tree
    → by_filename path (get_paths (filename_of path) tree) ≡ some p
    → (1 ≤ held p (flatten tree)) × (filename_of p ≡ filename_of path)
unfolding by_filename
found_by_name path p tree i h = elim (Option-cases (get_paths (filename_of path) tree)) [
  | inl n ↦ absurd (ground (arith, n, h))
  | inr (ps, e) ↦
      get_paths-held p (filename_of path) ps tree i e
        (by_filename-held p path ps (ap (by_filename path) (sym e) ∙ h))
]

first_path-some : (ms : List Text) → 1 ≤ length ms → (p : Text) × (first_path ms ≡ some p)
unfolding first_path
first_path-some [] n = absurd (omega (arith, n))
first_path-some (p ∷ ms) n = (p, refl)

among-some :
    (few : List Text) (ms : List Text) → 1 ≤ length ms → (p : Text) × (among few ms ≡ some p)
unfolding among
among-some [] ms n =
    first_path-some (sort _ ms) (omega (arith, n, length-sort (λ p q. leb (len p) (len q)) ms))
among-some (p ∷ []) ms n = (p, refl)
among-some (p ∷ (q ∷ few)) ms n =
    first_path-some (sort _ ms) (omega (arith, n, length-sort (λ p q. leb (len p) (len q)) ms))

by_suffix-some :
    (path f : Text) (tree : Index) (ms : List Text)
    → 1 ≤ held f ms
    → (p : Text) × (by_suffix path tree ms ≡ some p) × (1 ≤ held p ms)
unfolding by_suffix
by_suffix-some path f tree [] n = absurd (omega (arith, n))
by_suffix-some path f tree (q ∷ []) n = (q, refl, ground (arith, text_eq_refl q))
by_suffix-some path f tree (q ∷ (r ∷ ms)) n =
    (let few = filter (contains (codes "/src/main/")) (q ∷ (r ∷ ms)) in
      let (p, e) = among-some few (q ∷ (r ∷ ms)) (omega arith) in
      (
        p,
        e,
        among-held p few (q ∷ (r ∷ ms))
            (count-filter_le (λ q. text_eq q p) (contains (codes "/src/main/")) (q ∷ (r ∷ ms))) e,
      ))

module _ (iterate : List Text → List Text)
    (rearranges : (ps : List Text) → Perm (iterate ps) ps) where
  IsFile-held :
      (p : Text) (es : List TreeEntry) → 1 ≤ held p (flatten (index_from es [])) → IsFile p es
  unfolding flatten
  IsFile-held p es n = omega (arith, n, index_from-held p es [])

  held-iterate : (p : Text) (ps : List Text) → held p (iterate ps) ≡ held p ps
  held-iterate p ps = sum_by-perm (λ q. if text_eq q p then 1 else 0) (rearranges ps)

  match-IsFile :
      (path p : Text) (es : List TreeEntry)
      → 1 ≤ held p (filter (is_match path) (iterate (flatten (index_from es []))))
      → IsFile p es × (is_match path p ≡ true)
  match-IsFile path p es n = (
    IsFile-held p es (
        omega (
          arith,
          n,
          count-filter_le (λ q. text_eq q p) (is_match path) (iterate (flatten (index_from es []))),
          held-iterate p (flatten (index_from es [])),
        )),
    kept (is_match path) p (iterate (flatten (index_from es []))) n,
  )

  -- Whatever the order in which the names of the listing are iterated, the file that a coverage path
  -- is taken for is a blob of the listing with the same name.
  pub resolve_in-IsFile :
      (path p : Text) (es : List TreeEntry)
      → resolve_in iterate path (index_from es []) ≡ some p
      → IsFile p es × (filename_of p ≡ filename_of path)
  unfolding resolve_in IsIndex
  resolve_in-IsFile path p es h =
      (let tree = index_from es [] in
        elim (by_suffix-held path p tree (filter (is_match path) (iterate (flatten tree))) h) [
          | inl n ↦ (let (f, m) = match-IsFile path p es n in (f, is_match-name path p m))
          | inr e ↦
              (let (n, f) = found_by_name path p tree (index_from-IsIndex es [] tt) e in
                (IsFile-held p es n, f))
        ])

  -- Where a blob of the listing is the coverage path, or ends with it behind a slash, the path is
  -- taken for such a blob.
  pub resolve_in-prefers :
      (path f : Text) (es : List TreeEntry)
      → IsFile f es
      → is_match path f ≡ true
      → (p : Text) × (resolve_in iterate path (index_from es []) ≡ some p)
        × IsFile p es
        × (is_match path p ≡ true)
  unfolding resolve_in flatten
  resolve_in-prefers path f es h m =
      (let tree = index_from es [] in
        let n =
          filter-held (is_match path) f (iterate (flatten tree)) m
          ∙ held-iterate f (flatten tree)
          ∙ index_from-held f es [] in
        let (p, e, k) =
          by_suffix-some path f tree (filter (is_match path) (iterate (flatten tree)))
            (omega (arith, h, n)) in
        let (g, t) = match-IsFile path p es k in (p, e, g, t))
