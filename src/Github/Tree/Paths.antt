-- ===== src/Github/Tree/Paths.antt =====
-- About the index of a listing in github/source.rs: the paths it holds, and the names they have.
use omnivore.Prelude.{
  ℕ, ◌+◌, ◌≤◌, ◌≡◌, refl, sym, ap, ◌∙◌, inl, inr, Bool, true, ◌&&◌, some, List, [], ◌∷◌, ◌++◌,
  arith,
}
use mathlib.Core.List.{reverse, reverse-append, reverse-reverse}
use omnivore.Prelude.Tests.{if◌then◌else◌, Bool-cases, Option-cases}
use omnivore.Prelude.Count.{filter, count, count-append}
use omnivore.Prelude.Lists.{All, All-append}
use omnivore.Text.Base.{
  Text, codes, text_eq, text_eq_sound, starts_with, strip_prefix, strip_prefix_iff,
}
use omnivore.Text.Split.{rsplit_once}
use omnivore.Github.Tree.{
  TreeEntry, Index, filename_of, push_path, index_from, ends_with, flatten, get_paths, is_match,
}

abbrev pub held : Text → List Text → ℕ
held p ps = count (λ q. text_eq q p) ps

-- The listing has a blob at a path.
abbrev pub IsFile : Text → List TreeEntry → Type 0
IsFile p es =
    1 ≤ count (λ (e : TreeEntry). text_eq e.entry_type (codes "blob") && text_eq e.path p) es

push_path-held :
    (p name path : Text) (index : Index)
    → held p (flatten (push_path name path index))
      ≡ (if text_eq path p then 1 else 0) + held p (flatten index)
unfolding push_path flatten
push_path-held p name path [] = omega arith
push_path-held p name path ((k, ps) ∷ index) = elim (Bool-cases (text_eq k name)) [
  | inl e ↦
      rw (e, push_path)
        (omega (
          arith,
          count-append (λ q. text_eq q p) (ps ++ path ∷ []) (flatten index),
          count-append (λ q. text_eq q p) ps (path ∷ []),
          count-append (λ q. text_eq q p) ps (flatten index),
        ))
  | inr e ↦
      rw (e, push_path)
        (omega (
          arith,
          count-append (λ q. text_eq q p) ps (flatten (push_path name path index)),
          count-append (λ q. text_eq q p) ps (flatten index),
          push_path-held p name path index,
        ))
]

pub index_from-held :
    (p : Text) (es : List TreeEntry) (index : Index)
    → held p (flatten (index_from es index))
      ≡ count (λ (e : TreeEntry). text_eq e.entry_type (codes "blob") && text_eq e.path p) es
        + held p (flatten index)
unfolding index_from
index_from-held p [] index = omega arith
index_from-held p (e ∷ es) index = elim (Bool-cases (text_eq e.entry_type (codes "blob"))) [
  | inl b ↦
      rw (b, index_from)
        (omega (
          arith,
          index_from-held p es (push_path (filename_of e.path) e.path index),
          push_path-held p (filename_of e.path) e.path index,
        ))
  | inr b ↦ rw (b, index_from) (omega (arith, index_from-held p es index))
]

-- the paths of one name have it
unfoldable pub IsIndex : Index → Type 0
IsIndex index = All (λ (e : Text × List Text). All (λ p. filename_of p ≡ e.0) e.1) index

push_path-IsIndex :
    (path : Text) (index : Index)
    → IsIndex index
    → IsIndex (push_path (filename_of path) path index)
unfolding push_path IsIndex
push_path-IsIndex path [] h = ((refl, tt), tt)
push_path-IsIndex path ((k, ps) ∷ index) (a, h) = elim (Bool-cases (text_eq k (filename_of path))) [
  | inl e ↦
      rw (e, push_path)
        (
          All-append (λ p. filename_of p ≡ k) ps (path ∷ []) a
              (sym (text_eq_sound k (filename_of path) e), tt),
          h,
        )
  | inr e ↦ rw (e, push_path) (a, push_path-IsIndex path index h)
]

pub index_from-IsIndex :
    (es : List TreeEntry) (index : Index) → IsIndex index → IsIndex (index_from es index)
unfolding index_from
index_from-IsIndex [] index h = h
index_from-IsIndex (e ∷ es) index h = elim (Bool-cases (text_eq e.entry_type (codes "blob"))) [
  | inl b ↦ rw (b, index_from) (index_from-IsIndex es _ (push_path-IsIndex e.path index h))
  | inr b ↦ rw (b, index_from) (index_from-IsIndex es index h)
]

held-All : (P : Text → Type 0) (p : Text) (ps : List Text) → All P ps → 1 ≤ held p ps → P p
held-All P p [] h n = absurd (omega (arith, n))
held-All P p (q ∷ ps) (a, h) n = elim (Bool-cases (text_eq q p)) [
  | inl e ↦ rw (sym (text_eq_sound q p e)) a
  | inr e ↦ held-All P p ps h (ground (arith, n, e))
]

pub get_paths-held :
    (p name : Text) (ps : List Text) (index : Index)
    → IsIndex index
    → get_paths name index ≡ some ps
    → 1 ≤ held p ps
    → (1 ≤ held p (flatten index)) × (filename_of p ≡ name)
unfolding get_paths IsIndex flatten
get_paths-held p name ps [] i h n = cc
get_paths-held p name ps ((k, qs) ∷ index) (a, i) h n = elim (Bool-cases (text_eq k name)) [
  | inl e ↦ (
    ground (arith, e, h, n, count-append (λ q. text_eq q p) qs (flatten index)),
    held-All (λ p. filename_of p ≡ k) p qs a (ground (arith, e, h, n)) ∙ text_eq_sound k name e,
  )
  | inr e ↦
      (let (b, f) = get_paths-held p name ps index i (ground (arith, e, h)) n in
        (omega (arith, b, count-append (λ q. text_eq q p) qs (flatten index)), f))
]

-- what stands before the last part does not change it
rsplit_once-append :
    (d path : Text)
    → (a : Text) × (rsplit_once b'/' (d ++ b'/' ∷ path) ≡ some (a, filename_of path))
unfolding filename_of rsplit_once
rsplit_once-append [] path = elim (Option-cases (rsplit_once b'/' path)) [
  | inl n ↦ ([], ground (arith, n))
  | inr ((a, b), s) ↦ (b'/' ∷ a, ground (arith, s))
]
rsplit_once-append (c ∷ d) path =
    (let (a, e) = rsplit_once-append d path in (c ∷ a, ground (arith, e)))

filename_of-append : (d path : Text) → filename_of (d ++ b'/' ∷ path) ≡ filename_of path
filename_of-append d path =
    (let (a, e) = rsplit_once-append d path in unfold filename_of in ground (arith, e))

ends_with_sound : (suffix s : Text) → ends_with suffix s ≡ true → (d : Text) × (s ≡ d ++ suffix)
unfolding ends_with starts_with
ends_with_sound suffix s h = elim (Option-cases (strip_prefix (reverse suffix) (reverse s))) [
  | inl n ↦ absurd (ground (arith, h, n))
  | inr (r, e) ↦ (
    reverse r,
    sym (reverse-reverse s)
        ∙ ap reverse ((strip_prefix_iff (reverse suffix) (reverse s) r).0 e)
        ∙ reverse-append (reverse suffix) r
        ∙ ap (λ t. reverse r ++ t) (reverse-reverse suffix),
  )
]

pub is_match-name :
    (path full : Text) → is_match path full ≡ true → filename_of full ≡ filename_of path
unfolding is_match
is_match-name path full h = elim (Bool-cases (ends_with (b'/' ∷ path) full)) [
  | inl e ↦
      (let (d, q) = ends_with_sound (b'/' ∷ path) full e in
        ap filename_of q ∙ filename_of-append d path)
  | inr e ↦ ap filename_of (text_eq_sound full path (ground (arith, h, e)))
]

module _ (c : Text → Bool) (p : Text) where
  pub filter-held : (ps : List Text) → c p ≡ true → held p (filter c ps) ≡ held p ps
  filter-held [] h = refl
  filter-held (q ∷ ps) h = elim (Bool-cases (text_eq q p)) [
    | inl e ↦ ground (arith, e, h, text_eq_sound q p e, filter-held ps h)
    | inr e ↦ ground (arith, e, filter-held ps h)
  ]

  pub kept : (ps : List Text) → 1 ≤ held p (filter c ps) → c p ≡ true
  kept [] n = absurd (omega (arith, n))
  kept (q ∷ ps) n = elim (Bool-cases (c q)) [
    | inl e ↦ elim (Bool-cases (text_eq q p)) [
      | inl t ↦ ap c (sym (text_eq_sound q p t)) ∙ e
      | inr t ↦ kept ps (ground (arith, e, t, n))
    ]
    | inr e ↦ kept ps (ground (arith, e, n))
  ]
