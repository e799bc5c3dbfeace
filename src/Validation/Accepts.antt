-- ===== src/Validation/Accepts.antt =====
-- What the checks of validation.rs accept, in terms of the text alone.
use omnivore.Prelude.{
  ℕ, ◌≤◌, ◌≡◌, refl, sym, ◌≢◌, ◌↔◌, Bool, true, false, not, ◌&&◌, List, [], ◌∷◌, ◌++◌, arith,
}
use omnivore.Prelude.Tests.{leb}
use omnivore.Prelude.Lists.{All-weaken}
use omnivore.Text.Base.{
  Text, codes, text_eq, text_eq_iff, len, is_empty, starts_with, all, all_iff, All, any,
}
use omnivore.Text.Split.{split, split_self, split-append, Lacks, join, join-split}
use omnivore.Validation.{
  owner_char, name_char, is_valid_owner, is_valid_repo_name, slug_parts, is_valid_repo_slug,
  unsafe_char, safe_segment, is_safe_repo_path, is_valid_git_ref,
}

-- A name of at most `limit` bytes, not empty and no dot segment, of characters that pass `ok`.
pub record IsName (limit : ℕ) (ok : ℕ → Bool) (s : Text) : Type 0 where
  pub nonempty : s ≢ []
  pub short : len s ≤ limit
  pub not_dot : s ≢ codes "."
  pub not_dots : s ≢ codes ".."
  pub chars : All (λ c. ok c ≡ true) s

is_empty_iff : (s : Text) → (is_empty s ≡ true) ↔ (s ≡ [])
unfolding is_empty
is_empty_iff [] = (λ h. refl, λ h. refl)
is_empty_iff (c ∷ s) = (λ h. cc, λ h. cc)

-- the conjunction that the three checks of names share
name_test : ℕ → (ℕ → Bool) → Text → Bool
name_test limit ok s =
    not (is_empty s)
    && leb (len s) limit
    && not (text_eq s (codes "."))
    && not (text_eq s (codes ".."))
    && all ok s

name_test_iff :
    (limit : ℕ) (ok : ℕ → Bool) (s : Text) → (name_test limit ok s ≡ true) ↔ IsName limit ok s
unfolding name_test
name_test_iff limit ok s = (
  λ h. record {
    nonempty = ground (arith, is_empty_iff s);
    short = ground arith;
    not_dot = ground (arith, text_eq_iff s (codes "."));
    not_dots = ground (arith, text_eq_iff s (codes ".."));
    chars = (all_iff ok s).0 (ground arith);
  },
  λ h. ground (
    arith,
    is_empty_iff s,
    text_eq_iff s (codes "."),
    text_eq_iff s (codes ".."),
    (all_iff ok s).1 h.chars,
  ),
)

pub is_valid_owner_iff : (s : Text) → (is_valid_owner s ≡ true) ↔ IsName 39 owner_char s
unfolding is_valid_owner name_test
is_valid_owner_iff = name_test_iff 39 owner_char

pub is_valid_repo_name_iff : (s : Text) → (is_valid_repo_name s ≡ true) ↔ IsName 100 name_char s
unfolding is_valid_repo_name name_test
is_valid_repo_name_iff = name_test_iff 100 name_char

pub is_valid_git_ref_iff : (s : Text) → (is_valid_git_ref s ≡ true) ↔ IsName 100 name_char s
unfolding is_valid_git_ref name_test
is_valid_git_ref_iff = name_test_iff 100 name_char

owner_char-ne-slash : (c : ℕ) → owner_char c ≡ true → c ≢ b'/'
unfolding owner_char
owner_char-ne-slash c h e = ground arith

name_char-ne-slash : (c : ℕ) → name_char c ≡ true → c ≢ b'/'
unfolding name_char
name_char-ne-slash c h e = ground arith

pub owner-Lacks : (limit : ℕ) (s : Text) → IsName limit owner_char s → Lacks b'/' s
owner-Lacks limit s h = All-weaken owner_char-ne-slash s h.chars

pub name-Lacks : (limit : ℕ) (s : Text) → IsName limit name_char s → Lacks b'/' s
name-Lacks limit s h = All-weaken name_char-ne-slash s h.chars

-- A slug is two names of the right kind around one slash.
abbrev pub IsSlug : Text → Type 0
IsSlug repo =
    (owner : Text) × (name : Text) × (repo ≡ owner ++ b'/' ∷ name)
    × IsName 39 owner_char owner
    × IsName 100 name_char name

slug_parts-IsSlug :
    (repo : Text) (ps : List Text) → join b'/' ps ≡ repo → slug_parts ps ≡ true → IsSlug repo
unfolding slug_parts join
slug_parts-IsSlug repo (owner ∷ (name ∷ [])) e h = (
  owner,
  name,
  sym e,
  (is_valid_owner_iff owner).0 (ground arith),
  (is_valid_repo_name_iff name).0 (ground arith),
)
slug_parts-IsSlug repo _ e h = cc

-- `is_valid_repo_slug` accepts exactly the texts `owner/name` of an owner of at most 39 bytes and a
-- name of at most 100 bytes, neither empty nor `.` nor `..`, each made of the characters allowed.
pub is_valid_repo_slug_iff : (repo : Text) → (is_valid_repo_slug repo ≡ true) ↔ IsSlug repo
unfolding is_valid_repo_slug
is_valid_repo_slug_iff repo = (
  λ h. slug_parts-IsSlug repo (split b'/' repo) (join-split b'/' repo) h,
  λ (owner, name, e, o, n).
      rw
        (
          e,
          split-append b'/' owner name (owner-Lacks 39 owner o),
          split_self b'/' name (name-Lacks 100 name n),
        )
        (ground (arith, (is_valid_owner_iff owner).1 o, (is_valid_repo_name_iff name).1 n)),
)

-- The path passes the test of its length, its characters and its segments.
pub record IsSafePath (path : Text) : Type 0 where
  pub short : len path ≤ 1024
  pub chars : All (λ c. unsafe_char c ≡ false) path
  pub segments : All (λ seg. (seg ≢ []) × (seg ≢ codes ".") × (seg ≢ codes "..")) (split b'/' path)

any_iff : (f : ℕ → Bool) (s : Text) → (any f s ≡ false) ↔ All (λ c. f c ≡ false) s
unfolding any
any_iff f [] = (λ h. tt, λ h. refl)
any_iff f (c ∷ s) = (λ h. ground (arith, any_iff f s), λ h. ground (arith, any_iff f s))

pub safe_segment_iff :
    (seg : Text) → (safe_segment seg ≡ true) ↔ (seg ≢ []) × (seg ≢ codes ".") × (seg ≢ codes "..")
unfolding safe_segment
safe_segment_iff seg =
    ground (arith, is_empty_iff seg, text_eq_iff seg (codes "."), text_eq_iff seg (codes ".."))

safe_segments_iff :
    (segs : List Text)
    → (all safe_segment segs ≡ true)
      ↔ All (λ seg. (seg ≢ []) × (seg ≢ codes ".") × (seg ≢ codes "..")) segs
unfolding all
safe_segments_iff [] = (λ h. tt, λ h. refl)
safe_segments_iff (seg ∷ segs) = (
  λ h. ((safe_segment_iff seg).0 (ground arith), (safe_segments_iff segs).0 (ground arith)),
  λ (p, ps). ground (arith, (safe_segment_iff seg).1 p, (safe_segments_iff segs).1 ps),
)

-- A path that begins with a slash has an empty first segment.
absolute-empty :
    (path : Text) → starts_with (codes "/") path ≡ true → all safe_segment (split b'/' path) ≡ false
unfolding starts_with split all safe_segment
absolute-empty [] h = cc
absolute-empty (c ∷ s) h = ground arith

empty-unsafe : (path : Text) → is_empty path ≡ true → all safe_segment (split b'/' path) ≡ false
unfolding is_empty split all safe_segment
empty-unsafe [] h = refl
empty-unsafe (c ∷ s) h = cc

pub is_safe_repo_path-IsSafePath : (path : Text) → (is_safe_repo_path path ≡ true) ↔ IsSafePath path
unfolding is_safe_repo_path
is_safe_repo_path-IsSafePath path = (
  λ h. record {
    short = ground arith;
    chars = (any_iff unsafe_char path).0 (ground arith);
    segments = (safe_segments_iff (split b'/' path)).0 (ground arith);
  },
  λ h. ground (
    arith,
    absolute-empty path,
    empty-unsafe path,
    h.short,
    (any_iff unsafe_char path).1 h.chars,
    (safe_segments_iff (split b'/' path)).1 h.segments,
  ),
)
