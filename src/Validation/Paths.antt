-- ===== src/Validation/Paths.antt =====
-- What `is_safe_repo_path` of validation.rs accepts, as a grammar of paths.
use omnivore.Prelude.{
  ℕ, ◌<◌, ◌≤◌, ◌≡◌, refl, sym, ap, ◌∙◌, ◌≢◌, ◌↔◌, ◌⊎◌, true, false, List, [], ◌∷◌, ◌++◌, arith,
}
use mathlib.Core.Path.{subst}
use omnivore.Prelude.Lists.{All-weaken, All-both, All-append}
use omnivore.Text.Base.{Text, codes, len, is_control, All}
use omnivore.Text.Split.{
  split, split_self, split-append, split-Lacks, split-ne-nil, Lacks, join, join-split,
}
use omnivore.Validation.{unsafe_char, is_safe_repo_path}
use omnivore.Validation.Accepts.{is_safe_repo_path-IsSafePath}

-- no control character, no backslash, no slash, and none of the characters that end
-- the path of a URL or encode another character in it
abbrev pub IsPathChar : ℕ → Type 0
IsPathChar c =
    (0x1f < c) × ((c < 0x7f) ⊎ (0x9f < c)) × (c ≢ b'\\') × (c ≢ b'?') × (c ≢ b'#') × (c ≢ b'%')

abbrev pub IsSegment : Text → Type 0
IsSegment seg =
    (seg ≢ []) × (seg ≢ codes ".") × (seg ≢ codes "..") × All (λ c. IsPathChar c × (c ≢ b'/')) seg

-- One or more segments with a slash between them, 1024 bytes at most.
abbrev pub IsRepoPath : Text → Type 0
IsRepoPath path =
    (segs : List Text) × (segs ≢ [])
    × All IsSegment segs
    × (path ≡ join b'/' segs)
    × (len path ≤ 1024)

unsafe_char_iff : (c : ℕ) → (unsafe_char c ≡ false) ↔ IsPathChar c
unfolding unsafe_char is_control
unsafe_char_iff c = (λ h. ground arith, λ h. ground arith)

module _ (P : ℕ → Type 0) where
  All-append-left : (s t : Text) → All P (s ++ t) → All P s
  All-append-left [] t h = tt
  All-append-left (c ∷ s) t (p, h) = (p, All-append-left s t h)

  All-append-right : (s t : Text) → All P (s ++ t) → All P t
  All-append-right [] t h = h
  All-append-right (c ∷ s) t (p, h) = All-append-right s t h

  -- what all characters of a text have, those of its parts have
  All-parts : (sep : ℕ) (segs : List Text) → All P (join sep segs) → All (All P) segs
  unfolding join
  All-parts sep [] h = tt
  All-parts sep (p ∷ []) h = (h, tt)
  All-parts sep (p ∷ (q ∷ ps)) h =
      let rest = All-append-right p (sep ∷ join sep (q ∷ ps)) h in
      (All-append-left p _ h, All-parts sep (q ∷ ps) rest.1)

  All-join : (sep : ℕ) (segs : List Text) → P sep → All (All P) segs → All P (join sep segs)
  unfolding join
  All-join sep [] s h = tt
  All-join sep (p ∷ []) s h = h.0
  All-join sep (p ∷ (q ∷ ps)) s (h, k) = All-append P p _ h (s, All-join sep (q ∷ ps) s k)

-- Texts without the separator are the parts of the text that they make.
split-join :
    (sep : ℕ) (segs : List Text)
    → segs ≢ []
    → All (Lacks sep) segs
    → split sep (join sep segs) ≡ segs
unfolding join
split-join sep [] n h = absurd (n refl)
split-join sep (p ∷ []) n (h, k) = split_self sep p h
split-join sep (p ∷ (q ∷ ps)) n (h, k) =
    rw (split-append sep p (join sep (q ∷ ps)) h, split-join sep (q ∷ ps) (λ e. cc) k) refl

abbrev NoDots : Text → Type 0
NoDots seg = (seg ≢ []) × (seg ≢ codes ".") × (seg ≢ codes "..")

segment-Lacks : (seg : Text) → IsSegment seg → Lacks b'/' seg
segment-Lacks seg (_, _, _, h) = All-weaken (λ c p. p.1) seg h

segment-safe : (seg : Text) → IsSegment seg → All (λ c. unsafe_char c ≡ false) seg
segment-safe seg (_, _, _, h) = All-weaken (λ c p. (unsafe_char_iff c).1 p.0) seg h

segments_of :
    (segs : List Text)
    → All NoDots segs
    → All (All (λ c. unsafe_char c ≡ false)) segs
    → All (Lacks b'/') segs
    → All IsSegment segs
segments_of [] h k l = tt
segments_of (seg ∷ segs) ((a, b, c), h) (k, ks) (l, ls) = (
  (
    a,
    b,
    c,
    All-both IsPathChar (λ d. d ≢ b'/') seg (All-weaken (λ d. (unsafe_char_iff d).0) seg k) l,
  ),
  segments_of segs h ks ls,
)

-- `is_safe_repo_path` accepts exactly the paths of one or more segments with a slash between them and
-- at most 1024 bytes, where no segment is empty, `.` or `..`, and none holds a slash, a backslash, a
-- control character, `?`, `#` or `%`.
pub is_safe_repo_path_iff : (path : Text) → (is_safe_repo_path path ≡ true) ↔ IsRepoPath path
is_safe_repo_path_iff path = (
  λ h.
      let p = (is_safe_repo_path-IsSafePath path).0 h in
      let segs = split b'/' path in
      let spelled = join-split b'/' path in
      let chars = All-parts _ b'/' segs (subst (All _) (sym spelled) p.chars) in
      (
        segs,
        split-ne-nil b'/' path,
        segments_of segs p.segments chars (split-Lacks b'/' path),
        sym spelled,
        p.short,
      ),
  λ (segs, n, all, e, short). (is_safe_repo_path-IsSafePath path).1 (record {
    short = short;
    chars = rw e (
        All-join (λ c. unsafe_char c ≡ false) b'/' segs (unfold unsafe_char is_control in refl)
          (All-weaken segment-safe segs all));
    segments =
        subst (All NoDots)
          (sym (ap (split b'/') e ∙ split-join b'/' segs n (All-weaken segment-Lacks segs all)))
          (All-weaken (λ seg (a, b, c, _). (a, b, c)) segs all);
  }),
)
