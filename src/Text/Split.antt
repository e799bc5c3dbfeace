-- ===== src/Text/Split.antt =====
-- The splitting methods of `str`: `split`, `splitn`, `split_whitespace`, `lines`, `find`, `rfind`.
use omnivore.Prelude.{
  ℕ, zero, suc, ◌≡◌, refl, ◌≢◌, Option, none, some, inl, inr, List, [], ◌∷◌, ◌++◌, arith,
}
use omnivore.Prelude.Tests.{◌==◌, if◌then◌else◌, Bool-cases, Option-cases}
use omnivore.Text.Base.{Text, is_empty, is_whitespace, All}

-- `c` in front of the first part
unfoldable pub push_front : ℕ → List Text → List Text
push_front c [] = (c ∷ []) ∷ []
push_front c (p ∷ ps) = (c ∷ p) ∷ ps

-- `s.split(sep)`: there is always a part
unfoldable pub split : ℕ → Text → List Text
unfolding push_front
split sep [] = [] ∷ []
split sep (c ∷ s) = if c == sep then [] ∷ split sep s else push_front c (split sep s)

-- `s.splitn(n, sep)`: at most `n` parts, the last one with all that is left
unfoldable pub splitn : ℕ → ℕ → Text → List Text
unfolding push_front
splitn zero sep s = []
splitn (suc zero) sep s = s ∷ []
splitn (suc (suc n)) sep [] = [] ∷ []
splitn (suc (suc n)) sep (c ∷ s) =
    let cut = splitn (suc n) sep s in
    let go = splitn (suc (suc n)) sep s in if c == sep then [] ∷ cut else push_front c go

-- `s.split_once(sep)`, which for one character is also `find` with the two slices around it
unfoldable pub split_once : ℕ → Text → Option (Text × Text)
split_once sep [] = none
split_once sep (c ∷ s) =
    if c == sep
    then some ([], s)
    else elim (split_once sep s) [ none ↦ none | some (a, b) ↦ some (c ∷ a, b) ]

-- `s.rfind(sep)` with the two slices around it
unfoldable pub rsplit_once : ℕ → Text → Option (Text × Text)
rsplit_once sep [] = none
rsplit_once sep (c ∷ s) = elim (rsplit_once sep s) [
  | some (a, b) ↦ some (c ∷ a, b)
  | none ↦ if c == sep then some ([], s) else none
]

-- `s.split_whitespace()`: the runs of characters that are no white space
unfoldable pub whitespace_runs : Text → List Text
unfolding push_front is_whitespace
whitespace_runs [] = [] ∷ []
whitespace_runs (c ∷ s) =
    if is_whitespace c then [] ∷ whitespace_runs s else push_front c (whitespace_runs s)

unfoldable pub nonempty_parts : List Text → List Text
unfolding is_empty
nonempty_parts [] = []
nonempty_parts (p ∷ ps) = if is_empty p then nonempty_parts ps else p ∷ nonempty_parts ps

unfoldable pub split_whitespace : Text → List Text
unfolding whitespace_runs nonempty_parts
split_whitespace s = nonempty_parts (whitespace_runs s)

-- the carriage return of a line that ended in "\r\n"
unfoldable pub strip_cr : Text → Text
strip_cr [] = []
strip_cr (c ∷ []) = if c == b'\r' then [] else c ∷ []
strip_cr (c ∷ (d ∷ s)) = c ∷ strip_cr (d ∷ s)

unfoldable pub end_lines : List Text → List Text
unfolding strip_cr is_empty
end_lines [] = []
end_lines (p ∷ []) = if is_empty p then [] else p ∷ []
end_lines (p ∷ (q ∷ ps)) = strip_cr p ∷ end_lines (q ∷ ps)

-- `s.lines()`
unfoldable pub lines : Text → List Text
unfolding split end_lines
lines s = end_lines (split b'\n' s)

-- the parts with the separator between them
unfoldable pub join : ℕ → List Text → Text
join sep [] = []
join sep (p ∷ []) = p
join sep (p ∷ (q ∷ ps)) = p ++ sep ∷ join sep (q ∷ ps)

pub split-ne-nil : (sep : ℕ) (s : Text) → split sep s ≢ []
unfolding split
split-ne-nil sep [] = cc
split-ne-nil sep (c ∷ s) = ground arith

push_front-join :
    (sep c : ℕ) (ps : List Text) → ps ≢ [] → join sep (push_front c ps) ≡ c ∷ join sep ps
unfolding push_front join
push_front-join sep c [] h = absurd (h refl)
push_front-join sep c (p ∷ []) h = refl
push_front-join sep c (p ∷ (q ∷ ps)) h = refl

join-cons :
    (sep : ℕ) (p : Text) (ps : List Text) → ps ≢ [] → join sep (p ∷ ps) ≡ p ++ sep ∷ join sep ps
unfolding join
join-cons sep p [] h = absurd (h refl)
join-cons sep p (q ∷ ps) h = refl

-- The parts of a split spell the text, with the separator between them.
pub join-split : (sep : ℕ) (s : Text) → join sep (split sep s) ≡ s
unfolding split
join-split sep [] = unfold join in refl
join-split sep (c ∷ s) = ground (
  arith,
  join-cons sep [] (split sep s) (split-ne-nil sep s),
  push_front-join sep c (split sep s) (split-ne-nil sep s),
  join-split sep s,
)

push_front-Lacks :
    (sep c : ℕ) (ps : List Text)
    → c ≢ sep
    → All (All (λ d. d ≢ sep)) ps
    → All (All (λ d. d ≢ sep)) (push_front c ps)
unfolding push_front
push_front-Lacks sep c [] n h = ((n, tt), tt)
push_front-Lacks sep c (p ∷ ps) n h = ((n, h.0), h.1)

-- No part of a split holds the separator.
pub split-Lacks : (sep : ℕ) (s : Text) → All (All (λ c. c ≢ sep)) (split sep s)
unfolding split
split-Lacks sep [] = (tt, tt)
split-Lacks sep (c ∷ s) = ground (arith, split-Lacks sep s, push_front-Lacks sep c (split sep s))

abbrev pub Lacks : ℕ → Text → Type 0
Lacks sep p = All (λ c. c ≢ sep) p

-- A text without the separator is its only part.
pub split_self : (sep : ℕ) (p : Text) → Lacks sep p → split sep p ≡ p ∷ []
unfolding split push_front
split_self sep [] h = refl
split_self sep (c ∷ p) (n, h) = ground (arith, split_self sep p h)

-- Splitting goes on behind a separator.
pub split-append : (sep : ℕ) (p s : Text) → Lacks sep p → split sep (p ++ sep ∷ s) ≡ p ∷ split sep s
unfolding split push_front
split-append sep [] s h = ground arith
split-append sep (c ∷ p) s (n, h) = ground (arith, split-append sep p s h)

-- `splitn` cuts at a separator while parts are left,
pub splitn-append :
    (n sep : ℕ) (p s : Text)
    → Lacks sep p
    → splitn (suc (suc n)) sep (p ++ sep ∷ s) ≡ p ∷ splitn (suc n) sep s
unfolding splitn push_front
splitn-append n sep [] s h = ground arith
splitn-append n sep (c ∷ p) s (k, h) = ground (arith, splitn-append n sep p s h)

-- and leaves a text without one whole.
pub splitn_self : (n sep : ℕ) (p : Text) → Lacks sep p → splitn (suc n) sep p ≡ p ∷ []
unfolding splitn push_front
splitn_self zero sep p h = refl
splitn_self (suc n) sep [] h = refl
splitn_self (suc n) sep (c ∷ p) (k, h) = ground (arith, splitn_self (suc n) sep p h)

-- The parts around the first separator: what stands before it has none.
pub split_once_sound :
    (sep : ℕ) (s a b : Text) → split_once sep s ≡ some (a, b) → (s ≡ a ++ sep ∷ b) × Lacks sep a
unfolding split_once
split_once_sound sep [] a b h = cc
split_once_sound sep (c ∷ s) a b h = elim (Bool-cases (c == sep)) [
  | inl e ↦ ground (arith, h, e)
  | inr e ↦ elim (Option-cases (split_once sep s)) [
    | inl q ↦ absurd (ground (arith, h, e, q))
    | inr ((x, y), q) ↦
        (let (p, l) = split_once_sound sep s x y q in
          let r : a ≡ c ∷ x = ground (arith, h, e, q) in
          (ground (arith, h, e, q, p), rw r (ground (arith, e), l)))
  ]
]

pub split_once-append :
    (sep : ℕ) (a b : Text) → Lacks sep a → split_once sep (a ++ sep ∷ b) ≡ some (a, b)
unfolding split_once
split_once-append sep [] b h = ground arith
split_once-append sep (c ∷ a) b (n, h) = ground (arith, n, split_once-append sep a b h)
