-- ===== src/Pages/Composite/Bounds.antt =====
-- About the union of the composite: how many lines and files it has.
use omnivore.Prelude.{
  ℕ, suc, ◌+◌, ◌^◌, ◌≤◌, ◌<◌, ◌≡◌, refl, ap, ◌∙◌, Bool, true, not, inl, inr, List, [], ◌∷◌, map,
  arith,
}
use omnivore.Prelude.Tests.{Bool-cases}
use omnivore.Prelude.Lists.{length}
use omnivore.Prelude.Sort.{sum_by}
use omnivore.Prelude.Count.{filter, count-le}
use omnivore.Prelude.Int.{ℤ, is_positive, pos, wrap_i64, wrap_i64-eq, +ℤ_pos}
use omnivore.Text.Base.{Text, text_eq, all, any}
use omnivore.Model.Report.{LineCoverage, FileCoverage, sum_i64, add_i64}
use omnivore.Pages.Target.{TargetSnapshot}
use omnivore.Pages.Composite.{
  LineMap, UnionMap, mark, mark_all, mark_file, mark_files, union_of, has_lines, covered_in,
  has_any,
}

add_i64-pos : (a b : ℕ) → a + b < 2 ^ 63 → add_i64 (pos a) (pos b) ≡ pos (a + b)
add_i64-pos a b h = ap wrap_i64 (+ℤ_pos a b) ∙ wrap_i64-eq (pos (a + b)) (omega arith, omega arith)

sum_i64-pos :
    {A : Type 0} (g : A → ℕ) (a : ℕ) (xs : List A)
    → a + sum_by g xs < 2 ^ 63
    → sum_i64 (pos a) (map (λ x. pos (g x)) xs) ≡ pos (a + sum_by g xs)
unfolding sum_i64
sum_i64-pos g a [] h = ap pos (omega arith)
sum_i64-pos g a (x ∷ xs) h =
    ap (λ n. sum_i64 n (map (λ y. pos (g y)) xs)) (add_i64-pos a (g x) (omega arith))
    ∙ sum_i64-pos g (a + g x) xs (omega arith)
    ∙ ap pos (omega arith)

pub sum_i64-zero :
    {A : Type 0} (g : A → ℕ) (xs : List A)
    → sum_by g xs < 2 ^ 63
    → sum_i64 (pos 0) (map (λ x. pos (g x)) xs) ≡ pos (sum_by g xs)
sum_i64-zero g xs h = sum_i64-pos g 0 xs (omega arith) ∙ ap pos (omega arith)

-- the line entries of a map
abbrev pub entries : UnionMap → ℕ
entries union = sum_by (λ (u : Text × LineMap). length u.1) union

length-mark :
    (n : ℤ) (hit : Bool) (lines : LineMap) → length (mark n hit lines) ≤ suc (length lines)
unfolding mark
length-mark n hit [] = omega arith
length-mark n hit ((m, b) ∷ lines) = ground (arith, length-mark n hit lines)

length-mark_all :
    (ls : List LineCoverage) (lines : LineMap)
    → length (mark_all ls lines) ≤ length ls + length lines
unfolding mark_all
length-mark_all [] lines = omega arith
length-mark_all (l ∷ ls) lines =
    let hit = is_positive l.hit_count in
    omega (
      arith,
      length-mark l.line_number hit lines,
      length-mark_all ls (mark l.line_number hit lines),
    )

-- What a file adds to the map: itself at most, its lines at most, and never nothing at all.
mark_file_bounds :
    (p : Text) (ls : List LineCoverage) (union : UnionMap)
    → (length (mark_file p ls union) ≤ suc (length union))
      × (0 < length (mark_file p ls union))
      × (length union ≤ length (mark_file p ls union))
      × (entries (mark_file p ls union) ≤ length ls + entries union)
unfolding mark_file
mark_file_bounds p ls [] =
    (omega arith, omega arith, omega arith, omega (arith, length-mark_all ls []))
mark_file_bounds p ls ((q, lines) ∷ union) = elim (Bool-cases (text_eq q p)) [
  | inl e ↦ rw e (omega arith, omega arith, omega arith, omega (arith, length-mark_all ls lines))
  | inr e ↦
      (let (a, b, c, d) = mark_file_bounds p ls union in
        rw e (omega arith, omega arith, omega arith, omega arith))
]

any-pos : {A : Type 0} (p : A → Bool) (xs : List A) → any p xs ≡ true → 0 < length xs
unfolding any
any-pos p [] h = cc
any-pos p (x ∷ xs) h = omega arith

pub covered-le : (m : UnionMap) → sum_by (λ (u : Text × LineMap). covered_in u.1) m ≤ entries m
unfolding covered_in
covered-le [] = omega arith
covered-le ((p, lines) ∷ m) = omega (arith, covered-le m, count-le (λ (l : ℤ × Bool). l.1) lines)

pub has_any-pos : {A : Type 0} (xs : List A) → 0 < length xs → has_any xs ≡ true
unfolding has_any
has_any-pos [] h = absurd (omega arith)
has_any-pos (x ∷ xs) h = refl

-- a total to which nothing is added
pub add-nothing :
    {A : Type 0} (f : A → ℤ) (z : ℤ) (n : ℕ) (xs : List A)
    → n < 2 ^ 63
    → xs ≡ []
    → z ≡ pos n
    → add_i64 z (sum_i64 (pos 0) (map f xs)) ≡ pos n
unfolding sum_i64
add-nothing f z n xs h e q =
    ap (λ ys. add_i64 z (sum_i64 (pos 0) (map f ys))) e
    ∙ ap (λ y. add_i64 y (pos 0)) q
    ∙ add_i64-pos n 0 (omega arith)
    ∙ ap pos (omega arith)

module _ {R : Type 0} where
  abbrev file_records : List (FileCoverage R) → ℕ
  file_records fs = sum_by (λ f. length f.lines) fs

  -- the line records of all targets, and their files
  abbrev pub records : List (TargetSnapshot R) → ℕ
  records ts = sum_by (λ t. file_records t.files) ts

  abbrev pub file_entries : List (TargetSnapshot R) → ℕ
  file_entries ts = sum_by (λ t. length t.files) ts

  mark_files_bounds :
      (fs : List (FileCoverage R)) (union : UnionMap)
      → (length (mark_files fs union) ≤ length fs + length union)
        × (length union ≤ length (mark_files fs union))
        × (entries (mark_files fs union) ≤ file_records fs + entries union)
  unfolding mark_files
  mark_files_bounds [] union = (omega arith, omega arith, omega arith)
  mark_files_bounds (f ∷ fs) union =
      let (a, b, c, d) = mark_file_bounds f.path f.lines union in
      let (x, y, z) = mark_files_bounds fs (mark_file f.path f.lines union) in
      (omega arith, omega arith, omega arith)

  pub mark_files-pos :
      (fs : List (FileCoverage R)) (union : UnionMap)
      → 0 < length fs
      → 0 < length (mark_files fs union)
  unfolding mark_files
  mark_files-pos [] union h = absurd (omega arith)
  mark_files-pos (f ∷ fs) union h = omega (
    arith,
    (mark_file_bounds f.path f.lines union).1,
    (mark_files_bounds fs (mark_file f.path f.lines union)).1,
  )

  pub union_of_bounds :
      (ts : List (TargetSnapshot R)) (union : UnionMap)
      → (length (union_of ts union) ≤ file_entries ts + length union)
        × (length union ≤ length (union_of ts union))
        × (entries (union_of ts union) ≤ records ts + entries union)
  unfolding union_of
  union_of_bounds [] union = (omega arith, omega arith, omega arith)
  union_of_bounds (t ∷ ts) union =
      let (a, b, c) = mark_files_bounds t.files union in
      let (x, y, z) = union_of_bounds ts (mark_files t.files union) in
      (omega arith, omega arith, omega arith)

  pub has_lines-pos : (t : TargetSnapshot R) → has_lines t ≡ true → 0 < length t.files
  unfolding has_lines
  has_lines-pos t h = any-pos _ t.files h

  pub all-filter :
      (p : TargetSnapshot R → Bool) (ts : List (TargetSnapshot R))
      → all p ts ≡ true
      → (filter p ts ≡ ts) × (filter (λ t. not (p t)) ts ≡ [])
  unfolding all
  all-filter p [] h = (refl, refl)
  all-filter p (t ∷ ts) h = elim (Bool-cases (p t)) [
    | inl e ↦
        (let (a, b) = all-filter p ts (ground (arith, h, e)) in
          (rw e (ap (λ xs. t ∷ xs) a), rw e b))
    | inr e ↦ absurd (ground (arith, h, e))
  ]
