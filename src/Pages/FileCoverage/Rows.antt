-- ===== src/Pages/FileCoverage/Rows.antt =====
-- About `line_rows`: the rows that a page without source has.
use omnivore.Prelude.{
  ℕ, zero, suc, ◌+◌, ◌<◌, ◌≤◌, ◌≡◌, refl, sym, ap, ◌∙◌, some, inl, inr, List, [], ◌∷◌, arith,
}
use omnivore.Prelude.Tests.{if◌then◌else◌, Bool-cases, Option-cases}
use omnivore.Prelude.Lists.{length, get_elem?, All, All-weaken, All-both}
use omnivore.Prelude.Int.{ℤ, pos, pos_part, is_positive, max_ℤ, ◌≤ℤ◌}
use omnivore.Text.Base.{Text}
use omnivore.Model.Report.{LineCoverage, FileCoverage}
use omnivore.Pages.Composite.Union.{same_line_iff}
use omnivore.Pages.FileCoverage.{
  LineStatus, covered, uncovered, LineRow, hit_map, highest, max_line, line_row, rows_from,
  source_lines, line_rows,
}

length-rows_from :
    (row : ℕ → LineRow) (first count : ℕ) → length (rows_from row first count) ≡ count
unfolding rows_from
length-rows_from row first zero = refl
length-rows_from row first (suc count) = ap suc (length-rows_from row (first + 1) count)

get_elem?-rows_from :
    (row : ℕ → LineRow) (first count i : ℕ)
    → i < count
    → get_elem? (rows_from row first count) i ≡ some (row (first + i))
unfolding rows_from
get_elem?-rows_from row first zero i h = absurd (omega arith)
get_elem?-rows_from row first (suc count) zero h = ap (λ (n : ℕ). some (row n)) (omega arith)
get_elem?-rows_from row first (suc count) (suc i) h =
    get_elem?-rows_from row (first + 1) count i (omega arith)
    ∙ ap (λ (n : ℕ). some (row n)) (omega arith)

highest-above : (best : ℤ) (ls : List LineCoverage) → best ≤ℤ highest best ls
unfolding highest
highest-above best [] = omega arith
highest-above best (l ∷ ls) = ground (arith, highest-above (max_ℤ best l.line_number) ls)

highest-covers :
    (best : ℤ) (ls : List LineCoverage) → All (λ l. l.line_number ≤ℤ highest best ls) ls
unfolding highest
highest-covers best [] = tt
highest-covers best (l ∷ ls) = (
  ground (arith, highest-above (max_ℤ best l.line_number) ls),
  highest-covers (max_ℤ best l.line_number) ls,
)

hit_map-cons :
    (l : LineCoverage) (ls : List LineCoverage) (n h : ℤ)
    → hit_map ls n ≡ some h
    → hit_map (l ∷ ls) n ≡ some h
unfolding hit_map
hit_map-cons l ls n h e = rw (e, hit_map) refl

hit_map-covers :
    (ls : List LineCoverage) → All (λ l. (h : ℤ) × (hit_map ls l.line_number ≡ some h)) ls
hit_map-covers [] = tt
hit_map-covers (l ∷ ls) = (
  elim (Option-cases (hit_map ls l.line_number)) [
    | inl e ↦ (
      l.hit_count,
      unfold hit_map in
          rw (e, hit_map) (rw ((same_line_iff l.line_number l.line_number).1 refl) refl),
    )
    | inr (h, e) ↦ (h, hit_map-cons l ls l.line_number h e)
  ],
  All-weaken (λ k q. (q.0, hit_map-cons l ls k.line_number q.0 q.1)) ls (hit_map-covers ls),
)

pub status_of : ℤ → LineStatus
status_of hits = if is_positive hits then covered else uncovered

-- the rows show a record: at its line is a row with the status of the last record of that line
abbrev pub Shows : List LineCoverage → List LineRow → LineCoverage → Type 0
Shows ls rows l =
    (n : ℕ)
    → l.line_number ≡ pos (suc n)
    → suc n ≤ 50_000
    → (r : LineRow) × (h : ℤ) × (get_elem? rows n ≡ some r)
      × (r.number ≡ pos (suc n))
      × (hit_map ls (pos (suc n)) ≡ some h)
      × (r.status ≡ status_of h)

max_line-above :
    (l : LineCoverage) (ls : List LineCoverage) (k : LineCoverage) (n : ℕ)
    → k.line_number ≤ℤ highest l.line_number ls
    → k.line_number ≡ pos (suc n)
    → suc n ≤ 50_000
    → n < pos_part (max_line [] (l ∷ ls))
unfolding max_line
max_line-above l ls k n h e b = ground (arith, e, h)

max_line-bounded : (ls : List LineCoverage) → pos_part (max_line [] ls) ≤ 50_000
unfolding max_line
max_line-bounded [] = omega arith
max_line-bounded (l ∷ ls) = ground arith

line_row-tracked :
    (source : List Text) (ls : List LineCoverage) (n : ℕ) (h : ℤ)
    → hit_map ls (pos n) ≡ some h
    → ((line_row source ls n).number ≡ pos n) × ((line_row source ls n).status ≡ status_of h)
unfolding line_row status_of
line_row-tracked source ls n h e = elim (Bool-cases (is_positive h)) [
  | inl p ↦ rw (e, line_row) (rw p (refl, refl))
  | inr p ↦ rw (e, line_row) (rw p (refl, refl))
]

row-Shows :
    (l : LineCoverage) (ls : List LineCoverage) (k : LineCoverage)
    → ((h : ℤ) × (hit_map (l ∷ ls) k.line_number ≡ some h))
      × (k.line_number ≤ℤ highest l.line_number ls)
    → Shows (l ∷ ls) (rows_from (line_row [] (l ∷ ls)) 1 (pos_part (max_line [] (l ∷ ls)))) k
row-Shows l ls k ((h, e), a) n q b =
    let row = line_row [] (l ∷ ls) in
    let m : hit_map (l ∷ ls) (pos (suc n)) ≡ some h = ap (hit_map (l ∷ ls)) (sym q) ∙ e in
    let (x, y) = line_row-tracked [] (l ∷ ls) (suc n) h m in
    (
      row (suc n),
      h,
      get_elem?-rows_from row 1 (pos_part (max_line [] (l ∷ ls))) n (max_line-above l ls k n a q b)
          ∙ ap (λ (i : ℕ). some (row i)) (omega arith),
      x,
      m,
      y,
    )

rows-Show :
    (ls : List LineCoverage)
    → All (Shows ls (rows_from (line_row [] ls) 1 (pos_part (max_line [] ls)))) ls
rows-Show [] = tt
rows-Show (l ∷ ls) = All-weaken (row-Shows l ls) (l ∷ ls) (
    All-both _ _ (l ∷ ls) (hit_map-covers (l ∷ ls))
      (highest-above l.line_number ls, highest-covers l.line_number ls))

-- A page without source has 50,000 rows at most, and each record of one of the first 50,000 lines is
-- shown: the row at its line has the status of the last record of the line.
pub line_rows-Show :
    {R : Type 0} (file : FileCoverage R)
    → source_lines file.source_content ≡ []
    → (length (line_rows file) ≤ 50_000) × All (Shows file.lines (line_rows file)) file.lines
unfolding line_rows
line_rows-Show file e = rw e (
  omega (
    arith,
    length-rows_from (line_row [] file.lines) 1 (pos_part (max_line [] file.lines)),
    max_line-bounded file.lines,
  ),
  rows-Show file.lines,
)
