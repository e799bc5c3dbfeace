-- ===== src/Model/Plausible/Dropped.antt =====
-- About `drop_implausible_lines` of model/coverage.rs.
use omnivore.Prelude.{◌+◌, ◌≤◌, ◌≡◌, ◌≢◌, refl, List, [], ◌∷◌, map, arith}
use mathlib.Core.Path.{ap, ap₂}
use omnivore.Prelude.Lists.{length}
use omnivore.Prelude.Int.{pos, ◌≤ℤ◌}
use omnivore.Text.Base.{All}
use omnivore.Float.{F64, ratio}
use omnivore.Model.Report.{
  max_line_number, LineCoverage, FileCoverage, OmnivoreReport, covered_lines, sum_i64,
}
use omnivore.Model.Plausible.{
  retain_plausible, total_lines, total_covered, drop_in_file, drop_in_files, drop_implausible_lines,
}

-- Every line number that is left can stand in a file.
abbrev pub IsPlausible : LineCoverage → Type 0
IsPlausible l = (pos 1 ≤ℤ l.line_number) × (l.line_number ≤ℤ pos max_line_number)

retain-IsPlausible : (ls : List LineCoverage) → All IsPlausible (retain_plausible ls)
unfolding retain_plausible
retain-IsPlausible [] = tt
retain-IsPlausible (l ∷ ls) = ground (arith, retain-IsPlausible ls)

length-retain : (ls : List LineCoverage) → length (retain_plausible ls) ≤ length ls
unfolding retain_plausible
length-retain [] = omega arith
length-retain (l ∷ ls) = ground (arith, length-retain ls)

-- Where nothing goes, all stays.
retain-eq :
    (ls : List LineCoverage) → length (retain_plausible ls) ≡ length ls → retain_plausible ls ≡ ls
unfolding retain_plausible
retain-eq [] h = refl
retain-eq (l ∷ ls) h = ground (arith, length-retain ls, retain-eq ls)

retain_idem :
    (ls : List LineCoverage) → retain_plausible (retain_plausible ls) ≡ retain_plausible ls
unfolding retain_plausible
retain_idem [] = refl
retain_idem (l ∷ ls) = ground (arith, retain_idem ls)

pub covered_lines-le : (ls : List LineCoverage) → covered_lines ls ≤ length ls
unfolding covered_lines
covered_lines-le [] = omega arith
covered_lines-le (l ∷ ls) = ground (arith, covered_lines-le ls)

module _ {R : Type 0} where
  pub total_covered-le : (fs : List (FileCoverage R)) → total_covered fs ≤ total_lines fs
  unfolding total_covered total_lines
  total_covered-le [] = omega arith
  total_covered-le (f ∷ fs) = omega (arith, covered_lines-le f.lines, total_covered-le fs)

  abbrev pub LinesPlausible : List (FileCoverage R) → Type 0
  LinesPlausible fs = All (λ f. All IsPlausible f.lines) fs

module _ {R : Type 0} ⦃f64 : F64 R⦄ where
  drop_in_file-lines : (f : FileCoverage R) → (drop_in_file f).0.lines ≡ retain_plausible f.lines
  unfolding drop_in_file
  drop_in_file-lines f = ground arith

  drop_in_file-count :
      (f : FileCoverage R) → length (drop_in_file f).0.lines + (drop_in_file f).1 ≡ length f.lines
  unfolding drop_in_file
  drop_in_file-count f = ground (arith, length-retain f.lines)

  drop_in_file-zero : (f : FileCoverage R) → (drop_in_file f).1 ≡ 0 → (drop_in_file f).0 ≡ f
  unfolding drop_in_file
  drop_in_file-zero f h = ground (arith, length-retain f.lines, retain-eq f.lines)

  -- a file whose lines are all retained is left as it is
  drop_in_file-fixed :
      (f : FileCoverage R) → retain_plausible f.lines ≡ f.lines → drop_in_file f ≡ (f, 0)
  unfolding drop_in_file
  drop_in_file-fixed f h = ground (arith, ap (λ (ls : List LineCoverage). length ls) h)

  drop_in_files-IsPlausible : (fs : List (FileCoverage R)) → LinesPlausible (drop_in_files fs).0
  unfolding drop_in_files
  drop_in_files-IsPlausible [] = tt
  drop_in_files-IsPlausible (f ∷ fs) =
      (rw (drop_in_file-lines f) (retain-IsPlausible f.lines), drop_in_files-IsPlausible fs)

  drop_in_files-count :
      (fs : List (FileCoverage R))
      → total_lines (drop_in_files fs).0 + (drop_in_files fs).1 ≡ total_lines fs
  unfolding drop_in_files total_lines
  drop_in_files-count [] = omega arith
  drop_in_files-count (f ∷ fs) = omega (arith, drop_in_file-count f, drop_in_files-count fs)

  drop_in_files-zero :
      (fs : List (FileCoverage R)) → (drop_in_files fs).1 ≡ 0 → (drop_in_files fs).0 ≡ fs
  unfolding drop_in_files
  drop_in_files-zero [] h = refl
  drop_in_files-zero (f ∷ fs) h =
      ap₂ (λ g gs. g ∷ gs) (drop_in_file-zero f (omega arith)) (drop_in_files-zero fs (omega arith))

  drop_in_files_idem :
      (fs : List (FileCoverage R)) → drop_in_files (drop_in_files fs).0 ≡ ((drop_in_files fs).0, 0)
  unfolding drop_in_files
  drop_in_files_idem [] = refl
  drop_in_files_idem (f ∷ fs) = rw (
    drop_in_file-fixed (drop_in_file f).0 (rw (drop_in_file-lines f) (retain_idem f.lines)),
    drop_in_files_idem fs,
  )

  pub drop_implausible_lines-files :
      (r : OmnivoreReport R) → (drop_implausible_lines r).0.files ≡ (drop_in_files r.files).0
  unfolding drop_implausible_lines
  drop_implausible_lines-files r = ground arith

  drop_implausible_lines-fixed :
      (r : OmnivoreReport R)
      → drop_in_files r.files ≡ (r.files, 0)
      → drop_implausible_lines r ≡ (r, 0)
  unfolding drop_implausible_lines
  drop_implausible_lines-fixed r h = rw (h, drop_implausible_lines)

  -- Whatever the report held, no implausible line number is left in it.
  pub drop_implausible_lines-IsPlausible :
      (r : OmnivoreReport R) → LinesPlausible (drop_implausible_lines r).0.files
  drop_implausible_lines-IsPlausible r =
      rw (drop_implausible_lines-files r) (drop_in_files-IsPlausible r.files)

  -- The number returned is the number of records lost.
  pub drop_implausible_lines-count :
      (r : OmnivoreReport R)
      → total_lines (drop_implausible_lines r).0.files + (drop_implausible_lines r).1
        ≡ total_lines r.files
  unfolding drop_implausible_lines
  drop_implausible_lines-count r = ground (arith, drop_in_files-count r.files)

  -- A report that loses no record is left as it is.
  pub drop_implausible_lines-zero :
      (r : OmnivoreReport R) → (drop_implausible_lines r).1 ≡ 0 → (drop_implausible_lines r).0 ≡ r
  unfolding drop_implausible_lines
  drop_implausible_lines-zero r h = ground (arith, drop_in_files-zero r.files)

  -- A second pass over a report changes nothing and drops nothing.
  pub drop_implausible_lines_idem :
      (r : OmnivoreReport R)
      → drop_implausible_lines (drop_implausible_lines r).0 ≡ ((drop_implausible_lines r).0, 0)
  drop_implausible_lines_idem r =
      drop_implausible_lines-fixed (drop_implausible_lines r).0
        (rw (drop_implausible_lines-files r) (drop_in_files_idem r.files))

  -- A report that lost a record has line totals and a line rate derived from the records left, and
  -- what its summary says of branches stays.
  pub drop_implausible_lines-summary :
      (r : OmnivoreReport R)
      → (drop_implausible_lines r).1 ≢ 0
      → let (r', n) = drop_implausible_lines r in
        (r'.coverage.lines_total ≡ pos (total_lines r'.files))
        × (r'.coverage.lines_covered ≡ pos (total_covered r'.files))
        × (total_covered r'.files ≤ total_lines r'.files)
        × (r'.coverage.line_rate
            ≡ ratio (pos (total_covered r'.files)) (pos (total_lines r'.files)))
        × (r'.coverage.branches_covered ≡ r.coverage.branches_covered)
        × (r'.coverage.branches_total ≡ r.coverage.branches_total)
  unfolding drop_implausible_lines
  drop_implausible_lines-summary r h = ground (arith, total_covered-le (drop_in_files r.files).0)

  drop_in_file-branches :
      (f : FileCoverage R)
      → ((drop_in_file f).0.branches_total ≡ f.branches_total)
        × ((drop_in_file f).0.branches_covered ≡ f.branches_covered)
  unfolding drop_in_file
  drop_in_file-branches f = ground arith

  drop_in_files-branches :
      (fs : List (FileCoverage R))
      → (map (λ f. f.branches_total) (drop_in_files fs).0 ≡ map (λ f. f.branches_total) fs)
        × (map (λ f. f.branches_covered) (drop_in_files fs).0 ≡ map (λ f. f.branches_covered) fs)
  unfolding drop_in_files
  drop_in_files-branches [] = (refl, refl)
  drop_in_files-branches (f ∷ fs) =
      ground (arith, drop_in_files-branches fs, drop_in_file-branches f)

  -- What a report says of the lines of its files.
  abbrev pub LinesAgree : OmnivoreReport R → Type 0
  LinesAgree r =
      (r.coverage.lines_total ≡ pos (total_lines r.files))
      × (r.coverage.lines_covered ≡ pos (total_covered r.files))

  -- What a report says of the branches of its files.
  abbrev pub BranchesAgree : OmnivoreReport R → Type 0
  BranchesAgree r =
      (r.coverage.branches_total ≡ sum_i64 (pos 0) (map (λ f. f.branches_total) r.files))
      × (r.coverage.branches_covered ≡ sum_i64 (pos 0) (map (λ f. f.branches_covered) r.files))

  pub drop-LinesAgree :
      (r : OmnivoreReport R) → LinesAgree r → LinesAgree (drop_implausible_lines r).0
  unfolding drop_implausible_lines
  drop-LinesAgree r h = ground (arith, drop_in_files-zero r.files)

  pub drop-BranchesAgree :
      (r : OmnivoreReport R) → BranchesAgree r → BranchesAgree (drop_implausible_lines r).0
  unfolding drop_implausible_lines
  drop-BranchesAgree r h = ground (arith, drop_in_files-branches r.files)

  drop_in_files-ne-nil : (fs : List (FileCoverage R)) → fs ≢ [] → (drop_in_files fs).0 ≢ []
  unfolding drop_in_files
  drop_in_files-ne-nil [] h = absurd (h refl)
  drop_in_files-ne-nil (f ∷ fs) h = cc

  pub drop_implausible_lines-ne-nil :
      (r : OmnivoreReport R) → r.files ≢ [] → (drop_implausible_lines r).0.files ≢ []
  drop_implausible_lines-ne-nil r h =
      rw (drop_implausible_lines-files r) (drop_in_files-ne-nil r.files h)

  -- Nothing but files and coverage changes.
  pub drop_implausible_lines-project :
      (r : OmnivoreReport R) → (drop_implausible_lines r).0.project ≡ r.project
  unfolding drop_implausible_lines
  drop_implausible_lines-project r = ground arith
