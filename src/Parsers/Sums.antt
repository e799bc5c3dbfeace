-- ===== src/Parsers/Sums.antt =====
-- Running totals of branches, as the parsers keep them beside the list of files.
use omnivore.Prelude.{◌≡◌, List, [], ◌∷◌, ◌++◌, map}
use mathlib.Core.List.{map-append}
use omnivore.Prelude.Int.{ℤ, pos}
use omnivore.Model.Report.{add_i64, sum_i64, sum_i64-append, FileCoverage}

module _ {R : Type 0} where
  abbrev pub BranchTotals : ℤ → ℤ → List (FileCoverage R) → Type 0
  BranchTotals found hit files =
      (found ≡ sum_i64 (pos 0) (map (λ f. f.branches_total) files))
      × (hit ≡ sum_i64 (pos 0) (map (λ f. f.branches_covered) files))

  pub BranchTotals-append :
      (found hit : ℤ) (files : List (FileCoverage R)) (f : FileCoverage R)
      → BranchTotals found hit files
      → BranchTotals
          (add_i64 found f.branches_total)
          (add_i64 hit f.branches_covered)
          (files ++ f ∷ [])
  BranchTotals-append found hit files f (p, q) =
      (rw (map-append, sum_i64-append, ← p), rw (map-append, sum_i64-append, ← q))
