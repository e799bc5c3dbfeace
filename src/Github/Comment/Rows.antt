-- ===== src/Github/Comment/Rows.antt =====
-- About `build_file_table`: the rows that it shows, and their order.
use omnivore.Prelude.{◌≡◌, true, false, none, some, List, [], ◌∷◌, ◌++◌, map}
use Prim.Native.Nat.{min}
use mathlib.Core.List.{Perm}
use omnivore.Prelude.Lists.{length, All}
use omnivore.Float.{F64}
use omnivore.Model.Report.{FileCoverage}
use omnivore.Github.Comment.{Row, row_of, build_file_table}

-- what the order of the rates is for numbers
pub record IsOrder {R : Type 0} (f64 : F64 R) : Type 0 where
  pub asym : (a b : R) → f64.lt a b ≡ true → f64.lt b a ≡ false
  pub trans : (a b c : R) → f64.lt b a ≡ false → f64.lt c b ≡ false → f64.lt c a ≡ false

-- the changes of the rows that have one, in their order
abbrev pub changes : {R : Type 0} → List (Row R) → List R
changes [] = []
changes (r ∷ rs) = elim r.delta [ none ↦ changes rs | some d ↦ d ∷ changes rs ]

-- no number is less than one that stands before it
abbrev pub IsAscending : {R : Type 0} → F64 R → List R → Type 0
IsAscending f64 [] = Unit
IsAscending f64 (x ∷ xs) = All (λ y. f64.lt y x ≡ false) xs × IsAscending f64 xs

-- Rows without a change, from the least rate on, and then rows with one, from the least change on:
-- from the greatest loss to the greatest gain.
abbrev pub IsRanked : {R : Type 0} → F64 R → List (Row R) → Type 0
IsRanked {R} f64 rows =
    (news : List (Row R)) × (olds : List (Row R)) × (rows ≡ news ++ olds)
    × All (λ r. r.delta ≡ none) news
    × IsAscending f64 (map (λ r. r.rate) news)
    × All (λ r. (d : R) × (r.delta ≡ some d)) olds
    × IsAscending f64 (changes olds)

-- `rest` are the rows that are left out
abbrev pub ShowsFirst :
    {R : Type 0} ⦃f64 : F64 R⦄ → List (FileCoverage R) → List (FileCoverage R) → Type 0
ShowsFirst {R} ⦃f64⦄ current baseline =
    let table = build_file_table current baseline in
    (rest : List (Row R)) × IsRanked f64 (table ++ rest)
    × Perm (table ++ rest) (map (row_of baseline) current)
    × (length table ≡ min 15 (length current))
