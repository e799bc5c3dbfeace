-- ===== src/Parsers/PythonCoverage/Lines.antt =====
-- About the lines of a file in parsers/python_coverage.rs.
use omnivore.Prelude.{ℕ, ◌+◌, ◌≡◌, refl, ◌∙◌, true, false, List, [], ◌∷◌, ◌++◌, map, arith}
use omnivore.Prelude.Tests.{if◌then◌else◌}
use omnivore.Prelude.Lists.{length, length-map, length-append}
use omnivore.Prelude.Sort.{sort, IsSorted, sort-IsSorted, sum_by, sum_by-sort, length-sort}
use omnivore.Prelude.Int.{ℤ, pos, is_positive}
use omnivore.Model.Report.{LineCoverage, covered_lines}
use omnivore.Parsers.PythonCoverage.{FileEntry, with_count, by_number, lines_of}

-- a line counts where it was hit
abbrev hit : LineCoverage → ℕ
hit l = if is_positive l.hit_count then 1 else 0

covered_lines-sum : (ls : List LineCoverage) → covered_lines ls ≡ sum_by hit ls
unfolding covered_lines
covered_lines-sum [] = refl
covered_lines-sum (l ∷ ls) = ground (arith, covered_lines-sum ls)

sum-executed :
    (ns ms : List ℤ)
    → sum_by hit (map (with_count (pos 1)) ns ++ map (with_count (pos 0)) ms) ≡ length ns
sum-executed [] [] = refl
sum-executed [] (m ∷ ms) = omega (arith, sum-executed [] ms)
sum-executed (n ∷ ns) ms = omega (arith, sum-executed ns ms)

by_number_total : (a b : LineCoverage) → by_number a b ≡ false → by_number b a ≡ true
by_number_total a b h = ground arith

by_number_trans :
    (a b c : LineCoverage) → by_number a b ≡ true → by_number b c ≡ true → by_number a c ≡ true
by_number_trans a b c h k = ground arith

-- The lines of a file stand in the order of their numbers, are as many as were executed and missed
-- together, and those with a hit are as many as were executed.
pub lines_of-IsSorted :
    (entry : FileEntry)
    → IsSorted by_number (lines_of entry)
      × (length (lines_of entry) ≡ length entry.executed_lines + length entry.missing_lines)
      × (covered_lines (lines_of entry) ≡ length entry.executed_lines)
unfolding lines_of
lines_of-IsSorted entry =
    (let ls =
        map (with_count (pos 1)) entry.executed_lines
        ++ map (with_count (pos 0)) entry.missing_lines in
      (
        sort-IsSorted by_number by_number_total by_number_trans ls,
        omega (
          arith,
          length-sort by_number ls,
          length-append (map (with_count (pos 1)) entry.executed_lines)
              (map (with_count (pos 0)) entry.missing_lines),
          length-map entry.executed_lines (with_count (pos 1)),
          length-map entry.missing_lines (with_count (pos 0)),
        ),
        covered_lines-sum (sort by_number ls)
            ∙ (sum_by-sort by_number hit ls
                ∙ sum-executed entry.executed_lines entry.missing_lines),
      ))
