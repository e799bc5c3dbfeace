-- ===== src/Parsers/Lcov/Grammar.antt =====
-- Well-formed lcov documents, described line by line, and what the parser makes of them.
use omnivore.Prelude.{◌≡◌, some, List, [], ◌∷◌, ◌++◌}
use omnivore.Prelude.Int.{ℤ}
use omnivore.Text.Base.{Text, codes, trim}
use omnivore.Text.Split.{Lacks}
use omnivore.Text.Number.{parse_i32, parse_i64}
use omnivore.Float.{F64}
use omnivore.Model.Report.{LineCoverage, FileCoverage}
use omnivore.Model.Source
use omnivore.Parsers.Lcov.{file_of}

-- Lines that are `DA` records with a line number and a count, spaces around them aside.
pub data Hits : List Text → List LineCoverage → Type 0 where
  no_hits : Hits [] []
  hit :
      {raws : List Text} {ls : List LineCoverage}
      → (raw number count : Text) (l : LineCoverage)
      → trim raw ≡ codes "DA:" ++ (number ++ b',' ∷ count)
      → Lacks b',' number
      → Lacks b',' count
      → parse_i32 number ≡ some l.line_number
      → parse_i64 count ≡ some l.hit_count
      → Hits raws ls
      → Hits (raw ∷ raws) (l ∷ ls)

-- One source file: `SF`, its `DA` records, `BRF`, `BRH` and `end_of_record`.
pub record Block : Type 0 where
  pub start : Text
  pub path : Text
  pub raws : List Text
  pub hits : List LineCoverage
  pub found : Text
  pub found_number : Text
  pub branches_found : ℤ
  pub taken : Text
  pub taken_number : Text
  pub branches_hit : ℤ
  pub stop : Text
  pub starts : trim start ≡ codes "SF:" ++ path
  pub hit_lines : Hits raws hits
  pub finds : trim found ≡ codes "BRF:" ++ found_number
  pub reads_found : parse_i64 found_number ≡ some branches_found
  pub takes : trim taken ≡ codes "BRH:" ++ taken_number
  pub reads_taken : parse_i64 taken_number ≡ some branches_hit
  pub stops : trim stop ≡ codes "end_of_record"

abbrev pub block_lines : Block → List Text
block_lines b = b.start ∷ (b.raws ++ (b.found ∷ (b.taken ∷ (b.stop ∷ []))))

abbrev pub document : List Block → List Text
document [] = []
document (b ∷ bs) = block_lines b ++ document bs

module _ {R : Type 0} ⦃f64 : F64 R⦄ where
  abbrev pub block_file : Block → FileCoverage R
  block_file b = file_of b.path b.hits b.branches_found b.branches_hit
