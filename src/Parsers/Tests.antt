-- ===== src/Parsers/Tests.antt =====
-- The parsers at concrete inputs.
use omnivore.Prelude.{ℕ, ◌≡◌, ◌⊎◌, refl, arith, none, some, [], ◌∷◌, map}
use omnivore.Prelude.Int.{pos}
use omnivore.Text.Base.{Text, codes, trim}
use omnivore.Text.Split.{lines}
use omnivore.Text.Number.{parse_i32, parse_i64}
use omnivore.Float.{millionths}
use omnivore.Model.Snapshot.{Outside}
use omnivore.Parsers.Errors.{ok, IngestMeta, Parsed, Ensures}
use omnivore.Parsers.JacocoXml
use omnivore.Parsers.JacocoXml.Totals.{parse-Consistent}
use omnivore.Parsers.LlvmCov
use omnivore.Parsers.LlvmCov.Segments.{
  IsAscending, highest_at, find as find_count, segments_to_lines-Ascending,
}
use omnivore.Model.Target
use omnivore.Prelude.Int.{ℤ}
use omnivore.Text.Base.{is_empty}
use omnivore.Prelude.{true, List, ℕ}
use omnivore.Parsers.Lcov
use omnivore.Parsers.Lcov.Totals.{parse-IsConsistent, IsConsistent}
use omnivore.Parsers.Lcov.Grammar.{Hits, no_hits, hit, Block}
use omnivore.Parsers.GoCoverprofile.{State, initial, loop, implausible, span}
use omnivore.Parsers.GoCoverprofile.Report
use omnivore.Parsers.GoCoverprofile.Report.{lines_at}
use omnivore.Parsers.GoCoverprofile.Counts.{find, blocks_of, IsHighest, IsCounted, loop-Highest}
use omnivore.Parsers.GoCoverprofile.Totals.{HasFewLines, parse-HasFewLines}

abbrev outside : Outside ℕ
outside = record {
  new_id = codes "7d3f";
  now = 1000;
  files_to_json = λ fs. none;
  dependencies_to_json = λ d. none;
}

abbrev no_meta : IngestMeta
no_meta = record { project_id = none; project_name = none; commit_sha = none; branch = none }

abbrev sample_lcov : Text
sample_lcov =
    codes
      "SF:src/main.rs\nDA:1,1\nDA:3,0\nBRF:2\nBRH:1\nend_of_record\nSF:b.rs\n DA:1,7\nBRF:0\nBRH:0\nend_of_record\n"

sample-Hits : Hits (codes "DA:1,1" ∷ codes "DA:3,0" ∷ []) (
    record { line_number = pos 1; hit_count = pos 1 }
    ∷ record { line_number = pos 3; hit_count = pos 0 }
    ∷ [])
unfolding trim parse_i32 parse_i64
sample-Hits =
    hit (codes "DA:1,1") (codes "1") (codes "1") _ refl (ground arith) (ground arith) refl refl (
      hit (codes "DA:3,0") (codes "3") (codes "0") _ refl (ground arith) (ground arith) refl refl
        no_hits)

abbrev main_block : Block
unfolding trim parse_i64
main_block = record {
  start = codes "SF:src/main.rs";
  path = codes "src/main.rs";
  raws = codes "DA:1,1" ∷ codes "DA:3,0" ∷ [];
  hits =
      record { line_number = pos 1; hit_count = pos 1 }
      ∷ record { line_number = pos 3; hit_count = pos 0 }
      ∷ [];
  found = codes "BRF:2";
  found_number = codes "2";
  branches_found = pos 2;
  taken = codes "BRH:1";
  taken_number = codes "1";
  branches_hit = pos 1;
  stop = codes "end_of_record";
  starts = refl;
  hit_lines = sample-Hits;
  finds = refl;
  reads_found = refl;
  takes = refl;
  reads_taken = refl;
  stops = refl;
}

abbrev sample_lcov_one : Text
sample_lcov_one = codes "SF:src/main.rs\nDA:1,1\nDA:3,0\nBRF:2\nBRH:1\nend_of_record\n"

sample_accepted : (p : Parsed ℕ) × (Lcov.parse outside sample_lcov no_meta ≡ ok p)
unfolding Lcov.parse
sample_accepted = (_, refl)

parse-IsConsistent_example : IsConsistent sample_accepted.0
parse-IsConsistent_example =
    parse-IsConsistent outside sample_lcov no_meta {p = sample_accepted.0} sample_accepted.1

abbrev sample_profile : Text
sample_profile =
    codes
      "mode: count\nex.com/m/a.go:1.13,3.2 1 5\nex.com/m/a.go:2.1,2.9 1 7\nex.com/m/b.go:4.1,4.8 2 0\n"

-- the state behind the loop
sample_state :
    (s : State) × (loop (lines sample_profile) initial ≡ ok s)
    × (find 2 (lines_at (codes "ex.com/m/a.go") s.files) ≡ some (pos 7))
unfolding loop find lines_at lines implausible span
sample_state = (_, refl, refl)

loop-Highest_example :
    IsHighest (codes "ex.com/m/a.go") 2 (blocks_of (lines sample_profile)) (pos 7)
    × ((pos 7 ≡ pos 0)
        ⊎ IsCounted (codes "ex.com/m/a.go") 2 (blocks_of (lines sample_profile)) (pos 7))
loop-Highest_example =
    loop-Highest (lines sample_profile) (codes "ex.com/m/a.go") 2 sample_state.0 (pos 7)
      sample_state.1 sample_state.2

parse-HasFewLines_example :
    Ensures HasFewLines (Report.parse (λ names. names) outside sample_profile no_meta)
parse-HasFewLines_example = parse-HasFewLines (λ names. names) outside sample_profile no_meta

abbrev jacoco_report : JacocoXml.Report
jacoco_report = record {
  name = codes "r";
  packages =
      record {
        name = codes "com/x";
        sourcefiles =
            record {
              name = codes "A.kt";
              lines =
                  record { nr = pos 7; mi = pos 0; ci = pos 3; mb = pos 1; cb = pos 1 }
                  ∷ record { nr = pos 4; mi = pos 2; ci = pos 0; mb = pos 0; cb = pos 0 }
                  ∷ [];
            }
            ∷ [];
      }
      ∷ [];
  counters = record { counter_type = codes "METHOD"; missed = pos 1; covered = pos 1 } ∷ [];
}

parse-Consistent_example : Ensures (JacocoXml.Totals.IsConsistent (codes "kover")) (
    JacocoXml.parse
      (λ s. some jacoco_report)
      outside
      (codes "<report/>")
      no_meta
      Target.jvm_unit
      (codes "kover"))
unfolding JacocoXml.counter is_empty
parse-Consistent_example =
    parse-Consistent (λ s. some jacoco_report) outside (codes "<report/>") no_meta Target.jvm_unit
      (codes "kover") jacoco_report refl refl refl refl

abbrev sample_segments : List (List LlvmCov.Value)
sample_segments =
    (LlvmCov.number (pos 9)
      ∷ LlvmCov.number (pos 1)
      ∷ LlvmCov.number (pos 2)
      ∷ LlvmCov.boolean true
      ∷ [])
    ∷ (LlvmCov.number (pos 4)
        ∷ LlvmCov.number (pos 1)
        ∷ LlvmCov.number (pos 5)
        ∷ LlvmCov.number (pos 1)
        ∷ [])
    ∷ []

segments_to_lines-Ascending_example :
    (m : LlvmCov.LineCounts) × (LlvmCov.segments_to_lines sample_segments ≡ map LlvmCov.line_of m)
    × IsAscending m
    × ((n : ℤ) → find_count n m ≡ highest_at sample_segments n none)
segments_to_lines-Ascending_example = segments_to_lines-Ascending sample_segments
