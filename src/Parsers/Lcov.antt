-- ===== src/Parsers/Lcov.antt =====
-- crates/omnivore-core/src/parsers/lcov.rs: the loop over the lines and the report made of it.
pub mod Totals
pub mod Failure
pub mod Grammar
use omnivore.Prelude.{
  ℕ, zero, suc, ◌+◌, Bool, true, false, Option, none, some, List, [], ◌∷◌, ◌++◌, map,
}
use omnivore.Prelude.Tests.{if◌then◌else◌}
use omnivore.Prelude.Lists.{length}
use omnivore.Prelude.Int.{ℤ, pos, ◌+ℤ◌, wrap_i64, is_positive}
use omnivore.Text.Base.{Text, codes, text_eq, is_empty, trim, starts_with, strip_prefix}
use omnivore.Text.Split.{splitn, lines}
use omnivore.Text.Number.{parse_i32, parse_i64}
use omnivore.Float.{F64, ratio, ratio_f64}
use omnivore.Model.Target
use omnivore.Model.Report.{add_i64, LineCoverage, FileCoverage, OmnivoreReport, covered_lines}
use omnivore.Model.Plausible.{total_lines, total_covered}
use omnivore.Model.Source
use omnivore.Model.Snapshot.{Outside, unwrap_or, from_report}
use omnivore.Parsers.Errors.{
  ParseError, lcov, invalid_da, bad_line_number, bad_hit_count, no_source_files, Result, ok, err,
  ◌>>=◌, ◌>>◌, ok_or, IngestMeta, Parsed,
}

-- The variables of the loop.
pub record State (R : Type 0) : Type 0 where
  pub files : List (FileCoverage R)
  pub current_path : Option Text
  pub current_lines : List LineCoverage
  pub total_branches_found : ℤ
  pub total_branches_hit : ℤ
  pub file_brf : ℤ
  pub file_brh : ℤ

module _ {R : Type 0} where
  abbrev pub initial : State R
  initial = record {
    files = [];
    current_path = none;
    current_lines = [];
    total_branches_found = pos 0;
    total_branches_hit = pos 0;
    file_brf = pos 0;
    file_brh = pos 0;
  }

-- a `DA` record from the parts behind its prefix, at line `n` of the input
unfoldable pub da_record : ℕ → List Text → Result LineCoverage
unfolding parse_i32 parse_i64
da_record n (number ∷ (count ∷ more)) = do
  line_number ← ok_or (parse_i32 number) (lcov (bad_line_number n))
  hit_count ← ok_or (parse_i64 count) (lcov (bad_hit_count n))
  ok (record { line_number = line_number; hit_count = hit_count })
da_record n _ = err (lcov (invalid_da n))

-- whether a `BRDA` record was taken: its last part is not `-` and is a number above 0
unfoldable pub branch_taken : Text → Bool
unfolding text_eq parse_i64
branch_taken taken =
    if text_eq taken (codes "-")
    then false
    else elim (parse_i64 taken) [ none ↦ false | some n ↦ is_positive n ]

module _ {R : Type 0} where
  -- A `BRDA` record counts if it has four parts.
  unfoldable pub brda_record : List Text → State R → State R
  unfolding branch_taken
  brda_record (l ∷ (block ∷ (branch ∷ (taken ∷ [])))) s = record s {
    file_brf = add_i64 s.file_brf (pos 1);
    file_brh = if branch_taken taken then add_i64 s.file_brh (pos 1) else s.file_brh;
  }
  brda_record _ s = s

  -- `if let Ok(n) = rest.parse::<i64>() { file_brf = n }`
  unfoldable pub set_brf : Option ℤ → State R → State R
  set_brf none s = s
  set_brf (some n) s = record s { file_brf = n }

  unfoldable pub set_brh : Option ℤ → State R → State R
  set_brh none s = s
  set_brh (some n) s = record s { file_brh = n }

module _ {R : Type 0} ⦃f64 : F64 R⦄ where
  -- the file of a record
  unfoldable pub file_of : Text → List LineCoverage → ℤ → ℤ → FileCoverage R
  unfolding covered_lines ratio ratio_f64
  file_of path lines brf brh = record {
    path = path;
    line_rate = ratio_f64 (pos (covered_lines lines)) (pos (length lines));
    branch_rate = ratio brh brf;
    lines = lines;
    branches_covered = brh;
    branches_total = brf;
    source_content = none;
  }

  -- `flush_file`, where the path is there
  unfoldable pub flush_path : Option Text → State R → State R
  unfolding file_of
  flush_path none s = s
  flush_path (some path) s = record s {
    current_path = none;
    total_branches_found = add_i64 s.total_branches_found s.file_brf;
    total_branches_hit = add_i64 s.total_branches_hit s.file_brh;
    files = s.files ++ file_of path s.current_lines s.file_brf s.file_brh ∷ [];
    current_lines = [];
  }

  unfoldable pub flush_file : State R → State R
  unfolding flush_path
  flush_file s = flush_path s.current_path s

  -- `SF:`
  unfoldable pub start_file : Text → State R → State R
  unfolding flush_file
  start_file path s = record (flush_file s) {
    current_path = some path;
    current_lines = [];
    file_brf = pos 0;
    file_brh = pos 0;
  }

  -- `end_of_record`
  unfoldable pub end_record : State R → State R
  unfolding flush_file
  end_record s = record (flush_file s) { file_brf = pos 0; file_brh = pos 0 }

  push_line : LineCoverage → State R → State R
  push_line l s = record s { current_lines = s.current_lines ++ l ∷ [] }

-- The kinds of line that the loop tells apart, with what follows the prefix.
pub data Line : Type 0 where
  skipped end_of_record : Line
  sf da brda brf brh : Text → Line

-- `if let Some(rest) = line.strip_prefix(p) { … } else { … }`
strip_or : Option Text → (Text → Line) → Line → Line
strip_or none f other = other
strip_or (some rest) f other = f rest

-- the ladder of prefixes
unfoldable pub classify : Text → Line
unfolding is_empty starts_with strip_prefix text_eq strip_or
classify line =
    if is_empty line
    then skipped
    else if starts_with (codes "TN:") line
    then skipped
    else strip_or (strip_prefix (codes "SF:") line) sf (
        strip_or (strip_prefix (codes "DA:") line) da (
          strip_or (strip_prefix (codes "BRDA:") line) brda (
            strip_or (strip_prefix (codes "BRF:") line) brf (
              strip_or (strip_prefix (codes "BRH:") line) brh
                (if text_eq line (codes "end_of_record") then end_of_record else skipped)))))

module _ {R : Type 0} ⦃f64 : F64 R⦄ where
  -- one round of the loop, on line `n` of the input
  unfoldable pub act : ℕ → Line → State R → Result (State R)
  unfolding start_file end_record push_line da_record brda_record set_brf set_brh splitn parse_i64
  act n skipped s = ok s
  act n end_of_record s = ok (end_record s)
  act n (sf path) s = ok (start_file path s)
  act n (da rest) s = do l ← da_record n (splitn 3 b',' rest); ok (push_line l s)
  act n (brda rest) s = ok (brda_record (splitn 4 b',' rest) s)
  act n (brf rest) s = ok (set_brf (parse_i64 rest) s)
  act n (brh rest) s = ok (set_brh (parse_i64 rest) s)

  -- `n` lines came before
  unfoldable pub loop : ℕ → List Text → State R → Result (State R)
  unfolding act classify trim
  loop n [] s = ok s
  loop n (raw ∷ rest) s = do s' ← act (suc n) (classify (trim raw)) s; loop (suc n) rest s'

  -- the report, once the loop is over
  unfoldable pub report_of : IngestMeta → State R → OmnivoreReport R
  unfolding ratio total_lines total_covered unwrap_or
  report_of meta s = record {
    version = codes "0.1.0";
    format = codes "lcov";
    dependencies = none;
    project = record {
      id = unwrap_or meta.project_id (codes "lcov-project");
      name = unwrap_or meta.project_name (codes "lcov import");
      commit_sha = meta.commit_sha;
      branch = meta.branch;
      target = Target.lcov;
      source = some Source.lcov;
    };
    coverage = record {
      line_rate = ratio (pos (total_covered s.files)) (pos (total_lines s.files));
      branch_rate = ratio s.total_branches_hit s.total_branches_found;
      lines_covered = pos (total_covered s.files);
      lines_total = pos (total_lines s.files);
      branches_covered = s.total_branches_hit;
      branches_total = s.total_branches_found;
    };
    files = s.files;
  }

  unfoldable pub require_files : List (FileCoverage R) → Result (Unit {0})
  require_files [] = err (lcov no_source_files)
  require_files (f ∷ fs) = ok tt

  unfoldable pub parse : Outside R → Text → IngestMeta → Result (Parsed R)
  unfolding loop flush_file require_files report_of from_report lines
  parse out input meta = do
    s ← loop 0 (lines input) initial
    let s' = flush_file s
    require_files s'.files
    ok (from_report out (report_of meta s') (some Source.lcov))
