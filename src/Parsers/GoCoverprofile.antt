-- ===== src/Parsers/GoCoverprofile.antt =====
-- crates/omnivore-core/src/parsers/go_coverprofile.rs. A `HashMap` is the list of its entries, one
-- for each key; the order in which it iterates over its keys is the argument `iterate`.
pub mod Report
pub mod Bounds
pub mod Totals
pub mod Counts
use omnivore.Prelude.{
  ℕ, zero, suc, ◌+◌, ◌-◌, Bool, true, false, ◌||◌, Option, none, some, List, [], ◌∷◌, ◌++◌, map,
}
use omnivore.Prelude.Tests.{ltb, leb, ◌==◌, if◌then◌else◌}
use omnivore.Prelude.Lists.{length}
use omnivore.Prelude.Sort.{sort}
use omnivore.Prelude.Int.{ℤ, pos, pos_part, ltb_ℤ, is_positive}
use omnivore.Text.Base.{
  Text, codes, text_eq, text_le, is_empty, trim, starts_with, strip_prefix, all,
}
use omnivore.Text.Split.{split, split_once, rsplit_once, split_whitespace, lines}
use omnivore.Text.Number.{parse_i32, parse_i64}
use omnivore.Float.{F64, ratio, ratio_f64}
use omnivore.Model.Target
use omnivore.Model.Report.{
  max_line_number, LineCoverage, FileCoverage, OmnivoreReport, covered_lines,
}
use omnivore.Model.Plausible.{total_lines, total_covered}
use omnivore.Model.Source
use omnivore.Model.Snapshot.{Outside, unwrap_or, from_report}
use omnivore.Parsers.Errors.{
  go_coverprofile, implausible_range, too_many_lines, missing_mode, no_coverage_data, Result, ok,
  err, ◌>>=◌, ◌>>◌, IngestMeta, Parsed,
}

abbrev pub max_total_lines : ℕ
max_total_lines = 2_000_000

-- line number -> highest count
abbrev pub LineMap : Type 0
LineMap = List (ℕ × ℤ)

-- file name -> its lines
abbrev pub FileMap : Type 0
FileMap = List (Text × LineMap)

-- A block of a profile: `file:startLine.startCol,endLine.endCol numStatements count`.
pub record Block : Type 0 where
  pub file : Text
  pub start_line : ℤ
  pub end_line : ℤ
  pub count : ℤ

-- `Some(i) => &s[..i]`, `None => s`
before_dot : Option (Text × Text) → Text → Text
before_dot none s = s
before_dot (some (a, b)) s = a

unwrap_or_zero : Option ℤ → ℤ
unwrap_or_zero none = pos 0
unwrap_or_zero (some n) = n

unfoldable pub parse_line_num : Text → ℤ
unfolding before_dot unwrap_or_zero split_once parse_i32
parse_line_num s = unwrap_or_zero (parse_i32 (before_dot (split_once b'.' s) s))

-- What a line is: to be passed over, the mode header, or a block.
pub data Line : Type 0 where
  skipped mode : Line
  block : Block → Line

-- the last of one or more parts
last_part : Text → List Text → Text
last_part p [] = p
last_part p (q ∷ ps) = last_part q ps

range_of : Text → ℤ → List Text → Line
unfolding parse_line_num
range_of file count (start ∷ (stop ∷ [])) = block (record {
  file = file;
  start_line = parse_line_num start;
  end_line = parse_line_num stop;
  count = count;
})
range_of file count _ = skipped

counted : Text → Text → Option ℤ → Line
unfolding range_of split
counted file range none = skipped
counted file range (some count) = range_of file count (split b',' range)

parts_of : Text → List Text → Line
unfolding counted last_part parse_i64
parts_of file (range ∷ (p ∷ ps)) = counted file range (parse_i64 (last_part p ps))
parts_of file _ = skipped

at_colon : Option (Text × Text) → Line
unfolding parts_of split_whitespace
at_colon none = skipped
at_colon (some (file, rest)) = parts_of file (split_whitespace rest)

unfoldable pub read_line : Text → Line
unfolding at_colon is_empty starts_with rsplit_once
read_line line =
    if is_empty line
    then skipped
    else if starts_with (codes "mode:") line
    then mode
    else at_colon (rsplit_once b':' line)

-- `let existing = file_lines.entry(ln).or_insert(0); if count > *existing { *existing = count }`
unfoldable pub raise : ℕ → ℤ → LineMap → LineMap
raise n count [] = (n, if ltb_ℤ (pos 0) count then count else pos 0) ∷ []
raise n count ((k, c) ∷ m) =
    if k == n then (k, if ltb_ℤ c count then count else c) ∷ m else (k, c) ∷ raise n count m

-- `for ln in start..=end`, as the number of lines from `n` on
unfoldable pub raise_range : ℕ → ℕ → ℤ → LineMap → LineMap
unfolding raise
raise_range n zero count m = m
raise_range n (suc more) count m = raise_range (suc n) more count (raise n count m)

-- `files.entry(file_name).or_default()` and the update of its lines
unfoldable pub update : Text → (LineMap → LineMap) → FileMap → FileMap
unfolding text_eq
update file f [] = (file, f []) ∷ []
update file f ((k, m) ∷ fs) = if text_eq k file then (k, f m) ∷ fs else (k, m) ∷ update file f fs

-- The variables of the loop.
pub record State : Type 0 where
  pub files : FileMap
  pub has_mode_line : Bool
  pub total_expanded : ℕ

-- A plausible block, between 1 and the largest line number.
unfoldable pub implausible : Block → Bool
implausible b =
    ltb_ℤ b.start_line (pos 1)
    || ltb_ℤ b.end_line b.start_line
    || ltb_ℤ (pos max_line_number) b.end_line

-- `(end_line - start_line + 1) as usize`, behind the check
unfoldable pub span : Block → ℕ
span b = pos_part b.end_line - pos_part b.start_line + 1

unfoldable pub add_block : Block → State → Result State
unfolding raise_range update
add_block b s =
    if implausible b
    then err (go_coverprofile implausible_range)
    else if ltb max_total_lines (s.total_expanded + span b)
    then err (go_coverprofile too_many_lines)
    else ok (record s {
      total_expanded = s.total_expanded + span b;
      files = update b.file (raise_range (pos_part b.start_line) (span b) b.count) s.files;
    })

unfoldable pub act : Line → State → Result State
unfolding add_block
act skipped s = ok s
act mode s = ok (record s { has_mode_line = true })
act (block b) s = add_block b s

unfoldable pub loop : List Text → State → Result State
unfolding act read_line trim
loop [] s = ok s
loop (raw ∷ rest) s = do s' ← act (read_line (trim raw)) s; loop rest s'

abbrev pub initial : State
initial = record { files = []; has_mode_line = false; total_expanded = 0 }
