-- ===== src/Pages/FileCoverage.antt =====
-- crates/omnivore-server/src/routes/pages/file_coverage.rs: the rows of a file's page, and the search
-- for a file in the series of a project. The rows as HTML are left out.
pub mod Rows
use omnivore.Prelude.{ℕ, zero, suc, ◌+◌, ◌-◌, Bool, true, false, Option, none, some, List, [], ◌∷◌}
use omnivore.Prelude.Tests.{if◌then◌else◌}
use omnivore.Prelude.Lists.{length, get_or}
use omnivore.Prelude.Int.{ℤ, pos, is_positive, max_ℤ, ltb_ℤ, pos_part, wrap_i32}
use omnivore.Text.Base.{Text, text_eq}
use omnivore.Text.Split.{lines}
use omnivore.Float.{F64}
use omnivore.Model.Report.{LineCoverage, FileCoverage}
use omnivore.Model.Snapshot.{CoverageSnapshot}
use omnivore.Storage.Records.{Tables}
use omnivore.Storage.Queries.{get_snapshots_for_project_by_series}
use omnivore.Storage.Retention.{Order, Series}
use omnivore.Server.Series.{Pair, get_series_for_project, get_latest_snapshot_by_series}
use omnivore.Pages.Target.{files_in}
use omnivore.Pages.Composite.{same_line}

abbrev pub max_rendered_lines : ℤ
max_rendered_lines = pos 50_000

pub data LineStatus : Type 0 where
  covered uncovered untracked : LineStatus

pub record LineRow : Type 0 where
  pub number : ℤ
  pub hits : ℤ
  pub status : LineStatus
  pub code : Text

-- the map from lines to hits: a later record of a line replaces an earlier one
unfoldable pub hit_map : List LineCoverage → ℤ → Option ℤ
unfolding same_line
hit_map [] n = none
hit_map (l ∷ ls) n = elim (hit_map ls n) [
  | some h ↦ some h
  | none ↦ if same_line l.line_number n then some l.hit_count else none
]

highest : ℤ → List LineCoverage → ℤ
highest best [] = best
highest best (l ∷ ls) = highest (max_ℤ best l.line_number) ls

-- as many rows as there are lines of source; without source, up to the highest line, and 50,000
unfoldable pub max_line : List Text → List LineCoverage → ℤ
unfolding highest wrap_i32
max_line (s ∷ ss) ls = wrap_i32 (pos (length (s ∷ ss)))
max_line [] [] = pos 0
max_line [] (l ∷ ls) =
    let h = highest l.line_number ls in if ltb_ℤ max_rendered_lines h then max_rendered_lines else h

unfoldable pub line_row : List Text → List LineCoverage → ℕ → LineRow
unfolding hit_map
line_row source ls n = elim (hit_map ls (pos n)) [
  | none ↦ record {
    number = pos n;
    hits = pos 0;
    status = untracked;
    code = get_or source (n - 1) [];
  }
  | some hits ↦
      if is_positive hits
      then record { number = pos n; hits = hits; status = covered; code = get_or source (n - 1) [] }
      else record {
        number = pos n;
        hits = pos 0;
        status = uncovered;
        code = get_or source (n - 1) [];
      }
]

-- the rows from one on, for so many
unfoldable pub rows_from : (ℕ → LineRow) → ℕ → ℕ → List LineRow
rows_from row first zero = []
rows_from row first (suc count) = row first ∷ rows_from row (first + 1) count

unfoldable pub source_lines : Option Text → List Text
unfolding lines
source_lines none = []
source_lines (some s) = lines s

series_of : Text → Pair → Series
series_of project_id (t, s) = record { project_id = project_id; target = t; source = s }

module _ {R : Type 0} where
  unfoldable pub line_rows : FileCoverage R → List LineRow
  unfolding max_line line_row rows_from source_lines
  line_rows file =
      let source = source_lines file.source_content in
      rows_from (line_row source file.lines) 1 (pos_part (max_line source file.lines))

  unfoldable pub find_file : Text → List (FileCoverage R) → Option (FileCoverage R)
  unfolding text_eq
  find_file path [] = none
  find_file path (f ∷ fs) = if text_eq f.path path then some f else find_file path fs

  file_of :
      (Text → Option (List (FileCoverage R)))
      → Text
      → Option (CoverageSnapshot R)
      → Option (FileCoverage R)
  unfolding find_file files_in
  file_of decode path none = none
  file_of decode path (some snap) = find_file path (files_in decode snap.files_json)

  -- the first series whose latest snapshot has the file
  unfoldable pub find_in_series :
      Order R
      → (Text → Option (List (FileCoverage R)))
      → Text
      → Text
      → Tables R
      → List Pair
      → Option (FileCoverage R)
  unfolding file_of get_latest_snapshot_by_series series_of
  find_in_series order decode project_id path db [] = none
  find_in_series order decode project_id path db (p ∷ ps) =
      elim (file_of decode path (get_latest_snapshot_by_series order (series_of project_id p) db)) [
        | some f ↦ some f
        | none ↦ find_in_series order decode project_id path db ps
      ]

  unfoldable pub find_file_across_targets :
      Order R
      → (Text → Option (List (FileCoverage R)))
      → Text
      → Text
      → Tables R
      → Option (FileCoverage R)
  unfolding find_in_series get_series_for_project
  find_file_across_targets order decode project_id path db =
      find_in_series order decode project_id path db (get_series_for_project project_id db)

module _ {R : Type 0} ⦃f64 : F64 R⦄ where
  deltas_of : FileCoverage R → Option (FileCoverage R) → Option R × Option R
  deltas_of f none = (none, none)
  deltas_of f (some p) =
      (some (f64.sub f.line_rate p.line_rate), some (f64.sub f.branch_rate p.branch_rate))

  -- the file of the newer of two snapshots, and what changed since the older
  with_delta :
      (Text → Option (List (FileCoverage R)))
      → Text
      → List (CoverageSnapshot R)
      → Option (FileCoverage R × Option R × Option R)
  unfolding file_of deltas_of
  with_delta decode path [] = none
  with_delta decode path (snap ∷ rest) = elim (file_of decode path (some snap)) [
    | none ↦ none
    | some f ↦ elim rest [
      | [] ↦ some (f, none, none)
      | prev ∷ more ↦ (let (l, b) = deltas_of f (file_of decode path (some prev)) in some (f, l, b))
    ]
  ]

  delta_in_series :
      Order R
      → (Text → Option (List (FileCoverage R)))
      → Text
      → Text
      → Tables R
      → List Pair
      → Option (FileCoverage R × Option R × Option R)
  unfolding with_delta get_snapshots_for_project_by_series series_of
  delta_in_series order decode project_id path db [] = none
  delta_in_series order decode project_id path db (p ∷ ps) =
      elim (with_delta decode path
        (get_snapshots_for_project_by_series order (series_of project_id p) (pos 2) db)) [
          | some r ↦ some r
          | none ↦ delta_in_series order decode project_id path db ps
        ]

  unfoldable pub find_file_with_delta :
      Order R
      → (Text → Option (List (FileCoverage R)))
      → Text
      → Text
      → Tables R
      → Option (FileCoverage R × Option R × Option R)
  unfolding delta_in_series get_series_for_project
  find_file_with_delta order decode project_id path db =
      delta_in_series order decode project_id path db (get_series_for_project project_id db)
