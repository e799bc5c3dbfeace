-- ===== src/Parsers/GoCoverprofile/Totals.antt =====
-- About `parse` of parsers/go_coverprofile.rs: the lines of the report, and the map that they are
-- made of.
use omnivore.Prelude.{
  ℕ, ◌+◌, ◌≤◌, ◌≡◌, refl, sym, ◌∙◌, ◌≢◌, List, [], ◌∷◌, map, some, inl, inr, arith,
}
use omnivore.Prelude.Tests.{ltb, Bool-cases}
use omnivore.Prelude.Lists.{length, length-map, IsNew, KeysDistinct}
use omnivore.Prelude.Sort.{sort, sum_by, sum_by-sort, length-sort}
use omnivore.Float.{F64}
use omnivore.Model.Plausible.{total_lines}
use omnivore.Model.Plausible.Dropped.{LinesAgree, drop-LinesAgree, drop_implausible_lines-count}
use omnivore.Model.Snapshot.{Outside, from_report}
use omnivore.Parsers.GoCoverprofile.Bounds.{entries, IsBounded, loop-IsBounded}
use omnivore.Parsers.GoCoverprofile.Report.{
  line_numbers, sorted_lines, file_names, lines_at, file_of, file_coverages, require_data,
  report_of, parse,
}
use omnivore.Prelude.Int.{pos_part}
use omnivore.Text.Base.{Text, text_eq, text_eq_iff, text_le, trim}
use omnivore.Model.Source
use omnivore.Text.Split.{lines}
use omnivore.Parsers.Errors.{
  Ensures, Ensures-bind, Ensures-both, Ensures-trivial, IngestMeta, Parsed,
}
use omnivore.Parsers.GoCoverprofile.{
  max_total_lines, LineMap, FileMap, Line, skipped, mode, block, read_line, raise_range, update,
  State, implausible, span, add_block, act, loop, initial,
}

update-IsNew :
    (file k : Text) (f : LineMap → LineMap) (fs : FileMap)
    → file ≢ k
    → IsNew k fs
    → IsNew k (update file f fs)
unfolding update
update-IsNew file k f [] h n = (h, tt)
update-IsNew file k f ((j, m) ∷ fs) h (p, n) =
    ground (arith, text_eq_iff j file, update-IsNew file k f fs h n)

update-KeysDistinct :
    (file : Text) (f : LineMap → LineMap) (fs : FileMap)
    → KeysDistinct fs
    → KeysDistinct (update file f fs)
unfolding update
update-KeysDistinct file f [] h = (tt, tt)
update-KeysDistinct file f ((j, m) ∷ fs) (n, h) = elim (Bool-cases (text_eq j file)) [
  | inl p ↦ rw p (n, h)
  | inr p ↦ rw p (
    update-IsNew file j f fs (λ e. absurd (ground (arith, text_eq_iff j file, sym e))) n,
    update-KeysDistinct file f fs h,
  )
]

-- Each file is one entry.
abbrev HasFilesOnce : State → Type 0
HasFilesOnce s = KeysDistinct s.files

act-HasFilesOnce : (l : Line) (s : State) → HasFilesOnce s → Ensures HasFilesOnce (act l s)
unfolding act add_block
act-HasFilesOnce skipped s h = h
act-HasFilesOnce mode s h = h
act-HasFilesOnce (block b) s h = elim (Bool-cases (implausible b)) [
  | inl p ↦ rw p tt
  | inr p ↦ elim (Bool-cases (ltb max_total_lines (s.total_expanded + span b))) [
    | inl q ↦ rw (p, q) tt
    | inr q ↦
        rw (p, q)
          (update-KeysDistinct b.file (raise_range (pos_part b.start_line) (span b) b.count) s.files
            h)
  ]
]

loop-HasFilesOnce : (ls : List Text) (s : State) → HasFilesOnce s → Ensures HasFilesOnce (loop ls s)
unfolding loop
loop-HasFilesOnce [] s h = h
loop-HasFilesOnce (raw ∷ rest) s h =
    Ensures-bind HasFilesOnce HasFilesOnce (act (read_line (trim raw)) s) _
      (act-HasFilesOnce (read_line (trim raw)) s h) (λ s' h'. loop-HasFilesOnce rest s' h')

-- the lines of a file that is looked up
abbrev lines_in : FileMap → Text → ℕ
lines_in fs name = length (lines_at name fs)

sum-new :
    (k : Text) (m : LineMap) (fs gs : FileMap)
    → IsNew k gs
    → sum_by (lines_in ((k, m) ∷ fs)) (file_names gs) ≡ sum_by (lines_in fs) (file_names gs)
unfolding lines_at file_names
sum-new k m fs [] h = refl
sum-new k m fs ((j, n) ∷ gs) (p, h) = ground (arith, text_eq_iff k j, sum-new k m fs gs h)

sum-names : (fs : FileMap) → KeysDistinct fs → sum_by (lines_in fs) (file_names fs) ≡ entries fs
unfolding lines_at file_names entries
sum-names [] h = refl
sum-names ((k, m) ∷ fs) (n, h) =
    ground (arith, text_eq_iff k k, sum-new k m fs fs n, sum-names fs h)

length-sorted_lines : (m : LineMap) → length (sorted_lines m) ≡ length m
unfolding sorted_lines line_numbers
length-sorted_lines m = rw (length-map, length-sort, length-map)

module _ (R : Type 0) ⦃f64 : F64 R⦄ where
  total_lines-names :
      (prefix : Text) (fs : FileMap) (names : List Text)
      → total_lines {R = R} (map (λ name. file_of prefix name (lines_at name fs)) names)
        ≡ sum_by (lines_in fs) names
  unfolding total_lines file_of
  total_lines-names prefix fs [] = refl
  total_lines-names prefix fs (name ∷ names) =
      omega (arith, length-sorted_lines (lines_at name fs), total_lines-names prefix fs names)

  total_lines-file_coverages :
      (iterate : List Text → List Text) (fs : FileMap)
      → KeysDistinct fs
      → total_lines {R = R} (file_coverages iterate fs) ≡ entries fs
  unfolding file_coverages
  total_lines-file_coverages iterate fs h =
      total_lines-names _ fs (sort text_le (file_names fs))
      ∙ sum_by-sort text_le (lines_in fs) (file_names fs)
      ∙ sum-names fs h

module _ {R : Type 0} ⦃f64 : F64 R⦄ where
  abbrev pub HasFewLines : Parsed R → Type 0
  HasFewLines p = (total_lines p.0.files ≤ max_total_lines) × LinesAgree p.0

  report_of-HasFewLines :
      (iterate : List Text → List Text) (out : Outside R) (meta : IngestMeta) (s : State)
      → IsBounded s
      → HasFilesOnce s
      → HasFewLines
          (from_report out (report_of meta (file_coverages iterate s.files)) (some Source.go))
  unfolding from_report report_of
  report_of-HasFewLines iterate out meta s b h = (
    omega (
      arith,
      b.counted,
      b.below,
      total_lines-file_coverages R iterate s.files h,
      drop_implausible_lines-count (report_of meta (file_coverages iterate s.files)),
    ),
    drop-LinesAgree (report_of meta (file_coverages iterate s.files)) (refl, refl),
  )

  -- A Go profile is refused, or its report has at most 2,000,000 lines and line totals that are those
  -- of the lines of its files.
  pub parse-HasFewLines :
      (iterate : List Text → List Text) (out : Outside R) (input : Text) (meta : IngestMeta)
      → Ensures HasFewLines (parse iterate out input meta)
  unfolding parse entries
  parse-HasFewLines iterate out input meta =
      Ensures-bind (λ s. IsBounded s × HasFilesOnce s) HasFewLines (loop (lines input) initial) _
        (Ensures-both IsBounded HasFilesOnce (loop (lines input) initial)
          (loop-IsBounded (lines input) initial
            (record { counted = omega arith; below = omega arith; ranged = tt }))
          (loop-HasFilesOnce (lines input) initial tt))
        (λ s h.
          Ensures-bind (λ u. Unit {0}) HasFewLines (require_data s) _
            (Ensures-trivial (require_data s))
            (λ u k. report_of-HasFewLines iterate out meta s h.0 h.1))
