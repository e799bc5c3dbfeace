-- ===== src/Parsers/Lcov/Totals.antt =====
-- About `parse` of parsers/lcov.rs: the totals of the report.
use omnivore.Prelude.{ℕ, suc, ◌≡◌, refl, ◌≢◌, Option, none, some, List, [], ◌∷◌}
use omnivore.Prelude.Int.{ℤ}
use omnivore.Text.Base.{is_empty, Text, trim}
use omnivore.Text.Split.{splitn, lines}
use omnivore.Text.Number.{parse_i64}
use omnivore.Float.{F64}
use omnivore.Model.Report.{sum_i64, FileCoverage}
use omnivore.Model.Plausible.Dropped.{
  LinesAgree, BranchesAgree, drop-LinesAgree, drop-BranchesAgree, drop_implausible_lines-ne-nil,
}
use omnivore.Model.Snapshot.{Outside, from_report}
use omnivore.Model.Snapshot.Mirror.{Mirrors, from_report-Mirrors_given}
use omnivore.Model.Source
use omnivore.Parsers.Errors.{
  ok, Ensures, Ensures-bind, Ensures-trivial, Ensures-ok, IngestMeta, Parsed,
}
use omnivore.Parsers.Lcov.{
  State, initial, Line, skipped, end_of_record, sf, da, brda, brf, brh, classify, act, loop,
  flush_file, flush_path, start_file, end_record, da_record, brda_record, set_brf, set_brh,
  require_files, report_of, parse,
}
use omnivore.Parsers.Sums.{BranchTotals, BranchTotals-append}

module _ {R : Type 0} where
  abbrev IsSummed : State R → Type 0
  IsSummed s = BranchTotals s.total_branches_found s.total_branches_hit s.files

module _ {R : Type 0} ⦃f64 : F64 R⦄ where
  flush_path-IsSummed : (o : Option Text) (s : State R) → IsSummed s → IsSummed (flush_path o s)
  unfolding flush_path
  flush_path-IsSummed none s h = h
  flush_path-IsSummed (some path) s h =
      BranchTotals-append s.total_branches_found s.total_branches_hit s.files _ h

  flush_file-IsSummed : (s : State R) → IsSummed s → IsSummed (flush_file s)
  unfolding flush_file
  flush_file-IsSummed s h = flush_path-IsSummed s.current_path s h

  brda_record-IsSummed :
      (parts : List Text) (s : State R) → IsSummed s → IsSummed (brda_record parts s)
  unfolding brda_record
  brda_record-IsSummed (a ∷ (b ∷ (c ∷ (d ∷ [])))) s h = h
  brda_record-IsSummed _ s h = h

  set_brf-IsSummed : (o : Option ℤ) (s : State R) → IsSummed s → IsSummed (set_brf o s)
  unfolding set_brf
  set_brf-IsSummed none s h = h
  set_brf-IsSummed (some n) s h = h

  set_brh-IsSummed : (o : Option ℤ) (s : State R) → IsSummed s → IsSummed (set_brh o s)
  unfolding set_brh
  set_brh-IsSummed none s h = h
  set_brh-IsSummed (some n) s h = h

  act-IsSummed : (n : ℕ) (l : Line) (s : State R) → IsSummed s → Ensures IsSummed (act n l s)
  unfolding act start_file end_record
  act-IsSummed n skipped s h = h
  act-IsSummed n end_of_record s h = flush_file-IsSummed s h
  act-IsSummed n (sf path) s h = flush_file-IsSummed s h
  act-IsSummed n (da rest) s h =
      Ensures-bind (λ l. Unit {0}) IsSummed (da_record n (splitn 3 b',' rest)) _
        (Ensures-trivial (da_record n (splitn 3 b',' rest))) (λ l t. h)
  act-IsSummed n (brda rest) s h = brda_record-IsSummed (splitn 4 b',' rest) s h
  act-IsSummed n (brf rest) s h = set_brf-IsSummed (parse_i64 rest) s h
  act-IsSummed n (brh rest) s h = set_brh-IsSummed (parse_i64 rest) s h

  loop-IsSummed :
      (n : ℕ) (ls : List Text) (s : State R) → IsSummed s → Ensures IsSummed (loop n ls s)
  unfolding loop
  loop-IsSummed n [] s h = h
  loop-IsSummed n (raw ∷ rest) s h =
      Ensures-bind IsSummed IsSummed (act (suc n) (classify (trim raw)) s) _
        (act-IsSummed (suc n) (classify (trim raw)) s h) (λ s' h'. loop-IsSummed (suc n) rest s' h')

  require_files-ne-nil : (fs : List (FileCoverage R)) → Ensures (λ t. fs ≢ []) (require_files fs)
  unfolding require_files
  require_files-ne-nil [] = tt
  require_files-ne-nil (f ∷ fs) = cc

  -- What the parser promises of a report and its snapshot.
  abbrev pub IsConsistent : Parsed R → Type 0
  IsConsistent (report, snapshot) =
      LinesAgree report
      × BranchesAgree report
      × (report.files ≢ [])
      × Mirrors Source.lcov report snapshot

  report-IsConsistent :
      (out : Outside R) (meta : IngestMeta) (s : State R)
      → IsSummed s
      → s.files ≢ []
      → IsConsistent (from_report out (report_of meta s) (some Source.lcov))
  unfolding from_report report_of is_empty
  report-IsConsistent out meta s h n = (
    drop-LinesAgree (report_of meta s) (refl, refl),
    drop-BranchesAgree (report_of meta s) h,
    drop_implausible_lines-ne-nil (report_of meta s) n,
    from_report-Mirrors_given out (report_of meta s) Source.lcov refl,
  )

  parse-Ensures :
      (out : Outside R) (input : Text) (meta : IngestMeta)
      → Ensures IsConsistent (parse out input meta)
  unfolding parse sum_i64
  parse-Ensures out input meta =
      Ensures-bind IsSummed IsConsistent (loop 0 (lines input) initial) _
        (loop-IsSummed 0 (lines input) initial (refl, refl))
        λ s h.
          Ensures-bind (λ t. (flush_file s).files ≢ []) IsConsistent
            (require_files (flush_file s).files) _ (require_files-ne-nil (flush_file s).files)
            λ t n. report-IsConsistent out meta (flush_file s) (flush_file-IsSummed s h) n

  -- A parsed lcov report has a file, all its line numbers are plausible, its line totals are those
  -- of the lines of its files, its branch totals are the `i64` sums over its files, and the snapshot
  -- repeats its totals and names lcov as the source.
  pub parse-IsConsistent :
      (out : Outside R) (input : Text) (meta : IngestMeta) {p : Parsed R}
      → parse out input meta ≡ ok p
      → IsConsistent p
  parse-IsConsistent out input meta {p} e =
      Ensures-ok IsConsistent (parse out input meta) p (parse-Ensures out input meta) e
