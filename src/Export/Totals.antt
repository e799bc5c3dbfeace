-- ===== src/Export/Totals.antt =====
-- About `build_export_report`: its totals, and the targets against their baselines.
use omnivore.Prelude.{
  ℕ, zero, suc, ◌+◌, ◌≡◌, refl, ap, ◌∙◌, Option, some, List, [], ◌∷◌, map, arith,
}
use omnivore.Prelude.Lists.{get_elem?}
use omnivore.Prelude.Int.{ℤ}
use omnivore.Float.{F64}
use omnivore.Model.Report.{sum_i64}
use omnivore.Model.Snapshot.{CoverageSnapshot}
use omnivore.Export.{Counters, add_counts, totals_of, baseline_at, target_report, target_reports}

abbrev plus : {R : Type 0} → (CoverageSnapshot R → ℤ) → ℤ → List (CoverageSnapshot R) → ℤ
plus f acc ss = sum_i64 acc (map f ss)

-- the loop's five counters are five sums
totals_of-sums :
    {R : Type 0} (c : Counters) (ss : List (CoverageSnapshot R))
    → totals_of c ss ≡ record {
      lines = plus (λ s. s.lines_total) c.lines ss;
      lines_covered = plus (λ s. s.lines_covered) c.lines_covered ss;
      branches = plus (λ s. s.branches_total) c.branches ss;
      branches_covered = plus (λ s. s.branches_covered) c.branches_covered ss;
      files = plus (λ s. s.file_count) c.files ss;
    }
unfolding totals_of sum_i64 add_counts
totals_of-sums c [] = refl
totals_of-sums c (s ∷ ss) = totals_of-sums (add_counts c s) ss

module _ {R : Type 0} ⦃f64 : F64 R⦄ where
  target_reports-at :
      (i j : ℕ) (ss : List (CoverageSnapshot R)) (bs : List (Option (CoverageSnapshot R)))
      (s : CoverageSnapshot R)
      → get_elem? ss j ≡ some s
      → get_elem? (target_reports i ss bs) j ≡ some (target_report s (baseline_at bs (i + j)))
  unfolding target_reports
  target_reports-at i j [] bs s h = cc
  target_reports-at i zero (t ∷ ss) bs s h =
      let e : t ≡ s = cc in
      ap (λ (k : ℕ). some (target_report t (baseline_at bs k))) (omega arith)
      ∙ ap (λ u. some (target_report u (baseline_at bs (i + 0)))) e
  target_reports-at i (suc j) (t ∷ ss) bs s h =
      target_reports-at (i + 1) j ss bs s h
      ∙ ap (λ (k : ℕ). some (target_report s (baseline_at bs k))) (omega arith)
