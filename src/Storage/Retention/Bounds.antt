-- ===== src/Storage/Retention/Bounds.antt =====
-- About `prune_snapshots`: the series that is pruned.
use omnivore.Prelude.{
  ◌≤◌, ◌≡◌, refl, Bool, true, false, not, ◌&&◌, none, some, List, [], ◌∷◌, arith,
}
use mathlib.Core.List.{Perm}
use omnivore.Prelude.Tests.{ltb, if◌then◌else◌}
use omnivore.Prelude.Lists.{All, All-weaken, drop}
use omnivore.Prelude.Count.{
  filter, count, sum_by-perm, count-none, count_mono, count-filter, count-filter_le,
  count-take_bound, count-map,
}
use omnivore.Prelude.Int.{ℤ, pos_part}
use omnivore.Text.Base.{Text, text_eq, text_eq_iff, any}
use omnivore.Float.{F64}
use omnivore.Model.Report.{add_i64}
use omnivore.Model.Snapshot.{CoverageSnapshot}
use omnivore.Storage.Records.{Tables}
use omnivore.Storage.Tables.{has_snapshot, get_global_settings}
use omnivore.Storage.Retention.{
  Series, Order, in_series, beyond, strip_files, strip_rows, delete_rows, prune_snapshots,
}

module _ {R : Type 0} where
  -- An order only rearranges.
  abbrev pub Rearranges : Order R → Type 0
  Rearranges order = (rows : List (CoverageSnapshot R)) → Perm (order rows) rows

  abbrev pub named : Text → CoverageSnapshot R → Bool
  named id row = text_eq row.id id

  pub has_snapshot-count :
      (id : Text) (rows : List (CoverageSnapshot R))
      → has_snapshot id rows ≡ ltb 0 (count (named id) rows)
  unfolding has_snapshot any
  has_snapshot-count id [] = refl
  has_snapshot-count id (r ∷ rows) = ground (arith, has_snapshot-count id rows)

  All-has_snapshot :
      (rows : List (CoverageSnapshot R)) → All (λ r. has_snapshot r.id rows ≡ true) rows
  unfolding has_snapshot any
  All-has_snapshot [] = tt
  All-has_snapshot (r ∷ rows) = (
    ground (arith, text_eq_iff r.id r.id),
    All-weaken (λ x h. ground arith) rows (All-has_snapshot rows),
  )

  -- outside a list of rows
  abbrev pub kept : List (CoverageSnapshot R) → CoverageSnapshot R → Bool
  kept old r = not (has_snapshot r.id old)

  -- the rows with an identifier among those that are beyond the offset are not counted
  count-beyond :
      (order : Order R) (offset : ℤ) (s : Series) (rows : List (CoverageSnapshot R))
      → Rearranges order
      → count (λ r. in_series s r && kept (beyond order offset s rows) r) rows ≤ pos_part offset
  unfolding beyond
  count-beyond order offset s rows p =
      (let n = pos_part offset in
        let series = filter (in_series s) rows in
        let old = drop n (order series) in
        let gone =
          count-none (kept old) old (All-weaken (λ x h. rw h refl) old (All-has_snapshot old)) in
        omega (
          arith,
          count-filter (kept old) (in_series s) rows,
          sum_by-perm (λ r. if kept old r then 1 else 0) (p series),
          count-take_bound (kept old) n (order series) gone,
        ))

  pub count-delete_rows :
      (order : Order R) (total : ℤ) (s : Series) (rows : List (CoverageSnapshot R))
      → Rearranges order
      → count (in_series s) (delete_rows order total s rows) ≤ pos_part total
  unfolding delete_rows
  count-delete_rows order total s rows p =
      (let old = beyond order total s rows in
        let swap =
          count_mono (λ r. kept old r && in_series s r) (λ r. in_series s r && kept old r) rows
            (λ r h. ground arith) in
        omega (
          arith,
          count-filter (in_series s) (kept old) rows,
          swap,
          count-beyond order total s rows p,
        ))

  unfoldable pub has_files : CoverageSnapshot R → Bool
  has_files r = elim r.files_json [ none ↦ false | some j ↦ true ]

  -- a row of the series with its files
  abbrev pub is_full : Series → CoverageSnapshot R → Bool
  is_full s r = in_series s r && has_files r

  strip_files-full :
      (old : List (CoverageSnapshot R)) (s : Series) (r : CoverageSnapshot R)
      → is_full s (strip_files old r) ≡ true
      → (in_series s r && kept old r) ≡ true
  unfolding strip_files in_series has_files
  strip_files-full old s r h = ground arith

  pub count-strip_rows :
      (order : Order R) (full : ℤ) (s : Series) (rows : List (CoverageSnapshot R))
      → Rearranges order
      → count (is_full s) (strip_rows order full s rows) ≤ pos_part full
  unfolding strip_rows
  count-strip_rows order full s rows p =
      (let old = beyond order full s rows in
        omega (
          arith,
          count-map (is_full s) (strip_files old) rows,
          count_mono (λ r. is_full s (strip_files old r)) (λ r. in_series s r && kept old r) rows
              (strip_files-full old s),
          count-beyond order full s rows p,
        ))

module _ {R : Type 0} ⦃f64 : F64 R⦄ where
  -- However many snapshots a series has, pruning leaves no more than the retention limits allow,
  -- and no more with their files than the limit on those.
  pub prune_snapshots-bounded :
      (order : Order R) (s : Series) (db : Tables R)
      → Rearranges order
      → (count (is_full s) (prune_snapshots order s db).snapshots
          ≤ pos_part (get_global_settings db).retention_full)
        × (count (in_series s) (prune_snapshots order s db).snapshots
            ≤ pos_part (
                add_i64
                  (get_global_settings db).retention_full
                  (get_global_settings db).retention_summary))
  unfolding prune_snapshots delete_rows
  prune_snapshots-bounded order s db p =
      (let settings = get_global_settings db in
        let rows = strip_rows order settings.retention_full s db.snapshots in
        let total = add_i64 settings.retention_full settings.retention_summary in
        (
          omega (
            arith,
            count-strip_rows order settings.retention_full s db.snapshots p,
            count-filter_le (is_full s) (kept (beyond order total s rows)) rows,
          ),
          count-delete_rows order total s rows p,
        ))
