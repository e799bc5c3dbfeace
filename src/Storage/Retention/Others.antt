-- ===== src/Storage/Retention/Others.antt =====
-- About `prune_snapshots`: the rows of the other series.
use omnivore.Prelude.{◌≡◌, refl, ◌∙◌, Bool, false, not, List, [], ◌∷◌, map, inl, inr, arith}
use omnivore.Prelude.Tests.{if◌then◌else◌, Bool-cases}
use omnivore.Prelude.Lists.{All, All-weaken, All-both, drop}
use omnivore.Prelude.Count.{filter, sum_by-perm, count-drop_le}
use omnivore.Prelude.Int.{ℤ, pos_part}
use omnivore.Text.Base.{Text, text_eq, text_eq_iff, any}
use omnivore.Float.{F64}
use omnivore.Model.Report.{add_i64}
use omnivore.Model.Snapshot.{CoverageSnapshot}
use omnivore.Storage.Records.{Tables}
use omnivore.Storage.Tables.{has_snapshot, get_global_settings}
use omnivore.Storage.Retention.{
  Series, Order, in_series, beyond, strip_files, strip_rows, delete_rows, prune_snapshots,
}
use omnivore.Storage.Retention.Bounds.{Rearranges, kept, named, has_snapshot-count}

module _ {R : Type 0} where
  -- The identifiers of the rows are a primary key.
  unfoldable pub IdsDistinct : List (CoverageSnapshot R) → Type 0
  IdsDistinct [] = Unit
  IdsDistinct (r ∷ rows) = (has_snapshot r.id rows ≡ false) × IdsDistinct rows

  -- outside a series
  abbrev pub is_other : Series → CoverageSnapshot R → Bool
  is_other s r = not (in_series s r)

  pub has_snapshot-filter :
      (id : Text) (q : CoverageSnapshot R → Bool) (rows : List (CoverageSnapshot R))
      → has_snapshot id rows ≡ false
      → has_snapshot id (filter q rows) ≡ false
  unfolding has_snapshot any
  has_snapshot-filter id q [] h = refl
  has_snapshot-filter id q (r ∷ rows) h = ground (arith, has_snapshot-filter id q rows)

  absent-All :
      (id : Text) (rows : List (CoverageSnapshot R))
      → has_snapshot id rows ≡ false
      → All (λ r. text_eq id r.id ≡ false) rows
  unfolding has_snapshot any
  absent-All id [] h = tt
  absent-All id (r ∷ rows) h =
      (ground (arith, text_eq_iff id r.id, text_eq_iff r.id id), absent-All id rows (ground arith))

  -- what holds of a row that is in no series of this name
  abbrev NotAmong : Series → List (CoverageSnapshot R) → CoverageSnapshot R → Type 0
  NotAmong s old r = in_series s r ≡ false → has_snapshot r.id old ≡ false

  filter-absent :
      (s : Series) (r : CoverageSnapshot R) (rows : List (CoverageSnapshot R)) (id : Text)
      → text_eq r.id id ≡ false
      → has_snapshot id (filter (in_series s) rows) ≡ false
      → has_snapshot id (filter (in_series s) (r ∷ rows)) ≡ false
  unfolding has_snapshot any
  filter-absent s r rows id e h = ground arith

  other-absent :
      (s : Series) (rows : List (CoverageSnapshot R))
      → IdsDistinct rows
      → All (NotAmong s (filter (in_series s) rows)) rows
  unfolding IdsDistinct
  other-absent s [] h = tt
  other-absent s (r ∷ rows) (f, d) = (
    (λ q. rw q (has_snapshot-filter r.id (in_series s) rows f)),
    All-weaken (λ x (e, n) q. filter-absent s r rows x.id e (n q)) rows
        (All-both _ _ rows (absent-All r.id rows f) (other-absent s rows d)),
  )

  beyond-absent :
      (order : Order R) (offset : ℤ) (s : Series) (rows : List (CoverageSnapshot R)) (id : Text)
      → Rearranges order
      → has_snapshot id (filter (in_series s) rows) ≡ false
      → has_snapshot id (beyond order offset s rows) ≡ false
  unfolding beyond
  beyond-absent order offset s rows id p h =
      (let series = filter (in_series s) rows in
        ground (
          arith,
          has_snapshot-count id series,
          has_snapshot-count id (drop (pos_part offset) (order series)),
          sum_by-perm (λ r. if named id r then 1 else 0) (p series),
          count-drop_le (named id) (pos_part offset) (order series),
        ))

  other-kept :
      (order : Order R) (offset : ℤ) (s : Series) (rows : List (CoverageSnapshot R))
      → Rearranges order
      → IdsDistinct rows
      → All (NotAmong s (beyond order offset s rows)) rows
  other-kept order offset s rows p d =
      All-weaken (λ x n q. beyond-absent order offset s rows x.id p (n q)) rows
        (other-absent s rows d)

  filter-delete :
      (s : Series) (old rows : List (CoverageSnapshot R))
      → All (NotAmong s old) rows
      → filter (is_other s) (filter (kept old) rows) ≡ filter (is_other s) rows
  filter-delete s old [] h = refl
  filter-delete s old (r ∷ rows) (n, h) = ground (arith, filter-delete s old rows h, n)

  in_series-strip :
      (s : Series) (old : List (CoverageSnapshot R)) (r : CoverageSnapshot R)
      → in_series s (strip_files old r) ≡ in_series s r
  unfolding strip_files in_series
  in_series-strip s old r = ground arith

  strip_files-absent :
      (old : List (CoverageSnapshot R)) (r : CoverageSnapshot R)
      → has_snapshot r.id old ≡ false
      → strip_files old r ≡ r
  unfolding strip_files
  strip_files-absent old r h = rw h refl

  filter-strip :
      (s : Series) (old rows : List (CoverageSnapshot R))
      → All (NotAmong s old) rows
      → filter (is_other s) (map (strip_files old) rows) ≡ filter (is_other s) rows
  filter-strip s old [] h = refl
  filter-strip s old (r ∷ rows) (n, h) = elim (Bool-cases (in_series s r)) [
    | inl p ↦ rw (in_series-strip s old r, p) (filter-strip s old rows h)
    | inr p ↦
        rw (in_series-strip s old r, p, strip_files-absent old r (n p), filter-strip s old rows h)
          refl
  ]

  has_snapshot-strip :
      (id : Text) (old rows : List (CoverageSnapshot R))
      → has_snapshot id (map (strip_files old) rows) ≡ has_snapshot id rows
  unfolding has_snapshot any strip_files
  has_snapshot-strip id old [] = refl
  has_snapshot-strip id old (r ∷ rows) = ground (arith, has_snapshot-strip id old rows)

  strip_files-id :
      (old : List (CoverageSnapshot R)) (r : CoverageSnapshot R) → (strip_files old r).id ≡ r.id
  unfolding strip_files
  strip_files-id old r = ground arith

  pub strip-IdsDistinct :
      (old rows : List (CoverageSnapshot R))
      → IdsDistinct rows
      → IdsDistinct (map (strip_files old) rows)
  unfolding IdsDistinct
  strip-IdsDistinct old [] h = tt
  strip-IdsDistinct old (r ∷ rows) (f, d) =
      (rw (strip_files-id old r, has_snapshot-strip r.id old rows) f, strip-IdsDistinct old rows d)

module _ {R : Type 0} ⦃f64 : F64 R⦄ where
  -- Rows outside the series that is pruned stay as they are, files included, and in their order.
  pub prune_snapshots-others :
      (order : Order R) (s : Series) (db : Tables R)
      → Rearranges order
      → IdsDistinct db.snapshots
      → filter (is_other s) (prune_snapshots order s db).snapshots
        ≡ filter (is_other s) db.snapshots
  unfolding prune_snapshots delete_rows strip_rows
  prune_snapshots-others order s db p d =
      (let settings = get_global_settings db in
        let old = beyond order settings.retention_full s db.snapshots in
        let rows = map (strip_files old) db.snapshots in
        let total = add_i64 settings.retention_full settings.retention_summary in
        filter-delete s (beyond order total s rows) rows
          (other-kept order total s rows p (strip-IdsDistinct old db.snapshots d))
        ∙ filter-strip s old db.snapshots
            (other-kept order settings.retention_full s db.snapshots p d))
