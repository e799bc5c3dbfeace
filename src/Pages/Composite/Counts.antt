-- ===== src/Pages/Composite/Counts.antt =====
-- About `compute_composite`: each line of each file is counted once, and covered if any target
-- covers it.
use omnivore.Prelude.{◌≡◌, true, List}
use omnivore.Prelude.Lists.{length}
use omnivore.Prelude.Sort.{sum_by}
use omnivore.Prelude.Int.{ℤ, pos}
use omnivore.Text.Base.{Text}
use omnivore.Float.{F64}
use omnivore.Pages.Target.{TargetSnapshot}
use omnivore.Pages.Composite.{CompositeSnapshot, LineMap, UnionMap, covered_in}
use omnivore.Pages.Composite.Union.{said_by, line_at}
use omnivore.Pages.Composite.Once.{IsOnce}
use omnivore.Pages.Composite.Bounds.{entries}

module _ {R : Type 0} ⦃f64 : F64 R⦄ where
  -- The composite is that of a map in which no path and no line of a path is twice, and which says of
  -- every line of every path what the targets say of it together.
  abbrev pub Unites : List (TargetSnapshot R) → CompositeSnapshot R → UnionMap → Type 0
  Unites ts c m =
      IsOnce m
      × ((path : Text) (n : ℤ) → line_at path n m ≡ said_by path n ts)
      × (c.lines_covered ≡ pos (sum_by (λ (u : Text × LineMap). covered_in u.1) m))
      × (c.lines_total ≡ pos (entries m))
      × (c.file_count ≡ pos (length m))
      × (c.lines_are_union ≡ true)
