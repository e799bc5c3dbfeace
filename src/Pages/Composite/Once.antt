-- ===== src/Pages/Composite/Once.antt =====
-- About the union of the targets' lines: a path has one entry, and a line of it has one.

use omnivore.Prelude.{◌≢◌, sym, Bool, inl, inr, List, [], ◌∷◌}
use omnivore.Prelude.Tests.{Bool-cases}
use omnivore.Prelude.Lists.{All, IsNew, KeysDistinct}
use omnivore.Prelude.Int.{ℤ, is_positive}
use omnivore.Text.Base.{Text, text_eq, text_eq_refl}
use omnivore.Model.Report.{LineCoverage, FileCoverage}
use omnivore.Pages.Target.{TargetSnapshot}
use omnivore.Pages.Composite.{
  LineMap, UnionMap, same_line, mark, mark_all, mark_file, mark_files, union_of,
}
use omnivore.Pages.Composite.Union.{same_line_iff}

-- a line, and a path, has one entry
mark-IsNew :
    (k n : ℤ) (hit : Bool) (lines : LineMap) → n ≢ k → IsNew k lines → IsNew k (mark n hit lines)
unfolding mark
mark-IsNew k n hit [] d h = (d, tt)
mark-IsNew k n hit ((m, b) ∷ lines) d (e, h) = elim (Bool-cases (same_line m n)) [
  | inl p ↦ rw p (e, h)
  | inr p ↦ rw p (e, mark-IsNew k n hit lines d h)
]

mark-KeysDistinct :
    (n : ℤ) (hit : Bool) (lines : LineMap) → KeysDistinct lines → KeysDistinct (mark n hit lines)
unfolding mark
mark-KeysDistinct n hit [] h = (tt, tt)
mark-KeysDistinct n hit ((m, b) ∷ lines) (e, h) = elim (Bool-cases (same_line m n)) [
  | inl p ↦ rw p (e, h)
  | inr p ↦ rw p (
    mark-IsNew m n hit lines (λ q. cc (p, (same_line_iff m n).1 (sym q))) e,
    mark-KeysDistinct n hit lines h,
  )
]

mark_all-KeysDistinct :
    (ls : List LineCoverage) (lines : LineMap)
    → KeysDistinct lines
    → KeysDistinct (mark_all ls lines)
unfolding mark_all
mark_all-KeysDistinct [] lines h = h
mark_all-KeysDistinct (l ∷ ls) lines h =
    mark_all-KeysDistinct ls (mark l.line_number (is_positive l.hit_count) lines)
      (mark-KeysDistinct l.line_number (is_positive l.hit_count) lines h)

abbrev pub IsOnce : UnionMap → Type 0
IsOnce union = KeysDistinct union × All (λ (u : Text × LineMap). KeysDistinct u.1) union

mark_file-IsNew :
    (k p : Text) (ls : List LineCoverage) (union : UnionMap)
    → p ≢ k
    → IsNew k union
    → IsNew k (mark_file p ls union)
unfolding mark_file
mark_file-IsNew k p ls [] d h = (d, tt)
mark_file-IsNew k p ls ((q, lines) ∷ union) d (e, h) = elim (Bool-cases (text_eq q p)) [
  | inl a ↦ rw a (e, h)
  | inr a ↦ rw a (e, mark_file-IsNew k p ls union d h)
]

mark_file-IsOnce :
    (p : Text) (ls : List LineCoverage) (union : UnionMap)
    → IsOnce union
    → IsOnce (mark_file p ls union)
unfolding mark_file
mark_file-IsOnce p ls [] h = ((tt, tt), (mark_all-KeysDistinct ls [] tt, tt))
mark_file-IsOnce p ls ((q, lines) ∷ union) ((a, b), (c, d)) = elim (Bool-cases (text_eq q p)) [
  | inl e ↦ rw e ((a, b), (mark_all-KeysDistinct ls lines c, d))
  | inr e ↦
      (let (x, y) = mark_file-IsOnce p ls union (b, d) in
        rw e ((mark_file-IsNew q p ls union (λ z. cc (e, text_eq_refl q, z)) a, x), (c, y)))
]

module _ {R : Type 0} where
  mark_files-IsOnce :
      (fs : List (FileCoverage R)) (union : UnionMap) → IsOnce union → IsOnce (mark_files fs union)
  unfolding mark_files
  mark_files-IsOnce [] union h = h
  mark_files-IsOnce (f ∷ fs) union h =
      mark_files-IsOnce fs (mark_file f.path f.lines union)
        (mark_file-IsOnce f.path f.lines union h)

  pub union_of-IsOnce :
      (ts : List (TargetSnapshot R)) (union : UnionMap) → IsOnce union → IsOnce (union_of ts union)
  unfolding union_of
  union_of-IsOnce [] union h = h
  union_of-IsOnce (t ∷ ts) union h =
      union_of-IsOnce ts (mark_files t.files union) (mark_files-IsOnce t.files union h)
