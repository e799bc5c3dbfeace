-- ===== src/Parsers/GoCoverprofile/Bounds.antt =====
-- About the loop of parsers/go_coverprofile.rs: the size of the map that it fills.
use omnivore.Prelude.{ℕ, zero, suc, ◌+◌, ◌≤◌, ◌≡◌, List, [], ◌∷◌, false, inl, inr, arith}
use omnivore.Prelude.Tests.{ltb, Bool-cases}
use omnivore.Prelude.Lists.{length}
use omnivore.Prelude.Int.{ℤ, pos_part}
use omnivore.Text.Base.{Text, All, trim}
use omnivore.Model.Report.{max_line_number}
use omnivore.Parsers.Errors.{Ensures, Ensures-bind}
use omnivore.Parsers.GoCoverprofile.{
  max_total_lines, LineMap, FileMap, Block, Line, skipped, mode, block, read_line, raise,
  raise_range, update, State, implausible, span, add_block, act, loop,
}

-- the entries of all files
unfoldable pub entries : FileMap → ℕ
entries [] = 0
entries ((k, m) ∷ fs) = length m + entries fs

-- every line number of a file is plausible
abbrev pub InRange : LineMap → Type 0
InRange m = All (λ e. (1 ≤ e.0) × (e.0 ≤ max_line_number)) m

abbrev pub AllInRange : FileMap → Type 0
AllInRange fs = All (λ f. InRange f.1) fs

length-raise : (n : ℕ) (count : ℤ) (m : LineMap) → length (raise n count m) ≤ length m + 1
unfolding raise
length-raise n count [] = omega arith
length-raise n count ((k, c) ∷ m) = ground (arith, length-raise n count m)

length-raise_range :
    (n more : ℕ) (count : ℤ) (m : LineMap) → length (raise_range n more count m) ≤ length m + more
unfolding raise_range
length-raise_range n zero count m = omega arith
length-raise_range n (suc more) count m =
    omega (arith, length-raise n count m, length-raise_range (suc n) more count (raise n count m))

raise-InRange :
    (n : ℕ) (count : ℤ) (m : LineMap)
    → 1 ≤ n
    → n ≤ max_line_number
    → InRange m
    → InRange (raise n count m)
unfolding raise
raise-InRange n count [] a b h = ((a, b), tt)
raise-InRange n count ((k, c) ∷ m) a b h = ground (arith, raise-InRange n count m a b h.1)

raise_range-InRange :
    (n more : ℕ) (count : ℤ) (m : LineMap)
    → 1 ≤ n
    → n + more ≤ suc max_line_number
    → InRange m
    → InRange (raise_range n more count m)
unfolding raise_range
raise_range-InRange n zero count m a b h = h
raise_range-InRange n (suc more) count m a b h =
    raise_range-InRange (suc n) more count (raise n count m) (omega arith) (omega arith)
      (raise-InRange n count m a (omega arith) h)

module _ (file : Text) (f : LineMap → LineMap) where
  entries-update :
      (k : ℕ) (fs : FileMap)
      → ((m : LineMap) → length (f m) ≤ length m + k)
      → entries (update file f fs) ≤ entries fs + k
  unfolding entries update
  entries-update k [] h = omega (arith, h [])
  entries-update k ((j, m) ∷ fs) h = ground (arith, h m, entries-update k fs h)

  update-InRange :
      (fs : FileMap)
      → ((m : LineMap) → InRange m → InRange (f m))
      → AllInRange fs
      → AllInRange (update file f fs)
  unfolding update
  update-InRange [] h a = (h [] tt, tt)
  update-InRange ((j, m) ∷ fs) h a = ground (arith, h m a.0, update-InRange fs h a.1)

-- What the loop keeps: the entries are no more than the lines counted, which stay below the ceiling.
pub record IsBounded (s : State) : Type 0 where
  pub counted : entries s.files ≤ s.total_expanded
  pub below : s.total_expanded ≤ max_total_lines
  pub ranged : AllInRange s.files

-- The lines of a block that passes the check.
pub implausible-false :
    (b : Block)
    → implausible b ≡ false
    → (1 ≤ pos_part b.start_line)
      × (pos_part b.start_line + span b ≡ suc (pos_part b.end_line))
      × (pos_part b.end_line ≤ max_line_number)
unfolding implausible span
implausible-false b h = ground arith

add_block-IsBounded : (b : Block) (s : State) → IsBounded s → Ensures IsBounded (add_block b s)
unfolding add_block
add_block-IsBounded b s h = elim (Bool-cases (implausible b)) [
  | inl p ↦ rw p tt
  | inr p ↦ elim (Bool-cases (ltb max_total_lines (s.total_expanded + span b))) [
    | inl q ↦ rw (p, q) tt
    | inr q ↦
        (let (low, top, high) = implausible-false b p in
          rw (p, q)
            (record {
              counted = omega (
                arith,
                h.counted,
                entries-update b.file (raise_range (pos_part b.start_line) (span b) b.count)
                    (span b) s.files (length-raise_range (pos_part b.start_line) (span b) b.count),
              );
              below = ground (arith, q);
              ranged =
                  update-InRange b.file _ s.files
                    (λ m.
                      raise_range-InRange (pos_part b.start_line) (span b) b.count m low
                        (omega arith))
                    h.ranged;
            }))
  ]
]

act-IsBounded : (l : Line) (s : State) → IsBounded s → Ensures IsBounded (act l s)
unfolding act
act-IsBounded skipped s h = h
act-IsBounded mode s h = record { counted = h.counted; below = h.below; ranged = h.ranged }
act-IsBounded (block b) s h = add_block-IsBounded b s h

pub loop-IsBounded : (ls : List Text) (s : State) → IsBounded s → Ensures IsBounded (loop ls s)
unfolding loop
loop-IsBounded [] s h = h
loop-IsBounded (raw ∷ rest) s h =
    Ensures-bind IsBounded IsBounded (act (read_line (trim raw)) s) _
      (act-IsBounded (read_line (trim raw)) s h) (λ s' h'. loop-IsBounded rest s' h')
