-- ===== src/Parsers/GoCoverprofile/Counts.antt =====
-- About the loop of parsers/go_coverprofile.rs: the counts in the map that it fills.
use mathlib.Core.Path.{subst}
use omnivore.Prelude.{
  ℕ, zero, suc, ◌+◌, ◌≡◌, refl, Bool, true, false, ◌&&◌, Option, none, some, List, [], ◌∷◌, inl,
  inr, ◌⊎◌, ap, sym, ◌∙◌, arith,
}
use omnivore.Prelude.Tests.{ltb, leb, ◌==◌, if◌then◌else◌, Bool-cases}
use omnivore.Prelude.Lists.{All}
use omnivore.Prelude.Int.{ℤ, pos, pos_part, ltb_ℤ, ◌≤ℤ◌}
use omnivore.Text.Base.{Text, text_eq, text_eq_iff, trim}
use omnivore.Parsers.Errors.{ok, Ensures, Ensures-weaken, Ensures-bind}
use omnivore.Parsers.GoCoverprofile.{
  max_total_lines, LineMap, FileMap, Block, Line, skipped, mode, block, read_line, raise,
  raise_range, update, State, implausible, span, add_block, act, loop, initial,
}
use omnivore.Parsers.GoCoverprofile.Report.{count_at, lines_at}

-- the entry of a line
unfoldable pub find : ℕ → LineMap → Option ℤ
find n [] = none
find n ((k, c) ∷ m) = if k == n then some c else find n m

-- the higher of a count and what was there, where nothing is 0
abbrev pub higher : ℤ → Option ℤ → ℤ
higher count none = if ltb_ℤ (pos 0) count then count else pos 0
higher count (some c) = if ltb_ℤ c count then count else c

pub count_at-find : (n : ℕ) (m : LineMap) (c : ℤ) → find n m ≡ some c → count_at n m ≡ c
unfolding count_at find
count_at-find n [] c h = cc
count_at-find n ((k, d) ∷ m) c h = ground (arith, count_at-find n m c)

find-raise :
    (n k : ℕ) (count : ℤ) (m : LineMap)
    → find n (raise k count m) ≡ (if k == n then some (higher count (find n m)) else find n m)
unfolding find raise
find-raise n k count [] = refl
find-raise n k count ((j, c) ∷ m) = ground (arith, find-raise n k count m)

abbrev within : ℕ → ℕ → ℕ → Bool
within n k more = leb k n && ltb n (k + more)

find-raise_range :
    (n k more : ℕ) (count : ℤ) (m : LineMap)
    → find n (raise_range k more count m)
      ≡ (if within n k more then some (higher count (find n m)) else find n m)
unfolding raise_range
find-raise_range n k zero count m = ground arith
find-raise_range n k (suc more) count m =
    ground (arith, find-raise n k count m, find-raise_range n (suc k) more count (raise k count m))

lines_at-update :
    (file j : Text) (f : LineMap → LineMap) (fs : FileMap)
    → lines_at j (update file f fs)
      ≡ (if text_eq file j then f (lines_at file fs) else lines_at j fs)
unfolding lines_at update
lines_at-update file j f [] = ground arith
lines_at-update file j f ((k, m) ∷ fs) =
    ground
      (arith, text_eq_iff k file, text_eq_iff k j, text_eq_iff file j, lines_at-update file j f fs)

block_of : Line → List Block → List Block
block_of skipped bs = bs
block_of mode bs = bs
block_of (block b) bs = b ∷ bs

-- the blocks of a profile, in order
unfoldable pub blocks_of : List Text → List Block
unfolding block_of
blocks_of [] = []
blocks_of (raw ∷ rest) = block_of (read_line (trim raw)) (blocks_of rest)

-- a block holds a line of a file
abbrev pub covers : Block → Text → ℕ → Bool
covers b file n = text_eq b.file file && within n (pos_part b.start_line) (span b)

-- What the blocks make of a line for which `seen` was there.
unfoldable pub expected : List Block → Text → ℕ → Option ℤ → Option ℤ
expected [] file n seen = seen
expected (b ∷ bs) file n seen =
    expected bs file n (if covers b file n then some (higher b.count seen) else seen)

module _ (file : Text) (n : ℕ) where
  abbrev found_in : State → Option ℤ
  found_in s = find n (lines_at file s.files)

  add_block-find :
      (b : Block) (s : State)
      → Ensures
          (λ s'.
            found_in s'
            ≡ (if covers b file n then some (higher b.count (found_in s)) else found_in s))
          (add_block b s)
  unfolding add_block
  add_block-find b s = elim (Bool-cases (implausible b)) [
    | inl p ↦ rw p tt
    | inr p ↦ elim (Bool-cases (ltb max_total_lines (s.total_expanded + span b))) [
      | inl q ↦ rw (p, q) tt
      | inr q ↦
          rw (p, q)
            (ground (
              arith,
              lines_at-update b.file file (raise_range (pos_part b.start_line) (span b) b.count)
                  s.files,
              text_eq_iff b.file file,
              find-raise_range n (pos_part b.start_line) (span b) b.count (lines_at b.file s.files),
            ))
    ]
  ]

  act-find :
      (l : Line) (bs : List Block) (s : State)
      → Ensures
          (λ s'. expected bs file n (found_in s') ≡ expected (block_of l bs) file n (found_in s))
          (act l s)
  unfolding act block_of expected
  act-find skipped bs s = refl
  act-find mode bs s = refl
  act-find (block b) bs s =
      Ensures-weaken _ _ (add_block b s) (add_block-find b s)
        (λ s' h. ap (λ o. expected bs file n o) h)

  pub loop-find :
      (ls : List Text) (s : State)
      → Ensures (λ s'. found_in s' ≡ expected (blocks_of ls) file n (found_in s)) (loop ls s)
  unfolding loop blocks_of
  loop-find [] s = unfold expected in refl
  loop-find (raw ∷ rest) s =
      Ensures-bind _ _ (act (read_line (trim raw)) s) _
        (act-find (read_line (trim raw)) (blocks_of rest) s)
        (λ s' h.
          Ensures-weaken (λ s''. found_in s'' ≡ expected (blocks_of rest) file n (found_in s')) _
            (loop rest s') (loop-find rest s') (λ s'' k. k ∙ h))

  -- what was there, or 0
  abbrev floor : Option ℤ → ℤ
  floor none = pos 0
  floor (some d) = d

  -- no block that holds the line has a higher count
  abbrev pub IsHighest : List Block → ℤ → Type 0
  IsHighest bs c = All (λ b. covers b file n ≡ true → b.count ≤ℤ c) bs

  -- a block that holds the line has this count
  abbrev pub IsCounted : List Block → ℤ → Type 0
  IsCounted [] c = ⊥
  IsCounted (b ∷ bs) c = ((covers b file n ≡ true) × (b.count ≡ c)) ⊎ IsCounted bs c

  ℤ_trans : (a b c : ℤ) → a ≤ℤ b → b ≤ℤ c → a ≤ℤ c
  ℤ_trans a b c h k = ground arith

  higher_lem :
      (count : ℤ) (seen : Option ℤ)
      → (floor seen ≤ℤ higher count seen)
        × (count ≤ℤ higher count seen)
        × ((higher count seen ≡ floor seen) ⊎ (count ≡ higher count seen))
  higher_lem count none = ground arith
  higher_lem count (some c) = ground arith

  expected-covered :
      (b : Block) (bs : List Block) (seen : Option ℤ)
      → covers b file n ≡ true
      → expected (b ∷ bs) file n seen ≡ expected bs file n (some (higher b.count seen))
  unfolding expected
  expected-covered b bs seen p = rw p

  expected-uncovered :
      (b : Block) (bs : List Block) (seen : Option ℤ)
      → covers b file n ≡ false
      → expected (b ∷ bs) file n seen ≡ expected bs file n seen
  unfolding expected
  expected-uncovered b bs seen p = rw p

  expected-nil : (d : ℤ) {c : ℤ} → expected [] file n (some d) ≡ some c → d ≡ c
  unfolding expected
  expected-nil d h = cc

  expected-none : {c : ℤ} {C : Type 0} → expected [] file n none ≡ some c → C
  unfolding expected
  expected-none h = cc

  expected_sound :
      (bs : List Block) (seen : Option ℤ) {c : ℤ}
      → expected bs file n seen ≡ some c
      → (floor seen ≤ℤ c) × IsHighest bs c × ((c ≡ floor seen) ⊎ IsCounted bs c)
  expected_sound [] none h = expected-none h
  expected_sound [] (some d) {c} h =
      (let e = expected-nil d h in (ground (arith, e), tt, inl (sym e)))
  expected_sound (b ∷ bs) seen {c} h = elim (Bool-cases (covers b file n)) [
    | inl p ↦
        (let (below, above, from) = higher_lem b.count seen in
          let (low, top, which) =
            expected_sound bs (some (higher b.count seen))
              (sym (expected-covered b bs seen p) ∙ h) in
          (
            ℤ_trans (floor seen) (higher b.count seen) c below low,
            ((λ q. ℤ_trans b.count (higher b.count seen) c above low), top),
            elim which [
              | inl e ↦ elim from [ inl k ↦ inl (e ∙ k) | inr k ↦ inr (inl (p, k ∙ sym e)) ]
              | inr k ↦ inr (inr k)
            ],
          ))
    | inr p ↦
        (let (low, top, which) =
            expected_sound bs seen (sym (expected-uncovered b bs seen p) ∙ h) in
          (low, ((λ q. cc), top), elim which [ inl e ↦ inl e | inr k ↦ inr (inr k) ]))
  ]

-- A line of a file in the map that the loop leaves: its count is 0 or that of a block that holds the
-- line, and no block that holds the line has a higher count.
pub loop-Highest :
    (ls : List Text) (file : Text) (n : ℕ) (s : State) (c : ℤ)
    → loop ls initial ≡ ok s
    → find n (lines_at file s.files) ≡ some c
    → IsHighest file n (blocks_of ls) c × ((c ≡ pos 0) ⊎ IsCounted file n (blocks_of ls) c)
unfolding lines_at find
loop-Highest ls file n s c h k =
    (let run = subst (Ensures _) h (loop-find file n ls initial) in
      let (low, top, which) = expected_sound file n (blocks_of ls) none (sym run ∙ k) in
      (top, which))
