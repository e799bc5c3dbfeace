-- ===== src/Parsers/LlvmCov/Segments.antt =====
-- About `segments_to_lines` of parsers/llvm_cov.rs.
use omnivore.Prelude.{
  ◌≡◌, refl, ap, ◌∙◌, ◌&&◌, Option, none, some, List, [], ◌∷◌, map, inl, inr, arith,
}
use omnivore.Prelude.Tests.{if◌then◌else◌, Bool-cases}
use omnivore.Prelude.Lists.{All, All-weaken}
use omnivore.Prelude.Int.{ℤ, pos, ltb_ℤ, leb_ℤ, max_ℤ, wrap_i32, ◌<ℤ◌}
use omnivore.Parsers.LlvmCov.{
  Value, number, has_count, LineCounts, raise, add_segment, add_segments, line_of,
  segments_to_lines,
}

-- each key once, in ascending order
abbrev pub IsAscending : LineCounts → Type 0
IsAscending [] = Unit
IsAscending ((k, c) ∷ m) = All (λ e. k <ℤ e.0) m × IsAscending m

below-raise :
    (j line count : ℤ) (m : LineCounts)
    → j <ℤ line
    → All (λ e. j <ℤ e.0) m
    → All (λ e. j <ℤ e.0) (raise line count m)
unfolding raise
below-raise j line count [] h a = (h, tt)
below-raise j line count ((k, c) ∷ m) h (p, a) = ground (arith, below-raise j line count m h a)

raise-IsAscending :
    (line count : ℤ) (m : LineCounts) → IsAscending m → IsAscending (raise line count m)
unfolding raise
raise-IsAscending line count [] h = (tt, tt)
raise-IsAscending line count ((k, c) ∷ m) (a, h) = elim (Bool-cases (ltb_ℤ line k)) [
  | inl p ↦ rw p ((ground arith, All-weaken (λ e q. ground arith) m a), (a, h))
  | inr p ↦ elim (Bool-cases (leb_ℤ line k)) [
    | inl q ↦ rw (p, q) (a, h)
    | inr q ↦
        rw (p, q) (below-raise k line count m (ground arith) a, raise-IsAscending line count m h)
  ]
]

-- what a key has, if anything
pub find : ℤ → LineCounts → Option ℤ
find n [] = none
find n ((k, c) ∷ m) = if leb_ℤ n k && leb_ℤ k n then some c else find n m

abbrev higher : ℤ → Option ℤ → ℤ
higher count none = max_ℤ (pos 0) count
higher count (some c) = max_ℤ c count

find-above : (n : ℤ) (m : LineCounts) → All (λ e. n <ℤ e.0) m → find n m ≡ none
unfolding find
find-above n [] a = refl
find-above n ((k, c) ∷ m) (p, a) = ground (arith, find-above n m a)

find-raise :
    (n line count : ℤ) (m : LineCounts)
    → IsAscending m
    → find n (raise line count m)
      ≡ (if leb_ℤ n line && leb_ℤ line n then some (higher count (find n m)) else find n m)
unfolding find raise
find-raise n line count [] h = ground arith
find-raise n line count ((k, c) ∷ m) (a, h) = elim (Bool-cases (ltb_ℤ line k)) [
  | inl p ↦ elim (Bool-cases (leb_ℤ n line && leb_ℤ line n)) [
    | inl e ↦
        (let absent = find-above n m (All-weaken (λ x q. ground (arith, p, e)) m a) in
          ground (arith, p, e, absent))
    | inr e ↦ ground (arith, p, e)
  ]
  | inr p ↦ ground (arith, p, find-raise n line count m h)
]

-- the line and the count of a segment that counts
pub segment_at : List Value → Option (ℤ × ℤ)
segment_at (number line ∷ (column ∷ (number count ∷ (flag ∷ more)))) =
    if has_count flag then some (wrap_i32 line, count) else none
segment_at _ = none

-- what a segment makes of a line
abbrev noted : Option (ℤ × ℤ) → ℤ → Option ℤ → Option ℤ
noted none n seen = seen
noted (some (line, count)) n seen =
    if leb_ℤ n line && leb_ℤ line n then some (higher count seen) else seen

-- The highest count, and at least 0, of the segments at a line: none where there is none.
pub highest_at : List (List Value) → ℤ → Option ℤ → Option ℤ
highest_at [] n seen = seen
highest_at (seg ∷ segs) n seen = highest_at segs n (noted (segment_at seg) n seen)

abbrev put : Option (ℤ × ℤ) → LineCounts → LineCounts
put none m = m
put (some (line, count)) m = raise line count m

add_segment-put : (seg : List Value) (m : LineCounts) → add_segment seg m ≡ put (segment_at seg) m
unfolding add_segment segment_at
add_segment-put (number line ∷ (column ∷ (number count ∷ (flag ∷ more)))) m = ground arith
add_segment-put _ m = refl

put-IsAscending : (o : Option (ℤ × ℤ)) (m : LineCounts) → IsAscending m → IsAscending (put o m)
put-IsAscending none m h = h
put-IsAscending (some (line, count)) m h = raise-IsAscending line count m h

find-put :
    (o : Option (ℤ × ℤ)) (n : ℤ) (m : LineCounts)
    → IsAscending m
    → find n (put o m) ≡ noted o n (find n m)
find-put none n m h = refl
find-put (some (line, count)) n m h = find-raise n line count m h

add_segments-Ascending :
    (segs : List (List Value)) (m : LineCounts)
    → IsAscending m
    → IsAscending (add_segments segs m)
      × ((n : ℤ) → find n (add_segments segs m) ≡ highest_at segs n (find n m))
unfolding add_segments highest_at
add_segments-Ascending [] m h = (h, λ n. refl)
add_segments-Ascending (seg ∷ segs) m h =
    (let k = put-IsAscending (segment_at seg) m h in
      let (a, f) = add_segments-Ascending segs (put (segment_at seg) m) k in
      rw (add_segment-put seg m)
        (a, λ n. f n ∙ ap (highest_at segs n) (find-put (segment_at seg) n m h)))

-- The lines of a file stand in ascending order, each once, and a line is there exactly where a
-- segment counts at it, with the highest count of these segments, and at least 0.
pub segments_to_lines-Ascending :
    (segs : List (List Value))
    → (m : LineCounts) × (segments_to_lines segs ≡ map line_of m)
      × IsAscending m
      × ((n : ℤ) → find n m ≡ highest_at segs n none)
unfolding segments_to_lines find
segments_to_lines-Ascending segs =
    let (a, f) = add_segments-Ascending segs [] tt in (add_segments segs [], refl, a, f)
