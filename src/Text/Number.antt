-- ===== src/Text/Number.antt =====
-- `str::parse` at the integer types: an optional sign and one or more ASCII digits, in range.
use omnivore.Prelude.{ℕ, ◌+◌, ◌-◌, ◌*◌, ◌^◌, ◌≤◌, ◌<◌, ◌≡◌, Option, none, some, [], ◌∷◌, arith}
use omnivore.Prelude.Tests.{leb, ltb, ◌==◌, if◌then◌else◌}
use omnivore.Prelude.Int.{ℤ, pos, pos_part, neg_part, sub_ℕ}
use omnivore.Text.Base.{Text, is_ascii_digit}

-- the number that digits spell behind `n`
unfoldable pub read_digits : ℕ → Text → Option ℕ
unfolding is_ascii_digit
read_digits n [] = some n
read_digits n (c ∷ s) = if is_ascii_digit c then read_digits (n * 10 + (c - b'0')) s else none

-- one digit at least
unfoldable pub read_number : Text → Option ℕ
unfolding read_digits
read_number [] = none
read_number (c ∷ s) = read_digits 0 (c ∷ s)

unfoldable pub to_unsigned : ℕ → Option ℕ → Option ℕ
to_unsigned bits none = none
to_unsigned bits (some n) = if ltb n (2 ^ bits) then some n else none

-- `parse::<uN>()`
unfoldable pub parse_unsigned : ℕ → Text → Option ℕ
unfolding read_number to_unsigned
parse_unsigned bits [] = none
parse_unsigned bits (c ∷ s) =
    to_unsigned bits (if c == b'+' then read_number s else read_number (c ∷ s))

-- `top` is the bound 2^(bits - 1)
unfoldable pub to_positive : ℕ → Option ℕ → Option ℤ
to_positive top none = none
to_positive top (some n) = if ltb n top then some (pos n) else none

unfoldable pub to_negative : ℕ → Option ℕ → Option ℤ
to_negative top none = none
to_negative top (some n) = if leb n top then some (sub_ℕ 0 n) else none

-- `parse::<iN>()`
unfoldable pub parse_signed : ℕ → Text → Option ℤ
unfolding read_number to_positive to_negative
parse_signed top [] = none
parse_signed top (c ∷ s) =
    if c == b'-'
    then to_negative top (read_number s)
    else to_positive top (if c == b'+' then read_number s else read_number (c ∷ s))

unfoldable pub parse_i32 : Text → Option ℤ
unfolding parse_signed
parse_i32 = parse_signed (2 ^ 31)

unfoldable pub parse_i64 : Text → Option ℤ
unfolding parse_signed
parse_i64 = parse_signed (2 ^ 63)

to_positive_range :
    (top : ℕ) (o : Option ℕ) (z : ℤ)
    → to_positive top o ≡ some z
    → (pos_part z < top) × (neg_part z ≤ top)
unfolding to_positive
to_positive_range top none z h = cc
to_positive_range top (some n) z h = ground arith

to_negative_range :
    (top : ℕ) (o : Option ℕ) (z : ℤ)
    → 0 < top
    → to_negative top o ≡ some z
    → (pos_part z < top) × (neg_part z ≤ top)
unfolding to_negative
to_negative_range top none z t h = cc
to_negative_range top (some n) z t h = ground arith

-- An accepted number is in the range of its type.
pub parse_signed_range :
    (top : ℕ) (s : Text) (z : ℤ)
    → 0 < top
    → parse_signed top s ≡ some z
    → (pos_part z < top) × (neg_part z ≤ top)
unfolding parse_signed
parse_signed_range top [] z t h = cc
parse_signed_range top (c ∷ s) z t h = ground (
  arith,
  to_negative_range top (read_number s) z t,
  to_positive_range top (read_number s) z,
  to_positive_range top (read_number (c ∷ s)) z,
)
