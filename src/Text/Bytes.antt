-- ===== src/Text/Bytes.antt =====
-- The bytes of a text in UTF-8, and the comparison of texts in constant time that
-- crates/omnivore-server/src/routes has twice, in csrf.rs and in auth.rs.
use Prim.Native.Nat.{bit_or, bit_xor, digits, bit_or-bitwise, bit_xor-bitwise, differ, max}
use omnivore.Prelude.{
  ℕ, zero, suc, ◌+◌, ◌/◌, ◌%◌, ◌≤◌, ◌≡◌, ◌↔◌, refl, sym, ap, ◌∙◌, Bool, true, ◌&&◌, List, [], ◌∷◌,
  ◌++◌, arith,
}
use omnivore.Prelude.Tests.{ltb, ◌==◌, if◌then◌else◌}
use omnivore.Prelude.Lists.{length}
use omnivore.Text.Base.{Text}

unfoldable pub encode : ℕ → List ℕ
encode c =
    if ltb c 0x80
    then c ∷ []
    else if ltb c 0x800
    then (0xc0 + c / 64) ∷ ((0x80 + c % 64) ∷ [])
    else if ltb c 0x10000
    then (0xe0 + c / 4096) ∷ ((0x80 + c / 64 % 64) ∷ ((0x80 + c % 64) ∷ []))
    else (0xf0 + c / 262144)
      ∷ ((0x80 + c / 4096 % 64) ∷ ((0x80 + c / 64 % 64) ∷ ((0x80 + c % 64) ∷ [])))

-- `s.as_bytes()`
unfoldable pub as_bytes : Text → List ℕ
unfolding encode
as_bytes [] = []
as_bytes (c ∷ s) = encode c ++ as_bytes s

-- `a.iter().zip(b).fold(acc, |acc, (x, y)| acc | (x ^ y))`
unfoldable pub fold_xor : ℕ → List ℕ → List ℕ → ℕ
fold_xor acc [] b = acc
fold_xor acc (x ∷ a) [] = acc
fold_xor acc (x ∷ a) (y ∷ b) = fold_xor (bit_or acc (bit_xor x y)) a b

unfoldable pub constant_time_eq : Text → Text → Bool
unfolding as_bytes fold_xor
constant_time_eq a b =
    length (as_bytes a) == length (as_bytes b) && fold_xor 0 (as_bytes a) (as_bytes b) == 0

encode_inj : (c d : ℕ) (s t : List ℕ) → encode c ++ s ≡ encode d ++ t → (c ≡ d) × (s ≡ t)
unfolding encode
encode_inj c d s t h = (ground arith, ground arith)

encode-ne-nil : (c : ℕ) (s : List ℕ) → [] ≡ encode c ++ s → ⊥
unfolding encode
encode-ne-nil c s h = ground arith

as_bytes_inj : (a b : Text) → as_bytes a ≡ as_bytes b → a ≡ b
unfolding as_bytes
as_bytes_inj [] [] h = refl
as_bytes_inj [] (d ∷ b) h = absurd (encode-ne-nil d (as_bytes b) h)
as_bytes_inj (c ∷ a) [] h = absurd (encode-ne-nil c (as_bytes a) (sym h))
as_bytes_inj (c ∷ a) (d ∷ b) h =
    let (e, r) = encode_inj c d (as_bytes a) (as_bytes b) h in ground (arith, e, as_bytes_inj a b r)

-- An exclusive or of two numbers is zero only where they are the same,
differ-zero : (x y : ℕ) → differ x y ≡ 0 → x ≡ y
differ-zero zero y h = sym h
differ-zero (suc x) zero h = h
differ-zero (suc x) (suc y) h = ap suc (differ-zero x y h)

differ_self : (x : ℕ) → differ x x ≡ 0
differ_self zero = refl
differ_self (suc x) = differ_self x

xor_digits : (n a b : ℕ) → a ≤ n → digits (λ b. b) differ n a b ≡ 0 → a ≡ b
xor_digits zero zero b l h = sym h
xor_digits zero (suc a) b l h = absurd (omega arith)
xor_digits (suc n) zero b l h = sym h
xor_digits (suc n) (suc a) b l h = omega (
  arith,
  xor_digits n (suc a / 2) (b / 2) (omega arith) (omega arith),
  differ-zero (suc a % 2) (b % 2) (omega arith),
)

xor_digits_self : (n a : ℕ) → a ≤ n → digits (λ b. b) differ n a a ≡ 0
xor_digits_self zero zero l = refl
xor_digits_self zero (suc a) l = absurd (omega arith)
xor_digits_self (suc n) zero l = refl
xor_digits_self (suc n) (suc a) l =
    omega (arith, xor_digits_self n (suc a / 2) (omega arith), differ_self (suc a % 2))

bit_xor_self : (a : ℕ) → bit_xor a a ≡ 0
bit_xor_self a = bit_xor-bitwise a a ∙ xor_digits_self a a (omega arith)

bit_xor-zero : (a b : ℕ) → bit_xor a b ≡ 0 → a ≡ b
bit_xor-zero a b h = xor_digits a a b (omega arith) (sym (bit_xor-bitwise a b) ∙ h)

-- and an or only where both are zero.
or_digits : (n a b : ℕ) → a ≤ n → digits (λ b. b) max n a b ≡ 0 → (a ≡ 0) × (b ≡ 0)
or_digits zero zero b l h = (refl, h)
or_digits zero (suc a) b l h = absurd (omega arith)
or_digits (suc n) zero b l h = (refl, h)
or_digits (suc n) (suc a) b l h =
    let (p, q) = or_digits n (suc a / 2) (b / 2) (omega arith) (omega arith) in
    (omega arith, omega arith)

bit_or-zero : (a b : ℕ) → bit_or a b ≡ 0 → (a ≡ 0) × (b ≡ 0)
bit_or-zero a b h = or_digits a a b (omega arith) (sym (bit_or-bitwise a b) ∙ h)

fold_xor-zero :
    (acc : ℕ) (a b : List ℕ) → length a ≡ length b → fold_xor acc a b ≡ 0 → (acc ≡ 0) × (a ≡ b)
unfolding fold_xor
fold_xor-zero acc [] [] l h = (h, refl)
fold_xor-zero acc [] (y ∷ b) l h = absurd (omega arith)
fold_xor-zero acc (x ∷ a) [] l h = absurd (omega arith)
fold_xor-zero acc (x ∷ a) (y ∷ b) l h =
    let (p, q) = fold_xor-zero (bit_or acc (bit_xor x y)) a b (omega arith) h in
    let (r, s) = bit_or-zero acc (bit_xor x y) p in (r, cc (bit_xor-zero x y s, q))

fold_xor_self : (a : List ℕ) → fold_xor 0 a a ≡ 0
unfolding fold_xor
fold_xor_self [] = refl
fold_xor_self (x ∷ a) = ap (λ (d : ℕ). fold_xor (bit_or 0 d) a a) (bit_xor_self x) ∙ fold_xor_self a

-- The comparison accepts exactly equal texts.
pub constant_time_eq_iff : (a b : Text) → (constant_time_eq a b ≡ true) ↔ (a ≡ b)
unfolding constant_time_eq
constant_time_eq_iff a b = (
  λ h.
      as_bytes_inj a b
        (fold_xor-zero 0 (as_bytes a) (as_bytes b) (ground (arith, h)) (ground (arith, h))).1,
  λ e. rw e (ground (arith, fold_xor_self (as_bytes b))),
)
