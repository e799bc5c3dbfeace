-- ===== src/Float.antt =====
-- `f64`, of which the sources use a few operations: an interface over the type of its values.
-- No law is assumed here. A theorem that needs one takes it as a hypothesis.
use omnivore.Prelude.{ℕ, ◌+◌, ◌-◌, ◌*◌, ◌/◌, Bool, List, [], ◌∷◌}
use omnivore.Prelude.Tests.{ltb, leb, if◌then◌else◌}
use omnivore.Prelude.Int.{ℤ, pos_part, is_positive}

pub record F64 (R : Type 0) : Type 0 where
  -- `n as f64`
  pub of_i64 : ℤ → R
  pub div : R → R → R
  pub add : R → R → R
  pub sub : R → R → R
  pub mul : R → R → R
  pub lt : R → R → Bool
  pub le : R → R → Bool
  -- the literals of `n` tenths and of `n` thousandths
  pub tenths : ℕ → R
  pub thousandths : ℕ → R

module _ {R : Type 0} ⦃f64 : F64 R⦄ where
  -- The shape of every rate: `if total > 0 { covered as f64 / total as f64 } else { 0.0 }`.
  unfoldable pub ratio : ℤ → ℤ → R
  ratio covered total =
      if is_positive total then f64.div (f64.of_i64 covered) (f64.of_i64 total) else f64.tenths 0

  -- The same shape where the code compares the converted total: `if total > 0.0 { hit / total }`.
  unfoldable pub ratio_f64 : ℤ → ℤ → R
  ratio_f64 hit total =
      let t = f64.of_i64 total in
      if f64.lt (f64.tenths 0) t then f64.div (f64.of_i64 hit) t else f64.tenths 0

-- `iter().sum::<f64>()`
module _ {R : Type 0} ⦃f64 : F64 R⦄ where
  unfoldable pub sum_f64 : R → List R → R
  sum_f64 acc [] = acc
  sum_f64 acc (x ∷ xs) = sum_f64 (f64.add acc x) xs

-- A concrete type of values for examples: millionths, rounded down.
instance abbrev pub millionths : F64 ℕ
millionths = record {
  of_i64 = λ z. pos_part z * 1_000_000;
  div = λ a b. a * 1_000_000 / b;
  add = λ a b. a + b;
  sub = λ a b. a - b;
  mul = λ a b. a * b / 1_000_000;
  lt = ltb;
  le = leb;
  tenths = λ n. n * 100_000;
  thousandths = λ n. n * 1_000;
}
