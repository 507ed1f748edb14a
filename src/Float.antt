-- ===== src/Float.antt =====
-- Python's floats, as the worker uses them: literals with two decimals, sums, differences,
-- quotients of counts, and the tests `<` and `>`. The arithmetic itself is not the program's.
use mathodology.Prelude.{ℕ, ◌+◌, ◌-◌, ◌*◌, ◌/◌, Bool, ltb}

pub record Float (Num : Type 0) : Type 0 where
  -- `hundredths n` is the literal n / 100
  pub hundredths : ℕ → Num
  pub add : Num → Num → Num
  pub sub : Num → Num → Num
  -- `a / b` for integers a, b
  pub ratio : ℕ → ℕ → Num
  pub lt : Num → Num → Bool

-- Whole hundredths, for runs on concrete inputs.
instance abbrev pub cents : Float ℕ
cents = record {
  hundredths = λ n. n;
  add = λ a b. a + b;
  sub = λ a b. a - b;
  ratio = λ a b. a * 100 / b;
  lt = ltb;
}
