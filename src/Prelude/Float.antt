-- ===== src/Prelude/Float.antt =====
-- What the program uses of Go's `float64` for amounts of money: the constant 0, the sum, and three
-- comparisons with 0. The laws are those of IEEE 754 for values that are not NaN; an amount comes
-- from JSON, which has no NaN.
use mathlib.Core.Path.{◌≡◌}
use mathlib.Core.Bool.{Bool, true, false, not}

pub record Float64 (A : Type 0) : Type 0 where
  pub nought : A
  pub add : A → A → A
  pub is_pos : A → Bool
  pub le_nought : A → Bool
  pub is_nought : A → Bool
  pub le_nought-not : (a : A) → le_nought a ≡ not (is_pos a)
  pub is_nought-nought : is_nought nought ≡ true
  pub is_pos-nought : is_pos nought ≡ false
  pub is_nought_of_pos : (a : A) → is_pos a ≡ true → is_nought a ≡ false
