-- ===== src/Number.antt =====
-- JavaScript numbers. The source computes prices, returns and quantities in doubles, which are not
-- code of the repository: the type of numbers and its operations are a parameter of the model.
-- Timestamps, counts and indices are integers in the source and natural numbers here.
use thelight.Common.Int.{ℤ, pos}
use thelight.Common.{ℕ, String, Bool, if◌then◌else◌}

-- `decimal m d` is the literal with the digits `m`, the last `d` of them behind the point.
pub record Num (F : Type 0) : Type 0 where
  pub decimal : ℕ → ℕ → F
  pub nan : F
  -- an integer as a number
  pub of_int : ℤ → F
  pub add : F → F → F
  pub sub : F → F → F
  pub mul : F → F → F
  pub div : F → F → F
  pub lt : F → F → Bool
  pub le : F → F → Bool
  pub eq : F → F → Bool
  pub is_finite : F → Bool
  pub log : F → F
  pub exp : F → F
  pub sqrt : F → F
  -- `x.toFixed(n)`
  pub to_fixed : F → ℕ → String

infixl 65 ◌+F◌ ◌-F◌
infixl 70 ◌*F◌ ◌/F◌
infix 50 ◌<F◌ ◌≤F◌ ◌==F◌
module _ {F : Type 0} ⦃num : Num F⦄ where
  abbrev pub ◌+F◌ : F → F → F
  ◌+F◌ = num.add

  abbrev pub ◌-F◌ : F → F → F
  ◌-F◌ = num.sub

  abbrev pub ◌*F◌ : F → F → F
  ◌*F◌ = num.mul

  abbrev pub ◌/F◌ : F → F → F
  ◌/F◌ = num.div

  abbrev pub ◌<F◌ : F → F → Bool
  ◌<F◌ = num.lt

  abbrev pub ◌≤F◌ : F → F → Bool
  ◌≤F◌ = num.le

  -- `===`, which is false at NaN
  abbrev pub ◌==F◌ : F → F → Bool
  ◌==F◌ = num.eq

  abbrev pub decimal : ℕ → ℕ → F
  decimal = num.decimal

  abbrev pub is_finite : F → Bool
  is_finite = num.is_finite

  -- an integer literal
  abbrev pub int : ℕ → F
  int n = num.of_int (pos n)

  abbrev pub of_int : ℤ → F
  of_int = num.of_int

  -- `-x`
  abbrev pub neg : F → F
  neg x = num.sub (num.of_int (pos 0)) x

  -- `Math.abs`, of a number that is not NaN
  abbrev pub abs : F → F
  abs x = if num.lt x (num.of_int (pos 0)) then num.sub (num.of_int (pos 0)) x else x

  -- `Math.max` and `Math.min`, of numbers that are not NaN
  abbrev pub max_num : F → F → F
  max_num x y = if num.lt x y then y else x

  abbrev pub min_num : F → F → F
  min_num x y = if num.lt y x then y else x

  abbrev pub to_fixed : F → ℕ → String
  to_fixed = num.to_fixed
