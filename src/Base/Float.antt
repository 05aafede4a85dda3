-- ===== src/Base/Float.antt =====
-- Python's floats and what the source does with them. Their arithmetic is not written in this
-- repository, so the type and its operations are a parameter; `OrderLaws` names the facts about
-- comparison that IEEE 754 gives for every pair of floats, NaN included.
use freqtrade_llm.Base.Tests.{if◌then◌else◌}
use mathlib.Core.Path.{◌≡◌}
use mathlib.Core.Bool.{Bool, true, false, not}
use mathlib.Core.Option.{Option, none, some}
use mathlib.Core.List.{List, [], ◌∷◌}

pub record Float (F : Type 0) : Type 0 where
  pub zero : F
  pub one : F
  pub add : F → F → F
  pub sub : F → F → F
  pub mul : F → F → F
  -- for a divisor that is not 0; the source's `ZeroDivisionError` is written out where it matters
  pub div : F → F → F
  pub neg : F → F
  pub abs : F → F
  pub lt : F → F → Bool
  pub le : F → F → Bool
  pub eq : F → F → Bool

-- `FtPrecise`, the wrapper in freqtrade/util/ft_precise.py around ccxt's decimal type `Precise`:
-- `FtPrecise(x)`, `float(x)`, and the operators that the source applies.
pub record Precise (F P : Type 0) : Type 0 where
  pub of_float : F → P
  pub to_float : P → F
  pub add : P → P → P
  pub sub : P → P → P
  pub mul : P → P → P
  pub div : P → P → P
  pub modulo : P → P → P
  pub lt : P → P → Bool
  pub eq : P → P → Bool

-- a > b and a >= b are b < a and b <= a
pub record OrderLaws {F : Type 0} (f : Float F) : Type 0 where
  pub lt_irrefl : (a : F) → f.lt a a ≡ false
  pub lt_trans : (a b c : F) → f.lt a b ≡ true → f.lt b c ≡ true → f.lt a c ≡ true
  pub lt-le_trans : (a b c : F) → f.lt a b ≡ true → f.le b c ≡ true → f.lt a c ≡ true
  pub le-lt_trans : (a b c : F) → f.le a b ≡ true → f.lt b c ≡ true → f.lt a c ≡ true
  pub le_trans : (a b c : F) → f.le a b ≡ true → f.le b c ≡ true → f.le a c ≡ true
  pub lt→le : (a b : F) → f.lt a b ≡ true → f.le a b ≡ true

module _ {F : Type 0} ⦃f : Float F⦄ where
  open f use {zero, add, lt, eq}

  -- `if x:` for a float, which is true for NaN
  abbrev pub truthy : F → Bool
  truthy x = not (eq x zero)

  -- `if x:` for a float that may be `None`
  abbrev pub truthy? : Option F → Bool
  truthy? none = false
  truthy? (some x) = truthy x

  -- `x or d`
  abbrev pub or_else : Option F → F → F
  or_else none d = d
  or_else (some x) d = if truthy x then x else d

  -- `max(a, b)` and `min(a, b)` return the first argument unless the second is beyond it.
  abbrev pub max : F → F → F
  max a b = if lt a b then b else a

  abbrev pub min : F → F → F
  min a b = if lt b a then b else a

  sum_from : F → List F → F
  sum_from acc [] = acc
  sum_from acc (x ∷ xs) = sum_from (add acc x) xs

  -- `sum(xs)`
  unfoldable pub sum : List F → F
  unfolding sum_from
  sum xs = sum_from zero xs
