-- ===== src/Float.antt =====
-- All that the code does with a Python `float`. The arithmetic is a parameter of the model: the
-- sources say nothing of rounding, and no law of exact arithmetic is assumed of it.
pub mod Exact
use quantitative_trading.Prelude.{ℕ, Bool, List, if◌then◌else◌}

pub record Float (F : Type 0) : Type 0 where
  -- the literal with these digits and this many of them behind the point: `lit 5 1` is 0.5
  pub lit : ℕ → ℕ → F
  -- `float(n)`, for an `int` that is not negative
  pub of_nat : ℕ → F
  pub add : F → F → F
  pub sub : F → F → F
  -- `-a`
  pub neg : F → F
  pub mul : F → F → F
  -- `a / b`, where `b` is not zero
  pub div : F → F → F
  pub lt : F → F → Bool
  pub le : F → F → Bool
  pub eq : F → F → Bool
  -- the built-ins `abs`, `round` (to a number of digits) and `sum`
  pub abs : F → F
  pub round : F → ℕ → F
  pub sum : List F → F

module _ {F : Type 0} ⦃o : Float F⦄ where
  infixl 65 ◌⊕◌ ◌⊖◌
  infixl 70 ◌⊗◌ ◌⊘◌
  abbrev pub ◌⊕◌ : F → F → F
  a ⊕ b = o.add a b

  abbrev pub ◌⊖◌ : F → F → F
  a ⊖ b = o.sub a b

  abbrev pub ◌⊗◌ : F → F → F
  a ⊗ b = o.mul a b

  abbrev pub ◌⊘◌ : F → F → F
  a ⊘ b = o.div a b

  -- `max(a, b)` and `min(a, b)`, which return the first of two that compare equal
  abbrev pub max : F → F → F
  max a b = if o.lt a b then b else a

  abbrev pub min : F → F → F
  min a b = if o.lt b a then b else a
