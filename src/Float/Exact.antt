-- ===== src/Float/Exact.antt =====
-- Exact arithmetic on integers, the instance at which the definitions run in tests.
use quantitative_trading.Prelude.{◌+◌, ◌/◌, ◌^◌, List, [], ◌∷◌}
use quantitative_trading.Prelude.Int.{
  ℤ, pos, ◌+ℤ◌, ◌-ℤ◌, ◌*ℤ◌, quot, pos_part, neg_part, ltb_ℤ, leb_ℤ, eqb_ℤ,
}
use quantitative_trading.Float.{Float}

abbrev total : List ℤ → ℤ
total [] = pos 0
total (x ∷ xs) = x +ℤ total xs

-- Literals and quotients are rounded towards zero; `round` leaves an integer as it is.
instance abbrev pub int_float : Float ℤ
int_float = record {
  lit = λ n d. pos (n / 10 ^ d);
  of_nat = pos;
  add = ◌+ℤ◌;
  sub = ◌-ℤ◌;
  neg = λ a. pos 0 -ℤ a;
  mul = ◌*ℤ◌;
  div = quot;
  lt = ltb_ℤ;
  le = leb_ℤ;
  eq = eqb_ℤ;
  abs = λ a. pos (pos_part a + neg_part a);
  round = λ a _. a;
  sum = total;
}
