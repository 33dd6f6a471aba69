-- ===== src/Validation/Best.antt =====
-- The trial that validation/optimization_scoring.py selects, in exact arithmetic.
use quantitative_trading.Prelude.{◌≢◌, ◌≡◌, ◌⊎◌, true, Option, none, some, List, All, if◌then◌else◌}
use quantitative_trading.Prelude.Int.{ℤ, pos, leb_ℤ, eqb_ℤ}
use quantitative_trading.Float.Exact.{int_float}
use quantitative_trading.Validation.Selection.{TrialResult}
use quantitative_trading.Validation.Choice.{IsIn}

-- a score of zero counts as the least
abbrev pub IsNotAbove : ℤ → ℤ → Type 0
IsNotAbove x y = (x ≡ pos 0) ⊎ ((y ≢ pos 0) × (leb_ℤ x y ≡ true))

-- The trial has no score, or a worse rank than the best, whose score is `y`, or a rank of the same kind
-- and no higher score.
abbrev pub IsNoBetter : TrialResult ℤ → ℤ → TrialResult ℤ → Type 0
IsNoBetter b y t =
    (t.composite_score ≡ none)
    ⊎ ((x : ℤ) × (t.composite_score ≡ some x)
        × (((b.pareto_rank ≡ some 0) × (t.pareto_rank ≢ some 0))
            ⊎ ((((b.pareto_rank ≡ some 0) × (t.pareto_rank ≡ some 0))
                  ⊎ ((b.pareto_rank ≢ some 0) × (t.pareto_rank ≢ some 0)))
                × IsNotAbove x y)))

abbrev pub IsBest : List (TrialResult ℤ) → Option (TrialResult ℤ) → Type 0
IsBest ranked none = All (λ t. t.composite_score ≡ none) ranked
IsBest ranked (some b) =
    IsIn b ranked × ((y : ℤ) × (b.composite_score ≡ some y) × All (IsNoBetter b y) ranked)

-- the score as the code compares it
abbrev compared : ℤ → Option ℤ
compared x = if eqb_ℤ x (pos 0) then none else some x
