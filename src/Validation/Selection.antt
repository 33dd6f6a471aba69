-- ===== src/Validation/Selection.antt =====
-- The choice of the best trial in validation/optimization_scoring.py. Of a trial it has what the choice
-- reads. `none` of a composite score is `float("-inf")`, of a profit factor `float("inf")`.
use quantitative_trading.Prelude.{
  ℕ, ◌==◌, Bool, true, false, ◌&&◌, ◌||◌, Option, none, some, List, [], ◌∷◌, ◌++◌, String, any,
  filter, map, ltb, if◌then◌else◌,
}
use quantitative_trading.Float.{Float, ◌⊕◌, ◌⊖◌, ◌⊗◌, ◌⊘◌}
use quantitative_trading.State.Store.{zero_f}
use quantitative_trading.Validation.Metrics.{Outcome, clamp, minus_one}

pub record TrialResult (F : Type 0) : Type 0 where
  pub trial_id : String
  pub train_outcome : Outcome F
  pub test_score : Option F
  pub test_outcome : Option (Outcome F)
  pub stability : Option F
  pub composite_score : Option F
  pub fold_std : Option F
  pub pareto_rank : Option ℕ

-- `max(pool, key=…)`, which keeps the first of the greatest
abbrev pub max_by {ℓ} : {A : Type ℓ} → (below : A → A → Bool) → A → List A → A
max_by below best [] = best
max_by below best (x ∷ xs) = max_by below (if below best x then x else best) xs

-- `pareto_eligible if pareto_eligible else eligible`
abbrev pub or_else {ℓ} : {A : Type ℓ} → List A → List A → List A
or_else [] ys = ys
or_else (x ∷ xs) ys = x ∷ xs

abbrev pub max_of {ℓ} : {A : Type ℓ} → (below : A → A → Bool) → List A → Option A
max_of below [] = none
max_of below (x ∷ xs) = some (max_by below x xs)

module _ {F : Type 0} ⦃o : Float F⦄ where
  -- `x or 0.0`
  abbrev pub or_zero : Option F → F
  or_zero none = zero_f
  or_zero (some x) = x

  unfoldable pub composite_of : (min_trades : ℕ) (min_return_pct : F) → TrialResult F → Option F
  composite_of min_trades min_return_pct trial = elim trial.test_outcome [
    | none ↦ none
    | some test ↦
        if ltb test.total_trades min_trades || o.lt test.return_pct min_return_pct
        then none
        else if o.lt trial.train_outcome.return_pct min_return_pct
        then none
        else elim trial.test_score [
          | none ↦ none
          | some test_score ↦ some (
              o.lit 6 1 ⊗ test_score
              ⊕ o.lit 25 2 ⊗ or_zero trial.stability ⊗ o.of_nat 100
              ⊕ o.lit 15 2
                ⊗ (clamp (test.return_pct ⊘ o.of_nat 10) minus_one (o.of_nat 1) ⊗ o.of_nat 100)
              ⊖ or_zero trial.fold_std ⊗ o.of_nat 10)
        ]
  ]

  abbrev pub profit_of : Outcome F → F
  profit_of outcome = elim outcome.profit_factor [ none ↦ o.of_nat 10 | some x ↦ x ]

  -- at least as good in all three values and better in one
  abbrev pub dominates : Outcome F → Outcome F → Bool
  dominates other current =
      (o.le current.return_pct other.return_pct
        && o.le (o.neg current.max_drawdown_pct) (o.neg other.max_drawdown_pct)
        && o.le (profit_of current) (profit_of other))
      && (o.lt current.return_pct other.return_pct
          || o.lt (o.neg current.max_drawdown_pct) (o.neg other.max_drawdown_pct)
          || o.lt (profit_of current) (profit_of other))

  abbrev pub is_above : Outcome F → TrialResult F → Bool
  is_above current trial = elim trial.test_outcome [
    | none ↦ false
    | some other ↦ dominates other current
  ]

  unfoldable pub rank : (others : List (TrialResult F)) → TrialResult F → TrialResult F
  rank others trial = elim trial.test_outcome [
    | none ↦ trial
    | some outcome ↦ record trial {
      pareto_rank = some (if any (is_above outcome) others then 1 else 0);
    }
  ]

  -- the loop over the finalists, of which these came before
  unfoldable pub rank_all :
      (before : List (TrialResult F)) → List (TrialResult F) → List (TrialResult F)
  unfolding rank
  rank_all before [] = []
  rank_all before (trial ∷ rest) =
      rank (before ++ rest) trial ∷ rank_all (before ++ (trial ∷ [])) rest

  unfoldable pub assign_pareto_ranks : List (TrialResult F) → List (TrialResult F)
  unfolding rank_all
  assign_pareto_ranks finalists = rank_all [] finalists

  abbrev pub score : (min_trades : ℕ) (min_return_pct : F) → TrialResult F → TrialResult F
  score min_trades min_return_pct trial = record trial {
    composite_score = composite_of min_trades min_return_pct trial;
  }

  abbrev pub is_eligible : TrialResult F → Bool
  is_eligible trial = elim trial.composite_score [ none ↦ false | some _ ↦ true ]

  abbrev pub is_optimal : TrialResult F → Bool
  is_optimal trial = elim trial.pareto_rank [ none ↦ false | some n ↦ n == 0 ]

  -- `trial.composite_score or float("-inf")`: a score of zero counts as the least
  abbrev pub key : TrialResult F → Option F
  key trial = elim trial.composite_score [
    | none ↦ none
    | some x ↦ if o.eq x zero_f then none else some x
  ]

  abbrev pub is_less : Option F → Option F → Bool
  is_less _ none = false
  is_less none (some _) = true
  is_less (some a) (some b) = o.lt a b

  abbrev pub is_below : TrialResult F → TrialResult F → Bool
  is_below a b = is_less (key a) (key b)

  -- the finalists with their scores and ranks
  unfoldable pub score_all :
      (min_trades : ℕ) (min_return_pct : F) → List (TrialResult F) → List (TrialResult F)
  unfolding assign_pareto_ranks
  score_all min_trades min_return_pct finalists =
      assign_pareto_ranks (map (score min_trades min_return_pct) finalists)

  -- the finalists as they are left, and the best
  unfoldable pub select_best :
      (min_trades : ℕ) (min_return_pct : F)
      → List (TrialResult F)
      → List (TrialResult F) × Option (TrialResult F)
  unfolding score_all composite_of
  select_best min_trades min_return_pct finalists =
      let ranked = score_all min_trades min_return_pct finalists in
      let eligible = filter is_eligible ranked in
      (ranked, max_of is_below (or_else (filter is_optimal eligible) eligible))
