-- ===== src/Governance/Evaluator.antt =====
-- governance/candidate_evaluator.py. A detail is a constructor with what the text of the code shows,
-- and an optimization result has the fields that the policy reads.
use quantitative_trading.Prelude.{
  ℕ, ◌+◌, Bool, false, not, Option, none, some, List, [], ◌∷◌, map, leb, ltb, if◌then◌else◌, length,
  filter, all,
}
use quantitative_trading.Float.{Float, ◌⊕◌, ◌⊗◌, ◌⊘◌, max}
use quantitative_trading.State.Store.{zero_f}

pub data CheckName : Type 0 where
  out_of_sample minimum_sample fold_stability regime_concentration : CheckName

pub data CheckDetail (F : Type 0) : Type 0 where
  holdout_met holdout_failed no_folds : CheckDetail F
  holdout_trades few_attributed : ℕ → CheckDetail F
  fold_spread : F → ℕ → CheckDetail F
  largest_share : F → CheckDetail F

pub record CandidateCheck (F : Type 0) : Type 0 where
  pub check_name : CheckName
  pub passed : Bool
  pub detail : CheckDetail F
  pub current_value : Option F
  pub threshold : Option F

pub record TrialResult (F : Type 0) : Type 0 where
  pub fold_std : Option F
  pub fold_scores : List F

-- the entries of `holdout_outcome` that are read: a missing one is 0 trades or no regimes
pub record HoldoutOutcome : Type 0 where
  pub total_trades : ℕ
  pub regime_trades : List ℕ

pub record OptimizationResult (F : Type 0) : Type 0 where
  pub best : Option (TrialResult F)
  pub fallback_trial : Option (TrialResult F)
  pub holdout_outcome : Option HoldoutOutcome
  pub holdout_valid : Bool

pub data EvaluationDecision : Type 0 where
  accepted rejected : EvaluationDecision

-- `MIN_TRADES_FOR_REGIME_CHECK`
abbrev pub min_trades : ℕ
min_trades = 20

abbrev pub total : List ℕ → ℕ
total [] = 0
total (n ∷ ns) = n + total ns

module _ {F : Type 0} where
  abbrev pub check_passed : CandidateCheck F → Bool
  check_passed c = c.passed

  abbrev pub outcome_of : OptimizationResult F → HoldoutOutcome
  outcome_of result = elim result.holdout_outcome [
    | none ↦ record { total_trades = 0; regime_trades = [] }
    | some outcome ↦ outcome
  ]

  -- `result.best or result.fallback_trial`
  abbrev pub best_of : OptimizationResult F → Option (TrialResult F)
  best_of result = elim result.best [ none ↦ result.fallback_trial | some best ↦ some best ]

  unfoldable pub check_out_of_sample : OptimizationResult F → CandidateCheck F
  check_out_of_sample result = record {
    check_name = CheckName.out_of_sample;
    passed = result.holdout_valid;
    detail = if result.holdout_valid then holdout_met else holdout_failed;
    current_value = none;
    threshold = none;
  }

module _ {F : Type 0} ⦃o : Float F⦄ where
  unfoldable pub check_minimum_sample : OptimizationResult F → CandidateCheck F
  check_minimum_sample result =
      let trades = (outcome_of result).total_trades in
      record {
        check_name = CheckName.minimum_sample;
        passed = leb min_trades trades;
        detail = holdout_trades trades;
        current_value = some (o.of_nat trades);
        threshold = some (o.of_nat min_trades);
      }

  -- `abs(fold_mean) * 0.5 + 5.0`
  abbrev pub fold_threshold : List F → F
  fold_threshold [] = o.abs zero_f ⊗ o.lit 5 1 ⊕ o.lit 50 1
  fold_threshold (x ∷ xs) =
      o.abs (o.sum (x ∷ xs) ⊘ o.of_nat (length (x ∷ xs))) ⊗ o.lit 5 1 ⊕ o.lit 50 1

  abbrev not_folded : CandidateCheck F
  not_folded = record {
    check_name = CheckName.fold_stability;
    passed = false;
    detail = no_folds;
    current_value = none;
    threshold = none;
  }

  abbrev folded : F → List F → CandidateCheck F
  folded fold_std scores = record {
    check_name = CheckName.fold_stability;
    passed = o.le fold_std (fold_threshold scores);
    detail = fold_spread fold_std (length scores);
    current_value = some fold_std;
    threshold = some (fold_threshold scores);
  }

  abbrev pub check_trial : Option (TrialResult F) → CandidateCheck F
  check_trial none = not_folded
  check_trial (some best) = elim best.fold_std [
    | none ↦ not_folded
    | some fold_std ↦ folded fold_std best.fold_scores
  ]

  unfoldable pub check_fold_stability : OptimizationResult F → CandidateCheck F
  check_fold_stability result = check_trial (best_of result)

  abbrev max_from : F → List F → F
  max_from x [] = x
  max_from x (y ∷ ys) = max_from (max x y) ys

  -- `max(xs)` of a list that is not empty; the code never asks for that of an empty one
  abbrev pub max_of : List F → F
  max_of [] = zero_f
  max_of (x ∷ xs) = max_from x xs

  unfoldable pub check_regime_concentration : OptimizationResult F → CandidateCheck F
  check_regime_concentration result =
      let regimes = (outcome_of result).regime_trades in
      let total_trades = total regimes in
      let max_share = max_of (map (λ n. o.of_nat n ⊘ o.of_nat total_trades) regimes) in
      if ltb total_trades min_trades
      then record {
        check_name = CheckName.regime_concentration;
        passed = false;
        detail = few_attributed total_trades;
        current_value = none;
        threshold = none;
      }
      else record {
        check_name = CheckName.regime_concentration;
        passed = o.le max_share (o.lit 8 1);
        detail = largest_share max_share;
        current_value = some max_share;
        threshold = some (o.lit 8 1);
      }

  -- the checks, the decision, and the names of the checks that failed
  unfoldable pub evaluate_candidate :
      OptimizationResult F → List (CandidateCheck F) × EvaluationDecision × List CheckName
  unfolding check_out_of_sample check_minimum_sample check_fold_stability check_regime_concentration
  evaluate_candidate result =
      let checks =
        check_out_of_sample result
        ∷ check_minimum_sample result
        ∷ check_fold_stability result
        ∷ check_regime_concentration result
        ∷ [] in
      if all check_passed checks
      then (checks, accepted, [])
      else (checks, rejected, map (λ c. c.check_name) (filter (λ c. not (check_passed c)) checks))
