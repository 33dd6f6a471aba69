-- ===== src/Governance/Acceptance.antt =====
-- When the policy of governance/candidate_evaluator.py accepts a candidate.
use mathlib.Core.Option.{some-injective}
use quantitative_trading.Prelude.{
  ◌≡◌, ◌≤◌, ◌↔◌, ℕ, sym, ap, ◌∙◌, true, Option, some, map, arith, Option-cases, inl, inr,
}
use quantitative_trading.Float.{Float, ◌⊘◌}
use quantitative_trading.Governance.Evaluator.{
  OptimizationResult, TrialResult, EvaluationDecision, total, outcome_of, best_of, fold_threshold,
  max_of, check_fold_stability, check_regime_concentration, check_out_of_sample,
  check_minimum_sample, evaluate_candidate,
}

abbrev pub trades_of : {F : Type 0} → OptimizationResult F → ℕ
trades_of result = (outcome_of result).total_trades

module _ {F : Type 0} ⦃o : Float F⦄ where
  -- a trial was chosen, its folds were run, and their spread is within the threshold
  abbrev pub IsStable : OptimizationResult F → Type 0
  IsStable result =
      (trial : TrialResult F) × (best_of result ≡ some trial)
      × ((fold_std : F) × (trial.fold_std ≡ some fold_std)
          × (o.le fold_std (fold_threshold trial.fold_scores) ≡ true))

  -- enough trades have a regime, and no regime has more than 80 percent of them
  abbrev pub IsSpread : OptimizationResult F → Type 0
  IsSpread result =
      let regimes = (outcome_of result).regime_trades in
      (20 ≤ total regimes)
      × (o.le (max_of (map (λ n. o.of_nat n ⊘ o.of_nat (total regimes)) regimes)) (o.lit 8 1)
          ≡ true)

  IsStable-iff :
      (result : OptimizationResult F)
      → ((check_fold_stability result).passed ≡ true) ↔ IsStable result
  unfolding check_fold_stability
  IsStable-iff result = elim (Option-cases (best_of result)) [
    | inl e ↦ (λ h. absurd (cc (rw e at h)), λ (trial, found, _). absurd (cc (sym found ∙ e)))
    | inr (trial, e) ↦ elim (Option-cases trial.fold_std) [
      | inl f ↦ (
        λ h. absurd (cc (rw (e, f) at h)),
        λ (other, found, (x, is_x, _)). absurd (cc (sym is_x ∙ scored trial other e found f)),
      )
      | inr (fold_std, f) ↦ (
        λ h. (trial, e, (fold_std, f, rw (e, f) at h)),
        λ (other, found, (x, is_x, h)).
            let same : other ≡ trial = some-injective _ _ (sym found ∙ e) in
            let equal : x ≡ fold_std =
              some-injective _ _ (sym is_x ∙ scored trial other e found f) in
            rw (e, f) (rw (same, equal) at h),
      )
    ]
  ]
    where
      scored :
          (trial other : TrialResult F) {x : Option F}
          → best_of result ≡ some trial
          → best_of result ≡ some other
          → trial.fold_std ≡ x
          → other.fold_std ≡ x
      scored trial other e found f = ap (λ t. t.fold_std) (some-injective _ _ (sym found ∙ e)) ∙ f

  IsSpread-iff :
      (result : OptimizationResult F)
      → ((check_regime_concentration result).passed ≡ true) ↔ IsSpread result
  unfolding check_regime_concentration
  IsSpread-iff result = ground arith

  minimum_iff :
      (result : OptimizationResult F)
      → ((check_minimum_sample result).passed ≡ true) ↔ (20 ≤ trades_of result)
  unfolding check_minimum_sample
  minimum_iff result = ground arith

  -- the decision on four verdicts
  all_iff :
      (result : OptimizationResult F)
      → ((evaluate_candidate result).1 ≡ EvaluationDecision.accepted) ↔ (
          (result.holdout_valid ≡ true)
          × ((check_minimum_sample result).passed ≡ true)
          × ((check_fold_stability result).passed ≡ true)
          × ((check_regime_concentration result).passed ≡ true))
  unfolding evaluate_candidate check_out_of_sample
  all_iff result = ground arith

  -- The policy accepts a candidate exactly where the holdout is valid, it has at least 20 trades, the
  -- folds were run and are stable, and the trades are spread over the regimes: what was not evaluated
  -- never counts as passed.
  pub evaluate_candidate_iff :
      (result : OptimizationResult F)
      → ((evaluate_candidate result).1 ≡ EvaluationDecision.accepted) ↔ (
          (result.holdout_valid ≡ true)
          × (20 ≤ trades_of result)
          × IsStable result
          × IsSpread result)
  evaluate_candidate_iff result =
      let (to_stable, of_stable) = IsStable-iff result in
      let (to_spread, of_spread) = IsSpread-iff result in
      let (to_least, of_least) = minimum_iff result in
      let (apart, together) = all_iff result in
      (
        λ h. let (v, m, f, r) = apart h in (v, to_least m, to_stable f, to_spread r),
        λ (v, m, f, r). together (v, of_least m, of_stable f, of_spread r),
      )
