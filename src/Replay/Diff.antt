-- ===== src/Replay/Diff.antt =====
-- `build_decision_diff` of replay/diff.py.
use quantitative_trading.Prelude.{
  ◌≡◌, ◌↔◌, refl, Bool, true, false, not, ◌||◌, Option, none, some, String, arith,
}
use quantitative_trading.Contracts.Signal.{Side, FinalSignal}
use quantitative_trading.Contracts.Decision.{Decision, Outcome, Reason, is_approved}

pub record DecisionDiff (F : Type 0) : Type 0 where
  pub correlation_id : String
  pub original_result : Outcome
  pub reexecuted_result : Outcome
  pub original_side : Option Side
  pub reexecuted_side : Option Side
  pub original_rejection_reason : Option Reason
  pub reexecuted_rejection_reason : Option Reason
  pub original_confidence : Option F
  pub reexecuted_confidence : Option F
  pub changed : Bool
  pub revision_id : Option String

Outcome-discrete : Discrete Outcome
Outcome-discrete = hlevel

Side-discrete : Discrete (Option Side)
Side-discrete = hlevel

Reason-discrete : Discrete (Option Reason)
Reason-discrete = hlevel

-- `a == b`, by a decision
abbrev pub decided {ℓ} : {A : Type ℓ} → Dec A → Bool
decided (yes _) = true
decided (no _) = false

unfoldable pub same_outcome : Outcome → Outcome → Bool
unfolding Outcome-discrete
same_outcome a b = decided (Outcome-discrete a b)

unfoldable pub same_side : Option Side → Option Side → Bool
unfolding Side-discrete
same_side a b = decided (Side-discrete a b)

unfoldable pub same_reason : Option Reason → Option Reason → Bool
unfolding Reason-discrete
same_reason a b = decided (Reason-discrete a b)

decided_iff {ℓ} : {A : Type ℓ} (d : Dec A) → (decided d ≡ true) ↔ A
decided_iff (yes a) = (λ _. a, λ _. refl)
decided_iff (no n) = (λ h. absurd (true_ne h), λ a. absurd (n a))
  where
    true_ne : false ≡ true → ⊥
    true_ne h = cc

unchanged_iff :
    (a b c : Bool) → ((not a || not b || not c) ≡ false) ↔ ((a ≡ true) × (b ≡ true) × (c ≡ true))
unchanged_iff a b c = ground arith

module _ {F : Type 0} where
  -- what an approved decision's signal says
  abbrev pub told {ℓ} :
      {A : Type ℓ} → (FinalSignal F → A) → Bool → Option (FinalSignal F) → Option A
  told f true (some signal) = some (f signal)
  told f true none = none
  told f false _ = none

  abbrev pub side_of : Decision F → Option Side
  side_of d = told (λ s. s.side) (is_approved d) d.final_signal

  abbrev pub confidence_of : Decision F → Option F
  confidence_of d = told (λ s. s.confidence) (is_approved d) d.final_signal

  unfoldable pub build_decision_diff :
      String → (original reexecuted : Decision F) → Option String → DecisionDiff F
  unfolding same_outcome same_side same_reason
  build_decision_diff correlation_id original reexecuted revision_id = record {
    correlation_id = correlation_id;
    original_result = original.result.value;
    reexecuted_result = reexecuted.result.value;
    original_side = side_of original;
    reexecuted_side = side_of reexecuted;
    original_rejection_reason = original.result.rejection_reason;
    reexecuted_rejection_reason = reexecuted.result.rejection_reason;
    original_confidence = confidence_of original;
    reexecuted_confidence = confidence_of reexecuted;
    changed =
        not (same_outcome original.result.value reexecuted.result.value)
        || not (same_side (side_of original) (side_of reexecuted))
        || not (same_reason original.result.rejection_reason reexecuted.result.rejection_reason);
    revision_id = revision_id;
  }

  -- A decision made again counts as unchanged exactly where the outcome, the side of an approval and the
  -- reason of a rejection are the same.
  build_decision_diff_iff :
      (i : String) (a b : Decision F) (r : Option String)
      → ((build_decision_diff i a b r).changed ≡ false) ↔ (
          (a.result.value ≡ b.result.value)
          × (side_of a ≡ side_of b)
          × (a.result.rejection_reason ≡ b.result.rejection_reason))
  unfolding build_decision_diff
  build_decision_diff_iff i a b r =
      let outcome = decided_iff (Outcome-discrete a.result.value b.result.value) in
      let side = decided_iff (Side-discrete (side_of a) (side_of b)) in
      let reason =
        decided_iff (Reason-discrete a.result.rejection_reason b.result.rejection_reason) in
      let all_ =
        unchanged_iff (same_outcome a.result.value b.result.value)
          (same_side (side_of a) (side_of b))
          (same_reason a.result.rejection_reason b.result.rejection_reason) in
      (
        λ h. let (x, y, z) = all_.0 h in (outcome.0 x, side.0 y, reason.0 z),
        λ (x, y, z). all_.1 (outcome.1 x, side.1 y, reason.1 z),
      )
