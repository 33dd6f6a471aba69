-- ===== src/State/Versions.antt =====
-- What every transition of the store does to the versions and to the recorded snapshots.
use mathlib.Core.Path.{subst}
use mathlib.Core.Option.{some-injective}
use quantitative_trading.Prelude.{
  ℕ, ◌+◌, ◌≡◌, ◌≢◌, refl, sym, ap, ◌∙◌, true, some, String, str_eq, eq_iff, eq_refl, arith, inl,
  inr, Bool-cases,
}
use quantitative_trading.Dict.{lookup, insert, lookup-insert}
use quantitative_trading.Float.{Float}
use quantitative_trading.Contracts.State.{Instant, StateSnapshot}
use quantitative_trading.State.Transitions.{
  Transition, StateTransitionEvent, position_opened, position_closed, risk_updated,
  portfolio_updated, mark_to_market,
}
use quantitative_trading.State.Store.{Store, dispatch, take_snapshot, apply_transition}

module _ {F : Type 0} where
  -- 1 for a transition that writes the portfolio
  abbrev pub portfolio_bump : Transition F → ℕ
  portfolio_bump (position_opened _ _ _) = 1
  portfolio_bump (position_closed _ _ _ _) = 1
  portfolio_bump (portfolio_updated _) = 1
  portfolio_bump (mark_to_market _) = 1
  portfolio_bump (risk_updated _) = 0

  -- 1 for a transition that writes the risk state
  abbrev pub risk_bump : Transition F → ℕ
  risk_bump (position_opened _ _ _) = 1
  risk_bump (position_closed _ _ _ _) = 1
  risk_bump (risk_updated _) = 1
  risk_bump (mark_to_market _) = 1
  risk_bump (portfolio_updated _) = 0

module _ {F : Type 0} ⦃o : Float F⦄ where
  pub dispatch_versions :
      (t : Transition F) (at : Instant) (s : Store F)
      → ((dispatch t at s).portfolio.version ≡ s.portfolio.version + portfolio_bump t)
        × ((dispatch t at s).risk.version ≡ s.risk.version + risk_bump t)
        × ((dispatch t at s).portfolio_id ≡ s.portfolio_id)
        × ((dispatch t at s).snapshots ≡ s.snapshots)
  unfolding dispatch
  dispatch_versions (position_opened p f c) at s = (refl, refl, refl, refl)
  dispatch_versions (position_closed i f x r) at s = (refl, refl, refl, refl)
  dispatch_versions (portfolio_updated us) at s = ground arith
  dispatch_versions (risk_updated us) at s = ground arith
  dispatch_versions (mark_to_market ps) at s = (refl, refl, refl, refl)

  -- What a transition that went through has done: the versions of what it wrote went up by one, the
  -- snapshot that it returns shows the new state under the portfolio's version, that snapshot can be
  -- looked up, and no snapshot under another id has changed.
  pub record Recorded (e : StateTransitionEvent F) (i : String) (s : Store F)
      (snap : StateSnapshot F) (s' : Store F) : Type 0 where
    pub portfolio_version : s'.portfolio.version ≡ s.portfolio.version + portfolio_bump e.transition
    pub risk_version : s'.risk.version ≡ s.risk.version + risk_bump e.transition
    pub shows_portfolio : snap.portfolio ≡ s'.portfolio
    pub shows_risk : snap.risk ≡ s'.risk
    pub shows_version : snap.version ≡ s'.portfolio.version
    pub correlated : snap.correlation_id ≡ some e.correlation_id
    pub kept : lookup i s'.snapshots ≡ some snap
    pub others : (j : String) → j ≢ i → lookup j s'.snapshots ≡ lookup j s.snapshots

  -- the same of the store that a transition builds
  recorded :
      (e : StateTransitionEvent F) (i : String) (now : Instant) (s : Store F)
      → let s' = dispatch e.transition e.event_time s in
        let snap = take_snapshot i now (some e.correlation_id) s' in
        Recorded e i s snap (record s' { snapshots = insert i snap s'.snapshots })
  recorded e i now s =
      let (pv, rv, _, kept) = dispatch_versions e.transition e.event_time s in
      let s' = dispatch e.transition e.event_time s in
      let snap = take_snapshot i now (some e.correlation_id) s' in
      record {
        portfolio_version = pv;
        risk_version = rv;
        shows_portfolio = refl;
        shows_risk = refl;
        shows_version = refl;
        correlated = refl;
        kept = simp (lookup-insert, eq_refl);
        others =
            λ j ne. rw (lookup-insert i j snap s'.snapshots) (ground (arith, eq_iff i j, kept));
      }

  apply_transition_lem :
      (e : StateTransitionEvent F) (i : String) (now : Instant) (s : Store F)
      → str_eq e.portfolio_id s.portfolio_id ≡ true
      → let s' = dispatch e.transition e.event_time s in
        let snap = take_snapshot i now (some e.correlation_id) s' in
        apply_transition e i now s
        ≡ (some snap, record s' { snapshots = insert i snap s'.snapshots })
  unfolding apply_transition
  apply_transition_lem e i now s same = rw ((dispatch_versions e.transition e.event_time s).2, same)

  -- A transition that is accepted has done what `Recorded` says: the versions of what it wrote went
  -- up by one and no other, and its snapshot, of the new state, is kept beside the older ones.
  pub apply_transition-Recorded :
      (e : StateTransitionEvent F) (i : String) (now : Instant) (s : Store F)
      {snap : StateSnapshot F} {s' : Store F}
      → apply_transition e i now s ≡ (some snap, s')
      → Recorded e i s snap s'
  apply_transition-Recorded e i now s {snap} {s'} h =
      elim (Bool-cases (str_eq e.portfolio_id s.portfolio_id)) [
        | inl same ↦
            let left = sym (apply_transition_lem e i now s same) ∙ h in
            let s₁ = dispatch e.transition e.event_time s in
            let snap₁ = take_snapshot i now (some e.correlation_id) s₁ in
            let s₂ : Store F = record s₁ { snapshots = insert i snap₁ s₁.snapshots } in
            subst (λ t. Recorded e i s snap t) (ap (λ r. r.1) left)
              (subst (λ x. Recorded e i s x s₂) (some-injective _ _ (ap (λ r. r.0) left))
                (recorded e i now s))
        | inr other ↦ absurd (unfold apply_transition in cc (ap (λ r. r.0) (rw other at h)))
      ]
