-- ===== src/Runtime/Counts.antt =====
-- What the steps of runtime/platform_runtime.py do to the ids of the portfolio, the signals counted
-- today and the day.
use quantitative_trading.Prelude.{
  ◌≡◌, refl, sym, ◌∙◌, ℕ, Bool, true, Option, none, List, [], ◌∷◌, String, str_eq, eq_iff, All,
  if-intro, Post, >>=-Post, Option-cases, inl, inr,
}
use quantitative_trading.Float.{Float}
use quantitative_trading.Contracts.State.{Instant, RiskState, StateSnapshot}
use quantitative_trading.Dict.{Dict}
use quantitative_trading.State.Updates.{update_risk_all}
use mathlib.Core.Path.{subst}
use quantitative_trading.Contracts.Signal.{Side}
use quantitative_trading.State.Transitions.{
  Transition, StateTransitionEvent, RiskUpdate, position_opened, position_closed, risk_updated,
  portfolio_updated, mark_to_market,
}
use quantitative_trading.State.Store.{Store, dispatch, apply_transition, snapshot, get_portfolio}
use quantitative_trading.Execution.Simulator.{Engine, ExecutionResult}
use quantitative_trading.Execution.Simulated.{evaluate_bar}
use quantitative_trading.Execution.Trades.{IsTrade, IsTradeOf, Trades, evaluate_bar-AreTrades}
use quantitative_trading.Runtime.State.{RuntimeConfig, CycleCtx, Run, tick, set_engine}
use quantitative_trading.Runtime.Portfolio.{
  take, apply, apply_all, absorb, evaluate_with, pre_decision_evaluate, cycle_of,
  runtime_transition, revalue_at_close, is_flat,
}

pub same : {i j : String} → i ≡ j → str_eq i j ≡ true
same {i} {j} e = (eq_iff i j).1 e

module _ {F : Type 0} ⦃o : Float F⦄ (config : RuntimeConfig F) where
  -- The store holds the runtime's portfolio, under its own id, and this many signals today.
  pub record Holds (n : ℕ) (s : Store F) : Type 0 where
    pub same_id : s.portfolio_id ≡ config.portfolio_id
    pub own_id : s.portfolio.portfolio_id ≡ config.portfolio_id
    pub signals : s.risk.signals_today ≡ n

  -- The same of a run, with the day of the last cycle.
  pub record IsAt (day : Option ℕ) (n : ℕ) (run : Run F) : Type 0 where
    pub holds : Holds n run.state.store
    pub on_day : run.state.signals_day ≡ day

  trade-Holds :
      (n : ℕ) (e : Transition F) (t : Instant) (s : Store F)
      → IsTrade e
      → Holds n s
      → Holds n (dispatch e t s)
  unfolding dispatch
  trade-Holds n (position_opened p fill cost) t s h k = record {
    same_id = k.same_id;
    own_id = k.own_id;
    signals = k.signals;
  }
  trade-Holds n (position_closed i fill pnl reason) t s h k = record {
    same_id = k.same_id;
    own_id = k.own_id;
    signals = k.signals;
  }
  trade-Holds n (risk_updated us) t s h k = absurd h
  trade-Holds n (portfolio_updated us) t s h k = absurd h
  trade-Holds n (mark_to_market prices) t s h k = absurd h

  marked-Holds :
      (n : ℕ) (prices : Dict F) (t : Instant) (s : Store F)
      → Holds n s
      → Holds n (dispatch (mark_to_market prices) t s)
  unfolding dispatch
  marked-Holds n prices t s k = record {
    same_id = k.same_id;
    own_id = k.own_id;
    signals = k.signals;
  }

  -- a payload of `risk_updated` that sets the signals of today
  pub counted-Holds :
      (n m : ℕ) (us : List (RiskUpdate F)) (t : Instant) (s : Store F)
      → ((r : RiskState F) → (update_risk_all us r).signals_today ≡ m)
      → Holds n s
      → Holds m (dispatch (risk_updated us) t s)
  unfolding dispatch
  counted-Holds n m us t s sets k = record {
    same_id = k.same_id;
    own_id = k.own_id;
    signals = sets s.risk;
  }

module _ {F : Type 0} ⦃o : Float F⦄ (strict : Bool) (config : RuntimeConfig F) (ctx : CycleCtx F)
    (day : Option ℕ) where
  -- an event for the runtime's portfolio is applied
  pub apply-IsAt :
      (n m : ℕ) (e : StateTransitionEvent F) (run : Run F)
      → e.portfolio_id ≡ config.portfolio_id
      → Holds config m (dispatch e.transition e.event_time run.state.store)
      → IsAt config day n run
      → Post strict (IsAt config day m) (apply config ctx e run)
  unfolding apply apply_transition snapshot
  apply-IsAt n m e run mine after k =
      rw (same (mine ∙ sym k.holds.same_id), same (mine ∙ sym after.same_id))
        (record {
          holds = record {
            same_id = after.same_id;
            own_id = after.own_id;
            signals = after.signals;
          };
          on_day = k.on_day;
        })

  pub apply_all-IsAt :
      (n : ℕ) (es : List (StateTransitionEvent F)) (run : Run F)
      → All (IsTradeOf config.portfolio_id) es
      → IsAt config day n run
      → Post strict (IsAt config day n) (apply_all config ctx es run)
  unfolding apply_all
  apply_all-IsAt n [] run h k = k
  apply_all-IsAt n (e ∷ es) run ((mine, trade), hs) k =
      >>=-Post strict (IsAt config day n) (IsAt config day n) (apply config ctx e run)
        (apply_all config ctx es)
        (apply-IsAt n n e run mine
          (trade-Holds config n e.transition e.event_time run.state.store trade k.holds) k)
        λ run' k'. apply_all-IsAt n es run' hs k'

  -- a snapshot of what the store holds
  pub record IsTaken (n : ℕ) (r : StateSnapshot F × Run F) : Type 0 where
    pub at : IsAt config day n r.1
    pub own_id : r.0.portfolio.portfolio_id ≡ config.portfolio_id
    pub signals : r.0.risk.signals_today ≡ n

  pub take-IsTaken :
      (n : ℕ) (run : Run F) → IsAt config day n run → Post strict (IsTaken n) (take config ctx run)
  unfolding take snapshot
  take-IsTaken n run k = rw (same (sym k.holds.same_id)) (record {
    at = record {
      holds = record {
        same_id = k.holds.same_id;
        own_id = k.holds.own_id;
        signals = k.holds.signals;
      };
      on_day = k.on_day;
    };
    own_id = k.holds.own_id;
    signals = k.holds.signals;
  })

  pub absorb-IsAt :
      (n : ℕ) (snap : StateSnapshot F) (r : ExecutionResult F × Engine F) (run : Run F)
      → snap.portfolio.portfolio_id ≡ config.portfolio_id
      → Trades snap r
      → IsAt config day n run
      → Post strict (IsAt config day n) (absorb config ctx r run)
  unfolding absorb
  absorb-IsAt n snap (result, engine) run own h k =
      >>=-Post strict (IsAt config day n) (IsAt config day n)
        (apply_all config ctx result.transitions (set_engine engine run)) _
        (apply_all-IsAt n result.transitions (set_engine engine run)
          (subst (λ i. All (IsTradeOf i) result.transitions) own h)
          (record { holds = k.holds; on_day = k.on_day }))
        λ run' k'. record { holds = k'.holds; on_day = k'.on_day }

  pub evaluate_with-IsAt :
      (n : ℕ) (side : Option Side) (counts : Bool) (engine : Engine F) (run : Run F)
      → IsAt config day n run
      → Post strict (IsAt config day n) (evaluate_with config ctx side counts engine run)
  unfolding evaluate_with
  evaluate_with-IsAt n side counts engine run k =
      >>=-Post strict (IsTaken n) (IsAt config day n) (take config ctx run) _ (take-IsTaken n run k)
        λ (snap, run') t.
          absorb-IsAt n snap (evaluate_bar ctx.bar snap (cycle_of config ctx) side counts engine)
            run' t.own_id
            (evaluate_bar-AreTrades ctx.bar snap (cycle_of config ctx) side counts engine) t.at

  pub pre_decision_evaluate-IsAt :
      (n : ℕ) (run : Run F)
      → IsAt config day n run
      → Post strict (IsAt config day n) (pre_decision_evaluate config ctx run)
  unfolding pre_decision_evaluate
  pre_decision_evaluate-IsAt n run k = elim (Option-cases run.state.execution_engine) [
    | inl e ↦ rw (pre_decision_evaluate, e) k
    | inr (engine, e) ↦ rw (pre_decision_evaluate, e) (evaluate_with-IsAt n none true engine run k)
  ]

  pub revalue_at_close-IsAt :
      (n : ℕ) (run : Run F)
      → IsAt config day n run
      → Post strict (IsAt config day n) (revalue_at_close config ctx run)
  unfolding revalue_at_close get_portfolio
  revalue_at_close-IsAt n run k =
      let prices = (ctx.symbol, ctx.bar.close) ∷ [] in
      rw (same (sym k.holds.same_id)) (
        if-intro (Post strict (IsAt config day n)) (is_flat config ctx run.state.store.portfolio)
          (λ _. k)
          λ _.
            apply-IsAt n n (runtime_transition config ctx (mark_to_market prices) run) (tick run)
              refl (marked-Holds config n prices ctx.event_time run.state.store k.holds)
              (record { holds = k.holds; on_day = k.on_day }))
