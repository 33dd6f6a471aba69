-- ===== src/Runtime/Decide.antt =====
-- `_decide` of runtime/platform_runtime.py; `none` is an error that the decision engine or the store
-- raises.
use quantitative_trading.Prelude.{◌+◌, Option, none, some, List, [], ◌∷◌, if◌then◌else◌, ◌>>=◌}
use quantitative_trading.Float.{Float}
use quantitative_trading.Contracts.State.{StateSnapshot}
use quantitative_trading.Contracts.Signal.{StrategySignal, FinalSignal, MarketContext}
use quantitative_trading.Contracts.Decision.{Decision, is_approved}
use quantitative_trading.Contracts.Event.{EventFamily, EventType, Payload}
use quantitative_trading.Engine.DecisionEngine.{Request, process}
use quantitative_trading.State.Transitions.{RiskUpdate, risk_updated}
use quantitative_trading.Runtime.State.{RuntimeConfig, CycleCtx, Run, tick}
use quantitative_trading.Runtime.Emission.{emit_leaf, emit_cause}
use quantitative_trading.Runtime.Portfolio.{runtime_transition, apply}

module _ {F : Type 0} (config : RuntimeConfig F) (ctx : CycleCtx F) where
  -- the call of the decision engine, which draws two ids
  abbrev pub request_of : Run F → Request
  request_of run = record {
    decision_id = config.draw "dec_" (run.state.drawn + 1);
    signal_id = config.draw "sig_" run.state.drawn;
    correlation_id = ctx.cycle_id;
    event_time = ctx.event_time;
    decision_time = ctx.processing_time;
    revision_id = ctx.revision_id;
    experiment_id = ctx.experiment_id;
  }

  abbrev pub outcome_type : Decision F → EventType
  outcome_type decision =
      if is_approved decision then EventType.decision_approved else EventType.decision_rejected

  abbrev pub outcome_payload : Decision F → StateSnapshot F → Payload F
  outcome_payload decision snap =
      if is_approved decision
      then Payload.decision_approved decision.decision_id snap.snapshot_id decision.final_signal
      else Payload.decision_rejected decision.decision_id snap.snapshot_id
          decision.result.rejection_stage decision.result.rejection_reason decision.decision_log

  abbrev pub published_payload : Decision F → FinalSignal F → Payload F
  published_payload decision signal =
      Payload.signal_published decision.decision_id signal.side signal.entry_price signal.stop_loss
        signal.take_profit signal.confidence signal.risk_reward signal.contributing_providers

  -- the approved signal, if there is one
  abbrev pub emit_published : Decision F → Option (FinalSignal F) → Run F → Run F
  emit_published decision none run = run
  emit_published decision (some signal) run =
      if is_approved decision
      then emit_leaf config ctx EventFamily.execution EventType.signal_published
          (published_payload decision signal) run
      else run

  unfoldable pub emit_decision : Decision F → StateSnapshot F → Run F → Run F
  unfolding emit_leaf emit_cause
  emit_decision decision snap run =
      let made =
        emit_cause config ctx EventFamily.decision EventType.decision_made
          (Payload.decision_made decision.decision_id decision.result.value snap.snapshot_id
            decision.decision_log)
          run.causation_id run in
      let told =
        emit_cause config ctx EventFamily.decision (outcome_type decision)
          (outcome_payload decision snap) made.causation_id made in
      if config.emit_events then emit_published decision decision.final_signal told else run

module _ {F : Type 0} ⦃o : Float F⦄ (config : RuntimeConfig F) (ctx : CycleCtx F) where
  unfoldable pub count_signal : Decision F → StateSnapshot F → Run F → Option (Run F)
  unfolding apply
  count_signal decision snap run =
      if is_approved decision
      then apply config ctx
          (runtime_transition config ctx
            (risk_updated (RiskUpdate.signals_today (snap.risk.signals_today + 1) ∷ [])) run)
          (tick run)
      else some run

  unfoldable pub decide :
      List (StrategySignal F)
      → MarketContext F
      → StateSnapshot F
      → Run F
      → Option (Decision F × Run F)
  unfolding process emit_decision count_signal
  decide signals context snap run = do
    decision ← process config.engine signals context snap (request_of config ctx run)
    run' ← count_signal decision snap (emit_decision config ctx decision snap (tick (tick run)))
    some (decision, run')
