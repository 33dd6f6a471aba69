-- ===== src/Runtime/State.antt =====
-- The state of `PlatformRuntime` of runtime/platform_runtime.py, its `_CycleCtx`, and `CycleResult` of
-- runtime/models.py. The execution engine is the simulated one, if there is one; the data provider and
-- the clocks are what a `CycleCtx` and `now` carry of them.
use quantitative_trading.Prelude.{ℕ, ◌+◌, Bool, Option, List, String}
use quantitative_trading.Contracts.State.{Instant, Mode, StateSnapshot}
use quantitative_trading.Contracts.Signal.{StrategySignal, MarketContext}
use quantitative_trading.Contracts.Decision.{Decision}
use quantitative_trading.Contracts.Execution.{Bar}
use quantitative_trading.Contracts.Event.{EventEnvelope}
use quantitative_trading.State.Store.{Store}
use quantitative_trading.Engine.Config.{EngineConfig}
use quantitative_trading.Execution.Simulator.{Engine}
use quantitative_trading.Events.Bus.{Bus}
use quantitative_trading.Features.Config.{FeaturesConfig}
use quantitative_trading.Features.Store.{FeatureSet, FeatureStore}
use quantitative_trading.Features.Builder.{Frame}

-- `SignalProvider` of core/contracts/provider.py
pub record Provider (F : Type 0) : Type 0 where
  pub provider_id : String
  pub enabled : Bool
  pub analyze : FeatureSet F → MarketContext F → StrategySignal F

-- What `__init__` is given and no cycle changes. `draw prefix n` is the id from the n-th draw of
-- `uuid.uuid4()`, `now n` the clock's reading at that draw, and `same` the test `==` of two contexts.
pub record RuntimeConfig (F : Type 0) : Type 0 where
  pub portfolio_id : String
  pub mode : Mode
  pub persist_features : Bool
  pub emit_events : Bool
  pub providers : List (Provider F)
  pub engine : EngineConfig F
  pub features : FeaturesConfig F
  pub features_hash : String
  pub draw : String → ℕ → String
  pub now : ℕ → Instant
  pub same : MarketContext F → MarketContext F → Bool

pub record RuntimeState (F : Type 0) : Type 0 where
  pub feature_store : FeatureStore F
  pub store : Store F
  pub execution_engine : Option (Engine F)
  pub bus : Bus F
  -- `_signals_day`, as the number of days since the epoch
  pub signals_day : Option ℕ
  pub drawn : ℕ

-- The entries of `_CycleCtx` that `_prepare_bar` sets once.
pub record CycleCtx (F : Type 0) : Type 0 where
  pub cycle_id : String
  pub symbol : String
  pub timeframe : String
  pub revision_id : Option String
  pub experiment_id : Option String
  pub bar : Bar F
  pub event_time : Instant
  pub processing_time : Instant
  pub frame : Frame F

-- The runtime with the entries of `_CycleCtx` that a cycle changes.
pub record Run (F : Type 0) : Type 0 where
  pub state : RuntimeState F
  pub events : List (EventEnvelope F)
  pub causation_id : Option String
  pub execution_events : List (EventEnvelope F)

pub record CycleResult (F : Type 0) : Type 0 where
  pub correlation_id : String
  pub feature_set : FeatureSet F
  pub context : MarketContext F
  pub snapshot : StateSnapshot F
  pub signals : List (StrategySignal F)
  pub decision : Decision F
  pub events : List (EventEnvelope F)
  pub execution_events : List (EventEnvelope F)

module _ {F : Type 0} where
  -- an id has been drawn
  abbrev pub tick : Run F → Run F
  tick run = record run { state = record run.state { drawn = run.state.drawn + 1 } }

  abbrev pub set_store : Store F → Run F → Run F
  set_store store run = record run { state = record run.state { store = store } }

  abbrev pub set_engine : Engine F → Run F → Run F
  set_engine engine run = record run {
    state = record run.state { execution_engine = Option.some engine };
  }
