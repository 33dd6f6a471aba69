-- ===== src/Tests/Platform.antt =====
-- A platform runtime with two providers, one bar of its market, and a run over bars.
use quantitative_trading.Prelude.{true, false, none, some, List, [], ◌∷◌, String}
use quantitative_trading.Prelude.Int.{ℤ, pos}
use quantitative_trading.Float.Exact.{int_float}
use quantitative_trading.Contracts.State.{Mode}
use quantitative_trading.Contracts.Signal.{Opinion}
use quantitative_trading.Features.Config.{FeaturesConfig}
use quantitative_trading.Features.Builder.{Frame}
use quantitative_trading.State.Store.{Store}
use quantitative_trading.Engine.Config.{EngineConfig}
use quantitative_trading.Runtime.State.{Provider, RuntimeConfig, RuntimeState, CycleCtx}
use quantitative_trading.Tests.Data.{config, signal_of, store}
use quantitative_trading.Tests.Orders.{bar, engine}

abbrev provider_of : String → Opinion → Provider ℤ
provider_of name side = record {
  provider_id = name;
  enabled = true;
  analyze = λ _ _. signal_of name side 80;
}

abbrev features_config : FeaturesConfig ℤ
features_config = record {
  version = "v1";
  context = record {
    trend = record { fast = "ema_fast"; slow = "ema_slow" };
    volatility = record { atr = "atr"; low = pos 0; high = pos 10 };
  };
}

-- the sessions of Asia are traded
abbrev engine_config : EngineConfig ℤ
engine_config = record config {
  filter = record { min_atr_pct = pos 0; allowed_sessions = "ASIA" ∷ [] };
}

abbrev pub runtime : RuntimeConfig ℤ
runtime = record {
  portfolio_id = "main";
  mode = Mode.paper;
  persist_features = true;
  emit_events = true;
  providers =
      provider_of "trend" Opinion.buy
      ∷ provider_of "momentum" Opinion.buy
      ∷ record (provider_of "mean_reversion" Opinion.sell) { enabled = false }
      ∷ [];
  engine = engine_config;
  features = features_config;
  features_hash = "hash";
  draw = λ prefix _. prefix;
  now = λ n. n;
  same = λ _ _. true;
}

abbrev pub frame : Frame ℤ
frame = record {
  last_row = bar;
  last_time = 10;
  close = pos 100;
  event_time = 10;
  indicators = ("ema_fast", pos 101) ∷ ("ema_slow", pos 99) ∷ ("atr", pos 5) ∷ [];
  flags = [];
}

abbrev pub ctx : CycleCtx ℤ
ctx = record {
  cycle_id = "cycle_1";
  symbol = "BTC";
  timeframe = "1h";
  revision_id = none;
  experiment_id = none;
  bar = bar;
  event_time = 10;
  processing_time = 12;
  frame = frame;
}

-- no position is open
abbrev flat_store : Store ℤ
flat_store = record store {
  portfolio = record store.portfolio { cash = pos 1_000; equity = pos 1_000; open_positions = [] };
  risk = record store.risk { open_exposure_pct = pos 0 };
}

abbrev pub state : RuntimeState ℤ
state = record {
  feature_store = record { by_id = []; by_lookup = [] };
  store = flat_store;
  execution_engine = some (record engine { pending_entries = [] });
  bus = record { handlers = record { event_types = []; handled = [] } ∷ []; published = [] };
  signals_day = some 0;
  drawn = 0;
}

abbrev pub bars : List (CycleCtx ℤ)
bars = ctx ∷ record ctx { cycle_id = "cycle_2" } ∷ record ctx { cycle_id = "cycle_3" } ∷ []
