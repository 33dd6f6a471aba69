-- ===== src/Features/Builder.antt =====
-- `DefaultFeatureBuilder.build` of features/builder.py. What pandas gives of the candles is a `Frame`:
-- the last row as it stands and, after the rows are sorted, the last close and time with the
-- indicators that could be computed and the flags on them. The drawn id is an argument.
use quantitative_trading.Prelude.{Bool, Option, some, [], String, if◌then◌else◌, ◌>>=◌}
use quantitative_trading.Dict.{Dict}
use quantitative_trading.Float.{Float}
use quantitative_trading.Contracts.State.{Instant}
use quantitative_trading.Contracts.Signal.{MarketContext}
use quantitative_trading.Contracts.Execution.{Bar}
use quantitative_trading.Features.Config.{FeaturesConfig}
use quantitative_trading.Features.Context.{derive}
use quantitative_trading.Features.Store.{FeatureSet, FeatureSetRecord, FeatureStore, put}

pub record Frame (F : Type 0) : Type 0 where
  pub last_row : Bar F
  pub last_time : Instant
  pub close : F
  pub event_time : Instant
  pub indicators : Dict F
  pub flags : Dict Bool

module _ {F : Type 0} where
  abbrev pub record_of : FeatureSet F → MarketContext F → FeatureSetRecord F
  record_of features context = record {
    features = features;
    schema_version = "v1";
    market_context = some context;
  }

  -- `if self._store is not None and persist`, for a builder that has a store
  abbrev pub persisted :
      (persist : Bool) → FeatureSet F → MarketContext F → FeatureStore F → FeatureStore F
  persisted persist features context store =
      if persist then put (record_of features context) store else store

module _ {F : Type 0} ⦃o : Float F⦄ (config : FeaturesConfig F) (config_hash : String) where
  abbrev pub feature_set_of :
      Frame F
      → (symbol timeframe : String) (processing_time : Instant) (feature_set_id : String)
      → FeatureSet F
  feature_set_of frame symbol timeframe processing_time feature_set_id = record {
    feature_set_id = feature_set_id;
    symbol = symbol;
    timeframe = timeframe;
    event_time = frame.event_time;
    processing_time = processing_time;
    feature_version = config.version;
    config_hash = config_hash;
    close = frame.close;
    indicators = frame.indicators;
    flags = frame.flags;
    levels = [];
  }

  unfoldable pub build :
      Frame F
      → (symbol timeframe : String) (processing_time : Instant) (persist : Bool)
        (feature_set_id : String)
      → FeatureStore F
      → Option (FeatureSet F × MarketContext F × FeatureStore F)
  build frame symbol timeframe processing_time persist feature_set_id store = do
    context ← derive config.context symbol timeframe frame.close frame.indicators frame.event_time
    let features = feature_set_of frame symbol timeframe processing_time feature_set_id
    some (features, context, persisted persist features context store)
