-- ===== src/Features/Store.antt =====
-- core/contracts/features.py and `InMemoryFeatureStore` of features/store.py. `none` is the `KeyError`
-- of `get`, and the `None` of `get_at`.
use quantitative_trading.Prelude.{
  Bool, ◌&&◌, Option, some, List, [], ◌∷◌, String, str_eq, ◌==◌, if◌then◌else◌, none, ◌>>=◌,
}
use quantitative_trading.Dict.{Dict, lookup, insert}
use quantitative_trading.Contracts.State.{Instant}
use quantitative_trading.Contracts.Signal.{MarketContext}

pub record FeatureSet (F : Type 0) : Type 0 where
  pub feature_set_id : String
  pub symbol : String
  pub timeframe : String
  pub event_time : Instant
  pub processing_time : Instant
  pub feature_version : String
  pub config_hash : String
  pub close : F
  pub indicators : Dict F
  pub flags : Dict Bool
  pub levels : Dict F

pub record FeatureSetRecord (F : Type 0) : Type 0 where
  pub features : FeatureSet F
  pub schema_version : String
  pub market_context : Option (MarketContext F)

-- the tuple that `_by_lookup` is keyed with
pub record LookupKey : Type 0 where
  pub symbol : String
  pub timeframe : String
  pub event_time : Instant
  pub feature_version : String

abbrev pub same_key : LookupKey → LookupKey → Bool
same_key a b =
    str_eq a.symbol b.symbol
    && str_eq a.timeframe b.timeframe
    && a.event_time == b.event_time
    && str_eq a.feature_version b.feature_version

abbrev pub find_key : LookupKey → List (LookupKey × String) → Option String
find_key k [] = none
find_key k ((j, i) ∷ rest) = if same_key j k then some i else find_key k rest

abbrev pub set_key : LookupKey → String → List (LookupKey × String) → List (LookupKey × String)
set_key k i [] = (k, i) ∷ []
set_key k i ((j, h) ∷ rest) = if same_key j k then (j, i) ∷ rest else (j, h) ∷ set_key k i rest

pub record FeatureStore (F : Type 0) : Type 0 where
  pub by_id : Dict (FeatureSetRecord F)
  pub by_lookup : List (LookupKey × String)

module _ {F : Type 0} where
  abbrev pub key_of : FeatureSetRecord F → LookupKey
  key_of r = record {
    symbol = r.features.symbol;
    timeframe = r.features.timeframe;
    event_time = r.features.event_time;
    feature_version = r.features.feature_version;
  }

  unfoldable pub put : FeatureSetRecord F → FeatureStore F → FeatureStore F
  put r s = record {
    by_id = insert r.features.feature_set_id r s.by_id;
    by_lookup = set_key (key_of r) r.features.feature_set_id s.by_lookup;
  }

  unfoldable pub get : String → FeatureStore F → Option (FeatureSetRecord F)
  get i s = lookup i s.by_id

  unfoldable pub get_at : LookupKey → FeatureStore F → Option (FeatureSetRecord F)
  get_at k s = do i ← find_key k s.by_lookup; lookup i s.by_id
