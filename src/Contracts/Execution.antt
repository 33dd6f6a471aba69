-- ===== src/Contracts/Execution.antt =====
-- core/contracts/execution.py. The engine builds market orders only, which is what `order_type` says.
use quantitative_trading.Prelude.{Bool, String, Option}
use quantitative_trading.Contracts.State.{Instant}
use quantitative_trading.Contracts.Signal.{Side}

pub data OrderType : Type 0 where
  market limit : OrderType

pub data OrderStatus : Type 0 where
  pending submitted acknowledged partially_filled filled cancelled rejected : OrderStatus

pub data Venue : Type 0 where
  simulator paper live : Venue

pub data FillAt : Type 0 where
  close next_open mid : FillAt

pub record OrderIntent (F : Type 0) : Type 0 where
  pub intent_id : String
  pub decision_id : String
  pub correlation_id : String
  pub symbol : String
  pub side : Side
  pub quantity : F
  pub order_type : OrderType
  pub limit_price : Option F
  pub stop_loss : F
  pub take_profit : F
  pub state_snapshot_id : String
  pub experiment_id : Option String
  pub revision_id : Option String

pub record Order : Type 0 where
  pub order_id : String
  pub intent_id : String
  pub status : OrderStatus
  pub submitted_at : Instant
  pub venue : Venue

pub record Fill (F : Type 0) : Type 0 where
  pub fill_id : String
  pub order_id : String
  pub price : F
  pub quantity : F
  pub fee : F
  pub slippage_bps : F
  pub fill_time : Instant
  pub is_partial : Bool

pub record FillModel (F : Type 0) : Type 0 where
  pub model_id : String
  pub slippage_bps : F
  pub fee_bps : F
  pub fill_at : FillAt

-- The dictionary `bar` of one candle.
pub record Bar (F : Type 0) : Type 0 where
  pub open_ : F
  pub high : F
  pub low : F
  pub close : F
  pub volume : F
