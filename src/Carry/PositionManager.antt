-- ===== src/Carry/PositionManager.antt =====
-- `CarryPositionManager` of carry/position_manager.py. The details of a plan are left out.
use quantitative_trading.Prelude.{ℕ, ◌+◌, Bool, not, ◌&&◌, ◌||◌, if◌then◌else◌}
use quantitative_trading.Float.{Float, ◌⊕◌, ◌⊖◌, ◌⊗◌, ◌⊘◌, max, min}
use quantitative_trading.State.Store.{zero_f}

pub record CarryManagerConfig (F : Type 0) : Type 0 where
  pub capital_multiplier : F
  pub min_trailing_funding_8h : F
  pub rebalance_band : F
  pub resize_band : F

pub record CarryPositionState (F : Type 0) : Type 0 where
  pub spot_qty : F
  pub perp_qty : F
  pub spot_entry_px : F
  pub perp_entry_px : F
  pub accrued_funding : F
  pub flips : ℕ

pub record CarryTarget (F : Type 0) : Type 0 where
  pub hold : Bool
  pub target_notional : F

pub data PlanReason : Type 0 where
  open_ close resize rebalance noop : PlanReason

pub record RebalancePlan (F : Type 0) : Type 0 where
  pub spot_delta_qty : F
  pub perp_delta_qty : F
  pub reason : PlanReason

-- The keyword arguments of `apply_fill`.
pub record CarryFill (F : Type 0) : Type 0 where
  pub spot_fill_qty : F
  pub spot_fill_px : F
  pub perp_fill_qty : F
  pub perp_fill_px : F
  pub fee : F

module _ {F : Type 0} ⦃o : Float F⦄ where
  -- `x > 0`
  abbrev pub is_positive : F → Bool
  is_positive x = o.lt zero_f x

  abbrev pub in_market : CarryPositionState F → Bool
  in_market state = is_positive state.spot_qty || is_positive state.perp_qty

  abbrev pub net_delta : CarryPositionState F → (spot_px perp_px : F) → F
  net_delta state spot_px perp_px = state.spot_qty ⊗ spot_px ⊖ state.perp_qty ⊗ perp_px

  abbrev pub pair_notional : CarryPositionState F → F → F
  pair_notional state spot_px = state.spot_qty ⊗ spot_px

  unfoldable pub equity : CarryPositionState F → (cash spot_px perp_px : F) → F
  equity state cash spot_px perp_px =
      let spot_val = state.spot_qty ⊗ spot_px in
      let perp_pnl = state.perp_qty ⊗ (state.perp_entry_px ⊖ perp_px) in
      cash ⊕ spot_val ⊕ perp_pnl ⊕ state.accrued_funding

  unfoldable pub decide_target :
      CarryManagerConfig F → (trailing_funding_8h equity : F) → CarryTarget F
  decide_target config trailing_funding_8h equity =
      let hold = o.le config.min_trailing_funding_8h trailing_funding_8h in
      record {
        hold = hold;
        target_notional = if hold then max zero_f equity ⊘ config.capital_multiplier else zero_f;
      }

  abbrev plan_of : F → F → PlanReason → RebalancePlan F
  plan_of spot perp reason = record {
    spot_delta_qty = spot;
    perp_delta_qty = perp;
    reason = reason;
  }

  abbrev nothing : RebalancePlan F
  nothing = plan_of zero_f zero_f PlanReason.noop

  -- the plan out of the market
  abbrev plan_open : CarryTarget F → F → RebalancePlan F
  plan_open target spot_px =
      let qty = if is_positive spot_px then target.target_notional ⊘ spot_px else zero_f in
      if o.le qty zero_f then nothing else plan_of qty qty PlanReason.open_

  -- the plan for a pair whose hedge is within its band
  abbrev plan_resize :
      CarryManagerConfig F → CarryPositionState F → CarryTarget F → F → RebalancePlan F
  plan_resize config state target spot_px =
      let cur = pair_notional state spot_px in
      let wanted = target.target_notional in
      let d = wanted ⊘ spot_px ⊖ state.spot_qty in
      if is_positive wanted
        && is_positive cur
        && o.lt config.resize_band (o.abs (cur ⊖ wanted) ⊘ wanted)
      then plan_of d d PlanReason.resize
      else nothing

  -- the plan in the market
  abbrev plan_held :
      CarryManagerConfig F
      → CarryPositionState F
      → CarryTarget F
      → (spot_px perp_px : F) → RebalancePlan F
  plan_held config state target spot_px perp_px =
      let cur = pair_notional state spot_px in
      let delta = net_delta state spot_px perp_px in
      let desired =
        if is_positive perp_px then state.spot_qty ⊗ spot_px ⊘ perp_px else state.perp_qty in
      if is_positive cur && o.lt config.rebalance_band (o.abs delta ⊘ cur)
      then plan_of zero_f (desired ⊖ state.perp_qty) PlanReason.rebalance
      else plan_resize config state target spot_px

  unfoldable pub plan :
      CarryManagerConfig F
      → CarryPositionState F
      → CarryTarget F
      → (spot_px perp_px : F) → RebalancePlan F
  plan config state target spot_px perp_px =
      if not target.hold
      then (if in_market state
          then plan_of (o.neg state.spot_qty) (o.neg state.perp_qty) PlanReason.close
          else nothing)
      else if not (in_market state)
      then plan_open target spot_px
      else plan_held config state target spot_px perp_px

  -- the realised profit of a short that is reduced
  abbrev pub realised : CarryPositionState F → CarryFill F → F → F
  realised state fill flow =
      let closed = min (o.neg fill.perp_fill_qty) state.perp_qty in
      if o.lt fill.perp_fill_qty zero_f && is_positive state.perp_qty
      then flow ⊕ closed ⊗ (state.perp_entry_px ⊖ fill.perp_fill_px)
      else flow

  -- the average entry price of a leg after its fill
  abbrev pub entry_after : (qty entry_px fill_qty fill_px new_qty : F) → F
  entry_after qty entry_px fill_qty fill_px new_qty =
      if is_positive fill_qty
      then (if is_positive new_qty
          then (qty ⊗ entry_px ⊕ fill_qty ⊗ fill_px) ⊘ new_qty
          else fill_px)
      else entry_px

  abbrev pub flips_after : CarryPositionState F → (new_spot new_perp : F) → ℕ
  flips_after state new_spot new_perp =
      let entered = not (in_market state) && (is_positive new_spot || is_positive new_perp) in
      let left = in_market state && o.le new_spot (o.lit 1 12) && o.le new_perp (o.lit 1 12) in
      state.flips + (if entered then 1 else 0) + (if left then 1 else 0)

  unfoldable pub apply_fill : CarryPositionState F → CarryFill F → CarryPositionState F × F
  apply_fill state fill =
      let new_spot = state.spot_qty ⊕ fill.spot_fill_qty in
      let new_perp = state.perp_qty ⊕ fill.perp_fill_qty in
      let flow = o.neg fill.spot_fill_qty ⊗ fill.spot_fill_px ⊖ fill.fee in
      let spot_entry =
        entry_after state.spot_qty state.spot_entry_px fill.spot_fill_qty fill.spot_fill_px
          new_spot in
      let perp_entry =
        entry_after state.perp_qty state.perp_entry_px fill.perp_fill_qty fill.perp_fill_px
          new_perp in
      (
        record state {
          spot_qty = max zero_f new_spot;
          perp_qty = max zero_f new_perp;
          spot_entry_px = if is_positive new_spot then spot_entry else zero_f;
          perp_entry_px = if is_positive new_perp then perp_entry else zero_f;
          flips = flips_after state new_spot new_perp;
        },
        realised state fill flow,
      )

  unfoldable pub accrue_funding :
      CarryPositionState F → (funding_rate perp_px : F) → CarryPositionState F
  accrue_funding state funding_rate perp_px = record state {
    accrued_funding = state.accrued_funding ⊕ funding_rate ⊗ state.perp_qty ⊗ perp_px;
  }
