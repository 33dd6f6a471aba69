-- ===== src/Tests/Analysis.antt =====
-- The theorems on the features, the validation, the replay and the carry at concrete data.
use quantitative_trading.Prelude.{
  ◌≡◌, ◌↔◌, refl, ℕ, ◌+◌, ◌*◌, ◌/◌, ◌≤◌, true, false, not, none, some, List, [], ◌∷◌, Returns,
  length, map, filter, arith, eq_refl, ◌==◌, if◌then◌else◌, eqb→eq,
}
use quantitative_trading.Prelude.Int.{ℤ, pos, negsuc, ◌-ℤ◌, ◌+ℤ◌, leb_ℤ}
use quantitative_trading.Dict.{Dict}
use quantitative_trading.Float.{Float, max}
use quantitative_trading.Float.Exact.{int_float}
use quantitative_trading.Contracts.Event.{EventEnvelope, EventFamily, EventType, candle}
use quantitative_trading.Contracts.State.{Mode}
use quantitative_trading.Features.Store.{FeatureSetRecord, FeatureStore, key_of, put, get, get_at}
use quantitative_trading.Features.Stored.{get-put}
use quantitative_trading.Runtime.State.{CycleResult}
use quantitative_trading.Replay.Graph.{build_causal_graph}
use quantitative_trading.Replay.Roots.{is_caused, roots_lem}
use quantitative_trading.Validation.Windows.{Spans, build_windows}
use quantitative_trading.Validation.Folds.{AreInOrder, build_windows-AreInOrder}
use quantitative_trading.Validation.Space.{
  Values, trial_param_keys, same_params, product, is_valid_provider_trial,
  space_requires_family_filter,
}
use quantitative_trading.Validation.Trials.{is_in, pick, is_empty, valid_combos, generate_trials}
use quantitative_trading.Validation.Picked.{IsPick, pick-Returns}
use quantitative_trading.Validation.Generated.{AreValid, keeps_apart, generate_trials-AreValid}
use quantitative_trading.Validation.Metrics.{compute_engine_metrics, drawdowns, equity_curve}
use quantitative_trading.Validation.Breakdown.{total_of, compute_engine_metrics_total}
use quantitative_trading.Validation.Drawdown.{deepest_fall, drawdowns_deepest}
use quantitative_trading.Carry.PositionManager.{
  CarryManagerConfig, CarryPositionState, CarryTarget, CarryFill, in_market, equity, plan,
  apply_fill,
}
use quantitative_trading.Carry.Closing.{fill_of, plan_leaves, apply_fill_equity}
use quantitative_trading.Tests.Data.{context, snap}
use quantitative_trading.Tests.Orders.{decision, bar}
use quantitative_trading.Tests.Platform.{frame}

-- a record of features, and a store without any
abbrev features_of : FeatureSetRecord ℤ
features_of = record {
  features = record {
    feature_set_id = "fs_1";
    symbol = "BTC";
    timeframe = "1h";
    event_time = 10;
    processing_time = 12;
    feature_version = "v1";
    config_hash = "hash";
    close = pos 100;
    indicators = frame.indicators;
    flags = [];
    levels = [];
  };
  schema_version = "v1";
  market_context = some context;
}

abbrev nothing_stored : FeatureStore ℤ
nothing_stored = record { by_id = []; by_lookup = [] }

get-put_example :
    (get "fs_1" (put features_of nothing_stored) ≡ some features_of)
    × (get_at (key_of features_of) (put features_of nothing_stored) ≡ some features_of)
get-put_example =
    get-put features_of nothing_stored "fs_1" features_of.features.symbol
      features_of.features.timeframe features_of.features.event_time
      features_of.features.feature_version tt

-- two events, the second caused by the first
abbrev pub first_event : EventEnvelope ℤ
first_event = record {
  event_id = "evt_1";
  event_family = EventFamily.market;
  event_type = EventType.candle_received;
  event_time = 10;
  processing_time = 12;
  correlation_id = "cycle_1";
  causation_id = none;
  cycle_id = "cycle_1";
  symbol = "BTC";
  timeframe = "1h";
  mode = Mode.paper;
  experiment_id = none;
  revision_id = none;
  payload = candle bar;
}

abbrev events : List (EventEnvelope ℤ)
events = first_event ∷ record first_event { event_id = "evt_2"; causation_id = some "evt_1" } ∷ []

roots_lem_example :
    (build_causal_graph events).roots
    ≡ map (λ e. e.event_id) (filter (λ e. not (is_caused e.causation_id)) events)
roots_lem_example = roots_lem events (refl, (refl, tt))

-- quotients rounded down, and half of a span
abbrev spans : Spans ℤ
spans = record { divide = λ n k. n / k; scale = λ n _. n / 2 }

-- integers stand for tenths: 7 of 10
abbrev tenth_float : Float ℤ
tenth_float = record int_float { of_nat = λ n. pos (n * 10) }

build_windows-AreInOrder_example :
    Returns
      (λ ws. (length ws ≡ 3) × AreInOrder 100 (100 + 900 / 3 * 3) ws)
      (build_windows ⦃o = tenth_float⦄ spans false 100 1_000 3 (pos 7))
build_windows-AreInOrder_example =
    build_windows-AreInOrder ⦃o = tenth_float⦄ spans (pos 7) (λ n. omega arith) false 100 1_000 3
      (omega arith) refl (omega arith)

same_number : (a b : ℕ) → ((a == b) ≡ true) ↔ (a ≡ b)
same_number a b = (eqb→eq a b, λ h. ground arith)

-- numbers as trials, of which the first that remains is drawn
first_drawn : (n q : ℕ) (qs : List ℕ) → is_in ◌==◌ q (q ∷ qs) ≡ true
first_drawn n q qs = ground arith

pick-Returns_example :
    Returns (IsPick ◌==◌ same_number 2 (4 ∷ 5 ∷ 6 ∷ [])) (pick ◌==◌ (λ _ q _. q) 2 (4 ∷ 5 ∷ 6 ∷ []))
pick-Returns_example =
    pick-Returns ◌==◌ same_number (λ _ q _. q) first_drawn 2 (4 ∷ 5 ∷ 6 ∷ []) (omega arith)

-- one value for every key, by which every provider is enabled
abbrev space : Dict (List ℕ)
space = map (λ key. (key, 1 ∷ [])) trial_param_keys

abbrev numbers : Values ℕ
numbers = record { is_on = λ n. not (n == 0); equal = ◌==◌ }

abbrev draw_first : ℕ → Dict ℕ → List (Dict ℕ) → Dict ℕ
draw_first _ q _ = q

has_trial : is_empty numbers draw_first (valid_combos numbers draw_first space none) ≡ false
unfolding product is_valid_provider_trial space_requires_family_filter
has_trial = refl

same_itself : (p : Dict ℕ) → same_params numbers p p ≡ true
same_itself [] = refl
same_itself ((k, n) ∷ p) = ground (arith, eq_refl k, same_itself p)

drawn_in : (n : ℕ) (q : Dict ℕ) (qs : List (Dict ℕ)) → is_in (same_params numbers) q (q ∷ qs) ≡ true
drawn_in n q qs = ground (arith, same_itself q)

generate_trials-AreValid_example :
    Returns
      (λ ts. (length ts ≤ 5) × AreValid numbers same_number (keeps_apart space none) ts)
      (generate_trials numbers draw_first space 5 none)
generate_trials-AreValid_example =
    generate_trials-AreValid numbers same_number draw_first drawn_in space 5 none (omega arith)
      has_trial

-- the result of a cycle with the decision
abbrev cycle_result : CycleResult ℤ
cycle_result = record {
  correlation_id = "cycle_1";
  feature_set = features_of.features;
  context = context;
  snapshot = snap;
  signals = [];
  decision = decision;
  events = events;
  execution_events = [];
}

compute_engine_metrics_total_example :
    let m = compute_engine_metrics (cycle_result ∷ cycle_result ∷ []) events in
    (m.total_cycles ≡ 2)
    × (m.approved + m.rejected ≡ 2)
    × (total_of m.by_reason ≡ m.rejected)
    × (total_of m.by_stage ≡ m.rejected)
compute_engine_metrics_total_example =
    compute_engine_metrics_total (cycle_result ∷ cycle_result ∷ []) events

-- a profit of 5, a loss of 3 and one of 1
abbrev pnls : List ℤ
pnls = pos 5 ∷ negsuc 2 ∷ negsuc 0 ∷ []

drawdowns_deepest_example :
    (drawdowns (pos 100) (pos 0) (pos 0) (equity_curve (pos 100) pnls)).0
    ≡ max (pos 0) (deepest_fall (equity_curve (pos 100) pnls))
drawdowns_deepest_example = drawdowns_deepest (pos 0) (pos 100) pnls

-- a pair of 4 units that is to be closed
abbrev pair : CarryPositionState ℤ
pair = record {
  spot_qty = pos 4;
  perp_qty = pos 4;
  spot_entry_px = pos 100;
  perp_entry_px = pos 101;
  accrued_funding = pos 3;
  flips = 1;
}

abbrev carry_config : CarryManagerConfig ℤ
carry_config = record {
  capital_multiplier = pos 2;
  min_trailing_funding_8h = pos 0;
  rebalance_band = pos 0;
  resize_band = pos 0;
}

abbrev no_target : CarryTarget ℤ
no_target = record { hold = false; target_notional = pos 0 }

plan_leaves_example :
    let after =
      (apply_fill pair (
        fill_of
          (plan carry_config pair no_target (pos 90) (pos 91))
          (pos 90)
          (pos 92)
          (pos 1))).0 in
    (in_market after ≡ false) × (after.flips ≡ (if in_market pair then 2 else 1))
plan_leaves_example =
    plan_leaves carry_config pair no_target (pos 90) (pos 91) (pos 90) (pos 92) (pos 1)
      (record { spot = refl; perp = refl }) refl

-- half of the pair is sold and covered
abbrev half : CarryFill ℤ
half = record {
  spot_fill_qty = negsuc 1;
  spot_fill_px = pos 90;
  perp_fill_qty = negsuc 1;
  perp_fill_px = pos 92;
  fee = pos 1;
}

kept : leb_ℤ (pos 0) (pos 4 +ℤ negsuc 1) ≡ true
unfolding ◌+ℤ◌
kept = refl

apply_fill_equity_example :
    let (after, flow) = apply_fill pair half in
    equity after (pos 50 +ℤ flow) (pos 90) (pos 92)
    ≡ equity pair (pos 50) (pos 90) (pos 92) -ℤ pos 1
apply_fill_equity_example = apply_fill_equity pair half (pos 50) kept refl kept
