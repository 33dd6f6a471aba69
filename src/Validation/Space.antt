-- ===== src/Validation/Space.antt =====
-- The parameters of a trial and their combinations, in validation/optimization_space.py. What a value is,
-- whether `int(value)` is not zero and when two values are equal are parameters.
use quantitative_trading.Prelude.{
  Bool, false, not, ◌&&◌, none, some, List, [], ◌∷◌, ◌++◌, String, map, any, filter, length, ltb,
  leb, str_eq, if◌then◌else◌,
}
use quantitative_trading.Dict.{Dict, lookup, get_or}

abbrev pub trial_param_keys : List String
trial_param_keys =
    "min_confidence" ∷ "min_risk_reward" ∷ "min_agreeing_providers" ∷ "sl_atr_mult" ∷ "tp_atr_mult"
    ∷ "max_bars_in_trade" ∷ "oversold" ∷ "overbought" ∷ "risk_pct_per_trade" ∷ "min_atr_pct"
    ∷ "session_preset" ∷ "max_signals_per_day" ∷ "ema_fast" ∷ "ema_slow" ∷ "rsi_period"
    ∷ "ema_weight" ∷ "rsi_weight" ∷ "ema_enabled" ∷ "rsi_enabled" ∷ "macd_fast" ∷ "macd_slow"
    ∷ "macd_signal_period" ∷ "macd_weight" ∷ "macd_enabled" ∷ "require_signal_align"
    ∷ "min_histogram_slope" ∷ "adx_period" ∷ "adx_weight" ∷ "adx_enabled" ∷ "min_adx"
    ∷ "min_di_spread" ∷ "adx_require_trend" ∷ "bb_period" ∷ "bb_std" ∷ "bb_weight" ∷ "bb_enabled"
    ∷ "bb_avoid_high_vol" ∷ "bb_max_adx" ∷ "st_period" ∷ "st_multiplier" ∷ "st_weight"
    ∷ "st_enabled" ∷ "st_require_trend" ∷ "vol_period" ∷ "vol_weight" ∷ "vol_enabled" ∷ "min_cmf"
    ∷ "min_volume_ratio" ∷ "vol_require_price_align" ∷ "ms_pivot_bars" ∷ "ms_weight" ∷ "ms_enabled"
    ∷ "ms_require_bos" ∷ "ms_require_trend" ∷ []

abbrev pub provider_enabled_keys : List String
provider_enabled_keys =
    "ema_enabled" ∷ "rsi_enabled" ∷ "macd_enabled" ∷ "adx_enabled" ∷ "bb_enabled" ∷ "st_enabled"
    ∷ "vol_enabled" ∷ "ms_enabled" ∷ []

abbrev pub trend_family_keys : List String
trend_family_keys =
    "ema_enabled" ∷ "macd_enabled" ∷ "adx_enabled" ∷ "st_enabled" ∷ "ms_enabled" ∷ []

abbrev pub reversion_family_keys : List String
reversion_family_keys = "bb_enabled" ∷ "rsi_enabled" ∷ []

pub record Values (V : Type 0) : Type 0 where
  pub is_on : V → Bool
  pub equal : V → V → Bool

module _ {V : Type 0} (values : Values V) where
  -- `int(params.get(key, 0))` as a condition
  abbrev pub is_enabled : Dict V → String → Bool
  is_enabled params key = elim (lookup key params) [ none ↦ false | some v ↦ values.is_on v ]

  unfoldable pub has_any_provider_enabled : Dict V → Bool
  has_any_provider_enabled params = any (is_enabled params) provider_enabled_keys

  unfoldable pub has_compatible_provider_family : Dict V → Bool
  has_compatible_provider_family params =
      let has_trend = any (is_enabled params) trend_family_keys in
      let has_reversion = any (is_enabled params) reversion_family_keys in
      not (has_trend && has_reversion)

  unfoldable pub is_valid_provider_trial : (require_compatible_family : Bool) → Dict V → Bool
  unfolding has_any_provider_enabled has_compatible_provider_family
  is_valid_provider_trial require_compatible_family params =
      if not (has_any_provider_enabled params)
      then false
      else not (require_compatible_family && not (has_compatible_provider_family params))

  -- equality of two combinations of the same keys: `tuple(sorted(params.items()))`
  abbrev pub same_params : Dict V → Dict V → Bool
  same_params [] [] = Bool.true
  same_params [] (_ ∷ _) = false
  same_params (_ ∷ _) [] = false
  same_params ((k, v) ∷ ps) ((j, w) ∷ qs) = str_eq k j && values.equal v w && same_params ps qs

module _ {V : Type 0} where
  -- `as_dict`, of a space that has a list of values for each key
  abbrev pub as_dict : Dict (List V) → Dict (List V)
  as_dict space = map (λ key. (key, get_or space key [])) trial_param_keys

  abbrev pub extend : String → List V → List (Dict V) → List (Dict V)
  extend key [] combos = []
  extend key (v ∷ vs) combos = map (λ combo. (key, v) ∷ combo) combos ++ extend key vs combos

  -- `itertools.product(*values)`, as dictionaries
  unfoldable pub product : Dict (List V) → List (Dict V)
  product [] = [] ∷ []
  product ((key, vs) ∷ rest) = extend key vs (product rest)

  unfoldable pub space_requires_family_filter : Dict (List V) → Bool
  space_requires_family_filter space =
      let togglable =
        length (filter (λ key. ltb 1 (length (get_or space key []))) provider_enabled_keys) in
      leb 2 togglable
