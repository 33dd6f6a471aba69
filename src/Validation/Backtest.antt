-- ===== src/Validation/Backtest.antt =====
-- `run` of validation/harness.py from its bars to the liquidation, in exact arithmetic.
use quantitative_trading.Prelude.{
  ◌≡◌, ℕ, zero, suc, ◌-◌, ◌≤◌, ◌<◌, true, false, some, List, [], ◌∷◌, String, All, length, leb,
  Returns, Keeps, Defined-lax, >>=-Post, arith,
}
use quantitative_trading.Prelude.Int.{ℤ}
use quantitative_trading.Float.{Float}
use quantitative_trading.Float.Exact.{int_float}
use quantitative_trading.Contracts.Signal.{MarketContext}
use quantitative_trading.Execution.Returning.{execute-Returns}
use quantitative_trading.Runtime.State.{RuntimeConfig, RuntimeState, CycleCtx}
use quantitative_trading.Runtime.Counts.{Holds}
use quantitative_trading.Runtime.Returning.{HasIndicators, build_features-Defined}
use quantitative_trading.Validation.Harness.{drop, last, run_bars, liquidate, simulate}
use quantitative_trading.Validation.DailyLimit.{
  limit, IsWithin, IsRun, IsOn, AreCounted, run_bars-IsRun, run_bars-AreCounted, liquidate-IsWithin,
  Builds,
}

length-drop {ℓ} : {A : Type ℓ} (n : ℕ) (xs : List A) → length (drop n xs) ≡ length xs - n
length-drop zero xs = omega arith
length-drop (suc n) [] = omega arith
length-drop (suc n) (x ∷ xs) = omega (arith, length-drop n xs)

All-drop {ℓ κ} : {A : Type ℓ} (P : A → Type κ) (n : ℕ) (xs : List A) → All P xs → All P (drop n xs)
All-drop P zero xs h = h
All-drop P (suc n) [] h = tt
All-drop P (suc n) (x ∷ xs) (_, h) = All-drop P n xs h

last-Defined {ℓ} : {A : Type ℓ} (xs : List A) → 0 < length xs → Returns (λ _. Unit) (last xs)
last-Defined [] h = absurd (omega arith)
last-Defined (x ∷ []) h = tt
last-Defined (x ∷ y ∷ xs) h = last-Defined (y ∷ xs) (omega arith)

module _ (config : RuntimeConfig ℤ) (reflexive : (c : MarketContext ℤ) → config.same c c ≡ true)
    (state : RuntimeState ℤ) where
  abbrev pub Computed : CycleCtx ℤ → Type 0
  Computed ctx = HasIndicators config.features ctx.frame.indicators

  Builds-All : (bars : List (CycleCtx ℤ)) → All Computed bars → All (Builds config true) bars
  Builds-All [] h = tt
  Builds-All (ctx ∷ bars) (h, hs) =
      (build_features-Defined config ctx h reflexive, Builds-All bars hs)

  -- In exact arithmetic a backtest that keeps its cycles, over more bars than the lookback skips,
  -- comes through its bars and the liquidation without an error, where every bar has the indicators
  -- of its context, a context equals itself, and the store holds the runtime's portfolio with no
  -- more signals than the day's limit. Then there is one result for each bar after the lookback, no
  -- decision was approved at the limit, and the limit is kept. Of the metrics computed after that
  -- nothing is said.
  pub simulate-IsRun :
      (skip : ℕ) (end : CycleCtx ℤ → String) (bars : List (CycleCtx ℤ))
      → All Computed bars
      → skip < length bars
      → IsWithin config state
      → Returns (IsRun config (length bars - skip)) (simulate config skip end bars state)
  unfolding simulate
  simulate-IsRun skip end bars computed more within =
      let kept = drop skip bars in
      let many : leb (length bars) skip ≡ false = ground arith in
      rw (many, ← length-drop skip bars)
        (>>=-Post true (IsRun config (length kept)) (IsRun config (length kept))
          (run_bars config kept state) _
          (run_bars-IsRun config true execute-Returns kept state
            (Builds-All kept (All-drop Computed skip bars computed)) within)
          λ (rs, after) (len, allowed, w).
            >>=-Post true (λ _. Unit) (IsRun config (length kept)) (last kept) _
              (last-Defined kept (omega (arith, length-drop skip bars)))
              λ final _.
                >>=-Post true (IsWithin config) (IsRun config (length kept))
                  (liquidate config (record final { cycle_id = end final }) after) _
                  (liquidate-IsWithin config true execute-Returns
                    (record final { cycle_id = end final }) after w)
                  λ closed w'. (len, allowed, w'))

module _ {F : Type 0} ⦃o : Float F⦄ (config : RuntimeConfig F) where
  lax-All : (bars : List (CycleCtx F)) → All (Builds config false) bars
  lax-All [] = tt
  lax-All (ctx ∷ bars) = (λ run. Defined-lax _, lax-All bars)

  -- Over the bars of one day, the first not being the first of the runtime, the store counts the signals
  -- it had and one for each approval, and they stay within the day's limit if they were; so no more
  -- decisions are approved in a day than the limit. An error ends the day without a result.
  pub run_bars_on_day :
      (d n : ℕ) (bars : List (CycleCtx F)) (state : RuntimeState F)
      → All (IsOn config d) bars
      → state.signals_day ≡ some d
      → Holds config n state.store
      → n ≤ limit config
      → Keeps (AreCounted config n) (run_bars config bars state)
  run_bars_on_day d n bars state days on held le =
      run_bars-AreCounted config false (λ _ _ _ _ _. Defined-lax _) d n bars state (lax-All bars)
        days on held le
