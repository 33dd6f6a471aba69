-- ===== src/Execution/Returning.antt =====
-- `execute` of execution/simulated.py raises no error in exact arithmetic: a portfolio with no equity, by
-- which the gate would divide, is given no quantity that the gate gets to see.
use quantitative_trading.Prelude.{
  ◌≡◌, refl, Bool, true, false, ◌&&◌, some, Option, List, String, arith, Returns, if-intro,
  if◌then◌else◌, Option-cases, Bool-cases, inl, inr,
}
use quantitative_trading.Prelude.Int.{ℤ, pos, negsuc, ◌*ℤ◌, quot, ◌-ℤ◌, ltb_ℤ, leb_ℤ, eqb_ℤ}
use quantitative_trading.Float.{min, max}
use quantitative_trading.Float.Exact.{int_float}
use quantitative_trading.Contracts.State.{StateSnapshot}
use quantitative_trading.Contracts.Signal.{FinalSignal}
use quantitative_trading.Contracts.Decision.{Decision, is_approved}
use quantitative_trading.Contracts.Execution.{Bar, OrderIntent}
use quantitative_trading.Contracts.Event.{EventEnvelope}
use quantitative_trading.Execution.Simulator.{Engine, Cycle}
use quantitative_trading.Execution.Pricing.{
  position_size, base_quantity, no_distance, max_cash_quantity, max_exposure_quantity,
}
use quantitative_trading.Execution.Gate.{
  GateResult, passed, refused, zero_division, check, check_price, max_open_positions, max_exposure,
  insufficient_cash,
}
use quantitative_trading.Execution.Orders.{
  is_sell, intent_of, settle, submit, execute_signal, execute,
}

is_zero : (x : ℤ) → eqb_ℤ x (pos 0) ≡ true → x ≡ pos 0
is_zero (pos n) h = ground arith
is_zero (negsuc n) h = ground arith

times_zero : (x : ℤ) → x *ℤ pos 0 ≡ pos 0
unfolding ◌*ℤ◌
times_zero (pos n) = ground arith
times_zero (negsuc n) = ground arith

no_part : (entry : ℤ) → leb_ℤ entry (pos 0) ≡ false → quot (pos 0) entry ≡ pos 0
unfolding quot
no_part (pos n) h = ground arith
no_part (negsuc n) h = ground arith

min_zero : (a b : ℤ) → b ≡ pos 0 → ltb_ℤ (pos 0) (min a b) ≡ false
min_zero a b h = ground arith

-- nothing is bought with no equity
no_equity :
    (engine : Engine ℤ) (snapshot : StateSnapshot ℤ) (entry stop_loss size_multiplier : ℤ)
    → eqb_ℤ snapshot.portfolio.equity (pos 0) ≡ true
    → leb_ℤ (position_size engine snapshot entry stop_loss size_multiplier) (pos 0) ≡ true
unfolding position_size
no_equity engine snapshot entry stop_loss size_multiplier h =
    let IsNothing = λ (q : ℤ). leb_ℤ q (pos 0) ≡ true in
    if-intro IsNothing (leb_ℤ entry (pos 0)) (λ _. refl)
      λ priced.
        if-intro IsNothing (no_distance engine entry stop_loss) (λ _. refl)
          λ _.
            let wanted =
              base_quantity engine snapshot entry stop_loss *ℤ max size_multiplier (pos 0) in
            let capped = min wanted (max_cash_quantity snapshot entry) in
            let by_exposure = max_exposure_quantity snapshot entry in
            let left =
              quot
                (max (pos 0)
                  (snapshot.risk.limits.max_exposure_pct -ℤ snapshot.risk.open_exposure_pct))
                (pos 100) in
            let none_left : by_exposure ≡ pos 0 =
              rw (is_zero snapshot.portfolio.equity h, times_zero left) (no_part entry priced) in
            rw (min_zero capped by_exposure none_left) refl

-- anything but the error
abbrev Answers : GateResult → Type 0
Answers zero_division = ⊥
Answers (refused _) = Unit
Answers passed = Unit

Answers-price :
    (no_equity exposed short : Bool)
    → no_equity ≡ false
    → Answers (
        if no_equity
        then zero_division
        else if exposed
        then refused max_exposure
        else if short
        then refused insufficient_cash
        else passed)
Answers-price true exposed short h = cc
Answers-price false true short h = tt
Answers-price false false true h = tt
Answers-price false false false h = tt

Answers-full :
    (full : Bool) (r : GateResult)
    → Answers r
    → Answers (if full then refused max_open_positions else r)
Answers-full true r s = tt
Answers-full false r s = s

check-Answers :
    (intent : OrderIntent ℤ) (price : ℤ) (snapshot : StateSnapshot ℤ)
    → intent.limit_price ≡ some price
    → eqb_ℤ snapshot.portfolio.equity (pos 0) ≡ false
    → Answers (check intent snapshot)
unfolding check
check-Answers intent price snapshot priced h =
    rw (check, priced) (Answers-full _ (check_price intent price snapshot) (Answers-price _ _ _ h))

module _ (decision : Decision ℤ) (snapshot : StateSnapshot ℤ) (bar : Bar ℤ) where
  settle-Returns :
      (gate : GateResult) (signal : FinalSignal ℤ) (cycle : Cycle) (quantity : ℤ)
      (wanted : OrderIntent ℤ) (events : List (EventEnvelope ℤ)) (cause : Option String)
      (engine : Engine ℤ)
      → Answers gate
      → Returns
          (λ _. Unit)
          (settle decision snapshot bar gate signal cycle quantity wanted events cause engine)
  unfolding settle
  settle-Returns zero_division signal cycle quantity wanted events cause engine h = h
  settle-Returns (refused reason) signal cycle quantity wanted events cause engine h = tt
  settle-Returns passed signal cycle quantity wanted events cause engine h = tt

  execute_signal-Returns :
      (signal : FinalSignal ℤ) (cycle : Cycle) (engine : Engine ℤ)
      → Returns (λ _. Unit) (execute_signal decision snapshot bar signal cycle engine)
  unfolding execute_signal submit
  execute_signal-Returns signal cycle engine =
      let quantity =
        position_size engine snapshot signal.entry_price signal.stop_loss signal.size_multiplier in
      let wanted = intent_of engine decision signal snapshot cycle quantity in
      if-intro (Returns (λ _. Unit)) (engine.config.long_only && is_sell signal.side) (λ _. tt)
        λ _.
          if-intro (Returns (λ _. Unit)) (leb_ℤ quantity (pos 0)) (λ _. tt)
            λ bought. settle-Returns (check wanted snapshot) signal cycle quantity wanted _ _ _ (
              check-Answers wanted signal.entry_price snapshot refl
                (elim (Bool-cases (eqb_ℤ snapshot.portfolio.equity (pos 0))) [
                  | inl e ↦ cc (
                      no_equity engine snapshot signal.entry_price signal.stop_loss
                        signal.size_multiplier e)
                  | inr e ↦ e
                ]))

  -- In exact arithmetic `execute` returns for every decision and every snapshot.
  pub execute-Returns :
      (cycle : Cycle) (engine : Engine ℤ)
      → Returns (λ _. Unit) (execute decision snapshot bar cycle engine)
  unfolding execute
  execute-Returns cycle engine = elim (Option-cases decision.final_signal) [
    | inl e ↦ rw e tt
    | inr (signal, e) ↦
        rw (execute, e)
          (if-intro (Returns (λ _. Unit)) (is_approved decision)
            (λ _. execute_signal-Returns signal _ engine) (λ _. tt))
  ]
