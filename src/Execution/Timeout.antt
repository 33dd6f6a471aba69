-- ===== src/Execution/Timeout.antt =====
-- The limit on the bars of a position, under `evaluate_bar` of execution/simulated.py.
use quantitative_trading.Prelude.{
  ◌≡◌, ◌≢◌, ◌<◌, ◌⊎◌, refl, ℕ, ◌+◌, true, false, none, some, Option, List, [], ◌∷◌, String, str_eq,
  eq_iff, eq_refl, arith, All, Bool-cases, Option-cases, inl, inr,
}
use quantitative_trading.Dict.{Dict, lookup, erase, lookup-insert, lookup-erase}
use quantitative_trading.Float.{Float}
use quantitative_trading.Contracts.State.{PositionState, StateSnapshot}
use quantitative_trading.Contracts.Execution.{Bar}
use quantitative_trading.Contracts.Event.{ExitReason}
use quantitative_trading.Execution.Simulator.{Engine, Cycle}
use quantitative_trading.Execution.Frame.{close_position-config, close_position-position_bars}
use quantitative_trading.Execution.Exits.{check_exit, check_levels}
use quantitative_trading.Execution.Simulated.{
  Sweep, close_in, bars_of, count_bar, take_exit, evaluate_position, evaluate_all, evaluate_bar,
}

-- no counter, which is so once the position is closed, or a counter below the limit
abbrev pub IsBelow : ℕ → Option ℕ → Type 0
IsBelow limit none = Unit
IsBelow limit (some n) = n < limit

-- the counter of a position is below the limit of the engine
abbrev pub IsInTime : {F : Type 0} → Engine F → String → Type 0
IsInTime engine i = IsBelow engine.config.max_bars_in_trade (lookup i engine.position_bars)

IsBelow-erase :
    (limit : ℕ) (k i : String) (d : Dict ℕ)
    → IsBelow limit (lookup i d) ⊎ (k ≡ i)
    → IsBelow limit (lookup i (erase k d))
IsBelow-erase limit k i d (inl h) =
    rw (lookup-erase k i d) (elim (Bool-cases (str_eq k i)) [ inl e ↦ rw e tt | inr e ↦ rw e h ])
IsBelow-erase limit k i d (inr same) = rw (lookup-erase k i d, same, eq_refl i) tt

str_ne : (k i : String) → k ≢ i → str_eq k i ≡ false
str_ne k i ne = elim (Bool-cases (str_eq k i)) [
  | inl e ↦ absurd (ne ((eq_iff k i).0 e))
  | inr e ↦ e
]

module _ {F : Type 0} ⦃o : Float F⦄ (bar : Bar F) (snapshot : StateSnapshot F) (cycle : Cycle) where
  closed-IsInTime :
      (i : String) (p : PositionState F) (price : F) (reason : ExitReason) (s : Sweep F)
      → IsInTime s.engine i ⊎ (p.position_id ≡ i)
      → IsInTime (close_in bar snapshot cycle p price reason s).engine i
  closed-IsInTime i p price reason s h =
      rw
        (
          close_position-config s.engine p price reason snapshot cycle,
          close_position-position_bars s.engine p price reason snapshot cycle,
        )
        (IsBelow-erase s.engine.config.max_bars_in_trade p.position_id i s.engine.position_bars h)

  -- without an exit that is due, the counter is below the limit
  no_exit :
      (engine : Engine F) (p : PositionState F) (n : ℕ)
      → check_exit engine p bar n none true ≡ none
      → n < engine.config.max_bars_in_trade
  unfolding check_exit
  no_exit engine p n e = elim (Option-cases (check_levels p bar)) [
    | inl none_due ↦ ground (arith, rw none_due at e)
    | inr (x, due) ↦ ground (arith, rw due at e)
  ]

  take_exit-IsInTime :
      (i : String) (p : PositionState F) (exit : Option (ExitReason × F)) (s : Sweep F)
      → (exit ≡ none → IsInTime s.engine i)
      → IsInTime s.engine i ⊎ (p.position_id ≡ i)
      → IsInTime (take_exit bar snapshot cycle p exit s).engine i
  take_exit-IsInTime i p none s unless h = unless refl
  take_exit-IsInTime i p (some (reason, price)) s unless h = closed-IsInTime i p price reason s h

  -- the counter of the round's own position
  counted :
      (p : PositionState F) (engine : Engine F)
      → lookup p.position_id (count_bar bar snapshot cycle true p engine).position_bars
        ≡ some (bars_of bar snapshot cycle p engine + 1)
  counted p engine =
      rw
        (
          lookup-insert p.position_id p.position_id (bars_of bar snapshot cycle p engine + 1)
              engine.position_bars,
          eq_refl p.position_id,
        )
        refl

  evaluate_position_self :
      (p : PositionState F) (s : Sweep F)
      → str_eq p.symbol cycle.symbol ≡ true
      → IsInTime (evaluate_position bar snapshot cycle none true p s).engine p.position_id
  unfolding evaluate_position
  evaluate_position_self p s h =
      let engine' = count_bar bar snapshot cycle true p s.engine in
      let n = bars_of bar snapshot cycle p s.engine + 1 in
      rw (evaluate_position, h)
        (take_exit-IsInTime p.position_id p (check_exit engine' p bar n none true)
          (record s { engine = engine' }) (λ e. rw (counted p s.engine) (no_exit engine' p n e))
          (inr refl))

  evaluate_position-other :
      (i : String) (p : PositionState F) (s : Sweep F)
      → p.position_id ≢ i
      → IsInTime s.engine i
      → IsInTime (evaluate_position bar snapshot cycle none true p s).engine i
  unfolding evaluate_position
  evaluate_position-other i p s ne h = elim (Bool-cases (str_eq p.symbol cycle.symbol)) [
    | inl e ↦
        let engine' = count_bar bar snapshot cycle true p s.engine in
        let n = bars_of bar snapshot cycle p s.engine + 1 in
        let kept : IsInTime engine' i =
          rw (lookup-insert p.position_id i n s.engine.position_bars, str_ne p.position_id i ne)
            h in
        rw (evaluate_position, e)
          (take_exit-IsInTime i p (check_exit engine' p bar n none true)
            (record s { engine = engine' }) (λ _. kept) (inl kept))
    | inr e ↦ rw (evaluate_position, e) h
  ]

  evaluate_position-IsInTime :
      (i : String) (p : PositionState F) (s : Sweep F)
      → IsInTime s.engine i
      → IsInTime (evaluate_position bar snapshot cycle none true p s).engine i
  unfolding evaluate_position
  evaluate_position-IsInTime i p s h = elim (Bool-cases (str_eq p.position_id i)) [
    | inl same ↦ elim (Bool-cases (str_eq p.symbol cycle.symbol)) [
      | inl e ↦ rw (← (eq_iff p.position_id i).0 same) (evaluate_position_self p s e)
      | inr e ↦ rw (evaluate_position, e) h
    ]
    | inr other ↦ evaluate_position-other i p s (λ same. ground (arith, eq_iff p.position_id i)) h
  ]

  evaluate_all-keeps :
      (i : String) (ps : List (PositionState F)) (s : Sweep F)
      → IsInTime s.engine i
      → IsInTime (evaluate_all bar snapshot cycle none true ps s).engine i
  unfolding evaluate_all
  evaluate_all-keeps i [] s h = h
  evaluate_all-keeps i (p ∷ ps) s h = evaluate_all-keeps i ps _ (evaluate_position-IsInTime i p s h)

  abbrev pub AreInTime : List (PositionState F) → Engine F → Type 0
  AreInTime ps engine =
      All (λ p. str_eq p.symbol cycle.symbol ≡ true → IsInTime engine p.position_id) ps

  evaluate_all-AreInTime :
      (ps : List (PositionState F)) (s : Sweep F)
      → AreInTime ps (evaluate_all bar snapshot cycle none true ps s).engine
  unfolding evaluate_all
  evaluate_all-AreInTime [] s = tt
  evaluate_all-AreInTime (p ∷ ps) s = (
    λ e. evaluate_all-keeps p.position_id ps _ (evaluate_position_self p s e),
    evaluate_all-AreInTime ps _,
  )

  -- After the bar of a symbol has been counted, each open position of the symbol in the snapshot is left
  -- without a counter, which it is once closed, or its counter is below `max_bars_in_trade`.
  pub evaluate_bar-AreInTime :
      (engine : Engine F)
      → AreInTime snapshot.portfolio.open_positions
          (evaluate_bar bar snapshot cycle none true engine).1
  unfolding evaluate_bar
  evaluate_bar-AreInTime engine = evaluate_all-AreInTime snapshot.portfolio.open_positions _
