-- ===== src/Validation/Breakdown.antt =====
-- The counts of validation/metrics.py add up.
use quantitative_trading.Prelude.{
  ◌≡◌, refl, ◌∙◌, ℕ, ◌+◌, true, false, List, [], ◌∷◌, String, str_eq, filter, length, Bool-cases,
  inl, inr, arith,
}
use quantitative_trading.Prelude.Int.{
  ℤ, pos, ◌+ℤ◌, ◌-ℤ◌, leb_ℤ, int_laws, +ℤ_parts, -ℤ_parts, eq_of_parts,
}
use quantitative_trading.Dict.{Dict, get_or, lookup, insert}
use quantitative_trading.Float.{Float}
use quantitative_trading.Float.Exact.{int_float}
use quantitative_trading.Contracts.Decision.{is_approved}
use quantitative_trading.Contracts.Event.{EventEnvelope}
use quantitative_trading.Runtime.State.{CycleResult}
use quantitative_trading.Validation.Metrics.{
  count, Accumulator, empty, observe, observe_all, finalize, compute_engine_metrics, bucket_stats,
  is_win, is_loss,
}

-- what a counter holds in all
abbrev pub total_of : Dict ℕ → ℕ
total_of [] = 0
total_of ((k, n) ∷ d) = n + total_of d

total_of-insert :
    (key : String) (m : ℕ) (d : Dict ℕ)
    → total_of (insert key m d) + get_or d key 0 ≡ total_of d + m
total_of-insert key m [] = omega arith
total_of-insert key m ((k, n) ∷ d) = elim (Bool-cases (str_eq k key)) [
  | inl e ↦ rw (insert, get_or, lookup, e) (omega arith)
  | inr e ↦ rw (insert, get_or, lookup, e) (omega (arith, total_of-insert key m d))
]

total_of-count : (key : String) (d : Dict ℕ) → total_of (count key d) ≡ total_of d + 1
total_of-count key d = omega (arith, total_of-insert key (get_or d key 0 + 1) d)

-- The rejections counted by reason and by stage are those of the cycles that are not approved.
pub record IsBalanced (acc : Accumulator) : Type 0 where
  pub by_reason : total_of acc.rejection_reasons + acc.approved ≡ acc.total
  pub by_stage : total_of acc.rejection_stages + acc.approved ≡ acc.total

module _ {F : Type 0} where
  observe-IsBalanced :
      (c : CycleResult F) (acc : Accumulator) → IsBalanced acc → IsBalanced (observe c acc)
  unfolding observe
  observe-IsBalanced c acc h = elim (Bool-cases (is_approved c.decision)) [
    | inl e ↦
        rw (observe, e)
          (record { by_reason = omega (arith, h.by_reason); by_stage = omega (arith, h.by_stage) })
    | inr e ↦
        rw (observe, e)
          (record {
            by_reason = rw (total_of-count _ acc.rejection_reasons) (omega (arith, h.by_reason));
            by_stage = rw (total_of-count _ acc.rejection_stages) (omega (arith, h.by_stage));
          })
  ]

  observe_all-IsBalanced :
      (cs : List (CycleResult F)) (acc : Accumulator)
      → IsBalanced acc
      → IsBalanced (observe_all cs acc)
  unfolding observe_all
  observe_all-IsBalanced [] acc h = h
  observe_all-IsBalanced (c ∷ cs) acc h = observe_all-IsBalanced cs _ (observe-IsBalanced c acc h)

  observe_all-total :
      (cs : List (CycleResult F)) (acc : Accumulator)
      → (observe_all cs acc).total ≡ acc.total + length cs
  unfolding observe_all observe
  observe_all-total [] acc = omega arith
  observe_all-total (c ∷ cs) acc =
      observe_all-total cs (observe c acc) ∙ elim (Bool-cases (is_approved c.decision)) [
        | inl e ↦ rw (observe, e) (omega arith)
        | inr e ↦ rw (observe, e) (omega arith)
      ]

module _ {F : Type 0} ⦃o : Float F⦄ where
  -- The metrics of a run count each of its cycles once, as an approval or as a rejection, and the
  -- rejections by reason and by stage each add up to all of them.
  pub compute_engine_metrics_total :
      (cs : List (CycleResult F)) (es : List (EventEnvelope F))
      → let m = compute_engine_metrics cs es in
        (m.total_cycles ≡ length cs)
        × (m.approved + m.rejected ≡ length cs)
        × (total_of m.by_reason ≡ m.rejected)
        × (total_of m.by_stage ≡ m.rejected)
  unfolding compute_engine_metrics finalize
  compute_engine_metrics_total cs es =
      let acc = observe_all cs empty in
      let total = observe_all-total cs empty in
      let b =
        observe_all-IsBalanced cs empty
          (record { by_reason = omega arith; by_stage = omega arith }) in
      (
        omega (arith, total),
        omega (arith, total, b.by_reason),
        omega (arith, total, b.by_reason),
        omega (arith, total, b.by_stage),
      )

wins_losses :
    (pnls : List ℤ) → length (filter is_win pnls) + length (filter is_loss pnls) ≡ length pnls
wins_losses [] = omega arith
wins_losses (p ∷ ps) = ground (arith, wins_losses ps)

win_not_loss : (p : ℤ) → is_win p ≡ true → is_loss p ≡ false
win_not_loss p h = ground arith

loss_not_win : (p : ℤ) → is_win p ≡ false → is_loss p ≡ true
loss_not_win p h = ground arith

sum_win : (p w l s : ℤ) → w +ℤ l ≡ s → (p +ℤ w) +ℤ l ≡ p +ℤ s
sum_win p w l s h = rw (← h) (omega int_laws)

sum_loss : (p w l s : ℤ) → w +ℤ l ≡ s → w +ℤ (p +ℤ l) ≡ p +ℤ s
sum_loss p w l s h = rw (← h) (omega int_laws)

abbrev sum : List ℤ → ℤ
sum = int_float.sum

wins_sum : (pnls : List ℤ) → sum (filter is_win pnls) +ℤ sum (filter is_loss pnls) ≡ sum pnls
wins_sum [] = omega int_laws
wins_sum (p ∷ ps) = elim (Bool-cases (is_win p)) [
  | inl e ↦
      rw (e, win_not_loss p e)
        (sum_win p (sum (filter is_win ps)) (sum (filter is_loss ps)) (sum ps) (wins_sum ps))
  | inr e ↦
      rw (e, loss_not_win p e)
        (sum_loss p (sum (filter is_win ps)) (sum (filter is_loss ps)) (sum ps) (wins_sum ps))
]

add_negative :
    (p l : ℤ) → leb_ℤ p (pos 0) ≡ true → leb_ℤ l (pos 0) ≡ true → leb_ℤ (p +ℤ l) (pos 0) ≡ true
add_negative p l h k = ground (arith, +ℤ_parts p l)

losses_negative : (pnls : List ℤ) → leb_ℤ (sum (filter is_loss pnls)) (pos 0) ≡ true
losses_negative [] = refl
losses_negative (p ∷ ps) = elim (Bool-cases (is_loss p)) [
  | inl e ↦ rw e (add_negative p (sum (filter is_loss ps)) e (losses_negative ps))
  | inr e ↦ rw e (losses_negative ps)
]

minus_abs : (w l s : ℤ) → w +ℤ l ≡ s → leb_ℤ l (pos 0) ≡ true → s ≡ w -ℤ int_float.abs l
minus_abs w l s h k = rw (← h) (
    ground (
      arith,
      +ℤ_parts w l,
      -ℤ_parts w (int_float.abs l),
      eq_of_parts (w +ℤ l) (w -ℤ int_float.abs l),
    ))

-- In exact arithmetic the trades of a bucket are its wins and its losses, and its profit and loss is its
-- gross profit less its gross loss.
bucket_stats_balance :
    (pnls : List ℤ)
    → let b = bucket_stats pnls in
      (b.wins + b.losses ≡ b.trades) × (b.pnl ≡ b.gross_profit -ℤ b.gross_loss)
unfolding bucket_stats
bucket_stats_balance pnls = (
  wins_losses pnls,
  minus_abs (sum (filter is_win pnls)) (sum (filter is_loss pnls)) (sum pnls) (wins_sum pnls)
      (losses_negative pnls),
)
