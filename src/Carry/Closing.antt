-- ===== src/Carry/Closing.antt =====
-- Fills of carry/position_manager.py, in exact arithmetic.
use quantitative_trading.Prelude.{
  ◌≡◌, refl, sym, ap, ◌∙◌, ◌+◌, Bool, true, false, ◌||◌, ◌&&◌, Bool-cases, inl, inr, arith,
  if◌then◌else◌,
}
use quantitative_trading.Prelude.Int.{
  ℤ, pos, ◌+ℤ◌, ◌-ℤ◌, ◌*ℤ◌, ltb_ℤ, leb_ℤ, int_laws, +ℤ_parts, -ℤ_parts, eq_of_parts,
}
use quantitative_trading.Float.{max, min}
use quantitative_trading.Float.Exact.{int_float}
use quantitative_trading.Carry.PositionManager.{
  CarryManagerConfig, CarryPositionState, CarryTarget, CarryFill, RebalancePlan, in_market,
  is_positive, equity, plan, realised, apply_fill,
}
use quantitative_trading.Carry.Products.{add_times, neg_times, zero_times}

-- Neither leg is negative.
pub record IsPair (s : CarryPositionState ℤ) : Type 0 where
  pub spot : leb_ℤ (pos 0) s.spot_qty ≡ true
  pub perp : leb_ℤ (pos 0) s.perp_qty ≡ true

-- the fill of a plan, at some prices and with some fee
abbrev pub fill_of : RebalancePlan ℤ → (spot_px perp_px fee : ℤ) → CarryFill ℤ
fill_of p spot_px perp_px fee = record {
  spot_fill_qty = p.spot_delta_qty;
  spot_fill_px = spot_px;
  perp_fill_qty = p.perp_delta_qty;
  perp_fill_px = perp_px;
  fee = fee;
}

cancels : (q : ℤ) → q +ℤ (pos 0 -ℤ q) ≡ pos 0
cancels q = omega int_laws

plus_zero : (q : ℤ) → q +ℤ pos 0 ≡ q
plus_zero q = omega int_laws

nothing_held : (q : ℤ) → leb_ℤ (pos 0) q ≡ true → ltb_ℤ (pos 0) q ≡ false → q ≡ pos 0
nothing_held q h k = ground (arith, eq_of_parts q (pos 0))

neither : (a b : Bool) → (a || b) ≡ false → (a ≡ false) × (b ≡ false)
neither a b h = ground arith

-- Where the pair is not to be held, filling what is planned leaves the market, at any prices, and counts
-- one flip exactly where the market was left.
pub plan_leaves :
    (config : CarryManagerConfig ℤ) (s : CarryPositionState ℤ) (target : CarryTarget ℤ)
    (spot_px perp_px spot_fill_px perp_fill_px fee : ℤ)
    → IsPair s
    → target.hold ≡ false
    → let after =
        (apply_fill s
          (fill_of (plan config s target spot_px perp_px) spot_fill_px perp_fill_px fee)).0 in
      (in_market after ≡ false) × (after.flips ≡ (if in_market s then s.flips + 1 else s.flips))
unfolding plan apply_fill
plan_leaves config s target spot_px perp_px spot_fill_px perp_fill_px fee pair out =
    elim (Bool-cases (in_market s)) [
      | inl held ↦ rw (out, held, cancels s.spot_qty, cancels s.perp_qty) (refl, ground arith)
      | inr flat ↦
          let (no_spot, no_perp) = neither (is_positive s.spot_qty) (is_positive s.perp_qty) flat in
          rw (out, flat, plus_zero s.spot_qty, plus_zero s.perp_qty) (ground arith, ground arith)
    ]

max_itself : (x : ℤ) → leb_ℤ (pos 0) x ≡ true → max (pos 0) x ≡ x
max_itself x h = ground (arith, eq_of_parts (pos 0) x)

not_positive : (x : ℤ) → leb_ℤ x (pos 0) ≡ true → ltb_ℤ (pos 0) x ≡ false
not_positive x h = ground arith

-- the value of the short leg after a fill that does not increase it
leg_value :
    (n entry px : ℤ) (is_up : Bool) (other : ℤ)
    → leb_ℤ (pos 0) n ≡ true
    → is_up ≡ false
    → max (pos 0) n *ℤ ((if ltb_ℤ (pos 0) n then (if is_up then other else entry) else pos 0) -ℤ px)
      ≡ n *ℤ (entry -ℤ px)
leg_value n entry px is_up other h down = elim (Bool-cases (ltb_ℤ (pos 0) n)) [
  | inl e ↦ rw (max_itself n h, e, down) refl
  | inr e ↦ rw (e, nothing_held n h e) (zero_times (pos 0 -ℤ px) ∙ sym (zero_times (entry -ℤ px)))
]

min_first : (f p : ℤ) → leb_ℤ (pos 0) (p +ℤ f) ≡ true → min (pos 0 -ℤ f) p ≡ pos 0 -ℤ f
min_first f p h = ground (arith, +ℤ_parts p f, -ℤ_parts (pos 0) f)

no_fill :
    (f p : ℤ)
    → leb_ℤ f (pos 0) ≡ true
    → leb_ℤ (pos 0) (p +ℤ f) ≡ true
    → (ltb_ℤ f (pos 0) && ltb_ℤ (pos 0) p) ≡ false
    → f ≡ pos 0
no_fill f p h k e = ground (arith, +ℤ_parts p f, eq_of_parts f (pos 0))

realised_lem :
    (s : CarryPositionState ℤ) (fill : CarryFill ℤ) (flow : ℤ)
    → leb_ℤ fill.perp_fill_qty (pos 0) ≡ true
    → leb_ℤ (pos 0) (s.perp_qty +ℤ fill.perp_fill_qty) ≡ true
    → realised s fill flow
      ≡ flow +ℤ (pos 0 -ℤ fill.perp_fill_qty) *ℤ (s.perp_entry_px -ℤ fill.perp_fill_px)
unfolding ◌-ℤ◌
realised_lem s fill flow down kept =
    let f = fill.perp_fill_qty in
    elim (Bool-cases (ltb_ℤ f (pos 0) && ltb_ℤ (pos 0) s.perp_qty)) [
      | inl e ↦ rw (realised, e, min_first f s.perp_qty kept) refl
      | inr e ↦
          rw (realised, e)
            (sym (plus_zero flow)
              ∙ ap (λ z. flow +ℤ z)
                  (sym (
                    ap (λ g. (pos 0 -ℤ g) *ℤ (s.perp_entry_px -ℤ fill.perp_fill_px))
                      (no_fill f s.perp_qty down kept e)
                    ∙ zero_times (s.perp_entry_px -ℤ fill.perp_fill_px))))
    ]

balance :
    (cash fee acc a b c d : ℤ)
    → cash +ℤ ((pos 0 -ℤ a) -ℤ fee +ℤ (pos 0 -ℤ b)) +ℤ (c +ℤ a) +ℤ (d +ℤ b) +ℤ acc
      ≡ (cash +ℤ c +ℤ d +ℤ acc) -ℤ fee
balance cash fee acc a b c d = omega int_laws

-- A fill that sells no more spot than is held and does not increase the short, nor covers more of it than
-- there is, changes the equity at the prices of the fill by the fee alone, once its cash flow is added.
pub apply_fill_equity :
    (s : CarryPositionState ℤ) (fill : CarryFill ℤ) (cash : ℤ)
    → leb_ℤ (pos 0) (s.spot_qty +ℤ fill.spot_fill_qty) ≡ true
    → leb_ℤ fill.perp_fill_qty (pos 0) ≡ true
    → leb_ℤ (pos 0) (s.perp_qty +ℤ fill.perp_fill_qty) ≡ true
    → let (after, flow) = apply_fill s fill in
      equity after (cash +ℤ flow) fill.spot_fill_px fill.perp_fill_px
      ≡ equity s cash fill.spot_fill_px fill.perp_fill_px -ℤ fill.fee
unfolding equity apply_fill
apply_fill_equity s fill cash sold down kept =
    let q = fill.spot_fill_qty in
    let f = fill.perp_fill_qty in
    let px = fill.spot_fill_px in
    let d = s.perp_entry_px -ℤ fill.perp_fill_px in
    rw
      (
        realised_lem s fill ((pos 0 -ℤ q) *ℤ px -ℤ fill.fee) down kept,
        max_itself (s.spot_qty +ℤ q) sold,
        leg_value (s.perp_qty +ℤ f) s.perp_entry_px fill.perp_fill_px (is_positive f) _ kept
            (not_positive f down),
        neg_times q px,
        neg_times f d,
        add_times s.spot_qty q px,
        add_times s.perp_qty f d,
      )
      (balance cash fill.fee s.accrued_funding (q *ℤ px) (f *ℤ d) (s.spot_qty *ℤ px)
        (s.perp_qty *ℤ d))
