-- ===== src/Execution/Fills.antt =====
-- The entries that wait for the next bar, under `process_pending_entries` of
-- execution/simulated_pending.py.
use quantitative_trading.Prelude.{
  ◌≡◌, refl, true, not, none, some, Option, List, [], ◌∷◌, ◌++◌, Bool-cases, inl, inr, map, filter,
  append-nil, append_assoc, ap, ◌∙◌, String, str_eq,
}
use quantitative_trading.Float.{Float, ◌⊕◌, ◌⊖◌, ◌⊗◌, ◌⊘◌}
use quantitative_trading.Contracts.State.{PositionSide, StateSnapshot}
use quantitative_trading.Contracts.Signal.{Side}
use quantitative_trading.Contracts.Execution.{Bar}
use quantitative_trading.State.Transitions.{
  StateTransitionEvent, Transition, position_opened, position_closed, risk_updated,
  portfolio_updated, mark_to_market,
}
use quantitative_trading.Execution.Simulator.{Engine, Cycle, PendingEntry}
use quantitative_trading.Execution.Frame.{open_position-fill_model}
use quantitative_trading.Execution.Pricing.{fill_price}
use quantitative_trading.Execution.Positions.{open_position}
use quantitative_trading.Execution.Pending.{
  Progress, is_for, entry_of, fill_pending, fill_all, process_pending_entries,
}

-- What of a new position its entry decides.
pub record Opening (F : Type 0) : Type 0 where
  pub symbol : String
  pub side : PositionSide
  pub quantity : F
  pub entry_price : F
  pub stop_loss : Option F
  pub take_profit : Option F

module _ {F : Type 0} where
  abbrev pub opening_of : Transition F → Option (Opening F)
  opening_of (position_opened p _ _) = some (record {
    symbol = p.symbol;
    side = p.side;
    quantity = p.quantity;
    entry_price = p.entry_price;
    stop_loss = p.stop_loss;
    take_profit = p.take_profit;
  })
  opening_of (position_closed _ _ _ _) = none
  opening_of (risk_updated _) = none
  opening_of (portfolio_updated _) = none
  opening_of (mark_to_market _) = none

  abbrev pub openings : List (StateTransitionEvent F) → List (Option (Opening F))
  openings ts = map (λ t. opening_of t.transition) ts

  map-append :
      (ts us : List (StateTransitionEvent F)) → openings (ts ++ us) ≡ openings ts ++ openings us
  map-append [] us = refl
  map-append (t ∷ ts) us = ap (λ zs. opening_of t.transition ∷ zs) (map-append ts us)

module _ {F : Type 0} ⦃o : Float F⦄ (bar : Bar F) where
  -- the open of the bar with the slippage, in hundredths of a percent, against the side that trades
  abbrev pub slipped_open : (slippage_bps : F) → Side → F
  slipped_open slippage_bps Side.buy = bar.open_ ⊗ (o.of_nat 1 ⊕ slippage_bps ⊘ o.of_nat 10_000)
  slipped_open slippage_bps Side.sell = bar.open_ ⊗ (o.of_nat 1 ⊖ slippage_bps ⊘ o.of_nat 10_000)

  fill_price-slipped_open :
      (engine : Engine F) (side : Side)
      → fill_price engine bar side true ≡ slipped_open engine.fill_model.slippage_bps side
  unfolding fill_price
  fill_price-slipped_open engine Side.buy = refl
  fill_price-slipped_open engine Side.sell = refl

  -- the position that an entry asks for
  abbrev pub asked : Engine F → PendingEntry F → Option (Opening F)
  asked engine e = some (record {
    symbol = e.symbol;
    side = e.position_side;
    quantity = e.quantity;
    entry_price = slipped_open engine.fill_model.slippage_bps e.side;
    stop_loss = some e.stop_loss;
    take_profit = some e.take_profit;
  })

  module _ (snapshot : StateSnapshot F) (cycle : Cycle) (engine : Engine F) where
    -- what the loop has done after these entries
    record HasFilled (g : Progress F) (ps : List (PendingEntry F)) (g' : Progress F) : Type 0 where
      opened :
          openings g'.transitions
          ≡ openings g.transitions ++ map (asked engine) (filter (is_for cycle.symbol) ps)
      remaining : g'.remaining ≡ g.remaining ++ filter (λ p. not (is_for cycle.symbol p)) ps

    fill_pending-fill_model :
        (p : PendingEntry F) (g : Progress F)
        → (fill_pending bar snapshot cycle p g).engine.fill_model ≡ g.engine.fill_model
    unfolding fill_pending
    fill_pending-fill_model p g = elim (Bool-cases (is_for cycle.symbol p)) [
      | inl e ↦
          rw (fill_pending, e)
            (open_position-fill_model g.engine (entry_of p) bar snapshot cycle none true)
      | inr e ↦ rw (fill_pending, e) refl
    ]

    open_position-asked :
        (e : Engine F) (p : PendingEntry F)
        → e.fill_model ≡ engine.fill_model
        → opening_of
            (open_position e (entry_of p) bar snapshot cycle none true).transition.transition
          ≡ asked engine p
    unfolding open_position
    open_position-asked e p h = rw (fill_price-slipped_open e p.side, h) refl

    fill_pending-HasFilled :
        (p : PendingEntry F) (g : Progress F)
        → g.engine.fill_model ≡ engine.fill_model
        → HasFilled g (p ∷ []) (fill_pending bar snapshot cycle p g)
    unfolding fill_pending
    fill_pending-HasFilled p g h = elim (Bool-cases (is_for cycle.symbol p)) [
      | inl e ↦ record {
        opened =
            rw (fill_pending, e)
              (map-append g.transitions _
                ∙ ap (λ z. openings g.transitions ++ (z ∷ [])) (open_position-asked g.engine p h));
        remaining = rw (fill_pending, e) (rw (append-nil g.remaining) refl);
      }
      | inr e ↦ record {
        opened = rw (fill_pending, e) (rw (append-nil (openings g.transitions)) refl);
        remaining = rw (fill_pending, e) refl;
      }
    ]

    HasFilled-cons :
        (p : PendingEntry F) (ps : List (PendingEntry F)) (g h i : Progress F)
        → HasFilled g (p ∷ []) h
        → HasFilled h ps i
        → HasFilled g (p ∷ ps) i
    HasFilled-cons p ps g h i first later = elim (Bool-cases (is_for cycle.symbol p)) [
      | inl e ↦ record {
        opened =
            rw (e, later.opened, rw e at first.opened) (append_assoc (openings g.transitions) _ _);
        remaining = rw (e, later.remaining, rw e at first.remaining, append-nil g.remaining) refl;
      }
      | inr e ↦ record {
        opened =
            rw (e, later.opened, rw e at first.opened, append-nil (openings g.transitions)) refl;
        remaining = rw (e, later.remaining, rw e at first.remaining) (append_assoc g.remaining _ _);
      }
    ]

    fill_all-HasFilled :
        (ps : List (PendingEntry F)) (g : Progress F)
        → g.engine.fill_model ≡ engine.fill_model
        → HasFilled g ps (fill_all bar snapshot cycle ps g)
    unfolding fill_all
    fill_all-HasFilled [] g h = record {
      opened = rw (append-nil (openings g.transitions)) refl;
      remaining = rw (append-nil g.remaining) refl;
    }
    fill_all-HasFilled (p ∷ ps) g h =
        let g' = fill_pending bar snapshot cycle p g in
        HasFilled-cons p ps g g' _ (fill_pending-HasFilled p g h)
          (fill_all-HasFilled ps g' (fill_pending-fill_model p g ∙ h))

    -- Processing the entries that wait opens one position for each entry of the symbol, in their
    -- order: with the entry's side, quantity and levels, at the open of the bar raised by the slippage for
    -- a buy and lowered by it for a sell. The entries of the other symbols go on waiting, in their order.
    pub process_pending_entries-openings :
        let (result, engine') = process_pending_entries bar snapshot cycle engine in
        (openings result.transitions
          ≡ map (asked engine) (filter (λ p. str_eq p.symbol cycle.symbol) engine.pending_entries))
        × (engine'.pending_entries
            ≡ filter (λ p. not (str_eq p.symbol cycle.symbol)) engine.pending_entries)
    unfolding process_pending_entries
    process_pending_entries-openings =
        let filled =
          fill_all-HasFilled engine.pending_entries
            (record { events = []; transitions = []; remaining = []; engine = engine }) refl in
        (filled.opened, filled.remaining)
