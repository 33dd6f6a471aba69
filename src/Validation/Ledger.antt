-- ===== src/Validation/Ledger.antt =====
-- The rows of the ledger of validation/trades.py against the events, read one by one.
use quantitative_trading.Prelude.{
  ◌≡◌, refl, ap, ◌∙◌, Option, none, some, List, [], ◌∷◌, String, str_eq, All, map, arith,
  if◌then◌else◌,
}
use quantitative_trading.Dict.{Dict, lookup, lookup-insert}
use quantitative_trading.Float.{Float}
use quantitative_trading.Contracts.State.{Instant}
use quantitative_trading.Contracts.Event.{EventEnvelope, ExitReason, ClosedPosition}
use quantitative_trading.Validation.Trades.{
  OpenInfo, Trade, opening, closing, collect_opened, keep_opened, add_trade, trades_of, trade_of,
  field, build_trade_ledger,
}

-- the first of two that is there
abbrev pub later : {A : Type 0} → Option A → Option A → Option A
later (some x) y = some x
later none y = y

later-none : {A : Type 0} (x : Option A) → later x none ≡ x
later-none none = refl
later-none (some x) = refl

module _ {F : Type 0} where
  -- what is kept of an opening, if it is one of this position
  abbrev pub own : String → Option (String × OpenInfo F) → Option (OpenInfo F)
  own i none = none
  own i (some (j, info)) = if str_eq j i then some info else none

  -- the last of the openings of the position
  abbrev pub last_opening : String → List (EventEnvelope F) → Option (OpenInfo F)
  last_opening i [] = none
  last_opening i (e ∷ es) = later (last_opening i es) (own i (opening e))

  -- position, profit and loss, reason and time of a closing
  abbrev pub add_closing :
      EventEnvelope F
      → Option (ClosedPosition F)
      → List (String × F × ExitReason × Instant)
      → List (String × F × ExitReason × Instant)
  add_closing e none rest = rest
  add_closing e (some c) rest = (c.position_id, c.pnl, c.exit_reason, e.event_time) ∷ rest

  abbrev pub closings : List (EventEnvelope F) → List (String × F × ExitReason × Instant)
  closings [] = []
  closings (e ∷ es) = add_closing e (closing e) (closings es)

  keep_opened-later :
      (i : String) (last : Option (OpenInfo F)) (m : Option (String × OpenInfo F))
      (d : Dict (OpenInfo F))
      → later last (lookup i (keep_opened m d)) ≡ later (later last (own i m)) (lookup i d)
  keep_opened-later i (some x) m d = refl
  keep_opened-later i none none d = refl
  keep_opened-later i none (some (j, info)) d = rw (lookup-insert j i info d) (ground arith)

  lookup-collect_opened :
      (i : String) (es : List (EventEnvelope F)) (d : Dict (OpenInfo F))
      → lookup i (collect_opened es d) ≡ later (last_opening i es) (lookup i d)
  unfolding collect_opened
  lookup-collect_opened i [] d = refl
  lookup-collect_opened i (e ∷ es) d =
      lookup-collect_opened i es (keep_opened (opening e) d)
      ∙ keep_opened-later i (last_opening i es) (opening e) d

module _ {F : Type 0} ⦃o : Float F⦄ where
  abbrev summary : Trade F → String × F × ExitReason × Instant
  summary t = (t.position_id, t.pnl, t.exit_reason, t.exit_time)

  add_trade-closing :
      (d : Dict (OpenInfo F)) (e : EventEnvelope F) (m : Option (ClosedPosition F))
      (ts : List (Trade F))
      → map summary (add_trade d e m ts) ≡ add_closing e m (map summary ts)
  unfolding trade_of
  add_trade-closing d e none ts = refl
  add_trade-closing d e (some c) ts = refl

  trades-closings :
      (d : Dict (OpenInfo F)) (es : List (EventEnvelope F))
      → map summary (trades_of d es) ≡ closings es
  unfolding trades_of
  trades-closings d [] = refl
  trades-closings d (e ∷ es) =
      add_trade-closing d e (closing e) (trades_of d es)
      ∙ ap (add_closing e (closing e)) (trades-closings d es)

  abbrev IsEntered : Dict (OpenInfo F) → Trade F → Type 0
  IsEntered d t = t.entry_time ≡ field (λ i. i.entry_time) (lookup t.position_id d)

  add_trade-IsEntered :
      (d : Dict (OpenInfo F)) (e : EventEnvelope F) (m : Option (ClosedPosition F))
      (ts : List (Trade F))
      → All (IsEntered d) ts
      → All (IsEntered d) (add_trade d e m ts)
  unfolding trade_of
  add_trade-IsEntered d e none ts h = h
  add_trade-IsEntered d e (some c) ts h = (refl, h)

  trades-IsEntered :
      (d : Dict (OpenInfo F)) (es : List (EventEnvelope F)) → All (IsEntered d) (trades_of d es)
  unfolding trades_of
  trades-IsEntered d [] = tt
  trades-IsEntered d (e ∷ es) =
      add_trade-IsEntered d e (closing e) (trades_of d es) (trades-IsEntered d es)

  found_last :
      (es : List (EventEnvelope F)) (i : String)
      → lookup i (collect_opened es []) ≡ last_opening i es
  found_last es i = lookup-collect_opened i es [] ∙ later-none (last_opening i es)

  IsEntered-All :
      (es : List (EventEnvelope F)) (ts : List (Trade F))
      → All (IsEntered (collect_opened es [])) ts
      → All (λ t. t.entry_time ≡ field (λ i. i.entry_time) (last_opening t.position_id es)) ts
  IsEntered-All es [] h = tt
  IsEntered-All es (t ∷ ts) (h, hs) =
      (h ∙ ap (field (λ i. i.entry_time)) (found_last es t.position_id), IsEntered-All es ts hs)

  -- The ledger has one row for each closing of a position, in the order of the events, with its profit
  -- and loss, reason and time. The entry time of a row is that of the last event that opens the
  -- position, and none where no event opens it.
  pub build_trade_ledger_lem :
      (es : List (EventEnvelope F))
      → (map
            (λ (t : Trade F). (t.position_id, t.pnl, t.exit_reason, t.exit_time))
            (build_trade_ledger es)
          ≡ closings es)
        × All
            (λ t. t.entry_time ≡ field (λ i. i.entry_time) (last_opening t.position_id es))
            (build_trade_ledger es)
  unfolding build_trade_ledger
  build_trade_ledger_lem es =
      let d = collect_opened es [] in
      (trades-closings d es, IsEntered-All es (trades_of d es) (trades-IsEntered d es))
