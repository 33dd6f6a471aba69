-- ===== src/Validation/Drawdown.antt =====
-- The drawdown of validation/metrics.py, which one pass computes from a running peak, against all pairs of
-- values, in exact arithmetic.
use quantitative_trading.Prelude.{
  ◌≡◌, refl, sym, ap, ◌∙◌, true, List, [], ◌∷◌, arith, if◌then◌else◌,
}
use quantitative_trading.Prelude.Int.{
  ℤ, pos, ◌-ℤ◌, ltb_ℤ, leb_ℤ, ◌*ℤ◌, quot, int_laws, -ℤ_parts, eq_of_parts,
}
use quantitative_trading.Float.{max}
use quantitative_trading.Float.Exact.{int_float}
use quantitative_trading.Validation.Metrics.{drawdowns, curve_from, equity_curve}

-- the deepest fall from this value to a later one, or none
abbrev pub fall_from : ℤ → List ℤ → ℤ
fall_from v [] = pos 0
fall_from v (w ∷ ws) = max (v -ℤ w) (fall_from v ws)

-- the deepest fall from any value to a later one
abbrev pub deepest_fall : List ℤ → ℤ
deepest_fall [] = pos 0
deepest_fall (v ∷ vs) = max (fall_from v vs) (deepest_fall vs)

max_assoc : (a b c : ℤ) → max (max a b) c ≡ max a (max b c)
max_assoc a b c = ground arith

max_comm : (a b : ℤ) → max a b ≡ max b a
max_comm a b = ground (arith, eq_of_parts a b)

max_self : (a : ℤ) → max a a ≡ a
max_self a = ground arith

sub_max : (a b c : ℤ) → max a b -ℤ c ≡ max (a -ℤ c) (b -ℤ c)
sub_max a b c = ground (arith, -ℤ_parts a c, -ℤ_parts b c)

swap_middle : (a b c : ℤ) → max a (max b c) ≡ max b (max a c)
swap_middle a b c = sym (max_assoc a b c) ∙ ap (λ x. max x c) (max_comm a b) ∙ max_assoc b a c

interchange : (a b c d : ℤ) → max (max a b) (max c d) ≡ max (max a c) (max b d)
interchange a b c d =
    max_assoc a b (max c d) ∙ ap (max a) (swap_middle b c d) ∙ sym (max_assoc a c (max b d))

with_zero : (dd x : ℤ) → leb_ℤ (pos 0) dd ≡ true → max dd (max x (pos 0)) ≡ max dd x
with_zero dd x h = ground (arith, eq_of_parts dd (pos 0))

no_less : (dd x : ℤ) → leb_ℤ (pos 0) dd ≡ true → leb_ℤ (pos 0) (max dd x) ≡ true
no_less dd x h = ground arith

no_fall : (dd : ℤ) → leb_ℤ (pos 0) dd ≡ true → dd ≡ max dd (pos 0)
no_fall dd h = ground arith

sub_self : (v : ℤ) → v -ℤ v ≡ pos 0
sub_self v = omega int_laws

fall_from-max :
    (a b : ℤ) (vs : List ℤ) → fall_from (max a b) vs ≡ max (fall_from a vs) (fall_from b vs)
fall_from-max a b [] = refl
fall_from-max a b (v ∷ vs) =
    rw (sub_max a b v, fall_from-max a b vs)
      (interchange (a -ℤ v) (b -ℤ v) (fall_from a vs) (fall_from b vs))

pass :
    (peak dd pct : ℤ) (vs : List ℤ)
    → leb_ℤ (pos 0) dd ≡ true
    → (drawdowns peak dd pct vs).0 ≡ max dd (max (fall_from peak vs) (deepest_fall vs))
unfolding drawdowns
pass peak dd pct [] h = no_fall dd h
pass peak dd pct (v ∷ vs) h =
    let top = max peak v in
    let fall = top -ℤ v in
    let pct' : ℤ = if ltb_ℤ (pos 0) top then max pct (quot fall top *ℤ pos 100) else pct in
    let x = peak -ℤ v in
    let a = fall_from peak vs in
    let b = fall_from v vs in
    let d = deepest_fall vs in
    let drop : fall ≡ max x (pos 0) = sub_max peak v v ∙ ap (max x) (sub_self v) in
    let deep : max dd fall ≡ max dd x = ap (max dd) drop ∙ with_zero dd x h in
    pass top (max dd fall) pct' vs (no_less dd fall h)
    ∙ ap (λ m. max m (max (fall_from top vs) d)) deep
    ∙ ap (λ m. max (max dd x) (max m d)) (fall_from-max peak v vs)
    ∙ max_assoc dd x (max (max a b) d)
    ∙ ap (λ m. max dd (max x m)) (max_assoc a b d)
    ∙ ap (max dd) (sym (max_assoc x a (max b d)))

collapse : (a d : ℤ) → max (pos 0) (max (max (pos 0) a) (max a d)) ≡ max (pos 0) (max a d)
collapse a d = ground arith

-- The drawdown that the pass over an equity curve returns, with the first value as its peak, is the
-- deepest fall of the curve from any of its values to a later one, or zero if it never falls.
pub drawdowns_deepest :
    (pct initial_capital : ℤ) (pnls : List ℤ)
    → (drawdowns initial_capital (pos 0) pct (equity_curve initial_capital pnls)).0
      ≡ max (pos 0) (deepest_fall (equity_curve initial_capital pnls))
unfolding equity_curve
drawdowns_deepest pct initial_capital pnls =
    let rest = curve_from initial_capital pnls in
    let a = fall_from initial_capital rest in
    let d = deepest_fall rest in
    pass initial_capital (pos 0) pct (equity_curve initial_capital pnls) refl
    ∙ ap (λ z. max (pos 0) (max (max z a) (max a d))) (sub_self initial_capital)
    ∙ collapse a d
