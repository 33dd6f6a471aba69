-- ===== src/Validation/Folds.antt =====
-- The windows of validation/walk_forward.py one after the other.
use mathlib.Core.Path.{subst}
use quantitative_trading.Prelude.{
  ◌≡◌, refl, sym, ap, ℕ, zero, suc, ◌+◌, ◌-◌, ◌*◌, ◌≤◌, ◌<◌, Bool, true, false, List, [], ◌∷◌,
  length, if◌then◌else◌, Returns, arith,
}
use quantitative_trading.Float.{Float}
use quantitative_trading.Validation.Windows.{
  WalkForwardWindow, Spans, is_ratio, is_refused, windows_from, build_windows,
}

-- Each window tests after it trains, starts to test no earlier than the one before has ended, and stays
-- within the last end.
abbrev pub AreInOrder : (earliest latest : ℕ) → List WalkForwardWindow → Type 0
AreInOrder earliest latest [] = Unit
AreInOrder earliest latest (w ∷ ws) =
    (w.train_start ≤ w.train_end)
    × (w.train_end ≡ w.test_start)
    × (earliest ≤ w.test_start)
    × (w.test_start ≤ w.test_end)
    × (w.test_end ≤ latest)
    × AreInOrder w.test_end latest ws

times_suc : (n i : ℕ) → n * (i + 1) ≡ n * i + n
times_suc n i = grind arith

times_le : (n i j : ℕ) → n * i ≤ n * (i + j)
times_le n i j = grind arith

shift : (i j : ℕ) → i + suc j ≡ i + 1 + j
shift i j = omega arith

first : (start size : ℕ) → start + size * 0 ≡ start
first start size = grind arith

zero_plus : (n : ℕ) → 0 + n ≡ n
zero_plus n = omega arith

module _ {F : Type 0} ⦃o : Float F⦄ (spans : Spans F) (ratio : F)
    (part : (n : ℕ) → spans.scale n ratio ≤ n) where
  in_order :
      (anchored : Bool) (start size i rounds : ℕ)
      → AreInOrder
          (start + size * i)
          (start + size * (i + rounds))
          (windows_from spans anchored start size ratio i rounds)
  unfolding windows_from
  in_order anchored start size i zero = tt
  in_order anchored start size i (suc rounds) =
      let next : size * (i + 1) ≡ size * i + size = times_suc size i in
      let all_ : size * (i + suc rounds) ≡ size * (i + 1 + rounds) =
        ap (λ n. size * n) (shift i rounds) in
      let more : size * (i + 1) ≤ size * (i + 1 + rounds) = times_le size (i + 1) rounds in
      let fits = part (start + size * (i + 1) - (start + size * i)) in
      let begins : (if anchored then start else start + size * i) ≤ start + size * i =
        ground arith in
      (
        omega (arith, begins),
        refl,
        omega arith,
        omega (arith, fits, next),
        omega (arith, all_, more),
        subst
            (λ n.
              AreInOrder (start + size * (i + 1)) (start + n)
                (windows_from spans anchored start size ratio (i + 1) rounds))
            (sym all_) (in_order anchored start size (i + 1) rounds),
      )

  count :
      (anchored : Bool) (start size i rounds : ℕ)
      → length (windows_from spans anchored start size ratio i rounds) ≡ rounds
  unfolding windows_from
  count anchored start size i zero = refl
  count anchored start size i (suc rounds) = ap suc (count anchored start size (i + 1) rounds)

  -- For at least one window, a ratio strictly between 0 and 1 and an end after the start, there are as
  -- many windows as asked for. They follow one another: each trains up to where it tests, tests from no
  -- earlier than the end of the one before, and the last ends within the size of a window times their
  -- number, if a part of a span is no longer than the span.
  pub build_windows-AreInOrder :
      (anchored : Bool) (start end windows : ℕ)
      → 1 ≤ windows
      → is_ratio spans ratio ≡ true
      → start < end
      → Returns
          (λ ws.
            (length ws ≡ windows)
            × AreInOrder start (start + spans.divide (end - start) windows * windows) ws)
          (build_windows spans anchored start end windows ratio)
  unfolding build_windows
  build_windows-AreInOrder anchored start end windows some_ proper after =
      let size = spans.divide (end - start) windows in
      let good : is_refused spans start end windows ratio ≡ false = rw proper (ground arith) in
      rw (build_windows, good)
        (
          count anchored start size 0 windows,
          subst
              (λ n.
                AreInOrder n (start + size * windows)
                  (windows_from spans anchored start size ratio 0 windows))
              (first start size)
              (subst
                (λ n.
                  AreInOrder (start + size * 0) (start + size * n)
                    (windows_from spans anchored start size ratio 0 windows))
                (zero_plus windows) (in_order anchored start size 0 windows)),
        )
