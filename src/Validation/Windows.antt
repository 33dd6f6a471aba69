-- ===== src/Validation/Windows.antt =====
-- validation/walk_forward.py and validation/optimization_windows.py. Instants and spans are microseconds.
-- `total / windows` of two `timedelta`s and `timedelta(seconds=… * ratio)` round in ways that the sources
-- do not show: `divide` and `scale` are parameters. `none` is the `ValueError` of a bad argument.
use quantitative_trading.Prelude.{
  ℕ, zero, suc, ◌+◌, ◌-◌, ◌*◌, Bool, not, ◌&&◌, ◌||◌, Option, none, some, List, [], ◌∷◌, ltb, leb,
  if◌then◌else◌,
}
use quantitative_trading.Float.{Float}
use quantitative_trading.Contracts.State.{Instant}
use quantitative_trading.State.Store.{zero_f}

pub record WalkForwardWindow : Type 0 where
  pub index : ℕ
  pub train_start : Instant
  pub train_end : Instant
  pub test_start : Instant
  pub test_end : Instant

-- `total / windows`, and `timedelta(seconds=span.total_seconds() * ratio)`
pub record Spans (F : Type 0) : Type 0 where
  pub divide : ℕ → ℕ → ℕ
  pub scale : ℕ → F → ℕ

module _ {F : Type 0} ⦃o : Float F⦄ (spans : Spans F) where
  -- `0 < ratio < 1`
  abbrev pub is_ratio : F → Bool
  is_ratio ratio = o.lt zero_f ratio && o.lt ratio (o.of_nat 1)

  -- one round of the loop; `anchored` windows train from the start
  abbrev pub window_at :
      (anchored : Bool) (start size : ℕ) (train_ratio : F) → ℕ → WalkForwardWindow
  window_at anchored start size train_ratio i =
      let w_start = start + size * i in
      let w_end = start + size * (i + 1) in
      let train_end = w_start + spans.scale (w_end - w_start) train_ratio in
      record {
        index = i;
        train_start = if anchored then start else w_start;
        train_end = train_end;
        test_start = train_end;
        test_end = w_end;
      }

  -- the loop, from index `i` on with this many rounds to go
  unfoldable pub windows_from :
      (anchored : Bool) (start size : ℕ) (train_ratio : F) → (i rounds : ℕ) → List WalkForwardWindow
  windows_from anchored start size train_ratio i zero = []
  windows_from anchored start size train_ratio i (suc rounds) =
      window_at anchored start size train_ratio i
      ∷ windows_from anchored start size train_ratio (i + 1) rounds

  abbrev pub is_refused : (start end windows : ℕ) → F → Bool
  is_refused start end windows train_ratio =
      ltb windows 1 || not (is_ratio train_ratio) || leb end start

  -- `build_anchored_walk_forward_windows`, and `build_walk_forward_windows` where it is not anchored
  unfoldable pub build_windows :
      (anchored : Bool) (start end windows : ℕ) (train_ratio : F) → Option (List WalkForwardWindow)
  unfolding windows_from
  build_windows anchored start end windows train_ratio =
      if is_refused start end windows train_ratio
      then none
      else some
          (windows_from anchored start (spans.divide (end - start) windows) train_ratio 0 windows)

  unfoldable pub split_train_test : (start end : ℕ) (train_ratio : F) → Option ((ℕ × ℕ) × (ℕ × ℕ))
  split_train_test start end train_ratio =
      let train_end = start + spans.scale (end - start) train_ratio in
      if not (is_ratio train_ratio) || leb end start
      then none
      else some ((start, train_end), (train_end, end))

  unfoldable pub split_holdout :
      (start end : ℕ) (holdout_ratio : F) → Option ((ℕ × ℕ) × Option (ℕ × ℕ))
  split_holdout start end holdout_ratio =
      let opt_end = start + spans.scale (end - start) (o.sub (o.of_nat 1) holdout_ratio) in
      if o.le holdout_ratio zero_f
      then some ((start, end), none)
      else if not (is_ratio holdout_ratio) || leb end start
      then none
      else some ((start, opt_end), some (opt_end, end))
