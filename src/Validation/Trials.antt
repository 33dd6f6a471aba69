-- ===== src/Validation/Trials.antt =====
-- `generate_trials` of validation/optimization_space.py. The keys that it has seen are those of what it
-- has picked. `rng.choice` is a parameter: the element that a draw takes of a list that is not empty.
use quantitative_trading.Prelude.{
  ℕ, zero, suc, ◌+◌, ◌-◌, ◌/◌, ◌==◌, Bool, true, false, not, Option, none, some, List, [], ◌∷◌,
  ◌++◌, any, filter, length, ltb, leb, if◌then◌else◌,
}
use quantitative_trading.Dict.{Dict}
use quantitative_trading.Validation.Space.{
  Values, as_dict, product, is_valid_provider_trial, same_params, space_requires_family_filter,
}

module _ {P : Type 0} (same : P → P → Bool) where
  -- `key in seen`
  abbrev pub is_in : P → List P → Bool
  is_in p ps = any (same p) ps

  -- `remaining.remove(choice)`, the first that is equal
  abbrev pub remove : P → List P → List P
  remove p [] = []
  remove p (q ∷ qs) = if same p q then qs else q ∷ remove p qs

  abbrev pub add_new : P → List P → List P
  add_new p picked = if is_in p picked then picked else picked ++ (p ∷ [])

  -- the loop over `range(0, len(all_combos), stride)`: `skip` elements are passed over first
  unfoldable pub pick_grid : (max_trials stride skip : ℕ) → List P → List P → List P
  pick_grid max_trials stride skip [] picked = picked
  pick_grid max_trials stride (suc skip) (p ∷ ps) picked =
      pick_grid max_trials stride skip ps picked
  pick_grid max_trials stride zero (p ∷ ps) picked =
      let next = add_new p picked in
      let rest = pick_grid max_trials stride (stride - 1) ps next in
      if leb max_trials (length next) then next else rest

  module _ (choice : ℕ → P → List P → P) where
    -- `while len(picked) < max_trials and remaining`; `none` where the fuel has run out
    unfoldable pub fill : (fuel max_trials draws : ℕ) (remaining picked : List P) → Option (List P)
    fill zero max_trials draws remaining picked = none
    fill (suc fuel) max_trials draws [] picked = some picked
    fill (suc fuel) max_trials draws (q ∷ qs) picked =
        let p = choice draws q qs in
        let rest = fill fuel max_trials (draws + 1) (remove p (q ∷ qs)) (add_new p picked) in
        if ltb (length picked) max_trials then rest else some picked

    -- from the combinations on, of which there are more than wanted
    unfoldable pub pick : (max_trials : ℕ) → List P → Option (List P)
    unfolding pick_grid fill
    pick max_trials combos =
        let grid = pick_grid max_trials (length combos / max_trials) 0 combos [] in
        let remaining = filter (λ p. not (is_in p grid)) combos in
        fill (length remaining + 1) max_trials 0 remaining grid

module _ {V : Type 0} (values : Values V) (choice : ℕ → Dict V → List (Dict V) → Dict V) where
  -- The test is `require_compatible_family`, or what the space asks for.
  abbrev pub enforce_family : Dict (List V) → Option Bool → Bool
  enforce_family space none = space_requires_family_filter space
  enforce_family space (some given) = given

  abbrev pub is_empty : List (Dict V) → Bool
  is_empty [] = true
  is_empty (_ ∷ _) = false

  abbrev pub valid_combos : Dict (List V) → Option Bool → List (Dict V)
  valid_combos space given =
      filter (is_valid_provider_trial values (enforce_family space given)) (product (as_dict space))

  -- `none` is the `ValueError`, and the `ZeroDivisionError` where no trial is wanted
  unfoldable pub generate_trials :
      Dict (List V) → (max_trials : ℕ) → Option Bool → Option (List (Dict V))
  unfolding product pick
  generate_trials space max_trials given =
      let combos = valid_combos space given in
      if is_empty combos
      then none
      else if leb (length combos) max_trials
      then some combos
      else if max_trials == 0
      then none
      else pick (same_params values) choice max_trials combos
