-- ===== src/Validation/Generated.antt =====
-- `generate_trials` of validation/optimization_space.py from the space to the trials.
use mathlib.Core.Option.{some-injective}
use quantitative_trading.Prelude.{
  ◌≡◌, ◌↔◌, ◌⊎◌, refl, sym, ◌∙◌, Exists, any-Exists, any, not, ◌&&◌, if◌then◌else◌, String, none,
  some, ℕ, ◌≤◌, ◌<◌, ◌==◌, Bool, true, false, Option, List, [], ◌∷◌, eq_iff, All, filter, length,
  leb, ltb, if-intro, Returns, Post-map, Bool-cases, inl, inr, arith, leb→le,
}
use quantitative_trading.Dict.{Dict, lookup, get_or}
use quantitative_trading.Validation.Space.{
  Values, same_params, is_valid_provider_trial, is_enabled, provider_enabled_keys,
  trend_family_keys, reversion_family_keys, space_requires_family_filter,
}
use quantitative_trading.Validation.Trials.{
  is_in, pick, enforce_family, valid_combos, is_empty, generate_trials,
}
use quantitative_trading.Validation.Picked.{AreIn, IsPick, pick-Returns}

-- Families are kept apart where that is asked for, or where nothing is and two of the providers or more
-- have several values to try.
abbrev pub keeps_apart : {V : Type 0} → Dict (List V) → Option Bool → Bool
keeps_apart space (some given) = given
keeps_apart space none = leb 2 (
    length (
      filter (λ key. ltb 1 (length (get_or space key [])))
        ("ema_enabled" ∷ "rsi_enabled" ∷ "macd_enabled" ∷ "adx_enabled" ∷ "bb_enabled"
          ∷ "st_enabled" ∷ "vol_enabled" ∷ "ms_enabled" ∷ [])))

module _ {V : Type 0} (values : Values V)
    (equal_iff : (a b : V) → (values.equal a b ≡ true) ↔ (a ≡ b)) where
  same_params_iff : (a b : Dict V) → (same_params values a b ≡ true) ↔ (a ≡ b)
  same_params_iff [] [] = (λ _. refl, λ _. refl)
  same_params_iff [] (_ ∷ _) = (λ h. cc, λ h. cc)
  same_params_iff (_ ∷ _) [] = (λ h. cc, λ h. cc)
  same_params_iff ((k, v) ∷ ps) ((j, w) ∷ qs) = (
    λ h. ground (arith, eq_iff k j, equal_iff v w, same_params_iff ps qs),
    λ h. ground (arith, eq_iff k j, equal_iff v w, same_params_iff ps qs),
  )

  -- the tests of the code
  abbrev Passes : Bool → List (Dict V) → Type 0
  Passes family ts = All (λ t. is_valid_provider_trial values family t ≡ true) ts

  filter_valid :
      (family : Bool) (ts : List (Dict V))
      → Passes family (filter (is_valid_provider_trial values family) ts)
  filter_valid family [] = tt
  filter_valid family (t ∷ ts) = elim (Bool-cases (is_valid_provider_trial values family t)) [
    | inl e ↦ rw e (e, filter_valid family ts)
    | inr e ↦ rw e (filter_valid family ts)
  ]

  in_valid :
      (family : Bool) (t : Dict V) (ts : List (Dict V))
      → Passes family ts
      → is_in (same_params values) t ts ≡ true
      → is_valid_provider_trial values family t ≡ true
  in_valid family t [] h k = cc
  in_valid family t (u ∷ us) (h, hs) k = elim (Bool-cases (same_params values t u)) [
    | inl e ↦ rw ((same_params_iff t u).0 e) h
    | inr e ↦ in_valid family t us hs (rw e at k)
  ]

  all_valid :
      (family : Bool) (ts us : List (Dict V))
      → Passes family ts
      → AreIn (same_params values) same_params_iff ts us
      → Passes family us
  all_valid family ts [] h k = tt
  all_valid family ts (u ∷ us) h (k, ks) = (in_valid family u ts h k, all_valid family ts us h ks)

  -- the parameter is there and not zero
  abbrev pub IsOn : Dict V → String → Type 0
  IsOn t key = (v : V) × (lookup key t ≡ some v) × (values.is_on v ≡ true)

  on_iff :
      (m : Option V)
      → ((elim m [ none ↦ false | some v ↦ values.is_on v ]) ≡ true)
        ↔ ((v : V) × (m ≡ some v) × (values.is_on v ≡ true))
  on_iff none = (λ h. absurd (cc h), λ (v, h, _). absurd (cc h))
  on_iff (some v) = (λ h. (v, refl, h), λ (w, same, h). rw (some-injective _ _ same) h)

  enabled_iff : (t : Dict V) (key : String) → (is_enabled values t key ≡ true) ↔ IsOn t key
  enabled_iff t key = on_iff (lookup key t)

  -- one of the providers is enabled; and where families are kept apart, not one of each
  abbrev pub IsValid : (family : Bool) → Dict V → Type 0
  IsValid family t =
      Exists (IsOn t) (
        "ema_enabled" ∷ "rsi_enabled" ∷ "macd_enabled" ∷ "adx_enabled" ∷ "bb_enabled" ∷ "st_enabled"
        ∷ "vol_enabled" ∷ "ms_enabled" ∷ [])
      × ((family ≡ false)
          ⊎ (¬ Exists (IsOn t)
              ("ema_enabled" ∷ "macd_enabled" ∷ "adx_enabled" ∷ "st_enabled" ∷ "ms_enabled" ∷ []))
          ⊎ (¬ Exists (IsOn t) ("bb_enabled" ∷ "rsi_enabled" ∷ [])))

  abbrev pub AreValid : Bool → List (Dict V) → Type 0
  AreValid family ts = All (IsValid family) ts

  some-IsOn :
      (t : Dict V) (keys : List String)
      → (any (is_enabled values t) keys ≡ true) ↔ Exists (IsOn t) keys
  some-IsOn t keys = any-Exists _ _ keys (enabled_iff t)

  apart :
      (has trend reversion family : Bool)
      → (if not has then false else not (family && not (not (trend && reversion)))) ≡ true
      → (has ≡ true) × ((family ≡ false) ⊎ (trend ≡ false) ⊎ (reversion ≡ false))
  apart has trend reversion family h = ground arith

  tests_lem :
      (family : Bool) (t : Dict V)
      → is_valid_provider_trial values family t ≡ true
      → (any (is_enabled values t) provider_enabled_keys ≡ true)
        × ((family ≡ false)
            ⊎ (any (is_enabled values t) trend_family_keys ≡ false)
            ⊎ (any (is_enabled values t) reversion_family_keys ≡ false))
  unfolding is_valid_provider_trial
  tests_lem family t h =
      apart (any (is_enabled values t) provider_enabled_keys)
        (any (is_enabled values t) trend_family_keys)
        (any (is_enabled values t) reversion_family_keys) family h

  passed :
      (family : Bool) (t : Dict V)
      → is_valid_provider_trial values family t ≡ true
      → IsValid family t
  passed family t h =
      let (on, kept) = tests_lem family t h in
      (
        (some-IsOn t provider_enabled_keys).0 on,
        elim kept [
          | inl f ↦ inl f
          | inr (inl a) ↦ inr (inl λ e. cc (sym a ∙ (some-IsOn t trend_family_keys).1 e))
          | inr (inr b) ↦ inr (inr λ e. cc (sym b ∙ (some-IsOn t reversion_family_keys).1 e))
        ],
      )

  passed_all : (family : Bool) (ts : List (Dict V)) → Passes family ts → AreValid family ts
  passed_all family [] h = tt
  passed_all family (t ∷ ts) (h, hs) = (passed family t h, passed_all family ts hs)

  module _ (choice : ℕ → Dict V → List (Dict V) → Dict V)
      (choice_in : (n : ℕ) (q : Dict V) (qs : List (Dict V))
        → is_in (same_params values) (choice n q qs) (q ∷ qs) ≡ true) where
    enforces :
        (space : Dict (List V)) (given : Option Bool)
        → enforce_family values choice space given ≡ keeps_apart space given
    unfolding space_requires_family_filter
    enforces space none = refl
    enforces space (some given) = refl

    -- Where a trial is wanted and the space has a valid combination, there is no error: at most as many
    -- trials as wanted come out, each has one of the eight providers enabled, and none has one of the five
    -- of trend and one of the two of reversion where that is forbidden.
    pub generate_trials-AreValid :
        (space : Dict (List V)) (max_trials : ℕ) (given : Option Bool)
        → 0 < max_trials
        → is_empty values choice (valid_combos values choice space given) ≡ false
        → Returns
            (λ ts. (length ts ≤ max_trials) × AreValid (keeps_apart space given) ts)
            (generate_trials values choice space max_trials given)
    unfolding generate_trials
    generate_trials-AreValid space max_trials given wanted some_ =
        let combos = valid_combos values choice space given in
        let family = enforce_family values choice space given in
        let valid : Passes family combos = filter_valid family _ in
        let Good = λ (ts : List (Dict V)). (length ts ≤ max_trials) × AreValid family ts in
        rw (generate_trials, some_, ← enforces space given)
          (if-intro (Returns Good) (leb (length combos) max_trials)
            (λ few. (leb→le (length combos) max_trials few, passed_all family combos valid))
            λ _.
              if-intro (Returns Good) (max_trials == 0)
                (λ zero_. absurd (not_zero max_trials zero_ wanted))
                λ _.
                  Post-map true (IsPick (same_params values) same_params_iff max_trials combos) Good
                    (pick (same_params values) choice max_trials combos)
                    (λ ts p.
                      (p.bounded, passed_all family ts (all_valid family combos ts valid p.chosen)))
                    (pick-Returns (same_params values) same_params_iff choice choice_in max_trials
                      combos wanted))
      where
        not_zero : (n : ℕ) → (n == 0) ≡ true → 0 < n → ⊥
        not_zero n h k = ground arith
