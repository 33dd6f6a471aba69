-- ===== src/Validation/Ranks.antt =====
-- The ranks of the finalists in validation/optimization_scoring.py, in exact arithmetic.
use mathlib.Core.Option.{some-injective}
use quantitative_trading.Prelude.{
  Option, ◌≡◌, ◌↔◌, ◌⊎◌, refl, sym, ◌∙◌, ℕ, map, ◌≤◌, ltb, true, ◌&&◌, Exists, any-Exists,
  Bool-cases, inl, inr, Bool, false, ◌||◌, none, some, List, [], ◌∷◌, ◌++◌, any, All, arith,
  if◌then◌else◌, Option-cases,
}
use quantitative_trading.Prelude.Int.{ℤ, pos, ◌-ℤ◌, leb_ℤ, ltb_ℤ, -ℤ_parts}
use quantitative_trading.Float.Exact.{int_float}
use quantitative_trading.Validation.Metrics.{Outcome}
use quantitative_trading.Validation.Selection.{
  TrialResult, dominates, is_above, rank, rank_all, assign_pareto_ranks, score, composite_of,
}

-- what the code compares: whether another of these trials dominates the outcome
abbrev IsRanked : List (TrialResult ℤ) → TrialResult ℤ → Type 0
IsRanked all trial = elim trial.test_outcome [
  | none ↦ Unit
  | some outcome ↦ trial.pareto_rank ≡ some (if any (is_above outcome) all then 1 else 0)
]

any-append :
    {A : Type 0} (p : A → Bool) (xs ys : List A) → any p (xs ++ ys) ≡ (any p xs || any p ys)
any-append p [] ys = refl
any-append p (x ∷ xs) ys = ground (arith, any-append p xs ys)

dominates_irreflexive : (a : Outcome ℤ) → dominates a a ≡ false
dominates_irreflexive a = ground arith

rank_keeps :
    (outcome : Outcome ℤ) (others : List (TrialResult ℤ)) (trial : TrialResult ℤ)
    → is_above outcome (rank others trial) ≡ is_above outcome trial
unfolding rank
rank_keeps outcome others trial = elim (Option-cases trial.test_outcome) [
  | inl e ↦ rw e refl
  | inr (o, e) ↦ rw e refl
]

rank_all_keeps :
    (outcome : Outcome ℤ) (before trials : List (TrialResult ℤ))
    → any (is_above outcome) (rank_all before trials) ≡ any (is_above outcome) trials
unfolding rank_all
rank_all_keeps outcome before [] = refl
rank_all_keeps outcome before (t ∷ ts) =
    rw (rank_keeps outcome (before ++ ts) t, rank_all_keeps outcome (before ++ (t ∷ [])) ts) refl

rank-IsRanked :
    (all before rest : List (TrialResult ℤ)) (t : TrialResult ℤ)
    → ((o : Outcome ℤ)
        → any (is_above o) all ≡ (any (is_above o) before || any (is_above o) (t ∷ rest)))
    → IsRanked all (rank (before ++ rest) t)
unfolding rank
rank-IsRanked all before rest t h = elim (Option-cases t.test_outcome) [
  | inl e ↦ rw e tt
  | inr (o, e) ↦
      let alone : is_above o t ≡ false = rw e (dominates_irreflexive o) in
      rw (e, h o, any-append (is_above o) before rest, alone) refl
]

rank_all-IsRanked :
    (all before trials : List (TrialResult ℤ))
    → ((o : Outcome ℤ)
        → any (is_above o) all ≡ (any (is_above o) before || any (is_above o) trials))
    → All (IsRanked all) (rank_all before trials)
unfolding rank_all
rank_all-IsRanked all before [] h = tt
rank_all-IsRanked all before (t ∷ ts) h = (
  rank-IsRanked all before ts t h,
  rank_all-IsRanked all (before ++ (t ∷ [])) ts
      λ o. ground (arith, h o, any-append (is_above o) before (t ∷ [])),
)

assign_pareto_ranks-IsRanked :
    (trials : List (TrialResult ℤ))
    → All (IsRanked (assign_pareto_ranks trials)) (assign_pareto_ranks trials)
unfolding assign_pareto_ranks
assign_pareto_ranks-IsRanked trials =
    rank_all-IsRanked (rank_all [] trials) [] trials λ o. rank_all_keeps o [] trials

-- infinity counts as 10
abbrev pub profit : Option ℤ → ℤ
profit none = pos 10
profit (some x) = x

-- The other outcome is nowhere worse in return, drawdown and profit factor, and better in one of them.
abbrev pub IsOver : Outcome ℤ → Outcome ℤ → Type 0
IsOver a b =
    (leb_ℤ a.return_pct b.return_pct ≡ true)
    × (leb_ℤ b.max_drawdown_pct a.max_drawdown_pct ≡ true)
    × (leb_ℤ (profit a.profit_factor) (profit b.profit_factor) ≡ true)
    × ((ltb_ℤ a.return_pct b.return_pct ≡ true)
        ⊎ (ltb_ℤ b.max_drawdown_pct a.max_drawdown_pct ≡ true)
        ⊎ (ltb_ℤ (profit a.profit_factor) (profit b.profit_factor) ≡ true))

-- the trial was tested with such an outcome
abbrev pub Dominates : Outcome ℤ → TrialResult ℤ → Type 0
Dominates a u = (b : Outcome ℤ) × (u.test_outcome ≡ some b) × IsOver a b

-- A trial that was tested has rank 0 if none of these dominates it, and 1 if one does.
abbrev pub HasRank : List (TrialResult ℤ) → TrialResult ℤ → Type 0
HasRank all t =
    (t.test_outcome ≡ none)
    ⊎ ((o : Outcome ℤ) × (t.test_outcome ≡ some o)
        × (((t.pareto_rank ≡ some 0) × (¬ Exists (Dominates o) all))
            ⊎ ((t.pareto_rank ≡ some 1) × Exists (Dominates o) all)))

profit_lem : (m : Option ℤ) → (elim m [ none ↦ pos 10 | some x ↦ x ]) ≡ profit m
profit_lem none = refl
profit_lem (some x) = refl

flip_le : (a b : ℤ) → leb_ℤ (pos 0 -ℤ a) (pos 0 -ℤ b) ≡ leb_ℤ b a
flip_le a b = ground (arith, -ℤ_parts (pos 0) a, -ℤ_parts (pos 0) b)

flip_lt : (a b : ℤ) → ltb_ℤ (pos 0 -ℤ a) (pos 0 -ℤ b) ≡ ltb_ℤ b a
flip_lt a b = ground (arith, -ℤ_parts (pos 0) a, -ℤ_parts (pos 0) b)

all_and :
    (a b c d e f : Bool)
    → (((a && b && c) && (d || e || f)) ≡ true)
      ↔ ((a ≡ true) × (b ≡ true) × (c ≡ true) × ((d ≡ true) ⊎ (e ≡ true) ⊎ (f ≡ true)))
all_and a b c d e f = ground arith

dominates_iff : (a b : Outcome ℤ) → (dominates b a ≡ true) ↔ IsOver a b
dominates_iff a b =
    rw
      (
        ← profit_lem a.profit_factor,
        ← profit_lem b.profit_factor,
        ← flip_le a.max_drawdown_pct b.max_drawdown_pct,
        ← flip_lt a.max_drawdown_pct b.max_drawdown_pct,
      )
      (all_and _ _ _ _ _ _)

above_at :
    (a : Outcome ℤ) (m : Option (Outcome ℤ))
    → ((elim m [ none ↦ false | some b ↦ dominates b a ]) ≡ true)
      ↔ ((b : Outcome ℤ) × (m ≡ some b) × IsOver a b)
above_at a none = (λ h. absurd (cc h), λ (b, h, _). absurd (cc h))
above_at a (some b) = (
  λ h. (b, refl, (dominates_iff a b).0 h),
  λ (c, same, h). (dominates_iff a b).1 (rw (some-injective _ _ same) h),
)

some_above :
    (a : Outcome ℤ) (all : List (TrialResult ℤ))
    → (any (is_above a) all ≡ true) ↔ Exists (Dominates a) all
some_above a all = any-Exists _ _ all λ u. above_at a u.test_outcome

HasRank-tested :
    (all : List (TrialResult ℤ)) (t : TrialResult ℤ) (a : Outcome ℤ)
    → t.pareto_rank ≡ some (if any (is_above a) all then 1 else 0)
    → ((t.pareto_rank ≡ some 0) × (¬ Exists (Dominates a) all))
      ⊎ ((t.pareto_rank ≡ some 1) × Exists (Dominates a) all)
HasRank-tested all t a h = elim (Bool-cases (any (is_above a) all)) [
  | inl e ↦ inr (rw e at h, (some_above a all).0 e)
  | inr e ↦ inl (rw e at h, λ x. cc (sym e ∙ (some_above a all).1 x))
]

HasRank-IsRanked : (all : List (TrialResult ℤ)) (t : TrialResult ℤ) → IsRanked all t → HasRank all t
HasRank-IsRanked all t h = elim (Option-cases t.test_outcome) [
  | inl e ↦ inl e
  | inr (a, e) ↦ inr (a, e, HasRank-tested all t a (rw e at h))
]

ranked-All : (all ts : List (TrialResult ℤ)) → All (IsRanked all) ts → All (HasRank all) ts
ranked-All all [] h = tt
ranked-All all (t ∷ ts) (h, hs) = (HasRank-IsRanked all t h, ranked-All all ts hs)

pub assign_pareto_ranks-HasRank :
    (trials : List (TrialResult ℤ))
    → All (HasRank (assign_pareto_ranks trials)) (assign_pareto_ranks trials)
assign_pareto_ranks-HasRank trials =
    ranked-All (assign_pareto_ranks trials) (assign_pareto_ranks trials)
      (assign_pareto_ranks-IsRanked trials)

-- A score, if there is one, is that of a trial that was tested with trades enough, and whose returns in
-- training and in the test are no less than wanted.
abbrev pub IsQualified : (min_trades : ℕ) (min_return_pct : ℤ) → TrialResult ℤ → Type 0
IsQualified min_trades min_return_pct t =
    (t.composite_score ≡ none)
    ⊎ ((o : Outcome ℤ) × (t.test_outcome ≡ some o)
        × (min_trades ≤ o.total_trades)
        × (leb_ℤ min_return_pct o.return_pct ≡ true)
        × (leb_ℤ min_return_pct t.train_outcome.return_pct ≡ true))

rank-IsQualified :
    (n : ℕ) (m : ℤ) (others : List (TrialResult ℤ)) (t : TrialResult ℤ)
    → IsQualified n m t
    → IsQualified n m (rank others t)
unfolding rank
rank-IsQualified n m others t h = elim (Option-cases t.test_outcome) [
  | inl e ↦ rw e (rw e at h)
  | inr (o, e) ↦ rw e (rw e at h)
]

rank_all-IsQualified :
    (n : ℕ) (m : ℤ) (before trials : List (TrialResult ℤ))
    → All (IsQualified n m) trials
    → All (IsQualified n m) (rank_all before trials)
unfolding rank_all
rank_all-IsQualified n m before [] h = tt
rank_all-IsQualified n m before (t ∷ ts) (h, hs) =
    (rank-IsQualified n m (before ++ ts) t h, rank_all-IsQualified n m (before ++ (t ∷ [])) ts hs)

score-IsQualified : (n : ℕ) (m : ℤ) (t : TrialResult ℤ) → IsQualified n m (score n m t)
unfolding composite_of
score-IsQualified n m t = elim (Option-cases t.test_outcome) [
  | inl e ↦ inl (rw e refl)
  | inr (o, e) ↦ elim (Bool-cases (ltb o.total_trades n || ltb_ℤ o.return_pct m)) [
    | inl f ↦ inl (rw (e, f) refl)
    | inr f ↦ elim (Bool-cases (ltb_ℤ t.train_outcome.return_pct m)) [
      | inl g ↦ inl (rw (e, f, g) refl)
      | inr g ↦ inr (o, e, ground (arith, f), ground (arith, f), ground (arith, g))
    ]
  ]
]

score-All-IsQualified :
    (n : ℕ) (m : ℤ) (trials : List (TrialResult ℤ)) → All (IsQualified n m) (map (score n m) trials)
score-All-IsQualified n m [] = tt
score-All-IsQualified n m (t ∷ ts) = (score-IsQualified n m t, score-All-IsQualified n m ts)

pub ranked-IsQualified :
    (n : ℕ) (m : ℤ) (trials : List (TrialResult ℤ))
    → All (IsQualified n m) (assign_pareto_ranks (map (score n m) trials))
unfolding assign_pareto_ranks
ranked-IsQualified n m trials =
    rank_all-IsQualified n m [] (map (score n m) trials) (score-All-IsQualified n m trials)
