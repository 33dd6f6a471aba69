-- ===== src/Validation/Picked.antt =====
-- The trials that `generate_trials` of validation/optimization_space.py picks.
use quantitative_trading.Prelude.{
  ◌≡◌, ◌↔◌, refl, sym, ◌∙◌, ℕ, zero, suc, ◌+◌, ◌-◌, ◌/◌, ◌≤◌, ◌<◌, Bool, true, false, not, ◌||◌,
  List, [], ◌∷◌, ◌++◌, All, All-append, filter, length, length-append, ltb, leb, if-intro, Returns,
  Bool-cases, inl, inr, arith, ltb→lt,
}
use quantitative_trading.Validation.Trials.{is_in, remove, add_new, pick_grid, fill, pick}

module _ {P : Type 0} (same : P → P → Bool)
    (same_iff : (a b : P) → (same a b ≡ true) ↔ (a ≡ b)) where
  -- no two are the same
  abbrev pub AreDistinct : List P → Type 0
  AreDistinct [] = Unit
  AreDistinct (p ∷ ps) = (is_in same p ps ≡ false) × AreDistinct ps

  -- each of these is among those
  abbrev pub AreIn : List P → List P → Type 0
  AreIn all ps = All (λ p. is_in same p all ≡ true) ps

  -- each is picked or remains
  abbrev AreCovered : (remaining picked all : List P) → Type 0
  AreCovered remaining picked all =
      All (λ c. (is_in same c picked || is_in same c remaining) ≡ true) all

  -- What is picked of the combinations: they differ, there are no more than wanted, and none is left out
  -- where there are fewer.
  pub record IsPick (max_trials : ℕ) (all picked : List P) : Type 0 where
    pub distinct : AreDistinct picked
    pub bounded : length picked ≤ max_trials
    pub chosen : AreIn all picked
    pub exhaustive : length picked < max_trials → AreIn picked all

  same_refl : (p : P) → same p p ≡ true
  same_refl p = (same_iff p p).1 refl

  same_sym : (p q : P) → same p q ≡ false → same q p ≡ false
  same_sym p q h = elim (Bool-cases (same q p)) [
    | inl e ↦ absurd (clash (sym h ∙ (same_iff p q).1 (sym ((same_iff q p).0 e))))
    | inr e ↦ e
  ]
    where
      clash : false ≡ true → ⊥
      clash e = cc

  is_in-append :
      (p : P) (ps qs : List P) → is_in same p (ps ++ qs) ≡ (is_in same p ps || is_in same p qs)
  is_in-append p [] qs = refl
  is_in-append p (q ∷ ps) qs = ground (arith, is_in-append p ps qs)

  distinct_add :
      (p : P) (ps : List P)
      → is_in same p ps ≡ false
      → AreDistinct ps
      → AreDistinct (ps ++ (p ∷ []))
  distinct_add p [] new h = (refl, tt)
  distinct_add p (q ∷ ps) new (h, hs) = (
    rw (is_in-append q ps (p ∷ [])) (ground (arith, same_sym p q)),
    distinct_add p ps (ground arith) hs,
  )

  length-remove :
      (p : P) (ps : List P) → is_in same p ps ≡ true → length (remove same p ps) + 1 ≡ length ps
  length-remove p [] h = cc
  length-remove p (q ∷ ps) h = ground (arith, length-remove p ps)

  -- what is removed is the same as the choice
  in_remove :
      (c p : P) (ps : List P)
      → is_in same c ps ≡ true
      → (same c p || is_in same c (remove same p ps)) ≡ true
  in_remove c p [] h = cc
  in_remove c p (q ∷ ps) h = elim (Bool-cases (same p q)) [
    | inl e ↦ rw (remove, e) (rw (← (same_iff p q).0 e) at h)
    | inr e ↦ rw (remove, e) (ground (arith, in_remove c p ps))
  ]

  remove_in : (all ps : List P) (p : P) → AreIn all ps → AreIn all (remove same p ps)
  remove_in all [] p h = tt
  remove_in all (q ∷ ps) p (h, hs) = elim (Bool-cases (same p q)) [
    | inl e ↦ rw (remove, e) hs
    | inr e ↦ rw (remove, e) (h, remove_in all ps p hs)
  ]

  in_trans :
      (all ps : List P) (p : P) → AreIn all ps → is_in same p ps ≡ true → is_in same p all ≡ true
  in_trans all [] p h k = cc
  in_trans all (q ∷ ps) p (h, hs) k = elim (Bool-cases (same p q)) [
    | inl e ↦ rw ((same_iff p q).0 e) h
    | inr e ↦ in_trans all ps p hs (rw e at k)
  ]

  add_covers :
      (c p : P) (ps : List P)
      → (is_in same c ps || same c p) ≡ true
      → is_in same c (add_new same p ps) ≡ true
  add_covers c p ps h = elim (Bool-cases (is_in same p ps)) [
    | inl e ↦ elim (Bool-cases (same c p)) [
      | inl s ↦ rw (add_new, e, (same_iff c p).0 s) e
      | inr s ↦ rw (add_new, e) (ground arith)
    ]
    | inr e ↦ rw (add_new, e, is_in-append c ps (p ∷ [])) (ground arith)
  ]

  covered_next :
      (p : P) (remaining picked all : List P)
      → AreCovered remaining picked all
      → AreCovered (remove same p remaining) (add_new same p picked) all
  covered_next p remaining picked [] h = tt
  covered_next p remaining picked (c ∷ all) (h, hs) = (
    ground (arith, in_remove c p remaining, add_covers c p picked),
    covered_next p remaining picked all hs,
  )

  add_distinct : (p : P) (ps : List P) → AreDistinct ps → AreDistinct (add_new same p ps)
  add_distinct p ps h =
      if-intro AreDistinct (is_in same p ps) (λ _. h) (λ new. distinct_add p ps new h)

  add_bounded :
      (max_trials : ℕ) (p : P) (ps : List P)
      → length ps < max_trials
      → length (add_new same p ps) ≤ max_trials
  add_bounded max_trials p ps h =
      if-intro (λ qs. length qs ≤ max_trials) (is_in same p ps) (λ _. omega arith)
        (λ _. rw (length-append ps (p ∷ [])) (omega arith))

  add_in :
      (all : List P) (p : P) (ps : List P)
      → is_in same p all ≡ true
      → AreIn all ps
      → AreIn all (add_new same p ps)
  add_in all p ps m h =
      if-intro (AreIn all) (is_in same p ps) (λ _. h) (λ _. All-append _ ps (p ∷ []) h (m, tt))

  uncover : (picked all : List P) → AreCovered [] picked all → AreIn picked all
  uncover picked [] h = tt
  uncover picked (c ∷ all) (h, hs) = (ground arith, uncover picked all hs)

  module _ (choice : ℕ → P → List P → P)
      (choice_in : (n : ℕ) (q : P) (qs : List P) → is_in same (choice n q qs) (q ∷ qs) ≡ true) where
    fill-Returns :
        (fuel max_trials draws : ℕ) (all remaining picked : List P)
        → length remaining < fuel
        → AreDistinct picked
        → length picked ≤ max_trials
        → AreIn all picked
        → AreIn all remaining
        → AreCovered remaining picked all
        → Returns (IsPick max_trials all) (fill same choice fuel max_trials draws remaining picked)
    unfolding fill
    fill-Returns zero max_trials draws all remaining picked f d b i r c = absurd (omega arith)
    fill-Returns (suc fuel) max_trials draws all [] picked f d b i r c = record {
      distinct = d;
      bounded = b;
      chosen = i;
      exhaustive = λ _. uncover picked all c;
    }
    fill-Returns (suc fuel) max_trials draws all (q ∷ qs) picked f d b i r c =
        let p = choice draws q qs in
        let here = choice_in draws q qs in
        if-intro (Returns (IsPick max_trials all)) (ltb (length picked) max_trials)
          (λ more.
            fill-Returns fuel max_trials (draws + 1) all (remove same p (q ∷ qs))
              (add_new same p picked) (omega (arith, length-remove p (q ∷ qs) here))
              (add_distinct p picked d)
              (add_bounded max_trials p picked (ltb→lt (length picked) max_trials more))
              (add_in all p picked (in_trans all (q ∷ qs) p r here) i) (remove_in all (q ∷ qs) p r)
              (covered_next p (q ∷ qs) picked all c))
          λ full. record {
            distinct = d;
            bounded = b;
            chosen = i;
            exhaustive = λ few. absurd (less_not (length picked) max_trials full few);
          }
      where
        less_not : (m n : ℕ) → ltb m n ≡ false → m < n → ⊥
        less_not m n h k = ground arith

    -- What the grid has picked is still to be filled.
    record IsGrid (max_trials : ℕ) (all picked : List P) : Type 0 where
      distinct : AreDistinct picked
      bounded : length picked ≤ max_trials
      chosen : AreIn all picked

    grid_lem :
        (max_trials stride skip : ℕ) (all ps picked : List P)
        → AreIn all ps
        → length picked < max_trials
        → AreDistinct picked
        → AreIn all picked
        → IsGrid max_trials all (pick_grid same max_trials stride skip ps picked)
    unfolding pick_grid
    grid_lem max_trials stride skip all [] picked r b d i = record {
      distinct = d;
      bounded = omega arith;
      chosen = i;
    }
    grid_lem max_trials stride (suc skip) all (p ∷ ps) picked (_, r) b d i =
        grid_lem max_trials stride skip all ps picked r b d i
    grid_lem max_trials stride zero all (p ∷ ps) picked (here, r) b d i =
        let next = add_new same p picked in
        let d' = add_distinct p picked d in
        let b' = add_bounded max_trials p picked b in
        let i' = add_in all p picked here i in
        if-intro (IsGrid max_trials all) (leb max_trials (length next))
          (λ _. record { distinct = d'; bounded = b'; chosen = i' })
          λ more.
            grid_lem max_trials stride (stride - 1) all ps next r
              (below max_trials (length next) more) d' i'
      where
        below : (m n : ℕ) → leb m n ≡ false → n < m
        below m n h = ground arith

    widen : (all ps : List P) (p : P) → AreIn all ps → AreIn (p ∷ all) ps
    widen all [] p h = tt
    widen all (q ∷ ps) p (h, hs) = (ground arith, widen all ps p hs)

    all_in : (all : List P) → AreIn all all
    all_in [] = tt
    all_in (p ∷ ps) = (ground (arith, same_refl p), widen ps ps p (all_in ps))

    filter_in :
        (all picked ps : List P)
        → AreIn all ps
        → AreIn all (filter (λ p. not (is_in same p picked)) ps)
    filter_in all picked [] h = tt
    filter_in all picked (p ∷ ps) (h, hs) = elim (Bool-cases (is_in same p picked)) [
      | inl e ↦ rw e (filter_in all picked ps hs)
      | inr e ↦ rw e (h, filter_in all picked ps hs)
    ]

    in_filter :
        (picked ps : List P) (c : P)
        → is_in same c ps ≡ true
        → (is_in same c picked || is_in same c (filter (λ p. not (is_in same p picked)) ps)) ≡ true
    in_filter picked [] c h = cc
    in_filter picked (p ∷ ps) c h = elim (Bool-cases (same c p)) [
      | inl s ↦ elim (Bool-cases (is_in same p picked)) [
        | inl e ↦ rw ((same_iff c p).0 s, e) refl
        | inr e ↦ rw e (ground (arith, s))
      ]
      | inr s ↦ elim (Bool-cases (is_in same p picked)) [
        | inl e ↦ rw e (in_filter picked ps c (rw s at h))
        | inr e ↦ rw e (ground (arith, in_filter picked ps c, s))
      ]
    ]

    covered :
        (picked all cs : List P)
        → AreIn all cs
        → AreCovered (filter (λ p. not (is_in same p picked)) all) picked cs
    covered picked all [] h = tt
    covered picked all (c ∷ cs) (h, hs) = (in_filter picked all c h, covered picked all cs hs)

    -- Where a trial is wanted and the draw takes an element of the list that it is given, the loops end.
    -- The trials that they have picked are combinations, differ, are no more than wanted, and leave no
    -- combination out where there are fewer.
    pub pick-Returns :
        (max_trials : ℕ) (combos : List P)
        → 0 < max_trials
        → Returns (IsPick max_trials combos) (pick same choice max_trials combos)
    unfolding pick
    pick-Returns max_trials combos wanted =
        let grid = pick_grid same max_trials (length combos / max_trials) 0 combos [] in
        let g =
          grid_lem max_trials (length combos / max_trials) 0 combos combos [] (all_in combos) wanted
            tt tt in
        let remaining = filter (λ p. not (is_in same p grid)) combos in
        fill-Returns (length remaining + 1) max_trials 0 combos remaining grid (omega arith)
          g.distinct g.bounded g.chosen (filter_in combos grid combos (all_in combos))
          (covered grid combos combos (all_in combos))
