-- ===== src/Validation/Choice.antt =====
-- The greatest of a list by an order, as `select_best` of validation/optimization_scoring.py takes it.
use mathlib.Core.Path.{subst}
use quantitative_trading.Prelude.{
  ◌≡◌, refl, ap, sym, ◌∙◌, ◌⊎◌, inl, inr, Bool, true, false, ◌&&◌, Option, none, some, List, [],
  ◌∷◌, All, filter, arith, if◌then◌else◌,
}
use quantitative_trading.Float.Exact.{int_float}
use quantitative_trading.Validation.Selection.{max_by, max_of, or_else}

abbrev pub IsIn : {A : Type 0} → A → List A → Type 0
IsIn x [] = ⊥
IsIn x (y ∷ ys) = (x ≡ y) ⊎ IsIn x ys

-- By the test `q` first and then by the order `below`, no element of the list that has `p` is better.
module _ {A : Type 0} (p q : A → Bool) (below : A → A → Bool) where
  abbrev pub is_better : A → A → Bool
  is_better x y =
      if q x then (if q y then below y x else true) else (if q y then false else below y x)

  abbrev pub IsChosen : List A → Option A → Type 0
  IsChosen xs none = All (λ x. p x ≡ false) xs
  IsChosen xs (some y) = IsIn y xs × (p y ≡ true) × All (λ x. (p x && is_better x y) ≡ false) xs

All-zip :
    {A : Type 0} (P Q R : A → Type 0) (xs : List A)
    → ((x : A) → P x → Q x → R x)
    → All P xs
    → All Q xs
    → All R xs
All-zip P Q R [] f h k = tt
All-zip P Q R (x ∷ xs) f (h, hs) (k, ks) = (f x h k, All-zip P Q R xs f hs ks)

-- The elements that a test keeps.
module _ {A : Type 0} (p : A → Bool) where
  IsIn-kept :
      (y x : A) (b : Bool) (xs zs : List A)
      → p x ≡ b
      → (IsIn y zs → IsIn y xs × (p y ≡ true))
      → IsIn y (if b then x ∷ zs else zs)
      → IsIn y (x ∷ xs) × (p y ≡ true)
  IsIn-kept y x true xs zs e rest (inl same) = (inl same, ap p same ∙ e)
  IsIn-kept y x true xs zs e rest (inr h) = (inr (rest h).0, (rest h).1)
  IsIn-kept y x false xs zs e rest h = (inr (rest h).0, (rest h).1)

  IsIn-filter : (y : A) (xs : List A) → IsIn y (filter p xs) → IsIn y xs × (p y ≡ true)
  IsIn-filter y [] h = absurd h
  IsIn-filter y (x ∷ xs) h = IsIn-kept y x (p x) xs (filter p xs) refl (IsIn-filter y xs) h

  -- What is said of the elements that are kept, of all.
  unfilter_at :
      (r : A → Bool) (x : A) (b : Bool) (xs zs : List A)
      → p x ≡ b
      → (All (λ z. r z ≡ false) zs → All (λ z. (p z && r z) ≡ false) xs)
      → All (λ z. r z ≡ false) (if b then x ∷ zs else zs)
      → All (λ z. (p z && r z) ≡ false) (x ∷ xs)
  unfilter_at r x true xs zs e rest (h, hs) = (ground (arith, e, h), rest hs)
  unfilter_at r x false xs zs e rest hs = (ground (arith, e), rest hs)

  unfilter :
      (r : A → Bool) (xs : List A)
      → All (λ x. r x ≡ false) (filter p xs)
      → All (λ x. (p x && r x) ≡ false) xs
  unfilter r [] h = tt
  unfilter r (x ∷ xs) h = unfilter_at r x (p x) xs (filter p xs) refl (unfilter r xs) h

  -- Where none is kept, the test fails of all.
  kept_none : (xs : List A) → filter p xs ≡ [] → All (λ x. p x ≡ false) xs
  kept_none xs h =
      let none_true : All (λ x. (p x && true) ≡ false) xs =
        unfilter (λ _. true) xs (subst (All (λ _. true ≡ false)) (sym h) tt) in
      All-zip (λ x. (p x && true) ≡ false) (λ x. (p x && true) ≡ false) (λ x. p x ≡ false) xs
        (λ x e _. ground (arith, e)) none_true none_true

module _ {A : Type 0} where
  All-IsIn : (P : A → Type 0) (y : A) (xs : List A) → IsIn y xs → All P xs → P y
  All-IsIn P y [] i h = absurd i
  All-IsIn P y (x ∷ xs) (inl same) (h, hs) = subst P (sym same) h
  All-IsIn P y (x ∷ xs) (inr i) (h, hs) = All-IsIn P y xs i hs

-- The order, of which these two laws are needed.
module _ {A : Type 0} (below : A → A → Bool) (irreflexive : (a : A) → below a a ≡ false)
    (shifts : (a b c : A) → below a b ≡ true → below a c ≡ false → below b c ≡ false) where
  stays_at :
      (x y c : A) (ys : List A) (b : Bool)
      → below x y ≡ b
      → below x c ≡ false
      → ((z : A) → below z c ≡ false → below (max_by below z ys) c ≡ false)
      → below (max_by below (if b then y else x) ys) c ≡ false
  stays_at x y c ys true e h rest = rest y (shifts x y c e h)
  stays_at x y c ys false e h rest = rest x h

  stays : (x : A) (xs : List A) (c : A) → below x c ≡ false → below (max_by below x xs) c ≡ false
  stays x [] c h = h
  stays x (y ∷ ys) c h = stays_at x y c ys (below x y) refl h λ z k. stays z ys c k

  greatest_at :
      (x y : A) (ys : List A) (b : Bool)
      → below x y ≡ b
      → ((z : A) → All (λ c. below (max_by below z ys) c ≡ false) (z ∷ ys))
      → All (λ c. below (max_by below (if b then y else x) ys) c ≡ false) (x ∷ y ∷ ys)
  greatest_at x y ys true e rest = (stays y ys x (shifts x y x e (irreflexive x)), rest y)
  greatest_at x y ys false e rest = let (h, hs) = rest x in (h, (stays x ys y e, hs))

  greatest : (x : A) (xs : List A) → All (λ c. below (max_by below x xs) c ≡ false) (x ∷ xs)
  greatest x [] = (irreflexive x, tt)
  greatest x (y ∷ ys) = greatest_at x y ys (below x y) refl λ z. greatest z ys

  step-IsIn :
      (x y : A) (ys : List A) (b : Bool)
      → ((z : A) → IsIn (max_by below z ys) (z ∷ ys))
      → IsIn (max_by below (if b then y else x) ys) (x ∷ y ∷ ys)
  step-IsIn x y ys true rest = inr (rest y)
  step-IsIn x y ys false rest = elim (rest x) [ inl same ↦ inl same | inr i ↦ inr (inr i) ]

  chosen-IsIn : (x : A) (xs : List A) → IsIn (max_by below x xs) (x ∷ xs)
  chosen-IsIn x [] = inl refl
  chosen-IsIn x (y ∷ ys) = step-IsIn x y ys (below x y) λ z. chosen-IsIn z ys

  module _ (p q : A → Bool) where
    better_optimal :
        (x y : A) → q y ≡ true → (q x && below y x) ≡ false → is_better p q below x y ≡ false
    better_optimal x y e h = ground (arith, e, h)

    better_other :
        (x y : A) → q y ≡ false → q x ≡ false → below y x ≡ false → is_better p q below x y ≡ false
    better_other x y e f h = ground (arith, e, f, h)

    -- No element that is kept is better than the greatest of the optimal, where there is one.
    pick_optimal :
        (x : A) (xs es : List A)
        → filter q es ≡ x ∷ xs
        → IsIn (max_by below x xs) es
          × All (λ z. is_better p q below z (max_by below x xs) ≡ false) es
    pick_optimal x xs es f =
        let y = max_by below x xs in
        let (i, holds) = IsIn-filter q y es (subst (IsIn y) (sym f) (chosen-IsIn x xs)) in
        let least =
          unfilter q (below y) es (subst (All (λ z. below y z ≡ false)) (sym f) (greatest x xs)) in
        (
          i,
          All-zip (λ z. (q z && below y z) ≡ false) (λ z. (q z && below y z) ≡ false)
              (λ z. is_better p q below z y ≡ false) es (λ z h _. better_optimal z y holds h) least
              least,
        )

    pick_other :
        (x : A) (xs : List A)
        → filter q (x ∷ xs) ≡ []
        → All (λ z. is_better p q below z (max_by below x xs) ≡ false) (x ∷ xs)
    pick_other x xs f =
        let y = max_by below x xs in
        let others = kept_none q (x ∷ xs) f in
        let other = All-IsIn (λ z. q z ≡ false) y (x ∷ xs) (chosen-IsIn x xs) others in
        All-zip (λ z. q z ≡ false) (λ z. below y z ≡ false) (λ z. is_better p q below z y ≡ false)
          (x ∷ xs) (λ z e h. better_other z y other e h) others (greatest x xs)

    lift :
        (y : A) (es xs : List A)
        → filter p xs ≡ es
        → IsIn y es
        → All (λ z. is_better p q below z y ≡ false) es
        → IsChosen p q below xs (some y)
    lift y es xs e i h =
        let (here, holds) = IsIn-filter p y xs (subst (IsIn y) (sym e) i) in
        (
          here,
          holds,
          unfilter p (λ z. is_better p q below z y) xs
              (subst (All (λ z. is_better p q below z y ≡ false)) (sym e) h),
        )

    pub IsChosen-of :
        (os es xs : List A)
        → filter p xs ≡ es
        → filter q es ≡ os
        → IsChosen p q below xs (max_of below (or_else os es))
    IsChosen-of [] [] xs e f = kept_none p xs e
    IsChosen-of [] (x ∷ es) xs e f =
        lift (max_by below x es) (x ∷ es) xs e (chosen-IsIn x es) (pick_other x es f)
    IsChosen-of (x ∷ os) es xs e f =
        let (i, h) = pick_optimal x os es f in lift (max_by below x os) es xs e i h
