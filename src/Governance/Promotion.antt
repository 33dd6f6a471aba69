-- ===== src/Governance/Promotion.antt =====
-- The rules of `promote_candidate` of governance/candidate_store.py, and what every sequence of the
-- module's operations keeps.
use quantitative_trading.Prelude.{
  ◌≡◌, ◌≤◌, refl, Bool, true, false, not, Option, List, [], ◌∷◌, ◌++◌, String, arith, find,
  Bool-cases, Option-cases, inl, inr, if-intro, eq_iff,
}
use quantitative_trading.Float.{Float}
use quantitative_trading.Contracts.State.{Instant}
use quantitative_trading.Governance.Evaluator.{OptimizationResult}
use quantitative_trading.Governance.Candidates.{
  CandidateState, Candidate, CandidateEvaluation, Session, is_champion, is_promotion, is_valid,
  is_row, is_rejected, set_state, archive_champions, create_candidate, run_candidate_evaluation,
  evaluation_of, list_candidate_evaluations, latest_accepted, promote_row, promote_candidate,
  Promotion, promoted, move,
}
use quantitative_trading.Governance.Champions.{
  champions, has_row, AreKeyed, AreKeyed-set_state, AreKeyed-archive_champions,
  champions-archive_champions, champions-set_state, champions-set_state_other,
}

abbrev pub is_promoted : Promotion → Bool
is_promoted (promoted _) = true
is_promoted _ = false

not_crowned : (state : CandidateState) → is_promotion state ≡ false → is_champion state ≡ false
not_crowned state h = ground arith

-- the primary key, and at most one champion
abbrev pub IsSole : List Candidate → Type 0
IsSole rows = AreKeyed rows × (champions rows ≤ 1)

has_row-append :
    (j : String) (row : Candidate) (rows : List Candidate)
    → has_row j rows ≡ false
    → is_row j row ≡ false
    → has_row j (rows ++ (row ∷ [])) ≡ false
has_row-append j row [] h n = ground arith
has_row-append j row (r ∷ rows) h n = ground (arith, has_row-append j row rows)

append-AreKeyed :
    (row : Candidate) (rows : List Candidate)
    → has_row row.candidate_id rows ≡ false
    → AreKeyed rows
    → AreKeyed (rows ++ (row ∷ []))
append-AreKeyed row [] h k = (refl, tt)
append-AreKeyed row (r ∷ rows) h k = ground (
  arith,
  eq_iff row.candidate_id r.candidate_id,
  eq_iff r.candidate_id row.candidate_id,
  has_row-append r.candidate_id row rows,
  append-AreKeyed row rows,
)

champions-append :
    (row : Candidate) (rows : List Candidate)
    → is_champion row.state ≡ false
    → champions (rows ++ (row ∷ [])) ≡ champions rows
champions-append row [] n = ground arith
champions-append row (r ∷ rows) n = ground (arith, champions-append row rows)

append-IsSole :
    (row : Candidate) (rows : List Candidate)
    → has_row row.candidate_id rows ≡ false
    → is_champion row.state ≡ false
    → IsSole rows
    → IsSole (rows ++ (row ∷ []))
append-IsSole row rows h n (k, one) =
    (append-AreKeyed row rows h k, omega (arith, one, champions-append row rows n))

rejected-IsSole :
    (i : String) (rows : List Candidate)
    → IsSole rows
    → IsSole (set_state i CandidateState.rejected rows)
rejected-IsSole i rows (k, one) = (
  AreKeyed-set_state i CandidateState.rejected rows k,
  omega (arith, one, champions-set_state_other i CandidateState.rejected rows refl),
)

module _ {F : Type 0}
    (newest_first : List (CandidateEvaluation F) → List (CandidateEvaluation F)) where
  move-IsSole :
      (i : String) (to_state : CandidateState) (row : Candidate) (session : Session F)
      → IsSole session.candidates
      → IsSole (move newest_first i to_state (is_champion to_state) row session).1.candidates
  move-IsSole i to_state row session (k, one) = elim (Bool-cases (is_champion to_state)) [
    | inl e ↦ rw e (
      AreKeyed-set_state i to_state _ (AreKeyed-archive_champions session.candidates k),
      omega (
        arith,
        champions-archive_champions session.candidates,
        champions-set_state i to_state (archive_champions session.candidates)
            (AreKeyed-archive_champions session.candidates k),
      ),
    )
    | inr e ↦ rw e (
      AreKeyed-set_state i to_state session.candidates k,
      omega (arith, one, champions-set_state_other i to_state session.candidates e),
    )
  ]

  promote_row-IsSole :
      (i : String) (to_state : CandidateState) (row : Candidate) (session : Session F)
      → IsSole session.candidates
      → IsSole (promote_row newest_first i to_state true row session).1.candidates
  unfolding promote_row
  promote_row-IsSole i to_state row session h =
      let sole : Promotion × Session F → Type 0 = λ r. IsSole r.1.candidates in
      if-intro sole (not (is_valid row.state to_state)) (λ _. h)
        λ _.
          if-intro sole (is_promotion to_state)
            (λ _.
              if-intro sole
                (not (
                  latest_accepted newest_first (list_candidate_evaluations newest_first i session)))
                (λ _. h) (λ _. move-IsSole i to_state row session h))
            (λ e. (
              AreKeyed-set_state i to_state session.candidates h.0,
              omega (
                arith,
                h.1,
                champions-set_state_other i to_state session.candidates (not_crowned to_state e),
              ),
            ))

  promote_candidate-IsSole :
      (i : String) (to_state : CandidateState) (session : Session F)
      → IsSole session.candidates
      → IsSole (promote_candidate newest_first i to_state true session).1.candidates
  unfolding promote_candidate
  promote_candidate-IsSole i to_state session h =
      elim (Option-cases (find (is_row i) session.candidates)) [
        | inl e ↦ rw (promote_candidate, e) h
        | inr (row, e) ↦ rw (promote_candidate, e) (promote_row-IsSole i to_state row session h)
      ]

module _ {F : Type 0} ⦃o : Float F⦄ where
  run_candidate_evaluation-IsSole :
      (i : String) (result : OptimizationResult F) (evaluation_id : String) (now : Instant)
      (session : Session F)
      → IsSole session.candidates
      → IsSole (run_candidate_evaluation i result evaluation_id now session).1.candidates
  unfolding run_candidate_evaluation
  run_candidate_evaluation-IsSole i result evaluation_id now session h =
      elim (Option-cases (find (is_row i) session.candidates)) [
        | inl e ↦ rw (run_candidate_evaluation, e) h
        | inr (row, e) ↦
            rw (run_candidate_evaluation, e)
              (if-intro IsSole (is_rejected (evaluation_of i evaluation_id now result).decision)
                (λ _. rejected-IsSole i session.candidates h) (λ _. h))
      ]

module _ {F : Type 0} ⦃o : Float F⦄
    (newest_first : List (CandidateEvaluation F) → List (CandidateEvaluation F)) where
  -- One call of an operation: a new id is drawn for a candidate, and a promotion asks for an accepted
  -- evaluation, as the API does.
  pub data Step : Session F → Session F → Type 0 where
    creates :
        (i experiment_id : String) (hypothesis_id parent_id : Option String) (now : Instant)
        (s : Session F)
        → has_row i s.candidates ≡ false
        → Step s (create_candidate i experiment_id hypothesis_id parent_id now s).1
    evaluates :
        (i : String) (result : OptimizationResult F) (evaluation_id : String) (now : Instant)
        (s : Session F)
        → Step s (run_candidate_evaluation i result evaluation_id now s).1
    promotes :
        (i : String) (to_state : CandidateState) (s : Session F)
        → Step s (promote_candidate newest_first i to_state true s).1

  pub data Reaches (s : Session F) : Session F → Type 0 where
    here : Reaches s s
    then_ : {t u : Session F} → Reaches s t → Step t u → Reaches s u

  Step-IsSole : {s t : Session F} → Step s t → IsSole s.candidates → IsSole t.candidates
  unfolding create_candidate
  Step-IsSole (creates i experiment_id hypothesis_id parent_id now s fresh) h =
      append-IsSole _ s.candidates fresh refl h
  Step-IsSole (evaluates i result evaluation_id now s) h =
      run_candidate_evaluation-IsSole i result evaluation_id now s h
  Step-IsSole (promotes i to_state s) h = promote_candidate-IsSole newest_first i to_state s h

  -- From a session with distinct ids and at most one champion, every sequence of creations with new
  -- ids, evaluations, and promotions that ask for an accepted evaluation leads to such a session.
  pub Reaches-IsSole : {s t : Session F} → Reaches s t → IsSole s.candidates → IsSole t.candidates
  Reaches-IsSole here h = h
  Reaches-IsSole (then_ r step) h = Step-IsSole step (Reaches-IsSole r h)
