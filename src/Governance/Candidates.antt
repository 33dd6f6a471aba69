-- ===== src/Governance/Candidates.antt =====
-- governance/candidate_store.py. The tables are lists of rows, in the order of their insertion, and a
-- session is the two tables that the module writes. How the database orders rows by `created_at` is
-- the parameter `newest_first`.
use quantitative_trading.Prelude.{
  Bool, true, false, not, ◌&&◌, Option, none, some, List, [], ◌∷◌, ◌++◌, String, str_eq,
  if◌then◌else◌, filter, find,
}
use quantitative_trading.Float.{Float}
use quantitative_trading.Contracts.State.{Instant}
use quantitative_trading.Governance.Evaluator.{
  CandidateCheck, CheckName, EvaluationDecision, OptimizationResult, evaluate_candidate,
}

pub data CandidateState : Type 0 where
  candidate challenger champion rejected archived : CandidateState

-- a row of the candidates, and the contract `Candidate`, which has the same fields
pub record Candidate : Type 0 where
  pub candidate_id : String
  pub experiment_id : String
  pub hypothesis_id : Option String
  pub parent_candidate_id : Option String
  pub state : CandidateState
  pub created_at : Instant

pub record CandidateEvaluation (F : Type 0) : Type 0 where
  pub evaluation_id : String
  pub candidate_id : String
  pub checks : List (CandidateCheck F)
  pub decision : EvaluationDecision
  -- the names that follow "Failed: "; none for "All checks passed."
  pub decision_reason : List CheckName
  pub created_at : Instant

pub record Session (F : Type 0) : Type 0 where
  pub candidates : List Candidate
  pub evaluations : List (CandidateEvaluation F)

abbrev pub is_champion : CandidateState → Bool
is_champion CandidateState.champion = true
is_champion CandidateState.candidate = false
is_champion CandidateState.challenger = false
is_champion CandidateState.rejected = false
is_champion CandidateState.archived = false

-- `to_state in ("challenger", "champion")`
abbrev pub is_promotion : CandidateState → Bool
is_promotion CandidateState.challenger = true
is_promotion CandidateState.champion = true
is_promotion CandidateState.candidate = false
is_promotion CandidateState.rejected = false
is_promotion CandidateState.archived = false

-- `to_state in _VALID_TRANSITIONS[state]`
unfoldable pub is_valid : CandidateState → CandidateState → Bool
is_valid CandidateState.candidate CandidateState.challenger = true
is_valid CandidateState.candidate CandidateState.rejected = true
is_valid CandidateState.candidate CandidateState.archived = true
is_valid CandidateState.challenger CandidateState.champion = true
is_valid CandidateState.challenger CandidateState.rejected = true
is_valid CandidateState.challenger CandidateState.archived = true
is_valid CandidateState.champion CandidateState.archived = true
is_valid CandidateState.rejected CandidateState.archived = true
is_valid _ _ = false

abbrev pub is_row : String → Candidate → Bool
is_row i row = str_eq row.candidate_id i

-- `row.state = state` for the row with this id
abbrev pub set_state : String → CandidateState → List Candidate → List Candidate
set_state i state [] = []
set_state i state (row ∷ rows) =
    (if is_row i row then record row { state = state } else row) ∷ set_state i state rows

-- `champion_row.state = "archived"` for the champions
abbrev pub archive_champions : List Candidate → List Candidate
archive_champions [] = []
archive_champions (row ∷ rows) =
    (if is_champion row.state then record row { state = CandidateState.archived } else row)
    ∷ archive_champions rows

abbrev pub is_rejected : EvaluationDecision → Bool
is_rejected EvaluationDecision.rejected = true
is_rejected EvaluationDecision.accepted = false

-- The result of `promote_candidate`: no such candidate, a `ValueError` for the transition or for the
-- evaluation, or the candidate.
pub data Promotion : Type 0 where
  missing invalid_transition not_accepted : Promotion
  promoted : Candidate → Promotion

module _ {F : Type 0} where
  unfoldable pub create_candidate :
      (candidate_id experiment_id : String) (hypothesis_id parent_candidate_id : Option String)
      (now : Instant)
      → Session F
      → Candidate × Session F
  create_candidate candidate_id experiment_id hypothesis_id parent_candidate_id now session =
      let row : Candidate = record {
        candidate_id = candidate_id;
        experiment_id = experiment_id;
        hypothesis_id = hypothesis_id;
        parent_candidate_id = parent_candidate_id;
        state = CandidateState.candidate;
        created_at = now;
      } in
      (row, record session { candidates = session.candidates ++ (row ∷ []) })

  unfoldable pub get_candidate : String → Session F → Option Candidate
  get_candidate i session = find (is_row i) session.candidates

module _ {F : Type 0} ⦃o : Float F⦄ where
  abbrev pub evaluation_of :
      String → (evaluation_id : String) → Instant → OptimizationResult F → CandidateEvaluation F
  evaluation_of i evaluation_id now result =
      let (checks, decision, reason) = evaluate_candidate result in
      record {
        evaluation_id = evaluation_id;
        candidate_id = i;
        checks = checks;
        decision = decision;
        decision_reason = reason;
        created_at = now;
      }

  unfoldable pub run_candidate_evaluation :
      String
      → OptimizationResult F
      → (evaluation_id : String) (now : Instant) → Session F
      → Option (CandidateEvaluation F) × Session F
  run_candidate_evaluation i result evaluation_id now session =
      let row = evaluation_of i evaluation_id now result in
      elim (find (is_row i) session.candidates) [
        | none ↦ (none, session)
        | some _ ↦ (
          some row,
          record {
            candidates =
                if is_rejected row.decision
                then set_state i CandidateState.rejected session.candidates
                else session.candidates;
            evaluations = session.evaluations ++ (row ∷ []);
          },
        )
      ]

module _ {F : Type 0}
    (newest_first : List (CandidateEvaluation F) → List (CandidateEvaluation F)) where
  unfoldable pub list_candidate_evaluations : String → Session F → List (CandidateEvaluation F)
  list_candidate_evaluations i session =
      newest_first (filter (λ e. str_eq e.candidate_id i) session.evaluations)

  -- `evaluations and evaluations[0].decision == "accepted"`
  abbrev pub latest_accepted : List (CandidateEvaluation F) → Bool
  latest_accepted [] = false
  latest_accepted (e ∷ _) = not (is_rejected e.decision)

  -- the row gets its new state, after the champions are archived where that is asked for
  abbrev pub move :
      String → CandidateState → (archives : Bool) → Candidate → Session F → Promotion × Session F
  move i to_state archives row session = (
    promoted (record row { state = to_state }),
    record session {
      candidates =
          set_state i to_state
            (if archives then archive_champions session.candidates else session.candidates);
    },
  )

  unfoldable pub promote_row :
      String
      → CandidateState
      → (require_accepted_evaluation : Bool) → Candidate
      → Session F
      → Promotion × Session F
  unfolding is_valid list_candidate_evaluations
  promote_row i to_state require_accepted_evaluation row session =
      if not (is_valid row.state to_state)
      then (invalid_transition, session)
      else if require_accepted_evaluation && is_promotion to_state
      then (if not (latest_accepted (list_candidate_evaluations i session))
          then (not_accepted, session)
          else move i to_state (is_champion to_state) row session)
      else move i to_state false row session

  unfoldable pub promote_candidate :
      String
      → (to_state : CandidateState) → (require_accepted_evaluation : Bool) → Session F
      → Promotion × Session F
  unfolding promote_row
  promote_candidate i to_state require_accepted_evaluation session =
      elim (find (is_row i) session.candidates) [
        | none ↦ (missing, session)
        | some row ↦ promote_row i to_state require_accepted_evaluation row session
      ]
