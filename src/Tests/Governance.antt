-- ===== src/Tests/Governance.antt =====
-- A champion and a challenger, and the theorems on governance at them.
use quantitative_trading.Prelude.{
  ◌≢◌, map, str_eq, ◌≡◌, ◌≤◌, ◌↔◌, ◌⊎◌, String, refl, true, none, some, List, [], ◌∷◌, ltb,
  if◌then◌else◌, find, arith,
}
use quantitative_trading.Prelude.Int.{ℤ, pos}
use quantitative_trading.Float.Exact.{int_float}
use quantitative_trading.Governance.Evaluator.{
  EvaluationDecision, OptimizationResult, evaluate_candidate,
}
use quantitative_trading.Governance.Acceptance.{
  IsStable, IsSpread, trades_of, evaluate_candidate_iff,
}
use quantitative_trading.Governance.Candidates.{
  CandidateState, Candidate, CandidateEvaluation, Session, promote_candidate,
}
use quantitative_trading.Governance.LiveGate.{Settings, Environment, Database, allow_start}
use quantitative_trading.Governance.GoingLive.{IsReady, allow_start_iff}
use quantitative_trading.Governance.Rules.{IsDue, after, promote_candidate_iff}
use quantitative_trading.Governance.Promotion.{
  IsSole, is_promoted, here, then_, promotes, Reaches-IsSole,
}

-- the evaluations by their time, the newest first
abbrev insert_newest :
    CandidateEvaluation ℤ → List (CandidateEvaluation ℤ) → List (CandidateEvaluation ℤ)
insert_newest e [] = e ∷ []
insert_newest e (x ∷ xs) =
    if ltb e.created_at x.created_at then x ∷ insert_newest e xs else e ∷ x ∷ xs

abbrev newest_first : List (CandidateEvaluation ℤ) → List (CandidateEvaluation ℤ)
newest_first [] = []
newest_first (e ∷ es) = insert_newest e (newest_first es)

abbrev reigning : Candidate
reigning = record {
  candidate_id = "cand_1";
  experiment_id = "exp_1";
  hypothesis_id = none;
  parent_candidate_id = none;
  state = CandidateState.champion;
  created_at = 1;
}

abbrev contender : Candidate
contender = record reigning { candidate_id = "cand_2"; state = CandidateState.challenger }

abbrev refusal : CandidateEvaluation ℤ
refusal = record {
  evaluation_id = "caneval_1";
  candidate_id = "cand_2";
  checks = [];
  decision = EvaluationDecision.rejected;
  decision_reason = [];
  created_at = 3;
}

abbrev acceptance : CandidateEvaluation ℤ
acceptance = record refusal {
  evaluation_id = "caneval_2";
  decision = EvaluationDecision.accepted;
  created_at = 4;
}

abbrev session : Session ℤ
session = record { candidates = reigning ∷ contender ∷ []; evaluations = refusal ∷ acceptance ∷ [] }

promotes_contender :
    (promote_candidate newest_first "cand_2" CandidateState.champion true session).1.candidates
    ≡ record reigning { state = CandidateState.archived }
      ∷ record contender { state = CandidateState.champion }
      ∷ []
unfolding promote_candidate
promotes_contender = refl

promote_candidate_iff_example :
    let (r, session') =
      promote_candidate newest_first "cand_2" CandidateState.champion true session in
    ((is_promoted r ≡ true) ↔ (
      (row : Candidate) × (find (λ c. str_eq c.candidate_id "cand_2") session.candidates ≡ some row)
      × IsDue newest_first "cand_2" CandidateState.champion true session row))
    × (session'.candidates ≡ (
        if is_promoted r
        then map (after "cand_2" CandidateState.champion true) session.candidates
        else session.candidates))
    × (session'.evaluations ≡ session.evaluations)
promote_candidate_iff_example =
    promote_candidate_iff newest_first "cand_2" CandidateState.champion true session

Reaches-IsSole_example :
    IsSole
      (promote_candidate newest_first "cand_2" CandidateState.champion true session).1.candidates
Reaches-IsSole_example =
    Reaches-IsSole newest_first (then_ here (promotes "cand_2" CandidateState.champion session))
      ((refl, (refl, tt)), omega arith)

abbrev optimized : OptimizationResult ℤ
optimized = record {
  best = some (record { fold_std = some (pos 3); fold_scores = pos 10 ∷ pos 12 ∷ [] });
  fallback_trial = none;
  holdout_outcome = some (record { total_trades = 30; regime_trades = 15 ∷ 15 ∷ [] });
  holdout_valid = true;
}

evaluate_candidate_iff_example :
    ((evaluate_candidate optimized).1 ≡ EvaluationDecision.accepted) ↔ (
      (optimized.holdout_valid ≡ true)
      × (20 ≤ trades_of optimized)
      × IsStable optimized
      × IsSpread optimized)
evaluate_candidate_iff_example = evaluate_candidate_iff optimized

abbrev settings : Settings
settings = record {
  environment = Environment.production;
  require_champion_candidate = true;
  min_trades = 20;
}

abbrev db : Database
db = record {
  revisions = "rev_1" ∷ [];
  backtests = [];
  runs = record { revision_id = "rev_1"; is_completed = true; total_trades = 25 } ∷ [];
  experiments = record { experiment_id = "exp_1"; revision_id = "rev_1" } ∷ [];
  candidates = reigning ∷ contender ∷ [];
}

goes_live : allow_start settings db (some "rev_1") ≡ true
unfolding allow_start
goes_live = refl

allow_start_iff_example : (allow_start settings db (some "rev_1") ≡ true) ↔ (
    (settings.environment ≢ Environment.production)
    ⊎ ((i : String) × (some "rev_1" ≡ some i) × IsReady settings db i))
allow_start_iff_example = allow_start_iff settings db (some "rev_1")
