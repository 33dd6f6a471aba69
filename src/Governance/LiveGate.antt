-- ===== src/Governance/LiveGate.antt =====
-- `LiveGovernanceGate` of governance/live_gate.py and the queries that it makes: `get_revision` of
-- revision_store.py, `has_successful_validation` of experiment_store.py, and the two joins of
-- candidate_store.py. Rows have the columns that these read; a missing number of trades is 0.
use quantitative_trading.Prelude.{
  ℕ, Bool, true, false, not, ◌&&◌, ◌||◌, Option, none, some, List, String, str_eq, leb, any,
  if◌then◌else◌,
}
use quantitative_trading.Governance.Candidates.{Candidate, is_champion}

pub data Environment : Type 0 where
  development staging production : Environment

-- the settings, with `validation.min_trades` of the yaml configuration
pub record Settings : Type 0 where
  pub environment : Environment
  pub require_champion_candidate : Bool
  pub min_trades : ℕ

pub record BacktestRun : Type 0 where
  pub revision_id : Option String
  pub is_completed : Bool
  pub total_trades : ℕ

pub record ExperimentRun : Type 0 where
  pub revision_id : String
  -- `status == "completed"`
  pub is_completed : Bool
  pub total_trades : ℕ

pub record Experiment : Type 0 where
  pub experiment_id : String
  pub revision_id : String

pub record Database : Type 0 where
  pub revisions : List String
  pub backtests : List BacktestRun
  pub runs : List ExperimentRun
  pub experiments : List Experiment
  pub candidates : List Candidate

abbrev pub is_production : Environment → Bool
is_production Environment.production = true
is_production Environment.development = false
is_production Environment.staging = false

abbrev pub is_backtest_of : String → Option String → Bool
is_backtest_of revision_id none = false
is_backtest_of revision_id (some i) = str_eq i revision_id

-- `get_revision(session, revision_id) is not None`
abbrev pub has_revision : String → Database → Bool
has_revision revision_id db = any (λ i. str_eq i revision_id) db.revisions

unfoldable pub has_successful_validation : Settings → String → Database → Bool
has_successful_validation settings revision_id db =
    any
      (λ (row : BacktestRun).
        is_backtest_of revision_id row.revision_id
        && (row.is_completed && leb settings.min_trades row.total_trades))
      db.backtests
    || any
        (λ (run : ExperimentRun).
          str_eq run.revision_id revision_id
          && (run.is_completed && leb settings.min_trades run.total_trades))
        db.runs

-- the candidate's experiment is one of the revision
abbrev pub traces_to : String → Database → Candidate → Bool
traces_to revision_id db row =
    any
      (λ (e : Experiment).
        str_eq e.experiment_id row.experiment_id && str_eq e.revision_id revision_id)
      db.experiments

unfoldable pub revision_has_candidate_lineage : String → Database → Bool
revision_has_candidate_lineage revision_id db = any (traces_to revision_id db) db.candidates

unfoldable pub revision_has_champion : String → Database → Bool
revision_has_champion revision_id db =
    any (λ (row : Candidate). traces_to revision_id db row && is_champion row.state) db.candidates

-- a revision that is given
abbrev pub is_given : Option String → Bool
is_given none = false
is_given (some revision_id) = not (str_eq revision_id "")

unfoldable pub allow_start_dev : Settings → Option String → Bool
allow_start_dev settings revision_id =
    if not (is_production settings.environment) then true else is_given revision_id

-- the checks of a revision in production
unfoldable pub allow_revision : Settings → Database → String → Bool
unfolding revision_has_candidate_lineage revision_has_champion has_successful_validation
allow_revision settings db revision_id =
    if str_eq revision_id ""
    then false
    else if not (has_revision revision_id db)
    then false
    else if not (has_successful_validation settings revision_id db)
    then false
    else if settings.require_champion_candidate && revision_has_candidate_lineage revision_id db
    then revision_has_champion revision_id db
    else true

unfoldable pub allow_start : Settings → Database → Option String → Bool
unfolding allow_revision
allow_start settings db revision_id =
    if not (is_production settings.environment)
    then true
    else elim revision_id [ none ↦ false | some i ↦ allow_revision settings db i ]
