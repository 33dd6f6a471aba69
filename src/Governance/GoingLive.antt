-- ===== src/Governance/GoingLive.antt =====
-- What governance/live_gate.py lets go live.
use mathlib.Core.Option.{some-injective}
use quantitative_trading.Prelude.{
  ◌≡◌, ◌≢◌, ◌↔◌, ◌⊎◌, ◌≤◌, ◌&&◌, ◌||◌, Bool, Exists, any-Exists, str_eq, leb, refl, ap, ℕ, sym, ◌∙◌,
  true, false, Option, none, some, String, arith, eq_iff, Bool-cases, inl, inr,
}
use quantitative_trading.Governance.Candidates.{Candidate, CandidateState, is_champion}
use quantitative_trading.Governance.LiveGate.{
  Environment, BacktestRun, ExperimentRun, Experiment, is_backtest_of, traces_to, Settings,
  Database, is_production, has_revision, has_successful_validation, revision_has_candidate_lineage,
  revision_has_champion, allow_revision, allow_start,
}

crowned_iff : (s : CandidateState) → (is_champion s ≡ true) ↔ (s ≡ CandidateState.champion)
crowned_iff CandidateState.candidate = (λ h. absurd (cc h), λ h. absurd (cc h))
crowned_iff CandidateState.challenger = (λ h. absurd (cc h), λ h. absurd (cc h))
crowned_iff CandidateState.champion = (λ _. refl, λ _. refl)
crowned_iff CandidateState.rejected = (λ h. absurd (cc h), λ h. absurd (cc h))
crowned_iff CandidateState.archived = (λ h. absurd (cc h), λ h. absurd (cc h))

production_iff : (e : Environment) → (is_production e ≡ false) ↔ (e ≢ Environment.production)
production_iff Environment.production = (λ h. absurd (cc h), λ h. absurd (h refl))
production_iff Environment.development = (λ _ h. cc h, λ _. refl)
production_iff Environment.staging = (λ _ h. cc h, λ _. refl)

given_iff : (i : String) (m : Option String) → (is_backtest_of i m ≡ true) ↔ (m ≡ some i)
given_iff i none = (λ h. absurd (cc h), λ h. absurd (cc h))
given_iff i (some j) = (λ h. ap some ((eq_iff j i).0 h), λ h. (eq_iff j i).1 (some-injective _ _ h))

either : (a b : Bool) → ((a || b) ≡ true) ↔ ((a ≡ true) ⊎ (b ≡ true))
either a b = ground arith

-- conjunctions of tests
both : (a b : Bool) → ((a && b) ≡ true) ↔ ((a ≡ true) × (b ≡ true))
both a b = ground arith

module _ (settings : Settings) (db : Database) where
  -- a run of this revision has been completed, with trades enough
  abbrev pub IsValidated : String → Type 0
  IsValidated i =
      Exists
        (λ (r : BacktestRun).
          (r.revision_id ≡ some i)
          × (r.is_completed ≡ true)
          × (settings.min_trades ≤ r.total_trades))
        db.backtests
      ⊎ Exists
          (λ (r : ExperimentRun).
            (r.revision_id ≡ i) × (r.is_completed ≡ true) × (settings.min_trades ≤ r.total_trades))
          db.runs

  -- the candidate comes from an experiment on this revision
  abbrev pub IsFrom : String → Candidate → Type 0
  IsFrom i c =
      Exists (λ (e : Experiment). (e.experiment_id ≡ c.experiment_id) × (e.revision_id ≡ i))
        db.experiments

  -- the revision is known and validated, and a candidate from it is champion if it has candidates and
  -- a champion is asked for
  abbrev pub IsReady : String → Type 0
  IsReady i =
      (i ≢ "")
      × Exists (λ j. j ≡ i) db.revisions
      × IsValidated i
      × ((settings.require_champion_candidate ≡ false)
          ⊎ (¬ Exists (IsFrom i) db.candidates)
          ⊎ Exists (λ (c : Candidate). IsFrom i c × (c.state ≡ CandidateState.champion))
              db.candidates)

  known_iff : (i : String) → (has_revision i db ≡ true) ↔ Exists (λ j. j ≡ i) db.revisions
  known_iff i = any-Exists _ _ db.revisions λ j. eq_iff j i

  enough_iff :
      (completed : Bool) (trades : ℕ)
      → ((completed && leb settings.min_trades trades) ≡ true)
        ↔ ((completed ≡ true) × (settings.min_trades ≤ trades))
  enough_iff completed trades = ground arith

  backtest_iff :
      (i : String) (r : BacktestRun)
      → ((is_backtest_of i r.revision_id
            && (r.is_completed && leb settings.min_trades r.total_trades))
          ≡ true)
        ↔ ((r.revision_id ≡ some i)
            × (r.is_completed ≡ true)
            × (settings.min_trades ≤ r.total_trades))
  backtest_iff i r =
      let (split, join) =
        both (is_backtest_of i r.revision_id)
          (r.is_completed && leb settings.min_trades r.total_trades) in
      let enough = enough_iff r.is_completed r.total_trades in
      (
        λ h.
            let (completed, trades) = enough.0 (split h).1 in
            ((given_iff i r.revision_id).0 (split h).0, completed, trades),
        λ (same, completed, trades).
            join ((given_iff i r.revision_id).1 same, enough.1 (completed, trades)),
      )

  run_iff :
      (i : String) (r : ExperimentRun)
      → ((str_eq r.revision_id i && (r.is_completed && leb settings.min_trades r.total_trades))
          ≡ true)
        ↔ ((r.revision_id ≡ i) × (r.is_completed ≡ true) × (settings.min_trades ≤ r.total_trades))
  run_iff i r = ground (arith, eq_iff r.revision_id i)

  IsValidated-iff : (i : String) → (has_successful_validation settings i db ≡ true) ↔ IsValidated i
  unfolding has_successful_validation
  IsValidated-iff i =
      let old = any-Exists _ _ db.backtests (backtest_iff i) in
      let new = any-Exists _ _ db.runs (run_iff i) in
      let (split, join) = either _ _ in
      (
        λ h. elim (split h) [ inl a ↦ inl (old.0 a) | inr b ↦ inr (new.0 b) ],
        λ h. join (elim h [ inl a ↦ inl (old.1 a) | inr b ↦ inr (new.1 b) ]),
      )

  IsFrom-iff : (i : String) (c : Candidate) → (traces_to i db c ≡ true) ↔ IsFrom i c
  IsFrom-iff i c =
      any-Exists _ _ db.experiments
        λ e. ground (arith, eq_iff e.experiment_id c.experiment_id, eq_iff e.revision_id i)

  lineage_iff :
      (i : String) → (revision_has_candidate_lineage i db ≡ true) ↔ Exists (IsFrom i) db.candidates
  unfolding revision_has_candidate_lineage
  lineage_iff i = any-Exists _ _ db.candidates (IsFrom-iff i)

  champion_iff :
      (i : String)
      → (revision_has_champion i db ≡ true)
        ↔ Exists (λ (c : Candidate). IsFrom i c × (c.state ≡ CandidateState.champion)) db.candidates
  unfolding revision_has_champion
  champion_iff i = any-Exists _ _ db.candidates λ c.
      let (split, join) = both (traces_to i db c) (is_champion c.state) in
      (
        λ h. ((IsFrom-iff i c).0 (split h).0, (crowned_iff c.state).0 (split h).1),
        λ (f, e). join ((IsFrom-iff i c).1 f, (crowned_iff c.state).1 e),
      )

  checks_iff :
      (i : String)
      → (allow_revision settings db i ≡ true) ↔ (
          (i ≢ "")
          × (has_revision i db ≡ true)
          × (has_successful_validation settings i db ≡ true)
          × ((settings.require_champion_candidate ≡ false)
              ⊎ (revision_has_candidate_lineage i db ≡ false)
              ⊎ (revision_has_champion i db ≡ true)))
  unfolding allow_revision
  checks_iff i = ground (arith, eq_iff i "")

  allow_revision_iff : (i : String) → (allow_revision settings db i ≡ true) ↔ IsReady i
  allow_revision_iff i =
      let (there, back) = checks_iff i in
      (
        λ h.
            let (given, known, validated, crowned) = there h in
            (
              given,
              (known_iff i).0 known,
              (IsValidated-iff i).0 validated,
              elim crowned [
                | inl n ↦ inl n
                | inr (inl l) ↦ inr (inl λ x. cc (sym l ∙ (lineage_iff i).1 x))
                | inr (inr c) ↦ inr (inr ((champion_iff i).0 c))
              ],
            ),
        λ (given, known, validated, crowned). back (
          given,
          (known_iff i).1 known,
          (IsValidated-iff i).1 validated,
          elim crowned [
            | inl n ↦ inl n
            | inr (inl l) ↦ elim (Bool-cases (revision_has_candidate_lineage i db)) [
              | inl t ↦ absurd (l ((lineage_iff i).0 t))
              | inr f ↦ inr (inl f)
            ]
            | inr (inr c) ↦ inr (inr ((champion_iff i).1 c))
          ],
        ),
      )

  started_iff :
      (revision_id : Option String)
      → (allow_start settings db revision_id ≡ true) ↔ (
          (is_production settings.environment ≡ false)
          ⊎ ((i : String) × (revision_id ≡ some i) × IsReady i))
  unfolding allow_start
  started_iff none = elim (Bool-cases (is_production settings.environment)) [
    | inl e ↦ (
      λ h. absurd (cc (rw (allow_start, e) at h)),
      λ h. elim h [ inl n ↦ absurd (cc (sym n ∙ e)) | inr (i, is_i, _) ↦ absurd (cc is_i) ],
    )
    | inr e ↦ (λ _. inl e, λ _. rw (allow_start, e) refl)
  ]
  started_iff (some i) = elim (Bool-cases (is_production settings.environment)) [
    | inl e ↦ (
      λ h. inr (i, refl, (allow_revision_iff i).0 (rw (allow_start, e) at h)),
      λ h. elim h [
        | inl n ↦ absurd (cc (sym n ∙ e))
        | inr (j, same, ready) ↦
            rw (allow_start, e) ((allow_revision_iff i).1 (rw (← some-injective _ _ same) at ready))
      ],
    )
    | inr e ↦ (λ _. inl e, λ _. rw (allow_start, e) refl)
  ]

  -- Outside production every start is allowed. In production exactly that of a revision is allowed that is
  -- given, known and validated by a completed run of it with trades enough, and for which a candidate
  -- from an experiment on it is champion, where that is asked for and it has candidates.
  pub allow_start_iff :
      (revision_id : Option String)
      → (allow_start settings db revision_id ≡ true) ↔ (
          (settings.environment ≢ Environment.production)
          ⊎ ((i : String) × (revision_id ≡ some i) × IsReady i))
  allow_start_iff revision_id =
      let (there, back) = started_iff revision_id in
      let (away, home) = production_iff settings.environment in
      (
        λ h. elim (there h) [ inl n ↦ inl (away n) | inr r ↦ inr r ],
        λ h. back (elim h [ inl n ↦ inl (home n) | inr r ↦ inr r ]),
      )
