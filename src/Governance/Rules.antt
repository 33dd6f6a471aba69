-- ===== src/Governance/Rules.antt =====
-- What `promote_candidate` of governance/candidate_store.py does, against its rules written out.
use mathlib.Core.Option.{some-injective}
use quantitative_trading.Prelude.{
  ◌≡◌, ◌↔◌, refl, sym, ap, ◌∙◌, Bool, true, false, not, ◌⊎◌, ◌&&◌, some, List, [], ◌∷◌, map, filter,
  String, str_eq, arith, find, Bool-cases, Option-cases, inl, inr, if◌then◌else◌,
}
use quantitative_trading.Governance.Evaluator.{EvaluationDecision}
use quantitative_trading.Governance.Candidates.{
  CandidateState, Candidate, CandidateEvaluation, Session, is_champion, is_promotion, is_valid,
  is_rejected, is_row, set_state, archive_champions, list_candidate_evaluations, latest_accepted,
  promote_row, promote_candidate,
}
use quantitative_trading.Governance.Promotion.{is_promoted}

-- the moves that are allowed: up one rank, out by rejection, and into the archive
pub data IsMove : CandidateState → CandidateState → Type 0 where
  from_candidate_to_challenger : IsMove CandidateState.candidate CandidateState.challenger
  from_candidate_to_rejected : IsMove CandidateState.candidate CandidateState.rejected
  from_candidate_to_archived : IsMove CandidateState.candidate CandidateState.archived
  from_challenger_to_champion : IsMove CandidateState.challenger CandidateState.champion
  from_challenger_to_rejected : IsMove CandidateState.challenger CandidateState.rejected
  from_challenger_to_archived : IsMove CandidateState.challenger CandidateState.archived
  from_champion_to_archived : IsMove CandidateState.champion CandidateState.archived
  from_rejected_to_archived : IsMove CandidateState.rejected CandidateState.archived

allowed : (from to : CandidateState) → is_valid from to ≡ true → IsMove from to
unfolding is_valid
allowed CandidateState.candidate CandidateState.candidate h = absurd (cc h)
allowed CandidateState.candidate CandidateState.challenger h = from_candidate_to_challenger
allowed CandidateState.candidate CandidateState.champion h = absurd (cc h)
allowed CandidateState.candidate CandidateState.rejected h = from_candidate_to_rejected
allowed CandidateState.candidate CandidateState.archived h = from_candidate_to_archived
allowed CandidateState.challenger CandidateState.candidate h = absurd (cc h)
allowed CandidateState.challenger CandidateState.challenger h = absurd (cc h)
allowed CandidateState.challenger CandidateState.champion h = from_challenger_to_champion
allowed CandidateState.challenger CandidateState.rejected h = from_challenger_to_rejected
allowed CandidateState.challenger CandidateState.archived h = from_challenger_to_archived
allowed CandidateState.champion CandidateState.candidate h = absurd (cc h)
allowed CandidateState.champion CandidateState.challenger h = absurd (cc h)
allowed CandidateState.champion CandidateState.champion h = absurd (cc h)
allowed CandidateState.champion CandidateState.rejected h = absurd (cc h)
allowed CandidateState.champion CandidateState.archived h = from_champion_to_archived
allowed CandidateState.rejected CandidateState.candidate h = absurd (cc h)
allowed CandidateState.rejected CandidateState.challenger h = absurd (cc h)
allowed CandidateState.rejected CandidateState.champion h = absurd (cc h)
allowed CandidateState.rejected CandidateState.rejected h = absurd (cc h)
allowed CandidateState.rejected CandidateState.archived h = from_rejected_to_archived
allowed CandidateState.archived CandidateState.candidate h = absurd (cc h)
allowed CandidateState.archived CandidateState.challenger h = absurd (cc h)
allowed CandidateState.archived CandidateState.champion h = absurd (cc h)
allowed CandidateState.archived CandidateState.rejected h = absurd (cc h)
allowed CandidateState.archived CandidateState.archived h = absurd (cc h)

allowed-IsMove : {from to : CandidateState} → IsMove from to → is_valid from to ≡ true
unfolding is_valid
allowed-IsMove from_candidate_to_challenger = refl
allowed-IsMove from_candidate_to_rejected = refl
allowed-IsMove from_candidate_to_archived = refl
allowed-IsMove from_challenger_to_champion = refl
allowed-IsMove from_challenger_to_rejected = refl
allowed-IsMove from_challenger_to_archived = refl
allowed-IsMove from_champion_to_archived = refl
allowed-IsMove from_rejected_to_archived = refl

-- the new rank is one that an evaluation is asked for
abbrev pub IsRaised : CandidateState → Type 0
IsRaised state = (state ≡ CandidateState.challenger) ⊎ (state ≡ CandidateState.champion)

abbrev pub is_crown : CandidateState → Bool
is_crown CandidateState.champion = true
is_crown _ = false

-- A row after a promotion that went through: the one that is promoted has its new state, and another
-- champion is archived where that is asked for.
abbrev pub after : String → CandidateState → (crowns : Bool) → Candidate → Candidate
after i to_state crowns row =
    if str_eq row.candidate_id i
    then record row { state = to_state }
    else if crowns && is_crown row.state
    then record row { state = CandidateState.archived }
    else row

uncrowned : (state : CandidateState) → is_promotion state ≡ false → is_crown state ≡ false
uncrowned state h = ground arith

set_state-after :
    (i : String) (to_state : CandidateState) (crowns : Bool) (rows : List Candidate)
    → set_state i to_state (if crowns then archive_champions rows else rows)
      ≡ map (after i to_state crowns) rows
set_state-after i to_state true [] = refl
set_state-after i to_state false [] = refl
set_state-after i to_state false (row ∷ rows) =
    ap (λ rest. (if is_row i row then record row { state = to_state } else row) ∷ rest)
      (set_state-after i to_state false rows)
set_state-after i to_state true (row ∷ rows) = elim (Bool-cases (is_champion row.state)) [
  | inl e ↦ rw (e, set_state-after i to_state true rows) refl
  | inr e ↦ rw (e, set_state-after i to_state true rows) refl
]

raised : (state : CandidateState) → (is_promotion state ≡ true) ↔ IsRaised state
raised CandidateState.candidate =
    (λ h. absurd (cc h), λ h. elim h [ inl e ↦ absurd (cc e) | inr e ↦ absurd (cc e) ])
raised CandidateState.challenger = (λ _. inl refl, λ _. refl)
raised CandidateState.champion = (λ _. inr refl, λ _. refl)
raised CandidateState.rejected =
    (λ h. absurd (cc h), λ h. elim h [ inl e ↦ absurd (cc e) | inr e ↦ absurd (cc e) ])
raised CandidateState.archived =
    (λ h. absurd (cc h), λ h. elim h [ inl e ↦ absurd (cc e) | inr e ↦ absurd (cc e) ])

decided : (d : EvaluationDecision) → not (is_rejected d) ≡ true → d ≡ EvaluationDecision.accepted
decided EvaluationDecision.accepted h = refl
decided EvaluationDecision.rejected h = absurd (cc h)

module _ {F : Type 0}
    (newest_first : List (CandidateEvaluation F) → List (CandidateEvaluation F)) where
  -- the first of these evaluations accepted
  abbrev pub IsLed : List (CandidateEvaluation F) → Type 0
  IsLed es =
      (e : CandidateEvaluation F) × (rest : List (CandidateEvaluation F)) × (es ≡ e ∷ rest)
      × (e.decision ≡ EvaluationDecision.accepted)

  IsLed-iff :
      (es : List (CandidateEvaluation F)) → (latest_accepted newest_first es ≡ true) ↔ IsLed es
  IsLed-iff [] = (λ h. absurd (cc h), λ (e, rest, p, _). absurd (cc p))
  IsLed-iff (x ∷ xs) = (
    λ h. (x, xs, refl, decided x.decision h),
    λ (e, rest, p, d).
        let same : x.decision ≡ EvaluationDecision.accepted =
          ap
            (λ (ys : List (CandidateEvaluation F)). elim ys [
              | [] ↦ EvaluationDecision.accepted
              | y ∷ _ ↦ y.decision
            ])
            p
          ∙ d in
        rw same refl,
  )

  -- the move is allowed, and where an evaluation is asked for the first of the candidate's, in the
  -- order that the database gives them, accepted it
  abbrev pub IsDue : String → CandidateState → (requires : Bool) → Session F → Candidate → Type 0
  IsDue i to_state requires session row =
      IsMove row.state to_state
      × ((requires ≡ false)
          ⊎ (¬ IsRaised to_state)
          ⊎ IsLed (newest_first (filter (λ e. str_eq e.candidate_id i) session.evaluations)))

  allowed_iff :
      (i : String) (to_state : CandidateState) (requires : Bool) (row : Candidate)
      (session : Session F)
      → (is_promoted (promote_row newest_first i to_state requires row session).0 ≡ true) ↔ (
          (is_valid row.state to_state ≡ true)
          × (((requires && is_promotion to_state) ≡ false)
              ⊎ (latest_accepted newest_first (list_candidate_evaluations newest_first i session)
                  ≡ true)))
  unfolding promote_row
  allowed_iff i to_state requires row session = ground arith

  not_asked : (a b : Bool) → b ≡ true → (a && b) ≡ false → a ≡ false
  not_asked a b h k = ground arith

  IsDue-iff :
      (i : String) (to_state : CandidateState) (requires : Bool) (row : Candidate)
      (session : Session F)
      → (is_promoted (promote_row newest_first i to_state requires row session).0 ≡ true)
        ↔ IsDue i to_state requires session row
  unfolding list_candidate_evaluations
  IsDue-iff i to_state requires row session =
      let (rule, back) = allowed_iff i to_state requires row session in
      (
        λ h. (
          allowed row.state to_state (rule h).0,
          elim (rule h).1 [
            | inl n ↦ elim (Bool-cases (is_promotion to_state)) [
              | inl t ↦ inl (not_asked requires (is_promotion to_state) t n)
              | inr f ↦ inr (inl λ r. cc (sym f ∙ (raised to_state).1 r))
            ]
            | inr a ↦ inr (inr ((IsLed-iff _).0 a))
          ],
        ),
        λ (m, c). back (
          allowed-IsMove m,
          elim c [
            | inl f ↦ inl (rw f refl)
            | inr (inl low) ↦ elim (Bool-cases (is_promotion to_state)) [
              | inl t ↦ absurd (low ((raised to_state).0 t))
              | inr f ↦ inl (ground (arith, f))
            ]
            | inr (inr led) ↦ inr ((IsLed-iff _).1 led)
          ],
        ),
      )

  promote_row-after :
      (i : String) (to_state : CandidateState) (requires : Bool) (row : Candidate)
      (session : Session F)
      → let (r, session') = promote_row newest_first i to_state requires row session in
        (session'.candidates ≡ (
          if is_promoted r
          then map (after i to_state (requires && is_crown to_state)) session.candidates
          else session.candidates))
        × (session'.evaluations ≡ session.evaluations)
  unfolding promote_row
  promote_row-after i to_state false row session = elim (Bool-cases (is_valid row.state to_state)) [
    | inr v ↦ rw v (refl, refl)
    | inl v ↦ rw v (set_state-after i to_state false session.candidates, refl)
  ]
  promote_row-after i to_state true row session =
      let es = list_candidate_evaluations newest_first i session in
      elim (Bool-cases (is_valid row.state to_state)) [
        | inr v ↦ rw v (refl, refl)
        | inl v ↦ elim (Bool-cases (is_promotion to_state)) [
          | inr f ↦
              rw (v, f, uncrowned to_state f)
                (set_state-after i to_state false session.candidates, refl)
          | inl t ↦ elim (Bool-cases (latest_accepted newest_first es)) [
            | inl l ↦
                rw (v, t, l)
                  (set_state-after i to_state (is_champion to_state) session.candidates, refl)
            | inr l ↦ rw (v, t, l) (refl, refl)
          ]
        ]
      ]

  -- A candidate is promoted exactly where its row is there, the move is allowed and, where an evaluation
  -- is asked for and the move is to challenger or champion, the first of its evaluations, in the order
  -- that the database gives them, accepted it. Then its row has the new state, the other champions are
  -- archived if it is crowned with an evaluation asked for, and no other row changes; otherwise none
  -- changes. The evaluations stay.
  pub promote_candidate_iff :
      (i : String) (to_state : CandidateState) (requires : Bool) (session : Session F)
      → let (r, session') = promote_candidate newest_first i to_state requires session in
        ((is_promoted r ≡ true) ↔ (
          (row : Candidate) × (find (λ c. str_eq c.candidate_id i) session.candidates ≡ some row)
          × IsDue i to_state requires session row))
        × (session'.candidates ≡ (
            if is_promoted r
            then map (after i to_state (requires && is_crown to_state)) session.candidates
            else session.candidates))
        × (session'.evaluations ≡ session.evaluations)
  unfolding promote_candidate
  promote_candidate_iff i to_state requires session =
      elim (Option-cases (find (is_row i) session.candidates)) [
        | inl e ↦
            rw (promote_candidate, e)
              ((λ h. absurd (cc h), λ (row, found, _). absurd (cc found)), refl, refl)
        | inr (row, e) ↦
            rw (promote_candidate, e)
              (
                (
                  λ h. (row, refl, (IsDue-iff i to_state requires row session).0 h),
                  λ (other, found, due).
                      (IsDue-iff i to_state requires row session).1
                        (rw (some-injective _ _ found) due),
                ),
                (promote_row-after i to_state requires row session).0,
                (promote_row-after i to_state requires row session).1,
              )
      ]
