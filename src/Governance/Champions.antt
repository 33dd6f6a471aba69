-- ===== src/Governance/Champions.antt =====
-- The number of champions and the ids of the rows under the updates of governance/candidate_store.py.
use quantitative_trading.Prelude.{
  ◌≡◌, ◌≤◌, ℕ, ◌+◌, refl, Bool, false, List, [], ◌∷◌, String, eq_iff, arith, length, filter, any,
  Bool-cases, inl, inr,
}
use quantitative_trading.Governance.Candidates.{
  CandidateState, Candidate, is_champion, is_row, set_state, archive_champions,
}

abbrev pub is_crowned : Candidate → Bool
is_crowned row = is_champion row.state

-- the number of champions
abbrev pub champions : List Candidate → ℕ
champions rows = length (filter is_crowned rows)

-- some row has this id
abbrev pub has_row : String → List Candidate → Bool
has_row i rows = any (is_row i) rows

-- the primary key: no two rows have one id
abbrev pub AreKeyed : List Candidate → Type 0
AreKeyed [] = Unit
AreKeyed (row ∷ rows) = (has_row row.candidate_id rows ≡ false) × AreKeyed rows

has_row-set_state :
    (j i : String) (state : CandidateState) (rows : List Candidate)
    → has_row j (set_state i state rows) ≡ has_row j rows
has_row-set_state j i state [] = refl
has_row-set_state j i state (row ∷ rows) = ground (arith, has_row-set_state j i state rows)

pub AreKeyed-set_state :
    (i : String) (state : CandidateState) (rows : List Candidate)
    → AreKeyed rows
    → AreKeyed (set_state i state rows)
AreKeyed-set_state i state [] k = tt
AreKeyed-set_state i state (row ∷ rows) k =
    ground (arith, has_row-set_state row.candidate_id i state rows, AreKeyed-set_state i state rows)

has_row-archive_champions :
    (j : String) (rows : List Candidate) → has_row j (archive_champions rows) ≡ has_row j rows
has_row-archive_champions j [] = refl
has_row-archive_champions j (row ∷ rows) = ground (arith, has_row-archive_champions j rows)

pub AreKeyed-archive_champions :
    (rows : List Candidate) → AreKeyed rows → AreKeyed (archive_champions rows)
AreKeyed-archive_champions [] k = tt
AreKeyed-archive_champions (row ∷ rows) k =
    ground (arith, has_row-archive_champions row.candidate_id rows, AreKeyed-archive_champions rows)

pub champions-archive_champions : (rows : List Candidate) → champions (archive_champions rows) ≡ 0
champions-archive_champions [] = refl
champions-archive_champions (row ∷ rows) = ground (arith, champions-archive_champions rows)

pub champions-set_state_other :
    (i : String) (state : CandidateState) (rows : List Candidate)
    → is_champion state ≡ false
    → champions (set_state i state rows) ≤ champions rows
champions-set_state_other i state [] h = omega arith
champions-set_state_other i state (row ∷ rows) h =
    ground (arith, champions-set_state_other i state rows)

set_state_absent :
    (i : String) (state : CandidateState) (rows : List Candidate)
    → has_row i rows ≡ false
    → set_state i state rows ≡ rows
set_state_absent i state [] h = refl
set_state_absent i state (row ∷ rows) h = ground (arith, set_state_absent i state rows)

pub champions-set_state :
    (i : String) (state : CandidateState) (rows : List Candidate)
    → AreKeyed rows
    → champions (set_state i state rows) ≤ champions rows + 1
champions-set_state i state [] k = omega arith
champions-set_state i state (row ∷ rows) k = elim (Bool-cases (is_row i row)) [
  | inl same ↦
      let absent : has_row i rows ≡ false = rw (← (eq_iff row.candidate_id i).0 same) k.0 in
      rw (same, set_state_absent i state rows absent) (ground arith)
  | inr other ↦ rw other (ground (arith, champions-set_state i state rows))
]
