-- ===== src/Settlement/StateMachine.antt =====
-- settlement/state_machine.py
use safe_agent.Prelude.{ℕ, ◌<◌, ◌≡◌, Bool, true, false, ◌||◌, List, [], ◌∷◌, arith, if◌then◌else◌}
use safe_agent.Prelude.Action.{Result, ok, err, Action}
use safe_agent.Settlement.Models.{
  CaseState, opened, resolved_provisional, in_reconciliation, final, settled, same_state, Case,
  Fault, invalid_transition,
}

pub valid_transitions : CaseState → List CaseState
valid_transitions opened = resolved_provisional ∷ in_reconciliation ∷ []
valid_transitions resolved_provisional = in_reconciliation ∷ final ∷ []
valid_transitions in_reconciliation = final ∷ []
valid_transitions final = settled ∷ []
valid_transitions settled = []

-- `state in states`
abbrev pub is_in : CaseState → List CaseState → Bool
is_in s [] = false
is_in s (t ∷ ts) = same_state s t || is_in s ts

unfoldable pub can_transition : CaseState → CaseState → Bool
unfolding valid_transitions
can_transition from_state to_state = is_in to_state (valid_transitions from_state)

unfoldable pub validate_transition : CaseState → CaseState → Result Fault (Unit {0})
unfolding valid_transitions
validate_transition from_state to_state =
    if is_in to_state (valid_transitions from_state)
    then ok tt
    else err (invalid_transition from_state to_state)

abbrev write_state : CaseState → Case → Result Fault (Unit {0}) → Result Fault (Unit {0}) × Case
write_state new_state case (ok _) = (ok tt, record case { state = new_state })
write_state new_state case (err e) = (err e, case)

unfoldable pub set_case_state : CaseState → Action Case Fault (Unit {0})
unfolding validate_transition
set_case_state new_state case =
    write_state new_state case (validate_transition case.state new_state)

-- The alias for older imports.
unfoldable pub set_state : CaseState → Action Case Fault (Unit {0})
unfolding set_case_state
set_state = set_case_state

-- The place of a state in the lifecycle.
abbrev pub rank : CaseState → ℕ
rank opened = 0
rank resolved_provisional = 1
rank in_reconciliation = 2
rank final = 3
rank settled = 4

-- Every allowed transition goes forward.
pub can_transition-lt : (s t : CaseState) → can_transition s t ≡ true → rank s < rank t
unfolding can_transition
can_transition-lt opened t h = ground arith
can_transition-lt resolved_provisional t h = ground arith
can_transition-lt in_reconciliation t h = ground arith
can_transition-lt final t h = ground arith
can_transition-lt settled t h = cc
