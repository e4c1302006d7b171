-- ===== src/Settlement/Gate.antt =====
-- settlement/gate.py. The `uuid4` and the clock reading of a call are its arguments.
use safe_agent.Prelude.{ℕ, String, Option, none, some, str_eq, if◌then◌else◌}
use safe_agent.Prelude.Action.{Action, pure, raise, ◌>>◌}
use safe_agent.Settlement.Models.{final, settled, same_state, Case, Fault, settlement_error}
use safe_agent.Settlement.StateMachine.{set_state}

-- A text field that may be `None`, where Python tests its truth.
abbrev pub truthy : Option String → Option String
truthy none = none
truthy (some s) = if str_eq s "" then none else some s

-- `case.settlement_id` of a case that is already settled.
abbrev pub settled_already : Case → Option String
settled_already case = if same_state case.state settled then truthy case.settlement_id else none

unfoldable pub attempt_settlement : (fresh_id : String) (now : ℕ) → Action Case Fault String
unfolding set_state
attempt_settlement fresh_id now case = elim (settled_already case) [
  | some settlement_id ↦ pure settlement_id case
  | none ↦
      if same_state case.state final
      then (set_state settled >> pure fresh_id)
          (record case { settlement_id = some fresh_id; settled_at = some now })
      else raise (settlement_error case.state) case
]
