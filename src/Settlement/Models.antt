-- ===== src/Settlement/Models.antt =====
-- settlement/models.py. A confidence and a time are stored and never computed with here: a
-- confidence is a number of millionths, a time a clock reading.
use safe_agent.Prelude.{ℕ, String, Bool, true, false, Option}
use safe_agent.Prelude.Dict.{Dict}
use safe_agent.Prelude.Json.{Fields}

-- `opened` is `CaseState.OPEN`.
pub data CaseState : Type 0 where
  opened resolved_provisional in_reconciliation final settled : CaseState

-- `==` of two members of the enum
abbrev pub same_state : CaseState → CaseState → Bool
same_state opened opened = true
same_state resolved_provisional resolved_provisional = true
same_state in_reconciliation in_reconciliation = true
same_state final final = true
same_state settled settled = true
same_state _ _ = false

pub record OutcomeSignal : Type 0 where
  pub case_id : String
  pub source : String
  pub outcome : String
  pub confidence : ℕ
  pub received_at : ℕ
  pub signal_id : String
  pub meta : Fields

pub record Case : Type 0 where
  pub case_id : String
  pub state : CaseState
  pub final_outcome : Option String
  pub signals : Dict OutcomeSignal
  pub settled_at : Option ℕ
  pub settlement_id : Option String
  pub reconciliation_reason : Option String

-- What the package raises: `InvalidTransitionError`, `SettlementError` with the state that it
-- names, and the `ValueError` of `resolve_reconciliation`.
pub data Fault : Type 0 where
  invalid_transition : CaseState → CaseState → Fault
  settlement_error : CaseState → Fault
  cannot_finalize : Fault
