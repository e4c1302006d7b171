-- ===== src/Execution/Submit.antt =====
-- settlement/settlement_requests.py: `SettlementRequestRegistry.submit`, which settles a case once
-- through settlement/gate.py and remembers the settlement id under each request id.
pub mod Once
use safe_agent.Prelude.{ℕ, String, Bool, true, false, Option, none, some, if◌then◌else◌}
use safe_agent.Prelude.Action.{Result, ok, err}
use safe_agent.Prelude.Dict.{lookup, insert}
use safe_agent.Prelude.Text.{is_blank}
use safe_agent.Settlement.Models.{Case, Fault, settlement_error}
use safe_agent.Settlement.Gate.{attempt_settlement, truthy}
use safe_agent.Execution.Registry.{Registry}

-- The reason texts; a blocked one carries what the gate raised.
pub data SubmitReason : Type 0 where
  missing_request_id dedup_same_request_id already_settled now_settled : SubmitReason
  settlement_blocked : Fault → SubmitReason

pub record SettlementRequestResult : Type 0 where
  pub ok : Bool
  pub settlement_id : Option String
  pub reason : SubmitReason

pub record Desk : Type 0 where
  pub registry : Registry
  pub case : Case

abbrev answer : Bool → Option String → SubmitReason → SettlementRequestResult
answer was_ok settlement_id reason = record {
  ok = was_ok;
  settlement_id = settlement_id;
  reason = reason;
}

-- `_settlement_requests[request_id] = sid`, with its time
abbrev remember : String → String → ℕ → Registry → Registry
remember request_id sid now registry = record registry {
  settlement_requests = insert request_id sid registry.settlement_requests;
  settlement_created_at = insert request_id now registry.settlement_created_at;
}

-- What `submit` does with the answer of the gate: only a `SettlementError` is caught.
abbrev after_gate :
    String → ℕ → Registry → Result Fault String × Case → Result Fault SettlementRequestResult × Desk
after_gate request_id now registry (ok sid, case) = (
  ok (answer true (some sid) now_settled),
  record { registry = remember request_id sid now registry; case = case },
)
after_gate request_id now registry (err (settlement_error state), case) = (
  ok (answer false none (settlement_blocked (settlement_error state))),
  record { registry = registry; case = case },
)
after_gate request_id now registry (err fault, case) =
    (err fault, record { registry = registry; case = case })

unfoldable pub submit :
    (request_id fresh_id : String) (now : ℕ) → Desk → Result Fault SettlementRequestResult × Desk
unfolding attempt_settlement
submit request_id fresh_id now desk =
    if is_blank request_id
    then (ok (answer false none missing_request_id), desk)
    else elim (lookup request_id desk.registry.settlement_requests) [
      | some sid ↦ (ok (answer true (some sid) dedup_same_request_id), desk)
      | none ↦ elim (truthy desk.case.settlement_id) [
        | some sid ↦ (
          ok (answer true (some sid) already_settled),
          record desk { registry = remember request_id sid now desk.registry },
        )
        | none ↦ after_gate request_id now desk.registry (attempt_settlement fresh_id now desk.case)
      ]
    ]
