-- ===== src/Boundary/Gateway.antt =====
-- `BoundaryGateway` of safeagent_exec_guard/boundary.py. `executed` is the log of the permits whose
-- executor was called, the newest first.
pub mod Binding
pub mod AtMostOnce
pub mod Outcomes
use safe_agent.Prelude.{
  ℕ, String, Bool, true, false, not, Option, none, some, List, [], ◌∷◌, str_eq, ltb, leb,
  if◌then◌else◌,
}
use safe_agent.Prelude.Action.{Result, ok, err, Action}
use safe_agent.Prelude.Json.{Value, null}
use safe_agent.Boundary.Permit.{
  ActionRequest, PermitClaims, Provider, Fault, permit_denied, boundary_error, value_error,
  interruption, claims_dict, payload_digest, verify_permit,
}
use safe_agent.Boundary.Ledger.{Status, settled, pending_reconciliation, Ledger, consume, finalize}

pub record DispatchReceipt : Type 0 where
  pub permit_id : String
  pub decision : Status
  pub reason : String
  pub action : String
  pub target : String
  pub run_id : String
  pub dispatched_at : Option ℕ
  pub completed_at : Option ℕ
  pub result : Value

-- How an executor ends: it returns, raises an `Exception`, or raises what is none; what it does to the outside is the entry in the log.
pub data Effect : Type 0 where
  returned : Value → Effect
  raised : Effect
  interrupted : Effect

pub record Boundary : Type 0 where
  pub ledger : Ledger
  pub executed : List String

abbrev receipt : PermitClaims → ActionRequest → Status → String → Value → ℕ → DispatchReceipt
receipt claims request decision reason result now = record {
  permit_id = claims.permit_id;
  decision = decision;
  reason = reason;
  action = request.action;
  target = request.target;
  run_id = request.run_id;
  dispatched_at = some now;
  completed_at = some now;
  result = result;
}

module _ (p : Provider) where
  -- The comparisons of `_authorize`, in their order.
  abbrev pub compare_fields :
      PermitClaims → ActionRequest → (digest : String) → Result Fault PermitClaims
  compare_fields claims request digest =
      if not (str_eq claims.principal request.principal)
      then err (permit_denied "principal_mismatch")
      else if not (str_eq claims.run_id request.run_id)
      then err (permit_denied "run_id_mismatch")
      else if not (str_eq claims.action request.action)
      then err (permit_denied "action_mismatch")
      else if not (str_eq claims.target request.target)
      then err (permit_denied "target_mismatch")
      else if not (str_eq claims.payload_sha256 digest)
      then err (permit_denied "payload_sha256_mismatch")
      else ok claims

  abbrev pub check_claims : PermitClaims → ActionRequest → ℕ → Result Fault PermitClaims
  check_claims claims request now =
      if ltb now claims.issued_at
      then err (permit_denied "permit_not_yet_valid")
      else if leb claims.expires_at now
      then err (permit_denied "permit_expired")
      else elim (payload_digest p request.payload) [
        | none ↦ err value_error
        | some digest ↦ compare_fields claims request digest
      ]

  unfoldable pub authorize :
      (public_key_hex token : String) → ActionRequest → (now : ℕ) → Result Fault PermitClaims
  authorize public_key_hex token request now = elim (verify_permit p token public_key_hex) [
    | err e ↦ err e
    | ok claims ↦ check_claims claims request now
  ]

  -- A `finalize` whose raise goes on to the caller.
  abbrev close_with :
      PermitClaims
      → Status
      → String
      → Value
      → ℕ
      → DispatchReceipt
      → Action Boundary Fault DispatchReceipt
  close_with claims status reason result now answer b =
      let (r, ledger') = finalize p claims.permit_id status reason result now b.ledger in
      (elim r [ ok _ ↦ ok answer | err e ↦ err e ], record b { ledger = ledger' })

  unfoldable pub after_executor :
      PermitClaims → ActionRequest → ℕ → Effect → Action Boundary Fault DispatchReceipt
  after_executor claims request now raised b =
      close_with claims pending_reconciliation "executor_outcome_unknown" null now
        (receipt claims request pending_reconciliation "executor_outcome_unknown" null now) b
  after_executor claims request now interrupted b = (err interruption, b)
  after_executor claims request now (returned result) b =
      let (r, ledger') =
        finalize p claims.permit_id settled "executor_returned" result now b.ledger in
      elim r [
        | ok _ ↦ (
          ok (receipt claims request settled "executor_returned" result now),
          record b { ledger = ledger' },
        )
        | err value_error ↦
            close_with claims pending_reconciliation "result_not_serializable" null now
              (receipt claims request pending_reconciliation "result_not_serializable" null now)
              (record b { ledger = ledger' })
        | err e ↦ (err e, record b { ledger = ledger' })
      ]

  abbrev pub consume_with :
      (token claims_json : String)
      → PermitClaims
      → ActionRequest
      → (ActionRequest → Effect)
      → ℕ
      → Action Boundary Fault DispatchReceipt
  consume_with token claims_json claims request executor now b =
      let (r, ledger') = consume (p.sha256 token) claims_json claims now b.ledger in
      elim r [
        | err e ↦ (err e, record b { ledger = ledger' })
        | ok _ ↦
            after_executor claims request now (executor request)
              (record { ledger = ledger'; executed = claims.permit_id ∷ b.executed })
      ]

  -- What follows the canonical text of the claims.
  abbrev pub dispatch_text :
      (token : String)
      → PermitClaims
      → ActionRequest
      → (ActionRequest → Effect)
      → ℕ
      → Option String
      → Action Boundary Fault DispatchReceipt
  dispatch_text token claims request executor now none b = (err value_error, b)
  dispatch_text token claims request executor now (some claims_json) b =
      consume_with token claims_json claims request executor now b

  -- What follows the authorization.
  abbrev pub dispatch_claims :
      (token : String)
      → ActionRequest
      → (ActionRequest → Effect)
      → ℕ
      → Result Fault PermitClaims
      → Action Boundary Fault DispatchReceipt
  dispatch_claims token request executor now (err e) b = (err e, b)
  dispatch_claims token request executor now (ok claims) b =
      dispatch_text token claims request executor now (p.dumps (claims_dict claims)) b

  unfoldable pub dispatch :
      (public_key_hex token : String)
      → ActionRequest
      → (ActionRequest → Effect)
      → (now : ℕ) → Action Boundary Fault DispatchReceipt
  unfolding authorize after_executor claims_dict
  dispatch public_key_hex token request executor now b =
      dispatch_claims token request executor now (authorize public_key_hex token request now) b
