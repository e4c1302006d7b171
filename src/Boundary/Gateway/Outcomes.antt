-- ===== src/Boundary/Gateway/Outcomes.antt =====
-- How a dispatch ends: refused with nothing done, or executed with a terminal row and its receipt.
use safe_agent.Prelude.Dict.{Dict, lookup, insert, lookup-insert, lookup-update}
use safe_agent.Prelude.{
  ℕ, String, ◌≡◌, refl, Bool, true, false, Option, none, some, ◌∷◌, arith, eq_iff, inl, inr,
  Option-cases,
}
use safe_agent.Prelude.Action.{Result, ok, err, is_ok}
use safe_agent.Prelude.Json.{Value}
use safe_agent.Boundary.Permit.{ActionRequest, PermitClaims, Provider, Fault, claims_dict}
use safe_agent.Boundary.Ledger.{
  Status, dispatched, settled, pending_reconciliation, PermitRow, Ledger, consume, finalize,
  finalize_text, fresh_row, dispatch_row, close_row, consume_row, result_text,
}
use safe_agent.Boundary.Gateway.{
  dispatch_text, dispatch_claims, Effect, returned, raised, interrupted, Boundary, DispatchReceipt,
  authorize, after_executor, dispatch,
}
use safe_agent.Boundary.Gateway.AtMostOnce.{consume_refused, after_executor-spent}

abbrev status_of_row : Option PermitRow → Option Status
status_of_row none = none
status_of_row (some row) = some row.status

abbrev pub status_of : String → Ledger → Option Status
status_of j ledger = status_of_row (lookup j ledger.permits)

abbrev pub decided : Result Fault DispatchReceipt → Option Status
decided (ok answer) = some answer.decision
decided (err e) = none

abbrev of_text : Option (Option String) → Status
of_text (some text) = settled
of_text none = pending_reconciliation

-- What an executor's end decides: only a result that can be recorded settles, and an interruption
-- decides nothing.
abbrev pub decision_of : Provider → Effect → Status
decision_of p raised = pending_reconciliation
decision_of p interrupted = dispatched
decision_of p (returned result) = of_text (result_text p result)

-- The decision of the receipt that the caller gets, if it gets one.
abbrev pub receipted : Provider → Effect → Option Status
receipted p interrupted = none
receipted p effect = some (decision_of p effect)

consume_row-dispatches :
    (claims : PermitClaims) (now : ℕ) (row : PermitRow) (l : Ledger) (permits : Dict PermitRow)
    → lookup claims.permit_id permits ≡ some row
    → is_ok (consume_row claims now row permits l).0 ≡ true
    → status_of claims.permit_id (consume_row claims now row permits l).1 ≡ some dispatched
consume_row-dispatches claims now row l permits e h = ground (
  arith,
  eq_iff claims.permit_id claims.permit_id,
  lookup-update claims.permit_id claims.permit_id (dispatch_row now) permits,
)

consume-dispatches :
    (token_hash text : String) (claims : PermitClaims) (now : ℕ) (l : Ledger)
    → is_ok (consume token_hash text claims now l).0 ≡ true
    → status_of claims.permit_id (consume token_hash text claims now l).1 ≡ some dispatched
unfolding consume
consume-dispatches token_hash text claims now l h =
    elim (Option-cases (lookup claims.permit_id l.permits)) [
      | inl new ↦ ground (
        arith,
        eq_iff claims.permit_id claims.permit_id,
        lookup-insert claims.permit_id claims.permit_id (fresh_row token_hash text) l.permits,
        consume_row-dispatches claims now (fresh_row token_hash text) l
            (insert claims.permit_id (fresh_row token_hash text) l.permits),
      )
      | inr (row, e) ↦ ground (arith, consume_row-dispatches claims now row l l.permits e)
    ]

finalize_text-closes :
    (i : String) (status : Status) (reason : String) (now : ℕ) (text : Option String) (l : Ledger)
    → status_of i l ≡ some dispatched
    → (is_ok (finalize_text i status reason now (some text) l).0 ≡ true)
      × (status_of i (finalize_text i status reason now (some text) l).1 ≡ some status)
finalize_text-closes i status reason now text l h =
    ground (arith, eq_iff i i, lookup-update i i (close_row status reason text now) l.permits)

module _ (p : Provider) where
  raised-closes :
      (claims : PermitClaims) (request : ActionRequest) (now : ℕ) (b : Boundary)
      → status_of claims.permit_id b.ledger ≡ some dispatched
      → (decided (after_executor p claims request now raised b).0 ≡ some pending_reconciliation)
        × (status_of claims.permit_id (after_executor p claims request now raised b).1.ledger
            ≡ some pending_reconciliation)
  unfolding after_executor finalize
  raised-closes claims request now b h = ground (
    arith,
    finalize_text-closes claims.permit_id pending_reconciliation "executor_outcome_unknown" now none
        b.ledger h,
  )

  returned-closes :
      (claims : PermitClaims) (request : ActionRequest) (now : ℕ) (v : Value)
      (r : Option (Option String)) (b : Boundary)
      → result_text p v ≡ r
      → status_of claims.permit_id b.ledger ≡ some dispatched
      → (decided (after_executor p claims request now (returned v) b).0 ≡ some (of_text r))
        × (status_of claims.permit_id (after_executor p claims request now (returned v) b).1.ledger
            ≡ some (of_text r))
  unfolding after_executor finalize
  returned-closes claims request now v (some text) b e h =
      rw (e, after_executor, finalize)
        (ground (
          arith,
          finalize_text-closes claims.permit_id settled "executor_returned" now text b.ledger h,
        ))
  returned-closes claims request now v none b e h =
      rw (e, after_executor, finalize)
        (ground (
          arith,
          finalize_text-closes claims.permit_id pending_reconciliation "result_not_serializable" now
              none b.ledger h,
        ))

  after_executor-closes :
      (claims : PermitClaims) (request : ActionRequest) (now : ℕ) (effect : Effect) (b : Boundary)
      → status_of claims.permit_id b.ledger ≡ some dispatched
      → (decided (after_executor p claims request now effect b).0 ≡ receipted p effect)
        × (status_of claims.permit_id (after_executor p claims request now effect b).1.ledger
            ≡ some (decision_of p effect))
  unfolding after_executor
  after_executor-closes claims request now raised b h = raised-closes claims request now b h
  after_executor-closes claims request now interrupted b h = (refl, h)
  after_executor-closes claims request now (returned v) b h =
      returned-closes claims request now v (result_text p v) b refl h

-- Once a permit is authorized and consumed, the executor is called. Where it returns or raises an
-- `Exception`, the call returns a receipt, and receipt and ledger agree on how it ended: settled only
-- for a result that could be recorded, and otherwise pending reconciliation. Where it is interrupted
-- by what is no `Exception`, the caller gets no receipt and the row stays dispatched.
pub dispatch_ends_terminal :
    (p : Provider) (key token : String) (request : ActionRequest)
    (executor : ActionRequest → Effect) (now : ℕ) (b : Boundary) (claims : PermitClaims)
    (text : String)
    → authorize p key token request now ≡ ok claims
    → p.dumps (claims_dict claims) ≡ some text
    → is_ok (consume (p.sha256 token) text claims now b.ledger).0 ≡ true
    → let (answer, b') = dispatch p key token request executor now b in
      (b'.executed ≡ claims.permit_id ∷ b.executed)
      × (decided answer ≡ receipted p (executor request))
      × (status_of claims.permit_id b'.ledger ≡ some (decision_of p (executor request)))
unfolding dispatch
dispatch_ends_terminal p key token request executor now b claims text a d c =
    let l = (consume (p.sha256 token) text claims now b.ledger).1 in
    let b' : Boundary = record { ledger = l; executed = claims.permit_id ∷ b.executed } in
    rw (a, d)
      (ground (
        arith,
        c,
        after_executor-spent p claims request now (executor request) b' "",
        after_executor-closes p claims request now (executor request) b'
            (consume-dispatches (p.sha256 token) text claims now b.ledger c),
      ))

abbrev grants_text : Provider → String → ℕ → Boundary → PermitClaims → Option String → Bool
grants_text p token now b claims none = false
grants_text p token now b claims (some text) =
    is_ok (consume (p.sha256 token) text claims now b.ledger).0

-- The authorization succeeded and the ledger grants the consumption.
abbrev pub grants : Provider → String → ℕ → Boundary → Result Fault PermitClaims → Bool
grants p token now b (err e) = false
grants p token now b (ok claims) = grants_text p token now b claims (p.dumps (claims_dict claims))

dispatch_text-refused :
    (p : Provider) (token : String) (request : ActionRequest) (executor : ActionRequest → Effect)
    (now : ℕ) (b : Boundary) (claims : PermitClaims) (o : Option String)
    → grants_text p token now b claims o ≡ false
    → (is_ok (dispatch_text p token claims request executor now o b).0 ≡ false)
      × ((dispatch_text p token claims request executor now o b).1 ≡ b)
dispatch_text-refused p token request executor now b claims none h = (refl, refl)
dispatch_text-refused p token request executor now b claims (some text) h =
    ground (arith, h, consume_refused (p.sha256 token) text claims now b.ledger h)

dispatch_claims-refused :
    (p : Provider) (token : String) (request : ActionRequest) (executor : ActionRequest → Effect)
    (now : ℕ) (b : Boundary) (r : Result Fault PermitClaims)
    → grants p token now b r ≡ false
    → (is_ok (dispatch_claims p token request executor now r b).0 ≡ false)
      × ((dispatch_claims p token request executor now r b).1 ≡ b)
dispatch_claims-refused p token request executor now b (err e) h = (refl, refl)
dispatch_claims-refused p token request executor now b (ok claims) h =
    dispatch_text-refused p token request executor now b claims (p.dumps (claims_dict claims)) h

-- The boundary fails closed: where the authorization raises or the ledger refuses the consumption,
-- the call raises, no executor is called and the ledger is as before.
pub dispatch_fails_closed :
    (p : Provider) (key token : String) (request : ActionRequest)
    (executor : ActionRequest → Effect) (now : ℕ) (b : Boundary)
    → grants p token now b (authorize p key token request now) ≡ false
    → (is_ok (dispatch p key token request executor now b).0 ≡ false)
      × ((dispatch p key token request executor now b).1 ≡ b)
unfolding dispatch
dispatch_fails_closed p key token request executor now b h =
    dispatch_claims-refused p token request executor now b (authorize p key token request now) h
