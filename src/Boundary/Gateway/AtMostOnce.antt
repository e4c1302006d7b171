-- ===== src/Boundary/Gateway/AtMostOnce.antt =====
-- A permit reaches an executor at most once, and what is terminal stays so.
use safe_agent.Prelude.{
  ℕ, ◌+◌, ◌≤◌, String, ◌≡◌, refl, Bool, true, false, not, Option, none, some, List, [], ◌∷◌, arith,
  if◌then◌else◌, str_eq, eq_iff, inl, inr, Option-cases,
}
use safe_agent.Prelude.Action.{Result, ok, err, is_ok}
use safe_agent.Prelude.Dict.{lookup, insert, lookup-insert, lookup-update}
use safe_agent.Prelude.Json.{Value, null}
use safe_agent.Boundary.Permit.{ActionRequest, PermitClaims, Provider, Fault, claims_dict}
use safe_agent.Boundary.Ledger.{
  finalize_text, Status, settled, pending_reconciliation, PermitRow, Ledger, consume, finalize,
  fresh_row, dispatch_row, close_row, is_issued, is_terminal, consume_row, finalize_row,
  result_text,
}
use safe_agent.Boundary.Gateway.{
  dispatch_text, dispatch_claims, Effect, returned, raised, interrupted, Boundary, authorize,
  after_executor, dispatch, consume_with,
}

abbrev row_spent : Option PermitRow → Bool
row_spent none = false
row_spent (some row) = not (is_issued row.status)

-- The permit has been consumed.
abbrev pub is_spent : String → Ledger → Bool
is_spent j ledger = row_spent (lookup j ledger.permits)

consume_row-spends :
    (claims : PermitClaims) (now : ℕ) (row : PermitRow) (l : Ledger) (j : String)
    → lookup claims.permit_id l.permits ≡ some row
    → is_ok (consume_row claims now row l.permits l).0 ≡ true
    → (is_issued row.status ≡ true)
      × (is_spent j (consume_row claims now row l.permits l).1
          ≡ (if str_eq claims.permit_id j then true else is_spent j l))
consume_row-spends claims now row l j e h = ground (
  arith,
  eq_iff claims.permit_id j,
  lookup-update claims.permit_id j (dispatch_row now) l.permits,
)

-- A consumption that succeeds spends a permit that was not spent, and no other.
pub consume_spends :
    (token_hash claims_json : String) (claims : PermitClaims) (now : ℕ) (l : Ledger) (j : String)
    → is_ok (consume token_hash claims_json claims now l).0 ≡ true
    → (is_spent claims.permit_id l ≡ false)
      × (is_spent j (consume token_hash claims_json claims now l).1
          ≡ (if str_eq claims.permit_id j then true else is_spent j l))
unfolding consume
consume_spends token_hash claims_json claims now l j h =
    elim (Option-cases (lookup claims.permit_id l.permits)) [
      | inl new ↦ ground (
        arith,
        eq_iff claims.permit_id j,
        eq_iff claims.permit_id claims.permit_id,
        lookup-update claims.permit_id j (dispatch_row now)
            (insert claims.permit_id (fresh_row token_hash claims_json) l.permits),
        lookup-insert claims.permit_id j (fresh_row token_hash claims_json) l.permits,
      )
      | inr (row, e) ↦
          ground (arith, eq_iff claims.permit_id j, consume_row-spends claims now row l j e)
    ]

pub consume_refused :
    (token_hash claims_json : String) (claims : PermitClaims) (now : ℕ) (l : Ledger)
    → is_ok (consume token_hash claims_json claims now l).0 ≡ false
    → (consume token_hash claims_json claims now l).1 ≡ l
unfolding consume
consume_refused token_hash claims_json claims now l h = ground arith

finalize_row-spent :
    (i : String) (status : Status) (reason : String) (text : Option String) (now : ℕ)
    (o : Option PermitRow) (l : Ledger) (j : String)
    → is_terminal status ≡ true
    → lookup i l.permits ≡ o
    → is_spent j (finalize_row i status reason text now o l).1 ≡ is_spent j l
finalize_row-spent i status reason text now none l j t e = refl
finalize_row-spent i status reason text now (some row) l j t e =
    ground (arith, eq_iff i j, lookup-update i j (close_row status reason text now) l.permits)

finalize_text-spent :
    (i : String) (status : Status) (reason : String) (now : ℕ) (r : Option (Option String))
    (l : Ledger) (j : String)
    → is_terminal status ≡ true
    → is_spent j (finalize_text i status reason now r l).1 ≡ is_spent j l
finalize_text-spent i status reason now none l j t = refl
finalize_text-spent i status reason now (some text) l j t =
    finalize_row-spent i status reason text now (lookup i l.permits) l j t refl

module _ (p : Provider) where
  -- A finalization spends nothing and frees nothing.
  pub finalize-spent :
      (i : String) (status : Status) (reason : String) (result : Value) (now : ℕ) (l : Ledger)
      (j : String)
      → is_spent j (finalize p i status reason result now l).1 ≡ is_spent j l
  unfolding finalize
  finalize-spent i status reason result now l j =
      ground (arith, finalize_text-spent i status reason now (result_text p result) l j)

  pub after_executor-spent :
      (claims : PermitClaims) (request : ActionRequest) (now : ℕ) (effect : Effect) (b : Boundary)
      (j : String)
      → (is_spent j (after_executor p claims request now effect b).1.ledger ≡ is_spent j b.ledger)
        × ((after_executor p claims request now effect b).1.executed ≡ b.executed)
  unfolding after_executor
  after_executor-spent claims request now raised b j = (
    finalize-spent claims.permit_id pending_reconciliation "executor_outcome_unknown" null now
        b.ledger j,
    refl,
  )
  after_executor-spent claims request now interrupted b j = (refl, refl)
  after_executor-spent claims request now (returned v) b j = ground (
    arith,
    finalize-spent claims.permit_id settled "executor_returned" v now b.ledger j,
    finalize-spent claims.permit_id pending_reconciliation "result_not_serializable" null now
        (finalize p claims.permit_id settled "executor_returned" v now b.ledger).1 j,
  )

-- The calls of an executor that a log holds for a permit.
unfoldable pub calls_for : String → List String → ℕ
calls_for j [] = 0
calls_for j (i ∷ log) = (if str_eq i j then 1 else 0) + calls_for j log

abbrev potential : String → Boundary → ℕ
potential j b = calls_for j b.executed + (if is_spent j b.ledger then 0 else 1)

module _ (p : Provider) where
  consume_with-potential :
      (token text : String) (claims : PermitClaims) (request : ActionRequest)
      (executor : ActionRequest → Effect) (now : ℕ) (b : Boundary) (j : String)
      → potential j (consume_with p token text claims request executor now b).1 ≤ potential j b
  unfolding calls_for
  consume_with-potential token text claims request executor now b j =
      let (r, l) = consume (p.sha256 token) text claims now b.ledger in
      let b' : Boundary = record { ledger = l; executed = claims.permit_id ∷ b.executed } in
      ground (
        arith,
        eq_iff claims.permit_id j,
        consume_spends (p.sha256 token) text claims now b.ledger j,
        consume_refused (p.sha256 token) text claims now b.ledger,
        after_executor-spent p claims request now (executor request) b' j,
      )

  dispatch_text-potential :
      (token : String) (claims : PermitClaims) (request : ActionRequest)
      (executor : ActionRequest → Effect) (now : ℕ) (o : Option String) (b : Boundary) (j : String)
      → potential j (dispatch_text p token claims request executor now o b).1 ≤ potential j b
  dispatch_text-potential token claims request executor now none b j = omega arith
  dispatch_text-potential token claims request executor now (some text) b j =
      consume_with-potential token text claims request executor now b j

  dispatch_claims-potential :
      (token : String) (request : ActionRequest) (executor : ActionRequest → Effect) (now : ℕ)
      (r : Result Fault PermitClaims) (b : Boundary) (j : String)
      → potential j (dispatch_claims p token request executor now r b).1 ≤ potential j b
  dispatch_claims-potential token request executor now (err e) b j = omega arith
  dispatch_claims-potential token request executor now (ok claims) b j =
      dispatch_text-potential token claims request executor now (p.dumps (claims_dict claims)) b j

-- One call of `dispatch`.
pub record Attempt : Type 0 where
  pub token : String
  pub request : ActionRequest
  pub executor : ActionRequest → Effect
  pub now : ℕ

module _ (p : Provider) (public_key_hex : String) where
  pub dispatch_all : List Attempt → Boundary → Boundary
  dispatch_all [] b = b
  dispatch_all (a ∷ attempts) b =
      dispatch_all attempts (dispatch p public_key_hex a.token a.request a.executor a.now b).1

  dispatch_all-potential :
      (attempts : List Attempt) (b : Boundary) (j : String)
      → potential j (dispatch_all attempts b) ≤ potential j b
  unfolding dispatch_all dispatch
  dispatch_all-potential [] b j = omega arith
  dispatch_all-potential (a ∷ attempts) b j = omega (
    arith,
    dispatch_claims-potential p a.token a.request a.executor a.now
        (authorize p public_key_hex a.token a.request a.now) b j,
    dispatch_all-potential attempts
        (dispatch p public_key_hex a.token a.request a.executor a.now b).1 j,
  )

-- Whatever tokens, requests, executors and times are tried, in any order and number: a permit id
-- reaches an executor at most once, and never when the ledger holds it as consumed from the start.
pub permit_executes_at_most_once :
    (p : Provider) (public_key_hex : String) (attempts : List Attempt) (b : Boundary) (j : String)
    → let b' = dispatch_all p public_key_hex attempts b in
      calls_for j b'.executed ≤ calls_for j b.executed + (if is_spent j b.ledger then 0 else 1)
permit_executes_at_most_once p public_key_hex attempts b j =
    ground (arith, dispatch_all-potential p public_key_hex attempts b j)
