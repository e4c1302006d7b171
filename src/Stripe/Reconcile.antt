-- ===== src/Stripe/Reconcile.antt =====
-- `reconcile` of safeagent_exec_guard/stripe_gateway.py.
use safe_agent.Prelude.{ℕ, String, Option, none, some}
use safe_agent.Prelude.Action.{Result, ok, err, Action}
use safe_agent.Prelude.Json.{Fields}
use safe_agent.Stripe.Store.{
  Fault, Operation, StripeObservation, StripeStore, get, record_error, record_observation,
  uncertain, value_error,
}

-- What Stripe answers: an object, or an exception with its text.
pub data Answer : Type 0 where
  answered : Fields → Answer
  failed : (error : String) → Answer

-- The `except` of `reconcile`.
abbrev pub fail_reconcile : String → String → ℕ → Action StripeStore Fault StripeObservation
fail_reconcile permit_id error now s = (
  ok (record {
    permit_id = permit_id;
    state = uncertain;
    source = "reconcile";
    payment_intent_id = none;
    payment_intent_status = none;
    last_error = some error;
  }),
  record_error permit_id error "reconcile" now s,
)

-- An exception of `record_observation` is caught as well, with a text of its own.
abbrev pub after_observation :
    (Fault → String)
    → String
    → ℕ
    → Result Fault StripeObservation
    → Action StripeStore Fault StripeObservation
after_observation text permit_id now (ok o) s = (ok o, s)
after_observation text permit_id now (err e) s = fail_reconcile permit_id (text e) now s

abbrev pub settle_answer :
    (Fault → String) → String → String → ℕ → Answer → Action StripeStore Fault StripeObservation
settle_answer text permit_id source now (failed error) s = fail_reconcile permit_id error now s
settle_answer text permit_id source now (answered object) s =
    let (r, s') = record_observation permit_id object source now s in
    after_observation text permit_id now r s'

-- A known PaymentIntent is read back; otherwise the request is made again with its own key.
abbrev pub reconcile_row :
    (String → Answer)
    → (String → String → Answer)
    → (Fault → String)
    → String
    → ℕ
    → Operation
    → Option String
    → Action StripeStore Fault StripeObservation
reconcile_row retrieve create text permit_id now operation (some i) s =
    settle_answer text permit_id "retrieve" now (retrieve i) s
reconcile_row retrieve create text permit_id now operation none s =
    settle_answer text permit_id "idempotent_replay" now
      (create operation.request_json operation.idempotency_key) s

-- `reconcile`, with the two calls of Stripe and `str` of an exception as arguments. A PaymentIntent
-- id in the table is never empty.
unfoldable pub reconcile :
    (retrieve : String → Answer) (create : (request_json idempotency_key : String) → Answer)
    (text : Fault → String) (permit_id : String) (now : ℕ)
    → Action StripeStore Fault StripeObservation
unfolding record_observation record_error get
reconcile retrieve create text permit_id now s = elim (get permit_id s) [
  | none ↦ (err value_error, s)
  | some operation ↦
      reconcile_row retrieve create text permit_id now operation operation.payment_intent_id s
]
