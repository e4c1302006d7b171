-- ===== src/Stripe/Correlation.antt =====
-- The request that is kept for a permit, over every sequence of calls.
pub mod Calls
use safe_agent.Stripe.Reconcile.{
  failed, settle_answer, Answer, reconcile, after_observation, reconcile_row, answered,
}
use safe_agent.Stripe.Journal.{
  after_journal, ingest_checked, ingest_parsed, Inserted, apply_to, ingest_webhook, journal,
  event_row, ignored, inserted,
}
use safe_agent.Prelude.Json.{
  null, str, obj, get_field_or, Value, bool, int, negative, arr, other, Fields,
}
use safe_agent.Stripe.Store.{
  WebhookEvent, observe_id, observe_status, observe, Operation, StripeStore, Fault,
  StripeObservation, new_operation, prepare, observe_row, record_observation, decide_row,
  record_boundary_decision, error_row, record_error, get, status_of, find_by_payment_intent,
}
use Prim.Native.String.{◌++◌}
use safe_agent.Prelude.{
  ℕ, String, ◌≡◌, refl, ◌∙◌, true, Option, none, some, List, [], ◌∷◌, arith, eq_iff, is_some, inl,
  inr, Option-cases,
}
use safe_agent.Prelude.Action.{Result, ok, err}
use safe_agent.Prelude.Dict.{lookup, lookup-insert, lookup-update}
use safe_agent.Boundary.Ledger.{Status}
use safe_agent.Stripe.Correlation.Calls.{
  request_of, observation-request, error-request, decision-request, prepare-request,
  ingest_checked-request, reconcile-request,
}

-- One call on the store, with what it is given.
pub data Op : Type 0 where
  prepare_op : (permit_id idempotency_key : String) (request_json : Option String) (now : ℕ) → Op
  observe_op : (permit_id : String) (payment_intent : Fields) (source : String) (now : ℕ) → Op
  decide_op : (permit_id : String) (decision : Status) (now : ℕ) → Op
  error_op : (permit_id error source : String) (now : ℕ) → Op
  webhook_op : (canonical : Value → Option String) (event : Fields) (now : ℕ) → Op
  reconcile_op :
      (retrieve : String → Answer) (create : String → String → Answer) (text : Fault → String)
      (permit_id : String) (now : ℕ)
      → Op

pub apply_op : Op → StripeStore → StripeStore
unfolding prepare record_observation record_boundary_decision record_error ingest_webhook reconcile
apply_op (prepare_op permit_id key request_json now) s =
    (prepare permit_id key request_json now s).1
apply_op (observe_op permit_id object source now) s =
    (record_observation permit_id object source now s).1
apply_op (decide_op permit_id decision now) s = record_boundary_decision permit_id decision now s
apply_op (error_op permit_id error source now) s = record_error permit_id error source now s
apply_op (webhook_op canonical event now) s = (ingest_webhook canonical event now s).1
apply_op (reconcile_op retrieve create text permit_id now) s =
    (reconcile retrieve create text permit_id now s).1

pub run : List Op → StripeStore → StripeStore
run [] s = s
run (op ∷ ops) s = run ops (apply_op op s)

apply_op-request :
    (j : String) (op : Op) (s : StripeStore)
    → is_some (request_of j s) ≡ true
    → request_of j (apply_op op s) ≡ request_of j s
unfolding apply_op
apply_op-request j (prepare_op i key request_json now) s h =
    prepare-request j i key request_json now s h
apply_op-request j (observe_op i object source now) s h =
    observation-request j i object source now s
apply_op-request j (decide_op i decision now) s h = decision-request j i decision now s
apply_op-request j (error_op i error source now) s h = error-request j i error source now s
apply_op-request j (webhook_op canonical event now) s h =
    ingest_checked-request j _ _ _ (canonical (obj event)) now s
apply_op-request j (reconcile_op retrieve create text i now) s h =
    reconcile-request j retrieve create text i now s

kept :
    (j : String) (ops : List Op) (s : StripeStore)
    → is_some (request_of j s) ≡ true
    → request_of j (run ops s) ≡ request_of j s
unfolding run
kept j [] s h = refl
kept j (op ∷ ops) s h =
    let same = apply_op-request j op s h in kept j ops (apply_op op s) (ground (arith, same)) ∙ same

reconcile_row-sent :
    (retrieve : String → Answer) (create : String → String → Answer) (text : Fault → String)
    (j key request : String) (now : ℕ) (s : StripeStore) (operation : Operation)
    (payment_intent : Option String)
    → operation.idempotency_key ≡ key
    → operation.request_json ≡ request
    → reconcile_row retrieve create text j now operation payment_intent s
      ≡ reconcile_row retrieve (λ _ _. create request key) text j now operation payment_intent s
reconcile_row-sent retrieve create text j key request now s operation (some i) k q = refl
reconcile_row-sent retrieve create text j key request now s operation none k q = rw (k, q) refl

reconcile-sent :
    (retrieve : String → Answer) (create : String → String → Answer) (text : Fault → String)
    (j key request : String) (now : ℕ) (s : StripeStore)
    → request_of j s ≡ some (key, request)
    → reconcile retrieve create text j now s
      ≡ reconcile retrieve (λ _ _. create request key) text j now s
unfolding reconcile get
reconcile-sent retrieve create text j key request now s h =
    elim (Option-cases (lookup j s.operations)) [
      | inl e ↦ absurd (ground (arith, e, h))
      | inr (operation, e) ↦
          let same =
            reconcile_row-sent retrieve create text j key request now s operation
              operation.payment_intent_id (ground (arith, e, h)) (ground (arith, e, h)) in
          rw (reconcile, get, e) same
    ]

-- Once a permit has its Stripe request, no preparation, observation, error, decision, webhook or
-- reconciliation changes the idempotency key or the parameters that are kept for it, and a
-- reconciliation after them that calls the creation of Stripe again calls it with these parameters
-- and this key: it ends as if the call answered to no others.
pub stripe_request_fixed :
    (j key request : String) (ops : List Op) (s : StripeStore) (retrieve : String → Answer)
    (create : String → String → Answer) (text : Fault → String) (now : ℕ)
    → request_of j s ≡ some (key, request)
    → (request_of j (run ops s) ≡ some (key, request))
      × (reconcile retrieve create text j now (run ops s)
          ≡ reconcile retrieve (λ _ _. create request key) text j now (run ops s))
stripe_request_fixed j key request ops s retrieve create text now h =
    let same = kept j ops s (ground (arith, h)) ∙ h in
    (same, reconcile-sent retrieve create text j key request now (run ops s) same)
