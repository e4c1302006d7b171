-- ===== src/Stripe/Correlation/Calls.antt =====
-- What each call of the Stripe store does to the request that it keeps for a permit.
use safe_agent.Stripe.Reconcile.{
  failed, settle_answer, Answer, reconcile, after_observation, reconcile_row, answered,
}
use safe_agent.Stripe.Journal.{
  after_journal, ingest_checked, ingest_parsed, Inserted, apply_to, journal, event_row, ignored,
  inserted,
}
use safe_agent.Prelude.Json.{
  null, str, obj, get_field_or, Value, bool, int, negative, arr, other, Fields,
}
use safe_agent.Stripe.Store.{
  WebhookEvent, observe_id, observe_status, observe, Operation, StripeStore, Fault,
  StripeObservation, new_operation, prepare, observe_row, record_observation, decide_row,
  record_boundary_decision, error_row, record_error, get, status_of, find_by_payment_intent,
}
use Prim.Native.String.{◌++◌}
use safe_agent.Prelude.{
  ℕ, String, ◌≡◌, refl, ◌∙◌, true, Option, none, some, arith, eq_iff, is_some, inl, inr,
  Option-cases,
}
use safe_agent.Prelude.Action.{Result, ok, err}
use safe_agent.Prelude.Dict.{lookup, lookup-insert, lookup-update}
use safe_agent.Boundary.Ledger.{Status}

abbrev pub request_of_row : Option Operation → Option (String × String)
request_of_row none = none
request_of_row (some row) = some (row.idempotency_key, row.request_json)

-- The Stripe key and the request that are kept for a permit.
abbrev pub request_of : String → StripeStore → Option (String × String)
request_of permit_id s = request_of_row (lookup permit_id s.operations)

observe-request :
    (j i payment_intent_id : String) (status : Option String) (source : String) (now : ℕ)
    (s : StripeStore)
    → request_of j (observe i payment_intent_id status source now s).1 ≡ request_of j s
observe-request j i payment_intent_id status source now s = ground (
  arith,
  eq_iff i j,
  lookup-update i j (observe_row payment_intent_id status source now) s.operations,
)

observe_status-request :
    (j i payment_intent_id : String) (status : Option (Option String)) (source : String) (now : ℕ)
    (s : StripeStore)
    → request_of j (observe_status i payment_intent_id status source now s).1 ≡ request_of j s
observe_status-request j i payment_intent_id none source now s = refl
observe_status-request j i payment_intent_id (some status) source now s =
    observe-request j i payment_intent_id status source now s

observe_id-request :
    (j i : String) (v : Value) (status : Option (Option String)) (source : String) (now : ℕ)
    (s : StripeStore)
    → request_of j (observe_id i v status source now s).1 ≡ request_of j s
observe_id-request j i (str payment_intent_id) status source now s =
    ground (arith, observe_status-request j i payment_intent_id status source now s)
observe_id-request j i null status source now s = refl
observe_id-request j i (bool b) status source now s = refl
observe_id-request j i (int n) status source now s = refl
observe_id-request j i (negative n) status source now s = refl
observe_id-request j i (arr vs) status source now s = refl
observe_id-request j i (obj fs) status source now s = refl
observe_id-request j i (other writable n) status source now s = refl

pub observation-request :
    (j i : String) (object : Fields) (source : String) (now : ℕ) (s : StripeStore)
    → request_of j (record_observation i object source now s).1 ≡ request_of j s
unfolding record_observation
observation-request j i object source now s =
    observe_id-request j i (get_field_or "id" null object)
      (status_of (get_field_or "status" null object)) source now s

pub error-request :
    (j i error source : String) (now : ℕ) (s : StripeStore)
    → request_of j (record_error i error source now s) ≡ request_of j s
unfolding record_error
error-request j i error source now s =
    ground (arith, eq_iff i j, lookup-update i j (error_row error source now) s.operations)

pub decision-request :
    (j i : String) (decision : Status) (now : ℕ) (s : StripeStore)
    → request_of j (record_boundary_decision i decision now s) ≡ request_of j s
unfolding record_boundary_decision
decision-request j i decision now s =
    ground (arith, eq_iff i j, lookup-update i j (decide_row decision now) s.operations)

pub prepare-request :
    (j i key : String) (request_json : Option String) (now : ℕ) (s : StripeStore)
    → is_some (request_of j s) ≡ true
    → request_of j (prepare i key request_json now s).1 ≡ request_of j s
unfolding prepare
prepare-request j i key none now s h = refl
prepare-request j i key (some request_json) now s h =
    ground (arith, eq_iff i j, lookup-insert i j (new_operation key request_json now) s.operations)

apply_to-request :
    (j : String) (o : Option (String × Operation)) (event_type : String) (object : Fields) (now : ℕ)
    (s : StripeStore)
    → request_of j (apply_to o event_type object now s).1 ≡ request_of j s
apply_to-request j none event_type object now s = refl
apply_to-request j (some (i, operation)) event_type object now s =
    ground (arith, observation-request j i object ("webhook:" ++ event_type) now s)

after_journal-request :
    (j : String) (a : Inserted) (v : Value) (event_type : String) (object : Fields) (now : ℕ)
    (s : StripeStore)
    → request_of j (after_journal a v event_type object now s).1 ≡ request_of j s
after_journal-request j ignored v event_type object now s = refl
after_journal-request j inserted (str i) event_type object now s =
    apply_to-request j (find_by_payment_intent i s) event_type object now s
after_journal-request j inserted null event_type object now s = refl
after_journal-request j inserted (bool b) event_type object now s = refl
after_journal-request j inserted (int n) event_type object now s = refl
after_journal-request j inserted (negative n) event_type object now s = refl
after_journal-request j inserted (arr vs) event_type object now s = refl
after_journal-request j inserted (obj fs) event_type object now s = refl
after_journal-request j inserted (other writable n) event_type object now s = refl

journal-operations :
    (i : String) (event : WebhookEvent) (s : StripeStore)
    → (journal i event s).1.operations ≡ s.operations
unfolding journal
journal-operations i event s = ground arith

ingest_parsed-request :
    (j i event_type : String) (object : Fields) (payload : Option String) (now : ℕ)
    (s : StripeStore)
    → request_of j (ingest_parsed i event_type object payload now s).1 ≡ request_of j s
ingest_parsed-request j i event_type object none now s = refl
ingest_parsed-request j i event_type object (some payload_json) now s =
    let (a, s') = journal i (event_row event_type object payload_json now) s in
    ground (
      arith,
      journal-operations i (event_row event_type object payload_json now) s,
      after_journal-request j a (get_field_or "id" null object) event_type object now s',
    )

pub ingest_checked-request :
    (j : String) (i event_type : Option String) (object : Option Fields) (payload : Option String)
    (now : ℕ) (s : StripeStore)
    → request_of j (ingest_checked i event_type object payload now s).1 ≡ request_of j s
ingest_checked-request j (some i) (some event_type) (some object) payload now s =
    ingest_parsed-request j i event_type object payload now s
ingest_checked-request j (some i) (some event_type) none payload now s = refl
ingest_checked-request j (some i) none object payload now s = refl
ingest_checked-request j none event_type object payload now s = refl

after_observation-request :
    (j : String) (text : Fault → String) (i : String) (now : ℕ) (r : Result Fault StripeObservation)
    (s : StripeStore)
    → request_of j (after_observation text i now r s).1 ≡ request_of j s
after_observation-request j text i now (ok o) s = refl
after_observation-request j text i now (err e) s = error-request j i (text e) "reconcile" now s

settle_answer-request :
    (j : String) (text : Fault → String) (i source : String) (now : ℕ) (answer : Answer)
    (s : StripeStore)
    → request_of j (settle_answer text i source now answer s).1 ≡ request_of j s
settle_answer-request j text i source now (failed error) s =
    error-request j i error "reconcile" now s
settle_answer-request j text i source now (answered object) s =
    let (r, s') = record_observation i object source now s in
    after_observation-request j text i now r s' ∙ observation-request j i object source now s

reconcile_row-request :
    (j : String) (retrieve : String → Answer) (create : String → String → Answer)
    (text : Fault → String) (i : String) (now : ℕ) (operation : Operation) (o : Option String)
    (s : StripeStore)
    → request_of j (reconcile_row retrieve create text i now operation o s).1 ≡ request_of j s
reconcile_row-request j retrieve create text i now operation none s =
    settle_answer-request j text i "idempotent_replay" now
      (create operation.request_json operation.idempotency_key) s
reconcile_row-request j retrieve create text i now operation (some k) s =
    settle_answer-request j text i "retrieve" now (retrieve k) s

pub reconcile-request :
    (j : String) (retrieve : String → Answer) (create : String → String → Answer)
    (text : Fault → String) (i : String) (now : ℕ) (s : StripeStore)
    → request_of j (reconcile retrieve create text i now s).1 ≡ request_of j s
unfolding reconcile
reconcile-request j retrieve create text i now s = elim (Option-cases (get i s)) [
  | inl gone ↦ rw (gone, reconcile) refl
  | inr (operation, e) ↦
      rw (e, reconcile)
        (reconcile_row-request j retrieve create text i now operation operation.payment_intent_id s)
]
