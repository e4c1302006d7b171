-- ===== src/Stripe/Store.antt =====
-- `SQLiteStripeStore` of safeagent_exec_guard/stripe_gateway.py: the operations by permit, and the
-- classification of a PaymentIntent.
use safe_agent.Prelude.{
  ℕ, String, Bool, true, false, not, ◌||◌, Option, none, some, [], ◌∷◌, str_eq, if◌then◌else◌,
  is_some,
}
use safe_agent.Prelude.Action.{Action, pure, raise}
use safe_agent.Prelude.Dict.{Dict, lookup, insert, update}
use safe_agent.Prelude.Text.{first_chars}
use safe_agent.Prelude.Json.{Value, null, str, Fields, get_field_or}
use safe_agent.Boundary.Ledger.{Status}

pub data State : Type 0 where
  prepared opened confirmed rejected uncertain : State

unfoldable pub classify : Option String → State
classify none = uncertain
classify (some status) =
    if str_eq status "succeeded"
    then confirmed
    else if str_eq status "canceled"
    then rejected
    else if str_eq status "processing"
        || str_eq status "requires_action"
        || str_eq status "requires_capture"
        || str_eq status "requires_confirmation"
        || str_eq status "requires_payment_method"
    then opened
    else uncertain

pub record Operation : Type 0 where
  pub idempotency_key : String
  pub request_json : String
  pub payment_intent_id : Option String
  pub payment_intent_status : Option String
  pub reconciliation_state : State
  pub boundary_decision : Option Status
  pub last_source : Option String
  pub last_error : Option String
  pub created_at : ℕ
  pub updated_at : ℕ

pub record WebhookEvent : Type 0 where
  pub event_type : String
  pub payment_intent_id : Value
  pub received_at : ℕ
  pub payload_json : String

pub record StripeStore : Type 0 where
  pub operations : Dict Operation
  pub webhook_events : Dict WebhookEvent

pub record StripeObservation : Type 0 where
  pub permit_id : String
  pub state : State
  pub source : String
  pub payment_intent_id : Option String
  pub payment_intent_status : Option String
  pub last_error : Option String

-- `PermitDenied`, `ValueError`, a UNIQUE column that would repeat, and a value that is no column.
pub data Fault : Type 0 where
  permit_denied : (reason : String) → Fault
  value_error integrity_error binding_error : Fault

abbrev pub new_operation : String → String → ℕ → Operation
new_operation idempotency_key request_json now = record {
  idempotency_key = idempotency_key;
  request_json = request_json;
  payment_intent_id = none;
  payment_intent_status = none;
  reconciliation_state = prepared;
  boundary_decision = none;
  last_source = none;
  last_error = none;
  created_at = now;
  updated_at = now;
}

unfoldable pub has_key : String → Dict Operation → Bool
has_key idempotency_key [] = false
has_key idempotency_key ((_, operation) ∷ operations) =
    str_eq operation.idempotency_key idempotency_key || has_key idempotency_key operations

abbrev prepare_new : String → String → String → ℕ → Action StripeStore Fault (Unit {0})
prepare_new permit_id idempotency_key request_json now s =
    if has_key idempotency_key s.operations
    then raise integrity_error s
    else pure tt (record s {
      operations = insert permit_id (new_operation idempotency_key request_json now) s.operations;
    })

-- `prepare`, with the canonical text of the parameters, or `none` where that raises.
unfoldable pub prepare :
    (permit_id idempotency_key : String) (request_json : Option String) (now : ℕ)
    → Action StripeStore Fault (Unit {0})
unfolding has_key
prepare permit_id idempotency_key none now s = raise value_error s
prepare permit_id idempotency_key (some request_json) now s = elim (lookup permit_id s.operations) [
  | none ↦ prepare_new permit_id idempotency_key request_json now s
  | some row ↦
      if not (str_eq row.idempotency_key idempotency_key)
        || not (str_eq row.request_json request_json)
      then raise (permit_denied "stripe_operation_collision") s
      else pure tt s
]

-- `SELECT * ... WHERE payment_intent_id=?`
unfoldable pub find_in : String → Dict Operation → Option (String × Operation)
find_in payment_intent_id [] = none
find_in payment_intent_id ((permit_id, operation) ∷ operations) = elim operation.payment_intent_id [
  | none ↦ find_in payment_intent_id operations
  | some i ↦
      if str_eq i payment_intent_id
      then some (permit_id, operation)
      else find_in payment_intent_id operations
]

unfoldable pub find_by_payment_intent : String → StripeStore → Option (String × Operation)
unfolding find_in
find_by_payment_intent payment_intent_id s = find_in payment_intent_id s.operations

unfoldable pub get : String → StripeStore → Option Operation
get permit_id s = lookup permit_id s.operations

abbrev pub observe_row : String → Option String → String → ℕ → Operation → Operation
observe_row payment_intent_id status source now row = record row {
  payment_intent_id = some payment_intent_id;
  payment_intent_status = status;
  reconciliation_state = classify status;
  last_source = some source;
  last_error = none;
  updated_at = now;
}

-- Whether the UNIQUE id is free for the row of the permit.
abbrev pub free_for : String → Option (String × Operation) → Bool
free_for permit_id none = true
free_for permit_id (some (holder, operation)) = str_eq holder permit_id

abbrev pub observe :
    String → String → Option String → String → ℕ → Action StripeStore Fault StripeObservation
observe permit_id payment_intent_id status source now s =
    if not (is_some (lookup permit_id s.operations))
    then raise value_error s
    else if not (free_for permit_id (find_in payment_intent_id s.operations))
    then raise integrity_error s
    else pure
        (record {
          permit_id = permit_id;
          state = classify status;
          source = source;
          payment_intent_id = some payment_intent_id;
          payment_intent_status = status;
          last_error = none;
        })
        (record s {
          operations =
              update permit_id (observe_row payment_intent_id status source now) s.operations;
        })

-- A status that is a text or `None`; `none` is any other.
abbrev pub status_of : Value → Option (Option String)
status_of null = some none
status_of (str status) = some (some status)
status_of _ = none

abbrev pub observe_status :
    String
    → String
    → Option (Option String)
    → String
    → ℕ
    → Action StripeStore Fault StripeObservation
observe_status permit_id payment_intent_id none source now s = raise value_error s
observe_status permit_id payment_intent_id (some status) source now s =
    observe permit_id payment_intent_id status source now s

abbrev pub observe_id :
    String
    → Value
    → Option (Option String)
    → String
    → ℕ
    → Action StripeStore Fault StripeObservation
observe_id permit_id (str payment_intent_id) status source now s =
    if str_eq payment_intent_id ""
    then raise value_error s
    else observe_status permit_id payment_intent_id status source now s
observe_id permit_id _ status source now s = raise value_error s

unfoldable pub record_observation :
    (permit_id : String) (payment_intent : Fields) (source : String) (now : ℕ)
    → Action StripeStore Fault StripeObservation
unfolding classify find_in
record_observation permit_id payment_intent source now s =
    observe_id permit_id (get_field_or "id" null payment_intent)
      (status_of (get_field_or "status" null payment_intent)) source now s

abbrev pub decide_row : Status → ℕ → Operation → Operation
decide_row decision now row = record row { boundary_decision = some decision; updated_at = now }

unfoldable pub record_boundary_decision :
    (permit_id : String) (decision : Status) (now : ℕ) → StripeStore → StripeStore
record_boundary_decision permit_id decision now s = record s {
  operations = update permit_id (decide_row decision now) s.operations;
}

abbrev pub error_row : String → String → ℕ → Operation → Operation
error_row error source now row = record row {
  reconciliation_state = uncertain;
  last_source = some source;
  last_error = some (first_chars 1000 error);
  updated_at = now;
}

unfoldable pub record_error :
    (permit_id error source : String) (now : ℕ) → StripeStore → StripeStore
record_error permit_id error source now s = record s {
  operations = update permit_id (error_row error source now) s.operations;
}
