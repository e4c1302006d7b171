-- ===== src/Stripe/Journal.antt =====
-- `ingest_webhook` of safeagent_exec_guard/stripe_gateway.py: the journal of webhooks, and what an
-- event does to the operation of its PaymentIntent.
use Prim.Native.String.{◌++◌}
use safe_agent.Prelude.{ℕ, String, Bool, true, false, not, Option, none, some, if◌then◌else◌}
use safe_agent.Prelude.Action.{Result, ok, err, Action}
use safe_agent.Prelude.Dict.{lookup, insert}
use safe_agent.Prelude.Json.{Value, null, str, arr, obj, Fields, get_field_or}
use safe_agent.Stripe.Store.{
  Fault, Operation, StripeObservation, StripeStore, WebhookEvent, binding_error,
  find_by_payment_intent, record_observation, value_error,
}

-- The object of an event, and the event's id and type; `none` is a `ValueError`.
abbrev event_object : Value → Option Fields
event_object (obj fields) = elim (get_field_or "object" null fields) [ obj o ↦ some o | _ ↦ none ]
event_object _ = none

abbrev event_text : Value → Option String
event_text (str s) = some s
event_text _ = none

-- Python cannot bind a list or a dict to a column.
abbrev is_column : Value → Bool
is_column (arr vs) = false
is_column (obj fs) = false
is_column _ = true

pub data Inserted : Type 0 where
  ignored inserted : Inserted

-- `INSERT OR IGNORE` into the journal.
unfoldable pub journal : String → WebhookEvent → StripeStore → Inserted × StripeStore
journal event_id event s = elim (lookup event_id s.webhook_events) [
  | some old ↦ (ignored, s)
  | none ↦ (inserted, record s { webhook_events = insert event_id event s.webhook_events })
]

abbrev pub observed :
    Result Fault StripeObservation × StripeStore
    → Result Fault (Option StripeObservation) × StripeStore
observed (ok o, s) = (ok (some o), s)
observed (err e, s) = (err e, s)

abbrev pub apply_to :
    Option (String × Operation)
    → String
    → Fields
    → ℕ
    → Action StripeStore Fault (Option StripeObservation)
apply_to none event_type object now s = (ok none, s)
apply_to (some (permit_id, operation)) event_type object now s =
    observed (record_observation permit_id object ("webhook:" ++ event_type) now s)

-- What follows the insertion: only a new event with an id that is a text is applied.
abbrev pub after_journal :
    Inserted → Value → String → Fields → ℕ → Action StripeStore Fault (Option StripeObservation)
after_journal ignored payment_intent_id event_type object now s = (ok none, s)
after_journal inserted (str payment_intent_id) event_type object now s =
    apply_to (find_by_payment_intent payment_intent_id s) event_type object now s
after_journal inserted _ event_type object now s = (ok none, s)

-- The row that the event has in the journal.
abbrev pub event_row : String → Fields → String → ℕ → WebhookEvent
event_row event_type object payload_json now = record {
  event_type = event_type;
  payment_intent_id = get_field_or "id" null object;
  received_at = now;
  payload_json = payload_json;
}

abbrev pub ingest_parsed :
    String
    → String
    → Fields
    → Option String
    → ℕ
    → Action StripeStore Fault (Option StripeObservation)
ingest_parsed event_id event_type object none now s = (err value_error, s)
ingest_parsed event_id event_type object (some payload_json) now s =
    let payment_intent_id = get_field_or "id" null object in
    if not (is_column payment_intent_id)
    then (err binding_error, s)
    else (let (answer, s') = journal event_id (event_row event_type object payload_json now) s in
        after_journal answer payment_intent_id event_type object now s')

abbrev pub ingest_checked :
    Option String
    → Option String
    → Option Fields
    → Option String
    → ℕ
    → Action StripeStore Fault (Option StripeObservation)
ingest_checked (some event_id) (some event_type) (some object) payload_json now s =
    ingest_parsed event_id event_type object payload_json now s
ingest_checked _ _ _ payload_json now s = (err value_error, s)

-- `ingest_webhook`, with `canonical_bytes` as an argument. The event is JSON already.
unfoldable pub ingest_webhook :
    (canonical : Value → Option String) (event : Fields) (now : ℕ)
    → Action StripeStore Fault (Option StripeObservation)
unfolding journal record_observation find_by_payment_intent
ingest_webhook canonical event now s =
    ingest_checked (event_text (get_field_or "id" null event))
      (event_text (get_field_or "type" null event)) (event_object (get_field_or "data" null event))
      (canonical (obj event)) now s
