-- ===== src/Stripe/Webhook.antt =====
-- A webhook that Stripe delivers again.
use Prim.Native.String.{◌++◌}
use safe_agent.Prelude.{ℕ, String, ◌≡◌, refl, true, Option, none, some, arith, eq_iff, is_some}
use safe_agent.Prelude.Dict.{lookup, lookup-insert}
use safe_agent.Prelude.Json.{
  Value, null, bool, int, negative, str, arr, obj, other, Fields, get_field_or,
}
use safe_agent.Stripe.Store.{
  Operation, StripeStore, WebhookEvent, record_observation, observe_id, status_of,
  find_by_payment_intent,
}
use safe_agent.Stripe.Journal.{
  Inserted, ignored, inserted, apply_to, after_journal, journal, ingest_parsed, ingest_checked,
  ingest_webhook, event_row,
}

observe_id-events :
    (i : String) (v : Value) (status : Option (Option String)) (source : String) (now : ℕ)
    (s : StripeStore)
    → (observe_id i v status source now s).1.webhook_events ≡ s.webhook_events
observe_id-events i (str payment_intent_id) none source now s = ground arith
observe_id-events i (str payment_intent_id) (some status) source now s = ground arith
observe_id-events i null status source now s = refl
observe_id-events i (bool b) status source now s = refl
observe_id-events i (int n) status source now s = refl
observe_id-events i (negative n) status source now s = refl
observe_id-events i (arr vs) status source now s = refl
observe_id-events i (obj fs) status source now s = refl
observe_id-events i (other writable n) status source now s = refl

apply_to-events :
    (o : Option (String × Operation)) (event_type : String) (object : Fields) (now : ℕ)
    (s : StripeStore)
    → (apply_to o event_type object now s).1.webhook_events ≡ s.webhook_events
unfolding record_observation
apply_to-events none event_type object now s = refl
apply_to-events (some (i, operation)) event_type object now s = ground (
  arith,
  observe_id-events i (get_field_or "id" null object)
      (status_of (get_field_or "status" null object)) ("webhook:" ++ event_type) now s,
)

after_journal-events :
    (a : Inserted) (v : Value) (event_type : String) (object : Fields) (now : ℕ) (s : StripeStore)
    → (after_journal a v event_type object now s).1.webhook_events ≡ s.webhook_events
after_journal-events ignored v event_type object now s = refl
after_journal-events inserted (str i) event_type object now s =
    apply_to-events (find_by_payment_intent i s) event_type object now s
after_journal-events inserted null event_type object now s = refl
after_journal-events inserted (bool b) event_type object now s = refl
after_journal-events inserted (int n) event_type object now s = refl
after_journal-events inserted (negative n) event_type object now s = refl
after_journal-events inserted (arr vs) event_type object now s = refl
after_journal-events inserted (obj fs) event_type object now s = refl
after_journal-events inserted (other writable n) event_type object now s = refl

journal-known :
    (i : String) (event : WebhookEvent) (s : StripeStore)
    → is_some (lookup i (journal i event s).1.webhook_events) ≡ true
unfolding journal
journal-known i event s = ground (arith, eq_iff i i, lookup-insert i i event s.webhook_events)

-- An event that is in the journal changes nothing.
known-ignored :
    (i event_type : String) (object : Fields) (payload : Option String) (now : ℕ) (s : StripeStore)
    → is_some (lookup i s.webhook_events) ≡ true
    → (ingest_parsed i event_type object payload now s).1 ≡ s
unfolding journal
known-ignored i event_type object none now s h = refl
known-ignored i event_type object (some payload_json) now s h = ground arith

ingest_parsed-twice :
    (i event_type : String) (object : Fields) (payload : Option String) (now later : ℕ)
    (s : StripeStore)
    → (ingest_parsed i event_type object payload later
        (ingest_parsed i event_type object payload now s).1).1
      ≡ (ingest_parsed i event_type object payload now s).1
ingest_parsed-twice i event_type object none now later s = refl
ingest_parsed-twice i event_type object (some payload_json) now later s =
    let v = get_field_or "id" null object in
    let event = event_row event_type object payload_json now in
    let (a, s') = journal i event s in
    let t = (after_journal a v event_type object now s').1 in
    let kept = after_journal-events a v event_type object now s' in
    ground (
      arith,
      kept,
      journal-known i event s,
      known-ignored i event_type object (some payload_json) later t,
    )

ingest_checked-twice :
    (i event_type : Option String) (object : Option Fields) (payload : Option String)
    (now later : ℕ) (s : StripeStore)
    → (ingest_checked i event_type object payload later
        (ingest_checked i event_type object payload now s).1).1
      ≡ (ingest_checked i event_type object payload now s).1
ingest_checked-twice (some i) (some event_type) (some object) payload now later s =
    ingest_parsed-twice i event_type object payload now later s
ingest_checked-twice (some i) (some event_type) none payload now later s = refl
ingest_checked-twice (some i) none object payload now later s = refl
ingest_checked-twice none event_type object payload now later s = refl

-- A webhook event that is delivered a second time changes nothing, also if applying it the first
-- time raised.
pub webhook_applied_once :
    (canonical : Value → Option String) (event : Fields) (now later : ℕ) (s : StripeStore)
    → (ingest_webhook canonical event later (ingest_webhook canonical event now s).1).1
      ≡ (ingest_webhook canonical event now s).1
unfolding ingest_webhook
webhook_applied_once canonical event now later s =
    ingest_checked-twice _ _ _ (canonical (obj event)) now later s
