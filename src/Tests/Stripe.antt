-- ===== src/Tests/Stripe.antt =====
-- The Stripe gateway: one payment, its webhook and its reconciliation.
use safe_agent.Prelude.{String, ◌≡◌, refl, Option, some, List, [], ◌∷◌}
use safe_agent.Prelude.Dict.{lookup}
use safe_agent.Prelude.Text.{strip_count, count_to_last}
use safe_agent.Prelude.Json.{Value, int, str, obj, Fields, end, field, get_field, set_field}
use safe_agent.Boundary.Permit.{ActionRequest}
use safe_agent.Stripe.Store.{StripeStore, new_operation, Fault}
use safe_agent.Stripe.Reconcile.{Answer, answered, failed, reconcile}
use safe_agent.Stripe.Journal.{ingest_webhook}
use safe_agent.Stripe.Request.{is_allowed, IsSendable, validate, validated_request}
use safe_agent.Stripe.Correlation.Calls.{request_of}
use safe_agent.Stripe.Correlation.{
  Op, prepare_op, webhook_op, reconcile_op, run, stripe_request_fixed,
}
use safe_agent.Stripe.Webhook.{webhook_applied_once}

abbrev store : StripeStore
store = record {
  operations = ("p1", new_operation "safeagent:p1" "request" 1) ∷ [];
  webhook_events = [];
}

abbrev intent : Fields
intent = field "id" (str "pi_1") (field "status" (str "succeeded") end)

abbrev event : Fields
event = field "id" (str "evt_1") (
    field "type" (str "payment_intent.succeeded")
      (field "data" (obj (field "object" (obj intent) end)) end))

abbrev text_of : Value → Option String
text_of v = some "event"

abbrev lost : String → String → Answer
lost request_json idempotency_key = answered intent

abbrev unread : String → Answer
unread i = failed "timeout"

abbrev fault_text : Fault → String
fault_text fault = "error"

abbrev ops : List Op
ops =
    prepare_op "p1" "other" (some "request") 2
    ∷ reconcile_op unread lost fault_text "p1" 3
    ∷ webhook_op text_of event 4
    ∷ []

stripe_request_fixed_example :
    (request_of "p1" (run ops store) ≡ some ("safeagent:p1", "request"))
    × (reconcile unread lost fault_text "p1" 5 (run ops store)
        ≡ reconcile unread (λ _ _. lost "request" "safeagent:p1") fault_text "p1" 5 (run ops store))
unfolding lookup
stripe_request_fixed_example =
    stripe_request_fixed "p1" "safeagent:p1" "request" ops store unread lost fault_text 5 refl

webhook_applied_once_example :
    (ingest_webhook text_of event 9 (ingest_webhook text_of event 4 store).1).1
    ≡ (ingest_webhook text_of event 4 store).1
webhook_applied_once_example = webhook_applied_once text_of event 4 9 store

abbrev payment : ActionRequest
payment = record {
  principal = "agent";
  run_id = "run";
  action = "stripe.payment_intent.create";
  target = "acct";
  payload = obj (field "amount" (int 500) (field "currency" (str "usd") end));
}

abbrev same_text : String → String
same_text s = s

validated_request_example :
    (payment.action ≡ "stripe.payment_intent.create")
    × IsSendable (field "amount" (int 500) (field "currency" (str "usd") end))
unfolding validate is_allowed strip_count count_to_last get_field set_field
validated_request_example =
    validated_request same_text payment
      (field "amount" (int 500) (field "currency" (str "usd") end)) refl
