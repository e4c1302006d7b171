-- ===== src/Stripe/Request.antt =====
-- `_validate` of `StripePaymentIntentGateway`. `str.lower` is an argument.
use mathlib.Core.Path.{subst}
use safe_agent.Prelude.{
  ◌≡◌, refl, arith, eq_iff, suc, String, Bool, true, false, not, ◌&&◌, ◌||◌, ◌==◌, Option, none,
  some, str_eq, if◌then◌else◌,
}
use safe_agent.Prelude.Action.{Result, ok, err}
use safe_agent.Prelude.Text.{strip_count}
use safe_agent.Prelude.Json.{
  Value, null, bool, int, negative, other, str, arr, obj, Items, nil, cons, Fields, end, field,
  get_field, set_field,
}
use safe_agent.Boundary.Permit.{ActionRequest}
use safe_agent.Stripe.Store.{Fault, permit_denied}

unfoldable pub is_allowed : String → Bool
is_allowed k =
    str_eq k "amount"
    || str_eq k "currency"
    || str_eq k "customer"
    || str_eq k "description"
    || str_eq k "payment_method"
    || str_eq k "payment_method_types"
    || str_eq k "confirm"
    || str_eq k "capture_method"
    || str_eq k "confirmation_method"
    || str_eq k "setup_future_usage"
    || str_eq k "statement_descriptor"
    || str_eq k "statement_descriptor_suffix"
    || str_eq k "receipt_email"
    || str_eq k "shipping"
    || str_eq k "metadata"

unfoldable pub all_allowed : Fields → Bool
all_allowed end = true
all_allowed (field k v fs) = is_allowed k && all_allowed fs

-- A positive `int` that is no `bool`.
abbrev pub is_amount : Option Value → Bool
is_amount (some (int (suc n))) = true
is_amount _ = false

abbrev pub currency_of : Option Value → Option String
currency_of (some (str s)) = if strip_count s == 3 then some s else none
currency_of _ = none

abbrev is_mapping : Option Value → Bool
is_mapping none = true
is_mapping (some (obj fs)) = true
is_mapping _ = false

abbrev is_flag : Option Value → Bool
is_flag none = true
is_flag (some (bool b)) = true
is_flag _ = false

abbrev is_name : Value → Bool
is_name (str s) = not (str_eq s "")
is_name _ = false

unfoldable pub all_names : Items → Bool
all_names nil = true
all_names (cons v vs) = is_name v && all_names vs

abbrev is_types : Option Value → Bool
is_types none = true
is_types (some (arr (cons v vs))) = all_names (cons v vs)
is_types _ = false

abbrev validate_with : (String → String) → Fields → Option String → Result Fault Fields
validate_with lower params none = err (permit_denied "invalid_stripe_currency")
validate_with lower params (some currency) =
    if not (is_mapping (get_field "metadata" params))
    then err (permit_denied "invalid_stripe_metadata")
    else if not (is_flag (get_field "confirm" params))
    then err (permit_denied "invalid_stripe_confirm")
    else if not (is_types (get_field "payment_method_types" params))
    then err (permit_denied "invalid_stripe_payment_method_types")
    else ok (set_field "currency" (str (lower currency)) params)

abbrev validate_payload : (String → String) → Value → Result Fault Fields
validate_payload lower (obj params) =
    if not (all_allowed params)
    then err (permit_denied "unsupported_stripe_parameter")
    else if not (is_amount (get_field "amount" params))
    then err (permit_denied "invalid_stripe_amount")
    else validate_with lower params (currency_of (get_field "currency" params))
validate_payload lower _ = err (permit_denied "invalid_stripe_payload")

unfoldable pub validate : (lower : String → String) → ActionRequest → Result Fault Fields
unfolding all_allowed all_names
validate lower request =
    if not (str_eq request.action "stripe.payment_intent.create")
    then err (permit_denied "unsupported_stripe_action")
    else validate_payload lower request.payload

get_field-set_field :
    (k j : String) (v : Value) (fs : Fields)
    → get_field j (set_field k v fs) ≡ (if str_eq k j then some v else get_field j fs)
unfolding get_field set_field
get_field-set_field k j v end = refl
get_field-set_field k j v (field i w fs) =
    ground (arith, eq_iff k j, eq_iff i k, eq_iff i j, get_field-set_field k j v fs)

all_allowed-set_field :
    (k : String) (v : Value) (fs : Fields)
    → is_allowed k ≡ true
    → all_allowed fs ≡ true
    → all_allowed (set_field k v fs) ≡ true
unfolding all_allowed set_field
all_allowed-set_field k v end h all = ground (arith, h)
all_allowed-set_field k v (field i w fs) h all =
    ground (arith, h, all, eq_iff i k, all_allowed-set_field k v fs)

-- What Stripe may be sent: only known parameters, with a positive integer amount.
pub record IsSendable (params : Fields) : Type 0 where
  pub known : all_allowed params ≡ true
  pub amount : is_amount (get_field "amount" params) ≡ true

validate_with-IsSendable :
    (lower : String → String) (fs params : Fields) (o : Option String)
    → IsSendable fs
    → validate_with lower fs o ≡ ok params
    → IsSendable params
unfolding is_allowed
validate_with-IsSendable lower fs params none s h = cc
validate_with-IsSendable lower fs params (some currency) s h =
    let params_are : set_field "currency" (str (lower currency)) fs ≡ params = ground arith in
    subst (λ p. IsSendable p) params_are
      (record {
        known = all_allowed-set_field "currency" (str (lower currency)) fs refl s.known;
        amount = rw (get_field-set_field "currency" "amount" (str (lower currency)) fs) s.amount;
      })

validate_payload-IsSendable :
    (lower : String → String) (v : Value) (params : Fields)
    → validate_payload lower v ≡ ok params
    → IsSendable params
validate_payload-IsSendable lower (obj fs) params h =
    validate_with-IsSendable lower fs params (currency_of (get_field "currency" fs))
      (record { known = ground arith; amount = ground arith }) (ground arith)
validate_payload-IsSendable lower null params h = cc
validate_payload-IsSendable lower (bool b) params h = cc
validate_payload-IsSendable lower (int n) params h = cc
validate_payload-IsSendable lower (negative n) params h = cc
validate_payload-IsSendable lower (str s) params h = cc
validate_payload-IsSendable lower (arr vs) params h = cc
validate_payload-IsSendable lower (other writable n) params h = cc

-- A request that passes the check asks for the creation of a PaymentIntent, and its parameters are
-- known ones with a positive integer amount.
pub validated_request :
    (lower : String → String) (request : ActionRequest) (params : Fields)
    → validate lower request ≡ ok params
    → (request.action ≡ "stripe.payment_intent.create") × IsSendable params
unfolding validate
validated_request lower request params h = (
  ground (arith, eq_iff request.action "stripe.payment_intent.create"),
  validate_payload-IsSendable lower request.payload params (ground arith),
)
