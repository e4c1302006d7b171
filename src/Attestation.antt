-- ===== src/Attestation.antt =====
-- `gate` of safeagent_exec_guard/attestation_gate.py, on a parsed JSON attestation. The outcome of
-- `verify_signature` is an argument, and `now` is a time with a zone.
pub mod Admission
pub mod Gaps
use safe_agent.Prelude.{
  ℕ, ◌+◌, ◌*◌, String, Bool, true, false, not, Option, none, some, ◌&&◌, str_eq, ltb, if◌then◌else◌,
}
use safe_agent.Prelude.Action.{Result, ok, err}
use safe_agent.Prelude.Int.{ℤ, pos, negsuc, is_positive_sum}
use safe_agent.Prelude.Json.{
  Value, null, bool, int, negative, str, arr, obj, other, Fields, end, get_field, get_field_or,
  is_truthy, value_or,
}

-- `.get` of what is no dict, `int(v)` of what is no number, a value without canonical JSON, and a time
-- without a zone beside one with a zone
pub data GateFault : Type 0 where
  attribute_error conversion_error canonicalization_error type_error : GateFault

infixl 5 ◌>>=◌
abbrev ◌>>=◌ : {A B : Type 0} → Result GateFault A → (A → Result GateFault B) → Result GateFault B
ok a >>= f = f a
err e >>= f = err e

-- `d.get(k, default)` of a value
abbrev pub get_or : String → Value → Value → Result GateFault Value
get_or k default (obj fields) = ok (get_field_or k default fields)
get_or k default _ = err attribute_error

-- A `datetime`, in microseconds; with a zone or without.
pub record Instant : Type 0 where
  pub has_zone : Bool
  pub micros : ℕ

-- What the module takes from `rfc8785`, `hashlib` and `datetime`, and `int()` of a text or a float.
pub record Provider : Type 0 where
  pub jcs_sha256 : Value → Option String
  pub from_iso : String → Option Instant
  pub convert : Value → Option ℤ

pub record GateCall : Type 0 where
  pub claim_binding_preimage : Value
  pub attestation : Option Fields
  pub has_jwks : Bool
  pub signature_valid : Bool
  pub require_attestation : Bool
  pub verify_sig : Bool
  pub unreachable : Bool
  pub freshness_ttl_seconds : Option ℕ
  pub now : ℕ

pub data Decision : Type 0 where
  allow : (action_ref : Option String) (binding_digest : String) → Decision
  skip deny : (reason : String) → Decision
  deny_binding : (expected : String) (claimed : Value) → Decision
  deny_verdict : (verdict : Value) → Decision
  deny_findings : (critical high : ℤ) → Decision

-- A check stops with a decision or lets the next one run.
abbrev pub Check : Type 0
Check = Result GateFault (Option Decision)

abbrev pub then_check : Check → Result GateFault Decision → Result GateFault Decision
then_check (err e) next = err e
then_check (ok (some decision)) next = ok decision
then_check (ok none) next = next

abbrev pub deny_when : Bool → Decision → Check
deny_when true decision = ok (some decision)
deny_when false decision = ok none

-- `(x or {}).get(k)` for a value x
abbrev pub get_of : String → Value → Result GateFault Value
get_of k v = get_or k null (value_or v (obj end))

abbrev is_null : Value → Bool
is_null null = true
is_null _ = false

abbrev is_text : String → Value → Bool
is_text s (str t) = str_eq t s
is_text s _ = false

-- `claimed`, the binding digest of the attestation
unfoldable pub claimed_digest : Fields → Result GateFault Value
claimed_digest att =
    get_of "binding_digest"
      (value_or (get_field_or "binding" null att) (get_field_or "attestation_binding" null att))

unfoldable pub verdict_of : Fields → Result GateFault Value
verdict_of att = do
  admission ← get_of "verdict" (get_field_or "admission" null att)
  if is_truthy admission
      then ok admission
      else get_of "verdict" (get_field_or "attestation" (obj end) att)

-- `_findings`
unfoldable pub findings : Fields → Result GateFault Value
findings att = do
  payload ←
      get_or "payload" (obj end) (value_or (get_field_or "attestation" (obj end) att) (obj end))
  found ← get_or "findings" (obj end) payload
  ok (value_or found (obj end))

module _ (p : Provider) where
  abbrev converted : Option ℤ → Result GateFault ℤ
  converted none = err conversion_error
  converted (some n) = ok n

  -- `int(v or 0)`
  abbrev pub count_of : Value → Result GateFault ℤ
  count_of null = ok (pos 0)
  count_of (bool true) = ok (pos 1)
  count_of (bool false) = ok (pos 0)
  count_of (int n) = ok (pos n)
  count_of (negative n) = ok (negsuc n)
  count_of v = if is_truthy v then converted (p.convert v) else ok (pos 0)

  -- `_parse_ts`
  abbrev pub parse_ts : Value → Result GateFault (Option Instant)
  parse_ts (str s) = if str_eq s "" then ok none else ok (p.from_iso s)
  parse_ts v = if is_truthy v then err attribute_error else ok none

  -- Only two times with a zone can be compared with each other.
  abbrev zoned : Instant → Result GateFault ℕ
  zoned t = if t.has_zone then ok t.micros else err type_error

  abbrev pub older_than : ℕ → ℕ → Option Instant → Result GateFault Bool
  older_than ttl now none = ok false
  older_than ttl now (some issued) =
      zoned issued >>= λ micros. ok (ltb (micros + ttl * 1000000) now)

  abbrev pub past : ℕ → Option Instant → Result GateFault Bool
  past now none = ok false
  past now (some expires) = zoned expires >>= λ micros. ok (ltb micros now)

  abbrev pub hashed : Value → Result GateFault String
  hashed v = elim (p.jcs_sha256 v) [ none ↦ err canonicalization_error | some d ↦ ok d ]

  unfoldable pub check_signature : GateCall → Check
  check_signature call =
      if call.verify_sig
      then (if not call.has_jwks
          then ok (some (deny "no_jwks_to_verify_signature"))
          else deny_when (not call.signature_valid) (deny "attestation_signature_invalid"))
      else ok none

  abbrev pub same_digest : String → Value → Check
  same_digest expected claimed =
      deny_when (not (is_null claimed) && not (is_text expected claimed))
        (deny_binding expected claimed)

  unfoldable pub check_binding : GateCall → Fields → Check
  unfolding claimed_digest
  check_binding call att = do
    expected ← hashed call.claim_binding_preimage
    claimed ← claimed_digest att
    same_digest expected claimed

  abbrev check_times : ℕ → ℕ → Fields → Check
  check_times ttl now att = do
    issued ← parse_ts (get_field_or "issued_at" null att)
    expires ← parse_ts (get_field_or "expires_at" null att)
    stale ← older_than ttl now issued
    if stale
        then ok (some (deny "attestation_stale"))
        else (past now expires >>= λ late. deny_when late (deny "attestation_stale"))

  abbrev check_fresh_for : Option ℕ → ℕ → Fields → Check
  check_fresh_for none now att = ok none
  check_fresh_for (some ttl) now att = check_times ttl now att

  unfoldable pub check_freshness : GateCall → Fields → Check
  check_freshness call att = check_fresh_for call.freshness_ttl_seconds call.now att

  unfoldable pub check_verdict : Fields → Check
  unfolding verdict_of
  check_verdict att = do
    verdict ← verdict_of att
    deny_when (not (is_null verdict) && not (is_text "admit" verdict)) (deny_verdict verdict)

  unfoldable pub check_findings : Fields → Check
  unfolding findings
  check_findings att = do
    f ← findings att
    critical_value ← get_or "critical" (int 0) f
    critical ← count_of critical_value
    high_value ← get_or "high" (int 0) f
    high ← count_of high_value
    deny_when (is_positive_sum critical high) (deny_findings critical high)

  abbrev pub action_ref_of : Value → Result GateFault (Option String)
  action_ref_of v = if is_truthy v then (hashed v >>= λ d. ok (some d)) else ok none

  abbrev pub admit : GateCall → Fields → Result GateFault Decision
  admit call att = do
    expected ← hashed call.claim_binding_preimage
    action_ref ← action_ref_of (get_field_or "action_ref_preimage" null att)
    ok (allow action_ref expected)

  -- The checks on an attestation that is there, in their order.
  unfoldable pub gate_attestation : GateCall → Fields → Result GateFault Decision
  unfolding check_signature check_binding check_freshness check_verdict check_findings
  gate_attestation call att = then_check (check_signature call) (
      then_check (check_binding call att) (
        then_check (check_freshness call att)
          (then_check (check_verdict att) (then_check (check_findings att) (admit call att)))))

  abbrev gate_reached : GateCall → Option Fields → Result GateFault Decision
  gate_reached call none =
      if call.require_attestation
      then ok (deny "no_attestation_and_required")
      else ok (skip "no_safety_attestation")
  gate_reached call (some att) = gate_attestation call att

  unfoldable pub gate : GateCall → Result GateFault Decision
  gate call =
      if call.unreachable
      then (if call.require_attestation
          then ok (deny "attestation_unreachable")
          else ok (skip "attestation_unreachable"))
      else gate_reached call call.attestation
