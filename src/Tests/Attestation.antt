-- ===== src/Tests/Attestation.antt =====
-- The attestation gate on small attestations.
use safe_agent.Prelude.{◌≡◌, refl, true, false, Bool, Option, none, some}
use safe_agent.Prelude.Json.{str, obj, Fields, end, field}
use safe_agent.Attestation.{Provider, GateCall, gate}
use safe_agent.Attestation.Admission.{is_skip, required_never_skips}

abbrev toy : Provider
toy = record { jcs_sha256 = λ v. some "#"; from_iso = λ text. none; convert = λ v. none }

abbrev call : Option Fields → Bool → GateCall
call attestation require_attestation = record {
  claim_binding_preimage = str "claim";
  attestation = attestation;
  has_jwks = true;
  signature_valid = true;
  require_attestation = require_attestation;
  verify_sig = true;
  unreachable = false;
  freshness_ttl_seconds = none;
  now = 50;
}

abbrev good : Fields
good =
    field "binding" (obj (field "binding_digest" (str "#") end))
      (field "admission" (obj (field "verdict" (str "admit") end)) end)

required_never_skips_example : is_skip (gate toy (call none true)) ≡ false
required_never_skips_example = required_never_skips toy (call none true) none refl refl
