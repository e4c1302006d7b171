-- ===== src/Attestation/Admission.antt =====
-- What a decision of the gate means.
use safe_agent.Prelude.Json.{null, int, get_field_or, Fields}
use safe_agent.Prelude.{
  if◌then◌else◌, Bool-cases, ℕ, ◌≡◌, refl, Bool, true, false, Option, none, some, arith,
}
use safe_agent.Prelude.Action.{Result, ok, err}
use safe_agent.Attestation.{
  ◌>>=◌, deny_when, claimed_digest, check_times, parse_ts, verdict_of, findings, get_or, count_of,
  Provider, GateCall, GateFault, Decision, allow, skip, deny, Check, Instant, older_than, past,
  hashed, action_ref_of, then_check, check_signature, check_binding, check_freshness, check_verdict,
  check_findings, admit, gate_attestation, gate,
}

abbrev pub is_allow : Result GateFault Decision → Bool
is_allow (ok (allow action_ref digest)) = true
is_allow _ = false

abbrev pub is_skip : Result GateFault Decision → Bool
is_skip (ok (skip reason)) = true
is_skip _ = false

-- All five checks let the attestation through.
pub record Passes (p : Provider) (call : GateCall) (att : Fields) : Type 0 where
  pub signature : check_signature p call ≡ ok none
  pub binding : check_binding p call att ≡ ok none
  pub fresh : check_freshness p call att ≡ ok none
  pub verdict : check_verdict p att ≡ ok none
  pub clear : check_findings p att ≡ ok none

-- A check that stops denies.
abbrev is_denial : Decision → Bool
is_denial (allow action_ref digest) = false
is_denial (skip reason) = false
is_denial _ = true

abbrev only_denies : Check → Bool
only_denies (err e) = true
only_denies (ok none) = true
only_denies (ok (some d)) = is_denial d

deny_when-denies :
    (b : Bool) (d : Decision) → is_denial d ≡ true → only_denies (deny_when b d) ≡ true
deny_when-denies true d h = h
deny_when-denies false d h = refl

bind-denies :
    {A : Type 0} (m : Result GateFault A) (f : A → Check)
    → ((a : A) → only_denies (f a) ≡ true)
    → only_denies (m >>= f) ≡ true
bind-denies (ok a) f h = h a
bind-denies (err e) f h = refl

bind-no_skip :
    {A : Type 0} (m : Result GateFault A) (f : A → Result GateFault Decision)
    → ((a : A) → is_skip (f a) ≡ false)
    → is_skip (m >>= f) ≡ false
bind-no_skip (ok a) f h = h a
bind-no_skip (err e) f h = refl

then_check-skip :
    (c : Check) (next : Result GateFault Decision)
    → only_denies c ≡ true
    → is_skip next ≡ false
    → is_skip (then_check c next) ≡ false
then_check-skip (err e) next h n = refl
then_check-skip (ok none) next h n = n
then_check-skip (ok (some d)) next h n = ground arith

then_check-allow :
    (c : Check) (next : Result GateFault Decision)
    → only_denies c ≡ true
    → is_allow (then_check c next) ≡ true
    → (c ≡ ok none) × (is_allow next ≡ true)
then_check-allow (err e) next h n = cc
then_check-allow (ok none) next h n = (refl, n)
then_check-allow (ok (some d)) next h n = absurd (ground arith)

module _ (p : Provider) where
  signature-denies : (call : GateCall) → only_denies (check_signature p call) ≡ true
  unfolding check_signature
  signature-denies call = ground arith

  binding-denies : (call : GateCall) (att : Fields) → only_denies (check_binding p call att) ≡ true
  unfolding check_binding
  binding-denies call att =
      bind-denies (hashed p call.claim_binding_preimage) _
        (λ expected. bind-denies (claimed_digest att) _ (λ claimed. deny_when-denies _ _ refl))

  stale_or_late-denies :
      (stale : Bool) (now : ℕ) (expires : Option Instant)
      → only_denies (
          if stale
          then ok (some (deny "attestation_stale"))
          else (past p now expires >>= λ late. deny_when late (deny "attestation_stale")))
        ≡ true
  stale_or_late-denies true now expires = refl
  stale_or_late-denies false now expires =
      bind-denies (past p now expires) _ (λ late. deny_when-denies late _ refl)

  times-denies : (ttl now : ℕ) (att : Fields) → only_denies (check_times p ttl now att) ≡ true
  times-denies ttl now att =
      bind-denies (parse_ts p (get_field_or "issued_at" null att)) _ (λ issued.
        bind-denies (parse_ts p (get_field_or "expires_at" null att)) _ (λ expires.
          bind-denies (older_than p ttl now issued) _
            (λ stale. stale_or_late-denies stale now expires)))

  freshness-denies :
      (call : GateCall) (att : Fields) (ttl : Option ℕ)
      → call.freshness_ttl_seconds ≡ ttl
      → only_denies (check_freshness p call att) ≡ true
  unfolding check_freshness
  freshness-denies call att none e = rw e refl
  freshness-denies call att (some ttl) e = rw e (times-denies ttl call.now att)

  verdict-denies : (att : Fields) → only_denies (check_verdict p att) ≡ true
  unfolding check_verdict
  verdict-denies att = bind-denies (verdict_of att) _ (λ verdict. deny_when-denies _ _ refl)

  findings-denies : (att : Fields) → only_denies (check_findings p att) ≡ true
  unfolding check_findings
  findings-denies att = bind-denies (findings att) _ (λ f.
      bind-denies (get_or "critical" (int 0) f) _ (λ cv. bind-denies (count_of p cv) _ (λ c.
        bind-denies (get_or "high" (int 0) f) _
          (λ hv. bind-denies (count_of p hv) _ (λ h. deny_when-denies _ _ refl)))))

  admit-no_skip : (call : GateCall) (att : Fields) → is_skip (admit p call att) ≡ false
  admit-no_skip call att = bind-no_skip (hashed p call.claim_binding_preimage) _ (λ expected.
      bind-no_skip (action_ref_of p (get_field_or "action_ref_preimage" null att)) _
        (λ action_ref. refl))

  gate_attestation-skip :
      (call : GateCall) (att : Fields) → is_skip (gate_attestation p call att) ≡ false
  unfolding gate_attestation
  gate_attestation-skip call att = then_check-skip _ _ (signature-denies call) (
      then_check-skip _ _ (binding-denies call att) (
        then_check-skip _ _ (freshness-denies call att _ refl) (
          then_check-skip _ _ (verdict-denies att)
            (then_check-skip _ _ (findings-denies att) (admit-no_skip call att)))))

  gate_attestation-allow :
      (call : GateCall) (att : Fields)
      → is_allow (gate_attestation p call att) ≡ true
      → Passes p call att
  unfolding gate_attestation
  gate_attestation-allow call att h =
      let (signature, r₁) = then_check-allow _ _ (signature-denies call) h in
      let (binding, r₂) = then_check-allow _ _ (binding-denies call att) r₁ in
      let (fresh, r₃) = then_check-allow _ _ (freshness-denies call att _ refl) r₂ in
      let (verdict, r₄) = then_check-allow _ _ (verdict-denies att) r₃ in
      let (clear, r₅) = then_check-allow _ _ (findings-denies att) r₄ in
      record {
        signature = signature;
        binding = binding;
        fresh = fresh;
        verdict = verdict;
        clear = clear;
      }

  Passes-admit :
      (call : GateCall) (att : Fields)
      → Passes p call att
      → gate_attestation p call att ≡ admit p call att
  unfolding gate_attestation
  Passes-admit call att h = rw (h.signature, h.binding, h.fresh, h.verdict, h.clear) refl

-- Where an attestation is required the gate never skips: not when AgentGraph is unreachable, not
-- when there is no attestation, and not on any attestation.
pub required_never_skips :
    (p : Provider) (call : GateCall) (o : Option Fields)
    → call.attestation ≡ o
    → call.require_attestation ≡ true
    → is_skip (gate p call) ≡ false
unfolding gate
required_never_skips p call none e h = ground arith
required_never_skips p call (some att) e h = ground (arith, gate_attestation-skip p call att)

-- What the gate allows on an attestation has passed: AgentGraph was reached, and all five checks let
-- the attestation through.
pub allow_means_passed :
    (p : Provider) (call : GateCall) (att : Fields)
    → call.attestation ≡ some att
    → is_allow (gate p call) ≡ true
    → (call.unreachable ≡ false) × Passes p call att
unfolding gate
allow_means_passed p call att e h =
    (ground arith, gate_attestation-allow p call att (ground (arith, Bool-cases call.unreachable)))

-- An attestation that passes all five checks is admitted, with the digest of this claim, where
-- AgentGraph was reached; only the digest of its action reference may still raise.
pub passed_is_allowed :
    (p : Provider) (call : GateCall) (att : Fields)
    → call.attestation ≡ some att
    → call.unreachable ≡ false
    → Passes p call att
    → gate p call ≡ admit p call att
unfolding gate
passed_is_allowed p call att e reached ok_all = simp (reached, e) (Passes-admit p call att ok_all)
