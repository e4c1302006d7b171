-- ===== src/Attestation/Gaps.antt =====
-- What the gate does with an attestation that is silent, and how it counts findings.
use safe_agent.Prelude.{
  ◌∙◌, ◌==◌, ◌&&◌, ℕ, ◌+◌, ◌≤◌, String, ◌≡◌, refl, false, not, none, some, arith,
}
use safe_agent.Prelude.Action.{Result, ok}
use safe_agent.Prelude.Json.{Value, null, int, negative, obj, Fields, end, get_field}
use safe_agent.Attestation.{
  Check, ◌>>=◌, get_or, count_of, deny_when, Provider, GateCall, hashed, same_digest, GateFault,
  deny_findings, check_signature, check_binding, claimed_digest, check_freshness, check_verdict,
  verdict_of, check_findings, findings, admit, gate_attestation, gate,
}
use safe_agent.Prelude.Int.{ℤ, pos, negsuc, is_positive_sum}

-- Neither place of a binding is there.
pub record IsUnbound (att : Fields) : Type 0 where
  pub no_binding : get_field "binding" att ≡ none
  pub no_attestation_binding : get_field "attestation_binding" att ≡ none

-- No verdict and no finding is there either.
pub record IsSilent (att : Fields) : Type 0 where
  pub unbound : IsUnbound att
  pub no_admission : get_field "admission" att ≡ none
  pub no_attestation : get_field "attestation" att ≡ none

bind-ok :
    {A B : Type 0} {m : Result GateFault A} (f : A → Result GateFault B) {a : A}
    → m ≡ ok a
    → (m >>= f) ≡ f a
bind-ok f e = rw e refl

unbound-digest : (att : Fields) → IsUnbound att → claimed_digest att ≡ ok null
unfolding claimed_digest get_field
unbound-digest att u = ground (arith, u.no_binding, u.no_attestation_binding)

unbound-passes :
    (p : Provider) (call : GateCall) (att : Fields) (digest : String)
    → hashed p call.claim_binding_preimage ≡ ok digest
    → IsUnbound att
    → check_binding p call att ≡ ok none
unfolding check_binding
unbound-passes p call att digest d u =
    bind-ok (λ expected. claimed_digest att >>= same_digest p expected) d
    ∙ bind-ok (same_digest p digest) (unbound-digest att u)

silent-verdict_of : (att : Fields) → IsSilent att → verdict_of att ≡ ok null
unfolding verdict_of get_field
silent-verdict_of att s = ground (arith, s.no_admission, s.no_attestation)

silent-verdict : (p : Provider) (att : Fields) → IsSilent att → check_verdict p att ≡ ok none
unfolding check_verdict
silent-verdict p att s = bind-ok _ (silent-verdict_of att s)

abbrev after_high : Provider → ℤ → Value → Check
after_high p a v = count_of p v >>= λ b. deny_when (is_positive_sum a b) (deny_findings a b)

-- The check on findings that are there as two numbers.
findings-step :
    (p : Provider) (att f : Fields) (cv hv : Value) (c h : ℤ)
    → findings att ≡ ok (obj f)
    → get_or "critical" (int 0) (obj f) ≡ ok cv
    → count_of p cv ≡ ok c
    → get_or "high" (int 0) (obj f) ≡ ok hv
    → count_of p hv ≡ ok h
    → check_findings p att ≡ deny_when (is_positive_sum c h) (deny_findings c h)
unfolding check_findings
findings-step p att f cv hv c h e ec cc' eh hh =
    bind-ok _ e
    ∙ bind-ok (λ v. count_of p v >>= λ a. get_or "high" (int 0) (obj f) >>= after_high p a) ec
    ∙ bind-ok (λ a. get_or "high" (int 0) (obj f) >>= after_high p a) cc'
    ∙ bind-ok (after_high p c) eh
    ∙ bind-ok (λ b. deny_when (is_positive_sum c b) (deny_findings c b)) hh

silent-no_findings : (att : Fields) → IsSilent att → findings att ≡ ok (obj end)
unfolding findings get_field
silent-no_findings att s = ground (arith, s.no_attestation)

silent-findings : (p : Provider) (att : Fields) → IsSilent att → check_findings p att ≡ ok none
unfolding get_field
silent-findings p att s =
    findings-step p att end (int 0) (int 0) (pos 0) (pos 0) (silent-no_findings att s) refl refl
      refl refl

-- An attestation without a binding, a verdict and findings is admitted for every claim, whatever
-- digest the claim has, once its signature is accepted and no freshness is asked for.
pub silent_attestation_allowed :
    (p : Provider) (call : GateCall) (att : Fields) (digest : String)
    → hashed p call.claim_binding_preimage ≡ ok digest
    → call.attestation ≡ some att
    → call.unreachable ≡ false
    → check_signature p call ≡ ok none
    → call.freshness_ttl_seconds ≡ none
    → IsSilent att
    → gate p call ≡ admit p call att
unfolding gate gate_attestation check_freshness
silent_attestation_allowed p call att digest d e reached signature fresh s = simp (
  reached,
  e,
  signature,
  unbound-passes p call att digest d s.unbound,
  fresh,
  silent-verdict p att s,
  silent-findings p att s,
)

given :
    (k : String) (v : Value) (f : Fields) → get_field k f ≡ some v → get_or k (int 0) (obj f) ≡ ok v
given k v f e = ground arith

-- On findings that are counts of 0 and more, the check passes exactly when both are 0.
pub findings_counted :
    (p : Provider) (att f : Fields) (critical high : ℕ)
    → findings att ≡ ok (obj f)
    → get_field "critical" f ≡ some (int critical)
    → get_field "high" f ≡ some (int high)
    → check_findings p att
      ≡ deny_when (not (critical == 0 && high == 0)) (deny_findings (pos critical) (pos high))
findings_counted p att f critical high e c h =
    findings-step p att f (int critical) (int high) (pos critical) (pos high) e
      (given "critical" (int critical) f c) refl (given "high" (int high) f h) refl
    ∙ ground arith

-- A count of critical findings that is negative lets as many findings of high severity through.
pub negative_critical_hides_high :
    (p : Provider) (att f : Fields) (critical high : ℕ)
    → findings att ≡ ok (obj f)
    → get_field "critical" f ≡ some (negative critical)
    → get_field "high" f ≡ some (int high)
    → high ≤ critical + 1
    → check_findings p att ≡ ok none
negative_critical_hides_high p att f critical high e c h le =
    findings-step p att f (negative critical) (int high) (negsuc critical) (pos high) e
      (given "critical" (negative critical) f c) refl (given "high" (int high) f h) refl
    ∙ ground arith
