-- ===== src/Boundary/Gateway/Binding.antt =====
-- What an authorized permit binds, and when the gateway accepts a permit that the authority issued.
use mathlib.Core.Path.{subst}
use safe_agent.Boundary.Gateway.{compare_fields, check_claims, authorize}
use safe_agent.Prelude.{
  ℕ, ◌+◌, ◌≤◌, ◌<◌, String, ◌≡◌, refl, true, false, some, arith, if◌then◌else◌, eq_iff, ltb, ◌==◌,
  inl, inr, Option-cases,
}
use safe_agent.Prelude.Action.{Result, ok, err}
use safe_agent.Prelude.Text.{char_count, count_dots, split_dot-append}
use safe_agent.Boundary.Permit.{
  ActionRequest, PermitClaims, Provider, Fault, permit_denied, claims_dict, claims_from-claims_dict,
  payload_digest, issued_claims, signed_token, issue, verify_permit,
}

-- The permit and the request name the same effect, and the time is inside the permit's window.
pub record IsBound (p : Provider) (claims : PermitClaims) (request : ActionRequest) (now : ℕ)
    : Type 0 where
  pub principal : claims.principal ≡ request.principal
  pub run_id : claims.run_id ≡ request.run_id
  pub action : claims.action ≡ request.action
  pub target : claims.target ≡ request.target
  pub payload : payload_digest p request.payload ≡ some claims.payload_sha256
  pub begun : claims.issued_at ≤ now
  pub unexpired : now < claims.expires_at

compare_fields_iff :
    (p : Provider) (claims c : PermitClaims) (request : ActionRequest) (now : ℕ) (digest : String)
    → payload_digest p request.payload ≡ some digest
    → claims.issued_at ≤ now
    → now < claims.expires_at
    → (compare_fields p claims request digest ≡ ok c → (claims ≡ c) × IsBound p claims request now)
      × (IsBound p claims request now → compare_fields p claims request digest ≡ ok claims)
compare_fields_iff p claims c request now digest d begun ends = (
  λ h. ground (
    arith,
    eq_iff claims.principal request.principal,
    eq_iff claims.run_id request.run_id,
    eq_iff claims.action request.action,
    eq_iff claims.target request.target,
    eq_iff claims.payload_sha256 digest,
  ),
  λ b. ground (
    arith,
    eq_iff claims.principal request.principal,
    eq_iff claims.run_id request.run_id,
    eq_iff claims.action request.action,
    eq_iff claims.target request.target,
    eq_iff claims.payload_sha256 digest,
    b.payload,
  ),
)

check_claims_sound :
    (p : Provider) (claims c : PermitClaims) (request : ActionRequest) (now : ℕ)
    → check_claims p claims request now ≡ ok c
    → (claims ≡ c) × IsBound p claims request now
check_claims_sound p claims c request now h =
    elim (Option-cases (payload_digest p request.payload)) [
      | inl broken ↦ absurd (ground arith)
      | inr (digest, d) ↦
          (compare_fields_iff p claims c request now digest d (ground arith) (ground arith)).0
            (ground arith)
    ]

check_claims_complete :
    (p : Provider) (claims : PermitClaims) (request : ActionRequest) (now : ℕ)
    → IsBound p claims request now
    → check_claims p claims request now ≡ ok claims
check_claims_complete p claims request now b =
    let same =
      (compare_fields_iff p claims claims request now claims.payload_sha256 b.payload b.begun
          b.unexpired).1
        b in
    ground (arith, b.payload, b.begun, b.unexpired)

authorize-on :
    (p : Provider) (key token : String) (request : ActionRequest) (now : ℕ) (claims : PermitClaims)
    (r : Result Fault PermitClaims)
    → verify_permit p token key ≡ r
    → authorize p key token request now ≡ ok claims
    → (verify_permit p token key ≡ ok claims) × IsBound p claims request now
unfolding authorize
authorize-on p key token request now claims (err e) v h = absurd (cc (rw (v, authorize) at h))
authorize-on p key token request now claims (ok c) v h =
    let s = check_claims_sound p c claims request now (rw (v, authorize) at h) in
    subst (λ k. (verify_permit p token key ≡ ok k) × IsBound p k request now) s.0 (v, s.1)

-- A token that the gateway accepts verifies to the claims that it returns, and these bind the
-- request's principal, run, action, target and payload at that time.
pub authorize_sound :
    (p : Provider) (key token : String) (request : ActionRequest) (now : ℕ) (claims : PermitClaims)
    → authorize p key token request now ≡ ok claims
    → (verify_permit p token key ≡ ok claims) × IsBound p claims request now
authorize_sound p key token request now claims h =
    authorize-on p key token request now claims (verify_permit p token key) refl h

-- A token that verifies to claims that bind the request at that time is accepted with these claims.
pub authorize_complete :
    (p : Provider) (key token : String) (request : ActionRequest) (now : ℕ) (claims : PermitClaims)
    → verify_permit p token key ≡ ok claims
    → IsBound p claims request now
    → authorize p key token request now ≡ ok claims
unfolding authorize
authorize_complete p key token request now claims v b =
    rw (v, authorize) (check_claims_complete p claims request now b)

-- What the libraries document of these functions, on what one issue of a permit passes through them:
-- JSON and base64url read back what they wrote, base64url has no dot, and a signature verifies under
-- the signer's public key.
pub record IsLawful (p : Provider) (private_key text : String) (claims : PermitClaims)
    : Type 0 where
  pub reads_back : p.loads text ≡ some (claims_dict claims)
  pub decodes : p.unb64u (p.b64u text) ≡ some text
  pub dotless : count_dots (p.b64u text) ≡ 0
  pub dotless_signature : count_dots (p.b64u (p.sign private_key (p.b64u text))) ≡ 0
  pub verifies :
      p.verify (p.public_key private_key) (p.b64u (p.sign private_key (p.b64u text))) (p.b64u text)
      ≡ true

-- A token that the authority signs verifies to the claims that it was signed over.
signed_token-verifies :
    (p : Provider) (private_key text : String) (claims : PermitClaims)
    → IsLawful p private_key text claims
    → claims.version ≡ "safeagent-permit-v1"
    → char_count (signed_token p private_key text) ≤ 16384
    → verify_permit p (signed_token p private_key text) (p.public_key private_key) ≡ ok claims
unfolding verify_permit
signed_token-verifies p private_key text claims laws v short =
    let signature = p.sign private_key (p.b64u text) in
    let dots = split_dot-append (p.b64u text) (p.b64u signature) laws.dotless in
    let one : (count_dots (signed_token p private_key text) == 1) ≡ true =
      ground (arith, dots.1, laws.dotless_signature) in
    let fits : ltb 16384 (char_count (signed_token p private_key text)) ≡ false = ground arith in
    rw (fits, one, dots.0)
      (rw (laws.verifies, laws.decodes, laws.reads_back, claims_from-claims_dict claims, v) refl)

-- The answer of the clock alone to a permit for [now, now + ttl).
abbrev pub window_answer : (now ttl later : ℕ) → PermitClaims → Result Fault PermitClaims
window_answer now ttl later claims =
    if ltb later now
    then err (permit_denied "permit_not_yet_valid")
    else if ltb later (now + ttl)
    then ok claims
    else err (permit_denied "permit_expired")

check_claims-window :
    (p : Provider) (claims : PermitClaims) (request : ActionRequest) (now ttl later : ℕ)
    → claims.issued_at ≡ now
    → claims.expires_at ≡ now + ttl
    → payload_digest p request.payload ≡ some claims.payload_sha256
    → compare_fields p claims request claims.payload_sha256 ≡ ok claims
    → check_claims p claims request later ≡ window_answer now ttl later claims
check_claims-window p claims request now ttl later i x d c = ground arith

-- With a lawful provider, for a request whose payload and claims have a canonical form, and for a
-- token of at most 16384 characters: a permit that the authority issues with a lifetime above 0 is a
-- token that the gateway accepts for that request exactly in [now, now + ttl), with the claims that
-- were signed, and denies before and after as not yet valid and as expired.
pub issued_permit_window :
    (p : Provider) (private_key issuer : String) (request : ActionRequest) (ttl now later : ℕ)
    (permit_id digest text : String)
    → IsLawful p private_key text (issued_claims issuer request digest ttl now permit_id)
    → 0 < ttl
    → payload_digest p request.payload ≡ some digest
    → p.dumps (claims_dict (issued_claims issuer request digest ttl now permit_id)) ≡ some text
    → char_count (signed_token p private_key text) ≤ 16384
    → let token = signed_token p private_key text in
      let claims = issued_claims issuer request digest ttl now permit_id in
      (issue p private_key issuer request ttl 1 now permit_id ≡ ok token)
      × (authorize p (p.public_key private_key) token request later
          ≡ window_answer now ttl later claims)
unfolding issue authorize
issued_permit_window p private_key issuer request ttl now later permit_id digest text laws pos dig d
      short =
    let claims = issued_claims issuer request digest ttl now permit_id in
    let v = signed_token-verifies p private_key text claims laws refl short in
    (
      ground (arith, dig, d),
      rw (v, authorize)
          (check_claims-window p claims request now ttl later refl refl dig (
            ground (
              arith,
              eq_iff request.principal request.principal,
              eq_iff request.run_id request.run_id,
              eq_iff request.action request.action,
              eq_iff request.target request.target,
              eq_iff digest digest,
            ))),
    )
