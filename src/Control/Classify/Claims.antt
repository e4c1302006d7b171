-- ===== src/Control/Classify/Claims.antt =====
-- The loop of `classify_results` over the claims: each claim gets a result.
use safe_agent.Prelude.{
  ℕ, suc, ◌+◌, ◌-◌, ◌≤◌, ◌<◌, List, [], ◌∷◌, ◌++◌, length, some, true, ◌≡◌, ◌≢◌, refl, ap, ◌∙◌, ◌⊎◌,
  inl, inr, arith, ◌==◌, Bool-cases, Option-cases, is_some,
}
use safe_agent.Prelude.Members.{In, In-append, In-append_left, In-append_right}
use safe_agent.Prelude.Table.{Table, lookup}
use safe_agent.Prelude.Counts.{mem}
use safe_agent.Control.Models.{
  EvidenceTier, OrderDisposition, timeliness, BrokerOrder, InternalClaim, Edge,
  ExecutionEligibility, execution_expected, execution_skipped, execution_rejected,
  execution_pending, execution_unknown,
}
use safe_agent.Control.Evidence.{eligibility}
use safe_agent.Control.Resolution.{Assignment, assigned}
use safe_agent.Control.Assignments.States.{involved_of}
use safe_agent.Control.Assignments.Pairs.{is_graded}
use safe_agent.Control.Assignments.Accounting.{InRange}
use safe_agent.Control.Outcome.{◌>>=◌}
use safe_agent.Control.Results.{ReconciliationResult, classify_skipped}
use safe_agent.Control.Classify.{classify_executed, classify_claim, classify_claims}
use safe_agent.Control.Classify.Parts.{
  Quiet-append, AllThere, contradiction_orders_lem, contradiction_finding_lem,
  classify_rejected_lem,
}
use safe_agent.Control.Classify.Executed.{
  Says, Says-quiet, About, About-one, classify_executed_lem, classify_skipped-Says,
}

module _ (orders : List BrokerOrder) (assignments : Table Assignment)
    (disposition : Table OrderDisposition)
    (disposed : (o : ℕ) → o < length orders → is_some (lookup o disposition) ≡ true) (now : ℕ)
    (edges : List Edge) (in_range : InRange (length orders) edges)
    (there : (c o : ℕ) (t : EvidenceTier)
      → lookup c assignments ≡ some (assigned o t)
      → (o < length orders) × (is_graded t ≡ true))
    (named : (c : ℕ) → AllThere orders (involved_of (lookup c assignments))) where
  classify_run :
      (i : ℕ) (claim : InternalClaim)
      → is_some (lookup i assignments) ≡ true
      → (rs : List ReconciliationResult) × ((lookup i assignments
            >>= classify_executed i claim (timeliness (now - claim.claimed_at)) orders disposition)
          ≡ some rs)
        × About orders assignments i rs
  classify_run i claim known = elim (Option-cases (lookup i assignments)) [
    | inl e ↦ absurd (ground (arith, e, known))
    | inr (res, e) ↦
        let run =
          classify_executed i claim (timeliness (now - claim.claimed_at)) orders disposition in
        let (rs, f, about) =
          classify_executed_lem orders assignments disposition disposed i claim
            (timeliness (now - claim.claimed_at)) res e (λ o t same. there i o t (e ∙ ap some same))
            (λ o h. named i o (ap (λ a. mem o (involved_of a)) e ∙ h)) in
        (rs, ap (λ a. a >>= run) e ∙ f, about)
  ]

  classify_claim_lem :
      (i : ℕ) (claim : InternalClaim) (elig : ExecutionEligibility)
      → is_some (lookup i assignments) ≡ true
      → (rs : List ReconciliationResult) × (classify_claim now orders edges assignments disposition
            i claim elig
          ≡ some rs)
        × About orders assignments i rs
  unfolding classify_claim
  classify_claim_lem i claim execution_skipped known =
      let r = classify_skipped i claim (timeliness (now - claim.claimed_at)) in
      (
        r ∷ [],
        refl,
        About-one orders assignments i r (
            classify_skipped-Says orders assignments disposition disposed i claim
              (timeliness (now - claim.claimed_at))),
      )
  classify_claim_lem i claim execution_rejected known = elim (Option-cases (lookup i assignments)) [
    | inl e ↦ absurd (ground (arith, e, known))
    | inr (res, e) ↦
        let age = timeliness (now - claim.claimed_at) in
        let (os, f, inside) = contradiction_orders_lem orders i edges in_range in
        let (first, g, calm, found) =
          contradiction_finding_lem orders disposition disposed i age os inside in
        let (second, h, calmer, more) =
          classify_rejected_lem orders disposition disposed i age os res
            (λ o t same. (there i o t (e ∙ ap some same)).0)
            (λ o m. named i o (ap (λ a. mem o (involved_of a)) e ∙ m)) in
        (
          first ++ second,
          ground (arith, e, f, g, h),
          (
            some_result first second os found more,
            λ r m.
                let (own, quiet) = Quiet-append i first second calm calmer r m in
                Says-quiet orders assignments i r own quiet,
          ),
        )
  ]
    where
      some_result :
          (xs ys : List ReconciliationResult) (os : List ℕ)
          → (os ≡ []) ⊎ ((r : ReconciliationResult) × In r xs)
          → ((r : ReconciliationResult) × In r ys) ⊎ (os ≢ [])
          → (r : ReconciliationResult) × In r (xs ++ ys)
      some_result xs ys os (inr (r, m)) b = (r, In-append_left r xs ys m)
      some_result xs ys os (inl e) (inl (r, m)) = (r, In-append_right r xs ys m)
      some_result xs ys os (inl e) (inr n) = absurd (n e)
  classify_claim_lem i claim execution_expected known = classify_run i claim known
  classify_claim_lem i claim execution_pending known = classify_run i claim known
  classify_claim_lem i claim execution_unknown known = classify_run i claim known

  pub classify_claims_lem :
      (i : ℕ) (claims : List InternalClaim)
      → ((c : ℕ) → i ≤ c → c < i + length claims → is_some (lookup c assignments) ≡ true)
      → (rs : List ReconciliationResult) × (classify_claims now orders edges assignments disposition
            i claims
          ≡ some rs)
        × ((c : ℕ)
            → i ≤ c
            → c < i + length claims
            → (r : ReconciliationResult) × In r rs × (r.claim ≡ some c))
        × ((r : ReconciliationResult) → In r rs → (c : ℕ) × Says orders assignments c r)
  unfolding classify_claims
  classify_claims_lem i [] known = ([], refl, λ c h l. absurd (omega arith), λ r m. absurd m)
  classify_claims_lem i (claim ∷ claims) known =
      let (here, e, ((r, m), says)) =
        classify_claim_lem i claim (eligibility claim) (known i (omega arith) (omega arith)) in
      let (rest, f, shown, all) =
        classify_claims_lem (suc i) claims (λ c h l. known c (omega arith) (omega arith)) in
      (
        here ++ rest,
        ground (arith, e, f),
        λ c h l. elim (Bool-cases (i == c)) [
          | inl q ↦ (r, In-append_left r here rest m, (says r m).own ∙ ap some (ground (arith, q)))
          | inr q ↦
              let (s, n, own) = shown c (ground (arith, q, h)) (omega arith) in
              (s, In-append_right s here rest n, own)
        ],
        λ s n. elim (In-append s here rest n) [ inl k ↦ (i, says s k) | inr k ↦ all s k ],
      )
