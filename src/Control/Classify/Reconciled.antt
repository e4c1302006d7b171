-- ===== src/Control/Classify/Reconciled.antt =====
-- `reconcile_identified` as a whole: no claim and no order is lost, and no order confirms two
-- claims.
use mathlib.Core.Logic.{◌↔◌}
use mathlib.Core.Path.{subst₂}
use safe_agent.Prelude.{
  ℕ, zero, suc, ◌<◌, List, [], ◌∷◌, length, Option, none, some, true, ◌≡◌, sym, ap, ◌∙◌, ◌⊎◌, inl,
  inr, arith,
}
use safe_agent.Prelude.Lists.{get_elem?}
use safe_agent.Prelude.Members.{In}
use safe_agent.Prelude.Table.{Table, lookup}
use safe_agent.Control.Models.{
  EvidenceTier, OrderDisposition, unmatched_order, confirmed, unrecorded_internally, uncertain,
  BrokerOrder, InternalClaim, Edge, is_filled,
}
use safe_agent.Control.Evidence.{build_evidence_graph}
use safe_agent.Control.Evidence.Graph.{
  Inside, build_evidence_graph-Inside, joins, build_evidence_graph_exact,
}
use safe_agent.Control.Resolution.{Assignment, assigned}
use safe_agent.Control.Assignments.Pairs.{has_edge, is_graded}
use safe_agent.Control.Assignments.Accounting.{InRange, Accounting, accounting_lem}
use safe_agent.Control.Results.{ReconciliationResult}
use safe_agent.Control.Classify.Executed.{is_unrecorded, Says}
use safe_agent.Control.Classify.Claims.{classify_claims_lem}
use safe_agent.Control.Classify.Findings.{classify_orders_lem}
use safe_agent.Control.Classify.Orders.{
  classify_results, reconcile_identified, reconcile_with_disposition,
}
use safe_agent.Control.Identity.{
  Writing, assign_stable_ids, assign_claim_stable_ids, length-assign_claim_stable_ids,
}

Inside-InRange : (n m : ℕ) (es : List Edge) → Inside n m es → InRange m es
Inside-InRange n m [] h = tt
Inside-InRange n m (e ∷ es) h = (h.0.1, Inside-InRange n m es h.1)

module _ (claims : List InternalClaim) (orders : List BrokerOrder) (now : ℕ) where
  graph : List Edge
  graph = build_evidence_graph claims orders

  graph_in_range : InRange (length orders) graph
  unfolding graph
  graph_in_range =
      Inside-InRange (length claims) (length orders) graph
        (build_evidence_graph-Inside claims orders)

  -- An assigned pair is joined by evidence of its tier.
  evidence_joins :
      (c o : ℕ) (t : EvidenceTier)
      → has_edge t c o graph ≡ true
      → joins t (get_elem? claims c) (get_elem? orders o) ≡ true
  unfolding graph
  evidence_joins c o t h = sym (build_evidence_graph_exact t c o claims orders) ∙ h

  joined_order :
      (t : EvidenceTier) (c : Option InternalClaim) (xs : List BrokerOrder) (o : ℕ)
      → joins t c (get_elem? xs o) ≡ true
      → o < length xs
  unfolding joins get_elem?
  joined_order t none xs o h = absurd (ground (arith, h))
  joined_order t (some c) [] o h = absurd (ground (arith, h))
  joined_order t (some c) (x ∷ xs) zero h = omega arith
  joined_order t (some c) (x ∷ xs) (suc o) h = omega (arith, joined_order t (some c) xs o h)

  record Reconciled (a : Table Assignment) (d : Table OrderDisposition)
      (rs : List ReconciliationResult) : Type 0 where
    accounting : Accounting graph (length claims) (length orders) graph_in_range a d
    answered :
        (i : ℕ) → i < length claims → (r : ReconciliationResult) × In r rs × (r.claim ≡ some i)
    about_claim :
        (r : ReconciliationResult)
        → In r rs
        → ((c : ℕ) × Says orders a c r)
          ⊎ ((o : ℕ) × (x : OrderDisposition) × (lookup o d ≡ some x)
              × (r.matched_broker_order ≡ some o)
              × ((r.result ≡ uncertain)
                  ⊎ ((r.result ≡ unrecorded_internally) × (x ≡ unmatched_order))))
    reported :
        (o : ℕ)
        → o < length orders
        → lookup o d ≡ some unmatched_order
        → (r : ReconciliationResult) × In r rs
          × (r.matched_broker_order ≡ some o)
          × (r.result ≡ unrecorded_internally)

  reconciled_lem :
      (a : Table Assignment) × (d : Table OrderDisposition) × (rs : List ReconciliationResult)
      × (reconcile_identified claims orders now ≡ some (rs, d))
      × Reconciled a d rs
  unfolding reconcile_identified classify_results graph
  reconciled_lem =
      let (a, d, e, all) = accounting_lem graph (length claims) (length orders) graph_in_range in
      let (first, f, shown, says) =
        classify_claims_lem orders a d all.orders_known now graph graph_in_range
          (λ c o t h.
            let (edge, grade) = all.evidence c o t h in
            (joined_order t (get_elem? claims c) orders o (evidence_joins c o t edge), grade))
          (λ c o h. all.involved c o h) 0 claims (λ c h l. all.claims_known c (omega arith)) in
      let (rs, g, kept, new, reports) =
        classify_orders_lem claims (length orders) graph (build_evidence_graph-Inside claims orders)
          d 0 orders first (λ o h l. all.orders_known o (omega arith)) in
      (
        a,
        d,
        rs,
        ground (arith, e, f, g),
        record {
          accounting = all;
          answered =
              λ i h. let (r, m, own) = shown i (omega arith) (omega arith) in (r, kept r m, own);
          about_claim = λ r m. elim (new r m) [
            | inl old ↦ inl (says r old)
            | inr (o, x, l, k, (alone, place, verdict)) ↦ inr (o, x, k, place, verdict)
          ];
          reported = λ o h k. reports o (omega arith) (omega arith) k;
        },
      )

  module _ (rs : List ReconciliationResult) (d : Table OrderDisposition)
      (ran : reconcile_identified claims orders now ≡ some (rs, d)) where
    reconciled : (a : Table Assignment) × Reconciled a d rs
    reconciled =
        let (a, d', rs', e, done) = reconciled_lem in
        let results : rs' ≡ rs = ground (arith, e, ran) in
        let same : d' ≡ d = ground (arith, e, ran) in
        (a, subst₂ (λ x y. Reconciled a x y) same results done)

    confirmed-Says :
        (a : Table Assignment) (done : Reconciled a d rs) (r : ReconciliationResult)
        → In r rs
        → r.result ≡ confirmed
        → (c : ℕ) × Says orders a c r
    confirmed-Says a done r m h = elim (done.about_claim r m) [
      | inl about ↦ about
      | inr (o, x, k, place, inl v) ↦ absurd (ground (arith, h, v))
      | inr (o, x, k, place, inr (v, e)) ↦ absurd (ground (arith, h, v))
    ]

    -- In the results of a reconciliation: two confirmations by the same order are of the same
    -- claim.
    pub order_confirms_one_claim :
        (r s : ReconciliationResult)
        → In r rs
        → In s rs
        → r.result ≡ confirmed
        → s.result ≡ confirmed
        → r.matched_broker_order ≡ s.matched_broker_order
        → r.claim ≡ s.claim
    order_confirms_one_claim r s m n h k same =
        let (a, done) = reconciled in
        let (c, says) = confirmed-Says a done r m h in
        let (c', says') = confirmed-Says a done s n k in
        let (o, t, x, place, held, at, filled) = says.confirmation h in
        let (o', t', x', place', held', at', filled') = says'.confirmation k in
        let order : o' ≡ o = ground (arith, place, place', same) in
        let claim : c ≡ c' =
          done.accounting.once c c' o t t' held (held' ∙ ap (λ q. some (assigned q t')) order) in
        says.own ∙ (ap some claim ∙ sym says'.own)

    -- A confirmation in the results of a reconciliation is of a claim by a filled order, and the
    -- two are joined by evidence of an assigning tier.
    pub confirmation_is_evidenced :
        (r : ReconciliationResult)
        → In r rs
        → r.result ≡ confirmed
        → (c : ℕ) × (o : ℕ) × (t : EvidenceTier) × (x : BrokerOrder) × (r.claim ≡ some c)
          × (r.matched_broker_order ≡ some o)
          × (get_elem? orders o ≡ some x)
          × (is_filled x.status ≡ true)
          × (is_graded t ≡ true)
          × (joins t (get_elem? claims c) (get_elem? orders o) ≡ true)
    confirmation_is_evidenced r m h =
        let (a, done) = reconciled in
        let (c, says) = confirmed-Says a done r m h in
        let (o, t, x, place, held, at, filled) = says.confirmation h in
        let (edge, grade) = done.accounting.evidence c o t held in
        (c, o, t, x, says.own, place, at, filled, grade, evidence_joins c o t edge)

    -- In the results of a reconciliation: an order is reported as unrecorded exactly when it is
    -- accounted for as unmatched.
    pub unmatched_order_reported :
        (o : ℕ)
        → o < length orders
        → (lookup o d ≡ some unmatched_order) ↔ (
            (r : ReconciliationResult) × In r rs
            × (r.matched_broker_order ≡ some o)
            × (r.result ≡ unrecorded_internally))
    unfolding is_unrecorded
    unmatched_order_reported o h =
        let (a, done) = reconciled in
        (
          done.reported o h,
          λ (r, m, place, v). elim (done.about_claim r m) [
            | inl (c, says) ↦ absurd (ground (arith, says.recorded, v))
            | inr (q, x, k, at, inl w) ↦ absurd (ground (arith, w, v))
            | inr (q, x, k, at, inr (w, e)) ↦ ground (arith, place, at, k, e)
          ],
        )

-- Whatever the claims, the orders and the time: the reconciliation ends with a result, and every
-- claim has a finding in it.
pub reconcile_answers_every_claim :
    (w : Writing) (claims : List InternalClaim) (orders : List BrokerOrder) (now i : ℕ)
    → i < length claims
    → (rs : List ReconciliationResult) × (d : Table OrderDisposition) × (reconcile_with_disposition
          w claims orders now
        ≡ some (rs, d))
      × ((r : ReconciliationResult) × In r rs × (r.claim ≡ some i))
unfolding reconcile_with_disposition
reconcile_answers_every_claim w claims orders now i h =
    let named = assign_claim_stable_ids w claims in
    let (a, d, rs, e, done) = reconciled_lem named (assign_stable_ids w orders) now in
    (rs, d, e, done.answered i (omega (arith, length-assign_claim_stable_ids w claims)))
