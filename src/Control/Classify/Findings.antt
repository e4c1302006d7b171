-- ===== src/Control/Classify/Findings.antt =====
-- The loop of `classify_results` over the orders adds findings about orders alone.
use safe_agent.Prelude.{
  ℕ, suc, ◌+◌, ◌≤◌, ◌<◌, List, [], ◌∷◌, ◌++◌, length, none, some, true, ◌&&◌, ◌≡◌, refl, ap, ◌∙◌,
  ◌⊎◌, inl, inr, arith, ◌==◌, Bool-cases, Option-cases, String, is_some,
}
use safe_agent.Prelude.Lists.{get_elem?-some}
use safe_agent.Prelude.Members.{In, In-append, In-append_left, In-append_right}
use safe_agent.Prelude.Table.{Table, lookup}
use safe_agent.Control.Models.{
  tier_eq, identifier_conflict, OrderDisposition, assigned_order, unmatched_order, ambiguous_order,
  conflicting_order, unrecorded_internally, uncertain, unmatched_broker_order,
  external_identifier_conflict, BrokerOrder, InternalClaim, Edge,
}
use safe_agent.Control.Evidence.Graph.{Inside}
use safe_agent.Control.Results.{ReconciliationResult}
use safe_agent.Control.Classify.Orders.{
  standalone, already_primary, conflicting_claims, claim_ids_at, least_text, classify_order,
  classify_orders,
}

module _ (claims : List InternalClaim) (n_orders : ℕ) (edges : List Edge)
    (inside : Inside (length claims) n_orders edges) (disposition : Table OrderDisposition) where
  ids_there :
      (j : ℕ) (es : List Edge)
      → Inside (length claims) n_orders es
      → (ids : List String) × (claim_ids_at claims (conflicting_claims j es) ≡ some ids)
  unfolding conflicting_claims claim_ids_at
  ids_there j [] h = ([], refl)
  ids_there j (e ∷ es) (here, later) =
      let (ids, f) = ids_there j es later in
      let (x, g) = get_elem?-some claims e.claim_idx here.0 in
      elim (Bool-cases (e.order_idx == j && tier_eq e.tier identifier_conflict)) [
        | inl y ↦ (x.stable_id ∷ ids, ground (arith, f, g, y))
        | inr n ↦ (ids, ground (arith, f, n))
      ]

  -- A finding about the order at position `j` alone: unrecorded when its disposition is unmatched.
  abbrev Finding : ℕ → OrderDisposition → ReconciliationResult → Type 0
  Finding j d r =
      (r.claim ≡ none)
      × (r.matched_broker_order ≡ some j)
      × ((r.result ≡ uncertain) ⊎ ((r.result ≡ unrecorded_internally) × (d ≡ unmatched_order)))

  abbrev Adds : ℕ → OrderDisposition → List ReconciliationResult → Type 0
  Adds j d more =
      ((r : ReconciliationResult) → In r more → Finding j d r)
      × (d ≡ unmatched_order
          → (r : ReconciliationResult) × In r more
            × (r.matched_broker_order ≡ some j)
            × (r.result ≡ unrecorded_internally))

  classify_order_lem :
      (j : ℕ) (o : BrokerOrder) (d : OrderDisposition) (sofar : List ReconciliationResult)
      → (more : List ReconciliationResult) × (classify_order claims edges j o d sofar ≡ some more)
        × Adds j d more
  unfolding classify_order standalone
  classify_order_lem j o unmatched_order sofar =
      let r = standalone j unrecorded_internally unmatched_broker_order none unmatched_order in
      (
        r ∷ [],
        refl,
        (
          λ r' m. elim m [ inl same ↦ rw same (refl, refl, inr (refl, refl)) | inr h ↦ absurd h ],
          λ e. (r, inl refl, refl, refl),
        ),
      )
  classify_order_lem j o conflicting_order sofar =
      let (ids, e) = ids_there j edges inside in
      elim (Bool-cases (already_primary j o.stable_id sofar)) [
        | inl y ↦ ([], ground (arith, y), (λ r m. absurd m, λ q. absurd (ground (arith, q))))
        | inr n ↦
            let r =
              standalone j uncertain external_identifier_conflict (least_text ids)
                conflicting_order in
            (
              r ∷ [],
              ground (arith, n, e),
              (
                λ r' m. elim m [ inl same ↦ rw same (refl, refl, inl refl) | inr h ↦ absurd h ],
                λ q. absurd (ground (arith, q)),
              ),
            )
      ]
  classify_order_lem j o assigned_order sofar =
      ([], refl, (λ r m. absurd m, λ q. absurd (ground (arith, q))))
  classify_order_lem j o ambiguous_order sofar =
      ([], refl, (λ r m. absurd m, λ q. absurd (ground (arith, q))))

  pub classify_orders_lem :
      (j : ℕ) (os : List BrokerOrder) (sofar : List ReconciliationResult)
      → ((o : ℕ) → j ≤ o → o < j + length os → is_some (lookup o disposition) ≡ true)
      → (rs : List ReconciliationResult) × (classify_orders claims edges disposition j os sofar
          ≡ some rs)
        × ((r : ReconciliationResult) → In r sofar → In r rs)
        × ((r : ReconciliationResult)
            → In r rs
            → In r sofar
              ⊎ ((o : ℕ) × (d : OrderDisposition) × (o < j + length os)
                  × (lookup o disposition ≡ some d)
                  × Finding o d r))
        × ((o : ℕ)
            → j ≤ o
            → o < j + length os
            → lookup o disposition ≡ some unmatched_order
            → (r : ReconciliationResult) × In r rs
              × (r.matched_broker_order ≡ some o)
              × (r.result ≡ unrecorded_internally))
  unfolding classify_orders
  classify_orders_lem j [] sofar known =
      (sofar, refl, λ r m. m, λ r m. inl m, λ o h l e. absurd (omega arith))
  classify_orders_lem j (x ∷ os) sofar known = elim (Option-cases (lookup j disposition)) [
    | inl e ↦ absurd (ground (arith, e, known j (omega arith) (omega arith)))
    | inr (d, e) ↦
        let (more, f, (found, shown)) = classify_order_lem j x d sofar in
        let (rs, g, kept, new, all) =
          classify_orders_lem (suc j) os (sofar ++ more)
            (λ o h l. known o (omega arith) (omega arith)) in
        (
          rs,
          ground (arith, e, f, g),
          λ r m. kept r (In-append_left r sofar more m),
          λ r m. elim (new r m) [
            | inr (o, d', l, k, finding) ↦ inr (o, d', omega arith, k, finding)
            | inl old ↦ elim (In-append r sofar more old) [
              | inl before ↦ inl before
              | inr here ↦ inr (j, d, omega arith, e, found r here)
            ]
          ],
          λ o h l k. elim (Bool-cases (j == o)) [
            | inl q ↦
                let same : j ≡ o = ground (arith, q) in
                let is_unmatched : d ≡ unmatched_order = ground (arith, e, k, same) in
                let (r, m, place, verdict) = shown is_unmatched in
                (r, kept r (In-append_right r sofar more m), place ∙ ap some same, verdict)
            | inr q ↦ all o (ground (arith, q, h)) (omega arith) k
          ],
        )
  ]
