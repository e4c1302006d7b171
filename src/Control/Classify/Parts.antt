-- ===== src/Control/Classify/Parts.antt =====
-- The parts of `classify_results` find what they look up, and what they say of a claim.
use safe_agent.Prelude.{
  ℕ, ◌<◌, List, [], ◌∷◌, ◌++◌, length, some, Bool, true, false, ◌&&◌, ◌||◌, ◌≡◌, ◌≢◌, refl, ◌⊎◌,
  inl, inr, arith, ◌==◌, Bool-cases, Option-cases, String, is_some,
}
use safe_agent.Prelude.Lists.{get_elem?-some}
use safe_agent.Prelude.Members.{In, In-append}
use safe_agent.Prelude.Table.{Table, lookup}
use safe_agent.Prelude.Counts.{mem}
use safe_agent.Control.Models.{
  EvidenceTier, full_identifier, partial_identifier, tier_eq, OrderDisposition, Timeliness, Result,
  confirmed, unrecorded_internally, contradiction, rejected, rejection_execution_contradiction,
  open_case, strong_full, unknown_position, broker_rejected_reason,
  ambiguous_multiple_identifier_matches, identifier_conflict_reason, BrokerOrder, Edge, is_filled,
}
use safe_agent.Control.Resolution.{Assignment, assigned, ambiguous, conflict, no_order}
use safe_agent.Control.Assignments.States.{involved_of}
use safe_agent.Control.Assignments.Accounting.{InRange}
use safe_agent.Control.Results.{
  ReconciliationResult, text_ltb, contradiction_orders, stable_ids, min_by_id, matched, several,
  plain,
}
use safe_agent.Control.Classify.{contradiction_finding, classify_rejected}

-- Neither a confirmation nor an unrecorded order.
unfoldable pub is_quiet : Result → Bool
is_quiet confirmed = false
is_quiet unrecorded_internally = false
is_quiet r = true

-- Results about one claim that confirm nothing.
abbrev pub Quiet : ℕ → List ReconciliationResult → Type 0
Quiet i rs = (r : ReconciliationResult) → In r rs → (r.claim ≡ some i) × (is_quiet r.result ≡ true)

pub Quiet-append :
    (i : ℕ) (rs ss : List ReconciliationResult) → Quiet i rs → Quiet i ss → Quiet i (rs ++ ss)
Quiet-append i rs ss h k r m = elim (In-append r rs ss m) [ inl a ↦ h r a | inr b ↦ k r b ]

pub Quiet-one :
    (i : ℕ) (r : ReconciliationResult)
    → r.claim ≡ some i
    → is_quiet r.result ≡ true
    → Quiet i (r ∷ [])
Quiet-one i r e q s (inl same) = rw same (e, q)
Quiet-one i r e q s (inr h) = absurd h

module _ (orders : List BrokerOrder) where
  abbrev pub AllThere : List ℕ → Type 0
  AllThere os = (o : ℕ) → mem o os ≡ true → o < length orders

  pub stable_ids_lem :
      (os : List ℕ) → AllThere os → (ids : List String) × (stable_ids orders os ≡ some ids)
  unfolding stable_ids mem
  stable_ids_lem [] h = ([], refl)
  stable_ids_lem (o ∷ os) h =
      let (x, e) = get_elem?-some orders o (h o (ground arith)) in
      let (ids, f) = stable_ids_lem os (λ p m. h p (ground (arith, m))) in
      (x.stable_id ∷ ids, ground (arith, e, f))

  pub contradiction_orders_lem :
      (i : ℕ) (edges : List Edge)
      → InRange (length orders) edges
      → (os : List ℕ) × (contradiction_orders i orders edges ≡ some os) × AllThere os
  unfolding contradiction_orders mem
  contradiction_orders_lem i [] h = ([], refl, λ o m. absurd (ground (arith, m)))
  contradiction_orders_lem i (e ∷ es) h =
      let (os, f, there) = contradiction_orders_lem i es h.1 in
      let (x, g) = get_elem?-some orders e.order_idx h.0 in
      elim (Bool-cases (
        e.claim_idx == i
        && (tier_eq e.tier full_identifier || tier_eq e.tier partial_identifier))) [
          | inr n ↦ (os, ground (arith, f, n), there)
          | inl y ↦ elim (Bool-cases (is_filled x.status)) [
            | inr n ↦ (os, ground (arith, f, g, y, n), there)
            | inl filled ↦ (
              e.order_idx ∷ os,
              ground (arith, f, g, y, filled),
              λ o m. elim (Bool-cases (e.order_idx == o)) [
                | inl q ↦ let same : o ≡ e.order_idx = ground (arith, q) in rw same h.0
                | inr q ↦ there o (ground (arith, m, q))
              ],
            )
          ]
        ]

  pub min_by_id_lem :
      (best : ℕ) (id : String) (os : List ℕ)
      → best < length orders
      → AllThere os
      → (k : ℕ) × (min_by_id best id orders os ≡ some k) × (k < length orders)
  unfolding min_by_id mem
  min_by_id_lem best id [] b h = (best, refl, b)
  min_by_id_lem best id (o ∷ os) b h =
      let (x, e) = get_elem?-some orders o (h o (ground arith)) in
      let later : AllThere os = λ p m. h p (ground (arith, m)) in
      elim (Bool-cases (text_ltb x.stable_id id)) [
        | inl l ↦
            let (k, f, inside) = min_by_id_lem o x.stable_id os (h o (ground arith)) later in
            (k, ground (arith, e, l, f), inside)
        | inr l ↦
            let (k, f, inside) = min_by_id_lem best id os b later in
            (k, ground (arith, e, l, f), inside)
      ]

  module _ (disposition : Table OrderDisposition)
      (disposed : (o : ℕ) → o < length orders → is_some (lookup o disposition) ≡ true) where
    pub disposed_some :
        (o : ℕ) → o < length orders → (x : OrderDisposition) × (lookup o disposition ≡ some x)
    disposed_some o h = elim (Option-cases (lookup o disposition)) [
      | inl e ↦ absurd (ground (arith, disposed o h, e))
      | inr found ↦ found
    ]

    pub contradiction_finding_lem :
        (i : ℕ) (age : Timeliness) (os : List ℕ)
        → AllThere os
        → (rs : List ReconciliationResult) × (contradiction_finding i age orders disposition os
            ≡ some rs)
          × Quiet i rs
          × ((os ≡ []) ⊎ ((r : ReconciliationResult) × In r rs))
    unfolding contradiction_finding is_quiet mem
    contradiction_finding_lem i age [] h = ([], refl, λ r m. absurd m, inl refl)
    contradiction_finding_lem i age (o ∷ os) h =
        let (x, e) = get_elem?-some orders o (h o (ground arith)) in
        let (k, f, inside) =
          min_by_id_lem o x.stable_id os (h o (ground arith)) (λ p m. h p (ground (arith, m))) in
        let (category, g) = disposed_some k inside in
        let r =
          matched i k age contradiction (rejection_execution_contradiction ∷ []) open_case
            strong_full unknown_position category in
        (r ∷ [], ground (arith, e, f, g), Quiet-one i r refl refl, inr (r, inl refl))

    pub classify_rejected_lem :
        (i : ℕ) (age : Timeliness) (contradictions : List ℕ) (res : Assignment)
        → ((o : ℕ) (t : EvidenceTier) → res ≡ assigned o t → o < length orders)
        → AllThere (involved_of (some res))
        → (rs : List ReconciliationResult) × (classify_rejected i age orders disposition
              contradictions res
            ≡ some rs)
          × Quiet i rs
          × (((r : ReconciliationResult) × In r rs) ⊎ (contradictions ≢ []))
    unfolding classify_rejected is_quiet involved_of
    classify_rejected_lem i age contradictions (assigned o t) there named =
        let (x, e) = get_elem?-some orders o (there o t refl) in
        let (category, g) = disposed_some o (there o t refl) in
        let r =
          matched i o age rejected (broker_rejected_reason ∷ []) open_case strong_full
            unknown_position category in
        (r ∷ [], ground (arith, e, g), Quiet-one i r refl refl, inl (r, inl refl))
    classify_rejected_lem i age contradictions (ambiguous t os) there named =
        let (ids, e) = stable_ids_lem os named in
        let r =
          several i age rejected
            (broker_rejected_reason ∷ ambiguous_multiple_identifier_matches ∷ []) ids in
        (r ∷ [], ground (arith, e), Quiet-one i r refl refl, inl (r, inl refl))
    classify_rejected_lem i age contradictions (conflict os) there named =
        let (ids, e) = stable_ids_lem os named in
        let r =
          several i age rejected (broker_rejected_reason ∷ identifier_conflict_reason ∷ []) ids in
        (r ∷ [], ground (arith, e), Quiet-one i r refl refl, inl (r, inl refl))
    classify_rejected_lem i age [] no_order there named =
        let r = plain i age rejected (broker_rejected_reason ∷ []) open_case unknown_position in
        (r ∷ [], refl, Quiet-one i r refl refl, inl (r, inl refl))
    classify_rejected_lem i age (o ∷ os) no_order there named =
        ([], refl, λ r m. absurd m, inr (λ e. ground (arith, e)))
