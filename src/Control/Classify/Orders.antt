-- ===== src/Control/Classify/Orders.antt =====
-- The loop of `classify_results` over the orders, and the functions above it.
use safe_agent.Prelude.{
  ℕ, suc, List, [], ◌∷◌, ◌++◌, length, Option, none, some, Bool, true, false, ◌&&◌, ◌||◌, ◌==◌,
  if◌then◌else◌, String,
}
use safe_agent.Prelude.{str_eq}
use safe_agent.Prelude.Lists.{get_elem?}
use safe_agent.Prelude.Table.{Table, lookup}
use safe_agent.Control.Models.{
  identifier_conflict, tier_eq, OrderDisposition, unmatched_order, conflicting_order, current,
  Result, unrecorded_internally, uncertain, not_applicable, no_match, open_case, ReasonCode,
  unmatched_broker_order, identifier_conflict_reason, external_identifier_conflict,
  rejection_execution_contradiction, InternalClaim, BrokerOrder, Edge,
}
use safe_agent.Control.Evidence.{build_evidence_graph}
use safe_agent.Control.Outcome.{◌>>=◌}
use safe_agent.Control.Resolution.{Assignment}
use safe_agent.Control.Assignments.{resolve_assignments}
use safe_agent.Control.Identity.{Writing, assign_stable_ids, assign_claim_stable_ids}
use safe_agent.Control.Results.{ReconciliationResult, text_ltb}
use safe_agent.Control.Classify.{classify_claims}

-- A finding about an order alone.
unfoldable pub standalone :
    ℕ → Result → ReasonCode → Option String → OrderDisposition → ReconciliationResult
standalone j verdict reason correlation category = record {
  claim = none;
  matched_broker_order = some j;
  result = verdict;
  reason_codes = reason ∷ [];
  case_status = open_case;
  timely = current;
  match_confidence = no_match;
  position_state = not_applicable;
  correlation_id = correlation;
  involved_order_stable_ids = [];
  accounting_category = some category;
}

unfoldable pub is_conflict_reason : ReasonCode → Bool
is_conflict_reason identifier_conflict_reason = true
is_conflict_reason rejection_execution_contradiction = true
is_conflict_reason r = false

unfoldable pub any_conflict_reason : List ReasonCode → Bool
unfolding is_conflict_reason
any_conflict_reason [] = false
any_conflict_reason (r ∷ rs) = is_conflict_reason r || any_conflict_reason rs

unfoldable pub has_text : String → List String → Bool
has_text s [] = false
has_text s (t ∷ ts) = str_eq s t || has_text s ts

unfoldable pub is_position : ℕ → Option ℕ → Bool
is_position j none = false
is_position j (some i) = i == j

-- `already_primary`
unfoldable pub already_primary : ℕ → String → List ReconciliationResult → Bool
unfolding any_conflict_reason has_text is_position
already_primary j id [] = false
already_primary j id (r ∷ rs) =
    (is_position j r.matched_broker_order || has_text id r.involved_order_stable_ids)
      && any_conflict_reason r.reason_codes
    || already_primary j id rs

-- `[e.claim_idx for e in edges if ...]`
unfoldable pub conflicting_claims : ℕ → List Edge → List ℕ
unfolding tier_eq
conflicting_claims j [] = []
conflicting_claims j (e ∷ es) =
    let rest = conflicting_claims j es in
    if e.order_idx == j && tier_eq e.tier identifier_conflict then e.claim_idx ∷ rest else rest

unfoldable pub min_text : String → List String → String
unfolding text_ltb
min_text best [] = best
min_text best (t ∷ ts) = min_text (if text_ltb t best then t else best) ts

unfoldable pub claim_ids_at : List InternalClaim → List ℕ → Option (List String)
unfolding get_elem?
claim_ids_at claims [] = some []
claim_ids_at claims (i ∷ is) = elim (get_elem? claims i) [
  | none ↦ none
  | some c ↦ elim (claim_ids_at claims is) [ none ↦ none | some rest ↦ some (c.stable_id ∷ rest) ]
]

-- `min(...) if conflicting_claim_indices else None`
unfoldable pub least_text : List String → Option String
unfolding min_text
least_text [] = none
least_text (t ∷ ts) = some (min_text t ts)

-- The body of the loop over the orders: what is appended to the results so far.
unfoldable pub classify_order :
    List InternalClaim
    → List Edge
    → ℕ
    → BrokerOrder
    → OrderDisposition
    → List ReconciliationResult
    → Option (List ReconciliationResult)
unfolding standalone already_primary conflicting_claims claim_ids_at least_text
classify_order claims edges j order unmatched_order sofar =
    some (standalone j unrecorded_internally unmatched_broker_order none unmatched_order ∷ [])
classify_order claims edges j order conflicting_order sofar =
    elim (already_primary j order.stable_id sofar) [
      | true ↦ some []
      | false ↦ elim (claim_ids_at claims (conflicting_claims j edges)) [
        | none ↦ none
        | some ids ↦ some (
            standalone j uncertain external_identifier_conflict (least_text ids) conflicting_order
            ∷ [])
      ]
    ]
classify_order claims edges j order d sofar = some []

-- The loop over the orders, from position `j` on.
unfoldable pub classify_orders :
    List InternalClaim
    → List Edge
    → Table OrderDisposition
    → ℕ
    → List BrokerOrder
    → List ReconciliationResult
    → Option (List ReconciliationResult)
unfolding classify_order lookup
classify_orders claims edges disposition j [] sofar = some sofar
classify_orders claims edges disposition j (o ∷ os) sofar = elim (lookup j disposition) [
  | none ↦ none
  | some d ↦ elim (classify_order claims edges j o d sofar) [
    | none ↦ none
    | some more ↦ classify_orders claims edges disposition (suc j) os (sofar ++ more)
  ]
]

unfoldable pub classify_results :
    List InternalClaim
    → List BrokerOrder
    → List Edge
    → Table Assignment
    → Table OrderDisposition
    → ℕ
    → Option (List ReconciliationResult)
unfolding classify_claims classify_orders
classify_results claims orders edges assignments disposition now =
    classify_claims now orders edges assignments disposition 0 claims
    >>= classify_orders claims edges disposition 0 orders

-- Both functions below, from the point where claims and orders have their stable ids.
unfoldable pub reconcile_identified :
    List InternalClaim
    → List BrokerOrder
    → ℕ
    → Option (List ReconciliationResult × Table OrderDisposition)
unfolding build_evidence_graph resolve_assignments classify_results
reconcile_identified claims orders now = do
  let edges = build_evidence_graph claims orders
  (assignments, disposition) ← resolve_assignments edges (length claims) (length orders)
  results ← classify_results claims orders edges assignments disposition now
  some (results, disposition)

unfoldable pub reconcile_with_disposition :
    Writing
    → List InternalClaim
    → List BrokerOrder
    → ℕ
    → Option (List ReconciliationResult × Table OrderDisposition)
unfolding assign_claim_stable_ids assign_stable_ids reconcile_identified
reconcile_with_disposition w claims orders now =
    reconcile_identified (assign_claim_stable_ids w claims) (assign_stable_ids w orders) now

unfoldable pub reconcile :
    Writing → List InternalClaim → List BrokerOrder → ℕ → Option (List ReconciliationResult)
unfolding reconcile_with_disposition
reconcile w claims orders now = elim (reconcile_with_disposition w claims orders now) [
  | none ↦ none
  | some (results, disposition) ↦ some results
]
