-- ===== src/Control/Classify.antt =====
-- The loop of `classify_results` of control/v15/reconcile_v12_classify.py over the claims; Orders has
-- the rest of it, with `reconcile` and `reconcile_with_disposition`. No result is a lookup that raises.
pub mod Orders
pub mod Parts
pub mod Executed
pub mod Claims
pub mod Findings
pub mod Reconciled
use Prim.Native.Nat.{Ordering}
use Prim.Native.String.{compare}
use safe_agent.Prelude.{
  ℕ, zero, suc, ◌-◌, List, [], ◌∷◌, ◌++◌, length, Option, none, some, Bool, true, false, not, ◌&&◌,
  ◌||◌, ◌==◌, if◌then◌else◌, String,
}
use safe_agent.Prelude.{str_eq}
use safe_agent.Prelude.Lists.{get_elem?}
use safe_agent.Prelude.Table.{Table, lookup}
use safe_agent.Control.Models.{
  EvidenceTier, full_identifier, partial_identifier, weak_heuristic, identifier_conflict,
  incompatible, tier_eq, OrderDisposition, assigned_order, unmatched_order, ambiguous_order,
  conflicting_order, Timeliness, current, timeliness, Interpretation, success, skipped, failed,
  pending, unknown, Result, confirmed, duplicate_blocked, missing_externally, unrecorded_internally,
  rejected, uncertain, contradiction, PositionState, not_applicable, unknown_position,
  MatchConfidence, no_match, strong_full, strong_partial, weak_match, CaseStatus, no_case,
  open_case, ReasonCode, no_reason, caller_ignored_skip, dedup_key_collision,
  broker_rejected_reason, broker_match_not_found, unmatched_broker_order,
  identifier_conflict_reason, external_identifier_conflict, ambiguous_multiple_identifier_matches,
  ambiguous_multiple_partial_matches, ambiguous_multiple_weak_matches, partial_identifier_evidence,
  ambiguous_provider_response, rejection_execution_contradiction, InternalClaim, BrokerOrder, Edge,
  is_given, is_filled, ExecutionEligibility, execution_expected, execution_skipped,
  execution_rejected, execution_pending, execution_unknown,
}
use safe_agent.Control.Evidence.{eligibility, build_evidence_graph}
use safe_agent.Control.Outcome.{◌>>=◌}
use safe_agent.Control.Resolution.{Assignment, assigned, ambiguous, conflict, no_order}
use safe_agent.Control.Assignments.{resolve_assignments}
use safe_agent.Control.Results.{
  ReconciliationResult, classify_skipped, contradiction_orders, is_success_interpretation, matched,
  min_by_id, plain, several, stable_ids,
}

-- The finding of a rejected claim whose order is filled.
unfoldable pub contradiction_finding :
    ℕ
    → Timeliness
    → List BrokerOrder
    → Table OrderDisposition
    → List ℕ
    → Option (List ReconciliationResult)
unfolding min_by_id get_elem? matched lookup
contradiction_finding i age orders disposition [] = some []
contradiction_finding i age orders disposition (o ∷ os) = do
  first ← get_elem? orders o
  chosen ← min_by_id o first.stable_id orders os
  category ← lookup chosen disposition
  some (
      matched i chosen age contradiction (rejection_execution_contradiction ∷ []) open_case
        strong_full unknown_position category
      ∷ [])

unfoldable pub classify_rejected :
    ℕ
    → Timeliness
    → List BrokerOrder
    → Table OrderDisposition
    → List ℕ
    → Assignment
    → Option (List ReconciliationResult)
unfolding get_elem? matched several plain stable_ids lookup
classify_rejected i age orders disposition contradictions (assigned o tier) = do
  order ← get_elem? orders o
  category ← lookup o disposition
  some (
      matched i o age rejected (broker_rejected_reason ∷ []) open_case strong_full unknown_position
        category
      ∷ [])
classify_rejected i age orders disposition contradictions (ambiguous tier os) = do
  ids ← stable_ids orders os
  some (
      several i age rejected (broker_rejected_reason ∷ ambiguous_multiple_identifier_matches ∷ [])
        ids
      ∷ [])
classify_rejected i age orders disposition contradictions (conflict os) = do
  ids ← stable_ids orders os
  some (several i age rejected (broker_rejected_reason ∷ identifier_conflict_reason ∷ []) ids ∷ [])
classify_rejected i age orders disposition [] no_order =
    some (plain i age rejected (broker_rejected_reason ∷ []) open_case unknown_position ∷ [])
classify_rejected i age orders disposition (o ∷ os) no_order = some []

-- The dict from tiers to confidences.
unfoldable pub confidence_of : EvidenceTier → Option MatchConfidence
confidence_of full_identifier = some strong_full
confidence_of partial_identifier = some strong_partial
confidence_of weak_heuristic = some weak_match
confidence_of t = none

unfoldable pub reasons_of : EvidenceTier → List ReasonCode
reasons_of partial_identifier = partial_identifier_evidence ∷ []
reasons_of t = no_reason ∷ []

-- A claim that was neither skipped nor rejected.
unfoldable pub classify_executed :
    ℕ
    → InternalClaim
    → Timeliness
    → List BrokerOrder
    → Table OrderDisposition
    → Assignment
    → Option (List ReconciliationResult)
unfolding get_elem? matched several plain stable_ids confidence_of reasons_of is_filled is_given
    is_success_interpretation lookup
classify_executed i claim age orders disposition (assigned o tier) = do
  order ← get_elem? orders o
  confidence ← confidence_of tier
  category ← lookup o disposition
  some (
      (if is_filled order.status
        then matched i o age confirmed (reasons_of tier) no_case confidence not_applicable category
        else matched i o age uncertain (ambiguous_provider_response ∷ []) open_case confidence
            unknown_position category)
      ∷ [])
classify_executed i claim age orders disposition (ambiguous tier os) = do
  ids ← stable_ids orders os
  some (
      several i age uncertain
        ((if is_given claim.broker_order_id || is_given claim.client_order_id
            then ambiguous_multiple_identifier_matches
            else ambiguous_multiple_weak_matches)
          ∷ [])
        ids
      ∷ [])
classify_executed i claim age orders disposition (conflict os) = do
  ids ← stable_ids orders os
  some (several i age uncertain (identifier_conflict_reason ∷ []) ids ∷ [])
classify_executed i claim age orders disposition no_order = some (
    plain i age
      (if is_success_interpretation claim.caller_interpretation
        then missing_externally
        else uncertain)
      (broker_match_not_found ∷ []) open_case unknown_position
    ∷ [])

-- The body of the loop over the claims.
unfoldable pub classify_claim :
    ℕ
    → List BrokerOrder
    → List Edge
    → Table Assignment
    → Table OrderDisposition
    → ℕ
    → InternalClaim
    → ExecutionEligibility
    → Option (List ReconciliationResult)
unfolding timeliness classify_skipped contradiction_orders contradiction_finding classify_rejected
    classify_executed lookup
classify_claim now orders edges assignments disposition i claim execution_skipped =
    some (classify_skipped i claim (timeliness (now - claim.claimed_at)) ∷ [])
classify_claim now orders edges assignments disposition i claim execution_rejected = do
  let age = timeliness (now - claim.claimed_at)
  res ← lookup i assignments
  contradictions ← contradiction_orders i orders edges
  first ← contradiction_finding i age orders disposition contradictions
  second ← classify_rejected i age orders disposition contradictions res
  some (first ++ second)
classify_claim now orders edges assignments disposition i claim elig = do
  res ← lookup i assignments
  classify_executed i claim (timeliness (now - claim.claimed_at)) orders disposition res

-- The loop over the claims, from position `i` on.
unfoldable pub classify_claims :
    ℕ
    → List BrokerOrder
    → List Edge
    → Table Assignment
    → Table OrderDisposition
    → ℕ
    → List InternalClaim
    → Option (List ReconciliationResult)
unfolding classify_claim eligibility
classify_claims now orders edges assignments disposition i [] = some []
classify_claims now orders edges assignments disposition i (c ∷ cs) =
    elim (classify_claim now orders edges assignments disposition i c (eligibility c)) [
      | none ↦ none
      | some here ↦ elim (classify_claims now orders edges assignments disposition (suc i) cs) [
        | none ↦ none
        | some rest ↦ some (here ++ rest)
      ]
    ]
