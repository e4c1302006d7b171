-- ===== src/Control/Assignments.antt =====
-- `resolve_assignments` of control/v15/reconcile_v12.py. No result is a lookup of a missing key, or a
-- search out of fuel.
pub mod States
pub mod Pairs
pub mod Accounted
pub mod Taking
pub mod Claims
pub mod Tiers
pub mod Rest
pub mod Accounting
use safe_agent.Prelude.{
  ℕ, zero, suc, ◌≤◌, ◌<◌, List, [], ◌∷◌, length, Option, none, some, Bool, true, false, not, ◌&&◌,
  ◌||◌, ltb, ◌==◌, if◌then◌else◌, is_some,
}
use safe_agent.Prelude.Table.{Table, lookup, insert}
use safe_agent.Prelude.Counts.{mem}
use safe_agent.Control.Models.{
  EvidenceTier, full_identifier, partial_identifier, weak_heuristic, identifier_conflict, tier_eq,
  Edge, OrderDisposition, assigned_order, unmatched_order, ambiguous_order, conflicting_order,
}
use safe_agent.Control.Outcome.{add, TierMatchResult, max_matchings_for_tier, ◌>>=◌}
use safe_agent.Control.Resolution.{
  Assignment, OrderState, Resolution, all_open, ambiguous, ambiguous_state, assign_new, assigned,
  assigned_state, conflict, conflict_state, edges_for_tier, is_available, left_ids, mark, mark_all,
  no_order, open_state, range, right_ids,
}

-- A claim that several orders may take, or that some maximum matching leaves out.
unfoldable pub assign_ambiguous : EvidenceTier → ℕ → List ℕ → Resolution → Option Resolution
unfolding mark_all insert
assign_ambiguous tier c partners s = elim (mark_all ambiguous_state partners s.order_state) [
  | none ↦ none
  | some states ↦ some (record {
    assignment = insert c (ambiguous tier partners) s.assignment;
    order_state = states;
  })
]

unfoldable pub assign_partners : EvidenceTier → ℕ → List ℕ → Bool → Resolution → Option Resolution
unfolding assign_ambiguous insert
assign_partners tier c [] always s = some s
assign_partners tier c (o ∷ []) true s = some (record {
  assignment = insert c (assigned o tier) s.assignment;
  order_state = insert o assigned_state s.order_state;
})
assign_partners tier c (o ∷ os) always s = assign_ambiguous tier c (o ∷ os) s

-- `for c in claim_ids`
unfoldable pub assign_claims :
    EvidenceTier → TierMatchResult → List ℕ → Resolution → Option Resolution
unfolding assign_partners lookup mem
assign_claims tier r [] s = some s
assign_claims tier r (c ∷ cs) s = elim (lookup c r.possible_partners) [
  | none ↦ none
  | some partners ↦ elim (assign_partners tier c partners (mem c r.always_matched) s) [
    | none ↦ none
    | some next ↦ assign_claims tier r cs next
  ]
]

-- `for c in holders`
unfoldable pub assign_holders : EvidenceTier → ℕ → List ℕ → Resolution → Resolution
unfolding assign_new
assign_holders tier o [] s = s
assign_holders tier o (c ∷ cs) s =
    assign_holders tier o cs (assign_new c (ambiguous tier (o ∷ [])) s)

unfoldable pub contest : EvidenceTier → ℕ → List ℕ → Resolution → Resolution
unfolding assign_holders insert
contest tier o holders s =
    if ltb 1 (length holders)
    then assign_holders tier o holders
        (record s { order_state = insert o ambiguous_state s.order_state })
    else s

-- `for o in order_ids`
unfoldable pub contest_orders :
    EvidenceTier → TierMatchResult → List ℕ → Resolution → Option Resolution
unfolding contest lookup
contest_orders tier r [] s = some s
contest_orders tier r (o ∷ os) s = elim (lookup o s.order_state) [
  | none ↦ none
  | some open_state ↦ elim (lookup o r.possible_holders) [
    | none ↦ none
    | some holders ↦ contest_orders tier r os (contest tier o holders s)
  ]
  | some _ ↦ contest_orders tier r os s
]

unfoldable pub apply_result :
    EvidenceTier → List ℕ → List ℕ → TierMatchResult → Resolution → Option Resolution
unfolding assign_claims contest_orders
apply_result tier claim_ids order_ids r s = elim (r.max_size == 0) [
  | true ↦ some s
  | false ↦ assign_claims tier r claim_ids s >>= contest_orders tier r order_ids
]

-- The body of the loop over the tiers.
unfoldable pub resolve_compatible : EvidenceTier → List (ℕ × ℕ) → Resolution → Option Resolution
unfolding left_ids right_ids max_matchings_for_tier apply_result
resolve_compatible tier [] s = some s
resolve_compatible tier (e ∷ es) s =
    max_matchings_for_tier (left_ids (e ∷ es)) (right_ids (e ∷ es)) (e ∷ es) >>= λ r.
    apply_result tier (left_ids (e ∷ es)) (right_ids (e ∷ es)) r s

unfoldable pub resolve_tier : List Edge → ℕ → EvidenceTier → Resolution → Option Resolution
unfolding edges_for_tier resolve_compatible
resolve_tier edges n_claims tier s =
    resolve_compatible tier (edges_for_tier tier n_claims s edges) s

-- The orders in open conflict with a claim, by the availability `avail`.
unfoldable pub conflicts_of_claim : ℕ → Table OrderState → List Edge → List ℕ
unfolding tier_eq is_available add
conflicts_of_claim i avail [] = []
conflicts_of_claim i avail (e ∷ es) =
    let rest = conflicts_of_claim i avail es in
    if e.claim_idx == i && tier_eq e.tier identifier_conflict && is_available e.order_idx avail
    then add e.order_idx rest
    else rest

unfoldable pub assign_conflict : ℕ → List ℕ → Resolution → Option Resolution
unfolding mark_all insert
assign_conflict i [] s = some s
assign_conflict i (o ∷ os) s = elim (mark_all conflict_state (o ∷ os) s.order_state) [
  | none ↦ none
  | some states ↦
      some (record { assignment = insert i (conflict (o ∷ os)) s.assignment; order_state = states })
]

-- The pass over the claims that no tier has resolved.
unfoldable pub conflict_pass :
    List Edge → Table OrderState → List ℕ → Resolution → Option Resolution
unfolding conflicts_of_claim assign_conflict lookup
conflict_pass edges avail [] s = some s
conflict_pass edges avail (i ∷ is) s = elim (is_some (lookup i s.assignment)) [
  | true ↦ conflict_pass edges avail is s
  | false ↦ elim (assign_conflict i (conflicts_of_claim i avail edges) s) [
    | none ↦ none
    | some next ↦ conflict_pass edges avail is next
  ]
]

unfoldable pub fill_unassigned : List ℕ → Resolution → Resolution
unfolding assign_new
fill_unassigned [] s = s
fill_unassigned (i ∷ is) s = fill_unassigned is (assign_new i no_order s)

-- The final sweep over the conflict edges.
unfoldable pub sweep_conflicts : List Edge → Table OrderState → Option (Table OrderState)
unfolding tier_eq mark
sweep_conflicts [] states = some states
sweep_conflicts (e ∷ es) states = elim (tier_eq e.tier identifier_conflict) [
  | false ↦ sweep_conflicts es states
  | true ↦ elim (mark conflict_state e.order_idx states) [
    | none ↦ none
    | some more ↦ sweep_conflicts es more
  ]
]

unfoldable pub disposition_of : OrderState → OrderDisposition
disposition_of open_state = unmatched_order
disposition_of assigned_state = assigned_order
disposition_of ambiguous_state = ambiguous_order
disposition_of conflict_state = conflicting_order

unfoldable pub dispositions : List ℕ → Table OrderState → Option (Table OrderDisposition)
unfolding disposition_of lookup
dispositions [] states = some []
dispositions (i ∷ is) states = elim (lookup i states) [
  | none ↦ none
  | some x ↦ elim (dispositions is states) [
    | none ↦ none
    | some rest ↦ some ((i, disposition_of x) ∷ rest)
  ]
]

unfoldable pub resolve_tiers : List Edge → ℕ → Resolution → Option Resolution
unfolding resolve_tier
resolve_tiers edges n_claims s =
    resolve_tier edges n_claims full_identifier s
    >>= resolve_tier edges n_claims partial_identifier
    >>= resolve_tier edges n_claims weak_heuristic

-- What follows the tiers.
unfoldable pub resolve_rest : List Edge → ℕ → Resolution → Option Resolution
unfolding conflict_pass range fill_unassigned sweep_conflicts
resolve_rest edges n_claims s = do
  passed ← conflict_pass edges s.order_state (range 0 n_claims) s
  let filled = fill_unassigned (range 0 n_claims) passed
  states ← sweep_conflicts edges filled.order_state
  some (record { assignment = filled.assignment; order_state = states })

unfoldable pub resolve_assignments :
    List Edge → ℕ → ℕ → Option (Table Assignment × Table OrderDisposition)
unfolding all_open range resolve_tiers resolve_rest dispositions
resolve_assignments edges n_claims n_orders = do
  tiers ←
      resolve_tiers edges n_claims
        (record { assignment = []; order_state = all_open (range 0 n_orders) })
  rest ← resolve_rest edges n_claims tiers
  disposition ← dispositions (range 0 n_orders) rest.order_state
  some (rest.assignment, disposition)
