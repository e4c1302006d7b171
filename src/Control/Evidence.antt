-- ===== src/Control/Evidence.antt =====
-- `normalize_inputs` and `build_evidence_graph` of control/v15/reconcile_v12.py.
pub mod Graph
use safe_agent.Prelude.{
  ℕ, suc, List, [], ◌∷◌, ◌++◌, Option, none, some, Bool, true, false, ◌&&◌, ◌||◌, leb,
  if◌then◌else◌, String,
}
use safe_agent.Prelude.{str_eq}
use safe_agent.Control.Models.{
  ExecutionEligibility, execution_expected, execution_skipped, execution_rejected,
  execution_pending, execution_unknown, EvidenceTier, full_identifier, partial_identifier,
  weak_heuristic, identifier_conflict, incompatible, is_broker_rejected, InternalClaim, BrokerOrder,
  Edge, distance, qty_eq, match_tolerance, is_rejected_compatible, is_given,
}

-- `normalize_inputs`, for one claim
unfoldable pub eligibility : InternalClaim → ExecutionEligibility
unfolding is_broker_rejected
eligibility c =
    if str_eq c.outcome "SKIP"
    then execution_skipped
    else if is_broker_rejected c.failure_type
    then execution_rejected
    else if str_eq c.outcome "PENDING"
    then execution_pending
    else if str_eq c.outcome "COMMITTED"
    then execution_expected
    else execution_unknown

-- What comparing one kind of identifier gives: nothing when a side has none.
pub data Check : Type 0 where
  not_compared agrees disagrees : Check

unfoldable pub check : Option String → Option String → Check
unfolding is_given
check none o = not_compared
check (some a) none = not_compared
check (some a) (some b) =
    if is_given (some a) && is_given (some b)
    then (if str_eq a b then agrees else disagrees)
    else not_compared

-- The tier of the checks of a claim that has an identifier: `all(checks)`, `any(checks)`, and no
-- edge otherwise.
unfoldable pub tier_of_checks : Check → Check → Option EvidenceTier
tier_of_checks agrees agrees = some full_identifier
tier_of_checks agrees not_compared = some partial_identifier
tier_of_checks not_compared agrees = some partial_identifier
tier_of_checks agrees disagrees = some identifier_conflict
tier_of_checks disagrees agrees = some identifier_conflict
tier_of_checks a b = none

unfoldable pub symbol_side_qty_ok : InternalClaim → BrokerOrder → Bool
unfolding qty_eq
symbol_side_qty_ok c o = str_eq o.symbol c.symbol && str_eq o.side c.side && qty_eq o.qty c.qty

unfoldable pub tier_between : InternalClaim → BrokerOrder → Option EvidenceTier
unfolding is_given check tier_of_checks symbol_side_qty_ok distance
tier_between c o =
    if is_given c.broker_order_id || is_given c.client_order_id
    then tier_of_checks (check c.broker_order_id o.broker_order_id)
        (check c.client_order_id o.client_order_id)
    else if symbol_side_qty_ok c o && leb (distance o.submitted_at c.claimed_at) match_tolerance
    then some weak_heuristic
    else none

unfoldable pub is_status_compatible : ExecutionEligibility → BrokerOrder → Bool
unfolding is_rejected_compatible
is_status_compatible execution_rejected o = is_rejected_compatible o.status
is_status_compatible e o = true

unfoldable pub conflicts_of : EvidenceTier → List String
conflicts_of identifier_conflict = "identifier_mismatch" ∷ []
conflicts_of t = []

unfoldable pub evidence_of : EvidenceTier → String
evidence_of full_identifier = "both identifiers agree"
evidence_of partial_identifier = "one identifier agrees, other side missing"
evidence_of weak_heuristic = "no identifiers on either side; symbol/side/qty/time only"
evidence_of identifier_conflict = "one identifier agrees, another disagrees"
evidence_of incompatible = ""

-- The edge of one claim and one order.
unfoldable pub edge_between : ℕ → InternalClaim → ℕ → BrokerOrder → Option Edge
unfolding tier_between is_status_compatible eligibility symbol_side_qty_ok distance conflicts_of
    evidence_of
edge_between i c j o = elim (tier_between c o) [
  | none ↦ none
  | some t ↦ some (record {
    claim_idx = i;
    order_idx = j;
    tier = t;
    identifier_evidence = evidence_of t;
    status_compatible = is_status_compatible (eligibility c) o;
    symbol_side_qty_compatible = symbol_side_qty_ok c o;
    timestamp_distance = distance o.submitted_at c.claimed_at;
    conflict_reasons = conflicts_of t;
  })
]

-- The inner loop, from the order number `j` on.
unfoldable pub edges_of_claim : ℕ → InternalClaim → ℕ → List BrokerOrder → List Edge
unfolding edge_between
edges_of_claim i c j [] = []
edges_of_claim i c j (o ∷ os) =
    let rest = edges_of_claim i c (suc j) os in
    elim (edge_between i c j o) [ none ↦ rest | some e ↦ e ∷ rest ]

unfoldable pub is_skipped : ExecutionEligibility → Bool
is_skipped execution_skipped = true
is_skipped e = false

unfoldable pub edges_from : ℕ → List InternalClaim → List BrokerOrder → List Edge
unfolding eligibility is_skipped edges_of_claim
edges_from i [] orders = []
edges_from i (c ∷ cs) orders =
    let rest = edges_from (suc i) cs orders in
    if is_skipped (eligibility c) then rest else edges_of_claim i c 0 orders ++ rest

unfoldable pub build_evidence_graph : List InternalClaim → List BrokerOrder → List Edge
unfolding edges_from
build_evidence_graph claims orders = edges_from 0 claims orders
