-- ===== src/Tests/Control.antt =====
-- The reconciliation engine on a batch of two claims and three orders.
use mathlib.Core.Logic.{◌↔◌}
use safe_agent.Prelude.{
  ℕ, ◌≤◌, List, [], ◌∷◌, length, All, none, some, true, ◌≡◌, refl, inl, inr, arith, String,
}
use safe_agent.Prelude.Table.{Table, lookup}
use safe_agent.Prelude.Counts.{mem, count}
use safe_agent.Prelude.Lists.{get_elem?}
use safe_agent.Prelude.Members.{In}
use safe_agent.Control.Models.{
  EvidenceTier, partial_identifier, InternalClaim, BrokerOrder, Edge, success, no_failure,
  OrderDisposition, assigned_order, unmatched_order, confirmed, unrecorded_internally,
  partial_identifier_evidence, unmatched_broker_order, no_case, open_case, current, strong_partial,
  no_match, not_applicable, is_filled,
}
use safe_agent.Control.Evidence.{build_evidence_graph}
use safe_agent.Control.Evidence.Graph.{joins}
use safe_agent.Control.Matching.{adj_by_claim, bipartite_max_matching}
use safe_agent.Control.Matching.Counting.{IsMatching, keys, vals}
use safe_agent.Control.Matching.Maximum.{bipartite_max_matching_maximum}
use safe_agent.Control.Outcome.{TierMatchResult, max_matchings_for_tier}
use safe_agent.Control.Outcome.Sets.{in_set}
use safe_agent.Control.Outcome.Exactly.{MatchingWith, MatchingWithout, IsLargest}
use safe_agent.Control.Outcome.Exact.{
  max_matchings_for_tier_partners, max_matchings_for_tier_always,
}
use safe_agent.Control.Resolution.{Assignment, assigned}
use safe_agent.Control.Assignments.{resolve_assignments}
use safe_agent.Control.Assignments.Pairs.{has_edge, is_graded}
use safe_agent.Control.Assignments.Accounting.{InRange, order_assigned_once}
use safe_agent.Control.Results.{ReconciliationResult}
use safe_agent.Control.Classify.Orders.{reconcile_identified, reconcile_with_disposition}
use safe_agent.Control.Identity.{Writing, assign_stable_ids}
use safe_agent.Control.Ingestion.{TieTexts, normalize_ingested_orders}
use safe_agent.Control.Ingestion.Groups.{count_id, ingested, normalize_one_record}
use safe_agent.Control.Classify.Reconciled.{
  reconcile_answers_every_claim, order_confirms_one_claim, confirmation_is_evidenced,
  unmatched_order_reported,
}

abbrev claim : String → String → InternalClaim
claim id order = record {
  request_id = id;
  symbol = "AAPL";
  side = "buy";
  qty = 100000000;
  stage = "entry";
  claimed_at = 0;
  outcome = "COMMITTED";
  caller_interpretation = success;
  broker_order_id = some order;
  client_order_id = none;
  failure_type = no_failure;
  known_reason_codes = [];
  source_system = none;
  source_account = none;
  immutable_source_event_id = none;
  stable_id = id;
  stable_id_basis = "fingerprint";
}

abbrev order : String → BrokerOrder
order id = record {
  symbol = "AAPL";
  side = "buy";
  qty = 100000000;
  status = "filled";
  submitted_at = 0;
  filled_at = none;
  broker_order_id = some id;
  client_order_id = none;
  source_system = none;
  source_account = none;
  immutable_source_record_id = none;
  stable_id = id;
  stable_id_basis = "broker_order_id";
  ingestion_count = 1;
}

abbrev claims : List InternalClaim
claims = claim "r1" "b1" ∷ claim "r2" "b2" ∷ []

abbrev orders : List BrokerOrder
orders = order "b2" ∷ order "b1" ∷ order "b3" ∷ []

-- What the batch gives: each claim is confirmed by its order, and the third order is unrecorded.
abbrev confirmation : ℕ → ℕ → ReconciliationResult
confirmation i o = record {
  claim = some i;
  matched_broker_order = some o;
  result = confirmed;
  reason_codes = partial_identifier_evidence ∷ [];
  case_status = no_case;
  timely = current;
  match_confidence = strong_partial;
  position_state = not_applicable;
  correlation_id = none;
  involved_order_stable_ids = [];
  accounting_category = some assigned_order;
}

abbrev unrecorded : ReconciliationResult
unrecorded = record {
  claim = none;
  matched_broker_order = some 2;
  result = unrecorded_internally;
  reason_codes = unmatched_broker_order ∷ [];
  case_status = open_case;
  timely = current;
  match_confidence = no_match;
  position_state = not_applicable;
  correlation_id = none;
  involved_order_stable_ids = [];
  accounting_category = some unmatched_order;
}

abbrev results : List ReconciliationResult
results = confirmation 0 1 ∷ confirmation 1 0 ∷ unrecorded ∷ []

abbrev disposition : Table OrderDisposition
disposition = (0, assigned_order) ∷ (1, assigned_order) ∷ (2, unmatched_order) ∷ []

reconciled_batch : reconcile_identified claims orders 5 ≡ some (results, disposition)
unfolding reconcile_identified
reconciled_batch = refl

abbrev edges : List Edge
edges = build_evidence_graph claims orders

abbrev assignment : Table Assignment
assignment = (0, assigned 1 partial_identifier) ∷ (1, assigned 0 partial_identifier) ∷ []

resolved_batch : resolve_assignments edges 2 3 ≡ some (assignment, disposition)
unfolding resolve_assignments build_evidence_graph
resolved_batch = refl

edges_in_range : InRange 3 edges
unfolding build_evidence_graph
edges_in_range = omega arith

-- The writing is not asked for here.
abbrev plain_writing : Writing
plain_writing = record {
  order_text = λ o. o.symbol;
  claim_text = λ c. c.symbol;
  number_text = λ n. "0";
}

reconcile_answers_every_claim_example :
    (rs : List ReconciliationResult) × (d : Table OrderDisposition) × (reconcile_with_disposition
        plain_writing claims orders 5
      ≡ some (rs, d))
    × ((r : ReconciliationResult) × In r rs × (r.claim ≡ some 1))
reconcile_answers_every_claim_example =
    reconcile_answers_every_claim plain_writing claims orders 5 1 (omega arith)

order_confirms_one_claim_example : (confirmation 1 0).claim ≡ (confirmation 1 0).claim
order_confirms_one_claim_example =
    order_confirms_one_claim claims orders 5 results disposition reconciled_batch (confirmation 1 0)
      (confirmation 1 0) (inr (inl refl)) (inr (inl refl)) refl refl refl

confirmation_is_evidenced_example :
    (c : ℕ) × (o : ℕ) × (t : EvidenceTier) × (x : BrokerOrder) × ((confirmation 0 1).claim ≡ some c)
    × ((confirmation 0 1).matched_broker_order ≡ some o)
    × (get_elem? orders o ≡ some x)
    × (is_filled x.status ≡ true)
    × (is_graded t ≡ true)
    × (joins t (get_elem? claims c) (get_elem? orders o) ≡ true)
confirmation_is_evidenced_example =
    confirmation_is_evidenced claims orders 5 results disposition reconciled_batch
      (confirmation 0 1) (inl refl) refl

unmatched_order_reported_example : (lookup 2 disposition ≡ some unmatched_order) ↔ (
    (r : ReconciliationResult) × In r results
    × (r.matched_broker_order ≡ some 2)
    × (r.result ≡ unrecorded_internally))
unmatched_order_reported_example =
    unmatched_order_reported claims orders 5 results disposition reconciled_batch 2 (omega arith)

order_assigned_once_example : (◌≡◌ {A = ℕ} 1 1) × (has_edge partial_identifier 1 0 edges ≡ true)
unfolding lookup
order_assigned_once_example =
    order_assigned_once edges 2 3 edges_in_range assignment disposition resolved_batch 1 1 0
      partial_identifier partial_identifier refl refl

-- Two claims, of which one may take either order and the other only the first.
abbrev pairs : List (ℕ × ℕ)
pairs = (0, 0) ∷ (0, 1) ∷ (1, 0) ∷ []

abbrev ids : List ℕ
ids = 0 ∷ 1 ∷ []

listed_once : (c : ℕ) → count c ids ≤ 1
unfolding count
listed_once c = ground arith

pairs_known : All (λ e. (mem e.0 ids ≡ true) × (mem e.1 ids ≡ true)) pairs
unfolding mem
pairs_known = ((refl, refl), ((refl, refl), ((refl, refl), tt)))

lefts_known : All (λ e. mem e.0 ids ≡ true) pairs
unfolding mem
lefts_known = (refl, (refl, (refl, tt)))

abbrev small : Table ℕ
small = (0, 0) ∷ []

one_pair : IsMatching (adj_by_claim pairs) small
unfolding adj_by_claim mem count keys vals
one_pair = record {
  edges = (refl, tt);
  orders_once = λ o. ground arith;
  claims_once = λ c. ground arith;
}

bipartite_max_matching_maximum_example :
    (held : Table ℕ) × (bipartite_max_matching ids pairs ≡ some held)
    × IsMatching (adj_by_claim pairs) held
    × (length small ≤ length held)
bipartite_max_matching_maximum_example =
    bipartite_max_matching_maximum ids pairs listed_once lefts_known small one_pair

max_matchings_for_tier_partners_example :
    (r : TierMatchResult) × (max_matchings_for_tier ids ids pairs ≡ some r)
    × IsLargest pairs r.max_size
    × ((in_set 0 0 r.possible_partners ≡ true) ↔ MatchingWith pairs r.max_size 0 0)
    × (in_set 0 0 r.possible_holders ≡ in_set 0 0 r.possible_partners)
max_matchings_for_tier_partners_example =
    max_matchings_for_tier_partners ids ids pairs listed_once pairs_known 0 0

max_matchings_for_tier_always_example :
    (r : TierMatchResult) × (max_matchings_for_tier ids ids pairs ≡ some r)
    × IsLargest pairs r.max_size
    × ((mem 1 r.always_matched ≡ true)
        ↔ ((mem 1 ids ≡ true) × ¬ MatchingWithout pairs r.max_size 1))
max_matchings_for_tier_always_example =
    max_matchings_for_tier_always ids ids pairs listed_once pairs_known 1

abbrev plain_texts : TieTexts
plain_texts = record { filled_text = λ t. ""; fields_text = λ o. o.symbol }

-- One order came in twice.
normalize_one_record_example :
    (count_id "UNKNOWN:UNKNOWN:boid:b1"
        (normalize_ingested_orders plain_writing plain_texts
          (order "b1" ∷ order "b2" ∷ order "b1" ∷ [])).0
      ≤ 1)
    × (ingested "UNKNOWN:UNKNOWN:boid:b1"
          (normalize_ingested_orders plain_writing plain_texts
            (order "b1" ∷ order "b2" ∷ order "b1" ∷ [])).0
        ≡ count_id "UNKNOWN:UNKNOWN:boid:b1"
            (assign_stable_ids plain_writing (order "b1" ∷ order "b2" ∷ order "b1" ∷ [])))
normalize_one_record_example =
    normalize_one_record plain_writing plain_texts "UNKNOWN:UNKNOWN:boid:b1"
      (order "b1" ∷ order "b2" ∷ order "b1" ∷ [])

twice_ingested :
    ingested "UNKNOWN:UNKNOWN:boid:b1"
      (normalize_ingested_orders plain_writing plain_texts
        (order "b1" ∷ order "b2" ∷ order "b1" ∷ [])).0
    ≡ 2
unfolding normalize_ingested_orders ingested
twice_ingested = refl
