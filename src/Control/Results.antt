-- ===== src/Control/Results.antt =====
-- The results of control/v15/reconcile_v12_classify.py and how `classify_results` makes them. A claim or
-- an order that a result refers to is its position in the input; the `evidence` text of a result, a
-- sentence for a reader, is left out.
use Prim.Native.Nat.{Ordering}
use Prim.Native.String.{compare}
use safe_agent.Prelude.{
  ℕ, List, [], ◌∷◌, ◌++◌, Option, none, some, Bool, true, false, ◌&&◌, ◌||◌, ◌==◌, if◌then◌else◌,
  String,
}
use safe_agent.Prelude.Lists.{get_elem?}
use safe_agent.Control.Models.{
  full_identifier, partial_identifier, tier_eq, OrderDisposition, Timeliness, Interpretation,
  success, skipped, Result, duplicate_blocked, missing_externally, PositionState, not_applicable,
  unknown_position, MatchConfidence, no_match, CaseStatus, no_case, open_case, ReasonCode,
  no_reason, caller_ignored_skip, InternalClaim, BrokerOrder, Edge, is_filled,
}

pub record ReconciliationResult : Type 0 where
  pub claim : Option ℕ
  pub matched_broker_order : Option ℕ
  pub result : Result
  pub reason_codes : List ReasonCode
  pub case_status : CaseStatus
  pub timely : Timeliness
  pub match_confidence : MatchConfidence
  pub position_state : PositionState
  pub correlation_id : Option String
  pub involved_order_stable_ids : List String
  pub accounting_category : Option OrderDisposition

-- A result that names neither an order nor other records.
unfoldable pub plain :
    ℕ → Timeliness → Result → List ReasonCode → CaseStatus → PositionState → ReconciliationResult
plain i age verdict reasons status position = record {
  claim = some i;
  matched_broker_order = none;
  result = verdict;
  reason_codes = reasons;
  case_status = status;
  timely = age;
  match_confidence = no_match;
  position_state = position;
  correlation_id = none;
  involved_order_stable_ids = [];
  accounting_category = none;
}

unfoldable pub is_ignored_skip : ReasonCode → Bool
is_ignored_skip caller_ignored_skip = true
is_ignored_skip r = false

unfoldable pub names_ignored_skip : List ReasonCode → Bool
unfolding is_ignored_skip
names_ignored_skip [] = false
names_ignored_skip (r ∷ rs) = is_ignored_skip r || names_ignored_skip rs

-- `codes or (fallback,)`
unfoldable pub codes_or : List ReasonCode → ReasonCode → List ReasonCode
codes_or [] fallback = fallback ∷ []
codes_or (r ∷ rs) fallback = r ∷ rs

unfoldable pub is_skip_interpretation : Interpretation → Bool
is_skip_interpretation skipped = true
is_skip_interpretation x = false

unfoldable pub is_success_interpretation : Interpretation → Bool
is_success_interpretation success = true
is_success_interpretation x = false

unfoldable pub classify_skipped : ℕ → InternalClaim → Timeliness → ReconciliationResult
unfolding plain names_ignored_skip codes_or is_skip_interpretation
classify_skipped i claim age =
    if is_skip_interpretation claim.caller_interpretation
    then plain i age duplicate_blocked (codes_or claim.known_reason_codes no_reason) no_case
        not_applicable
    else (let reasons = codes_or claim.known_reason_codes caller_ignored_skip in
        plain i age missing_externally
          (if names_ignored_skip reasons then reasons else reasons ++ caller_ignored_skip ∷ [])
          open_case not_applicable)

-- `s < t`
unfoldable pub text_ltb : String → String → Bool
text_ltb s t = elim (compare s t) [ Ordering.lt ↦ true | _ ↦ false ]

-- The filled orders that the claim has identifier evidence for, in the order of the edges.
unfoldable pub contradiction_orders : ℕ → List BrokerOrder → List Edge → Option (List ℕ)
unfolding tier_eq is_filled get_elem?
contradiction_orders i orders [] = some []
contradiction_orders i orders (e ∷ es) =
    let here =
      e.claim_idx == i && (tier_eq e.tier full_identifier || tier_eq e.tier partial_identifier) in
    elim (contradiction_orders i orders es) [
      | none ↦ none
      | some rest ↦ elim here [
        | false ↦ some rest
        | true ↦ elim (get_elem? orders e.order_idx) [
          | none ↦ none
          | some o ↦ some (if is_filled o.status then e.order_idx ∷ rest else rest)
        ]
      ]
    ]

unfoldable pub stable_ids : List BrokerOrder → List ℕ → Option (List String)
unfolding get_elem?
stable_ids orders [] = some []
stable_ids orders (i ∷ is) = elim (get_elem? orders i) [
  | none ↦ none
  | some o ↦ elim (stable_ids orders is) [ none ↦ none | some rest ↦ some (o.stable_id ∷ rest) ]
]

-- `min(..., key=...)` of a list that begins with `best`: the first of the least ids.
unfoldable pub min_by_id : ℕ → String → List BrokerOrder → List ℕ → Option ℕ
unfolding text_ltb get_elem?
min_by_id best id orders [] = some best
min_by_id best id orders (i ∷ is) = elim (get_elem? orders i) [
  | none ↦ none
  | some o ↦ elim (text_ltb o.stable_id id) [
    | true ↦ min_by_id i o.stable_id orders is
    | false ↦ min_by_id best id orders is
  ]
]

-- A result about a claim and the order at position `o`.
unfoldable pub matched :
    ℕ
    → ℕ
    → Timeliness
    → Result
    → List ReasonCode
    → CaseStatus
    → MatchConfidence
    → PositionState
    → OrderDisposition
    → ReconciliationResult
matched i o age verdict reasons status confidence position category = record {
  claim = some i;
  matched_broker_order = some o;
  result = verdict;
  reason_codes = reasons;
  case_status = status;
  timely = age;
  match_confidence = confidence;
  position_state = position;
  correlation_id = none;
  involved_order_stable_ids = [];
  accounting_category = some category;
}

-- A result about a claim with the orders that it might be about.
unfoldable pub several :
    ℕ → Timeliness → Result → List ReasonCode → List String → ReconciliationResult
several i age verdict reasons ids = record {
  claim = some i;
  matched_broker_order = none;
  result = verdict;
  reason_codes = reasons;
  case_status = open_case;
  timely = age;
  match_confidence = no_match;
  position_state = unknown_position;
  correlation_id = none;
  involved_order_stable_ids = ids;
  accounting_category = none;
}
