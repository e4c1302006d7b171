-- ===== src/Control/Models.antt =====
-- The data model of control/v15/reconcile_v12.py. A quantity is counted in units of 10⁻⁸, the digits
-- that the source keeps when it prints one; a time is a number of microseconds.
use safe_agent.Prelude.{
  ℕ, ◌+◌, ◌-◌, ◌*◌, List, Option, none, some, Bool, true, false, not, ◌||◌, ltb, leb, if◌then◌else◌,
  String,
}
use safe_agent.Prelude.{str_eq}

pub data ExecutionEligibility : Type 0 where
  execution_expected execution_skipped execution_rejected : ExecutionEligibility
  execution_pending execution_unknown : ExecutionEligibility

pub data EvidenceTier : Type 0 where
  full_identifier partial_identifier weak_heuristic : EvidenceTier
  identifier_conflict incompatible : EvidenceTier

pub data OrderDisposition : Type 0 where
  assigned_order unmatched_order ambiguous_order conflicting_order : OrderDisposition

pub data Timeliness : Type 0 where
  current stale overdue : Timeliness

pub data Interpretation : Type 0 where
  success skipped failed pending unknown : Interpretation

pub data FailureType : Type 0 where
  no_failure broker_rejected network_timeout authorization_failed : FailureType
  provider_error internal_error unknown_failure : FailureType

pub data Result : Type 0 where
  confirmed duplicate_blocked missing_externally unrecorded_internally : Result
  rejected uncertain contradiction : Result

pub data PositionState : Type 0 where
  not_applicable confirmed_open confirmed_flat unknown_position : PositionState

pub data MatchConfidence : Type 0 where
  no_match strong_full strong_partial weak_match : MatchConfidence

pub data CaseStatus : Type 0 where
  no_case open_case acknowledged resolved dismissed : CaseStatus

pub data ReasonCode : Type 0 where
  no_reason caller_ignored_skip dedup_key_collision broker_rejected_reason : ReasonCode
  broker_match_not_found unmatched_broker_order : ReasonCode
  identifier_conflict_reason external_identifier_conflict : ReasonCode
  ambiguous_multiple_identifier_matches ambiguous_multiple_partial_matches : ReasonCode
  ambiguous_multiple_weak_matches partial_identifier_evidence : ReasonCode
  ambiguous_provider_response rejection_execution_contradiction : ReasonCode

unfoldable pub is_broker_rejected : FailureType → Bool
is_broker_rejected broker_rejected = true
is_broker_rejected f = false

unfoldable pub tier_eq : EvidenceTier → EvidenceTier → Bool
tier_eq full_identifier full_identifier = true
tier_eq partial_identifier partial_identifier = true
tier_eq weak_heuristic weak_heuristic = true
tier_eq identifier_conflict identifier_conflict = true
tier_eq incompatible incompatible = true
tier_eq s t = false

pub record InternalClaim : Type 0 where
  pub request_id : String
  pub symbol : String
  pub side : String
  pub qty : ℕ
  pub stage : String
  pub claimed_at : ℕ
  pub outcome : String
  pub caller_interpretation : Interpretation
  pub broker_order_id : Option String
  pub client_order_id : Option String
  pub failure_type : FailureType
  pub known_reason_codes : List ReasonCode
  pub source_system : Option String
  pub source_account : Option String
  pub immutable_source_event_id : Option String
  pub stable_id : String
  pub stable_id_basis : String

pub record BrokerOrder : Type 0 where
  pub symbol : String
  pub side : String
  pub qty : ℕ
  pub status : String
  pub submitted_at : ℕ
  pub filled_at : Option ℕ
  pub broker_order_id : Option String
  pub client_order_id : Option String
  pub source_system : Option String
  pub source_account : Option String
  pub immutable_source_record_id : Option String
  pub stable_id : String
  pub stable_id_basis : String
  pub ingestion_count : ℕ

pub record Edge : Type 0 where
  pub claim_idx : ℕ
  pub order_idx : ℕ
  pub tier : EvidenceTier
  pub identifier_evidence : String
  pub status_compatible : Bool
  pub symbol_side_qty_compatible : Bool
  pub timestamp_distance : ℕ
  pub conflict_reasons : List String

-- How far apart two numbers are.
unfoldable pub distance : ℕ → ℕ → ℕ
distance a b = (a - b) + (b - a)

-- `_qty_eq`: less than 10⁻⁶ apart
unfoldable pub qty_eq : ℕ → ℕ → Bool
unfolding distance
qty_eq a b = ltb (distance a b) 100

abbrev pub second : ℕ
second = 1000000

abbrev pub stale_after : ℕ
stale_after = 600 * second

abbrev pub overdue_after : ℕ
overdue_after = 3600 * second

abbrev pub match_tolerance : ℕ
match_tolerance = 300 * second

-- `_timeliness`
unfoldable pub timeliness : ℕ → Timeliness
timeliness age =
    if leb overdue_after age then overdue else if leb stale_after age then stale else current

unfoldable pub is_rejected_compatible : String → Bool
is_rejected_compatible s = str_eq s "rejected" || str_eq s "canceled" || str_eq s "cancelled"

-- `bool(x)` of an identifier that may be missing
unfoldable pub is_given : Option String → Bool
is_given none = false
is_given (some s) = not (str_eq s "")

unfoldable pub is_filled : String → Bool
is_filled s = str_eq s "filled" || str_eq s "partially_filled"
