-- ===== src/Control/Identity.antt =====
-- `assign_stable_ids` and `assign_claim_stable_ids` of control/v15/reconcile_v12.py. How Python writes
-- a record's fingerprint and a number is a parameter, `Writing`.
use Prim.Native.String.{◌++◌}
use safe_agent.Prelude.{
  ℕ, suc, List, [], ◌∷◌, Option, none, some, Bool, true, false, ◌&&◌, ◌==◌, if◌then◌else◌, String,
  length, ◌≡◌, refl, ap,
}
use safe_agent.Prelude.{str_eq}
use safe_agent.Control.Models.{
  InternalClaim, BrokerOrder, Interpretation, success, skipped, failed, pending, unknown,
  FailureType, no_failure, broker_rejected, network_timeout, authorization_failed, provider_error,
  internal_error, unknown_failure, is_given,
}

-- `"|".join(str(x) for x in fp)` of an order and of a claim, and `str(rank)`.
pub record Writing : Type 0 where
  pub order_text : BrokerOrder → String
  pub claim_text : InternalClaim → String
  pub number_text : ℕ → String

-- Equality of identifiers that may be missing.
unfoldable pub same_text : Option String → Option String → Bool
same_text none none = true
same_text (some s) (some t) = str_eq s t
same_text a b = false

unfoldable pub same_time : Option ℕ → Option ℕ → Bool
same_time none none = true
same_time (some s) (some t) = s == t
same_time a b = false

-- Equality of the fingerprint tuples of two orders.
unfoldable pub same_order_fingerprint : BrokerOrder → BrokerOrder → Bool
unfolding same_text same_time
same_order_fingerprint a b =
    str_eq a.symbol b.symbol
    && str_eq a.side b.side
    && a.qty == b.qty
    && str_eq a.status b.status
    && a.submitted_at == b.submitted_at
    && same_time a.filled_at b.filled_at
    && same_text a.client_order_id b.client_order_id
    && same_text a.source_system b.source_system
    && same_text a.source_account b.source_account

unfoldable pub interpretation_code : Interpretation → ℕ
interpretation_code success = 0
interpretation_code skipped = 1
interpretation_code failed = 2
interpretation_code pending = 3
interpretation_code unknown = 4

unfoldable pub failure_code : FailureType → ℕ
failure_code no_failure = 0
failure_code broker_rejected = 1
failure_code network_timeout = 2
failure_code authorization_failed = 3
failure_code provider_error = 4
failure_code internal_error = 5
failure_code unknown_failure = 6

unfoldable pub same_claim_fingerprint : InternalClaim → InternalClaim → Bool
unfolding same_text interpretation_code failure_code
same_claim_fingerprint a b =
    str_eq a.symbol b.symbol
    && str_eq a.side b.side
    && a.qty == b.qty
    && str_eq a.stage b.stage
    && a.claimed_at == b.claimed_at
    && str_eq a.outcome b.outcome
    && interpretation_code a.caller_interpretation == interpretation_code b.caller_interpretation
    && same_text a.broker_order_id b.broker_order_id
    && same_text a.client_order_id b.client_order_id
    && failure_code a.failure_type == failure_code b.failure_type
    && same_text a.source_system b.source_system
    && same_text a.source_account b.source_account

-- How many of the records before have the same fingerprint: the rank of a record in its group.
unfoldable pub rank_among : {A : Type 0} → (A → A → Bool) → A → List A → ℕ
rank_among same x [] = 0
rank_among same x (y ∷ ys) = let rest = rank_among same x ys in if same y x then suc rest else rest

-- `x or 'UNKNOWN'`
unfoldable pub or_unknown : Option String → String
unfolding is_given
or_unknown none = "UNKNOWN"
or_unknown (some s) = if is_given (some s) then s else "UNKNOWN"

-- `x` of an identifier that is given
unfoldable pub given_text : Option String → String
given_text none = ""
given_text (some s) = s

unfoldable pub source_id : Option String → Option String → String → String → String
unfolding or_unknown
source_id system account label id =
    or_unknown system ++ ":" ++ or_unknown account ++ ":" ++ label ++ ":" ++ id

unfoldable pub fingerprint_id : String → String → String
fingerprint_id text rank = "fingerprint:" ++ text ++ "#" ++ rank

module _ (w : Writing) where
  -- One order, after the fingerprinted orders `before`.
  unfoldable pub order_stable_id : List BrokerOrder → BrokerOrder → String × String
  unfolding is_given source_id given_text fingerprint_id rank_among same_order_fingerprint
  order_stable_id before o =
      if is_given o.broker_order_id
      then (
        source_id o.source_system o.source_account "boid" (given_text o.broker_order_id),
        "broker_order_id",
      )
      else if is_given o.immutable_source_record_id
      then (
        source_id o.source_system o.source_account "rid" (given_text o.immutable_source_record_id),
        "immutable_record_id",
      )
      else (
        fingerprint_id (w.order_text o)
            (w.number_text (rank_among same_order_fingerprint o before)),
        "fingerprint",
      )

  unfoldable pub assign_order_ids : List BrokerOrder → List BrokerOrder → List BrokerOrder
  unfolding order_stable_id is_given
  assign_order_ids before [] = []
  assign_order_ids before (o ∷ os) =
      let (id, basis) = order_stable_id before o in
      record o { stable_id = id; stable_id_basis = basis }
      ∷ assign_order_ids
          (if is_given o.broker_order_id
            then before
            else if is_given o.immutable_source_record_id
            then before
            else o ∷ before)
          os

  unfoldable pub assign_stable_ids : List BrokerOrder → List BrokerOrder
  unfolding assign_order_ids
  assign_stable_ids orders = assign_order_ids [] orders

  unfoldable pub claim_stable_id : List InternalClaim → InternalClaim → String × String
  unfolding is_given source_id given_text fingerprint_id rank_among same_claim_fingerprint
  claim_stable_id before c =
      if is_given c.immutable_source_event_id
      then (
        source_id c.source_system c.source_account "evt" (given_text c.immutable_source_event_id),
        "immutable_source_event_id",
      )
      else (
        fingerprint_id (w.claim_text c)
            (w.number_text (rank_among same_claim_fingerprint c before)),
        "fingerprint",
      )

  unfoldable pub assign_claim_ids : List InternalClaim → List InternalClaim → List InternalClaim
  unfolding claim_stable_id is_given
  assign_claim_ids before [] = []
  assign_claim_ids before (c ∷ cs) =
      let (id, basis) = claim_stable_id before c in
      record c { stable_id = id; stable_id_basis = basis }
      ∷ assign_claim_ids (if is_given c.immutable_source_event_id then before else c ∷ before) cs

  unfoldable pub assign_claim_stable_ids : List InternalClaim → List InternalClaim
  unfolding assign_claim_ids
  assign_claim_stable_ids claims = assign_claim_ids [] claims

module _ (w : Writing) where
  length-assign_claim_ids :
      (cs before : List InternalClaim) → length (assign_claim_ids w before cs) ≡ length cs
  unfolding assign_claim_ids
  length-assign_claim_ids [] before = refl
  length-assign_claim_ids (c ∷ cs) before = ap suc (length-assign_claim_ids cs _)

  pub length-assign_claim_stable_ids :
      (claims : List InternalClaim) → length (assign_claim_stable_ids w claims) ≡ length claims
  unfolding assign_claim_stable_ids
  length-assign_claim_stable_ids claims = length-assign_claim_ids claims []
