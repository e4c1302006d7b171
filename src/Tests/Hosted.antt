-- ===== src/Tests/Hosted.antt =====
-- The hosted store: a claim whose answer is lost, and one with a receipt.
use mathlib.Core.Option
use safe_agent.Prelude.{◌≤◌, ◌≡◌, refl, true, false, none, some, List, [], ◌∷◌}
use safe_agent.Prelude.Dict.{lookup}
use safe_agent.Prelude.Json.{end}
use safe_agent.Execution.Store
use safe_agent.Execution.Store.Lifecycle
use safe_agent.Execution.Hosted.{
  HostedRow, HostedStore, no_governance, acknowledged, no_connection, unacknowledged, hosted_row,
  claim, get, count_stale_pending,
}
use safe_agent.Execution.Governance.{
  attach_receipt, SignedReceipt, Anchor, attach_governance, confirm_governance, get_governance,
  get_submitted_unconfirmed_claims,
}
use safe_agent.Execution.Hosted.Lifecycle.{
  forget, HostedOp, claim_call, settle_call, attach_call, anchor_call, run_calls, claims_of, grants,
  hosted_refines_store, hosted_claim_granted_once,
}
use safe_agent.Execution.Hosted.Receipts.{returned_for, receipt_round_trip}
use safe_agent.Execution.Hosted.Waiting.{mentions, confirmed_not_submitted}

abbrev hosted : HostedStore
hosted = record { rows = ("r0", hosted_row "refund" none 2) ∷ []; pending_ttl_seconds = 300 }

abbrev receipt : SignedReceipt
receipt = record {
  envelope_hash = "ab12";
  canonical_bytes = "7b7d";
  signature = "51";
  verifier_pubkey = "9c";
  ots_proof_hex = some "0f";
  ots_confirmed = false;
  ots_block_time = none;
}

abbrev anchor : Anchor
anchor = record { trail_id = "t1"; block_time = some 7; tx_hash = none; precedence = true }

abbrev waiting : HostedStore
waiting = record hosted {
  rows =
      ("r0", record (hosted_row "refund" none 2) { gov = attach_receipt receipt no_governance })
      ∷ [];
}

-- The answer to the first claim of r1 is lost; r1 is then not granted again.
abbrev calls : List HostedOp
calls =
    claim_call no_connection "r1" "refund" none 9
    ∷ claim_call unacknowledged "r1" "refund" none 10
    ∷ anchor_call acknowledged "r0" anchor
    ∷ claim_call acknowledged "r1" "refund" none 11
    ∷ settle_call acknowledged "r0" end 12
    ∷ attach_call acknowledged "r1" receipt
    ∷ []

hosted_refines_store_example :
    let after = run_calls calls hosted in
    let sqlite = Lifecycle.run (claims_of calls) (forget hosted) in
    (forget after ≡ sqlite)
    × ((claim acknowledged "r1" "refund" none 13 after).0
        ≡ (Store.claim "r1" "refund" none 13 sqlite).0)
    × (Option.map (λ (row : HostedRow). row.base) (get "r1" after) ≡ Store.get "r1" sqlite)
    × (count_stale_pending 13 after ≡ Store.count_stale_pending 13 sqlite)
hosted_refines_store_example = hosted_refines_store calls "r1" "refund" none 13 hosted

hosted_claim_granted_once_example : grants "r1" calls hosted ≤ 1
unfolding lookup
hosted_claim_granted_once_example = hosted_claim_granted_once "r1" calls hosted

receipt_round_trip_example :
    let later = run_calls calls (attach_governance acknowledged "r0" receipt hosted).1 in
    (get_governance "r0" later ≡ some (returned_for receipt))
    × (get_governance "r0" (run_calls [] (confirm_governance acknowledged "r0" "noon" later).1)
        ≡ some
            (record (returned_for receipt) { ots_confirmed = true; ots_block_time = some "noon" }))
unfolding lookup
receipt_round_trip_example =
    receipt_round_trip "r0" "noon" receipt calls [] hosted refl refl refl refl

confirmed_not_submitted_example :
    mentions "r0" (
      get_submitted_unconfirmed_claims
        (run_calls calls (confirm_governance acknowledged "r0" "noon" waiting).1))
    ≡ false
unfolding lookup
confirmed_not_submitted_example = confirmed_not_submitted "r0" "noon" calls waiting (refl, tt) refl
