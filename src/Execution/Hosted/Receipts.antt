-- ===== src/Execution/Hosted/Receipts.antt =====
-- The governance receipt of a claim and the list of the proofs that wait for a block.
use safe_agent.Prelude.{
  String, ◌≡◌, refl, ◌∙◌, Bool, true, false, Option, none, some, List, [], ◌∷◌, ◌||◌, inl, inr,
  arith, str_eq, eq_iff, Option-cases, Bool-cases,
}
use safe_agent.Prelude.Dict.{Dict, lookup, update, lookup-insert, lookup-update}
use safe_agent.Execution.Store.{commit_row}
use safe_agent.Execution.Hosted.{
  Governance, HostedRow, HostedStore, Delivery, acknowledged, no_connection, unacknowledged, write,
  hosted_row, on_base, on_gov, claim, settle, sweep_stale_pending,
}
use safe_agent.Execution.Governance.{
  SignedReceipt, attach_governance, confirm_governance, update_anchor_mycelium, attach_receipt,
  confirm_receipt, attach_anchor, Governed, governed_by, get_governance,
}
use safe_agent.Execution.Hosted.Lifecycle.{
  HostedOp, claim_call, settle_call, sweep_call, attach_call, confirm_call, anchor_call, apply_call,
  run_calls, has_hosted_row,
}

-- Whether the call is on the receipt of `j`.
abbrev pub is_receipt_call : String → HostedOp → Bool
is_receipt_call j (attach_call d r receipt) = str_eq r j
is_receipt_call j (confirm_call d r block_time) = str_eq r j
is_receipt_call j c = false

abbrev pub any_receipt_call : String → List HostedOp → Bool
any_receipt_call j [] = false
any_receipt_call j (c ∷ cs) = is_receipt_call j c || any_receipt_call j cs

governed_row : Option HostedRow → Option Governed
governed_row none = none
governed_row (some row) = governed_by row.gov

governed_row-lookup :
    (j r : String) (f : Governance → Governance) (rows : Dict HostedRow)
    → ((gov : Governance) → str_eq r j ≡ true → governed_by (f gov) ≡ governed_by gov)
    → governed_row (lookup j (update r (on_gov f) rows)) ≡ governed_row (lookup j rows)
unfolding governed_row
governed_row-lookup j r f rows h = elim (Option-cases (lookup j rows)) [
  | inl e ↦ ground (arith, e, lookup-update r j (on_gov f) rows)
  | inr (row, e) ↦ elim (Bool-cases (str_eq r j)) [
    | inl same ↦ rw (lookup-update r j (on_gov f) rows, same, e) (h row.gov same)
    | inr other ↦ rw (lookup-update r j (on_gov f) rows, other, e) refl
  ]
]

get_governance-on_gov :
    (j r : String) (f : Governance → Governance) (d : Delivery) (store : HostedStore)
    → ((gov : Governance) → str_eq r j ≡ true → governed_by (f gov) ≡ governed_by gov)
    → get_governance j (write d (update r (on_gov f)) store).1 ≡ get_governance j store
unfolding get_governance write governed_row
get_governance-on_gov j r f acknowledged store h =
    let k = governed_row-lookup j r f store.rows h in
    ground (arith, k, Option-cases (lookup j store.rows))
get_governance-on_gov j r f no_connection store h = refl
get_governance-on_gov j r f unacknowledged store h =
    let k = governed_row-lookup j r f store.rows h in
    ground (arith, k, Option-cases (lookup j store.rows))

get_governance-apply_call :
    (j : String) (c : HostedOp) (store : HostedStore)
    → is_receipt_call j c ≡ false
    → get_governance j (apply_call c store) ≡ get_governance j store
unfolding get_governance apply_call claim settle write sweep_stale_pending attach_governance
    confirm_governance update_anchor_mycelium
get_governance-apply_call j (claim_call acknowledged r a g n) store h =
    ground (arith, eq_iff r j, lookup-insert r j (hosted_row a g n) store.rows)
get_governance-apply_call j (claim_call no_connection r a g n) store h =
    ground (arith, Option-cases (lookup r store.rows))
get_governance-apply_call j (claim_call unacknowledged r a g n) store h =
    ground (arith, eq_iff r j, lookup-insert r j (hosted_row a g n) store.rows)
get_governance-apply_call j (settle_call acknowledged r f n) store h =
    ground (arith, eq_iff r j, lookup-update r j (on_base (commit_row f n)) store.rows)
get_governance-apply_call j (settle_call no_connection r f n) store h = refl
get_governance-apply_call j (settle_call unacknowledged r f n) store h =
    ground (arith, eq_iff r j, lookup-update r j (on_base (commit_row f n)) store.rows)
get_governance-apply_call j sweep_call store h = refl
get_governance-apply_call j (attach_call d r receipt) store h =
    get_governance-on_gov j r (attach_receipt receipt) d store
      (λ gov e. absurd (ground (arith, h, e)))
get_governance-apply_call j (confirm_call d r t) store h =
    get_governance-on_gov j r (confirm_receipt t) d store (λ gov e. absurd (ground (arith, h, e)))
get_governance-apply_call j (anchor_call d r a) store h =
    get_governance-on_gov j r (attach_anchor a) d store (λ gov e. refl)

get_governance-run_calls :
    (j : String) (cs : List HostedOp) (store : HostedStore)
    → any_receipt_call j cs ≡ false
    → get_governance j (run_calls cs store) ≡ get_governance j store
unfolding run_calls
get_governance-run_calls j [] store h = refl
get_governance-run_calls j (c ∷ cs) store h =
    get_governance-run_calls j cs (apply_call c store) (ground arith)
    ∙ get_governance-apply_call j c store (ground arith)

-- The dict that `get_governance` returns for a receipt.
abbrev pub returned_for : SignedReceipt → Governed
returned_for r = record {
  envelope_hash = r.envelope_hash;
  canonical_bytes = some r.canonical_bytes;
  signature = some r.signature;
  verifier_pubkey = some r.verifier_pubkey;
  ots_proof_hex = r.ots_proof_hex;
  ots_confirmed = r.ots_confirmed;
  ots_block_time = r.ots_block_time;
}

attached :
    (j : String) (r : SignedReceipt) (store : HostedStore)
    → has_hosted_row j store ≡ true
    → str_eq r.envelope_hash "" ≡ false
    → get_governance j (attach_governance acknowledged j r store).1 ≡ some (returned_for r)
unfolding get_governance attach_governance write
attached j r store has given = ground (
  arith,
  eq_iff j j,
  lookup-update j j (on_gov (attach_receipt r)) store.rows,
  Option-cases (lookup j store.rows),
)

confirmed :
    (j time : String) (store : HostedStore) (g : Governed)
    → get_governance j store ≡ some g
    → get_governance j (confirm_governance acknowledged j time store).1
      ≡ some (record g { ots_confirmed = true; ots_block_time = some time })
unfolding get_governance confirm_governance write
confirmed j time store g e = ground (
  arith,
  eq_iff j j,
  lookup-update j j (on_gov (confirm_receipt time)) store.rows,
  Option-cases (lookup j store.rows),
)

-- A receipt with an envelope hash that is attached to a claim that is there is what
-- `get_governance` returns, after whatever calls that are not on the receipt of this id; and once its
-- block time is confirmed it is returned as confirmed at that time, and otherwise unchanged.
pub receipt_round_trip :
    (j time : String) (r : SignedReceipt) (cs ds : List HostedOp) (store : HostedStore)
    → has_hosted_row j store ≡ true
    → str_eq r.envelope_hash "" ≡ false
    → any_receipt_call j cs ≡ false
    → any_receipt_call j ds ≡ false
    → let later = run_calls cs (attach_governance acknowledged j r store).1 in
      (get_governance j later ≡ some (returned_for r))
      × (get_governance j (run_calls ds (confirm_governance acknowledged j time later).1)
          ≡ some (record (returned_for r) { ots_confirmed = true; ots_block_time = some time }))
receipt_round_trip j time r cs ds store has given calm calm' =
    let attaching = (attach_governance acknowledged j r store).1 in
    let later = run_calls cs attaching in
    let found : get_governance j later ≡ some (returned_for r) =
      get_governance-run_calls j cs attaching calm ∙ attached j r store has given in
    (
      found,
      get_governance-run_calls j ds (confirm_governance acknowledged j time later).1 calm'
          ∙ confirmed j time later (returned_for r) found,
    )
