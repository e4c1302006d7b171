-- ===== src/Execution/Hosted/Waiting.antt =====
-- The proofs that wait for a block, which a poller asks for.
use safe_agent.Prelude.{
  ℕ, String, ◌≡◌, refl, Bool, true, false, none, List, [], ◌∷◌, ◌||◌, arith, str_eq, eq_iff, inl,
  inr, Option-cases, Bool-cases, take, All, leb,
}
use safe_agent.Prelude.Dict.{Dict, lookup, insert, update}
use safe_agent.Prelude.Json.{Fields, serializable_fields}
use safe_agent.Prelude.Lists.{filter_by, All-take}
use safe_agent.Execution.Store.{commit_row}
use safe_agent.Execution.Hosted.{
  HostedRow, HostedStore, Delivery, acknowledged, no_connection, unacknowledged, write, hosted_row,
  on_base, on_gov, claim, settle, sweep_stale_pending,
}
use safe_agent.Execution.Governance.{
  attach_governance, confirm_governance, update_anchor_mycelium, attach_receipt, confirm_receipt,
  attach_anchor, is_submitted, insert_oldest, oldest_first, Submitted, selected,
  get_submitted_unconfirmed_claims,
}
use safe_agent.Execution.Hosted.Lifecycle.{
  HostedOp, claim_call, settle_call, sweep_call, attach_call, confirm_call, anchor_call, apply_call,
  run_calls,
}

-- The row does not wait for a block, if it is that of `j`.
abbrev Rests : String → String × HostedRow → Type 0
Rests j e = str_eq e.0 j ≡ true → is_submitted e ≡ false

All-insert :
    (j r : String) (row : HostedRow) (rows : Dict HostedRow)
    → ((id : String) → Rests j (id, row))
    → All (Rests j) rows
    → All (Rests j) (insert r row rows)
unfolding insert
All-insert j r row [] new h = (new r, tt)
All-insert j r row ((id, old) ∷ rows) new h = elim (Bool-cases (str_eq id r)) [
  | inl e ↦ rw e (new id, h.1)
  | inr e ↦ rw e (h.0, All-insert j r row rows new h.1)
]

All-update :
    (j r : String) (f : HostedRow → HostedRow) (rows : Dict HostedRow)
    → ((id : String) (row : HostedRow)
        → str_eq id r ≡ true
        → Rests j (id, row)
        → Rests j (id, f row))
    → All (Rests j) rows
    → All (Rests j) (update r f rows)
unfolding update
All-update j r f [] keeps h = tt
All-update j r f ((id, row) ∷ rows) keeps h = elim (Bool-cases (str_eq id r)) [
  | inl e ↦ rw e (keeps id row e h.0, h.1)
  | inr e ↦ rw e (h.0, All-update j r f rows keeps h.1)
]

All-write :
    (j : String) (d : Delivery) (f : Dict HostedRow → Dict HostedRow) (store : HostedStore)
    → All (Rests j) store.rows
    → All (Rests j) (f store.rows)
    → All (Rests j) (write d f store).1.rows
unfolding write
All-write j acknowledged f store h k = k
All-write j no_connection f store h k = h
All-write j unacknowledged f store h k = k

All-settled :
    (j r : String) (f : Fields) (n : ℕ) (store : HostedStore)
    → All (Rests j) store.rows
    → All (Rests j) (update r (on_base (commit_row f n)) store.rows)
All-settled j r f n store h =
    All-update j r (on_base (commit_row f n)) store.rows (λ id row e rests. rests) h

-- Whether the call attaches a receipt to `j`.
abbrev pub is_attach : String → HostedOp → Bool
is_attach j (attach_call d r receipt) = str_eq r j
is_attach j c = false

abbrev pub any_attach : String → List HostedOp → Bool
any_attach j [] = false
any_attach j (c ∷ cs) = is_attach j c || any_attach j cs

All-apply_call :
    (j : String) (c : HostedOp) (store : HostedStore)
    → is_attach j c ≡ false
    → All (Rests j) store.rows
    → All (Rests j) (apply_call c store).rows
unfolding apply_call claim settle sweep_stale_pending attach_governance confirm_governance
    update_anchor_mycelium
All-apply_call j (claim_call d r a g n) store h k = elim (Option-cases (lookup r store.rows)) [
  | inl e ↦
      rw (All, e)
        (All-write j d (insert r (hosted_row a g n)) store k
          (All-insert j r (hosted_row a g n) store.rows (λ id e. refl) k))
  | inr (row, e) ↦ rw (All, e) k
]
All-apply_call j (settle_call acknowledged r f n) store h k =
    elim (Bool-cases (serializable_fields f)) [
      | inl e ↦ rw (All, e) (All-settled j r f n store k)
      | inr e ↦ rw (All, e) k
    ]
All-apply_call j (settle_call no_connection r f n) store h k = k
All-apply_call j (settle_call unacknowledged r f n) store h k =
    elim (Bool-cases (serializable_fields f)) [
      | inl e ↦ rw (All, e) (All-settled j r f n store k)
      | inr e ↦ rw (All, e) k
    ]
All-apply_call j sweep_call store h k = k
All-apply_call j (attach_call d r receipt) store h k =
    All-write j d (update r (on_gov (attach_receipt receipt))) store k (
      All-update j r (on_gov (attach_receipt receipt)) store.rows
        (λ id row e rests same. absurd (ground (arith, h, eq_iff id r, eq_iff id j, e, same))) k)
All-apply_call j (confirm_call d r t) store h k =
    All-write j d (update r (on_gov (confirm_receipt t))) store k (
      All-update j r (on_gov (confirm_receipt t)) store.rows (λ id row e rests same. ground arith)
        k)
All-apply_call j (anchor_call d r a) store h k =
    All-write j d (update r (on_gov (attach_anchor a))) store k
      (All-update j r (on_gov (attach_anchor a)) store.rows (λ id row e rests. rests) k)

All-run_calls :
    (j : String) (cs : List HostedOp) (store : HostedStore)
    → any_attach j cs ≡ false
    → All (Rests j) store.rows
    → All (Rests j) (run_calls cs store).rows
unfolding run_calls
All-run_calls j [] store h k = k
All-run_calls j (c ∷ cs) store h k =
    All-run_calls j cs (apply_call c store) (ground arith)
      (All-apply_call j c store (ground arith) k)

-- No two rows have the same id: the primary key of the table.
abbrev pub IsKeyed : Dict HostedRow → Type 0
IsKeyed [] = Unit
IsKeyed ((id, row) ∷ rows) = (lookup id rows ≡ none) × IsKeyed rows

All-absent : (j : String) (rows : Dict HostedRow) → lookup j rows ≡ none → All (Rests j) rows
unfolding lookup
All-absent j [] h = tt
All-absent j ((id, row) ∷ rows) h =
    ((λ same. absurd (ground (arith, h, same))), All-absent j rows (ground (arith, h)))

All-confirmed :
    (j t : String) (rows : Dict HostedRow)
    → IsKeyed rows
    → All (Rests j) (update j (on_gov (confirm_receipt t)) rows)
unfolding update
All-confirmed j t [] keyed = tt
All-confirmed j t ((id, row) ∷ rows) keyed = elim (Bool-cases (str_eq id j)) [
  | inl e ↦
      rw e ((λ same. ground arith), All-absent j rows (ground (arith, keyed.0, eq_iff id j, e)))
  | inr e ↦ rw e ((λ same. absurd (ground (arith, e, same))), All-confirmed j t rows keyed.1)
]

-- Whether the list has an entry of the id.
abbrev pub mentions : String → List Submitted → Bool
mentions j [] = false
mentions j (s ∷ ss) = str_eq s.request_id j || mentions j ss

Other : String → String × HostedRow → Type 0
Other j e = str_eq e.0 j ≡ false

All-submitted :
    (j : String) (rows : Dict HostedRow)
    → All (Rests j) rows
    → All (Other j) (filter_by is_submitted rows)
unfolding filter_by Other
All-submitted j [] h = tt
All-submitted j (e ∷ rows) h = elim (Bool-cases (is_submitted e)) [
  | inl w ↦ rw w (ground (arith, h.0, w, Bool-cases (str_eq e.0 j)), All-submitted j rows h.1)
  | inr w ↦ rw w (All-submitted j rows h.1)
]

All-insert_oldest {κ} :
    (P : String × HostedRow → Type κ) (e : String × HostedRow) (rows : Dict HostedRow)
    → P e
    → All P rows
    → All P (insert_oldest e rows)
unfolding insert_oldest
All-insert_oldest P (id, row) [] p h = (p, tt)
All-insert_oldest P (id, row) ((j, other) ∷ rows) p h =
    elim (Bool-cases (leb row.base.claimed_at other.base.claimed_at)) [
      | inl e ↦ rw e (p, h)
      | inr e ↦ rw e (h.0, All-insert_oldest P (id, row) rows p h.1)
    ]

All-oldest_first {κ} :
    (P : String × HostedRow → Type κ) (rows : Dict HostedRow)
    → All P rows
    → All P (oldest_first rows)
unfolding oldest_first
All-oldest_first P [] h = tt
All-oldest_first P (e ∷ rows) h =
    All-insert_oldest P e (oldest_first rows) h.0 (All-oldest_first P rows h.1)

mentions-selected :
    (j : String) (rows : Dict HostedRow) → All (Other j) rows → mentions j (selected rows) ≡ false
unfolding selected Other
mentions-selected j [] h = refl
mentions-selected j ((id, row) ∷ rows) h = ground (arith, h.0, mentions-selected j rows h.1)

-- In a table with a primary key: once the block time of a claim's proof is confirmed, the claim is not asked for again: it is not
-- among the submitted ones after any calls that do not attach a new receipt to it.
pub confirmed_not_submitted :
    (j time : String) (cs : List HostedOp) (store : HostedStore)
    → IsKeyed store.rows
    → any_attach j cs ≡ false
    → mentions j (
        get_submitted_unconfirmed_claims
          (run_calls cs (confirm_governance acknowledged j time store).1))
      ≡ false
unfolding get_submitted_unconfirmed_claims confirm_governance write
confirmed_not_submitted j time cs store keyed h =
    let confirming : HostedStore = record store {
      rows = update j (on_gov (confirm_receipt time)) store.rows;
    } in
    let rests = All-run_calls j cs confirming h (All-confirmed j time store.rows keyed) in
    let waiting = filter_by is_submitted (run_calls cs confirming).rows in
    mentions-selected j (take 100 (oldest_first waiting)) (
      All-take (Other j) 100 (oldest_first waiting)
        (All-oldest_first (Other j) waiting (All-submitted j (run_calls cs confirming).rows rests)))
