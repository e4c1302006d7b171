-- ===== src/Execution/Hosted/Lifecycle.antt =====
-- The hosted store against the SQLite store that it stands in for.
use mathlib.Core.Option
use safe_agent.Prelude.{
  ℕ, ◌+◌, ◌≤◌, String, ◌≡◌, refl, Bool, Option, none, some, List, [], ◌∷◌, arith, if◌then◌else◌,
  str_eq, is_some, Option-cases,
}
use safe_agent.Prelude.Dict.{Dict, lookup, insert, update}
use safe_agent.Prelude.Json.{Fields}
use safe_agent.Execution.Store
use safe_agent.Execution.Store.{Row, ExecutionStore, pending_row, commit_row, is_stale}
use safe_agent.Execution.Store.Lifecycle
use safe_agent.Execution.Store.Lifecycle.{Op, claim_op, settle_op, sweep_op}
use safe_agent.Execution.Hosted.{
  Governance, HostedRow, HostedStore, Delivery, acknowledged, no_connection, unacknowledged, write,
  hosted_row, on_base, on_gov, claim, settle, get, count_stale_pending, sweep_stale_pending,
  stale_in,
}
use safe_agent.Execution.Governance.{
  SignedReceipt, Anchor, attach_governance, confirm_governance, update_anchor_mycelium,
  attach_receipt, confirm_receipt, attach_anchor,
}

-- The table without the governance columns.
unfoldable pub base_rows : Dict HostedRow → Dict Row
base_rows [] = []
base_rows ((id, row) ∷ rows) = (id, row.base) ∷ base_rows rows

unfoldable pub forget : HostedStore → ExecutionStore
forget store = record {
  rows = base_rows store.rows;
  pending_ttl_seconds = store.pending_ttl_seconds;
}

lookup-base_rows :
    (j : String) (rows : Dict HostedRow)
    → lookup j (base_rows rows) ≡ Option.map (λ (row : HostedRow). row.base) (lookup j rows)
unfolding base_rows lookup
lookup-base_rows j [] = refl
lookup-base_rows j ((id, row) ∷ rows) = ground (arith, lookup-base_rows j rows)

base_rows-insert :
    (j : String) (row : HostedRow) (rows : Dict HostedRow)
    → base_rows (insert j row rows) ≡ insert j row.base (base_rows rows)
unfolding base_rows insert
base_rows-insert j row [] = refl
base_rows-insert j row ((id, old) ∷ rows) = ground (arith, base_rows-insert j row rows)

base_rows-update :
    (j : String) (f : Row → Row) (rows : Dict HostedRow)
    → base_rows (update j (on_base f) rows) ≡ update j f (base_rows rows)
unfolding base_rows update
base_rows-update j f [] = refl
base_rows-update j f ((id, row) ∷ rows) = ground (arith, base_rows-update j f rows)

base_rows-on_gov :
    (j : String) (f : Governance → Governance) (rows : Dict HostedRow)
    → base_rows (update j (on_gov f) rows) ≡ base_rows rows
unfolding base_rows update
base_rows-on_gov j f [] = refl
base_rows-on_gov j f ((id, row) ∷ rows) = ground (arith, base_rows-on_gov j f rows)

-- One call on the hosted store, with how its connection behaves.
pub data HostedOp : Type 0 where
  claim_call :
      Delivery → (request_id action : String) (agent_id : Option String) (now : ℕ) → HostedOp
  settle_call : Delivery → (request_id : String) (result : Fields) (now : ℕ) → HostedOp
  sweep_call : HostedOp
  attach_call : Delivery → (request_id : String) → SignedReceipt → HostedOp
  confirm_call : Delivery → (request_id block_time : String) → HostedOp
  anchor_call : Delivery → (request_id : String) → Anchor → HostedOp

unfoldable pub apply_call : HostedOp → HostedStore → HostedStore
unfolding claim settle sweep_stale_pending attach_governance confirm_governance
    update_anchor_mycelium
apply_call (claim_call d r a g n) store = (claim d r a g n store).1
apply_call (settle_call d r f n) store = (settle d r f n store).1
apply_call sweep_call store = (sweep_stale_pending store).1
apply_call (attach_call d r receipt) store = (attach_governance d r receipt store).1
apply_call (confirm_call d r block_time) store = (confirm_governance d r block_time store).1
apply_call (anchor_call d r a) store = (update_anchor_mycelium d r a store).1

unfoldable pub run_calls : List HostedOp → HostedStore → HostedStore
run_calls [] store = store
run_calls (c ∷ cs) store = run_calls cs (apply_call c store)

-- What a call is to the columns of the SQLite store: nothing for a receipt or an anchor, nor for a
-- write that did not reach the database.
pub reached : HostedOp → Option Op
reached (claim_call no_connection r a g n) = none
reached (claim_call d r a g n) = some (claim_op r a g n)
reached (settle_call no_connection r f n) = none
reached (settle_call d r f n) = some (settle_op r f n)
reached sweep_call = some sweep_op
reached c = none

abbrev pub cons_op : Option Op → List Op → List Op
cons_op none ops = ops
cons_op (some op) ops = op ∷ ops

pub claims_of : List HostedOp → List Op
claims_of [] = []
claims_of (c ∷ cs) = cons_op (reached c) (claims_of cs)

abbrev apply_reached : Option Op → ExecutionStore → ExecutionStore
apply_reached none store = store
apply_reached (some op) store = Lifecycle.apply_op op store

forget-write :
    (d : Delivery) (f : Dict HostedRow → Dict HostedRow) (store : HostedStore)
    → base_rows (f store.rows) ≡ base_rows store.rows
    → forget (write d f store).1 ≡ forget store
unfolding forget write
forget-write acknowledged f store h = ground (arith, h)
forget-write no_connection f store h = refl
forget-write unacknowledged f store h = ground (arith, h)

forget-claim :
    (d : Delivery) (r a : String) (g : Option String) (n : ℕ) (store : HostedStore)
    → forget (claim d r a g n store).1
      ≡ apply_reached (reached (claim_call d r a g n)) (forget store)
unfolding forget claim write Store.claim Lifecycle.apply_op reached
forget-claim acknowledged r a g n store =
    ground (arith, lookup-base_rows r store.rows, base_rows-insert r (hosted_row a g n) store.rows)
forget-claim no_connection r a g n store = ground (arith, Option-cases (lookup r store.rows))
forget-claim unacknowledged r a g n store =
    ground (arith, lookup-base_rows r store.rows, base_rows-insert r (hosted_row a g n) store.rows)

forget-settle :
    (d : Delivery) (r : String) (f : Fields) (n : ℕ) (store : HostedStore)
    → forget (settle d r f n store).1 ≡ apply_reached (reached (settle_call d r f n)) (forget store)
unfolding forget settle write Store.settle Lifecycle.apply_op reached
forget-settle acknowledged r f n store =
    ground (arith, base_rows-update r (commit_row f n) store.rows)
forget-settle no_connection r f n store = refl
forget-settle unacknowledged r f n store =
    ground (arith, base_rows-update r (commit_row f n) store.rows)

forget-apply_call :
    (c : HostedOp) (store : HostedStore)
    → forget (apply_call c store) ≡ apply_reached (reached c) (forget store)
unfolding apply_call attach_governance confirm_governance update_anchor_mycelium sweep_stale_pending
    Store.sweep_stale_pending Lifecycle.apply_op reached
forget-apply_call (claim_call d r a g n) store = forget-claim d r a g n store
forget-apply_call (settle_call d r f n) store = forget-settle d r f n store
forget-apply_call sweep_call store = refl
forget-apply_call (attach_call d r receipt) store =
    let f = on_gov (attach_receipt receipt) in
    forget-write d (update r f) store (base_rows-on_gov r (attach_receipt receipt) store.rows)
forget-apply_call (confirm_call d r t) store =
    forget-write d (update r (on_gov (confirm_receipt t))) store
      (base_rows-on_gov r (confirm_receipt t) store.rows)
forget-apply_call (anchor_call d r a) store =
    forget-write d (update r (on_gov (attach_anchor a))) store
      (base_rows-on_gov r (attach_anchor a) store.rows)

run-cons_op :
    (o : Option Op) (ops : List Op) (store : ExecutionStore)
    → Lifecycle.run (cons_op o ops) store ≡ Lifecycle.run ops (apply_reached o store)
unfolding Lifecycle.run
run-cons_op none ops store = refl
run-cons_op (some op) ops store = refl

forget-run_calls :
    (cs : List HostedOp) (store : HostedStore)
    → forget (run_calls cs store) ≡ Lifecycle.run (claims_of cs) (forget store)
unfolding run_calls claims_of Lifecycle.run
forget-run_calls [] store = refl
forget-run_calls (c ∷ cs) store =
    rw
      (
        forget-run_calls cs (apply_call c store),
        forget-apply_call c store,
        run-cons_op (reached c) (claims_of cs) (forget store),
      )
      refl

stale_in-base_rows :
    (ttl n : ℕ) (rows : Dict HostedRow)
    → stale_in ttl n rows ≡ Store.count_stale ttl n (base_rows rows)
unfolding stale_in Store.count_stale base_rows
stale_in-base_rows ttl n [] = refl
stale_in-base_rows ttl n ((id, row) ∷ rows) = omega (arith, stale_in-base_rows ttl n rows)

hosted_answers :
    (r a : String) (g : Option String) (n : ℕ) (after : HostedStore)
    → ((claim acknowledged r a g n after).0 ≡ (Store.claim r a g n (forget after)).0)
      × (Option.map (λ (row : HostedRow). row.base) (get r after) ≡ Store.get r (forget after))
      × (count_stale_pending n after ≡ Store.count_stale_pending n (forget after))
unfolding claim write Store.claim get Store.get count_stale_pending Store.count_stale_pending forget
hosted_answers r a g n after = (
  ground (arith, lookup-base_rows r after.rows),
  ground (arith, lookup-base_rows r after.rows),
  stale_in-base_rows after.pending_ttl_seconds n after.rows,
)

-- The hosted store stands in for the SQLite store: after any calls, those that the connection lost
-- and those on receipts and anchors included, the claim columns are the SQLite store after the
-- claims, settlements and sweeps that reached the database, and the next claim, `get` and count of
-- stale claims answer alike.
pub hosted_refines_store :
    (cs : List HostedOp) (r a : String) (g : Option String) (n : ℕ) (store : HostedStore)
    → let after = run_calls cs store in
      let sqlite = Lifecycle.run (claims_of cs) (forget store) in
      (forget after ≡ sqlite)
      × ((claim acknowledged r a g n after).0 ≡ (Store.claim r a g n sqlite).0)
      × (Option.map (λ (row : HostedRow). row.base) (get r after) ≡ Store.get r sqlite)
      × (count_stale_pending n after ≡ Store.count_stale_pending n sqlite)
hosted_refines_store cs r a g n store =
    let (claims, gets, counts) = hosted_answers r a g n (run_calls cs store) in
    rw (← forget-run_calls cs store) (refl, claims, gets, counts)

-- Whether the call is a claim of `j` that returns `True`.
pub grants_call : String → HostedOp → HostedStore → ℕ
unfolding claim
grants_call j (claim_call d r a g n) store =
    if str_eq r j then (if (claim d r a g n store).0 then 1 else 0) else 0
grants_call j c store = 0

pub grants : String → List HostedOp → HostedStore → ℕ
grants j [] store = 0
grants j (c ∷ cs) store = grants_call j c store + grants j cs (apply_call c store)

abbrev pub has_hosted_row : String → HostedStore → Bool
has_hosted_row j store = is_some (lookup j store.rows)

abbrev wins_reached : String → Option Op → ExecutionStore → ℕ
wins_reached j none store = 0
wins_reached j (some op) store = Lifecycle.wins_op j op store

grants_call-le :
    (j : String) (c : HostedOp) (store : HostedStore)
    → grants_call j c store ≤ wins_reached j (reached c) (forget store)
unfolding grants_call reached claim write Lifecycle.wins_op Store.claim forget
grants_call-le j (claim_call acknowledged r a g n) store =
    ground (arith, lookup-base_rows r store.rows)
grants_call-le j (claim_call no_connection r a g n) store =
    ground (arith, Option-cases (lookup r store.rows))
grants_call-le j (claim_call unacknowledged r a g n) store =
    ground (arith, Option-cases (lookup r store.rows))
grants_call-le j c store = omega arith

wins-cons_op :
    (j : String) (o : Option Op) (ops : List Op) (store : ExecutionStore)
    → Lifecycle.wins j (cons_op o ops) store
      ≡ wins_reached j o store + Lifecycle.wins j ops (apply_reached o store)
unfolding Lifecycle.wins
wins-cons_op j none ops store = omega arith
wins-cons_op j (some op) ops store = refl

grants-le :
    (j : String) (cs : List HostedOp) (store : HostedStore)
    → grants j cs store ≤ Lifecycle.wins j (claims_of cs) (forget store)
unfolding grants claims_of Lifecycle.wins
grants-le j [] store = omega arith
grants-le j (c ∷ cs) store =
    let rest : grants j cs (apply_call c store)
        ≤ Lifecycle.wins j (claims_of cs) (apply_reached (reached c) (forget store)) =
      rw (← forget-apply_call c store) (grants-le j cs (apply_call c store)) in
    omega (
      arith,
      grants_call-le j c store,
      rest,
      wins-cons_op j (reached c) (claims_of cs) (forget store),
    )

-- Whatever calls a client of the hosted store makes, and however its connections break, also between
-- a commit and its answer: an id is granted at most once, and never when it had a row from the start.
pub hosted_claim_granted_once :
    (j : String) (cs : List HostedOp) (store : HostedStore)
    → grants j cs store ≤ (if has_hosted_row j store then 0 else 1)
unfolding forget
hosted_claim_granted_once j cs store = ground (
  arith,
  grants-le j cs store,
  lookup-base_rows j store.rows,
  Lifecycle.claim_granted_once j (claims_of cs) (forget store),
)
