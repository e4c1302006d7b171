-- ===== src/Execution/Store/Lifecycle.antt =====
-- The claim lifecycle CLAIMABLE -> PENDING -> COMMITTED that the store promises.
use native.Mathlib.Decide.{ℕ_discrete}
use safe_agent.Prelude.{
  is_some, Bool-cases, ◌||◌, ◌∙◌, ◌&&◌, ℕ, ◌+◌, ◌≤◌, String, ◌≡◌, ◌≢◌, refl, Bool, true, false,
  Option, none, some, List, [], ◌∷◌, arith, if◌then◌else◌, str_eq, eq_iff,
}
use safe_agent.Prelude.Action.{is_ok}
use safe_agent.Prelude.Dict.{lookup, lookup-insert, lookup-update}
use safe_agent.Prelude.Json.{Fields, serializable_fields}
use safe_agent.Execution.Store.{
  committed, Row, ExecutionStore, claim, settle, get, sweep_stale_pending, commit_row, pending_row,
  is_pending,
}

-- What a caller may rely on about one request id.
pub data Claim : Type 0 where
  claimable : Claim
  in_flight : Claim
  done : (result : Option Fields) → Claim

abbrev claim_of : Option Row → Claim
claim_of none = claimable
claim_of (some row) = if is_pending row.status then in_flight else done row.result

pub view : String → ExecutionStore → Claim
unfolding get
view request_id store = claim_of (get request_id store)

abbrev pub is_claimable : Claim → Bool
is_claimable claimable = true
is_claimable _ = false

-- The lifecycle on its own: a claim takes what is claimable, a settlement ends what is in flight.
abbrev pub take_claim : Claim → Claim
take_claim claimable = in_flight
take_claim c = c

abbrev pub end_claim : Fields → Claim → Claim
end_claim result in_flight = done (some result)
end_claim result c = c

-- The store implements the lifecycle: a claim succeeds exactly on a claimable id, each operation
-- moves the id that it names as the lifecycle says and no other, and a settlement with a result
-- that cannot be written raises and moves nothing.
pub store_refines_lifecycle :
    (request_id action j : String) (agent_id : Option String) (now : ℕ) (result : Fields)
    (store : ExecutionStore)
    → ((claim request_id action agent_id now store).0 ≡ is_claimable (view request_id store))
      × (view j (claim request_id action agent_id now store).1
          ≡ (if str_eq request_id j then take_claim (view j store) else view j store))
      × (is_ok (settle request_id result now store).0 ≡ serializable_fields result)
      × (view j (settle request_id result now store).1 ≡ (
          if str_eq request_id j && serializable_fields result
          then end_claim result (view j store)
          else view j store))
unfolding view claim settle
store_refines_lifecycle request_id action j agent_id now result store = ground (
  arith,
  eq_iff request_id j,
  lookup-insert request_id j (pending_row action agent_id now) store.rows,
  lookup-update request_id j (commit_row result now) store.rows,
)

-- One call on a store, with what it is given.
pub data Op : Type 0 where
  claim_op : (request_id action : String) (agent_id : Option String) (now : ℕ) → Op
  settle_op : (request_id : String) (result : Fields) (now : ℕ) → Op
  sweep_op : Op

unfoldable pub apply_op : Op → ExecutionStore → ExecutionStore
unfolding claim settle sweep_stale_pending
apply_op (claim_op request_id action agent_id now) store =
    (claim request_id action agent_id now store).1
apply_op (settle_op request_id result now) store = (settle request_id result now store).1
apply_op sweep_op store = (sweep_stale_pending store).1

-- Whether the call is a claim of `j` that returns `True`.
unfoldable pub wins_op : String → Op → ExecutionStore → ℕ
unfolding claim
wins_op j (claim_op request_id action agent_id now) store =
    if str_eq request_id j
    then (if (claim request_id action agent_id now store).0 then 1 else 0)
    else 0
wins_op j _ store = 0

-- The claims of `j` that a run of calls grants.
unfoldable pub wins : String → List Op → ExecutionStore → ℕ
wins j [] store = 0
wins j (op ∷ ops) store = wins_op j op store + wins j ops (apply_op op store)

unfoldable pub run : List Op → ExecutionStore → ExecutionStore
run [] store = store
run (op ∷ ops) store = run ops (apply_op op store)

abbrev pub has_row : String → ExecutionStore → Bool
has_row j store = is_some (lookup j store.rows)

apply_op-has_row :
    (j : String) (op : Op) (store : ExecutionStore)
    → has_row j store ≡ true
    → (has_row j (apply_op op store) ≡ true) × (wins_op j op store ≡ 0)
unfolding apply_op wins_op
apply_op-has_row j (claim_op r a g n) store h =
    ground (arith, eq_iff r j, lookup-insert r j (pending_row a g n) store.rows)
apply_op-has_row j (settle_op r f n) store h =
    ground (arith, eq_iff r j, lookup-update r j (commit_row f n) store.rows)
apply_op-has_row j sweep_op store h = ground arith

wins_op-has_row :
    (j : String) (op : Op) (store : ExecutionStore)
    → wins_op j op store ≢ 0
    → (has_row j (apply_op op store) ≡ true) × (wins_op j op store ≡ 1)
unfolding apply_op wins_op
wins_op-has_row j (claim_op r a g n) store h =
    ground (arith, eq_iff r j, lookup-insert r j (pending_row a g n) store.rows)
wins_op-has_row j (settle_op r f n) store h = absurd (h refl)
wins_op-has_row j sweep_op store h = absurd (h refl)

wins-has_row :
    (j : String) (ops : List Op) (store : ExecutionStore)
    → has_row j store ≡ true
    → wins j ops store ≡ 0
unfolding wins
wins-has_row j [] store h = refl
wins-has_row j (op ∷ ops) store h =
    let k = apply_op-has_row j op store h in
    omega (arith, k.1, wins-has_row j ops (apply_op op store) k.0)

wins-le : (j : String) (ops : List Op) (store : ExecutionStore) → wins j ops store ≤ 1
unfolding wins
wins-le j [] store = omega arith
wins-le j (op ∷ ops) store = elim (ℕ_discrete (wins_op j op store) 0) [
  | yes z ↦ omega (arith, wins-le j ops (apply_op op store))
  | no nz ↦
      let w = wins_op-has_row j op store nz in
      omega (arith, w.1, wins-has_row j ops (apply_op op store) w.0)
]

-- However claims, settlements and sweeps are interleaved, an id is granted at most once, and never
-- when it had a row from the start.
pub claim_granted_once :
    (j : String) (ops : List Op) (store : ExecutionStore)
    → wins j ops store ≤ (if has_row j store then 0 else 1)
claim_granted_once j ops store =
    ground (arith, Bool-cases (has_row j store), wins-le j ops store, wins-has_row j ops store)

apply_op-committed :
    (j : String) (op : Op) (store : ExecutionStore) (row : Row)
    → lookup j store.rows ≡ some row
    → row.status ≡ committed
    → lookup j (apply_op op store).rows ≡ some row
unfolding apply_op
apply_op-committed j (claim_op r a g n) store row h c =
    ground (arith, eq_iff r j, lookup-insert r j (pending_row a g n) store.rows)
apply_op-committed j (settle_op r f n) store row h c =
    ground (arith, eq_iff r j, lookup-update r j (commit_row f n) store.rows)
apply_op-committed j sweep_op store row h c = h

-- A committed row, its result and its time included, stays as it is under any later calls: the
-- first settlement wins.
pub committed_row_permanent :
    (j : String) (ops : List Op) (store : ExecutionStore) (row : Row)
    → get j store ≡ some row
    → row.status ≡ committed
    → get j (run ops store) ≡ some row
unfolding run get
committed_row_permanent j [] store row h c = h
committed_row_permanent j (op ∷ ops) store row h c =
    committed_row_permanent j ops (apply_op op store) row (apply_op-committed j op store row h c) c

abbrev pub is_settle : String → Op → Bool
is_settle j (settle_op request_id result now) = str_eq request_id j
is_settle j _ = false

abbrev pub any_settle : String → List Op → Bool
any_settle j [] = false
any_settle j (op ∷ ops) = is_settle j op || any_settle j ops

apply_op-in_flight :
    (j : String) (op : Op) (store : ExecutionStore)
    → has_row j store ≡ true
    → is_settle j op ≡ false
    → lookup j (apply_op op store).rows ≡ lookup j store.rows
unfolding apply_op
apply_op-in_flight j (claim_op r a g n) store h c =
    ground (arith, eq_iff r j, lookup-insert r j (pending_row a g n) store.rows)
apply_op-in_flight j (settle_op r f n) store h c =
    ground (arith, eq_iff r j, lookup-update r j (commit_row f n) store.rows)
apply_op-in_flight j sweep_op store h c = refl

-- Neither age nor a sweep frees a claim: without a settlement of its id a row stays as it is.
pub pending_row_stays :
    (j : String) (ops : List Op) (store : ExecutionStore)
    → has_row j store ≡ true
    → any_settle j ops ≡ false
    → get j (run ops store) ≡ get j store
unfolding run get
pending_row_stays j [] store h c = refl
pending_row_stays j (op ∷ ops) store h c =
    pending_row_stays j ops (apply_op op store) (apply_op-has_row j op store h).0 (ground arith)
    ∙ apply_op-in_flight j op store h (ground arith)
