-- ===== src/Execution/Workers.antt =====
-- `_execute_sqlite` of settlement/settlement_requests.py run by several workers, each with its own
-- `SQLiteExecutionStore` on one database file, as processes have. Each SQL statement, COMMIT and
-- ROLLBACK is a step of its own. A connection that has begun a write holds the write lock of the
-- file until it commits or rolls back, others wait for it, and they see what is committed. A worker
-- may stop for good between any two steps, also because a wait for the lock timed out.
pub mod Interleaving
use safe_agent.Prelude.{
  ℕ, zero, suc, String, Bool, true, false, Option, none, some, List, [], ◌∷◌, if◌then◌else◌,
}
use safe_agent.Prelude.Action.{Result, ok, err}
use safe_agent.Prelude.Json.{serializable_fields}
use safe_agent.Execution.Store.{
  ExecutionStore, Raised, not_serializable, interruption, claim, settle, get,
}
use safe_agent.Execution.Receipt.{
  SafeExecuteReceipt, to_dict, Ending, ended, interrupted, invoke_execute_fn, Call, clean_payload,
  run_receipt,
}
use safe_agent.Execution.Registry.{answer_row, answer_race}

-- Where a worker stands: before its first SELECT; after a SELECT that found no row; after its INSERT,
-- which is not committed; after an INSERT that the primary key refused, before the ROLLBACK; after
-- that; as the owner of the claim; after the action ran; after its UPDATE, which is not committed;
-- with an answer; or stopped.
pub data Phase : Type 0 where
  start checked inserted refused lost owner crashed : Phase
  ran updated : SafeExecuteReceipt → Phase
  answered : Result Raised SafeExecuteReceipt → Phase

pub record Worker : Type 0 where
  pub call : Call
  pub phase : Phase

-- What is committed, whether a connection holds the write lock, and the log of the runs.
pub record Shared : Type 0 where
  pub store : ExecutionStore
  pub locked : Bool
  pub invoked : List String

-- The connection of a worker in this phase is in a write transaction.
abbrev pub is_writing : Phase → Bool
is_writing inserted = true
is_writing refused = true
is_writing (updated receipt) = true
is_writing phase = false

abbrev pub after_action : Ending → Call → Phase
after_action interrupted call = answered (err interruption)
after_action (ended outcome) call = ran (run_receipt outcome call)

-- The next step of a worker on what all share.
unfoldable pub advance : Call → Phase → Shared → Phase × Shared
unfolding run_receipt invoke_execute_fn to_dict answer_row
advance call start s = elim (get call.request_id s.store) [
  | some row ↦ (answered (ok (answer_row row call)), s)
  | none ↦ (checked, s)
]
advance call checked s = if s.locked then (checked, s) else (
  (if (claim call.request_id call.action none call.claim_time s.store).0
      then inserted
      else refused),
  record s { locked = true },
)
advance call inserted s = (
  owner,
  record s {
    store = (claim call.request_id call.action none call.claim_time s.store).1;
    locked = false;
  },
)
advance call refused s = (lost, record s { locked = false })
advance call lost s = (answered (ok (answer_race (get call.request_id s.store) call)), s)
advance call owner s = (
  after_action (invoke_execute_fn call.execute_fn (clean_payload call.payload)) call,
  record s { invoked = call.request_id ∷ s.invoked },
)
advance call (ran receipt) s =
    if serializable_fields (to_dict receipt)
    then (if s.locked then (ran receipt, s) else (updated receipt, record s { locked = true }))
    else (answered (err not_serializable), s)
advance call (updated receipt) s = (
  answered (ok receipt),
  record s {
    store = (settle call.request_id (to_dict receipt) call.settle_time s.store).1;
    locked = false;
  },
)
advance call (answered result) s = (answered result, s)
advance call crashed s = (crashed, s)

-- What happens next: a call comes in, the worker at a place takes its next step, or it stops; the
-- database rolls back what it had not committed.
pub data Event : Type 0 where
  arrive : Call → Event
  step_at : ℕ → Event
  crash_at : ℕ → Event

pub record System : Type 0 where
  pub workers : List Worker
  pub shared : Shared

abbrev pub crash : Phase → Shared → Phase × Shared
crash phase s = (crashed, if is_writing phase then record s { locked = false } else s)

-- A worker at a place moves; there may be none.
unfoldable pub move_worker :
    (Call → Phase → Shared → Phase × Shared) → ℕ → List Worker → Shared → System
move_worker move i [] s = record { workers = []; shared = s }
move_worker move zero (w ∷ ws) s =
    let (phase', s') = move w.call w.phase s in
    record { workers = record w { phase = phase' } ∷ ws; shared = s' }
move_worker move (suc i) (w ∷ ws) s =
    let rest = move_worker move i ws s in
    record { workers = w ∷ rest.workers; shared = rest.shared }

unfoldable pub happen : Event → System → System
happen (arrive call) sys = record sys {
  workers = record { call = call; phase = start } ∷ sys.workers;
}
happen (step_at i) sys = move_worker advance i sys.workers sys.shared
happen (crash_at i) sys = move_worker (λ call. crash) i sys.workers sys.shared

unfoldable pub run_schedule : List Event → System → System
run_schedule [] sys = sys
run_schedule (e ∷ es) sys = run_schedule es (happen e sys)
