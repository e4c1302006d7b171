-- ===== src/Execution/Registry.antt =====
-- settlement/settlement_requests.py: `SettlementRequestRegistry` and its `execute`, on each of its
-- three backends. `invoked` is the log of the runs of an `execute_fn`, the newest first.
pub mod Steps
pub mod AtMostOnce
pub mod Replay
pub mod PostgresReplay
use safe_agent.Prelude.{
  ℕ, String, Bool, true, false, Option, none, some, List, [], ◌∷◌, if◌then◌else◌,
}
use safe_agent.Prelude.Action.{Result, ok, err, Action, pure, raise, ◌>>=◌, ◌>>◌}
use safe_agent.Prelude.Dict.{Dict, lookup, insert}
use safe_agent.Prelude.Text.{is_blank}
use safe_agent.Prelude.Json.{
  Value, null, bool, str, obj, Fields, end, get_field, get_field_or, value_or,
}
use safe_agent.Execution.Store.{
  Status, is_pending, Row, ExecutionStore, Raised, not_serializable, interruption, claim, settle,
  get, sweep_stale_pending, count_stale_pending,
}
use safe_agent.Execution.Postgres
use safe_agent.Execution.Postgres.{PgStatus, PgRow, PgStore}
use safe_agent.Execution.Receipt.{
  SafeExecuteReceipt, to_dict, Outcome, Ending, ended, interrupted, returned, raised, ExecuteFn,
  invoke_execute_fn, Call, clean_payload, refusal, run_receipt,
}

pub record Registry : Type 0 where
  pub settlement_requests : Dict String
  pub settlement_created_at : Dict ℕ
  pub exec_receipts : Dict SafeExecuteReceipt
  pub exec_created_at : Dict ℕ
  pub sqlite : Option ExecutionStore
  pub pg : Option PgStore
  pub invoked : List String

abbrev pub replay : Value → Value → Value → Call → SafeExecuteReceipt
replay was_ok execution_id action call = record (refusal "dedup_same_request_id" call) {
  ok = was_ok;
  execution_id = execution_id;
  action = action;
}

-- `existing.get("result") or {}`
abbrev stored_of : Option Fields → Fields
stored_of none = end
stored_of (some stored) = stored

-- The answer to an id that has a row: its stored receipt, or that the claim is unresolved.
unfoldable pub answer_row : Row → Call → SafeExecuteReceipt
answer_row row call =
    let stored = stored_of row.result in
    if is_pending row.status
    then refusal "claim_pending" call
    else replay (get_field_or "ok" (bool false) stored) (get_field_or "execution_id" null stored)
        (value_or (get_field_or "action" null stored) (str call.action)) call

abbrev pub answer_race : Option Row → Call → SafeExecuteReceipt
answer_race none call = refusal "claim_pending" call
answer_race (some row) call = answer_row row call

abbrev pub logged : Call → Registry → Registry
logged call r = record r { invoked = call.request_id ∷ r.invoked }

abbrev pub receipt_when :
    {A : Type 0} → Result Raised A → SafeExecuteReceipt → Result Raised SafeExecuteReceipt
receipt_when (ok _) receipt = ok receipt
receipt_when (err e) receipt = err e

-- The owner of a claim runs the action and settles; a result that cannot be written leaves the row,
-- and so does an interruption.
abbrev pub settle_run : Ending → Call → ExecutionStore → Action Registry Raised SafeExecuteReceipt
settle_run interrupted call store r =
    (err interruption, record (logged call r) { sqlite = some store })
settle_run (ended outcome) call store r =
    let receipt = run_receipt outcome call in
    let (settled, store') = settle call.request_id (to_dict receipt) call.settle_time store in
    (receipt_when settled receipt, record (logged call r) { sqlite = some store' })

unfoldable pub run_claimed : Call → ExecutionStore → Action Registry Raised SafeExecuteReceipt
unfolding run_receipt invoke_execute_fn to_dict
run_claimed call = settle_run (invoke_execute_fn call.execute_fn (clean_payload call.payload)) call

-- `_execute_sqlite`
unfoldable pub execute_sqlite : Call → ExecutionStore → Action Registry Raised SafeExecuteReceipt
unfolding answer_row run_claimed
execute_sqlite call store r = elim (get call.request_id store) [
  | some row ↦ pure (answer_row row call) r
  | none ↦
      let (won, store') = claim call.request_id call.action none call.claim_time store in
      if won
      then run_claimed call store' r
      else pure (answer_race (get call.request_id store') call) (record r { sqlite = some store' })
]

abbrev is_completed : PgStatus → Bool
is_completed PgStatus.pending = false
is_completed PgStatus.completed = true

-- The row has no column `execution_id`, so `existing.get("execution_id")` is `None`.
unfoldable pub answer_pg : PgRow → Call → SafeExecuteReceipt
answer_pg row call =
    replay (bool (is_completed row.status)) null (value_or (str row.action) (str call.action)) call

abbrev answer_pg_race : Option PgRow → Call → SafeExecuteReceipt
answer_pg_race none call = replay (bool false) null (str call.action) call
answer_pg_race (some row) call = answer_pg row call

-- The `except` of the Postgres path: a failure receipt is written over the row, and if that cannot
-- be written either, the exception goes on to the caller.
abbrev pub fail_pg : String → Call → PgStore → Action Registry Raised SafeExecuteReceipt
fail_pg type_name call pg r =
    let receipt = run_receipt (raised type_name) call in
    let (written, pg') = Postgres.complete call.request_id (to_dict receipt) pg in
    (receipt_when written receipt, record r { pg = some pg' })

abbrev pub after_pg_run : Ending → Call → PgStore → Action Registry Raised SafeExecuteReceipt
after_pg_run interrupted call pg r = (err interruption, record r { pg = some pg })
after_pg_run (ended (raised type_name)) call pg r = fail_pg type_name call pg r
after_pg_run (ended returned) call pg r =
    let receipt = run_receipt returned call in
    let (written, pg') = Postgres.complete call.request_id (to_dict receipt) pg in
    elim written [
      | ok _ ↦ (ok receipt, record r { pg = some pg' })
      | err e ↦ fail_pg "TypeError" call pg' r
    ]

unfoldable pub execute_pg : Call → PgStore → Action Registry Raised SafeExecuteReceipt
unfolding answer_pg run_receipt invoke_execute_fn to_dict
execute_pg call pg r = elim (Postgres.get call.request_id pg) [
  | some row ↦ pure (answer_pg row call) r
  | none ↦
      let (inserted, pg') = Postgres.insert_if_not_exists call.request_id call.action pg in
      if inserted
      then after_pg_run (invoke_execute_fn call.execute_fn (clean_payload call.payload)) call pg'
          (logged call r)
      else pure (answer_pg_race (Postgres.get call.request_id pg') call)
          (record r { pg = some pg' })
]

abbrev pub remember_run : Ending → Call → Action Registry Raised SafeExecuteReceipt
remember_run interrupted call r = (err interruption, logged call r)
remember_run (ended outcome) call r =
    let receipt = run_receipt outcome call in
    pure receipt (record (logged call r) {
      exec_receipts = insert call.request_id receipt r.exec_receipts;
      exec_created_at = insert call.request_id call.settle_time r.exec_created_at;
    })

-- A replay in memory repeats the first receipt, with its own reason and time.
unfoldable pub execute_memory : Call → Action Registry Raised SafeExecuteReceipt
unfolding run_receipt invoke_execute_fn
execute_memory call r = elim (lookup call.request_id r.exec_receipts) [
  | some first ↦
      pure (record first { reason = "dedup_same_request_id"; timestamp_utc = call.stamp }) r
  | none ↦ remember_run (invoke_execute_fn call.execute_fn (clean_payload call.payload)) call r
]

abbrev execute_unstored : Call → Option PgStore → Action Registry Raised SafeExecuteReceipt
execute_unstored call (some pg) = execute_pg call pg
execute_unstored call none = execute_memory call

abbrev execute_backed :
    Call → Option ExecutionStore → Option PgStore → Action Registry Raised SafeExecuteReceipt
execute_backed call (some store) pg = execute_sqlite call store
execute_backed call none pg = execute_unstored call pg

unfoldable pub execute : Call → Action Registry Raised SafeExecuteReceipt
execute call r =
    if is_blank call.request_id
    then pure (refusal "missing_request_id" call) r
    else execute_backed call r.sqlite r.pg r

abbrev on_sqlite : (ExecutionStore → ℕ) → Option ExecutionStore → ℕ
on_sqlite f none = 0
on_sqlite f (some store) = f store

unfoldable pub sweep_pending : Registry → ℕ
sweep_pending r = on_sqlite (λ store. (sweep_stale_pending store).0) r.sqlite

unfoldable pub stale_pending_count : (now : ℕ) → Registry → ℕ
stale_pending_count now r = on_sqlite (count_stale_pending now) r.sqlite
