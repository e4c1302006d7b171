-- ===== src/Execution/Registry/Steps.antt =====
-- The two cases of `execute` on a durable backend: an id with a row, and a new id.
use safe_agent.Prelude.{String, ◌≡◌, true, none, arith, if◌then◌else◌, str_eq, is_some}
use safe_agent.Prelude.Action.{Result}
use safe_agent.Prelude.Dict.{lookup, insert, lookup-insert}
use safe_agent.Execution.Store.{ExecutionStore, claim, get, pending_row, Raised}
use safe_agent.Execution.Postgres
use safe_agent.Execution.Registry.{
  after_pg_run, logged, Registry, execute_sqlite, execute_pg, run_claimed,
}
use safe_agent.Execution.Postgres.{PgStatus, PgStore, complete_row}
use safe_agent.Execution.Receipt.{
  clean_payload, Call, SafeExecuteReceipt, invoke_execute_fn, Ending,
}

unfoldable pub claimed : Call → ExecutionStore → ExecutionStore
claimed call store = record store {
  rows = insert call.request_id (pending_row call.action none call.claim_time) store.rows;
}

pub execute_sqlite-known :
    (call : Call) (store : ExecutionStore) (r : Registry)
    → is_some (lookup call.request_id store.rows) ≡ true
    → (execute_sqlite call store r).1 ≡ r
unfolding execute_sqlite get
execute_sqlite-known call store r h = ground arith

pub claim-new :
    (call : Call) (store : ExecutionStore)
    → lookup call.request_id store.rows ≡ none
    → claim call.request_id call.action none call.claim_time store ≡ (true, claimed call store)
unfolding claim claimed
claim-new call store h = ground arith

pub execute_sqlite-new :
    (call : Call) (store : ExecutionStore) (r : Registry)
    → lookup call.request_id store.rows ≡ none
    → execute_sqlite call store r ≡ run_claimed call (claimed call store) r
unfolding execute_sqlite get
execute_sqlite-new call store r h = rw (h, execute_sqlite, get) (rw (claim-new call store h))

pub claimed-known :
    (j : String) (call : Call) (store : ExecutionStore)
    → is_some (lookup j (claimed call store).rows)
      ≡ (if str_eq call.request_id j then true else is_some (lookup j store.rows))
unfolding claimed
claimed-known j call store = rw lookup-insert (ground arith)

unfoldable pub inserted : Call → PgStore → PgStore
inserted call pg = record pg {
  rows =
      insert call.request_id
        (record { action = call.action; status = PgStatus.pending; result = none }) pg.rows;
}

pub inserted-known :
    (j : String) (call : Call) (pg : PgStore)
    → is_some (lookup j (inserted call pg).rows)
      ≡ (if str_eq call.request_id j then true else is_some (lookup j pg.rows))
unfolding inserted
inserted-known j call pg = rw lookup-insert (ground arith)

pub insert-new :
    (call : Call) (pg : PgStore)
    → lookup call.request_id pg.rows ≡ none
    → Postgres.insert_if_not_exists call.request_id call.action pg ≡ (true, inserted call pg)
unfolding Postgres.insert_if_not_exists inserted
insert-new call pg h = ground arith

abbrev pub outcome_of : Call → Ending
outcome_of call = invoke_execute_fn call.execute_fn (clean_payload call.payload)

abbrev pub run_pg : Call → PgStore → Registry → Result Raised SafeExecuteReceipt × Registry
run_pg call pg r = after_pg_run (outcome_of call) call pg (logged call r)

pub execute_pg-known :
    (call : Call) (pg : PgStore) (r : Registry)
    → is_some (lookup call.request_id pg.rows) ≡ true
    → (execute_pg call pg r).1 ≡ r
unfolding execute_pg Postgres.get
execute_pg-known call pg r h = ground arith

pub execute_pg-new :
    (call : Call) (pg : PgStore) (r : Registry)
    → lookup call.request_id pg.rows ≡ none
    → execute_pg call pg r ≡ run_pg call (inserted call pg) r
unfolding execute_pg Postgres.get
execute_pg-new call pg r h = rw (h, execute_pg, Postgres.get) (rw (insert-new call pg h))
