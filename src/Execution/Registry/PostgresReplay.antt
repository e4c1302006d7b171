-- ===== src/Execution/Registry/PostgresReplay.antt =====
-- What a repeated call of `execute` returns on the Postgres backend.
use mathlib.Core.Path.{ap, subst}
use safe_agent.Prelude.{
  String, ◌≡◌, ◌≢◌, refl, ◌∙◌, sym, true, false, Option, none, some, arith, eq_iff,
}
use safe_agent.Prelude.Action.{ok}
use safe_agent.Prelude.Dict.{lookup, lookup-insert, lookup-update}
use safe_agent.Prelude.Text.{is_blank}
use safe_agent.Prelude.Json.{null, bool, str, serializable_fields}
use safe_agent.Execution.Postgres
use safe_agent.Execution.Postgres.{PgRow, PgStatus, PgStore, complete_row}
use safe_agent.Execution.Receipt.{
  Call, SafeExecuteReceipt, to_dict, run_receipt, Outcome, ended, returned, raised, clean_payload,
}
use safe_agent.Execution.Registry.{
  Registry, execute, execute_pg, answer_pg, replay, after_pg_run, logged,
}
use safe_agent.Execution.Registry.Steps.{execute_pg-new, inserted, outcome_of}
use safe_agent.Execution.Registry.Replay.{to_dict-serializable}

abbrev pg_row_in : String → Option PgStore → Option PgRow
pg_row_in j none = none
pg_row_in j (some pg) = lookup j pg.rows

abbrev finished_row : Call → SafeExecuteReceipt → PgRow
finished_row call receipt = record {
  action = call.action;
  status = PgStatus.completed;
  result = some (to_dict receipt);
}

-- A run that JSON can record returns its receipt and leaves a completed row, also when it failed.
after_pg_run-finishes :
    (outcome : Outcome) (call : Call) (pg : PgStore) (r : Registry)
    → serializable_fields (clean_payload call.payload) ≡ true
    → ((after_pg_run (ended outcome) call (inserted call pg) r).0 ≡ ok (run_receipt outcome call))
      × (pg_row_in call.request_id (after_pg_run (ended outcome) call (inserted call pg) r).1.pg
          ≡ some (finished_row call (run_receipt outcome call)))
      × ((after_pg_run (ended outcome) call (inserted call pg) r).1.sqlite ≡ r.sqlite)
unfolding Postgres.complete inserted
after_pg_run-finishes returned call pg r s = ground (
  arith,
  to_dict-serializable returned call,
  eq_iff call.request_id call.request_id,
  lookup-update call.request_id call.request_id (complete_row (to_dict (run_receipt returned call)))
      (inserted call pg).rows,
  lookup-insert call.request_id call.request_id
      (record { action = call.action; status = PgStatus.pending; result = none }) pg.rows,
)
after_pg_run-finishes (raised name) call pg r s = ground (
  arith,
  to_dict-serializable (raised name) call,
  eq_iff call.request_id call.request_id,
  lookup-update call.request_id call.request_id
      (complete_row (to_dict (run_receipt (raised name) call))) (inserted call pg).rows,
  lookup-insert call.request_id call.request_id
      (record { action = call.action; status = PgStatus.pending; result = none }) pg.rows,
)

execute-on_pg :
    (call : Call) (r : Registry) (pg : PgStore)
    → r.sqlite ≡ none
    → r.pg ≡ some pg
    → is_blank call.request_id ≡ false
    → execute call r ≡ execute_pg call pg r
unfolding execute
execute-on_pg call r pg e p b = rw (b, e) (rw p)

execute-on_pg_row :
    (call : Call) (r : Registry) (pg : Option PgStore) (row : PgRow)
    → r.sqlite ≡ none
    → r.pg ≡ pg
    → is_blank call.request_id ≡ false
    → pg_row_in call.request_id pg ≡ some row
    → execute call r ≡ (ok (answer_pg row call), r)
unfolding execute_pg Postgres.get
execute-on_pg_row call r none row e p b l = cc
execute-on_pg_row call r (some pg) row e p b l =
    rw (execute-on_pg call r pg e p b) (rw (l, execute_pg, Postgres.get))

-- On Postgres, for an id that is not blank and has no row, an action that is not empty and a payload
-- that JSON can hold, a second call does not return the first receipt: its `ok` is true and its
-- `execution_id` is `None` whether the first run returned or raised an `Exception`.
pub postgres_replay_forgets :
    (outcome : Outcome) (first later : Call) (r : Registry) (pg : PgStore)
    → r.sqlite ≡ none
    → r.pg ≡ some pg
    → is_blank first.request_id ≡ false
    → first.action ≢ ""
    → lookup first.request_id pg.rows ≡ none
    → serializable_fields (clean_payload first.payload) ≡ true
    → outcome_of first ≡ ended outcome
    → later.request_id ≡ first.request_id
    → let r' = (execute first r).1 in
      ((execute first r).0 ≡ ok (run_receipt outcome first))
      × (execute later r' ≡ (ok (replay (bool true) null (str first.action) later), r'))
unfolding answer_pg
postgres_replay_forgets outcome first later r pg e p b ne new s o same =
    let run =
      execute-on_pg first r pg e p b
      ∙ execute_pg-new first pg r new
      ∙ ap (λ e. after_pg_run e first (inserted first pg) (logged first r)) o in
    let f = after_pg_run-finishes outcome first pg (logged first r) s in
    rw run (
      f.0,
      execute-on_pg_row later
            (after_pg_run (ended outcome) first (inserted first pg) (logged first r)).1 _
            (finished_row first (run_receipt outcome first)) (f.2 ∙ e) refl (rw same b)
            (subst
              (λ i.
                pg_row_in i
                  (after_pg_run (ended outcome) first (inserted first pg) (logged first r)).1.pg
                ≡ some (finished_row first (run_receipt outcome first)))
              (sym same) f.1)
          ∙ ground (arith, eq_iff first.action ""),
    )
