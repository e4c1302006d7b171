-- ===== src/Execution/Registry/AtMostOnce.antt =====
-- An action runs at most once for each request id, on every backend.
use safe_agent.Prelude.{
  Option-cases, ℕ, ◌+◌, ◌≤◌, String, ◌≡◌, refl, Bool, true, Option, none, some, List, [], ◌∷◌,
  arith, if◌then◌else◌, false, not, ◌&&◌, ◌||◌, str_eq, eq_iff, is_some, inl, inr,
}
use safe_agent.Prelude.Dict.{lookup, lookup-insert, lookup-update}
use safe_agent.Prelude.Json.{Fields}
use safe_agent.Execution.Store.{ExecutionStore, settle, commit_row}
use safe_agent.Execution.Postgres
use safe_agent.Execution.Registry.Steps.{
  claimed, claimed-known, execute_sqlite-known, execute_sqlite-new, inserted, inserted-known,
  execute_pg-known, execute_pg-new, outcome_of,
}
use safe_agent.Execution.Registry.{
  after_pg_run, fail_pg, logged, Registry, execute, execute_sqlite, execute_pg, execute_memory,
  run_claimed, settle_run, remember_run,
}
use safe_agent.Execution.Postgres.{PgStatus, PgStore, complete_row}
use safe_agent.Execution.Receipt.{
  Call, to_dict, run_receipt, Ending, ended, interrupted, returned, raised,
}

-- The runs of the action of `j` in a log.
unfoldable pub runs : String → List String → ℕ
runs j [] = 0
runs j (i ∷ log) = (if str_eq i j then 1 else 0) + runs j log

abbrev known_unstored : String → Option PgStore → Registry → Bool
known_unstored j (some pg) r = is_some (lookup j pg.rows)
known_unstored j none r = is_some (lookup j r.exec_receipts)

abbrev known_backed : String → Option ExecutionStore → Option PgStore → Registry → Bool
known_backed j (some store) pg r = is_some (lookup j store.rows)
known_backed j none pg r = known_unstored j pg r

-- The backend in use has a row or a receipt for `j`.
abbrev pub is_known : String → Registry → Bool
is_known j r = known_backed j r.sqlite r.pg r

-- One of the two databases is there.
abbrev pub is_durable : Registry → Bool
is_durable r = is_some r.sqlite || is_some r.pg

abbrev is_interrupted : Ending → Bool
is_interrupted interrupted = true
is_interrupted (ended outcome) = false

-- The runs so far, and the one that is still to come if `j` is not known.
abbrev pub potential : String → Registry → ℕ
potential j r = runs j r.invoked + (if is_known j r then 0 else 1)

pub settle-known :
    (i j : String) (result : Fields) (now : ℕ) (store : ExecutionStore)
    → is_some (lookup j (settle i result now store).1.rows) ≡ is_some (lookup j store.rows)
unfolding settle
settle-known i j result now store =
    ground (arith, eq_iff i j, lookup-update i j (commit_row result now) store.rows)

complete-known :
    (i j : String) (result : Fields) (pg : PgStore)
    → is_some (lookup j (Postgres.complete i result pg).1.rows) ≡ is_some (lookup j pg.rows)
unfolding Postgres.complete
complete-known i j result pg =
    ground (arith, eq_iff i j, lookup-update i j (complete_row result) pg.rows)

settle_run-potential :
    (j : String) (ending : Ending) (call : Call) (store : ExecutionStore) (r : Registry)
    → is_some (lookup call.request_id store.rows) ≡ true
    → potential j (settle_run ending call store r).1
      ≤ (if str_eq call.request_id j then 1 else 0)
        + runs j r.invoked
        + (if is_some (lookup j store.rows) then 0 else 1)
unfolding runs
settle_run-potential j interrupted call store r h = ground (arith, eq_iff call.request_id j)
settle_run-potential j (ended outcome) call store r h = ground (
  arith,
  settle-known call.request_id j (to_dict (run_receipt outcome call)) call.settle_time store,
  eq_iff call.request_id j,
)

run_claimed-potential :
    (j : String) (call : Call) (store : ExecutionStore) (r : Registry)
    → is_some (lookup call.request_id store.rows) ≡ true
    → potential j (run_claimed call store r).1
      ≤ (if str_eq call.request_id j then 1 else 0)
        + runs j r.invoked
        + (if is_some (lookup j store.rows) then 0 else 1)
unfolding run_claimed
run_claimed-potential j call store r h = settle_run-potential j (outcome_of call) call store r h

sqlite-potential :
    (j : String) (call : Call) (store : ExecutionStore) (r : Registry)
    → r.sqlite ≡ some store
    → potential j (execute_sqlite call store r).1 ≤ potential j r
sqlite-potential j call store r e = elim (Option-cases (lookup call.request_id store.rows)) [
  | inl new ↦ rw (execute_sqlite-new call store r new) (
      ground (
        arith,
        claimed-known j call store,
        claimed-known call.request_id call store,
        eq_iff call.request_id j,
        eq_iff call.request_id call.request_id,
        run_claimed-potential j call (claimed call store) r,
      ))
  | inr (row, old) ↦ rw (execute_sqlite-known call store r (rw old)) (omega arith)
]

fail_pg-potential :
    (j : String) (type_name : String) (call : Call) (pg : PgStore) (r : Registry)
    → r.sqlite ≡ none
    → potential j (fail_pg type_name call pg r).1
      ≤ runs j r.invoked + (if is_some (lookup j pg.rows) then 0 else 1)
fail_pg-potential j type_name call pg r e =
    ground
      (arith, complete-known call.request_id j (to_dict (run_receipt (raised type_name) call)) pg)

after_pg_run-potential :
    (j : String) (ending : Ending) (call : Call) (pg : PgStore) (r : Registry)
    → r.sqlite ≡ none
    → potential j (after_pg_run ending call pg r).1
      ≤ runs j r.invoked + (if is_some (lookup j pg.rows) then 0 else 1)
after_pg_run-potential j interrupted call pg r e = ground (arith, e)
after_pg_run-potential j (ended (raised name)) call pg r e = fail_pg-potential j name call pg r e
after_pg_run-potential j (ended returned) call pg r e =
    let (written, pg') =
      Postgres.complete call.request_id (to_dict (run_receipt returned call)) pg in
    ground (
      arith,
      complete-known call.request_id j (to_dict (run_receipt returned call)) pg,
      fail_pg-potential j "TypeError" call pg' r e,
    )

pg-potential :
    (j : String) (call : Call) (pg : PgStore) (r : Registry)
    → r.sqlite ≡ none
    → r.pg ≡ some pg
    → potential j (execute_pg call pg r).1 ≤ potential j r
unfolding runs
pg-potential j call pg r e p = elim (Option-cases (lookup call.request_id pg.rows)) [
  | inl new ↦ rw (execute_pg-new call pg r new) (
      ground (
        arith,
        inserted-known j call pg,
        eq_iff call.request_id j,
        after_pg_run-potential j (outcome_of call) call (inserted call pg) (logged call r) e,
      ))
  | inr (row, old) ↦ rw (execute_pg-known call pg r (rw old)) (omega arith)
]

-- Whether a call is of another id than `j`, or its run is not interrupted.
abbrev pub is_contained : String → Call → Bool
is_contained j call = not (str_eq call.request_id j && is_interrupted (outcome_of call))

remember_run-potential :
    (j : String) (ending : Ending) (call : Call) (r : Registry)
    → r.sqlite ≡ none
    → r.pg ≡ none
    → lookup call.request_id r.exec_receipts ≡ none
    → not (str_eq call.request_id j && is_interrupted ending) ≡ true
    → potential j (remember_run ending call r).1 ≤ potential j r
unfolding runs
remember_run-potential j interrupted call r e p new c = ground (arith, eq_iff call.request_id j)
remember_run-potential j (ended outcome) call r e p new c = ground (
  arith,
  eq_iff call.request_id j,
  lookup-insert call.request_id j (run_receipt outcome call) r.exec_receipts,
)

memory-potential :
    (j : String) (call : Call) (r : Registry)
    → r.sqlite ≡ none
    → r.pg ≡ none
    → is_contained j call ≡ true
    → potential j (execute_memory call r).1 ≤ potential j r
unfolding execute_memory runs
memory-potential j call r e p c = elim (Option-cases (lookup call.request_id r.exec_receipts)) [
  | inl new ↦ ground (arith, new, remember_run-potential j (outcome_of call) call r e p new c)
  | inr (first, old) ↦ ground (arith, old)
]

execute-potential :
    (j : String) (call : Call) (r : Registry) (sqlite : Option ExecutionStore) (pg : Option PgStore)
    → r.sqlite ≡ sqlite
    → r.pg ≡ pg
    → is_durable r || is_contained j call ≡ true
    → potential j (execute call r).1 ≤ potential j r
unfolding execute
execute-potential j call r (some store) pg e p c = ground (arith, sqlite-potential j call store r e)
execute-potential j call r none (some pg) e p c = ground (arith, pg-potential j call pg r e p)
execute-potential j call r none none e p c =
    ground (arith, memory-potential j call r e p (ground (arith, c, e, p)))

settle_run-durable :
    (ending : Ending) (call : Call) (store : ExecutionStore) (r : Registry)
    → is_durable (settle_run ending call store r).1 ≡ true
settle_run-durable interrupted call store r = refl
settle_run-durable (ended outcome) call store r = refl

after_pg_run-durable :
    (ending : Ending) (call : Call) (pg : PgStore) (r : Registry)
    → is_durable (after_pg_run ending call pg r).1 ≡ true
after_pg_run-durable interrupted call pg r = ground arith
after_pg_run-durable (ended (raised name)) call pg r = ground arith
after_pg_run-durable (ended returned) call pg r = ground arith

sqlite-durable :
    (call : Call) (store : ExecutionStore) (r : Registry)
    → is_durable r ≡ true
    → is_durable (execute_sqlite call store r).1 ≡ true
unfolding run_claimed
sqlite-durable call store r d = elim (Option-cases (lookup call.request_id store.rows)) [
  | inl new ↦
      rw (execute_sqlite-new call store r new)
        (settle_run-durable (outcome_of call) call (claimed call store) r)
  | inr (row, old) ↦ rw (execute_sqlite-known call store r (rw old)) d
]

pg-durable :
    (call : Call) (pg : PgStore) (r : Registry)
    → is_durable r ≡ true
    → is_durable (execute_pg call pg r).1 ≡ true
pg-durable call pg r d = elim (Option-cases (lookup call.request_id pg.rows)) [
  | inl new ↦
      rw (execute_pg-new call pg r new)
        (after_pg_run-durable (outcome_of call) call (inserted call pg) (logged call r))
  | inr (row, old) ↦ rw (execute_pg-known call pg r (rw old)) d
]

execute-durable :
    (call : Call) (r : Registry) (sqlite : Option ExecutionStore) (pg : Option PgStore)
    → r.sqlite ≡ sqlite
    → r.pg ≡ pg
    → is_durable r ≡ true
    → is_durable (execute call r).1 ≡ true
unfolding execute
execute-durable call r (some store) pg e p d = ground (arith, sqlite-durable call store r d)
execute-durable call r none (some pg) e p d = ground (arith, pg-durable call pg r d)
execute-durable call r none none e p d = absurd (ground (arith, e, p, d))

-- Whether each call is of another id than `j`, or its run is not interrupted.
abbrev pub all_contained : String → List Call → Bool
all_contained j [] = true
all_contained j (call ∷ calls) = is_contained j call && all_contained j calls

-- A history of calls; what one of them raises goes to its own caller.
unfoldable pub execute_all : List Call → Registry → Registry
execute_all [] r = r
execute_all (call ∷ calls) r = execute_all calls (execute call r).1

execute_all-potential :
    (j : String) (calls : List Call) (r : Registry)
    → is_durable r || all_contained j calls ≡ true
    → potential j (execute_all calls r) ≤ potential j r
unfolding execute_all
execute_all-potential j [] r c = omega arith
execute_all-potential j (call ∷ calls) r c = omega (
  arith,
  execute-potential j call r r.sqlite r.pg refl refl (ground (arith, c)),
  execute_all-potential j calls (execute call r).1
      (ground (arith, c, execute-durable call r r.sqlite r.pg refl refl)),
)

-- On SQLite and on Postgres whatever the calls and their ends, and in memory for an id of which no
-- call's run is interrupted by what is no `Exception`: calls one after another run the action of a
-- request id at most once, and not at all when the backend knew the id from the start; exceptions
-- and results that JSON cannot hold are included.
pub execute_at_most_once :
    (j : String) (calls : List Call) (r : Registry)
    → is_durable r || all_contained j calls ≡ true
    → runs j (execute_all calls r).invoked ≤ runs j r.invoked + (if is_known j r then 0 else 1)
execute_at_most_once j calls r c = ground (arith, execute_all-potential j calls r c)
