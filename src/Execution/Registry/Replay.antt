-- ===== src/Execution/Registry/Replay.antt =====
-- What a repeated call of `execute` returns.
use mathlib.Core.Path.{subst}
use mathlib.Core.Option
use safe_agent.Prelude.{
  sym, ◌≤◌, ◌&&◌, String, ◌≡◌, ◌≢◌, refl, ◌∙◌, true, false, Option, none, some, List, [], ◌∷◌,
  arith, if◌then◌else◌, str_eq, eq_iff, inl, inr, Option-cases,
}
use safe_agent.Prelude.Action.{ok, err}
use safe_agent.Prelude.Dict.{lookup, lookup-insert, lookup-update}
use safe_agent.Prelude.Text.{is_blank}
use safe_agent.Prelude.Json.{str, serializable, serializable_fields, get_field}
use safe_agent.Execution.Store.{
  ExecutionStore, Row, pending, settle, get, pending_row, commit_row, not_serializable,
}
use safe_agent.Execution.Receipt.{
  Call, SafeExecuteReceipt, to_dict, run_receipt, Outcome, Ending, ended, interrupted, returned,
  raised, clean_payload, refusal,
}
use safe_agent.Execution.Registry.{
  Registry, execute, execute_sqlite, run_claimed, settle_run, answer_row, replay,
}
use safe_agent.Execution.Registry.AtMostOnce.{runs, execute_all, execute_at_most_once}
use safe_agent.Execution.Registry.Steps.{
  claimed, execute_sqlite-known, execute_sqlite-new, outcome_of,
}

pub to_dict-serializable :
    (outcome : Outcome) (call : Call)
    → serializable_fields (to_dict (run_receipt outcome call))
      ≡ serializable_fields (clean_payload call.payload)
unfolding to_dict run_receipt serializable
to_dict-serializable returned call = ground arith
to_dict-serializable (raised name) call = ground arith

-- The row of an id in the SQLite store, if there is one.
abbrev row_in : String → Option ExecutionStore → Option Row
row_in j none = none
row_in j (some store) = lookup j store.rows

abbrev pub sqlite_row : String → Registry → Option Row
sqlite_row j r = row_in j r.sqlite

run_claimed-other :
    (ending : Ending) (call : Call) (store : ExecutionStore) (r : Registry) (j : String)
    → str_eq call.request_id j ≡ false
    → sqlite_row j (settle_run ending call store r).1 ≡ lookup j store.rows
unfolding settle
run_claimed-other interrupted call store r j other = refl
run_claimed-other (ended outcome) call store r j other = ground (
  arith,
  other,
  lookup-update call.request_id j (commit_row (to_dict (run_receipt outcome call)) call.settle_time)
      store.rows,
)

run_claimed-row :
    (outcome : Outcome) (call : Call) (store : ExecutionStore) (r : Registry) (j : String)
    → outcome_of call ≡ ended outcome
    → sqlite_row j (run_claimed call store r).1 ≡ (
        if str_eq call.request_id j && serializable_fields (clean_payload call.payload)
        then Option.map
            (commit_row (to_dict (run_receipt outcome call)) call.settle_time)
            (lookup j store.rows)
        else lookup j store.rows)
unfolding run_claimed settle
run_claimed-row outcome call store r j o =
    rw (run_claimed, settle, o)
      (ground (
        arith,
        eq_iff call.request_id j,
        to_dict-serializable outcome call,
        lookup-update call.request_id j
            (commit_row (to_dict (run_receipt outcome call)) call.settle_time) store.rows,
      ))

sqlite-kept :
    (j : String) (call : Call) (r : Registry) (store : ExecutionStore) (row : Row)
    → r.sqlite ≡ some store
    → lookup j store.rows ≡ some row
    → sqlite_row j (execute_sqlite call store r).1 ≡ some row
unfolding claimed run_claimed
sqlite-kept j call r store row e l = elim (Option-cases (lookup call.request_id store.rows)) [
  | inl new ↦ rw (execute_sqlite-new call store r new) (
      ground (
        arith,
        eq_iff call.request_id j,
        run_claimed-other (outcome_of call) call (claimed call store) r j,
        lookup-insert call.request_id j (pending_row call.action none call.claim_time) store.rows,
      ))
  | inr (found, old) ↦ rw (execute_sqlite-known call store r (rw old)) (rw e l)
]

execute-kept :
    (j : String) (call : Call) (r : Registry) (sqlite : Option ExecutionStore) (row : Row)
    → r.sqlite ≡ sqlite
    → row_in j sqlite ≡ some row
    → sqlite_row j (execute call r).1 ≡ some row
unfolding execute
execute-kept j call r none row e l = cc
execute-kept j call r (some store) row e l = ground (arith, sqlite-kept j call r store row e l)

execute_all-kept :
    (j : String) (calls : List Call) (r : Registry) (row : Row)
    → sqlite_row j r ≡ some row
    → sqlite_row j (execute_all calls r) ≡ some row
unfolding execute_all
execute_all-kept j [] r row l = l
execute_all-kept j (call ∷ calls) r row l =
    execute_all-kept j calls (execute call r).1 row (execute-kept j call r r.sqlite row refl l)

-- The row that the first run of a call leaves behind.
abbrev settled_row : Outcome → Call → Row
settled_row outcome call =
    commit_row (to_dict (run_receipt outcome call)) call.settle_time
      (pending_row call.action none call.claim_time)

execute-on_sqlite :
    (call : Call) (r : Registry) (store : ExecutionStore)
    → r.sqlite ≡ some store
    → is_blank call.request_id ≡ false
    → execute call r ≡ execute_sqlite call store r
unfolding execute
execute-on_sqlite call r store e b = rw (b, e)

run_claimed-answer :
    (outcome : Outcome) (call : Call) (store : ExecutionStore) (r : Registry)
    → serializable_fields (clean_payload call.payload) ≡ true
    → outcome_of call ≡ ended outcome
    → (run_claimed call store r).0 ≡ ok (run_receipt outcome call)
unfolding run_claimed settle
run_claimed-answer outcome call store r s o =
    rw (run_claimed, settle, o) (ground (arith, to_dict-serializable outcome call))

execute-first :
    (outcome : Outcome) (call : Call) (r : Registry) (store : ExecutionStore)
    → r.sqlite ≡ some store
    → is_blank call.request_id ≡ false
    → lookup call.request_id store.rows ≡ none
    → serializable_fields (clean_payload call.payload) ≡ true
    → outcome_of call ≡ ended outcome
    → ((execute call r).0 ≡ ok (run_receipt outcome call))
      × (sqlite_row call.request_id (execute call r).1 ≡ some (settled_row outcome call))
unfolding execute claimed
execute-first outcome call r store e b new s o =
    rw (execute-on_sqlite call r store e b, execute_sqlite-new call store r new)
      (
        run_claimed-answer outcome call (claimed call store) r s o,
        run_claimed-row outcome call (claimed call store) r call.request_id o
            ∙ ground (
              arith,
              eq_iff call.request_id call.request_id,
              lookup-insert call.request_id call.request_id
                  (pending_row call.action none call.claim_time) store.rows,
            ),
      )

-- The answer that a settled first run gives to later calls of its id.
abbrev pub repeat_answer : Outcome → Call → Call → SafeExecuteReceipt
repeat_answer outcome first later =
    let receipt = run_receipt outcome first in
    replay receipt.ok receipt.execution_id (str first.action) later

answer_row-settled :
    (outcome : Outcome) (first later : Call)
    → first.action ≢ ""
    → answer_row (settled_row outcome first) later ≡ repeat_answer outcome first later
unfolding answer_row to_dict get_field run_receipt
answer_row-settled outcome first later ne = ground (arith, eq_iff first.action "")

execute-settled :
    (call : Call) (r : Registry) (sqlite : Option ExecutionStore) (row : Row)
    → r.sqlite ≡ sqlite
    → row_in call.request_id sqlite ≡ some row
    → is_blank call.request_id ≡ false
    → execute call r ≡ (ok (answer_row row call), r)
unfolding execute_sqlite get
execute-settled call r none row e l b = cc
execute-settled call r (some store) row e l b =
    rw (execute-on_sqlite call r store e b) (rw (l, execute_sqlite, get))

-- On SQLite, for an id that is not blank and has no row, an action that is not empty, a payload that
-- JSON can hold and a run that is not interrupted by what is no `Exception`: the first call of the id
-- returns the receipt of its run, success or failure; after any further calls a call with the same id returns that outcome,
-- execution id and action again, as a duplicate, and changes nothing.
pub replay_returns_first_receipt :
    (outcome : Outcome) (first later : Call) (between : List Call) (r : Registry)
    (store : ExecutionStore)
    → r.sqlite ≡ some store
    → is_blank first.request_id ≡ false
    → first.action ≢ ""
    → lookup first.request_id store.rows ≡ none
    → serializable_fields (clean_payload first.payload) ≡ true
    → outcome_of first ≡ ended outcome
    → later.request_id ≡ first.request_id
    → let r' = execute_all between (execute first r).1 in
      ((execute first r).0 ≡ ok (run_receipt outcome first))
      × (execute later r' ≡ (ok (repeat_answer outcome first later), r'))
replay_returns_first_receipt outcome first later between r store e b ne new s o same =
    let f = execute-first outcome first r store e b new s o in
    let r' = execute_all between (execute first r).1 in
    let kept =
      execute_all-kept first.request_id between (execute first r).1 (settled_row outcome first)
        f.1 in
    let again =
      execute-settled later r' r'.sqlite (settled_row outcome first) refl
        (subst (λ i. row_in i r'.sqlite ≡ some (settled_row outcome first)) (sym same) kept)
        (rw same b) in
    (f.0, rw again (rw (answer_row-settled outcome first later ne)))

held_id_not_run :
    (call : Call) (calls : List Call) (r : Registry) (sqlite : Option ExecutionStore) (row : Row)
    → r.sqlite ≡ sqlite
    → row_in call.request_id sqlite ≡ some row
    → runs call.request_id (execute_all calls r).invoked ≤ runs call.request_id r.invoked
held_id_not_run call calls r none row e l = cc
held_id_not_run call calls r (some store) row e l =
    ground (arith, e, l, execute_at_most_once call.request_id calls r (ground (arith, e)))

-- On SQLite an id that is not blank and whose claim is unresolved stays blocked: whatever calls of
-- it and of other ids follow, whatever their clocks say, its action is not run, its row stays, and a call of it is
-- answered as pending and changes nothing.
pub pending_stays_blocked :
    (call : Call) (calls : List Call) (r : Registry) (row : Row)
    → is_blank call.request_id ≡ false
    → sqlite_row call.request_id r ≡ some row
    → row.status ≡ pending
    → let r' = execute_all calls r in
      (runs call.request_id r'.invoked ≤ runs call.request_id r.invoked)
      × (sqlite_row call.request_id r' ≡ some row)
      × (execute call r' ≡ (ok (refusal "claim_pending" call), r'))
unfolding answer_row
pending_stays_blocked call calls r row b l p =
    let r' = execute_all calls r in
    let kept = execute_all-kept call.request_id calls r row l in
    (
      held_id_not_run call calls r r.sqlite row refl l,
      kept,
      execute-settled call r' r'.sqlite row refl kept b ∙ ground arith,
    )

-- On SQLite, for an id that is not blank and has no row: a run whose payload JSON cannot hold, and
-- which is not interrupted by what is no `Exception`, raises after the action has run, and leaves the
-- claim unresolved rather than free.
pub unwritable_payload_blocks :
    (outcome : Outcome) (call : Call) (r : Registry) (store : ExecutionStore)
    → r.sqlite ≡ some store
    → is_blank call.request_id ≡ false
    → lookup call.request_id store.rows ≡ none
    → serializable_fields (clean_payload call.payload) ≡ false
    → outcome_of call ≡ ended outcome
    → ((execute call r).0 ≡ err not_serializable)
      × ((execute call r).1.invoked ≡ call.request_id ∷ r.invoked)
      × (sqlite_row call.request_id (execute call r).1
          ≡ some (pending_row call.action none call.claim_time))
unfolding run_claimed settle claimed
unwritable_payload_blocks outcome call r store e b new s o =
    rw (execute-on_sqlite call r store e b, execute_sqlite-new call store r new)
      (ground (
        arith,
        to_dict-serializable outcome call,
        eq_iff call.request_id call.request_id,
        lookup-insert call.request_id call.request_id (pending_row call.action none call.claim_time)
            store.rows,
      ))
