-- ===== src/Tests/Execution.antt =====
-- The execution guard: a refund that is asked for more than once.
use mathlib.Core.List.{Perm}
use Prim.Native.Nat.{min}
use mathlib.Core.Logic.{◌↔◌}
use safe_agent.Prelude.{
  ◌-◌, ◌++◌, ◌≤◌, ◌≡◌, refl, true, false, Option, none, some, List, [], ◌∷◌, length,
}
use safe_agent.Prelude.Action.{ok, err, is_ok}
use safe_agent.Prelude.Dict.{lookup}
use safe_agent.Prelude.Text.{is_blank}
use safe_agent.Prelude.Lists.{filter_by, IsDesc}
use safe_agent.Prelude.Json.{null, bool, int, str, other, end, field, serializable_fields}
use safe_agent.Settlement.Models.{settled, final}
use safe_agent.Settlement.Lifecycle.{new_case}
use safe_agent.Execution.Store.{
  committed, Row, ExecutionStore, not_serializable, claim, settle, get, pending_row,
}
use safe_agent.Execution.Store.Lifecycle.{
  Op, claim_op, settle_op, sweep_op, run, wins, view, take_claim, end_claim, is_claimable,
  store_refines_lifecycle, claim_granted_once, committed_row_permanent,
}
use safe_agent.Execution.Store.Audit.{
  Entry, Meets, Filters, matches, claimed_at_of, audit_claims, audit_page,
}
use safe_agent.Execution.Postgres.{PgStore}
use safe_agent.Execution.Receipt.{
  returned, raised, ended, interrupted, unary, Call, run_receipt, invoke_execute_fn, refusal,
}
use safe_agent.Execution.Registry.{Registry, replay, execute}
use safe_agent.Execution.Registry.AtMostOnce.{runs, execute_all, execute_at_most_once}
use safe_agent.Execution.Registry.Replay.{
  repeat_answer, sqlite_row, replay_returns_first_receipt, pending_stays_blocked,
  unwritable_payload_blocks,
}
use safe_agent.Execution.Registry.PostgresReplay.{postgres_replay_forgets}
use safe_agent.Execution.Submit.{Desk}
use safe_agent.Execution.Submit.Once.{
  Submission, granted, submit_one, submit_all, AllGranted, submit_settles_once,
}
use safe_agent.Execution.Workers.{Shared, Event, arrive, step_at, crash_at, run_schedule}
use safe_agent.Execution.Workers.Interleaving.{interleaved_at_most_once}

abbrev refund : Call
refund = record {
  request_id = "r1";
  action = "refund";
  payload = some (field "amount" (int 5) end);
  execute_fn = unary (λ payload. ended returned);
  fresh_id = "e1";
  claim_time = 10;
  settle_time = 11;
  stamp = "10:00";
}

abbrev failing : Call
failing = record refund {
  execute_fn = unary (λ payload. ended (raised "Timeout"));
  fresh_id = "e2";
}

-- The process is asked to stop while the action runs.
abbrev stopped : Call
stopped = record refund { execute_fn = unary (λ payload. interrupted) }

abbrev unwritable : Call
unwritable = record refund { payload = some (field "amount" (other false 1) end) }

abbrev empty_store : ExecutionStore
empty_store = record { rows = []; pending_ttl_seconds = 300 }

abbrev committed_row : Row
committed_row = record {
  action = "refund";
  status = committed;
  agent_id = none;
  result = some end;
  claimed_at = 3;
  committed_at = some 4;
}

abbrev held_row : Row
held_row = pending_row "refund" none 2

abbrev store : ExecutionStore
store = record empty_store { rows = ("r0", committed_row) ∷ ("r9", held_row) ∷ [] }

abbrev registry : Option ExecutionStore → Option PgStore → Registry
registry sqlite pg = record {
  settlement_requests = [];
  settlement_created_at = [];
  exec_receipts = [];
  exec_created_at = [];
  sqlite = sqlite;
  pg = pg;
  invoked = [];
}

abbrev on_sqlite : Registry
on_sqlite = registry (some store) none

abbrev ops : List Op
ops =
    claim_op "r1" "refund" none 10
    ∷ settle_op "r0" (field "ok" (bool true) end) 11
    ∷ sweep_op
    ∷ claim_op "r1" "refund" none 900
    ∷ []

abbrev no_filters : Filters
no_filters = record {
  agent_id = none;
  action = some "refund";
  status = none;
  from_ts = none;
  to_ts = none;
  request_id_prefix = none;
}

-- Two workers that both find no row, with one crash.
abbrev events : List Event
events =
    arrive refund
    ∷ arrive refund
    ∷ step_at 0
    ∷ step_at 1
    ∷ step_at 1
    ∷ step_at 0
    ∷ step_at 1
    ∷ step_at 0
    ∷ step_at 0
    ∷ step_at 1
    ∷ crash_at 1
    ∷ step_at 0
    ∷ []

abbrev shared : Shared
shared = record { store = store; locked = false; invoked = [] }

interleaved_at_most_once_example :
    runs "r1" (run_schedule events (record { workers = []; shared = shared })).shared.invoked ≤ 1
unfolding lookup runs
interleaved_at_most_once_example = interleaved_at_most_once "r1" events shared refl

execute_at_most_once_example :
    runs "r1" (execute_all (failing ∷ stopped ∷ refund ∷ unwritable ∷ []) on_sqlite).invoked ≤ 1
unfolding lookup runs
execute_at_most_once_example =
    execute_at_most_once "r1" (failing ∷ stopped ∷ refund ∷ unwritable ∷ []) on_sqlite refl

store_refines_lifecycle_example :
    ((claim "r1" "refund" none 10 store).0 ≡ is_claimable (view "r1" store))
    × (view "r1" (claim "r1" "refund" none 10 store).1 ≡ take_claim (view "r1" store))
    × (is_ok (settle "r1" end 10 store).0 ≡ true)
    × (view "r1" (settle "r1" end 10 store).1 ≡ end_claim end (view "r1" store))
unfolding serializable_fields
store_refines_lifecycle_example = store_refines_lifecycle "r1" "refund" "r1" none 10 end store

claim_granted_once_example : wins "r1" ops store ≤ 1
unfolding lookup
claim_granted_once_example = claim_granted_once "r1" ops store

committed_row_permanent_example : get "r0" (run ops store) ≡ some committed_row
unfolding get lookup
committed_row_permanent_example = committed_row_permanent "r0" ops store committed_row refl refl

audit_page_example :
    let page = audit_claims no_filters 1 1 store in
    let n = length (filter_by (matches no_filters) store.rows) in
    ((e : Entry) → (matches no_filters e ≡ true) ↔ Meets no_filters e)
    × ((before : List Entry) × (after : List Entry) × Perm
          (before ++ (page.items ++ after))
          (filter_by (matches no_filters) store.rows)
        × IsDesc claimed_at_of (before ++ (page.items ++ after))
        × (length before ≡ min 1 n))
    × (length page.items ≡ min (min 1 1000) (n - 1))
    × (page.total ≡ n)
audit_page_example = audit_page no_filters 1 1 store

replay_returns_first_receipt_example :
    let r = execute_all (refund ∷ []) (execute failing on_sqlite).1 in
    ((execute failing on_sqlite).0 ≡ ok (run_receipt (raised "Timeout") failing))
    × (execute refund r ≡ (ok (repeat_answer (raised "Timeout") failing refund), r))
unfolding lookup serializable_fields is_blank invoke_execute_fn
replay_returns_first_receipt_example =
    replay_returns_first_receipt (raised "Timeout") failing refund (refund ∷ []) on_sqlite store
      refl refl (λ e. cc) refl refl refl refl

pending_stays_blocked_example :
    let call = record refund { request_id = "r9" } in
    let r = execute_all (call ∷ failing ∷ []) on_sqlite in
    (runs "r9" r.invoked ≤ runs "r9" [])
    × (sqlite_row "r9" r ≡ some held_row)
    × (execute call r ≡ (ok (refusal "claim_pending" call), r))
unfolding lookup is_blank
pending_stays_blocked_example =
    pending_stays_blocked (record refund { request_id = "r9" })
      (record refund { request_id = "r9" } ∷ failing ∷ []) on_sqlite held_row refl refl refl

unwritable_payload_blocks_example :
    ((execute unwritable on_sqlite).0 ≡ err not_serializable)
    × ((execute unwritable on_sqlite).1.invoked ≡ "r1" ∷ [])
    × (sqlite_row "r1" (execute unwritable on_sqlite).1 ≡ some (pending_row "refund" none 10))
unfolding lookup serializable_fields is_blank invoke_execute_fn
unwritable_payload_blocks_example =
    unwritable_payload_blocks returned unwritable on_sqlite store refl refl refl refl refl

postgres_replay_forgets_example :
    let r = registry none (some (record { rows = [] })) in
    let r' = (execute failing r).1 in
    ((execute failing r).0 ≡ ok (run_receipt (raised "Timeout") failing))
    × (execute refund r' ≡ (ok (replay (bool true) null (str "refund") refund), r'))
unfolding lookup serializable_fields is_blank invoke_execute_fn
postgres_replay_forgets_example =
    postgres_replay_forgets (raised "Timeout") failing refund
      (registry none (some (record { rows = [] }))) (record { rows = [] }) refl refl refl (λ e. cc)
      refl refl refl refl

abbrev desk : Desk
desk = record {
  registry = on_sqlite;
  case = record (new_case "final") { state = final; final_outcome = some "red" };
}

abbrev first_submission : Submission
first_submission = record { request_id = "q1"; fresh_id = "s1"; now = 20 }

abbrev later_submissions : List Submission
later_submissions =
    record { request_id = "q1"; fresh_id = "s2"; now = 21 }
    ∷ record { request_id = "q2"; fresh_id = "s3"; now = 22 }
    ∷ []

submit_settles_once_example :
    (granted (submit_one first_submission desk).0 ≡ some "s1")
    × AllGranted "s1" later_submissions (submit_one first_submission desk).1
    × ((submit_all later_submissions (submit_one first_submission desk).1).case
        ≡ record desk.case { state = settled; settlement_id = some "s1"; settled_at = some 20 })
unfolding is_blank
submit_settles_once_example =
    submit_settles_once first_submission later_submissions desk refl refl refl refl (λ e. cc)
