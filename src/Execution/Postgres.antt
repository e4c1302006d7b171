-- ===== src/Execution/Postgres.antt =====
-- safeagent_exec_guard/postgres_store.py: the three calls that the registry makes of
-- `PostgresExecutionStore`. The columns that no call here reads are left out.
use safe_agent.Prelude.{String, Bool, true, false, Option, none, some, if◌then◌else◌}
use safe_agent.Prelude.Action.{ok, err, Action}
use safe_agent.Prelude.Dict.{Dict, lookup, insert, update}
use safe_agent.Prelude.Json.{Fields, serializable_fields}
use safe_agent.Execution.Store.{Raised, not_serializable}

pub data PgStatus : Type 0 where
  pending completed : PgStatus

pub record PgRow : Type 0 where
  pub action : String
  pub status : PgStatus
  pub result : Option Fields

pub record PgStore : Type 0 where
  pub rows : Dict PgRow

unfoldable pub get : String → PgStore → Option PgRow
get request_id pg = lookup request_id pg.rows

unfoldable pub insert_if_not_exists : (request_id action : String) → PgStore → Bool × PgStore
insert_if_not_exists request_id action pg = elim (lookup request_id pg.rows) [
  | some row ↦ (false, pg)
  | none ↦ (
    true,
    record pg {
      rows =
          insert request_id (record { action = action; status = pending; result = none }) pg.rows;
    },
  )
]

abbrev pub complete_row : Fields → PgRow → PgRow
complete_row result row = record row { status = completed; result = some result }

unfoldable pub complete : (request_id : String) (result : Fields) → Action PgStore Raised (Unit {0})
complete request_id result pg =
    if serializable_fields result
    then (ok tt, record pg { rows = update request_id (complete_row result) pg.rows })
    else (err not_serializable, pg)
