-- ===== src/Execution/Hosted.antt =====
-- safeagent_exec_guard/pg_store.py: `PgExecutionStore`, the store of the hosted service. A row has
-- the columns of the SQLite store and those of the governance receipt; the clock is an argument,
-- and so is how the connection behaves. Texts have no NUL, which PostgreSQL cannot hold.
pub mod Lifecycle
pub mod Receipts
pub mod Waiting
pub mod Audit
use safe_agent.Prelude.{
  ℕ, ◌+◌, ◌&&◌, String, Bool, true, false, Option, none, some, List, [], ◌∷◌, if◌then◌else◌, not,
  ◌||◌, leb, is_some, take, str_eq,
}
use safe_agent.Prelude.Action.{ok, err, is_ok, Action}
use safe_agent.Prelude.Dict.{Dict, lookup, insert, update}
use safe_agent.Prelude.Json.{Fields, serializable_fields}
use safe_agent.Prelude.Lists.{filter_by}
use safe_agent.Execution.Store.{Row, pending_row, commit_row, is_stale}

-- The `gov_` columns.
pub record Governance : Type 0 where
  pub envelope_hash : Option String
  pub canonical_bytes : Option String
  pub signature : Option String
  pub verifier_pubkey : Option String
  pub ots_proof_hex : Option String
  pub ots_confirmed : Option Bool
  pub ots_block_time : Option String
  pub mycelium_trail_id : Option String
  pub mycelium_block_time : Option ℕ
  pub mycelium_tx_hash : Option String
  pub mycelium_precedence : Option Bool

pub record HostedRow : Type 0 where
  pub base : Row
  pub gov : Governance

pub record HostedStore : Type 0 where
  pub rows : Dict HostedRow
  pub pending_ttl_seconds : ℕ

-- How a write meets the database: it is acknowledged; there is no connection; or it is committed and
-- the connection breaks before the answer.
pub data Delivery : Type 0 where
  acknowledged no_connection unacknowledged : Delivery

pub data HostedError : Type 0 where
  not_serializable operational_error : HostedError

-- A statement that changes the rows by `f`, and its commit.
unfoldable pub write :
    Delivery → (Dict HostedRow → Dict HostedRow) → Action HostedStore HostedError (Unit {0})
write acknowledged f store = (ok tt, record store { rows = f store.rows })
write no_connection f store = (err operational_error, store)
write unacknowledged f store = (err operational_error, record store { rows = f store.rows })

-- The columns that an INSERT does not name: the defaults of the table.
abbrev pub no_governance : Governance
no_governance = record {
  envelope_hash = none;
  canonical_bytes = none;
  signature = none;
  verifier_pubkey = none;
  ots_proof_hex = none;
  ots_confirmed = some false;
  ots_block_time = none;
  mycelium_trail_id = none;
  mycelium_block_time = none;
  mycelium_tx_hash = none;
  mycelium_precedence = some false;
}

abbrev pub hosted_row : String → Option String → ℕ → HostedRow
hosted_row action agent_id now = record {
  base = pending_row action agent_id now;
  gov = no_governance;
}

-- Any exception is caught: of the primary key, or of the connection.
unfoldable pub claim :
    Delivery
    → (request_id action : String) (agent_id : Option String) (now : ℕ) → HostedStore
    → Bool × HostedStore
unfolding write
claim delivery request_id action agent_id now store = elim (lookup request_id store.rows) [
  | some row ↦ (false, store)
  | none ↦
      let (answer, next) =
        write delivery (insert request_id (hosted_row action agent_id now)) store in
      (is_ok answer, next)
]

abbrev pub on_base : (Row → Row) → HostedRow → HostedRow
on_base f row = record row { base = f row.base }

abbrev pub on_gov : (Governance → Governance) → HostedRow → HostedRow
on_gov f row = record row { gov = f row.gov }

-- The connection comes first, then `json.dumps`.
unfoldable pub settle :
    Delivery
    → (request_id : String) (result : Fields) (now : ℕ) → Action HostedStore HostedError (Unit {0})
unfolding write
settle no_connection request_id result now store = (err operational_error, store)
settle delivery request_id result now store =
    if serializable_fields result
    then write delivery (update request_id (on_base (commit_row result now))) store
    else (err not_serializable, store)

unfoldable pub get : String → HostedStore → Option HostedRow
get request_id store = lookup request_id store.rows

unfoldable pub stale_in : (ttl now : ℕ) → Dict HostedRow → ℕ
stale_in ttl now [] = 0
stale_in ttl now ((_, row) ∷ rows) =
    (if is_stale ttl now row.base then 1 else 0) + stale_in ttl now rows

unfoldable pub count_stale_pending : (now : ℕ) → HostedStore → ℕ
unfolding stale_in
count_stale_pending now store = stale_in store.pending_ttl_seconds now store.rows

-- Kept for older callers: it modifies no row.
unfoldable pub sweep_stale_pending : HostedStore → ℕ × HostedStore
sweep_stale_pending store = (0, store)
