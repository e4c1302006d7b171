-- ===== src/Execution/Store.antt =====
-- safeagent_exec_guard/sqlite_store.py: `SQLiteExecutionStore`. The table is a dict by its primary
-- key; a `result` column is the dict that `json.dumps` wrote; the clock is an argument.
pub mod Lifecycle
pub mod Audit
use safe_agent.Prelude.{
  ℕ, ◌+◌, String, Bool, true, false, Option, none, some, List, [], ◌∷◌, ◌&&◌, ltb, if◌then◌else◌,
}
use safe_agent.Prelude.Action.{Result, ok, err, Action}
use safe_agent.Prelude.Dict.{Dict, lookup, insert, update}
use safe_agent.Prelude.Json.{Fields, serializable_fields}

-- The CHECK of the column allows these two.
pub data Status : Type 0 where
  pending committed : Status

pub record Row : Type 0 where
  pub action : String
  pub status : Status
  pub agent_id : Option String
  pub result : Option Fields
  pub claimed_at : ℕ
  pub committed_at : Option ℕ

pub record ExecutionStore : Type 0 where
  pub rows : Dict Row
  pub pending_ttl_seconds : ℕ

-- What a call may raise: the `TypeError` of `json.dumps` on what it cannot write, and what the function
-- that the registry runs raises beyond `Exception`, as `KeyboardInterrupt` and `SystemExit`.
pub data Raised : Type 0 where
  not_serializable interruption : Raised

abbrev pub is_pending : Status → Bool
is_pending pending = true
is_pending committed = false

abbrev pub pending_row : String → Option String → ℕ → Row
pending_row action agent_id now = record {
  action = action;
  status = pending;
  agent_id = agent_id;
  result = none;
  claimed_at = now;
  committed_at = none;
}

unfoldable pub claim :
    (request_id action : String) (agent_id : Option String) (now : ℕ)
    → ExecutionStore
    → Bool × ExecutionStore
claim request_id action agent_id now store = elim (lookup request_id store.rows) [
  -- the primary key is taken: IntegrityError
  | some row ↦ (false, store)
  | none ↦
      (true, record store { rows = insert request_id (pending_row action agent_id now) store.rows })
]

-- The UPDATE of `settle` on the row with the id.
abbrev pub commit_row : Fields → ℕ → Row → Row
commit_row result now row =
    if is_pending row.status
    then record row { status = committed; result = some result; committed_at = some now }
    else row

unfoldable pub settle :
    (request_id : String) (result : Fields) (now : ℕ) → Action ExecutionStore Raised (Unit {0})
settle request_id result now store =
    if serializable_fields result
    then (ok tt, record store { rows = update request_id (commit_row result now) store.rows })
    else (err not_serializable, store)

unfoldable pub get : String → ExecutionStore → Option Row
get request_id store = lookup request_id store.rows

-- `claimed_at < now - pending_ttl_seconds`
abbrev pub is_stale : (ttl now : ℕ) → Row → Bool
is_stale ttl now row = is_pending row.status && ltb (row.claimed_at + ttl) now

unfoldable pub count_stale : (ttl now : ℕ) → Dict Row → ℕ
count_stale ttl now [] = 0
count_stale ttl now ((_, row) ∷ rows) =
    (if is_stale ttl now row then 1 else 0) + count_stale ttl now rows

unfoldable pub count_stale_pending : (now : ℕ) → ExecutionStore → ℕ
unfolding count_stale
count_stale_pending now store = count_stale store.pending_ttl_seconds now store.rows

-- Kept for older callers: it modifies no row.
unfoldable pub sweep_stale_pending : ExecutionStore → ℕ × ExecutionStore
sweep_stale_pending store = (0, store)
