-- ===== src/Boundary/Ledger.antt =====
-- `SQLitePermitStore` of safeagent_exec_guard/boundary.py: the permit rows and the event journal. A
-- raise inside a transaction rolls it back.
use safe_agent.Prelude.{
  ℕ, ◌+◌, String, Bool, true, false, not, Option, none, some, List, [], ◌∷◌, ◌++◌, ◌||◌, str_eq,
  leb, if◌then◌else◌,
}
use safe_agent.Prelude.Action.{ok, err, Action}
use safe_agent.Prelude.Dict.{Dict, lookup, insert, update}
use safe_agent.Prelude.Json.{Value, null}
use safe_agent.Boundary.Permit.{
  PermitClaims, Provider, Fault, permit_denied, boundary_error, value_error,
}

pub data Status : Type 0 where
  issued dispatched settled rejected pending_reconciliation : Status

pub record PermitRow : Type 0 where
  pub token_sha256 : String
  pub claims_json : String
  pub uses : ℕ
  pub status : Status
  pub dispatched_at : Option ℕ
  pub completed_at : Option ℕ
  pub result_json : Option String
  pub reason : Option String

pub data EventType : Type 0 where
  permit_consumed : EventType
  finalized : Status → EventType

pub record Event : Type 0 where
  pub permit_id : String
  pub event_type : EventType
  pub occurred_at : ℕ
  pub detail_json : String

pub record Ledger : Type 0 where
  pub permits : Dict PermitRow
  pub events : List Event

abbrev pub is_issued : Status → Bool
is_issued issued = true
is_issued _ = false

abbrev pub is_dispatched : Status → Bool
is_dispatched dispatched = true
is_dispatched _ = false

abbrev pub is_terminal : Status → Bool
is_terminal settled = true
is_terminal rejected = true
is_terminal pending_reconciliation = true
is_terminal _ = false

abbrev pub fresh_row : String → String → PermitRow
fresh_row token_hash claims_json = record {
  token_sha256 = token_hash;
  claims_json = claims_json;
  uses = 0;
  status = issued;
  dispatched_at = none;
  completed_at = none;
  result_json = none;
  reason = none;
}

abbrev pub dispatch_row : ℕ → PermitRow → PermitRow
dispatch_row now row = record row {
  uses = row.uses + 1;
  status = dispatched;
  dispatched_at = some now;
}

-- The UPDATE and the journal entry of a consumption, once the row has been checked.
abbrev spend : PermitClaims → ℕ → Dict PermitRow → Ledger → Ledger
spend claims now permits ledger = record {
  permits = update claims.permit_id (dispatch_row now) permits;
  events =
      ledger.events
      ++ record {
        permit_id = claims.permit_id;
        event_type = permit_consumed;
        occurred_at = now;
        detail_json = "{}";
      }
        ∷ [];
}

abbrev pub consume_row :
    PermitClaims → ℕ → PermitRow → Dict PermitRow → Action Ledger Fault (Unit {0})
consume_row claims now row permits ledger =
    if not (is_issued row.status) || leb claims.allowed_uses row.uses
    then (err (permit_denied "permit_already_consumed"), ledger)
    else (ok tt, spend claims now permits ledger)

-- `consume`, with the hash of the token and the canonical text of the claims.
unfoldable pub consume :
    (token_hash claims_json : String) → PermitClaims → (now : ℕ) → Action Ledger Fault (Unit {0})
consume token_hash claims_json claims now ledger = elim (lookup claims.permit_id ledger.permits) [
  | none ↦
      consume_row claims now (fresh_row token_hash claims_json)
        (insert claims.permit_id (fresh_row token_hash claims_json) ledger.permits) ledger
  | some row ↦
      if not (str_eq row.token_sha256 token_hash) || not (str_eq row.claims_json claims_json)
      then (err (permit_denied "permit_id_collision"), ledger)
      else consume_row claims now row ledger.permits ledger
]

abbrev pub close_row : Status → String → Option String → ℕ → PermitRow → PermitRow
close_row status reason result_json now row = record row {
  status = status;
  completed_at = some now;
  result_json = result_json;
  reason = some reason;
}

abbrev text_or_empty : Option String → String
text_or_empty none = "{}"
text_or_empty (some text) = text

abbrev pub finalize_row :
    String → Status → String → Option String → ℕ → Option PermitRow → Action Ledger Fault (Unit {0})
finalize_row permit_id status reason result_json now none ledger =
    (err (boundary_error "unknown_permit"), ledger)
finalize_row permit_id status reason result_json now (some row) ledger =
    if is_dispatched row.status
    then (
      ok tt,
      record {
        permits = update permit_id (close_row status reason result_json now) ledger.permits;
        events =
            ledger.events
            ++ record {
              permit_id = permit_id;
              event_type = finalized status;
              occurred_at = now;
              detail_json = text_or_empty result_json;
            }
              ∷ [];
      },
    )
    else (err (boundary_error "permit_not_dispatched"), ledger)

abbrev pub finalize_text :
    String → Status → String → ℕ → Option (Option String) → Action Ledger Fault (Unit {0})
finalize_text permit_id status reason now none ledger = (err value_error, ledger)
finalize_text permit_id status reason now (some text) ledger =
    finalize_row permit_id status reason text now (lookup permit_id ledger.permits) ledger

module _ (p : Provider) where
  -- `canonical_bytes(result)` unless the result is `None`; no text is a raise.
  abbrev pub result_text : Value → Option (Option String)
  result_text null = some none
  result_text v = elim (p.dumps v) [ none ↦ none | some text ↦ some (some text) ]

  unfoldable pub finalize :
      (permit_id : String) (status : Status) (reason : String) (result : Value) (now : ℕ)
      → Action Ledger Fault (Unit {0})
  finalize permit_id status reason result now ledger =
      if not (is_terminal status)
      then (err value_error, ledger)
      else finalize_text permit_id status reason now (result_text result) ledger

unfoldable pub get : (permit_id : String) → Ledger → Option PermitRow
get permit_id ledger = lookup permit_id ledger.permits

abbrev events_in : String → List Event → List Event
events_in permit_id [] = []
events_in permit_id (event ∷ events) =
    let rest = events_in permit_id events in
    if str_eq event.permit_id permit_id then event ∷ rest else rest

-- `events`, in the order of the journal.
unfoldable pub events_of : (permit_id : String) → Ledger → List Event
events_of permit_id ledger = events_in permit_id ledger.events
