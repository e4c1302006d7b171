-- ===== src/Execution/Receipt.antt =====
-- The receipt of settlement/settlement_requests.py and the action that it is about. A replayed
-- receipt carries what was read back from JSON, so its `ok`, `execution_id` and `action` are values.
use Prim.Native.String.{◌++◌}
use safe_agent.Prelude.{ℕ, String, true, false, Option, none, some}
use safe_agent.Prelude.Json.{Value, null, bool, str, obj, Fields, end, field}

pub record SafeExecuteReceipt : Type 0 where
  pub ok : Value
  pub reason : String
  pub request_id : String
  pub execution_id : Value
  pub action : Value
  pub payload : Fields
  pub timestamp_utc : String

unfoldable pub to_dict : SafeExecuteReceipt → Fields
to_dict r = field "ok" r.ok (
    field "reason" (str r.reason) (
      field "request_id" (str r.request_id) (
        field "execution_id" r.execution_id (
          field "action" r.action
            (field "payload" (obj r.payload) (field "timestamp_utc" (str r.timestamp_utc) end))))))

-- What the registry catches of a call of `execute_fn`: it returns, or raises an `Exception` of a named
-- type.
pub data Outcome : Type 0 where
  returned : Outcome
  raised : (type_name : String) → Outcome

-- How a call of `execute_fn` ends; an interruption is no `Exception`, and nothing catches it.
pub data Ending : Type 0 where
  ended : Outcome → Ending
  interrupted : Ending

-- `execute_fn`, by the number of its parameters.
pub data ExecuteFn : Type 0 where
  nullary : Ending → ExecuteFn
  unary : (Fields → Ending) → ExecuteFn

unfoldable pub invoke_execute_fn : ExecuteFn → Fields → Ending
invoke_execute_fn (nullary ending) payload = ending
invoke_execute_fn (unary body) payload = body payload

-- One call of `SettlementRequestRegistry.execute`, with the `uuid4`, the clock readings and the
-- formatted time that it meets.
pub record Call : Type 0 where
  pub request_id : String
  pub action : String
  pub payload : Option Fields
  pub execute_fn : ExecuteFn
  pub fresh_id : String
  pub claim_time : ℕ
  pub settle_time : ℕ
  pub stamp : String

-- `payload or {}`
abbrev pub clean_payload : Option Fields → Fields
clean_payload none = end
clean_payload (some payload) = payload

-- A receipt without an execution id: refused, blocked, or failed.
abbrev pub refusal : String → Call → SafeExecuteReceipt
refusal reason call = record {
  ok = bool false;
  reason = reason;
  request_id = call.request_id;
  execution_id = null;
  action = str call.action;
  payload = clean_payload call.payload;
  timestamp_utc = call.stamp;
}

-- The receipt of a run of `execute_fn`.
unfoldable pub run_receipt : Outcome → Call → SafeExecuteReceipt
run_receipt returned call = record (refusal "executed" call) {
  ok = bool true;
  execution_id = str call.fresh_id;
}
run_receipt (raised type_name) call = refusal ("execute_failed:" ++ type_name) call
