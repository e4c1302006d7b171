-- ===== src/Settlement/Lifecycle.antt =====
-- The life of a case under the three operations that the package offers on it, in any order.
pub mod Finality
use safe_agent.Prelude.{
  ℕ, ◌≤◌, String, ◌≡◌, ◌≢◌, refl, Bool, true, false, ◌||◌, Option, none, some, [], arith, length,
  is_some, str_eq, eq_iff, if◌then◌else◌,
}
use safe_agent.Prelude.Action.{Result, ok, err}
use safe_agent.Settlement.Models.{
  CaseState, opened, resolved_provisional, in_reconciliation, final, settled, same_state,
  OutcomeSignal, Case,
}
use safe_agent.Settlement.StateMachine.{can_transition}
use safe_agent.Settlement.Tally.{outcome_tally}
use safe_agent.Settlement.Reconciliation.{
  Reason, ingest_signal, resolve_reconciliation, judge_signals,
}
use safe_agent.Settlement.Gate.{attempt_settlement}

-- A case as its constructor leaves it.
abbrev pub new_case : String → Case
new_case case_id = record {
  case_id = case_id;
  state = opened;
  final_outcome = none;
  signals = [];
  settled_at = none;
  settlement_id = none;
  reconciliation_reason = none;
}

-- One call; a fresh settlement id is never empty.
pub data Step : Case → Case → Type 0 where
  ingest : (signal : OutcomeSignal) (case : Case) → Step case (ingest_signal signal case).1
  resolve : (chosen : String) (case : Case) → Step case (resolve_reconciliation chosen case).1
  settle :
      (fresh_id : String) (now : ℕ) (case : Case)
      → fresh_id ≢ ""
      → Step case (attempt_settlement fresh_id now case).1

pub data Reach (first : Case) : Case → Type 0 where
  here : Reach first first
  next : {case later : Case} → Reach first case → Step case later → Reach first later

abbrev pub is_decided : CaseState → Bool
is_decided state = same_state state final || same_state state settled

-- The fields agree with the state, and the signals with the states before finality.
pub record IsSound (case : Case) : Type 0 where
  pub untouched : case.state ≡ opened → length (outcome_tally case.signals) ≡ 0
  pub agreed : case.state ≡ resolved_provisional → length (outcome_tally case.signals) ≤ 1
  pub decided : is_some case.final_outcome ≡ is_decided case.state
  pub paid : is_some case.settlement_id ≡ same_state case.state settled
  pub stamped : is_some case.settled_at ≡ same_state case.state settled

new_case-IsSound : (case_id : String) → IsSound (new_case case_id)
unfolding outcome_tally
new_case-IsSound case_id = ground arith

ingest_signal-IsSound :
    (signal : OutcomeSignal) (case : Case) → IsSound case → IsSound (ingest_signal signal case).1
unfolding ingest_signal
ingest_signal-IsSound signal case h = ground arith

resolve-IsSound :
    (chosen : String) (case : Case) → IsSound case → IsSound (resolve_reconciliation chosen case).1
unfolding resolve_reconciliation
resolve-IsSound chosen case h = ground arith

settle-IsSound :
    (fresh_id : String) (now : ℕ) (case : Case)
    → IsSound case
    → IsSound (attempt_settlement fresh_id now case).1
unfolding attempt_settlement
settle-IsSound fresh_id now case h = ground arith

Step-IsSound : {case later : Case} → Step case later → IsSound case → IsSound later
Step-IsSound (ingest signal case) h = ingest_signal-IsSound signal case h
Step-IsSound (resolve chosen case) h = resolve-IsSound chosen case h
Step-IsSound (settle fresh_id now case ne) h = settle-IsSound fresh_id now case h

Reach-keeps : {first case : Case} → IsSound first → Reach first case → IsSound case
Reach-keeps h here = h
Reach-keeps h (next r step) = Step-IsSound step (Reach-keeps h r)

-- Whatever signals, resolutions and settlements a new case has seen, in any order: an open case has
-- no outcome in its tally and a provisional one at most one; a final outcome is there exactly in
-- FINAL and SETTLED, a settlement id and its time exactly in SETTLED.
pub reached-IsSound :
    (case_id : String) (case : Case) → Reach (new_case case_id) case → IsSound case
reached-IsSound case_id case r = Reach-keeps (new_case-IsSound case_id) r
