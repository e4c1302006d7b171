-- ===== src/Settlement/Reconciliation.antt =====
-- settlement/reconciliation.py: signals into a case, and the outcome that ends its reconciliation.
-- A case's `signals` is never `None` here, so `_normalize_signals` is the field itself.
use safe_agent.Prelude.{
  ℕ, String, Bool, true, false, ◌||◌, Option, some, str_eq, ◌==◌, if◌then◌else◌, length,
}
use safe_agent.Prelude.Action.{Action, pure, raise, ◌>>◌}
use safe_agent.Prelude.Dict.{insert}
use safe_agent.Settlement.Models.{
  opened, resolved_provisional, in_reconciliation, final, settled, same_state, OutcomeSignal, Case,
  Fault, cannot_finalize,
}
use safe_agent.Settlement.StateMachine.{set_case_state}
use safe_agent.Settlement.Tally.{outcome_tally, max_key}

pub data Reason : Type 0 where
  late_signal_ignored_after_finality missing_signal_source no_valid_outcome_signals : Reason
  consistent_outcome_signals conflicting_outcome_signals : Reason

-- What follows the upsert of the signal.
unfoldable pub judge_signals : Action Case Fault (Bool × Reason)
unfolding set_case_state
judge_signals case =
    let tally = outcome_tally case.signals in
    if length tally == 0
    then (pure (false, no_valid_outcome_signals)) case
    else if length tally == 1
    then (if same_state case.state opened
        then (set_case_state resolved_provisional >> pure (true, consistent_outcome_signals)) case
        else pure (true, consistent_outcome_signals) case)
    else if same_state case.state opened || same_state case.state resolved_provisional
    then (set_case_state in_reconciliation >> pure (true, conflicting_outcome_signals)) case
    else pure (true, conflicting_outcome_signals) case

unfoldable pub ingest_signal : OutcomeSignal → Action Case Fault (Bool × Reason)
unfolding judge_signals
ingest_signal signal case =
    if same_state case.state final || same_state case.state settled
    then (pure (false, late_signal_ignored_after_finality)) case
    else if str_eq signal.source ""
    then (pure (false, missing_signal_source)) case
    else judge_signals (record case { signals = insert signal.source signal case.signals })

unfoldable pub resolve_reconciliation : String → Action Case Fault (Unit {0})
unfolding set_case_state
resolve_reconciliation chosen_outcome case =
    if same_state case.state resolved_provisional || same_state case.state in_reconciliation
    then set_case_state final (record case { final_outcome = some chosen_outcome })
    else raise cannot_finalize case

-- `none` is Python's `None`, for a case with no usable signal.
unfoldable pub get_majority_outcome : Case → Option String
get_majority_outcome case = max_key (outcome_tally case.signals)

unfoldable pub get_signal_count : Case → ℕ
get_signal_count case = length case.signals
