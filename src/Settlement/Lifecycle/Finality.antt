-- ===== src/Settlement/Lifecycle/Finality.antt =====
-- What a decided or settled case keeps.
use safe_agent.Prelude.Action.{is_ok}
use safe_agent.Prelude.{ℕ, ◌≤◌, String, ◌≡◌, ◌≢◌, refl, true, arith, eq_iff}
use safe_agent.Settlement.Models.{settled, OutcomeSignal, Case}
use safe_agent.Settlement.StateMachine.{rank}
use safe_agent.Settlement.Reconciliation.{ingest_signal, resolve_reconciliation}
use safe_agent.Settlement.Gate.{attempt_settlement}
use safe_agent.Settlement.Lifecycle.{Step, ingest, resolve, settle, Reach, here, next}

-- From `case` to `later` nothing that is final has changed.
pub record Keeps (case later : Case) : Type 0 where
  pub forward : rank case.state ≤ rank later.state
  pub outcome : 3 ≤ rank case.state → later.final_outcome ≡ case.final_outcome
  pub evidence : 3 ≤ rank case.state → later.signals ≡ case.signals
  pub settlement : case.state ≡ settled → later.settlement_id ≡ case.settlement_id
  pub settled_time : case.state ≡ settled → later.settled_at ≡ case.settled_at

ingest-Keeps : (signal : OutcomeSignal) (case : Case) → Keeps case (ingest_signal signal case).1
unfolding ingest_signal
ingest-Keeps signal case = ground arith

resolve-Keeps : (chosen : String) (case : Case) → Keeps case (resolve_reconciliation chosen case).1
unfolding resolve_reconciliation
resolve-Keeps chosen case = ground arith

settle-Keeps :
    (fresh_id : String) (now : ℕ) (case : Case)
    → Keeps case (attempt_settlement fresh_id now case).1
unfolding attempt_settlement
settle-Keeps fresh_id now case = ground arith

Step-Keeps : {case later : Case} → Step case later → Keeps case later
Step-Keeps (ingest signal case) = ingest-Keeps signal case
Step-Keeps (resolve chosen case) = resolve-Keeps chosen case
Step-Keeps (settle fresh_id now case ne) = settle-Keeps fresh_id now case

Keeps-trans : (a b c : Case) → Keeps a b → Keeps b c → Keeps a c
Keeps-trans a b c h k = ground arith

Reach-Keeps : {case later : Case} → Reach case later → Keeps case later
Reach-Keeps {case} here = record {
  forward = omega arith;
  outcome = λ _. refl;
  evidence = λ _. refl;
  settlement = λ _. refl;
  settled_time = λ _. refl;
}
Reach-Keeps {case} {later} (next {case = middle} r step) =
    Keeps-trans case middle later (Reach-Keeps r) (Step-Keeps step)

-- In any run of signals, resolutions and settlements, a case that is FINAL or SETTLED does not go
-- back, neither before FINAL nor from SETTLED to FINAL, and keeps its outcome and its signals.
pub decided_case_kept :
    {case later : Case}
    → Reach case later
    → 3 ≤ rank case.state
    → (rank case.state ≤ rank later.state)
      × (later.final_outcome ≡ case.final_outcome)
      × (later.signals ≡ case.signals)
decided_case_kept r h = let k = Reach-Keeps r in (k.forward, k.outcome h, k.evidence h)

-- In any run of signals, resolutions and settlements, a case that is SETTLED stays so with the same
-- settlement id and time.
pub settled_case_kept :
    {case later : Case}
    → Reach case later
    → case.state ≡ settled
    → (4 ≤ rank later.state)
      × (later.settlement_id ≡ case.settlement_id)
      × (later.settled_at ≡ case.settled_at)
settled_case_kept r h =
    let k = Reach-Keeps r in (ground (arith, k.forward), k.settlement h, k.settled_time h)

-- Taking in a signal never raises: the transitions that it makes are allowed ones.
pub ingest_never_raises :
    (signal : OutcomeSignal) (case : Case) → is_ok (ingest_signal signal case).0 ≡ true
unfolding ingest_signal
ingest_never_raises signal case = ground arith

-- The gate tried twice gives the answer of the first time, id or error, and the second try changes
-- nothing: whatever the state of the case, one settlement id is ever given out.
pub attempt_settlement_idempotent :
    (fresh_id fresh_id' : String) (now now' : ℕ) (case : Case)
    → fresh_id ≢ ""
    → let (answer, later) = attempt_settlement fresh_id now case in
      attempt_settlement fresh_id' now' later ≡ (answer, later)
unfolding attempt_settlement
attempt_settlement_idempotent fresh_id fresh_id' now now' case ne =
    ground (arith, eq_iff fresh_id "")
