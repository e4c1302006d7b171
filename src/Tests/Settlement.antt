-- ===== src/Tests/Settlement.antt =====
-- The settlement package: a final of two tournaments, and a case through its life.
use safe_agent.Prelude.{◌*◌, ◌≤◌, ◌<◌, String, ◌≡◌, refl, [], ◌∷◌, arith}
use safe_agent.Prelude.Json.{end}
use safe_agent.Prelude.Dict.{Dict, lookup, insert}
use safe_agent.Settlement.Models.{in_reconciliation, OutcomeSignal, Case}
use safe_agent.Settlement.StateMachine.{rank}
use safe_agent.Settlement.Tally.{outcome_tally, max_key, total, votes, usable}
use safe_agent.Settlement.Policy.{Fraction, should_auto_finalize}
use safe_agent.Settlement.Policy.Strict.{auto_finalize_strict}
use safe_agent.Settlement.Reconciliation.{ingest_signal, resolve_reconciliation}
use safe_agent.Settlement.Gate.{attempt_settlement}
use safe_agent.Settlement.Lifecycle.{
  new_case, Reach, here, next, ingest, resolve, settle, IsSound, reached-IsSound,
}
use safe_agent.Settlement.Lifecycle.Finality.{decided_case_kept, attempt_settlement_idempotent}

abbrev signal : String → String → OutcomeSignal
signal source outcome = record {
  case_id = "final";
  source = source;
  outcome = outcome;
  confidence = 900000;
  received_at = 5;
  signal_id = source;
  meta = end;
}

abbrev signals : Dict OutcomeSignal
signals =
    ("site", signal "site" "red")
    ∷ ("referee", signal "referee" "blue")
    ∷ ("video", signal "video" "red")
    ∷ []

abbrev voted_case : Case
voted_case = record (new_case "final") { state = in_reconciliation; signals = signals }

abbrev two_thirds : Fraction
two_thirds = record { numerator = 2; denominator = 3 }

abbrev judged : Case
judged = (ingest_signal (signal "site" "red") (new_case "final")).1

abbrev decided : Case
decided = (resolve_reconciliation "red" judged).1

abbrev paid : Case
paid = (attempt_settlement "s1" 9 decided).1

paid_run : Reach (new_case "final") paid
paid_run =
    next (next (next here (ingest (signal "site" "red") (new_case "final"))) (resolve "red" judged))
      (settle "s1" 9 decided (λ e. cc))

abbrev late : Case
late = (ingest_signal (signal "video" "blue") paid).1

auto_finalize_strict_example :
    let winner = (should_auto_finalize voted_case two_thirds).1.winner in
    (votes "blue" signals < votes winner signals) × (usable signals < votes winner signals * 2)
unfolding should_auto_finalize total outcome_tally insert lookup max_key
auto_finalize_strict_example =
    auto_finalize_strict voted_case two_thirds "blue" (ground arith) refl (λ e. cc) (λ e. cc)

reached-IsSound_example : IsSound paid
reached-IsSound_example = reached-IsSound "final" paid paid_run

decided_case_kept_example :
    (rank paid.state ≤ rank late.state)
    × (late.final_outcome ≡ paid.final_outcome)
    × (late.signals ≡ paid.signals)
unfolding ingest_signal resolve_reconciliation attempt_settlement outcome_tally insert
decided_case_kept_example =
    decided_case_kept (next here (ingest (signal "video" "blue") paid)) (ground arith)

attempt_settlement_idempotent_example :
    attempt_settlement "s2" 12 (attempt_settlement "s1" 9 decided).1
    ≡ attempt_settlement "s1" 9 decided
attempt_settlement_idempotent_example =
    attempt_settlement_idempotent "s1" "s2" 9 12 decided (λ e. cc)
