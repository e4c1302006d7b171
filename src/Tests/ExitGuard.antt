-- ===== src/Tests/ExitGuard.antt =====
-- The exit guard: one exit claimed twice.
use safe_agent.Prelude.{◌≤◌, List, [], ◌∷◌}
use safe_agent.Prelude.Dict.{lookup}
use safe_agent.ExitGuard.{Guard, Exit, make_key}
use safe_agent.ExitGuard.Protocol.{Op, claim_op, clear_op, total_sends, exit_sent_at_most_once}

abbrev exit : Exit
exit = record { symbol = "BTC"; qty = "0.5"; entry_ts = "17" }

abbrev empty_guard : Guard
empty_guard = record { exit_claims = []; phantom_positions = [] }

abbrev ops : List Op
ops = claim_op exit 1 ∷ clear_op "BTC" ∷ claim_op exit 2 ∷ []

exit_sent_at_most_once_example : total_sends (make_key exit) ops empty_guard ≤ 1
unfolding lookup
exit_sent_at_most_once_example = exit_sent_at_most_once (make_key exit) ops empty_guard
