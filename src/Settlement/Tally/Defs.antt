-- ===== src/Settlement/Tally/Defs.antt =====
-- Counting outcomes: `_outcome_tally` of settlement/reconciliation.py, which is also the first loop
-- of `outcome_confidence` in settlement/policy.py, and `max(tally, key=tally.get)`.
use safe_agent.Prelude.{ℕ, ◌+◌, String, Option, none, some, [], ◌∷◌, str_eq, ltb, if◌then◌else◌}
use safe_agent.Prelude.Dict.{Dict, lookup, insert}
use safe_agent.Settlement.Models.{OutcomeSignal}

abbrev pub count_or_zero : Option ℕ → ℕ
count_or_zero none = 0
count_or_zero (some n) = n

-- One round of the loop: a falsy outcome is skipped.
unfoldable pub add_vote : String → Dict ℕ → Dict ℕ
add_vote outcome tally =
    if str_eq outcome ""
    then tally
    else insert outcome (count_or_zero (lookup outcome tally) + 1) tally

unfoldable pub tally_from : Dict ℕ → Dict OutcomeSignal → Dict ℕ
tally_from tally [] = tally
tally_from tally ((_, signal) ∷ signals) = tally_from (add_vote signal.outcome tally) signals

unfoldable pub outcome_tally : Dict OutcomeSignal → Dict ℕ
unfolding tally_from add_vote
outcome_tally = tally_from []

-- The key of the first largest value among `(k, n)` and the rest.
unfoldable pub max_from : String → ℕ → Dict ℕ → String
max_from k n [] = k
max_from k n ((j, m) ∷ tally) = if ltb n m then max_from j m tally else max_from k n tally

-- `max(tally, key=tally.get)`, which raises on an empty dict.
unfoldable pub max_key : Dict ℕ → Option String
unfolding max_from
max_key [] = none
max_key ((k, n) ∷ tally) = some (max_from k n tally)

-- `sum(tally.values())`
unfoldable pub total : Dict ℕ → ℕ
total [] = 0
total ((_, n) ∷ tally) = n + total tally

-- The signals for an outcome, counted one by one.
unfoldable pub votes : String → Dict OutcomeSignal → ℕ
votes outcome [] = 0
votes outcome ((_, signal) ∷ signals) =
    (if str_eq signal.outcome outcome then 1 else 0) + votes outcome signals

-- The signals whose outcome is not empty.
unfoldable pub usable : Dict OutcomeSignal → ℕ
usable [] = 0
usable ((_, signal) ∷ signals) = (if str_eq signal.outcome "" then 0 else 1) + usable signals
