-- ===== src/Settlement/Tally/Counts.antt =====
-- The tally against a count of the signals one by one.
use safe_agent.Prelude.{ℕ, ◌+◌, String, ◌≡◌, ◌≢◌, [], ◌∷◌, str_eq, eq_iff, arith, if◌then◌else◌}
use safe_agent.Prelude.Dict.{Dict, lookup, insert, lookup-insert}
use safe_agent.Settlement.Models.{OutcomeSignal}
use safe_agent.Settlement.Tally.Defs.{
  count_or_zero, add_vote, tally_from, outcome_tally, total, votes, usable,
}

abbrev pub count_of : String → Dict ℕ → ℕ
count_of outcome tally = count_or_zero (lookup outcome tally)

count_of-add_vote :
    (o p : String) (t : Dict ℕ)
    → o ≢ ""
    → count_of o (add_vote p t) ≡ (if str_eq p o then 1 else 0) + count_of o t
unfolding add_vote
count_of-add_vote o p t h =
    ground (arith, eq_iff p "", eq_iff p o, lookup-insert p o (count_of p t + 1) t)

count_of-tally_from :
    (o : String) (t : Dict ℕ) (ss : Dict OutcomeSignal)
    → o ≢ ""
    → count_of o (tally_from t ss) ≡ count_of o t + votes o ss
unfolding tally_from votes
count_of-tally_from o t [] h = omega arith
count_of-tally_from o t ((k, s) ∷ ss) h =
    omega
      (arith, count_of-tally_from o (add_vote s.outcome t) ss h, count_of-add_vote o s.outcome t h)

-- The tally holds, for every outcome, the number of its signals.
pub outcome_tally-eq-votes :
    (o : String) (ss : Dict OutcomeSignal) → o ≢ "" → count_of o (outcome_tally ss) ≡ votes o ss
unfolding outcome_tally lookup
outcome_tally-eq-votes o ss h = omega (arith, count_of-tally_from o [] ss h)

total-insert : (o : String) (n : ℕ) (t : Dict ℕ) → total (insert o n t) + count_of o t ≡ total t + n
unfolding total insert lookup
total-insert o n [] = omega arith
total-insert o n ((k, m) ∷ t) = ground (arith, total-insert o n t)

total-add_vote :
    (o : String) (t : Dict ℕ) → total (add_vote o t) ≡ (if str_eq o "" then 0 else 1) + total t
unfolding add_vote
total-add_vote o t = ground (arith, total-insert o (count_of o t + 1) t)

total-tally_from :
    (t : Dict ℕ) (ss : Dict OutcomeSignal) → total (tally_from t ss) ≡ total t + usable ss
unfolding tally_from usable
total-tally_from t [] = omega arith
total-tally_from t ((k, s) ∷ ss) =
    omega (arith, total-tally_from (add_vote s.outcome t) ss, total-add_vote s.outcome t)

-- The values of the tally add up to the number of signals with an outcome.
pub total-outcome_tally : (ss : Dict OutcomeSignal) → total (outcome_tally ss) ≡ usable ss
unfolding outcome_tally total
total-outcome_tally ss = omega (arith, total-tally_from [] ss)
