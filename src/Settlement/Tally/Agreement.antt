-- ===== src/Settlement/Tally/Agreement.antt =====
-- What the number of keys of a tally says of the signals.
use safe_agent.Prelude.{
  str_eq, inl, inr, Bool-cases, ℕ, ◌≤◌, String, ◌≡◌, ◌≢◌, refl, [], ◌∷◌, eq_iff, arith, length,
}
use safe_agent.Prelude.Dict.{Dict, lookup}
use safe_agent.Settlement.Models.{OutcomeSignal}
use safe_agent.Settlement.Tally.Defs.{outcome_tally, votes}
use safe_agent.Settlement.Tally.Counts.{count_of, outcome_tally-eq-votes}
use safe_agent.Settlement.Tally.Majority.{IsTally, outcome_tally-IsTally}

-- At least one signal has an outcome, and no two signals have different ones.
pub record Unanimous (ss : Dict OutcomeSignal) : Type 0 where
  pub outcome : String
  pub nonempty : outcome ≢ ""
  pub chosen : 1 ≤ votes outcome ss
  pub others : (p : String) → p ≢ "" → p ≢ outcome → votes p ss ≡ 0

single-Unanimous :
    (t : Dict ℕ) (ss : Dict OutcomeSignal)
    → ((o : String) → o ≢ "" → count_of o t ≡ votes o ss)
    → IsTally t
    → length t ≡ 1
    → Unanimous ss
unfolding lookup
single-Unanimous [] ss same h one = absurd (omega arith)
single-Unanimous ((k, n) ∷ []) ss same h one = record {
  outcome = k;
  nonempty = h.0;
  chosen = ground (arith, same k h.0, eq_iff k k);
  others = λ p ne away. ground (arith, same p ne, eq_iff k p);
}
single-Unanimous ((k, n) ∷ (j, m) ∷ t) ss same h one = absurd (omega arith)

Unanimous-single :
    (t : Dict ℕ) (ss : Dict OutcomeSignal)
    → ((o : String) → o ≢ "" → count_of o t ≡ votes o ss)
    → IsTally t
    → Unanimous ss
    → length t ≡ 1
unfolding lookup
Unanimous-single [] ss same h u = absurd (ground (arith, same u.outcome u.nonempty, u.chosen))
Unanimous-single ((k, n) ∷ []) ss same h u = refl
Unanimous-single ((k, n) ∷ (j, m) ∷ t) ss same h u =
    absurd (elim (Bool-cases (str_eq k u.outcome)) [
      | inl e ↦
          ground
            (arith, e, eq_iff k u.outcome, u.others j h.3.0, same j h.3.0, eq_iff j j, eq_iff k j)
      | inr e ↦ ground (arith, e, eq_iff k u.outcome, u.others k h.0, same k h.0, eq_iff k k)
    ])

-- The tally has one key exactly when the signals are unanimous.
pub length-outcome_tally :
    (ss : Dict OutcomeSignal)
    → (length (outcome_tally ss) ≡ 1 → Unanimous ss)
      × (Unanimous ss → length (outcome_tally ss) ≡ 1)
length-outcome_tally ss =
    let same = λ (o : String) (ne : o ≢ ""). outcome_tally-eq-votes o ss ne in
    let h = outcome_tally-IsTally ss in
    (single-Unanimous (outcome_tally ss) ss same h, Unanimous-single (outcome_tally ss) ss same h)
