-- ===== src/Settlement/Policy/Strict.antt =====
-- When a case may be finalized on its own.
use safe_agent.Prelude.{
  none, refl, false, [], ◌∷◌, Bool-cases, inl, inr, ◌==◌, true, ℕ, ◌*◌, ◌≤◌, ◌<◌, String, ◌≡◌, ◌≢◌,
  some, eq_iff, arith, Option-cases,
}
use native.Mathlib.Decide.{dec_le}
use native.Mathlib.Nat.{mul-le-mul_right}
use safe_agent.Settlement.Models.{Case}
use safe_agent.Settlement.Tally.{outcome_tally, max_key, total, votes, usable}
use safe_agent.Settlement.Tally.Counts.{count_of, outcome_tally-eq-votes, total-outcome_tally}
use safe_agent.Settlement.Tally.Majority.{
  outcome_tally-IsTally, max_key-Largest, two_counts-le-total,
}
use safe_agent.Settlement.Policy.{Fraction, Confidence, outcome_confidence, should_auto_finalize}
use safe_agent.Prelude.Dict.{Dict}

-- More than a share of at least one half is more than the rest together.
half_of :
    (num den votes_for all : ℕ)
    → den < num * 2
    → num * all ≤ votes_for * den
    → 0 < all
    → all < votes_for * 2
half_of num den votes_for all h k p = elim (dec_le (votes_for * 2) all) [
  | yes few ↦ absurd (omega (arith, mul-le-mul_right den few, mul-le-mul_right all h))
  | no many ↦ omega arith
]

-- What it takes for a case to be approved.
record IsApproved (case : Case) (threshold : Fraction) (w : String) : Type 0 where
  picked : max_key (outcome_tally case.signals) ≡ some w
  counted : 0 < total (outcome_tally case.signals)
  shared :
      threshold.numerator * total (outcome_tally case.signals)
      ≤ count_of w (outcome_tally case.signals) * threshold.denominator

max_key-none : (t : Dict ℕ) → max_key t ≡ none → total t ≡ 0
unfolding max_key total
max_key-none [] h = refl
max_key-none ((k, n) ∷ t) h = cc

winner-empty :
    (case : Case) → total (outcome_tally case.signals) ≡ 0 → (outcome_confidence case).winner ≡ ""
unfolding outcome_confidence
winner-empty case h = rw (h, outcome_confidence)

picks :
    (case : Case) (w : String)
    → 0 < total (outcome_tally case.signals)
    → max_key (outcome_tally case.signals) ≡ some w
    → ((outcome_confidence case).winner ≡ w)
      × ((outcome_confidence case).conf.numerator ≡ count_of w (outcome_tally case.signals))
      × ((outcome_confidence case).conf.denominator ≡ total (outcome_tally case.signals))
unfolding outcome_confidence
picks case w pos e =
    let busy : (total (outcome_tally case.signals) == 0) ≡ false = ground arith in
    rw (busy, e) (refl, refl, refl)

-- A case is approved by its winner's share alone.
verdict :
    (case : Case) (threshold : Fraction) (c : Confidence)
    → outcome_confidence case ≡ c
    → (should_auto_finalize case threshold).0 ≡ true
    → (c.winner ≢ "")
      × (threshold.numerator * c.conf.denominator ≤ c.conf.numerator * threshold.denominator)
unfolding should_auto_finalize
verdict case threshold c e h = ground (arith, eq_iff c.winner "")

should_auto_finalize-IsApproved :
    (case : Case) (threshold : Fraction) (w : String)
    → outcome_confidence case ≡ (should_auto_finalize case threshold).1
    → (should_auto_finalize case threshold).0 ≡ true
    → max_key (outcome_tally case.signals) ≡ some w
    → IsApproved case threshold (should_auto_finalize case threshold).1.winner
should_auto_finalize-IsApproved case threshold w same h e =
    elim (Bool-cases (total (outcome_tally case.signals) == 0)) [
      | inl z ↦ absurd (
          (verdict case threshold (outcome_confidence case) refl h).0
            (winner-empty case (ground arith)))
      | inr nz ↦
          let p = picks case w (ground arith) e in
          let v = verdict case threshold (outcome_confidence case) refl h in
          rw (← same, p.0)
            (record { picked = e; counted = ground arith; shared = rw (p.1, p.2) at (v.1) })
    ]

final_confidence :
    (case : Case) (threshold : Fraction)
    → outcome_confidence case ≡ (should_auto_finalize case threshold).1
unfolding should_auto_finalize
final_confidence case threshold = refl

approved :
    (case : Case) (threshold : Fraction)
    → (should_auto_finalize case threshold).0 ≡ true
    → IsApproved case threshold (should_auto_finalize case threshold).1.winner
approved case threshold h = elim (Option-cases (max_key (outcome_tally case.signals))) [
  | inl empty ↦ absurd (
      (verdict case threshold (outcome_confidence case) refl h).0
        (winner-empty case (max_key-none (outcome_tally case.signals) empty)))
  | inr (w, e) ↦
      should_auto_finalize-IsApproved case threshold w (final_confidence case threshold) h e
]

-- With a threshold above one half, a case that may be finalized has more votes for the winner than
-- for any other outcome, and more than half of all: no other outcome ties with it.
pub auto_finalize_strict :
    (case : Case) (threshold : Fraction) (o : String)
    → threshold.denominator < threshold.numerator * 2
    → (should_auto_finalize case threshold).0 ≡ true
    → o ≢ ""
    → o ≢ (should_auto_finalize case threshold).1.winner
    → let winner = (should_auto_finalize case threshold).1.winner in
      (votes o case.signals < votes winner case.signals)
      × (usable case.signals < votes winner case.signals * 2)
auto_finalize_strict case threshold o half ok ne other =
    let w = (should_auto_finalize case threshold).1.winner in
    let t = outcome_tally case.signals in
    let a = approved case threshold ok in
    let top = max_key-Largest t w (outcome_tally-IsTally case.signals) a.picked in
    let more =
      half_of threshold.numerator threshold.denominator (count_of w t) (total t) half a.shared
        a.counted in
    let facts = two_counts-le-total o w t other in
    (
      omega (
        arith,
        outcome_tally-eq-votes o case.signals ne,
        outcome_tally-eq-votes w case.signals top.0,
      ),
      omega (arith, total-outcome_tally case.signals, outcome_tally-eq-votes w case.signals top.0),
    )
