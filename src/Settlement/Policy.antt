-- ===== src/Settlement/Policy.antt =====
-- settlement/policy.py. A confidence is the fraction votes / total, and the threshold a fraction
-- too: `conf >= threshold` is compared crosswise.
pub mod Strict
use safe_agent.Prelude.{
  ℕ, ◌*◌, String, Bool, true, false, Option, none, some, str_eq, not, ◌&&◌, leb, ◌==◌,
  if◌then◌else◌,
}
use safe_agent.Prelude.Dict.{Dict, lookup}
use safe_agent.Settlement.Models.{Case}
use safe_agent.Settlement.Tally.{count_or_zero, outcome_tally, max_key, total}

pub record Fraction : Type 0 where
  pub numerator : ℕ
  pub denominator : ℕ

pub record Confidence : Type 0 where
  pub winner : String
  pub conf : Fraction
  pub tally : Dict ℕ

abbrev zero_fraction : Fraction
zero_fraction = record { numerator = 0; denominator = 1 }

-- `winner`, with `""` where the tally is empty and `max` is not called.
abbrev winner_or_empty : Option String → String
winner_or_empty none = ""
winner_or_empty (some winner) = winner

unfoldable pub outcome_confidence : Case → Confidence
outcome_confidence case =
    let tally = outcome_tally case.signals in
    let votes_in_all = total tally in
    if votes_in_all == 0
    then record { winner = ""; conf = zero_fraction; tally = tally }
    else (let winner = winner_or_empty (max_key tally) in
        record {
          winner = winner;
          conf = record {
            numerator = count_or_zero (lookup winner tally);
            denominator = votes_in_all;
          };
          tally = tally;
        })

unfoldable pub should_auto_finalize : Case → (threshold : Fraction) → Bool × Confidence
unfolding outcome_confidence
should_auto_finalize case threshold =
    let c = outcome_confidence case in
    (
      not (str_eq c.winner "")
          && leb (threshold.numerator * c.conf.denominator)
              (c.conf.numerator * threshold.denominator),
      c,
    )
