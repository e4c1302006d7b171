-- ===== src/Control/Outcome/Exact.antt =====
-- `_max_matchings_for_tier` against the enumeration of all maximum matchings.
use safe_agent.Prelude.{
  ℕ, ◌≤◌, List, [], ◌∷◌, length, All, some, true, ◌≡◌, inl, inr, arith, ◌==◌, Bool-cases,
}
use safe_agent.Prelude.Table.{Table, lookup}
use safe_agent.Prelude.Counts.{mem, count}
use mathlib.Core.Logic.{◌↔◌}
use safe_agent.Control.Outcome.{max_matchings_for_tier, TierMatchResult}
use safe_agent.Control.Outcome.Sets.{in_set}
use safe_agent.Control.Matching.{adj_by_claim}
use safe_agent.Control.Outcome.Loops.{}
use safe_agent.Control.Matching.Counting.{IsMatching, vals}
use safe_agent.Control.Tier.Parts.{lookup-edge}
use safe_agent.Control.Matching.Cover.{vals-lookup}
use safe_agent.Control.Outcome.Exactly.{
  MatchingWith, MatchingWithout, IsLargest, Exactly, tier-Exactly,
}

module _ (claims orders : List ℕ) (es : List (ℕ × ℕ)) (once : (c : ℕ) → count c claims ≤ 1)
    (known : All (λ e. (mem e.0 claims ≡ true) × (mem e.1 orders ≡ true)) es) where
  -- Every claim listed once, every pair between listed claims and orders: the function ends with a
  -- result; no matching is larger than its size, and a matching of the compatible pairs has it.
  pub max_matchings_for_tier_size :
      (m : Table ℕ)
      → IsMatching (adj_by_claim es) m
      → (r : TierMatchResult) × (max_matchings_for_tier claims orders es ≡ some r)
        × (length m ≤ r.max_size)
        × ((best_one : Table ℕ) × IsMatching (adj_by_claim es) best_one
            × (length best_one ≡ r.max_size))
  max_matchings_for_tier_size m fits =
      let (r, e, exact) = tier-Exactly claims orders es once known in
      (r, e, exact.largest m fits, exact.reached)

  -- Every claim listed once, every pair between listed claims and orders: the function ends with a
  -- result whose size is that of the largest matchings of the pairs, and in which an order is a
  -- possible partner of a claim exactly when some matching of that size has the pair, and exactly
  -- then the claim is a possible holder of the order.
  pub max_matchings_for_tier_partners :
      (c o : ℕ)
      → (r : TierMatchResult) × (max_matchings_for_tier claims orders es ≡ some r)
        × IsLargest es r.max_size
        × ((in_set c o r.possible_partners ≡ true) ↔ MatchingWith es r.max_size c o)
        × (in_set o c r.possible_holders ≡ in_set c o r.possible_partners)
  max_matchings_for_tier_partners c o =
      let (r, e, exact) = tier-Exactly claims orders es once known in
      (r, e, (exact.largest, exact.reached), exact.partners c o, exact.mirrored c o)

  -- Every claim listed once, every pair between listed claims and orders: the function ends with a
  -- result whose size is that of the largest matchings of the pairs, and in which a claim is always
  -- matched exactly when it is listed and no matching of that size leaves it out.
  pub max_matchings_for_tier_always :
      (c : ℕ)
      → (r : TierMatchResult) × (max_matchings_for_tier claims orders es ≡ some r)
        × IsLargest es r.max_size
        × ((mem c r.always_matched ≡ true)
            ↔ ((mem c claims ≡ true) × ¬ MatchingWithout es r.max_size c))
  max_matchings_for_tier_always c =
      let (r, e, exact) = tier-Exactly claims orders es once known in
      (r, e, (exact.largest, exact.reached), exact.always c)

  -- A possible partner of a claim is compatible with it.
  pub partner_edge :
      (r : TierMatchResult)
      → Exactly claims orders es once known r
      → (c o : ℕ) → in_set c o r.possible_partners ≡ true
      → mem o (adj_by_claim es c) ≡ true
  partner_edge r exact c o h =
      let (m, fits, has, long) = (exact.partners c o).0 h in
      lookup-edge (λ p. mem p.0 (adj_by_claim es p.1) ≡ true) o c m fits.edges has

  -- The only partner of a claim that is always matched is no other claim's partner.
  pub forced_once :
      (r : TierMatchResult)
      → Exactly claims orders es once known r
      → (c d o : ℕ) → mem c r.always_matched ≡ true
      → lookup c r.possible_partners ≡ some (o ∷ [])
      → in_set d o r.possible_partners ≡ true
      → c ≡ d
  unfolding in_set mem
  forced_once r exact c d o always only h =
      let (m, fits, has, long) = (exact.partners d o).0 h in
      let never = ((exact.always c).0 always).1 in
      elim (Bool-cases (count c (vals m) == 0)) [
        | inl e ↦ absurd (never (m, fits, ground (arith, e), long))
        | inr e ↦
            let (q, holds) = vals-lookup c m fits.orders_once (ground (arith, e)) in
            let back = (exact.partners c q).1 (m, fits, holds, long) in
            let same : q ≡ o = ground (arith, back, only) in
            let at_o : lookup o m ≡ some c = rw same at holds in ground (arith, at_o, has)
      ]
