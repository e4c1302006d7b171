-- ===== src/Control/Outcome/Exactly.antt =====
-- What `_max_matchings_for_tier` returns, against all matchings of the largest size.
use safe_agent.Prelude.{
  ℕ, ◌≤◌, List, [], ◌∷◌, length, All, Option, none, some, Bool, true, false, ◌||◌, ◌≡◌, refl, sym,
  ap, ◌∙◌, inl, inr, arith, ◌==◌, Bool-cases,
}
use safe_agent.Prelude.Table.{Table, lookup}
use safe_agent.Prelude.Counts.{mem, count}
use mathlib.Core.Path.{subst}
use mathlib.Core.Logic.{◌↔◌}
use safe_agent.Control.Outcome.{
  in_reference, max_matchings_for_tier, tier_result, TierMatchResult, empty_sets,
}
use safe_agent.Control.Outcome.Sets.{
  in_set, empty_sets-Filled, in_set-empty_sets, HasSets, empty_sets-HasSets,
}
use safe_agent.Control.Matching.{adj_by_claim, bipartite_max_matching}
use safe_agent.Control.Outcome.Loops.{
  add_reference_lem, Viables, add_viable_lem, always_matched_in_lem,
}
use safe_agent.Control.Tier.Swap.{swap, claim_to_order-swap, length-swap}
use safe_agent.Control.Matching.Counting.{IsMatching, nil-IsMatching, vals}
use safe_agent.Control.Tier.{edge_is_viable, claim_can_be_unmatched, claim_to_order}
use safe_agent.Control.Tier.Viable.{edge_is_viable_iff}
use safe_agent.Control.Tier.Unmatched.{claim_can_be_unmatched_iff}
use safe_agent.Control.Matching.Maximum.{bipartite_max_matching_maximum, solver_best}
use safe_agent.Control.Tier.Parts.{lookup-edge}
use safe_agent.Control.Outcome.Edges.{in_reference-swap, known_ends, All-left, All-edges, All-mem}

-- A matching of the given size that has the edge, and one that leaves the claim out.
abbrev pub MatchingWith : List (ℕ × ℕ) → ℕ → ℕ → ℕ → Type 0
MatchingWith es size c o =
    (m : Table ℕ) × IsMatching (adj_by_claim es) m × (lookup o m ≡ some c) × (length m ≡ size)

abbrev pub MatchingWithout : List (ℕ × ℕ) → ℕ → ℕ → Type 0
MatchingWithout es size c =
    (m : Table ℕ) × IsMatching (adj_by_claim es) m × (count c (vals m) ≡ 0) × (length m ≡ size)

-- The size of the largest matchings: none is larger, and one has it.
abbrev pub IsLargest : List (ℕ × ℕ) → ℕ → Type 0
IsLargest es size =
    ((m : Table ℕ) → IsMatching (adj_by_claim es) m → length m ≤ size)
    × ((m : Table ℕ) × IsMatching (adj_by_claim es) m × (length m ≡ size))

module _ (claims orders : List ℕ) (es : List (ℕ × ℕ)) (held : Table ℕ)
    (solved : bipartite_max_matching claims es ≡ some held) where
  tier_empty :
      (length (claim_to_order held) == 0) ≡ true
      → max_matchings_for_tier claims orders es
        ≡ some (record {
          max_size = 0;
          possible_partners = empty_sets claims;
          possible_holders = empty_sets orders;
          always_matched = [];
        })
  unfolding max_matchings_for_tier
  tier_empty e = ground (arith, solved, e)

  tier_full :
      (length (claim_to_order held) == 0) ≡ false
      → max_matchings_for_tier claims orders es ≡ tier_result claims orders es held
  unfolding max_matchings_for_tier
  tier_full e = ground (arith, solved, e)

module _ (claims orders : List ℕ) (es : List (ℕ × ℕ)) (once : (c : ℕ) → count c claims ≤ 1)
    (known : All (λ e. (mem e.0 claims ≡ true) × (mem e.1 orders ≡ true)) es) where
  pub record Exactly (r : TierMatchResult) : Type 0 where
    pub claim_sets : HasSets claims r.possible_partners
    pub order_sets : HasSets orders r.possible_holders
    pub largest : (m : Table ℕ) → IsMatching (adj_by_claim es) m → length m ≤ r.max_size
    pub reached : (m : Table ℕ) × IsMatching (adj_by_claim es) m × (length m ≡ r.max_size)
    pub mirrored : (c o : ℕ) → in_set o c r.possible_holders ≡ in_set c o r.possible_partners
    pub partners :
        (c o : ℕ) → (in_set c o r.possible_partners ≡ true) ↔ MatchingWith es r.max_size c o
    pub always :
        (c : ℕ)
        → (mem c r.always_matched ≡ true)
          ↔ ((mem c claims ≡ true) × ¬ MatchingWithout es r.max_size c)

  nothing_matched : (o c : ℕ) (m : Table ℕ) → length m ≡ 0 → lookup o m ≡ none
  unfolding lookup
  nothing_matched o c [] h = refl
  nothing_matched o c (p ∷ m) h = absurd (omega (arith, h))

  empty-Exactly :
      ((m : Table ℕ) → IsMatching (adj_by_claim es) m → length m ≤ 0)
      → Exactly (record {
        max_size = 0;
        possible_partners = empty_sets claims;
        possible_holders = empty_sets orders;
        always_matched = [];
      })
  unfolding mem vals count
  empty-Exactly none_larger = record {
    claim_sets = empty_sets-HasSets claims;
    order_sets = empty_sets-HasSets orders;
    largest = none_larger;
    reached = ([], nil-IsMatching (adj_by_claim es), refl);
    mirrored = λ c o. in_set-empty_sets orders o c ∙ sym (in_set-empty_sets claims c o);
    partners = λ c o. (
      λ h. absurd (ground (arith, h, in_set-empty_sets claims c o)),
      λ (m, fits, has, size). absurd (ground (arith, has, nothing_matched o c m size)),
    );
    always = λ c. (
      λ h. absurd (ground (arith, h)),
      λ (here, never). absurd (never ([], nil-IsMatching (adj_by_claim es), refl, refl)),
    );
  }

  module _ (held : Table ℕ) (solved : bipartite_max_matching claims es ≡ some held) where
    known_claims : All (λ e. mem e.0 claims ≡ true) es
    known_claims = All-left (λ e. mem e.0 claims ≡ true) (λ e. mem e.1 orders ≡ true) es known

    best :
        IsMatching (adj_by_claim es) held
        × ((m : Table ℕ) → IsMatching (adj_by_claim es) m → length m ≤ length held)
    best = solver_best claims es once known_claims held solved

    turned : claim_to_order held ≡ swap held
    turned = claim_to_order-swap held best.0.claims_once

    size : length (claim_to_order held) ≡ length held
    size = ap length turned ∙ length-swap held

    viable : ℕ → ℕ → Option Bool
    viable c o = edge_is_viable c o claims es (length (claim_to_order held))

    free : ℕ → Option Bool
    free c = claim_can_be_unmatched c (claim_to_order held) held es

    viable_iff :
        (c o : ℕ)
        → mem o (adj_by_claim es c) ≡ true
        → (b : Bool) × (viable c o ≡ some b)
          × ((b ≡ true) ↔ MatchingWith es (length (claim_to_order held)) c o)
    unfolding viable
    viable_iff c o edge =
        subst
          (λ n.
            (b : Bool) × (edge_is_viable c o claims es n ≡ some b)
            × ((b ≡ true) ↔ MatchingWith es n c o))
          (sym size) (edge_is_viable_iff claims es once known_claims c o edge held solved)

    free_iff :
        (c : ℕ)
        → (b : Bool) × (free c ≡ some b)
          × ((b ≡ true) ↔ MatchingWithout es (length (claim_to_order held)) c)
    unfolding free
    free_iff c =
        subst
          (λ n.
            (b : Bool) × (claim_can_be_unmatched c (claim_to_order held) held es ≡ some b)
            × ((b ≡ true) ↔ MatchingWithout es n c))
          (sym size) (claim_can_be_unmatched_iff claims es once known_claims c held solved)

    known_pairs : All (λ p. (mem p.0 claims ≡ true) × (mem p.1 orders ≡ true)) (claim_to_order held)
    known_pairs =
        subst (λ t. All (λ p. (mem p.0 claims ≡ true) × (mem p.1 orders ≡ true)) t) (sym turned)
          (known_ends claims orders es held known best.0.edges)

    in_reference-lookup :
        (c o : ℕ) → in_reference c o (claim_to_order held) ≡ true → lookup o held ≡ some c
    in_reference-lookup c o h =
        in_reference-swap c o held best.0.orders_once
          (subst (λ t. in_reference c o t ≡ true) turned h)

    partners_iff :
        (first last : Table (List ℕ))
        → ((c o : ℕ)
            → in_set c o first
              ≡ (in_set c o (empty_sets claims) || in_reference c o (claim_to_order held)))
        → Viables claims orders viable (claim_to_order held) es first last
        → (c o : ℕ) → (in_set c o last ≡ true) ↔ MatchingWith es (length (claim_to_order held)) c o
    partners_iff first last filled v c o = (
      λ h. elim (v.only c o h) [
        | inl old ↦
            let has : in_reference c o (claim_to_order held) ≡ true =
              ground (arith, filled c o, in_set-empty_sets claims c o, old) in
            (held, best.0, in_reference-lookup c o has, sym size)
        | inr (edge, says) ↦
            let (b, e, (to, from)) = viable_iff c o edge in
            let same : some b ≡ some true = sym e ∙ says in to (ground (arith, same))
      ],
      λ w.
          let (m, fits, has, long) = w in
          let edge = lookup-edge (λ p. mem p.0 (adj_by_claim es p.1) ≡ true) o c m fits.edges has in
          elim (Bool-cases (in_reference c o (claim_to_order held))) [
            | inl e ↦ v.kept c o (ground (arith, filled c o, e))
            | inr e ↦
                let (b, says, (to, from)) = viable_iff c o edge in
                v.added c o edge e (says ∙ ap some (from w))
          ],
    )

    always_iff :
        (always : List ℕ)
        → ((c : ℕ) → mem c always ≡ true → (mem c claims ≡ true) × (free c ≡ some false))
        → ((c : ℕ) → mem c claims ≡ true → free c ≡ some false → mem c always ≡ true)
        → (c : ℕ)
        → (mem c always ≡ true)
          ↔ ((mem c claims ≡ true) × ¬ MatchingWithout es (length (claim_to_order held)) c)
    always_iff always inner outer c =
        let (b, says, (to, from)) = free_iff c in
        (
          λ h.
              let (here, no_it) = inner c h in
              (
                here,
                λ w.
                    let same : some b ≡ some false = sym says ∙ no_it in
                    absurd (ground (arith, same, from w)),
              ),
          λ (here, never). elim (Bool-cases b) [
            | inl y ↦ absurd (never (to y))
            | inr n ↦ outer c here (says ∙ ap some n)
          ],
        )

    result-Exactly :
        (r : TierMatchResult) × (tier_result claims orders es held ≡ some r) × Exactly r
    unfolding tier_result viable free
    result-Exactly =
        let (first, a, first_filled, first_sets) =
          add_reference_lem claims orders (claim_to_order held)
            (empty_sets claims, empty_sets orders) (empty_sets-Filled claims orders) known_pairs in
        let (both, b, filled, viables) =
          add_viable_lem claims orders viable (claim_to_order held) es first first_filled known (
            All-edges (λ p. (b : Bool) × (viable p.0 p.1 ≡ some b)) es
              (λ c o edge. let (b, e, both_ways) = viable_iff c o edge in (b, e))) in
        let (always, e, inner, outer) = always_matched_in_lem free claims (
          All-mem (λ c. (b : Bool) × (free c ≡ some b)) claims
            (λ c. let (b, e, both_ways) = free_iff c in (b, e))) in
        (
          record {
            max_size = length (claim_to_order held);
            possible_partners = both.0;
            possible_holders = both.1;
            always_matched = always;
          },
          ground (arith, a, b, e),
          record {
            claim_sets = filled.claim_sets;
            order_sets = filled.order_sets;
            largest = λ m fits. omega (arith, best.1 m fits, size);
            reached = (held, best.0, sym size);
            mirrored = filled.mirrored;
            partners = partners_iff first.0 both.0 first_sets viables;
            always = always_iff always inner outer;
          },
        )

  pub tier-Exactly :
      (r : TierMatchResult) × (max_matchings_for_tier claims orders es ≡ some r) × Exactly r
  tier-Exactly =
      let claims_known =
        All-left (λ e. mem e.0 claims ≡ true) (λ e. mem e.1 orders ≡ true) es known in
      let (held, solved, good, larger) =
        bipartite_max_matching_maximum claims es once claims_known []
          (nil-IsMatching (adj_by_claim es)) in
      let top = solver_best claims es once claims_known held solved in
      elim (Bool-cases (length (claim_to_order held) == 0)) [
        | inl e ↦
            let none_held : length held ≡ 0 = sym (size held solved) ∙ ground (arith, e) in
            (
              record {
                max_size = 0;
                possible_partners = empty_sets claims;
                possible_holders = empty_sets orders;
                always_matched = [];
              },
              tier_empty claims orders es held solved e,
              empty-Exactly (λ m fits. omega (arith, top.1 m fits, none_held)),
            )
        | inr e ↦
            let (r, result, exact) = result-Exactly held solved in
            (r, tier_full claims orders es held solved e ∙ result, exact)
      ]
