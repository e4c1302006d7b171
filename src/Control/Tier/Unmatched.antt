-- ===== src/Control/Tier/Unmatched.antt =====
-- `_claim_can_be_unmatched`: one search from the freed order decides whether some maximum matching
-- leaves the claim out.
use safe_agent.Prelude.{
  ℕ, suc, ◌≤◌, List, [], length, All, none, some, Bool, true, false, ◌≡◌, refl, sym, ap, ◌∙◌, inl,
  inr, arith, Option-cases,
}
use safe_agent.Prelude.Table.{Table, lookup, erase}
use safe_agent.Prelude.Counts.{mem, count}
use mathlib.Core.Path.{subst}
use mathlib.Core.Logic.{◌↔◌}
use safe_agent.Control.Matching.{adj_by_claim, try_augment, bipartite_max_matching}
use safe_agent.Control.Tier.{claim_can_be_unmatched, claim_to_order, adj_by_order, has_found}
use safe_agent.Control.Tier.Swap.{swap, keys-swap, claim_to_order-swap}
use safe_agent.Control.Matching.Augment.{
  Answer-cases, ExhaustsAll, try_augment-exhausts, length-unvisited,
}
use safe_agent.Control.Matching.Found.{FindsWell, try_augment-FindsWell}
use safe_agent.Control.Matching.Counting.{IsMatching, vals, count-keys-none}
use safe_agent.Control.Tier.Mirror.{others, try_augment_order-try_augment}
use safe_agent.Control.Matching.Maximum.{solver_best}
use safe_agent.Control.Tier.Freed.{
  lookup-swap, sources, length-sources, others_sources, freed_table, freed_table_eq, found_without,
  exhausted_without,
}

module _ (c : ℕ) (held : Table ℕ) (es : List (ℕ × ℕ)) where
  unmatched_already :
      lookup c (claim_to_order held) ≡ none
      → claim_can_be_unmatched c (claim_to_order held) held es ≡ some true
  unfolding claim_can_be_unmatched
  unmatched_already e = ground (arith, e)

  unmatched_by_search :
      (o : ℕ)
      → lookup c (claim_to_order held) ≡ some o
      → (table : Table ℕ) → claim_to_order (erase o held) ≡ table
      → claim_can_be_unmatched c (claim_to_order held) held es
        ≡ has_found (try_augment (λ q. others c (adj_by_order es q)) table (suc (length es)) o [])
  unfolding claim_can_be_unmatched
  unmatched_by_search o e table same =
      let search = try_augment_order-try_augment c table (adj_by_order es) (suc (length es)) o [] in
      ground (arith, e, same, search)

-- For claims listed once and the matching that the solver returns: the search ends, and it says yes
-- exactly when some matching of that size leaves the claim out.
pub claim_can_be_unmatched_iff :
    (claims : List ℕ) (es : List (ℕ × ℕ))
    → ((c : ℕ) → count c claims ≤ 1)
    → All (λ e. mem e.0 claims ≡ true) es
    → (c : ℕ) (held : Table ℕ) → bipartite_max_matching claims es ≡ some held
    → (answer : Bool) × (claim_can_be_unmatched c (claim_to_order held) held es ≡ some answer)
      × ((answer ≡ true) ↔ (
          (m : Table ℕ) × IsMatching (adj_by_claim es) m
          × (count c (vals m) ≡ 0)
          × (length m ≡ length held)))
unfolding has_found
claim_can_be_unmatched_iff claims es once known c held solved =
    let (good, largest) = solver_best claims es once known held solved in
    let turned : claim_to_order held ≡ swap held = claim_to_order-swap held good.claims_once in
    let adj : ℕ → List ℕ = λ q. others c (adj_by_order es q) in
    elim (Option-cases (lookup c (claim_to_order held))) [
      | inl free ↦
          let unheld : count c (vals held) ≡ 0 =
            rw (sym (keys-swap held)) (count-keys-none c (swap held) (rw (sym turned) free)) in
          (true, unmatched_already c held es free, (λ e. (held, good, unheld, refl), λ w. refl))
      | inr (o, by_claim) ↦
          let has : lookup o held ≡ some c =
            lookup-swap c o held good.orders_once (rw (sym turned) by_claim) in
          let table = freed_table es c o held good has in
          let search =
            unmatched_by_search c held es o by_claim table (freed_table_eq es c o held good has) in
          let won_well =
            try_augment-FindsWell adj table (λ x. false) (λ x h. absurd (ground (arith, h)))
              (suc (length es)) o [] in
          let lost_well =
            try_augment-exhausts adj table (sources es) (others_sources es c) (suc (length es)) o []
              (omega (arith, length-unvisited (sources es), length-sources es)) in
          elim (Answer-cases (try_augment adj table (suc (length es)) o [])) [
            | inl (after, won) ↦ (
              true,
              search ∙ ap has_found won,
              (
                λ e.
                    found_without es c o held good has after
                      (subst (FindsWell adj table (λ x. false) o (adj o) []) won won_well),
                λ w. refl,
              ),
            )
            | inr (inl (w, lost)) ↦
                let shuts = subst (ExhaustsAll adj table (adj o) []) lost lost_well in
                (
                  false,
                  search ∙ ap has_found lost,
                  (
                    λ e. absurd (ground (arith, e)),
                    λ (m, fits, avoids, size). absurd (
                        omega (
                          arith,
                          size,
                          exhausted_without es c o held good has w shuts largest m fits avoids,
                        )),
                  ),
                )
            | inr (inr stuck) ↦
                let bad : true ≡ false = subst (ExhaustsAll adj table (adj o) []) stuck lost_well in
                absurd (ground (arith, bad))
          ]
    ]
