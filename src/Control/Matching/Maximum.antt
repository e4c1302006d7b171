-- ===== src/Control/Matching/Maximum.antt =====
-- `_bipartite_max_matching` against its specification: a matching of the greatest size.
use mathlib.Core.Path.{sym}
use safe_agent.Prelude.{
  ◌∙◌, ℕ, suc, ◌≤◌, List, [], ◌∷◌, length, All, some, true, ◌≡◌, refl, ap, inl, inr, arith, ◌==◌,
  Bool-cases,
}
use safe_agent.Prelude.Table.{Table}
use safe_agent.Prelude.Counts.{mem, count}
use mathlib.Core.Path.{subst}
use safe_agent.Control.Matching.{adj_by_claim, bipartite_max_matching}
use safe_agent.Control.Matching.Counting.{nil-IsMatching, IsMatching}
use safe_agent.Control.Matching.Augment.{IsWithin}
use safe_agent.Control.Matching.Cover.{
  length-le_of_cover, keys_in_inside, keys_in-lookup, vals_out_edge, vals_out-lookup, vals-lookup,
}
use safe_agent.Control.Matching.Kuhn.{Progress, start, augment_all-Ends}

-- The orders of the pairs.
targets : List (ℕ × ℕ) → List ℕ
targets [] = []
targets (e ∷ es) = e.1 ∷ targets es

length-targets : (es : List (ℕ × ℕ)) → length (targets es) ≡ length es
unfolding targets
length-targets [] = refl
length-targets (e ∷ es) = ap suc (length-targets es)

adj_by_claim-targets : (es : List (ℕ × ℕ)) (c : ℕ) → IsWithin (adj_by_claim es c) (targets es)
unfolding adj_by_claim targets mem
adj_by_claim-targets [] c x h = h
adj_by_claim-targets ((d, o) ∷ es) c x h = ground (arith, h, adj_by_claim-targets es c x)

-- A claim with an order is among the claims that hold the left ends of all pairs.
pub adj_by_claim_known :
    (claims : List ℕ) (es : List (ℕ × ℕ)) (c o : ℕ)
    → All (λ e. mem e.0 claims ≡ true) es
    → mem o (adj_by_claim es c) ≡ true
    → mem c claims ≡ true
unfolding adj_by_claim mem
adj_by_claim_known claims [] c o known h = absurd (ground (arith, h))
adj_by_claim_known claims ((d, t) ∷ es) c o known h = elim (Bool-cases (d == c)) [
  | inl e ↦ let same : c ≡ d = ground (arith, e) in rw same known.0
  | inr e ↦ adj_by_claim_known claims es c o known.1 (ground (arith, h, e))
]

-- No matching is larger than one whose search has ended with progress on every claim.
progress_largest :
    (adj : ℕ → List ℕ) (tried : List ℕ) (held m : Table ℕ)
    → Progress adj tried [] held
    → ((c o : ℕ) → mem o (adj c) ≡ true → mem c tried ≡ true)
    → IsMatching adj m
    → length m ≤ length held
progress_largest adj tried held m p known fits =
    length-le_of_cover p.shut m held fits.orders_once fits.claims_once
      (λ o h.
        let (d, holds, inside) = p.closed o (keys_in_inside p.shut o m h) in
        keys_in-lookup p.shut o d held holds (keys_in_inside p.shut o m h))
      (λ c h.
        let (o, out, edge) = vals_out_edge p.shut adj c m fits.edges h in
        elim (p.settled c (known c o edge)) [
          | inr given_up ↦ absurd (ground (arith, given_up o edge, out))
          | inl matched ↦
              let (k, holds) = vals-lookup c held p.matching.orders_once matched in
              elim (Bool-cases (p.shut k)) [
                | inr free ↦ vals_out-lookup p.shut k c held holds free
                | inl busy ↦
                    let (d, holder, inside) = p.closed k busy in
                    let same : c ≡ d = ground (arith, holds, holder) in
                    let yes : p.shut o ≡ true =
                      inside o (subst (λ x. mem o (adj x) ≡ true) same edge) in
                    absurd (ground (arith, yes, out))
              ]
        ])

-- The solver ends with a matching of the compatible pairs that is at least as large as the given
-- matching `m`, when every claim is listed once and the left end of every pair is listed.
pub bipartite_max_matching_maximum :
    (claims : List ℕ) (es : List (ℕ × ℕ))
    → ((c : ℕ) → count c claims ≤ 1)
    → All (λ e. mem e.0 claims ≡ true) es
    → (m : Table ℕ) → IsMatching (adj_by_claim es) m
    → (held : Table ℕ) × (bipartite_max_matching claims es ≡ some held)
      × IsMatching (adj_by_claim es) held
      × (length m ≤ length held)
unfolding bipartite_max_matching mem
bipartite_max_matching_maximum claims es once known m fits =
    let adj : ℕ → List ℕ = adj_by_claim es in
    let (held, tried, e, p, all) =
      augment_all-Ends adj (targets es) (adj_by_claim-targets es) (suc (length es))
        (omega (arith, length-targets es)) [] claims [] (start adj claims once) in
    (
      held,
      e,
      p.matching,
      progress_largest adj tried held m p
          (λ c o h. all c (ground (arith, adj_by_claim_known claims es c o known h))) fits,
    )

-- The same of a result that is at hand.
pub solver_best :
    (claims : List ℕ) (es : List (ℕ × ℕ))
    → ((c : ℕ) → count c claims ≤ 1)
    → All (λ e. mem e.0 claims ≡ true) es
    → (held : Table ℕ) → bipartite_max_matching claims es ≡ some held
    → IsMatching (adj_by_claim es) held
      × ((m : Table ℕ) → IsMatching (adj_by_claim es) m → length m ≤ length held)
solver_best claims es once known held solved = (
  let (best, e, good, larger) = solve [] (nil-IsMatching (adj_by_claim es)) in
      subst (IsMatching (adj_by_claim es)) (same best e) good,
  λ m fits.
      let (best, e, good, larger) = solve m fits in omega (arith, larger, ap length (same best e)),
)
  where
    solve :
        (m : Table ℕ)
        → IsMatching (adj_by_claim es) m
        → (best : Table ℕ) × (bipartite_max_matching claims es ≡ some best)
          × IsMatching (adj_by_claim es) best
          × (length m ≤ length best)
    solve = bipartite_max_matching_maximum claims es once known

    same : (best : Table ℕ) → bipartite_max_matching claims es ≡ some best → best ≡ held
    same best e = let both : some best ≡ some held = sym e ∙ solved in ground (arith, both)
