-- ===== src/Control/Tier/Residual.antt =====
-- The pairs that are left when an edge is forced, and the size of their matchings.
use safe_agent.Prelude.{
  ℕ, ◌≤◌, List, [], ◌∷◌, length, All, some, true, false, not, ◌&&◌, ◌≡◌, refl, ap, ◌∙◌, inl, inr,
  arith, ◌==◌, Bool-cases,
}
use safe_agent.Prelude.Table.{Table}
use safe_agent.Prelude.Counts.{mem, count}
use safe_agent.Prelude.Lists.{filter_by}
use safe_agent.Control.Matching.{adj_by_claim, bipartite_max_matching}
use safe_agent.Control.Matching.Counting.{IsMatching, keys, vals}
use safe_agent.Control.Matching.Maximum.{bipartite_max_matching_maximum}
use safe_agent.Control.Tier.{residual, residual_size, claim_to_order}
use safe_agent.Control.Tier.Swap.{claim_to_order-swap, length-swap}

module _ (c o : ℕ) where
  pub residual_edge :
      (es : List (ℕ × ℕ)) (d q : ℕ)
      → mem q (adj_by_claim (residual c o es) d) ≡ true
      → ((d == c) ≡ false) × ((q == o) ≡ false) × (mem q (adj_by_claim es d) ≡ true)
  unfolding residual adj_by_claim mem
  residual_edge [] d q h = absurd (ground (arith, h))
  residual_edge ((a, b) ∷ es) d q h = ground (arith, h, residual_edge es d q)

  pub edge_residual :
      (es : List (ℕ × ℕ)) (d q : ℕ)
      → (d == c) ≡ false
      → (q == o) ≡ false
      → mem q (adj_by_claim es d) ≡ true
      → mem q (adj_by_claim (residual c o es) d) ≡ true
  unfolding residual adj_by_claim mem
  edge_residual [] d q apart other h = absurd (ground (arith, h))
  edge_residual ((a, b) ∷ es) d q apart other h =
      ground (arith, apart, other, h, edge_residual es d q apart other)

module _ (c : ℕ) where
  unfoldable pub other_claims : List ℕ → List ℕ
  other_claims claims = filter_by (λ d. not (d == c)) claims

  pub count-other_claims :
      (x : ℕ) (claims : List ℕ) → count x (other_claims claims) ≤ count x claims
  unfolding other_claims filter_by count
  count-other_claims x [] = omega arith
  count-other_claims x (d ∷ ds) = ground (arith, count-other_claims x ds)

  pub mem-other_claims :
      (x : ℕ) (claims : List ℕ)
      → mem x claims ≡ true
      → (x == c) ≡ false
      → mem x (other_claims claims) ≡ true
  unfolding other_claims filter_by mem
  mem-other_claims x [] h apart = absurd (ground (arith, h))
  mem-other_claims x (d ∷ ds) h apart = ground (arith, h, apart, mem-other_claims x ds)

module _ (c o : ℕ) where
  pub All-residual :
      (claims : List ℕ) (es : List (ℕ × ℕ))
      → All (λ e. mem e.0 claims ≡ true) es
      → All (λ e. mem e.0 (other_claims c claims) ≡ true) (residual c o es)
  unfolding residual
  All-residual claims [] known = tt
  All-residual claims ((a, b) ∷ es) known = elim (Bool-cases (not (a == c) && not (b == o))) [
    | inr e ↦ rw e (All-residual claims es known.1)
    | inl e ↦
        rw e
          (mem-other_claims c a claims known.0 (ground (arith, e)), All-residual claims es known.1)
  ]

  -- A matching of the residual pairs is one of all pairs, and has room for the edge.
  pub from_residual :
      (es : List (ℕ × ℕ)) (t : Table ℕ)
      → All (λ p. mem p.0 (adj_by_claim (residual c o es) p.1) ≡ true) t
      → All (λ p. mem p.0 (adj_by_claim es p.1) ≡ true) t
        × (count o (keys t) ≡ 0)
        × (count c (vals t) ≡ 0)
  unfolding keys vals count
  from_residual es [] h = (tt, refl, refl)
  from_residual es ((q, d) ∷ t) h =
      let (apart, other, edge) = residual_edge c o es d q h.0 in
      let (edges, no_order, no_claim) = from_residual es t h.1 in
      ((edge, edges), ground (arith, other, no_order), ground (arith, apart, no_claim))

  pub to_residual :
      (es : List (ℕ × ℕ)) (t : Table ℕ)
      → All (λ p. mem p.0 (adj_by_claim es p.1) ≡ true) t
      → count o (keys t) ≡ 0
      → count c (vals t) ≡ 0
      → All (λ p. mem p.0 (adj_by_claim (residual c o es) p.1) ≡ true) t
  unfolding keys vals count
  to_residual es [] h no_order no_claim = tt
  to_residual es ((q, d) ∷ t) h no_order no_claim = (
    edge_residual c o es d q (ground (arith, no_claim)) (ground (arith, no_order)) h.0,
    to_residual es t h.1 (ground (arith, no_order)) (ground (arith, no_claim)),
  )

module _ (claims : List ℕ) (es : List (ℕ × ℕ)) (once : (c : ℕ) → count c claims ≤ 1)
    (known : All (λ e. mem e.0 claims ≡ true) es) where
  solve_step :
      (r : ℕ × ℕ) (rs : List (ℕ × ℕ)) (held : Table ℕ)
      → bipartite_max_matching claims (r ∷ rs) ≡ some held
      → residual_size claims (r ∷ rs) ≡ some (length (claim_to_order held))
  unfolding residual_size
  solve_step r rs held e = ground (arith, e)

  -- The residual is solved with a matching at least as large as any given one.
  pub residual_size_solved :
      (m : Table ℕ)
      → IsMatching (adj_by_claim es) m
      → (held : Table ℕ) × (residual_size claims es ≡ some (length held))
        × IsMatching (adj_by_claim es) held
        × (length m ≤ length held)
  unfolding residual_size adj_by_claim mem
  residual_size_solved m fits = solved es known m fits
    where
      solved :
          (rs : List (ℕ × ℕ))
          → All (λ e. mem e.0 claims ≡ true) rs
          → (n : Table ℕ) → IsMatching (adj_by_claim rs) n
          → (held : Table ℕ) × (residual_size claims rs ≡ some (length held))
            × IsMatching (adj_by_claim rs) held
            × (length n ≤ length held)
      solved [] all [] fit = ([], refl, fit, omega arith)
      solved [] all (p ∷ n) fit = absurd (ground (arith, fit.edges.0))
      solved (r ∷ rs) all n fit =
          let (held, e, good, larger) =
            bipartite_max_matching_maximum claims (r ∷ rs) once all n fit in
          let size : length (claim_to_order held) ≡ length held =
            ap length (claim_to_order-swap held good.claims_once) ∙ length-swap held in
          (held, solve_step r rs held e ∙ ap some size, good, larger)
