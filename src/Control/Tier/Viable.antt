-- ===== src/Control/Tier/Viable.antt =====
-- `_edge_is_viable`: forcing an edge and solving what is left decides whether some maximum matching
-- has the edge.
use safe_agent.Control.Tier.{Bool}
use safe_agent.Prelude.{
  ℕ, ◌+◌, ◌≤◌, List, [], ◌∷◌, length, All, some, true, ◌≡◌, sym, ◌∙◌, inl, inr, arith, ◌==◌,
  if◌then◌else◌, Bool-cases,
}
use safe_agent.Prelude.Table.{Table, lookup, erase}
use safe_agent.Prelude.Counts.{mem, count}
use safe_agent.Control.Matching.{adj_by_claim, bipartite_max_matching}
use safe_agent.Control.Matching.Counting.{nil-IsMatching, IsMatching, keys, vals}
use safe_agent.Control.Matching.Maximum.{solver_best}
use safe_agent.Control.Tier.{residual, residual_size, edge_is_viable}
use mathlib.Core.Logic.{◌↔◌}
use safe_agent.Control.Tier.Erase.{
  count-keys-erase, count-keys-erase_gone, All-erase, count-vals-erase, length-erase,
}
use safe_agent.Control.Tier.Residual.{
  other_claims, count-other_claims, All-residual, from_residual, to_residual, residual_size_solved,
}

module _ (claims : List ℕ) (es : List (ℕ × ℕ)) (once : (c : ℕ) → count c claims ≤ 1)
    (known : All (λ e. mem e.0 claims ≡ true) es) (c o : ℕ)
    (edge : mem o (adj_by_claim es c) ≡ true) where
  -- Adding the edge to a residual matching.
  with_edge :
      (t : Table ℕ)
      → IsMatching (adj_by_claim (residual c o es)) t
      → IsMatching (adj_by_claim es) ((o, c) ∷ t)
  unfolding keys vals count
  with_edge t fits =
      let (edges, no_order, no_claim) = from_residual c o es t fits.edges in
      record {
        edges = (edge, edges);
        orders_once = λ q. elim (Bool-cases (o == q)) [
          | inl e ↦ let same : q ≡ o = ground (arith, e) in rw same (ground (arith, no_order))
          | inr e ↦ ground (arith, e, fits.orders_once q)
        ];
        claims_once = λ d. elim (Bool-cases (c == d)) [
          | inl e ↦ let same : d ≡ c = ground (arith, e) in rw same (ground (arith, no_claim))
          | inr e ↦ ground (arith, e, fits.claims_once d)
        ];
      }

  -- Taking the edge out of a matching that has it.
  without_edge :
      (m : Table ℕ)
      → IsMatching (adj_by_claim es) m
      → lookup o m ≡ some c
      → IsMatching (adj_by_claim (residual c o es)) (erase o m)
  without_edge m fits has =
      let edges = All-erase o (λ p. mem p.0 (adj_by_claim es p.1) ≡ true) m fits.edges in
      let fewer : (x : ℕ)
          → count x (vals (erase o m)) + (if c == x then 1 else 0) ≡ count x (vals m) =
        λ x. count-vals-erase o c x m (fits.orders_once o) has in
      let no_claim : count c (vals (erase o m)) ≡ 0 = ground (arith, fewer c, fits.claims_once c) in
      record {
        edges = to_residual c o es (erase o m) edges (count-keys-erase_gone o m) no_claim;
        orders_once = λ q. omega (arith, count-keys-erase o q m, fits.orders_once q);
        claims_once = λ d. ground (arith, fewer d, fits.claims_once d);
      }

  -- The test by its size: the largest residual matching, one short of the whole.
  test_by_size :
      (max_size size : ℕ)
      → residual_size (other_claims c claims) (residual c o es) ≡ some size
      → edge_is_viable c o claims es max_size ≡ some (1 + size == max_size)
  unfolding edge_is_viable other_claims
  test_by_size max_size size e = ground (arith, e)

  solved_residual :
      (m : Table ℕ)
      → IsMatching (adj_by_claim (residual c o es)) m
      → (held : Table ℕ) × (residual_size (other_claims c claims) (residual c o es)
          ≡ some (length held))
        × IsMatching (adj_by_claim (residual c o es)) held
        × (length m ≤ length held)
  solved_residual =
      residual_size_solved (other_claims c claims) (residual c o es)
        (λ x. omega (arith, count-other_claims c x claims, once x))
        (All-residual c o claims es known)

  -- For an edge between claims listed once, and the matching that the solver returns: the test ends,
  -- and it says yes exactly when some matching of that size contains the edge.
  pub edge_is_viable_iff :
      (held : Table ℕ)
      → bipartite_max_matching claims es ≡ some held
      → (answer : Bool) × (edge_is_viable c o claims es (length held) ≡ some answer)
        × ((answer ≡ true) ↔ (
            (m : Table ℕ) × IsMatching (adj_by_claim es) m
            × (lookup o m ≡ some c)
            × (length m ≡ length held)))
  unfolding lookup
  edge_is_viable_iff held solved =
      let (good, largest) = solver_best claims es once known held solved in
      let (least, at_least, least_good, larger) =
        solved_residual [] (nil-IsMatching (adj_by_claim (residual c o es))) in
      (
        1 + length least == length held,
        test_by_size (length held) (length least) at_least,
        (
          λ says. ((o, c) ∷ least, with_edge least least_good, ground arith, ground (arith, says)),
          λ (m, fits, has, size).
              let (rest, e, rest_good, rest_larger) =
                solved_residual (erase o m) (without_edge m fits has) in
              let both : some (length rest) ≡ some (length least) = sym e ∙ at_least in
              let equal : length rest ≡ length least = ground (arith, both) in
              let shrunk = length-erase o c m (fits.orders_once o) has in
              let bound = largest ((o, c) ∷ least) (with_edge least least_good) in
              let exact : 1 + length least ≡ length held =
                omega (arith, equal, rest_larger, shrunk, size, bound) in
              ground (arith, exact),
        ),
      )
