-- ===== src/Control/Tier.antt =====
-- The two questions that control/v15/reconcile_v12.py asks of the matchings of an evidence tier:
-- `_claim_can_be_unmatched` and `_edge_is_viable`. No answer is a search out of fuel.
pub mod Swap
pub mod Erase
pub mod Residual
pub mod Viable
pub mod Mirror
pub mod Parts
pub mod Exchange
pub mod Freed
pub mod Unmatched
use safe_agent.Prelude.{
  ltb, ℕ, zero, suc, ◌+◌, ◌-◌, ◌*◌, ◌≤◌, ◌<◌, List, [], ◌∷◌, ◌++◌, length, All, Option, none, some,
  Bool, true, false, not, ◌&&◌, ◌||◌, ◌≡◌, refl, sym, ap, ◌∙◌, ◌≢◌, ◌⊎◌, inl, inr, arith, ltb, leb,
  ◌==◌, if◌then◌else◌, Bool-cases, Option-cases, String,
}
use safe_agent.Prelude.Table.{Table, lookup, insert, erase, lookup-insert}
use safe_agent.Prelude.Counts.{mem, count, mem-count, count-mem, length-le_of_count}
use safe_agent.Prelude.Lists.{filter_by}
use safe_agent.Control.Matching.{
  Answer, found, exhausted, out_of_fuel, try_orders, try_augment, augment_all, adj_by_claim,
  bipartite_max_matching,
}

-- `{c: o for o, c in order_to_claim.items()}`
unfoldable pub reverse_onto : Table ℕ → Table ℕ → Table ℕ
reverse_onto acc [] = acc
reverse_onto acc ((o, c) ∷ t) = reverse_onto (insert c o acc) t

unfoldable pub claim_to_order : Table ℕ → Table ℕ
unfolding reverse_onto
claim_to_order order_to_claim = reverse_onto [] order_to_claim

-- `adj_by_order[o]`
unfoldable pub adj_by_order : List (ℕ × ℕ) → ℕ → List ℕ
adj_by_order [] o = []
adj_by_order ((c, q) ∷ es) o = let rest = adj_by_order es o in if q == o then c ∷ rest else rest

-- The body of `try_augment_order`, which never uses the claim `freed`.
unfoldable pub try_claims : (ℕ → List ℕ → Answer) → ℕ → Table ℕ → ℕ → List ℕ → List ℕ → Answer
try_claims recurse freed held o [] visited = exhausted visited
try_claims recurse freed held o (c ∷ cs) visited = elim (c == freed || mem c visited) [
  | true ↦ try_claims recurse freed held o cs visited
  | false ↦ elim (lookup c held) [
    | none ↦ found (insert c o held)
    | some q ↦ elim (recurse q (c ∷ visited)) [
      | found after ↦ found (insert c o after)
      | exhausted seen ↦ try_claims recurse freed held o cs seen
      | out_of_fuel ↦ out_of_fuel
    ]
  ]
]

unfoldable pub try_augment_order : (ℕ → List ℕ) → ℕ → Table ℕ → ℕ → ℕ → List ℕ → Answer
unfolding try_claims
try_augment_order adj freed held zero o visited = out_of_fuel
try_augment_order adj freed held (suc fuel) o visited =
    try_claims (λ q seen. try_augment_order adj freed held fuel q seen) freed held o (adj o) visited

unfoldable pub has_found : Answer → Option Bool
has_found (found after) = some true
has_found (exhausted seen) = some false
has_found out_of_fuel = none

unfoldable pub claim_can_be_unmatched : ℕ → Table ℕ → Table ℕ → List (ℕ × ℕ) → Option Bool
unfolding claim_to_order adj_by_order try_augment_order has_found
claim_can_be_unmatched c by_claim by_order compatible = elim (lookup c by_claim) [
  | none ↦ some true
  | some o ↦ has_found (
      try_augment_order (adj_by_order compatible) c (claim_to_order (erase o by_order))
        (suc (length compatible)) o [])
]

-- `residual_compatible`: the pairs without the claim `c` and the order `o`
unfoldable pub residual : ℕ → ℕ → List (ℕ × ℕ) → List (ℕ × ℕ)
residual c o [] = []
residual c o ((d, q) ∷ es) =
    let rest = residual c o es in if not (d == c) && not (q == o) then (d, q) ∷ rest else rest

unfoldable pub residual_size : List ℕ → List (ℕ × ℕ) → Option ℕ
unfolding bipartite_max_matching claim_to_order
residual_size claims [] = some 0
residual_size claims (e ∷ es) = elim (bipartite_max_matching claims (e ∷ es)) [
  | none ↦ none
  | some by_order ↦ some (length (claim_to_order by_order))
]

unfoldable pub edge_is_viable : ℕ → ℕ → List ℕ → List (ℕ × ℕ) → ℕ → Option Bool
unfolding residual residual_size filter_by
edge_is_viable c o claims compatible max_size =
    elim (residual_size (filter_by (λ d. not (d == c)) claims) (residual c o compatible)) [
      | none ↦ none
      | some size ↦ some (1 + size == max_size)
    ]
