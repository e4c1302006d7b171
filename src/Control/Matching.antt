-- ===== src/Control/Matching.antt =====
-- The matching solver of control/v15/reconcile_v12.py: Kuhn's algorithm over the pairs of a claim
-- and an order that one evidence tier makes compatible. A set of pairs is its sorted list; a
-- matching is the table order -> claim (`order_to_claim`).
pub mod Counting
pub mod Augment
pub mod Found
pub mod Cover
pub mod Kuhn
pub mod Maximum
use safe_agent.Prelude.{
  ℕ, zero, suc, ◌+◌, ◌-◌, ◌*◌, ◌≤◌, ◌<◌, List, [], ◌∷◌, ◌++◌, length, All, Option, none, some, Bool,
  true, false, not, ◌&&◌, ◌||◌, ◌≡◌, refl, sym, ap, ◌∙◌, ◌≢◌, ◌⊎◌, inl, inr, arith, ltb, leb, ◌==◌,
  if◌then◌else◌, Bool-cases, Option-cases, String,
}
use safe_agent.Prelude.Table.{Table, lookup, insert, erase, lookup-insert}
use safe_agent.Prelude.Counts.{mem, count, mem-count, count-mem, length-le_of_count}
use safe_agent.Prelude.Lists.{filter_by}

-- What `try_augment` leaves: the table it has changed, or the orders it has visited in vain. The
-- table changes only on the way out of a search that succeeds, and the visited set is read only
-- by a search that goes on.
pub data Answer : Type 0 where
  found : Table ℕ → Answer
  exhausted : List ℕ → Answer
  out_of_fuel : Answer

-- `adj_by_claim[c]`
unfoldable pub adj_by_claim : List (ℕ × ℕ) → ℕ → List ℕ
adj_by_claim [] c = []
adj_by_claim ((d, o) ∷ es) c = let rest = adj_by_claim es c in if d == c then o ∷ rest else rest

-- The body of `try_augment`: the loop over the orders `os` that `c` may take, where `recurse` is the
-- nested call.
unfoldable pub try_orders : (ℕ → List ℕ → Answer) → Table ℕ → ℕ → List ℕ → List ℕ → Answer
try_orders recurse held c [] visited = exhausted visited
try_orders recurse held c (o ∷ os) visited = elim (mem o visited) [
  | true ↦ try_orders recurse held c os visited
  | false ↦ elim (lookup o held) [
    | none ↦ found (insert o c held)
    | some d ↦ elim (recurse d (o ∷ visited)) [
      | found after ↦ found (insert o c after)
      | exhausted seen ↦ try_orders recurse held c os seen
      | out_of_fuel ↦ out_of_fuel
    ]
  ]
]

unfoldable pub try_augment : (ℕ → List ℕ) → Table ℕ → ℕ → ℕ → List ℕ → Answer
unfolding try_orders
try_augment adj held zero c visited = out_of_fuel
try_augment adj held (suc fuel) c visited =
    try_orders (λ d seen. try_augment adj held fuel d seen) held c (adj c) visited

-- `for c in sorted(claim_ids): try_augment(c, set())`
unfoldable pub augment_all : (ℕ → List ℕ) → ℕ → List ℕ → Table ℕ → Option (Table ℕ)
unfolding try_augment
augment_all adj fuel [] held = some held
augment_all adj fuel (c ∷ cs) held = elim (try_augment adj held fuel c []) [
  | found after ↦ augment_all adj fuel cs after
  | exhausted seen ↦ augment_all adj fuel cs held
  | out_of_fuel ↦ none
]

-- `_bipartite_max_matching`: no search visits more orders than there are pairs.
unfoldable pub bipartite_max_matching : List ℕ → List (ℕ × ℕ) → Option (Table ℕ)
unfolding augment_all adj_by_claim
bipartite_max_matching claim_ids compatible =
    augment_all (adj_by_claim compatible) (suc (length compatible)) claim_ids []
