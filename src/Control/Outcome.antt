-- ===== src/Control/Outcome.antt =====
-- `_max_matchings_for_tier` of control/v15/reconcile_v12.py. No result is a lookup of a missing key,
-- or a search out of fuel.
pub mod Sets
pub mod Loops
pub mod Edges
pub mod Exactly
pub mod Exact
use safe_agent.Prelude.{
  ℕ, zero, suc, ◌+◌, ◌-◌, ◌*◌, ◌≤◌, ◌<◌, List, [], ◌∷◌, ◌++◌, length, All, Option, none, some, Bool,
  true, false, not, ◌&&◌, ◌||◌, ◌≡◌, refl, sym, ap, ◌∙◌, ◌≢◌, ◌⊎◌, inl, inr, arith, ltb, leb, ◌==◌,
  if◌then◌else◌, Bool-cases, Option-cases, String,
}
use safe_agent.Prelude.Table.{Table, lookup, insert, erase, lookup-insert}
use safe_agent.Prelude.Counts.{mem, count, mem-count, count-mem, length-le_of_count}
use safe_agent.Prelude.Lists.{filter_by}
use safe_agent.Control.Matching.{bipartite_max_matching}
use safe_agent.Control.Tier.{claim_to_order, claim_can_be_unmatched, edge_is_viable}

infixl 5 ◌>>=◌
abbrev pub ◌>>=◌ : {A B : Type 0} → Option A → (A → Option B) → Option B
none >>= f = none
some a >>= f = f a

-- A Python set of numbers, as its sorted list.
unfoldable pub add : ℕ → List ℕ → List ℕ
add x [] = x ∷ []
add x (y ∷ ys) =
    let rest = add x ys in if x == y then y ∷ ys else if ltb x y then x ∷ y ∷ ys else y ∷ rest

-- `{k: set() for k in ids}`, for distinct ids
unfoldable pub empty_sets : List ℕ → Table (List ℕ)
empty_sets [] = []
empty_sets (k ∷ ks) = (k, []) ∷ empty_sets ks

-- `sets[k].add(x)`
unfoldable pub add_to : ℕ → ℕ → Table (List ℕ) → Option (Table (List ℕ))
unfolding add lookup insert
add_to k x sets = elim (lookup k sets) [ none ↦ none | some s ↦ some (insert k (add x s) sets) ]

-- `possible_partners` and `possible_holders`, after `possible_partners[c].add(o)` and
-- `possible_holders[o].add(c)`.
unfoldable pub add_pair :
    ℕ → ℕ → Table (List ℕ) × Table (List ℕ) → Option (Table (List ℕ) × Table (List ℕ))
unfolding add_to
add_pair c o (partners, holders) = do
  new_partners ← add_to c o partners
  new_holders ← add_to o c holders
  some (new_partners, new_holders)

-- `for c, o in claim_to_order.items()`
unfoldable pub add_reference :
    Table ℕ → Table (List ℕ) × Table (List ℕ) → Option (Table (List ℕ) × Table (List ℕ))
unfolding add_pair
add_reference [] sets = some sets
add_reference ((c, o) ∷ t) sets = elim (add_pair c o sets) [
  | none ↦ none
  | some more ↦ add_reference t more
]

-- `(c, o) in reference_edges`
unfoldable pub in_reference : ℕ → ℕ → Table ℕ → Bool
in_reference c o [] = false
in_reference c o ((d, q) ∷ t) = (d == c && q == o) || in_reference c o t

-- The loop over the sorted pairs, where `viable` is the test of one edge.
unfoldable pub add_viable :
    (ℕ → ℕ → Option Bool)
    → Table ℕ
    → List (ℕ × ℕ)
    → Table (List ℕ) × Table (List ℕ)
    → Option (Table (List ℕ) × Table (List ℕ))
unfolding add_pair in_reference
add_viable viable reference [] sets = some sets
add_viable viable reference ((c, o) ∷ es) sets = elim (in_reference c o reference) [
  | true ↦ add_viable viable reference es sets
  | false ↦ elim (viable c o) [
    | none ↦ none
    | some false ↦ add_viable viable reference es sets
    | some true ↦ elim (add_pair c o sets) [
      | none ↦ none
      | some more ↦ add_viable viable reference es more
    ]
  ]
]

-- `{c for c in claim_ids if not ...}`, where `free` is the test of one claim.
unfoldable pub always_matched_in : (ℕ → Option Bool) → List ℕ → Option (List ℕ)
unfolding add
always_matched_in free [] = some []
always_matched_in free (c ∷ cs) = elim (free c) [
  | none ↦ none
  | some can ↦ elim (always_matched_in free cs) [
    | none ↦ none
    | some rest ↦ some (if can then rest else add c rest)
  ]
]

pub record TierMatchResult : Type 0 where
  pub max_size : ℕ
  pub possible_partners : Table (List ℕ)
  pub possible_holders : Table (List ℕ)
  pub always_matched : List ℕ

-- What follows from a matching that is not empty.
unfoldable pub tier_result : List ℕ → List ℕ → List (ℕ × ℕ) → Table ℕ → Option TierMatchResult
unfolding claim_to_order claim_can_be_unmatched edge_is_viable add_reference add_viable
    always_matched_in empty_sets
tier_result claim_ids order_ids compatible by_order =
    let by_claim = claim_to_order by_order in
    let size = length by_claim in
    do
      sets ← add_reference by_claim (empty_sets claim_ids, empty_sets order_ids)
      all ←
          add_viable (λ c o. edge_is_viable c o claim_ids compatible size) by_claim compatible sets
      always ←
          always_matched_in (λ c. claim_can_be_unmatched c by_claim by_order compatible) claim_ids
      some (record {
        max_size = size;
        possible_partners = all.0;
        possible_holders = all.1;
        always_matched = always;
      })

unfoldable pub max_matchings_for_tier : List ℕ → List ℕ → List (ℕ × ℕ) → Option TierMatchResult
unfolding bipartite_max_matching claim_to_order empty_sets tier_result
max_matchings_for_tier claim_ids order_ids compatible =
    elim (bipartite_max_matching claim_ids compatible) [
      | none ↦ none
      | some by_order ↦ elim (length (claim_to_order by_order) == 0) [
        | true ↦ some (record {
          max_size = 0;
          possible_partners = empty_sets claim_ids;
          possible_holders = empty_sets order_ids;
          always_matched = [];
        })
        | false ↦ tier_result claim_ids order_ids compatible by_order
      ]
    ]
