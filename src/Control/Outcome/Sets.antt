-- ===== src/Control/Outcome/Sets.antt =====
-- The sets that `_max_matchings_for_tier` fills, one for each claim and one for each order.
use safe_agent.Prelude.{
  ℕ, List, [], ◌∷◌, none, some, Bool, true, false, ◌&&◌, ◌||◌, ◌≡◌, refl, sym, ◌∙◌, inl, inr, arith,
  ◌==◌, Bool-cases, Option-cases,
}
use safe_agent.Prelude.Table.{Table, lookup, insert, lookup-insert}
use safe_agent.Prelude.Counts.{mem}
use safe_agent.Control.Outcome.{add, add_to, add_pair, empty_sets}
use safe_agent.Prelude.{is_some}

-- `x in sets[k]`
unfoldable pub in_set : ℕ → ℕ → Table (List ℕ) → Bool
in_set k x sets = elim (lookup k sets) [ none ↦ false | some s ↦ mem x s ]

abbrev Sets : Type 0
Sets = Table (List ℕ) × Table (List ℕ)

pub mem-add : (x y : ℕ) (s : List ℕ) → mem y (add x s) ≡ (x == y || mem y s)
unfolding add mem
mem-add x y [] = ground arith
mem-add x y (z ∷ s) = ground (arith, mem-add x y s)

-- Every id has a set.
abbrev pub HasSets : List ℕ → Table (List ℕ) → Type 0
HasSets ids sets = (k : ℕ) → mem k ids ≡ true → is_some (lookup k sets) ≡ true

pub empty_sets-HasSets : (ids : List ℕ) → HasSets ids (empty_sets ids)
unfolding empty_sets lookup mem
empty_sets-HasSets [] k h = ground (arith, h)
empty_sets-HasSets (i ∷ ids) k h = ground (arith, h, empty_sets-HasSets ids k)

pub in_set-empty_sets : (ids : List ℕ) (k x : ℕ) → in_set k x (empty_sets ids) ≡ false
unfolding empty_sets lookup mem in_set
in_set-empty_sets [] k x = refl
in_set-empty_sets (i ∷ ids) k x = ground (arith, in_set-empty_sets ids k x)

-- Adding to a set that is there.
pub add_to_lem :
    (ids : List ℕ) (k x : ℕ) (sets : Table (List ℕ))
    → HasSets ids sets
    → mem k ids ≡ true
    → (more : Table (List ℕ)) × (add_to k x sets ≡ some more)
      × HasSets ids more
      × ((j y : ℕ) → in_set j y more ≡ (in_set j y sets || (k == j && x == y)))
unfolding add_to in_set
add_to_lem ids k x sets has known = elim (Option-cases (lookup k sets)) [
  | inl e ↦ absurd (ground (arith, e, has k known))
  | inr (s, e) ↦ (
    insert k (add x s) sets,
    ground (arith, e),
    λ j h. ground (arith, has j h, lookup-insert k j (add x s) sets),
    λ j y. elim (Bool-cases (k == j)) [
      | inl q ↦
          let same : j ≡ k = ground (arith, q) in
          rw same (ground (arith, e, lookup-insert k k (add x s) sets, mem-add x y s))
      | inr q ↦ ground (arith, q, lookup-insert k j (add x s) sets)
    ],
  )
]

-- The sets of the claims and of the orders, kept together: each pair is in both or in none.
pub record Filled (claims orders : List ℕ) (sets : Table (List ℕ) × Table (List ℕ)) : Type 0 where
  pub claim_sets : HasSets claims sets.0
  pub order_sets : HasSets orders sets.1
  pub mirrored : (c o : ℕ) → in_set o c sets.1 ≡ in_set c o sets.0

pub empty_sets-Filled :
    (claims orders : List ℕ) → Filled claims orders (empty_sets claims, empty_sets orders)
empty_sets-Filled claims orders = record {
  claim_sets = empty_sets-HasSets claims;
  order_sets = empty_sets-HasSets orders;
  mirrored = λ c o. in_set-empty_sets orders o c ∙ sym (in_set-empty_sets claims c o);
}

pub add_pair_lem :
    (claims orders : List ℕ) (c o : ℕ) (sets : Table (List ℕ) × Table (List ℕ))
    → Filled claims orders sets
    → mem c claims ≡ true
    → mem o orders ≡ true
    → (more : Table (List ℕ) × Table (List ℕ)) × (add_pair c o sets ≡ some more)
      × Filled claims orders more
      × ((d q : ℕ) → in_set d q more.0 ≡ (in_set d q sets.0 || (c == d && o == q)))
unfolding add_pair
add_pair_lem claims orders c o (ps, hs) filled known_c known_o =
    let (ps', e, has, more) = add_to_lem claims c o ps filled.claim_sets known_c in
    let (hs', e', has', more') = add_to_lem orders o c hs filled.order_sets known_o in
    (
      (ps', hs'),
      ground (arith, e, e'),
      record {
        claim_sets = has;
        order_sets = has';
        mirrored = λ d q. ground (arith, more d q, more' q d, filled.mirrored d q);
      },
      more,
    )
