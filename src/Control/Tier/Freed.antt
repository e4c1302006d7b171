-- ===== src/Control/Tier/Freed.antt =====
-- The matching of `_claim_can_be_unmatched` once the order of the claim is freed, and what a search
-- from that order shows.
use safe_agent.Prelude.{
  ℕ, suc, ◌+◌, ◌≤◌, ◌<◌, List, [], ◌∷◌, length, All, some, true, false, ◌≡◌, refl, sym, ap, ◌∙◌,
  inl, inr, arith, ◌==◌, if◌then◌else◌, Bool-cases,
}
use safe_agent.Prelude.Table.{Table, lookup, erase}
use safe_agent.Prelude.Counts.{mem, count}
use safe_agent.Control.Matching.{exhausted, adj_by_claim}
use safe_agent.Control.Tier.{claim_to_order, adj_by_order}
use safe_agent.Control.Tier.Swap.{
  swap, keys-swap, vals-swap, mem-adj_by_order, swap-IsMatching, claim_to_order-swap, length-swap,
}
use safe_agent.Control.Matching.Augment.{IsWithin, ExhaustsAll}
use safe_agent.Control.Matching.Found.{Adds}
use safe_agent.Control.Matching.Counting.{IsMatching, keys, vals}
use safe_agent.Control.Tier.Mirror.{others, mem-others}
use safe_agent.Control.Tier.Erase.{
  count-keys-erase, count-keys-erase_gone, All-erase, count-vals-erase, length-erase,
}
use mathlib.Core.Path.{subst}
use safe_agent.Control.Tier.Parts.{lookup-edge}
use safe_agent.Control.Tier.Exchange.{joined, joined-IsMatching, length-joined}
use safe_agent.Control.Matching.Cover.{count-keys-some}

pub lookup-swap :
    (c o : ℕ) (t : Table ℕ)
    → ((q : ℕ) → count q (keys t) ≤ 1)
    → lookup c (swap t) ≡ some o
    → lookup o t ≡ some c
unfolding swap lookup keys count
lookup-swap c o [] once h = absurd (ground (arith, h))
lookup-swap c o ((k, v) ∷ t) once h = elim (Bool-cases (v == c)) [
  | inl e ↦ ground (arith, h, e)
  | inr e ↦
      let later = lookup-swap c o t (λ q. omega (arith, once q)) (ground (arith, h, e)) in
      ground (arith, later, once o, count-keys-some o c t later)
]

nothing_in : (x : ℕ) → mem x [] ≡ true → ⊥
unfolding mem
nothing_in x h = ground (arith, h)

-- The claims of the pairs.
pub sources : List (ℕ × ℕ) → List ℕ
sources [] = []
sources (e ∷ es) = e.0 ∷ sources es

pub length-sources : (es : List (ℕ × ℕ)) → length (sources es) ≡ length es
unfolding sources
length-sources [] = refl
length-sources (e ∷ es) = ap suc (length-sources es)

pub others_sources :
    (es : List (ℕ × ℕ)) (c o : ℕ) → IsWithin (others c (adj_by_order es o)) (sources es)
unfolding sources adj_by_order mem
others_sources es c o x h = reach es (ground (arith, h, mem-others c x (adj_by_order es o)))
  where
    reach : (rs : List (ℕ × ℕ)) → mem x (adj_by_order rs o) ≡ true → mem x (sources rs) ≡ true
    reach [] e = e
    reach ((d, q) ∷ rs) e = ground (arith, e, reach rs)

module _ (adj : ℕ → List ℕ) (c : ℕ) where
  to_others :
      (t : Table ℕ)
      → count c (keys t) ≡ 0
      → All (λ p. mem p.0 (adj p.1) ≡ true) t
      → All (λ p. mem p.0 (others c (adj p.1)) ≡ true) t
  unfolding keys count
  to_others [] h edges = tt
  to_others ((x, d) ∷ t) h edges =
      (ground (arith, h, edges.0, mem-others c x (adj d)), to_others t (ground (arith, h)) edges.1)

  from_others :
      (t : Table ℕ)
      → All (λ p. mem p.0 (others c (adj p.1)) ≡ true) t
      → All (λ p. mem p.0 (adj p.1) ≡ true) t × (count c (keys t) ≡ 0)
  unfolding keys count
  from_others [] h = (tt, refl)
  from_others ((x, d) ∷ t) h =
      let (edges, avoids) = from_others t h.1 in
      (
        (ground (arith, h.0, mem-others c x (adj d)), edges),
        ground (arith, h.0, mem-others c x (adj d), avoids),
      )

module _ (es : List (ℕ × ℕ)) (c o : ℕ) (held : Table ℕ) (good : IsMatching (adj_by_claim es) held)
    (has : lookup o held ≡ some c) where
  -- The matching, read from its claims, once the order of `c` is freed.
  pub freed_table : Table ℕ
  freed_table = swap (erase o held)

  fewer : (x : ℕ) → count x (vals (erase o held)) + (if c == x then 1 else 0) ≡ count x (vals held)
  fewer x = count-vals-erase o c x held (good.orders_once o) has

  freed_claim : count c (keys freed_table) ≡ 0
  unfolding freed_table
  freed_claim = rw (keys-swap (erase o held)) (ground (arith, fewer c, good.claims_once c))

  freed_order : count o (vals freed_table) ≡ 0
  unfolding freed_table
  freed_order = rw (vals-swap (erase o held)) (count-keys-erase_gone o held)

  freed_table-IsMatching : IsMatching (adj_by_order es) freed_table
  unfolding freed_table
  freed_table-IsMatching =
      swap-IsMatching (adj_by_claim es) (adj_by_order es) (mem-adj_by_order es) (erase o held)
        (record {
          edges = All-erase o (λ p. mem p.0 (adj_by_claim es p.1) ≡ true) held good.edges;
          orders_once = λ q. omega (arith, count-keys-erase o q held, good.orders_once q);
          claims_once = λ d. ground (arith, fewer d, good.claims_once d);
        })

  length-freed_table : suc (length freed_table) ≡ length held
  unfolding freed_table
  length-freed_table =
      rw (length-swap (erase o held)) (length-erase o c held (good.orders_once o) has)

  pub freed_table_eq : claim_to_order (erase o held) ≡ freed_table
  unfolding freed_table
  freed_table_eq =
      claim_to_order-swap (erase o held) (λ d. ground (arith, fewer d, good.claims_once d))

  -- A search that succeeds has found a matching without the claim.
  pub found_without :
      (after : Table ℕ)
      → Adds
          (λ q. others c (adj_by_order es q))
          freed_table
          (λ x. false)
          o
          (others c (adj_by_order es o))
          []
          after
      → (m : Table ℕ) × IsMatching (adj_by_claim es) m
        × (count c (vals m) ≡ 0)
        × (length m ≡ length held)
  found_without after adds =
      let adj : ℕ → List ℕ = adj_by_order es in
      let table = freed_table-IsMatching in
      let (edges, avoids) =
        from_others adj c after
          (adds.within_edges (to_others adj c freed_table freed_claim table.edges)) in
      let size : length after ≡ length held = adds.larger ∙ length-freed_table in
      (
        swap after,
        swap-IsMatching adj (adj_by_claim es) (λ q d. sym (mem-adj_by_order es d q)) after
            (record {
              edges = edges;
              orders_once = λ d. adds.orders d (table.orders_once d);
              claims_once = λ q. elim (Bool-cases (o == q)) [
                | inr e ↦ ground (arith, adds.claims q, e, table.claims_once q)
                | inl e ↦
                    let same : o ≡ q = ground (arith, e) in
                    let gone : count q (vals freed_table) ≡ 0 =
                      subst (λ k. count k (vals freed_table) ≡ 0) same freed_order in
                    ground (arith, adds.claims q, e, gone)
              ];
            }),
        rw (vals-swap after) avoids,
        rw (length-swap after) size,
      )

  -- A search in vain has shown that no matching of that size leaves the claim out.
  pub exhausted_without :
      (w : List ℕ)
      → ExhaustsAll
          (λ q. others c (adj_by_order es q))
          freed_table
          (others c (adj_by_order es o))
          []
          (exhausted w)
      → ((m : Table ℕ) → IsMatching (adj_by_claim es) m → length m ≤ length held)
      → (m : Table ℕ) → IsMatching (adj_by_claim es) m
      → count c (vals m) ≡ 0
      → length m < length held
  exhausted_without w shuts largest m fits avoids =
      let adj : ℕ → List ℕ = adj_by_order es in
      let table = freed_table-IsMatching in
      let turned = swap-IsMatching (adj_by_claim es) adj (mem-adj_by_order es) m fits in
      let misses : count c (keys (swap m)) ≡ 0 = rw (keys-swap m) avoids in
      let edge : mem c (adj o) ≡ true =
        mem-adj_by_order es c o
        ∙ lookup-edge (λ p. mem p.0 (adj_by_claim es p.1) ≡ true) o c held good.edges has in
      let closed : (x : ℕ)
          → mem x w ≡ true
          → (d : ℕ) × (lookup x freed_table ≡ some d)
            × ((y : ℕ) → mem y (others c (adj d)) ≡ true → mem y w ≡ true) =
        λ x h. elim (shuts.2 x h) [
          | inr busy ↦ busy
          | inl none_before ↦ absurd (nothing_in x none_before)
        ] in
      let both =
        joined-IsMatching adj c o freed_table (swap m) w table turned freed_claim freed_order misses
          edge shuts.1 closed in
      let larger =
        length-joined adj c o freed_table (swap m) w table turned freed_claim freed_order misses
          edge shuts.1 closed in
      let whole = joined adj c o freed_table (swap m) w table turned in
      let bound =
        largest (swap whole) (
          swap-IsMatching adj (adj_by_claim es) (λ q d. sym (mem-adj_by_order es d q)) whole
            both) in
      omega (arith, larger, bound, length-swap whole, length-swap m)
