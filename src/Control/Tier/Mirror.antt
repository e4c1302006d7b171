-- ===== src/Control/Tier/Mirror.antt =====
-- The search of `_claim_can_be_unmatched` is a search of Kuhn's algorithm with the sides exchanged and
-- one claim left out.
use safe_agent.Prelude.{
  ℕ, zero, suc, List, [], ◌∷◌, none, some, true, false, not, ◌&&◌, ◌||◌, ◌≡◌, refl, sym, ◌∙◌, inl,
  inr, arith, ◌==◌, Bool-cases, Option-cases,
}
use safe_agent.Prelude.Table.{Table, lookup, insert}
use safe_agent.Prelude.Counts.{mem}
use safe_agent.Prelude.Lists.{filter_by}
use safe_agent.Control.Matching.{Answer, found, exhausted, out_of_fuel, try_orders, try_augment}
use safe_agent.Control.Tier.{try_claims, try_augment_order}
use safe_agent.Control.Matching.Augment.{
  Answer-cases, try_orders_seen, try_orders_free, try_orders_won, try_orders_lost, try_orders_stuck,
}

unfoldable pub others : ℕ → List ℕ → List ℕ
unfolding filter_by
others freed cs = filter_by (λ c. not (c == freed)) cs

pub mem-others :
    (freed x : ℕ) (cs : List ℕ) → mem x (others freed cs) ≡ not (x == freed) && mem x cs
unfolding others filter_by mem
mem-others freed x [] = ground arith
mem-others freed x (c ∷ cs) = ground (arith, mem-others freed x cs)

module _ (recurse : ℕ → List ℕ → Answer) (freed : ℕ) (held : Table ℕ) (o c : ℕ)
    (cs v : List ℕ) where
  claims_skipped :
      (c == freed || mem c v) ≡ true
      → try_claims recurse freed held o (c ∷ cs) v ≡ try_claims recurse freed held o cs v
  unfolding try_claims
  claims_skipped e = ground (arith, e)

  claims_free :
      (c == freed || mem c v) ≡ false
      → lookup c held ≡ none
      → try_claims recurse freed held o (c ∷ cs) v ≡ found (insert c o held)
  unfolding try_claims
  claims_free e f = ground (arith, e, f)

  claims_won :
      (q : ℕ) (after : Table ℕ)
      → (c == freed || mem c v) ≡ false
      → lookup c held ≡ some q
      → recurse q (c ∷ v) ≡ found after
      → try_claims recurse freed held o (c ∷ cs) v ≡ found (insert c o after)
  unfolding try_claims
  claims_won q after e f g = ground (arith, e, f, g)

  claims_lost :
      (q : ℕ) (seen : List ℕ)
      → (c == freed || mem c v) ≡ false
      → lookup c held ≡ some q
      → recurse q (c ∷ v) ≡ exhausted seen
      → try_claims recurse freed held o (c ∷ cs) v ≡ try_claims recurse freed held o cs seen
  unfolding try_claims
  claims_lost q seen e f g = ground (arith, e, f, g)

  claims_stuck :
      (q : ℕ)
      → (c == freed || mem c v) ≡ false
      → lookup c held ≡ some q
      → recurse q (c ∷ v) ≡ out_of_fuel
      → try_claims recurse freed held o (c ∷ cs) v ≡ out_of_fuel
  unfolding try_claims
  claims_stuck q e f g = ground (arith, e, f, g)

module _ (freed : ℕ) (held : Table ℕ) where
  nothing_to_try :
      (r s : ℕ → List ℕ → Answer) (o : ℕ) (v : List ℕ)
      → try_claims r freed held o [] v ≡ try_orders s held o [] v
  unfolding try_claims try_orders
  nothing_to_try r s o v = refl

  try_claims-try_orders :
      (r s : ℕ → List ℕ → Answer)
      → ((q : ℕ) (w : List ℕ) → r q w ≡ s q w)
      → (o : ℕ) (cs v : List ℕ)
      → try_claims r freed held o cs v ≡ try_orders s held o (others freed cs) v
  unfolding others filter_by
  try_claims-try_orders r s same o [] v = nothing_to_try r s o v
  try_claims-try_orders r s same o (c ∷ cs) v =
      let loop = try_claims-try_orders r s same o cs in
      elim (Bool-cases (c == freed)) [
        | inl e ↦ claims_skipped r freed held o c cs v (ground (arith, e)) ∙ loop v ∙ rw e refl
        | inr e ↦ rw e (elim (Bool-cases (mem c v)) [
          | inl m ↦
              claims_skipped r freed held o c cs v (ground (arith, m))
              ∙ loop v
              ∙ sym (try_orders_seen s held o c (others freed cs) v m)
          | inr m ↦
              let go : (c == freed || mem c v) ≡ false = ground (arith, e, m) in
              elim (Option-cases (lookup c held)) [
                | inl f ↦
                    claims_free r freed held o c cs v go f
                    ∙ sym (try_orders_free s held o c (others freed cs) v m f)
                | inr (q, f) ↦ elim (Answer-cases (s q (c ∷ v))) [
                  | inl (after, won) ↦
                      claims_won r freed held o c cs v q after go f (same q (c ∷ v) ∙ won)
                      ∙ sym (try_orders_won s held o c (others freed cs) v q after m f won)
                  | inr (inl (seen, lost)) ↦
                      claims_lost r freed held o c cs v q seen go f (same q (c ∷ v) ∙ lost)
                      ∙ loop seen
                      ∙ sym (try_orders_lost s held o c (others freed cs) v q seen m f lost)
                  | inr (inr stuck) ↦
                      claims_stuck r freed held o c cs v q go f (same q (c ∷ v) ∙ stuck)
                      ∙ sym (try_orders_stuck s held o c (others freed cs) v q m f stuck)
                ]
              ]
        ])
      ]

  pub try_augment_order-try_augment :
      (adj : ℕ → List ℕ) (fuel o : ℕ) (v : List ℕ)
      → try_augment_order adj freed held fuel o v
        ≡ try_augment (λ q. others freed (adj q)) held fuel o v
  unfolding try_augment_order try_augment
  try_augment_order-try_augment adj zero o v = refl
  try_augment_order-try_augment adj (suc fuel) o v =
      try_claims-try_orders (try_augment_order adj freed held fuel)
        (try_augment (λ q. others freed (adj q)) held fuel) (try_augment_order-try_augment adj fuel)
        o (adj o) v
