-- ===== src/Control/Matching/Kuhn.antt =====
-- `_bipartite_max_matching`: it ends with a matching, and no matching is larger.
use safe_agent.Prelude.{
  ℕ, ◌+◌, ◌≤◌, ◌<◌, List, [], ◌∷◌, length, Option, some, Bool, true, false, ◌||◌, ◌≡◌, refl, ◌∙◌,
  ◌⊎◌, inl, inr, arith, ◌==◌, Bool-cases,
}
use safe_agent.Prelude.Table.{Table}
use safe_agent.Prelude.Counts.{mem, count}
use mathlib.Core.Path.{subst}
use safe_agent.Control.Matching.{found, exhausted, try_augment, augment_all}
use safe_agent.Control.Matching.Counting.{IsMatching, keys, vals}
use safe_agent.Control.Matching.Augment.{
  IsWithin, Answer-cases, ExhaustsAll, try_augment-exhausts, length-unvisited,
}
use safe_agent.Control.Matching.Found.{IsClosed, Adds, FindsWell, try_augment-FindsWell}

module _ (adj : ℕ → List ℕ) (fuel c : ℕ) (cs : List ℕ) (held : Table ℕ) where
  augment_all_won :
      (after : Table ℕ)
      → try_augment adj held fuel c [] ≡ found after
      → augment_all adj fuel (c ∷ cs) held ≡ augment_all adj fuel cs after
  unfolding augment_all
  augment_all_won after e = ground (arith, e)

  augment_all_lost :
      (w : List ℕ)
      → try_augment adj held fuel c [] ≡ exhausted w
      → augment_all adj fuel (c ∷ cs) held ≡ augment_all adj fuel cs held
  unfolding augment_all
  augment_all_lost w e = ground (arith, e)

module _ (adj : ℕ → List ℕ) where
  -- After the claims `before` `todo` have been searched: a matching that holds no claim still to
  -- come, and closed orders that contain every order of each claim that was not matched.
  pub record Progress (done todo : List ℕ) (held : Table ℕ) : Type 0 where
    pub matching : IsMatching adj held
    pub fresh : (c : ℕ) → count c (vals held) + count c todo ≤ 1
    pub shut : ℕ → Bool
    pub closed : IsClosed adj held shut
    pub settled :
        (c : ℕ)
        → mem c done ≡ true
        → (1 ≤ count c (vals held)) ⊎ ((o : ℕ) → mem o (adj c) ≡ true → shut o ≡ true)

  pub start : (claims : List ℕ) → ((c : ℕ) → count c claims ≤ 1) → Progress [] claims []
  unfolding mem count vals keys
  start claims once = record {
    matching = record {
      edges = tt;
      orders_once = λ o. omega arith;
      claims_once = λ c. omega arith;
    };
    fresh = λ c. omega (arith, once c);
    shut = λ o. false;
    closed = λ o h. absurd (ground (arith, h));
    settled = λ c h. absurd (ground (arith, h));
  }

  progress_found :
      (done todo : List ℕ) (c : ℕ) (held after : Table ℕ) (p : Progress done (c ∷ todo) held)
      → Adds adj held p.shut c (adj c) [] after
      → Progress (c ∷ done) todo after
  unfolding mem count
  progress_found done todo c held after p adds =
      let fits : (x : ℕ) → count x (vals after) + count x todo ≤ 1 =
        λ x. omega (arith, adds.claims x, p.fresh x) in
      record {
        matching = record {
          edges = adds.within_edges p.matching.edges;
          orders_once = λ o. adds.orders o (p.matching.orders_once o);
          claims_once = λ x. omega (arith, fits x);
        };
        fresh = fits;
        shut = p.shut;
        closed = λ o h. let (d, holds, inside) = p.closed o h in (d, adds.calm o h ∙ holds, inside);
        settled = λ x h. elim (Bool-cases (c == x)) [
          | inl e ↦ inl (ground (arith, adds.claims x, e))
          | inr e ↦ elim (p.settled x (ground (arith, h, e))) [
            | inl held_yet ↦ inl (omega (arith, adds.claims x, held_yet))
            | inr given_up ↦ inr given_up
          ]
        ];
      }

  progress_exhausted :
      (done todo : List ℕ) (c : ℕ) (held : Table ℕ) (w : List ℕ)
      → Progress done (c ∷ todo) held
      → ExhaustsAll adj held (adj c) [] (exhausted w)
      → Progress (c ∷ done) todo held
  unfolding mem count
  progress_exhausted done todo c held w p shuts = record {
    matching = p.matching;
    fresh = λ x. omega (arith, p.fresh x);
    shut = λ o. p.shut o || mem o w;
    closed = λ o h. elim (Bool-cases (p.shut o)) [
      | inl e ↦
          let (d, holds, inside) = p.closed o e in (d, holds, λ y m. ground (arith, inside y m))
      | inr e ↦ elim (shuts.2 o (ground (arith, h, e))) [
        | inl none_before ↦ absurd (ground (arith, none_before))
        | inr (d, holds, inside) ↦ (d, holds, λ y m. ground (arith, inside y m))
      ]
    ];
    settled = λ x h. elim (Bool-cases (c == x)) [
      | inl e ↦
          let same : x ≡ c = ground (arith, e) in
          inr (λ o m. ground (arith, shuts.1 o (subst (λ k. mem o (adj k) ≡ true) same m)))
      | inr e ↦ elim (p.settled x (ground (arith, h, e))) [
        | inl held_yet ↦ inl held_yet
        | inr given_up ↦ inr (λ o m. ground (arith, given_up o m))
      ]
    ];
  }

  -- The loop over the claims ends, with the progress it promises.
  abbrev pub Ends : List ℕ → List ℕ → Option (Table ℕ) → Type 0
  Ends done todo result =
      (held : Table ℕ) × (tried : List ℕ) × (result ≡ some held)
      × Progress tried [] held
      × ((c : ℕ) → mem c done || mem c todo ≡ true → mem c tried ≡ true)

  Ends-cons :
      (done cs : List ℕ) (c : ℕ) (result : Option (Table ℕ))
      → Ends (c ∷ done) cs result
      → Ends done (c ∷ cs) result
  unfolding mem
  Ends-cons done cs c result (held, tried, e, p, all) =
      (held, tried, e, p, λ x h. all x (ground (arith, h)))

  pub augment_all-Ends :
      (universe : List ℕ)
      → ((d : ℕ) → IsWithin (adj d) universe)
      → (fuel : ℕ) → length universe < fuel
      → (done todo : List ℕ) (held : Table ℕ) → Progress done todo held
      → Ends done todo (augment_all adj fuel todo held)
  unfolding augment_all mem
  augment_all-Ends universe inside fuel enough done [] held p =
      (held, done, refl, p, λ c h. ground (arith, h))
  augment_all-Ends universe inside fuel enough done (c ∷ cs) held p =
      let lost_well : ExhaustsAll adj held (adj c) [] (try_augment adj held fuel c []) =
        try_augment-exhausts adj held universe inside fuel c []
          (omega (arith, length-unvisited universe)) in
      let won_well = try_augment-FindsWell adj held p.shut p.closed fuel c [] in
      let loop = augment_all-Ends universe inside fuel enough (c ∷ done) cs in
      elim (Answer-cases (try_augment adj held fuel c [])) [
        | inl (after, won) ↦ rw (augment_all_won adj fuel c cs held after won) (
            Ends-cons done cs c (augment_all adj fuel cs after) (
              loop after (
                progress_found done cs c held after p
                  (subst (FindsWell adj held p.shut c (adj c) []) won won_well))))
        | inr (inl (w, lost)) ↦ rw (augment_all_lost adj fuel c cs held w lost) (
            Ends-cons done cs c (augment_all adj fuel cs held) (
              loop held (
                progress_exhausted done cs c held w p
                  (subst (ExhaustsAll adj held (adj c) []) lost lost_well))))
        | inr (inr stuck) ↦
            let bad : true ≡ false = subst (ExhaustsAll adj held (adj c) []) stuck lost_well in
            absurd (ground (arith, bad))
      ]
