-- ===== src/Control/Outcome/Loops.antt =====
-- The loops of `_max_matchings_for_tier`: none fails, and each adds what it should.
use safe_agent.Prelude.{
  ℕ, List, [], ◌∷◌, All, Option, some, Bool, true, false, ◌&&◌, ◌||◌, ◌≡◌, refl, sym, ap, ◌∙◌, ◌⊎◌,
  inl, inr, arith, ◌==◌, Bool-cases,
}
use safe_agent.Prelude.Table.{Table}
use safe_agent.Prelude.Counts.{mem}
use safe_agent.Control.Outcome.{add_reference, in_reference, add_viable, always_matched_in, add}
use safe_agent.Control.Outcome.Sets.{in_set, Filled, add_pair_lem, mem-add}
use safe_agent.Control.Matching.{adj_by_claim}

module _ (claims orders : List ℕ) where
  pub add_reference_lem :
      (t : Table ℕ) (sets : Table (List ℕ) × Table (List ℕ))
      → Filled claims orders sets
      → All (λ p. (mem p.0 claims ≡ true) × (mem p.1 orders ≡ true)) t
      → (more : Table (List ℕ) × Table (List ℕ)) × (add_reference t sets ≡ some more)
        × Filled claims orders more
        × ((d q : ℕ) → in_set d q more.0 ≡ (in_set d q sets.0 || in_reference d q t))
  unfolding add_reference in_reference
  add_reference_lem [] sets filled known = (sets, refl, filled, λ d q. ground arith)
  add_reference_lem ((c, o) ∷ t) sets filled known =
      let (mid, e, mid_filled, mid_more) =
        add_pair_lem claims orders c o sets filled known.0.0 known.0.1 in
      let (more, e', more_filled, more_more) = add_reference_lem t mid mid_filled known.1 in
      (more, ground (arith, e, e'), more_filled, λ d q. ground (arith, mid_more d q, more_more d q))

  -- The pairs that the second loop adds: those outside the reference matching that are viable.
  pub record Viables (viable : ℕ → ℕ → Option Bool) (reference : Table ℕ) (es : List (ℕ × ℕ))
      (before after : Table (List ℕ)) : Type 0 where
    pub kept : (d q : ℕ) → in_set d q before ≡ true → in_set d q after ≡ true
    pub added :
        (d q : ℕ)
        → mem q (adj_by_claim es d) ≡ true
        → in_reference d q reference ≡ false
        → viable d q ≡ some true
        → in_set d q after ≡ true
    pub only :
        (d q : ℕ)
        → in_set d q after ≡ true
        → (in_set d q before ≡ true)
          ⊎ ((mem q (adj_by_claim es d) ≡ true) × (viable d q ≡ some true))

  module _ (viable : ℕ → ℕ → Option Bool) (reference : Table ℕ) where
    skipped :
        (c o : ℕ) (es : List (ℕ × ℕ)) (before after : Table (List ℕ))
        → ((in_reference c o reference ≡ true) ⊎ (viable c o ≡ some false))
        → Viables viable reference es before after
        → Viables viable reference ((c, o) ∷ es) before after
    unfolding adj_by_claim mem
    skipped c o es before after why v = record {
      kept = v.kept;
      added = λ d q h out yes_it. elim (Bool-cases (c == d && o == q)) [
        | inr e ↦ v.added d q (ground (arith, h, e)) out yes_it
        | inl e ↦
            let claim : d ≡ c = ground (arith, e) in
            let order : q ≡ o = ground (arith, e) in
            let out_here : in_reference c o reference ≡ false = rw (sym claim, sym order) out in
            let yes_here : viable c o ≡ some true = rw (sym claim, sym order) yes_it in
            absurd (ground (arith, why, out_here, yes_here))
      ];
      only = λ d q h. elim (v.only d q h) [
        | inl old ↦ inl old
        | inr (edge, says) ↦ inr (ground (arith, edge), says)
      ];
    }

    taken :
        (c o : ℕ) (es : List (ℕ × ℕ)) (before mid after : Table (List ℕ))
        → viable c o ≡ some true
        → ((d q : ℕ) → in_set d q mid ≡ (in_set d q before || (c == d && o == q)))
        → Viables viable reference es mid after
        → Viables viable reference ((c, o) ∷ es) before after
    unfolding adj_by_claim mem
    taken c o es before mid after says step v = record {
      kept = λ d q h. v.kept d q (ground (arith, step d q, h));
      added = λ d q h out yes_it. elim (Bool-cases (c == d && o == q)) [
        | inr e ↦ v.added d q (ground (arith, h, e)) out yes_it
        | inl e ↦ v.kept d q (ground (arith, step d q, e))
      ];
      only = λ d q h. elim (v.only d q h) [
        | inr (edge, also) ↦ inr (ground (arith, edge), also)
        | inl old ↦ elim (Bool-cases (c == d && o == q)) [
          | inr e ↦ inl (ground (arith, step d q, old, e))
          | inl e ↦
              let claim : d ≡ c = ground (arith, e) in
              let order : q ≡ o = ground (arith, e) in
              inr (ground (arith, e), rw (claim, order) says)
        ]
      ];
    }

    pub add_viable_lem :
        (es : List (ℕ × ℕ)) (sets : Table (List ℕ) × Table (List ℕ))
        → Filled claims orders sets
        → All (λ p. (mem p.0 claims ≡ true) × (mem p.1 orders ≡ true)) es
        → All (λ p. (b : Bool) × (viable p.0 p.1 ≡ some b)) es
        → (more : Table (List ℕ) × Table (List ℕ)) × (add_viable viable reference es sets
            ≡ some more)
          × Filled claims orders more
          × Viables viable reference es sets.0 more.0
    unfolding add_viable adj_by_claim mem
    add_viable_lem [] sets filled known total = (
      sets,
      refl,
      filled,
      record {
        kept = λ d q h. h;
        added = λ d q h out yes_it. absurd (ground (arith, h));
        only = λ d q h. inl h;
      },
    )
    add_viable_lem ((c, o) ∷ es) sets filled known ((b, says), total) =
        elim (Bool-cases (in_reference c o reference)) [
          | inl e ↦
              let (more, a, f, v) = add_viable_lem es sets filled known.1 total in
              (more, ground (arith, e, a), f, skipped c o es sets.0 more.0 (inl e) v)
          | inr e ↦ elim (Bool-cases b) [
            | inr n ↦
                let (more, a, f, v) = add_viable_lem es sets filled known.1 total in
                let no_it : viable c o ≡ some false = says ∙ ap some n in
                (more, ground (arith, e, no_it, a), f, skipped c o es sets.0 more.0 (inr no_it) v)
            | inl y ↦
                let (mid, p, f, step) =
                  add_pair_lem claims orders c o sets filled known.0.0 known.0.1 in
                let (more, a, g, v) = add_viable_lem es mid f known.1 total in
                let yes_it : viable c o ≡ some true = says ∙ ap some y in
                (
                  more,
                  ground (arith, e, yes_it, p, a),
                  g,
                  taken c o es sets.0 mid.0 more.0 yes_it step v,
                )
          ]
        ]

pub always_matched_in_lem :
    (free : ℕ → Option Bool) (cs : List ℕ)
    → All (λ c. (b : Bool) × (free c ≡ some b)) cs
    → (always : List ℕ) × (always_matched_in free cs ≡ some always)
      × ((c : ℕ) → mem c always ≡ true → (mem c cs ≡ true) × (free c ≡ some false))
      × ((c : ℕ) → mem c cs ≡ true → free c ≡ some false → mem c always ≡ true)
unfolding always_matched_in mem
always_matched_in_lem free [] total =
    ([], refl, λ c h. absurd (ground (arith, h)), λ c h e. absurd (ground (arith, h)))
always_matched_in_lem free (c ∷ cs) ((can, says), total) =
    let (rest, e, inner, outer) = always_matched_in_lem free cs total in
    elim (Bool-cases can) [
      | inl y ↦ (
        rest,
        ground (arith, says, e, y),
        λ d h. let (known, no_it) = inner d h in (ground (arith, known), no_it),
        λ d h no_it. elim (Bool-cases (c == d)) [
          | inr n ↦ outer d (ground (arith, h, n)) no_it
          | inl n ↦
              let same : d ≡ c = ground (arith, n) in
              let here : free c ≡ some false = rw (sym same) no_it in
              absurd (ground (arith, here, says, y))
        ],
      )
      | inr y ↦ (
        add c rest,
        ground (arith, says, e, y),
        λ d h. elim (Bool-cases (c == d)) [
          | inr n ↦
              let (known, no_it) = inner d (ground (arith, h, n, mem-add c d rest)) in
              (ground (arith, known), no_it)
          | inl n ↦
              let same : d ≡ c = ground (arith, n) in
              (ground (arith, n), rw same (says ∙ ap some y))
        ],
        λ d h no_it. elim (Bool-cases (c == d)) [
          | inr n ↦ ground (arith, mem-add c d rest, outer d (ground (arith, h, n)) no_it)
          | inl n ↦ ground (arith, mem-add c d rest, n)
        ],
      )
    ]
