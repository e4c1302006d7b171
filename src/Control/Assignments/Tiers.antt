-- ===== src/Control/Assignments/Tiers.antt =====
-- One tier of `resolve_assignments`, and the three of them.
use safe_agent.Prelude.{
  ℕ, List, [], ◌∷◌, none, some, true, ◌≡◌, refl, inl, inr, arith, ◌==◌, Bool-cases, Option-cases,
  is_some,
}
use safe_agent.Prelude.Table.{lookup}
use safe_agent.Prelude.Counts.{mem}
use safe_agent.Control.Models.{
  EvidenceTier, full_identifier, partial_identifier, weak_heuristic, Edge,
}
use safe_agent.Control.Matching.{adj_by_claim}
use safe_agent.Control.Outcome.{TierMatchResult}
use safe_agent.Control.Outcome.Exactly.{Exactly, tier-Exactly}
use safe_agent.Control.Outcome.Exact.{partner_edge, forced_once}
use safe_agent.Control.Resolution.{
  open_state, assigned_state, ambiguous_state, conflict_state, Resolution, is_available, left_ids,
  right_ids, edges_for_tier,
}
use safe_agent.Control.Assignments.{
  contest, contest_orders, apply_result, resolve_compatible, resolve_tier, resolve_tiers,
}
use safe_agent.Control.Assignments.States.{Calm, Calm-refl, Calm-trans, AllKnown, contest-Calm}
use safe_agent.Control.Assignments.Pairs.{
  has_edge, is_graded, edges_for_tier_lem, left_ids_edge, right_ids_edge, left_ids_once, ids_known,
}
use safe_agent.Control.Assignments.Accounted.{
  IsAccounted, IsAccounted-Calm, Kept, Kept-Calm, Kept-trans,
}
use safe_agent.Control.Assignments.Claims.{assign_claims_lem}

-- `for o in order_ids`
contest_orders_lem :
    (tier : EvidenceTier) (r : TierMatchResult) (os : List ℕ) (s : Resolution)
    → AllKnown os s.order_state
    → ((o : ℕ) → mem o os ≡ true → is_some (lookup o r.possible_holders) ≡ true)
    → (next : Resolution) × (contest_orders tier r os s ≡ some next) × Calm s next
unfolding contest_orders mem
contest_orders_lem tier r [] s known has = (s, refl, Calm-refl s)
contest_orders_lem tier r (o ∷ os) s known has =
    let later : (last : Resolution) × (contest_orders tier r os s ≡ some last) × Calm s last =
      contest_orders_lem tier r os s (λ p h. known p (ground (arith, h)))
        (λ p h. has p (ground (arith, h))) in
    elim (Option-cases (lookup o s.order_state)) [
      | inl e ↦ absurd (ground (arith, known o, e))
      | inr (open_state, e) ↦ elim (Option-cases (lookup o r.possible_holders)) [
        | inl f ↦ absurd (ground (arith, has o, f))
        | inr (holders, f) ↦
            let next = contest tier o holders s in
            let calm = contest-Calm tier o holders s e in
            let (last, g, calmer) =
              contest_orders_lem tier r os next
                (λ p h. ground (arith, calm.states.known p, known p, h))
                (λ p h. has p (ground (arith, h))) in
            (last, ground (arith, e, f, g), Calm-trans s next last calm calmer)
      ]
      | inr (assigned_state, e) ↦ let (last, g, calm) = later in (last, ground (arith, e, g), calm)
      | inr (ambiguous_state, e) ↦ let (last, g, calm) = later in (last, ground (arith, e, g), calm)
      | inr (conflict_state, e) ↦ let (last, g, calm) = later in (last, ground (arith, e, g), calm)
    ]

module _ (edges : List Edge) (n : ℕ) where
  -- Applying what the matching solver found for the compatible pairs of a tier.
  apply_result_lem :
      (tier : EvidenceTier) (graded : is_graded tier ≡ true) (s : Resolution) (r : TierMatchResult)
      (es : List (ℕ × ℕ))
      → Exactly (left_ids es) (right_ids es) es (left_ids_once es) (ids_known es) r
      → ((c o : ℕ)
          → mem o (adj_by_claim es c) ≡ true
          → (has_edge tier c o edges ≡ true)
            × (lookup o s.order_state ≡ some open_state)
            × (lookup c s.assignment ≡ none))
      → IsAccounted edges s
      → (next : Resolution) × (apply_result tier (left_ids es) (right_ids es) r s ≡ some next)
        × IsAccounted edges next
        × Kept s next
  unfolding apply_result
  apply_result_lem tier graded s r es exact pairs start = elim (Bool-cases (r.max_size == 0)) [
    | inl e ↦ (s, ground (arith, e), start, Kept-Calm s s (Calm-refl s))
    | inr e ↦
        let (next, f, accounted, kept) =
          assign_claims_lem edges tier r s graded
            (λ c o h.
              let edge =
                partner_edge (left_ids es) (right_ids es) es (left_ids_once es) (ids_known es) r
                  exact c o h in
              let (a, b, d) = pairs c o edge in (a, b))
            (λ c d o always only h.
              forced_once (left_ids es) (right_ids es) es (left_ids_once es) (ids_known es) r exact
                c d o always only h)
            (left_ids es) start (λ c h. let (o, edge) = left_ids_edge es c h in (pairs c o edge).2)
            (left_ids_once es) exact.claim_sets in
        let (last, g, calm) =
          contest_orders_lem tier r (right_ids es) next
            (λ o h.
              let (c, edge) = right_ids_edge es o h in
              ground (arith, kept.known o, (pairs c o edge).1))
            exact.order_sets in
        (
          last,
          ground (arith, e, f, g),
          IsAccounted-Calm edges next last calm accounted,
          Kept-trans s next last kept (Kept-Calm next last calm),
        )
  ]

  resolve_compatible_lem :
      (tier : EvidenceTier) (graded : is_graded tier ≡ true) (s : Resolution) (es : List (ℕ × ℕ))
      → ((c o : ℕ)
          → mem o (adj_by_claim es c) ≡ true
          → (has_edge tier c o edges ≡ true)
            × (lookup o s.order_state ≡ some open_state)
            × (lookup c s.assignment ≡ none))
      → IsAccounted edges s
      → (next : Resolution) × (resolve_compatible tier es s ≡ some next)
        × IsAccounted edges next
        × Kept s next
  unfolding resolve_compatible
  resolve_compatible_lem tier graded s [] pairs start =
      (s, refl, start, Kept-Calm s s (Calm-refl s))
  resolve_compatible_lem tier graded s (e ∷ es) pairs start =
      let (r, found, exact) =
        tier-Exactly (left_ids (e ∷ es)) (right_ids (e ∷ es)) (e ∷ es) (left_ids_once (e ∷ es))
          (ids_known (e ∷ es)) in
      let (next, f, accounted, kept) =
        apply_result_lem tier graded s r (e ∷ es) exact pairs start in
      (next, ground (arith, found, f), accounted, kept)

  pub resolve_tier_lem :
      (tier : EvidenceTier) (graded : is_graded tier ≡ true) (s : Resolution)
      → IsAccounted edges s
      → (next : Resolution) × (resolve_tier edges n tier s ≡ some next)
        × IsAccounted edges next
        × Kept s next
  unfolding resolve_tier is_available
  resolve_tier_lem tier graded s start =
      resolve_compatible_lem tier graded s (edges_for_tier tier n s edges)
        (λ c o h.
          let (edge, free, new) = edges_for_tier_lem tier n s edges c o h in
          (edge, ground (arith, free), new))
        start

  pub resolve_tiers_lem :
      (s : Resolution)
      → IsAccounted edges s
      → (next : Resolution) × (resolve_tiers edges n s ≡ some next)
        × IsAccounted edges next
        × Kept s next
  unfolding resolve_tiers is_graded
  resolve_tiers_lem s start =
      let (a, e, accounted, kept) = resolve_tier_lem full_identifier refl s start in
      let (b, f, accounted', kept') = resolve_tier_lem partial_identifier refl a accounted in
      let (c, g, accounted'', kept'') = resolve_tier_lem weak_heuristic refl b accounted' in
      (
        c,
        ground (arith, e, f, g),
        accounted'',
        Kept-trans s a c kept (Kept-trans a b c kept' kept''),
      )
