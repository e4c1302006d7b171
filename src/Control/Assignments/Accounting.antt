-- ===== src/Control/Assignments/Accounting.antt =====
-- The accounting that `resolve_assignments` promises: every claim and every order has one entry, and
-- an order is assigned to one claim at most.
use mathlib.Core.Logic.{◌↔◌}
use mathlib.Core.Path.{subst₂}
use safe_agent.Prelude.{
  ℕ, ◌<◌, List, [], ◌∷◌, All, Option, none, some, true, ◌≡◌, refl, sym, ap, ◌∙◌, inl, inr, arith,
  is_some,
}
use safe_agent.Prelude.Table.{Table, lookup}
use safe_agent.Prelude.Counts.{mem}
use safe_agent.Control.Models.{EvidenceTier, Edge, OrderDisposition, assigned_order}
use safe_agent.Control.Resolution.{
  Assignment, assigned, ambiguous, conflict, no_order, OrderState, open_state, assigned_state,
  ambiguous_state, conflict_state, Resolution, range, all_open,
}
use safe_agent.Control.Assignments.{disposition_of, resolve_assignments}
use safe_agent.Control.Assignments.States.{involved_of, is_taken, assigned_to}
use safe_agent.Control.Assignments.Pairs.{has_edge, is_graded}
use safe_agent.Control.Assignments.Accounted.{
  IsAccounted, IsAccounted-Calm, Kept, Kept-trans, Kept-Calm,
}
use safe_agent.Control.Assignments.Tiers.{resolve_tiers_lem}
use safe_agent.Control.Assignments.Rest.{
  mem-range, range-mem, lookup-all_open, all_open_known, all_open_free, resolve_rest_lem,
  dispositions_lem,
}

-- Every edge is between a claim and an order that are there.
abbrev pub InRange : ℕ → List Edge → Type 0
InRange n_orders edges = All (λ e. e.order_idx < n_orders) edges

assigned_to_inverse :
    (a : Option Assignment) (o : ℕ) (t : EvidenceTier)
    → assigned_to a ≡ some (o, t)
    → a ≡ some (assigned o t)
unfolding assigned_to
assigned_to_inverse none o t h = ground (arith, h)
assigned_to_inverse (some (assigned q u)) o t h = ground (arith, h)
assigned_to_inverse (some (ambiguous u os)) o t h = ground (arith, h)
assigned_to_inverse (some (conflict os)) o t h = ground (arith, h)
assigned_to_inverse (some no_order) o t h = ground (arith, h)

assigned_to-assigned :
    (a : Option Assignment) (o : ℕ) (t : EvidenceTier)
    → a ≡ some (assigned o t)
    → assigned_to a ≡ some (o, t)
unfolding assigned_to
assigned_to-assigned a o t h = rw h

disposition_taken :
    (x : OrderState) → (disposition_of x ≡ assigned_order) ↔ (is_taken (some x) ≡ true)
unfolding disposition_of is_taken
disposition_taken open_state = (λ h. ground (arith, h), λ h. ground (arith, h))
disposition_taken assigned_state = (λ h. refl, λ h. refl)
disposition_taken ambiguous_state = (λ h. ground (arith, h), λ h. ground (arith, h))
disposition_taken conflict_state = (λ h. ground (arith, h), λ h. ground (arith, h))

module _ (edges : List Edge) (n_claims n_orders : ℕ) (in_range : InRange n_orders edges) where
  pub record Accounting (a : Table Assignment) (d : Table OrderDisposition) : Type 0 where
    pub claims_known : (c : ℕ) → c < n_claims → is_some (lookup c a) ≡ true
    pub orders_known : (o : ℕ) → o < n_orders → is_some (lookup o d) ≡ true
    pub evidence :
        (c o : ℕ) (t : EvidenceTier)
        → lookup c a ≡ some (assigned o t)
        → (has_edge t c o edges ≡ true) × (is_graded t ≡ true)
    pub once :
        (c c' o : ℕ) (t u : EvidenceTier)
        → lookup c a ≡ some (assigned o t)
        → lookup c' a ≡ some (assigned o u)
        → c ≡ c'
    pub involved : (c o : ℕ) → mem o (involved_of (lookup c a)) ≡ true → o < n_orders
    pub owned :
        (o : ℕ)
        → o < n_orders
        → (lookup o d ≡ some assigned_order)
          ↔ ((c : ℕ) × (t : EvidenceTier) × (lookup c a ≡ some (assigned o t)))

  start : Resolution
  start = record { assignment = []; order_state = all_open (range 0 n_orders) }

  start-IsAccounted : IsAccounted edges start
  unfolding start assigned_to lookup
  start-IsAccounted = record {
    evidence = λ c o t h. absurd (ground (arith, h));
    taken = λ c o t h. absurd (ground (arith, h));
    once = λ c d o t u h k. absurd (ground (arith, h));
    owned = λ o h. absurd (ground (arith, h, all_open_free (range 0 n_orders) o));
  }

  open_at_start : (o : ℕ) → o < n_orders → is_some (lookup o (all_open (range 0 n_orders))) ≡ true
  open_at_start o h = ground (
    arith,
    lookup-all_open (range 0 n_orders) o (mem-range 0 n_orders o (omega arith) (omega arith)),
  )

  ends_known :
      (t : Table OrderState)
      → ((o : ℕ) → is_some (lookup o t) ≡ is_some (lookup o (all_open (range 0 n_orders))))
      → (es : List Edge) → InRange n_orders es
      → All (λ e. is_some (lookup e.order_idx t) ≡ true) es
  ends_known t same [] h = tt
  ends_known t same (e ∷ es) h =
      (same e.order_idx ∙ open_at_start e.order_idx h.0, ends_known t same es h.1)

  Accounting-last :
      (last : Resolution) (d : Table OrderDisposition)
      → ((c : ℕ) → c < n_claims → is_some (lookup c last.assignment) ≡ true)
      → IsAccounted edges last
      → ((c o : ℕ) → mem o (involved_of (lookup c last.assignment)) ≡ true → o < n_orders)
      → ((o : ℕ)
          → o < n_orders
          → (x : OrderState) × (lookup o last.order_state ≡ some x)
            × (lookup o d ≡ some (disposition_of x)))
      → Accounting last.assignment d
  Accounting-last last d all_claims done named shows = record {
    involved = named;
    claims_known = all_claims;
    orders_known = λ o h. let (x, e, f) = shows o h in ground (arith, f);
    evidence =
        λ c o t h. done.evidence c o t (assigned_to-assigned (lookup c last.assignment) o t h);
    once = λ c c' o t u h k.
        done.once c c' o t u (assigned_to-assigned (lookup c last.assignment) o t h)
          (assigned_to-assigned (lookup c' last.assignment) o u k);
    owned = λ o h.
        let (x, e, f) = shows o h in
        (
          λ is_assigned.
              let same : disposition_of x ≡ assigned_order = ground (arith, f, is_assigned) in
              let (c, t, holds) = done.owned o (ap is_taken e ∙ (disposition_taken x).0 same) in
              (c, t, assigned_to_inverse (lookup c last.assignment) o t holds),
          λ (c, t, holds).
              let took =
                done.taken c o t (assigned_to-assigned (lookup c last.assignment) o t holds) in
              f ∙ ap some ((disposition_taken x).1 (sym (ap is_taken e) ∙ took)),
        );
  }

  named :
      (last : Resolution)
      → Kept start last
      → (c o : ℕ) → mem o (involved_of (lookup c last.assignment)) ≡ true
      → o < n_orders
  unfolding start involved_of mem lookup
  named last kept c o h = elim (kept.involved c) [
    | inl e ↦ absurd (ground (arith, h, e))
    | inr all_known ↦
        omega (arith, range-mem 0 n_orders o (all_open_known (range 0 n_orders) o (all_known o h)))
  ]

  pub accounting_lem :
      (a : Table Assignment) × (d : Table OrderDisposition) × (resolve_assignments edges n_claims
          n_orders
        ≡ some (a, d))
      × Accounting a d
  unfolding resolve_assignments start
  accounting_lem =
      let (tiers, e, accounted, kept) = resolve_tiers_lem edges n_claims start start-IsAccounted in
      let (last, f, calm, all_claims) =
        resolve_rest_lem edges n_claims tiers
          (λ t same. ends_known t (λ o. same o ∙ kept.known o) edges in_range) in
      let known : (o : ℕ) → o < n_orders → is_some (lookup o last.order_state) ≡ true =
        λ o h. calm.states.known o ∙ (kept.known o ∙ open_at_start o h) in
      let done = IsAccounted-Calm edges tiers last calm accounted in
      let (d, g, shows) =
        dispositions_lem (range 0 n_orders) last.order_state
          (λ o h. known o (omega (arith, range_bound o h))) in
      (
        last.assignment,
        d,
        ground (arith, e, f, g),
        Accounting-last last d all_claims done
            (named last (Kept-trans start tiers last kept (Kept-Calm tiers last calm)))
            (λ o h. shows o (mem-range 0 n_orders o (omega arith) (omega arith))),
      )
    where
      range_bound : (o : ℕ) → mem o (range 0 n_orders) ≡ true → o < n_orders
      range_bound o h = omega (arith, range-mem 0 n_orders o h)

module _ (edges : List Edge) (n_claims n_orders : ℕ) (in_range : InRange n_orders edges) where
  -- For edges between orders that are there: `resolve_assignments` ends with a result, in which
  -- every claim has an assignment and every order a disposition.
  pub resolve_assignments_total :
      (c o : ℕ)
      → c < n_claims
      → o < n_orders
      → (a : Table Assignment) × (d : Table OrderDisposition) × (resolve_assignments edges n_claims
            n_orders
          ≡ some (a, d))
        × (is_some (lookup c a) ≡ true)
        × (is_some (lookup o d) ≡ true)
  resolve_assignments_total c o h k =
      let (a, d, e, all) = accounting_lem edges n_claims n_orders in_range in
      (a, d, e, all.claims_known c h, all.orders_known o k)

  module _ (a : Table Assignment) (d : Table OrderDisposition)
      (resolved : resolve_assignments edges n_claims n_orders ≡ some (a, d)) where
    accounting : Accounting edges n_claims n_orders in_range a d
    accounting =
        let (a', d', e, all) = accounting_lem edges n_claims n_orders in_range in
        let left : a' ≡ a = ground (arith, e, resolved) in
        let right : d' ≡ d = ground (arith, e, resolved) in
        subst₂ (λ x y. Accounting edges n_claims n_orders in_range x y) left right all

    -- For edges between orders that are there: no two claims are assigned the same order, on
    -- whatever evidence, and an assigned pair has a status-compatible edge of its tier.
    pub order_assigned_once :
        (c c' o : ℕ) (t u : EvidenceTier)
        → lookup c a ≡ some (assigned o t)
        → lookup c' a ≡ some (assigned o u)
        → (c ≡ c') × (has_edge t c o edges ≡ true)
    order_assigned_once c c' o t u h k =
        (accounting.once c c' o t u h k, (accounting.evidence c o t h).0)

    -- For edges between orders that are there: an order is accounted for as assigned exactly when
    -- a claim is assigned to it.
    pub disposition_assigned_iff :
        (o : ℕ)
        → o < n_orders
        → (lookup o d ≡ some assigned_order)
          ↔ ((c : ℕ) × (t : EvidenceTier) × (lookup c a ≡ some (assigned o t)))
    disposition_assigned_iff o h = accounting.owned o h
