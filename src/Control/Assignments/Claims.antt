-- ===== src/Control/Assignments/Claims.antt =====
-- The loop of a tier over its claims: a claim takes an order only if no other claim may have it.
use safe_agent.Prelude.{
  ℕ, ◌≤◌, List, [], ◌∷◌, none, some, Bool, true, false, ◌≡◌, refl, ◌⊎◌, inl, inr, arith, ◌==◌,
  Bool-cases, Option-cases, is_some,
}
use safe_agent.Prelude.Table.{lookup, insert, lookup-insert}
use safe_agent.Prelude.Counts.{mem, count, mem-count}
use safe_agent.Control.Models.{EvidenceTier, Edge}
use safe_agent.Control.Outcome.{TierMatchResult}
use safe_agent.Control.Outcome.Sets.{in_set}
use safe_agent.Control.Resolution.{assigned, open_state, assigned_state, Resolution}
use safe_agent.Control.Assignments.{assign_partners, assign_claims}
use safe_agent.Control.Assignments.States.{
  is_taken, assigned_to, Calm, Calm-refl, AllKnown, assign_ambiguous_lem,
}
use safe_agent.Control.Assignments.Pairs.{has_edge, is_graded}
use safe_agent.Control.Assignments.Accounted.{
  IsAccounted, IsAccounted-Calm, Kept, Kept-Calm, Kept-trans,
}
use safe_agent.Control.Assignments.Taking.{taking, taking-assigned, taking-IsAccounted, taking-Kept}

module _ (edges : List Edge) (tier : EvidenceTier) (r : TierMatchResult) (first : Resolution)
    (graded : is_graded tier ≡ true)
    (open_partners : (c o : ℕ)
      → in_set c o r.possible_partners ≡ true
      → (has_edge tier c o edges ≡ true) × (lookup o first.order_state ≡ some open_state))
    (apart : (c d o : ℕ)
      → mem c r.always_matched ≡ true
      → lookup c r.possible_partners ≡ some (o ∷ [])
      → in_set d o r.possible_partners ≡ true
      → c ≡ d) where
  -- The claim's one partner is the order, and it is always matched.
  abbrev Forced : ℕ → ℕ → Type 0
  Forced c o = (mem c r.always_matched ≡ true) × (lookup c r.possible_partners ≡ some (o ∷ []))

  record Going (todo : List ℕ) (s : Resolution) : Type 0 where
    accounted : IsAccounted edges s
    kept : Kept first s
    new :
        (c o : ℕ) (t : EvidenceTier)
        → assigned_to (lookup c s.assignment) ≡ some (o, t)
        → (assigned_to (lookup c first.assignment) ≡ some (o, t)) ⊎ Forced c o
    free : (c : ℕ) → mem c todo ≡ true → lookup c s.assignment ≡ none

  Forced-in_set : (c o : ℕ) → Forced c o → in_set c o r.possible_partners ≡ true
  unfolding in_set mem
  Forced-in_set c o f = ground (arith, f.1)

  -- The order of a forced claim is still free.
  Forced-free :
      (c o : ℕ) (cs : List ℕ) (s : Resolution)
      → IsAccounted edges first
      → Going (c ∷ cs) s
      → Forced c o
      → is_taken (lookup o s.order_state) ≡ false
  unfolding mem is_taken assigned_to
  Forced-free c o cs s start g f = elim (Bool-cases (is_taken (lookup o s.order_state))) [
    | inr e ↦ e
    | inl e ↦
        let (d, t, holds) = g.accounted.owned o e in
        let was_open = (open_partners c o (Forced-in_set c o f)).1 in
        elim (g.new d o t holds) [
          | inl old ↦ absurd (ground (arith, start.taken d o t old, was_open))
          | inr also ↦
              let same : c ≡ d = apart c d o f.0 f.1 (Forced-in_set d o also) in
              absurd (ground (arith, g.free c (ground arith), holds, same))
        ]
  ]

  -- A forced claim takes its order.
  take :
      (c o : ℕ) (cs : List ℕ) (s : Resolution)
      → IsAccounted edges first
      → Going (c ∷ cs) s
      → count c cs ≡ 0
      → Forced c o
      → Going cs (taking tier c o s)
  unfolding mem
  take c o cs s start g later f =
      let (edge, was_open) = open_partners c o (Forced-in_set c o f) in
      let unassigned = g.free c (ground arith) in
      record {
        accounted =
            taking-IsAccounted edges tier graded c o s g.accounted edge
              (Forced-free c o cs s start g f) unassigned;
        kept = taking-Kept tier first c o s g.kept was_open unassigned;
        new = λ d q t h. elim (taking-assigned tier c o s d q t h) [
          | inl (same, order, grade) ↦ inr (rw (same, order) f)
          | inr (e, theirs) ↦ g.new d q t theirs
        ];
        free = λ d h. elim (Bool-cases (c == d)) [
          | inl e ↦
              let same : d ≡ c = ground (arith, e) in
              absurd (omega (arith, mem-count c cs (rw same at h), later))
          | inr e ↦ ground (
            arith,
            g.free d (ground (arith, h)),
            lookup-insert c d (assigned o tier) s.assignment,
            e,
          )
        ];
      }

  -- A claim that is not forced takes nothing.
  leave :
      (c : ℕ) (cs : List ℕ) (s next : Resolution)
      → Going (c ∷ cs) s
      → count c cs ≡ 0
      → Calm s next
      → ((d : ℕ) → (c == d) ≡ false → lookup d next.assignment ≡ lookup d s.assignment)
      → Going cs next
  unfolding mem
  leave c cs s next g later calm others = record {
    accounted = IsAccounted-Calm edges s next calm g.accounted;
    kept = Kept-trans first s next g.kept (Kept-Calm s next calm);
    new = λ d q t h. g.new d q t (ground (arith, calm.claims d, h));
    free = λ d h. elim (Bool-cases (c == d)) [
      | inl e ↦
          let same : d ≡ c = ground (arith, e) in
          absurd (omega (arith, mem-count c cs (rw same at h), later))
      | inr e ↦ ground (arith, g.free d (ground (arith, h)), others d e)
    ];
  }

  partners_known :
      (c : ℕ) (cs partners : List ℕ) (s : Resolution)
      → Going (c ∷ cs) s
      → lookup c r.possible_partners ≡ some partners
      → AllKnown partners s.order_state
  unfolding in_set
  partners_known c cs partners s g has o h =
      ground (arith, g.kept.known o, (open_partners c o (ground (arith, has, h))).1)

  -- One claim of the loop.
  assign_partners_lem :
      (c : ℕ) (cs partners : List ℕ) (always : Bool) (s : Resolution)
      → IsAccounted edges first
      → Going (c ∷ cs) s
      → count c cs ≡ 0
      → lookup c r.possible_partners ≡ some partners
      → mem c r.always_matched ≡ always
      → (next : Resolution) × (assign_partners tier c partners always s ≡ some next) × Going cs next
  unfolding assign_partners mem
  assign_partners_lem c cs [] always s start g later has says =
      (s, refl, leave c cs s s g later (Calm-refl s) (λ d e. refl))
  assign_partners_lem c cs (o ∷ []) true s start g later has says = (
    record {
      assignment = insert c (assigned o tier) s.assignment;
      order_state = insert o assigned_state s.order_state;
    },
    refl,
    take c o cs s start g later (says, has),
  )
  assign_partners_lem c cs (o ∷ []) false s start g later has says =
      let (next, e, calm, others) =
        assign_ambiguous_lem tier c (o ∷ []) s (g.free c (ground arith))
          (partners_known c cs (o ∷ []) s g has) in
      (next, e, leave c cs s next g later calm others)
  assign_partners_lem c cs (o ∷ p ∷ os) always s start g later has says =
      let (next, e, calm, others) =
        assign_ambiguous_lem tier c (o ∷ p ∷ os) s (g.free c (ground arith))
          (partners_known c cs (o ∷ p ∷ os) s g has) in
      (next, e, leave c cs s next g later calm others)

  assign_claims_going :
      (cs : List ℕ) (s : Resolution)
      → IsAccounted edges first
      → Going cs s
      → ((c : ℕ) → count c cs ≤ 1)
      → ((c : ℕ) → mem c cs ≡ true → is_some (lookup c r.possible_partners) ≡ true)
      → (next : Resolution) × (assign_claims tier r cs s ≡ some next)
        × IsAccounted edges next
        × Kept first next
  unfolding assign_claims count mem
  assign_claims_going [] s start g once has = (s, refl, g.accounted, g.kept)
  assign_claims_going (c ∷ cs) s start g once has =
      elim (Option-cases (lookup c r.possible_partners)) [
        | inl e ↦ absurd (ground (arith, has c, e))
        | inr (partners, e) ↦
            let (next, f, going) =
              assign_partners_lem c cs partners (mem c r.always_matched) s start g
                (ground (arith, once c)) e refl in
            let (last, l, accounted, kept) =
              assign_claims_going cs next start going (λ d. omega (arith, once d))
                (λ d h. has d (ground (arith, h))) in
            (last, ground (arith, e, f, l), accounted, kept)
      ]

  pub assign_claims_lem :
      (cs : List ℕ)
      → IsAccounted edges first
      → ((c : ℕ) → mem c cs ≡ true → lookup c first.assignment ≡ none)
      → ((c : ℕ) → count c cs ≤ 1)
      → ((c : ℕ) → mem c cs ≡ true → is_some (lookup c r.possible_partners) ≡ true)
      → (next : Resolution) × (assign_claims tier r cs first ≡ some next)
        × IsAccounted edges next
        × Kept first next
  assign_claims_lem cs start free once has =
      assign_claims_going cs first start
        (record {
          accounted = start;
          kept = Kept-Calm first first (Calm-refl first);
          new = λ c o t h. inl h;
          free = free;
        })
        once has
