-- ===== src/Control/Assignments/Rest.antt =====
-- What follows the tiers of `resolve_assignments`: the conflicts, the claims with no order, and the
-- dispositions.
use safe_agent.Prelude.{
  ℕ, zero, suc, ◌+◌, ◌≤◌, ◌<◌, List, [], ◌∷◌, All, some, true, false, ◌≡◌, refl, ◌∙◌, inl, inr,
  arith, ◌==◌, Bool-cases, Option-cases, is_some,
}
use safe_agent.Prelude.Table.{Table, lookup}
use safe_agent.Prelude.Counts.{mem}
use safe_agent.Control.Models.{identifier_conflict, tier_eq, Edge, OrderDisposition}
use safe_agent.Control.Outcome.Sets.{mem-add}
use safe_agent.Control.Resolution.{
  OrderState, open_state, conflict_state, Resolution, range, all_open, is_available,
}
use safe_agent.Control.Assignments.{
  conflicts_of_claim, conflict_pass, fill_unassigned, sweep_conflicts, disposition_of, dispositions,
  resolve_rest,
}
use safe_agent.Control.Assignments.States.{
  is_taken, CalmStates, CalmStates-refl, CalmStates-trans, Calm, Calm-refl, Calm-trans, AllKnown,
  mark_lem, assign_conflict_lem, fill_unassigned-Calm, fill_unassigned-is_some,
}

pub mem-range : (k n i : ℕ) → k ≤ i → i < k + n → mem i (range k n) ≡ true
unfolding range mem
mem-range k zero i h l = absurd (omega arith)
mem-range k (suc n) i h l = elim (Bool-cases (k == i)) [
  | inl e ↦ ground (arith, e)
  | inr e ↦ ground (arith, e, mem-range (suc k) n i (ground (arith, e)) (omega arith))
]

pub range-mem : (k n i : ℕ) → mem i (range k n) ≡ true → i < k + n
unfolding range mem
range-mem k zero i h = absurd (ground (arith, h))
range-mem k (suc n) i h = elim (Bool-cases (k == i)) [
  | inl e ↦ ground (arith, e)
  | inr e ↦ omega (arith, range-mem (suc k) n i (ground (arith, h, e)))
]

pub lookup-all_open :
    (is : List ℕ) (o : ℕ) → mem o is ≡ true → lookup o (all_open is) ≡ some open_state
unfolding all_open lookup mem
lookup-all_open [] o h = absurd (ground (arith, h))
lookup-all_open (i ∷ is) o h = ground (arith, lookup-all_open is o)

pub all_open_known :
    (is : List ℕ) (o : ℕ) → is_some (lookup o (all_open is)) ≡ true → mem o is ≡ true
unfolding all_open lookup mem
all_open_known [] o h = ground (arith, h)
all_open_known (i ∷ is) o h = ground (arith, h, all_open_known is o)

-- No order is taken at the start.
pub all_open_free : (is : List ℕ) (o : ℕ) → is_taken (lookup o (all_open is)) ≡ false
unfolding all_open lookup is_taken
all_open_free [] o = refl
all_open_free (i ∷ is) o = ground (arith, all_open_free is o)

conflicts_known :
    (i : ℕ) (avail : Table OrderState) (edges : List Edge)
    → AllKnown (conflicts_of_claim i avail edges) avail
unfolding conflicts_of_claim is_available mem
conflicts_known i avail [] o h = absurd (ground (arith, h))
conflicts_known i avail (e ∷ es) o h =
    let rest = conflicts_of_claim i avail es in
    ground (arith, conflicts_known i avail es o, h, mem-add e.order_idx o rest)

conflict_pass_lem :
    (edges : List Edge) (avail : Table OrderState) (is : List ℕ) (s : Resolution)
    → ((o : ℕ) → is_some (lookup o s.order_state) ≡ is_some (lookup o avail))
    → (next : Resolution) × (conflict_pass edges avail is s ≡ some next) × Calm s next
unfolding conflict_pass
conflict_pass_lem edges avail [] s same = (s, refl, Calm-refl s)
conflict_pass_lem edges avail (i ∷ is) s same = elim (Option-cases (lookup i s.assignment)) [
  | inr (a, e) ↦
      let (last, g, calm) = conflict_pass_lem edges avail is s same in
      (last, ground (arith, e, g), calm)
  | inl e ↦
      let (next, f, calm) =
        assign_conflict_lem i (conflicts_of_claim i avail edges) s e
          (λ o h. same o ∙ conflicts_known i avail edges o h) in
      let (last, g, calmer) =
        conflict_pass_lem edges avail is next (λ o. calm.states.known o ∙ same o) in
      (last, ground (arith, e, f, g), Calm-trans s next last calm calmer)
]

sweep_conflicts_lem :
    (edges : List Edge) (t : Table OrderState)
    → All (λ e. is_some (lookup e.order_idx t) ≡ true) edges
    → (u : Table OrderState) × (sweep_conflicts edges t ≡ some u) × CalmStates t u
unfolding sweep_conflicts is_taken
sweep_conflicts_lem [] t known = (t, refl, CalmStates-refl t)
sweep_conflicts_lem (e ∷ es) t (here, known) =
    elim (Bool-cases (tier_eq e.tier identifier_conflict)) [
      | inr f ↦ let (u, g, calm) = sweep_conflicts_lem es t known in (u, ground (arith, f, g), calm)
      | inl f ↦
          let (u, g, calm) = mark_lem conflict_state e.order_idx t refl here in
          let (v, h, calmer) = sweep_conflicts_lem es u (still es t u calm known) in
          (v, ground (arith, f, g, h), CalmStates-trans t u v calm calmer)
    ]
  where
    still :
        (rs : List Edge) (t u : Table OrderState)
        → CalmStates t u
        → All (λ e. is_some (lookup e.order_idx t) ≡ true) rs
        → All (λ e. is_some (lookup e.order_idx u) ≡ true) rs
    still [] t u calm all = tt
    still (e ∷ rs) t u calm all = (calm.known e.order_idx ∙ all.0, still rs t u calm all.1)

pub resolve_rest_lem :
    (edges : List Edge) (n : ℕ) (s : Resolution)
    → ((t : Table OrderState)
        → ((o : ℕ) → is_some (lookup o t) ≡ is_some (lookup o s.order_state))
        → All (λ e. is_some (lookup e.order_idx t) ≡ true) edges)
    → (next : Resolution) × (resolve_rest edges n s ≡ some next)
      × Calm s next
      × ((c : ℕ) → c < n → is_some (lookup c next.assignment) ≡ true)
unfolding resolve_rest
resolve_rest_lem edges n s known =
    let (passed, e, calm) = conflict_pass_lem edges s.order_state (range 0 n) s (λ o. refl) in
    let filled = fill_unassigned (range 0 n) passed in
    let calmer = Calm-trans s passed filled calm (fill_unassigned-Calm (range 0 n) passed) in
    let (t, f, swept) =
      sweep_conflicts_lem edges filled.order_state (known filled.order_state calmer.states.known) in
    (
      record { assignment = filled.assignment; order_state = t },
      ground (arith, e, f),
      record {
        states = CalmStates-trans s.order_state filled.order_state t calmer.states swept;
        claims = calmer.claims;
        kept = calmer.kept;
        involved = calmer.involved;
      },
      λ c h.
          fill_unassigned-is_some (range 0 n) passed c
            (mem-range 0 n c (omega arith) (omega arith)),
    )

pub dispositions_lem :
    (is : List ℕ) (t : Table OrderState)
    → AllKnown is t
    → (d : Table OrderDisposition) × (dispositions is t ≡ some d)
      × ((o : ℕ)
          → mem o is ≡ true
          → (x : OrderState) × (lookup o t ≡ some x) × (lookup o d ≡ some (disposition_of x)))
unfolding dispositions mem lookup
dispositions_lem [] t known = ([], refl, λ o h. absurd (ground (arith, h)))
dispositions_lem (i ∷ is) t known = elim (Option-cases (lookup i t)) [
  | inl e ↦ absurd (ground (arith, known i, e))
  | inr (x, e) ↦
      let (d, f, all) = dispositions_lem is t (λ o h. known o (ground (arith, h))) in
      (
        (i, disposition_of x) ∷ d,
        ground (arith, e, f),
        λ o h. elim (Bool-cases (i == o)) [
          | inl q ↦ let same : o ≡ i = ground (arith, q) in (x, rw same e, ground (arith, q))
          | inr q ↦ let (y, g, k) = all o (ground (arith, h, q)) in (y, g, ground (arith, q, k))
        ],
      )
]
