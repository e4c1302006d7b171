-- ===== src/Control/Assignments/States.antt =====
-- What the parts of `resolve_assignments` leave alone: who is assigned to whom, which orders are
-- taken, and the assignment of every claim that has one.
use safe_agent.Prelude.{
  ℕ, List, [], ◌∷◌, Option, none, some, Bool, true, false, ◌≡◌, ◌⊎◌, refl, ◌∙◌, inl, inr, arith,
  ltb, ◌==◌, Bool-cases, Option-cases, is_some, length,
}
use safe_agent.Prelude.Table.{Table, lookup, insert, lookup-insert}
use safe_agent.Prelude.Counts.{mem}
use safe_agent.Control.Models.{EvidenceTier}
use safe_agent.Control.Resolution.{
  Assignment, assigned, ambiguous, conflict, no_order, OrderState, open_state, assigned_state,
  ambiguous_state, conflict_state, Resolution, mark, mark_all, assign_new,
}
use safe_agent.Control.Assignments.{
  assign_ambiguous, assign_holders, contest, assign_conflict, fill_unassigned,
}

unfoldable pub is_taken : Option OrderState → Bool
is_taken (some assigned_state) = true
is_taken o = false

unfoldable pub assigned_to : Option Assignment → Option (ℕ × EvidenceTier)
assigned_to (some (assigned o t)) = some (o, t)
assigned_to a = none

-- The orders that an assignment names without taking one.
unfoldable pub involved_of : Option Assignment → List ℕ
involved_of (some (ambiguous t os)) = os
involved_of (some (conflict os)) = os
involved_of a = []

-- Every order of the list has a state.
abbrev pub AllKnown : List ℕ → Table OrderState → Type 0
AllKnown os t = (o : ℕ) → mem o os ≡ true → is_some (lookup o t) ≡ true

pub record CalmStates (before after : Table OrderState) : Type 0 where
  pub orders : (o : ℕ) → is_taken (lookup o after) ≡ is_taken (lookup o before)
  pub known : (o : ℕ) → is_some (lookup o after) ≡ is_some (lookup o before)

-- An assignment is the old one, or names known orders only.
abbrev pub NamesKnown : Resolution → Resolution → ℕ → Type 0
NamesKnown before after c =
    (lookup c after.assignment ≡ lookup c before.assignment)
    ⊎ AllKnown (involved_of (lookup c after.assignment)) before.order_state

pub record Calm (before after : Resolution) : Type 0 where
  pub states : CalmStates before.order_state after.order_state
  pub claims :
      (c : ℕ) → assigned_to (lookup c after.assignment) ≡ assigned_to (lookup c before.assignment)
  pub kept :
      (c : ℕ)
      → is_some (lookup c before.assignment) ≡ true
      → lookup c after.assignment ≡ lookup c before.assignment
  pub involved : (c : ℕ) → NamesKnown before after c

pub CalmStates-refl : (t : Table OrderState) → CalmStates t t
CalmStates-refl t = record { orders = λ o. refl; known = λ o. refl }

pub CalmStates-trans : (t u v : Table OrderState) → CalmStates t u → CalmStates u v → CalmStates t v
CalmStates-trans t u v a b = record {
  orders = λ o. b.orders o ∙ a.orders o;
  known = λ o. b.known o ∙ a.known o;
}

pub Calm-refl : (s : Resolution) → Calm s s
Calm-refl s = record {
  states = CalmStates-refl s.order_state;
  claims = λ c. refl;
  kept = λ c h. refl;
  involved = λ c. inl refl;
}

pub NamesKnown-trans :
    (r s t : Resolution) (c : ℕ)
    → ((o : ℕ) → is_some (lookup o s.order_state) ≡ is_some (lookup o r.order_state))
    → NamesKnown r s c
    → NamesKnown s t c
    → NamesKnown r t c
NamesKnown-trans r s t c same a (inr named) = inr (λ o h. ground (arith, same o, named o h))
NamesKnown-trans r s t c same (inl e) (inl f) = inl (f ∙ e)
NamesKnown-trans r s t c same (inr named) (inl f) = inr (rw f named)

pub Calm-trans : (r s t : Resolution) → Calm r s → Calm s t → Calm r t
Calm-trans r s t a b = record {
  states = CalmStates-trans r.order_state s.order_state t.order_state a.states b.states;
  claims = λ c. b.claims c ∙ a.claims c;
  kept = λ c h. ground (arith, a.kept c h, b.kept c, h);
  involved = λ c. NamesKnown-trans r s t c a.states.known (a.involved c) (b.involved c);
}

pub mark_lem :
    (x : OrderState) (o : ℕ) (t : Table OrderState)
    → is_taken (some x) ≡ false
    → is_some (lookup o t) ≡ true
    → (u : Table OrderState) × (mark x o t ≡ some u) × CalmStates t u
unfolding mark is_taken
mark_lem x o t mild has = elim (Option-cases (lookup o t)) [
  | inl e ↦ absurd (ground (arith, e, has))
  | inr (open_state, e) ↦ (
    insert o x t,
    ground (arith, e),
    record {
      orders = λ p. ground (arith, e, lookup-insert o p x t, mild);
      known = λ p. ground (arith, e, lookup-insert o p x t);
    },
  )
  | inr (assigned_state, e) ↦ (t, ground (arith, e), CalmStates-refl t)
  | inr (ambiguous_state, e) ↦ (t, ground (arith, e), CalmStates-refl t)
  | inr (conflict_state, e) ↦ (t, ground (arith, e), CalmStates-refl t)
]

pub mark_all_lem :
    (x : OrderState) (os : List ℕ) (t : Table OrderState)
    → is_taken (some x) ≡ false
    → AllKnown os t
    → (u : Table OrderState) × (mark_all x os t ≡ some u) × CalmStates t u
unfolding mark_all mem
mark_all_lem x [] t mild has = (t, refl, CalmStates-refl t)
mark_all_lem x (o ∷ os) t mild has =
    let (u, e, calm) = mark_lem x o t mild (has o (ground arith)) in
    let (v, f, calmer) = mark_all_lem x os u mild (λ p h. ground (arith, has p, h, calm.known p)) in
    (v, ground (arith, e, f), CalmStates-trans t u v calm calmer)

-- An assignment that takes no order, for a claim that has none.
pub Calm-insert :
    (s : Resolution) (c : ℕ) (a : Assignment) (t : Table OrderState)
    → assigned_to (some a) ≡ none
    → lookup c s.assignment ≡ none
    → CalmStates s.order_state t
    → AllKnown (involved_of (some a)) s.order_state
    → Calm s (record { assignment = insert c a s.assignment; order_state = t })
unfolding assigned_to
Calm-insert s c a t mild free calm named = record {
  states = calm;
  claims = λ d. ground (arith, lookup-insert c d a s.assignment, free, mild);
  kept = λ d h. ground (arith, lookup-insert c d a s.assignment, free, h);
  involved = λ d. elim (Bool-cases (c == d)) [
    | inl e ↦
        let now : lookup d (insert c a s.assignment) ≡ some a =
          ground (arith, lookup-insert c d a s.assignment, e) in
        inr (rw now named)
    | inr e ↦ inl (ground (arith, lookup-insert c d a s.assignment, e))
  ];
}

pub assign_new-Calm :
    (c : ℕ) (a : Assignment) (s : Resolution)
    → assigned_to (some a) ≡ none
    → AllKnown (involved_of (some a)) s.order_state
    → Calm s (assign_new c a s)
unfolding assign_new
assign_new-Calm c a s mild named = elim (Option-cases (lookup c s.assignment)) [
  | inl e ↦ rw (e) (Calm-insert s c a s.order_state mild e (CalmStates-refl s.order_state) named)
  | inr (b, e) ↦ rw (e) (Calm-refl s)
]

pub assign_new-is_some :
    (c : ℕ) (a : Assignment) (s : Resolution)
    → is_some (lookup c (assign_new c a s).assignment) ≡ true
unfolding assign_new
assign_new-is_some c a s = ground (arith, lookup-insert c c a s.assignment)

pub assign_holders-Calm :
    (tier : EvidenceTier) (o : ℕ) (cs : List ℕ) (s : Resolution)
    → is_some (lookup o s.order_state) ≡ true
    → Calm s (assign_holders tier o cs s)
unfolding assign_holders assigned_to involved_of mem
assign_holders-Calm tier o [] s known = Calm-refl s
assign_holders-Calm tier o (c ∷ cs) s known =
    let next = assign_new c (ambiguous tier (o ∷ [])) s in
    let calm =
      assign_new-Calm c (ambiguous tier (o ∷ [])) s refl
        (λ p h. let same : p ≡ o = ground (arith, h) in rw same known) in
    Calm-trans s next (assign_holders tier o cs next) calm
      (assign_holders-Calm tier o cs next (calm.states.known o ∙ known))

pub fill_unassigned-Calm : (is : List ℕ) (s : Resolution) → Calm s (fill_unassigned is s)
unfolding fill_unassigned assigned_to involved_of mem
fill_unassigned-Calm [] s = Calm-refl s
fill_unassigned-Calm (i ∷ is) s =
    let next = assign_new i no_order s in
    Calm-trans s next (fill_unassigned is next)
      (assign_new-Calm i no_order s refl (λ o h. absurd (ground (arith, h))))
      (fill_unassigned-Calm is next)

pub fill_unassigned-is_some :
    (is : List ℕ) (s : Resolution) (i : ℕ)
    → mem i is ≡ true
    → is_some (lookup i (fill_unassigned is s).assignment) ≡ true
unfolding fill_unassigned mem
fill_unassigned-is_some [] s i h = absurd (ground (arith, h))
fill_unassigned-is_some (j ∷ is) s i h =
    let next = assign_new j no_order s in
    let rest = fill_unassigned-Calm is next in
    elim (Bool-cases (j == i)) [
      | inl e ↦
          let same : i ≡ j = ground (arith, e) in
          rw same (ground (arith, rest.kept j, assign_new-is_some j no_order s))
      | inr e ↦ fill_unassigned-is_some is next i (ground (arith, h, e))
    ]

pub assign_ambiguous_lem :
    (tier : EvidenceTier) (c : ℕ) (partners : List ℕ) (s : Resolution)
    → lookup c s.assignment ≡ none
    → AllKnown partners s.order_state
    → (next : Resolution) × (assign_ambiguous tier c partners s ≡ some next)
      × Calm s next
      × ((d : ℕ) → (c == d) ≡ false → lookup d next.assignment ≡ lookup d s.assignment)
unfolding assign_ambiguous is_taken assigned_to involved_of
assign_ambiguous_lem tier c partners s free has =
    let (t, e, calm) = mark_all_lem ambiguous_state partners s.order_state refl has in
    (
      record { assignment = insert c (ambiguous tier partners) s.assignment; order_state = t },
      ground (arith, e),
      Calm-insert s c (ambiguous tier partners) t refl free calm has,
      λ d other. ground (arith, lookup-insert c d (ambiguous tier partners) s.assignment, other),
    )

pub assign_conflict_lem :
    (i : ℕ) (os : List ℕ) (s : Resolution)
    → lookup i s.assignment ≡ none
    → AllKnown os s.order_state
    → (next : Resolution) × (assign_conflict i os s ≡ some next) × Calm s next
unfolding assign_conflict is_taken assigned_to involved_of
assign_conflict_lem i [] s free has = (s, refl, Calm-refl s)
assign_conflict_lem i (o ∷ os) s free has =
    let (t, e, calm) = mark_all_lem conflict_state (o ∷ os) s.order_state refl has in
    (
      record { assignment = insert i (conflict (o ∷ os)) s.assignment; order_state = t },
      ground (arith, e),
      Calm-insert s i (conflict (o ∷ os)) t refl free calm has,
    )

-- An open order that several claims may hold.
pub contest-Calm :
    (tier : EvidenceTier) (o : ℕ) (holders : List ℕ) (s : Resolution)
    → lookup o s.order_state ≡ some open_state
    → Calm s (contest tier o holders s)
unfolding contest is_taken
contest-Calm tier o holders s free =
    let marked : Resolution = record s { order_state = insert o ambiguous_state s.order_state } in
    elim (Bool-cases (ltb 1 (length holders))) [
      | inr e ↦ rw e (Calm-refl s)
      | inl e ↦ rw e (
          Calm-trans s marked (assign_holders tier o holders marked)
            (record {
              states = record {
                orders = λ p. ground (arith, free, lookup-insert o p ambiguous_state s.order_state);
                known = λ p. ground (arith, free, lookup-insert o p ambiguous_state s.order_state);
              };
              claims = λ c. refl;
              kept = λ c h. refl;
              involved = λ c. inl refl;
            })
            (assign_holders-Calm tier o holders marked
              (ground (arith, lookup-insert o o ambiguous_state s.order_state))))
    ]
