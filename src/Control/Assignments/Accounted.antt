-- ===== src/Control/Assignments/Accounted.antt =====
-- The accounting of the orders: an order is taken exactly by the one claim it is assigned to. One
-- tier of `resolve_assignments` keeps it.
use safe_agent.Prelude.{ℕ, List, some, true, ◌≡◌, ◌∙◌, arith, is_some}
use safe_agent.Prelude.Table.{lookup}
use safe_agent.Control.Models.{EvidenceTier, Edge}
use safe_agent.Control.Resolution.{Resolution}
use safe_agent.Control.Assignments.States.{
  NamesKnown, NamesKnown-trans, is_taken, assigned_to, Calm,
}
use safe_agent.Control.Assignments.Pairs.{has_edge, is_graded}

pub record IsAccounted (edges : List Edge) (s : Resolution) : Type 0 where
  pub evidence :
      (c o : ℕ) (t : EvidenceTier)
      → assigned_to (lookup c s.assignment) ≡ some (o, t)
      → (has_edge t c o edges ≡ true) × (is_graded t ≡ true)
  pub taken :
      (c o : ℕ) (t : EvidenceTier)
      → assigned_to (lookup c s.assignment) ≡ some (o, t)
      → is_taken (lookup o s.order_state) ≡ true
  pub once :
      (c d o : ℕ) (t u : EvidenceTier)
      → assigned_to (lookup c s.assignment) ≡ some (o, t)
      → assigned_to (lookup d s.assignment) ≡ some (o, u)
      → c ≡ d
  pub owned :
      (o : ℕ)
      → is_taken (lookup o s.order_state) ≡ true
      → (c : ℕ) × (t : EvidenceTier) × (assigned_to (lookup c s.assignment) ≡ some (o, t))

pub IsAccounted-Calm :
    (edges : List Edge) (s next : Resolution)
    → Calm s next
    → IsAccounted edges s
    → IsAccounted edges next
IsAccounted-Calm edges s next calm a = record {
  evidence = λ c o t h. a.evidence c o t (ground (arith, calm.claims c, h));
  taken = λ c o t h. calm.states.orders o ∙ a.taken c o t (ground (arith, calm.claims c, h));
  once = λ c d o t u h k.
      a.once c d o t u (ground (arith, calm.claims c, h)) (ground (arith, calm.claims d, k));
  owned = λ o h.
      let (c, t, e) = a.owned o (ground (arith, calm.states.orders o, h)) in
      (c, t, calm.claims c ∙ e);
}

-- What a tier leaves of what stood before.
pub record Kept (before after : Resolution) : Type 0 where
  pub known : (o : ℕ) → is_some (lookup o after.order_state) ≡ is_some (lookup o before.order_state)
  pub kept :
      (c : ℕ)
      → is_some (lookup c before.assignment) ≡ true
      → lookup c after.assignment ≡ lookup c before.assignment
  pub involved : (c : ℕ) → NamesKnown before after c

pub Kept-Calm : (s next : Resolution) → Calm s next → Kept s next
Kept-Calm s next calm = record {
  known = calm.states.known;
  kept = calm.kept;
  involved = calm.involved;
}

pub Kept-trans : (r s t : Resolution) → Kept r s → Kept s t → Kept r t
Kept-trans r s t a b = record {
  known = λ o. b.known o ∙ a.known o;
  kept = λ c h. ground (arith, a.kept c h, b.kept c, h);
  involved = λ c. NamesKnown-trans r s t c a.known (a.involved c) (b.involved c);
}
