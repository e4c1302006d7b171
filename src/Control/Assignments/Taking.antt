-- ===== src/Control/Assignments/Taking.antt =====
-- A claim takes an order that is still free: what is assigned afterwards.
use safe_agent.Prelude.{
  ℕ, List, none, some, true, false, ◌≡◌, ◌⊎◌, inl, inr, arith, ◌==◌, Bool-cases,
}
use safe_agent.Prelude.Table.{lookup, insert, lookup-insert}
use safe_agent.Prelude.Counts.{mem}
use safe_agent.Control.Models.{EvidenceTier, Edge}
use safe_agent.Control.Resolution.{assigned, open_state, assigned_state, Resolution}
use safe_agent.Control.Assignments.States.{involved_of, is_taken, assigned_to}
use safe_agent.Control.Assignments.Pairs.{has_edge, is_graded}
use safe_agent.Control.Assignments.Accounted.{IsAccounted, Kept}

module _ (tier : EvidenceTier) where
  -- The claim is assigned the order.
  abbrev pub taking : ℕ → ℕ → Resolution → Resolution
  taking c o s = record {
    assignment = insert c (assigned o tier) s.assignment;
    order_state = insert o assigned_state s.order_state;
  }

  -- What a claim is assigned afterwards: the order, or what it was assigned before.
  pub taking-assigned :
      (c o : ℕ) (s : Resolution) (d q : ℕ) (t : EvidenceTier)
      → assigned_to (lookup d (taking c o s).assignment) ≡ some (q, t)
      → ((d ≡ c) × (q ≡ o) × (t ≡ tier))
        ⊎ (((c == d) ≡ false) × (assigned_to (lookup d s.assignment) ≡ some (q, t)))
  unfolding assigned_to
  taking-assigned c o s d q t h =
      let now = lookup-insert c d (assigned o tier) s.assignment in
      elim (Bool-cases (c == d)) [
        | inl e ↦ inl (ground (arith, e), ground (arith, h, now, e), ground (arith, h, now, e))
        | inr e ↦ inr (e, ground (arith, h, now, e))
      ]

module _ (edges : List Edge) (tier : EvidenceTier) (graded : is_graded tier ≡ true) where
  pub taking-IsAccounted :
      (c o : ℕ) (s : Resolution)
      → IsAccounted edges s
      → has_edge tier c o edges ≡ true
      → is_taken (lookup o s.order_state) ≡ false
      → lookup c s.assignment ≡ none
      → IsAccounted edges (taking tier c o s)
  unfolding is_taken assigned_to
  taking-IsAccounted c o s old edge is_free unassigned =
      let a = λ (d : ℕ). lookup-insert c d (assigned o tier) s.assignment in
      let st = λ (q : ℕ). lookup-insert o q assigned_state s.order_state in
      record {
        evidence = λ d q t h. elim (taking-assigned tier c o s d q t h) [
          | inl (same, order, grade) ↦ (rw (same, order, grade) edge, rw grade graded)
          | inr (e, theirs) ↦ old.evidence d q t theirs
        ];
        taken = λ d q t h. elim (taking-assigned tier c o s d q t h) [
          | inl (same, order, grade) ↦ ground (arith, order, st q)
          | inr (e, theirs) ↦ ground (arith, old.taken d q t theirs, st q)
        ];
        once = λ d d' q t u h k. elim (taking-assigned tier c o s d q t h) [
          | inl (same, order, grade) ↦ elim (taking-assigned tier c o s d' q u k) [
            | inl (same', order', grade') ↦ ground (arith, same, same')
            | inr (e', theirs) ↦ absurd (ground (arith, old.taken d' q u theirs, order, is_free))
          ]
          | inr (e, theirs) ↦ elim (taking-assigned tier c o s d' q u k) [
            | inl (same', order', grade') ↦
                absurd (ground (arith, old.taken d q t theirs, order', is_free))
            | inr (e', theirs') ↦ old.once d d' q t u theirs theirs'
          ]
        ];
        owned = λ q h. elim (Bool-cases (o == q)) [
          | inl e ↦ (c, tier, ground (arith, a c, e))
          | inr e ↦
              let (d, t, holds) = old.owned q (ground (arith, h, st q, e)) in
              (d, t, ground (arith, a d, holds, unassigned))
        ];
      }

module _ (tier : EvidenceTier) (first : Resolution) where
  pub taking-Kept :
      (c o : ℕ) (s : Resolution)
      → Kept first s
      → lookup o first.order_state ≡ some open_state
      → lookup c s.assignment ≡ none
      → Kept first (taking tier c o s)
  unfolding involved_of mem
  taking-Kept c o s old was_open unassigned =
      let a = λ (d : ℕ). lookup-insert c d (assigned o tier) s.assignment in
      let st = λ (q : ℕ). lookup-insert o q assigned_state s.order_state in
      record {
        known = λ q. ground (arith, old.known q, st q, old.known o, was_open);
        kept = λ d h. ground (arith, a d, unassigned, old.kept d h, h);
        involved = λ d. elim (Bool-cases (c == d)) [
          | inl e ↦
              let now : lookup d (insert c (assigned o tier) s.assignment)
                  ≡ some (assigned o tier) =
                ground (arith, a d, e) in
              inr (rw now (λ q h. absurd (ground (arith, h))))
          | inr e ↦
              let now : lookup d (insert c (assigned o tier) s.assignment) ≡ lookup d s.assignment =
                ground (arith, a d, e) in
              elim (old.involved d) [
                | inl same ↦ inl (ground (arith, now, same))
                | inr named ↦ inr (rw now named)
              ]
        ];
      }
