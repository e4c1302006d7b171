-- ===== src/Control/Tier/Erase.antt =====
-- A matching without one of its orders.
use safe_agent.Prelude.{
  ℕ, suc, ◌+◌, ◌≤◌, [], ◌∷◌, length, All, some, ◌≡◌, refl, inl, inr, arith, ◌==◌, if◌then◌else◌,
  Bool-cases,
}
use safe_agent.Prelude.Table.{Table, lookup, erase}
use safe_agent.Prelude.Counts.{count}
use safe_agent.Control.Matching.Counting.{keys, vals}

module _ (o : ℕ) where
  pub count-keys-erase : (x : ℕ) (t : Table ℕ) → count x (keys (erase o t)) ≤ count x (keys t)
  unfolding erase keys count
  count-keys-erase x [] = omega arith
  count-keys-erase x ((k, v) ∷ t) = ground (arith, count-keys-erase x t)

  pub count-keys-erase_gone : (t : Table ℕ) → count o (keys (erase o t)) ≡ 0
  unfolding erase keys count
  count-keys-erase_gone [] = refl
  count-keys-erase_gone ((k, v) ∷ t) = ground (arith, count-keys-erase_gone t)

  pub erase_missing : (t : Table ℕ) → count o (keys t) ≡ 0 → erase o t ≡ t
  unfolding erase keys count
  erase_missing [] h = refl
  erase_missing ((k, v) ∷ t) h = ground (arith, h, erase_missing t)

  pub All-erase : (P : ℕ × ℕ → Type 0) (t : Table ℕ) → All P t → All P (erase o t)
  unfolding erase
  All-erase P [] h = tt
  All-erase P ((k, v) ∷ t) h = elim (Bool-cases (k == o)) [
    | inl e ↦ rw e (All-erase P t h.1)
    | inr e ↦ rw e (h.0, All-erase P t h.1)
  ]

  pub count-vals-erase :
      (c x : ℕ) (t : Table ℕ)
      → count o (keys t) ≤ 1
      → lookup o t ≡ some c
      → count x (vals (erase o t)) + (if c == x then 1 else 0) ≡ count x (vals t)
  unfolding erase vals keys count lookup
  count-vals-erase c x [] once h = absurd (ground (arith, h))
  count-vals-erase c x ((k, v) ∷ t) once h =
      ground (arith, once, h, count-vals-erase c x t, erase_missing t)

  pub length-erase :
      (c : ℕ) (t : Table ℕ)
      → count o (keys t) ≤ 1
      → lookup o t ≡ some c
      → suc (length (erase o t)) ≡ length t
  unfolding erase keys count lookup
  length-erase c [] once h = absurd (ground (arith, h))
  length-erase c ((k, v) ∷ t) once h = ground (arith, once, h, length-erase c t, erase_missing t)
