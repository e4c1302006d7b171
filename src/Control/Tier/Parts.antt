-- ===== src/Control/Tier/Parts.antt =====
-- The pairs of a table whose keys are inside a list, and the pairs beyond.
use safe_agent.Prelude.{
  ℕ, suc, ◌+◌, ◌≤◌, List, [], ◌∷◌, ◌++◌, length, All, none, some, ◌≡◌, refl, ap, inl, inr, arith,
  ◌==◌, if◌then◌else◌, Bool-cases,
}
use safe_agent.Prelude.Table.{Table, lookup}
use safe_agent.Prelude.Counts.{mem, count}
use safe_agent.Control.Matching.Counting.{keys, vals}

module _ (w : List ℕ) where
  unfoldable pub inside : Table ℕ → Table ℕ
  inside [] = []
  inside ((k, v) ∷ t) = let rest = inside t in if mem k w then (k, v) ∷ rest else rest

  unfoldable pub beyond : Table ℕ → Table ℕ
  beyond [] = []
  beyond ((k, v) ∷ t) = let rest = beyond t in if mem k w then rest else (k, v) ∷ rest

  pub length-inside-beyond : (t : Table ℕ) → length t ≡ length (inside t) + length (beyond t)
  unfolding inside beyond
  length-inside-beyond [] = refl
  length-inside-beyond ((k, v) ∷ t) = ground (arith, length-inside-beyond t)

  pub count-vals-inside : (x : ℕ) (t : Table ℕ) → count x (vals (inside t)) ≤ count x (vals t)
  unfolding inside vals count
  count-vals-inside x [] = omega arith
  count-vals-inside x ((k, v) ∷ t) = ground (arith, count-vals-inside x t)

  pub count-vals-beyond : (x : ℕ) (t : Table ℕ) → count x (vals (beyond t)) ≤ count x (vals t)
  unfolding beyond vals count
  count-vals-beyond x [] = omega arith
  count-vals-beyond x ((k, v) ∷ t) = ground (arith, count-vals-beyond x t)

  pub count-keys-inside :
      (x : ℕ) (t : Table ℕ) → count x (keys (inside t)) ≡ (if mem x w then count x (keys t) else 0)
  unfolding inside keys count
  count-keys-inside x [] = ground arith
  count-keys-inside x ((k, v) ∷ t) = elim (Bool-cases (k == x)) [
    | inl e ↦
        let same : k ≡ x = ground (arith, e) in rw same (ground (arith, count-keys-inside x t))
    | inr e ↦ ground (arith, e, count-keys-inside x t)
  ]

  pub count-keys-beyond :
      (x : ℕ) (t : Table ℕ) → count x (keys (beyond t)) ≡ (if mem x w then 0 else count x (keys t))
  unfolding beyond keys count
  count-keys-beyond x [] = ground arith
  count-keys-beyond x ((k, v) ∷ t) = elim (Bool-cases (k == x)) [
    | inl e ↦
        let same : k ≡ x = ground (arith, e) in rw same (ground (arith, count-keys-beyond x t))
    | inr e ↦ ground (arith, e, count-keys-beyond x t)
  ]

  pub lookup-inside :
      (x : ℕ) (t : Table ℕ) → lookup x (inside t) ≡ (if mem x w then lookup x t else none)
  unfolding inside lookup
  lookup-inside x [] = ground arith
  lookup-inside x ((k, v) ∷ t) = elim (Bool-cases (k == x)) [
    | inl e ↦ let same : k ≡ x = ground (arith, e) in rw same (ground (arith, lookup-inside x t))
    | inr e ↦ ground (arith, e, lookup-inside x t)
  ]

  pub lookup-beyond :
      (x : ℕ) (t : Table ℕ) → lookup x (beyond t) ≡ (if mem x w then none else lookup x t)
  unfolding beyond lookup
  lookup-beyond x [] = ground arith
  lookup-beyond x ((k, v) ∷ t) = elim (Bool-cases (k == x)) [
    | inl e ↦ let same : k ≡ x = ground (arith, e) in rw same (ground (arith, lookup-beyond x t))
    | inr e ↦ ground (arith, e, lookup-beyond x t)
  ]

  pub All-inside-beyond :
      (P : ℕ × ℕ → Type 0) (s t : Table ℕ) → All P s → All P t → All P (inside s ++ beyond t)
  unfolding inside beyond
  All-inside-beyond P [] [] p q = tt
  All-inside-beyond P [] ((k, v) ∷ t) p q = elim (Bool-cases (mem k w)) [
    | inl e ↦ rw e (All-inside-beyond P [] t p q.1)
    | inr e ↦ rw e (q.0, All-inside-beyond P [] t p q.1)
  ]
  All-inside-beyond P ((k, v) ∷ s) t p q = elim (Bool-cases (mem k w)) [
    | inl e ↦ rw e (p.0, All-inside-beyond P s t p.1 q)
    | inr e ↦ rw e (All-inside-beyond P s t p.1 q)
  ]

pub length-keys : (t : Table ℕ) → length (keys t) ≡ length t
unfolding keys
length-keys [] = refl
length-keys ((k, v) ∷ t) = ap suc (length-keys t)

pub lookup-edge :
    (P : ℕ × ℕ → Type 0) (x d : ℕ) (t : Table ℕ) → All P t → lookup x t ≡ some d → P (x, d)
unfolding lookup
lookup-edge P x d [] p h = absurd (ground (arith, h))
lookup-edge P x d ((k, v) ∷ t) p h = elim (Bool-cases (k == x)) [
  | inl e ↦
      let key : x ≡ k = ground (arith, e) in
      let value : d ≡ v = ground (arith, h, e) in rw (key, value) p.0
  | inr e ↦ lookup-edge P x d t p.1 (ground (arith, h, e))
]
