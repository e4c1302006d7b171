-- ===== src/Control/Matching/Counting.antt =====
-- Matchings as tables, and the counts of their orders and claims.
use safe_agent.Prelude.{
  ℕ, suc, ◌+◌, ◌≤◌, List, [], ◌∷◌, length, All, none, some, true, ◌≡◌, refl, inl, inr, arith, ◌==◌,
  if◌then◌else◌, Bool-cases,
}
use safe_agent.Prelude.Table.{Table, lookup, insert}
use safe_agent.Prelude.Counts.{mem, count}

unfoldable pub keys : Table ℕ → List ℕ
keys [] = []
keys ((k, v) ∷ t) = k ∷ keys t

unfoldable pub vals : Table ℕ → List ℕ
vals [] = []
vals ((k, v) ∷ t) = v ∷ vals t

-- A matching: every pair is an edge, no order and no claim is in two pairs.
pub record IsMatching (adj : ℕ → List ℕ) (t : Table ℕ) : Type 0 where
  pub edges : All (λ p. mem p.0 (adj p.1) ≡ true) t
  pub orders_once : (o : ℕ) → count o (keys t) ≤ 1
  pub claims_once : (c : ℕ) → count c (vals t) ≤ 1

pub nil-IsMatching : (adj : ℕ → List ℕ) → IsMatching adj []
unfolding keys vals count
nil-IsMatching adj = record {
  edges = tt;
  orders_once = λ o. omega arith;
  claims_once = λ c. omega arith;
}

pub count-vals-insert_new :
    (o c x : ℕ) (t : Table ℕ)
    → lookup o t ≡ none
    → count x (vals (insert o c t)) ≡ count x (vals t) + (if c == x then 1 else 0)
unfolding count vals insert lookup
count-vals-insert_new o c x [] h = ground arith
count-vals-insert_new o c x ((k, v) ∷ t) h = ground (arith, count-vals-insert_new o c x t)

pub count-vals-insert_held :
    (o c d x : ℕ) (t : Table ℕ)
    → lookup o t ≡ some d
    → count x (vals (insert o c t)) + (if d == x then 1 else 0)
      ≡ count x (vals t) + (if c == x then 1 else 0)
unfolding count vals insert lookup
count-vals-insert_held o c d x [] h = absurd (ground arith)
count-vals-insert_held o c d x ((k, v) ∷ t) h = ground (arith, count-vals-insert_held o c d x t)

pub count-keys-insert_new :
    (o c x : ℕ) (t : Table ℕ)
    → lookup o t ≡ none
    → count x (keys (insert o c t)) ≡ count x (keys t) + (if o == x then 1 else 0)
unfolding count keys insert lookup
count-keys-insert_new o c x [] h = ground arith
count-keys-insert_new o c x ((k, v) ∷ t) h = ground (arith, count-keys-insert_new o c x t)

pub count-keys-insert_held :
    (o c d x : ℕ) (t : Table ℕ)
    → lookup o t ≡ some d
    → count x (keys (insert o c t)) ≡ count x (keys t)
unfolding count keys insert lookup
count-keys-insert_held o c d x [] h = absurd (ground arith)
count-keys-insert_held o c d x ((k, v) ∷ t) h = ground (arith, count-keys-insert_held o c d x t)

pub count-keys-none : (o : ℕ) (t : Table ℕ) → lookup o t ≡ none → count o (keys t) ≡ 0
unfolding count keys lookup
count-keys-none o [] h = refl
count-keys-none o ((k, v) ∷ t) h = ground (arith, count-keys-none o t)

pub All-insert :
    (P : ℕ × ℕ → Type 0) (o c : ℕ) (t : Table ℕ) → P (o, c) → All P t → All P (insert o c t)
unfolding insert
All-insert P o c [] p h = (p, tt)
All-insert P o c ((k, v) ∷ t) p h = elim (Bool-cases (k == o)) [
  | inl e ↦ let same : k ≡ o = ground (arith, e) in rw e (rw same p, h.1)
  | inr e ↦ rw e (h.0, All-insert P o c t p h.1)
]

pub length-insert_new :
    (o c : ℕ) (t : Table ℕ) → lookup o t ≡ none → length (insert o c t) ≡ suc (length t)
unfolding insert lookup
length-insert_new o c [] h = refl
length-insert_new o c ((k, v) ∷ t) h = ground (arith, length-insert_new o c t)

pub length-insert_held :
    (o c d : ℕ) (t : Table ℕ) → lookup o t ≡ some d → length (insert o c t) ≡ length t
unfolding insert lookup
length-insert_held o c d [] h = absurd (ground arith)
length-insert_held o c d ((k, v) ∷ t) h = ground (arith, length-insert_held o c d t)
