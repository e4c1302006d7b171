-- ===== src/Control/Outcome/Edges.antt =====
-- The pairs of the reference matching, and facts of all edges.
use safe_agent.Prelude.{
  ℕ, ◌≤◌, List, [], ◌∷◌, All, some, true, ◌&&◌, ◌≡◌, inl, inr, arith, ◌==◌, Bool-cases,
}
use safe_agent.Prelude.Table.{Table, lookup}
use safe_agent.Prelude.Counts.{mem, count}
use safe_agent.Control.Outcome.{in_reference}
use safe_agent.Control.Matching.{adj_by_claim}
use safe_agent.Control.Tier.Swap.{swap}
use safe_agent.Control.Matching.Counting.{keys}
use safe_agent.Control.Matching.Cover.{count-keys-some}

pub in_reference-swap :
    (c o : ℕ) (t : Table ℕ)
    → ((q : ℕ) → count q (keys t) ≤ 1)
    → in_reference c o (swap t) ≡ true
    → lookup o t ≡ some c
unfolding in_reference swap lookup keys count
in_reference-swap c o [] once h = absurd (ground (arith, h))
in_reference-swap c o ((k, v) ∷ t) once h = elim (Bool-cases (v == c && k == o)) [
  | inl e ↦ ground (arith, e)
  | inr e ↦
      let later = in_reference-swap c o t (λ q. omega (arith, once q)) (ground (arith, h, e)) in
      ground (arith, later, once o, count-keys-some o c t later)
]

-- The pairs of a matching are between known claims and orders.
pub known_ends :
    (claims orders : List ℕ) (es : List (ℕ × ℕ)) (t : Table ℕ)
    → All (λ e. (mem e.0 claims ≡ true) × (mem e.1 orders ≡ true)) es
    → All (λ p. mem p.0 (adj_by_claim es p.1) ≡ true) t
    → All (λ p. (mem p.0 claims ≡ true) × (mem p.1 orders ≡ true)) (swap t)
unfolding swap adj_by_claim mem
known_ends claims orders es [] known edges = tt
known_ends claims orders es ((o, c) ∷ t) known edges =
    (ends es known edges.0, known_ends claims orders es t known edges.1)
  where
    ends :
        (rs : List (ℕ × ℕ))
        → All (λ e. (mem e.0 claims ≡ true) × (mem e.1 orders ≡ true)) rs
        → mem o (adj_by_claim rs c) ≡ true
        → (mem c claims ≡ true) × (mem o orders ≡ true)
    ends [] all h = absurd (ground (arith, h))
    ends ((d, q) ∷ rs) all h = elim (Bool-cases (d == c && q == o)) [
      | inl e ↦
          let claim : c ≡ d = ground (arith, e) in
          let order : o ≡ q = ground (arith, e) in rw (claim, order) all.0
      | inr e ↦ ends rs all.1 (ground (arith, h, e))
    ]

pub All-left : {A : Type 0} (P Q : A → Type 0) (xs : List A) → All (λ x. P x × Q x) xs → All P xs
All-left P Q [] h = tt
All-left P Q (x ∷ xs) h = (h.0.0, All-left P Q xs h.1)

-- A fact of every pair among the edges.
pub All-edges :
    (P : ℕ × ℕ → Type 0) (es : List (ℕ × ℕ))
    → ((c o : ℕ) → mem o (adj_by_claim es c) ≡ true → P (c, o))
    → All P es
unfolding adj_by_claim mem
All-edges P [] h = tt
All-edges P ((c, o) ∷ es) h =
    (h c o (ground arith), All-edges P es (λ d q m. h d q (ground (arith, m))))

pub All-mem : (P : ℕ → Type 0) (cs : List ℕ) → ((c : ℕ) → P c) → All P cs
All-mem P [] h = tt
All-mem P (c ∷ cs) h = (h c, All-mem P cs h)
