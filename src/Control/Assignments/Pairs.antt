-- ===== src/Control/Assignments/Pairs.antt =====
-- The compatible pairs of a tier: `edges_for_tier` and the ids on its two sides.
use safe_agent.Prelude.{
  ℕ, ◌≤◌, ◌<◌, List, [], ◌∷◌, All, none, Bool, true, false, ◌&&◌, ◌||◌, ◌≡◌, inl, inr, arith, ltb,
  ◌==◌, Bool-cases,
}
use safe_agent.Prelude.Table.{lookup}
use safe_agent.Prelude.Counts.{mem, count, count-mem}
use safe_agent.Control.Models.{
  EvidenceTier, full_identifier, partial_identifier, weak_heuristic, tier_eq, Edge,
}
use safe_agent.Control.Matching.{adj_by_claim}
use safe_agent.Control.Outcome.{add}
use safe_agent.Control.Outcome.Sets.{mem-add}
use safe_agent.Control.Outcome.Edges.{All-edges}
use safe_agent.Control.Resolution.{
  Resolution, add_edge, fits, edges_for_tier, left_ids, right_ids, is_available,
}

-- Strictly ascending.
abbrev pub Ascending : List ℕ → Type 0
Ascending [] = Unit
Ascending (x ∷ xs) = ((y : ℕ) → mem y xs ≡ true → x < y) × Ascending xs

pub add-Ascending : (x : ℕ) (xs : List ℕ) → Ascending xs → Ascending (add x xs)
unfolding add mem
add-Ascending x [] h = (λ y m. absurd (ground (arith, m)), tt)
add-Ascending x (z ∷ xs) (first, rest) = elim (Bool-cases (x == z)) [
  | inl e ↦ rw e (first, rest)
  | inr e ↦ elim (Bool-cases (ltb x z)) [
    | inl l ↦ rw (e, l) (λ y m. ground (arith, first y, m, l), (first, rest))
    | inr l ↦
        rw (e, l) (λ y m. ground (arith, first y, m, l, e, mem-add x y xs), add-Ascending x xs rest)
  ]
]

pub Ascending-count : (xs : List ℕ) (y : ℕ) → Ascending xs → count y xs ≤ 1
unfolding mem count
Ascending-count [] y h = omega arith
Ascending-count (x ∷ xs) y (first, rest) =
    ground (arith, first x, count-mem x xs, Ascending-count xs y rest)

pub left_ids-Ascending : (es : List (ℕ × ℕ)) → Ascending (left_ids es)
unfolding left_ids
left_ids-Ascending [] = tt
left_ids-Ascending ((c, o) ∷ es) = add-Ascending c (left_ids es) (left_ids-Ascending es)

pub left_ids_once : (es : List (ℕ × ℕ)) (c : ℕ) → count c (left_ids es) ≤ 1
left_ids_once es c = Ascending-count (left_ids es) c (left_ids-Ascending es)

pub mem-left_ids :
    (es : List (ℕ × ℕ)) (c o : ℕ) → mem o (adj_by_claim es c) ≡ true → mem c (left_ids es) ≡ true
unfolding left_ids adj_by_claim mem
mem-left_ids [] c o h = absurd (ground (arith, h))
mem-left_ids ((d, q) ∷ es) c o h = ground (arith, h, mem-add d c (left_ids es), mem-left_ids es c o)

pub mem-right_ids :
    (es : List (ℕ × ℕ)) (c o : ℕ) → mem o (adj_by_claim es c) ≡ true → mem o (right_ids es) ≡ true
unfolding right_ids adj_by_claim mem
mem-right_ids [] c o h = absurd (ground (arith, h))
mem-right_ids ((d, q) ∷ es) c o h =
    ground (arith, h, mem-add q o (right_ids es), mem-right_ids es c o)

pub ids_known :
    (es : List (ℕ × ℕ))
    → All (λ e. (mem e.0 (left_ids es) ≡ true) × (mem e.1 (right_ids es) ≡ true)) es
ids_known es =
    All-edges (λ e. (mem e.0 (left_ids es) ≡ true) × (mem e.1 (right_ids es) ≡ true)) es
      (λ c o h. (mem-left_ids es c o h, mem-right_ids es c o h))

-- Every claim on the left has an edge.
pub left_ids_edge :
    (es : List (ℕ × ℕ)) (c : ℕ)
    → mem c (left_ids es) ≡ true
    → (o : ℕ) × (mem o (adj_by_claim es c) ≡ true)
unfolding left_ids adj_by_claim mem
left_ids_edge [] c h = absurd (ground (arith, h))
left_ids_edge ((d, q) ∷ es) c h = elim (Bool-cases (d == c)) [
  | inl e ↦ (q, ground (arith, e))
  | inr e ↦
      let (o, m) = left_ids_edge es c (ground (arith, h, e, mem-add d c (left_ids es))) in
      (o, ground (arith, e, m))
]

pub right_ids_edge :
    (es : List (ℕ × ℕ)) (o : ℕ)
    → mem o (right_ids es) ≡ true
    → (c : ℕ) × (mem o (adj_by_claim es c) ≡ true)
unfolding right_ids adj_by_claim mem
right_ids_edge [] o h = absurd (ground (arith, h))
right_ids_edge ((d, q) ∷ es) o h = elim (Bool-cases (q == o)) [
  | inl e ↦ (d, ground (arith, e))
  | inr e ↦
      let (c, m) = right_ids_edge es o (ground (arith, h, e, mem-add q o (right_ids es))) in
      (c, ground (arith, m))
]

pub adj-add_edge :
    (d q : ℕ) (es : List (ℕ × ℕ)) (c o : ℕ)
    → mem o (adj_by_claim (add_edge d q es) c) ≡ (d == c && q == o || mem o (adj_by_claim es c))
unfolding add_edge adj_by_claim mem
adj-add_edge d q [] c o = ground arith
adj-add_edge d q ((d', q') ∷ es) c o = ground (arith, adj-add_edge d q es c o)

-- The tiers that assign.
unfoldable pub is_graded : EvidenceTier → Bool
is_graded full_identifier = true
is_graded partial_identifier = true
is_graded weak_heuristic = true
is_graded t = false

-- The claim and the order have a status-compatible edge of the tier.
unfoldable pub has_edge : EvidenceTier → ℕ → ℕ → List Edge → Bool
unfolding tier_eq
has_edge t c o [] = false
has_edge t c o (e ∷ es) =
    (tier_eq e.tier t && e.claim_idx == c && e.order_idx == o && e.status_compatible)
    || has_edge t c o es

pub edges_for_tier_lem :
    (t : EvidenceTier) (n : ℕ) (s : Resolution) (edges : List Edge) (c o : ℕ)
    → mem o (adj_by_claim (edges_for_tier t n s edges) c) ≡ true
    → (has_edge t c o edges ≡ true)
      × (is_available o s.order_state ≡ true)
      × (lookup c s.assignment ≡ none)
unfolding edges_for_tier fits has_edge adj_by_claim mem
edges_for_tier_lem t n s [] c o h = absurd (ground (arith, h))
edges_for_tier_lem t n s (e ∷ es) c o h = elim (Bool-cases (fits t n s e)) [
  | inr f ↦
      let later = edges_for_tier_lem t n s es c o (ground (arith, h, f)) in
      (ground (arith, later.0), later.1, later.2)
  | inl f ↦
      let rest = edges_for_tier t n s es in
      elim (Bool-cases (e.claim_idx == c && e.order_idx == o)) [
        | inl q ↦
            let claim : e.claim_idx ≡ c = ground (arith, q) in
            let order : e.order_idx ≡ o = ground (arith, q) in
            (
              ground (arith, f, q),
              rw (← order) (ground (arith, f)),
              rw (← claim) (ground (arith, f)),
            )
        | inr q ↦
            let later =
              edges_for_tier_lem t n s es c o
                (ground (arith, h, f, q, adj-add_edge e.claim_idx e.order_idx rest c o)) in
            (ground (arith, later.0), later.1, later.2)
      ]
]
