-- ===== src/Control/Evidence/Graph.antt =====
-- `build_evidence_graph` against the pairs that it is to relate.
use safe_agent.Prelude.{
  ℕ, zero, suc, ◌+◌, ◌≤◌, ◌<◌, List, [], ◌∷◌, ◌++◌, length, All, Option, none, some, Bool, true,
  false, not, ◌&&◌, ◌||◌, ◌≡◌, refl, ap, ◌∙◌, inl, inr, arith, ◌==◌, if◌then◌else◌, Bool-cases,
  Option-cases,
}
use mathlib.Core.Path.{ap₂}
use safe_agent.Prelude.Lists.{get_elem?}
use safe_agent.Control.Models.{EvidenceTier, tier_eq, InternalClaim, BrokerOrder, Edge}
use safe_agent.Control.Evidence.{
  eligibility, is_skipped, tier_between, is_status_compatible, edge_between, edges_of_claim,
  edges_from, build_evidence_graph,
}
use safe_agent.Control.Assignments.Pairs.{has_edge}

-- The element at a position of a list that begins at another.
at : {A : Type 0} → ℕ → ℕ → List A → Option A
at k j [] = none
at k j (x ∷ xs) = if k == j then some x else at (suc k) j xs

at_before : {A : Type 0} (k j : ℕ) (xs : List A) → j < k → at k j xs ≡ none
unfolding at
at_before k j [] h = refl
at_before k j (x ∷ xs) h = ground (arith, h, at_before (suc k) j xs (omega arith))

at-get_elem? : {A : Type 0} (k j : ℕ) (xs : List A) → at k (k + j) xs ≡ get_elem? xs j
unfolding at get_elem?
at-get_elem? k j [] = refl
at-get_elem? k zero (x ∷ xs) = ground arith
at-get_elem? k (suc j) (x ∷ xs) =
    let next : at (suc k) (k + suc j) xs ≡ get_elem? xs j =
      ap (λ n. at (suc k) n xs) (omega arith) ∙ at-get_elem? (suc k) j xs in
    ground (arith, next)

has_tier : EvidenceTier → Option EvidenceTier → Bool
has_tier t none = false
has_tier t (some u) = tier_eq u t

-- The evidence between a claim and an order, if both are there.
joins_order : EvidenceTier → InternalClaim → Option BrokerOrder → Bool
unfolding has_tier
joins_order t c none = false
joins_order t c (some o) = has_tier t (tier_between c o) && is_status_compatible (eligibility c) o

-- The claim may have executed, the comparison of its identifiers, or of symbol, side, quantity and
-- time, gives the tier, and the order's status suits the claim.
unfoldable pub joins : EvidenceTier → Option InternalClaim → Option BrokerOrder → Bool
unfolding joins_order
joins t none o = false
joins t (some c) o = not (is_skipped (eligibility c)) && joins_order t c o

has_edge-append :
    (t : EvidenceTier) (c o : ℕ) (xs ys : List Edge)
    → has_edge t c o (xs ++ ys) ≡ (has_edge t c o xs || has_edge t c o ys)
unfolding has_edge
has_edge-append t c o [] ys = refl
has_edge-append t c o (x ∷ xs) ys = ground (arith, has_edge-append t c o xs ys)

edge_between_fields :
    (t : EvidenceTier) (i j i' j' : ℕ) (c : InternalClaim) (o : BrokerOrder) (es : List Edge)
    → has_edge t i' j' (elim (edge_between i c j o) [ none ↦ es | some e ↦ e ∷ es ])
      ≡ (i == i' && j == j' && joins_order t c (some o) || has_edge t i' j' es)
unfolding has_edge edge_between joins_order
edge_between_fields t i j i' j' c o es = elim (Option-cases (tier_between c o)) [
  | inl e ↦ ground (arith, e)
  | inr (u, e) ↦ ground (arith, e)
]

order_step :
    (t : EvidenceTier) (c : InternalClaim) (o : BrokerOrder) (x : Option BrokerOrder) (a q h : Bool)
    → h ≡ (a && joins_order t c x)
    → (q ≡ true → x ≡ none)
    → (a && q && joins_order t c (some o) || h) ≡ (a && joins_order t c (if q then some o else x))
unfolding joins_order
order_step t c o x true true h e past = rw (e, past refl) (ground arith)
order_step t c o x true false h e past = e
order_step t c o x false true h e past = e
order_step t c o x false false h e past = e

has_edge-edges_of_claim :
    (t : EvidenceTier) (i i' j k : ℕ) (c : InternalClaim) (os : List BrokerOrder)
    → has_edge t i' j (edges_of_claim i c k os) ≡ (i == i' && joins_order t c (at k j os))
unfolding edges_of_claim has_edge joins_order at
has_edge-edges_of_claim t i i' j k c [] = ground arith
has_edge-edges_of_claim t i i' j k c (o ∷ os) =
    edge_between_fields t i k i' j c o (edges_of_claim i c (suc k) os)
    ∙ order_step t c o (at (suc k) j os) (i == i') (k == j)
        (has_edge t i' j (edges_of_claim i c (suc k) os))
        (has_edge-edges_of_claim t i i' j (suc k) c os)
        (λ e. at_before (suc k) j os (ground (arith, e)))

claim_step :
    (t : EvidenceTier) (c : InternalClaim) (o : Option BrokerOrder) (q : Bool)
    (x : Option InternalClaim)
    → is_skipped (eligibility c) ≡ false
    → (q ≡ true → x ≡ none)
    → (q && joins_order t c o || joins t x o) ≡ joins t (if q then some c else x) o
unfolding joins
claim_step t c o true x runs past = rw (runs, past refl) (ground arith)
claim_step t c o false x runs past = refl

skip_step :
    (t : EvidenceTier) (c : InternalClaim) (o : Option BrokerOrder) (q : Bool)
    (x : Option InternalClaim)
    → is_skipped (eligibility c) ≡ true
    → (q ≡ true → x ≡ none)
    → joins t x o ≡ joins t (if q then some c else x) o
unfolding joins
skip_step t c o true x skips past = rw (skips, past refl)
skip_step t c o false x skips past = refl

has_edge-edges_from :
    (t : EvidenceTier) (i j k : ℕ) (cs : List InternalClaim) (os : List BrokerOrder)
    → has_edge t i j (edges_from k cs os) ≡ joins t (at k i cs) (get_elem? os j)
unfolding edges_from has_edge at
has_edge-edges_from t i j k [] os = unfold joins in refl
has_edge-edges_from t i j k (c ∷ cs) os =
    let later = has_edge-edges_from t i j (suc k) cs os in
    let here : has_edge t i j (edges_of_claim k c 0 os)
        ≡ (k == i && joins_order t c (get_elem? os j)) =
      has_edge-edges_of_claim t k i j 0 c os
      ∙ ap (λ o. k == i && joins_order t c o)
          (ap (λ n. at 0 n os) (omega arith) ∙ at-get_elem? 0 j os) in
    let past : (k == i) ≡ true → at (suc k) i cs ≡ none =
      λ e. at_before (suc k) i cs (ground (arith, e)) in
    elim (Bool-cases (is_skipped (eligibility c))) [
      | inl s ↦ rw s (later ∙ skip_step t c (get_elem? os j) (k == i) (at (suc k) i cs) s past)
      | inr s ↦ rw s (
          has_edge-append t i j (edges_of_claim k c 0 os) (edges_from (suc k) cs os)
          ∙ (ap₂ (λ a b. a || b) here later
              ∙ claim_step t c (get_elem? os j) (k == i) (at (suc k) i cs) s past))
    ]

-- Whatever the claims and orders: the graph has a status-compatible edge of a tier between two
-- positions exactly when a claim and an order stand there, the claim is not one whose execution was
-- skipped, the comparison of the two gives that tier, and the order's status suits the claim.
pub build_evidence_graph_exact :
    (t : EvidenceTier) (i j : ℕ) (claims : List InternalClaim) (orders : List BrokerOrder)
    → has_edge t i j (build_evidence_graph claims orders)
      ≡ joins t (get_elem? claims i) (get_elem? orders j)
unfolding build_evidence_graph
build_evidence_graph_exact t i j claims orders =
    has_edge-edges_from t i j 0 claims orders
    ∙ ap (λ c. joins t c (get_elem? orders j))
        (ap (λ n. at 0 n claims) (omega arith) ∙ at-get_elem? 0 i claims)

-- The edges join a claim and an order that are there.
abbrev pub Inside : ℕ → ℕ → List Edge → Type 0
Inside n_claims n_orders edges =
    All (λ e. (e.claim_idx < n_claims) × (e.order_idx < n_orders)) edges

Inside-append :
    (n m : ℕ) (xs ys : List Edge) → Inside n m xs → Inside n m ys → Inside n m (xs ++ ys)
Inside-append n m [] ys h k = k
Inside-append n m (x ∷ xs) ys h k = (h.0, Inside-append n m xs ys h.1 k)

Inside-step :
    (n m : ℕ) (found : Option Edge) (rest : List Edge)
    → ((e : Edge) → found ≡ some e → (e.claim_idx < n) × (e.order_idx < m))
    → Inside n m rest
    → Inside n m (elim found [ none ↦ rest | some e ↦ e ∷ rest ])
Inside-step n m none rest h all = all
Inside-step n m (some e) rest h all = (h e refl, all)

edge_between-ends :
    (i j : ℕ) (c : InternalClaim) (o : BrokerOrder) (e : Edge)
    → edge_between i c j o ≡ some e
    → (e.claim_idx ≡ i) × (e.order_idx ≡ j)
unfolding edge_between
edge_between-ends i j c o e h = elim (Option-cases (tier_between c o)) [
  | inl f ↦ absurd (ground (arith, h, f))
  | inr (u, f) ↦ ground (arith, h, f)
]

edges_of_claim-Inside :
    (n m i k : ℕ) (c : InternalClaim) (os : List BrokerOrder)
    → i < n
    → k + length os ≤ m
    → Inside n m (edges_of_claim i c k os)
unfolding edges_of_claim
edges_of_claim-Inside n m i k c [] h l = tt
edges_of_claim-Inside n m i k c (o ∷ os) h l =
    Inside-step n m (edge_between i c k o) (edges_of_claim i c (suc k) os)
      (λ e f. omega (arith, edge_between-ends i k c o e f, h, l))
      (edges_of_claim-Inside n m i (suc k) c os h (omega arith))

edges_from-Inside :
    (n m k : ℕ) (cs : List InternalClaim) (os : List BrokerOrder)
    → k + length cs ≤ n
    → length os ≤ m
    → Inside n m (edges_from k cs os)
unfolding edges_from
edges_from-Inside n m k [] os h l = tt
edges_from-Inside n m k (c ∷ cs) os h l =
    let rest = edges_from-Inside n m (suc k) cs os (omega arith) l in
    elim (Bool-cases (is_skipped (eligibility c))) [
      | inl e ↦ rw e rest
      | inr e ↦ rw e (
          Inside-append n m (edges_of_claim k c 0 os) (edges_from (suc k) cs os)
            (edges_of_claim-Inside n m k 0 c os (omega arith) (omega arith)) rest)
    ]

pub build_evidence_graph-Inside :
    (claims : List InternalClaim) (orders : List BrokerOrder)
    → Inside (length claims) (length orders) (build_evidence_graph claims orders)
unfolding build_evidence_graph
build_evidence_graph-Inside claims orders =
    edges_from-Inside (length claims) (length orders) 0 claims orders (omega arith) (omega arith)
