-- ===== src/Control/Resolution.antt =====
-- The state of `resolve_assignments` of control/v15/reconcile_v12.py: the assignment of each claim and
-- the state of each order, with what is read from it and marked in it. An assignment is a sum over
-- its `kind`; the claim it is for is its key in the dict.
use safe_agent.Prelude.{
  ℕ, zero, suc, List, [], ◌∷◌, Option, none, some, Bool, true, false, not, ◌&&◌, ◌||◌, ltb, ◌==◌,
  if◌then◌else◌, is_some,
}
use safe_agent.Prelude.Table.{Table, lookup, insert}
use safe_agent.Control.Models.{EvidenceTier, tier_eq, Edge}
use safe_agent.Control.Outcome.{add}

pub data Assignment : Type 0 where
  assigned : ℕ → EvidenceTier → Assignment
  ambiguous : EvidenceTier → List ℕ → Assignment
  conflict : List ℕ → Assignment
  no_order : Assignment

-- The strings "open", "assigned", "ambiguous" and "conflict".
pub data OrderState : Type 0 where
  open_state assigned_state ambiguous_state conflict_state : OrderState

-- The two dicts that the function fills.
pub record Resolution : Type 0 where
  pub assignment : Table Assignment
  pub order_state : Table OrderState

-- `range(k, k + n)`
unfoldable pub range : ℕ → ℕ → List ℕ
range k zero = []
range k (suc n) = k ∷ range (suc k) n

-- `{i: "open" for i in range(n)}`
unfoldable pub all_open : List ℕ → Table OrderState
all_open [] = []
all_open (i ∷ is) = (i, open_state) ∷ all_open is

-- `o in available_orders()`
unfoldable pub is_available : ℕ → Table OrderState → Bool
unfolding lookup
is_available o states = elim (lookup o states) [ some open_state ↦ true | _ ↦ false ]

-- A set of pairs as its sorted list.
unfoldable pub add_edge : ℕ → ℕ → List (ℕ × ℕ) → List (ℕ × ℕ)
add_edge c o [] = (c, o) ∷ []
add_edge c o ((d, q) ∷ es) =
    let rest = add_edge c o es in
    if c == d && o == q
    then (d, q) ∷ es
    else if ltb c d || c == d && ltb o q
    then (c, o) ∷ (d, q) ∷ es
    else (d, q) ∷ rest

-- The test of `edges_for_tier`.
unfoldable pub fits : EvidenceTier → ℕ → Resolution → Edge → Bool
unfolding tier_eq is_available lookup
fits tier n_claims s e =
    tier_eq e.tier tier
    && is_available e.order_idx s.order_state
    && (ltb e.claim_idx n_claims && not (is_some (lookup e.claim_idx s.assignment)))
    && e.status_compatible

unfoldable pub edges_for_tier : EvidenceTier → ℕ → Resolution → List Edge → List (ℕ × ℕ)
unfolding fits add_edge
edges_for_tier tier n_claims s [] = []
edges_for_tier tier n_claims s (e ∷ es) =
    let rest = edges_for_tier tier n_claims s es in
    if fits tier n_claims s e then add_edge e.claim_idx e.order_idx rest else rest

-- `sorted({c for c, _ in compatible})` and `sorted({o for _, o in compatible})`
unfoldable pub left_ids : List (ℕ × ℕ) → List ℕ
unfolding add
left_ids [] = []
left_ids ((c, o) ∷ es) = add c (left_ids es)

unfoldable pub right_ids : List (ℕ × ℕ) → List ℕ
unfolding add
right_ids [] = []
right_ids ((c, o) ∷ es) = add o (right_ids es)

-- `if order_state[o] == "open": order_state[o] = x`
unfoldable pub mark : OrderState → ℕ → Table OrderState → Option (Table OrderState)
unfolding lookup insert
mark x o states = elim (lookup o states) [
  | none ↦ none
  | some open_state ↦ some (insert o x states)
  | some _ ↦ some states
]

unfoldable pub mark_all : OrderState → List ℕ → Table OrderState → Option (Table OrderState)
unfolding mark
mark_all x [] states = some states
mark_all x (o ∷ os) states = elim (mark x o states) [ none ↦ none | some more ↦ mark_all x os more ]

-- `if c not in assignment: assignment[c] = a`
unfoldable pub assign_new : ℕ → Assignment → Resolution → Resolution
unfolding lookup insert
assign_new c a s =
    if is_some (lookup c s.assignment) then s else record s { assignment = insert c a s.assignment }
