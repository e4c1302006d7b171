-- ===== src/Control/Tier/Swap.antt =====
-- A matching read from its claims: `claim_to_order` turns every pair round.
use safe_agent.Prelude.{
  ℕ, suc, ◌+◌, ◌≤◌, List, [], ◌∷◌, ◌++◌, length, All, true, false, ◌≡◌, refl, sym, ap, ◌∙◌, arith,
  ◌==◌, if◌then◌else◌,
}
use safe_agent.Prelude.Table.{Table, insert}
use safe_agent.Prelude.Counts.{mem, count}
use mathlib.Core.List.{append-nil, append_assoc}
use safe_agent.Control.Matching.{adj_by_claim}
use safe_agent.Control.Matching.Counting.{IsMatching, keys, vals}
use safe_agent.Control.Tier.{reverse_onto, claim_to_order, adj_by_order}

unfoldable pub swap : Table ℕ → Table ℕ
swap [] = []
swap ((k, v) ∷ t) = (v, k) ∷ swap t

pub keys-swap : (t : Table ℕ) → keys (swap t) ≡ vals t
unfolding swap keys vals
keys-swap [] = refl
keys-swap ((k, v) ∷ t) = ap (λ l. v ∷ l) (keys-swap t)

pub vals-swap : (t : Table ℕ) → vals (swap t) ≡ keys t
unfolding swap keys vals
vals-swap [] = refl
vals-swap ((k, v) ∷ t) = ap (λ l. k ∷ l) (vals-swap t)

pub length-swap : (t : Table ℕ) → length (swap t) ≡ length t
unfolding swap
length-swap [] = refl
length-swap ((k, v) ∷ t) = ap suc (length-swap t)

insert_fresh : (k v : ℕ) (t : Table ℕ) → count k (keys t) ≡ 0 → insert k v t ≡ t ++ ((k, v) ∷ [])
unfolding insert keys count
insert_fresh k v [] h = refl
insert_fresh k v ((j, w) ∷ t) h =
    let apart : (j == k) ≡ false = ground (arith, h) in
    rw apart (ap (λ l. (j, w) ∷ l) (insert_fresh k v t (ground (arith, h))))

pub count-keys-append :
    (x : ℕ) (s t : Table ℕ) → count x (keys (s ++ t)) ≡ count x (keys s) + count x (keys t)
unfolding keys count
count-keys-append x [] t = omega arith
count-keys-append x ((k, v) ∷ s) t = omega (arith, count-keys-append x s t)

pub count-vals-append :
    (x : ℕ) (s t : Table ℕ) → count x (vals (s ++ t)) ≡ count x (vals s) + count x (vals t)
unfolding vals count
count-vals-append x [] t = omega arith
count-vals-append x ((k, v) ∷ s) t = omega (arith, count-vals-append x s t)

keys_more :
    (x c o : ℕ) (acc : Table ℕ)
    → count x (keys (acc ++ ((c, o) ∷ []))) ≡ count x (keys acc) + (if c == x then 1 else 0)
unfolding keys count
keys_more x c o acc = ground (arith, count-keys-append x acc ((c, o) ∷ []))

reverse_onto-swap :
    (acc t : Table ℕ)
    → ((c : ℕ) → count c (keys acc) + count c (vals t) ≤ 1)
    → reverse_onto acc t ≡ acc ++ swap t
unfolding reverse_onto swap vals count keys
reverse_onto-swap acc [] h = sym (append-nil acc)
reverse_onto-swap acc ((o, c) ∷ t) h =
    let fresh : insert c o acc ≡ acc ++ ((c, o) ∷ []) =
      insert_fresh c o acc (ground (arith, h c)) in
    rw fresh (
      reverse_onto-swap (acc ++ ((c, o) ∷ [])) t (λ x. ground (arith, h x, keys_more x c o acc))
      ∙ append_assoc acc ((c, o) ∷ []) (swap t))

pub claim_to_order-swap :
    (t : Table ℕ) → ((c : ℕ) → count c (vals t) ≤ 1) → claim_to_order t ≡ swap t
unfolding claim_to_order count keys
claim_to_order-swap t h = reverse_onto-swap [] t (λ c. omega (arith, h c))

pub mem-adj_by_order :
    (es : List (ℕ × ℕ)) (c o : ℕ) → mem c (adj_by_order es o) ≡ mem o (adj_by_claim es c)
unfolding mem adj_by_order adj_by_claim
mem-adj_by_order [] c o = refl
mem-adj_by_order ((d, q) ∷ es) c o = ground (arith, mem-adj_by_order es c o)

-- The matchings of claims with orders are those of orders with claims.
pub swap-IsMatching :
    (adj other : ℕ → List ℕ)
    → ((c o : ℕ) → mem c (other o) ≡ mem o (adj c))
    → (t : Table ℕ) → IsMatching adj t
    → IsMatching other (swap t)
unfolding swap
swap-IsMatching adj other same t fits = record {
  edges = turned t fits.edges;
  orders_once = λ c. rw (keys-swap t) (fits.claims_once c);
  claims_once = λ o. rw (vals-swap t) (fits.orders_once o);
}
  where
    turned :
        (s : Table ℕ)
        → All (λ p. mem p.0 (adj p.1) ≡ true) s
        → All (λ p. mem p.0 (other p.1) ≡ true) (swap s)
    turned [] h = tt
    turned ((o, c) ∷ s) h = (same c o ∙ h.0, turned s h.1)
