-- ===== src/Control/Matching/Cover.antt =====
-- The orders of a table inside a set of orders, and the claims of its other pairs.
use safe_agent.Prelude.{
  ℕ, zero, suc, ◌+◌, ◌≤◌, List, [], ◌∷◌, length, All, some, Bool, true, false, ◌≡◌, refl, inl, inr,
  arith, ◌==◌, if◌then◌else◌, Bool-cases,
}
use safe_agent.Prelude.Table.{Table, lookup}
use safe_agent.Prelude.Counts.{mem, count, length-le_of_count}
use safe_agent.Control.Matching.Counting.{keys, vals}

module _ (u : ℕ → Bool) where
  unfoldable pub keys_in : Table ℕ → List ℕ
  keys_in [] = []
  keys_in ((k, v) ∷ t) = let rest = keys_in t in if u k then k ∷ rest else rest

  unfoldable pub vals_out : Table ℕ → List ℕ
  vals_out [] = []
  vals_out ((k, v) ∷ t) = let rest = vals_out t in if u k then rest else v ∷ rest

module _ (u : ℕ → Bool) where
  pub length-keys_in-vals_out :
      (t : Table ℕ) → length t ≡ length (keys_in u t) + length (vals_out u t)
  unfolding keys_in vals_out
  length-keys_in-vals_out [] = refl
  length-keys_in-vals_out ((k, v) ∷ t) = ground (arith, length-keys_in-vals_out t)

  pub count-keys_in : (x : ℕ) (t : Table ℕ) → count x (keys_in u t) ≤ count x (keys t)
  unfolding keys_in keys count
  count-keys_in x [] = omega arith
  count-keys_in x ((k, v) ∷ t) = ground (arith, count-keys_in x t)

  pub count-vals_out : (x : ℕ) (t : Table ℕ) → count x (vals_out u t) ≤ count x (vals t)
  unfolding vals_out vals count
  count-vals_out x [] = omega arith
  count-vals_out x ((k, v) ∷ t) = ground (arith, count-vals_out x t)

  pub keys_in_inside : (x : ℕ) (t : Table ℕ) → 1 ≤ count x (keys_in u t) → u x ≡ true
  unfolding keys_in count
  keys_in_inside x [] h = absurd (omega arith)
  keys_in_inside x ((k, v) ∷ t) h = elim (Bool-cases (u k)) [
    | inr e ↦ keys_in_inside x t (ground (arith, h, e))
    | inl e ↦ elim (Bool-cases (k == x)) [
      | inl q ↦ let same : x ≡ k = ground (arith, q) in rw same e
      | inr q ↦ keys_in_inside x t (ground (arith, h, e, q))
    ]
  ]

  pub keys_in-lookup :
      (o d : ℕ) (t : Table ℕ) → lookup o t ≡ some d → u o ≡ true → 1 ≤ count o (keys_in u t)
  unfolding keys_in count lookup
  keys_in-lookup o d [] h e = absurd (ground (arith, h))
  keys_in-lookup o d ((k, v) ∷ t) h e = elim (Bool-cases (k == o)) [
    | inl q ↦
        let same : k ≡ o = ground (arith, q) in
        let inside : u k ≡ true = rw same e in ground (arith, inside, q)
    | inr q ↦ ground (arith, q, keys_in-lookup o d t (ground (arith, h, q)) e)
  ]

  pub vals_out-lookup :
      (o d : ℕ) (t : Table ℕ) → lookup o t ≡ some d → u o ≡ false → 1 ≤ count d (vals_out u t)
  unfolding vals_out count lookup
  vals_out-lookup o d [] h e = absurd (ground (arith, h))
  vals_out-lookup o d ((k, v) ∷ t) h e = elim (Bool-cases (k == o)) [
    | inl q ↦
        let same : k ≡ o = ground (arith, q) in
        let out : u k ≡ false = rw same e in ground (arith, out, q, h)
    | inr q ↦ ground (arith, q, vals_out-lookup o d t (ground (arith, h, q)) e)
  ]

  -- A claim outside has an edge outside.
  pub vals_out_edge :
      (adj : ℕ → List ℕ) (c : ℕ) (t : Table ℕ)
      → All (λ p. mem p.0 (adj p.1) ≡ true) t
      → 1 ≤ count c (vals_out u t)
      → (o : ℕ) × (u o ≡ false) × (mem o (adj c) ≡ true)
  unfolding vals_out count
  vals_out_edge adj c [] edges h = absurd (omega arith)
  vals_out_edge adj c ((k, v) ∷ t) edges h = elim (Bool-cases (u k)) [
    | inl e ↦ vals_out_edge adj c t edges.1 (ground (arith, h, e))
    | inr e ↦ elim (Bool-cases (v == c)) [
      | inl q ↦ let same : c ≡ v = ground (arith, q) in (k, e, rw same edges.0)
      | inr q ↦ vals_out_edge adj c t edges.1 (ground (arith, h, e, q))
    ]
  ]

  -- A table that hits every order inside and every claim outside of another is no shorter.
  pub length-le_of_cover :
      (m t : Table ℕ)
      → ((o : ℕ) → count o (keys m) ≤ 1)
      → ((c : ℕ) → count c (vals m) ≤ 1)
      → ((o : ℕ) → 1 ≤ count o (keys_in u m) → 1 ≤ count o (keys_in u t))
      → ((c : ℕ) → 1 ≤ count c (vals_out u m) → 1 ≤ count c (vals_out u t))
      → length m ≤ length t
  length-le_of_cover m t orders claims hits_order hits_claim = omega (
    arith,
    length-keys_in-vals_out m,
    length-keys_in-vals_out t,
    length-le_of_count (keys_in u m) (keys_in u t)
        (λ o. at_most (omega (arith, count-keys_in o m, orders o)) (hits_order o)),
    length-le_of_count (vals_out u m) (vals_out u t)
        (λ c. at_most (omega (arith, count-vals_out c m, claims c)) (hits_claim c)),
  )
    where
      at_most : {a b : ℕ} → a ≤ 1 → (1 ≤ a → 1 ≤ b) → a ≤ b
      at_most {a = zero} h k = omega arith
      at_most {a = suc a} h k = omega (arith, k (omega arith))

pub count-keys-some : (o d : ℕ) (t : Table ℕ) → lookup o t ≡ some d → 1 ≤ count o (keys t)
unfolding keys count lookup
count-keys-some o d [] h = absurd (ground (arith, h))
count-keys-some o d ((k, v) ∷ t) h = ground (arith, h, count-keys-some o d t)

pub vals-lookup :
    (c : ℕ) (t : Table ℕ)
    → ((o : ℕ) → count o (keys t) ≤ 1)
    → 1 ≤ count c (vals t)
    → (o : ℕ) × (lookup o t ≡ some c)
unfolding vals keys count lookup
vals-lookup c [] once h = absurd (omega arith)
vals-lookup c ((k, v) ∷ t) once h = elim (Bool-cases (v == c)) [
  | inl q ↦ (k, ground (arith, q))
  | inr q ↦
      let (o, e) = vals-lookup c t (λ x. omega (arith, once x)) (ground (arith, h, q)) in
      elim (Bool-cases (k == o)) [
        | inr n ↦ (o, ground (arith, n, e))
        | inl n ↦ absurd (ground (arith, n, once o, count-keys-some o c t e))
      ]
]
