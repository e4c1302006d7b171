-- ===== src/Control/Matching/Augment.antt =====
-- What one search of Kuhn's algorithm does: it never runs out of fuel, a search in vain has closed
-- the orders it visited, and a search that succeeds adds its claim.
use safe_agent.Prelude.{
  ℕ, zero, suc, ◌+◌, ◌≤◌, ◌<◌, List, [], ◌∷◌, length, none, some, true, false, ◌≡◌, refl, ◌⊎◌, inl,
  inr, arith, ◌==◌, if◌then◌else◌, Bool-cases, Option-cases,
}
use safe_agent.Prelude.Table.{Table, lookup, insert}
use safe_agent.Prelude.Counts.{mem}
use mathlib.Core.Path.{subst}
use safe_agent.Control.Matching.{Answer, found, exhausted, out_of_fuel, try_orders, try_augment}

abbrev pub IsWithin : List ℕ → List ℕ → Type 0
IsWithin xs ys = (x : ℕ) → mem x xs ≡ true → mem x ys ≡ true

-- How many of `xs` are not among the visited.
unfoldable pub unvisited : List ℕ → List ℕ → ℕ
unvisited [] w = 0
unvisited (x ∷ xs) w = (if mem x w then 0 else 1) + unvisited xs w

unvisited_shrinks : (xs v w : List ℕ) → IsWithin v w → unvisited xs w ≤ unvisited xs v
unfolding unvisited
unvisited_shrinks [] v w h = omega arith
unvisited_shrinks (x ∷ xs) v w h = ground (arith, unvisited_shrinks xs v w h, h x)

unvisited_drops :
    (xs v : List ℕ) (o : ℕ)
    → mem o xs ≡ true
    → mem o v ≡ false
    → unvisited xs (o ∷ v) < unvisited xs v
unfolding unvisited mem
unvisited_drops [] v o h n = absurd (ground arith)
unvisited_drops (x ∷ xs) v o h n =
    let later : unvisited xs (o ∷ v) ≤ unvisited xs v =
      unvisited_shrinks xs v (o ∷ v) (λ y e. ground (arith, e)) in
    elim (Bool-cases (x == o)) [
      | inl e ↦ let was : mem x v ≡ false = rw (same x e) n in ground (arith, later, was, e)
      | inr e ↦ ground (arith, unvisited_drops xs v o (ground (arith, e, h)) n, e)
    ]
  where
    same : (x : ℕ) → (x == o) ≡ true → x ≡ o
    same x e = ground (arith, e)

pub length-unvisited : (xs : List ℕ) → unvisited xs [] ≡ length xs
unfolding unvisited mem
length-unvisited [] = refl
length-unvisited (x ∷ xs) = omega (arith, length-unvisited xs)

pub Answer-cases :
    (a : Answer)
    → ((t : Table ℕ) × (a ≡ found t)) ⊎ (((w : List ℕ) × (a ≡ exhausted w)) ⊎ (a ≡ out_of_fuel))
Answer-cases (found t) = inl (t, refl)
Answer-cases (exhausted w) = inr (inl (w, refl))
Answer-cases out_of_fuel = inr (inr refl)

-- One turn of the loop, by what the order `o` is.
module _ (recurse : ℕ → List ℕ → Answer) (held : Table ℕ) (c o : ℕ) (os v : List ℕ) where
  pub try_orders_seen :
      mem o v ≡ true → try_orders recurse held c (o ∷ os) v ≡ try_orders recurse held c os v
  unfolding try_orders
  try_orders_seen e = ground (arith, e)

  pub try_orders_free :
      mem o v ≡ false
      → lookup o held ≡ none
      → try_orders recurse held c (o ∷ os) v ≡ found (insert o c held)
  unfolding try_orders
  try_orders_free e f = ground (arith, e, f)

  pub try_orders_won :
      (d : ℕ) (after : Table ℕ)
      → mem o v ≡ false
      → lookup o held ≡ some d
      → recurse d (o ∷ v) ≡ found after
      → try_orders recurse held c (o ∷ os) v ≡ found (insert o c after)
  unfolding try_orders
  try_orders_won d after e f g = ground (arith, e, f, g)

  pub try_orders_lost :
      (d : ℕ) (seen : List ℕ)
      → mem o v ≡ false
      → lookup o held ≡ some d
      → recurse d (o ∷ v) ≡ exhausted seen
      → try_orders recurse held c (o ∷ os) v ≡ try_orders recurse held c os seen
  unfolding try_orders
  try_orders_lost d seen e f g = ground (arith, e, f, g)

  pub try_orders_stuck :
      (d : ℕ)
      → mem o v ≡ false
      → lookup o held ≡ some d
      → recurse d (o ∷ v) ≡ out_of_fuel
      → try_orders recurse held c (o ∷ os) v ≡ out_of_fuel
  unfolding try_orders
  try_orders_stuck d e f g = ground (arith, e, f, g)

module _ (adj : ℕ → List ℕ) (held : Table ℕ) where
  -- Every order of `w` is held by a claim that has no order outside `w`.
  abbrev IsBusy : ℕ → List ℕ → Type 0
  IsBusy x w =
      (d : ℕ) × (lookup x held ≡ some d) × ((y : ℕ) → mem y (adj d) ≡ true → mem y w ≡ true)

  -- An answer that is no running out of fuel, and whose visited orders are the old ones, all of
  -- `os`, and orders that are busy.
  abbrev pub ExhaustsAll : List ℕ → List ℕ → Answer → Type 0
  ExhaustsAll os v (found after) = Unit
  ExhaustsAll os v (exhausted w) =
      IsWithin v w × IsWithin os w × ((x : ℕ) → mem x w ≡ true → (mem x v ≡ true) ⊎ IsBusy x w)
  ExhaustsAll os v out_of_fuel = true ≡ false

  -- After `d`, which holds `o`, has been tried in vain, the loop goes on with the rest.
  exhausts_step :
      (o d : ℕ) (os v seen : List ℕ) (a : Answer)
      → lookup o held ≡ some d
      → ExhaustsAll (adj d) (o ∷ v) (exhausted seen)
      → ExhaustsAll os seen a
      → ExhaustsAll (o ∷ os) v a
  unfolding mem
  exhausts_step o d os v seen (found after) e inner rest = tt
  exhausts_step o d os v seen out_of_fuel e inner rest = rest
  exhausts_step o d os v seen (exhausted w) e inner rest =
      let at_o : mem o (o ∷ v) ≡ true = ground arith in
      let o_seen : mem o w ≡ true = rest.0 o (inner.0 o at_o) in
      (
        λ x h. rest.0 x (inner.0 x (ground (arith, h))),
        λ x h. elim (Bool-cases (o == x)) [
          | inl q ↦ let same : x ≡ o = ground (arith, q) in rw same o_seen
          | inr q ↦ rest.1 x (ground (arith, h, q))
        ],
        λ x h. elim (rest.2 x h) [
          | inr busy ↦ inr busy
          | inl before ↦ elim (inner.2 x before) [
            | inr busy ↦ inr (busy.0, busy.1, λ y m. rest.0 y (busy.2 y m))
            | inl old ↦ elim (Bool-cases (o == x)) [
              | inr q ↦ inl (ground (arith, old, q))
              | inl q ↦
                  let same : x ≡ o = ground (arith, q) in
                  inr (d, rw same e, λ y m. rest.0 y (inner.1 y m))
            ]
          ]
        ],
      )

  exhausts_seen :
      (o : ℕ) (os v : List ℕ) (a : Answer)
      → mem o v ≡ true
      → ExhaustsAll os v a
      → ExhaustsAll (o ∷ os) v a
  unfolding mem
  exhausts_seen o os v (found after) e rest = tt
  exhausts_seen o os v out_of_fuel e rest = rest
  exhausts_seen o os v (exhausted w) e rest = (
    rest.0,
    λ x h. elim (Bool-cases (o == x)) [
      | inl q ↦ let same : x ≡ o = ground (arith, q) in rw same (rest.0 o e)
      | inr q ↦ rest.1 x (ground (arith, h, q))
    ],
    rest.2,
  )

  pub try_orders-exhausts :
      (universe : List ℕ) (n : ℕ) (recurse : ℕ → List ℕ → Answer)
      → ((d : ℕ) (w : List ℕ) → unvisited universe w < n → ExhaustsAll (adj d) w (recurse d w))
      → (c : ℕ) (os v : List ℕ) → IsWithin os universe
      → unvisited universe v ≤ n
      → ExhaustsAll os v (try_orders recurse held c os v)
  unfolding try_orders mem
  try_orders-exhausts universe n recurse ih c [] v inside enough =
      (λ x h. h, λ x h. absurd (ground (arith, h)), λ x h. inl h)
  try_orders-exhausts universe n recurse ih c (o ∷ os) v inside enough =
      let loop : (w : List ℕ)
          → unvisited universe w ≤ n
          → ExhaustsAll os w (try_orders recurse held c os w) =
        λ w.
          try_orders-exhausts universe n recurse ih c os w (λ x h. inside x (ground (arith, h))) in
      elim (Bool-cases (mem o v)) [
        | inl e ↦
            rw (try_orders_seen recurse held c o os v e)
              (exhausts_seen o os v (try_orders recurse held c os v) e (loop v enough))
        | inr e ↦ elim (Option-cases (lookup o held)) [
          | inl free ↦ rw (try_orders_free recurse held c o os v e free) tt
          | inr taken ↦
              let deeper = unvisited_drops universe v o (inside o (ground arith)) e in
              let inner = ih taken.0 (o ∷ v) (omega (arith, deeper)) in
              elim (Answer-cases (recurse taken.0 (o ∷ v))) [
                | inl won ↦
                    rw (try_orders_won recurse held c o os v taken.0 won.0 e taken.1 won.1) tt
                | inr (inr stuck) ↦
                    let bad : true ≡ false =
                      subst (λ a. ExhaustsAll (adj taken.0) (o ∷ v) a) stuck inner in
                    absurd (ground (arith, bad))
                | inr (inl lost) ↦
                    let closed : ExhaustsAll (adj taken.0) (o ∷ v) (exhausted lost.0) =
                      subst (λ a. ExhaustsAll (adj taken.0) (o ∷ v) a) lost.1 inner in
                    let fewer = unvisited_shrinks universe (o ∷ v) lost.0 closed.0 in
                    let rest = loop lost.0 (omega (arith, fewer, deeper)) in
                    rw (try_orders_lost recurse held c o os v taken.0 lost.0 e taken.1 lost.1) (
                      exhausts_step o taken.0 os v lost.0 (try_orders recurse held c os lost.0)
                        taken.1 closed rest)
              ]
        ]
      ]

  pub try_augment-exhausts :
      (universe : List ℕ)
      → ((d : ℕ) → IsWithin (adj d) universe)
      → (fuel c : ℕ) (v : List ℕ) → unvisited universe v < fuel
      → ExhaustsAll (adj c) v (try_augment adj held fuel c v)
  unfolding try_augment
  try_augment-exhausts universe inside zero c v enough = absurd (omega arith)
  try_augment-exhausts universe inside (suc fuel) c v enough =
      try_orders-exhausts universe fuel (try_augment adj held fuel)
        (try_augment-exhausts universe inside fuel) c (adj c) v (inside c) (omega arith)
