-- ===== src/Control/Tier/Exchange.antt =====
-- Two matchings of claims with orders, joined along closed claims: the one inside, the other beyond.
use safe_agent.Prelude.{
  ℕ, ◌≤◌, ◌<◌, List, ◌∷◌, ◌++◌, length, some, true, false, ◌≡◌, inl, inr, arith, leb, ◌==◌,
  Bool-cases,
}
use safe_agent.Prelude.Table.{Table, lookup}
use safe_agent.Prelude.Counts.{mem, count, length-le_of_count}
use safe_agent.Control.Matching.Counting.{IsMatching, keys, vals}
use mathlib.Core.Path.{subst}
use safe_agent.Control.Tier.Swap.{count-keys-append, count-vals-append}
use safe_agent.Control.Tier.Parts.{
  inside, beyond, length-inside-beyond, count-vals-inside, count-vals-beyond, count-keys-inside,
  count-keys-beyond, lookup-inside, lookup-beyond, All-inside-beyond, length-keys, lookup-edge,
}
use safe_agent.Control.Tier.Mirror.{others, mem-others}
use safe_agent.Control.Matching.Cover.{vals-lookup, count-keys-some}
use safe_agent.Prelude.{length-append}

differs : (c x : ℕ) (s : Table ℕ) → count c (keys s) ≡ 0 → 1 ≤ count x (keys s) → (x == c) ≡ false
differs c x s none_yet h = elim (Bool-cases (x == c)) [
  | inr e ↦ e
  | inl e ↦
      let same : c ≡ x = ground (arith, e) in
      let gone : count x (keys s) ≡ 0 = subst (λ k. count k (keys s) ≡ 0) same none_yet in
      absurd (omega (arith, gone, h))
]

module _ (adj : ℕ → List ℕ) (c o : ℕ) (t m : Table ℕ) (w : List ℕ) (good : IsMatching adj t)
    (fits : IsMatching adj m) where
  abbrev pub joined : Table ℕ
  joined = (c, o) ∷ (inside w t ++ beyond w m)

  -- The claims `w` are closed: each has an order of `t` whose other claims are in `w`, and so are the
  -- other claims of `o`.
  module _ (no_claim : count c (keys t) ≡ 0) (no_order : count o (vals t) ≡ 0)
      (avoids : count c (keys m) ≡ 0) (edge : mem c (adj o) ≡ true)
      (around : (x : ℕ) → mem x (others c (adj o)) ≡ true → mem x w ≡ true)
      (closed : (x : ℕ)
        → mem x w ≡ true
        → (d : ℕ) × (lookup x t ≡ some d)
          × ((y : ℕ) → mem y (others c (adj d)) ≡ true → mem y w ≡ true)) where
    -- A claim beyond that has an order of `m` is not `c` and is an edge's end.
    beyond_end :
        (d : ℕ)
        → 1 ≤ count d (vals (beyond w m))
        → (x : ℕ) × (mem x w ≡ false) × (mem x (others c (adj d)) ≡ true)
    beyond_end d h =
        let once : (k : ℕ) → count k (keys (beyond w m)) ≤ 1 =
          λ k. ground (arith, count-keys-beyond w k m, fits.orders_once k) in
        let (x, holds) = vals-lookup d (beyond w m) once h in
        let out : mem x w ≡ false = ground (arith, lookup-beyond w x m, holds) in
        let has : lookup x m ≡ some d = ground (arith, lookup-beyond w x m, holds, out) in
        let at_end : mem x (adj d) ≡ true =
          lookup-edge (λ p. mem p.0 (adj p.1) ≡ true) x d m fits.edges has in
        let here : 1 ≤ count x (keys m) = count-keys-some x d m has in
        let apart : (x == c) ≡ false = differs c x m avoids here in
        (x, out, ground (arith, mem-others c x (adj d), apart, at_end))

    fresh_order : (d : ℕ) → 1 ≤ count d (vals (beyond w m)) → count d (vals (inside w t)) ≡ 0
    fresh_order d h = elim (Bool-cases (leb 1 (count d (vals (inside w t))))) [
      | inr e ↦ ground (arith, e)
      | inl e ↦
          let once : (k : ℕ) → count k (keys (inside w t)) ≤ 1 =
            λ k. ground (arith, count-keys-inside w k t, good.orders_once k) in
          let (x, out, at_end) = beyond_end d h in
          let (k, holds) = vals-lookup d (inside w t) once (ground (arith, e)) in
          let has_in : mem k w ≡ true = ground (arith, lookup-inside w k t, holds) in
          let has : lookup k t ≡ some d = ground (arith, lookup-inside w k t, holds, has_in) in
          let (q, holder, inner) = closed k has_in in
          let same : d ≡ q = ground (arith, has, holder) in
          let yes_in : mem x w ≡ true =
            inner x (subst (λ b. mem x (others c (adj b)) ≡ true) same at_end) in
          absurd (ground (arith, yes_in, out))
    ]

    free_order : (d : ℕ) → 1 ≤ count d (vals (beyond w m)) → (o == d) ≡ false
    free_order d h = elim (Bool-cases (o == d)) [
      | inr e ↦ e
      | inl e ↦
          let (x, out, at_end) = beyond_end d h in
          let same : d ≡ o = ground (arith, e) in
          let yes_in : mem x w ≡ true =
            around x (subst (λ q. mem x (others c (adj q)) ≡ true) same at_end) in
          absurd (ground (arith, yes_in, out))
    ]

    keys-joined : (x : ℕ) → count x (keys joined) ≤ 1
    unfolding keys count
    keys-joined x = elim (Bool-cases (c == x)) [
      | inl e ↦
          let same : x ≡ c = ground (arith, e) in
          rw same (
            ground (
              arith,
              count-keys-append c (inside w t) (beyond w m),
              count-keys-inside w c t,
              count-keys-beyond w c m,
              no_claim,
              avoids,
            ))
      | inr e ↦ ground (
        arith,
        e,
        count-keys-append x (inside w t) (beyond w m),
        count-keys-inside w x t,
        count-keys-beyond w x m,
        good.orders_once x,
        fits.orders_once x,
      )
    ]

    vals-joined : (d : ℕ) → count d (vals joined) ≤ 1
    unfolding vals count
    vals-joined d =
        let sum = count-vals-append d (inside w t) (beyond w m) in
        let some_in = count-vals-inside w d t in
        elim (Bool-cases (leb 1 (count d (vals (beyond w m))))) [
          | inl e ↦
              let h : 1 ≤ count d (vals (beyond w m)) = ground (arith, e) in
              ground (
                arith,
                sum,
                fresh_order d h,
                free_order d h,
                count-vals-beyond w d m,
                fits.claims_once d,
              )
          | inr e ↦ elim (Bool-cases (o == d)) [
            | inr n ↦ ground (arith, e, n, sum, some_in, good.claims_once d)
            | inl n ↦
                let same : o ≡ d = ground (arith, n) in
                let gone : count d (vals t) ≡ 0 = subst (λ q. count q (vals t) ≡ 0) same no_order in
                ground (arith, e, n, sum, some_in, gone)
          ]
        ]

    pub joined-IsMatching : IsMatching adj joined
    joined-IsMatching = record {
      edges = (edge, All-inside-beyond w (λ p. mem p.0 (adj p.1) ≡ true) t m good.edges fits.edges);
      orders_once = keys-joined;
      claims_once = vals-joined;
    }

    pub length-joined : length m < length joined
    length-joined =
        let hit : (x : ℕ) → count x (keys (inside w m)) ≤ count x (keys (inside w t)) = λ x.
          elim (Bool-cases (mem x w)) [
            | inr e ↦ ground (arith, e, count-keys-inside w x m)
            | inl e ↦
                let (d, holds, inner) = closed x e in
                ground (
                  arith,
                  e,
                  count-keys-inside w x m,
                  count-keys-inside w x t,
                  count-keys-some x d t holds,
                  fits.orders_once x,
                )
          ] in
        omega (
          arith,
          length-inside-beyond w m,
          length-append (inside w t) (beyond w m),
          length-le_of_count (keys (inside w m)) (keys (inside w t)) hit,
          length-keys (inside w m),
          length-keys (inside w t),
        )
