-- ===== src/Control/Matching/Found.antt =====
-- What a search of Kuhn's algorithm that succeeds has done to the table.
use safe_agent.Prelude.{
  ℕ, zero, suc, ◌+◌, ◌≤◌, List, [], ◌∷◌, length, All, none, some, Bool, true, false, ◌≡◌, sym, ◌∙◌,
  inl, inr, arith, ◌==◌, if◌then◌else◌, Bool-cases, Option-cases,
}
use safe_agent.Prelude.Table.{Table, lookup, insert, lookup-insert}
use safe_agent.Prelude.Counts.{mem, count}
use mathlib.Core.Path.{subst}
use safe_agent.Control.Matching.{Answer, found, exhausted, out_of_fuel, try_orders, try_augment}
use safe_agent.Control.Matching.Counting.{
  keys, vals, count-vals-insert_new, count-vals-insert_held, count-keys-insert_new,
  count-keys-insert_held, count-keys-none, All-insert, length-insert_new, length-insert_held,
}
use safe_agent.Control.Matching.Augment.{
  IsWithin, Answer-cases, try_orders_seen, try_orders_free, try_orders_won, try_orders_lost,
  try_orders_stuck,
}

-- Orders that are all held by claims that have no order outside.
abbrev pub IsClosed : (ℕ → List ℕ) → Table ℕ → (ℕ → Bool) → Type 0
IsClosed adj held u =
    (o : ℕ)
    → u o ≡ true
    → (d : ℕ) × (lookup o held ≡ some d) × ((y : ℕ) → mem y (adj d) ≡ true → u y ≡ true)

module _ (adj : ℕ → List ℕ) (held : Table ℕ) (u : ℕ → Bool) where
  -- `after` holds the claim `c` beside those of `held`, over one more order, one of `os` outside the
  -- closed orders; it leaves the closed and the visited orders as they were.
  pub record Adds (c : ℕ) (os v : List ℕ) (after : Table ℕ) : Type 0 where
    pub kept : (x : ℕ) → mem x v ≡ true → lookup x after ≡ lookup x held
    pub calm : (x : ℕ) → u x ≡ true → lookup x after ≡ lookup x held
    pub outside : (o : ℕ) × (mem o os ≡ true) × (u o ≡ false)
    pub claims : (x : ℕ) → count x (vals after) ≡ count x (vals held) + (if c == x then 1 else 0)
    pub larger : length after ≡ suc (length held)
    pub orders : (x : ℕ) → count x (keys held) ≤ 1 → count x (keys after) ≤ 1
    pub within_edges :
        All (λ p. mem p.0 (adj p.1) ≡ true) held → All (λ p. mem p.0 (adj p.1) ≡ true) after

  abbrev pub FindsWell : ℕ → List ℕ → List ℕ → Answer → Type 0
  FindsWell c os v (found after) = Adds c os v after
  FindsWell c os v (exhausted w) = IsWithin v w
  FindsWell c os v out_of_fuel = Unit

module _ (adj : ℕ → List ℕ) (held : Table ℕ) (u : ℕ → Bool) (closed : IsClosed adj held u) where
  finds_later :
      (c o : ℕ) (os v w : List ℕ) (a : Answer)
      → IsWithin v w
      → FindsWell adj held u c os w a
      → FindsWell adj held u c (o ∷ os) v a
  unfolding mem
  finds_later c o os v w (found after) sub adds = record {
    kept = λ x h. adds.kept x (sub x h);
    calm = adds.calm;
    outside = let (x, at_x, free) = adds.outside in (x, ground (arith, at_x), free);
    claims = adds.claims;
    larger = adds.larger;
    orders = adds.orders;
    within_edges = adds.within_edges;
  }
  finds_later c o os v w (exhausted z) sub seen = λ x h. seen x (sub x h)
  finds_later c o os v w out_of_fuel sub seen = tt

  free_outside : (o : ℕ) → lookup o held ≡ none → u o ≡ false
  free_outside o free = elim (Bool-cases (u o)) [
    | inr e ↦ e
    | inl e ↦ absurd (ground (arith, (closed o e).1, free))
  ]

  other_order : (o x : ℕ) (v : List ℕ) → mem o v ≡ false → mem x v ≡ true → (o == x) ≡ false
  other_order o x v out inside = elim (Bool-cases (o == x)) [
    | inr e ↦ e
    | inl e ↦
        let same : x ≡ o = ground (arith, e) in
        let bad : true ≡ false = sym (rw (sym same) inside) ∙ out in absurd (ground (arith, bad))
  ]

  differ : (o x : ℕ) → u o ≡ false → u x ≡ true → (o == x) ≡ false
  differ o x out inside = elim (Bool-cases (o == x)) [
    | inr e ↦ e
    | inl e ↦
        let same : x ≡ o = ground (arith, e) in
        let no : u x ≡ false = rw same out in absurd (ground (arith, no, inside))
  ]

  holder_outside :
      (o d : ℕ)
      → lookup o held ≡ some d
      → (x : ℕ) → mem x (adj d) ≡ true
      → u x ≡ false
      → u o ≡ false
  holder_outside o d taken x edge out = elim (Bool-cases (u o)) [
    | inr e ↦ e
    | inl e ↦
        let (b, holds, inside) = closed o e in
        let same : d ≡ b = ground (arith, taken, holds) in
        let yes : u x ≡ true = inside x (subst (λ k. mem x (adj k) ≡ true) same edge) in
        absurd (ground (arith, yes, out))
  ]

  finds_free :
      (c o : ℕ) (os v : List ℕ)
      → mem o (adj c) ≡ true
      → mem o v ≡ false
      → lookup o held ≡ none
      → Adds adj held u c (o ∷ os) v (insert o c held)
  unfolding mem
  finds_free c o os v edge new free = record {
    kept = λ x h. ground (arith, lookup-insert o x c held, other_order o x v new h);
    calm = λ x h. ground (arith, lookup-insert o x c held, differ o x (free_outside o free) h);
    outside = (o, ground arith, free_outside o free);
    claims = λ x. count-vals-insert_new o c x held free;
    larger = length-insert_new o c held free;
    orders = λ x h. elim (Bool-cases (o == x)) [
      | inr e ↦ ground (arith, count-keys-insert_new o c x held free, e, h)
      | inl e ↦
          let same : x ≡ o = ground (arith, e) in
          let none_yet : count x (keys held) ≡ 0 = rw same (count-keys-none o held free) in
          ground (arith, count-keys-insert_new o c x held free, none_yet)
    ];
    within_edges = λ h. All-insert (λ p. mem p.0 (adj p.1) ≡ true) o c held edge h;
  }

  finds_held :
      (c d o : ℕ) (os v : List ℕ) (after : Table ℕ)
      → mem o (adj c) ≡ true
      → mem o v ≡ false
      → lookup o held ≡ some d
      → Adds adj held u d (adj d) (o ∷ v) after
      → Adds adj held u c (o ∷ os) v (insert o c after)
  unfolding mem
  finds_held c d o os v after edge new taken inner =
      let still : lookup o after ≡ some d = inner.kept o (ground arith) ∙ taken in
      let out : u o ≡ false =
        let (x, at_x, free) = inner.outside in holder_outside o d taken x at_x free in
      record {
        kept = λ x h.
            ground (arith, lookup-insert o x c after, other_order o x v new h, inner.kept x, h);
        calm = λ x h. ground (arith, lookup-insert o x c after, differ o x out h, inner.calm x h);
        outside = (o, ground arith, out);
        claims = λ x. omega (arith, count-vals-insert_held o c d x after still, inner.claims x);
        larger = length-insert_held o c d after still ∙ inner.larger;
        orders = λ x h. omega (arith, count-keys-insert_held o c d x after still, inner.orders x h);
        within_edges =
            λ h. All-insert (λ p. mem p.0 (adj p.1) ≡ true) o c after edge (inner.within_edges h);
      }

  pub try_orders-FindsWell :
      (recurse : ℕ → List ℕ → Answer)
      → ((d : ℕ) (w : List ℕ) → FindsWell adj held u d (adj d) w (recurse d w))
      → (c : ℕ) (os v : List ℕ) → IsWithin os (adj c)
      → FindsWell adj held u c os v (try_orders recurse held c os v)
  unfolding try_orders mem
  try_orders-FindsWell recurse ih c [] v edge = λ x h. h
  try_orders-FindsWell recurse ih c (o ∷ os) v edge =
      let at_o : mem o (adj c) ≡ true = edge o (ground arith) in
      let loop : (w : List ℕ) → FindsWell adj held u c os w (try_orders recurse held c os w) =
        λ w. try_orders-FindsWell recurse ih c os w (λ x h. edge x (ground (arith, h))) in
      elim (Bool-cases (mem o v)) [
        | inl e ↦
            rw (try_orders_seen recurse held c o os v e)
              (finds_later c o os v v (try_orders recurse held c os v) (λ x h. h) (loop v))
        | inr e ↦ elim (Option-cases (lookup o held)) [
          | inl free ↦
              rw (try_orders_free recurse held c o os v e free) (finds_free c o os v at_o e free)
          | inr (d, taken) ↦
              let inner = ih d (o ∷ v) in
              elim (Answer-cases (recurse d (o ∷ v))) [
                | inl (after, won) ↦
                    let adds : Adds adj held u d (adj d) (o ∷ v) after =
                      subst (FindsWell adj held u d (adj d) (o ∷ v)) won inner in
                    rw (try_orders_won recurse held c o os v d after e taken won)
                      (finds_held c d o os v after at_o e taken adds)
                | inr (inr stuck) ↦ rw (try_orders_stuck recurse held c o os v d e taken stuck) tt
                | inr (inl (seen, lost)) ↦
                    let wider : IsWithin (o ∷ v) seen =
                      subst (FindsWell adj held u d (adj d) (o ∷ v)) lost inner in
                    rw (try_orders_lost recurse held c o os v d seen e taken lost) (
                      finds_later c o os v seen (try_orders recurse held c os seen)
                        (λ x h. wider x (ground (arith, h))) (loop seen))
              ]
        ]
      ]

  pub try_augment-FindsWell :
      (fuel c : ℕ) (v : List ℕ) → FindsWell adj held u c (adj c) v (try_augment adj held fuel c v)
  unfolding try_augment
  try_augment-FindsWell zero c v = tt
  try_augment-FindsWell (suc fuel) c v =
      try_orders-FindsWell (try_augment adj held fuel) (try_augment-FindsWell fuel) c (adj c) v
        (λ x h. h)
