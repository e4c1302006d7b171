-- ===== src/Settlement/Tally/Majority.antt =====
-- The key that `max` picks from a tally.
use mathlib.Core.Path.{subst}
use native.Mathlib.Nat.{le_trans}
use safe_agent.Prelude.{
  ◌<◌, true, false, eq_refl, ℕ, ◌+◌, ◌≤◌, String, ◌≡◌, ◌≢◌, refl, none, some, [], ◌∷◌, eq_iff,
  arith, ltb, inl, inr, Bool-cases,
}
use safe_agent.Prelude.Dict.{Dict, lookup, insert, lookup-insert}
use safe_agent.Settlement.Models.{OutcomeSignal}
use safe_agent.Settlement.Tally.Defs.{add_vote, tally_from, outcome_tally, max_from, max_key, total}
use safe_agent.Settlement.Tally.Counts.{count_of}

-- No key is empty or repeated, and no count is 0.
abbrev pub IsTally : Dict ℕ → Type 0
IsTally [] = Unit
IsTally ((k, n) ∷ t) = (k ≢ "") × (1 ≤ n) × (lookup k t ≡ none) × IsTally t

insert-IsTally :
    (o : String) (n : ℕ) (t : Dict ℕ) → IsTally t → o ≢ "" → 1 ≤ n → IsTally (insert o n t)
unfolding insert lookup
insert-IsTally o n [] h ne p = (ne, p, refl, tt)
insert-IsTally o n ((k, m) ∷ t) h ne p =
    ground (arith, eq_iff k o, eq_iff o k, insert-IsTally o n t h.3 ne p, lookup-insert o k n t)

add_vote-IsTally : (o : String) (t : Dict ℕ) → IsTally t → IsTally (add_vote o t)
unfolding add_vote
add_vote-IsTally o t h = ground (arith, eq_iff o "", insert-IsTally o (count_of o t + 1) t h)

tally_from-IsTally : (t : Dict ℕ) (ss : Dict OutcomeSignal) → IsTally t → IsTally (tally_from t ss)
unfolding tally_from
tally_from-IsTally t [] h = h
tally_from-IsTally t ((k, s) ∷ ss) h =
    tally_from-IsTally (add_vote s.outcome t) ss (add_vote-IsTally s.outcome t h)

pub outcome_tally-IsTally : (ss : Dict OutcomeSignal) → IsTally (outcome_tally ss)
unfolding outcome_tally
outcome_tally-IsTally ss = tally_from-IsTally [] ss tt

-- An entry that is smaller than the next one leaves the largest count where it is.
past_smaller :
    (k j w o : String) (n m : ℕ) (t : Dict ℕ)
    → n < m
    → lookup k ((j, m) ∷ t) ≡ none
    → m ≤ count_of w ((j, m) ∷ t)
    → count_of o ((j, m) ∷ t) ≤ count_of w ((j, m) ∷ t)
    → count_of o ((k, n) ∷ (j, m) ∷ t) ≤ count_of w ((k, n) ∷ (j, m) ∷ t)
unfolding lookup
past_smaller k j w o n m t lt fresh top le =
    ground (arith, eq_iff k o, eq_iff j o, eq_iff k w, eq_iff j w, eq_iff j k)

-- So does a next entry that is no larger than the one before it.
past_next :
    (k j w o : String) (n m : ℕ) (t : Dict ℕ)
    → m ≤ n
    → 1 ≤ n
    → lookup k ((j, m) ∷ t) ≡ none
    → lookup j t ≡ none
    → n ≤ count_of w ((k, n) ∷ t)
    → count_of o ((k, n) ∷ t) ≤ count_of w ((k, n) ∷ t)
    → count_of o ((k, n) ∷ (j, m) ∷ t) ≤ count_of w ((k, n) ∷ (j, m) ∷ t)
unfolding lookup
past_next k j w o n m t le pos fresh fresh' top most =
    ground (arith, eq_iff k o, eq_iff j o, eq_iff k w, eq_iff j w, eq_iff j k)

max_from-moves :
    (k j : String) (n m : ℕ) (t : Dict ℕ)
    → ltb n m ≡ true
    → max_from k n ((j, m) ∷ t) ≡ max_from j m t
unfolding max_from
max_from-moves k j n m t e = ground arith

max_from-stays :
    (k j : String) (n m : ℕ) (t : Dict ℕ)
    → ltb n m ≡ false
    → max_from k n ((j, m) ∷ t) ≡ max_from k n t
unfolding max_from
max_from-stays k j n m t e = ground arith

count_of-head : (k : String) (n : ℕ) (t : Dict ℕ) → count_of k ((k, n) ∷ t) ≡ n
unfolding lookup
count_of-head k n t = rw eq_refl

drop_second :
    (k j : String) (n m : ℕ) (t : Dict ℕ) → IsTally ((k, n) ∷ (j, m) ∷ t) → IsTally ((k, n) ∷ t)
unfolding lookup
drop_second k j n m t h = ground (arith, eq_iff j k)

max_from_only :
    (k : String) (n : ℕ) (o : String)
    → count_of o ((k, n) ∷ []) ≤ count_of (max_from k n []) ((k, n) ∷ [])
unfolding max_from lookup
max_from_only k n o = rw eq_refl (ground arith)

max_from_largest :
    (k : String) (n : ℕ) (t : Dict ℕ) (o : String)
    → IsTally ((k, n) ∷ t)
    → count_of o ((k, n) ∷ t) ≤ count_of (max_from k n t) ((k, n) ∷ t)
max_from_largest k n [] o h = max_from_only k n o
max_from_largest k n ((j, m) ∷ t) o h = elim (Bool-cases (ltb n m)) [
  | inl e ↦ rw (max_from-moves k j n m t e) (
      past_smaller k j (max_from j m t) o n m t (ground arith) h.2
        (rw (count_of-head j m t) at (max_from_largest j m t j h.3)) (max_from_largest j m t o h.3))
  | inr e ↦
      let g = drop_second k j n m t h in
      rw (max_from-stays k j n m t e) (
        past_next k j (max_from k n t) o n m t (ground arith) h.1 h.2 h.3.2
          (rw (count_of-head k n t) at (max_from_largest k n t k g)) (max_from_largest k n t o g))
]

max_from_nonempty : (k : String) (n : ℕ) (t : Dict ℕ) → k ≢ "" → IsTally t → max_from k n t ≢ ""
unfolding max_from
max_from_nonempty k n [] ne h = ne
max_from_nonempty k n ((j, m) ∷ t) ne h =
    ground (arith, max_from_nonempty j m t h.0 h.3, max_from_nonempty k n t ne h.3)

count_of-le-total : (o : String) (t : Dict ℕ) → count_of o t ≤ total t
unfolding lookup total
count_of-le-total o [] = omega arith
count_of-le-total o ((k, n) ∷ t) = ground (arith, count_of-le-total o t)

-- Two outcomes share the votes.
pub two_counts-le-total :
    (o p : String) (t : Dict ℕ) → o ≢ p → count_of o t + count_of p t ≤ total t
unfolding lookup total
two_counts-le-total o p [] h = omega arith
two_counts-le-total o p ((k, n) ∷ t) h = ground (
  arith,
  eq_iff k o,
  eq_iff k p,
  count_of-le-total o t,
  count_of-le-total p t,
  two_counts-le-total o p t h,
)

abbrev pub Largest : String → Dict ℕ → Type 0
Largest w t = (w ≢ "") × (1 ≤ count_of w t) × ((o : String) → count_of o t ≤ count_of w t)

-- What `max` returns of a tally has a count, and no key has a larger one.
pub max_key-Largest : (t : Dict ℕ) (w : String) → IsTally t → max_key t ≡ some w → Largest w t
unfolding max_key
max_key-Largest [] w h e = cc
max_key-Largest ((k, n) ∷ t) w h e =
    let same : max_from k n t ≡ w = cc in
    subst (λ v. Largest v ((k, n) ∷ t)) same
      (
        max_from_nonempty k n t h.0 h.3,
        le_trans h.1 (rw (count_of-head k n t) at (max_from_largest k n t k h)),
        λ o. max_from_largest k n t o h,
      )
