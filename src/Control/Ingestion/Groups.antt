-- ===== src/Control/Ingestion/Groups.antt =====
-- `normalize_ingested_orders` keeps one record for each identity, and counts the others in it.
use safe_agent.Prelude.{
  ℕ, suc, ◌+◌, ◌≤◌, List, [], ◌∷◌, ◌++◌, length, All, Bool, true, false, ◌&&◌, ◌≡◌, refl, sym, ◌∙◌,
  inl, inr, arith, if◌then◌else◌, Bool-cases, String, length-append,
}
use safe_agent.Prelude.{str_eq, eq_iff}
use safe_agent.Control.Models.{BrokerOrder}
use safe_agent.Control.Results.{text_ltb}
use safe_agent.Control.Identity.{Writing, assign_stable_ids}
use safe_agent.Control.Ingestion.{
  FindingType, source_identity_conflict, unmapped_status_unresolved, TieTexts, Group, all_of,
  same_business_fields, immutable_fields_conflict, differ, terminal_statuses, statuses,
  any_unmapped, is_less_advanced, enrich_representative, pick, key_before, represent, contradict,
  resolve_group, add_to_group, groups_of, insert_group, sort_groups, resolve_groups,
  normalize_ingested_orders,
}

-- How many records have the identity, and how many raw records they stand for.
unfoldable pub count_id : String → List BrokerOrder → ℕ
count_id x [] = 0
count_id x (o ∷ os) = (if str_eq o.stable_id x then 1 else 0) + count_id x os

unfoldable pub ingested : String → List BrokerOrder → ℕ
ingested x [] = 0
ingested x (o ∷ os) = (if str_eq o.stable_id x then o.ingestion_count else 0) + ingested x os

count_key : String → List Group → ℕ
count_key x [] = 0
count_key x (g ∷ gs) = (if str_eq g.key x then 1 else 0) + count_key x gs

size_of : String → List Group → ℕ
size_of x [] = 0
size_of x (g ∷ gs) = (if str_eq g.key x then suc (length g.rest) else 0) + size_of x gs

-- All the records of a group have its identity.
abbrev HasId : String → BrokerOrder → Type 0
HasId id o = o.stable_id ≡ id

abbrev IsKeyed : Group → Type 0
IsKeyed g = HasId g.key g.first × All (HasId g.key) g.rest

pick-HasId :
    (better : BrokerOrder → BrokerOrder → Bool) (id : String) (place next : ℕ) (best : BrokerOrder)
    (os : List BrokerOrder)
    → HasId id best
    → All (HasId id) os
    → HasId id (pick better place best next os).1
unfolding pick
pick-HasId better id place next best [] h all = h
pick-HasId better id place next best (o ∷ os) h all = elim (Bool-cases (better o best)) [
  | inl e ↦ rw (e, pick) (pick-HasId better id next (suc next) o os all.0 all.1)
  | inr e ↦ rw (e, pick) (pick-HasId better id place (suc next) best os h all.1)
]

represent-id :
    (chosen : BrokerOrder) (group : List BrokerOrder)
    → ((represent chosen group).stable_id ≡ chosen.stable_id)
      × ((represent chosen group).ingestion_count ≡ length group)
unfolding represent enrich_representative
represent-id chosen group = (kept, refl)
  where
    kept : (enrich_representative chosen group).stable_id ≡ chosen.stable_id
    kept = ground arith

-- What the representative of a group is to be.
abbrev Stands : String → ℕ → BrokerOrder → Type 0
Stands id n o = (o.stable_id ≡ id) × (o.ingestion_count ≡ n)

represent-Stands :
    (id : String) (chosen : BrokerOrder) (group : List BrokerOrder)
    → HasId id chosen
    → Stands id (length group) (represent chosen group)
represent-Stands id chosen group h = let (same, n) = represent-id chosen group in (same ∙ h, n)

contradict-Stands :
    (t : TieTexts) (kind : FindingType) (id : String) (first : BrokerOrder)
    (rest : List BrokerOrder)
    → HasId id first
    → All (HasId id) rest
    → Stands id (suc (length rest)) (contradict t kind id first rest).0
unfolding contradict
contradict-Stands t kind id first rest h all =
    represent-Stands id (pick (key_before t) 0 first 1 rest).1 (first ∷ rest)
      (pick-HasId (key_before t) id 0 1 first rest h all)

if-Stands :
    {B : Type 0} (id : String) (n : ℕ) (b : Bool) (x y : BrokerOrder × B)
    → Stands id n x.0
    → Stands id n y.0
    → Stands id n (if b then x else y).0
if-Stands id n true x y h k = h
if-Stands id n false x y h k = k

resolve_group-Stands :
    (t : TieTexts) (id : String) (first : BrokerOrder) (rest : List BrokerOrder)
    → HasId id first
    → All (HasId id) rest
    → Stands id (suc (length rest)) (resolve_group t id first rest).0
unfolding resolve_group
resolve_group-Stands t id first [] h all = (h, refl)
resolve_group-Stands t id first (o ∷ os) h all =
    let conflict = λ (kind : FindingType). contradict-Stands t kind id first (o ∷ os) h all in
    if-Stands id _ (all_of (same_business_fields first) (o ∷ os)) _ _ (h, refl)
      (if-Stands id _ (immutable_fields_conflict first (o ∷ os)) _ _
        (conflict source_identity_conflict)
        (if-Stands id _ (differ (terminal_statuses (first ∷ o ∷ os))) _ _
          (conflict source_identity_conflict)
          (if-Stands id _
            (differ (statuses (first ∷ o ∷ os)) && any_unmapped (statuses (first ∷ o ∷ os))) _ _
            (conflict unmapped_status_unresolved)
            (represent-Stands id (pick (λ x y. is_less_advanced y x) 0 first 1 (o ∷ os)).1
              (first ∷ o ∷ os)
              (pick-HasId (λ x y. is_less_advanced y x) id 0 1 first (o ∷ os) h all)))))

-- The groups, as records arrive.
add_to_group-size :
    (x : String) (o : BrokerOrder) (gs : List Group)
    → size_of x (add_to_group o gs) ≡ size_of x gs + (if str_eq o.stable_id x then 1 else 0)
unfolding add_to_group size_of
add_to_group-size x o [] = ground arith
add_to_group-size x o (g ∷ gs) =
    ground
      (arith, add_to_group-size x o gs, eq_iff g.key o.stable_id, length-append g.rest (o ∷ []))

add_to_group-other :
    (x : String) (o : BrokerOrder) (gs : List Group)
    → str_eq o.stable_id x ≡ false
    → count_key x (add_to_group o gs) ≡ count_key x gs
unfolding add_to_group count_key
add_to_group-other x o [] h = ground (arith, h)
add_to_group-other x o (g ∷ gs) h = ground (arith, h, add_to_group-other x o gs h)

add_to_group-once :
    (x : String) (o : BrokerOrder) (gs : List Group)
    → count_key x gs ≤ 1
    → count_key x (add_to_group o gs) ≤ 1
unfolding add_to_group count_key
add_to_group-once x o [] h = ground arith
add_to_group-once x o (g ∷ gs) h = elim (Bool-cases (str_eq g.key x)) [
  | inr e ↦ ground (arith, h, e, add_to_group-once x o gs)
  | inl e ↦ elim (Bool-cases (str_eq o.stable_id x)) [
    | inl f ↦
        ground (arith, h, e, f, eq_iff g.key x, eq_iff o.stable_id x, eq_iff g.key o.stable_id)
    | inr f ↦ ground (arith, h, e, f, add_to_group-other x o gs f)
  ]
]

All-append_one :
    (id : String) (os : List BrokerOrder) (o : BrokerOrder)
    → All (HasId id) os
    → HasId id o
    → All (HasId id) (os ++ o ∷ [])
All-append_one id [] o all h = (h, tt)
All-append_one id (x ∷ os) o all h = (all.0, All-append_one id os o all.1 h)

add_to_group-IsKeyed :
    (o : BrokerOrder) (gs : List Group) → All IsKeyed gs → All IsKeyed (add_to_group o gs)
unfolding add_to_group
add_to_group-IsKeyed o [] all = ((refl, tt), tt)
add_to_group-IsKeyed o (g ∷ gs) (keyed, all) = elim (Bool-cases (str_eq g.key o.stable_id)) [
  | inl e ↦
      let same : o.stable_id ≡ g.key = sym ((eq_iff g.key o.stable_id).0 e) in
      rw e ((keyed.0, All-append_one g.key g.rest o keyed.1 same), all)
  | inr e ↦ rw e (keyed, add_to_group-IsKeyed o gs all)
]

groups_of-size :
    (x : String) (gs : List Group) (os : List BrokerOrder)
    → size_of x (groups_of gs os) ≡ size_of x gs + count_id x os
unfolding groups_of count_id
groups_of-size x gs [] = omega arith
groups_of-size x gs (o ∷ os) =
    ground (arith, groups_of-size x (add_to_group o gs) os, add_to_group-size x o gs)

groups_of-once :
    (x : String) (gs : List Group) (os : List BrokerOrder)
    → count_key x gs ≤ 1
    → count_key x (groups_of gs os) ≤ 1
unfolding groups_of
groups_of-once x gs [] h = h
groups_of-once x gs (o ∷ os) h =
    groups_of-once x (add_to_group o gs) os (add_to_group-once x o gs h)

groups_of-IsKeyed :
    (gs : List Group) (os : List BrokerOrder) → All IsKeyed gs → All IsKeyed (groups_of gs os)
unfolding groups_of
groups_of-IsKeyed gs [] all = all
groups_of-IsKeyed gs (o ∷ os) all =
    groups_of-IsKeyed (add_to_group o gs) os (add_to_group-IsKeyed o gs all)

-- Sorting.
insert_group-counts :
    (x : String) (g : Group) (gs : List Group)
    → (count_key x (insert_group g gs) ≡ count_key x (g ∷ gs))
      × (size_of x (insert_group g gs) ≡ size_of x (g ∷ gs))
unfolding insert_group count_key size_of
insert_group-counts x g [] = (refl, refl)
insert_group-counts x g (h ∷ gs) =
    let later = insert_group-counts x g gs in
    elim (Bool-cases (text_ltb h.key g.key)) [
      | inl e ↦ rw e (omega (arith, later.0), omega (arith, later.1))
      | inr e ↦ rw e (refl, refl)
    ]

insert_group-IsKeyed :
    (g : Group) (gs : List Group) → IsKeyed g → All IsKeyed gs → All IsKeyed (insert_group g gs)
unfolding insert_group
insert_group-IsKeyed g [] k all = (k, tt)
insert_group-IsKeyed g (h ∷ gs) k all = elim (Bool-cases (text_ltb h.key g.key)) [
  | inl e ↦ rw e (all.0, insert_group-IsKeyed g gs k all.1)
  | inr e ↦ rw e (k, all)
]

sort_groups-counts :
    (x : String) (gs : List Group)
    → (count_key x (sort_groups gs) ≡ count_key x gs) × (size_of x (sort_groups gs) ≡ size_of x gs)
unfolding sort_groups count_key size_of
sort_groups-counts x [] = (refl, refl)
sort_groups-counts x (g ∷ gs) =
    let here = insert_group-counts x g (sort_groups gs) in
    let later = sort_groups-counts x gs in
    (omega (arith, here.0, later.0), omega (arith, here.1, later.1))

sort_groups-IsKeyed : (gs : List Group) → All IsKeyed gs → All IsKeyed (sort_groups gs)
unfolding sort_groups
sort_groups-IsKeyed [] all = tt
sort_groups-IsKeyed (g ∷ gs) all =
    insert_group-IsKeyed g (sort_groups gs) all.0 (sort_groups-IsKeyed gs all.1)

resolve_groups-counts :
    (t : TieTexts) (x : String) (gs : List Group)
    → All IsKeyed gs
    → (count_id x (resolve_groups t gs).0 ≡ count_key x gs)
      × (ingested x (resolve_groups t gs).0 ≡ size_of x gs)
unfolding resolve_groups count_id ingested count_key size_of
resolve_groups-counts t x [] all = (refl, refl)
resolve_groups-counts t x (g ∷ gs) (keyed, all) =
    let (later, sizes) = resolve_groups-counts t x gs all in
    let (same, n) = resolve_group-Stands t g.key g.first g.rest keyed.0 keyed.1 in
    (ground (arith, later, same), ground (arith, sizes, same, n))

-- Whatever the raw records: each identity is that of one record at most after the normalization,
-- and the ingestion count that its record carries is the number of the raw records with it; so an
-- identity that no raw record has is not among the results, and none that one has is lost.
pub normalize_one_record :
    (w : Writing) (t : TieTexts) (x : String) (raw : List BrokerOrder)
    → (count_id x (normalize_ingested_orders w t raw).0 ≤ 1)
      × (ingested x (normalize_ingested_orders w t raw).0 ≡ count_id x (assign_stable_ids w raw))
unfolding normalize_ingested_orders count_key size_of
normalize_one_record w t x raw =
    let named = assign_stable_ids w raw in
    let gs = groups_of [] named in
    let (ids, sizes) =
      resolve_groups-counts t x (sort_groups gs)
        (sort_groups-IsKeyed gs (groups_of-IsKeyed [] named tt)) in
    let (same, total) = sort_groups-counts x gs in
    (
      omega (arith, ids, same, groups_of-once x [] named (omega arith)),
      omega (arith, sizes, total, groups_of-size x [] named),
    )
