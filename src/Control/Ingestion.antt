-- ===== src/Control/Ingestion.antt =====
-- control/v15/ingestion_normalization.py: duplicates and contradictions among raw broker records are
-- settled before they are matched. The `detail` sentence of a finding is left out. How Python writes a
-- time and a tuple of fields, which only breaks ties, is a parameter.
pub mod Groups
use safe_agent.Prelude.{
  ℕ, zero, suc, ◌+◌, List, [], ◌∷◌, ◌++◌, length, Option, none, some, Bool, true, false, not, ◌&&◌,
  ◌||◌, ltb, ◌==◌, if◌then◌else◌, String,
}
use safe_agent.Prelude.{str_eq}
use safe_agent.Control.Models.{BrokerOrder}
use safe_agent.Control.Results.{text_ltb}
use safe_agent.Control.Identity.{Writing, same_text, same_time, assign_stable_ids}

pub data FindingType : Type 0 where
  source_identity_conflict unmapped_status_unresolved : FindingType

pub record IngestionFinding : Type 0 where
  pub finding_type : FindingType
  pub stable_id : String
  pub conflicting_records : List BrokerOrder

-- `str(o.filled_at)` and `str(_immutable_fields(o))`.
pub record TieTexts : Type 0 where
  pub filled_text : Option ℕ → String
  pub fields_text : BrokerOrder → String

-- `STATUS_PRECEDENCE`, and nothing for a status that is not in it
unfoldable pub precedence : String → Option ℕ
precedence s =
    if str_eq s "pending_new" || str_eq s "new" || str_eq s "accepted"
    then some 0
    else if str_eq s "partially_filled"
    then some 1
    else if str_eq s "filled"
        || str_eq s "rejected"
        || str_eq s "canceled"
        || str_eq s "cancelled"
        || str_eq s "expired"
    then some 2
    else none

-- `STATUS_PRECEDENCE.get(s, 0)`
unfoldable pub precedence_or_zero : String → ℕ
unfolding precedence
precedence_or_zero s = elim (precedence s) [ none ↦ 0 | some n ↦ n ]

unfoldable pub is_terminal : String → Bool
is_terminal s =
    str_eq s "filled"
    || str_eq s "rejected"
    || str_eq s "canceled"
    || str_eq s "cancelled"
    || str_eq s "expired"

unfoldable pub is_unmapped : String → Bool
unfolding precedence
is_unmapped s = elim (precedence s) [ none ↦ true | some n ↦ false ]

-- Equality of `_immutable_fields(o)[:-1]`.
unfoldable pub same_fixed_fields : BrokerOrder → BrokerOrder → Bool
unfolding same_text
same_fixed_fields a b =
    str_eq a.symbol b.symbol
    && str_eq a.side b.side
    && a.qty == b.qty
    && a.submitted_at == b.submitted_at
    && same_text a.source_system b.source_system
    && same_text a.source_account b.source_account
    && same_text a.broker_order_id b.broker_order_id
    && same_text a.immutable_source_record_id b.immutable_source_record_id

-- Equality of `_all_business_fields`.
unfoldable pub same_business_fields : BrokerOrder → BrokerOrder → Bool
unfolding same_fixed_fields same_text same_time
same_business_fields a b =
    same_fixed_fields a b
    && same_text a.client_order_id b.client_order_id
    && str_eq a.status b.status
    && same_time a.filled_at b.filled_at

unfoldable pub all_of : {A : Type 0} → (A → Bool) → List A → Bool
all_of p [] = true
all_of p (x ∷ xs) = p x && all_of p xs

-- A set of texts as the list that it is built from: has it more than one element?
unfoldable pub differ : List String → Bool
unfolding all_of
differ [] = false
differ (s ∷ ss) = not (all_of (str_eq s) ss)

-- The client order ids that are not `None`.
unfoldable pub client_ids : List BrokerOrder → List String
client_ids [] = []
client_ids (o ∷ os) =
    let rest = client_ids os in elim o.client_order_id [ none ↦ rest | some s ↦ s ∷ rest ]

unfoldable pub statuses : List BrokerOrder → List String
statuses [] = []
statuses (o ∷ os) = o.status ∷ statuses os

unfoldable pub terminal_statuses : List BrokerOrder → List String
unfolding is_terminal
terminal_statuses [] = []
terminal_statuses (o ∷ os) =
    let rest = terminal_statuses os in if is_terminal o.status then o.status ∷ rest else rest

-- `_immutable_fields_conflict`
unfoldable pub immutable_fields_conflict : BrokerOrder → List BrokerOrder → Bool
unfolding all_of same_fixed_fields differ client_ids
immutable_fields_conflict first rest =
    not (all_of (same_fixed_fields first) rest) || differ (client_ids (first ∷ rest))

-- `_enrich_representative`
unfoldable pub enrich_representative : BrokerOrder → List BrokerOrder → BrokerOrder
unfolding client_ids differ
enrich_representative rep group = elim rep.client_order_id [
  | some id ↦ rep
  | none ↦ elim (client_ids group) [
    | [] ↦ rep
    | s ∷ ss ↦ if differ (s ∷ ss) then rep else record rep { client_order_id = some s }
  ]
]

-- `str(o.client_order_id)`
unfoldable pub client_text : Option String → String
client_text none = "None"
client_text (some s) = s

-- `a < b` for numbers and for texts, when the rest of the tuples is compared by `later`.
unfoldable pub then_number : ℕ → ℕ → Bool → Bool
then_number a b later = ltb a b || a == b && later

unfoldable pub then_text : String → String → Bool → Bool
unfolding text_ltb
then_text a b later = text_ltb a b || str_eq a b && later

-- Does the key of `_deterministic_representative` put `a` before `b`?
unfoldable pub key_before : TieTexts → BrokerOrder → BrokerOrder → Bool
unfolding then_number then_text precedence_or_zero client_text text_ltb
key_before t a b = then_number (precedence_or_zero b.status) (precedence_or_zero a.status) (
    then_number a.submitted_at b.submitted_at (
      then_text a.status b.status (
        then_text (t.filled_text a.filled_at) (t.filled_text b.filled_at) (
          then_text (client_text a.client_order_id) (client_text b.client_order_id)
            (text_ltb (t.fields_text a) (t.fields_text b))))))

-- Does the key (precedence, status) of `b` exceed that of `a`?
unfoldable pub is_less_advanced : BrokerOrder → BrokerOrder → Bool
unfolding then_number precedence_or_zero text_ltb
is_less_advanced a b =
    then_number (precedence_or_zero a.status) (precedence_or_zero b.status)
      (text_ltb a.status b.status)

-- The first best record of a group, with its place; `better x y` says that `x` replaces `y`.
unfoldable pub pick :
    (BrokerOrder → BrokerOrder → Bool) → ℕ → BrokerOrder → ℕ → List BrokerOrder → ℕ × BrokerOrder
pick better place best next [] = (place, best)
pick better place best next (o ∷ os) = elim (better o best) [
  | true ↦ pick better next o (suc next) os
  | false ↦ pick better place best (suc next) os
]

unfoldable pub replace_at : ℕ → BrokerOrder → List BrokerOrder → List BrokerOrder
replace_at i x [] = []
replace_at zero x (y ∷ ys) = x ∷ ys
replace_at (suc i) x (y ∷ ys) = y ∷ replace_at i x ys

-- The representative of a group, which stands for all its records.
unfoldable pub represent : BrokerOrder → List BrokerOrder → BrokerOrder
unfolding enrich_representative
represent chosen group = record (enrich_representative chosen group) {
  ingestion_count = length group;
}

-- The outcome of a contradictory group. The finding lists the records themselves, the
-- representative among them.
unfoldable pub contradict :
    TieTexts
    → FindingType
    → String
    → BrokerOrder
    → List BrokerOrder
    → BrokerOrder × List IngestionFinding
unfolding pick key_before represent replace_at
contradict t kind id first rest =
    let (place, chosen) = pick (key_before t) 0 first 1 rest in
    let rep = represent chosen (first ∷ rest) in
    (
      rep,
      record {
        finding_type = kind;
        stable_id = id;
        conflicting_records = replace_at place rep (first ∷ rest);
      }
          ∷ [],
    )

unfoldable pub any_unmapped : List String → Bool
unfolding is_unmapped
any_unmapped [] = false
any_unmapped (s ∷ ss) = is_unmapped s || any_unmapped ss

-- The body of the loop over the groups, for a group that begins with `first`.
unfoldable pub resolve_group :
    TieTexts → String → BrokerOrder → List BrokerOrder → BrokerOrder × List IngestionFinding
unfolding all_of same_business_fields immutable_fields_conflict contradict differ terminal_statuses
    statuses any_unmapped pick is_less_advanced represent
resolve_group t id first [] = (record first { ingestion_count = 1 }, [])
resolve_group t id first (o ∷ os) =
    if all_of (same_business_fields first) (o ∷ os)
    then (record first { ingestion_count = length (first ∷ o ∷ os) }, [])
    else if immutable_fields_conflict first (o ∷ os)
    then contradict t source_identity_conflict id first (o ∷ os)
    else if differ (terminal_statuses (first ∷ o ∷ os))
    then contradict t source_identity_conflict id first (o ∷ os)
    else if differ (statuses (first ∷ o ∷ os)) && any_unmapped (statuses (first ∷ o ∷ os))
    then contradict t unmapped_status_unresolved id first (o ∷ os)
    else (represent (pick (λ x y. is_less_advanced y x) 0 first 1 (o ∷ os)).1 (first ∷ o ∷ os), [])

-- A group that is never empty: its identity, its first record and the others.
pub record Group : Type 0 where
  pub key : String
  pub first : BrokerOrder
  pub rest : List BrokerOrder

-- `groups.setdefault(o.stable_id, []).append(o)`
unfoldable pub add_to_group : BrokerOrder → List Group → List Group
add_to_group o [] = record { key = o.stable_id; first = o; rest = [] } ∷ []
add_to_group o (g ∷ gs) =
    let later = add_to_group o gs in
    if str_eq g.key o.stable_id then record g { rest = g.rest ++ o ∷ [] } ∷ gs else g ∷ later

unfoldable pub groups_of : List Group → List BrokerOrder → List Group
unfolding add_to_group
groups_of gs [] = gs
groups_of gs (o ∷ os) = groups_of (add_to_group o gs) os

-- `sorted(groups)`
unfoldable pub insert_group : Group → List Group → List Group
unfolding text_ltb
insert_group g [] = g ∷ []
insert_group g (h ∷ gs) =
    let later = insert_group g gs in if text_ltb h.key g.key then h ∷ later else g ∷ h ∷ gs

unfoldable pub sort_groups : List Group → List Group
unfolding insert_group
sort_groups [] = []
sort_groups (g ∷ gs) = insert_group g (sort_groups gs)

unfoldable pub resolve_groups : TieTexts → List Group → List BrokerOrder × List IngestionFinding
unfolding resolve_group
resolve_groups t [] = ([], [])
resolve_groups t (g ∷ gs) =
    let (rep, found) = resolve_group t g.key g.first g.rest in
    let (reps, findings) = resolve_groups t gs in (rep ∷ reps, found ++ findings)

unfoldable pub normalize_ingested_orders :
    Writing → TieTexts → List BrokerOrder → List BrokerOrder × List IngestionFinding
unfolding assign_stable_ids groups_of sort_groups resolve_groups
normalize_ingested_orders w t raw_orders =
    resolve_groups t (sort_groups (groups_of [] (assign_stable_ids w raw_orders)))
