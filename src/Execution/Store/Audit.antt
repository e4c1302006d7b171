-- ===== src/Execution/Store/Audit.antt =====
-- `audit_claims` of safeagent_exec_guard/sqlite_store.py. Its HTTP callers pass a limit from 1 to
-- 1000 and an offset of at least 0; both are natural numbers here.
use safe_agent.Prelude.{
  ℕ, ◌+◌, ◌≤◌, String, ◌≡◌, ◌-◌, refl, ap, ◌∙◌, eq_iff, Bool, true, false, Option, none, some, List,
  ◌++◌, ◌&&◌, leb, str_eq, arith, if◌then◌else◌, length, take, drop,
}
use safe_agent.Prelude.Text.{char_count, first_chars}
use safe_agent.Prelude.Lists.{
  take_all, take-drop, length-drop, length-sort_desc, filter_by, sort_desc, IsDesc, length-take,
  take-take-drop, drop-drop, sort_desc-IsDesc, sort_desc-perm,
}
use mathlib.Core.List.{Perm}
use mathlib.Core.Logic.{◌↔◌}
use Prim.Native.Nat.{min}
use safe_agent.Execution.Store.{Status, pending, committed, is_pending, Row, ExecutionStore}

abbrev pub Entry : Type 0
Entry = String × Row

pub record Filters : Type 0 where
  pub agent_id : Option String
  pub action : Option String
  pub status : Option Status
  pub from_ts : Option ℕ
  pub to_ts : Option ℕ
  pub request_id_prefix : Option String

-- A condition is there only if its filter is given.
abbrev when_given {ℓ} : {A : Type ℓ} → (A → Bool) → Option A → Bool
when_given test none = true
when_given test (some a) = test a

-- `agent_id = ?`, which is not true of NULL
abbrev column_is : Option String → String → Bool
column_is none wanted = false
column_is (some value) wanted = str_eq value wanted

abbrev same_status : Status → Status → Bool
same_status pending s = is_pending s
same_status committed s = if is_pending s then false else true

unfoldable pub matches : Filters → Entry → Bool
matches f (request_id, row) =
    when_given (column_is row.agent_id) f.agent_id
    && when_given (λ prefix. str_eq (first_chars (char_count prefix) request_id) prefix)
        f.request_id_prefix
    && when_given (str_eq row.action) f.action
    && when_given (same_status row.status) f.status
    && when_given (λ from_ts. leb from_ts row.claimed_at) f.from_ts
    && when_given (λ to_ts. leb row.claimed_at to_ts) f.to_ts

pub record Page : Type 0 where
  pub items : List Entry
  pub total : ℕ
  pub limit : ℕ
  pub offset : ℕ

abbrev pub claimed_at_of : Entry → ℕ
claimed_at_of (request_id, row) = row.claimed_at

unfoldable pub audit_claims : Filters → (limit offset : ℕ) → ExecutionStore → Page
audit_claims f limit offset store =
    let capped = min limit 1000 in
    let found = filter_by (matches f) store.rows in
    record {
      items = take capped (drop offset (sort_desc claimed_at_of found));
      total = length found;
      limit = capped;
      offset = offset;
    }

-- The filters one by one: each that is given holds of the row.
pub record Meets (f : Filters) (e : Entry) : Type 0 where
  agent : (a : String) → f.agent_id ≡ some a → e.1.agent_id ≡ some a
  prefix : (p : String) → f.request_id_prefix ≡ some p → first_chars (char_count p) e.0 ≡ p
  action : (a : String) → f.action ≡ some a → e.1.action ≡ a
  status : (x : Status) → f.status ≡ some x → e.1.status ≡ x
  begun : (t : ℕ) → f.from_ts ≡ some t → t ≤ e.1.claimed_at
  over : (t : ℕ) → f.to_ts ≡ some t → e.1.claimed_at ≤ t

column_is-some :
    (column : Option String) (wanted : String)
    → column_is column wanted ≡ true
    → column ≡ some wanted
column_is-some none wanted h = absurd (ground (arith, h))
column_is-some (some value) wanted h = ground (arith, h, eq_iff value wanted)

same_status_refl : (x : Status) → same_status x x ≡ true
same_status_refl pending = refl
same_status_refl committed = refl

when_given-true {ℓ} :
    {A : Type ℓ} (test : A → Bool) (o : Option A)
    → ((a : A) → o ≡ some a → test a ≡ true)
    → when_given test o ≡ true
when_given-true test none h = refl
when_given-true test (some a) h = h a refl

matches-Meets : (f : Filters) (e : Entry) → (matches f e ≡ true) ↔ Meets f e
unfolding matches
matches-Meets f (id, row) = (
  λ h. record {
    agent = λ a g. column_is-some row.agent_id a (ground (arith, h, g));
    prefix = λ p g. ground (arith, h, g, eq_iff (first_chars (char_count p) id) p);
    action = λ a g. ground (arith, h, g, eq_iff row.action a);
    status = λ x g. ground (arith, h, g);
    begun = λ t g. ground (arith, h, g);
    over = λ t g. ground (arith, h, g);
  },
  λ m.
      let agent =
        when_given-true (column_is row.agent_id) f.agent_id
          (λ a g. ground (arith, m.agent a g, eq_iff a a)) in
      let prefix =
        when_given-true (λ p. str_eq (first_chars (char_count p) id) p) f.request_id_prefix
          (λ p g. ground (arith, m.prefix p g, eq_iff (first_chars (char_count p) id) p)) in
      let action =
        when_given-true (str_eq row.action) f.action
          (λ a g. ground (arith, m.action a g, eq_iff row.action a)) in
      let status =
        when_given-true (same_status row.status) f.status
          (λ x g. rw (m.status x g) (same_status_refl x)) in
      let begun =
        when_given-true (λ t. leb t row.claimed_at) f.from_ts
          (λ t g. ground (arith, m.begun t g)) in
      let over =
        when_given-true (λ t. leb row.claimed_at t) f.to_ts (λ t g. ground (arith, m.over t g)) in
      ground (arith, agent, prefix, action, status, begun, over),
)

-- With n rows that pass every filter that is given, a page is what stands between the first `offset`
-- of them and the rest, newest claim first: `min(offset, n)` rows come before it, it has as many of
-- the others as the limit and 1000 allow, and with what comes before and after it, it is all of the
-- n rows, none lost and none repeated. The total is n on whatever page.
pub audit_page :
    (f : Filters) (limit offset : ℕ) (store : ExecutionStore)
    → let page = audit_claims f limit offset store in
      let n = length (filter_by (matches f) store.rows) in
      ((e : Entry) → (matches f e ≡ true) ↔ Meets f e)
      × ((before : List Entry) × (after : List Entry) × Perm
            (before ++ (page.items ++ after))
            (filter_by (matches f) store.rows)
          × IsDesc claimed_at_of (before ++ (page.items ++ after))
          × (length before ≡ min offset n))
      × (length page.items ≡ min (min limit 1000) (n - offset))
      × (page.total ≡ n)
unfolding audit_claims
audit_page f limit offset store =
    let found = filter_by (matches f) store.rows in
    let sorted = sort_desc claimed_at_of found in
    let rest = drop offset sorted in
    let capped = min limit 1000 in
    let whole : take offset sorted ++ (take capped rest ++ drop capped rest) ≡ sorted =
      ap (λ l. take offset sorted ++ l) (take-drop capped rest) ∙ take-drop offset sorted in
    (
      matches-Meets f,
      (
        take offset sorted,
        drop capped rest,
        rw whole (sort_desc-perm claimed_at_of found),
        rw whole (sort_desc-IsDesc claimed_at_of found),
        rw (length-take offset sorted, length-sort_desc claimed_at_of found) refl,
      ),
      rw (length-take capped rest, length-drop offset sorted, length-sort_desc claimed_at_of found)
          refl,
      refl,
    )

-- A page and the one that begins where it ends are together the longer page, as long as that has no
-- more than 1000 rows.
pub audit_pages_join :
    (f : Filters) (limit next_limit offset : ℕ) (store : ExecutionStore)
    → limit + next_limit ≤ 1000
    → (audit_claims f limit offset store).items
        ++ (audit_claims f next_limit (offset + limit) store).items
      ≡ (audit_claims f (limit + next_limit) offset store).items
unfolding audit_claims
audit_pages_join f limit next_limit offset store h =
    let sorted = sort_desc claimed_at_of (filter_by (matches f) store.rows) in
    let first : min limit 1000 ≡ limit = omega arith in
    let second : min next_limit 1000 ≡ next_limit = omega arith in
    let both : min (limit + next_limit) 1000 ≡ limit + next_limit = omega arith in
    rw (first, second, both, ← drop-drop offset limit (offset + limit) sorted refl)
      (take-take-drop limit next_limit (limit + next_limit) (drop offset sorted) refl)

-- A first page that is long enough for all rows that pass is a permutation of them: none is lost
-- and none repeated.
pub audit_page_complete :
    (f : Filters) (limit : ℕ) (store : ExecutionStore)
    → limit ≤ 1000
    → length (filter_by (matches f) store.rows) ≤ limit
    → Perm (audit_claims f limit 0 store).items (filter_by (matches f) store.rows)
unfolding audit_claims
audit_page_complete f limit store h few =
    let found = filter_by (matches f) store.rows in
    let first : min limit 1000 ≡ limit = omega arith in
    rw (first, take_all limit (sort_desc claimed_at_of found) (rw length-sort_desc few))
      (sort_desc-perm claimed_at_of found)
