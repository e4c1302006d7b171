-- ===== src/Execution/Hosted/Audit.antt =====
-- `audit_claims` of safeagent_exec_guard/pg_store.py, whose query differs from that of the SQLite
-- store in its placeholders alone; its rows have the governance columns as well.
use Prim.Native.Nat.{min}
use safe_agent.Prelude.{
  ℕ, suc, zero, String, ◌≡◌, refl, ap, ◌∙◌, Bool, [], ◌∷◌, length, take, drop, arith,
}
use safe_agent.Prelude.Dict.{Dict}
use safe_agent.Prelude.Lists.{filter_by, insert_desc, sort_desc}
use safe_agent.Execution.Store.Audit
use safe_agent.Execution.Store.Audit.{Entry, Filters, matches, Page, claimed_at_of}
use safe_agent.Execution.Hosted.{HostedRow, HostedStore}
use safe_agent.Execution.Hosted.Lifecycle.{base_rows, forget}

pub record HostedPage : Type 0 where
  pub items : Dict HostedRow
  pub total : ℕ
  pub limit : ℕ
  pub offset : ℕ

abbrev base_entry : String × HostedRow → Entry
base_entry (id, row) = (id, row.base)

abbrev passes : Filters → String × HostedRow → Bool
passes f e = matches f (base_entry e)

abbrev claimed_at_in : String × HostedRow → ℕ
claimed_at_in e = claimed_at_of (base_entry e)

unfoldable pub audit_claims : Filters → (limit offset : ℕ) → HostedStore → HostedPage
unfolding filter_by sort_desc
audit_claims f limit offset store =
    let capped = min limit 1000 in
    let found = filter_by (passes f) store.rows in
    record {
      items = take capped (drop offset (sort_desc claimed_at_in found));
      total = length found;
      limit = capped;
      offset = offset;
    }

base_rows-filter_by :
    (f : Filters) (rows : Dict HostedRow)
    → base_rows (filter_by (passes f) rows) ≡ filter_by (matches f) (base_rows rows)
unfolding base_rows filter_by
base_rows-filter_by f [] = refl
base_rows-filter_by f ((id, row) ∷ rows) = ground (arith, base_rows-filter_by f rows)

base_rows-insert_desc :
    (e : String × HostedRow) (rows : Dict HostedRow)
    → base_rows (insert_desc claimed_at_in e rows)
      ≡ insert_desc claimed_at_of (base_entry e) (base_rows rows)
unfolding base_rows insert_desc
base_rows-insert_desc (id, row) [] = refl
base_rows-insert_desc (id, row) ((j, old) ∷ rows) =
    ground (arith, base_rows-insert_desc (id, row) rows)

base_rows-sort_desc :
    (rows : Dict HostedRow)
    → base_rows (sort_desc claimed_at_in rows) ≡ sort_desc claimed_at_of (base_rows rows)
unfolding base_rows sort_desc
base_rows-sort_desc [] = refl
base_rows-sort_desc ((id, row) ∷ rows) =
    base_rows-insert_desc (id, row) (sort_desc claimed_at_in rows)
    ∙ ap (insert_desc claimed_at_of (id, row.base)) (base_rows-sort_desc rows)

base_rows-take : (n : ℕ) (rows : Dict HostedRow) → base_rows (take n rows) ≡ take n (base_rows rows)
unfolding base_rows
base_rows-take zero rows = refl
base_rows-take (suc n) [] = refl
base_rows-take (suc n) ((id, row) ∷ rows) = ap (λ l. (id, row.base) ∷ l) (base_rows-take n rows)

base_rows-drop : (n : ℕ) (rows : Dict HostedRow) → base_rows (drop n rows) ≡ drop n (base_rows rows)
unfolding base_rows
base_rows-drop zero rows = refl
base_rows-drop (suc n) [] = refl
base_rows-drop (suc n) ((id, row) ∷ rows) = base_rows-drop n rows

length-base_rows : (rows : Dict HostedRow) → length (base_rows rows) ≡ length rows
unfolding base_rows
length-base_rows [] = refl
length-base_rows ((id, row) ∷ rows) = ap suc (length-base_rows rows)

abbrev pub base_page : HostedPage → Page
base_page page = record {
  items = base_rows page.items;
  total = page.total;
  limit = page.limit;
  offset = page.offset;
}

-- A page of the hosted store is, in its claim columns, the page of the SQLite store: the same rows
-- in the same order, with the same total.
pub hosted_audit_page :
    (f : Filters) (limit offset : ℕ) (store : HostedStore)
    → base_page (audit_claims f limit offset store)
      ≡ Audit.audit_claims f limit offset (forget store)
unfolding audit_claims Audit.audit_claims forget
hosted_audit_page f limit offset store =
    let found = filter_by (passes f) store.rows in
    let sorted = sort_desc claimed_at_in found in
    rw
      (
        base_rows-take (min limit 1000) (drop offset sorted),
        base_rows-drop offset sorted,
        base_rows-sort_desc found,
        ← length-base_rows found,
        base_rows-filter_by f store.rows,
      )
      refl
