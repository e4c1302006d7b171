-- ===== src/ExitGuard/Protocol.antt =====
-- The exit guard as the bot uses it: claim, send, then commit or quarantine.
use safe_agent.Prelude.{
  ℕ, ◌+◌, ◌≤◌, String, ◌≡◌, refl, Bool, true, false, Option, none, some, List, [], ◌∷◌, arith,
  if◌then◌else◌, str_eq, eq_iff, is_some,
}
use safe_agent.Prelude.Dict.{
  Dict, erase, lookup, insert, update, lookup-insert, lookup-update, lookup-erase,
}
use safe_agent.ExitGuard.{
  ExitStatus, committed, quarantined, ExitRow, Guard, Exit, Answer, proceed, skip, make_key,
  new_row, claim_exit, set_status, mark_committed, mark_quarantined, is_entry_blocked,
  clear_phantom, get_phantom, Phantom,
}

-- One call on the guard.
pub data Op : Type 0 where
  claim_op commit_op quarantine_op : Exit → ℕ → Op
  clear_op : String → Op

pub apply_op : Op → Guard → Guard
unfolding claim_exit mark_committed mark_quarantined clear_phantom
apply_op (claim_op e now) g = (claim_exit e now g).1
apply_op (commit_op e now) g = mark_committed e now g
apply_op (quarantine_op e now) g = mark_quarantined e now g
apply_op (clear_op symbol) g = clear_phantom symbol g

abbrev is_proceed : Answer → Bool
is_proceed proceed = true
is_proceed skip = false

-- Whether the call sends the exit with key `k` to the broker.
pub sends : String → Op → Guard → ℕ
unfolding claim_exit
sends k (claim_op e now) g =
    if str_eq (make_key e) k then (if is_proceed (claim_exit e now g).0 then 1 else 0) else 0
sends k _ g = 0

pub total_sends : String → List Op → Guard → ℕ
total_sends k [] g = 0
total_sends k (op ∷ ops) g = sends k op g + total_sends k ops (apply_op op g)

abbrev pub is_claimed : String → Guard → Bool
is_claimed k g = is_some (lookup k g.exit_claims)

op-potential :
    (k : String) (op : Op) (g : Guard)
    → sends k op g + (if is_claimed k (apply_op op g) then 0 else 1)
      ≤ (if is_claimed k g then 0 else 1)
unfolding sends apply_op
op-potential k (claim_op e now) g =
    ground
      (arith, eq_iff (make_key e) k, lookup-insert (make_key e) k (new_row e now) g.exit_claims)
op-potential k (commit_op e now) g = ground (
  arith,
  eq_iff (make_key e) k,
  lookup-update (make_key e) k (set_status committed now) g.exit_claims,
)
op-potential k (quarantine_op e now) g = ground (
  arith,
  eq_iff (make_key e) k,
  lookup-update (make_key e) k (set_status quarantined now) g.exit_claims,
)
op-potential k (clear_op symbol) g = omega arith

-- Over any sequence of claims, commits, quarantines and clearings, one exit key is sent to the
-- broker at most once, and never if it was claimed before.
pub exit_sent_at_most_once :
    (k : String) (ops : List Op) (g : Guard)
    → total_sends k ops g ≤ (if is_claimed k g then 0 else 1)
unfolding total_sends
exit_sent_at_most_once k [] g = omega arith
exit_sent_at_most_once k (op ∷ ops) g =
    omega (arith, op-potential k op g, exit_sent_at_most_once k ops (apply_op op g))

abbrev status_of_row : Option ExitRow → Option ExitStatus
status_of_row none = none
status_of_row (some row) = some row.status

abbrev pub status_of : Exit → Guard → Option ExitStatus
status_of e g = status_of_row (lookup (make_key e) g.exit_claims)

claim_exit-new :
    (e : Exit) (now : ℕ) (g : Guard) (o : Option ExitRow)
    → lookup (make_key e) g.exit_claims ≡ o
    → is_some o ≡ false
    → claim_exit e now g
      ≡ (proceed, record g { exit_claims = insert (make_key e) (new_row e now) g.exit_claims })
unfolding claim_exit insert
claim_exit-new e now g none l h = rw (l, claim_exit) refl
claim_exit-new e now g (some row) l h = cc

claim_exit-again :
    (e : Exit) (now : ℕ) (g : Guard) (row : ExitRow)
    → lookup (make_key e) g.exit_claims ≡ some row
    → claim_exit e now g ≡ (skip, g)
unfolding claim_exit
claim_exit-again e now g row l = rw (l, claim_exit) refl

-- The row of an exit that was claimed at `t₁` and got its status at `t₂`.
abbrev marked_row : Exit → ExitStatus → ℕ → ℕ → ExitRow
marked_row e status t₁ t₂ = set_status status t₂ (new_row e t₁)

lookup-marked :
    (k : String) (row : ExitRow) (f : ExitRow → ExitRow) (d : Dict ExitRow)
    → lookup k (update k f (insert k row d)) ≡ some (f row)
lookup-marked k row f d =
    ground (arith, eq_iff k k, lookup-insert k k row d, lookup-update k k f (insert k row d))

-- A first claim and then a terminal refusal of the broker: the claim says to go on, the exit is
-- quarantined, its symbol is flagged, a new entry is not blocked, and the same exit is skipped.
pub refused_exit_quarantined :
    (e : Exit) (t₁ t₂ t₃ : ℕ) (g : Guard)
    → is_claimed (make_key e) g ≡ false
    → let refused = mark_quarantined e t₂ (claim_exit e t₁ g).1 in
      ((claim_exit e t₁ g).0 ≡ proceed)
      × (status_of e refused ≡ some quarantined)
      × (get_phantom e.symbol refused ≡ true)
      × (is_entry_blocked e.symbol refused ≡ false)
      × (claim_exit e t₃ refused ≡ (skip, refused))
unfolding mark_quarantined is_entry_blocked
refused_exit_quarantined e t₁ t₂ t₃ g h =
    let marked =
      lookup-marked (make_key e) (new_row e t₁) (set_status quarantined t₂) g.exit_claims in
    let flag : Phantom = record { quarantined = true; updated_at = t₂ } in
    rw (claim_exit-new e t₁ g _ refl h) (
      refl,
      rw marked refl,
      ground (
        arith,
        lookup-insert e.symbol e.symbol flag g.phantom_positions,
        eq_iff e.symbol e.symbol,
      ),
      ground arith,
      claim_exit-again e t₃ _ (marked_row e quarantined t₁ t₂) marked,
    )

clear_phantom-lookup : (symbol : String) (d : Dict Phantom) → lookup symbol (erase symbol d) ≡ none
clear_phantom-lookup symbol d = ground (arith, lookup-erase symbol symbol d, eq_iff symbol symbol)

unflagged :
    (symbol : String) (g : Guard)
    → lookup symbol g.phantom_positions ≡ none
    → get_phantom symbol g ≡ false
unfolding get_phantom
unflagged symbol g l = rw (l, get_phantom) refl

-- A first claim, a fill and a later clearing of the symbol: the exit is committed, no flag is left,
-- and the same exit is skipped.
pub filled_exit_committed :
    (e : Exit) (t₁ t₂ t₃ : ℕ) (g : Guard)
    → is_claimed (make_key e) g ≡ false
    → let filled = clear_phantom e.symbol (mark_committed e t₂ (claim_exit e t₁ g).1) in
      (status_of e filled ≡ some committed)
      × (get_phantom e.symbol filled ≡ false)
      × (claim_exit e t₃ filled ≡ (skip, filled))
unfolding mark_committed clear_phantom
filled_exit_committed e t₁ t₂ t₃ g h =
    let marked =
      lookup-marked (make_key e) (new_row e t₁) (set_status committed t₂) g.exit_claims in
    rw (claim_exit-new e t₁ g _ refl h) (
      rw marked refl,
      unflagged e.symbol _ (clear_phantom-lookup e.symbol _),
      claim_exit-again e t₃ _ (marked_row e committed t₁ t₂) marked,
    )
