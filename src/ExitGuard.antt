-- ===== src/ExitGuard.antt =====
-- safeagent_exec_guard/exit_duplicate_guard.py: `ExitDuplicateGuardRuntime`. A quantity is the text
-- that Python prints for it, which is all that the key has of it; the clock is an argument.
pub mod Protocol
use Prim.Native.String.{◌++◌}
use safe_agent.Prelude.{ℕ, String, Bool, true, false, Option, none, some, if◌then◌else◌}
use safe_agent.Prelude.Dict.{Dict, lookup, insert, update, erase}

pub data ExitStatus : Type 0 where
  pending committed quarantined : ExitStatus

pub record ExitRow : Type 0 where
  pub symbol : String
  pub qty : String
  pub entry_ts : String
  pub status : ExitStatus
  pub created_at : ℕ
  pub updated_at : ℕ

pub record Phantom : Type 0 where
  pub quarantined : Bool
  pub updated_at : ℕ

pub record Guard : Type 0 where
  pub exit_claims : Dict ExitRow
  pub phantom_positions : Dict Phantom

-- The three fields that name an exit.
pub record Exit : Type 0 where
  pub symbol : String
  pub qty : String
  pub entry_ts : String

pub data Answer : Type 0 where
  proceed skip : Answer

unfoldable pub make_key : Exit → String
make_key e = "exit:" ++ (e.symbol ++ (":" ++ (e.qty ++ (":" ++ e.entry_ts))))

abbrev pub new_row : Exit → ℕ → ExitRow
new_row e now = record {
  symbol = e.symbol;
  qty = e.qty;
  entry_ts = e.entry_ts;
  status = pending;
  created_at = now;
  updated_at = now;
}

unfoldable pub claim_exit : Exit → (now : ℕ) → Guard → Answer × Guard
claim_exit e now g = elim (lookup (make_key e) g.exit_claims) [
  | some existing ↦ (skip, g)
  | none ↦ (proceed, record g { exit_claims = insert (make_key e) (new_row e now) g.exit_claims })
]

abbrev pub set_status : ExitStatus → ℕ → ExitRow → ExitRow
set_status status now row = record row { status = status; updated_at = now }

unfoldable pub update_status : Exit → ExitStatus → (now : ℕ) → Guard → Guard
update_status e status now g = record g {
  exit_claims = update (make_key e) (set_status status now) g.exit_claims;
}

unfoldable pub set_phantom : (symbol : String) (now : ℕ) → Guard → Guard
set_phantom symbol now g = record g {
  phantom_positions =
      insert symbol (record { quarantined = true; updated_at = now }) g.phantom_positions;
}

abbrev is_quarantined : Option Phantom → Bool
is_quarantined none = false
is_quarantined (some p) = p.quarantined

unfoldable pub get_phantom : String → Guard → Bool
get_phantom symbol g = is_quarantined (lookup symbol g.phantom_positions)

unfoldable pub mark_committed : Exit → (now : ℕ) → Guard → Guard
unfolding update_status
mark_committed e now g = update_status e committed now g

unfoldable pub mark_quarantined : Exit → (now : ℕ) → Guard → Guard
unfolding update_status set_phantom
mark_quarantined e now g = set_phantom e.symbol now (update_status e quarantined now g)

-- The phantom flag is read, logged, and never blocks.
unfoldable pub is_entry_blocked : String → Guard → Bool
unfolding get_phantom
is_entry_blocked symbol g = if get_phantom symbol g then false else false

unfoldable pub clear_phantom : String → Guard → Guard
clear_phantom symbol g = record g { phantom_positions = erase symbol g.phantom_positions }
