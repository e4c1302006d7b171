-- ===== src/Execution/Workers/Interleaving.antt =====
-- Over every schedule of workers and crashes an action runs at most once.
use safe_agent.Prelude.{
  ℕ, zero, suc, ◌+◌, ◌≤◌, String, ◌≡◌, refl, Bool, true, false, none, List, [], ◌∷◌, arith,
  if◌then◌else◌, str_eq, eq_iff, is_some, All, not, Option-cases, inl, inr, Bool-cases, sym,
}
use mathlib.Core.Path.{subst}
use safe_agent.Prelude.Json.{serializable_fields}
use safe_agent.Prelude.Dict.{lookup, lookup-insert}
use safe_agent.Execution.Store.{ExecutionStore, claim, get, pending_row}
use safe_agent.Execution.Receipt.{Call, to_dict, Ending, ended, interrupted}
use safe_agent.Execution.Registry.AtMostOnce.{runs, settle-known}
use safe_agent.Execution.Workers.{
  Phase, start, checked, inserted, refused, lost, owner, crashed, ran, updated, answered, Worker,
  Shared, is_writing, after_action, advance, crash, Event, arrive, step_at, crash_at, System,
  move_worker, happen, run_schedule,
}

abbrev bit : Bool → ℕ
bit b = if b then 1 else 0

-- A worker that owns the claim of `j` has a run ahead of it.
abbrev ahead : String → Call → Phase → ℕ
ahead j call owner = bit (str_eq call.request_id j)
ahead j call _ = 0

owners : String → List Worker → ℕ
owners j [] = 0
owners j (w ∷ ws) = ahead j w.call w.phase + owners j ws

-- The workers in a write transaction.
writers : List Worker → ℕ
writers [] = 0
writers (w ∷ ws) = bit (is_writing w.phase) + writers ws

abbrev shared_potential : String → Shared → ℕ
shared_potential j s = runs j s.invoked + (if is_some (lookup j s.store.rows) then 0 else 1)

-- An INSERT that is not committed is of an id without a row.
abbrev is_fresh : ExecutionStore → Call → Phase → Bool
is_fresh store call inserted = not (is_some (lookup call.request_id store.rows))
is_fresh store call phase = true

AllFresh : ExecutionStore → List Worker → Type 0
AllFresh store ws = All (λ w. is_fresh store w.call w.phase ≡ true) ws

-- What a move of one worker keeps: the lock is held exactly while one writes, only a writer changes
-- what is committed, and no run is made out of nothing: a run was ahead of the worker, or a claim
-- was free.
record Moves (j : String) (call : Call) (p : Phase) (s : Shared) (p' : Phase) (s' : Shared)
    : Type 0 where
  lock : bit s'.locked + bit (is_writing p) ≡ bit s.locked + bit (is_writing p')
  same : is_writing p ≡ false → s'.store ≡ s.store
  fresh : is_fresh s'.store call p' ≡ true
  potential : ahead j call p' + shared_potential j s' ≤ ahead j call p + shared_potential j s

after_action-Moves :
    (j : String) (ending : Ending) (call : Call) (s : Shared)
    → Moves j call owner s
        (after_action ending call)
        (record s { invoked = call.request_id ∷ s.invoked })
unfolding runs
after_action-Moves j interrupted call s = ground arith
after_action-Moves j (ended outcome) call s = ground arith

advance-Moves :
    (j : String) (call : Call) (p : Phase) (s : Shared)
    → (is_writing p ≡ true → s.locked ≡ true)
    → is_fresh s.store call p ≡ true
    → Moves j call p s (advance call p s).0 (advance call p s).1
unfolding advance claim get
advance-Moves j call start s held fresh =
    ground (arith, Option-cases (lookup call.request_id s.store.rows))
advance-Moves j call checked s held fresh =
    ground (arith, Bool-cases s.locked, Option-cases (lookup call.request_id s.store.rows))
advance-Moves j call inserted s held fresh = ground (
  arith,
  held refl,
  fresh,
  eq_iff call.request_id j,
  lookup-insert call.request_id j (pending_row call.action none call.claim_time) s.store.rows,
)
advance-Moves j call refused s held fresh = ground (arith, held refl)
advance-Moves j call lost s held fresh = ground arith
advance-Moves j call owner s held fresh = after_action-Moves j _ call s
advance-Moves j call (ran receipt) s held fresh =
    ground (arith, Bool-cases s.locked, Bool-cases (serializable_fields (to_dict receipt)))
advance-Moves j call (updated receipt) s held fresh =
    ground
      (arith, held refl, settle-known call.request_id j (to_dict receipt) call.settle_time s.store)
advance-Moves j call (answered result) s held fresh = ground arith
advance-Moves j call crashed s held fresh = ground arith

crash-Moves :
    (j : String) (call : Call) (p : Phase) (s : Shared)
    → (is_writing p ≡ true → s.locked ≡ true)
    → is_fresh s.store call p ≡ true
    → Moves j call p s (crash p s).0 (crash p s).1
crash-Moves j call p s held fresh = ground (arith, Bool-cases (is_writing p), held)

quiet-is_fresh :
    (store : ExecutionStore) (call : Call) (p : Phase)
    → is_writing p ≡ false
    → is_fresh store call p ≡ true
quiet-is_fresh store call p h = ground (arith, h)

quiet-AllFresh : (store : ExecutionStore) (ws : List Worker) → writers ws ≡ 0 → AllFresh store ws
unfolding writers AllFresh
quiet-AllFresh store [] h = tt
quiet-AllFresh store (w ∷ ws) h = (
  quiet-is_fresh store w.call w.phase (ground (arith, h)),
  quiet-AllFresh store ws (omega (arith, h)),
)

-- The lock is held exactly while a worker of the list, or one of `n` others, writes.
record IsLocked (n : ℕ) (ws : List Worker) (s : Shared) : Type 0 where
  lock : n + writers ws ≡ bit s.locked
  fresh : AllFresh s.store ws

module _ (j : String) (move : Call → Phase → Shared → Phase × Shared)
    (good : (call : Call) (p : Phase) (s : Shared)
      → (is_writing p ≡ true → s.locked ≡ true)
      → is_fresh s.store call p ≡ true
      → Moves j call p s (move call p s).0 (move call p s).1) where
  record Moved (n : ℕ) (ws : List Worker) (s : Shared) (sys : System) : Type 0 where
    locked : IsLocked n sys.workers sys.shared
    same : writers ws ≡ 0 → sys.shared.store ≡ s.store
    potential :
        owners j sys.workers + shared_potential j sys.shared ≤ owners j ws + shared_potential j s

  move_worker-Moved :
      (n i : ℕ) (ws : List Worker) (s : Shared)
      → IsLocked n ws s
      → Moved n ws s (move_worker move i ws s)
  unfolding move_worker writers owners AllFresh
  move_worker-Moved n i [] s l = record { locked = l; same = λ h. refl; potential = omega arith }
  move_worker-Moved n zero (w ∷ ws) s l =
      let m = good w.call w.phase s (λ h. ground (arith, l.lock, h)) l.fresh.0 in
      let s' = (move w.call w.phase s).1 in
      record {
        locked = record {
          lock = omega (arith, m.lock, l.lock);
          fresh = (
            m.fresh,
            elim (Bool-cases (is_writing w.phase)) [
              | inl e ↦ quiet-AllFresh s'.store ws (ground (arith, l.lock, e))
              | inr e ↦ subst (λ store. AllFresh store ws) (sym (m.same e)) l.fresh.1
            ],
          );
        };
        same = λ h. m.same (ground (arith, h));
        potential = omega (arith, m.potential);
      }
  move_worker-Moved n (suc i) (w ∷ ws) s l =
      let k =
        move_worker-Moved (n + bit (is_writing w.phase)) i ws s
          (record { lock = omega (arith, l.lock); fresh = l.fresh.1 }) in
      record {
        locked = record {
          lock = omega (arith, k.locked.lock);
          fresh = (
            elim (Bool-cases (is_writing w.phase)) [
              | inl e ↦
                  let store = k.same (ground (arith, l.lock, e)) in
                  subst (λ t. is_fresh t w.call w.phase ≡ true) (sym store) l.fresh.0
              | inr e ↦ quiet-is_fresh (move_worker move i ws s).shared.store w.call w.phase e
            ],
            k.locked.fresh,
          );
        };
        same = λ h. k.same (omega (arith, h));
        potential = omega (arith, k.potential);
      }

happen-Moved :
    (j : String) (e : Event) (sys : System)
    → IsLocked 0 sys.workers sys.shared
    → IsLocked 0 (happen e sys).workers (happen e sys).shared
      × (owners j (happen e sys).workers + shared_potential j (happen e sys).shared
          ≤ owners j sys.workers + shared_potential j sys.shared)
unfolding happen writers owners AllFresh
happen-Moved j (arrive call) sys l =
    (record { lock = omega (arith, l.lock); fresh = (refl, l.fresh) }, omega arith)
happen-Moved j (step_at i) sys l =
    let m = move_worker-Moved j advance (advance-Moves j) 0 i sys.workers sys.shared l in
    (m.locked, m.potential)
happen-Moved j (crash_at i) sys l =
    let m = move_worker-Moved j (λ call. crash) (crash-Moves j) 0 i sys.workers sys.shared l in
    (m.locked, m.potential)

schedule-potential :
    (j : String) (es : List Event) (sys : System)
    → IsLocked 0 sys.workers sys.shared
    → owners j (run_schedule es sys).workers + shared_potential j (run_schedule es sys).shared
      ≤ owners j sys.workers + shared_potential j sys.shared
unfolding run_schedule
schedule-potential j [] sys l = omega arith
schedule-potential j (e ∷ es) sys l =
    let (next, less) = happen-Moved j e sys l in
    omega (arith, less, schedule-potential j es (happen e sys) next)

-- Workers with a connection each on one database file: however their statements, commits and
-- rollbacks interleave, and wherever workers stop, also inside a transaction: from a file that
-- nobody is writing and with no worker under way, the action of a request id runs at most once more,
-- and not at all when the id has a row from the start.
pub interleaved_at_most_once :
    (j : String) (es : List Event) (s : Shared)
    → s.locked ≡ false
    → let end_state = run_schedule es (record { workers = []; shared = s }) in
      runs j end_state.shared.invoked
      ≤ runs j s.invoked + (if is_some (lookup j s.store.rows) then 0 else 1)
unfolding owners writers AllFresh
interleaved_at_most_once j es s free = ground (
  arith,
  schedule-potential j es (record { workers = []; shared = s })
      (record { lock = ground (arith, free); fresh = tt }),
)
