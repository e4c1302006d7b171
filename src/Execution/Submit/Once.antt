-- ===== src/Execution/Submit/Once.antt =====
-- A case is settled once, whatever request ids it is submitted under.
use safe_agent.Prelude.{
  ◌||◌, ◌∙◌, ℕ, String, ◌≡◌, ◌≢◌, refl, false, Option, none, some, List, [], ◌∷◌, arith,
  if◌then◌else◌, str_eq, eq_iff, is_some,
}
use safe_agent.Prelude.Action.{Result, ok, err}
use safe_agent.Prelude.Dict.{lookup, insert, lookup-insert}
use safe_agent.Prelude.Text.{is_blank}
use safe_agent.Settlement.Models.{Case, settled, final, Fault}
use safe_agent.Settlement.Gate.{attempt_settlement}
use safe_agent.Execution.Submit.{SettlementRequestResult, Desk, submit}

-- The case has an id that is not empty exactly when it is settled.
pub record IsPaid (sid : String) (case : Case) : Type 0 where
  pub nonempty : sid ≢ ""
  pub paid : case.settlement_id ≡ some sid
  pub state : case.state ≡ settled

-- All that is remembered about a settled case is its id.
pub record IsFiled (sid : String) (desk : Desk) : Type 0 where
  pub paid : IsPaid sid desk.case
  pub filed : (i t : String) → lookup i desk.registry.settlement_requests ≡ some t → t ≡ sid

-- The settlement id of an answer that says `ok`.
abbrev pub granted : Result Fault SettlementRequestResult → Option String
granted (ok answer) = if answer.ok then answer.settlement_id else none
granted (err fault) = none

-- One submission, with the `uuid4` and the clock reading that it would use.
pub record Submission : Type 0 where
  pub request_id : String
  pub fresh_id : String
  pub now : ℕ

abbrev pub submit_one : Submission → Desk → Result Fault SettlementRequestResult × Desk
submit_one s desk = submit s.request_id s.fresh_id s.now desk

pub submit_all : List Submission → Desk → Desk
submit_all [] desk = desk
submit_all (s ∷ ss) desk = submit_all ss (submit_one s desk).1

-- Each submission is granted `sid`, but one with a blank request id nothing.
abbrev pub AllGranted : String → List Submission → Desk → Type 0
AllGranted sid [] desk = Unit
AllGranted sid (s ∷ ss) desk =
    (granted (submit_one s desk).0 ≡ (if is_blank s.request_id then none else some sid))
    × AllGranted sid ss (submit_one s desk).1

submit-case :
    (sid : String) (s : Submission) (desk : Desk)
    → IsPaid sid desk.case
    → (submit_one s desk).1.case ≡ desk.case
unfolding submit
submit-case sid s desk h = ground (arith, eq_iff sid "")

submit-granted :
    (sid : String) (s : Submission) (desk : Desk) (o : Option String)
    → IsFiled sid desk
    → lookup s.request_id desk.registry.settlement_requests ≡ o
    → granted (submit_one s desk).0 ≡ (if is_blank s.request_id then none else some sid)
unfolding submit
submit-granted sid s desk none h l = ground (arith, eq_iff sid "", h.paid)
submit-granted sid s desk (some t) h l = ground (arith, h.filed s.request_id t)

submit-requests :
    (sid : String) (s : Submission) (desk : Desk) (i : String)
    → IsPaid sid desk.case
    → lookup i (submit_one s desk).1.registry.settlement_requests ≡ (
        if is_some (lookup s.request_id desk.registry.settlement_requests) || is_blank s.request_id
        then lookup i desk.registry.settlement_requests
        else if str_eq s.request_id i
        then some sid
        else lookup i desk.registry.settlement_requests)
unfolding submit
submit-requests sid s desk i h = ground (
  arith,
  eq_iff sid "",
  eq_iff s.request_id i,
  lookup-insert s.request_id i sid desk.registry.settlement_requests,
)

submit-IsFiled :
    (sid : String) (s : Submission) (desk : Desk)
    → IsFiled sid desk
    → IsFiled sid (submit_one s desk).1
submit-IsFiled sid s desk h = record {
  paid = rw (submit-case sid s desk h.paid) h.paid;
  filed = λ i t e. ground (arith, submit-requests sid s desk i h.paid, h.filed i t);
}

AllGranted-filed :
    (sid : String) (ss : List Submission) (desk : Desk)
    → IsFiled sid desk
    → AllGranted sid ss desk × ((submit_all ss desk).case ≡ desk.case)
unfolding submit_all
AllGranted-filed sid [] desk h = (tt, refl)
AllGranted-filed sid (s ∷ ss) desk h =
    let rest = AllGranted-filed sid ss (submit_one s desk).1 (submit-IsFiled sid s desk h) in
    ((submit-granted sid s desk _ h refl, rest.0), rest.1 ∙ submit-case sid s desk h.paid)

submit-first :
    (s : Submission) (desk : Desk)
    → desk.registry.settlement_requests ≡ []
    → desk.case.state ≡ final
    → desk.case.settlement_id ≡ none
    → is_blank s.request_id ≡ false
    → s.fresh_id ≢ ""
    → (granted (submit_one s desk).0 ≡ some s.fresh_id)
      × ((submit_one s desk).1.case ≡ record desk.case {
        state = settled;
        settlement_id = some s.fresh_id;
        settled_at = some s.now;
      })
      × ((submit_one s desk).1.registry.settlement_requests ≡ (s.request_id, s.fresh_id) ∷ [])
unfolding submit insert attempt_settlement lookup
submit-first s desk e f n b ne = ground arith

-- A FINAL case in an empty registry: the first submission with a request id that is not blank
-- settles it; every later one, under the same id or another, is granted that settlement id, and the
-- case never changes again.
pub submit_settles_once :
    (first : Submission) (rest : List Submission) (desk : Desk)
    → desk.registry.settlement_requests ≡ []
    → desk.case.state ≡ final
    → desk.case.settlement_id ≡ none
    → is_blank first.request_id ≡ false
    → first.fresh_id ≢ ""
    → (granted (submit_one first desk).0 ≡ some first.fresh_id)
      × AllGranted first.fresh_id rest (submit_one first desk).1
      × ((submit_all rest (submit_one first desk).1).case ≡ record desk.case {
        state = settled;
        settlement_id = some first.fresh_id;
        settled_at = some first.now;
      })
unfolding lookup
submit_settles_once first rest desk e f n b ne =
    let (g, c, q) = submit-first first desk e f n b ne in
    let filed : IsFiled first.fresh_id (submit_one first desk).1 = record {
      paid = record { nonempty = ne; paid = rw c; state = rw c };
      filed = λ i t l. ground (arith, rw q at l);
    } in
    let (all, kept) = AllGranted-filed first.fresh_id rest (submit_one first desk).1 filed in
    (g, all, kept ∙ c)
