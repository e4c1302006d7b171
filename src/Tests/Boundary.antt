-- ===== src/Tests/Boundary.antt =====
-- The permit boundary, with toy functions for JSON, hashing, encoding and signatures.
use safe_agent.Prelude.{
  if◌then◌else◌, ◌≤◌, String, ◌≡◌, refl, false, Option, some, [], ◌∷◌, arith, str_eq,
}
use safe_agent.Prelude.Action.{ok, err, is_ok}
use safe_agent.Prelude.Dict.{lookup}
use safe_agent.Prelude.Text.{char_count, count_dots, split_dot}
use safe_agent.Prelude.Json.{Value, int, obj, get_field}
use safe_agent.Boundary.Permit.{
  ActionRequest, PermitClaims, Provider, permit_denied, claims_dict, issued_claims, signed_token,
  issue, verify_permit,
}
use safe_agent.Boundary.Ledger.{settled, consume}
use safe_agent.Boundary.Gateway.{Effect, returned, Boundary, authorize, dispatch}
use safe_agent.Boundary.Gateway.Binding.{IsLawful, IsBound, authorize_sound, issued_permit_window}
use safe_agent.Boundary.Gateway.AtMostOnce.{
  Attempt, calls_for, dispatch_all, permit_executes_at_most_once,
}
use safe_agent.Boundary.Gateway.Outcomes.{
  decided, status_of, dispatch_ends_terminal, dispatch_fails_closed,
}

abbrev request : ActionRequest
request = record {
  principal = "agent";
  run_id = "run";
  action = "pay";
  target = "acct";
  payload = int 5;
}

abbrev claims : PermitClaims
claims = issued_claims "safeagent" request "#payload" 60 100 "p1"

abbrev text_of : Value → Option String
text_of (obj fields) = some "claims"
text_of _ = some "payload"

abbrev toy : Provider
toy = record {
  dumps = text_of;
  loads = λ text. some (claims_dict claims);
  sha256 = λ text. if str_eq text "payload" then "#payload" else "#other";
  b64u = λ text. text;
  unb64u = λ text. some text;
  sign = λ private_key message. private_key;
  public_key = λ private_key. private_key;
  verify = λ public_key signature message. str_eq public_key signature;
}

abbrev token : String
token = signed_token toy "key" "claims"

abbrev paying : ActionRequest → Effect
paying r = returned (int 1)

abbrev empty : Boundary
empty = record { ledger = record { permits = []; events = [] }; executed = [] }

abbrev attempt : Attempt
attempt = record { token = token; request = request; executor = paying; now = 120 }

bound : IsBound toy claims request 120
bound = record {
  principal = refl;
  run_id = refl;
  action = refl;
  target = refl;
  payload = refl;
  begun = ground arith;
  unexpired = ground arith;
}

lawful : IsLawful toy "key" "claims" claims
unfolding count_dots
lawful = record {
  reads_back = refl;
  decodes = refl;
  dotless = refl;
  dotless_signature = refl;
  verifies = refl;
}

issued_permit_window_example :
    (issue toy "key" "safeagent" request 60 1 100 "p1" ≡ ok token)
    × (authorize toy "key" token request 160 ≡ err (permit_denied "permit_expired"))
unfolding claims_dict char_count
issued_permit_window_example =
    issued_permit_window toy "key" "safeagent" request 60 100 160 "p1" "#payload" "claims" lawful
      (ground arith) refl refl (ground arith)

authorize_sound_example :
    (verify_permit toy token "key" ≡ ok claims) × IsBound toy claims request 120
unfolding authorize verify_permit char_count count_dots split_dot claims_dict get_field
authorize_sound_example = authorize_sound toy "key" token request 120 claims refl

permit_executes_at_most_once_example :
    calls_for "p1" (dispatch_all toy "key" (attempt ∷ attempt ∷ []) empty).executed ≤ 1
unfolding calls_for lookup
permit_executes_at_most_once_example =
    permit_executes_at_most_once toy "key" (attempt ∷ attempt ∷ []) empty "p1"

dispatch_ends_terminal_example :
    let (answer, b) = dispatch toy "key" token request paying 120 empty in
    (b.executed ≡ "p1" ∷ [])
    × (decided answer ≡ some settled)
    × (status_of "p1" b.ledger ≡ some settled)
unfolding authorize verify_permit char_count count_dots split_dot claims_dict get_field consume
    lookup
dispatch_ends_terminal_example =
    dispatch_ends_terminal toy "key" token request paying 120 empty claims "claims" refl refl refl

dispatch_fails_closed_example :
    (is_ok (dispatch toy "other" token request paying 120 empty).0 ≡ false)
    × ((dispatch toy "other" token request paying 120 empty).1 ≡ empty)
unfolding authorize verify_permit char_count count_dots split_dot
dispatch_fails_closed_example =
    dispatch_fails_closed toy "other" token request paying 120 empty refl
