-- ===== src/Boundary/Permit.antt =====
-- Permits and their authority: `ActionRequest`, `PermitClaims`, `PermitAuthority.issue` and
-- `verify_permit` of safeagent_exec_guard/boundary.py. Bytes are texts, times are numbers of seconds.
use safe_agent.Prelude.{
  ◌≡◌, refl, ℕ, ◌+◌, String, Bool, true, false, not, Option, none, some, ◌||◌, str_eq, ◌==◌, ltb,
  if◌then◌else◌,
}
use Prim.Native.String.{◌++◌}
use safe_agent.Prelude.Action.{Result, ok, err}
use safe_agent.Prelude.Text.{is_blank, char_count, count_dots, split_dot}
use safe_agent.Prelude.Json.{Value, int, str, Fields, end, field, obj, get_field}

pub record ActionRequest : Type 0 where
  pub principal : String
  pub run_id : String
  pub action : String
  pub target : String
  pub payload : Value

-- `__post_init__` lets no blank field through.
unfoldable pub is_valid_request : ActionRequest → Bool
is_valid_request request = not (
    is_blank request.principal
    || is_blank request.run_id
    || is_blank request.action
    || is_blank request.target)

pub record PermitClaims : Type 0 where
  pub permit_id : String
  pub issuer : String
  pub principal : String
  pub run_id : String
  pub action : String
  pub target : String
  pub payload_sha256 : String
  pub issued_at : ℕ
  pub expires_at : ℕ
  pub allowed_uses : ℕ
  pub version : String

-- What the module takes from `rfc8785`, `cryptography`, `hashlib`, `base64` and `json`. `none` is an
-- exception. `verify key signature text` decodes the key and the signature too, and is false
-- wherever that or the check raises.
pub record Provider : Type 0 where
  pub dumps : Value → Option String
  pub loads : String → Option Value
  pub sha256 : String → String
  pub b64u : String → String
  pub unb64u : String → Option String
  pub sign : (private_key message : String) → String
  pub public_key : (private_key : String) → String
  pub verify : (public_key_hex signature message : String) → Bool

-- `BoundaryError`, `PermitDenied` with its reason, `ValueError`, and what an executor raises that is
-- no `Exception`: `KeyboardInterrupt`, `SystemExit`, `CancelledError`
pub data Fault : Type 0 where
  permit_denied : (reason : String) → Fault
  boundary_error : (reason : String) → Fault
  value_error : Fault
  interruption : Fault

-- `asdict(claims)`, in the order of its keys that the canonical form has
unfoldable pub claims_dict : PermitClaims → Value
claims_dict c = obj (
    field "action" (str c.action) (
      field "allowed_uses" (int c.allowed_uses) (
        field "expires_at" (int c.expires_at) (
          field "issued_at" (int c.issued_at) (
            field "issuer" (str c.issuer) (
              field "payload_sha256" (str c.payload_sha256) (
                field "permit_id" (str c.permit_id) (
                  field "principal" (str c.principal) (
                    field "run_id" (str c.run_id)
                      (field "target" (str c.target) (field "version" (str c.version) end)))))))))))

abbrev text_of : Option Value → Option String
text_of (some (str s)) = some s
text_of _ = none

abbrev number_of : Option Value → Option ℕ
number_of (some (int n)) = some n
number_of _ = none

infixl 5 ◌>>=◌
abbrev ◌>>=◌ : {A B : Type 0} → Option A → (A → Option B) → Option B
none >>= f = none
some a >>= f = f a

abbrev number_or : ℕ → Option Value → Option ℕ
number_or default none = some default
number_or default (some v) = number_of (some v)

abbrev text_or : String → Option Value → Option String
text_or default none = some default
text_or default (some v) = text_of (some v)

abbrev is_name : String → Bool
is_name k =
    str_eq k "permit_id"
    || str_eq k "issuer"
    || str_eq k "principal"
    || str_eq k "run_id"
    || str_eq k "action"
    || str_eq k "target"
    || str_eq k "payload_sha256"
    || str_eq k "issued_at"
    || str_eq k "expires_at"
    || str_eq k "allowed_uses"
    || str_eq k "version"

only_names : Fields → Bool
only_names end = true
only_names (field k v fs) = if is_name k then only_names fs else false

-- `PermitClaims(**raw)`: every field but the last two must be there, and no other. A value of
-- another type than the field's annotation, which the authority never signs, is refused here.
pub claims_from_fields : Fields → Option PermitClaims
unfolding only_names
claims_from_fields fs = if not (only_names fs) then none else do
  permit_id ← text_of (get_field "permit_id" fs)
  issuer ← text_of (get_field "issuer" fs)
  principal ← text_of (get_field "principal" fs)
  run_id ← text_of (get_field "run_id" fs)
  action ← text_of (get_field "action" fs)
  target ← text_of (get_field "target" fs)
  payload_sha256 ← text_of (get_field "payload_sha256" fs)
  issued_at ← number_of (get_field "issued_at" fs)
  expires_at ← number_of (get_field "expires_at" fs)
  allowed_uses ← number_or 1 (get_field "allowed_uses" fs)
  version ← text_or "safeagent-permit-v1" (get_field "version" fs)
  some (record {
    permit_id = permit_id;
    issuer = issuer;
    principal = principal;
    run_id = run_id;
    action = action;
    target = target;
    payload_sha256 = payload_sha256;
    issued_at = issued_at;
    expires_at = expires_at;
    allowed_uses = allowed_uses;
    version = version;
  })

unfoldable pub claims_from : Value → Option PermitClaims
unfolding claims_from_fields
claims_from (obj fs) = claims_from_fields fs
claims_from _ = none

-- What is read back from claims is those claims.
pub claims_from-claims_dict : (c : PermitClaims) → claims_from (claims_dict c) ≡ some c
unfolding claims_from claims_dict get_field
claims_from-claims_dict c = refl

-- The claims that `issue` signs.
abbrev pub issued_claims :
    (issuer : String)
    → ActionRequest
    → (digest : String) (ttl now : ℕ) (permit_id : String) → PermitClaims
issued_claims issuer request digest ttl now permit_id = record {
  permit_id = permit_id;
  issuer = issuer;
  principal = request.principal;
  run_id = request.run_id;
  action = request.action;
  target = request.target;
  payload_sha256 = digest;
  issued_at = now;
  expires_at = now + ttl;
  allowed_uses = 1;
  version = "safeagent-permit-v1";
}

module _ (p : Provider) where
  abbrev pub payload_digest : Value → Option String
  payload_digest payload = elim (p.dumps payload) [ none ↦ none | some text ↦ some (p.sha256 text) ]

  abbrev or_value_error : {A : Type 0} → Option A → Result Fault A
  or_value_error none = err value_error
  or_value_error (some a) = ok a

  -- f"{encoded}.{signature}"
  abbrev pub signed_token : (private_key text : String) → String
  signed_token private_key text = p.b64u text ++ ("." ++ p.b64u (p.sign private_key (p.b64u text)))

  abbrev issue_claims : (private_key : String) → PermitClaims → Result Fault String
  issue_claims private_key claims = elim (p.dumps (claims_dict claims)) [
    | none ↦ err value_error
    | some text ↦ ok (signed_token private_key text)
  ]

  -- `permit_id` is the one that the caller gives or else the `uuid4`.
  unfoldable pub issue :
      (private_key issuer : String)
      → ActionRequest
      → (ttl allowed_uses now : ℕ) (permit_id : String) → Result Fault String
  unfolding claims_dict
  issue private_key issuer request ttl allowed_uses now permit_id =
      if ttl == 0
      then err value_error
      else if not (allowed_uses == 1)
      then err value_error
      else elim (payload_digest request.payload) [
        | none ↦ err value_error
        | some digest ↦
            issue_claims private_key (issued_claims issuer request digest ttl now permit_id)
      ]

  abbrev bad_token : Result Fault PermitClaims
  bad_token = err (permit_denied "invalid_permit_signature_or_encoding")

  abbrev decode_claims : String → Option PermitClaims
  decode_claims encoded = do text ← p.unb64u encoded; raw ← p.loads text; claims_from raw

  abbrev check_version : Option PermitClaims → Result Fault PermitClaims
  check_version none = bad_token
  check_version (some claims) =
      if str_eq claims.version "safeagent-permit-v1"
      then ok claims
      else err (permit_denied "unsupported_permit_version")

  unfoldable pub verify_permit : (token public_key_hex : String) → Result Fault PermitClaims
  unfolding claims_from
  verify_permit token public_key_hex =
      if ltb 16384 (char_count token) || not (count_dots token == 1)
      then bad_token
      else (let (encoded, signature) = split_dot token in
          if p.verify public_key_hex signature encoded
          then check_version (decode_claims encoded)
          else bad_token)
