-- ===== src/Execution/Governance.antt =====
-- The governance receipts and the anchors of `PgExecutionStore`, safeagent_exec_guard/pg_store.py.
use safe_agent.Prelude.{
  ℕ, ◌&&◌, String, Bool, true, false, Option, none, some, List, [], ◌∷◌, if◌then◌else◌, not, leb,
  is_some, take, str_eq,
}
use safe_agent.Prelude.Action.{Action}
use safe_agent.Prelude.Dict.{Dict, lookup, update}
use safe_agent.Prelude.Lists.{filter_by}
use safe_agent.Execution.Hosted.{
  Delivery, Governance, HostedError, HostedRow, HostedStore, on_gov, write,
}

-- What `attach_governance` is given.
pub record SignedReceipt : Type 0 where
  pub envelope_hash : String
  pub canonical_bytes : String
  pub signature : String
  pub verifier_pubkey : String
  pub ots_proof_hex : Option String
  pub ots_confirmed : Bool
  pub ots_block_time : Option String

abbrev pub attach_receipt : SignedReceipt → Governance → Governance
attach_receipt r gov = record gov {
  envelope_hash = some r.envelope_hash;
  canonical_bytes = some r.canonical_bytes;
  signature = some r.signature;
  verifier_pubkey = some r.verifier_pubkey;
  ots_proof_hex = r.ots_proof_hex;
  ots_confirmed = some r.ots_confirmed;
  ots_block_time = r.ots_block_time;
}

unfoldable pub attach_governance :
    Delivery → (request_id : String) → SignedReceipt → Action HostedStore HostedError (Unit {0})
unfolding write
attach_governance delivery request_id r =
    write delivery (update request_id (on_gov (attach_receipt r)))

abbrev pub is_true : Option Bool → Bool
is_true (some true) = true
is_true _ = false

-- The WHERE of `get_submitted_unconfirmed_claims`
abbrev pub is_submitted : String × HostedRow → Bool
is_submitted (request_id, row) =
    is_some row.gov.ots_proof_hex && not (is_true row.gov.ots_confirmed)

-- `ORDER BY claimed_at ASC`
unfoldable pub insert_oldest : String × HostedRow → Dict HostedRow → Dict HostedRow
insert_oldest (id, row) [] = (id, row) ∷ []
insert_oldest (id, row) ((j, other) ∷ rows) =
    let rest = insert_oldest (id, row) rows in
    if leb row.base.claimed_at other.base.claimed_at
    then (id, row) ∷ (j, other) ∷ rows
    else (j, other) ∷ rest

unfoldable pub oldest_first : Dict HostedRow → Dict HostedRow
unfolding insert_oldest
oldest_first [] = []
oldest_first (row ∷ rows) = insert_oldest row (oldest_first rows)

-- The selected columns of a claim whose proof waits for a block.
pub record Submitted : Type 0 where
  pub request_id : String
  pub envelope_hash : Option String
  pub ots_proof_hex : Option String
  pub ots_confirmed : Option Bool
  pub ots_block_time : Option String

unfoldable pub selected : Dict HostedRow → List Submitted
selected [] = []
selected ((id, row) ∷ rows) =
    record {
      request_id = id;
      envelope_hash = row.gov.envelope_hash;
      ots_proof_hex = row.gov.ots_proof_hex;
      ots_confirmed = row.gov.ots_confirmed;
      ots_block_time = row.gov.ots_block_time;
    }
    ∷ selected rows

unfoldable pub get_submitted_unconfirmed_claims : HostedStore → List Submitted
unfolding filter_by oldest_first selected
get_submitted_unconfirmed_claims store =
    selected (take 100 (oldest_first (filter_by is_submitted store.rows)))

abbrev pub confirm_receipt : String → Governance → Governance
confirm_receipt block_time gov = record gov {
  ots_confirmed = some true;
  ots_block_time = some block_time;
}

unfoldable pub confirm_governance :
    Delivery → (request_id block_time : String) → Action HostedStore HostedError (Unit {0})
unfolding write
confirm_governance delivery request_id block_time =
    write delivery (update request_id (on_gov (confirm_receipt block_time)))

-- What is anchored on the chain: the arguments of `update_anchor_mycelium`, and the dict that
-- `get_mycelium_anchor` returns.
pub record Anchor : Type 0 where
  pub trail_id : String
  pub block_time : Option ℕ
  pub tx_hash : Option String
  pub precedence : Bool

abbrev pub attach_anchor : Anchor → Governance → Governance
attach_anchor a gov = record gov {
  mycelium_trail_id = some a.trail_id;
  mycelium_block_time = a.block_time;
  mycelium_tx_hash = a.tx_hash;
  mycelium_precedence = some a.precedence;
}

unfoldable pub update_anchor_mycelium :
    Delivery → (request_id : String) → Anchor → Action HostedStore HostedError (Unit {0})
unfolding write
update_anchor_mycelium delivery request_id a =
    write delivery (update request_id (on_gov (attach_anchor a)))

-- A column that is neither NULL nor empty.
abbrev pub nonempty : Option String → Option String
nonempty none = none
nonempty (some text) = if str_eq text "" then none else some text

abbrev pub anchor_of : Governance → Option Anchor
anchor_of gov = elim (nonempty gov.mycelium_trail_id) [
  | none ↦ none
  | some trail_id ↦ some (record {
    trail_id = trail_id;
    block_time = gov.mycelium_block_time;
    tx_hash = gov.mycelium_tx_hash;
    precedence = is_true gov.mycelium_precedence;
  })
]

unfoldable pub get_mycelium_anchor : String → HostedStore → Option Anchor
get_mycelium_anchor request_id store = elim (lookup request_id store.rows) [
  | none ↦ none
  | some row ↦ anchor_of row.gov
]

-- The dict that `get_governance` returns.
pub record Governed : Type 0 where
  pub envelope_hash : String
  pub canonical_bytes : Option String
  pub signature : Option String
  pub verifier_pubkey : Option String
  pub ots_proof_hex : Option String
  pub ots_confirmed : Bool
  pub ots_block_time : Option String

abbrev pub governed_by : Governance → Option Governed
governed_by gov = elim (nonempty gov.envelope_hash) [
  | none ↦ none
  | some envelope_hash ↦ some (record {
    envelope_hash = envelope_hash;
    canonical_bytes = gov.canonical_bytes;
    signature = gov.signature;
    verifier_pubkey = gov.verifier_pubkey;
    ots_proof_hex = gov.ots_proof_hex;
    ots_confirmed = is_true gov.ots_confirmed;
    ots_block_time = gov.ots_block_time;
  })
]

unfoldable pub get_governance : String → HostedStore → Option Governed
get_governance request_id store = elim (lookup request_id store.rows) [
  | none ↦ none
  | some row ↦ governed_by row.gov
]
