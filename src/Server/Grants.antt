-- ===== src/Server/Grants.antt =====
-- What the issue of an authorization in api_v3.py works on: the request and the answer of schemas.py,
-- the payload that is signed, the rows that are added, and what is free of a balance.
use backend_pagos_offline.Prelude.{
  ℕ, ◌-◌, String, Bool, true, false, ◌||◌, Option, none, some, Bytes, ◌==◌, string_eq, nat_eq,
  option_eq,
}
use backend_pagos_offline.Result.{Result}
use backend_pagos_offline.Table.{fetch, has_row, insert}
use backend_pagos_offline.Server.Models.{
  Wallet, OfflineAuthorization, OfflineCommitment, opened, Database,
}
use backend_pagos_offline.Server.Protocol.{Issuer}
use backend_pagos_offline.Server.Reserves.{committed_cents}

-- `OfflineAuthorizationV3Request` and `OfflineAuthorizationV3Response` of schemas.py; the envelope is
-- given before its Base64
pub record AuthorizationRequest : Type 0 where
  pub request_id : String
  pub wallet_id : String
  pub wallet_key_id : String
  pub max_payment_cents : ℕ
  pub max_payments : ℕ

pub record AuthorizationResponse : Type 0 where
  pub authorization_id : String
  pub wallet_id : String
  pub authorized_total_cents : ℕ
  pub authorization_envelope : Option Bytes
  pub issued_at : ℕ
  pub spend_expires_at : ℕ

-- The payload of an authorization; its version, type, currency and request lifetime are constants.
pub record Grant : Type 0 where
  pub authorization_id : String
  pub wallet_id : String
  pub wallet_key_id : String
  pub wallet_key_fingerprint : String
  pub wallet_public_key_b64 : String
  pub max_payment_cents : ℕ
  pub max_payments : ℕ
  pub authorized_total_cents : ℕ
  pub issued_at : ℕ
  pub spend_expires_at : ℕ
  pub issuer_key_id : String
  pub issuer_key_fingerprint : String

-- What the handler takes from settings.py, the environment, issuer_keys.py and protocol_v3.py.
pub record Issuing : Type 1 where
  pub Envelope : Type 0
  pub max_payment_limit : ℕ
  pub max_payments_limit : ℕ
  pub lifetime_seconds : ℕ
  -- whether `ISSUER_KEY_PATH` and `ISSUER_KEY_FINGERPRINT` are set
  pub is_configured : Bool
  pub load_issuer : Result Issuer
  pub sign_grant : Issuer → Grant → Result Bytes
  pub parse_signed_envelope : Bytes → Result Envelope
  -- `payload.get(field)`
  pub number_field : String → Envelope → Option ℕ
  pub text_field : String → Envelope → Option String

abbrev pub of_request : String → OfflineAuthorization → Bool
of_request id r = r.issuance_request_id == some id

abbrev pub get_previous : AuthorizationRequest → Database → Option OfflineAuthorization
get_previous q db = fetch (of_request q.request_id) db.authorizations

abbrev pub authorization_row :
    AuthorizationRequest → String → String → String → ℕ → ℕ → ℕ → OfflineAuthorization
authorization_row q id wallet_id key_id total now expires = record {
  id = id;
  issuance_request_id = some q.request_id;
  wallet_id = wallet_id;
  wallet_key_id = key_id;
  max_payment_cents = q.max_payment_cents;
  remaining_amount_cents = total;
  remaining_payments = q.max_payments;
  issued_at = now;
  expires_at = expires;
  active = true;
}

abbrev pub commitment_row : String → String → ℕ → Bytes → OfflineCommitment
commitment_row id wallet_id total signed = record {
  authorization_id = id;
  wallet_id = wallet_id;
  reserved_cents = total;
  emitted_cents = 0;
  emitted_count = 0;
  held_cents = total;
  released_unissued_cents = 0;
  released_rejected_cents = 0;
  phase = opened;
  closed = false;
  closure_id = none;
  closure_envelope = none;
  closure_manifest = none;
  manifest_digest = none;
  authorization_envelope = some signed;
}

-- The two rows that an issue adds.
abbrev pub add_grant : OfflineAuthorization → OfflineCommitment → Database → Database
add_grant a k db = record db {
  authorizations = insert a db.authorizations;
  commitments = insert k db.commitments;
}

-- The keys and the constraints of the two tables, as the commit checks them.
abbrev pub grant_clash : OfflineAuthorization → Database → Bool
grant_clash a db =
    has_row (λ r. r.id == a.id || r.issuance_request_id == a.issuance_request_id) db.authorizations
    || has_row (λ r. r.authorization_id == a.id) db.commitments
    || a.max_payment_cents == 0

abbrev pub available_cents : Wallet → Database → ℕ
available_cents wallet db = wallet.confirmed_balance_cents - committed_cents wallet.id db
