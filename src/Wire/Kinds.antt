-- ===== src/Wire/Kinds.antt =====
-- `MessageType` and the fields of each type of message (protocol_v3.py), and the lookup of a field.
pub mod Lookup
use backend_pagos_offline.Prelude.{
  String, Bool, true, false, ◌&&◌, ◌||◌, Option, none, some, List, [], ◌∷◌, ◌++◌, ◌==◌, string_eq,
  if◌then◌else◌,
}
use backend_pagos_offline.Result.{Result, ok, err, protocol_error, key_error, or_err}
use backend_pagos_offline.Wire.Json.{Json, Fields, str, no_fields, member}
use backend_pagos_offline.Wire.Parse.{contains}

pub data MessageType : Type 0 where
  payment_request offline_authorization payment_receipt payment_ack : MessageType
  offline_authorization_close payment_resolution key_registration : MessageType

-- `MessageType(payload.get("type"))`
unfoldable pub message_type : Option Json → Result MessageType
message_type (some (str t)) =
    if t == "payment_request"
    then ok payment_request
    else if t == "offline_authorization"
    then ok offline_authorization
    else if t == "payment_receipt"
    then ok payment_receipt
    else if t == "payment_ack"
    then ok payment_ack
    else if t == "offline_authorization_close"
    then ok offline_authorization_close
    else if t == "payment_resolution"
    then ok payment_resolution
    else if t == "key_registration"
    then ok key_registration
    else err protocol_error
message_type _ = err protocol_error

-- `COMMON_FIELDS - {"type"}`
abbrev pub common_fields : List String
common_fields =
    "version" ∷ "operation_id" ∷ "merchant_id" ∷ "terminal_id" ∷ "amount_cents" ∷ "currency"
    ∷ "nonce" ∷ "issued_at" ∷ "expires_at" ∷ []

abbrev pub manifest_fields : List String
manifest_fields = "issuance_index" ∷ "operation_id" ∷ "amount_cents" ∷ "receipt_digest" ∷ []

-- `FIELDS`
unfoldable pub fields_of : MessageType → List String
fields_of payment_request = "type" ∷ common_fields ++ "pos_key_id" ∷ "pos_key_fingerprint" ∷ []
fields_of offline_authorization =
    "version" ∷ "type" ∷ "authorization_id" ∷ "wallet_id" ∷ "wallet_key_id"
    ∷ "wallet_key_fingerprint" ∷ "wallet_public_key_b64" ∷ "currency" ∷ "max_payment_cents"
    ∷ "max_payments" ∷ "authorized_total_cents" ∷ "max_request_lifetime_seconds" ∷ "issued_at"
    ∷ "spend_expires_at" ∷ "issuer_key_id" ∷ "issuer_key_fingerprint" ∷ []
fields_of payment_receipt =
    "type" ∷ common_fields
    ++ "wallet_id" ∷ "offline_authorization_id" ∷ "wallet_key_id" ∷ "wallet_key_fingerprint"
      ∷ "request_digest" ∷ "authorization_digest" ∷ "issuance_index" ∷ "confirmed_at" ∷ []
fields_of payment_ack =
    "type" ∷ common_fields
    ++ "wallet_id" ∷ "offline_authorization_id" ∷ "pos_key_id" ∷ "pos_key_fingerprint"
      ∷ "receipt_digest" ∷ "accepted_at" ∷ "status" ∷ []
fields_of offline_authorization_close =
    "version" ∷ "type" ∷ "closure_id" ∷ "authorization_id" ∷ "wallet_id" ∷ "wallet_key_id"
    ∷ "wallet_key_fingerprint" ∷ "authorization_digest" ∷ "final_issuance_index"
    ∷ "emitted_total_cents" ∷ "manifest_digest" ∷ "issued_at" ∷ []
fields_of payment_resolution =
    "version" ∷ "type" ∷ "operation_id" ∷ "wallet_id" ∷ "merchant_id" ∷ "terminal_id"
    ∷ "amount_cents" ∷ "currency" ∷ "offline_authorization_id" ∷ "authorization_digest"
    ∷ "request_digest" ∷ "receipt_digest" ∷ "operation_status" ∷ "code" ∷ "resolution_revision"
    ∷ "resolved_at" ∷ "issuer_key_id" ∷ "issuer_key_fingerprint" ∷ []
fields_of key_registration =
    "version" ∷ "type" ∷ "key_id" ∷ "purpose" ∷ "owner_user_id" ∷ "scope_id" ∷ "fingerprint"
    ∷ "nonce" ∷ "issued_at" ∷ []

-- `payload.get(name)`
unfoldable pub find : String → Fields → Option Json
find name no_fields = none
find name (member k v rest) = if k == name then some v else find name rest

-- `payload[name]`
unfoldable pub get : String → Fields → Result Json
unfolding find
get name payload = or_err (find name payload) key_error

-- `name in payload`
unfoldable pub has : String → Fields → Bool
has name no_fields = false
has name (member k v rest) = k == name || has name rest

unfoldable pub has_each : List String → Fields → Bool
unfolding has
has_each [] payload = true
has_each (name ∷ names) payload = has name payload && has_each names payload

unfoldable pub only_known : List String → Fields → Bool
unfolding contains
only_known names no_fields = true
only_known names (member k v rest) = contains k names && only_known names rest

-- `set(payload) == names`
unfoldable pub has_exactly : List String → Fields → Bool
unfolding has_each only_known
has_exactly names payload = has_each names payload && only_known names payload
