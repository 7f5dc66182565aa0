-- ===== src/Wire/Binding.antt =====
-- `validate_receipt_binding` and `validate_ack_binding` of protocol_v3.py.
pub mod Limits
pub mod Order
use backend_pagos_offline.Prelude.{ℕ, ◌-◌, String, Bool, not, ◌&&◌, ◌||◌, List, [], ◌∷◌, ltb, leb}
use backend_pagos_offline.Result.{Result, ok, err, protocol_error, raise_if, or_err, ◌>>=◌, ◌>>◌}
use backend_pagos_offline.Wire.Json.{Json, Fields}
use backend_pagos_offline.Wire.Library.{Library}
use backend_pagos_offline.Wire.Kinds.{
  payment_request, offline_authorization, payment_receipt, payment_ack, common_fields, get,
}
use backend_pagos_offline.Wire.Payload.{is_text, number}
use backend_pagos_offline.Wire.Envelope.{SignedEnvelope, signed, payload_digest, verify_envelope}
use backend_pagos_offline.Wire.Verify.{require_kind}
use backend_pagos_offline.Wire.Manifest.{same_value, same_fields, instant}

-- the amount and the index of a receipt against the limits of its grant
unfoldable pub check_receipt_limits : Fields → Fields → Result (Unit {0})
check_receipt_limits receipt grant = do
  amount ← number "amount_cents" receipt
  max_payment ← number "max_payment_cents" grant
  authorized ← number "authorized_total_cents" grant
  raise_if (ltb max_payment amount || ltb authorized amount) protocol_error
  index ← number "issuance_index" receipt
  max_payments ← number "max_payments" grant
  raise_if (ltb max_payments index) protocol_error

-- a field of one message names the digest of another
unfoldable pub check_digest : Library → String → Fields → SignedEnvelope → Result (Unit {0})
check_digest lib name payload envelope = do
  named ← get name payload
  digest ← payload_digest lib (signed envelope)
  raise_if (not (is_text digest named)) protocol_error

-- two fields that must be the same
unfoldable pub check_same : String → Fields → String → Fields → Result (Unit {0})
check_same name a other b = do
  x ← get name a
  y ← get other b
  raise_if (not (same_value x y)) protocol_error

module _ (lib : Library) where
  -- the instants of a receipt within those of its grant
  unfoldable pub check_receipt_times : Fields → Fields → Result (Unit {0})
  check_receipt_times receipt grant = do
    start ← instant lib "issued_at" grant
    finish ← instant lib "spend_expires_at" grant
    issued ← instant lib "issued_at" receipt
    expires ← instant lib "expires_at" receipt
    confirmed ← instant lib "confirmed_at" receipt
    raise_if
        (not
          (leb start issued && leb issued confirmed && leb confirmed expires && leb expires finish))
        protocol_error
    lifetime ← number "max_request_lifetime_seconds" grant
    raise_if (ltb lifetime (expires - issued)) protocol_error

  unfoldable pub validate_receipt_binding :
      SignedEnvelope → SignedEnvelope → SignedEnvelope → Result (Unit {0})
  validate_receipt_binding request receipt grant = do
    require_kind lib request payment_request
    require_kind lib receipt payment_receipt
    require_kind lib grant offline_authorization
    same_fields common_fields request.payload receipt.payload
    check_digest lib "request_digest" receipt.payload request
    check_digest lib "authorization_digest" receipt.payload grant
    check_same "offline_authorization_id" receipt.payload "authorization_id" grant.payload
    same_fields ("wallet_id" ∷ "wallet_key_id" ∷ "wallet_key_fingerprint" ∷ "currency" ∷ [])
        receipt.payload grant.payload
    check_receipt_limits receipt.payload grant.payload
    check_receipt_times receipt.payload grant.payload
    wallet_key ← get "wallet_public_key_b64" grant.payload
    raise_if (not (verify_envelope lib receipt wallet_key)) protocol_error

  -- the fields that all three messages share, one by one
  unfoldable pub same_in_all : List String → Fields → Fields → Fields → Result (Unit {0})
  same_in_all [] request receipt ack = ok tt
  same_in_all (name ∷ names) request receipt ack = do
    check_same name request name receipt
    check_same name receipt name ack
    same_in_all names request receipt ack

  unfoldable pub validate_ack_binding :
      SignedEnvelope → SignedEnvelope → SignedEnvelope → Result (Unit {0})
  validate_ack_binding request receipt ack = do
    require_kind lib request payment_request
    require_kind lib receipt payment_receipt
    require_kind lib ack payment_ack
    same_in_all common_fields request.payload receipt.payload ack.payload
    same_fields ("wallet_id" ∷ "offline_authorization_id" ∷ []) receipt.payload ack.payload
    same_fields ("pos_key_id" ∷ "pos_key_fingerprint" ∷ []) request.payload ack.payload
    check_digest lib "request_digest" receipt.payload request
    check_digest lib "receipt_digest" ack.payload receipt
    accepted ← instant lib "accepted_at" ack.payload
    confirmed ← instant lib "confirmed_at" receipt.payload
    raise_if (ltb accepted confirmed) protocol_error
