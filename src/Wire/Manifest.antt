-- ===== src/Wire/Manifest.antt =====
-- `parse_close_manifest` and `validate_close_manifest` of protocol_v3.py.
pub mod Counts
use backend_pagos_offline.Prelude.{
  ℕ, suc, ◌+◌, String, Bool, true, false, not, ◌&&◌, ◌||◌, List, [], ◌∷◌, Bytes, ltb, length, ◌==◌,
  ◌!=◌, nat_eq, string_eq,
}
use backend_pagos_offline.Result.{
  Result, ok, err, protocol_error, type_error, raise_if, or_err, ◌>>=◌, ◌>>◌,
}
use backend_pagos_offline.Wire.Json.{
  Json, Items, Fields, str, int, arr, obj, no_items, item, no_fields, member,
}
use backend_pagos_offline.Prelude.Int.{ℤ, leb_int}
use backend_pagos_offline.Wire.Library.{Library}
use backend_pagos_offline.Wire.Parse.{contains, parse_json}
use backend_pagos_offline.Wire.Checks.{digest, positive, uuid, parse_timestamp}
use backend_pagos_offline.Wire.Kinds.{
  offline_authorization, offline_authorization_close, manifest_fields, get, has_exactly,
}
use backend_pagos_offline.Wire.Payload.{is_text, number}
use backend_pagos_offline.Wire.Envelope.{
  SignedEnvelope, raw, signed, object_of, payload_digest, verify_envelope,
}
use backend_pagos_offline.Wire.Verify.{require_kind}

-- a text that a check has found to be one
unfoldable pub text_of : Json → Result String
text_of (str t) = ok t
text_of _ = err type_error

-- `==` on the fields that two messages share, which are texts and integers
unfoldable pub same_value : Json → Json → Bool
same_value (str s) (str t) = s == t
same_value (int i) (int j) = leb_int i j && leb_int j i
same_value _ _ = false

-- `for field in names: if a[field] != b[field]: raise`
unfoldable pub same_fields : List String → Fields → Fields → Result (Unit {0})
same_fields [] a b = ok tt
same_fields (name ∷ names) a b = do
  x ← get name a
  y ← get name b
  raise_if (not (same_value x y)) protocol_error
  same_fields names a b

-- `amount_cents` of each entry
unfoldable pub amounts : List Fields → Result (List ℕ)
amounts [] = ok []
amounts (entry ∷ rest) = do
  amount ← number "amount_cents" entry
  others ← amounts rest
  ok (amount ∷ others)

unfoldable pub sum : List ℕ → ℕ
sum [] = 0
sum (amount ∷ rest) = amount + sum rest

-- `any(entry["amount_cents"] > bound for entry in manifest)`
unfoldable pub any_above : ℕ → List ℕ → Bool
any_above bound [] = false
any_above bound (amount ∷ rest) = ltb bound amount || any_above bound rest

-- the totals of a closure against its manifest and its grant
unfoldable pub check_totals : Fields → Fields → List Fields → Result (Unit {0})
check_totals close grant manifest = do
  cents ← amounts manifest
  final_index ← number "final_issuance_index" close
  max_payments ← number "max_payments" grant
  emitted ← number "emitted_total_cents" close
  authorized ← number "authorized_total_cents" grant
  max_payment ← number "max_payment_cents" grant
  raise_if
      (length manifest != final_index
        || ltb max_payments (length manifest)
        || sum cents != emitted
        || ltb authorized (sum cents)
        || any_above max_payment cents)
      protocol_error

module _ (lib : Library) where
  -- one entry, at its place after the operations seen; the operation that it names
  unfoldable pub check_entry : ℕ → List String → Fields → Result String
  check_entry index seen entry = do
    raise_if (not (has_exactly manifest_fields entry)) protocol_error
    issuance_index ← get "issuance_index" entry
    positive issuance_index
    number_at ← number "issuance_index" entry
    raise_if (number_at != index) protocol_error
    operation ← get "operation_id" entry
    uuid lib operation
    operation_id ← text_of operation
    raise_if (contains operation_id seen) protocol_error
    amount ← get "amount_cents" entry
    positive amount
    receipt_digest ← get "receipt_digest" entry
    digest receipt_digest
    ok operation_id

  unfoldable pub check_entries : ℕ → List String → Items → Result (List Fields)
  check_entries index seen no_items = ok []
  check_entries index seen (item value rest) = do
    entry ← object_of value
    operation_id ← check_entry index seen entry
    others ← check_entries (suc index) (operation_id ∷ seen) rest
    ok (entry ∷ others)

  unfoldable pub parse_entries : Json → Result (List Fields)
  parse_entries (arr entries) = check_entries 1 [] entries
  parse_entries _ = err protocol_error

  unfoldable pub parse_close_manifest : Bytes → Result (List Fields)
  parse_close_manifest contents = do value ← parse_json lib contents; parse_entries value

  -- the digests that a closure names
  unfoldable pub check_close_digests : SignedEnvelope → SignedEnvelope → Bytes → Result (Unit {0})
  check_close_digests close grant manifest_bytes = do
    authorization_digest ← get "authorization_digest" close.payload
    grant_digest ← payload_digest lib (signed grant)
    raise_if (not (is_text grant_digest authorization_digest)) protocol_error
    manifest_digest ← get "manifest_digest" close.payload
    bytes_digest ← payload_digest lib (raw manifest_bytes)
    raise_if (not (is_text bytes_digest manifest_digest)) protocol_error

  -- `parse_timestamp(payload[name])`
  unfoldable pub instant : String → Fields → Result ℕ
  instant name payload = do value ← get name payload; parse_timestamp lib value

  unfoldable pub validate_close_manifest :
      SignedEnvelope → SignedEnvelope → Bytes → Result (List Fields)
  validate_close_manifest close grant manifest_bytes = do
    require_kind lib close offline_authorization_close
    require_kind lib grant offline_authorization
    same_fields ("authorization_id" ∷ "wallet_id" ∷ "wallet_key_id" ∷ "wallet_key_fingerprint" ∷ [])
        close.payload grant.payload
    check_close_digests close grant manifest_bytes
    manifest ← parse_close_manifest manifest_bytes
    check_totals close.payload grant.payload manifest
    closed_at ← instant "issued_at" close.payload
    issued_at ← instant "issued_at" grant.payload
    raise_if (ltb closed_at issued_at) protocol_error
    wallet_key ← get "wallet_public_key_b64" grant.payload
    raise_if (not (verify_envelope lib close wallet_key)) protocol_error
    ok manifest
