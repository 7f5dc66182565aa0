-- ===== src/Wire/Payload.antt =====
-- `validate_payload` of protocol_v3.py.
pub mod Accepted
pub mod Steps
pub mod Declines
use backend_pagos_offline.Prelude.{
  ℕ, ◌-◌, ◌*◌, ◌^◌, String, Bool, true, false, not, ◌&&◌, ◌||◌, Option, none, some, List, [], ◌∷◌,
  ltb, leb, ◌==◌, ◌!=◌, string_eq, if◌then◌else◌,
}
use backend_pagos_offline.Prelude.Int.{ℤ, pos}
use backend_pagos_offline.Result.{
  Result, ok, err, protocol_error, key_error, type_error, raise_if, or_err, ◌>>=◌, ◌>>◌,
}
use backend_pagos_offline.Wire.Json.{Json, Fields, str, int, obj, max_int64, canonical_bytes}
use backend_pagos_offline.Wire.Library.{Library}
use backend_pagos_offline.Wire.Keys.{
  decode_text, public_key_fingerprint, decode_public_key, encode_public_key,
}
use backend_pagos_offline.Wire.Checks.{
  identifier, digest, integer, positive, uuid, nonce, parse_timestamp,
}
use backend_pagos_offline.Wire.Kinds.{
  MessageType, payment_request, offline_authorization, payment_receipt, payment_ack,
  offline_authorization_close, payment_resolution, key_registration, message_type, fields_of, find,
  get, has_exactly,
}

-- `value == t` for a text `t`
unfoldable pub is_text : String → Json → Bool
is_text t (str s) = s == t
is_text t _ = false

-- an integer that a check has found to be no less than 0
unfoldable pub number_of : Json → Result ℕ
number_of (int (pos n)) = ok n
number_of _ = err type_error

unfoldable pub number : String → Fields → Result ℕ
number name payload = do value ← get name payload; number_of value

unfoldable pub check_present : (Json → Result (Unit {0})) → Option Json → Result (Unit {0})
check_present check none = ok tt
check_present check (some value) = check value

-- `for field in names: if field in payload: check(payload[field], field)`
unfoldable pub check_each : (Json → Result (Unit {0})) → List String → Fields → Result (Unit {0})
check_each check [] payload = ok tt
check_each check (name ∷ names) payload = do
  check_present check (find name payload)
  check_each check names payload

abbrev pub id_fields : List String
id_fields =
    "authorization_id" ∷ "offline_authorization_id" ∷ "wallet_id" ∷ "merchant_id" ∷ "terminal_id"
    ∷ "wallet_key_id" ∷ "pos_key_id" ∷ "issuer_key_id" ∷ "key_id" ∷ "scope_id" ∷ "code" ∷ []

abbrev pub digest_fields : List String
digest_fields =
    "wallet_key_fingerprint" ∷ "pos_key_fingerprint" ∷ "issuer_key_fingerprint" ∷ "fingerprint"
    ∷ "request_digest" ∷ "receipt_digest" ∷ "authorization_digest" ∷ "manifest_digest" ∷ []

abbrev pub positive_fields : List String
positive_fields =
    "amount_cents" ∷ "max_payment_cents" ∷ "max_payments" ∷ "authorized_total_cents"
    ∷ "issuance_index" ∷ "resolution_revision" ∷ "owner_user_id" ∷ []

abbrev pub time_fields : List String
time_fields =
    "issued_at" ∷ "expires_at" ∷ "confirmed_at" ∷ "accepted_at" ∷ "spend_expires_at" ∷ "resolved_at"
    ∷ []

unfoldable pub check_currency : Json → Result (Unit {0})
check_currency value = raise_if (not (is_text "ARS" value)) protocol_error

abbrev pub Times : Type 0
Times = List (String × ℕ)

-- `field in times` and `times[field]`
unfoldable pub time_of : String → Times → Option ℕ
time_of name [] = none
time_of name ((k, t) ∷ rest) = if k == name then some t else time_of name rest

unfoldable pub time_at : String → Times → Result ℕ
time_at name times = or_err (time_of name times) key_error

-- `0 < (expires - issued).total_seconds() <= 120`
unfoldable pub check_lifetime : Times → Option ℕ → Result (Unit {0})
check_lifetime times none = ok tt
check_lifetime times (some expires) = do
  issued ← time_at "issued_at" times
  raise_if (not (ltb issued expires && leb (expires - issued) 120)) protocol_error

-- `issued_at <= time <= expires_at`
unfoldable pub check_window : Times → Option ℕ → Result (Unit {0})
check_window times none = ok tt
check_window times (some time) = do
  issued ← time_at "issued_at" times
  expires ← time_at "expires_at" times
  raise_if (not (leb issued time && leb time expires)) protocol_error

unfoldable pub check_times : Times → Result (Unit {0})
check_times times = do
  check_lifetime times (time_of "expires_at" times)
  check_window times (time_of "confirmed_at" times)
  check_window times (time_of "accepted_at" times)

-- the limits of a grant, and their product within a 64-bit integer
unfoldable pub check_limits : Fields → Result (Unit {0})
check_limits payload = do
  max_payment ← number "max_payment_cents" payload
  max_payments ← number "max_payments" payload
  raise_if (ltb (2 ^ 63 - 1) (max_payment * max_payments)) protocol_error
  total ← number "authorized_total_cents" payload
  raise_if (ltb (max_payment * max_payments) total) protocol_error

module _ (lib : Library) where
  unfoldable pub check_fields : Fields → Result (Unit {0})
  check_fields payload = do
    check_each (uuid lib) ("operation_id" ∷ "closure_id" ∷ []) payload
    check_each identifier id_fields payload
    check_each digest digest_fields payload
    check_each positive positive_fields payload
    check_each (integer (pos 0) max_int64) ("final_issuance_index" ∷ "emitted_total_cents" ∷ [])
        payload
    check_each check_currency ("currency" ∷ []) payload
    check_each (nonce lib) ("nonce" ∷ []) payload

  -- the instants of a payload, by name
  unfoldable pub parse_times : List String → Fields → Result Times
  parse_times [] payload = ok []
  parse_times (name ∷ names) payload = elim (find name payload) [
    | none ↦ parse_times names payload
    | some value ↦ do
      time ← parse_timestamp lib value
      rest ← parse_times names payload
      ok ((name, time) ∷ rest)
  ]

  unfoldable pub check_wallet_key : Fields → Result (Unit {0})
  check_wallet_key payload = do
    public_key ← get "wallet_public_key_b64" payload
    key ← decode_public_key lib public_key
    encoded ← encode_public_key lib key
    contents ← decode_text lib encoded
    fingerprint ← get "wallet_key_fingerprint" payload
    raise_if (not (is_text (public_key_fingerprint lib contents) fingerprint)) protocol_error

  -- what one type of message asks for besides
  unfoldable pub check_kind : MessageType → Times → Fields → Result (Unit {0})
  check_kind offline_authorization times payload = do
    spend_expires ← time_at "spend_expires_at" times
    issued ← time_at "issued_at" times
    raise_if (leb spend_expires issued) protocol_error
    lifetime ← get "max_request_lifetime_seconds" payload
    integer (pos 1) (pos 120) lifetime
    check_limits payload
    check_wallet_key payload
  check_kind payment_ack times payload = do
    status ← get "status" payload
    raise_if (not (is_text "LOCALLY_ACCEPTED" status)) protocol_error
  check_kind payment_resolution times payload = do
    status ← get "operation_status" payload
    raise_if (not (is_text "ACCEPTED" status || is_text "REJECTED" status)) protocol_error
  check_kind key_registration times payload = do
    purpose ← get "purpose" payload
    raise_if (not (is_text "wallet" purpose || is_text "pos" purpose)) protocol_error
  check_kind _ times payload = ok tt

  unfoldable pub validate_payload : Json → Result MessageType
  validate_payload (obj payload) = do
    kind ← message_type (find "type" payload)
    raise_if (not (has_exactly (fields_of kind) payload)) protocol_error
    version ← get "version" payload
    integer (pos 3) (pos 3) version
    check_fields payload
    times ← parse_times time_fields payload
    check_times times
    check_kind kind times payload
    contents ← canonical_bytes (obj payload)
    ok kind
  validate_payload _ = err protocol_error
