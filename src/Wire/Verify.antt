-- ===== src/Wire/Verify.antt =====
-- `_require_kind`, `verify_authorization` and `verify_pos_signer` of protocol_v3.py.
pub mod Total
use backend_pagos_offline.Prelude.{
  ℕ, String, Bool, true, false, not, ◌&&◌, ◌||◌, Option, none, some, Bytes, ◌==◌, ◌!=◌, nat_eq,
  string_eq, bytes_eq,
}
use backend_pagos_offline.Result.{Result, ok, err, protocol_error, raise_if, or_err, ◌>>=◌, ◌>>◌}
use backend_pagos_offline.Wire.Json.{Json, Fields, str, obj, canonical_bytes}
use backend_pagos_offline.Wire.Library.{Library}
use backend_pagos_offline.Wire.Keys.{decode_text, public_key_fingerprint}
use backend_pagos_offline.Wire.Kinds.{
  MessageType, payment_request, offline_authorization, payment_receipt, payment_ack,
  offline_authorization_close, payment_resolution, key_registration, get,
}
use backend_pagos_offline.Wire.Payload.{is_text, validate_payload}
use backend_pagos_offline.Wire.Envelope.{SignedEnvelope, verify_envelope}

abbrev pub ordinal : MessageType → ℕ
ordinal payment_request = 0
ordinal offline_authorization = 1
ordinal payment_receipt = 2
ordinal payment_ack = 3
ordinal offline_authorization_close = 4
ordinal payment_resolution = 5
ordinal key_registration = 6

-- `is` on members of the enumeration
abbrev pub is_kind : MessageType → MessageType → Bool
is_kind a b = ordinal a == ordinal b

-- `except ProtocolError: return False`
abbrev pub false_on_decline : Result Bool → Result Bool
false_on_decline (err protocol_error) = ok false
false_on_decline answer = answer

unfoldable pub is_expected : Option String → Json → Bool
unfolding is_text
is_expected none key_id = true
is_expected (some expected) key_id = is_text expected key_id

-- `if kind not in (PAYMENT_REQUEST, PAYMENT_ACK): return False`
abbrev pub pos_only : MessageType → Result Bool → Result Bool
pos_only payment_request rest = rest
pos_only payment_ack rest = rest
pos_only _ rest = ok false

module _ (lib : Library) where
  unfoldable pub require_kind : SignedEnvelope → MessageType → Result (Unit {0})
  require_kind envelope kind = do
    found ← validate_payload lib (obj envelope.payload)
    raise_if (not (is_kind found kind)) protocol_error
    written ← canonical_bytes (obj envelope.payload)
    raise_if (written != envelope.payload_bytes) protocol_error

  -- the body of the `try`
  unfoldable pub check_authorization : SignedEnvelope → String → Option String → Result Bool
  check_authorization grant issuer_public_b64 expected_issuer_key_id = do
    require_kind grant offline_authorization
    issuer_public ← decode_text lib issuer_public_b64
    fingerprint ← get "issuer_key_fingerprint" grant.payload
    key_id ← get "issuer_key_id" grant.payload
    ok (
        is_text (public_key_fingerprint lib issuer_public) fingerprint
        && is_expected expected_issuer_key_id key_id
        && verify_envelope lib grant (str issuer_public_b64))

  unfoldable pub verify_authorization : SignedEnvelope → String → Option String → Result Bool
  verify_authorization grant issuer_public_b64 expected_issuer_key_id =
      false_on_decline (check_authorization grant issuer_public_b64 expected_issuer_key_id)

  -- the comparisons of a request or an acknowledgement with the catalog
  unfoldable pub check_scope :
      SignedEnvelope → String → String → String → String → String → Result Bool
  check_scope envelope public_key_b64 key_id fingerprint merchant_id terminal_id = do
    pos_key_id ← get "pos_key_id" envelope.payload
    pos_key_fingerprint ← get "pos_key_fingerprint" envelope.payload
    public_key ← decode_text lib public_key_b64
    merchant ← get "merchant_id" envelope.payload
    terminal ← get "terminal_id" envelope.payload
    ok (
        is_text key_id pos_key_id
        && is_text fingerprint pos_key_fingerprint
        && public_key_fingerprint lib public_key == fingerprint
        && is_text merchant_id merchant
        && is_text terminal_id terminal
        && verify_envelope lib envelope (str public_key_b64))

  unfoldable pub check_pos_signer :
      SignedEnvelope → String → String → String → String → String → Result Bool
  check_pos_signer envelope public_key_b64 key_id fingerprint merchant_id terminal_id = do
    kind ← validate_payload lib (obj envelope.payload)
    pos_only kind do
      require_kind envelope kind
      check_scope envelope public_key_b64 key_id fingerprint merchant_id terminal_id

  unfoldable pub verify_pos_signer :
      SignedEnvelope → String → String → String → String → String → Result Bool
  verify_pos_signer envelope public_key_b64 key_id fingerprint merchant_id terminal_id =
      false_on_decline
        (check_pos_signer envelope public_key_b64 key_id fingerprint merchant_id terminal_id)
