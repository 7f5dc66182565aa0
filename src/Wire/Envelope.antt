-- ===== src/Wire/Envelope.antt =====
-- `SignedEnvelope` of protocol_v3.py, with the functions that sign, encode and read one.
use backend_pagos_offline.Prelude.{String, Bool, not, List, [], ◌∷◌, Bytes}
use backend_pagos_offline.Result.{Result, ok, err, protocol_error, raise_if, ◌>>=◌, ◌>>◌}
use backend_pagos_offline.Wire.Json.{Json, Fields, str, obj, no_fields, member, canonical_bytes}
use backend_pagos_offline.Wire.Library.{Library}
use backend_pagos_offline.Wire.Parse.{parse_json}
use backend_pagos_offline.Wire.Keys.{
  decode_base64, signature_bytes, verify_exact_signature, digest_of,
}
use backend_pagos_offline.Wire.Kinds.{get, has_exactly}
use backend_pagos_offline.Wire.Payload.{validate_payload}

pub record SignedEnvelope : Type 0 where
  pub payload_bytes : Bytes
  pub payload : Fields
  pub signature_b64 : Json

-- what `payload_digest` takes
pub data Evidence : Type 0 where
  raw : Bytes → Evidence
  mapping : Fields → Evidence
  signed : SignedEnvelope → Evidence

-- the bytes of a message that is given as bytes or as a dictionary
unfoldable pub bytes_of : Evidence → Result Bytes
bytes_of (raw contents) = ok contents
bytes_of (mapping payload) = canonical_bytes (obj payload)
bytes_of (signed envelope) = ok envelope.payload_bytes

-- the dictionary that a payload is
unfoldable pub object_of : Json → Result Fields
object_of (obj payload) = ok payload
object_of _ = err protocol_error

abbrev pub envelope_fields : List String
envelope_fields = "payload_b64" ∷ "signature_b64" ∷ []

module _ (lib : Library) where
  unfoldable pub payload_digest : Evidence → Result String
  payload_digest evidence = do contents ← bytes_of evidence; digest_of lib contents

  -- `SignedEnvelope.verify`
  unfoldable pub verify_envelope : SignedEnvelope → Json → Bool
  verify_envelope envelope public_key_b64 =
      verify_exact_signature lib envelope.payload_bytes envelope.signature_b64 public_key_b64

  unfoldable pub sign_payload : Fields → lib.PrivateKey → Result String
  sign_payload payload private_key = do
    raise_if (not (lib.is_p256_private private_key)) protocol_error
    kind ← validate_payload lib (obj payload)
    contents ← canonical_bytes (obj payload)
    ok (lib.b64encode (lib.sign private_key contents))

  unfoldable pub parse_canonical_payload : Bytes → Result Fields
  parse_canonical_payload contents = do
    value ← parse_json lib contents
    kind ← validate_payload lib value
    object_of value

  -- the dictionary of an envelope
  abbrev pub envelope_of : Bytes → String → Fields
  envelope_of contents signature_b64 =
      member "payload_b64" (str (lib.b64encode contents))
        (member "signature_b64" (str signature_b64) no_fields)

  unfoldable pub encode_signed_envelope : Evidence → String → Result Bytes
  encode_signed_envelope evidence signature_b64 = do
    contents ← bytes_of evidence
    payload ← parse_canonical_payload contents
    signature ← signature_bytes lib (str signature_b64)
    canonical_bytes (obj (envelope_of contents signature_b64))

  unfoldable pub read_envelope : Fields → Result SignedEnvelope
  read_envelope envelope = do
    raise_if (not (has_exactly envelope_fields envelope)) protocol_error
    payload_b64 ← get "payload_b64" envelope
    payload_bytes ← decode_base64 lib payload_b64
    signature_b64 ← get "signature_b64" envelope
    signature ← signature_bytes lib signature_b64
    payload ← parse_canonical_payload payload_bytes
    ok (record { payload_bytes = payload_bytes; payload = payload; signature_b64 = signature_b64 })

  unfoldable pub parse_signed_envelope : Bytes → Result SignedEnvelope
  parse_signed_envelope contents = do
    value ← parse_json lib contents
    envelope ← object_of value
    read_envelope envelope
