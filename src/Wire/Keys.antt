-- ===== src/Wire/Keys.antt =====
-- Base64, public keys and signatures of protocol_v3.py.
use backend_pagos_offline.Prelude.{
  ℕ, ◌-◌, String, Bool, true, false, not, ◌&&◌, ◌||◌, List, [], ◌∷◌, Bytes, ltb, ◌==◌, ◌!=◌,
  string_eq, bytes_eq, codes,
}
use backend_pagos_offline.Prelude.Int.{ℤ, pos, leb_int}
use backend_pagos_offline.Result.{Result, ok, err, protocol_error, raise_if, or_err, ◌>>=◌, ◌>>◌}
use backend_pagos_offline.Wire.Json.{Json, str, bad_length}
use backend_pagos_offline.Wire.Library.{Library}

-- the order of the group of P-256
abbrev pub p256_order : ℕ
p256_order = 115792089210356248762697446949407573529996955224135760342422259061068512044369

unfoldable pub is_ascii : List ℕ → Bool
is_ascii [] = true
is_ascii (c ∷ cs) = ltb c 128 && is_ascii cs

-- The bounds of a signature's halves.
unfoldable pub in_order : ℤ → Bool
in_order r = leb_int (pos 1) r && leb_int r (pos (p256_order - 1))

module _ (lib : Library) where
  unfoldable pub decode_text : String → Result Bytes
  unfolding is_ascii
  decode_text value = do
    raise_if (value == "" || not (is_ascii (codes value))) protocol_error
    result ← or_err (lib.b64decode value) protocol_error
    raise_if (lib.b64encode result != value) protocol_error
    ok result

  unfoldable pub decode_base64 : Json → Result Bytes
  decode_base64 (str value) = decode_text value
  decode_base64 _ = err protocol_error

  unfoldable pub public_key_fingerprint : Bytes → String
  public_key_fingerprint contents = lib.sha256 contents

  unfoldable pub decode_public_key : Json → Result lib.Key
  decode_public_key public_key_b64 = do
    contents ← decode_base64 public_key_b64
    key ← or_err (lib.load_der_public_key contents) protocol_error
    raise_if (not (lib.is_p256 key)) protocol_error
    raise_if (lib.public_bytes key != contents) protocol_error
    ok key

  unfoldable pub encode_public_key : lib.Key → Result String
  encode_public_key key = do
    raise_if (not (lib.is_p256 key)) protocol_error
    ok (lib.b64encode (lib.public_bytes key))

  unfoldable pub signature_bytes : Json → Result Bytes
  unfolding in_order
  signature_bytes signature_b64 = do
    contents ← decode_base64 signature_b64
    (r, s) ← or_err (lib.decode_dss_signature contents) protocol_error
    raise_if (not (in_order r) || not (in_order s) || lib.encode_dss_signature r s != contents)
        protocol_error
    ok contents

  unfoldable pub verify_with : Bytes → Json → Json → Result Bool
  verify_with payload_bytes signature_b64 public_key_b64 = do
    key ← decode_public_key public_key_b64
    signature ← signature_bytes signature_b64
    ok (lib.verify key signature payload_bytes)

  -- `except`: any error is an invalid signature
  abbrev pub or_false : Result Bool → Bool
  or_false (ok b) = b
  or_false (err e) = false

  unfoldable pub verify_exact_signature : Bytes → Json → Json → Bool
  verify_exact_signature payload_bytes signature_b64 public_key_b64 =
      or_false (verify_with payload_bytes signature_b64 public_key_b64)

  -- `payload_digest` of the bytes of a message
  unfoldable pub digest_of : Bytes → Result String
  digest_of contents = do raise_if (bad_length contents) protocol_error; ok (lib.sha256 contents)
