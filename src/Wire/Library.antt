-- ===== src/Wire/Library.antt =====
-- What protocol_v3.py takes from the libraries: JSON texts as trees, Base64, SHA-256, UUIDs,
-- calendar dates and elliptic-curve keys.
use backend_pagos_offline.Prelude.{ℕ, String, Bool, Option, Bytes}
use backend_pagos_offline.Prelude.Int.{ℤ}

-- A JSON text as its grammar reads it, before the hooks of `json.loads` run; `number` is a literal
-- that is no integer, or NaN or an infinity.
mutual
  pub data Tree : Type 0 where
    text : String → Tree
    whole : ℤ → Tree
    number : String → Tree
    flag : Bool → Tree
    nothing : Tree
    array : Trees → Tree
    object : Pairs → Tree

  pub data Trees : Type 0 where
    last : Trees
    more : Tree → Trees → Trees

  pub data Pairs : Type 0 where
    closed : Pairs
    pair : String → Tree → Pairs → Pairs

pub record Library : Type 1 where
  -- a parsed public key, and a private one
  pub Key : Type 0
  pub PrivateKey : Type 0
  -- `data.decode("utf-8")` and the grammar of `json.loads`; none where either raises
  pub json_tree : Bytes → Option Tree
  -- `base64.b64decode(value, validate=True)`, none where it raises, and `b64encode`
  pub b64decode : String → Option Bytes
  pub b64encode : Bytes → String
  -- `base64.urlsafe_b64decode(value + "==")`, and `urlsafe_b64encode` without its padding
  pub urlsafe_b64decode : String → Option Bytes
  pub urlsafe_b64encode : Bytes → String
  -- `hashlib.sha256(data).hexdigest()`
  pub sha256 : Bytes → String
  -- `UUID(value)`, as its `version` and its text
  pub parse_uuid : String → Option (Option ℕ × String)
  -- `datetime.strptime(value, "%Y-%m-%dT%H:%M:%SZ")`, in seconds from a fixed instant
  pub strptime : String → Option ℕ
  -- `strftime` of the same format, of an instant in UTC
  pub strftime : ℕ → String
  -- `load_der_public_key`, the test that the curve is P-256, and `public_bytes` as SPKI DER
  pub load_der_public_key : Bytes → Option Key
  pub is_p256 : Key → Bool
  pub public_bytes : Key → Bytes
  -- `decode_dss_signature` and `encode_dss_signature`
  pub decode_dss_signature : Bytes → Option (ℤ × ℤ)
  pub encode_dss_signature : ℤ → ℤ → Bytes
  -- `key.verify(signature, data, ECDSA(SHA256))` does not raise
  pub verify : Key → Bytes → Bytes → Bool
  pub is_p256_private : PrivateKey → Bool
  -- `private_key.sign(data, ECDSA(SHA256))`
  pub sign : PrivateKey → Bytes → Bytes
