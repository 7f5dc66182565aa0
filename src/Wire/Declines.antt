-- ===== src/Wire/Declines.antt =====
-- The checks on values, keys and single fields raise no error but `ProtocolError`.
use backend_pagos_offline.Prelude.{◌≡◌, String, true, false, List, ◌∷◌, Bytes, codes, arith}
use backend_pagos_offline.Prelude.Int.{ℤ}
use backend_pagos_offline.Result.{Error, Result, ok, err, protocol_error, raise_if, is_none, ◌>>=◌}
use backend_pagos_offline.Wire.Json.{
  Json, Items, Fields, str, int, arr, obj, bool, null, float, no_items, item, no_fields, member,
  validate_json_value, validate_items, validate_members, canonical_bytes,
}
use backend_pagos_offline.Wire.Library.{
  Library, Tree, Trees, Pairs, text, whole, number, flag, nothing, array, object, last, more,
  closed, pair,
}
use backend_pagos_offline.Wire.Parse.{unique_pairs, loads, loads_items, loads_pairs, parse_json}
use backend_pagos_offline.Wire.Keys.{
  decode_text, decode_base64, decode_public_key, encode_public_key, signature_bytes, digest_of,
}
use backend_pagos_offline.Wire.Checks.{
  identifier, digest, integer, uuid, nonce, parse_timestamp, matches_nonce,
}

module _ (e : Error) where
  -- one step of a chain of calls
  pub bind_declines {ℓ κ} :
      {A : Type ℓ} {B : Type κ} (r : Result A) (f : A → Result B)
      → (r ≡ err e → e ≡ protocol_error)
      → ((a : A) → f a ≡ err e → e ≡ protocol_error)
      → (r >>= f) ≡ err e
      → e ≡ protocol_error
  bind_declines (ok a) f p q h = q a h
  bind_declines (err x) f p q h = p (cc)

  mutual
    unfolding validate_json_value

    validate_json_value_declines : (v : Json) → validate_json_value v ≡ err e → e ≡ protocol_error
    validate_json_value_declines (str s) h = ground arith
    validate_json_value_declines (int i) h = ground arith
    validate_json_value_declines (arr xs) h = validate_items_declines xs h
    validate_json_value_declines (obj fs) h = validate_members_declines fs h
    validate_json_value_declines (bool b) h = cc
    validate_json_value_declines null h = cc
    validate_json_value_declines (float f) h = cc

    validate_items_declines : (xs : Items) → validate_items xs ≡ err e → e ≡ protocol_error
    validate_items_declines no_items h = cc
    validate_items_declines (item x xs) h =
        bind_declines (validate_json_value x) (λ _. validate_items xs)
          (validate_json_value_declines x) (λ _. validate_items_declines xs) h

    validate_members_declines : (fs : Fields) → validate_members fs ≡ err e → e ≡ protocol_error
    validate_members_declines no_fields h = cc
    validate_members_declines (member k v fs) h =
        bind_declines (raise_if _ protocol_error)
          (λ _. validate_json_value v >>= λ _. validate_members fs) (λ g. ground arith)
          (λ _.
            bind_declines (validate_json_value v) (λ _. validate_members fs)
              (validate_json_value_declines v) (λ _. validate_members_declines fs))
          h

  pub canonical_bytes_declines : (v : Json) → canonical_bytes v ≡ err e → e ≡ protocol_error
  unfolding canonical_bytes
  canonical_bytes_declines v h = ground (arith, validate_json_value_declines v)

  unique_pairs_declines :
      (seen : List String) (fs : Fields) → unique_pairs seen fs ≡ err e → e ≡ protocol_error
  unfolding unique_pairs
  unique_pairs_declines seen no_fields h = cc
  unique_pairs_declines seen (member k v rest) h =
      ground (arith, unique_pairs_declines (k ∷ seen) rest)

  mutual
    unfolding loads

    loads_declines : (t : Tree) → loads t ≡ err e → e ≡ protocol_error
    loads_declines (text s) h = cc
    loads_declines (whole i) h = cc
    loads_declines (number s) h = cc
    loads_declines (flag b) h = cc
    loads_declines nothing h = cc
    loads_declines (array ts) h = ground (arith, loads_items_declines ts)
    loads_declines (object ps) h = grind (arith, loads_pairs_declines ps, unique_pairs_declines)

    loads_items_declines : (ts : Trees) → loads_items ts ≡ err e → e ≡ protocol_error
    loads_items_declines last h = cc
    loads_items_declines (more t ts) h = ground (arith, loads_declines t, loads_items_declines ts)

    loads_pairs_declines : (ps : Pairs) → loads_pairs ps ≡ err e → e ≡ protocol_error
    loads_pairs_declines closed h = cc
    loads_pairs_declines (pair k t ps) h = ground (arith, loads_declines t, loads_pairs_declines ps)

  pub identifier_declines : (v : Json) → identifier v ≡ err e → e ≡ protocol_error
  unfolding identifier
  identifier_declines v h = ground arith

  pub digest_declines : (v : Json) → digest v ≡ err e → e ≡ protocol_error
  unfolding digest
  digest_declines v h = ground arith

  pub integer_declines :
      (minimum maximum : ℤ) (v : Json) → integer minimum maximum v ≡ err e → e ≡ protocol_error
  unfolding integer
  integer_declines minimum maximum v h = ground arith

  module _ (lib : Library) where
    pub parse_json_declines :
        (contents : Bytes) → parse_json lib contents ≡ err e → e ≡ protocol_error
    unfolding parse_json
    parse_json_declines contents h = grind (arith, loads_declines, canonical_bytes_declines)

    pub decode_text_declines : (value : String) → decode_text lib value ≡ err e → e ≡ protocol_error
    unfolding decode_text
    decode_text_declines value h = ground arith

    pub decode_base64_declines : (v : Json) → decode_base64 lib v ≡ err e → e ≡ protocol_error
    unfolding decode_base64
    decode_base64_declines v h = grind (arith, decode_text_declines)

    pub decode_public_key_declines :
        (v : Json) → decode_public_key lib v ≡ err e → e ≡ protocol_error
    unfolding decode_public_key
    decode_public_key_declines v h = ground (arith, decode_base64_declines v)

    pub encode_public_key_declines :
        (key : lib.Key) → encode_public_key lib key ≡ err e → e ≡ protocol_error
    unfolding encode_public_key
    encode_public_key_declines key h = ground arith

    pub signature_bytes_declines : (v : Json) → signature_bytes lib v ≡ err e → e ≡ protocol_error
    unfolding signature_bytes
    signature_bytes_declines v h = ground (arith, decode_base64_declines v)

    pub digest_of_declines :
        (contents : Bytes) → digest_of lib contents ≡ err e → e ≡ protocol_error
    unfolding digest_of
    digest_of_declines contents h = ground arith

    pub uuid_declines : (v : Json) → uuid lib v ≡ err e → e ≡ protocol_error
    unfolding uuid
    uuid_declines v h = ground arith

    pub parse_timestamp_declines : (v : Json) → parse_timestamp lib v ≡ err e → e ≡ protocol_error
    unfolding parse_timestamp
    parse_timestamp_declines v h = ground arith

    -- where the decoder accepts each text of the right shape
    pub nonce_declines :
        ((s : String) → matches_nonce (codes s) ≡ true → is_none (lib.urlsafe_b64decode s) ≡ false)
        → (v : Json) → nonce lib v ≡ err e
        → e ≡ protocol_error
    unfolding nonce
    nonce_declines decodes v h = grind (arith, decodes)
