-- ===== src/Wire/Verify/Total.antt =====
-- The two signature checks answer on every envelope, and what a true answer has found.
use backend_pagos_offline.Prelude.{
  ◌≡◌, refl, inl, inr, String, Bool, true, false, Option, arith, codes, ◌||◌, bytes_beq_iff,
}
use backend_pagos_offline.Result.{
  Error, Result, ok, err, protocol_error, is_none, Result-cases, passes, ◌>>◌,
}
use backend_pagos_offline.Wire.Json.{obj, canonical_bytes}
use backend_pagos_offline.Wire.Library.{Library}
use backend_pagos_offline.Wire.Parse.{contains}
use backend_pagos_offline.Wire.Checks.{matches_nonce}
use backend_pagos_offline.Wire.Kinds.{
  MessageType, payment_request, offline_authorization, payment_ack, fields_of, get, has_exactly,
}
use backend_pagos_offline.Wire.Kinds.Lookup.{find-has_exactly}
use backend_pagos_offline.Wire.Payload.{validate_payload}
use backend_pagos_offline.Wire.Payload.Accepted.{validate_payload-Accepted}
use backend_pagos_offline.Wire.Payload.Declines.{validate_payload_declines}
use backend_pagos_offline.Wire.Declines.{
  bind_declines, canonical_bytes_declines, decode_text_declines,
}
use backend_pagos_offline.Wire.Envelope.{SignedEnvelope}
use backend_pagos_offline.Wire.Verify.{
  is_kind, pos_only, require_kind, check_authorization, verify_authorization, check_scope,
  check_pos_signer, verify_pos_signer,
}

is_kind→eq : (a b : MessageType) → is_kind a b ≡ true → a ≡ b
is_kind→eq a b h = ground arith

module _ (lib : Library) (envelope : SignedEnvelope) where
  pub require_kind_valid :
      (kind : MessageType)
      → require_kind lib envelope kind ≡ ok tt
      → validate_payload lib (obj envelope.payload) ≡ ok kind
  unfolding require_kind
  require_kind_valid kind h = elim (Result-cases (validate_payload lib (obj envelope.payload))) [
    | inl (found, valid) ↦ ground (arith, is_kind→eq found kind)
    | inr (e, failed) ↦ absurd (ground arith)
  ]

  pub require_kind_exact :
      (kind : MessageType)
      → require_kind lib envelope kind ≡ ok tt
      → has_exactly (fields_of kind) envelope.payload ≡ true
  require_kind_exact kind h =
      (validate_payload-Accepted lib envelope.payload kind (require_kind_valid kind h)).1.complete

  -- the payload and the bytes that were signed are the same message
  pub require_kind_bytes :
      (kind : MessageType)
      → require_kind lib envelope kind ≡ ok tt
      → canonical_bytes (obj envelope.payload) ≡ ok envelope.payload_bytes
  unfolding require_kind
  require_kind_bytes kind h =
      let (written, e) =
        passes (canonical_bytes (obj envelope.payload)) (λ x failed. ground arith) in
      ground (arith, bytes_beq_iff written envelope.payload_bytes)

  module _
      (decodes : (s : String)
        → matches_nonce (codes s) ≡ true
        → is_none (lib.urlsafe_b64decode s) ≡ false) where
    pub require_kind_declines :
        (e : Error) (kind : MessageType)
        → require_kind lib envelope kind ≡ err e
        → e ≡ protocol_error
    unfolding require_kind
    require_kind_declines e kind h = ground (
      arith,
      validate_payload_declines e lib decodes (obj envelope.payload),
      canonical_bytes_declines e (obj envelope.payload),
    )

    check_authorization_declines :
        (e : Error) (key : String) (expected : Option String)
        → check_authorization lib envelope key expected ≡ err e
        → e ≡ protocol_error
    unfolding check_authorization get fields_of contains
    check_authorization_declines e key expected h =
        elim (Result-cases (require_kind lib envelope offline_authorization)) [
          | inr (x, failed) ↦ ground (arith, require_kind_declines e offline_authorization)
          | inl (_, valid) ↦
              let exact = require_kind_exact offline_authorization valid in
              ground (
                arith,
                decode_text_declines e lib key,
                find-has_exactly "issuer_key_fingerprint" _ envelope.payload exact,
                find-has_exactly "issuer_key_id" _ envelope.payload exact,
              )
        ]

    -- `verify_authorization` answers on every envelope, whatever its payload holds, provided the
    -- decoder of nonces accepts each text of 22 letters of its alphabet.
    pub verify_authorization_total :
        (key : String) (expected : Option String)
        → (answer : Bool) × (verify_authorization lib envelope key expected ≡ ok answer)
    unfolding verify_authorization
    verify_authorization_total key expected =
        elim (Result-cases (check_authorization lib envelope key expected)) [
          | inl (answer, done) ↦ (answer, ground arith)
          | inr (e, failed) ↦
              (false, ground (arith, check_authorization_declines e key expected failed))
        ]

    check_scope_declines :
        (e : Error) (kind : MessageType) (key key_id fingerprint merchant terminal : String)
        → (is_kind kind payment_request || is_kind kind payment_ack) ≡ true
        → require_kind lib envelope kind ≡ ok tt
        → check_scope lib envelope key key_id fingerprint merchant terminal ≡ err e
        → e ≡ protocol_error
    unfolding check_scope get fields_of contains
    check_scope_declines e kind key key_id fingerprint merchant terminal k valid h =
        let exact = require_kind_exact kind valid in
        let found = λ (n : String). find-has_exactly n (fields_of kind) envelope.payload exact in
        ground (
          arith,
          decode_text_declines e lib key,
          found "pos_key_id",
          found "pos_key_fingerprint",
          found "merchant_id",
          found "terminal_id",
        )

    check_pos_signer_declines :
        (e : Error) (key key_id fingerprint merchant terminal : String)
        → check_pos_signer lib envelope key key_id fingerprint merchant terminal ≡ err e
        → e ≡ protocol_error
    unfolding check_pos_signer
    check_pos_signer_declines e key key_id fingerprint merchant terminal =
        bind_declines e (validate_payload lib (obj envelope.payload))
          (λ kind. pos_only kind (scoped kind))
          (validate_payload_declines e lib decodes (obj envelope.payload)) (λ kind. only kind)
      where
        scoped : MessageType → Result Bool
        scoped kind = do
          require_kind lib envelope kind
          check_scope lib envelope key key_id fingerprint merchant terminal

        scoped_declines :
            (kind : MessageType)
            → (is_kind kind payment_request || is_kind kind payment_ack) ≡ true
            → scoped kind ≡ err e
            → e ≡ protocol_error
        scoped_declines kind pos_kind g = elim (Result-cases (require_kind lib envelope kind)) [
          | inr (x, failed) ↦ ground (arith, require_kind_declines e kind)
          | inl (_, valid) ↦ ground (
            arith,
            check_scope_declines e kind key key_id fingerprint merchant terminal pos_kind valid,
          )
        ]

        only : (kind : MessageType) → pos_only kind (scoped kind) ≡ err e → e ≡ protocol_error
        only payment_request g = scoped_declines payment_request refl g
        only payment_ack g = scoped_declines payment_ack refl g
        only _ g = cc

    -- `verify_pos_signer` answers on every envelope, whatever its payload holds, provided the decoder
    -- of nonces accepts each text of 22 letters of its alphabet.
    pub verify_pos_signer_total :
        (key key_id fingerprint merchant terminal : String)
        → (answer : Bool) × (verify_pos_signer lib envelope key key_id fingerprint merchant terminal
            ≡ ok answer)
    unfolding verify_pos_signer
    verify_pos_signer_total key key_id fingerprint merchant terminal =
        elim (Result-cases
          (check_pos_signer lib envelope key key_id fingerprint merchant terminal)) [
            | inl (answer, done) ↦ (answer, ground arith)
            | inr (e, failed) ↦ (
              false,
              ground (
                arith,
                check_pos_signer_declines e key key_id fingerprint merchant terminal failed,
              ),
            )
          ]
