-- ===== src/Wire/Payload/Declines.antt =====
-- `validate_payload` raises no error but `ProtocolError`: the fields that it reads are there, once
-- the type of the message is known.
use backend_pagos_offline.Prelude.{
  ◌≡◌, refl, inl, inr, String, true, false, not, List, [], ◌∷◌, arith, codes, Option-cases,
  Bool-cases,
}
use backend_pagos_offline.Prelude.Int.{pos}
use backend_pagos_offline.Result.{Error, ok, err, protocol_error, is_none, Result-cases}
use backend_pagos_offline.Wire.Json.{Json, Fields, obj, max_int64}
use backend_pagos_offline.Wire.Library.{Library}
use backend_pagos_offline.Wire.Parse.{contains}
use backend_pagos_offline.Wire.Checks.{
  identifier, digest, integer, positive, uuid, nonce, matches_nonce,
}
use backend_pagos_offline.Wire.Kinds.{
  MessageType, payment_request, offline_authorization, payment_receipt, payment_ack,
  offline_authorization_close, payment_resolution, key_registration, message_type, fields_of, find,
  get, has_exactly,
}
use backend_pagos_offline.Wire.Kinds.Lookup.{find-has_exactly}
use backend_pagos_offline.Wire.Payload.{
  check_each, check_currency, check_fields, check_times, check_kind, parse_times, Times, time_of,
  time_at, time_fields, positive_fields, id_fields, digest_fields, validate_payload,
}
use backend_pagos_offline.Wire.Payload.Accepted.{time_of-parse_times}
use backend_pagos_offline.Wire.Declines.{
  canonical_bytes_declines, identifier_declines, digest_declines, integer_declines, uuid_declines,
  nonce_declines,
}
use backend_pagos_offline.Wire.Payload.Steps.{
  message_type_declines, check_each_declines, seven_declines, check_times_declines,
  check_currency_declines, parse_times_declines, check_wallet_key_declines, check_limits_declines,
  windows_complete, version_field,
}

module _ (e : Error) where
  module _ (lib : Library) where
    time_of_known :
        (n : String) (names : List String) (payload : Fields) (times : Times)
        → has_exactly names payload ≡ true
        → parse_times lib time_fields payload ≡ ok times
        → contains n time_fields ≡ true
        → is_none (time_of n times) ≡ not (contains n names)
    time_of_known n names payload times exact parsed c = ground (
      arith,
      find-has_exactly n names payload exact,
      time_of-parse_times lib n time_fields payload times parsed,
    )

    check_kind_declines :
        (kind : MessageType) (times : Times) (payload : Fields)
        → has_exactly (fields_of kind) payload ≡ true
        → check_fields lib payload ≡ ok tt
        → parse_times lib time_fields payload ≡ ok times
        → check_kind lib kind times payload ≡ err e
        → e ≡ protocol_error
    unfolding check_kind get fields_of contains time_at
    check_kind_declines offline_authorization times payload exact checked parsed h =
        elim (Option-cases (find "max_request_lifetime_seconds" payload)) [
          | inl absent ↦ absurd (
              ground (
                arith,
                find-has_exactly "max_request_lifetime_seconds" (fields_of offline_authorization)
                    payload exact,
              ))
          | inr (v, found) ↦
              let names = fields_of offline_authorization in
              ground (
                arith,
                time_of_known "spend_expires_at" names payload times exact parsed refl,
                time_of_known "issued_at" names payload times exact parsed refl,
                integer_declines e (pos 1) (pos 120) v,
                check_limits_declines e lib names payload exact checked refl refl refl,
                check_wallet_key_declines e lib payload
                    (find-has_exactly "wallet_public_key_b64" names payload exact)
                    (find-has_exactly "wallet_key_fingerprint" names payload exact),
              )
        ]
    check_kind_declines payment_ack times payload exact checked parsed h =
        ground (arith, find-has_exactly "status" (fields_of payment_ack) payload exact)
    check_kind_declines payment_resolution times payload exact checked parsed h =
        ground
          (arith, find-has_exactly "operation_status" (fields_of payment_resolution) payload exact)
    check_kind_declines key_registration times payload exact checked parsed h =
        ground (arith, find-has_exactly "purpose" (fields_of key_registration) payload exact)
    check_kind_declines payment_request times payload exact checked parsed h = cc
    check_kind_declines payment_receipt times payload exact checked parsed h = cc
    check_kind_declines offline_authorization_close times payload exact checked parsed h = cc

    times_declines :
        (kind : MessageType) (times : Times) (payload : Fields)
        → has_exactly (fields_of kind) payload ≡ true
        → parse_times lib time_fields payload ≡ ok times
        → check_times times ≡ err e
        → e ≡ protocol_error
    unfolding contains
    times_declines kind times payload exact parsed h =
        let names = fields_of kind in
        let issued = time_of_known "issued_at" names payload times exact parsed refl in
        let expires = time_of_known "expires_at" names payload times exact parsed refl in
        let confirmed = time_of_known "confirmed_at" names payload times exact parsed refl in
        let accepted = time_of_known "accepted_at" names payload times exact parsed refl in
        let (i, c, a) = windows_complete kind in
        check_times_declines e times (λ p. ground arith) (λ p. ground arith) (λ p. ground arith) h

    module _
        (decodes : (s : String)
          → matches_nonce (codes s) ≡ true
          → is_none (lib.urlsafe_b64decode s) ≡ false) where
      check_fields_declines :
          (payload : Fields) → check_fields lib payload ≡ err e → e ≡ protocol_error
      unfolding check_fields
      check_fields_declines payload =
          seven_declines e (check_each (uuid lib) ("operation_id" ∷ "closure_id" ∷ []) payload)
            (check_each identifier id_fields payload) (check_each digest digest_fields payload)
            (check_each positive positive_fields payload)
            (check_each (integer (pos 0) max_int64)
              ("final_issuance_index" ∷ "emitted_total_cents" ∷ []) payload)
            (check_each check_currency ("currency" ∷ []) payload)
            (check_each (nonce lib) ("nonce" ∷ []) payload)
            (check_each_declines e _ _ payload (uuid_declines e lib))
            (check_each_declines e _ _ payload (identifier_declines e))
            (check_each_declines e _ _ payload (digest_declines e))
            (check_each_declines e _ _ payload (integer_declines e (pos 1) max_int64))
            (check_each_declines e _ _ payload (integer_declines e (pos 0) max_int64))
            (check_each_declines e _ _ payload (check_currency_declines e))
            (check_each_declines e _ _ payload (nonce_declines e lib decodes))

      fields_decline :
          (payload : Fields) (kind : MessageType)
          → message_type (find "type" payload) ≡ ok kind
          → has_exactly (fields_of kind) payload ≡ true
          → validate_payload lib (obj payload) ≡ err e
          → e ≡ protocol_error
      unfolding validate_payload get contains fields_of
      fields_decline payload kind typed exact h = elim (Option-cases (find "version" payload)) [
        | inl absent ↦ absurd (
            ground (
              arith,
              find-has_exactly "version" (fields_of kind) payload exact,
              version_field kind,
            ))
        | inr (v, found) ↦ elim (Result-cases (parse_times lib time_fields payload)) [
          | inr (x, failed) ↦ ground (
            arith,
            integer_declines e (pos 3) (pos 3) v,
            check_fields_declines payload,
            parse_times_declines e lib time_fields payload,
          )
          | inl (times, parsed) ↦ ground (
            arith,
            integer_declines e (pos 3) (pos 3) v,
            check_fields_declines payload,
            times_declines kind times payload exact parsed,
            check_kind_declines kind times payload exact,
            canonical_bytes_declines e (obj payload),
          )
        ]
      ]

      -- Whatever the payload is, `validate_payload` returns its type or raises `ProtocolError`,
      -- provided the decoder of nonces accepts each text of 22 letters of its alphabet.
      pub validate_payload_declines :
          (payload : Json) → validate_payload lib payload ≡ err e → e ≡ protocol_error
      unfolding validate_payload get
      validate_payload_declines (obj payload) h =
          elim (Result-cases (message_type (find "type" payload))) [
            | inr (x, failed) ↦ ground (arith, message_type_declines e (find "type" payload))
            | inl (kind, typed) ↦ elim (Bool-cases (has_exactly (fields_of kind) payload)) [
              | inr strange ↦ ground arith
              | inl exact ↦ fields_decline payload kind typed exact h
            ]
          ]
      validate_payload_declines _ h = cc
