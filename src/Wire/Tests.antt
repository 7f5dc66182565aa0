-- ===== src/Wire/Tests.antt =====
-- The wire contract on concrete messages, over a small library.
use package.text.Mathlib.TextEquality.{eq_iff}
use backend_pagos_offline.Prelude.{
  ℕ, ◌≤◌, ◌≡◌, ◌≢◌, arith, refl, String, Bool, true, false, some, List, [], ◌∷◌, Bytes, string_eq,
  bytes_eq, codes, length, text_ltb,
}
use backend_pagos_offline.Prelude.Int.{pos}
use backend_pagos_offline.Result.{Result, ok, err, protocol_error, is_none}
use backend_pagos_offline.Wire.Json.{
  Json, Fields, str, int, obj, no_fields, member, canonical_bytes, encode_utf8, dumps, show_int,
  validate_json_value, bad_length, is_surrogate, is_encodable, in_int64, hex_digit, escape,
  escape_all, quote, digits, insert_key, sort_keys, show_members, utf8, arr, item, no_items,
}
use backend_pagos_offline.Wire.Samples.{library, digest_text}
use backend_pagos_offline.Wire.Library.{
  Library, Tree, object, pair, whole, text, closed, array, more, last,
}
use backend_pagos_offline.Wire.Kinds.{
  fields_of, message_type, has_exactly, get, find, has, has_each, only_known,
}
use backend_pagos_offline.Wire.Payload.{
  validate_payload, is_text, number_of, number, check_present, check_each, check_currency, time_of,
  time_at, check_lifetime, check_window, check_times, check_limits, check_fields, parse_times,
  check_wallet_key, check_kind,
}
use backend_pagos_offline.Wire.Envelope.{
  signed, SignedEnvelope, bytes_of, object_of, payload_digest, verify_envelope,
}
use backend_pagos_offline.Wire.Keys.{
  is_ascii, in_order, decode_text, decode_base64, public_key_fingerprint, decode_public_key,
  encode_public_key, signature_bytes, verify_with, verify_exact_signature, digest_of,
}
use backend_pagos_offline.Wire.Checks.{
  is_digit, is_alnum, is_id_char, is_hex, is_base64url, all_chars, matches_id, matches_digest, fits,
  matches_shape, matches_timestamp, matches_nonce, identifier, digest, integer, uuid,
  parse_timestamp, nonce,
}
use backend_pagos_offline.Wire.Verify.{
  is_expected, require_kind, check_authorization, verify_authorization, check_scope,
  check_pos_signer, verify_pos_signer,
}
use backend_pagos_offline.Wire.Manifest.{
  text_of, same_value, same_fields, amounts, sum, any_above, check_totals, check_entry,
  check_entries, parse_entries, parse_close_manifest, check_close_digests, instant,
  validate_close_manifest,
}
use backend_pagos_offline.Wire.Binding.{
  check_receipt_limits, check_digest, check_same, check_receipt_times, validate_receipt_binding,
  same_in_all, validate_ack_binding,
}
use backend_pagos_offline.Wire.Select.{
  bounded, read_capabilities, parse_select_capabilities, SelectCapabilities, capabilities,
}
use backend_pagos_offline.Wire.Parse.{contains, loads, parse_json, unique_pairs}
use backend_pagos_offline.Wire.Payload.Declines.{validate_payload_declines}
use backend_pagos_offline.Wire.Verify.Total.{verify_authorization_total, verify_pos_signer_total}
use backend_pagos_offline.Wire.Binding.Order.{validate_ack_binding_follows}
use backend_pagos_offline.Wire.Binding.Limits.{
  WithinLimits, WithinWindow, validate_receipt_binding_within,
}
use backend_pagos_offline.Wire.Manifest.Counts.{
  WithinGrant, Numbered, validate_close_manifest_within,
}
use backend_pagos_offline.Wire.Parse.Canonical.{parse_json_injective}
use backend_pagos_offline.Wire.Json.Same.{itself, dictionaries, swapped, canonical_bytes-Same}
use backend_pagos_offline.Wire.Select.Bounds.{parse_select_capabilities_bounds}

abbrev grant_payload : Fields
grant_payload = member "authorization_id" (str "a1") (
    member "authorized_total_cents" (int (pos 1000)) (
      member "currency" (str "ARS") (
        member "issued_at" (str "2025-01-01T00:00:01Z") (
          member "issuer_key_fingerprint" (str digest_text) (
            member "issuer_key_id" (str "i1") (
              member "max_payment_cents" (int (pos 500)) (
                member "max_payments" (int (pos 2)) (
                  member "max_request_lifetime_seconds" (int (pos 30)) (
                    member "spend_expires_at" (str "2025-01-01T00:00:59Z") (
                      member "type" (str "offline_authorization") (
                        member "version" (int (pos 3)) (
                          member "wallet_id" (str "w1") (
                            member "wallet_key_fingerprint" (str digest_text) (
                              member "wallet_key_id" (str "k1")
                                (member "wallet_public_key_b64" (str "KEY") no_fields)))))))))))))))

-- the fields that a request, a receipt and an acknowledgement share
abbrev shared : Fields → Fields
shared rest = member "amount_cents" (int (pos 400)) (
    member "currency" (str "ARS") (
      member "expires_at" (str "2025-01-01T00:00:40Z") (
        member "issued_at" (str "2025-01-01T00:00:10Z") (
          member "merchant_id" (str "m1") (
            member "nonce" (str "AAAAAAAAAAAAAAAAAAAAAA") (
              member "operation_id" (str "o1")
                (member "terminal_id" (str "t1") (member "version" (int (pos 3)) rest))))))))

abbrev request_payload : Fields
request_payload = shared (
    member "pos_key_fingerprint" (str digest_text)
      (member "pos_key_id" (str "p1") (member "type" (str "payment_request") no_fields)))

abbrev receipt_payload : Fields
receipt_payload = shared (
    member "authorization_digest" (str digest_text) (
      member "confirmed_at" (str "2025-01-01T00:00:20Z") (
        member "issuance_index" (int (pos 1)) (
          member "offline_authorization_id" (str "a1") (
            member "request_digest" (str digest_text) (
              member "type" (str "payment_receipt") (
                member "wallet_id" (str "w1") (
                  member "wallet_key_fingerprint" (str digest_text)
                    (member "wallet_key_id" (str "k1") no_fields)))))))))

abbrev envelope : Fields → SignedEnvelope
envelope payload = record {
  payload_bytes = encode_utf8 (dumps (obj payload));
  payload = payload;
  signature_b64 = str "SIG";
}

unfoldable bind : Library → SignedEnvelope → SignedEnvelope → SignedEnvelope → Result (Unit {0})
unfolding text_ltb is_surrogate is_encodable in_int64 hex_digit escape escape_all quote digits
    show_int insert_key sort_keys show_members utf8 encode_utf8 bad_length canonical_bytes
    validate_json_value dumps is_ascii in_order decode_text decode_base64 public_key_fingerprint
    decode_public_key encode_public_key signature_bytes verify_with verify_exact_signature digest_of
    is_digit is_alnum is_id_char is_hex is_base64url all_chars matches_id matches_digest fits
    matches_shape matches_timestamp matches_nonce identifier digest integer uuid parse_timestamp
    nonce message_type fields_of find get has has_each only_known has_exactly is_text number_of
    number check_present check_each check_currency time_of time_at check_lifetime check_window
    check_times check_limits check_fields parse_times check_wallet_key check_kind validate_payload
    bytes_of object_of payload_digest verify_envelope is_expected require_kind check_authorization
    verify_authorization check_scope check_pos_signer verify_pos_signer text_of same_value
    same_fields amounts sum any_above check_totals check_entry check_entries parse_entries
    parse_close_manifest check_close_digests instant validate_close_manifest check_receipt_limits
    check_digest check_same check_receipt_times validate_receipt_binding same_in_all
    validate_ack_binding bounded read_capabilities parse_select_capabilities contains loads
    parse_json unique_pairs
bind = validate_receipt_binding

receipt_bound :
    validate_receipt_binding library
      (envelope request_payload)
      (envelope receipt_payload)
      (envelope grant_payload)
    ≡ ok tt
unfolding bind
receipt_bound = refl

decodes :
    (s : String) → matches_nonce (codes s) ≡ true → is_none (library.urlsafe_b64decode s) ≡ false
decodes s h = refl

validate_receipt_binding_within_example :
    WithinLimits receipt_payload grant_payload
    × WithinWindow library receipt_payload grant_payload
    × ((key : Json) × (get "wallet_public_key_b64" grant_payload ≡ ok key)
        × (verify_envelope library (envelope receipt_payload) key ≡ true))
validate_receipt_binding_within_example =
    validate_receipt_binding_within library (envelope request_payload) (envelope receipt_payload)
      (envelope grant_payload) receipt_bound

verify_authorization_total_example :
    (answer : Bool) × (verify_authorization library (envelope grant_payload) "KEY" (some "i1")
      ≡ ok answer)
verify_authorization_total_example =
    verify_authorization_total library (envelope grant_payload) decodes "KEY" (some "i1")

verify_pos_signer_total_example :
    (answer : Bool) × (verify_pos_signer library
        (envelope request_payload)
        "KEY"
        "p1"
        digest_text
        "m1"
        "t1"
      ≡ ok answer)
verify_pos_signer_total_example =
    verify_pos_signer_total library (envelope request_payload) decodes "KEY" "p1" digest_text "m1"
      "t1"

request_signed :
    verify_pos_signer library (envelope request_payload) "KEY" "p1" digest_text "m1" "t1" ≡ ok true
unfolding bind
request_signed = refl

-- a request without its nonce
abbrev incomplete : Json
incomplete = obj (member "type" (str "payment_request") no_fields)

incomplete_refused : validate_payload library incomplete ≡ err protocol_error
unfolding bind
incomplete_refused = refl

validate_payload_declines_example : protocol_error ≡ protocol_error
validate_payload_declines_example =
    validate_payload_declines protocol_error library decodes incomplete incomplete_refused

abbrev entry : ℕ → String → Fields
entry index operation = member "amount_cents" (int (pos 400)) (
    member "issuance_index" (int (pos index))
      (member "operation_id" (str operation) (member "receipt_digest" (str digest_text) no_fields)))

abbrev manifest : List Fields
manifest = entry 1 "o1" ∷ entry 2 "o2" ∷ []

abbrev manifest_json : Json
manifest_json = arr (item (obj (entry 1 "o1")) (item (obj (entry 2 "o2")) no_items))

abbrev entry_tree : ℕ → String → Tree
entry_tree index operation = object (
    pair "amount_cents" (whole (pos 400)) (
      pair "issuance_index" (whole (pos index))
        (pair "operation_id" (text operation) (pair "receipt_digest" (text digest_text) closed))))

-- a library that reads the manifest
abbrev reader : Library
reader = record library {
  json_tree = λ contents. some (array (more (entry_tree 1 "o1") (more (entry_tree 2 "o2") last)));
}

abbrev manifest_bytes : Bytes
manifest_bytes = encode_utf8 (dumps manifest_json)

manifest_read : parse_json reader manifest_bytes ≡ ok manifest_json
unfolding bind
manifest_read = refl

parse_json_injective_example :
    (manifest_bytes ≡ manifest_bytes) × (1 ≤ length manifest_bytes) × (length manifest_bytes ≤ 4096)
parse_json_injective_example =
    parse_json_injective reader manifest_bytes manifest_bytes manifest_json manifest_json
      manifest_read manifest_read itself

-- One dictionary, filled in two orders.
abbrev forward : Json
forward = obj (member "a" (int (pos 1)) (member "b" (int (pos 2)) no_fields))

abbrev backward : Json
backward = obj (member "b" (int (pos 2)) (member "a" (int (pos 1)) no_fields))

a_ne_b : ◌≢◌ {A = String} "a" "b"
a_ne_b = ground (arith, eq_iff "a" "b")

canonical_bytes-Same_example : canonical_bytes forward ≡ canonical_bytes backward
canonical_bytes-Same_example = canonical_bytes-Same forward backward (dictionaries (swapped a_ne_b))

abbrev close_payload : Fields
close_payload = member "authorization_digest" (str digest_text) (
    member "authorization_id" (str "a1") (
      member "closure_id" (str "c1") (
        member "emitted_total_cents" (int (pos 800)) (
          member "final_issuance_index" (int (pos 2)) (
            member "issued_at" (str "2025-01-01T00:00:50Z") (
              member "manifest_digest" (str digest_text) (
                member "type" (str "offline_authorization_close") (
                  member "version" (int (pos 3)) (
                    member "wallet_id" (str "w1") (
                      member "wallet_key_fingerprint" (str digest_text)
                        (member "wallet_key_id" (str "k1") no_fields)))))))))))

closure_holds :
    validate_close_manifest reader (envelope close_payload) (envelope grant_payload) manifest_bytes
    ≡ ok manifest
unfolding bind
closure_holds = refl

validate_close_manifest_within_example :
    (parse_close_manifest reader manifest_bytes ≡ ok manifest)
    × WithinGrant close_payload grant_payload manifest
    × Numbered 1 [] manifest
validate_close_manifest_within_example =
    validate_close_manifest_within reader (envelope close_payload) (envelope grant_payload)
      manifest_bytes manifest closure_holds

abbrev device : Library
device = record library {
  json_tree = λ contents. some (
      object (
        pair "authorization_instruction" (whole (pos 80)) (
          pair "chunk_bytes" (whole (pos 160)) (
            pair "max_message_bytes" (whole (pos 4096))
              (pair "protocol_version" (whole (pos 3)) closed)))));
}

abbrev device_bytes : Bytes
device_bytes = encode_utf8 (dumps (obj (capabilities 4096 160)))

abbrev device_capabilities : SelectCapabilities
device_capabilities = record { max_bytes = 4096; chunk_bytes = 160; authorization_instruction = 80 }

device_selected : parse_select_capabilities device device_bytes ≡ ok device_capabilities
unfolding bind capabilities
device_selected = refl

parse_select_capabilities_bounds_example :
    (device_capabilities.max_bytes ≡ 4096)
    × (1 ≤ device_capabilities.chunk_bytes)
    × (device_capabilities.chunk_bytes ≤ 160)
    × (device_capabilities.authorization_instruction ≡ 0x50)
parse_select_capabilities_bounds_example =
    parse_select_capabilities_bounds device device_bytes device_capabilities device_selected

abbrev ack_payload : Fields
ack_payload = member "accepted_at" (str "2025-01-01T00:00:30Z") (
    shared (
      member "offline_authorization_id" (str "a1") (
        member "pos_key_fingerprint" (str digest_text) (
          member "pos_key_id" (str "p1") (
            member "receipt_digest" (str digest_text) (
              member "status" (str "LOCALLY_ACCEPTED")
                (member "type" (str "payment_ack") (member "wallet_id" (str "w1") no_fields))))))))

ack_bound :
    validate_ack_binding library
      (envelope request_payload)
      (envelope receipt_payload)
      (envelope ack_payload)
    ≡ ok tt
unfolding bind
ack_bound = refl

validate_ack_binding_follows_example :
    ((confirmed : ℕ) × (accepted : ℕ) × (instant library "confirmed_at" receipt_payload
        ≡ ok confirmed)
      × (instant library "accepted_at" ack_payload ≡ ok accepted)
      × (confirmed ≤ accepted))
    × ((digest : String) × (named : Json) × (payload_digest library
            (signed (envelope receipt_payload))
          ≡ ok digest)
        × (get "receipt_digest" ack_payload ≡ ok named)
        × (is_text digest named ≡ true))
validate_ack_binding_follows_example =
    validate_ack_binding_follows library (envelope request_payload) (envelope receipt_payload)
      (envelope ack_payload) ack_bound
