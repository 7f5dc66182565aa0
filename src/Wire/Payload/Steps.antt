-- ===== src/Wire/Payload/Steps.antt =====
-- The parts of `validate_payload` raise no error but `ProtocolError`.
use backend_pagos_offline.Prelude.{
  ◌≡◌, refl, String, true, false, Option, none, some, List, [], ◌∷◌, arith,
}
use backend_pagos_offline.Result.{Error, Result, ok, err, protocol_error, is_none, ◌>>◌}
use backend_pagos_offline.Wire.Json.{Json, Fields}
use backend_pagos_offline.Wire.Library.{Library}
use backend_pagos_offline.Wire.Parse.{contains}
use backend_pagos_offline.Wire.Kinds.{MessageType, message_type, fields_of, find, get, has_exactly}
use backend_pagos_offline.Wire.Payload.{
  check_present, check_each, check_currency, check_fields, check_times, check_lifetime,
  check_window, check_limits, check_wallet_key, parse_times, Times, time_of, time_at,
}
use backend_pagos_offline.Wire.Payload.Accepted.{number_checked}
use backend_pagos_offline.Wire.Declines.{
  bind_declines, decode_text_declines, decode_public_key_declines, encode_public_key_declines,
  parse_timestamp_declines,
}

-- a type of message with a time limit has the instants around it
pub windows_complete :
    (kind : MessageType)
    → (contains "expires_at" (fields_of kind) ≡ true → contains "issued_at" (fields_of kind) ≡ true)
      × (contains "confirmed_at" (fields_of kind) ≡ true
          → contains "expires_at" (fields_of kind) ≡ true)
      × (contains "accepted_at" (fields_of kind) ≡ true
          → contains "expires_at" (fields_of kind) ≡ true)
unfolding fields_of contains
windows_complete kind = ground arith

pub version_field : (kind : MessageType) → contains "version" (fields_of kind) ≡ true
unfolding fields_of contains
version_field kind = ground arith

module _ (e : Error) where
  pub message_type_declines : (t : Option Json) → message_type t ≡ err e → e ≡ protocol_error
  unfolding message_type
  message_type_declines t h = ground arith

  pub check_present_declines :
      (check : Json → Result (Unit {0})) (o : Option Json)
      → ((v : Json) → check v ≡ err e → e ≡ protocol_error)
      → check_present check o ≡ err e
      → e ≡ protocol_error
  unfolding check_present
  check_present_declines check none d h = cc
  check_present_declines check (some v) d h = d v h

  pub check_currency_declines : (v : Json) → check_currency v ≡ err e → e ≡ protocol_error
  unfolding check_currency
  check_currency_declines v h = ground arith

  pub check_each_declines :
      (check : Json → Result (Unit {0})) (names : List String) (payload : Fields)
      → ((v : Json) → check v ≡ err e → e ≡ protocol_error)
      → check_each check names payload ≡ err e
      → e ≡ protocol_error
  unfolding check_each
  check_each_declines check [] payload d h = cc
  check_each_declines check (name ∷ names) payload d h =
      bind_declines e (check_present check (find name payload))
        (λ _. check_each check names payload) (check_present_declines check (find name payload) d)
        (λ _. check_each_declines check names payload d) h

  pub seven_declines :
      (a b c d f g k : Result (Unit {0}))
      → (a ≡ err e → e ≡ protocol_error)
      → (b ≡ err e → e ≡ protocol_error)
      → (c ≡ err e → e ≡ protocol_error)
      → (d ≡ err e → e ≡ protocol_error)
      → (f ≡ err e → e ≡ protocol_error)
      → (g ≡ err e → e ≡ protocol_error)
      → (k ≡ err e → e ≡ protocol_error)
      → (do a; b; c; d; f; g; k) ≡ err e
      → e ≡ protocol_error
  seven_declines a b c d f g k p q r s t u v h = ground arith

  pub check_times_declines :
      (times : Times)
      → (is_none (time_of "expires_at" times) ≡ false → is_none (time_of "issued_at" times) ≡ false)
      → (is_none (time_of "confirmed_at" times) ≡ false
          → is_none (time_of "expires_at" times) ≡ false)
      → (is_none (time_of "accepted_at" times) ≡ false
          → is_none (time_of "expires_at" times) ≡ false)
      → check_times times ≡ err e
      → e ≡ protocol_error
  unfolding check_times check_lifetime check_window time_at
  check_times_declines times i c a h = ground arith

  module _ (lib : Library) where
    pub parse_times_declines :
        (names : List String) (payload : Fields)
        → parse_times lib names payload ≡ err e
        → e ≡ protocol_error
    unfolding parse_times
    parse_times_declines [] payload h = cc
    parse_times_declines (name ∷ names) payload h =
        grind (arith, parse_timestamp_declines, parse_times_declines names payload)

    pub check_wallet_key_declines :
        (payload : Fields)
        → is_none (find "wallet_public_key_b64" payload) ≡ false
        → is_none (find "wallet_key_fingerprint" payload) ≡ false
        → check_wallet_key lib payload ≡ err e
        → e ≡ protocol_error
    unfolding check_wallet_key get
    check_wallet_key_declines payload k f h =
        grind (arith, decode_public_key_declines, encode_public_key_declines, decode_text_declines)

    -- the limits of a payload of these fields are numbers
    pub check_limits_declines :
        (names : List String) (payload : Fields)
        → has_exactly names payload ≡ true
        → check_fields lib payload ≡ ok tt
        → contains "max_payment_cents" names ≡ true
        → contains "max_payments" names ≡ true
        → contains "authorized_total_cents" names ≡ true
        → check_limits payload ≡ err e
        → e ≡ protocol_error
    unfolding check_limits contains
    check_limits_declines names payload exact checked p q r h =
        let (m, a, _, _) =
          number_checked lib "max_payment_cents" names payload exact checked p refl in
        let (n, b, _, _) = number_checked lib "max_payments" names payload exact checked q refl in
        let (t, c, _, _) =
          number_checked lib "authorized_total_cents" names payload exact checked r refl in
        ground arith
