-- ===== src/Wire/Binding/Order.antt =====
-- What an accepted acknowledgement follows: the receipt that it names, and its confirmation.
use backend_pagos_offline.Prelude.{ℕ, ◌≤◌, ◌≡◌, String, true, arith}
use backend_pagos_offline.Result.{ok, passes}
use backend_pagos_offline.Wire.Json.{Json}
use backend_pagos_offline.Wire.Library.{Library}
use backend_pagos_offline.Wire.Kinds.{get}
use backend_pagos_offline.Wire.Payload.{is_text}
use backend_pagos_offline.Wire.Envelope.{SignedEnvelope, signed, payload_digest}
use backend_pagos_offline.Wire.Manifest.{instant}
use backend_pagos_offline.Wire.Binding.{check_digest, validate_ack_binding}

-- An acknowledgement that is bound to a request and a receipt is not before the confirmation of the
-- receipt, and names the digest of the receipt.
pub validate_ack_binding_follows :
    (lib : Library) (request receipt ack : SignedEnvelope)
    → validate_ack_binding lib request receipt ack ≡ ok tt
    → ((confirmed : ℕ) × (accepted : ℕ) × (instant lib "confirmed_at" receipt.payload
          ≡ ok confirmed)
        × (instant lib "accepted_at" ack.payload ≡ ok accepted)
        × (confirmed ≤ accepted))
      × ((digest : String) × (named : Json) × (payload_digest lib (signed receipt) ≡ ok digest)
          × (get "receipt_digest" ack.payload ≡ ok named)
          × (is_text digest named ≡ true))
unfolding validate_ack_binding check_digest
validate_ack_binding_follows lib request receipt ack h =
    let (confirmed, c) =
      passes (instant lib "confirmed_at" receipt.payload) (λ e f. ground arith) in
    let (accepted, a) = passes (instant lib "accepted_at" ack.payload) (λ e f. ground arith) in
    let (digest, d) = passes (payload_digest lib (signed receipt)) (λ e f. ground arith) in
    let (named, n) = passes (get "receipt_digest" ack.payload) (λ e f. ground arith) in
    ((confirmed, accepted, c, a, ground arith), (digest, named, d, n, ground arith))
