-- ===== src/Wire/Binding/Limits.antt =====
-- What an accepted receipt keeps to: the limits and the window of its grant.
use backend_pagos_offline.Prelude.{ℕ, ◌≤◌, ◌-◌, ◌≡◌, true, arith}
use backend_pagos_offline.Result.{ok, passes}
use backend_pagos_offline.Wire.Json.{Json, Fields}
use backend_pagos_offline.Wire.Library.{Library}
use backend_pagos_offline.Wire.Kinds.{get}
use backend_pagos_offline.Wire.Payload.{number}
use backend_pagos_offline.Wire.Envelope.{SignedEnvelope, verify_envelope}
use backend_pagos_offline.Wire.Manifest.{instant}
use backend_pagos_offline.Wire.Binding.{
  check_receipt_limits, check_receipt_times, validate_receipt_binding,
}

-- the amount and the index of a receipt are at most what its grant allows for one payment
pub record WithinLimits (receipt grant : Fields) : Type 0 where
  pub amount : ℕ
  pub max_payment : ℕ
  pub authorized : ℕ
  pub index : ℕ
  pub max_payments : ℕ
  pub amount_is : number "amount_cents" receipt ≡ ok amount
  pub max_payment_is : number "max_payment_cents" grant ≡ ok max_payment
  pub authorized_is : number "authorized_total_cents" grant ≡ ok authorized
  pub index_is : number "issuance_index" receipt ≡ ok index
  pub max_payments_is : number "max_payments" grant ≡ ok max_payments
  pub payment_allowed : amount ≤ max_payment
  pub total_allowed : amount ≤ authorized
  pub index_allowed : index ≤ max_payments

-- the instants of a receipt lie in the window of its grant
pub record WithinWindow (lib : Library) (receipt grant : Fields) : Type 0 where
  pub start : ℕ
  pub issued : ℕ
  pub confirmed : ℕ
  pub expires : ℕ
  pub finish : ℕ
  pub lifetime : ℕ
  pub start_is : instant lib "issued_at" grant ≡ ok start
  pub issued_is : instant lib "issued_at" receipt ≡ ok issued
  pub confirmed_is : instant lib "confirmed_at" receipt ≡ ok confirmed
  pub expires_is : instant lib "expires_at" receipt ≡ ok expires
  pub finish_is : instant lib "spend_expires_at" grant ≡ ok finish
  pub lifetime_is : number "max_request_lifetime_seconds" grant ≡ ok lifetime
  pub after_start : start ≤ issued
  pub confirmed_after : issued ≤ confirmed
  pub before_expiry : confirmed ≤ expires
  pub before_finish : expires ≤ finish
  pub short : expires - issued ≤ lifetime

pub check_receipt_limits-WithinLimits :
    (receipt grant : Fields)
    → check_receipt_limits receipt grant ≡ ok tt
    → WithinLimits receipt grant
unfolding check_receipt_limits
check_receipt_limits-WithinLimits receipt grant h =
    let (amount, amount_is) = passes (number "amount_cents" receipt) (λ e f. ground arith) in
    let (max_payment, max_is) = passes (number "max_payment_cents" grant) (λ e f. ground arith) in
    let (total, total_is) = passes (number "authorized_total_cents" grant) (λ e f. ground arith) in
    let (index, index_is) = passes (number "issuance_index" receipt) (λ e f. ground arith) in
    let (count, count_is) = passes (number "max_payments" grant) (λ e f. ground arith) in
    record {
      amount = amount;
      max_payment = max_payment;
      authorized = total;
      index = index;
      max_payments = count;
      amount_is = amount_is;
      max_payment_is = max_is;
      authorized_is = total_is;
      index_is = index_is;
      max_payments_is = count_is;
      payment_allowed = ground arith;
      total_allowed = ground arith;
      index_allowed = ground arith;
    }

module _ (lib : Library) where
  pub check_receipt_times-WithinWindow :
      (receipt grant : Fields)
      → check_receipt_times lib receipt grant ≡ ok tt
      → WithinWindow lib receipt grant
  unfolding check_receipt_times
  check_receipt_times-WithinWindow receipt grant h =
      let (start, start_is) = passes (instant lib "issued_at" grant) (λ e f. ground arith) in
      let (issued, issued_is) = passes (instant lib "issued_at" receipt) (λ e f. ground arith) in
      let (confirmed, confirmed_is) =
        passes (instant lib "confirmed_at" receipt) (λ e f. ground arith) in
      let (expires, expires_is) = passes (instant lib "expires_at" receipt) (λ e f. ground arith) in
      let (finish, finish_is) =
        passes (instant lib "spend_expires_at" grant) (λ e f. ground arith) in
      let (lifetime, lifetime_is) =
        passes (number "max_request_lifetime_seconds" grant) (λ e f. ground arith) in
      record {
        start = start;
        issued = issued;
        confirmed = confirmed;
        expires = expires;
        finish = finish;
        lifetime = lifetime;
        start_is = start_is;
        issued_is = issued_is;
        confirmed_is = confirmed_is;
        expires_is = expires_is;
        finish_is = finish_is;
        lifetime_is = lifetime_is;
        after_start = ground arith;
        confirmed_after = ground arith;
        before_expiry = ground arith;
        before_finish = ground arith;
        short = ground arith;
      }

  -- A receipt that is bound to its request and its grant keeps to the limits of the grant, its
  -- instants lie in the window of the grant, and the key of the grant has signed it.
  pub validate_receipt_binding_within :
      (request receipt grant : SignedEnvelope)
      → validate_receipt_binding lib request receipt grant ≡ ok tt
      → WithinLimits receipt.payload grant.payload
        × WithinWindow lib receipt.payload grant.payload
        × ((key : Json) × (get "wallet_public_key_b64" grant.payload ≡ ok key)
            × (verify_envelope lib receipt key ≡ true))
  unfolding validate_receipt_binding
  validate_receipt_binding_within request receipt grant h =
      let (key, is) = passes (get "wallet_public_key_b64" grant.payload) (λ e f. ground arith) in
      (
        check_receipt_limits-WithinLimits receipt.payload grant.payload (ground arith),
        check_receipt_times-WithinWindow receipt.payload grant.payload (ground arith),
        (key, is, ground arith),
      )
