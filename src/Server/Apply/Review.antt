-- ===== src/Server/Apply/Review.antt =====
-- What `_apply` leaves of a payment that is kept for review: its row, and its claim.
use backend_pagos_offline.Prelude.{
  ℕ, String, Bool, true, false, Option, none, some, List, ◌≡◌, ◌⊎◌, refl, inl, inr, ◌==◌, string_eq,
  nat_eq,
}
use backend_pagos_offline.Result.{ok}
use backend_pagos_offline.Table.{update, insert}
use backend_pagos_offline.Server.Models.{OfflinePayment, CommitmentClaim, Wallet, PaymentState}
use backend_pagos_offline.Server.Protocol.{Protocol}
use backend_pagos_offline.Server.Apply.{add_again, keep_for_review, claim_once}
use backend_pagos_offline.Server.Apply.Quiet.{
  Ends, Ends-lift, Ends-map, PaymentsChange, ClaimsChange, add_payment-Ends, add_claim-Ends,
}
use backend_pagos_offline.Server.Updates.{Context}

-- A stored row of the payment, in review: an acknowledgement that was sent replaces its own.
abbrev pub kept_row : Context → OfflinePayment → OfflinePayment
kept_row c r = record r {
  state = PaymentState.pending_review;
  rejection_code = some "INSUFFICIENT_COMMITMENT_OR_BALANCE";
  ack_envelope = (elim c.payment.ack_envelope [ none ↦ r.ack_envelope | some a ↦ some a ]);
}

-- A new row of the payment, in review, with what its request says.
abbrev pub new_row : Context → String → String → String → String → OfflinePayment
new_row c merchant_id terminal_id currency nonce = record c.payment {
  merchant_id = merchant_id;
  terminal_id = terminal_id;
  authorization_id = c.authorization.id;
  currency = currency;
  nonce = nonce;
  state = PaymentState.pending_review;
  rejection_code = some "INSUFFICIENT_COMMITMENT_OR_BALANCE";
  applied_at = none;
}

abbrev pub claim_row : Context → String → CommitmentClaim
claim_row c digest = record {
  authorization_id = c.authorization.id;
  operation_id = c.payment.operation_id;
  issuance_index = c.issuance_index;
  amount_cents = c.payment.amount_cents;
  receipt_digest = digest;
}

module _ (protocol : Protocol) (c : Context) where
  open protocol use {parse_signed_envelope, payload_digest, text_field}

  -- The payments before and after, by what the committed database has of the payment and its wallet.
  pub data PaymentKept (p : Option OfflinePayment) (w : Option Wallet)
      (before after : List OfflinePayment) : Type 0 where
    -- the row and its wallet are there: the row alone is put in review
    marked :
        (row : OfflinePayment) (wallet : Wallet)
        → p ≡ some row
        → w ≡ some wallet
        → after ≡ update (λ r. r.operation_id == c.payment.operation_id) (kept_row c) before
        → PaymentKept p w before after
    -- one of them is not: one row is added, with the fields of the request
    again :
        (request : protocol.Envelope) (merchant_id terminal_id currency nonce : String)
        → (p ≡ none) ⊎ (w ≡ none)
        → parse_signed_envelope c.payment.request_envelope ≡ ok request
        → text_field "merchant_id" request ≡ ok merchant_id
        → text_field "terminal_id" request ≡ ok terminal_id
        → text_field "currency" request ≡ ok currency
        → text_field "nonce" request ≡ ok nonce
        → after ≡ insert (new_row c merchant_id terminal_id currency nonce) before
        → PaymentKept p w before after

  -- The claims before and after, by whether there was one of the payment.
  pub data ClaimKept (claimed : Bool) (before after : List CommitmentClaim) : Type 0 where
    had : claimed ≡ true → after ≡ before → ClaimKept claimed before after
    made :
        (receipt : protocol.Envelope)
        → claimed ≡ false
        → parse_signed_envelope c.payment.receipt_envelope ≡ ok receipt
        → after ≡ insert (claim_row c (payload_digest receipt)) before
        → ClaimKept claimed before after

module _ (protocol : Protocol) (now : ℕ) (c : Context) where
  add_again-Ends :
      (p : Option OfflinePayment) (w : Option Wallet)
      → (p ≡ none) ⊎ (w ≡ none)
      → Ends (PaymentsChange (PaymentKept protocol c p w)) (add_again protocol now c)
  unfolding add_again
  add_again-Ends p w missing = Ends-lift _ _ _ λ request parsed.
      Ends-lift _ _ _ λ merchant_id merchant. Ends-lift _ _ _ λ terminal_id terminal.
        Ends-lift _ _ _ λ currency has_currency. Ends-lift _ _ _ λ nonce has_nonce.
          Ends-map _ _ _
            (λ s s' (ps, is, inserted). (
              ps,
              is,
              again request merchant_id terminal_id currency nonce missing parsed merchant terminal
                  has_currency has_nonce inserted,
            ))
            (add_payment-Ends (new_row c merchant_id terminal_id currency nonce))

  pub keep_for_review-Ends :
      (p : Option OfflinePayment) (w : Option Wallet)
      → Ends (PaymentsChange (PaymentKept protocol c p w)) (keep_for_review protocol now c p w)
  keep_for_review-Ends (some p) (some w) = record {
    at = λ s. inr (_, refl, (_, refl, marked p w refl refl refl));
  }
  keep_for_review-Ends (some p) none =
      Ends-lift _ _ _ (λ receipt parsed. add_again-Ends (some p) none (inr refl))
  keep_for_review-Ends none w = Ends-lift _ _ _ (λ receipt parsed. add_again-Ends none w (inl refl))

  pub claim_once-Ends :
      (claimed : Bool)
      → Ends (ClaimsChange (ClaimKept protocol c claimed)) (claim_once protocol now c claimed)
  claim_once-Ends true = record { at = λ s. inr (_, refl, (s.current.claims, refl, had refl refl)) }
  claim_once-Ends false = Ends-lift _ _ _ λ receipt parsed.
      Ends-map _ _ _ (λ s s' (cs, is, inserted). (cs, is, made receipt refl parsed inserted))
        (add_claim-Ends (claim_row c (protocol.payload_digest receipt)))
