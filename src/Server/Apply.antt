-- ===== src/Server/Apply.antt =====
-- `_apply` of sync_v3.py: the settlement of one validated payment.
pub mod Quiet
pub mod Review
pub mod Insertions
pub mod Outcome
pub mod Money
pub mod Solvency
use backend_pagos_offline.Prelude.{
  ℕ, ◌+◌, ◌-◌, String, Bool, true, false, not, ◌&&◌, ◌||◌, Option, none, some, ◌==◌, ◌!=◌,
  string_eq, nat_eq, option_eq, ltb, leb, Bytes, if◌then◌else◌,
}
use backend_pagos_offline.Prelude.Int.{ℤ, pos, neg, ◌+ℤ◌, ◌-ℤ◌}
use backend_pagos_offline.Result.{Result, type_error}
use backend_pagos_offline.Exec.{pure, lift, ◌>>=◌, ◌>>◌}
use backend_pagos_offline.Table.{fetch, has_row, rowcount, update, insert}
use backend_pagos_offline.Server.Models
use backend_pagos_offline.Server.Models.{
  Wallet, User, OfflineAuthorization, OfflinePayment, OfflineCommitment, CommitmentEmission,
  CommitmentClaim, PaymentResolution, LedgerEntry, Database, PaymentState, debit, credit, settled,
}
use backend_pagos_offline.Server.Session.{
  Session, Query, commit, rollback, read, write, get_wallet, get_payment, get_commitment,
  add_payment, add_claim, add_emission, add_entry, add_resolution, same_index,
}
use backend_pagos_offline.Server.Protocol.{
  Protocol, PaymentResult, Submission, Status, Issuer, Resolution,
}
use backend_pagos_offline.Server.Updates.{
  authorization_test, authorization_change, debit_test, debit_change, commitment_test,
  commitment_change, wallet_id_is, credit_change, user_id_is, saldo_change, all_updated,
  three_updates, settle_test, settle_change, settle_phase, move_saldo, entry, accept_change,
  payment_id_is, review_change, flag_change, flag_wallet, Context, updated, after_updates,
  taken_by_other, of_index, is_claimed,
}

abbrev pub result_of :
    String → Submission → Status → Bool → Option String → Option Bytes → PaymentResult
result_of operation_id submission status final code resolution = record {
  operation_id = operation_id;
  submission_status = submission;
  operation_status = status;
  final = final;
  code = code;
  resolution = resolution;
}

module _ (protocol : Protocol) (now : ℕ) where
  open protocol use {parse_signed_envelope, payload_digest, text_field, load_issuer, sign_envelope}

  unfoldable pub parse_optional : Option Bytes → Query protocol.Envelope
  parse_optional none = lift (Result.err type_error)
  parse_optional (some wire) = lift (parse_signed_envelope wire)

  -- The payment again, where the roll-back has removed it.
  unfoldable pub add_again : Context → Query (Unit {0})
  add_again c = do
    request ← lift (parse_signed_envelope c.payment.request_envelope)
    merchant_id ← lift (text_field "merchant_id" request)
    terminal_id ← lift (text_field "terminal_id" request)
    currency ← lift (text_field "currency" request)
    nonce ← lift (text_field "nonce" request)
    add_payment (record {
      operation_id = c.payment.operation_id;
      wallet_id = c.payment.wallet_id;
      merchant_id = merchant_id;
      terminal_id = terminal_id;
      authorization_id = c.authorization.id;
      amount_cents = c.payment.amount_cents;
      currency = currency;
      nonce = nonce;
      request_envelope = c.payment.request_envelope;
      receipt_envelope = c.payment.receipt_envelope;
      ack_envelope = c.payment.ack_envelope;
      state = PaymentState.pending_review;
      rejection_code = some "INSUFFICIENT_COMMITMENT_OR_BALANCE";
      applied_at = none;
    })

  abbrev pub keep_for_review : Context → Option OfflinePayment → Option Wallet → Query (Unit {0})
  keep_for_review c (some p) (some w) = write (λ db. record db {
    payments =
        update (payment_id_is c.payment.operation_id) (review_change c.payment.ack_envelope)
          db.payments;
  })
  keep_for_review c _ _ = do lift (parse_signed_envelope c.payment.receipt_envelope); add_again c

  abbrev pub claim_once : Context → Bool → Query (Unit {0})
  claim_once c true = pure tt
  claim_once c false = do
    receipt ← lift (parse_signed_envelope c.payment.receipt_envelope)
    add_claim (record {
      authorization_id = c.authorization.id;
      operation_id = c.payment.operation_id;
      issuance_index = c.issuance_index;
      amount_cents = c.payment.amount_cents;
      receipt_digest = payload_digest receipt;
    })

  -- An update met no row: everything is undone, and the payment is kept for review.
  unfoldable pub insufficient : Context → Query PaymentResult
  unfolding add_again
  insufficient c = do
    rollback
    persisted_payment ← read (get_payment c.payment.operation_id)
    persisted_wallet ← read (get_wallet c.payment.wallet_id)
    keep_for_review c persisted_payment persisted_wallet
    write (flag_wallet c.payment.wallet_id)
    claimed ← read (is_claimed c)
    claim_once c claimed
    commit
    pure (
        result_of c.payment.operation_id Submission.validated Status.pending_review false
          (some "INSUFFICIENT_COMMITMENT_OR_BALANCE") none)

  unfoldable pub sign_resolution : Context → Query Bytes
  unfolding parse_optional
  sign_resolution c = do
    issuer ← lift load_issuer
    grant ← parse_optional c.commitment.authorization_envelope
    request ← lift (parse_signed_envelope c.payment.request_envelope)
    receipt ← lift (parse_signed_envelope c.payment.receipt_envelope)
    lift (
        sign_envelope issuer (record {
          operation_id = c.payment.operation_id;
          wallet_id = c.payment.wallet_id;
          merchant_id = c.payment.merchant_id;
          terminal_id = c.payment.terminal_id;
          amount_cents = c.payment.amount_cents;
          currency = c.payment.currency;
          offline_authorization_id = c.payment.authorization_id;
          authorization_digest = payload_digest grant;
          request_digest = payload_digest request;
          receipt_digest = payload_digest receipt;
          operation_status = PaymentState.accepted;
          code = "ACCEPTED";
          resolved_at = now;
          issuer_key_id = issuer.key_id;
          issuer_key_fingerprint = issuer.fingerprint;
        }))

  -- The rest of a settlement whose three updates were made.
  unfoldable pub settle : Context → Query PaymentResult
  unfolding sign_resolution
  settle c = do
    write (settle_phase c.commitment.authorization_id)
    add_emission (record {
      authorization_id = c.authorization.id;
      operation_id = c.payment.operation_id;
      issuance_index = some c.issuance_index;
      amount_cents = c.payment.amount_cents;
    })
    write (move_saldo c.wallet c.merchant_wallet c.payment.amount_cents)
    add_entry (entry c.payment c.wallet.id debit (neg c.payment.amount_cents))
    add_entry (entry c.payment c.merchant_wallet.id credit (pos c.payment.amount_cents))
    write (λ db. record db {
      payments = update (payment_id_is c.payment.operation_id) (accept_change now) db.payments;
    })
    wire ← sign_resolution c
    add_resolution (record {
      operation_id = c.payment.operation_id;
      status = PaymentState.accepted;
      resolution_envelope = wire;
      revision = 1;
    })
    commit
    pure (
        result_of c.payment.operation_id Submission.validated Status.accepted true none (some wire))

  abbrev pub reuse_conflict : Context → Query PaymentResult
  reuse_conflict c = do
    rollback
    pure (
        result_of c.payment.operation_id Submission.conflict Status.pending_review false
          (some "ISSUANCE_INDEX_REUSED") none)

  abbrev pub apply_free : Context → Query PaymentResult
  apply_free c = do
    met ← read (updated c)
    write (after_updates c)
    if met then settle c else insufficient c

  unfoldable pub apply : Context → Query PaymentResult
  apply c = do
    duplicate ← read (λ db. fetch (of_index c) db.emissions)
    elim duplicate [
      | none ↦ apply_free c
      | some e ↦ (if taken_by_other c e then reuse_conflict c else apply_free c)
    ]
