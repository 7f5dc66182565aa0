-- ===== src/Server/Evidence/Process.antt =====
-- `process_evidence_v3` of sync_v3.py: the branches of the handler and what it does on an exception.
use backend_pagos_offline.Prelude.{
  ℕ, String, Bool, true, false, not, ◌&&◌, ◌||◌, Option, none, some, Bytes, string_eq, nat_eq,
  bytes_eq, option_eq, if◌then◌else◌,
}
use backend_pagos_offline.Result.{
  Error, Result, protocol_error, value_error, type_error, key_error, integrity_error,
  operational_error, runtime_error, http, is_none,
}
use backend_pagos_offline.Exec.{pure, raise, lift, except, ◌>>=◌, ◌>>◌}
use backend_pagos_offline.Wire.Library.{Library}
use backend_pagos_offline.Wire.Kinds.{get}
use backend_pagos_offline.Wire.Payload.{number}
use backend_pagos_offline.Wire.Envelope.{signed, payload_digest, parse_signed_envelope}
use backend_pagos_offline.Server.Models.{User, OfflinePayment, PaymentResolution, PaymentState}
use backend_pagos_offline.Server.Session.{
  Query, commit, rollback, read, get_payment, get_resolution,
}
use backend_pagos_offline.Server.Protocol.{PaymentResult, Submission, Status}
use backend_pagos_offline.Server.Claims.{record_claim}
use backend_pagos_offline.Server.Apply.{apply}
use backend_pagos_offline.Server.Trust.{Trust, text_at, wire_protocol}
use backend_pagos_offline.Server.Validation.{wire, authorize, validate}
use backend_pagos_offline.Server.Evidence.Final.{ended, repeat_final}
use backend_pagos_offline.Server.Evidence.Review.{
  in_review, omitted, review, index_conflict, stored, store,
}
use backend_pagos_offline.Server.Evidence.Closure.{says, agreement}
use backend_pagos_offline.Server.Evidence.{
  PaymentEvidence, Messages, Facts, is_final, status_of, other_content, other_ack, matching, given,
}

module _ (lib : Library) (trust : Trust lib) (now : ℕ) (user : User) where
  -- `_wire` of an acknowledgement, if there is one
  unfoldable pub optional_wire : Option String → Query (Option Bytes)
  optional_wire none = pure none
  optional_wire (some value) = do contents ← wire lib value; pure (some contents)

  unfoldable pub read_messages : PaymentEvidence → Query Messages
  unfolding optional_wire
  read_messages e = do
    request_wire ← wire lib e.request_envelope_b64
    grant_wire ← wire lib e.authorization_envelope_b64
    receipt_wire ← wire lib e.receipt_envelope_b64
    ack_wire ← optional_wire (given e.ack_envelope_b64)
    request ← lift (parse_signed_envelope lib request_wire)
    grant ← lift (parse_signed_envelope lib grant_wire)
    receipt ← lift (parse_signed_envelope lib receipt_wire)
    pure (record {
      request_wire = request_wire;
      grant_wire = grant_wire;
      receipt_wire = receipt_wire;
      ack_wire = ack_wire;
      request = request;
      grant = grant;
      receipt = receipt;
    })

  module _ (operation_id : String) where
    unfoldable pub read_facts : Messages → Query Facts
    read_facts m = do
      rows ← validate lib trust m.request m.grant m.grant_wire m.receipt m.ack_wire
      authorize user rows.wallet.id rows.terminal.id
      issuance_index ← lift (number "issuance_index" m.receipt.payload)
      claimed_cents ← lift (number "amount_cents" m.receipt.payload)
      receipt_digest ← lift (payload_digest lib (signed m.receipt))
      merchant_id ← lift (text_at "merchant_id" m.request.payload)
      amount_cents ← lift (number "amount_cents" m.request.payload)
      currency ← lift (text_at "currency" m.request.payload)
      nonce ← lift (text_at "nonce" m.request.payload)
      pure (record {
        rows = rows;
        claim = record {
          authorization_id = rows.authorization.id;
          operation_id = operation_id;
          issuance_index = issuance_index;
          amount_cents = claimed_cents;
          receipt_digest = receipt_digest;
        };
        fresh = record {
          operation_id = operation_id;
          wallet_id = rows.wallet.id;
          merchant_id = merchant_id;
          terminal_id = rows.terminal.id;
          authorization_id = rows.authorization.id;
          amount_cents = amount_cents;
          currency = currency;
          nonce = nonce;
          request_envelope = m.request_wire;
          receipt_envelope = m.receipt_wire;
          ack_envelope = m.ack_wire;
          state = PaymentState.validated;
          rejection_code = none;
          applied_at = none;
        };
      })

    abbrev pub finish : Facts → OfflinePayment → Option Bytes → Bool → Query PaymentResult
    finish f p ack_wire true = index_conflict operation_id f
    finish f p none false = do
      commit
      ended operation_id Submission.validated Status.pending_evidence false (some "ACK_REQUIRED")
          none
    finish f p (some ack) false = apply (wire_protocol lib trust) now (record {
      payment = p;
      wallet = f.rows.wallet;
      merchant_wallet = f.rows.merchant_wallet;
      authorization = f.rows.authorization;
      commitment = f.rows.commitment;
      issuance_index = f.claim.issuance_index;
    })

    unfoldable pub take : Facts → Option OfflinePayment → Option Bytes → Query PaymentResult
    take f existing ack_wire = do
      store operation_id f existing ack_wire
      conflict ← record_claim f.claim
      finish f (stored operation_id f existing ack_wire) ack_wire conflict

    -- the branches for valid evidence, in their order
    abbrev pub settle_evidence :
        Facts → Option OfflinePayment → Option Bytes → Bool → Query PaymentResult
    settle_evidence f existing ack_wire agrees =
        if f.rows.commitment.closed && not agrees
        then omitted operation_id f existing
        else if f.rows.review || in_review existing
        then review operation_id f existing
        else if f.rows.commitment.closed && is_none existing
        then omitted operation_id f existing
        else take f existing ack_wire

    unfoldable pub examine : Messages → Option OfflinePayment → Query PaymentResult
    examine m existing = do
      f ← read_facts m
      agrees ← lift (agreement lib f.rows.commitment f.claim)
      settle_evidence f existing m.ack_wire agrees

    abbrev pub mismatch : OfflinePayment → String → Query PaymentResult
    mismatch p code =
        rollback
        >> ended operation_id Submission.conflict (status_of p.state) false (some code) none

    -- a payment that is not final yet: other content than it has is a conflict
    abbrev pub reconsider : Messages → OfflinePayment → Query PaymentResult
    reconsider m p =
        if other_content p m
        then mismatch p "CONTENT_MISMATCH"
        else if other_ack p m
        then mismatch p "ACK_MISMATCH"
        else examine m (some p)

    abbrev pub known : Messages → OfflinePayment → Query PaymentResult
    known m p = if is_final p.state then repeat_final lib operation_id m p else reconsider m p

    abbrev pub with_existing : Messages → Option OfflinePayment → Query PaymentResult
    with_existing m none = examine m none
    with_existing m (some p) = authorize user p.wallet_id p.terminal_id >> known m p

    -- The first statement locks the wallet and sets its balance to what it is; `lock` is the outcome
    -- of it, which may be that the database is busy.
    unfoldable pub locked : Result (Unit {0}) → Messages → Query PaymentResult
    locked lock m = do
      wallet_id ← lift (get "wallet_id" m.grant.payload)
      lift lock
      existing ← read (get_payment operation_id)
      with_existing m existing

    abbrev pub other_operation : Query PaymentResult
    other_operation =
        ended operation_id Submission.invalid_evidence Status.unresolved false
          (some "OPERATION_ID_MISMATCH") none

    abbrev pub same_operation : Messages → Bool
    same_operation m =
        says "operation_id" operation_id m.request.payload
        && says "operation_id" operation_id m.receipt.payload

    abbrev pub of_messages : Result (Unit {0}) → Messages → Query PaymentResult
    of_messages lock m = if same_operation m then locked lock m else other_operation

    abbrev pub invalid : Query PaymentResult
    invalid =
        ended operation_id Submission.invalid_evidence Status.unresolved false
          (some "INVALID_EVIDENCE") none

    abbrev pub answer_invalid : OfflinePayment → Option PaymentResolution → Query PaymentResult
    answer_invalid p none = invalid
    answer_invalid p (some r) =
        ended operation_id Submission.conflict (status_of p.state) true (some "INVALID_SUBMISSION")
          (some r.resolution_envelope)

    abbrev pub invalid_known : OfflinePayment → Bool → Query PaymentResult
    invalid_known p false = invalid
    invalid_known p true = do
      authorize user p.wallet_id p.terminal_id
      resolution ← read (get_resolution operation_id)
      answer_invalid p (matching p resolution)

    abbrev pub invalid_with : Option OfflinePayment → Query PaymentResult
    invalid_with none = invalid
    invalid_with (some p) = invalid_known p (is_final p.state)

    unfoldable pub refuse_evidence : Query PaymentResult
    refuse_evidence = do rollback; found ← read (get_payment operation_id); invalid_with found

    -- the `except` clauses
    unfoldable pub on_error : Error → Query PaymentResult
    unfolding refuse_evidence
    on_error (http n) = rollback >> raise (http n)
    on_error protocol_error = refuse_evidence
    on_error value_error = refuse_evidence
    on_error type_error = refuse_evidence
    on_error key_error = refuse_evidence
    on_error integrity_error =
        rollback
        >> ended operation_id Submission.conflict Status.pending_review false
            (some "DATABASE_CONSTRAINT") none
    on_error operational_error =
        rollback
        >> ended operation_id Submission.retryable_error Status.unresolved false
            (some "DATABASE_BUSY") none
    on_error runtime_error =
        rollback
        >> ended operation_id Submission.retryable_error Status.unresolved false
            (some "INTERNAL_ERROR") none

  abbrev pub body : Result (Unit {0}) → PaymentEvidence → Query PaymentResult
  body lock e = do m ← read_messages e; of_messages e.operation_id lock m

  unfoldable pub process_evidence : Result (Unit {0}) → PaymentEvidence → Query PaymentResult
  process_evidence lock e = except (body lock e) (on_error e.operation_id)
