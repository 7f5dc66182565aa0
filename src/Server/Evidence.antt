-- ===== src/Server/Evidence.antt =====
-- `process_evidence_v3` of sync_v3.py: one submission of the evidence of a payment.
pub mod Process
pub mod Reads
pub mod Commits
pub mod Atomic
pub mod Errors
pub mod Finality
mod Tests
pub mod Closure
pub mod Final
pub mod Review
use backend_pagos_offline.Prelude.{
  ℕ, String, Bool, true, false, not, ◌&&◌, ◌||◌, Option, none, some, List, [], ◌∷◌, Bytes, ◌==◌,
  ◌!=◌, string_eq, nat_eq, bytes_eq, option_eq, if◌then◌else◌,
}
use backend_pagos_offline.Result.{Error, Result, ok, err, value_error, http, is_none}
use backend_pagos_offline.Exec.{pure, raise, lift, raise_when, or_raise, except, ◌>>=◌, ◌>>◌}
use backend_pagos_offline.Table.{fetch, update}
use backend_pagos_offline.Wire.Json.{Json, Fields}
use backend_pagos_offline.Wire.Library.{Library}
use backend_pagos_offline.Wire.Kinds.{find, get}
use backend_pagos_offline.Wire.Payload.{is_text, number}
use backend_pagos_offline.Wire.Envelope.{
  SignedEnvelope, signed, payload_digest, parse_signed_envelope, verify_envelope,
}
use backend_pagos_offline.Wire.Verify.{is_expected}
use backend_pagos_offline.Wire.Manifest.{parse_close_manifest}
use backend_pagos_offline.Wire.Binding.{validate_ack_binding}
use backend_pagos_offline.Server.Models.{
  User, Wallet, OfflinePayment, OfflineCommitment, CommitmentClaim, PaymentResolution, PaymentState,
  Database,
}
use backend_pagos_offline.Server.Session.{
  Session, Query, commit, rollback, read, write, get_wallet, get_key, get_payment, get_commitment,
  get_resolution, add_payment,
}
use backend_pagos_offline.Server.Protocol.{PaymentResult, Submission, Status}
use backend_pagos_offline.Server.Updates.{Context, payment_id_is, flag_wallet}
use backend_pagos_offline.Server.Claims.{record_claim}
use backend_pagos_offline.Server.Apply.{apply, result_of}
use backend_pagos_offline.Server.Trust.{Trust, text_at, wire_protocol}
use backend_pagos_offline.Server.Validation.{Validated, wire, authorize, validate}

-- `OfflinePaymentEvidenceV3`
pub record PaymentEvidence : Type 0 where
  pub operation_id : String
  pub request_envelope_b64 : String
  pub authorization_envelope_b64 : String
  pub receipt_envelope_b64 : String
  pub ack_envelope_b64 : Option String

-- What a submission reads from its four texts.
pub record Messages : Type 0 where
  pub request_wire : Bytes
  pub grant_wire : Bytes
  pub receipt_wire : Bytes
  pub ack_wire : Option Bytes
  pub request : SignedEnvelope
  pub grant : SignedEnvelope
  pub receipt : SignedEnvelope

abbrev pub is_final : PaymentState → Bool
is_final PaymentState.accepted = true
is_final PaymentState.rejected = true
is_final _ = false

abbrev pub same_state : PaymentState → PaymentState → Bool
same_state PaymentState.pending_evidence PaymentState.pending_evidence = true
same_state PaymentState.validated PaymentState.validated = true
same_state PaymentState.pending_review PaymentState.pending_review = true
same_state PaymentState.accepted PaymentState.accepted = true
same_state PaymentState.rejected PaymentState.rejected = true
same_state _ _ = false

-- the state as an answer tells it
abbrev pub status_of : PaymentState → Status
status_of PaymentState.pending_evidence = Status.pending_evidence
status_of PaymentState.validated = Status.unresolved
status_of PaymentState.pending_review = Status.pending_review
status_of PaymentState.accepted = Status.accepted
status_of PaymentState.rejected = Status.rejected

-- another request or receipt than the payment has
abbrev pub other_content : OfflinePayment → Messages → Bool
other_content p m = p.request_envelope != m.request_wire || p.receipt_envelope != m.receipt_wire

-- another acknowledgement than the payment has
abbrev pub other_ack : OfflinePayment → Messages → Bool
other_ack p m =
    not (is_none p.ack_envelope) && not (is_none m.ack_wire) && p.ack_envelope != m.ack_wire

abbrev pub grant_of_row : Option OfflineCommitment → Option Bytes
grant_of_row none = none
grant_of_row (some k) = k.authorization_envelope

-- why a submission for a final payment is a conflict; the last test that holds names it
abbrev pub conflict_code : OfflinePayment → Option OfflineCommitment → Messages → Option String
conflict_code p known_grant m =
    if grant_of_row known_grant != some m.grant_wire
    then some "AUTHORIZATION_MISMATCH"
    else if other_content p m
    then some "CONTENT_MISMATCH"
    else if other_ack p m
    then some "ACK_MISMATCH"
    else none

-- the resolution, if it is that of the payment's state
abbrev pub matching : OfflinePayment → Option PaymentResolution → Option PaymentResolution
matching p none = none
matching p (some r) = if same_state r.status p.state then some r else none

abbrev pub set_ack : Option Bytes → OfflinePayment → OfflinePayment
set_ack ack p = record p { ack_envelope = ack }

-- an update of the payment's row
abbrev pub change_payment : String → (OfflinePayment → OfflinePayment) → Query (Unit {0})
change_payment operation_id change =
    write (λ db. record db { payments = update (payment_id_is operation_id) change db.payments })

abbrev pub set_review : String → OfflinePayment → OfflinePayment
set_review code p = record p { state = PaymentState.pending_review; rejection_code = some code }

abbrev pub set_state : PaymentState → OfflinePayment → OfflinePayment
set_state state p = record p { state = state }

abbrev pub set_code : String → OfflinePayment → OfflinePayment
set_code code p = record p { rejection_code = some code }

-- an optional text; an empty one is none
abbrev pub given : Option String → Option String
given none = none
given (some s) = if s == "" then none else some s

-- What is known of a valid payment before its row is written.
pub record Facts : Type 0 where
  pub rows : Validated
  pub claim : CommitmentClaim
  -- the row of a new payment, but for its state and its code
  pub fresh : OfflinePayment
