-- ===== src/Server/Evidence/Tests.antt =====
-- Submissions for a payment that is accepted already.
use backend_pagos_offline.Prelude.{ℕ, ◌≡◌, refl, true, false, none, some, [], ◌∷◌}
use backend_pagos_offline.Prelude.Int.{pos}
use backend_pagos_offline.Result.{ok, err, http}
use backend_pagos_offline.Wire.Library.{Library}
use backend_pagos_offline.Wire.Samples.{library}
use backend_pagos_offline.Server.Models.{User, OfflinePayment, PaymentState, Database}
use backend_pagos_offline.Server.Protocol.{Submission, Status}
use backend_pagos_offline.Server.Apply.{result_of}
use backend_pagos_offline.Server.Apply.Outcome.{both}
use backend_pagos_offline.Server.Trust.{Trust}
use backend_pagos_offline.Server.Validation.{wire, authorize}
use backend_pagos_offline.Server.Evidence.{PaymentEvidence}
use backend_pagos_offline.Server.Evidence.Process.{read_messages, on_error, process_evidence}
use backend_pagos_offline.Server.Evidence.Errors.{process_evidence_rolls_back}
use backend_pagos_offline.Server.Evidence.Finality.{SameButAck, process_evidence_kept}

-- a decoder that finds no Base64
abbrev deaf : Library
deaf = record library { b64decode = λ s. none }

abbrev trust : Trust deaf
trust = record { inventory = none; active = err (http 500) }

abbrev paid : OfflinePayment
paid = record {
  operation_id = "o1";
  wallet_id = "w1";
  merchant_id = "m1";
  terminal_id = "t1";
  authorization_id = "a1";
  amount_cents = 200;
  currency = "ARS";
  nonce = "n1";
  request_envelope = 2 ∷ [];
  receipt_envelope = 3 ∷ [];
  ack_envelope = none;
  state = PaymentState.accepted;
  rejection_code = none;
  applied_at = some 7;
}

abbrev ledger_book : Database
ledger_book = record {
  users = [];
  wallets =
      record {
        id = "w1";
        user_id = 1;
        confirmed_balance_cents = 300;
        currency = "ARS";
        offline_review_required = false;
      }
      ∷ [];
  terminals = [];
  keys = [];
  authorizations = [];
  payments = paid ∷ [];
  ledger = [];
  commitments = [];
  emissions = [];
  claims = [];
  resolutions =
      record {
        operation_id = "o1";
        status = PaymentState.accepted;
        resolution_envelope = 9 ∷ [];
        revision = 1;
      }
      ∷ [];
  topups = [];
}

abbrev noise : PaymentEvidence
noise = record {
  operation_id = "o1";
  request_envelope_b64 = "?";
  authorization_envelope_b64 = "?";
  receipt_envelope_b64 = "?";
  ack_envelope_b64 = none;
}

abbrev owner : User
owner = record { id = 1; nombre = "ana"; saldo_real = pos 300; role = "payer" }

abbrev stranger : User
stranger = record { id = 2; nombre = "leo"; saldo_real = pos 0; role = "payer" }

-- the owner learns the resolution again
owner_told : process_evidence deaf trust 9 owner (ok tt) noise (both ledger_book) ≡ (
  ok (
      result_of "o1" Submission.conflict Status.accepted true
        (some "INVALID_SUBMISSION")
        (some (9 ∷ []))),
  both ledger_book,
)
unfolding process_evidence read_messages wire on_error authorize
owner_told = refl

stranger_refused :
    process_evidence deaf trust 9 stranger (ok tt) noise (both ledger_book)
    ≡ (err (http 403), both ledger_book)
unfolding process_evidence read_messages wire on_error authorize
stranger_refused = refl

process_evidence_rolls_back_example :
    ((n : ℕ) × (http 403 ≡ http n)) × (both ledger_book ≡ both ledger_book)
process_evidence_rolls_back_example =
    process_evidence_rolls_back deaf trust 9 stranger (ok tt) noise (both ledger_book)
      (both ledger_book) (http 403) stranger_refused

process_evidence_kept_example :
    SameButAck "o1" paid ledger_book
      (process_evidence deaf trust 9 owner (ok tt) noise (both ledger_book)).1.committed
process_evidence_kept_example =
    process_evidence_kept deaf trust 9 owner (ok tt) noise paid ledger_book refl refl
