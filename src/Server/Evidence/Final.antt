-- ===== src/Server/Evidence/Final.antt =====
-- A submission for a payment that is accepted or rejected already (sync_v3.py).
use backend_pagos_offline.Prelude.{
  String, Bool, true, false, not, Option, none, some, Bytes, string_eq, nat_eq, bytes_eq, option_eq,
}
use backend_pagos_offline.Result.{value_error}
use backend_pagos_offline.Exec.{pure, lift, raise_when, or_raise, ◌>>=◌, ◌>>◌}
use backend_pagos_offline.Wire.Library.{Library}
use backend_pagos_offline.Wire.Envelope.{parse_signed_envelope, verify_envelope}
use backend_pagos_offline.Wire.Json.{str}
use backend_pagos_offline.Wire.Binding.{validate_ack_binding}
use backend_pagos_offline.Server.Models.{OfflinePayment, PaymentResolution}
use backend_pagos_offline.Server.Session.{
  Query, commit, rollback, read, get_key, get_commitment, get_resolution,
}
use backend_pagos_offline.Server.Protocol.{PaymentResult, Submission, Status}
use backend_pagos_offline.Server.Apply.{result_of}
use backend_pagos_offline.Server.Trust.{text_at}
use backend_pagos_offline.Server.Evidence.{
  Messages, status_of, conflict_code, matching, set_ack, change_payment,
}

abbrev pub ended :
    String → Submission → Status → Bool → Option String → Option Bytes → Query PaymentResult
ended operation_id submission status final code resolution =
    pure (result_of operation_id submission status final code resolution)

module _ (lib : Library) (operation_id : String) where
  -- the first acknowledgement of a final payment, which comes late
  unfoldable pub check_late_ack : Messages → Bytes → Query (Unit {0})
  check_late_ack m ack_wire = do
    ack ← lift (parse_signed_envelope lib ack_wire)
    lift (validate_ack_binding lib m.request m.receipt ack)
    pos_key_id ← lift (text_at "pos_key_id" m.request.payload)
    found ← read (get_key pos_key_id)
    key ← or_raise found value_error
    raise_when (not (verify_envelope lib ack (str key.public_key_b64))) value_error

  abbrev pub keep_late_ack : Messages → Option Bytes → Option Bytes → Query (Unit {0})
  keep_late_ack m none (some ack_wire) = do
    check_late_ack m ack_wire
    change_payment operation_id (set_ack (some ack_wire))
  keep_late_ack m _ _ = pure tt

  abbrev pub answer_final :
      Messages → OfflinePayment → PaymentResolution → Option String → Query PaymentResult
  answer_final m p r (some code) = do
    rollback
    ended operation_id Submission.conflict (status_of p.state) true (some code)
        (some r.resolution_envelope)
  answer_final m p r none = do
    keep_late_ack m p.ack_envelope m.ack_wire
    commit
    ended operation_id Submission.validated (status_of p.state) true p.rejection_code
        (some r.resolution_envelope)

  abbrev pub repeat_with :
      Messages → OfflinePayment → Option PaymentResolution → Query PaymentResult
  repeat_with m p none = do
    rollback
    ended operation_id Submission.retryable_error (status_of p.state) false
        (some "SIGNED_RESOLUTION_MISSING") none
  repeat_with m p (some r) = do
    known_grant ← read (get_commitment p.authorization_id)
    answer_final m p r (conflict_code p known_grant m)

  -- a payment that is accepted or rejected already
  unfoldable pub repeat_final : Messages → OfflinePayment → Query PaymentResult
  repeat_final m p = do
    resolution ← read (get_resolution operation_id)
    repeat_with m p (matching p resolution)
