-- ===== src/Server/Evidence/Review.antt =====
-- The rows that a submission of valid evidence writes before any settlement (sync_v3.py).
use backend_pagos_offline.Prelude.{
  String, Bool, true, false, Option, none, some, Bytes, string_eq, nat_eq, bytes_eq, option_eq,
  if◌then◌else◌,
}
use backend_pagos_offline.Result.{is_none}
use backend_pagos_offline.Exec.{pure, ◌>>=◌, ◌>>◌}
use backend_pagos_offline.Server.Models.{OfflinePayment, PaymentState}
use backend_pagos_offline.Server.Session.{Query, commit, write, add_payment}
use backend_pagos_offline.Server.Protocol.{PaymentResult, Submission, Status}
use backend_pagos_offline.Server.Updates.{flag_wallet}
use backend_pagos_offline.Server.Claims.{record_claim}
use backend_pagos_offline.Server.Evidence.Final.{ended}
use backend_pagos_offline.Server.Evidence.{
  Facts, same_state, set_ack, change_payment, set_review, set_state, set_code,
}

abbrev pub in_review : Option OfflinePayment → Bool
in_review none = false
in_review (some p) = same_state p.state PaymentState.pending_review

module _ (operation_id : String) where
  -- a row of the payment in review: a new one, or the one that there is
  abbrev pub put_review : Facts → Option OfflinePayment → String → Query (Unit {0})
  put_review f none code = add_payment (set_review code f.fresh)
  put_review f (some p) code = change_payment operation_id (set_review code)

  -- the wallet is flagged, and the payment kept for review: the closure has left it out
  unfoldable pub omitted : Facts → Option OfflinePayment → Query PaymentResult
  omitted f existing = do
    write (flag_wallet f.rows.wallet.id)
    put_review f existing "EVIDENCE_OMITTED_FROM_CLOSURE"
    conflict ← record_claim f.claim
    commit
    ended operation_id Submission.validated Status.pending_review false
        (some "EVIDENCE_OMITTED_FROM_CLOSURE") none

  abbrev pub open_review : Facts → Option OfflinePayment → Query (Unit {0})
  open_review f none = add_payment (set_review "REVOCATION_REVIEW" f.fresh)
  open_review f (some p) = change_payment operation_id (set_state PaymentState.pending_review)

  abbrev pub mark_reuse : Facts → Option OfflinePayment → Bool → Query (Unit {0})
  mark_reuse f existing false = pure tt
  mark_reuse f none true = write (flag_wallet f.rows.wallet.id)
  mark_reuse f (some p) true = do
    write (flag_wallet f.rows.wallet.id)
    change_payment operation_id (set_code "ISSUANCE_INDEX_REUSED")

  unfoldable pub review : Facts → Option OfflinePayment → Query PaymentResult
  review f existing = do
    open_review f existing
    conflict ← record_claim f.claim
    mark_reuse f existing conflict
    commit
    ended operation_id Submission.validated Status.pending_review false (some "REVOCATION_REVIEW")
        none

  -- the index belongs to another claim
  unfoldable pub index_conflict : Facts → Query PaymentResult
  index_conflict f = do
    change_payment operation_id (set_review "ISSUANCE_INDEX_REUSED")
    write (flag_wallet f.rows.wallet.id)
    commit
    ended operation_id Submission.conflict Status.pending_review false
        (some "ISSUANCE_INDEX_REUSED") none

  -- the row of the payment as a submission leaves it
  abbrev pub stored : Facts → Option OfflinePayment → Option Bytes → OfflinePayment
  stored f none none = set_state PaymentState.pending_evidence f.fresh
  stored f none (some ack) = f.fresh
  stored f (some p) none = p
  stored f (some p) (some ack) =
      if is_none p.ack_envelope then set_state PaymentState.validated (set_ack (some ack) p) else p

  abbrev pub store : Facts → Option OfflinePayment → Option Bytes → Query (Unit {0})
  store f none ack_wire = add_payment (stored f none ack_wire)
  store f (some p) none = pure tt
  store f (some p) (some ack) =
      if is_none p.ack_envelope
      then change_payment operation_id
          (λ r. set_state PaymentState.validated (set_ack (some ack) r))
      else pure tt
