-- ===== src/Server/Evidence/Atomic.antt =====
-- A submission that raises has committed nothing: it commits at its end.
use backend_pagos_offline.Prelude.{ℕ, String, Bool, true, false, Option, none, some, Bytes}
use backend_pagos_offline.Result.{Result, is_none}
use backend_pagos_offline.Exec.{pure}
use backend_pagos_offline.Wire.Library.{Library}
use backend_pagos_offline.Server.Models.{User, OfflinePayment, PaymentResolution, PaymentState}
use backend_pagos_offline.Server.Apply.Quiet.{Quiet, Quiet-pure}
use backend_pagos_offline.Server.Trust.{Trust, wire_protocol}
use backend_pagos_offline.Server.Evidence.{
  PaymentEvidence, Messages, Facts, other_content, other_ack, change_payment, set_state, set_ack,
}
use backend_pagos_offline.Server.Evidence.Final.{
  check_late_ack, keep_late_ack, answer_final, repeat_with, repeat_final,
}
use backend_pagos_offline.Server.Evidence.Review.{
  put_review, omitted, open_review, mark_reuse, index_conflict, stored, store, in_review,
}
use backend_pagos_offline.Server.Evidence.Review
use backend_pagos_offline.Server.Evidence.Reads.{
  reading_rules, read_messages-Quiet, read_facts-Quiet, authorize-Quiet,
}
use backend_pagos_offline.Server.Evidence.Process.{
  finish, take, settle_evidence, examine, mismatch, reconsider, other_operation, same_operation,
  known, with_existing, locked, of_messages, body,
}
use backend_pagos_offline.Server.Evidence.Commits.{
  Open, Open-Quiet, Open-write, Open-if, Atomic, Atomic-if, apply-Atomic, open_rules, atomic_rules,
}

module _ (lib : Library) (operation_id : String) where
  pub check_late_ack-Quiet :
      (m : Messages) (w : Bytes) → Quiet (check_late_ack lib operation_id m w)
  unfolding check_late_ack
  check_late_ack-Quiet m w = search reading_rules depth 24

  keep_late_ack-Open :
      (m : Messages) (known submitted : Option Bytes)
      → Open (keep_late_ack lib operation_id m known submitted)
  keep_late_ack-Open m none (some w) = search (open_rules, check_late_ack-Quiet)
  keep_late_ack-Open m (some k) w = search open_rules
  keep_late_ack-Open m none none = search open_rules

  answer_final-Atomic :
      (m : Messages) (p : OfflinePayment) (r : PaymentResolution) (code : Option String)
      → Atomic (answer_final lib operation_id m p r code)
  answer_final-Atomic m p r (some code) = search atomic_rules
  answer_final-Atomic m p r none = search (atomic_rules, keep_late_ack-Open)

  repeat_with-Atomic :
      (m : Messages) (p : OfflinePayment) (r : Option PaymentResolution)
      → Atomic (repeat_with lib operation_id m p r)
  repeat_with-Atomic m p none = search atomic_rules
  repeat_with-Atomic m p (some r) = search (atomic_rules, answer_final-Atomic)

  repeat_final-Atomic :
      (m : Messages) (p : OfflinePayment) → Atomic (repeat_final lib operation_id m p)
  unfolding repeat_final
  repeat_final-Atomic m p = search (atomic_rules, repeat_with-Atomic)

module _ (operation_id : String) where
  put_review-Open :
      (f : Facts) (existing : Option OfflinePayment) (code : String)
      → Open (put_review operation_id f existing code)
  put_review-Open f none code = search open_rules
  put_review-Open f (some p) code = search open_rules

  omitted-Atomic :
      (f : Facts) (existing : Option OfflinePayment) → Atomic (omitted operation_id f existing)
  unfolding omitted
  omitted-Atomic f existing = search (atomic_rules, put_review-Open)

  open_review-Open :
      (f : Facts) (existing : Option OfflinePayment) → Open (open_review operation_id f existing)
  open_review-Open f none = search open_rules
  open_review-Open f (some p) = search open_rules

  mark_reuse-Open :
      (f : Facts) (existing : Option OfflinePayment) (b : Bool)
      → Open (mark_reuse operation_id f existing b)
  mark_reuse-Open f existing false = search open_rules
  mark_reuse-Open f none true = search open_rules
  mark_reuse-Open f (some p) true = search open_rules

  review-Atomic :
      (f : Facts) (existing : Option OfflinePayment)
      → Atomic (Review.review operation_id f existing)
  unfolding Review.review
  review-Atomic f existing = search (atomic_rules, open_review-Open, mark_reuse-Open)

  index_conflict-Atomic : (f : Facts) → Atomic (index_conflict operation_id f)
  unfolding index_conflict
  index_conflict-Atomic f = search atomic_rules

  store-Open :
      (f : Facts) (existing : Option OfflinePayment) (ack : Option Bytes)
      → Open (store operation_id f existing ack)
  store-Open f none ack = search open_rules
  store-Open f (some p) none = search open_rules
  store-Open f (some p) (some w) =
      Open-if (is_none p.ack_envelope)
        (change_payment operation_id (λ r. set_state PaymentState.validated (set_ack (some w) r)))
        (pure tt) (Open-write _) (Open-Quiet _ (Quiet-pure tt))

module _ (lib : Library) (trust : Trust lib) (now : ℕ) (user : User) (operation_id : String) where
  finish-Atomic :
      (f : Facts) (p : OfflinePayment) (ack : Option Bytes) (b : Bool)
      → Atomic (finish lib trust now user operation_id f p ack b)
  finish-Atomic f p ack true = index_conflict-Atomic operation_id f
  finish-Atomic f p none false = search atomic_rules
  finish-Atomic f p (some w) false = apply-Atomic (wire_protocol lib trust) now _

  take-Atomic :
      (f : Facts) (existing : Option OfflinePayment) (ack : Option Bytes)
      → Atomic (take lib trust now user operation_id f existing ack)
  unfolding take
  take-Atomic f existing ack = search (atomic_rules, store-Open, finish-Atomic)

  settle_evidence-Atomic :
      (f : Facts) (existing : Option OfflinePayment) (ack : Option Bytes) (agrees : Bool)
      → Atomic (settle_evidence lib trust now user operation_id f existing ack agrees)
  settle_evidence-Atomic f existing ack agrees =
      Atomic-if _ _ _ (omitted-Atomic operation_id f existing) (
        Atomic-if _ _ _ (review-Atomic operation_id f existing)
          (Atomic-if _ _ _ (omitted-Atomic operation_id f existing) (take-Atomic f existing ack)))

  examine-Atomic :
      (m : Messages) (existing : Option OfflinePayment)
      → Atomic (examine lib trust now user operation_id m existing)
  unfolding examine
  examine-Atomic m existing = search (atomic_rules, read_facts-Quiet, settle_evidence-Atomic)

  mismatch-Atomic :
      (p : OfflinePayment) (code : String)
      → Atomic (mismatch lib trust now user operation_id p code)
  mismatch-Atomic p code = search atomic_rules

  other_operation-Atomic : Atomic (other_operation lib trust now user operation_id)
  other_operation-Atomic = search atomic_rules

  reconsider-Atomic :
      (m : Messages) (p : OfflinePayment) → Atomic (reconsider lib trust now user operation_id m p)
  reconsider-Atomic m p =
      Atomic-if (other_content p m) _ _ (mismatch-Atomic p "CONTENT_MISMATCH") (
        Atomic-if (other_ack p m) _ _ (mismatch-Atomic p "ACK_MISMATCH")
          (examine-Atomic m (some p)))

  known-Atomic :
      (m : Messages) (p : OfflinePayment) → Atomic (known lib trust now user operation_id m p)
  known-Atomic m p =
      Atomic-if _ _ _ (repeat_final-Atomic lib operation_id m p) (reconsider-Atomic m p)

  with_existing-Atomic :
      (m : Messages) (existing : Option OfflinePayment)
      → Atomic (with_existing lib trust now user operation_id m existing)
  with_existing-Atomic m none = examine-Atomic m none
  with_existing-Atomic m (some p) = search (atomic_rules, authorize-Quiet, known-Atomic)

  locked-Atomic :
      (lock : Result (Unit {0})) (m : Messages)
      → Atomic (locked lib trust now user operation_id lock m)
  unfolding locked
  locked-Atomic lock m = search (atomic_rules, with_existing-Atomic)

  of_messages-Atomic :
      (lock : Result (Unit {0})) (m : Messages)
      → Atomic (of_messages lib trust now user operation_id lock m)
  of_messages-Atomic lock m =
      Atomic-if (same_operation lib trust now user operation_id m) _ _ (locked-Atomic lock m)
        other_operation-Atomic

module _ (lib : Library) (trust : Trust lib) (now : ℕ) (user : User) where
  pub body-Atomic :
      (lock : Result (Unit {0})) (e : PaymentEvidence) → Atomic (body lib trust now user lock e)
  body-Atomic lock e = search (atomic_rules, read_messages-Quiet, of_messages-Atomic)
