-- ===== src/Server/Evidence/Finality.antt =====
-- A submission for a payment that is accepted or rejected changes nothing but a missing
-- acknowledgement.
use backend_pagos_offline.Prelude.{
  ℕ, ◌≡◌, refl, sym, subst, String, Bool, true, false, Option, none, some, Bytes, ◌⊎◌, inl, inr,
  if◌then◌else◌,
}
use backend_pagos_offline.Result.{
  Error, Result, ok, err, protocol_error, value_error, type_error, key_error, integrity_error,
  operational_error, runtime_error, http,
}
use backend_pagos_offline.Exec.{pure, lift, resume, ◌>>=◌, ◌>>◌}
use backend_pagos_offline.Table.{update}
use backend_pagos_offline.Wire.Library.{Library}
use backend_pagos_offline.Wire.Kinds.{get}
use backend_pagos_offline.Server.Models.{User, OfflinePayment, PaymentResolution, Database}
use backend_pagos_offline.Server.Session.{
  Session, Query, commit, get_payment, get_commitment, get_resolution,
}
use backend_pagos_offline.Server.Protocol.{PaymentResult}
use backend_pagos_offline.Server.Updates.{payment_id_is}
use backend_pagos_offline.Server.Apply.Outcome.{both}
use backend_pagos_offline.Server.Apply.Quiet.{Quiet, Quiet-cases, Quiet-lift}
use backend_pagos_offline.Server.Trust.{Trust}
use backend_pagos_offline.Server.Validation.{authorize}
use backend_pagos_offline.Server.Evidence.{
  PaymentEvidence, Messages, is_final, conflict_code, matching, set_ack,
}
use backend_pagos_offline.Server.Evidence.Final.{
  check_late_ack, keep_late_ack, answer_final, repeat_with, repeat_final,
}
use backend_pagos_offline.Server.Evidence.Reads.{read_messages-Quiet, authorize-Quiet}
use backend_pagos_offline.Server.Evidence.Atomic.{check_late_ack-Quiet}
use backend_pagos_offline.Server.Evidence.Commits.{Open, open_rules}
use backend_pagos_offline.Server.Evidence.Errors.{invalid_with_calm}
use backend_pagos_offline.Server.Evidence.Process.{
  read_messages, known, with_existing, locked, same_operation, of_messages, refuse_evidence,
  on_error, other_operation, invalid_with, body, process_evidence,
}

-- the database with the acknowledgement of one payment
abbrev pub with_ack : String → Bytes → Database → Database
with_ack operation_id w d = record d {
  payments = update (payment_id_is operation_id) (set_ack (some w)) d.payments;
}

-- the same database but for an acknowledgement of the payment, where it has none yet
abbrev pub SameButAck : String → OfflinePayment → Database → Database → Type 0
SameButAck operation_id p d c =
    (c ≡ d) ⊎ ((w : Bytes) × (p.ack_envelope ≡ none) × (c ≡ with_ack operation_id w d))

abbrev KeptFinal : String → OfflinePayment → Database → Session → Type 0
KeptFinal operation_id p d s = SameButAck operation_id p d s.committed

after_quiet :
    {A B : Type 0} (P : Session → Type 0) (m : Query A) (f : A → Query B) (s : Session)
    → Quiet m
    → P s
    → ((a : A) → P (f a s).1)
    → P ((m >>= f) s).1
after_quiet P m f s q p k = elim (Quiet-cases m q s) [
  | inl (e, raised) ↦ rw (raised, ◌>>=◌) p
  | inr (a, returned) ↦ rw (returned, ◌>>=◌) (k a)
]

module _ (lib : Library) (operation_id : String) (p : OfflinePayment) (d : Database) where
  late_kept :
      (m : Messages) (known submitted : Option Bytes) (a : PaymentResult)
      → p.ack_envelope ≡ known
      → KeptFinal operation_id p d
          ((keep_late_ack lib operation_id m known submitted >> (commit >> pure a)) (both d)).1
  late_kept m (some k) submitted a is = inl refl
  late_kept m none none a is = inl refl
  late_kept m none (some w) a is =
      elim (Quiet-cases (check_late_ack lib operation_id m w)
        (check_late_ack-Quiet lib operation_id m w) (both d)) [
          | inl (e, raised) ↦ rw (raised, ◌>>=◌) (inl refl)
          | inr (_, returned) ↦ rw (returned, ◌>>=◌) (inr (w, is, refl))
        ]

  answer_final_kept :
      (m : Messages) (r : PaymentResolution) (code : Option String)
      → KeptFinal operation_id p d (answer_final lib operation_id m p r code (both d)).1
  answer_final_kept m r (some code) = inl refl
  answer_final_kept m r none = late_kept m p.ack_envelope m.ack_wire _ refl

  repeat_with_kept :
      (m : Messages) (r : Option PaymentResolution)
      → KeptFinal operation_id p d (repeat_with lib operation_id m p r (both d)).1
  repeat_with_kept m none = inl refl
  repeat_with_kept m (some r) =
      answer_final_kept m r (conflict_code p (get_commitment p.authorization_id d) m)

  repeat_final_kept :
      (m : Messages) → KeptFinal operation_id p d (repeat_final lib operation_id m p (both d)).1
  unfolding repeat_final
  repeat_final_kept m = repeat_with_kept m (matching p (get_resolution operation_id d))

module _ (lib : Library) (trust : Trust lib) (now : ℕ) (user : User) (operation_id : String)
    (p : OfflinePayment) (d : Database) where
  known_kept :
      (m : Messages)
      → is_final p.state ≡ true
      → KeptFinal operation_id p d (known lib trust now user operation_id m p (both d)).1
  known_kept m final = rw (final, if◌then◌else◌) (repeat_final_kept lib operation_id p d m)

  locked_kept :
      (lock : Result (Unit {0})) (m : Messages)
      → get_payment operation_id d ≡ some p
      → is_final p.state ≡ true
      → KeptFinal operation_id p d (locked lib trust now user operation_id lock m (both d)).1
  unfolding locked
  locked_kept lock m found final =
      let P = KeptFinal operation_id p d in
      after_quiet P (lift (get "wallet_id" m.grant.payload)) _ (both d) (Quiet-lift _) (inl refl)
        λ _. after_quiet P (lift lock) _ (both d) (Quiet-lift _) (inl refl) λ _.
          rw (found, with_existing)
            (after_quiet P (authorize user p.wallet_id p.terminal_id)
              (λ _. known lib trust now user operation_id m p) (both d)
              (authorize-Quiet user p.wallet_id p.terminal_id) (inl refl) (λ _. known_kept m final))

  of_messages_kept :
      (lock : Result (Unit {0})) (m : Messages)
      → get_payment operation_id d ≡ some p
      → is_final p.state ≡ true
      → (b : Bool)
      → KeptFinal operation_id p d
          ((if b
              then locked lib trust now user operation_id lock m
              else other_operation lib trust now user operation_id)
            (both d)).1
  of_messages_kept lock m found final true = locked_kept lock m found final
  of_messages_kept lock m found final false = inl refl

  invalid_with-Quiet :
      (found : Option OfflinePayment) → Quiet (invalid_with lib trust now user operation_id found)
  invalid_with-Quiet found = (invalid_with_calm lib trust now user operation_id found).0

  refuse-Open : Open (refuse_evidence lib trust now user operation_id)
  unfolding refuse_evidence
  refuse-Open = search (open_rules, invalid_with-Quiet)

  -- an answer to an exception commits nothing
  on_error-Open : (y : Error) → Open (on_error lib trust now user operation_id y)
  unfolding on_error
  on_error-Open (http n) = search open_rules
  on_error-Open protocol_error = refuse-Open
  on_error-Open value_error = refuse-Open
  on_error-Open type_error = refuse-Open
  on_error-Open key_error = refuse-Open
  on_error-Open integrity_error = search open_rules
  on_error-Open operational_error = search open_rules
  on_error-Open runtime_error = search open_rules

  resumed_kept :
      (r : Result PaymentResult) (t : Session)
      → KeptFinal operation_id p d t
      → KeptFinal operation_id p d (resume (on_error lib trust now user operation_id) r t).1
  resumed_kept (ok a) t k = k
  resumed_kept (err y) t k = subst (SameButAck operation_id p d) (sym ((on_error-Open y).at t)) k

-- For a payment that is accepted or rejected, a submission commits nothing, or only an
-- acknowledgement where the payment has none: no balance, reserve, ledger entry, resolution or other
-- payment changes, whatever the evidence says.
pub process_evidence_kept :
    (lib : Library) (trust : Trust lib) (now : ℕ) (user : User) (lock : Result (Unit {0}))
    (e : PaymentEvidence) (p : OfflinePayment) (d : Database)
    → get_payment e.operation_id d ≡ some p
    → is_final p.state ≡ true
    → SameButAck e.operation_id p d
        (process_evidence lib trust now user lock e (both d)).1.committed
unfolding process_evidence
process_evidence_kept lib trust now user lock e p d found final =
    resumed_kept lib trust now user e.operation_id p d (body lib trust now user lock e (both d)).0
      (body lib trust now user lock e (both d)).1
      (after_quiet (KeptFinal e.operation_id p d) (read_messages lib trust now user e)
        (λ m. of_messages lib trust now user e.operation_id lock m) (both d)
        (read_messages-Quiet lib trust now user e) (inl refl)
        (λ m.
          of_messages_kept lib trust now user e.operation_id p d lock m found final
            (same_operation lib trust now user e.operation_id m)))
