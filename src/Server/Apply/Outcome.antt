-- ===== src/Server/Apply/Outcome.antt =====
-- How a settlement ends: as one of four outcomes, each with the whole state that it leaves.
use backend_pagos_offline.Prelude.{
  ℕ, ◌≡◌, refl, Bool, true, false, not, none, some, List, Bytes, inl, inr, ◌==◌, nat_eq, string_eq,
  Bool-cases, Option-cases, if◌then◌else◌,
}
use backend_pagos_offline.Prelude.Int.{pos, neg}
use backend_pagos_offline.Result.{Error, Result, ok, err}
use backend_pagos_offline.Server.Apply.Insertions.{
  add_emission-cases, add_entry-cases, add_resolution-cases,
}
use backend_pagos_offline.Server.Apply.Quiet.{Quiet-cases, sign_resolution-Quiet}
use backend_pagos_offline.Server.Apply.Review.{
  PaymentKept, ClaimKept, keep_for_review-Ends, claim_once-Ends,
}
use backend_pagos_offline.Exec.{pure, ◌>>◌}
use backend_pagos_offline.Table.{fetch, has_row, insert, update}
use backend_pagos_offline.Server.Models.{
  OfflinePayment, CommitmentEmission, CommitmentClaim, PaymentResolution, PaymentState, Database,
  debit, credit,
}
use backend_pagos_offline.Server.Session.{Session, commit, same_emission, get_payment, get_wallet}
use backend_pagos_offline.Server.Protocol.{Protocol, PaymentResult, Submission, Status}
use backend_pagos_offline.Server.Apply.{
  apply, apply_free, settle, insufficient, result_of, claim_once,
}
use backend_pagos_offline.Server.Updates.{
  Context, updated, after_updates, settle_phase, move_saldo, entry, accept_change, payment_id_is,
  flag_wallet, of_index, taken_by_other, is_claimed,
}

abbrev pub emission_of : Context → CommitmentEmission
emission_of c = record {
  authorization_id = c.authorization.id;
  operation_id = c.payment.operation_id;
  issuance_index = some c.issuance_index;
  amount_cents = c.payment.amount_cents;
}

abbrev pub resolution_of : Context → Bytes → PaymentResolution
resolution_of c wire = record {
  operation_id = c.payment.operation_id;
  status = PaymentState.accepted;
  resolution_envelope = wire;
  revision = 1;
}

-- The database after an accepted settlement.
abbrev pub settled_db : ℕ → Context → Bytes → Database → Database
settled_db now c wire db =
    let moved =
      move_saldo c.wallet c.merchant_wallet c.payment.amount_cents
        (settle_phase c.commitment.authorization_id (after_updates c db)) in
    record moved {
      emissions = insert (emission_of c) db.emissions;
      ledger =
          insert (entry c.payment c.merchant_wallet.id credit (pos c.payment.amount_cents))
            (insert (entry c.payment c.wallet.id debit (neg c.payment.amount_cents)) db.ledger);
      payments = update (payment_id_is c.payment.operation_id) (accept_change now) db.payments;
      resolutions = insert (resolution_of c wire) db.resolutions;
    }

abbrev pub both : Database → Session
both db = record { committed = db; current = db }

-- The database where the payment is kept for review, for the tables that may change.
abbrev pub review_db : Context → List OfflinePayment → List CommitmentClaim → Database → Database
review_db c payments claims db = record (flag_wallet c.payment.wallet_id db) {
  payments = payments;
  claims = claims;
}

-- The index has an emission, of another operation than the payment's.
abbrev pub index_reused : Context → Database → Bool
index_reused c db = elim (fetch (of_index c) db.emissions) [
  | none ↦ false
  | some e ↦ not (e.operation_id == c.payment.operation_id)
]

pub data Outcome (protocol : Protocol) (now : ℕ) (c : Context) (s : Session)
    (out : Result PaymentResult × Session) : Type 0 where
  -- an exception: nothing is committed
  failed :
      (e : Error) (s' : Session)
      → index_reused c s.current ≡ false
      → out ≡ (err e, s')
      → s'.committed ≡ s.committed
      → Outcome protocol now c s out
  -- the index belongs to another operation: rolled back
  conflict :
      index_reused c s.current ≡ true
      → out ≡ (
        ok (
            result_of c.payment.operation_id Submission.conflict Status.pending_review false
              (some "ISSUANCE_INDEX_REUSED")
              none),
        both s.committed,
      )
      → Outcome protocol now c s out
  -- a limit or the balance is short: what the transaction did is undone, the payment's row is put in
  -- review, its claim is there, and its wallet is flagged
  review :
      (payments : List OfflinePayment) (claims : List CommitmentClaim)
      → index_reused c s.current ≡ false
      → updated c s.current ≡ false
      → PaymentKept protocol c
          (get_payment c.payment.operation_id s.committed)
          (get_wallet c.payment.wallet_id s.committed)
          s.committed.payments
          payments
      → ClaimKept protocol c (is_claimed c s.committed) s.committed.claims claims
      → out ≡ (
        ok (
            result_of c.payment.operation_id Submission.validated Status.pending_review false
              (some "INSUFFICIENT_COMMITMENT_OR_BALANCE")
              none),
        both (review_db c payments claims s.committed),
      )
      → Outcome protocol now c s out
  -- settled, once
  accepted :
      (wire : Bytes)
      → index_reused c s.current ≡ false
      → updated c s.current ≡ true
      → has_row (same_emission (emission_of c)) s.current.emissions ≡ false
      → out ≡ (
        ok (
            result_of c.payment.operation_id Submission.validated Status.accepted true none
              (some wire)),
        both (settled_db now c wire s.current),
      )
      → Outcome protocol now c s out

module _ (protocol : Protocol) (now : ℕ) (c : Context) where
  -- The chain of `settle`, one fallible step at a time, from the state that the three updates left.
  settle-Outcome :
      (s : Session)
      → index_reused c s.current ≡ false
      → updated c s.current ≡ true
      → Outcome protocol now c s
          (settle protocol now c (record s { current = after_updates c s.current }))
  unfolding settle
  settle-Outcome s unused met =
      let at = λ (db : Database).
        let t : Session = record { committed = s.committed; current = db } in t in
      let base = settle_phase c.commitment.authorization_id (after_updates c s.current) in
      let d1 = record base { emissions = insert (emission_of c) s.current.emissions } in
      let d2 = move_saldo c.wallet c.merchant_wallet c.payment.amount_cents d1 in
      let debited = entry c.payment c.wallet.id debit (neg c.payment.amount_cents) in
      let credited = entry c.payment c.merchant_wallet.id credit (pos c.payment.amount_cents) in
      let d3 = record d2 { ledger = insert debited s.current.ledger } in
      let d4 = record d3 { ledger = insert credited (insert debited s.current.ledger) } in
      let d5 = record d4 {
        payments =
            update (payment_id_is c.payment.operation_id) (accept_change now) s.current.payments;
      } in
      elim (add_emission-cases (emission_of c) (at base)) [
        | inl clash ↦ rw clash (failed _ _ unused refl refl)
        | inr (free, added) ↦ rw added (elim (add_entry-cases debited (at d2)) [
          | inl clash ↦ rw clash (failed _ _ unused refl refl)
          | inr added ↦ rw added (elim (add_entry-cases credited (at d3)) [
            | inl clash ↦ rw clash (failed _ _ unused refl refl)
            | inr added ↦
                rw added (elim (Quiet-cases _ (sign_resolution-Quiet protocol now c) (at d5)) [
                  | inl (e, raised) ↦ rw raised (failed _ _ unused refl refl)
                  | inr (wire, signed) ↦
                      rw signed (elim (add_resolution-cases (resolution_of c wire) (at d5)) [
                        | inl clash ↦ rw clash (failed _ _ unused refl refl)
                        | inr added ↦ rw added (accepted wire unused met free refl)
                      ])
                ])
          ])
        ])
      ]

  -- The roll-back first forgets whatever the transaction has done.
  insufficient-Outcome :
      (s : Session) (db : Database)
      → index_reused c s.current ≡ false
      → updated c s.current ≡ false
      → Outcome protocol now c s (insufficient protocol now c (record s { current = db }))
  unfolding insufficient
  insufficient-Outcome s db unused unmet =
      let d = s.committed in
      elim ((keep_for_review-Ends protocol now c (get_payment c.payment.operation_id d)
          (get_wallet c.payment.wallet_id d)).at
        (both d)) [
          | inl (e, s', raised, same) ↦ rw raised (failed e s' unused refl same)
          | inr (s', returned, (ps, is, kept)) ↦ rw (returned, is) (claimed_Outcome ps kept)
        ]
    where
      claimed_Outcome :
          (ps : List OfflinePayment)
          → PaymentKept protocol c
              (get_payment c.payment.operation_id s.committed)
              (get_wallet c.payment.wallet_id s.committed)
              s.committed.payments
              ps
          → let d = flag_wallet c.payment.wallet_id (record s.committed { payments = ps }) in
            Outcome protocol now c s (
              (claim_once protocol now c (is_claimed c d)
                  >> (commit
                      >> pure (
                          result_of c.payment.operation_id Submission.validated
                            Status.pending_review false
                            (some "INSUFFICIENT_COMMITMENT_OR_BALANCE")
                            none)))
                (record { committed = s.committed; current = d }))
      claimed_Outcome ps kept =
          let d = flag_wallet c.payment.wallet_id (record s.committed { payments = ps }) in
          elim ((claim_once-Ends protocol now c (is_claimed c d)).at
            (record { committed = s.committed; current = d })) [
              | inl (e, s', raised, same) ↦ rw raised (failed e s' unused refl same)
              | inr (s', returned, (cs, is, claimed)) ↦
                  rw (returned, is) (review ps cs unused unmet kept claimed refl)
            ]

  apply_free-Outcome :
      (s : Session)
      → index_reused c s.current ≡ false
      → Outcome protocol now c s (apply_free protocol now c s)
  apply_free-Outcome s unused = elim (Bool-cases (updated c s.current)) [
    | inl met ↦ rw (met, if◌then◌else◌) (settle-Outcome s unused met)
    | inr unmet ↦
        rw (unmet, if◌then◌else◌) (insufficient-Outcome s (after_updates c s.current) unused unmet)
  ]

  pub apply-Outcome : (s : Session) → Outcome protocol now c s (apply protocol now c s)
  unfolding apply
  apply-Outcome s = elim (Option-cases (fetch (of_index c) s.current.emissions)) [
    | inl unused ↦ rw (unused, apply) (apply_free-Outcome s (rw (index_reused, unused) refl))
    | inr (e, used) ↦ elim (Bool-cases (taken_by_other c e)) [
      | inl other ↦
          rw (used, apply)
            (rw (other, if◌then◌else◌) (conflict (rw (index_reused, used, other) refl) refl))
      | inr own ↦
          rw (used, apply)
            (rw (own, if◌then◌else◌) (apply_free-Outcome s (rw (index_reused, used, own) refl)))
    ]
  ]
