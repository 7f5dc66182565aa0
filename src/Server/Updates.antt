-- ===== src/Server/Updates.antt =====
-- The rows that `_apply` of sync_v3.py works on: the tests and the effects of its updates.
use backend_pagos_offline.Prelude.{
  ℕ, ◌+◌, ◌-◌, String, Bool, true, ◌&&◌, Option, none, some, ◌==◌, ◌!=◌, string_eq, nat_eq,
  option_eq, ltb, leb, Bytes,
}
use backend_pagos_offline.Prelude.Int.{ℤ, pos, neg, ◌+ℤ◌}
use backend_pagos_offline.Table.{has_row, rowcount, update}
use backend_pagos_offline.Server.Models
use backend_pagos_offline.Server.Models.{
  Wallet, User, OfflineAuthorization, OfflinePayment, OfflineCommitment, CommitmentEmission,
  CommitmentClaim, PaymentResolution, LedgerEntry, Database, PaymentState, debit, credit, settled,
}
use backend_pagos_offline.Server.Session.{same_index}

-- The three conditional updates: the rows that each meets, and what it does to them.
abbrev pub authorization_test : String → ℕ → OfflineAuthorization → Bool
authorization_test id amount r =
    r.id == id && leb amount r.remaining_amount_cents && ltb 0 r.remaining_payments

abbrev pub authorization_change : ℕ → OfflineAuthorization → OfflineAuthorization
authorization_change amount r = record r {
  remaining_amount_cents = r.remaining_amount_cents - amount;
  remaining_payments = r.remaining_payments - 1;
}

abbrev pub debit_test : String → ℕ → Wallet → Bool
debit_test id amount r = r.id == id && leb amount r.confirmed_balance_cents

abbrev pub debit_change : ℕ → Wallet → Wallet
debit_change amount r = record r { confirmed_balance_cents = r.confirmed_balance_cents - amount }

abbrev pub commitment_test : String → ℕ → OfflineCommitment → Bool
commitment_test id amount r =
    r.authorization_id == id
    && leb amount r.held_cents
    && leb (r.emitted_cents + amount) r.reserved_cents

abbrev pub commitment_change : ℕ → OfflineCommitment → OfflineCommitment
commitment_change amount r = record r {
  emitted_cents = r.emitted_cents + amount;
  emitted_count = r.emitted_count + 1;
  held_cents = r.held_cents - amount;
}

abbrev pub wallet_id_is : String → Wallet → Bool
wallet_id_is id r = r.id == id

abbrev pub credit_change : ℕ → Wallet → Wallet
credit_change amount r = record r { confirmed_balance_cents = r.confirmed_balance_cents + amount }

abbrev pub user_id_is : ℕ → User → Bool
user_id_is id r = r.id == id

abbrev pub saldo_change : ℤ → User → User
saldo_change delta r = record r { saldo_real = r.saldo_real +ℤ delta }

-- All three meet exactly one row.
abbrev pub all_updated : String → String → String → ℕ → Database → Bool
all_updated authorization_id wallet_id commitment_id amount db =
    rowcount (authorization_test authorization_id amount) db.authorizations == 1
    && rowcount (debit_test wallet_id amount) db.wallets == 1
    && rowcount (commitment_test commitment_id amount) db.commitments == 1

abbrev pub three_updates : String → String → String → ℕ → Database → Database
three_updates authorization_id wallet_id commitment_id amount db = record db {
  authorizations =
      update (authorization_test authorization_id amount) (authorization_change amount)
        db.authorizations;
  wallets = update (debit_test wallet_id amount) (debit_change amount) db.wallets;
  commitments =
      update (commitment_test commitment_id amount) (commitment_change amount) db.commitments;
}

-- `if commitment.closed and commitment.held_cents == 0: commitment.phase = "SETTLED"`, on the row
-- as it is read again
abbrev pub settle_test : String → OfflineCommitment → Bool
settle_test id r = r.authorization_id == id && r.closed && r.held_cents == 0

abbrev pub settle_change : OfflineCommitment → OfflineCommitment
settle_change r = record r { phase = settled }

abbrev pub settle_phase : String → Database → Database
settle_phase id db = record db {
  commitments = update (settle_test id) settle_change db.commitments;
}

abbrev pub move_saldo : Wallet → Wallet → ℕ → Database → Database
move_saldo wallet merchant_wallet amount db = record db {
  users =
      update (user_id_is merchant_wallet.user_id) (saldo_change (pos amount))
        (update (user_id_is wallet.user_id) (saldo_change (neg amount)) db.users);
  wallets = update (wallet_id_is merchant_wallet.id) (credit_change amount) db.wallets;
}

abbrev pub entry : OfflinePayment → String → Models.EntryType → ℤ → LedgerEntry
entry payment wallet_id kind delta = record {
  operation_id = payment.operation_id;
  wallet_id = wallet_id;
  entry_type = kind;
  delta_cents = delta;
}

abbrev pub accept_change : ℕ → OfflinePayment → OfflinePayment
accept_change now r = record r { state = PaymentState.accepted; applied_at = some now }

abbrev pub payment_id_is : String → OfflinePayment → Bool
payment_id_is id r = r.operation_id == id

abbrev pub review_change : Option Bytes → OfflinePayment → OfflinePayment
review_change ack r = record r {
  state = PaymentState.pending_review;
  rejection_code = some "INSUFFICIENT_COMMITMENT_OR_BALANCE";
  ack_envelope = (elim ack [ none ↦ r.ack_envelope | some a ↦ some a ]);
}

abbrev pub flag_change : Wallet → Wallet
flag_change r = record r { offline_review_required = true }

abbrev pub flag_wallet : String → Database → Database
flag_wallet id db = record db { wallets = update (wallet_id_is id) flag_change db.wallets }

-- The rows that `_apply` is called with, as the session has them.
pub record Context : Type 0 where
  pub payment : OfflinePayment
  pub wallet : Wallet
  pub merchant_wallet : Wallet
  pub authorization : OfflineAuthorization
  pub commitment : OfflineCommitment
  pub issuance_index : ℕ

abbrev pub updated : Context → Database → Bool
updated c =
    all_updated c.authorization.id c.wallet.id c.commitment.authorization_id c.payment.amount_cents

abbrev pub after_updates : Context → Database → Database
after_updates c =
    three_updates c.authorization.id c.wallet.id c.commitment.authorization_id
      c.payment.amount_cents

abbrev pub taken_by_other : Context → CommitmentEmission → Bool
taken_by_other c e = e.operation_id != c.payment.operation_id

abbrev pub of_index : Context → CommitmentEmission → Bool
of_index c e =
    e.authorization_id == c.authorization.id && same_index e.issuance_index (some c.issuance_index)

abbrev pub is_claimed : Context → Database → Bool
is_claimed c db =
    has_row
      (λ r. r.authorization_id == c.authorization.id && r.operation_id == c.payment.operation_id)
      db.claims
