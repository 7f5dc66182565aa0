-- ===== src/Server/Session.antt =====
-- A SQLAlchemy session on one database (database.py): what is committed, and what the open
-- transaction sees. A write of a row's attribute and an added row are seen at once; the handlers
-- query no row between such a write and the flush that would make the difference.
use backend_pagos_offline.Prelude.{
  ℕ, String, Bool, true, false, ◌&&◌, Option, some, ◌==◌, string_eq, nat_eq, option_eq, ◌||◌,
}
use backend_pagos_offline.Prelude.Int.{is_zero}
use backend_pagos_offline.Result.{integrity_error}
use backend_pagos_offline.Exec.{Exec, gets, modify, raise_when, ◌>>=◌, ◌>>◌}
use backend_pagos_offline.Table.{fetch, has_row, insert}
use backend_pagos_offline.Server.Models.{
  Wallet, Terminal, RegisteredKey, OfflineAuthorization, OfflinePayment, OfflineCommitment,
  CommitmentEmission, CommitmentClaim, PaymentResolution, LedgerEntry, EntryType, Database,
}

pub record Session : Type 0 where
  pub committed : Database
  pub current : Database

abbrev pub Query : Type 0 → Type 0
Query A = Exec Session A

abbrev pub commit : Query (Unit {0})
commit = modify (λ s. record s { committed = s.current })

abbrev pub rollback : Query (Unit {0})
rollback = modify (λ s. record s { current = s.committed })

abbrev pub read : {A : Type 0} → (Database → A) → Query A
read f = gets (λ s. f s.current)

abbrev pub write : (Database → Database) → Query (Unit {0})
write f = modify (λ s. record s { current = f s.current })

-- `db.get(…)`, by the primary key of each table
abbrev pub get_wallet : String → Database → Option Wallet
get_wallet id db = fetch (λ r. r.id == id) db.wallets

abbrev pub get_terminal : String → Database → Option Terminal
get_terminal id db = fetch (λ r. r.id == id) db.terminals

abbrev pub get_key : String → Database → Option RegisteredKey
get_key id db = fetch (λ r. r.key_id == id) db.keys

abbrev pub get_authorization : String → Database → Option OfflineAuthorization
get_authorization id db = fetch (λ r. r.id == id) db.authorizations

abbrev pub get_payment : String → Database → Option OfflinePayment
get_payment id db = fetch (λ r. r.operation_id == id) db.payments

abbrev pub get_commitment : String → Database → Option OfflineCommitment
get_commitment id db = fetch (λ r. r.authorization_id == id) db.commitments

abbrev pub get_resolution : String → Database → Option PaymentResolution
get_resolution id db = fetch (λ r. r.operation_id == id) db.resolutions

-- `db.add(…)` with the table's keys and unique constraints: a row that repeats one is an
-- `IntegrityError`. The source finds it at the flush of the commit; here the row is refused as it is
-- added. Where a transaction would fail in two ways, the exception may be the other of the two; it
-- commits nothing either way.
unfoldable pub add_payment : OfflinePayment → Query (Unit {0})
add_payment p = do
  clash ←
      read (λ db. has_row (λ r. r.operation_id == p.operation_id || r.nonce == p.nonce) db.payments)
  raise_when (clash || p.amount_cents == 0) integrity_error
  write (λ db. record db { payments = insert p db.payments })

unfoldable pub add_claim : CommitmentClaim → Query (Unit {0})
add_claim c = do
  clash ← read (λ db.
      has_row (λ r. r.authorization_id == c.authorization_id && r.operation_id == c.operation_id)
        db.claims)
  raise_when (clash || c.issuance_index == 0 || c.amount_cents == 0) integrity_error
  write (λ db. record db { claims = insert c db.claims })

-- In a unique constraint no two absent values are equal.
abbrev pub same_index : Option ℕ → Option ℕ → Bool
same_index (some i) (some j) = i == j
same_index _ _ = false

abbrev pub same_emission : CommitmentEmission → CommitmentEmission → Bool
same_emission e r =
    r.authorization_id == e.authorization_id
    && (r.operation_id == e.operation_id || same_index r.issuance_index e.issuance_index)

unfoldable pub add_emission : CommitmentEmission → Query (Unit {0})
add_emission e = do
  clash ← read (λ db. has_row (same_emission e) db.emissions)
  raise_when clash integrity_error
  write (λ db. record db { emissions = insert e db.emissions })

abbrev pub same_type : EntryType → EntryType → Bool
same_type EntryType.debit EntryType.debit = true
same_type EntryType.credit EntryType.credit = true
same_type _ _ = false

unfoldable pub add_entry : LedgerEntry → Query (Unit {0})
add_entry e = do
  clash ← read (λ db.
      has_row (λ r. r.operation_id == e.operation_id && same_type r.entry_type e.entry_type)
        db.ledger)
  raise_when (clash || is_zero e.delta_cents) integrity_error
  write (λ db. record db { ledger = insert e db.ledger })

unfoldable pub add_resolution : PaymentResolution → Query (Unit {0})
add_resolution p = do
  clash ← read (λ db. has_row (λ r. r.operation_id == p.operation_id) db.resolutions)
  raise_when clash integrity_error
  write (λ db. record db { resolutions = insert p db.resolutions })
