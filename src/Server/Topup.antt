-- ===== src/Server/Topup.antt =====
-- `simulated_topup_v3` of api_v3.py: a credit to a wallet under a request identifier. Between the
-- reads that open it and its write transaction other processes may commit: `others` is what they do.
-- The event that is logged is left out.
pub mod Once
pub mod Ledger
use backend_pagos_offline.Prelude.{
  ℕ, String, Bool, true, false, not, ◌&&◌, ◌||◌, Option, none, some, ◌==◌, ◌!=◌, string_eq, nat_eq,
  if◌then◌else◌,
}
use backend_pagos_offline.Prelude.Int.{pos}
use backend_pagos_offline.Result.{http, runtime_error}
use backend_pagos_offline.Exec.{pure, raise, modify, or_raise, raise_when, ◌>>=◌, ◌>>◌}
use backend_pagos_offline.Table.{fetch, has_row, update, insert}
use backend_pagos_offline.Server.Models.{User, Wallet, SimulatedTopup, Database}
use backend_pagos_offline.Server.Session.{Session, Query, commit, rollback, read, write, get_wallet}
use backend_pagos_offline.Server.Updates.{wallet_id_is, credit_change, user_id_is, saldo_change}

-- `SimulatedTopupRequest` and `SimulatedTopupResponse` of schemas.py
pub record TopupRequest : Type 0 where
  pub request_id : String
  pub wallet_id : String
  pub amount_cents : ℕ

pub record TopupResponse : Type 0 where
  pub request_id : String
  pub wallet_id : String
  pub amount_cents : ℕ
  pub confirmed_balance_cents : ℕ

abbrev pub topup_id_is : String → SimulatedTopup → Bool
topup_id_is id r = r.request_id == id

abbrev pub get_topup : String → Database → Option SimulatedTopup
get_topup id db = fetch (topup_id_is id) db.topups

abbrev pub same_topup : TopupRequest → User → SimulatedTopup → Bool
same_topup q user e =
    e.wallet_id == q.wallet_id && e.user_id == user.id && e.amount_cents == q.amount_cents

-- The answer, with the balance as it is read again.
abbrev pub topup_response : String → String → ℕ → Query TopupResponse
topup_response id wallet_id amount = do
  found ← read (get_wallet wallet_id)
  wallet ← or_raise found runtime_error
  pure (record {
    request_id = id;
    wallet_id = wallet_id;
    amount_cents = amount;
    confirmed_balance_cents = wallet.confirmed_balance_cents;
  })

abbrev pub repeat_topup : TopupRequest → User → SimulatedTopup → Query TopupResponse
repeat_topup q user e = do
  raise_when (not (same_topup q user e)) (http 409)
  topup_response e.request_id e.wallet_id e.amount_cents

abbrev pub topup_row : TopupRequest → Wallet → User → SimulatedTopup
topup_row q wallet user = record {
  request_id = q.request_id;
  wallet_id = wallet.id;
  user_id = user.id;
  amount_cents = q.amount_cents;
}

abbrev pub credit_topup : TopupRequest → Wallet → User → Database → Database
credit_topup q wallet user db = record db {
  wallets = update (wallet_id_is wallet.id) (credit_change q.amount_cents) db.wallets;
  users = update (user_id_is user.id) (saldo_change (pos q.amount_cents)) db.users;
  topups = insert (topup_row q wallet user) db.topups;
}

-- The key and the constraint of the table, as the commit checks them.
abbrev pub topup_clash : TopupRequest → Database → Bool
topup_clash q db = has_row (topup_id_is q.request_id) db.topups || q.amount_cents == 0

abbrev pub is_same_topup : TopupRequest → User → Option SimulatedTopup → Bool
is_same_topup q user none = false
is_same_topup q user (some e) = same_topup q user e

abbrev pub lost_race : TopupRequest → User → Query (Unit {0})
lost_race q user = do
  rollback
  existing ← read (get_topup q.request_id)
  raise_when (not (is_same_topup q user existing)) (http 409)

abbrev pub commit_topup : TopupRequest → Wallet → User → Query (Unit {0})
commit_topup q wallet user = do
  clash ← read (topup_clash q)
  if clash then lost_race q user else do write (credit_topup q wallet user); commit

-- What the other processes commit, as the next transaction sees it.
abbrev pub interfere : (Database → Database) → Query (Unit {0})
interfere others =
    modify (λ s. record { committed = others s.committed; current = others s.committed })

abbrev pub new_topup : TopupRequest → User → (Database → Database) → Wallet → Query TopupResponse
new_topup q user others wallet = do
  interfere others
  commit_topup q wallet user
  topup_response q.request_id wallet.id q.amount_cents

abbrev pub owned_topup : TopupRequest → User → (Database → Database) → Wallet → Query TopupResponse
owned_topup q user others wallet = do
  raise_when (wallet.user_id != user.id) (http 403)
  existing ← read (get_topup q.request_id)
  elim existing [ none ↦ new_topup q user others wallet | some e ↦ repeat_topup q user e ]

unfoldable pub simulated_topup : TopupRequest → User → (Database → Database) → Query TopupResponse
simulated_topup q user others = do
  found ← read (get_wallet q.wallet_id)
  elim found [ none ↦ raise (http 403) | some wallet ↦ owned_topup q user others wallet ]
