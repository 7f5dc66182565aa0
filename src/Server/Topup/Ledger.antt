-- ===== src/Server/Topup/Ledger.antt =====
-- The money of the wallets and the recorded top-ups move together.
use text.Mathlib.TextEquality.{eq_iff}
use backend_pagos_offline.Prelude.{
  ℕ, ◌+◌, ◌*◌, ◌≤◌, ◌≡◌, refl, String, false, arith, ◌==◌, string_eq, subst, Bool-cases, inl, inr,
}
use backend_pagos_offline.Table.{rowcount, has_row}
use backend_pagos_offline.Table.Sums.{
  rowcount-insert, rowcount-missed, total, total-update_add, total-insert,
}
use backend_pagos_offline.Server.Models.{User, Wallet, SimulatedTopup, Database}
use backend_pagos_offline.Server.Session.{Session}
use backend_pagos_offline.Server.Updates.{wallet_id_is, credit_change}
use backend_pagos_offline.Server.Apply.Money.{balance, money}
use backend_pagos_offline.Server.Topup.{
  TopupRequest, simulated_topup, topup_id_is, topup_row, credit_topup,
}
use backend_pagos_offline.Server.Topup.Once.{
  Topup, unchanged, lost, credited, simulated_topup-Topup,
}

abbrev pub topup_amount : SimulatedTopup → ℕ
topup_amount r = r.amount_cents

abbrev pub topped_up : Database → ℕ
topped_up db = total topup_amount db.topups

-- The balances grew by exactly what was recorded as topped up.
abbrev pub Reconciled : Database → Database → Type 0
Reconciled before after = money after + topped_up before ≡ money before + topped_up after

-- No identifier has two top-ups.
abbrev pub IsUnique : Database → Type 0
IsUnique db = (id : String) → rowcount (topup_id_is id) db.topups ≤ 1

credit_topup-Reconciled :
    (q : TopupRequest) (wallet : Wallet) (user : User) (d : Database)
    → rowcount (wallet_id_is wallet.id) d.wallets ≡ 1
    → Reconciled d (credit_topup q wallet user d)
credit_topup-Reconciled q wallet user d one =
    let more =
      total-update_add balance (wallet_id_is wallet.id) (credit_change q.amount_cents)
        q.amount_cents d.wallets (λ r t. refl) in
    let added = total-insert topup_amount (topup_row q wallet user) d.topups in
    let once : rowcount (wallet_id_is wallet.id) d.wallets * q.amount_cents ≡ q.amount_cents =
      rw one (omega arith) in
    omega (arith, more, added, once)

credit_topup-IsUnique :
    (q : TopupRequest) (wallet : Wallet) (user : User) (d : Database)
    → has_row (topup_id_is q.request_id) d.topups ≡ false
    → IsUnique d
    → IsUnique (credit_topup q wallet user d)
credit_topup-IsUnique q wallet user d free h id =
    let count = rowcount-insert (topup_id_is id) (topup_row q wallet user) d.topups in
    let none_yet =
      rowcount-missed (topup_id_is q.request_id) (topup_id_is q.request_id) d.topups (λ r e. e)
        free in
    elim (Bool-cases (q.request_id == id)) [
      | inl here ↦
          let same : q.request_id ≡ id = (eq_iff q.request_id id).0 here in
          let zero_rows : rowcount (topup_id_is id) d.topups ≡ 0 =
            subst (λ t. rowcount (topup_id_is t) d.topups ≡ 0) same none_yet in
          ground (arith, count, zero_rows)
      | inr away ↦ ground (arith, count, h id)
    ]

Topup-Reconciled :
    (q : TopupRequest) (user : User) (others : Database → Database) (s s' : Session)
    → rowcount (wallet_id_is q.wallet_id) (others s.committed).wallets ≡ 1
    → Reconciled s.committed (others s.committed)
    → IsUnique s.committed
    → IsUnique (others s.committed)
    → Topup q user others s s'
    → Reconciled s.committed s'.committed × IsUnique s'.committed
Topup-Reconciled q user others s s' one h u k (unchanged eq) = rw eq (refl, u)
Topup-Reconciled q user others s s' one h u k (lost clash eq) = rw eq (h, k)
Topup-Reconciled q user others s s' one h u k (credited wallet free same eq) = rw eq (
  omega (arith, h, credit_topup-Reconciled q wallet user (others s.committed) (rw same one)),
  credit_topup-IsUnique q wallet user (others s.committed) free k,
)

-- Where the wallet is one row, no identifier has two top-ups, and the other processes keep the books and the identifiers of the
-- top-ups, a request, however it ends and whatever they commit before its own transaction, makes
-- the sum of the balances grow by exactly what was recorded as topped up, and leaves at most one
-- top-up for each identifier: a repeated request is not credited twice.
pub simulated_topup-Reconciled :
    (q : TopupRequest) (user : User) (others : Database → Database) (s : Session)
    → rowcount (wallet_id_is q.wallet_id) (others s.committed).wallets ≡ 1
    → Reconciled s.committed (others s.committed)
    → IsUnique s.committed
    → IsUnique (others s.committed)
    → let s' = (simulated_topup q user others s).1 in
      Reconciled s.committed s'.committed × IsUnique s'.committed
simulated_topup-Reconciled q user others s one h u k =
    Topup-Reconciled q user others s (simulated_topup q user others s).1 one h u k
      (simulated_topup-Topup q user others s)
