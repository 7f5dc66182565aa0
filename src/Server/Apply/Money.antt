-- ===== src/Server/Apply/Money.antt =====
-- A settlement moves money, and neither makes nor loses any.
use backend_pagos_offline.Prelude.{ℕ, ◌*◌, ◌≡◌, refl, String, true, List, arith, string_eq, nat_eq}
use backend_pagos_offline.Result.{Result}
use backend_pagos_offline.Table.{rowcount, update}
use backend_pagos_offline.Table.Sums.{
  total, total-update_add, total-update_sub, total-update_same, rowcount-update,
}
use backend_pagos_offline.Server.Models.{Wallet, Database}
use backend_pagos_offline.Server.Session.{Session}
use backend_pagos_offline.Server.Protocol.{Protocol, PaymentResult}
use backend_pagos_offline.Server.Apply.{apply}
use backend_pagos_offline.Server.Updates.{
  Context, updated, debit_test, debit_change, credit_change, wallet_id_is, flag_change,
  authorization_test, commitment_test,
}
use backend_pagos_offline.Server.Apply.Outcome.{
  Outcome, failed, conflict, review, accepted, apply-Outcome,
}

abbrev pub balance : Wallet → ℕ
balance w = w.confirmed_balance_cents

abbrev pub money : Database → ℕ
money db = total balance db.wallets

-- The three row counts of a settlement whose updates were all made.
pub updated_counts :
    (c : Context) (db : Database)
    → updated c db ≡ true
    → (rowcount (authorization_test c.authorization.id c.payment.amount_cents) db.authorizations
        ≡ 1)
      × (rowcount (debit_test c.wallet.id c.payment.amount_cents) db.wallets ≡ 1)
      × (rowcount
            (commitment_test c.commitment.authorization_id c.payment.amount_cents)
            db.commitments
          ≡ 1)
updated_counts c db h = ground arith

-- The debit takes the amount off once, and the credit puts it on once.
debit-credit :
    (w m : String) (a : ℕ) (ws : List Wallet)
    → rowcount (debit_test w a) ws ≡ 1
    → rowcount (wallet_id_is m) ws ≡ 1
    → total balance
        (update (wallet_id_is m) (credit_change a) (update (debit_test w a) (debit_change a) ws))
      ≡ total balance ws
debit-credit w m a ws hd hm =
    let ds = update (debit_test w a) (debit_change a) ws in
    let less =
      total-update_sub balance (debit_test w a) (debit_change a) a ws (λ r t. ground arith) in
    let more = total-update_add balance (wallet_id_is m) (credit_change a) a ds (λ r t. refl) in
    let still =
      rowcount-update (wallet_id_is m) (debit_test w a) (debit_change a) ws (λ r t. refl) in
    let one : rowcount (debit_test w a) ws * a ≡ a = rw hd (omega arith) in
    let once : rowcount (wallet_id_is m) ds * a ≡ a = rw (still, hm) (omega arith) in
    omega (arith, less, more, one, once)

Outcome-money :
    (protocol : Protocol) (now : ℕ) (c : Context) (s : Session)
    (out : Result PaymentResult × Session)
    → rowcount (wallet_id_is c.merchant_wallet.id) s.committed.wallets ≡ 1
    → s.current.wallets ≡ s.committed.wallets
    → Outcome protocol now c s out
    → money out.1.committed ≡ money s.committed
Outcome-money protocol now c s out hm hw (failed e s' unused eq kept) = rw (eq, kept)
Outcome-money protocol now c s out hm hw (conflict used eq) = rw eq
Outcome-money protocol now c s out hm hw (review ps cs unused unmet kept claimed eq) = rw eq (
    total-update_same balance (wallet_id_is c.payment.wallet_id) flag_change s.committed.wallets
      (λ r t. refl))
Outcome-money protocol now c s out hm hw (accepted wire unused met free eq) =
    rw (eq, ← hw)
      (debit-credit c.wallet.id c.merchant_wallet.id c.payment.amount_cents s.current.wallets
        (updated_counts c s.current met).1 (rw hw hm))

-- Where the merchant's wallet is one row, and the transaction has not yet touched a wallet, the sum
-- of all confirmed balances that a settlement leaves in the database is the one that it found,
-- whether it settles the payment, keeps it for review, refuses it or raises.
pub apply-money :
    (protocol : Protocol) (now : ℕ) (c : Context) (s : Session)
    → rowcount (wallet_id_is c.merchant_wallet.id) s.committed.wallets ≡ 1
    → s.current.wallets ≡ s.committed.wallets
    → money (apply protocol now c s).1.committed ≡ money s.committed
apply-money protocol now c s hm hw =
    Outcome-money protocol now c s (apply protocol now c s) hm hw (apply-Outcome protocol now c s)
