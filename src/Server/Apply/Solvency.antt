-- ===== src/Server/Apply/Solvency.antt =====
-- A settlement spends what was set aside for it: it keeps the books of each commitment balanced,
-- and every wallet solvent.
use text.Mathlib.TextEquality.{eq_iff}
use backend_pagos_offline.Prelude.{
  ℕ, ◌+◌, ◌*◌, ◌≤◌, ◌≡◌, refl, ap, ◌∙◌, String, true, not, ◌&&◌, List, arith, ◌==◌, string_eq, All,
  if◌then◌else◌,
}
use backend_pagos_offline.Result.{Result}
use backend_pagos_offline.Table.{rowcount, update}
use backend_pagos_offline.Table.Laws.{All-update, All-map}
use backend_pagos_offline.Table.Sums.{
  total-update_sub-All, total, total-update_sub, total-update_same, total-update_le,
  total-update_ge, has_row-update, total-eq,
}
use backend_pagos_offline.Server.Models.{Wallet, OfflineCommitment, OfflineAuthorization, Database}
use backend_pagos_offline.Server.Session.{Session}
use backend_pagos_offline.Server.Protocol.{Protocol, PaymentResult}
use backend_pagos_offline.Server.Reserves.{
  committed_cents, balance_cents, held_in, legacy_in, has_commitment, balance_in, IsSolvent,
  IsBalanced,
}
use backend_pagos_offline.Server.Apply.{apply}
use backend_pagos_offline.Server.Updates.{
  Context, debit_test, debit_change, credit_change, wallet_id_is, flag_change, authorization_test,
  authorization_change, commitment_test, commitment_change, settle_test, settle_change,
}
use backend_pagos_offline.Server.Apply.Outcome.{
  Outcome, failed, conflict, review, accepted, apply-Outcome,
}
use backend_pagos_offline.Server.Apply.Money.{updated_counts}

-- The commitment's rows belong to the paying wallet.
abbrev pub IsOwned : Context → Database → Type 0
IsOwned c db =
    All (λ r. r.authorization_id ≡ c.commitment.authorization_id → r.wallet_id ≡ c.wallet.id)
      db.commitments

-- The transaction has not touched the rows that the books are about.
abbrev pub IsUntouched : Session → Type 0
IsUntouched s =
    (s.current.wallets ≡ s.committed.wallets)
    × (s.current.commitments ≡ s.committed.commitments)
    × (s.current.authorizations ≡ s.committed.authorizations)

-- The rows of the commitments after a settlement.
abbrev settled_commitments : Context → List OfflineCommitment → List OfflineCommitment
settled_commitments c rs = update (settle_test c.commitment.authorization_id) settle_change (
    update (commitment_test c.commitment.authorization_id c.payment.amount_cents)
      (commitment_change c.payment.amount_cents) rs)

commitments-IsBalanced :
    (c : Context) (rs : List OfflineCommitment)
    → All IsBalanced rs
    → All IsBalanced (settled_commitments c rs)
commitments-IsBalanced c rs h =
    let k = c.commitment.authorization_id in
    let a = c.payment.amount_cents in
    All-update IsBalanced (settle_test k) settle_change
      (update (commitment_test k a) (commitment_change a) rs) (λ r t b. b)
      (All-update IsBalanced (commitment_test k a) (commitment_change a) rs (λ r t b. ground arith)
        h)

-- The amount, where the wallet is the paying one.
abbrev spent : String → Context → ℕ
spent w c = if c.wallet.id == w then c.payment.amount_cents else 0

held-row :
    (w : String) (c : Context) (r : OfflineCommitment)
    → (r.authorization_id ≡ c.commitment.authorization_id → r.wallet_id ≡ c.wallet.id)
    → commitment_test c.commitment.authorization_id c.payment.amount_cents r ≡ true
    → held_in w (commitment_change c.payment.amount_cents r) + spent w c ≡ held_in w r
held-row w c r own t =
    let here : r.authorization_id ≡ c.commitment.authorization_id =
      (eq_iff r.authorization_id c.commitment.authorization_id).0 (ground arith) in
    let same : (r.wallet_id == w) ≡ (c.wallet.id == w) = ap (λ x. x == w) (own here) in
    ground (arith, same)

-- The paying wallet holds less by the amount, and any other what it held.
held-settled :
    (w : String) (c : Context) (rs : List OfflineCommitment)
    → All (λ r. r.authorization_id ≡ c.commitment.authorization_id → r.wallet_id ≡ c.wallet.id) rs
    → rowcount (commitment_test c.commitment.authorization_id c.payment.amount_cents) rs ≡ 1
    → total (held_in w) (settled_commitments c rs) + spent w c ≡ total (held_in w) rs
held-settled w c rs own h =
    let test = commitment_test c.commitment.authorization_id c.payment.amount_cents in
    let change = commitment_change c.payment.amount_cents in
    let phase =
      total-update_same (held_in w) (settle_test c.commitment.authorization_id) settle_change
        (update test change rs) (λ r t. refl) in
    let fewer = total-update_sub-All (held_in w) test change (spent w c) rs (
      All-map (λ r. r.authorization_id ≡ c.commitment.authorization_id → r.wallet_id ≡ c.wallet.id)
        (λ r. test r ≡ true → held_in w (change r) + spent w c ≡ held_in w r) rs (held-row w c)
        own) in
    let once : rowcount test rs * spent w c ≡ spent w c = rw h (omega arith) in
    omega (arith, phase, fewer, once)

has_commitment-settled :
    (c : Context) (rs : List OfflineCommitment) (r : OfflineAuthorization)
    → has_commitment (settled_commitments c rs) r ≡ has_commitment rs r
has_commitment-settled c rs r =
    has_row-update (λ k. k.authorization_id == r.id) (settle_test c.commitment.authorization_id)
      settle_change _ (λ k t. refl)
    ∙ has_row-update (λ k. k.authorization_id == r.id)
        (commitment_test c.commitment.authorization_id c.payment.amount_cents)
        (commitment_change c.payment.amount_cents) rs (λ k t. refl)

legacy-settled :
    (w : String) (c : Context) (db : Database)
    → total (legacy_in w (settled_commitments c db.commitments)) (
        update
          (authorization_test c.authorization.id c.payment.amount_cents)
          (authorization_change c.payment.amount_cents)
          db.authorizations)
      ≤ total (legacy_in w db.commitments) db.authorizations
legacy-settled w c db =
    let test = authorization_test c.authorization.id c.payment.amount_cents in
    let change = authorization_change c.payment.amount_cents in
    let same =
      total-eq (legacy_in w (settled_commitments c db.commitments)) (legacy_in w db.commitments)
        (update test change db.authorizations)
        (λ r.
          ap (λ b. if r.wallet_id == w && r.active && not b then r.remaining_amount_cents else 0)
            (has_commitment-settled c db.commitments r)) in
    let less =
      total-update_le (legacy_in w db.commitments) test change db.authorizations
        (λ r t. ground arith) in
    omega (arith, same, less)

debit-row :
    (w : String) (c : Context) (r : Wallet)
    → debit_test c.wallet.id c.payment.amount_cents r ≡ true
    → balance_in w (debit_change c.payment.amount_cents r) + spent w c ≡ balance_in w r
debit-row w c r t =
    let here : r.id ≡ c.wallet.id = (eq_iff r.id c.wallet.id).0 (ground arith) in
    let same : (r.id == w) ≡ (c.wallet.id == w) = ap (λ x. x == w) here in ground (arith, same)

balance-settled :
    (w : String) (c : Context) (ws : List Wallet)
    → rowcount (debit_test c.wallet.id c.payment.amount_cents) ws ≡ 1
    → total (balance_in w) ws
      ≤ total (balance_in w) (
          update (wallet_id_is c.merchant_wallet.id) (credit_change c.payment.amount_cents) (
            update
              (debit_test c.wallet.id c.payment.amount_cents)
              (debit_change c.payment.amount_cents)
              ws))
        + spent w c
balance-settled w c ws h =
    let test = debit_test c.wallet.id c.payment.amount_cents in
    let change = debit_change c.payment.amount_cents in
    let less = total-update_sub (balance_in w) test change (spent w c) ws (debit-row w c) in
    let more =
      total-update_ge (balance_in w) (wallet_id_is c.merchant_wallet.id)
        (credit_change c.payment.amount_cents) (update test change ws) (λ r t. ground arith) in
    let once : rowcount test ws * spent w c ≡ spent w c = rw h (omega arith) in
    omega (arith, less, more, once)

Outcome-Books :
    (protocol : Protocol) (now : ℕ) (w : String) (c : Context) (s : Session)
    (out : Result PaymentResult × Session)
    → IsOwned c s.current
    → IsUntouched s
    → All IsBalanced s.committed.commitments
    → IsSolvent w s.committed
    → Outcome protocol now c s out
    → All IsBalanced out.1.committed.commitments × IsSolvent w out.1.committed
Outcome-Books protocol now w c s out own hw b h (failed e s' unused eq kept) = rw (eq, kept) (b, h)
Outcome-Books protocol now w c s out own hw b h (conflict used eq) = rw eq (b, h)
Outcome-Books protocol now w c s out own hw b h (review ps cs unused unmet kept claimed eq) =
    rw eq (
      b,
      omega (
        arith,
        h,
        total-update_same (balance_in w) (wallet_id_is c.payment.wallet_id) flag_change
            s.committed.wallets (λ r t. refl),
      ),
    )
Outcome-Books protocol now w c s out own hw b h (accepted wire unused met free eq) =
    let counts = updated_counts c s.current met in
    let same : committed_cents w s.current ≡ committed_cents w s.committed = rw (hw.1, hw.2) refl in
    let same_balance : balance_cents w s.current ≡ balance_cents w s.committed = rw hw.0 refl in
    rw eq (
      commitments-IsBalanced c s.current.commitments (rw hw.1 b),
      omega (
        arith,
        h,
        same,
        same_balance,
        held-settled w c s.current.commitments own counts.2,
        legacy-settled w c s.current,
        balance-settled w c s.current.wallets counts.1,
      ),
    )

-- Where the commitment belongs to the paying wallet, the transaction has not touched a wallet, a
-- commitment or an authorization, every commitment is balanced (reserved = emitted + held +
-- released), and a wallet is solvent (its reserves within its confirmed balance), both still hold in
-- the database after the settlement, however it ends.
pub apply-Books :
    (protocol : Protocol) (now : ℕ) (w : String) (c : Context) (s : Session)
    → IsOwned c s.current
    → IsUntouched s
    → All IsBalanced s.committed.commitments
    → IsSolvent w s.committed
    → let s' = (apply protocol now c s).1 in
      All IsBalanced s'.committed.commitments × IsSolvent w s'.committed
apply-Books protocol now w c s own hw b h =
    Outcome-Books protocol now w c s (apply protocol now c s) own hw b h
      (apply-Outcome protocol now c s)
