-- ===== src/Server/Issue/Solvency.antt =====
-- A new authorization reserves no more than is free: it keeps the books balanced and every wallet
-- solvent.
use text.Mathlib.TextEquality.{eq_iff}
use backend_pagos_offline.Prelude.{
  ℕ, ◌+◌, ◌-◌, ◌≤◌, ◌≡◌, refl, ◌∙◌, String, true, some, List, Bytes, arith, ◌==◌, string_eq, All,
  Bool-cases, inl, inr, beq_refl, subst, sym,
}
use backend_pagos_offline.Table.{fetch, insert}
use backend_pagos_offline.Table.Laws.{fetch-test, All-insert}
use backend_pagos_offline.Table.Sums.{total-insert, total_mono, fetch-total, has_row-insert}
use backend_pagos_offline.Server.Models.{
  User, Wallet, OfflineAuthorization, OfflineCommitment, Database,
}
use backend_pagos_offline.Server.Session.{Session}
use backend_pagos_offline.Server.Updates.{wallet_id_is}
use backend_pagos_offline.Server.Reserves.{
  held_in, legacy_in, committed_cents, balance_cents, IsSolvent, IsBalanced,
}
use backend_pagos_offline.Server.Issue.{issue_authorization}
use backend_pagos_offline.Server.Grants.{
  AuthorizationRequest, Issuing, authorization_row, commitment_row, add_grant, available_cents,
}
use backend_pagos_offline.Server.Issue.Endings.{
  Ending, unchanged, undone, issued, issue_authorization-Ending,
}

module _ (w : String) (a : OfflineAuthorization) (k : OfflineCommitment)
    (same : k.authorization_id ≡ a.id) where
  -- The new authorization has its commitment, so that the older sum leaves it out.
  legacy-new : (ks : List OfflineCommitment) → legacy_in w (insert k ks) a ≡ 0
  legacy-new ks =
      let added = has_row-insert (λ r. r.authorization_id == a.id) k ks in
      let own : (k.authorization_id == a.id) ≡ true = rw same (beq_refl a.id) in
      ground (arith, added, own)

  legacy-less :
      (ks : List OfflineCommitment) (r : OfflineAuthorization)
      → legacy_in w (insert k ks) r ≤ legacy_in w ks r
  legacy-less ks r = ground (arith, has_row-insert (λ s. s.authorization_id == r.id) k ks)

  -- What is committed grows by what the new commitment holds, at most.
  committed-add_grant :
      (d : Database) → committed_cents w (add_grant a k d) ≤ committed_cents w d + held_in w k
  committed-add_grant d =
      let held = total-insert (held_in w) k d.commitments in
      let legacy = total-insert (legacy_in w (insert k d.commitments)) a d.authorizations in
      let less =
        total_mono (legacy_in w (insert k d.commitments)) (legacy_in w d.commitments)
          d.authorizations (legacy-less d.commitments) in
      let own = legacy-new d.commitments in omega (arith, held, legacy, less, own)

available-balance :
    (id : String) (wallet : Wallet) (d : Database)
    → fetch (wallet_id_is id) d.wallets ≡ some wallet
    → wallet.confirmed_balance_cents ≤ balance_cents id d
available-balance id wallet d found =
    fetch-total (λ r. r.confirmed_balance_cents) (wallet_id_is id) d.wallets wallet found

issued-IsSolvent :
    (w auth_id : String) (q : AuthorizationRequest) (wallet : Wallet) (key_id : String)
    (amount now expires : ℕ) (signed : Bytes) (d : Database)
    → fetch (wallet_id_is q.wallet_id) d.wallets ≡ some wallet
    → amount ≤ available_cents wallet d
    → IsSolvent w d
    → IsSolvent w (
        add_grant
          (authorization_row q auth_id wallet.id key_id amount now expires)
          (commitment_row auth_id wallet.id amount signed)
          d)
issued-IsSolvent w auth_id q wallet key_id amount now expires signed d found bound h =
    let grown =
      committed-add_grant w (authorization_row q auth_id wallet.id key_id amount now expires)
        (commitment_row auth_id wallet.id amount signed) refl d in
    elim (Bool-cases (wallet.id == w)) [
      | inl own ↦
          let named : wallet.id ≡ q.wallet_id =
            (eq_iff wallet.id q.wallet_id).0
              (fetch-test (wallet_id_is q.wallet_id) d.wallets wallet found) in
          let this : wallet.id ≡ w = (eq_iff wallet.id w).0 own in
          let covered : wallet.confirmed_balance_cents ≤ balance_cents w d =
            subst (λ t. wallet.confirmed_balance_cents ≤ balance_cents t d) (sym named ∙ this)
              (available-balance q.wallet_id wallet d found) in
          let free : amount ≤ wallet.confirmed_balance_cents - committed_cents w d =
            subst (λ t. amount ≤ wallet.confirmed_balance_cents - committed_cents t d) this bound in
          let share : held_in w (commitment_row auth_id wallet.id amount signed) ≡ amount =
            ground (arith, own) in
          omega (arith, grown, covered, free, share, h)
      | inr away ↦
          let share : held_in w (commitment_row auth_id wallet.id amount signed) ≡ 0 =
            ground (arith, away) in
          omega (arith, grown, share, h)
    ]

Ending-Books :
    (w auth_id : String) (q : AuthorizationRequest) (s s' : Session) (d : Database)
    → IsSolvent w s.committed
    → IsSolvent w d
    → All IsBalanced s.committed.commitments
    → All IsBalanced d.commitments
    → Ending auth_id q s d s'
    → IsSolvent w s'.committed × All IsBalanced s'.committed.commitments
Ending-Books w auth_id q s s' d h hd b bd (unchanged eq) = rw eq (h, b)
Ending-Books w auth_id q s s' d h hd b bd (undone eq) = rw eq (hd, bd)
Ending-Books w auth_id q s s' d h hd b bd
      (issued wallet key_id amount now expires signed found bound free eq) =
    rw eq (
      issued-IsSolvent w auth_id q wallet key_id amount now expires signed d found bound hd,
      All-insert IsBalanced (commitment_row auth_id wallet.id amount signed) d.commitments
          (omega arith) bd,
    )

-- Where a wallet is solvent and every commitment balanced, before the request and after what other
-- processes commit while it is handled, they still are after it, however it ends: what is reserved
-- for a new authorization is within what is free of the balance at that moment.
pub issue_authorization-Books :
    (issuing : Issuing) (now : ℕ) (auth_id : String) (q : AuthorizationRequest) (user : User)
    (others : Database → Database) (s : Session) (w : String)
    → IsSolvent w s.committed
    → IsSolvent w (others s.committed)
    → All IsBalanced s.committed.commitments
    → All IsBalanced (others s.committed).commitments
    → let s' = (issue_authorization issuing now auth_id q user others s).1 in
      IsSolvent w s'.committed × All IsBalanced s'.committed.commitments
issue_authorization-Books issuing now auth_id q user others s w h hd b bd =
    Ending-Books w auth_id q s (issue_authorization issuing now auth_id q user others s).1
      (others s.committed) h hd b bd
      (issue_authorization-Ending issuing now auth_id q user others s)
