-- ===== src/Server/Issue/Endings.antt =====
-- How a request for an authorization ends.
use text.Mathlib.TextEquality.{eq_iff}
use backend_pagos_offline.Prelude.{
  ℕ, ◌+◌, ◌-◌, ◌*◌, ◌^◌, ◌≤◌, min, ◌≡◌, refl, String, Bool, true, false, not, Option, none, some,
  Bytes, arith, ◌==◌, ◌!=◌, string_eq, nat_eq, option_eq, ltb, Bool-cases, Option-cases, inl, inr,
  if◌then◌else◌,
}
use backend_pagos_offline.Result.{Error, Result, ok, err, runtime_error}
use backend_pagos_offline.Exec.{lift, or_raise, raise_when, ◌>>=◌, ◌>>◌}
use backend_pagos_offline.Table.{fetch, rowcount}
use backend_pagos_offline.Table.Laws.{fetch-test}
use backend_pagos_offline.Server.Models.{
  User, Wallet, RegisteredKey, OfflineAuthorization, Database,
}
use backend_pagos_offline.Server.Session.{Session, Query, get_wallet, get_key, get_commitment}
use backend_pagos_offline.Server.Protocol.{Issuer}
use backend_pagos_offline.Server.Updates.{wallet_id_is}
use backend_pagos_offline.Server.Apply.Outcome.{both}
use backend_pagos_offline.Server.Issue.{
  issue_authorization, owned_authorization, new_authorization, load_and_issue, check_and_issue,
  is_refused, exceeds_limits, reserve, reject, sign_and_store, commit_grant, repeat_after_clash,
  repeat_with, parsed, same_grant, grant_of,
}
use backend_pagos_offline.Server.Grants.{
  AuthorizationRequest, AuthorizationResponse, Issuing, authorization_row, commitment_row,
  add_grant, grant_clash, available_cents, get_previous,
}

-- The state that each ending leaves, `d` being what the other processes have committed.
pub data Ending (auth_id : String) (q : AuthorizationRequest) (s : Session) (d : Database)
    (s' : Session) : Type 0 where
  -- refused before the transaction, or answered from what is there
  unchanged : s' ≡ s → Ending auth_id q s d s'
  -- refused in the transaction, which is undone
  undone : s' ≡ both d → Ending auth_id q s d s'
  -- issued, within what is free
  issued :
      (wallet : Wallet) (key_id : String) (total now expires : ℕ) (signed : Bytes)
      → fetch (wallet_id_is q.wallet_id) d.wallets ≡ some wallet
      → total ≤ available_cents wallet d
      → grant_clash (authorization_row q auth_id wallet.id key_id total now expires) d ≡ false
      → s'
        ≡ both (
            add_grant
              (authorization_row q auth_id wallet.id key_id total now expires)
              (commitment_row auth_id wallet.id total signed)
              d)
      → Ending auth_id q s d s'

-- One step of a handler, for any property of the state that is left.
module _ {B : Type 0} (P : Session → Type 0) (s : Session) where
  after_test :
      (b : Bool) (e : Error) (n : Query B)
      → P s
      → (b ≡ false → P (n s).1)
      → P ((raise_when b e >> n) s).1
  after_test true e n p h = p
  after_test false e n p h = h refl

  after_value :
      {A : Type 0} (o : Option A) (e : Error) (f : A → Query B)
      → P s
      → ((a : A) → o ≡ some a → P (f a s).1)
      → P ((or_raise o e >>= f) s).1
  after_value none e f p h = p
  after_value (some a) e f p h = h a refl

  after_result :
      {A : Type 0} (r : Result A) (f : A → Query B)
      → P s
      → ((a : A) → P (f a s).1)
      → P ((lift r >>= f) s).1
  after_result (err e) f p h = p
  after_result (ok a) f p h = h a

module _ (issuing : Issuing) (now : ℕ) (auth_id : String) (q : AuthorizationRequest) where
  after_reject :
      (P : Session → Type 0) (d : Database) (b : Bool) (n : Query AuthorizationResponse)
      → P (both d)
      → (b ≡ false → P (n (both d)).1)
      → P ((reject issuing now auth_id b >> n) (both d)).1
  after_reject P d true n p h = p
  after_reject P d false n p h = h refl

  repeat_with-state :
      (p : OfflineAuthorization) (s : Session) (o : Option (_ × Bytes × issuing.Envelope))
      → (repeat_with issuing now auth_id p q o s).1 ≡ s
  repeat_with-state p s none = refl
  repeat_with-state p s (some (k, wire, grant)) =
      elim (Bool-cases (same_grant issuing now auth_id p q grant)) [
        | inl same ↦ rw (same, raise_when)
        | inr other ↦ rw (other, raise_when)
      ]

  repeat_after_clash-state :
      (s : Session) (o : Option OfflineAuthorization)
      → (repeat_after_clash issuing now auth_id q o s).1 ≡ s
  repeat_after_clash-state s none = refl
  repeat_after_clash-state s (some p) =
      repeat_with-state p s (parsed issuing now auth_id (get_commitment p.id s.current))

  commit_grant-Ending :
      (s : Session) (d : Database) (wallet : Wallet) (key_id : String) (total expires : ℕ)
      (signed : Bytes)
      → fetch (wallet_id_is q.wallet_id) d.wallets ≡ some wallet
      → total ≤ available_cents wallet d
      → Ending auth_id q s d
          (commit_grant issuing now auth_id q
            (authorization_row q auth_id wallet.id key_id total now expires)
            (commitment_row auth_id wallet.id total signed)
            signed
            (both d)).1
  commit_grant-Ending s d wallet key_id total expires signed found bound =
      elim (Bool-cases
        (grant_clash (authorization_row q auth_id wallet.id key_id total now expires) d)) [
          | inl clash ↦
              rw (clash, if◌then◌else◌)
                (undone (repeat_after_clash-state (both d) (get_previous q d)))
          | inr free ↦
              rw (free, if◌then◌else◌)
                (issued wallet key_id total now expires signed found bound free refl)
        ]

  sign_and_store-Ending :
      (s : Session) (d : Database) (wallet : Wallet) (key : RegisteredKey) (issuer : Issuer)
      (total : ℕ)
      → fetch (wallet_id_is q.wallet_id) d.wallets ≡ some wallet
      → total ≤ available_cents wallet d
      → Ending auth_id q s d
          (sign_and_store issuing now auth_id q wallet key issuer total (both d)).1
  sign_and_store-Ending s d wallet key issuer total found bound =
      after_reject (Ending auth_id q s d) d (total == 0) _ (undone refl) (λ _.
        after_result (Ending auth_id q s d) (both d)
          (issuing.sign_grant issuer (grant_of issuing now auth_id q wallet key issuer total)) _
          (undone refl)
          (λ signed.
            commit_grant-Ending s d wallet key.key_id total (now + issuing.lifetime_seconds) signed
              found bound))

  reserve-Ending :
      (s : Session) (d : Database) (wallet : Wallet) (key : RegisteredKey) (issuer : Issuer)
      → wallet.id ≡ q.wallet_id
      → Ending auth_id q s d (reserve issuing now auth_id q wallet key issuer (both d)).1
  reserve-Ending s d wallet key issuer same =
      after_reject (Ending auth_id q s d) d (rowcount (wallet_id_is wallet.id) d.wallets != 1) _
        (undone refl)
        (λ _.
          after_value (Ending auth_id q s d) (both d) (get_wallet wallet.id d) runtime_error _
            (undone refl)
            (λ fresh found.
              after_reject (Ending auth_id q s d) d fresh.offline_review_required _ (undone refl)
                (λ _.
                  sign_and_store-Ending s d fresh key issuer
                    (min (available_cents fresh d) (q.max_payment_cents * q.max_payments))
                    (rw (← same) found) (omega arith))))

  module _ (s : Session) (others : Database → Database) (wallet : Wallet)
      (same : wallet.id ≡ q.wallet_id) where
    load_and_issue-Ending :
        (key : RegisteredKey) (r : Result Issuer)
        → Ending auth_id q s
            (others s.committed)
            (load_and_issue issuing now auth_id q others wallet key r s).1
    load_and_issue-Ending key (err e) = unchanged refl
    load_and_issue-Ending key (ok issuer) =
        elim (Bool-cases (ltb (2 ^ 63 - 1) (q.max_payment_cents * q.max_payments))) [
          | inl large ↦ rw (large, raise_when) (unchanged refl)
          | inr fits ↦
              rw (fits, raise_when) (reserve-Ending s (others s.committed) wallet key issuer same)
        ]

    check_and_issue-Ending :
        (key : Option RegisteredKey)
        → Ending auth_id q s
            (others s.committed)
            (check_and_issue issuing now auth_id q others wallet key s).1
    check_and_issue-Ending none = unchanged refl
    check_and_issue-Ending (some key) =
        elim (Bool-cases (is_refused issuing now auth_id wallet key)) [
          | inl refused ↦ rw (refused, raise_when) (unchanged refl)
          | inr usable ↦
              rw (usable, raise_when)
                (elim (Bool-cases wallet.offline_review_required) [
                  | inl review ↦ rw (review, raise_when) (unchanged refl)
                  | inr clear ↦
                      rw (clear, raise_when)
                        (elim (Bool-cases (not issuing.is_configured)) [
                          | inl missing ↦ rw (missing, raise_when) (unchanged refl)
                          | inr set ↦
                              rw (set, raise_when) (load_and_issue-Ending key issuing.load_issuer)
                        ])
                ])
        ]

    new_authorization-Ending :
        (key : Option RegisteredKey)
        → Ending auth_id q s
            (others s.committed)
            (new_authorization issuing now auth_id q others wallet key s).1
    new_authorization-Ending key = elim (Bool-cases (exceeds_limits issuing now auth_id q)) [
      | inl over ↦ rw (over, raise_when) (unchanged refl)
      | inr within ↦ rw (within, raise_when) (check_and_issue-Ending key)
    ]

  -- Every request ends in one of the three ways.
  pub issue_authorization-Ending :
      (user : User) (others : Database → Database) (s : Session)
      → Ending auth_id q s
          (others s.committed)
          (issue_authorization issuing now auth_id q user others s).1
  unfolding issue_authorization
  issue_authorization-Ending user others s =
      elim (Option-cases (get_wallet q.wallet_id s.current)) [
        | inl missing ↦ rw (missing, issue_authorization) (unchanged refl)
        | inr (w, found) ↦
            let same : w.id ≡ q.wallet_id =
              (eq_iff w.id q.wallet_id).0
                (fetch-test (wallet_id_is q.wallet_id) s.current.wallets w found) in
            rw (found, issue_authorization)
              (elim (Bool-cases (w.user_id != user.id)) [
                | inl other ↦ rw (other, raise_when) (unchanged refl)
                | inr own ↦
                    rw (own, raise_when)
                      (elim (Option-cases (get_previous q s.current)) [
                        | inl new ↦
                            rw (new, owned_authorization)
                              (new_authorization-Ending s others w same
                                (get_key q.wallet_key_id s.current))
                        | inr (p, known) ↦
                            rw (known, owned_authorization)
                              (unchanged (
                                repeat_with-state p s
                                  (parsed issuing now auth_id (get_commitment p.id s.current))))
                      ])
              ])
      ]
