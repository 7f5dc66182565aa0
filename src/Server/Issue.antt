-- ===== src/Server/Issue.antt =====
-- `issue_authorization_v3` and `_repeat_authorization` of api_v3.py: a wallet sets a part of its
-- balance aside. Between the reads that open the handler and its write transaction other processes
-- may commit: `others` is what they do. The event that is logged is left out.
pub mod Endings
pub mod Solvency
use backend_pagos_offline.Prelude.{
  ℕ, ◌+◌, ◌-◌, ◌*◌, ◌^◌, min, String, Bool, true, false, not, ◌&&◌, ◌||◌, Option, none, some, Bytes,
  ◌==◌, ◌!=◌, string_eq, nat_eq, option_eq, ltb, if◌then◌else◌,
}
use backend_pagos_offline.Result.{Result, ok, err, http, runtime_error}
use backend_pagos_offline.Exec.{pure, raise, lift, or_raise, raise_when, ◌>>=◌, ◌>>◌}
use backend_pagos_offline.Table.{fetch, has_row, rowcount, insert}
use backend_pagos_offline.Server.Models.{
  User, Wallet, RegisteredKey, OfflineAuthorization, OfflineCommitment, Phase, opened, Database,
}
use backend_pagos_offline.Server.Session.{
  Query, commit, rollback, read, write, get_wallet, get_key, get_commitment,
}
use backend_pagos_offline.Server.Protocol.{Issuer}
use backend_pagos_offline.Server.Reserves.{committed_cents}
use backend_pagos_offline.Server.Updates.{wallet_id_is}
use backend_pagos_offline.Server.Topup.{interfere}
use backend_pagos_offline.Server.Grants.{
  AuthorizationRequest, AuthorizationResponse, Grant, Issuing, of_request, get_previous,
  authorization_row, commitment_row, add_grant, grant_clash, available_cents,
}

module _ (issuing : Issuing) (now : ℕ) (auth_id : String) where
  abbrev pub same_grant : OfflineAuthorization → AuthorizationRequest → issuing.Envelope → Bool
  same_grant previous q grant =
      previous.wallet_id == q.wallet_id
      && previous.wallet_key_id == q.wallet_key_id
      && previous.max_payment_cents == q.max_payment_cents
      && issuing.number_field "max_payments" grant == some q.max_payments
      && issuing.number_field "max_payment_cents" grant == some q.max_payment_cents
      && issuing.text_field "wallet_id" grant == some q.wallet_id
      && issuing.text_field "wallet_key_id" grant == some q.wallet_key_id

  abbrev pub parsed :
      Option OfflineCommitment → Option (OfflineCommitment × Bytes × issuing.Envelope)
  parsed none = none
  parsed (some k) = elim k.authorization_envelope [
    | none ↦ none
    | some wire ↦ elim (issuing.parse_signed_envelope wire) [
      | err e ↦ none
      | ok grant ↦ some (k, wire, grant)
    ]
  ]

  -- `_repeat_authorization`; without a commitment, or a readable grant of it, the requests differ
  abbrev pub repeat_with :
      OfflineAuthorization
      → AuthorizationRequest
      → Option (OfflineCommitment × Bytes × issuing.Envelope)
      → Query AuthorizationResponse
  repeat_with previous q none = raise (http 409)
  repeat_with previous q (some (k, wire, grant)) = do
    raise_when (not (same_grant previous q grant)) (http 409)
    pure (record {
      authorization_id = previous.id;
      wallet_id = previous.wallet_id;
      authorized_total_cents = k.reserved_cents;
      authorization_envelope = some wire;
      issued_at = previous.issued_at;
      spend_expires_at = previous.expires_at;
    })

  abbrev pub repeat_authorization :
      OfflineAuthorization → AuthorizationRequest → Query AuthorizationResponse
  repeat_authorization previous q = do
    commitment ← read (get_commitment previous.id)
    repeat_with previous q (parsed commitment)

  abbrev pub repeat_after_clash :
      AuthorizationRequest → Option OfflineAuthorization → Query AuthorizationResponse
  repeat_after_clash q none = raise (http 409)
  repeat_after_clash q (some previous) = repeat_authorization previous q

  abbrev pub grant_conflict : AuthorizationRequest → Query AuthorizationResponse
  grant_conflict q = do rollback; previous ← read (get_previous q); repeat_after_clash q previous

  -- `db.add` of both rows and the commit.
  abbrev pub commit_grant :
      AuthorizationRequest
      → OfflineAuthorization
      → OfflineCommitment
      → Bytes
      → Query AuthorizationResponse
  commit_grant q a k signed = do
    clash ← read (grant_clash a)
    if clash then grant_conflict q else do
      write (add_grant a k)
      commit
      pure (record {
        authorization_id = a.id;
        wallet_id = a.wallet_id;
        authorized_total_cents = k.reserved_cents;
        authorization_envelope = some signed;
        issued_at = a.issued_at;
        spend_expires_at = a.expires_at;
      })

  -- A refusal inside the transaction.
  abbrev pub reject : Bool → Query (Unit {0})
  reject true = do rollback; raise (http 409)
  reject false = pure tt

  abbrev pub grant_of : AuthorizationRequest → Wallet → RegisteredKey → Issuer → ℕ → Grant
  grant_of q wallet key issuer total = record {
    authorization_id = auth_id;
    wallet_id = wallet.id;
    wallet_key_id = key.key_id;
    wallet_key_fingerprint = key.fingerprint;
    wallet_public_key_b64 = key.public_key_b64;
    max_payment_cents = q.max_payment_cents;
    max_payments = q.max_payments;
    authorized_total_cents = total;
    issued_at = now;
    spend_expires_at = now + issuing.lifetime_seconds;
    issuer_key_id = issuer.key_id;
    issuer_key_fingerprint = issuer.fingerprint;
  }

  -- What is reserved is signed and stored.
  abbrev pub sign_and_store :
      AuthorizationRequest → Wallet → RegisteredKey → Issuer → ℕ → Query AuthorizationResponse
  sign_and_store q wallet key issuer total = do
    reject (total == 0)
    signed ← lift (issuing.sign_grant issuer (grant_of q wallet key issuer total))
    commit_grant q
        (authorization_row q auth_id wallet.id key.key_id total now
          (now + issuing.lifetime_seconds))
        (commitment_row auth_id wallet.id total signed) signed

  -- The write transaction. The source tests for a review twice, with nothing between the tests.
  abbrev pub reserve :
      AuthorizationRequest → Wallet → RegisteredKey → Issuer → Query AuthorizationResponse
  reserve q wallet key issuer = do
    locked ← read (λ db. rowcount (wallet_id_is wallet.id) db.wallets)
    reject (locked != 1)
    refreshed ← read (get_wallet wallet.id)
    fresh ← or_raise refreshed runtime_error
    reject fresh.offline_review_required
    available ← read (available_cents fresh)
    sign_and_store q fresh key issuer (min available (q.max_payment_cents * q.max_payments))

  abbrev pub issue_with :
      AuthorizationRequest
      → (Database → Database)
      → Wallet
      → RegisteredKey
      → Issuer
      → Query AuthorizationResponse
  issue_with q others wallet key issuer = do
    raise_when (ltb (2 ^ 63 - 1) (q.max_payment_cents * q.max_payments)) (http 422)
    interfere others
    reserve q wallet key issuer

  abbrev pub load_and_issue :
      AuthorizationRequest
      → (Database → Database)
      → Wallet
      → RegisteredKey
      → Result Issuer
      → Query AuthorizationResponse
  load_and_issue q others wallet key (ok issuer) = issue_with q others wallet key issuer
  load_and_issue q others wallet key (err e) = raise (http 503)

  abbrev pub is_refused : Wallet → RegisteredKey → Bool
  is_refused wallet key = key.revoked || key.wallet_id != some wallet.id

  abbrev pub check_and_issue :
      AuthorizationRequest
      → (Database → Database)
      → Wallet
      → Option RegisteredKey
      → Query AuthorizationResponse
  check_and_issue q others wallet none = raise (http 403)
  check_and_issue q others wallet (some key) = do
    raise_when (is_refused wallet key) (http 403)
    raise_when wallet.offline_review_required (http 409)
    raise_when (not issuing.is_configured) (http 503)
    load_and_issue q others wallet key issuing.load_issuer

  abbrev pub exceeds_limits : AuthorizationRequest → Bool
  exceeds_limits q =
      ltb issuing.max_payment_limit q.max_payment_cents
      || ltb issuing.max_payments_limit q.max_payments

  abbrev pub new_authorization :
      AuthorizationRequest
      → (Database → Database)
      → Wallet
      → Option RegisteredKey
      → Query AuthorizationResponse
  new_authorization q others wallet key = do
    raise_when (exceeds_limits q) (http 422)
    check_and_issue q others wallet key

  abbrev pub owned_authorization :
      AuthorizationRequest
      → User
      → (Database → Database)
      → Option RegisteredKey
      → Wallet
      → Query AuthorizationResponse
  owned_authorization q user others key wallet = do
    raise_when (wallet.user_id != user.id) (http 403)
    previous ← read (get_previous q)
    elim previous [
      | none ↦ new_authorization q others wallet key
      | some p ↦ repeat_authorization p q
    ]

  unfoldable pub issue_authorization :
      AuthorizationRequest → User → (Database → Database) → Query AuthorizationResponse
  issue_authorization q user others = do
    found ← read (get_wallet q.wallet_id)
    key ← read (get_key q.wallet_key_id)
    elim found [
      | none ↦ raise (http 403)
      | some wallet ↦ owned_authorization q user others key wallet
    ]
