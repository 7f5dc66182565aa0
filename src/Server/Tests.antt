-- ===== src/Server/Tests.antt =====
-- A payment of 2 euros between two wallets, on which the theorems about the settlement are applied,
-- and runs of the settlement on it.
use backend_pagos_offline.Prelude.{
  All, ◌⊎◌, ◌↔◌, ℕ, ◌≡◌, ◌≤◌, refl, arith, true, false, Option, none, some, [], ◌∷◌, Bytes,
}
use backend_pagos_offline.Prelude.Int.{pos}
use backend_pagos_offline.Result.{Result, ok, err}
use backend_pagos_offline.Server.Models.{
  User, CommitmentClaim, Wallet, OfflineAuthorization, OfflinePayment, OfflineCommitment,
  PaymentState, Phase, CommitmentEmission, RegisteredKey, Database,
}
use backend_pagos_offline.Server.Session.{Session, add_emission, add_entry, add_resolution}
use backend_pagos_offline.Server.Protocol.{Protocol, PaymentResult, Status}
use backend_pagos_offline.Server.Apply.{apply, settle, sign_resolution, parse_optional}
use backend_pagos_offline.Server.Updates.{Context}
use backend_pagos_offline.Server.Apply.Outcome.{Outcome}
use backend_pagos_offline.Server.Apply.Money.{money, apply-money}
use backend_pagos_offline.Server.Apply.Solvency.{apply-Books}
use backend_pagos_offline.Server.Reserves.{IsBalanced, IsSolvent}
use backend_pagos_offline.Server.Claims.{record_claim}
use backend_pagos_offline.Server.Claims.Laws.{collides, recorded, record_claim-again}
use backend_pagos_offline.Server.Topup.{TopupRequest, simulated_topup}
use backend_pagos_offline.Server.Topup.Ledger.{Reconciled, IsUnique, simulated_topup-Reconciled}
use backend_pagos_offline.Server.Issue.{issue_authorization}
use backend_pagos_offline.Server.Grants.{AuthorizationRequest, AuthorizationResponse, Issuing}
use backend_pagos_offline.Server.Issue.Solvency.{issue_authorization-Books}
use backend_pagos_offline.Server.Revocation.{requires_review, requires_review_lem}

-- An envelope that is its own payload, and no checks.
abbrev plain_protocol : Protocol
plain_protocol = record {
  Envelope = Bytes;
  parse_signed_envelope = ok;
  payload_digest = λ e. "digest";
  text_field = λ name e. ok name;
  load_issuer = ok (record { key_id = "issuer"; fingerprint = "fp" });
  sign_envelope = λ i r. ok (9 ∷ []);
}

abbrev payer : Wallet
payer = record {
  id = "w1";
  user_id = 1;
  confirmed_balance_cents = 1000;
  currency = "EUR";
  offline_review_required = false;
}

abbrev merchant : Wallet
merchant = record {
  id = "w2";
  user_id = 2;
  confirmed_balance_cents = 50;
  currency = "EUR";
  offline_review_required = false;
}

abbrev grant : OfflineAuthorization
grant = record {
  id = "a1";
  issuance_request_id = none;
  wallet_id = "w1";
  wallet_key_id = "k1";
  max_payment_cents = 300;
  remaining_amount_cents = 500;
  remaining_payments = 3;
  issued_at = 10;
  expires_at = 1000;
  active = true;
}

abbrev reserve : OfflineCommitment
reserve = record {
  authorization_id = "a1";
  wallet_id = "w1";
  reserved_cents = 500;
  emitted_cents = 0;
  emitted_count = 0;
  held_cents = 500;
  released_unissued_cents = 0;
  released_rejected_cents = 0;
  phase = Phase.opened;
  closed = false;
  closure_id = none;
  closure_envelope = none;
  closure_manifest = none;
  manifest_digest = none;
  authorization_envelope = some (1 ∷ []);
}

abbrev purchase : OfflinePayment
purchase = record {
  operation_id = "p1";
  wallet_id = "w1";
  merchant_id = "m1";
  terminal_id = "t1";
  authorization_id = "a1";
  amount_cents = 200;
  currency = "EUR";
  nonce = "n1";
  request_envelope = 2 ∷ [];
  receipt_envelope = 3 ∷ [];
  ack_envelope = some (4 ∷ []);
  state = PaymentState.validated;
  rejection_code = none;
  applied_at = none;
}

abbrev case : Context
case = record {
  payment = purchase;
  wallet = payer;
  merchant_wallet = merchant;
  authorization = grant;
  commitment = reserve;
  issuance_index = 1;
}

abbrev shop : Database
shop = record {
  users = [];
  wallets = payer ∷ merchant ∷ [];
  terminals = [];
  keys = [];
  authorizations = grant ∷ [];
  payments = purchase ∷ [];
  ledger = [];
  commitments = reserve ∷ [];
  emissions = [];
  claims = [];
  resolutions = [];
  topups = [];
}

-- The payment is added, and not yet committed.
abbrev start : Session
start = record { committed = record shop { payments = [] }; current = shop }

abbrev status_of : Result PaymentResult → Option Status
status_of (ok r) = some r.operation_status
status_of (err e) = none

-- The payment is settled.
settles : status_of (apply plain_protocol 20 case start).0 ≡ some Status.accepted
unfolding apply settle sign_resolution parse_optional add_emission add_entry add_resolution
settles = refl

-- The index of another operation's emission is refused.
abbrev used_index : CommitmentEmission
used_index = record {
  authorization_id = "a1";
  operation_id = "p0";
  issuance_index = some 1;
  amount_cents = 100;
}

refuses_index :
    status_of
      (apply plain_protocol 20 case
        (record start { current = record shop { emissions = used_index ∷ [] } })).0
    ≡ some Status.pending_review
unfolding apply
refuses_index = refl

apply-Books_example :
    All IsBalanced (apply plain_protocol 20 case start).1.committed.commitments
    × IsSolvent "w1" (apply plain_protocol 20 case start).1.committed
apply-Books_example =
    apply-Books plain_protocol 20 "w1" case start (λ _. refl, tt) (refl, refl, refl) (refl, tt)
      (omega arith)

apply-money_example : money (apply plain_protocol 20 case start).1.committed ≡ money start.committed
apply-money_example = apply-money plain_protocol 20 case start refl refl

abbrev revoked_key : RegisteredKey
revoked_key = record {
  key_id = "k1";
  owner_user_id = 1;
  purpose = "WALLET";
  wallet_id = some "w1";
  terminal_id = none;
  public_key_b64 = "";
  fingerprint = "";
  proof_nonce = "";
  revoked = true;
  revoked_at = some 30;
}

requires_review_example : (requires_review revoked_key 40 ≡ true) ↔ (
    (revoked_key.revoked ≡ true)
    × ((revoked_key.revoked_at ≡ none) ⊎ ((d : ℕ) × (revoked_key.revoked_at ≡ some d) × (d ≤ 40))))
requires_review_example = requires_review_lem revoked_key 40

abbrev claim : CommitmentClaim
claim = record {
  authorization_id = "a1";
  operation_id = "p1";
  issuance_index = 1;
  amount_cents = 200;
  receipt_digest = "digest";
}

record_claim-again_example :
    (record_claim claim start ≡ (ok (collides claim start.current), recorded claim start))
    × (record_claim claim (recorded claim start)
        ≡ (ok (collides claim start.current), recorded claim start))
record_claim-again_example = record_claim-again claim start (omega arith) (omega arith)

abbrev client : User
client = record { id = 1; nombre = "Ana"; saldo_real = pos 10; role = "cliente" }

abbrev topup : TopupRequest
topup = record { request_id = "r1"; wallet_id = "w1"; amount_cents = 300 }

abbrev resting : Session
resting = record { committed = shop; current = shop }

no_topups : IsUnique shop
no_topups id = omega arith

simulated_topup-Reconciled_example :
    Reconciled resting.committed (simulated_topup topup client (λ d. d) resting).1.committed
    × IsUnique (simulated_topup topup client (λ d. d) resting).1.committed
simulated_topup-Reconciled_example =
    simulated_topup-Reconciled topup client (λ d. d) resting refl refl no_topups no_topups

abbrev wallet_key : RegisteredKey
wallet_key = record revoked_key { revoked = false; revoked_at = none }

abbrev with_key : Session
with_key = record {
  committed = record shop { keys = wallet_key ∷ [] };
  current = record shop { keys = wallet_key ∷ [] };
}

-- An issuer that signs everything.
abbrev plain_issuing : Issuing
plain_issuing = record {
  Envelope = Bytes;
  max_payment_limit = 1000;
  max_payments_limit = 10;
  lifetime_seconds = 60;
  is_configured = true;
  load_issuer = ok (record { key_id = "issuer"; fingerprint = "fp" });
  sign_grant = λ i g. ok (8 ∷ []);
  parse_signed_envelope = ok;
  number_field = λ name e. none;
  text_field = λ name e. none;
}

abbrev demand : AuthorizationRequest
demand = record {
  request_id = "r2";
  wallet_id = "w1";
  wallet_key_id = "k1";
  max_payment_cents = 100;
  max_payments = 4;
}

abbrev total_of : Result AuthorizationResponse → Option ℕ
total_of (ok r) = some r.authorized_total_cents
total_of (err e) = none

-- All that was asked for is free: 400 of the 500 that the first commitment leaves.
issues :
    total_of (issue_authorization plain_issuing 20 "a2" demand client (λ d. d) with_key).0
    ≡ some 400
unfolding issue_authorization
issues = refl

issue_authorization-Books_example :
    IsSolvent "w1"
      (issue_authorization plain_issuing 20 "a2" demand client (λ d. d) with_key).1.committed
    × All IsBalanced
        (issue_authorization plain_issuing 20 "a2" demand client
          (λ d. d)
          with_key).1.committed.commitments
issue_authorization-Books_example =
    issue_authorization-Books plain_issuing 20 "a2" demand client (λ d. d) with_key "w1"
      (omega arith) (omega arith) (refl, tt) (refl, tt)
