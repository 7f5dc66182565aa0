-- ===== src/Server/Models.antt =====
-- The tables of models.py that the settlement of offline payments uses. A column with a CHECK
-- constraint of sign is a natural number; a column of instants is in seconds. Amounts of the decimal
-- column `saldo_real` are in cents. The columns that the database fills in by itself are left out.
use backend_pagos_offline.Prelude.{ℕ, String, Bool, Option, List, Bytes}
use backend_pagos_offline.Prelude.Int.{ℤ}

pub record User : Type 0 where
  pub id : ℕ
  pub nombre : String
  pub saldo_real : ℤ
  pub role : String

pub record Wallet : Type 0 where
  pub id : String
  pub user_id : ℕ
  pub confirmed_balance_cents : ℕ
  pub currency : String
  pub offline_review_required : Bool

pub record Terminal : Type 0 where
  pub id : String
  pub merchant_user_id : ℕ
  pub merchant_id : String
  pub active : Bool

pub record RegisteredKey : Type 0 where
  pub key_id : String
  pub owner_user_id : ℕ
  pub purpose : String
  pub wallet_id : Option String
  pub terminal_id : Option String
  pub public_key_b64 : String
  pub fingerprint : String
  pub proof_nonce : String
  pub revoked : Bool
  pub revoked_at : Option ℕ

pub record OfflineAuthorization : Type 0 where
  pub id : String
  pub issuance_request_id : Option String
  pub wallet_id : String
  pub wallet_key_id : String
  pub max_payment_cents : ℕ
  pub remaining_amount_cents : ℕ
  pub remaining_payments : ℕ
  pub issued_at : ℕ
  pub expires_at : ℕ
  pub active : Bool

-- the texts of the column `state`
pub data PaymentState : Type 0 where
  pending_evidence validated pending_review accepted rejected : PaymentState

pub record OfflinePayment : Type 0 where
  pub operation_id : String
  pub wallet_id : String
  pub merchant_id : String
  pub terminal_id : String
  pub authorization_id : String
  pub amount_cents : ℕ
  pub currency : String
  pub nonce : String
  pub request_envelope : Bytes
  pub receipt_envelope : Bytes
  pub ack_envelope : Option Bytes
  pub state : PaymentState
  pub rejection_code : Option String
  pub applied_at : Option ℕ

pub data EntryType : Type 0 where
  debit credit : EntryType

pub record LedgerEntry : Type 0 where
  pub operation_id : String
  pub wallet_id : String
  pub entry_type : EntryType
  pub delta_cents : ℤ

-- the texts of the column `phase`
pub data Phase : Type 0 where
  opened sealed settled : Phase

pub record OfflineCommitment : Type 0 where
  pub authorization_id : String
  pub wallet_id : String
  pub reserved_cents : ℕ
  pub emitted_cents : ℕ
  pub emitted_count : ℕ
  pub held_cents : ℕ
  pub released_unissued_cents : ℕ
  pub released_rejected_cents : ℕ
  pub phase : Phase
  pub closed : Bool
  pub closure_id : Option String
  pub closure_envelope : Option Bytes
  pub closure_manifest : Option Bytes
  pub manifest_digest : Option String
  pub authorization_envelope : Option Bytes

pub record CommitmentEmission : Type 0 where
  pub authorization_id : String
  pub operation_id : String
  pub issuance_index : Option ℕ
  pub amount_cents : ℕ

pub record CommitmentClaim : Type 0 where
  pub authorization_id : String
  pub operation_id : String
  pub issuance_index : ℕ
  pub amount_cents : ℕ
  pub receipt_digest : String

pub record PaymentResolution : Type 0 where
  pub operation_id : String
  pub status : PaymentState
  pub resolution_envelope : Bytes
  pub revision : ℕ

pub record SimulatedTopup : Type 0 where
  pub request_id : String
  pub wallet_id : String
  pub user_id : ℕ
  pub amount_cents : ℕ

pub record Database : Type 0 where
  pub users : List User
  pub wallets : List Wallet
  pub terminals : List Terminal
  pub keys : List RegisteredKey
  pub authorizations : List OfflineAuthorization
  pub payments : List OfflinePayment
  pub ledger : List LedgerEntry
  pub commitments : List OfflineCommitment
  pub emissions : List CommitmentEmission
  pub claims : List CommitmentClaim
  pub resolutions : List PaymentResolution
  pub topups : List SimulatedTopup
