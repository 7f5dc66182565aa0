-- ===== src/Pos/Rows.antt =====
-- The rows of the terminal's SQLite file and its monad (pos_desktop/database.py).
use backend_pagos_offline.Prelude.{ℕ, String, Bool, true, false, Option, List, Bytes}

-- the texts of the column `state`
pub data OpState : Type 0 where
  request_created request_delivered waiting_confirmation : OpState
  locally_accepted synced rejected conflict : OpState

-- the texts of the column `resolution_recovery_status`
pub data Recovery : Type 0 where
  pending complete attention_required : Recovery

-- the texts that a synchronisation may report for one operation
pub data SyncStatus : Type 0 where
  accepted rejected conflict pending_evidence retryable_error : SyncStatus

pub record PosOperation : Type 0 where
  pub operation_id : String
  pub merchant_id : String
  pub terminal_id : String
  pub amount_cents : ℕ
  pub nonce : String
  pub request_envelope : Bytes
  pub authorization_envelope : Option Bytes
  pub receipt_envelope : Option Bytes
  pub ack_envelope : Option Bytes
  pub resolution_envelope : Option Bytes
  pub resolution_recovery_status : Recovery
  pub state : OpState
  pub created_at : String
  pub updated_at : String
  pub sync_attempts : ℕ
  pub next_sync_at : Option String
  pub last_sync_error : Option String

-- the fields that `insert_request` reads of a payment request
pub record RequestPayload : Type 0 where
  pub operation_id : String
  pub merchant_id : String
  pub terminal_id : String
  pub amount_cents : ℕ
  pub nonce : String

pub record Profile : Type 0 where
  pub user_id : ℕ
  pub merchant_id : String
  pub terminal_id : String
  pub key_id : String
  pub provisioned_at : String

pub record SyncLock : Type 0 where
  pub owner : String
  pub expires_at : String

pub record PosDatabase : Type 0 where
  pub operations : List PosOperation
  pub pos_profile : Option Profile
  pub sync_lock : Option SyncLock

abbrev pub is_open : OpState → Bool
is_open OpState.request_delivered = true
is_open OpState.waiting_confirmation = true
is_open _ = false

abbrev pub is_undelivered : OpState → Bool
is_undelivered OpState.request_created = true
is_undelivered OpState.request_delivered = true
is_undelivered _ = false

abbrev pub is_locally_accepted : OpState → Bool
is_locally_accepted OpState.locally_accepted = true
is_locally_accepted _ = false

-- `state IN ('SYNCED','REJECTED')`
abbrev pub is_final : OpState → Bool
is_final OpState.synced = true
is_final OpState.rejected = true
is_final _ = false

abbrev pub is_pending : Recovery → Bool
is_pending Recovery.pending = true
is_pending _ = false

abbrev pub is_attention : Recovery → Bool
is_attention Recovery.attention_required = true
is_attention _ = false
