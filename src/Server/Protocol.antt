-- ===== src/Server/Protocol.antt =====
-- What the settlement takes from the wire contract (protocol_v3.py) and from the issuer's key store
-- (issuer_keys.py): the operations that it calls, as one interface.
use backend_pagos_offline.Prelude.{ℕ, String, Bool, Option, Bytes}
use backend_pagos_offline.Result.{Result}
use backend_pagos_offline.Server.Models.{PaymentState}

-- `IssuerIdentity`, as loaded
pub record Issuer : Type 0 where
  pub key_id : String
  pub fingerprint : String

-- The payload of a signed resolution; its version, type and revision are constants.
pub record Resolution : Type 0 where
  pub operation_id : String
  pub wallet_id : String
  pub merchant_id : String
  pub terminal_id : String
  pub amount_cents : ℕ
  pub currency : String
  pub offline_authorization_id : String
  pub authorization_digest : String
  pub request_digest : String
  pub receipt_digest : String
  pub operation_status : PaymentState
  pub code : String
  pub resolved_at : ℕ
  pub issuer_key_id : String
  pub issuer_key_fingerprint : String

pub record Protocol : Type 1 where
  pub Envelope : Type 0
  -- `parse_signed_envelope`, which may raise
  pub parse_signed_envelope : Bytes → Result Envelope
  -- `payload_digest` of an envelope
  pub payload_digest : Envelope → String
  -- `envelope.payload[field]`, a text field
  pub text_field : String → Envelope → Result String
  -- `IssuerIdentity.load_external` and `sign_envelope`, which may raise
  pub load_issuer : Result Issuer
  pub sign_envelope : Issuer → Resolution → Result Bytes

-- The answer for one operation (`OfflinePaymentResultV3` of schemas.py).
pub data Submission : Type 0 where
  validated conflict invalid_evidence retryable_error : Submission

-- the texts of `operation_status`
pub data Status : Type 0 where
  accepted rejected pending_evidence pending_review unresolved : Status

pub record PaymentResult : Type 0 where
  pub operation_id : String
  pub submission_status : Submission
  pub operation_status : Status
  pub final : Bool
  pub code : Option String
  pub resolution : Option Bytes
