-- ===== src/Server/Trust.antt =====
-- The issuers that the backend trusts (issuer_trust.py), and the wire contract as the settlement
-- uses it.
use backend_pagos_offline.Prelude.{
  String, Bool, ◌&&◌, ◌||◌, Option, none, some, List, [], ◌∷◌, Bytes, ◌==◌, ◌!=◌, string_eq,
  if◌then◌else◌,
}
use backend_pagos_offline.Prelude.Int.{pos}
use backend_pagos_offline.Result.{Result, ok, value_error, raise_if, ◌>>=◌, ◌>>◌}
use backend_pagos_offline.Wire.Json.{Fields, str, int, no_fields, member}
use backend_pagos_offline.Wire.Library.{Library}
use backend_pagos_offline.Wire.Keys.{decode_text, public_key_fingerprint}
use backend_pagos_offline.Wire.Kinds.{get}
use backend_pagos_offline.Wire.Envelope.{
  SignedEnvelope, mapping, parse_signed_envelope, sign_payload, encode_signed_envelope,
}
use backend_pagos_offline.Wire.Verify.{verify_authorization}
use backend_pagos_offline.Wire.Manifest.{text_of}
use backend_pagos_offline.Server.Models.{PaymentState}
use backend_pagos_offline.Server.Protocol.{Protocol, Issuer, Resolution}

-- a record of the inventory of public keys, or the identity in use
pub record IssuerRecord : Type 0 where
  pub key_id : String
  pub fingerprint : String
  pub public_key_b64 : String

-- What the environment gives: the inventory, if there is one, and the identity with its private key;
-- reading either may raise.
pub record Trust (lib : Library) : Type 0 where
  pub inventory : Option (Result (List IssuerRecord))
  pub active : Result (IssuerRecord × lib.PrivateKey)

-- `envelope.payload[name]`, a text
unfoldable pub text_at : String → Fields → Result String
text_at name payload = do value ← get name payload; text_of value

-- the texts of the field `operation_status`
abbrev pub status_text : PaymentState → String
status_text PaymentState.pending_evidence = "PENDING_EVIDENCE"
status_text PaymentState.validated = "VALIDATED"
status_text PaymentState.pending_review = "PENDING_REVIEW"
status_text PaymentState.accepted = "ACCEPTED"
status_text PaymentState.rejected = "REJECTED"

module _ (lib : Library) where
  -- the first record of the issuer; every record before it is checked
  unfoldable pub find_issuer : String → String → List IssuerRecord → Result (Option String)
  find_issuer key_id fingerprint [] = ok none
  find_issuer key_id fingerprint (r ∷ rs) = do
    public ← decode_text lib r.public_key_b64
    raise_if (public_key_fingerprint lib public != r.fingerprint) value_error
    if r.key_id == key_id && r.fingerprint == fingerprint
        then ok (some r.public_key_b64)
        else find_issuer key_id fingerprint rs

  unfoldable pub search_inventory :
      String → String → Option (Result (List IssuerRecord)) → Result (Option String)
  search_inventory key_id fingerprint none = ok none
  search_inventory key_id fingerprint (some inventory) = do
    records ← inventory
    find_issuer key_id fingerprint records

  unfoldable pub active_issuer : Trust lib → String → String → Result String
  active_issuer trust key_id fingerprint = do
    (active, private_key) ← trust.active
    raise_if (active.key_id != key_id || active.fingerprint != fingerprint) value_error
    ok active.public_key_b64

  unfoldable pub or_active : Trust lib → String → String → Option String → Result String
  or_active trust key_id fingerprint none = active_issuer trust key_id fingerprint
  or_active trust key_id fingerprint (some public) = ok public

  unfoldable pub issuer_public_key : Trust lib → Fields → Result String
  issuer_public_key trust payload = do
    key_id ← text_at "issuer_key_id" payload
    fingerprint ← text_at "issuer_key_fingerprint" payload
    found ← search_inventory key_id fingerprint trust.inventory
    or_active trust key_id fingerprint found

  unfoldable pub verify_trusted_authorization : Trust lib → SignedEnvelope → Result Bool
  verify_trusted_authorization trust grant = do
    public ← issuer_public_key trust grant.payload
    key_id ← text_at "issuer_key_id" grant.payload
    verify_authorization lib grant public (some key_id)

  -- the payload that `_apply` signs
  unfoldable pub resolution_payload : Resolution → Fields
  resolution_payload r = member "version" (int (pos 3)) (
      member "type" (str "payment_resolution") (
        member "operation_id" (str r.operation_id) (
          member "wallet_id" (str r.wallet_id) (
            member "merchant_id" (str r.merchant_id) (
              member "terminal_id" (str r.terminal_id) (
                member "amount_cents" (int (pos r.amount_cents)) (
                  member "currency" (str r.currency) (
                    member "offline_authorization_id" (str r.offline_authorization_id) (
                      member "authorization_digest" (str r.authorization_digest) (
                        member "request_digest" (str r.request_digest) (
                          member "receipt_digest" (str r.receipt_digest) (
                            member "operation_status" (str (status_text r.operation_status)) (
                              member "code" (str r.code) (
                                member "resolution_revision" (int (pos 1)) (
                                  member "resolved_at" (str (lib.strftime r.resolved_at)) (
                                    member "issuer_key_id" (str r.issuer_key_id) (
                                      member "issuer_key_fingerprint" (str r.issuer_key_fingerprint)
                                        no_fields)))))))))))))))))

  -- `IssuerIdentity.sign_envelope`
  unfoldable pub sign_envelope : Trust lib → Resolution → Result Bytes
  sign_envelope trust resolution = do
    (active, private_key) ← trust.active
    signature ← sign_payload lib (resolution_payload resolution) private_key
    encode_signed_envelope lib (mapping (resolution_payload resolution)) signature

  unfoldable pub load_issuer : Trust lib → Result Issuer
  load_issuer trust = do
    (active, private_key) ← trust.active
    ok (record { key_id = active.key_id; fingerprint = active.fingerprint })

  -- the operations that the settlement calls
  abbrev pub wire_protocol : Trust lib → Protocol
  wire_protocol trust = record {
    Envelope = SignedEnvelope;
    parse_signed_envelope = parse_signed_envelope lib;
    payload_digest = λ envelope. lib.sha256 envelope.payload_bytes;
    text_field = λ name envelope. text_at name envelope.payload;
    load_issuer = load_issuer trust;
    sign_envelope = λ issuer resolution. sign_envelope trust resolution;
  }
