-- ===== src/Server/Validation.antt =====
-- `_validate`, `_authorize` and `_wire` of sync_v3.py.
use backend_pagos_offline.Prelude.{
  ℕ, String, Bool, false, not, ◌&&◌, ◌||◌, Option, none, some, Bytes, ◌==◌, ◌!=◌, string_eq, nat_eq,
  bytes_eq, option_eq,
}
use backend_pagos_offline.Result.{value_error, http}
use backend_pagos_offline.Exec.{pure, lift, raise_when, or_raise, ◌>>=◌, ◌>>◌}
use backend_pagos_offline.Table.{fetch}
use backend_pagos_offline.Wire.Json.{bad_length}
use backend_pagos_offline.Wire.Library.{Library}
use backend_pagos_offline.Wire.Kinds.{get}
use backend_pagos_offline.Wire.Payload.{is_text}
use backend_pagos_offline.Wire.Envelope.{SignedEnvelope, parse_signed_envelope}
use backend_pagos_offline.Wire.Verify.{verify_pos_signer}
use backend_pagos_offline.Wire.Manifest.{instant}
use backend_pagos_offline.Wire.Binding.{validate_receipt_binding, validate_ack_binding}
use backend_pagos_offline.Server.Models.{
  User, Wallet, Terminal, RegisteredKey, OfflineAuthorization, OfflineCommitment,
}
use backend_pagos_offline.Server.Session.{
  Query, read, get_wallet, get_terminal, get_key, get_authorization, get_commitment,
}
use backend_pagos_offline.Server.Revocation.{requires_review}
use backend_pagos_offline.Server.Trust.{Trust, text_at, verify_trusted_authorization}

-- `base64.b64decode(value, validate=True)`, between 1 and 4096 bytes
unfoldable pub wire : Library → String → Query Bytes
wire lib value = do
  contents ← or_raise (lib.b64decode value) value_error
  raise_when (bad_length contents) value_error
  pure contents

abbrev pub owns_wallet : ℕ → Option Wallet → Bool
owns_wallet user_id none = false
owns_wallet user_id (some w) = w.user_id == user_id

abbrev pub serves_terminal : ℕ → Option Terminal → Bool
serves_terminal user_id none = false
serves_terminal user_id (some t) = t.merchant_user_id == user_id

unfoldable pub authorize : User → String → String → Query (Unit {0})
authorize user wallet_id terminal_id = do
  wallet ← read (get_wallet wallet_id)
  terminal ← read (get_terminal terminal_id)
  raise_when (not (owns_wallet user.id wallet || serves_terminal user.id terminal)) (http 403)

-- The rows that a valid payment rests on.
pub record Validated : Type 0 where
  pub wallet : Wallet
  pub merchant_wallet : Wallet
  pub terminal : Terminal
  pub authorization : OfflineAuthorization
  pub commitment : OfflineCommitment
  pub review : Bool

-- the tests on the key of the terminal and on its terminal
abbrev pub pos_matches : RegisteredKey → Terminal → Bool
pos_matches key terminal =
    key.purpose == "pos" && terminal.active && key.terminal_id == some terminal.id

-- the tests on the key of the wallet
abbrev pub wallet_key_matches : RegisteredKey → Wallet → String → String → Bool
wallet_key_matches key wallet fingerprint public_key =
    key.wallet_id == some wallet.id
    && key.purpose == "wallet"
    && key.fingerprint == fingerprint
    && key.public_key_b64 == public_key

module _ (lib : Library) where
  -- `verify_pos_signer` with the scope of the terminal's registered key
  unfoldable pub signed_at : SignedEnvelope → RegisteredKey → Terminal → Query (Unit {0})
  signed_at envelope key terminal = do
    genuine ← lift (
        verify_pos_signer lib envelope key.public_key_b64 key.key_id key.fingerprint
          terminal.merchant_id terminal.id)
    raise_when (not genuine) value_error

  -- the acknowledgement, if there is one: whether its key needs review
  unfoldable pub check_ack :
      SignedEnvelope → SignedEnvelope → RegisteredKey → Terminal → Option Bytes → Query Bool
  unfolding signed_at
  check_ack request receipt key terminal none = pure false
  check_ack request receipt key terminal (some ack_wire) = do
    ack ← lift (parse_signed_envelope lib ack_wire)
    lift (validate_ack_binding lib request receipt ack)
    signed_at ack key terminal
    accepted ← lift (instant lib "accepted_at" ack.payload)
    pure (requires_review key accepted)

  -- the type of the request, the issuer of the grant and the binding of the receipt
  unfoldable pub check_messages :
      Trust lib → SignedEnvelope → SignedEnvelope → SignedEnvelope → Query (Unit {0})
  check_messages trust request grant receipt = do
    kind ← lift (get "type" request.payload)
    raise_when (not (is_text "payment_request" kind)) value_error
    trusted ← lift (verify_trusted_authorization lib trust grant)
    raise_when (not trusted) value_error
    lift (validate_receipt_binding lib request receipt grant)

  -- the registered key and the terminal that have signed the request
  unfoldable pub find_signer : SignedEnvelope → Query (RegisteredKey × Terminal)
  find_signer request = do
    pos_key_id ← lift (text_at "pos_key_id" request.payload)
    terminal_id ← lift (text_at "terminal_id" request.payload)
    found_key ← read (get_key pos_key_id)
    pos_key ← or_raise found_key value_error
    found_terminal ← read (get_terminal terminal_id)
    terminal ← or_raise found_terminal value_error
    raise_when (not (pos_matches pos_key terminal)) value_error
    signed_at request pos_key terminal
    pure (pos_key, terminal)

  -- the rows of the grant, which belong together
  unfoldable pub find_grant :
      SignedEnvelope → Bytes → Query (Wallet × OfflineAuthorization × OfflineCommitment)
  find_grant grant grant_wire = do
    wallet_id ← lift (text_at "wallet_id" grant.payload)
    authorization_id ← lift (text_at "authorization_id" grant.payload)
    found_wallet ← read (get_wallet wallet_id)
    wallet ← or_raise found_wallet value_error
    found_authorization ← read (get_authorization authorization_id)
    authorization ← or_raise found_authorization value_error
    found_commitment ← read (get_commitment authorization_id)
    commitment ← or_raise found_commitment value_error
    raise_when
        (authorization.wallet_id != wallet.id
          || commitment.wallet_id != wallet.id
          || commitment.authorization_envelope != some grant_wire)
        value_error
    pure (wallet, authorization, commitment)

  -- the registered key of the wallet
  unfoldable pub find_wallet_key : SignedEnvelope → Wallet → Query RegisteredKey
  find_wallet_key grant wallet = do
    wallet_key_id ← lift (text_at "wallet_key_id" grant.payload)
    fingerprint ← lift (text_at "wallet_key_fingerprint" grant.payload)
    public_key ← lift (text_at "wallet_public_key_b64" grant.payload)
    found ← read (get_key wallet_key_id)
    wallet_key ← or_raise found value_error
    raise_when (not (wallet_key_matches wallet_key wallet fingerprint public_key)) value_error
    pure wallet_key

  unfoldable pub validate :
      Trust lib
      → SignedEnvelope
      → SignedEnvelope
      → Bytes
      → SignedEnvelope
      → Option Bytes
      → Query Validated
  validate trust request grant grant_wire receipt ack_wire = do
    check_messages trust request grant receipt
    (pos_key, terminal) ← find_signer request
    (wallet, authorization, commitment) ← find_grant grant grant_wire
    wallet_key ← find_wallet_key grant wallet
    issued ← lift (instant lib "issued_at" request.payload)
    confirmed ← lift (instant lib "confirmed_at" receipt.payload)
    late ← check_ack request receipt pos_key terminal ack_wire
    found ← read (λ db. fetch (λ r. r.user_id == terminal.merchant_user_id) db.wallets)
    merchant_wallet ← or_raise found value_error
    pure (record {
      wallet = wallet;
      merchant_wallet = merchant_wallet;
      terminal = terminal;
      authorization = authorization;
      commitment = commitment;
      review = requires_review pos_key issued || requires_review wallet_key confirmed || late;
    })
