-- ===== src/Pos/Keys.antt =====
-- The key tables of `PosDatabase` (pos_desktop/database.py): the terminal's identity, and the wallet
-- and issuer keys that it trusts. No method uses them together with the other tables.
pub mod Trust
use backend_pagos_offline.Prelude.{
  String, Bool, true, false, not, ◌&&◌, ◌||◌, Option, none, some, List, Bytes, ◌==◌, ◌!=◌,
  string_eq, if◌then◌else◌,
}
use backend_pagos_offline.Result.{Result, value_error, integrity_error}
use backend_pagos_offline.Exec.{Exec, pure, lift, gets, modify, raise_when, ◌>>=◌, ◌>>◌}
use backend_pagos_offline.Table.{fetch, has_row, update, insert}

-- the row of `pos_identity`
pub record Identity : Type 0 where
  pub key_id : String
  pub public_key_b64 : String
  pub fingerprint : String
  pub protected_private_key : Bytes
  pub created_at : String

-- the row of `trusted_wallet_keys`
pub record WalletKey : Type 0 where
  pub key_id : String
  pub fingerprint : String
  pub wallet_id : String
  pub public_key_b64 : String
  pub revoked : Bool

-- the row of `trusted_issuer_keys`
pub record IssuerKey : Type 0 where
  pub key_id : String
  pub fingerprint : String
  pub public_key_b64 : String

pub record KeyTables : Type 0 where
  pub identities : List Identity
  pub wallet_keys : List WalletKey
  pub issuer_keys : List IssuerKey

abbrev pub same_identity : Identity → Identity → Bool
same_identity i r = r.key_id == i.key_id || r.fingerprint == i.fingerprint

unfoldable pub save_identity : Identity → Exec KeyTables (Unit {0})
save_identity i = do
  clash ← gets (λ t. has_row (same_identity i) t.identities)
  raise_when clash integrity_error
  modify (λ t. record t { identities = insert i t.identities })

unfoldable pub get_identity : String → KeyTables → Option Identity
get_identity key_id t = fetch (λ r. r.key_id == key_id) t.identities

abbrev pub wallet_key_is : String → WalletKey → Bool
wallet_key_is key_id r = r.key_id == key_id

-- Another key has the fingerprint, which is unique.
abbrev pub taken_fingerprint : WalletKey → WalletKey → Bool
taken_fingerprint k r = r.fingerprint == k.fingerprint && r.key_id != k.key_id

abbrev pub trusted_row : String → String → String → String → WalletKey
trusted_row key_id fingerprint wallet_id public_key = record {
  key_id = key_id;
  fingerprint = fingerprint;
  wallet_id = wallet_id;
  public_key_b64 = public_key;
  revoked = false;
}

-- `ON CONFLICT(key_id) DO UPDATE`
abbrev pub upsert : WalletKey → List WalletKey → List WalletKey
upsert k rs =
    if has_row (wallet_key_is k.key_id) rs
    then update (wallet_key_is k.key_id) (λ r. k) rs
    else insert k rs

unfoldable pub trust_wallet_key : String → String → String → String → Exec KeyTables (Unit {0})
trust_wallet_key key_id fingerprint wallet_id public_key = do
  let k = trusted_row key_id fingerprint wallet_id public_key
  clash ← gets (λ t. has_row (taken_fingerprint k) t.wallet_keys)
  raise_when clash integrity_error
  modify (λ t. record t { wallet_keys = upsert k t.wallet_keys })

abbrev pub is_trusted : String → String → String → WalletKey → Bool
is_trusted key_id fingerprint wallet_id r =
    r.key_id == key_id && r.fingerprint == fingerprint && r.wallet_id == wallet_id && not r.revoked

abbrev pub public_key_of : Option WalletKey → Option String
public_key_of none = none
public_key_of (some k) = some k.public_key_b64

unfoldable pub resolve_wallet_key : String → String → String → KeyTables → Option String
resolve_wallet_key key_id fingerprint wallet_id t =
    public_key_of (fetch (is_trusted key_id fingerprint wallet_id) t.wallet_keys)

abbrev pub issuer_key_is : String → String → IssuerKey → Bool
issuer_key_is key_id fingerprint r = r.key_id == key_id && r.fingerprint == fingerprint

-- `INSERT OR IGNORE`
abbrev pub insert_or_ignore : IssuerKey → List IssuerKey → List IssuerKey
insert_or_ignore k rs =
    if has_row (issuer_key_is k.key_id k.fingerprint) rs then rs else insert k rs

-- The fingerprint of a key in Base64, which may be ill-formed, is that of protocol_v3.py.
unfoldable pub trust_issuer_key : (String → Result String) → IssuerKey → Exec KeyTables (Unit {0})
trust_issuer_key fingerprint_of k = do
  actual ← lift (fingerprint_of k.public_key_b64)
  raise_when (actual != k.fingerprint) value_error
  modify (λ t. record t { issuer_keys = insert_or_ignore k t.issuer_keys })

abbrev pub issuer_public_key_of : Option IssuerKey → Option String
issuer_public_key_of none = none
issuer_public_key_of (some k) = some k.public_key_b64

unfoldable pub get_issuer_key : String → String → KeyTables → Option String
get_issuer_key key_id fingerprint t =
    issuer_public_key_of (fetch (issuer_key_is key_id fingerprint) t.issuer_keys)
