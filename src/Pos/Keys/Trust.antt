-- ===== src/Pos/Keys/Trust.antt =====
-- A trusted wallet key is the one that is resolved, and only its own row is touched.
use text.Mathlib.TextEquality.{eq_iff}
use backend_pagos_offline.Prelude.{
  ◌≡◌, ◌≢◌, refl, ap, String, Bool, true, false, none, some, List, [], ◌∷◌, arith, ◌==◌, ◌!=◌,
  string_eq, beq_refl, Option-cases, Bool-cases, inl, inr, if◌then◌else◌,
}
use backend_pagos_offline.Result.{Result, ok}
use backend_pagos_offline.Exec.{raise_when}
use backend_pagos_offline.Table.Laws.{fetch-insert, has_row-fetch, fetch-has_row}
use backend_pagos_offline.Table.{fetch, has_row, update, insert}
use backend_pagos_offline.Pos.Keys.{
  IssuerKey, trust_issuer_key, get_issuer_key, issuer_key_is, WalletKey, KeyTables,
  trust_wallet_key, trusted_row, resolve_wallet_key, is_trusted, wallet_key_is, taken_fingerprint,
  upsert, public_key_of,
}

-- A row that a search passes over may be replaced by another, or added.
module _ (test : WalletKey → Bool) (k : WalletKey) where
  fetch-update_missed :
      (rs : List WalletKey)
      → ((r : WalletKey) → wallet_key_is k.key_id r ≡ true → test r ≡ false)
      → test k ≡ false
      → fetch test (update (wallet_key_is k.key_id) (λ r. k) rs) ≡ fetch test rs
  fetch-update_missed [] h n = refl
  fetch-update_missed (r ∷ rs) h n = ground (arith, h r, fetch-update_missed rs h n)

  fetch-insert_missed :
      (rs : List WalletKey) → test k ≡ false → fetch test (insert k rs) ≡ fetch test rs
  fetch-insert_missed [] n = ground arith
  fetch-insert_missed (r ∷ rs) n = ground (arith, fetch-insert_missed rs n)

  fetch-update_met :
      (rs : List WalletKey)
      → ((r : WalletKey) → wallet_key_is k.key_id r ≡ false → test r ≡ false)
      → test k ≡ true
      → has_row (wallet_key_is k.key_id) rs ≡ true
      → fetch test (update (wallet_key_is k.key_id) (λ r. k) rs) ≡ some k
  fetch-update_met [] h y e = cc
  fetch-update_met (r ∷ rs) h y e = ground (arith, h r, fetch-update_met rs h y)

  fetch-insert_met :
      (rs : List WalletKey)
      → ((r : WalletKey) → wallet_key_is k.key_id r ≡ false → test r ≡ false)
      → test k ≡ true
      → has_row (wallet_key_is k.key_id) rs ≡ false
      → fetch test (insert k rs) ≡ some k
  fetch-insert_met [] h y e = ground arith
  fetch-insert_met (r ∷ rs) h y e = ground (arith, h r, fetch-insert_met rs h y)

upsert-met :
    (test : WalletKey → Bool) (k : WalletKey) (rs : List WalletKey)
    → ((r : WalletKey) → wallet_key_is k.key_id r ≡ false → test r ≡ false)
    → test k ≡ true
    → fetch test (upsert k rs) ≡ some k
upsert-met test k rs h y = elim (Bool-cases (has_row (wallet_key_is k.key_id) rs)) [
  | inl known ↦ rw (known, if◌then◌else◌) (fetch-update_met test k rs h y known)
  | inr new ↦ rw (new, if◌then◌else◌) (fetch-insert_met test k rs h y new)
]

upsert-missed :
    (test : WalletKey → Bool) (k : WalletKey) (rs : List WalletKey)
    → ((r : WalletKey) → wallet_key_is k.key_id r ≡ true → test r ≡ false)
    → test k ≡ false
    → fetch test (upsert k rs) ≡ fetch test rs
upsert-missed test k rs h n = elim (Bool-cases (has_row (wallet_key_is k.key_id) rs)) [
  | inl known ↦ rw (known, if◌then◌else◌) (fetch-update_missed test k rs h n)
  | inr new ↦ rw (new, if◌then◌else◌) (fetch-insert_missed test k rs n)
]

-- Where no other key has the fingerprint, trusting a key makes it the one that is resolved for its
-- identifier, fingerprint and wallet, also where an older key had the identifier, and leaves what is
-- resolved for every other identifier as it was.
pub trust_wallet_key-resolves :
    (key_id fingerprint wallet_id public_key other f w : String) (t : KeyTables)
    → has_row
        (taken_fingerprint (trusted_row key_id fingerprint wallet_id public_key))
        t.wallet_keys
      ≡ false
    → key_id ≢ other
    → let t' = (trust_wallet_key key_id fingerprint wallet_id public_key t).1 in
      (resolve_wallet_key key_id fingerprint wallet_id t' ≡ some public_key)
      × (resolve_wallet_key other f w t' ≡ resolve_wallet_key other f w t)
unfolding trust_wallet_key resolve_wallet_key
trust_wallet_key-resolves key_id fingerprint wallet_id public_key other f w t free ne =
    let k = trusted_row key_id fingerprint wallet_id public_key in
    let met =
      upsert-met (is_trusted key_id fingerprint wallet_id) k t.wallet_keys
        (λ r away. ground (arith, away))
        (ground (arith, beq_refl key_id, beq_refl fingerprint, beq_refl wallet_id)) in
    let apart : (key_id == other) ≡ false = ground (arith, eq_iff key_id other) in
    let missed =
      upsert-missed (is_trusted other f w) k t.wallet_keys
        (λ r here.
          let same : r.key_id ≡ key_id = (eq_iff r.key_id key_id).0 here in
          let off : (r.key_id == other) ≡ false = rw same apart in ground (arith, off))
        (ground (arith, apart)) in
    rw (free, raise_when) (ap public_key_of met, ap public_key_of missed)

-- A key whose fingerprint is right is trusted once: what is found for its identifier and fingerprint
-- afterwards is what was found before, or else this key.
pub trust_issuer_key_first :
    (fingerprint_of : String → Result String) (k : IssuerKey) (t : KeyTables)
    → fingerprint_of k.public_key_b64 ≡ ok k.fingerprint
    → get_issuer_key k.key_id k.fingerprint (trust_issuer_key fingerprint_of k t).1
      ≡ (elim (get_issuer_key k.key_id k.fingerprint t) [
        | none ↦ some k.public_key_b64
        | some p ↦ some p
      ])
unfolding trust_issuer_key get_issuer_key
trust_issuer_key_first fingerprint_of k t h =
    let right : (k.fingerprint != k.fingerprint) ≡ false = ground (arith, beq_refl k.fingerprint) in
    let test = issuer_key_is k.key_id k.fingerprint in
    elim (Option-cases (fetch test t.issuer_keys)) [
      | inl new ↦ rw h (
          rw (right, raise_when)
            (rw (has_row-fetch test t.issuer_keys new, if◌then◌else◌)
              (rw (
                new,
                fetch-insert test k t.issuer_keys new
                    (ground (arith, beq_refl k.key_id, beq_refl k.fingerprint)),
              ))))
      | inr (r, known) ↦ rw h (
          rw (right, raise_when)
            (rw (fetch-has_row test t.issuer_keys r known, if◌then◌else◌) (rw known)))
    ]
