-- ===== src/Server/Reserves.antt =====
-- What a wallet has set aside for offline payments: the sums that api_v3.py (`issue_authorization_v3`)
-- and api_v2.py (`get_wallet_balance`) take over the commitments and over the authorizations that
-- have none, and the invariants about them.
use backend_pagos_offline.Prelude.{
  ℕ, ◌+◌, ◌≤◌, ◌≡◌, String, Bool, not, ◌&&◌, List, ◌==◌, string_eq, if◌then◌else◌,
}
use backend_pagos_offline.Table.{has_row}
use backend_pagos_offline.Table.Sums.{total}
use backend_pagos_offline.Server.Models.{Wallet, OfflineAuthorization, OfflineCommitment, Database}

abbrev pub held_in : String → OfflineCommitment → ℕ
held_in wallet_id r = if r.wallet_id == wallet_id then r.held_cents else 0

abbrev pub has_commitment : List OfflineCommitment → OfflineAuthorization → Bool
has_commitment commitments r = has_row (λ k. k.authorization_id == r.id) commitments

abbrev pub legacy_in : String → List OfflineCommitment → OfflineAuthorization → ℕ
legacy_in wallet_id commitments r =
    if r.wallet_id == wallet_id && r.active && not (has_commitment commitments r)
    then r.remaining_amount_cents
    else 0

abbrev pub committed_cents : String → Database → ℕ
committed_cents wallet_id db =
    total (held_in wallet_id) db.commitments
    + total (legacy_in wallet_id db.commitments) db.authorizations

abbrev pub balance_in : String → Wallet → ℕ
balance_in wallet_id r = if r.id == wallet_id then r.confirmed_balance_cents else 0

abbrev pub balance_cents : String → Database → ℕ
balance_cents wallet_id db = total (balance_in wallet_id) db.wallets

-- What is set aside is covered by the confirmed balance.
abbrev pub IsSolvent : String → Database → Type 0
IsSolvent wallet_id db = committed_cents wallet_id db ≤ balance_cents wallet_id db

-- What was reserved is still held, or was emitted, or was released.
abbrev pub IsBalanced : OfflineCommitment → Type 0
IsBalanced r =
    r.reserved_cents
    ≡ r.emitted_cents + r.held_cents + r.released_unissued_cents + r.released_rejected_cents
