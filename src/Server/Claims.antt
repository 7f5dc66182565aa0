-- ===== src/Server/Claims.antt =====
-- `_record_claim` of sync_v3.py: every authenticated issuance is kept as a claim, and a second use
-- of an issuance index is reported.
pub mod Laws
use backend_pagos_offline.Prelude.{
  Bool, true, ◌&&◌, ◌||◌, none, some, ◌==◌, ◌!=◌, string_eq, nat_eq, if◌then◌else◌,
}
use backend_pagos_offline.Exec.{pure, ◌>>=◌, ◌>>◌}
use backend_pagos_offline.Table.{fetch, has_row}
use backend_pagos_offline.Server.Models.{CommitmentClaim, Database}
use backend_pagos_offline.Server.Session.{Query, read, add_claim}

abbrev pub of_operation : CommitmentClaim → CommitmentClaim → Bool
of_operation c r = r.authorization_id == c.authorization_id && r.operation_id == c.operation_id

-- Another operation of the same authorization has the same index.
abbrev pub same_issuance : CommitmentClaim → CommitmentClaim → Bool
same_issuance c r =
    r.authorization_id == c.authorization_id
    && r.issuance_index == c.issuance_index
    && r.operation_id != c.operation_id

abbrev pub differs : CommitmentClaim → CommitmentClaim → Bool
differs c r =
    r.issuance_index != c.issuance_index
    || r.amount_cents != c.amount_cents
    || r.receipt_digest != c.receipt_digest

abbrev pub reused : CommitmentClaim → Database → Bool
reused c db = has_row (same_issuance c) db.claims

abbrev pub claim_known : CommitmentClaim → CommitmentClaim → Query Bool
claim_known c existing = if differs c existing then pure true else read (reused c)

-- The answer is true where the claim collides.
unfoldable pub record_claim : CommitmentClaim → Query Bool
record_claim c = do
  found ← read (λ db. fetch (of_operation c) db.claims)
  elim found [ some existing ↦ claim_known c existing | none ↦ add_claim c >> read (reused c) ]
