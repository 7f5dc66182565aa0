-- ===== src/Server/Evidence/Closure.antt =====
-- Whether the manifest of a closed commitment has a payment (sync_v3.py).
use backend_pagos_offline.Prelude.{
  String, Bool, true, false, ◌&&◌, Option, none, some, List, [], ◌∷◌, Bytes, ◌==◌, nat_eq,
  string_eq, if◌then◌else◌,
}
use backend_pagos_offline.Result.{Result, ok, ◌>>=◌}
use backend_pagos_offline.Wire.Json.{Json, Fields}
use backend_pagos_offline.Wire.Library.{Library}
use backend_pagos_offline.Wire.Kinds.{find}
use backend_pagos_offline.Wire.Payload.{is_text, number}
use backend_pagos_offline.Wire.Manifest.{parse_close_manifest}
use backend_pagos_offline.Server.Models.{OfflineCommitment, CommitmentClaim}
use backend_pagos_offline.Server.Trust.{text_at}

abbrev pub is_said : String → Option Json → Bool
is_said t none = false
is_said t (some v) = is_text t v

-- `payload.get(name) == t`
abbrev pub says : String → String → Fields → Bool
says name t payload = is_said t (find name payload)

-- an entry of a manifest tells of the same issuance
unfoldable pub entry_agrees : CommitmentClaim → Fields → Result Bool
entry_agrees c entry = do
  index ← number "issuance_index" entry
  amount ← number "amount_cents" entry
  receipt_digest ← text_at "receipt_digest" entry
  ok (index == c.issuance_index && amount == c.amount_cents && receipt_digest == c.receipt_digest)

-- the first entry that names the operation
unfoldable pub manifest_agrees : CommitmentClaim → List Fields → Result Bool
manifest_agrees c [] = ok false
manifest_agrees c (entry ∷ rest) =
    if says "operation_id" c.operation_id entry
    then entry_agrees c entry
    else manifest_agrees c rest

-- `closure_manifest or b"[]"`
abbrev pub manifest_of : Option Bytes → Bytes
manifest_of none = 91 ∷ 93 ∷ []
manifest_of (some []) = 91 ∷ 93 ∷ []
manifest_of (some (b ∷ bs)) = b ∷ bs

-- an open commitment has nothing to disagree with
unfoldable pub agreement : Library → OfflineCommitment → CommitmentClaim → Result Bool
agreement lib commitment claim =
    let compared = do
      entries ← parse_close_manifest lib (manifest_of commitment.closure_manifest)
      manifest_agrees claim entries
    in if commitment.closed then compared else ok true
