-- ===== src/Wire/Parse/Canonical.antt =====
-- What `_parse_json` accepts: one text for each value, of at most 4096 bytes.
use backend_pagos_offline.Prelude.{◌≤◌, ◌≡◌, inl, inr, Bytes, length, arith, bytes_beq_iff}
use backend_pagos_offline.Result.{ok, Result-cases}
use backend_pagos_offline.Wire.Json.{Json, canonical_bytes, bad_length}
use backend_pagos_offline.Wire.Json.Same.{Same, canonical_bytes-Same}
use backend_pagos_offline.Wire.Library.{Library}
use backend_pagos_offline.Wire.Parse.{parse_json}

-- the bytes of a value that was read are its canonical bytes
canonical_bytes-parse_json :
    (lib : Library) (contents : Bytes) (v : Json)
    → parse_json lib contents ≡ ok v
    → canonical_bytes v ≡ ok contents
unfolding parse_json
canonical_bytes-parse_json lib contents v h = elim (Result-cases (canonical_bytes v)) [
  | inl (written, e) ↦ ground (arith, bytes_beq_iff written contents)
  | inr (x, failed) ↦ absurd (ground arith)
]

-- Two messages that read as values which are equal, but for the order of the items of their
-- dictionaries, are the same bytes, and there are 1 to 4096 of them.
pub parse_json_injective :
    (lib : Library) (a b : Bytes) (v w : Json)
    → parse_json lib a ≡ ok v
    → parse_json lib b ≡ ok w
    → Same v w
    → (a ≡ b) × (1 ≤ length a) × (length a ≤ 4096)
unfolding parse_json bad_length
parse_json_injective lib a b v w h k same = (
  ground (
    arith,
    canonical_bytes-parse_json lib a v h,
    canonical_bytes-parse_json lib b w k,
    canonical_bytes-Same v w same,
  ),
  ground arith,
  ground arith,
)
