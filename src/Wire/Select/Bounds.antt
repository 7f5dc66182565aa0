-- ===== src/Wire/Select/Bounds.antt =====
-- The capabilities that a terminal accepts from a device.
use backend_pagos_offline.Prelude.{ℕ, ◌≤◌, ◌≡◌, inl, inr, Bytes, arith}
use backend_pagos_offline.Result.{ok, Result-cases}
use backend_pagos_offline.Wire.Json.{Fields}
use backend_pagos_offline.Wire.Library.{Library}
use backend_pagos_offline.Wire.Parse.{parse_json}
use backend_pagos_offline.Wire.Checks.{integer}
use backend_pagos_offline.Wire.Payload.{number, number_of}
use backend_pagos_offline.Wire.Envelope.{object_of}
use backend_pagos_offline.Wire.Select.{
  SelectCapabilities, bounded, read_capabilities, parse_select_capabilities,
}

bounded-le :
    (low high n : ℕ) (name : _) (payload : Fields)
    → bounded low high name payload ≡ ok n
    → (low ≤ n) × (n ≤ high)
unfolding bounded integer number number_of
bounded-le low high n name payload h = ground arith

read_capabilities_bounds :
    (payload : Fields) (c : SelectCapabilities)
    → read_capabilities payload ≡ ok c
    → (c.max_bytes ≡ 4096)
      × (1 ≤ c.chunk_bytes)
      × (c.chunk_bytes ≤ 160)
      × (c.authorization_instruction ≡ 0x50)
unfolding read_capabilities
read_capabilities_bounds payload c h = grind (arith, bounded-le)

-- Whatever a device answers to SELECT, the capabilities that are accepted have messages of 4096
-- bytes, chunks of 1 to 160 bytes and the instruction 0x50.
pub parse_select_capabilities_bounds :
    (lib : Library) (contents : Bytes) (c : SelectCapabilities)
    → parse_select_capabilities lib contents ≡ ok c
    → (c.max_bytes ≡ 4096)
      × (1 ≤ c.chunk_bytes)
      × (c.chunk_bytes ≤ 160)
      × (c.authorization_instruction ≡ 0x50)
unfolding parse_select_capabilities
parse_select_capabilities_bounds lib contents c h = elim (Result-cases (parse_json lib contents)) [
  | inr (x, failed) ↦ absurd (ground arith)
  | inl (value, parsed) ↦ elim (Result-cases (object_of value)) [
    | inr (x, failed) ↦ absurd (ground arith)
    | inl (payload, object) ↦ read_capabilities_bounds payload c (ground arith)
  ]
]
