-- ===== src/Wire/Select.antt =====
-- The capabilities of a device, in its answer to SELECT (protocol_v3.py).
pub mod Bounds
use backend_pagos_offline.Prelude.{ℕ, String, not, List, [], ◌∷◌, Bytes}
use backend_pagos_offline.Prelude.Int.{ℤ, pos}
use backend_pagos_offline.Result.{Result, ok, err, protocol_error, raise_if, or_err, ◌>>=◌, ◌>>◌}
use backend_pagos_offline.Wire.Json.{
  Json, Fields, int, obj, no_fields, member, canonical_bytes, max_message_bytes,
}
use backend_pagos_offline.Wire.Library.{Library}
use backend_pagos_offline.Wire.Parse.{parse_json}
use backend_pagos_offline.Wire.Checks.{integer}
use backend_pagos_offline.Wire.Kinds.{get, has_exactly}
use backend_pagos_offline.Wire.Payload.{number}
use backend_pagos_offline.Wire.Envelope.{object_of}

pub record SelectCapabilities : Type 0 where
  pub max_bytes : ℕ
  pub chunk_bytes : ℕ
  pub authorization_instruction : ℕ

abbrev pub capability_fields : List String
capability_fields =
    "protocol_version" ∷ "max_message_bytes" ∷ "chunk_bytes" ∷ "authorization_instruction" ∷ []

-- `_integer(payload[name], name, minimum, maximum)`, and the integer
unfoldable pub bounded : ℕ → ℕ → String → Fields → Result ℕ
bounded minimum maximum name payload = do
  value ← get name payload
  integer (pos minimum) (pos maximum) value
  number name payload

unfoldable pub read_capabilities : Fields → Result SelectCapabilities
read_capabilities payload = do
  raise_if (not (has_exactly capability_fields payload)) protocol_error
  version ← bounded 3 3 "protocol_version" payload
  max_bytes ← bounded max_message_bytes max_message_bytes "max_message_bytes" payload
  chunk_bytes ← bounded 1 160 "chunk_bytes" payload
  instruction ← bounded 0x50 0x50 "authorization_instruction" payload
  ok (record {
    max_bytes = max_bytes;
    chunk_bytes = chunk_bytes;
    authorization_instruction = instruction;
  })

unfoldable pub parse_select_capabilities : Library → Bytes → Result SelectCapabilities
parse_select_capabilities lib contents = do
  value ← parse_json lib contents
  payload ← object_of value
  read_capabilities payload

unfoldable pub capabilities : ℕ → ℕ → Fields
capabilities max_bytes chunk_bytes = member "protocol_version" (int (pos 3)) (
    member "max_message_bytes" (int (pos max_bytes)) (
      member "chunk_bytes" (int (pos chunk_bytes))
        (member "authorization_instruction" (int (pos 0x50)) no_fields)))

unfoldable pub encode_select_capabilities : Library → ℕ → ℕ → Result Bytes
encode_select_capabilities lib max_bytes chunk_bytes = do
  contents ← canonical_bytes (obj (capabilities max_bytes chunk_bytes))
  parsed ← parse_select_capabilities lib contents
  ok contents
