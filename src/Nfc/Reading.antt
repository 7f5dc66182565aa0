-- ===== src/Nfc/Reading.antt =====
-- `_read_fragmented` of pos_desktop/service.py, against the replies that `_process` of
-- pos_desktop/simulator.py gives for the fragments of a stored envelope.
pub mod Complete
use backend_pagos_offline.Prelude.{
  ℕ, zero, suc, ◌+◌, ◌-◌, Bool, true, false, not, ◌||◌, Option, none, some, List, [], ◌∷◌, ◌++◌,
  ltb, leb, ◌==◌, Bytes, nat_eq, length, if◌then◌else◌,
}
use backend_pagos_offline.Result.{Result, ok, err, value_error, protocol_error}
use backend_pagos_offline.Result
use backend_pagos_offline.Exec.{Exec, pure, raise, lift, raise_when, ◌>>=◌, ◌>>◌}
use backend_pagos_offline.Nfc.Apdu.{ApduCommand, build_apdu, require_ok, sw_ok}
use backend_pagos_offline.Nfc.Fragments.{chunk_message, join, default_chunk_bytes}

-- `SW_NOT_FOUND`, `SW_BAD_DATA` and `SW_CONDITIONS_NOT_SATISFIED`
abbrev pub sw_not_found : Bytes
sw_not_found = 0x6A ∷ 0x82 ∷ []

abbrev pub sw_bad_data : Bytes
sw_bad_data = 0x6A ∷ 0x80 ∷ []

abbrev pub sw_conditions_not_satisfied : Bytes
sw_conditions_not_satisfied = 0x69 ∷ 0x85 ∷ []

-- The transport is the reader's driver: `transceive` sends a command and returns the reply, and may
-- raise; the state is the device's.
module _ {D : Type 0} (transceive : Bytes → Exec D Bytes) where
  -- What the loop does with one body, `k` being the rest of the loop.
  abbrev pub take_fragment : List Bytes → (List Bytes → Exec D Bytes) → Bytes → Exec D Bytes
  take_fragment chunks k [] = raise value_error
  take_fragment chunks k (is_last ∷ chunk) = do
    raise_when (not (is_last == 0 || is_last == 1)) value_error
    raise_when (ltb 4096 (length (join (chunks ++ chunk ∷ [])))) value_error
    if is_last == 1 then pure (join (chunks ++ chunk ∷ [])) else k (chunks ++ chunk ∷ [])

  -- The rounds left, the sequence number, and the fragments so far.
  unfoldable pub read_from : ℕ → ℕ → List Bytes → ℕ → Bytes → Exec D Bytes
  read_from zero sequence chunks instruction operation_id = raise value_error
  read_from (suc rounds) sequence chunks instruction operation_id = do
    apdu ← lift (build_apdu instruction sequence true operation_id)
    response ← transceive apdu
    body ← lift (require_ok response)
    take_fragment chunks
        (λ chunks'. read_from rounds (sequence + 1) chunks' instruction operation_id) body

  unfoldable pub read_fragmented : ℕ → Bytes → Exec D Bytes
  unfolding read_from
  read_fragmented instruction operation_id = read_from 26 0 [] instruction operation_id

abbrev pub get_elem? : List Bytes → ℕ → Option Bytes
get_elem? [] i = none
get_elem? (x ∷ xs) zero = some x
get_elem? (x ∷ xs) (suc i) = get_elem? xs i

-- `chunks[sequence]` behind the test of the range, framed as the simulator does.
pub fragment_reply : List Bytes → ℕ → Bytes
fragment_reply chunks sequence = elim (get_elem? chunks sequence) [
  | none ↦ sw_not_found
  | some chunk ↦ (if sequence == length chunks - 1 then 1 else 0) ∷ (chunk ++ sw_ok)
]

-- The branches of `_process` that serve a stored envelope (a receipt or the authorization).
unfoldable pub serve_fragment : Option Bytes → ℕ → Bytes
unfolding fragment_reply
serve_fragment none sequence = sw_conditions_not_satisfied
serve_fragment (some envelope) sequence = elim (chunk_message envelope default_chunk_bytes) [
  | err e ↦ sw_bad_data
  | ok chunks ↦ fragment_reply chunks sequence
]
