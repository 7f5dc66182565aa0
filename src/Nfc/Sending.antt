-- ===== src/Nfc/Sending.antt =====
-- The loops of `deliver_request` and `_send_ack` of pos_desktop/service.py, against
-- `_accept_fragment` of pos_desktop/simulator.py.
pub mod Complete
use backend_pagos_offline.Prelude.{
  ℕ, ◌+◌, Bool, true, false, not, ◌||◌, Option, none, some, List, [], ◌∷◌, ◌++◌, ltb, ◌==◌, ◌!=◌,
  nat_eq, Bytes, length, if◌then◌else◌,
}
use backend_pagos_offline.Result.{Result, ok, err}
use backend_pagos_offline.Exec.{Exec, pure, lift, ◌>>=◌}
use backend_pagos_offline.Nfc.Apdu.{ApduCommand, build_apdu, parse_apdu, require_ok, sw_ok}
use backend_pagos_offline.Nfc.Fragments.{chunk_message, join, default_chunk_bytes}
use backend_pagos_offline.Nfc.Reading.{sw_bad_data}

module _ {D : Type 0} (transceive : Bytes → Exec D Bytes) (instruction : ℕ) where
  -- The fragments left, the sequence number, and the body of the last reply.
  unfoldable pub send_from : List Bytes → ℕ → Bytes → Exec D Bytes
  send_from [] sequence body = pure body
  send_from (chunk ∷ chunks) sequence body = do
    apdu ← lift (build_apdu instruction sequence (length chunks == 0) chunk)
    response ← transceive apdu
    reply ← lift (require_ok response)
    send_from chunks (sequence + 1) reply

  unfoldable pub send_fragmented : Bytes → Exec D Bytes
  unfolding send_from
  send_fragmented envelope = do
    chunks ← lift (chunk_message envelope default_chunk_bytes)
    send_from chunks 0 []

-- The device: the fragments of the message that is being sent, and the rest of its state.
pub record Device (R : Type 0) : Type 0 where
  pub fragments : List Bytes
  pub rest : R

-- What the device does with a whole message: its reply, and its next state. A message that it
-- cannot read is answered by `SW_BAD_DATA`.
module _ {R : Type 0} (finish : Bytes → R → Bytes × R) where
  abbrev pub finished : Bytes × R → Result Bytes × Device R
  finished (reply, rest) = (ok reply, record { fragments = []; rest = rest })

  abbrev pub keep_fragment : List Bytes → Bool → Exec (Device R) Bytes
  keep_fragment chunks is_last device =
      if ltb 4096 (length (join chunks))
      then (ok sw_bad_data, record device { fragments = [] })
      else if not is_last
      then (ok sw_ok, record device { fragments = chunks })
      else finished (finish (join chunks) device.rest)

  -- `_accept_fragment`
  unfoldable pub accept_fragment : ℕ → Bool → Bytes → Exec (Device R) Bytes
  accept_fragment sequence is_last chunk device =
      if sequence != length device.fragments
      then (ok sw_bad_data, device)
      else keep_fragment (device.fragments ++ chunk ∷ []) is_last device

  -- `_process`, for the commands of one instruction; `others` is what it does with the rest.
  unfoldable pub process : ℕ → (ApduCommand → Exec (Device R) Bytes) → Bytes → Exec (Device R) Bytes
  process instruction others apdu device = elim (parse_apdu apdu) [
    | err e ↦ (ok sw_bad_data, device)
    | ok c ↦
        (if c.instruction == instruction
          then accept_fragment c.sequence c.is_last c.contents device
          else others c device)
  ]
