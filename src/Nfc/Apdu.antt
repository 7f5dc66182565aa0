-- ===== src/Nfc/Apdu.antt =====
-- `build_apdu` and `parse_apdu` of protocol_v2.py, `select_hce` and `require_ok` of
-- pos_desktop/nfc.py.
pub mod Laws
use backend_pagos_offline.Prelude.{
  ℕ, ◌+◌, ◌-◌, Bool, true, false, not, ◌&&◌, ◌||◌, List, [], ◌∷◌, ◌++◌, ltb, leb, ◌==◌, ◌!=◌, Bytes,
  length, drop, take, nat_eq, bytes_eq, if◌then◌else◌,
}
use backend_pagos_offline.Result.{
  Result, ok, err, protocol_error, runtime_error, raise_if, ◌>>=◌, ◌>>◌,
}

abbrev pub cla_tfg : ℕ
cla_tfg = 0x80

abbrev pub ins_put_request : ℕ
ins_put_request = 0x10

abbrev pub ins_get_status : ℕ
ins_get_status = 0x20

abbrev pub ins_get_receipt : ℕ
ins_get_receipt = 0x30

abbrev pub ins_put_ack : ℕ
ins_put_ack = 0x40

abbrev pub ins_get_authorization : ℕ
ins_get_authorization = 0x50

abbrev pub sw_ok : Bytes
sw_ok = 0x90 ∷ 0x00 ∷ []

abbrev pub select_apdu : Bytes
select_apdu = 0x00 ∷ 0xA4 ∷ 0x04 ∷ 0x00 ∷ 0x05 ∷ 0xF2 ∷ 0x22 ∷ 0x22 ∷ 0x22 ∷ 0x22 ∷ []

pub record ApduCommand : Type 0 where
  pub instruction : ℕ
  pub sequence : ℕ
  pub is_last : Bool
  pub contents : Bytes

unfoldable pub is_supported : ℕ → Bool
is_supported instruction =
    instruction == ins_put_request
    || instruction == ins_get_status
    || instruction == ins_get_receipt
    || instruction == ins_put_ack
    || instruction == 0x50

unfoldable pub build_apdu : ℕ → ℕ → Bool → Bytes → Result Bytes
build_apdu instruction sequence is_last contents = do
  raise_if (not (is_supported instruction)) protocol_error
  raise_if (not (leb sequence 255)) protocol_error
  raise_if (ltb 255 (length contents)) protocol_error
  ok (
      cla_tfg
      ∷ instruction
      ∷ sequence
      ∷ (if is_last then 0x01 else 0x00)
      ∷ length contents
      ∷ contents)

unfoldable pub parse_apdu : Bytes → Result ApduCommand
parse_apdu (cla ∷ instruction ∷ sequence ∷ p2 ∷ size ∷ contents) = do
  raise_if (cla != cla_tfg) protocol_error
  raise_if (not (is_supported instruction)) protocol_error
  raise_if (not (p2 == 0x00 || p2 == 0x01) || 5 + length contents != 5 + size) protocol_error
  ok (record {
    instruction = instruction;
    sequence = sequence;
    is_last = p2 == 0x01;
    contents = contents;
  })
parse_apdu _ = err protocol_error

-- `response[-2:]` and `response[:-2]`, as a pair; a shorter response has no body
unfoldable pub split_status : Bytes → Bytes × Bytes
split_status response = (take (length response - 2) response, drop (length response - 2) response)

-- `require_ok`, and the check of `select_hce`, which differ in the text of the error only
unfoldable pub require_ok : Bytes → Result Bytes
unfolding split_status
require_ok response = do
  raise_if (ltb (length response) 2 || (split_status response).1 != sw_ok) runtime_error
  ok (split_status response).0
