-- ===== src/Nfc/Apdu/Laws.antt =====
-- Round trips of the APDU framing.
use backend_pagos_offline.Prelude.{
  ℕ, ◌-◌, ◌≤◌, ◌≡◌, refl, Bool, true, [], ◌∷◌, ◌++◌, arith, Bytes, length, take, drop,
  length-append, if◌then◌else◌,
}
use backend_pagos_offline.Result.{ok}
use backend_pagos_offline.Nfc.Apdu.{
  build_apdu, parse_apdu, is_supported, require_ok, sw_ok, cla_tfg,
}

-- A command that `build_apdu` accepts is read back by `parse_apdu` with the same instruction,
-- sequence number, last flag and data.
pub parse_apdu-build_apdu :
    (instruction sequence : ℕ) (is_last : Bool) (contents : Bytes) {apdu : Bytes}
    → build_apdu instruction sequence is_last contents ≡ ok apdu
    → parse_apdu apdu
      ≡ ok (record {
        instruction = instruction;
        sequence = sequence;
        is_last = is_last;
        contents = contents;
      })
unfolding build_apdu parse_apdu
parse_apdu-build_apdu instruction sequence is_last contents h = ground arith

abbrev pub frame : ℕ → ℕ → Bool → Bytes → Bytes
frame instruction sequence is_last contents =
    cla_tfg ∷ instruction ∷ sequence ∷ (if is_last then 0x01 else 0x00) ∷ length contents ∷ contents

-- `build_apdu` accepts every supported instruction with a one-byte sequence number and at most 255
-- bytes of data.
pub build_apdu_accepts :
    (instruction sequence : ℕ) (is_last : Bool) (contents : Bytes)
    → is_supported instruction ≡ true
    → sequence ≤ 255
    → length contents ≤ 255
    → build_apdu instruction sequence is_last contents
      ≡ ok (frame instruction sequence is_last contents)
unfolding build_apdu
build_apdu_accepts instruction sequence is_last contents h hs hl = ground arith

take-append : (xs ys : Bytes) → take (length xs) (xs ++ ys) ≡ xs
take-append [] ys = refl
take-append (x ∷ xs) ys = rw (take-append xs ys)

drop-append : (xs ys : Bytes) → drop (length xs) (xs ++ ys) ≡ ys
drop-append [] ys = refl
drop-append (x ∷ xs) ys = drop-append xs ys

length-append-sw_ok : (body : Bytes) → length (body ++ sw_ok) - 2 ≡ length body
length-append-sw_ok body = omega (arith, length-append body sw_ok)

-- A response that ends in the success status gives its body.
pub require_ok-append : (body : Bytes) → require_ok (body ++ sw_ok) ≡ ok body
unfolding require_ok
require_ok-append body =
    rw (length-append-sw_ok body, take-append body sw_ok, drop-append body sw_ok)
      (ground (arith, length-append body sw_ok))
