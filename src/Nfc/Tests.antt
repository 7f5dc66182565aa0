-- ===== src/Nfc/Tests.antt =====
-- Frames and fragments of small messages, on which the theorems about the wire are applied.
use backend_pagos_offline.Prelude.{
  ℕ, ◌≡◌, ◌≤◌, refl, arith, true, some, List, [], ◌∷◌, Bytes, length, All,
}
use backend_pagos_offline.Result.{ok}
use backend_pagos_offline.Exec.{Exec}
use backend_pagos_offline.Nfc.Apdu.{ApduCommand, build_apdu, parse_apdu, is_supported}
use backend_pagos_offline.Nfc.Apdu.Laws.{parse_apdu-build_apdu}
use backend_pagos_offline.Nfc.Fragments.{
  chunk_message, assemble_chunks, assemble_chunks-chunk_message,
}
use backend_pagos_offline.Nfc.Sending.{Device, process, send_fragmented}
use backend_pagos_offline.Nfc.Sending.Complete.{send_fragmented_complete}
use backend_pagos_offline.Nfc.Reading.{read_fragmented, serve_fragment}
use backend_pagos_offline.Nfc.Reading.Complete.{read_fragmented_complete}

abbrev three_bytes : Bytes
three_bytes = 7 ∷ 8 ∷ 9 ∷ []

builds : build_apdu 0x10 2 true three_bytes ≡ ok (0x80 ∷ 0x10 ∷ 2 ∷ 1 ∷ 3 ∷ three_bytes)
unfolding build_apdu is_supported
builds = refl

parse_apdu-build_apdu_example :
    parse_apdu (0x80 ∷ 0x10 ∷ 2 ∷ 1 ∷ 3 ∷ three_bytes)
    ≡ ok (record { instruction = 0x10; sequence = 2; is_last = true; contents = three_bytes })
parse_apdu-build_apdu_example = parse_apdu-build_apdu 0x10 2 true three_bytes builds

assemble_chunks-chunk_message_example :
    (chunks : List Bytes) × (chunk_message three_bytes 2 ≡ ok chunks)
    × (assemble_chunks chunks ≡ ok three_bytes)
    × All (λ c. (1 ≤ length c) × (length c ≤ 2)) chunks
assemble_chunks-chunk_message_example =
    assemble_chunks-chunk_message three_bytes 2 (omega arith) (omega arith) (omega arith)
      (omega arith)

-- A device that serves one envelope, whatever the command's sequence number.
abbrev serving : Bytes → Exec ℕ Bytes
serving (cla ∷ ins ∷ sequence ∷ rest) d = (ok (serve_fragment (some three_bytes) sequence), d)
serving _ d = (ok [], d)

read_fragmented_example : read_fragmented serving 0x30 (1 ∷ []) 0 ≡ (ok three_bytes, 0)
read_fragmented_example =
    read_fragmented_complete serving 0x30 (1 ∷ []) 0 (unfold is_supported in refl) (omega arith)
      three_bytes (omega arith) (omega arith) (λ n. refl)

-- A device that stores the message, and answers with one byte.
abbrev storing : Bytes → Bytes → Bytes × Bytes
storing message r = (7 ∷ 0x90 ∷ 0x00 ∷ [], message)

abbrev refusing : ApduCommand → Exec (Device Bytes) Bytes
refusing c d = (ok [], d)

send_fragmented_example :
    send_fragmented
      (process storing 0x10 refusing)
      0x10
      three_bytes
      (record { fragments = []; rest = [] })
    ≡ (ok (7 ∷ []), record { fragments = []; rest = three_bytes })
send_fragmented_example =
    send_fragmented_complete storing 0x10 refusing (unfold is_supported in refl) three_bytes
      (7 ∷ []) [] three_bytes (omega arith) (omega arith) refl
