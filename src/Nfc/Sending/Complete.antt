-- ===== src/Nfc/Sending/Complete.antt =====
-- A message that is sent in fragments reaches the device whole.
use mathlib.Core.List.{append_assoc}
use backend_pagos_offline.Prelude.{
  ℕ, ◌+◌, ◌≤◌, ◌≡◌, refl, Bool, true, false, List, [], ◌∷◌, ◌++◌, arith, Bytes, length,
  length-append, All, if◌then◌else◌, ◌==◌, nat_eq, beq_refl,
}
use backend_pagos_offline.Result.{ok}
use backend_pagos_offline.Exec.{Exec}
use backend_pagos_offline.Nfc.Apdu.{ApduCommand, is_supported, sw_ok}
use backend_pagos_offline.Nfc.Apdu.Laws.{
  frame, build_apdu_accepts, parse_apdu-build_apdu, require_ok-append,
}
use backend_pagos_offline.Nfc.Fragments.{
  join, join-append, slices, slices-size, length-slices, join-chunks, chunks-ne-nil,
  chunk_message-slices,
}
use backend_pagos_offline.Nfc.Sending.{
  Device, send_from, send_fragmented, accept_fragment, finished, process,
}

module _ {R : Type 0} (finish : Bytes → R → Bytes × R) (instruction : ℕ)
    (others : ApduCommand → Exec (Device R) Bytes)
    (supported : is_supported instruction ≡ true) where
  abbrev at : List Bytes → R → Device R
  at fragments rest = record { fragments = fragments; rest = rest }

  -- The device takes the next fragment.
  process-frame :
      (done : List Bytes) (is_last : Bool) (c : Bytes) (r : R)
      → length done ≤ 255
      → length c ≤ 255
      → length (join (done ++ c ∷ [])) ≤ 4096
      → process finish instruction others (frame instruction (length done) is_last c) (at done r)
        ≡ (if is_last
            then finished finish (finish (join (done ++ c ∷ [])) r)
            else (ok sw_ok, at (done ++ c ∷ []) r))
  unfolding process accept_fragment
  process-frame done is_last c r hs hc hl =
      let parsed =
        parse_apdu-build_apdu instruction (length done) is_last c
          (build_apdu_accepts instruction (length done) is_last c supported hs hc) in
      rw (parsed, process) (ground (arith, beq_refl instruction))

  join-length-le :
      (done : List Bytes) (c : Bytes) (rest : List Bytes)
      → length (join (done ++ c ∷ [])) ≤ length (join (done ++ c ∷ rest))
  join-length-le done c rest = simp (join-append, length-append) (omega arith)

  send_from_complete :
      (n : ℕ) (done : List Bytes) (c : Bytes) (rest : List Bytes) (b body : Bytes) (r r' : R)
      → n ≡ length done
      → length (done ++ c ∷ rest) ≤ 255
      → All (λ c. (1 ≤ length c) × (length c ≤ 160)) (c ∷ rest)
      → length (join (done ++ c ∷ rest)) ≤ 4096
      → finish (join (done ++ c ∷ rest)) r ≡ (body ++ sw_ok, r')
      → send_from (process finish instruction others) instruction (c ∷ rest) n b (at done r)
        ≡ (ok body, at [] r')
  unfolding send_from
  send_from_complete n done c [] b body r r' en hn hc hl h =
      let few : length done ≤ 255 = omega (arith, hn, length-append {0} done (c ∷ [])) in
      rw en (
        rw
          (build_apdu_accepts instruction (length done) true c supported few
            (omega (arith, hc.0.1)))
          (rw (process-frame done true c r few (omega (arith, hc.0.1)) hl)
            (rw h (rw (require_ok-append body)))))
  send_from_complete n done c (c' ∷ rest) b body r r' en hn hc hl h =
      let few : length done ≤ 255 = omega (arith, hn, length-append {0} done (c ∷ c' ∷ rest)) in
      let e : (done ++ c ∷ []) ++ c' ∷ rest ≡ done ++ c ∷ c' ∷ rest =
        append_assoc done (c ∷ []) (c' ∷ rest) in
      let more : (length (c' ∷ rest) == 0) ≡ false = ground arith in
      let short : length (join (done ++ c ∷ [])) ≤ 4096 =
        omega (arith, hl, join-length-le done c (c' ∷ rest)) in
      let ih =
        send_from_complete (length done + 1) (done ++ c ∷ []) c' rest [] body r r'
          (omega (arith, length-append {0} done (c ∷ []))) (rw e hn) hc.1 (rw e hl) (rw e h) in
      rw en (
        rw
          (build_apdu_accepts instruction (length done) (length (c' ∷ rest) == 0) c supported few
            (omega (arith, hc.0.1)))
          (rw (process-frame done (length (c' ∷ rest) == 0) c r few (omega (arith, hc.0.1)) short)
            (rw (more, if◌then◌else◌) (rw (require_ok-append []) ih))))

  send_chunks :
      (cs : List Bytes) (body : Bytes) (r r' : R)
      → 1 ≤ length cs
      → length cs ≤ 255
      → All (λ c. (1 ≤ length c) × (length c ≤ 160)) cs
      → length (join cs) ≤ 4096
      → finish (join cs) r ≡ (body ++ sw_ok, r')
      → send_from (process finish instruction others) instruction cs 0 [] (at [] r)
        ≡ (ok body, at [] r')
  send_chunks [] body r r' h1 h2 hc hl h = absurd (omega arith)
  send_chunks (c ∷ rest) body r r' h1 h2 hc hl h =
      send_from_complete 0 [] c rest [] body r r' refl h2 hc hl h

  -- With a supported instruction, to a device with no fragment pending, sending an envelope of 1 to 4096 bytes delivers exactly
  -- that envelope: what the device does is what it does with the whole message, no fragment is left
  -- pending, and the sender gets the body of the device's reply, where that ends in success.
  pub send_fragmented_complete :
      (envelope body : Bytes) (r r' : R)
      → 1 ≤ length envelope
      → length envelope ≤ 4096
      → finish envelope r ≡ (body ++ sw_ok, r')
      → send_fragmented
          (process finish instruction others)
          instruction
          envelope
          (record { fragments = []; rest = r })
        ≡ (ok body, record { fragments = []; rest = r' })
  unfolding send_fragmented
  send_fragmented_complete envelope body r r' h1 h2 h =
      let cs = slices (length envelope) 160 envelope in
      let joined = join-chunks 160 envelope (omega arith) in
      let few = length-slices (length envelope) 160 26 envelope (omega arith) (omega arith) in
      rw (chunk_message-slices envelope h1 h2) (
        send_chunks cs body r r' (chunks-ne-nil 160 envelope h1) (omega (arith, few))
          (slices-size (length envelope) 160 envelope (omega arith)) (rw joined h2) (rw joined h))
