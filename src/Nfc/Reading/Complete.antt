-- ===== src/Nfc/Reading/Complete.antt =====
-- The reading loop ends with the whole envelope, within its 26 rounds.
use mathlib.Core.List.{append_assoc}
use backend_pagos_offline.Prelude.{
  ℕ, zero, suc, ◌+◌, ◌≤◌, ◌≡◌, refl, sym, ap, ◌∙◌, true, some, List, [], ◌∷◌, ◌++◌, arith, Bytes,
  length, length-append, if◌then◌else◌, ◌==◌, nat_eq,
}
use backend_pagos_offline.Result.{ok}
use backend_pagos_offline.Exec.{Exec}
use backend_pagos_offline.Nfc.Apdu.{is_supported, sw_ok}
use backend_pagos_offline.Nfc.Apdu.Laws.{frame, build_apdu_accepts, require_ok-append}
use backend_pagos_offline.Nfc.Fragments.{
  join, join-append, slices, length-slices, join-chunks, chunks-ne-nil, chunk_message-slices,
}
use backend_pagos_offline.Nfc.Reading.{
  read_from, read_fragmented, get_elem?, fragment_reply, serve_fragment, take_fragment,
}

get_elem?-append :
    (done : List Bytes) (c : Bytes) (rest : List Bytes)
    → get_elem? (done ++ c ∷ rest) (length done) ≡ some c
get_elem?-append [] c rest = refl
get_elem?-append (x ∷ done) c rest = get_elem?-append done c rest

-- The flag of a fragment says whether none is left.
fragment_reply-append :
    (done : List Bytes) (c : Bytes) (rest : List Bytes)
    → fragment_reply (done ++ c ∷ rest) (length done)
      ≡ (if length rest == 0 then 1 else 0) ∷ (c ++ sw_ok)
unfolding fragment_reply
fragment_reply-append done c rest =
    rw (get_elem?-append done c rest, fragment_reply)
      (ground (arith, length-append {0} done (c ∷ rest)))

join-length-le :
    (done : List Bytes) (c : Bytes) (rest : List Bytes)
    → length (join (done ++ c ∷ [])) ≤ length (join (done ++ c ∷ rest))
join-length-le done c rest = simp (join-append, length-append) (omega arith)

module _ {D : Type 0} (transceive : Bytes → Exec D Bytes) (instruction : ℕ) (operation_id : Bytes)
    (device : D) (supported : is_supported instruction ≡ true)
    (short : length operation_id ≤ 255) where
  -- One round: the device's fragment is taken.
  read_from-round :
      (rounds : ℕ) (done : List Bytes) (c : Bytes) (rest : List Bytes)
      → length done ≤ 255
      → transceive (frame instruction (length done) true operation_id) device
        ≡ (ok (fragment_reply (done ++ c ∷ rest) (length done)), device)
      → read_from transceive (suc rounds) (length done) done instruction operation_id device
        ≡ take_fragment transceive done
            (λ cs. read_from transceive rounds (length done + 1) cs instruction operation_id)
            ((if length rest == 0 then 1 else 0) ∷ c)
            device
  unfolding read_from
  read_from-round rounds done c rest hl h =
      rw (build_apdu_accepts instruction (length done) true operation_id supported hl short) (
        rw h (
          rw (fragment_reply-append done c rest)
            (rw (require_ok-append ((if length rest == 0 then 1 else 0) ∷ c)))))

  read_from_complete :
      (rounds sequence : ℕ) (done : List Bytes) (c : Bytes) (rest cs : List Bytes)
      → sequence ≡ length done
      → cs ≡ done ++ c ∷ rest
      → sequence + length (c ∷ rest) ≤ 26
      → length (c ∷ rest) ≤ rounds
      → length (join cs) ≤ 4096
      → ((n : ℕ)
          → transceive (frame instruction n true operation_id) device
            ≡ (ok (fragment_reply cs n), device))
      → read_from transceive rounds sequence done instruction operation_id device
        ≡ (ok (join cs), device)
  read_from_complete zero n done c rest cs en e h1 h2 h3 h = absurd (omega arith)
  read_from_complete (suc rounds) n done c [] cs en e h1 h2 h3 h =
      rw (en, e)
        (rw (read_from-round rounds done c [] (omega arith) (rw (← en, ← e) (h n)))
          (ground (arith, ap (λ t. length (join t)) e)))
  read_from_complete (suc rounds) n done c (c' ∷ rest) cs en e h1 h2 h3 h =
      let e' : cs ≡ (done ++ c ∷ []) ++ c' ∷ rest =
        e ∙ sym (append_assoc done (c ∷ []) (c' ∷ rest)) in
      let ih =
        read_from_complete rounds (n + 1) (done ++ c ∷ []) c' rest cs
          (omega (arith, length-append {0} done (c ∷ []))) e' (omega arith) (omega arith) h3 h in
      rw en (
        rw (read_from-round rounds done c (c' ∷ rest) (omega arith) (rw (← en, ← e) (h n)))
          (ground (arith, join-length-le done c (c' ∷ rest), ap (λ t. length (join t)) e, ih, en)))

  -- Any non-empty list of at most 26 fragments is read whole.
  read_all :
      (cs : List Bytes)
      → 1 ≤ length cs
      → length cs ≤ 26
      → length (join cs) ≤ 4096
      → ((n : ℕ)
          → transceive (frame instruction n true operation_id) device
            ≡ (ok (fragment_reply cs n), device))
      → read_fragmented transceive instruction operation_id device ≡ (ok (join cs), device)
  unfolding read_fragmented
  read_all [] h1 h2 h3 h = absurd (omega arith)
  read_all (c ∷ rest) h1 h2 h3 h =
      read_from_complete 26 0 [] c rest (c ∷ rest) refl refl (omega arith) h2 h3 h

  -- With a supported instruction and an identifier of at most 255 bytes, from a device that answers every read command for the operation with the fragment of a stored
  -- envelope of 1 to 4096 bytes, the loop returns exactly that envelope: its 26 rounds are enough.
  pub read_fragmented_complete :
      (envelope : Bytes)
      → 1 ≤ length envelope
      → length envelope ≤ 4096
      → ((n : ℕ)
          → transceive (frame instruction n true operation_id) device
            ≡ (ok (serve_fragment (some envelope) n), device))
      → read_fragmented transceive instruction operation_id device ≡ (ok envelope, device)
  unfolding serve_fragment
  read_fragmented_complete envelope h1 h2 h =
      let cs = slices (length envelope) 160 envelope in
      let joined = join-chunks 160 envelope (omega arith) in
      let few = length-slices (length envelope) 160 26 envelope (omega arith) (omega arith) in
      let chunked = chunk_message-slices envelope h1 h2 in
      read_all cs (chunks-ne-nil 160 envelope h1) few (rw joined h2)
        (λ n. h n ∙ rw (chunked, serve_fragment))
      ∙ rw joined
