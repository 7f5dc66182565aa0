-- ===== src/Nfc/Fragments.antt =====
-- `chunk_message` and `assemble_chunks` of protocol_v2.py.
use backend_pagos_offline.Prelude.{
  ℕ, zero, suc, ◌*◌, ◌≤◌, ◌≡◌, ap, refl, Bool, not, ◌&&◌, List, [], ◌∷◌, ◌++◌, arith, ltb, leb,
  Bytes, length, take, drop, take-append-drop, length-take, length-drop, All,
}
use mathlib.Core.List.{append_assoc}
use backend_pagos_offline.Result.{Result, ok, protocol_error, raise_if, ◌>>◌}

abbrev pub max_message_bytes : ℕ
max_message_bytes = 4096

abbrev pub default_chunk_bytes : ℕ
default_chunk_bytes = 160

-- `b"".join(chunks)`
abbrev pub join : List Bytes → Bytes
join [] = []
join (c ∷ cs) = c ++ join cs

-- The slices from an index on, with fuel for the slices left.
unfoldable pub slices : ℕ → ℕ → Bytes → List Bytes
slices fuel size [] = []
slices zero size (b ∷ bs) = []
slices (suc fuel) size (b ∷ bs) = take size (b ∷ bs) ∷ slices fuel size (drop size (b ∷ bs))

abbrev is_message : Bytes → Bool
is_message message = ltb 0 (length message) && leb (length message) max_message_bytes

unfoldable pub chunk_message : Bytes → ℕ → Result (List Bytes)
chunk_message message size = do
  raise_if (not (is_message message)) protocol_error
  raise_if (not (leb 1 size && leb size 255)) protocol_error
  ok (slices (length message) size message)

unfoldable pub assemble_chunks : List Bytes → Result Bytes
assemble_chunks chunks = do
  raise_if (not (is_message (join chunks))) protocol_error
  ok (join chunks)

pub join-append : (cs ds : List Bytes) → join (cs ++ ds) ≡ join cs ++ join ds
join-append [] ds = refl
join-append (c ∷ cs) ds = simp (join-append cs ds, append_assoc)

-- With fuel for every byte the slices lose nothing.
pub join-slices :
    (fuel size : ℕ) (message : Bytes)
    → 1 ≤ size
    → length message ≤ fuel
    → join (slices fuel size message) ≡ message
unfolding slices
join-slices fuel size [] h hf = refl
join-slices zero size (b ∷ bs) h hf = absurd (omega arith)
join-slices (suc fuel) zero (b ∷ bs) h hf = absurd (omega arith)
join-slices (suc fuel) (suc size) (b ∷ bs) h hf =
    rw (join-slices fuel (suc size) (drop size bs) h (omega (arith, length-drop size bs)))
      (ap (λ (t : Bytes). b ∷ t) (take-append-drop size bs))

-- Every slice is there, and none passes the fragment size.
pub slices-size :
    (fuel size : ℕ) (message : Bytes)
    → 1 ≤ size
    → All (λ c. (1 ≤ length c) × (length c ≤ size)) (slices fuel size message)
unfolding slices
slices-size fuel size [] h = tt
slices-size zero size (b ∷ bs) h = tt
slices-size (suc fuel) zero (b ∷ bs) h = absurd (omega arith)
slices-size (suc fuel) (suc size) (b ∷ bs) h =
    (omega (arith, length-take size bs), slices-size fuel (suc size) (drop size bs) h)

-- All slices but the last are full, which bounds their number.
pub length-slices :
    (fuel size rounds : ℕ) (message : Bytes)
    → 1 ≤ size
    → length message ≤ size * rounds
    → length (slices fuel size message) ≤ rounds
unfolding slices
length-slices fuel size rounds [] h hl = omega arith
length-slices zero size rounds (b ∷ bs) h hl = omega arith
length-slices (suc fuel) zero rounds (b ∷ bs) h hl = absurd (omega arith)
length-slices (suc fuel) (suc size) zero (b ∷ bs) h hl = absurd (grind arith)
length-slices (suc fuel) (suc size) (suc rounds) (b ∷ bs) h hl = omega (
  arith,
  length-slices fuel (suc size) rounds (drop size bs) h (omega (arith, length-drop size bs)),
)

pub join-chunks :
    (size : ℕ) (envelope : Bytes)
    → 1 ≤ size
    → join (slices (length envelope) size envelope) ≡ envelope
join-chunks size envelope h = join-slices (length envelope) size envelope h (omega arith)

pub chunks-ne-nil :
    (size : ℕ) (envelope : Bytes)
    → 1 ≤ length envelope
    → 1 ≤ length (slices (length envelope) size envelope)
unfolding slices
chunks-ne-nil size [] h = absurd (omega arith)
chunks-ne-nil size (b ∷ bs) h = omega arith

pub chunk_message-slices :
    (envelope : Bytes)
    → 1 ≤ length envelope
    → length envelope ≤ 4096
    → chunk_message envelope 160 ≡ ok (slices (length envelope) 160 envelope)
unfolding chunk_message
chunk_message-slices envelope h1 h2 = ground arith

-- A message of 1 to 4096 bytes and a fragment size of 1 to 255 are accepted, the fragments are
-- non-empty and within the size, and assembling them gives the message back.
pub assemble_chunks-chunk_message :
    (message : Bytes) (size : ℕ)
    → 1 ≤ length message
    → length message ≤ 4096
    → 1 ≤ size
    → size ≤ 255
    → (chunks : List Bytes) × (chunk_message message size ≡ ok chunks)
      × (assemble_chunks chunks ≡ ok message)
      × All (λ c. (1 ≤ length c) × (length c ≤ size)) chunks
unfolding chunk_message assemble_chunks
assemble_chunks-chunk_message message size h1 h2 h3 h4 = (
  slices (length message) size message,
  ground arith,
  rw (join-slices (length message) size message h3 (omega arith)) (ground arith),
  slices-size (length message) size message h3,
)
