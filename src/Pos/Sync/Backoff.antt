-- ===== src/Pos/Sync/Backoff.antt =====
-- The delay between attempts.
use native.Mathlib.Nat.{pow-suc}
use backend_pagos_offline.Prelude.{ℕ, zero, suc, ◌+◌, ◌-◌, ◌*◌, ◌^◌, ◌≤◌, ◌≡◌, refl, min, arith}
use backend_pagos_offline.Pos.Sync.{backoff}

pow-pos : (n : ℕ) → 1 ≤ 2 ^ n
pow-pos zero = omega arith
pow-pos (suc n) = rw (pow-suc 2 n) (omega (arith, pow-pos n))

backoff-suc : (k n : ℕ) → k ≡ suc n → backoff k ≡ min (15 * 2 ^ n) 3600
unfolding backoff
backoff-suc k n h = let e : k - 1 ≡ n = omega arith in rw e

twice_pow : (n : ℕ) → 2 ^ (suc n) ≡ 2 * 2 ^ n
twice_pow n = rw (pow-suc 2 n) (omega arith)

-- The delay is between 15 seconds and an hour, it is 15 seconds at first, doubles with each attempt
-- until the hour is reached, and never becomes shorter.
pub backoff_lem :
    (n : ℕ)
    → (15 ≤ backoff n)
      × (backoff n ≤ 3600)
      × (backoff 1 ≡ 15)
      × (backoff (n + 2) ≡ min (2 * backoff (n + 1)) 3600)
      × (backoff n ≤ backoff (n + 1))
unfolding backoff
backoff_lem zero = (omega arith, omega arith, refl, refl, omega arith)
backoff_lem (suc n) =
    let here = backoff-suc (suc n) n refl in
    let next = backoff-suc (suc n + 1) (suc n) (omega arith) in
    let third = backoff-suc (suc n + 2) (suc (suc n)) (omega arith) in
    let w0 = pow-pos n in
    let w1 = twice_pow n in
    let w2 = twice_pow (suc n) in
    rw (here, next, third) (omega arith, omega arith, refl, omega arith, omega arith)
