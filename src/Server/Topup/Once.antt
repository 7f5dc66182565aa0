-- ===== src/Server/Topup/Once.antt =====
-- A top-up is credited once, however often it is asked for.
use text.Mathlib.TextEquality.{eq_iff}
use backend_pagos_offline.Table.Laws.{fetch-test}
use backend_pagos_offline.Prelude.{
  ℕ, ◌≡◌, refl, String, true, false, arith, ◌==◌, ◌!=◌, string_eq, nat_eq, ◌⊎◌, inl, inr,
  Bool-cases, Option-cases, if◌then◌else◌,
}
use backend_pagos_offline.Result.{ok, err, http}
use backend_pagos_offline.Exec.{or_raise, raise_when}
use backend_pagos_offline.Table.{has_row}
use backend_pagos_offline.Server.Models.{User, Wallet, SimulatedTopup, Database}
use backend_pagos_offline.Server.Session.{Session, get_wallet}
use backend_pagos_offline.Server.Topup.{
  TopupRequest, simulated_topup, owned_topup, new_topup, repeat_topup, get_topup, topup_clash,
  topup_id_is, same_topup, credit_topup, is_same_topup, topup_response, lost_race,
}
use backend_pagos_offline.Server.Apply.Outcome.{both}

-- How a request ends, with the state that it leaves.
pub data Topup (q : TopupRequest) (user : User) (others : Database → Database) (s s' : Session)
    : Type 0 where
  -- refused, or known already: nothing is done
  unchanged : s' ≡ s → Topup q user others s s'
  -- the identifier was taken meanwhile
  lost :
      topup_clash q (others s.committed) ≡ true
      → s' ≡ both (others s.committed)
      → Topup q user others s s'
  -- credited
  credited :
      (wallet : Wallet)
      → has_row (topup_id_is q.request_id) (others s.committed).topups ≡ false
      → wallet.id ≡ q.wallet_id
      → s' ≡ both (credit_topup q wallet user (others s.committed))
      → Topup q user others s s'

topup_response-state : (id w : String) (a : ℕ) (s : Session) → (topup_response id w a s).1 ≡ s
topup_response-state id w a s = elim (Option-cases (get_wallet w s.current)) [
  | inl missing ↦ rw (missing, or_raise)
  | inr (r, found) ↦ rw (found, or_raise)
]

repeat_topup-state :
    (q : TopupRequest) (user : User) (e : SimulatedTopup) (s : Session)
    → (repeat_topup q user e s).1 ≡ s
repeat_topup-state q user e s = elim (Bool-cases (same_topup q user e)) [
  | inl same ↦
      rw (same, raise_when) (topup_response-state e.request_id e.wallet_id e.amount_cents s)
  | inr other ↦ rw (other, raise_when)
]

lost_race-state :
    (q : TopupRequest) (user : User) (d : Database)
    → ((lost_race q user (both d)) ≡ (ok tt, both d))
      ⊎ ((lost_race q user (both d)) ≡ (err (http 409), both d))
lost_race-state q user d = elim (Bool-cases (is_same_topup q user (get_topup q.request_id d))) [
  | inl same ↦ inl (rw (same, raise_when))
  | inr other ↦ inr (rw (other, raise_when))
]

new_topup-Topup :
    (q : TopupRequest) (user : User) (others : Database → Database) (wallet : Wallet) (s : Session)
    → wallet.id ≡ q.wallet_id
    → Topup q user others s (new_topup q user others wallet s).1
new_topup-Topup q user others wallet s same =
    let d = others s.committed in
    elim (Bool-cases (topup_clash q d)) [
      | inl clash ↦ elim (lost_race-state q user d) [
        | inl kept ↦
            rw (clash, if◌then◌else◌)
              (rw kept
                (lost clash (topup_response-state q.request_id wallet.id q.amount_cents (both d))))
        | inr raised ↦ rw (clash, if◌then◌else◌) (rw raised (lost clash refl))
      ]
      | inr free ↦
          rw (free, if◌then◌else◌)
            (credited wallet (ground arith) same (
              topup_response-state q.request_id wallet.id q.amount_cents
                (both (credit_topup q wallet user d))))
    ]

-- Every request ends in one of the three ways.
pub simulated_topup-Topup :
    (q : TopupRequest) (user : User) (others : Database → Database) (s : Session)
    → Topup q user others s (simulated_topup q user others s).1
unfolding simulated_topup
simulated_topup-Topup q user others s = elim (Option-cases (get_wallet q.wallet_id s.current)) [
  | inl missing ↦ rw (missing, simulated_topup) (unchanged refl)
  | inr (w, found) ↦
      let same : w.id ≡ q.wallet_id =
        (eq_iff w.id q.wallet_id).0
          (fetch-test (λ r. r.id == q.wallet_id) s.current.wallets w found) in
      rw (found, simulated_topup)
        (elim (Bool-cases (w.user_id != user.id)) [
          | inl other ↦ rw (other, raise_when) (unchanged refl)
          | inr own ↦
              rw (own, raise_when)
                (elim (Option-cases (get_topup q.request_id s.current)) [
                  | inl new ↦ rw (new, owned_topup) (new_topup-Topup q user others w s same)
                  | inr (e, known) ↦
                      rw (known, owned_topup) (unchanged (repeat_topup-state q user e s))
                ])
        ])
]
