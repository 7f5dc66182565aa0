-- ===== src/Server/Apply/Insertions.antt =====
-- The rows that a settlement inserts: an insertion raises on a clash, or appends its row.
use backend_pagos_offline.Prelude.{
  ◌≡◌, false, ◌&&◌, ◌||◌, ◌⊎◌, inl, inr, ◌==◌, nat_eq, string_eq, Bool-cases,
}
use backend_pagos_offline.Prelude.Int.{is_zero}
use backend_pagos_offline.Result.{ok, err, integrity_error}
use backend_pagos_offline.Exec.{raise_when}
use backend_pagos_offline.Table.{has_row, insert}
use backend_pagos_offline.Server.Models.{CommitmentEmission, LedgerEntry, PaymentResolution}
use backend_pagos_offline.Server.Session.{
  Session, same_emission, add_emission, add_entry, add_resolution, same_type,
}

pub add_emission-cases :
    (e : CommitmentEmission) (s : Session)
    → (add_emission e s ≡ (err integrity_error, s))
      ⊎ ((has_row (same_emission e) s.current.emissions ≡ false)
          × (add_emission e s ≡ (
            ok tt,
            record s { current = record s.current { emissions = insert e s.current.emissions } },
          )))
unfolding add_emission
add_emission-cases e s = elim (Bool-cases (has_row (same_emission e) s.current.emissions)) [
  | inl clash ↦ inl (rw (clash, raise_when))
  | inr free ↦ inr (free, rw (free, raise_when))
]

pub add_entry-cases :
    (e : LedgerEntry) (s : Session)
    → (add_entry e s ≡ (err integrity_error, s))
      ⊎ (add_entry e s
          ≡ (ok tt, record s { current = record s.current { ledger = insert e s.current.ledger } }))
unfolding add_entry
add_entry-cases e s =
    elim (Bool-cases (
      has_row (λ r. r.operation_id == e.operation_id && same_type r.entry_type e.entry_type)
        s.current.ledger
      || is_zero e.delta_cents)) [
        | inl clash ↦ inl (rw (clash, raise_when))
        | inr free ↦ inr (rw (free, raise_when))
      ]

pub add_resolution-cases :
    (p : PaymentResolution) (s : Session)
    → (add_resolution p s ≡ (err integrity_error, s))
      ⊎ (add_resolution p s ≡ (
        ok tt,
        record s { current = record s.current { resolutions = insert p s.current.resolutions } },
      ))
unfolding add_resolution
add_resolution-cases p s =
    elim (Bool-cases (has_row (λ r. r.operation_id == p.operation_id) s.current.resolutions)) [
      | inl clash ↦ inl (rw (clash, raise_when))
      | inr free ↦ inr (rw (free, raise_when))
    ]
