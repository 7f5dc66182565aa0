-- ===== src/Server/Revocation.antt =====
-- `requires_review` of revocation.py. Stored instants are in UTC seconds, so the step that attaches
-- the time zone changes nothing.
use backend_pagos_offline.Prelude.{
  ◌⊎◌, ◌↔◌, refl, ℕ, Bool, true, false, none, some, leb, if◌then◌else◌, ◌≡◌, ◌≤◌, arith,
  Option-cases, inl, inr,
}
use backend_pagos_offline.Server.Models.{RegisteredKey}

unfoldable pub requires_review : RegisteredKey → ℕ → Bool
requires_review key evidence_time =
    if key.revoked
    then elim key.revoked_at [ none ↦ true | some effective ↦ leb effective evidence_time ]
    else false

-- Evidence needs a review exactly when its key is revoked, and is not known to have been revoked
-- after the evidence: the date of the revocation is unknown, or is at or before the evidence.
pub requires_review_lem :
    (key : RegisteredKey) (t : ℕ)
    → (requires_review key t ≡ true) ↔ (
        (key.revoked ≡ true)
        × ((key.revoked_at ≡ none) ⊎ ((d : ℕ) × (key.revoked_at ≡ some d) × (d ≤ t))))
unfolding requires_review
requires_review_lem key t = (
  λ e. (
    ground arith,
    elim (Option-cases key.revoked_at) [
      | inl unknown ↦ inl unknown
      | inr (d, dated) ↦ inr (d, dated, ground arith)
    ],
  ),
  λ h. elim h.1 [
    | inl unknown ↦ rw (h.0, unknown) refl
    | inr (d, dated, before) ↦ rw (h.0, dated) (ground arith)
  ],
)
