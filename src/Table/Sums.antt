-- ===== src/Table/Sums.antt =====
-- Sums over the rows of a table, and row counts, under an update.
use backend_pagos_offline.Prelude.{
  false, ℕ, ◌+◌, ◌*◌, ◌≤◌, ◌≡◌, refl, Bool, true, List, [], ◌∷◌, arith, All, Bool-cases, inl, inr,
  some, ◌||◌, if◌then◌else◌,
}
use backend_pagos_offline.Table.{fetch, rowcount, has_row, update, insert}

module _ {A : Type 0} where
  abbrev pub total : (A → ℕ) → List A → ℕ
  total f [] = 0
  total f (r ∷ rs) = f r + total f rs

module _ {A : Type 0} (f : A → ℕ) (test : A → Bool) (change : A → A) where
  pub total-update_add :
      (a : ℕ) (rs : List A)
      → ((r : A) → test r ≡ true → f (change r) ≡ f r + a)
      → total f (update test change rs) ≡ total f rs + rowcount test rs * a
  total-update_add a [] h = omega arith
  total-update_add a (r ∷ rs) h = elim (Bool-cases (test r)) [
    | inl met ↦ rw met (grind (arith, h r met, total-update_add a rs h))
    | inr unmet ↦ rw unmet (omega (arith, total-update_add a rs h))
  ]

  pub total-update_sub :
      (a : ℕ) (rs : List A)
      → ((r : A) → test r ≡ true → f (change r) + a ≡ f r)
      → total f (update test change rs) + rowcount test rs * a ≡ total f rs
  total-update_sub a [] h = omega arith
  total-update_sub a (r ∷ rs) h = elim (Bool-cases (test r)) [
    | inl met ↦ rw met (grind (arith, h r met, total-update_sub a rs h))
    | inr unmet ↦ rw unmet (omega (arith, total-update_sub a rs h))
  ]

  -- The same, for the rows of this table only.
  pub total-update_sub-All :
      (a : ℕ) (rs : List A)
      → All (λ r. test r ≡ true → f (change r) + a ≡ f r) rs
      → total f (update test change rs) + rowcount test rs * a ≡ total f rs
  total-update_sub-All a [] h = omega arith
  total-update_sub-All a (r ∷ rs) h = elim (Bool-cases (test r)) [
    | inl met ↦ rw met (grind (arith, h.0 met, total-update_sub-All a rs h.1))
    | inr unmet ↦ rw unmet (omega (arith, total-update_sub-All a rs h.1))
  ]

  pub total-update_same :
      (rs : List A)
      → ((r : A) → test r ≡ true → f (change r) ≡ f r)
      → total f (update test change rs) ≡ total f rs
  total-update_same [] h = refl
  total-update_same (r ∷ rs) h = elim (Bool-cases (test r)) [
    | inl met ↦ rw met (omega (arith, h r met, total-update_same rs h))
    | inr unmet ↦ rw unmet (omega (arith, total-update_same rs h))
  ]

  pub total-update_le :
      (rs : List A)
      → ((r : A) → test r ≡ true → f (change r) ≤ f r)
      → total f (update test change rs) ≤ total f rs
  total-update_le [] h = omega arith
  total-update_le (r ∷ rs) h = elim (Bool-cases (test r)) [
    | inl met ↦ rw met (omega (arith, h r met, total-update_le rs h))
    | inr unmet ↦ rw unmet (omega (arith, total-update_le rs h))
  ]

  pub total-update_ge :
      (rs : List A)
      → ((r : A) → test r ≡ true → f r ≤ f (change r))
      → total f rs ≤ total f (update test change rs)
  total-update_ge [] h = omega arith
  total-update_ge (r ∷ rs) h = elim (Bool-cases (test r)) [
    | inl met ↦ rw met (omega (arith, h r met, total-update_ge rs h))
    | inr unmet ↦ rw unmet (omega (arith, total-update_ge rs h))
  ]

module _ {A : Type 0} (p test : A → Bool) (change : A → A) where
  pub rowcount-update :
      (rs : List A)
      → ((r : A) → test r ≡ true → p (change r) ≡ p r)
      → rowcount p (update test change rs) ≡ rowcount p rs
  rowcount-update [] h = refl
  rowcount-update (r ∷ rs) h = elim (Bool-cases (test r)) [
    | inl met ↦ rw met (rw (h r met) (ground (arith, rowcount-update rs h)))
    | inr unmet ↦ rw unmet (ground (arith, rowcount-update rs h))
  ]

  pub has_row-update :
      (rs : List A)
      → ((r : A) → test r ≡ true → p (change r) ≡ p r)
      → has_row p (update test change rs) ≡ has_row p rs
  has_row-update [] h = refl
  has_row-update (r ∷ rs) h = elim (Bool-cases (test r)) [
    | inl met ↦ rw met (rw (h r met) (ground (arith, has_row-update rs h)))
    | inr unmet ↦ rw unmet (ground (arith, has_row-update rs h))
  ]

module _ {A : Type 0} (f : A → ℕ) where
  pub total-insert : (r : A) (rs : List A) → total f (insert r rs) ≡ total f rs + f r
  total-insert r [] = omega arith
  total-insert r (r' ∷ rs) = omega (arith, total-insert r rs)

  pub total-eq : (g : A → ℕ) (rs : List A) → ((r : A) → f r ≡ g r) → total f rs ≡ total g rs
  total-eq g [] h = refl
  total-eq g (r ∷ rs) h = omega (arith, h r, total-eq g rs h)

  pub total_mono : (g : A → ℕ) (rs : List A) → ((r : A) → f r ≤ g r) → total f rs ≤ total g rs
  total_mono g [] h = omega arith
  total_mono g (r ∷ rs) h = omega (arith, h r, total_mono g rs h)

  -- The first row that a test meets is one term of the sum over the rows that it meets.
  pub fetch-total :
      (test : A → Bool) (rs : List A) (r : A)
      → fetch test rs ≡ some r
      → f r ≤ total (λ s. if test s then f s else 0) rs
  fetch-total test [] r h = cc
  fetch-total test (s ∷ rs) r h = elim (Bool-cases (test s)) [
    | inl hit ↦ let same : s ≡ r = ground arith in rw (hit, same) (omega arith)
    | inr miss ↦ ground (arith, fetch-total test rs r)
  ]

module _ {A : Type 0} (test : A → Bool) where
  pub has_row-insert :
      (r : A) (rs : List A) → has_row test (insert r rs) ≡ has_row test rs || test r
  has_row-insert r [] = ground arith
  has_row-insert r (s ∷ rs) = ground (arith, has_row-insert r rs)

  pub rowcount-insert :
      (r : A) (rs : List A)
      → rowcount test (insert r rs) ≡ rowcount test rs + (if test r then 1 else 0)
  rowcount-insert r [] = ground arith
  rowcount-insert r (s ∷ rs) = ground (arith, rowcount-insert r rs)

-- Where no row meets the wider of two tests, none meets the narrower.
pub rowcount-missed :
    {A : Type 0} (p test : A → Bool) (rs : List A)
    → ((r : A) → p r ≡ true → test r ≡ true)
    → has_row test rs ≡ false
    → rowcount p rs ≡ 0
rowcount-missed p test [] h e = refl
rowcount-missed p test (r ∷ rs) h e = ground (arith, h r, rowcount-missed p test rs h)
