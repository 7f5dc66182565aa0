-- ===== src/Pos/Database/Candidates/Arranged.antt =====
-- `WHERE`, `ORDER BY` and `LIMIT`: which rows they keep, and in which order.
use backend_pagos_offline.Prelude.{
  ℕ, zero, suc, ◌≤◌, ◌≡◌, refl, subst, sym, Bool, true, false, List, [], ◌∷◌, All, arith, take,
  length, ◌⊎◌, Bool-cases, inl, inr,
}
use backend_pagos_offline.Table.{select, rowcount}
use backend_pagos_offline.Table.Laws.{All-map}
use backend_pagos_offline.Pos.Database.Candidates.{put_in_order, order_by}

module _ {A : Type 0} where
  -- The row is one of these.
  abbrev pub Among : A → List A → Type 0
  Among r [] = Prim.⊥
  Among r (x ∷ xs) = (r ≡ x) ⊎ Among r xs

  pub select-All : (test : A → Bool) (rs : List A) → All (λ r. test r ≡ true) (select test rs)
  select-All test [] = tt
  select-All test (r ∷ rs) = elim (Bool-cases (test r)) [
    | inl hit ↦ rw hit (hit, select-All test rs)
    | inr miss ↦ rw miss (select-All test rs)
  ]

  pub Among-select :
      (test : A → Bool) (r : A) (rs : List A)
      → test r ≡ true
      → Among r rs
      → Among r (select test rs)
  Among-select test r [] h m = m
  Among-select test r (x ∷ xs) h (inl same) = rw (← same, h) (inl refl)
  Among-select test r (x ∷ xs) h (inr m) = elim (Bool-cases (test x)) [
    | inl hit ↦ rw hit (inr (Among-select test r xs h m))
    | inr miss ↦ rw miss (Among-select test r xs h m)
  ]

  pub rowcount-select :
      (p test : A → Bool) (rs : List A) → rowcount p (select test rs) ≤ rowcount p rs
  rowcount-select p test [] = omega arith
  rowcount-select p test (r ∷ rs) = ground (arith, rowcount-select p test rs)

  pub rowcount-take : (p : A → Bool) (n : ℕ) (rs : List A) → rowcount p (take n rs) ≤ rowcount p rs
  rowcount-take p zero rs = omega arith
  rowcount-take p (suc n) [] = omega arith
  rowcount-take p (suc n) (r ∷ rs) = ground (arith, rowcount-take p n rs)

  pub All-take : (P : A → Type 0) (n : ℕ) (rs : List A) → All P rs → All P (take n rs)
  All-take P zero rs h = tt
  All-take P (suc n) [] h = tt
  All-take P (suc n) (r ∷ rs) h = (h.0, All-take P n rs h.1)

  -- Each row comes before all that follow it.
  abbrev pub IsOrdered : (A → A → Bool) → List A → Type 0
  IsOrdered before [] = Unit
  IsOrdered before (r ∷ rs) = All (λ s. before r s ≡ true) rs × IsOrdered before rs

  pub take-IsOrdered :
      (before : A → A → Bool) (n : ℕ) (rs : List A)
      → IsOrdered before rs
      → IsOrdered before (take n rs)
  take-IsOrdered before zero rs h = tt
  take-IsOrdered before (suc n) [] h = tt
  take-IsOrdered before (suc n) (r ∷ rs) h =
      (All-take (λ s. before r s ≡ true) n rs h.0, take-IsOrdered before n rs h.1)

  All-Among : (P : A → Type 0) (r : A) (rs : List A) → All P rs → Among r rs → P r
  All-Among P r [] h m = absurd m
  All-Among P r (x ∷ xs) h (inl same) = subst P (sym same) h.0
  All-Among P r (x ∷ xs) h (inr m) = All-Among P r xs h.1 m

  -- A row that a limit cuts off comes after as many rows as the limit says.
  pub Among-take :
      (before : A → A → Bool) (n : ℕ) (r : A) (rs : List A)
      → IsOrdered before rs
      → Among r rs
      → Among r (take n rs) ⊎ ((length (take n rs) ≡ n) × All (λ s. before s r ≡ true) (take n rs))
  Among-take before zero r rs h m = inr (refl, tt)
  Among-take before (suc n) r [] h m = absurd m
  Among-take before (suc n) r (x ∷ xs) h (inl same) = inl (inl same)
  Among-take before (suc n) r (x ∷ xs) h (inr m) = elim (Among-take before n r xs h.1 m) [
    | inl taken ↦ inl (inr taken)
    | inr (full, after) ↦ inr (rw full, (All-Among (λ s. before x s ≡ true) r xs h.0 m, after))
  ]

module _ {A : Type 0} (before : A → A → Bool) where
  All-put_in_order :
      (P : A → Type 0) (r : A) (xs : List A) → P r → All P xs → All P (put_in_order before r xs)
  All-put_in_order P r [] p h = (p, tt)
  All-put_in_order P r (x ∷ xs) p h = elim (Bool-cases (before r x)) [
    | inl first ↦ rw first (p, h)
    | inr later ↦ rw later (h.0, All-put_in_order P r xs p h.1)
  ]

  pub All-order_by : (P : A → Type 0) (xs : List A) → All P xs → All P (order_by before xs)
  All-order_by P [] h = tt
  All-order_by P (x ∷ xs) h = All-put_in_order P x (order_by before xs) h.0 (All-order_by P xs h.1)

  Among-put_in_order :
      (r x : A) (xs : List A) → (r ≡ x) ⊎ Among r xs → Among r (put_in_order before x xs)
  Among-put_in_order r x [] m = m
  Among-put_in_order r x (y ∷ ys) m = elim (Bool-cases (before x y)) [
    | inl first ↦ rw first m
    | inr later ↦ rw later (elim m [
      | inl same ↦ inr (Among-put_in_order r x ys (inl same))
      | inr (inl same) ↦ inl same
      | inr (inr deeper) ↦ inr (Among-put_in_order r x ys (inr deeper))
    ])
  ]

  pub Among-order_by : (r : A) (xs : List A) → Among r xs → Among r (order_by before xs)
  Among-order_by r [] m = m
  Among-order_by r (x ∷ xs) (inl same) = Among-put_in_order r x (order_by before xs) (inl same)
  Among-order_by r (x ∷ xs) (inr m) =
      Among-put_in_order r x (order_by before xs) (inr (Among-order_by r xs m))

  rowcount-put_in_order :
      (p : A → Bool) (r : A) (xs : List A)
      → rowcount p (put_in_order before r xs) ≡ rowcount p (r ∷ xs)
  rowcount-put_in_order p r [] = refl
  rowcount-put_in_order p r (x ∷ xs) = ground (arith, rowcount-put_in_order p r xs)

  pub rowcount-order_by :
      (p : A → Bool) (xs : List A) → rowcount p (order_by before xs) ≡ rowcount p xs
  rowcount-order_by p [] = refl
  rowcount-order_by p (x ∷ xs) =
      ground (arith, rowcount-put_in_order p x (order_by before xs), rowcount-order_by p xs)

  module _ (total : (r s : A) → before r s ≡ false → before s r ≡ true)
      (trans : (r s t : A) → before r s ≡ true → before s t ≡ true → before r t ≡ true) where
    put_in_order-IsOrdered :
        (r : A) (xs : List A) → IsOrdered before xs → IsOrdered before (put_in_order before r xs)
    put_in_order-IsOrdered r [] h = (tt, tt)
    put_in_order-IsOrdered r (x ∷ xs) h = elim (Bool-cases (before r x)) [
      | inl first ↦ rw first (
        (
          first,
          All-map (λ s. before x s ≡ true) (λ s. before r s ≡ true) xs
              (λ s after. trans r x s first after) h.0,
        ),
        h,
      )
      | inr later ↦ rw later (
        All-put_in_order (λ s. before x s ≡ true) r xs (total r x later) h.0,
        put_in_order-IsOrdered r xs h.1,
      )
    ]

    pub order_by-IsOrdered : (xs : List A) → IsOrdered before (order_by before xs)
    order_by-IsOrdered [] = tt
    order_by-IsOrdered (x ∷ xs) =
        put_in_order-IsOrdered x (order_by before xs) (order_by-IsOrdered xs)
