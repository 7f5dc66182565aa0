-- ===== src/Prelude/Text.antt =====
-- The order of texts by code points, as Python's `<` on `str` and SQLite's binary collation have it.
-- The program stores its instants as texts of one fixed width, so this order is that of time.
use Prim.Native.Nat.{ℕ, compare, Ordering}
use Prim.Native.Char.{code}
use Prim.Native.String.{String}
use mathlib.Core.Path.{◌≡◌, refl}
use mathlib.Core.Bool.{Bool, true, false, not}
use mathlib.Core.List.{List, [], ◌∷◌}
use mathlib.Core.Logic.{◌≢◌, ◌⊎◌, inl, inr}
use text.Mathlib.TextEquality.{Char-path}
use backend_pagos_offline.Prelude.Tests.{Bool-cases}
use native.Mathlib.Omega.{arith}

abbrev pub codes : String → List ℕ
codes String.[] = []
codes (String.◌∷◌ c s) = code c ∷ codes s

unfoldable pub codes_ltb : List ℕ → List ℕ → Bool
codes_ltb [] [] = false
codes_ltb [] (b ∷ bs) = true
codes_ltb (a ∷ as') [] = false
codes_ltb (a ∷ as') (b ∷ bs) = elim (compare a b) [
  | Ordering.lt ↦ true
  | Ordering.eq ↦ codes_ltb as' bs
  | Ordering.gt ↦ false
]

unfoldable pub text_ltb : String → String → Bool
unfolding codes_ltb
text_ltb s t = codes_ltb (codes s) (codes t)

abbrev pub text_leb : String → String → Bool
text_leb s t = not (text_ltb t s)

codes_ltb_asymm : (a b : List ℕ) → codes_ltb a b ≡ true → codes_ltb b a ≡ false
unfolding codes_ltb
codes_ltb_asymm [] [] h = refl
codes_ltb_asymm [] (b ∷ bs) h = refl
codes_ltb_asymm (a ∷ as') [] h = ground arith
codes_ltb_asymm (a ∷ as') (b ∷ bs) h = ground (arith, codes_ltb_asymm as' bs)

codes_leb_trans :
    (a b c : List ℕ) → codes_ltb b a ≡ false → codes_ltb c b ≡ false → codes_ltb c a ≡ false
unfolding codes_ltb
codes_leb_trans [] b [] h k = refl
codes_leb_trans (x ∷ a) [] [] h k = cc
codes_leb_trans (x ∷ a) (y ∷ b) [] h k = cc
codes_leb_trans [] b (z ∷ c) h k = refl
codes_leb_trans (x ∷ a) [] (z ∷ c) h k = cc
codes_leb_trans (x ∷ a) (y ∷ b) (z ∷ c) h k = ground (arith, codes_leb_trans a b c)

pub text_leb_total : (s t : String) → text_leb s t ≡ false → text_leb t s ≡ true
unfolding text_ltb
text_leb_total s t h = ground (arith, codes_ltb_asymm (codes t) (codes s))

pub text_leb_trans :
    (s t u : String) → text_leb s t ≡ true → text_leb t u ≡ true → text_leb s u ≡ true
unfolding text_ltb
text_leb_trans s t u h k = ground (arith, codes_leb_trans (codes s) (codes t) (codes u))

codes_ltb_trans :
    (a b c : List ℕ) → codes_ltb a b ≡ true → codes_ltb b c ≡ true → codes_ltb a c ≡ true
unfolding codes_ltb
codes_ltb_trans [] [] c h k = cc
codes_ltb_trans (x ∷ a) [] c h k = cc
codes_ltb_trans a (y ∷ b) [] h k = cc
codes_ltb_trans [] (y ∷ b) (z ∷ c) h k = refl
codes_ltb_trans (x ∷ a) (y ∷ b) (z ∷ c) h k = ground (arith, codes_ltb_trans a b c)

-- lists of which neither comes first are equal
codes_ltb_eq : (a b : List ℕ) → codes_ltb a b ≡ false → codes_ltb b a ≡ false → a ≡ b
unfolding codes_ltb
codes_ltb_eq [] [] h k = refl
codes_ltb_eq [] (y ∷ b) h k = cc
codes_ltb_eq (x ∷ a) [] h k = cc
codes_ltb_eq (x ∷ a) (y ∷ b) h k = ground (arith, codes_ltb_eq a b)

codes_inj : (s t : String) → codes s ≡ codes t → s ≡ t
codes_inj String.[] String.[] h = refl
codes_inj String.[] (String.◌∷◌ d t) h = cc
codes_inj (String.◌∷◌ c s) String.[] h = cc
codes_inj (String.◌∷◌ c s) (String.◌∷◌ d t) h =
    let first : c ≡ d = Char-path c d (ground arith) in
    rw (first, codes_inj s t (ground arith)) refl

pub text_ltb_asymm : (s t : String) → text_ltb s t ≡ true → text_ltb t s ≡ false
unfolding text_ltb
text_ltb_asymm s t h = codes_ltb_asymm (codes s) (codes t) h

pub text_ltb_trans :
    (s t u : String) → text_ltb s t ≡ true → text_ltb t u ≡ true → text_ltb s u ≡ true
unfolding text_ltb
text_ltb_trans s t u h k = codes_ltb_trans (codes s) (codes t) (codes u) h k

-- of two texts that differ, one comes first
pub text_ltb_connex : (s t : String) → s ≢ t → (text_ltb s t ≡ true) ⊎ (text_ltb t s ≡ true)
unfolding text_ltb
text_ltb_connex s t different = elim (Bool-cases (text_ltb s t)) [
  | inl before ↦ inl before
  | inr h ↦ elim (Bool-cases (text_ltb t s)) [
    | inl after ↦ inr after
    | inr k ↦ absurd (different (codes_inj s t (codes_ltb_eq (codes s) (codes t) h k)))
  ]
]
