-- ===== src/Wire/Kinds/Lookup.antt =====
-- A payload that has exactly the fields of its type has each of them, and no other.
use text.Mathlib.TextEquality.{eq_iff}
use backend_pagos_offline.Prelude.{◌≡◌, refl, String, true, false, not, List, [], ◌∷◌, arith}
use backend_pagos_offline.Result.{is_none}
use backend_pagos_offline.Wire.Json.{Fields, no_fields, member}
use backend_pagos_offline.Wire.Parse.{contains}
use backend_pagos_offline.Wire.Kinds.{find, has, has_each, only_known, has_exactly}

find-has : (n : String) (payload : Fields) → is_none (find n payload) ≡ not (has n payload)
unfolding find has
find-has n no_fields = refl
find-has n (member k v rest) = ground (arith, find-has n rest)

has_each_at :
    (n : String) (names : List String) (payload : Fields)
    → has_each names payload ≡ true
    → contains n names ≡ true
    → has n payload ≡ true
unfolding has_each contains
has_each_at n [] payload h c = cc
has_each_at n (j ∷ js) payload h c = ground (arith, eq_iff j n, has_each_at n js payload)

only_known_at :
    (n : String) (names : List String) (payload : Fields)
    → only_known names payload ≡ true
    → contains n names ≡ false
    → has n payload ≡ false
unfolding only_known has
only_known_at n names no_fields h c = refl
only_known_at n names (member k v rest) h c = ground (arith, eq_iff k n, only_known_at n names rest)

pub find-has_exactly :
    (n : String) (names : List String) (payload : Fields)
    → has_exactly names payload ≡ true
    → is_none (find n payload) ≡ not (contains n names)
unfolding has_exactly
find-has_exactly n names payload h =
    ground (arith, find-has n payload, has_each_at n names payload, only_known_at n names payload)
