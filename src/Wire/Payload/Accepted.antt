-- ===== src/Wire/Payload/Accepted.antt =====
-- What `validate_payload` has found of a payload that it accepts.
use text.Mathlib.TextEquality.{eq_iff}
use backend_pagos_offline.Prelude.{
  ℕ, ◌≤◌, ◌<◌, ◌^◌, ◌≡◌, refl, subst, inl, inr, String, true, not, ◌||◌, some, List, [], ◌∷◌, arith,
  Option-cases, string_eq,
}
use backend_pagos_offline.Prelude.Int.{pos, negsuc}
use backend_pagos_offline.Result.{Result, ok, is_none, Result-cases}
use backend_pagos_offline.Wire.Json.{Json, Fields, str, int, obj}
use backend_pagos_offline.Wire.Library.{Library}
use backend_pagos_offline.Wire.Parse.{contains}
use backend_pagos_offline.Wire.Checks.{integer, positive, parse_timestamp}
use backend_pagos_offline.Wire.Kinds.{MessageType, message_type, fields_of, find, get, has_exactly}
use backend_pagos_offline.Wire.Kinds.Lookup.{find-has_exactly}
use backend_pagos_offline.Wire.Payload.{
  number_of, number, check_present, check_each, check_fields, check_times, check_kind, parse_times,
  Times, time_of, time_fields, positive_fields, validate_payload,
}

pub record Accepted (lib : Library) (payload : Fields) (kind : MessageType) (times : Times)
    : Type 0 where
  pub typed : message_type (find "type" payload) ≡ ok kind
  pub complete : has_exactly (fields_of kind) payload ≡ true
  pub checked : check_fields lib payload ≡ ok tt
  pub parsed : parse_times lib time_fields payload ≡ ok times
  pub timed : check_times times ≡ ok tt
  pub fitting : check_kind lib kind times payload ≡ ok tt

pub validate_payload-Accepted :
    (lib : Library) (payload : Fields) (kind : MessageType)
    → validate_payload lib (obj payload) ≡ ok kind
    → (times : Times) × Accepted lib payload kind times
unfolding validate_payload
validate_payload-Accepted lib payload kind h =
    elim (Result-cases (parse_times lib time_fields payload)) [
      | inl (times, parsed) ↦ (
        times,
        record {
          typed = ground arith;
          complete = ground arith;
          checked = ground arith;
          parsed = parsed;
          timed = ground arith;
          fitting = ground arith;
        },
      )
      | inr (e, failed) ↦ absurd (ground arith)
    ]

pub check_each_at :
    (check : Json → Result (Unit {0})) (n : String) (v : Json) (names : List String)
    (payload : Fields)
    → check_each check names payload ≡ ok tt
    → contains n names ≡ true
    → find n payload ≡ some v
    → check v ≡ ok tt
unfolding check_each check_present contains
check_each_at check n v [] payload h c f = cc
check_each_at check n v (j ∷ js) payload h c f =
    ground (arith, eq_iff j n, check_each_at check n v js payload)

pub number_of-positive :
    (v : Json) → positive v ≡ ok tt → (m : ℕ) × (number_of v ≡ ok m) × (1 ≤ m) × (m < 2 ^ 63)
unfolding integer number_of
number_of-positive (int (pos m)) h = (m, refl, ground arith, ground arith)
number_of-positive (int (negsuc m)) h = absurd (ground arith)
number_of-positive (str s) h = cc
number_of-positive _ h = cc

pub time_of-parse_times :
    (lib : Library) (n : String) (names : List String) (payload : Fields) (times : Times)
    → parse_times lib names payload ≡ ok times
    → is_none (time_of n times) ≡ (is_none (find n payload) || not (contains n names))
unfolding parse_times time_of contains
time_of-parse_times lib n [] payload times h = ground arith
time_of-parse_times lib n (j ∷ js) payload times h = elim (Option-cases (find j payload)) [
  | inl absent ↦ ground (arith, eq_iff j n, time_of-parse_times lib n js payload times)
  | inr (v, found) ↦ elim (Result-cases (parse_timestamp lib v)) [
    | inr (e, failed) ↦ absurd (ground arith)
    | inl (t, read) ↦ elim (Result-cases (parse_times lib js payload)) [
      | inr (e, failed) ↦ absurd (ground arith)
      | inl (rest, parsed) ↦
          subst
            (λ ts. is_none (time_of n ts) ≡ (is_none (find n payload) || not (contains n (j ∷ js))))
            {x = (j, t) ∷ rest} (ground arith)
            (ground (arith, eq_iff j n, time_of-parse_times lib n js payload rest parsed))
    ]
  ]
]

-- a positive integer of a payload whose fields have passed their checks
pub number_checked :
    (lib : Library) (n : String) (names : List String) (payload : Fields)
    → has_exactly names payload ≡ true
    → check_fields lib payload ≡ ok tt
    → contains n names ≡ true
    → contains n positive_fields ≡ true
    → (m : ℕ) × (number n payload ≡ ok m) × (1 ≤ m) × (m < 2 ^ 63)
unfolding check_fields number get
number_checked lib n names payload exact checked c p = elim (Option-cases (find n payload)) [
  | inl absent ↦ absurd (ground (arith, absent, find-has_exactly n names payload exact))
  | inr (v, found) ↦
      let each = check_each_at positive n v positive_fields payload (ground arith) p found in
      let (m, e, low, high) = number_of-positive v each in (m, rw found e, low, high)
]
