-- ===== src/Wire/Samples.antt =====
-- A small library with one key, one signature and one digest, for tests.
use backend_pagos_offline.Prelude.{
  ℕ, ◌+◌, ◌-◌, ◌*◌, String, true, Option, none, some, List, [], ◌∷◌, ◌==◌, string_eq, bytes_eq,
  codes, drop, if◌then◌else◌,
}
use backend_pagos_offline.Prelude.Int.{pos}
use backend_pagos_offline.Wire.Library.{Library}

-- the last two digits of an instant
abbrev seconds : List ℕ → Option ℕ
seconds (a ∷ b ∷ rest) = some (10 * (a - 48) + (b - 48))
seconds _ = none

abbrev pub digest_text : String
digest_text = "0123456789abcdef0123456789abcdef0123456789abcdef0123456789abcdef"

-- one key, one signature and one digest
abbrev pub library : Library
library = record {
  Key = Unit {0};
  PrivateKey = Unit {0};
  json_tree = λ contents. none;
  b64decode = λ s. some (if s == "KEY" then 1 ∷ [] else 2 ∷ []);
  b64encode = λ contents. if contents == 1 ∷ [] then "KEY" else "SIG";
  urlsafe_b64decode =
      λ s. some (0 ∷ 0 ∷ 0 ∷ 0 ∷ 0 ∷ 0 ∷ 0 ∷ 0 ∷ 0 ∷ 0 ∷ 0 ∷ 0 ∷ 0 ∷ 0 ∷ 0 ∷ 0 ∷ []);
  urlsafe_b64encode = λ contents. "AAAAAAAAAAAAAAAAAAAAAA";
  sha256 = λ contents. digest_text;
  parse_uuid = λ s. some (some 4, s);
  strptime = λ s. seconds (drop 17 (codes s));
  strftime = λ t. "2025-01-01T00:00:00Z";
  load_der_public_key = λ contents. some tt;
  is_p256 = λ key. true;
  public_bytes = λ key. 1 ∷ [];
  decode_dss_signature = λ contents. some (pos 1, pos 1);
  encode_dss_signature = λ r s. 2 ∷ [];
  verify = λ key signature contents. signature == 2 ∷ [];
  is_p256_private = λ key. true;
  sign = λ key contents. 2 ∷ [];
}
