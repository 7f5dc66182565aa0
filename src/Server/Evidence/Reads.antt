-- ===== src/Server/Evidence/Reads.antt =====
-- What a submission reads changes nothing.
use backend_pagos_offline.Prelude.{ℕ, refl, String, Bool, true, false, Option, none, some, Bytes}
use backend_pagos_offline.Result.{Error}
use backend_pagos_offline.Exec.{raise_when, or_raise}
use backend_pagos_offline.Wire.Library.{Library}
use backend_pagos_offline.Wire.Envelope.{SignedEnvelope}
use backend_pagos_offline.Server.Models.{User, Wallet, Database}
use backend_pagos_offline.Server.Session.{Session, read}
use backend_pagos_offline.Server.Apply.Quiet.{
  Quiet, Quiet-lift, Quiet-pure, Quiet-bind, Quiet-cases, quiet_rules, add_payment-Ends,
  add_claim-Ends, Ends,
}
use backend_pagos_offline.Server.Trust.{Trust}
use backend_pagos_offline.Server.Validation.{
  wire, authorize, signed_at, check_ack, check_messages, find_signer, find_grant, find_wallet_key,
  validate,
}
use backend_pagos_offline.Server.Evidence.{PaymentEvidence, Messages}
use backend_pagos_offline.Server.Evidence.Process.{read_messages, optional_wire, read_facts}

module _ {A : Type 0} where
  pub Quiet-read : (f : Database → A) → Quiet (read f)
  Quiet-read f = record { at = λ s. refl }

  pub Quiet-or_raise : (o : Option A) (e : Error) → Quiet (or_raise o e)
  Quiet-or_raise none e = record { at = λ s. refl }
  Quiet-or_raise (some a) e = record { at = λ s. refl }

pub Quiet-raise_when : (b : Bool) (e : Error) → Quiet (raise_when {S = Session} b e)
Quiet-raise_when true e = record { at = λ s. refl }
Quiet-raise_when false e = record { at = λ s. refl }

pub ruleset reading_rules = (quiet_rules, Quiet-read, Quiet-or_raise, Quiet-raise_when)

pub wire-Quiet : (lib : Library) (value : String) → Quiet (wire lib value)
unfolding wire
wire-Quiet lib value = search reading_rules

pub authorize-Quiet : (user : User) (w t : String) → Quiet (authorize user w t)
unfolding authorize
authorize-Quiet user w t = search reading_rules depth 12

module _ (lib : Library) where
  signed_at-Quiet : (m : SignedEnvelope) (k : _) (t : _) → Quiet (signed_at lib m k t)
  unfolding signed_at
  signed_at-Quiet m k t = search reading_rules

  check_ack-Quiet :
      (request receipt : SignedEnvelope) (k : _) (t : _) (ack : Option Bytes)
      → Quiet (check_ack lib request receipt k t ack)
  unfolding check_ack
  check_ack-Quiet request receipt k t none = search reading_rules
  check_ack-Quiet request receipt k t (some w) = search (reading_rules, signed_at-Quiet) depth 16

  check_messages-Quiet :
      (trust : Trust lib) (request grant receipt : SignedEnvelope)
      → Quiet (check_messages lib trust request grant receipt)
  unfolding check_messages
  check_messages-Quiet trust request grant receipt = search reading_rules depth 16

  find_signer-Quiet : (request : SignedEnvelope) → Quiet (find_signer lib request)
  unfolding find_signer
  find_signer-Quiet request = search (reading_rules, signed_at-Quiet) depth 24

  find_grant-Quiet :
      (grant : SignedEnvelope) (grant_wire : Bytes) → Quiet (find_grant lib grant grant_wire)
  unfolding find_grant
  find_grant-Quiet grant grant_wire = search reading_rules depth 24

  find_wallet_key-Quiet :
      (grant : SignedEnvelope) (w : Wallet) → Quiet (find_wallet_key lib grant w)
  unfolding find_wallet_key
  find_wallet_key-Quiet grant w = search reading_rules depth 24

  pub validate-Quiet :
      (trust : Trust lib) (request grant : SignedEnvelope) (grant_wire : Bytes)
      (receipt : SignedEnvelope) (ack : Option Bytes)
      → Quiet (validate lib trust request grant grant_wire receipt ack)
  unfolding validate
  validate-Quiet trust request grant grant_wire receipt ack =
      search
        (
          reading_rules, check_messages-Quiet, find_signer-Quiet, find_grant-Quiet,
          find_wallet_key-Quiet, check_ack-Quiet,
        )
        depth 24

  optional_wire-Quiet :
      (trust : Trust lib) (now : ℕ) (user : User) (o : Option String)
      → Quiet (optional_wire lib trust now user o)
  unfolding optional_wire
  optional_wire-Quiet trust now user none = search reading_rules
  optional_wire-Quiet trust now user (some v) = search (reading_rules, wire-Quiet)

  pub read_messages-Quiet :
      (trust : Trust lib) (now : ℕ) (user : User) (e : PaymentEvidence)
      → Quiet (read_messages lib trust now user e)
  unfolding read_messages
  read_messages-Quiet trust now user e =
      search (reading_rules, wire-Quiet, optional_wire-Quiet) depth 24

  pub read_facts-Quiet :
      (trust : Trust lib) (now : ℕ) (user : User) (operation_id : String) (m : Messages)
      → Quiet (read_facts lib trust now user operation_id m)
  unfolding read_facts
  read_facts-Quiet trust now user operation_id m =
      search (reading_rules, validate-Quiet, authorize-Quiet) depth 24
