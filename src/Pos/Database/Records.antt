-- ===== src/Pos/Database/Records.antt =====
-- What a row of `operations` may look like, and what a method may do to it.
use backend_pagos_offline.Prelude.{
  ℕ, ◌≤◌, ◌≡◌, refl, ◌∙◌, Bool, true, false, not, Option, none, some, arith, Bytes,
}
use backend_pagos_offline.Result.{is_none}
use backend_pagos_offline.Pos.Rows.{OpState, Recovery, PosOperation, is_final}

abbrev pub is_evidenced : OpState → Bool
is_evidenced OpState.request_created = false
is_evidenced OpState.request_delivered = false
is_evidenced OpState.waiting_confirmation = false
is_evidenced _ = true

abbrev pub is_complete : Recovery → Bool
is_complete Recovery.complete = true
is_complete _ = false

-- The receipt and its acknowledgement come together, exactly in the states from LOCALLY_ACCEPTED
-- on; a signed resolution is there exactly when the recovery is complete, and only in a final state.
pub record IsConsistent (r : PosOperation) : Type 0 where
  pub paired : is_none r.receipt_envelope ≡ is_none r.ack_envelope
  pub stage : is_evidenced r.state ≡ not (is_none r.receipt_envelope)
  pub resolved : is_complete r.resolution_recovery_status ≡ not (is_none r.resolution_envelope)
  pub final : is_complete r.resolution_recovery_status ≡ true → is_final r.state ≡ true
  pub positive : 1 ≤ r.amount_cents

abbrev pub rank : OpState → ℕ
rank OpState.request_created = 0
rank OpState.request_delivered = 1
rank OpState.waiting_confirmation = 2
rank OpState.locally_accepted = 3
rank _ = 4

-- A value that is present stays as it is.
abbrev pub Keeps : Option Bytes → Option Bytes → Type 0
Keeps before after = is_none before ≡ false → after ≡ before

pub record Advances (r r' : PosOperation) : Type 0 where
  pub same_id : r'.operation_id ≡ r.operation_id
  pub same_merchant : r'.merchant_id ≡ r.merchant_id
  pub same_terminal : r'.terminal_id ≡ r.terminal_id
  pub same_amount : r'.amount_cents ≡ r.amount_cents
  pub same_nonce : r'.nonce ≡ r.nonce
  pub same_request : r'.request_envelope ≡ r.request_envelope
  pub keeps_authorization : Keeps r.authorization_envelope r'.authorization_envelope
  pub keeps_receipt : Keeps r.receipt_envelope r'.receipt_envelope
  pub keeps_ack : Keeps r.ack_envelope r'.ack_envelope
  pub keeps_resolution : Keeps r.resolution_envelope r'.resolution_envelope
  pub attempts : r.sync_attempts ≤ r'.sync_attempts
  pub order : rank r.state ≤ rank r'.state
  pub settled : rank r.state ≡ 4 → r'.state ≡ r.state

pub Advances-refl : (r : PosOperation) → Advances r r
Advances-refl r = record {
  same_id = refl;
  same_merchant = refl;
  same_terminal = refl;
  same_amount = refl;
  same_nonce = refl;
  same_request = refl;
  keeps_authorization = λ _. refl;
  keeps_receipt = λ _. refl;
  keeps_ack = λ _. refl;
  keeps_resolution = λ _. refl;
  attempts = omega arith;
  order = omega arith;
  settled = λ _. refl;
}

Keeps-trans : (a b c : Option Bytes) → Keeps a b → Keeps b c → Keeps a c
Keeps-trans a b c h k p = ground (arith, h p, k)

pub Advances-trans : {r s t : PosOperation} → Advances r s → Advances s t → Advances r t
Advances-trans {r} {s} {t} h k = record {
  same_id = k.same_id ∙ h.same_id;
  same_merchant = k.same_merchant ∙ h.same_merchant;
  same_terminal = k.same_terminal ∙ h.same_terminal;
  same_amount = k.same_amount ∙ h.same_amount;
  same_nonce = k.same_nonce ∙ h.same_nonce;
  same_request = k.same_request ∙ h.same_request;
  keeps_authorization = Keeps-trans _ _ _ h.keeps_authorization k.keeps_authorization;
  keeps_receipt = Keeps-trans _ _ _ h.keeps_receipt k.keeps_receipt;
  keeps_ack = Keeps-trans _ _ _ h.keeps_ack k.keeps_ack;
  keeps_resolution = Keeps-trans _ _ _ h.keeps_resolution k.keeps_resolution;
  attempts = omega (arith, h.attempts, k.attempts);
  order = omega (arith, h.order, k.order);
  settled = λ p. ground (arith, h.settled p, k.settled);
}

-- The row of one identifier before and after: it is created consistent, and a consistent row stays
-- and advances.
abbrev pub Evolves : Option PosOperation → Option PosOperation → Type 0
Evolves none none = Unit
Evolves none (some r') = IsConsistent r'
Evolves (some r) none = ⊥
Evolves (some r) (some r') = IsConsistent r → IsConsistent r' × Advances r r'

pub Evolves-refl : (o : Option PosOperation) → Evolves o o
Evolves-refl none = tt
Evolves-refl (some r) = λ c. (c, Advances-refl r)

pub Evolves-trans : (a b c : Option PosOperation) → Evolves a b → Evolves b c → Evolves a c
Evolves-trans none none none h k = tt
Evolves-trans none none (some t) h k = k
Evolves-trans none (some s) none h k = absurd k
Evolves-trans none (some s) (some t) h k = (k h).0
Evolves-trans (some r) none c h k = absurd h
Evolves-trans (some r) (some s) none h k = absurd k
Evolves-trans (some r) (some s) (some t) h k =
    λ c. ((k (h c).0).0, Advances-trans (h c).1 (k (h c).0).1)

-- The same, as what is kept of a row that was consistent.
abbrev pub IsSound : Option PosOperation → Type 0
IsSound none = Unit
IsSound (some r) = IsConsistent r

abbrev pub Follows : Option PosOperation → Option PosOperation → Type 0
Follows none o = Unit
Follows (some r) none = ⊥
Follows (some r) (some r') = Advances r r'

pub Evolves-Follows :
    (a b : Option PosOperation) → Evolves a b → IsSound a → IsSound b × Follows a b
Evolves-Follows none none h c = (tt, tt)
Evolves-Follows none (some r') h c = (h, tt)
Evolves-Follows (some r) none h c = absurd h
Evolves-Follows (some r) (some r') h c = h c
