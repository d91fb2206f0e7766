-- ===== src/Agreement/Unanimity.antt =====
-- What `compare` of internal/agreement/agreement.go accepts, described relay by relay.
use clicksync.Base.{
  ℕ, List, [], ◌∷◌, false, ◌!=◌, nat_eq, bytes_eq, ◌≡◌, refl, ◌↔◌, ◌⊎◌, inl, inr, any, All, length,
  ok, arith,
}
use clicksync.Model.{point_eq, AgreedEvent}
use clicksync.Relay.{Event, forward, rollback}
use clicksync.Agreement.Emission.{EmitsForward, EmitsRollback, EmitsForward-iff, EmitsRollback-iff}
use clicksync.Agreement.{
  agreed_forward, agreed_rollback, retains_raw, compare_fields, compare, differing,
}

-- A relay's roll-forward event is the one retained, but for the raw bytes.
pub record SameForward (first event : Event) : Type 0 where
  pub kind : event.kind ≡ first.kind
  pub point : event.point ≡ first.point
  pub block_type : event.block_type ≡ first.block_type
  pub raw_length : event.raw_length ≡ first.raw_length
  pub digest : event.digest ≡ first.digest
  pub no_raw : event.raw_cbor ≡ []

pub record SameRollback (first event : Event) : Type 0 where
  pub kind : event.kind ≡ first.kind
  pub point : event.point ≡ first.point
  pub no_raw : event.raw_cbor ≡ []

pub record ForwardAgreement (first : Event) (rest : List Event) : Type 0 where
  pub kind : first.kind ≡ forward
  pub exact : length first.raw_cbor ≡ first.raw_length
  pub same : All (SameForward first) rest

pub record RollbackAgreement (first : Event) (rest : List Event) : Type 0 where
  pub kind : first.kind ≡ rollback
  pub no_raw : first.raw_cbor ≡ []
  pub same : All (SameRollback first) rest

abbrev pub Agreed : Event → List Event → AgreedEvent → Type 0
Agreed first rest agreed =
    (ForwardAgreement first rest × EmitsForward first rest agreed)
    ⊎ (RollbackAgreement first rest × EmitsRollback first rest agreed)

-- The same, with what the code makes.
abbrev Computed : Event → List Event → AgreedEvent → Type 0
Computed first rest agreed =
    (ForwardAgreement first rest × (agreed ≡ agreed_forward first rest))
    ⊎ (RollbackAgreement first rest × (agreed ≡ agreed_rollback first rest))

raw_none : (raw : List ℕ) → (length raw != 0) ≡ false → raw ≡ []
raw_none [] h = refl
raw_none (x ∷ raw) h = ground arith

none_raw : (raw : List ℕ) → raw ≡ [] → (length raw != 0) ≡ false
none_raw [] h = ground arith
none_raw (x ∷ raw) h = cc

module _ (first : Event) where
  same_forward :
      (rest : List Event)
      → any (λ event. event.kind != first.kind) rest ≡ false
      → any (λ event. event.point != first.point) rest ≡ false
      → any (λ event. event.block_type != first.block_type) rest ≡ false
      → any (λ event. event.raw_length != first.raw_length) rest ≡ false
      → any (λ event. event.digest != first.digest) rest ≡ false
      → any retains_raw rest ≡ false
      → All (SameForward first) rest
  same_forward [] k p b l d r = tt
  same_forward (x ∷ xs) k p b l d r = ground (arith, raw_none x.raw_cbor, same_forward xs)

  same_rollback :
      (rest : List Event)
      → any (λ event. event.kind != first.kind) rest ≡ false
      → any (λ event. event.point != first.point) rest ≡ false
      → any retains_raw rest ≡ false
      → All (SameRollback first) rest
  same_rollback [] k p r = tt
  same_rollback (x ∷ xs) k p r = ground (arith, raw_none x.raw_cbor, same_rollback xs)

  forward_same :
      (rest : List Event)
      → All (SameForward first) rest
      → (any (λ event. event.kind != first.kind) rest ≡ false)
        × (any (λ event. event.point != first.point) rest ≡ false)
        × (any (λ event. event.block_type != first.block_type) rest ≡ false)
        × (any (λ event. event.raw_length != first.raw_length) rest ≡ false)
        × (any (λ event. event.digest != first.digest) rest ≡ false)
        × (any retains_raw rest ≡ false)
  forward_same [] s = (refl, refl, refl, refl, refl, refl)
  forward_same (x ∷ xs) s = ground (arith, none_raw x.raw_cbor s.0.no_raw, forward_same xs s.1)

  rollback_same :
      (rest : List Event)
      → All (SameRollback first) rest
      → (any (λ event. event.kind != first.kind) rest ≡ false)
        × (any (λ event. event.point != first.point) rest ≡ false)
        × (any retains_raw rest ≡ false)
  rollback_same [] s = (refl, refl, refl)
  rollback_same (x ∷ xs) s = ground (arith, none_raw x.raw_cbor s.0.no_raw, rollback_same xs s.1)

  compare_fields_sound :
      (rest : List Event) (agreed : AgreedEvent)
      → compare_fields first rest ≡ ok agreed
      → Computed first rest agreed
  unfolding compare_fields
  compare_fields_sound rest agreed h =
      ground (arith, raw_none first.raw_cbor, same_forward rest, same_rollback rest)

  compare_fields_complete :
      (rest : List Event) (agreed : AgreedEvent)
      → Computed first rest agreed
      → compare_fields first rest ≡ ok agreed
  unfolding compare_fields
  compare_fields_complete rest agreed (inl (s, e)) = ground (arith, forward_same rest s.same)
  compare_fields_complete rest agreed (inr (s, e)) =
      ground (arith, none_raw first.raw_cbor s.no_raw, rollback_same rest s.same)

Agreed-Computed :
    (first : Event) (rest : List Event) (agreed : AgreedEvent)
    → Agreed first rest agreed ↔ Computed first rest agreed
Agreed-Computed first rest agreed = (
  λ h. elim h [
    | inl (s, e) ↦ inl (s, (EmitsForward-iff first rest agreed).0 e)
    | inr (s, e) ↦ inr (s, (EmitsRollback-iff first rest agreed).0 e)
  ],
  λ h. elim h [
    | inl (s, e) ↦ inl (s, (EmitsForward-iff first rest agreed).1 e)
    | inr (s, e) ↦ inr (s, (EmitsRollback-iff first rest agreed).1 e)
  ],
)

-- `compare` emits an event exactly when every relay supplied the same one: all agree on the kind and
-- the point, on block type, raw length and digest if it is a roll-forward, and only the first relay
-- retained raw bytes, of the stated length. The event has the kind and the point of the first relay's
-- and, for a roll-forward, its block type, digest, raw length and raw bytes (for a rollback: none of
-- them), the relays in their order, and the latest of their times of observation.
pub compare_iff :
    (first : Event) (rest : List Event) (agreed : AgreedEvent)
    → (compare first rest ≡ ok agreed) ↔ Agreed first rest agreed
unfolding differing compare
compare_iff first rest agreed = (
  λ h.
      (Agreed-Computed first rest agreed).1 (compare_fields_sound first rest agreed (ground arith)),
  λ h. rw (compare_fields_complete first rest agreed ((Agreed-Computed first rest agreed).0 h)),
)
