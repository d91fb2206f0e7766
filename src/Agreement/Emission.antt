-- ===== src/Agreement/Emission.antt =====
-- The event that `compare` of internal/agreement/agreement.go emits, described field by field.
use clicksync.Base.{
  ℕ, ◌≤◌, List, [], ◌∷◌, replicate, if◌then◌else◌, ltb, ◌≡◌, refl, sym, ap, ◌∙◌, subst, ◌↔◌, ◌⊎◌,
  inl, inr, All, Some, arith,
}
use clicksync.Model.{AgreedEvent, RelayIdentity}
use clicksync.Relay.{Event}
use clicksync.Agreement.{
  agreed_forward, agreed_rollback, latest_observation, latest_from, relay_identities,
}

-- The latest observation of the events, or 0 (the zero time) if none is later.
pub record IsLatest (events : List Event) (time : ℕ) : Type 0 where
  pub last : All (λ (e : Event). e.observed_at ≤ time) events
  pub observed : (time ≡ 0) ⊎ Some (λ (e : Event). e.observed_at ≡ time) events

-- The relays of the events, in their order.
abbrev pub AreRelays : List Event → List RelayIdentity → Type 0
AreRelays [] [] = Unit
AreRelays [] (r ∷ rs) = ⊥
AreRelays (e ∷ es) [] = ⊥
AreRelays (e ∷ es) (r ∷ rs) = (r ≡ e.relay) × AreRelays es rs

-- What is emitted for a roll-forward, field by field.
pub record EmitsForward (first : Event) (rest : List Event) (agreed : AgreedEvent) : Type 0 where
  pub kind : agreed.kind ≡ 1
  pub point : agreed.point ≡ first.point
  pub block_type : agreed.block_type ≡ first.block_type
  pub content_hash : agreed.content_hash ≡ first.digest
  pub raw_length : agreed.raw_length ≡ first.raw_length
  pub raw_cbor : agreed.raw_cbor ≡ first.raw_cbor
  pub relays : AreRelays (first ∷ rest) agreed.relays
  pub observed_at : IsLatest (first ∷ rest) agreed.observed_at

-- And for a rollback, which carries no block.
pub record EmitsRollback (first : Event) (rest : List Event) (agreed : AgreedEvent) : Type 0 where
  pub kind : agreed.kind ≡ 2
  pub point : agreed.point ≡ first.point
  pub block_type : agreed.block_type ≡ 0
  pub content_hash : agreed.content_hash ≡ replicate 32 0
  pub raw_length : agreed.raw_length ≡ 0
  pub raw_cbor : agreed.raw_cbor ≡ []
  pub relays : AreRelays (first ∷ rest) agreed.relays
  pub observed_at : IsLatest (first ∷ rest) agreed.observed_at

abbrev later_of : ℕ → ℕ → ℕ
later_of n k = if ltb n k then k else n

later_of-le : (n k : ℕ) → (n ≤ later_of n k) × (k ≤ later_of n k)
later_of-le n k = ground arith

later_of-one : (n k : ℕ) → (later_of n k ≡ n) ⊎ (later_of n k ≡ k)
later_of-one n k = ground arith

latest_from-le :
    (n : ℕ) (es : List Event)
    → (n ≤ latest_from n es) × All (λ (e : Event). e.observed_at ≤ latest_from n es) es
unfolding latest_from
latest_from-le n [] = (omega arith, tt)
latest_from-le n (e ∷ es) =
    let (above, all) = latest_from-le (later_of n e.observed_at) es in
    let (first, second) = later_of-le n e.observed_at in (omega arith, (omega arith, all))

latest_from-one :
    (n : ℕ) (es : List Event)
    → (latest_from n es ≡ n) ⊎ Some (λ (e : Event). e.observed_at ≡ latest_from n es) es
unfolding latest_from
latest_from-one n [] = inl refl
latest_from-one n (e ∷ es) = elim (latest_from-one (later_of n e.observed_at) es) [
  | inr there ↦ inr (inr there)
  | inl here ↦ elim (later_of-one n e.observed_at) [
    | inl old ↦ inl (here ∙ old)
    | inr new ↦ inr (inl (sym (here ∙ new)))
  ]
]

latest_observation-IsLatest : (es : List Event) → IsLatest es (latest_observation es)
unfolding latest_observation
latest_observation-IsLatest es = record {
  last = (latest_from-le 0 es).1;
  observed = latest_from-one 0 es;
}

below_all :
    (es : List Event) (m n : ℕ)
    → All (λ (e : Event). e.observed_at ≤ n) es
    → Some (λ (e : Event). e.observed_at ≡ m) es
    → m ≤ n
below_all [] m n all one = absurd one.1
below_all (e ∷ es) m n (here, all) (inl same) = omega arith
below_all (e ∷ es) m n (here, all) (inr one) = below_all es m n all one

IsLatest-le : (es : List Event) (m n : ℕ) → IsLatest es m → IsLatest es n → m ≤ n
IsLatest-le es m n p q = elim p.observed [
  | inl zero_time ↦ omega arith
  | inr one ↦ below_all es m n q.last one
]

-- Only one time is the latest.
IsLatest-eq : (es : List Event) (m n : ℕ) → IsLatest es m → IsLatest es n → m ≡ n
IsLatest-eq es m n p q =
    let up = IsLatest-le es m n p q in let down = IsLatest-le es n m q p in omega arith

relay_identities-AreRelays : (es : List Event) → AreRelays es (relay_identities es)
relay_identities-AreRelays [] = tt
relay_identities-AreRelays (e ∷ es) = (refl, relay_identities-AreRelays es)

AreRelays-eq :
    (es : List Event) (rs : List RelayIdentity) → AreRelays es rs → rs ≡ relay_identities es
AreRelays-eq [] [] h = refl
AreRelays-eq [] (r ∷ rs) h = absurd h
AreRelays-eq (e ∷ es) [] h = absurd h
AreRelays-eq (e ∷ es) (r ∷ rs) (same, h) =
    ap (λ x. x ∷ rs) same ∙ ap (◌∷◌ e.relay) (AreRelays-eq es rs h)

module _ (first : Event) (rest : List Event) (agreed : AgreedEvent) where
  pub EmitsForward-iff : EmitsForward first rest agreed ↔ (agreed ≡ agreed_forward first rest)
  unfolding agreed_forward
  EmitsForward-iff = (
    λ h.
        let r = AreRelays-eq (first ∷ rest) agreed.relays h.relays in
        let t =
          IsLatest-eq (first ∷ rest) agreed.observed_at _ h.observed_at
            (latest_observation-IsLatest (first ∷ rest)) in
        let k = h.kind in
        let p = h.point in
        let b = h.block_type in
        let c = h.content_hash in let l = h.raw_length in let w = h.raw_cbor in cc,
    λ e. subst (EmitsForward first rest) (sym e) (record {
      kind = refl;
      point = refl;
      block_type = refl;
      content_hash = refl;
      raw_length = refl;
      raw_cbor = refl;
      relays = relay_identities-AreRelays (first ∷ rest);
      observed_at = latest_observation-IsLatest (first ∷ rest);
    }),
  )

  pub EmitsRollback-iff : EmitsRollback first rest agreed ↔ (agreed ≡ agreed_rollback first rest)
  unfolding agreed_rollback
  EmitsRollback-iff = (
    λ h.
        let r = AreRelays-eq (first ∷ rest) agreed.relays h.relays in
        let t =
          IsLatest-eq (first ∷ rest) agreed.observed_at _ h.observed_at
            (latest_observation-IsLatest (first ∷ rest)) in
        let k = h.kind in
        let p = h.point in
        let b = h.block_type in
        let c = h.content_hash in let l = h.raw_length in let w = h.raw_cbor in cc,
    λ e. subst (EmitsRollback first rest) (sym e) (record {
      kind = refl;
      point = refl;
      block_type = refl;
      content_hash = refl;
      raw_length = refl;
      raw_cbor = refl;
      relays = relay_identities-AreRelays (first ∷ rest);
      observed_at = latest_observation-IsLatest (first ∷ rest);
    }),
  )
