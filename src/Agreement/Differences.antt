-- ===== src/Agreement/Differences.antt =====
-- What `compare` reports when it refuses: the field, and diagnostics of bounded size.
use clicksync.Base.{
  ℕ, zero, suc, take, ◌≤◌, List, [], ◌∷◌, true, ◌≡◌, ◌≢◌, ◌↔◌, ◌<◌, refl, sym, ap, subst, ◌∙◌, ◌⊎◌,
  inl, inr, ◌!=◌, nat_eq, bytes_eq, Bool-cases, leb, leb→le, any, All, Some, length, min, Result,
  ok, err, arith, none_differs, any_differs,
}
use clicksync.Base.Text.{Text}
use clicksync.Model.{AgreedEvent, point_eq}
use clicksync.Relay.{Event, forward, rollback}
use clicksync.Agreement.{
  DifferenceField, event_kind, point, block_type, raw_length, digest, raw_retention, Diagnostic,
  Difference, bounded_text, bounded_identity, diagnose, diagnostic, max_identity_text, retains_raw,
  compare_fields, compare, differing, new_difference,
}

abbrev SameKind : Event → List Event → Type 0
SameKind first rest =
    ((first.kind ≡ forward) ⊎ (first.kind ≡ rollback)) × All (λ event. event.kind ≡ first.kind) rest

abbrev SamePoint : Event → List Event → Type 0
SamePoint first rest = SameKind first rest × All (λ event. event.point ≡ first.point) rest

abbrev RetainsRaw : Event → Type 0
RetainsRaw event = event.raw_cbor ≢ []

-- The named field differs, and those that are compared before it do not.
abbrev pub Differs : DifferenceField → Event → List Event → Type 0
Differs event_kind first rest =
    ((first.kind ≢ forward) × (first.kind ≢ rollback))
    ⊎ Some (λ event. event.kind ≢ first.kind) rest
Differs point first rest = SameKind first rest × Some (λ event. event.point ≢ first.point) rest
Differs block_type first rest =
    SamePoint first rest
    × (first.kind ≡ forward)
    × Some (λ event. event.block_type ≢ first.block_type) rest
Differs raw_length first rest =
    SamePoint first rest
    × (first.kind ≡ forward)
    × All (λ event. event.block_type ≡ first.block_type) rest
    × Some (λ event. event.raw_length ≢ first.raw_length) rest
Differs digest first rest =
    SamePoint first rest
    × (first.kind ≡ forward)
    × All (λ event. event.block_type ≡ first.block_type) rest
    × All (λ event. event.raw_length ≡ first.raw_length) rest
    × Some (λ event. event.digest ≢ first.digest) rest
Differs raw_retention first rest =
    SamePoint first rest
    × (((first.kind ≡ rollback) × (RetainsRaw first ⊎ Some RetainsRaw rest))
        ⊎ ((first.kind ≡ forward)
            × All (λ event. event.block_type ≡ first.block_type) rest
            × All (λ event. event.raw_length ≡ first.raw_length) rest
            × All (λ event. event.digest ≡ first.digest) rest
            × ((length first.raw_cbor ≢ first.raw_length) ⊎ Some RetainsRaw rest)))

raw_some : (raw : List ℕ) → (length raw != 0) ≡ true → raw ≢ []
raw_some [] h = ground arith
raw_some (x ∷ raw) h = λ e. cc

any-retains_raw : (rest : List Event) → any retains_raw rest ≡ true → Some RetainsRaw rest
any-retains_raw [] h = (tt, cc)
any-retains_raw (x ∷ xs) h = ground (arith, raw_some x.raw_cbor, any-retains_raw xs)

module _ (first : Event) (rest : List Event) where
  compare_fields-Differs :
      (field : DifferenceField) → compare_fields first rest ≡ err field → Differs field first rest
  unfolding compare_fields
  compare_fields-Differs field h = ground (
    arith,
    none_differs (λ (event : Event). event.kind) first.kind rest,
    none_differs (λ (event : Event). event.point) first.point rest,
    none_differs (λ (event : Event). event.block_type) first.block_type rest,
    none_differs (λ (event : Event). event.raw_length) first.raw_length rest,
    none_differs (λ (event : Event). event.digest) first.digest rest,
    any_differs (λ (event : Event). event.kind) first.kind rest,
    any_differs (λ (event : Event). event.point) first.point rest,
    any_differs (λ (event : Event). event.block_type) first.block_type rest,
    any_differs (λ (event : Event). event.raw_length) first.raw_length rest,
    any_differs (λ (event : Event). event.digest) first.digest rest,
    raw_some first.raw_cbor,
    any-retains_raw rest,
  )

differing-err :
    (events : List Event) (r : Result DifferenceField AgreedEvent) (d : Difference)
    → differing events r ≡ err d
    → (r ≡ err d.field) × (d ≡ new_difference d.field events)
unfolding differing new_difference
differing-err events (ok agreed) d h = cc
differing-err events (err field) d h = ground arith

-- A refusal names a field in which the relays really differ (for `event_kind` also: in which the first
-- relay's is neither forward nor rollback; for `raw_retention`: in which the policy is broken that only
-- the first relay of a roll-forward retains raw bytes, of the stated length), and all fields compared
-- before it are unanimous, of a known kind.
pub compare-Differs :
    (first : Event) (rest : List Event) (d : Difference)
    → compare first rest ≡ err d
    → Differs d.field first rest
unfolding compare
compare-Differs first rest d h =
    compare_fields-Differs first rest d.field
      (differing-err (first ∷ rest) (compare_fields first rest) d h).0

-- A diagnostic shows the event of its place: its fields as they are, and of each text of the relay's
-- identity the first 128 bytes.
pub record Shows (index : ℕ) (event : Event) (d : Diagnostic) : Type 0 where
  pub relay_index : d.relay_index ≡ index
  pub host : d.relay.host ≡ take 128 event.relay.host
  pub address : d.relay.address ≡ take 128 event.relay.address
  pub operator : d.relay.operator ≡ take 128 event.relay.operator
  pub n2n_version : d.relay.n2n_version ≡ event.relay.n2n_version
  pub network_magic : d.relay.network_magic ≡ event.relay.network_magic
  pub kind : d.kind ≡ event.kind
  pub point : d.point ≡ event.point
  pub block_type : d.block_type ≡ event.block_type
  pub raw_length : d.raw_length ≡ event.raw_length
  pub digest : d.digest ≡ event.digest

-- The first `n` events, shown from a place on.
abbrev pub ShowsFirst : ℕ → ℕ → List Event → List Diagnostic → Type 0
ShowsFirst zero index events [] = Unit
ShowsFirst zero index events (d ∷ ds) = ⊥
ShowsFirst (suc n) index [] [] = Unit
ShowsFirst (suc n) index [] (d ∷ ds) = ⊥
ShowsFirst (suc n) index (e ∷ es) [] = ⊥
ShowsFirst (suc n) index (e ∷ es) (d ∷ ds) = Shows index e d × ShowsFirst n (suc index) es ds

take_all : (n : ℕ) (xs : List ℕ) → length xs ≤ n → xs ≡ take n xs
take_all zero [] h = refl
take_all zero (x ∷ xs) h = absurd (omega arith)
take_all (suc n) [] h = refl
take_all (suc n) (x ∷ xs) h = ap (◌∷◌ x) (take_all n xs (omega arith))

bounded_text-take : (value : Text) → bounded_text value ≡ take 128 value
unfolding bounded_text
bounded_text-take value = elim (Bool-cases (leb (length value) max_identity_text)) [
  | inl e ↦ rw e (take_all 128 value (leb→le _ _ e))
  | inr e ↦ rw e refl
]

diagnose-ShowsFirst :
    (n index : ℕ) (events : List Event) → ShowsFirst n index events (diagnose index (take n events))
unfolding diagnose diagnostic bounded_identity
diagnose-ShowsFirst zero index events = tt
diagnose-ShowsFirst (suc n) index [] = tt
diagnose-ShowsFirst (suc n) index (e ∷ es) = (
  record {
    relay_index = refl;
    host = bounded_text-take e.relay.host;
    address = bounded_text-take e.relay.address;
    operator = bounded_text-take e.relay.operator;
    n2n_version = refl;
    network_magic = refl;
    kind = refl;
    point = refl;
    block_type = refl;
    raw_length = refl;
    digest = refl;
  },
  diagnose-ShowsFirst n (suc index) es,
)

take-min : (n : ℕ) (events : List Event) → take (min (length events) n) events ≡ take n events
take-min zero [] = refl
take-min (suc n) [] =
    let none_there : List Event = [] in
    let z : min (length none_there) (suc n) ≡ 0 = omega arith in ap (λ k. take k none_there) z
take-min zero (e ∷ es) =
    let z : min (length (e ∷ es)) 0 ≡ 0 = omega arith in ap (λ k. take k (e ∷ es)) z
take-min (suc n) (e ∷ es) =
    let s : min (length (e ∷ es)) (suc n) ≡ suc (min (length es) n) = omega arith in
    ap (λ k. take k (e ∷ es)) s ∙ ap (◌∷◌ e) (take-min n es)

-- A difference of these events.
pub record Describes (events : List Event) (d : Difference) : Type 0 where
  pub shown : ShowsFirst 16 0 events d.diagnostics
  pub total_relays : d.total_relays ≡ length events
  pub truncated : (d.truncated ≡ true) ↔ (16 < length events)

new_difference-Describes :
    (field : DifferenceField) (events : List Event) → Describes events (new_difference field events)
unfolding new_difference
new_difference-Describes field events = record {
  shown =
      subst (λ es. ShowsFirst 16 0 events (diagnose 0 es)) (sym (take-min 16 events))
        (diagnose-ShowsFirst 16 0 events);
  total_relays = refl;
  truncated = ground arith;
}

-- A difference counts every relay, has one diagnostic for each of the first sixteen of them, in their
-- order, that shows its index, its event's kind, point, block type, raw length and digest and its
-- identity with texts cut at 128 bytes, and says that it is truncated exactly when there are more.
pub compare_difference-Describes :
    (first : Event) (rest : List Event) (d : Difference)
    → compare first rest ≡ err d
    → Describes (first ∷ rest) d
unfolding compare
compare_difference-Describes first rest d h =
    subst (Describes (first ∷ rest))
      (sym (differing-err (first ∷ rest) (compare_fields first rest) d h).1)
      (new_difference-Describes d.field (first ∷ rest))
