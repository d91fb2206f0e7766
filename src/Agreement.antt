-- ===== src/Agreement.antt =====
-- internal/agreement/agreement.go and errors.go: the comparison of one event from each relay.
pub mod Emission
pub mod Unanimity
pub mod Differences
pub mod Engine
use clicksync.Base.{
  ℕ, suc, List, [], ◌∷◌, map, Bool, true, false, not, ◌&&◌, ◌||◌, ◌==◌, ◌!=◌, nat_eq, bytes_eq, ltb,
  leb, min, if◌then◌else◌, any, length, take, Result, ok, err,
}
use clicksync.Base.Text.{Text}
use clicksync.Model.{
  Hash32, zero_hash, Point, point_eq, RelayIdentity, AgreedEvent, event_forward, event_rollback,
}
use clicksync.Relay.{Event, forward, rollback}

abbrev pub max_diagnostics : ℕ
max_diagnostics = 16

abbrev pub max_identity_text : ℕ
max_identity_text = 128

pub data DifferenceField : Type 0 where
  event_kind point block_type raw_length digest raw_retention : DifferenceField

pub record Diagnostic : Type 0 where
  pub relay_index : ℕ
  pub relay : RelayIdentity
  pub kind : ℕ
  pub point : Point
  pub block_type : ℕ
  pub raw_length : ℕ
  pub digest : Hash32

pub record Difference : Type 0 where
  pub field : DifferenceField
  pub diagnostics : List Diagnostic
  pub total_relays : ℕ
  pub truncated : Bool

-- `value[:MaxIdentityText]` of a longer text.
unfoldable pub bounded_text : Text → Text
bounded_text value =
    if leb (length value) max_identity_text then value else take max_identity_text value

unfoldable pub bounded_identity : RelayIdentity → RelayIdentity
unfolding bounded_text
bounded_identity identity = record identity {
  host = bounded_text identity.host;
  address = bounded_text identity.address;
  operator = bounded_text identity.operator;
}

unfoldable pub diagnostic : ℕ → Event → Diagnostic
unfolding bounded_identity
diagnostic index event = record {
  relay_index = index;
  relay = bounded_identity event.relay;
  kind = event.kind;
  point = event.point;
  block_type = event.block_type;
  raw_length = event.raw_length;
  digest = event.digest;
}

-- The loop over `range count`, from the index reached.
unfoldable pub diagnose : ℕ → List Event → List Diagnostic
unfolding diagnostic
diagnose index [] = []
diagnose index (event ∷ events) = diagnostic index event ∷ diagnose (suc index) events

unfoldable pub new_difference : DifferenceField → List Event → Difference
unfolding diagnose
new_difference field events =
    let count = min (length events) max_diagnostics in
    record {
      field = field;
      diagnostics = diagnose 0 (take count events);
      total_relays = length events;
      truncated = ltb count (length events);
    }

unfoldable pub latest_from : ℕ → List Event → ℕ
latest_from latest [] = latest
latest_from latest (event ∷ events) =
    latest_from (if ltb latest event.observed_at then event.observed_at else latest) events

unfoldable pub latest_observation : List Event → ℕ
unfolding latest_from
latest_observation events = latest_from 0 events

abbrev pub relay_identities : List Event → List RelayIdentity
relay_identities = map λ event. event.relay

unfoldable pub agreed_forward : Event → List Event → AgreedEvent
agreed_forward first rest = record {
  kind = event_forward;
  point = first.point;
  block_type = first.block_type;
  content_hash = first.digest;
  raw_length = first.raw_length;
  raw_cbor = first.raw_cbor;
  relays = relay_identities (first ∷ rest);
  observed_at = latest_observation (first ∷ rest);
}

unfoldable pub agreed_rollback : Event → List Event → AgreedEvent
agreed_rollback first rest = record {
  kind = event_rollback;
  point = first.point;
  block_type = 0;
  content_hash = zero_hash;
  raw_length = 0;
  raw_cbor = [];
  relays = relay_identities (first ∷ rest);
  observed_at = latest_observation (first ∷ rest);
}

-- `len(event.RawCBOR) != 0`
abbrev pub retains_raw : Event → Bool
retains_raw event = length event.raw_cbor != 0

-- The part of `compare` below the branch on rollbacks.
unfoldable pub compare_forward : Event → List Event → Result DifferenceField AgreedEvent
compare_forward first rest =
    if any (λ event. event.block_type != first.block_type) rest
    then err block_type
    else if any (λ event. event.raw_length != first.raw_length) rest
    then err raw_length
    else if any (λ event. event.digest != first.digest) rest
    then err digest
    else if length first.raw_cbor != first.raw_length
    then err raw_retention
    else if any retains_raw rest
    then err raw_retention
    else ok (agreed_forward first rest)

unfoldable pub compare_rollback : Event → List Event → Result DifferenceField AgreedEvent
compare_rollback first rest =
    if any retains_raw (first ∷ rest) then err raw_retention else ok (agreed_rollback first rest)

-- `compare`, with the field of each difference; `differing` adds the diagnostics.
unfoldable pub compare_fields : Event → List Event → Result DifferenceField AgreedEvent
unfolding compare_forward compare_rollback
compare_fields first rest =
    if first.kind != forward && first.kind != rollback
    then err event_kind
    else if any (λ event. event.kind != first.kind) rest
    then err event_kind
    else if any (λ event. event.point != first.point) rest
    then err point
    else if first.kind == rollback
    then compare_rollback first rest
    else compare_forward first rest

unfoldable pub differing :
    List Event → Result DifferenceField AgreedEvent → Result Difference AgreedEvent
differing events (ok agreed) = ok agreed
differing events (err field) = err (new_difference field events)

-- `events[0]` and `events[1:]`: every caller has at least two events.
unfoldable pub compare : Event → List Event → Result Difference AgreedEvent
unfolding compare_fields differing new_difference
compare first rest = differing (first ∷ rest) (compare_fields first rest)
