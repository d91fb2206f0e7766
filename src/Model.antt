-- ===== src/Model.antt =====
-- internal/model/events.go: chain points, relay identities and agreed events.
pub mod Facts
use clicksync.Base.{ℕ, List, Bool, replicate, Eq, ℕ_discrete}
use clicksync.Base.Text.{Text}

-- The bytes of a `[32]byte`; `hash32` makes only lists of 32.
abbrev pub Hash32 : Type 0
Hash32 = List ℕ

abbrev pub zero_hash : Hash32
zero_hash = replicate 32 0

pub record Point : Type 0 where
  pub origin : Bool
  pub slot : ℕ  -- uint64
  pub hash : Hash32
  pub block_number : ℕ  -- uint64
  pub is_byron_ebb : Bool

unfoldable pub Point-dec : Discrete Point
unfolding ℕ_discrete
Point-dec = hlevel ℕ_discrete

instance abbrev pub point_eq : Eq Point
point_eq = record { dec = Point-dec }

pub record RelayIdentity : Type 0 where
  pub host : Text
  pub address : Text
  pub operator : Text
  pub n2n_version : ℕ  -- uint16
  pub network_magic : ℕ  -- uint32

-- `EventKind` is a uint8, of which two values have a name.
abbrev pub event_forward : ℕ
event_forward = 1

abbrev pub event_rollback : ℕ
event_rollback = 2

-- `observed_at` counts nanoseconds from the zero `time.Time`.
pub record AgreedEvent : Type 0 where
  pub kind : ℕ
  pub point : Point
  pub block_type : ℕ  -- uint
  pub content_hash : Hash32
  pub raw_length : ℕ  -- uint64
  pub raw_cbor : List ℕ
  pub relays : List RelayIdentity
  pub observed_at : ℕ
