-- ===== src/Relay.antt =====
-- internal/relay/types.go: one relay-local observation.
use clicksync.Base.{ℕ, List, false, []}
use clicksync.Model.{Hash32, zero_hash, Point, RelayIdentity}

-- `EventKind` is a uint8, of which two values have a name.
abbrev pub forward : ℕ
forward = 1

abbrev pub rollback : ℕ
rollback = 2

pub record Event : Type 0 where
  pub kind : ℕ
  pub point : Point
  pub tip : Point
  pub block_type : ℕ  -- uint
  pub raw_length : ℕ  -- uint64
  pub digest : Hash32
  pub raw_cbor : List ℕ
  pub relay : RelayIdentity
  pub observed_at : ℕ

abbrev pub zero_point : Point
zero_point = record {
  origin = false;
  slot = 0;
  hash = zero_hash;
  block_number = 0;
  is_byron_ebb = false;
}

-- The zero value that `clear` leaves in each place.
abbrev pub zero_event : Event
zero_event = record {
  kind = 0;
  point = zero_point;
  tip = zero_point;
  block_type = 0;
  raw_length = 0;
  digest = zero_hash;
  raw_cbor = [];
  relay = record { host = []; address = []; operator = []; n2n_version = 0; network_magic = 0 };
  observed_at = 0;
}
