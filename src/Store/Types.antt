-- ===== src/Store/Types.antt =====
-- internal/store/types.go: what the store records and returns.
use clicksync.Base.{ℕ, List, Bool}
use clicksync.Base.Text.{Text}
use clicksync.Model.{Hash32, Point}
use clicksync.Model.Facts.{Block}

pub record Relay : Type 0 where
  pub host : Text
  pub address : Text
  pub operator : Text
  pub n2n_version : ℕ  -- uint16

pub record DatasetIdentity : Type 0 where
  pub dataset_id : ℕ  -- uuid.UUID, as a 128-bit number
  pub schema_hash : Hash32
  pub network_magic : ℕ  -- uint32
  pub network_name : Text
  pub start : Point
  pub created_at : ℕ
  pub source_build : Text

pub record CanonicalBlock : Type 0 where
  pub publication_id : ℕ  -- uint64
  pub event_seq : ℕ  -- uint64
  pub point : Point

-- `canonical` is newest first.
pub record State : Type 0 where
  pub dataset : DatasetIdentity
  pub snapshot : ℕ
  pub tip : Point
  pub canonical : List CanonicalBlock
  pub intersections : List Point

pub record RollbackRequest : Type 0 where
  pub to : Point
  pub relays : List Relay
  pub reason : Text
  pub maximum_depth : ℕ  -- uint32

pub record Candidate : Type 0 where
  pub block : Block
  pub content_hash : Hash32
  pub relays : List Relay
  pub raw_length : ℕ

pub record Commit : Type 0 where
  pub first_publication_id : ℕ
  pub last_publication_id : ℕ
  pub first_event_seq : ℕ
  pub last_event_seq : ℕ
  pub blocks : List CanonicalBlock
  pub committed : Bool
  pub resolved_uncertain : Bool

pub record RollbackCommit : Type 0 where
  pub rollback_id : ℕ
  pub event_seq : ℕ
  pub to : Point
  pub old_tip : Point
  pub old_tip_event_seq : ℕ
  pub descendants : List CanonicalBlock
  pub committed : Bool
  pub noop : Bool
  pub resolved_uncertain : Bool

-- `factCounts` of internal/store/inserts.go.
pub record FactCounts : Type 0 where
  pub transactions : ℕ
  pub inputs : ℕ
  pub outputs : ℕ
  pub datum_observations : ℕ
  pub withdrawals : ℕ
  pub redeemers : ℕ
  pub metadata : ℕ

pub record Publication : Type 0 where
  pub publication_id : ℕ
  pub event_seq : ℕ
  pub block : Block
  pub counts : FactCounts
  pub content_hash : Hash32
  pub relays : List Relay
  pub writer_id : ℕ
  pub inserted_at : ℕ

pub record Rollback : Type 0 where
  pub rollback_id : ℕ
  pub event_seq : ℕ
  pub to : Point
  pub old_tip : Point
  pub old_tip_event_seq : ℕ
  pub descendants : List CanonicalBlock
  pub relays : List Relay
  pub reason : Text
  pub writer_id : ℕ
  pub recorded_at : ℕ
