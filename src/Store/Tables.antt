-- ===== src/Store/Tables.antt =====
-- The tables that internal/store reads back: chain_events and rollbacks.
use clicksync.Base.{ℕ, List, Bool, Option, Eq}
use clicksync.Base.Text.{Text}

-- `event_kind` is an Enum8 of these two.
pub data EventKind : Type 0 where
  adoption invalidation : EventKind

unfoldable pub EventKind-dec : Discrete EventKind
EventKind-dec = hlevel

instance abbrev pub kind_eq : Eq EventKind
kind_eq = record { dec = EventKind-dec }

pub record ChainEvent : Type 0 where
  pub event_seq : ℕ
  pub publication_id : ℕ
  pub kind : EventKind
  pub active : Bool
  pub rollback_id : Option ℕ
  pub block_hash : List ℕ
  pub slot : ℕ
  pub block_number : ℕ
  pub is_byron_ebb : Bool
  pub writer_id : ℕ
  pub recorded_at : ℕ

-- The point columns are nullable; a NULL hash is read as an empty slice.
pub record RollbackRow : Type 0 where
  pub rollback_id : ℕ
  pub event_seq : ℕ
  pub to_origin : Bool
  pub to_slot : Option ℕ
  pub to_hash : List ℕ
  pub to_block_number : Option ℕ
  pub to_is_byron_ebb : Bool
  pub old_tip_slot : Option ℕ
  pub old_tip_hash : List ℕ
  pub old_tip_block_number : Option ℕ
  pub old_tip_is_byron_ebb : Bool
  pub old_tip_event_seq : ℕ
  pub depth : ℕ
  pub relay_hosts : List Text
  pub relay_addresses : List Text
  pub relay_operators : List Text
  pub reason : Text
  pub writer_id : ℕ
  pub recorded_at : ℕ
