-- ===== src/Store/Rollback/Rows.antt =====
-- The rows that a rollback of internal/store/rollback.go writes, field by field.
use clicksync.Base.{
  Bool, if◌then◌else◌, ℕ, List, [], ◌∷◌, map, length, true, false, Option, none, some, ◌≡◌, refl,
}
use clicksync.Base.Words.{u32}
use clicksync.Model.{Point}
use clicksync.Store.Points.{nullable_point}
use clicksync.Store.Types.{CanonicalBlock, Relay, Rollback}
use clicksync.Store.Tables.{ChainEvent, RollbackRow, invalidation}
use clicksync.Store.Rollback.{invalidation_row, header_row}

-- The event that takes a block off.
pub record IsInvalidation (r : Rollback) (d : CanonicalBlock) (e : ChainEvent) : Type 0 where
  pub event_seq : e.event_seq ≡ r.event_seq
  pub publication_id : e.publication_id ≡ d.publication_id
  pub kind : e.kind ≡ invalidation
  pub active : e.active ≡ false
  pub rollback_id : e.rollback_id ≡ some r.rollback_id
  pub block_hash : e.block_hash ≡ d.point.hash
  pub slot : e.slot ≡ d.point.slot
  pub block_number : e.block_number ≡ d.point.block_number
  pub is_byron_ebb : e.is_byron_ebb ≡ d.point.is_byron_ebb
  pub writer_id : e.writer_id ≡ r.writer_id
  pub recorded_at : e.recorded_at ≡ r.recorded_at

-- One for each block, in their order.
abbrev pub AreInvalidations : Rollback → List CanonicalBlock → List ChainEvent → Type 0
AreInvalidations r [] [] = Unit
AreInvalidations r [] (e ∷ es) = ⊥
AreInvalidations r (d ∷ ds) [] = ⊥
AreInvalidations r (d ∷ ds) (e ∷ es) = IsInvalidation r d e × AreInvalidations r ds es

pub invalidation_rows-AreInvalidations :
    (r : Rollback) (ds : List CanonicalBlock) → AreInvalidations r ds (map (invalidation_row r) ds)
unfolding invalidation_row
invalidation_rows-AreInvalidations r [] = tt
invalidation_rows-AreInvalidations r (d ∷ ds) = (
  record {
    event_seq = refl;
    publication_id = refl;
    kind = refl;
    active = refl;
    rollback_id = refl;
    block_hash = refl;
    slot = refl;
    block_number = refl;
    is_byron_ebb = refl;
    writer_id = refl;
    recorded_at = refl;
  },
  invalidation_rows-AreInvalidations r ds,
)

-- The three nullable columns of a point: NULL, with no hash, for the Origin.
pub data AreColumns (p : Point) : Option ℕ → List ℕ → Option ℕ → Type 0 where
  of_origin : p.origin ≡ true → AreColumns p none [] none
  of_block : p.origin ≡ false → AreColumns p (some p.slot) p.hash (some p.block_number)

abbrev Columns : Point → Option ℕ × List ℕ × Option ℕ → Type 0
Columns p x = AreColumns p x.0 x.1 x.2

Columns-when :
    (p : Point) (b : Bool)
    → p.origin ≡ b
    → Columns p (if b then (none, [], none) else (some p.slot, p.hash, some p.block_number))
Columns-when p true origin = of_origin origin
Columns-when p false block = of_block block

nullable_point-Columns : (p : Point) → Columns p (nullable_point p)
unfolding nullable_point
nullable_point-Columns p = Columns-when p p.origin refl

-- The header of a rollback. Its depth is a uint32.
pub record IsHeader (r : Rollback) (h : RollbackRow) : Type 0 where
  pub rollback_id : h.rollback_id ≡ r.rollback_id
  pub event_seq : h.event_seq ≡ r.event_seq
  pub to_origin : h.to_origin ≡ r.to.origin
  pub to_columns : AreColumns r.to h.to_slot h.to_hash h.to_block_number
  pub to_is_byron_ebb : h.to_is_byron_ebb ≡ r.to.is_byron_ebb
  pub old_columns : AreColumns r.old_tip h.old_tip_slot h.old_tip_hash h.old_tip_block_number
  pub old_tip_is_byron_ebb : h.old_tip_is_byron_ebb ≡ r.old_tip.is_byron_ebb
  pub old_tip_event_seq : h.old_tip_event_seq ≡ r.old_tip_event_seq
  pub depth : h.depth ≡ u32 (length r.descendants)
  pub relay_hosts : h.relay_hosts ≡ map (λ (x : Relay). x.host) r.relays
  pub relay_addresses : h.relay_addresses ≡ map (λ (x : Relay). x.address) r.relays
  pub relay_operators : h.relay_operators ≡ map (λ (x : Relay). x.operator) r.relays
  pub reason : h.reason ≡ r.reason
  pub writer_id : h.writer_id ≡ r.writer_id
  pub recorded_at : h.recorded_at ≡ r.recorded_at

pub header_row-IsHeader : (r : Rollback) → IsHeader r (header_row r)
unfolding header_row
header_row-IsHeader r = record {
  rollback_id = refl;
  event_seq = refl;
  to_origin = refl;
  to_columns = nullable_point-Columns r.to;
  to_is_byron_ebb = refl;
  old_columns = nullable_point-Columns r.old_tip;
  old_tip_is_byron_ebb = refl;
  old_tip_event_seq = refl;
  depth = refl;
  relay_hosts = refl;
  relay_addresses = refl;
  relay_operators = refl;
  reason = refl;
  writer_id = refl;
  recorded_at = refl;
}
