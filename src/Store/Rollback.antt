-- ===== src/Store/Rollback.antt =====
-- internal/store/rollback.go: what a rollback writes, with the checks of its relays.
pub mod Readback
pub mod Perform
pub mod Inert
pub mod Exact
pub mod Rows
pub mod Truth
use clicksync.Base.{
  ℕ, suc, List, [], ◌∷◌, map, length, Bool, true, false, ◌||◌, Option, none, some, Result, ok, err,
  ltb, if◌then◌else◌, ◌>>=◌, ◌>>◌, reject_if,
}
use clicksync.Base.Words.{u32}
use clicksync.Model.{Point}
use clicksync.Store.Points.{nullable_point}
use clicksync.Store.Types.{CanonicalBlock, Relay, Rollback, RollbackCommit, RollbackRequest, State}
use clicksync.Store.Tables.{ChainEvent, RollbackRow, invalidation}
use clicksync.Store.Publication.{incomplete}

-- Of `validateRelays`; both wrap `ErrInvalidRollback`.
pub data RelayError : Type 0 where
  few_relays : RelayError
  incomplete_relay : ℕ → RelayError

unfoldable pub check_each : ℕ → List Relay → Result RelayError (Unit {0})
check_each index [] = ok tt
check_each index (relay ∷ relays) = do
  reject_if (incomplete relay) (incomplete_relay index)
  check_each (suc index) relays

unfoldable pub validate_relays : List Relay → Result RelayError (Unit {0})
validate_relays relays = do reject_if (ltb (length relays) 2) few_relays; check_each 0 relays

-- The rows that `insertInvalidations` appends.
unfoldable pub invalidation_row : Rollback → CanonicalBlock → ChainEvent
invalidation_row r descendant = record {
  event_seq = r.event_seq;
  publication_id = descendant.publication_id;
  kind = invalidation;
  active = false;
  rollback_id = some r.rollback_id;
  block_hash = descendant.point.hash;
  slot = descendant.point.slot;
  block_number = descendant.point.block_number;
  is_byron_ebb = descendant.point.is_byron_ebb;
  writer_id = r.writer_id;
  recorded_at = r.recorded_at;
}

-- The row of `insertRollbackHeader`, with `relayArrays`.
unfoldable pub header_row : Rollback → RollbackRow
header_row r =
    let (to_slot, to_hash, to_number) = nullable_point r.to in
    let (old_slot, old_hash, old_number) = nullable_point r.old_tip in
    record {
      rollback_id = r.rollback_id;
      event_seq = r.event_seq;
      to_origin = r.to.origin;
      to_slot = to_slot;
      to_hash = to_hash;
      to_block_number = to_number;
      to_is_byron_ebb = r.to.is_byron_ebb;
      old_tip_slot = old_slot;
      old_tip_hash = old_hash;
      old_tip_block_number = old_number;
      old_tip_is_byron_ebb = r.old_tip.is_byron_ebb;
      old_tip_event_seq = r.old_tip_event_seq;
      depth = u32 (length r.descendants);
      relay_hosts = map (λ (x : Relay). x.host) r.relays;
      relay_addresses = map (λ (x : Relay). x.address) r.relays;
      relay_operators = map (λ (x : Relay). x.operator) r.relays;
      reason = r.reason;
      writer_id = r.writer_id;
      recorded_at = r.recorded_at;
    }

unfoldable pub new_rollback :
    RollbackRequest → State → Point → List CanonicalBlock → ℕ → ℕ → ℕ → ℕ → Rollback
new_rollback request state target descendants rollback_id event_seq writer_id now = record {
  rollback_id = rollback_id;
  event_seq = event_seq;
  to = target;
  old_tip = state.tip;
  old_tip_event_seq = state.snapshot;
  descendants = descendants;
  relays = request.relays;
  reason = request.reason;
  writer_id = writer_id;
  recorded_at = now;
}

unfoldable pub rollback_result : Rollback → RollbackCommit
rollback_result r = record {
  rollback_id = r.rollback_id;
  event_seq = r.event_seq;
  to = r.to;
  old_tip = r.old_tip;
  old_tip_event_seq = r.old_tip_event_seq;
  descendants = r.descendants;
  committed = false;
  noop = false;
  resolved_uncertain = false;
}
