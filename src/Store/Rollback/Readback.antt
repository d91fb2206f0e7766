-- ===== src/Store/Rollback/Readback.antt =====
-- `invalidationsCommitted` and `rollbackHeaderCommitted` of internal/store/rollback.go. A query that
-- fails at once is a reading that breaks at its start.
use clicksync.Base.{
  ℕ, List, [], ◌∷◌, map, take, length, Bool, true, false, not, ◌&&◌, ◌||◌, ◌==◌, ◌!=◌, nat_eq,
  bytes_eq, bool_eq, ltb, Option, none, some, Result, ok, err, if◌then◌else◌, ◌>>=◌, ◌>>◌,
  reject_if, any,
}
use clicksync.Base.Text.{Text}
use clicksync.Base.Words.{u32}
use clicksync.Base.Storage.{Reading, whole, broken, filter_by, order_by}
use clicksync.Model.{Point, point_eq}
use clicksync.Store.Points
use clicksync.Store.Points.{scan_point, is_none}
use clicksync.Store.Types.{CanonicalBlock, Relay, Rollback}
use clicksync.Store.Tables.{ChainEvent, RollbackRow, invalidation, kind_eq}

-- `membershipReadback`
pub data Status : Type 0 where
  absent partial complete : Status

-- All but `unread` wrap `ErrCommitConflict`.
pub data ReadError (E : Type 0) : Type 0 where
  unread : E → ReadError E
  duplicate_descendant : ℕ → ReadError E
  unexpected duplicated differs duplicate_headers header_differs : ReadError E
  bad_target bad_old_tip : Points.Error → ReadError E

-- ORDER BY publication_id, and the WHERE of the query.
unfoldable pub by_publication : ChainEvent → ChainEvent → Bool
by_publication a b = ltb b.publication_id a.publication_id

unfoldable pub invalidation_readback : ℕ → List ChainEvent → List ChainEvent
invalidation_readback seq events =
    order_by by_publication
      (filter_by (λ (e : ChainEvent). e.event_seq == seq && e.kind == invalidation) events)

unfoldable pub by_rollback : RollbackRow → RollbackRow → Bool
by_rollback a b = ltb b.rollback_id a.rollback_id

unfoldable pub rollback_readback : ℕ → List RollbackRow → List RollbackRow
rollback_readback seq rollbacks =
    order_by by_rollback (filter_by (λ (rb : RollbackRow). rb.event_seq == seq) rollbacks)

-- `expected[descendant.PublicationID] = descendant.Point`, unless it is there already.
unfoldable pub check_distinct :
    {E : Type 0} → List ℕ → List CanonicalBlock → Result (ReadError E) (Unit {0})
check_distinct seen [] = ok tt
check_distinct seen (d ∷ ds) = do
  reject_if (any (λ p. p == d.publication_id) seen) (duplicate_descendant d.publication_id)
  check_distinct (d.publication_id ∷ seen) ds

unfoldable pub expected_point : ℕ → List CanonicalBlock → Option Point
expected_point publication [] = none
expected_point publication (d ∷ ds) =
    let rest = expected_point publication ds in
    if d.publication_id == publication then some d.point else rest

-- `*rollbackID != record.RollbackID`, where the id is there.
abbrev pub other_id : Option ℕ → ℕ → Bool
other_id none id = true
other_id (some other) id = other != id

unfoldable pub invalidation_differs : Rollback → Point → ChainEvent → Bool
invalidation_differs r point row =
    row.kind != invalidation
    || row.active
    || other_id row.rollback_id r.rollback_id
    || row.block_hash != point.hash
    || row.slot != point.slot
    || row.block_number != point.block_number
    || row.is_byron_ebb != point.is_byron_ebb
    || row.writer_id != r.writer_id
    || row.recorded_at != r.recorded_at

-- The switch after the loop.
abbrev pub status_of : ℕ → ℕ → Status
status_of seen size = if seen == 0 then absent else if seen == size then complete else partial

module _ {E : Type 0} where
  -- The body of the loop, with the point that is expected: the publications seen then.
  unfoldable pub check_invalidation :
      Rollback → ChainEvent → List ℕ → Option Point → Result (ReadError E) (List ℕ)
  check_invalidation r row seen none = err unexpected
  check_invalidation r row seen (some point) =
      if is_none row.rollback_id
      then err unexpected
      else if any (λ p. p == row.publication_id) seen
      then err duplicated
      else if invalidation_differs r point row
      then err differs
      else ok (row.publication_id ∷ seen)

  unfoldable pub scan_invalidations :
      Rollback → List ChainEvent → List ℕ → Result (ReadError E) (List ℕ)
  unfolding check_invalidation
  scan_invalidations r [] seen = ok seen
  scan_invalidations r (row ∷ rows) seen = do
    seen' ← check_invalidation r row seen (expected_point row.publication_id r.descendants)
    scan_invalidations r rows seen'

  unfoldable pub read_invalidations :
      Reading E → Rollback → List ChainEvent → Result (ReadError E) Status
  read_invalidations whole r rows = do
    seen ← scan_invalidations r rows []
    ok (status_of (length seen) (length r.descendants))
  read_invalidations (broken n e) r rows = do
    seen ← scan_invalidations r (take n rows) []
    err (unread e)

  unfoldable pub invalidations_committed :
      Reading E → Rollback → List ChainEvent → Result (ReadError E) Status
  unfolding read_invalidations
  invalidations_committed reading r events = do
    check_distinct [] r.descendants
    read_invalidations reading r (invalidation_readback r.event_seq events)

unfoldable pub equal_strings : List Text → List Text → Bool
equal_strings [] [] = true
equal_strings [] (y ∷ ys) = false
equal_strings (x ∷ xs) [] = false
equal_strings (x ∷ xs) (y ∷ ys) = x == y && equal_strings xs ys

-- The comparison of a header, once its two points are read.
unfoldable pub differing_header : Rollback → Point → Point → RollbackRow → Bool
differing_header r to old row =
    row.rollback_id != r.rollback_id
    || to != r.to
    || old != r.old_tip
    || row.old_tip_event_seq != r.old_tip_event_seq
    || row.depth != u32 (length r.descendants)
    || not (equal_strings row.relay_hosts (map (λ (x : Relay). x.host) r.relays))
    || not (equal_strings row.relay_addresses (map (λ (x : Relay). x.address) r.relays))
    || not (equal_strings row.relay_operators (map (λ (x : Relay). x.operator) r.relays))
    || row.reason != r.reason
    || row.writer_id != r.writer_id
    || row.recorded_at != r.recorded_at

module _ {E : Type 0} where
  unfoldable pub scanned :
      {A : Type 0} → (Points.Error → ReadError E) → Result Points.Error A → Result (ReadError E) A
  scanned wrap (ok a) = ok a
  scanned wrap (err e) = err (wrap e)

  unfoldable pub check_header : Rollback → RollbackRow → Result (ReadError E) (Unit {0})
  unfolding scanned
  check_header r row = do
    to ←
        scanned bad_target
          (scan_point row.to_origin row.to_slot row.to_hash row.to_block_number row.to_is_byron_ebb)
    old ← scanned bad_old_tip (
        scan_point (is_none row.old_tip_slot) row.old_tip_slot row.old_tip_hash
          row.old_tip_block_number row.old_tip_is_byron_ebb)
    reject_if (differing_header r to old row) header_differs

  -- The loop, with `found`.
  unfoldable pub scan_headers : Rollback → Bool → List RollbackRow → Result (ReadError E) Bool
  unfolding check_header
  scan_headers r found [] = ok found
  scan_headers r true (row ∷ rows) = err duplicate_headers
  scan_headers r false (row ∷ rows) = do check_header r row; scan_headers r true rows

  unfoldable pub read_headers : Reading E → Rollback → List RollbackRow → Result (ReadError E) Bool
  read_headers whole r rows = scan_headers r false rows
  read_headers (broken n e) r rows = do found ← scan_headers r false (take n rows); err (unread e)

  unfoldable pub rollback_header_committed :
      Reading E → Rollback → List RollbackRow → Result (ReadError E) Bool
  unfolding read_headers
  rollback_header_committed reading r rollbacks =
      read_headers reading r (rollback_readback r.event_seq rollbacks)
