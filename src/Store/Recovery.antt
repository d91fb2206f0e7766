-- ===== src/Store/Recovery.antt =====
-- internal/store/recovery.go: the state of the chain, read back from the tables.
pub mod Window
pub mod Candidates
pub mod PointLists
pub mod Intersections
pub mod Sound
use clicksync.Base.{
  ℕ, suc, ◌+◌, List, [], ◌∷◌, take, length, Bool, true, false, not, ◌&&◌, ◌||◌, ◌==◌, ◌!=◌, nat_eq,
  bool_eq, ltb, leb, Option, none, some, Result, ok, err, if◌then◌else◌, ◌>>=◌, ◌>>◌, reject_if,
}
use clicksync.Base.Storage.{Reading, whole, broken, filter_by, order_by}
use clicksync.Model.{Point, point_eq}
use clicksync.Store.Points
use clicksync.Store.Points.{valid_point, hash32, scan_point}
use clicksync.Store.Types.{CanonicalBlock, DatasetIdentity, State}
use clicksync.Store.Tables.{ChainEvent, RollbackRow, adoption, kind_eq}

-- Those from `bad_adoption` on wrap `ErrCommitConflict`.
pub data Error (E : Type 0) : Type 0 where
  zero_depth : Error E
  unreadable : E → Error E
  bad_columns : Points.Error → Error E
  bad_adoption zero_rollback bad_member not_newest_first : Error E
  duplicate_adoption duplicate_rollback adoption_and_rollback duplicate_member : ℕ → Error E
  empty_snapshot_differs no_active_tip tip_differs : Error E

-- `latestAction`, where it was found.
pub record LatestAction : Type 0 where
  pub event_seq : ℕ
  pub publication : ℕ
  pub point : Point

-- The error of a step that scans columns.
unfoldable pub columns : {E : Type 0} {A : Type 0} → Result Points.Error A → Result (Error E) A
columns (ok a) = ok a
columns (err e) = err (bad_columns e)

-- ORDER BY event_seq DESC, publication_id
unfoldable pub newest_first : ChainEvent → ChainEvent → Bool
newest_first a b =
    ltb a.event_seq b.event_seq
    || a.event_seq == b.event_seq && ltb b.publication_id a.publication_id

-- ORDER BY event_seq DESC, rollback_id
unfoldable pub newest_rollback_first : RollbackRow → RollbackRow → Bool
newest_rollback_first a b =
    ltb a.event_seq b.event_seq || a.event_seq == b.event_seq && ltb b.rollback_id a.rollback_id

unfoldable pub latest_adoption_query : List ChainEvent → List ChainEvent
latest_adoption_query events =
    take 2 (order_by newest_first (filter_by (λ (e : ChainEvent). e.kind == adoption) events))

unfoldable pub latest_rollback_query : List RollbackRow → List RollbackRow
latest_rollback_query rollbacks = take 2 (order_by newest_rollback_first rollbacks)

module _ {E : Type 0} where
  -- The body of the loop of `latestAdoption` up to the comparison.
  unfoldable pub scan_adoption : ChainEvent → Result (Error E) LatestAction
  unfolding columns
  scan_adoption row = do
    hash ← columns (hash32 row.block_hash)
    let point : Point = record {
      origin = false;
      slot = row.slot;
      hash = hash;
      block_number = row.block_number;
      is_byron_ebb = row.is_byron_ebb;
    }
    reject_if (not (valid_point point) || row.event_seq == 0 || row.publication_id == 0)
        bad_adoption
    ok (record { event_seq = row.event_seq; publication = row.publication_id; point = point })

  unfoldable pub scan_rollback : RollbackRow → Result (Error E) LatestAction
  unfolding columns
  scan_rollback row = do
    point ←
        columns
          (scan_point row.to_origin row.to_slot row.to_hash row.to_block_number row.to_is_byron_ebb)
    reject_if (row.event_seq == 0) zero_rollback
    ok (record { event_seq = row.event_seq; publication = 0; point = point })

  -- The loop over at most two rows, which agree only by a conflict.
  unfoldable pub latest_of :
      {Row : Type 0}
      → (Row → Result (Error E) LatestAction)
      → (ℕ → Error E)
      → List Row
      → Result (Error E) (Option LatestAction)
  latest_of scan duplicate [] = ok none
  latest_of scan duplicate (r ∷ []) = do latest ← scan r; ok (some latest)
  latest_of scan duplicate (r ∷ s ∷ rows) = do
    latest ← scan r
    action ← scan s
    reject_if (action.event_seq == latest.event_seq) (duplicate action.event_seq)
    ok (some latest)

  -- A loop over the rows of a reading, and `result.Err()` after it.
  unfoldable pub over :
      {Row A : Type 0} → Reading E → (List Row → Result (Error E) A) → List Row → Result (Error E) A
  over whole loop rows = loop rows
  over (broken n e) loop rows = do done ← loop (take n rows); err (unreadable e)

  -- The same over a reading: after the second row the loop breaks off, before any later error.
  unfoldable pub cut_short :
      {Row A : Type 0} → E → List Row → Result (Error E) A → Result (Error E) A
  cut_short e [] found = do done ← found; err (unreadable e)
  cut_short e (r ∷ []) found = do done ← found; err (unreadable e)
  cut_short e (r ∷ s ∷ rows) found = found

  unfoldable pub over_latest :
      {Row A : Type 0} → Reading E → (List Row → Result (Error E) A) → List Row → Result (Error E) A
  unfolding cut_short
  over_latest whole loop rows = loop rows
  over_latest (broken n e) loop rows = cut_short e (take n rows) (loop (take n rows))

  unfoldable pub latest_adoption :
      Reading E → List ChainEvent → Result (Error E) (Option LatestAction)
  latest_adoption reading events =
      over_latest reading (latest_of scan_adoption duplicate_adoption)
        (latest_adoption_query events)

  unfoldable pub latest_rollback :
      Reading E → List RollbackRow → Result (Error E) (Option LatestAction)
  latest_rollback reading rollbacks =
      over_latest reading (latest_of scan_rollback duplicate_rollback)
        (latest_rollback_query rollbacks)

  -- The later of the two.
  unfoldable pub later_action :
      Option LatestAction → Option LatestAction → Result (Error E) (Option LatestAction)
  later_action none r = ok r
  later_action (some a) none = ok (some a)
  later_action (some a) (some r) =
      if a.event_seq == r.event_seq
      then err (adoption_and_rollback a.event_seq)
      else if ltb a.event_seq r.event_seq
      then ok (some r)
      else ok (some a)

  unfoldable pub latest_committed_action :
      Reading E
      → Reading E
      → List ChainEvent
      → List RollbackRow
      → Result (Error E) (Option LatestAction)
  latest_committed_action adoptions_read rollbacks_read events rollbacks = do
    a ← latest_adoption adoptions_read events
    r ← latest_rollback rollbacks_read rollbacks
    later_action a r

  -- The checks after a snapshot that is not 0.
  unfoldable pub validate_tip :
      DatasetIdentity → Point → List CanonicalBlock → Result (Error E) (Unit {0})
  validate_tip dataset tip [] = reject_if (tip != dataset.start) no_active_tip
  validate_tip dataset tip (block ∷ blocks) = reject_if (block.point != tip) tip_differs

  unfoldable pub validate_recovered_state : State → Result (Error E) (Unit {0})
  unfolding validate_tip
  validate_recovered_state state =
      if state.snapshot == 0
      then reject_if (length state.canonical != 0 || state.tip != state.dataset.start)
          empty_snapshot_differs
      else validate_tip state.dataset state.tip state.canonical
