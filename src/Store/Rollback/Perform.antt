-- ===== src/Store/Rollback/Perform.antt =====
-- `Rollback` of internal/store/rollback.go, over a store and what the outside makes of its calls.
use clicksync.Base.{
  ℕ, List, [], ◌∷◌, ◌++◌, map, Bool, true, false, ◌==◌, nat_eq, Option, none, some, Result, ok, err,
  if◌then◌else◌,
}
use clicksync.Base.Text.{is_blank}
use clicksync.Base.Storage.{Fate, acknowledged, failed, Reading, kept}
use clicksync.Model.{Point, point_eq, zero_hash}
use clicksync.Store.Allocator
use clicksync.Store.Allocator.{Allocator, reserve_events}
use clicksync.Store.Types.{CanonicalBlock, Rollback, RollbackCommit, RollbackRequest, State}
use clicksync.Store.Tables.{ChainEvent}
use clicksync.Store.Publication.Publish.{Db}
use clicksync.Store.Recovery
use clicksync.Store.Recovery.Candidates.{Readings, read_state}
use clicksync.Store.Resolve
use clicksync.Store.Resolve.{resolve_rollback}
use clicksync.Store.Rollback.{
  RelayError, validate_relays, invalidation_row, header_row, new_rollback, rollback_result,
}
use clicksync.Store.Rollback.Readback.{
  Status, absent, partial, complete, ReadError, unread, duplicate_descendant, unexpected,
  duplicated, differs, duplicate_headers, header_differs, bad_target, bad_old_tip,
  invalidations_committed, rollback_header_committed,
}

-- What the lock, the clock, uuid.New and the database answer during one call.
pub record Answers (E : Type 0) : Type 0 where
  pub lock_first : Option E
  pub state : Readings E
  pub rollback_id : ℕ
  pub now : ℕ
  pub invalidations : Fate E
  pub invalidations_read : Reading E
  pub lock_again : Option E
  pub header : Fate E
  pub header_read : Reading E
  pub membership_read : Reading E

-- Of `insertInvalidations`.
pub data InsertError (E : Type 0) : Type 0 where
  no_descendants : InsertError E
  not_sent : E → InsertError E

pub data RollbackError (E : Type 0) : Type 0 where
  zero_depth empty_reason : RollbackError E
  bad_relays : RelayError → RollbackError E
  lock_not_held lock_lost header_not_committed : E → RollbackError E
  no_state : Recovery.Error E → RollbackError E
  unresolved : Resolve.Error → RollbackError E
  exhausted : Allocator.Error → RollbackError E
  -- These three wrap `ErrNotCommitted`, with `header_not_committed`.
  invalidations_unread : InsertError E → ReadError E → RollbackError E
  invalidations_missing : InsertError E → Status → RollbackError E
  header_conflict header_indeterminate membership_indeterminate : E → ReadError E → RollbackError E
  membership_conflict : Status → RollbackError E

abbrev pub no_rollback : RollbackCommit
no_rollback = record {
  rollback_id = 0;
  event_seq = 0;
  to = record {
    origin = false;
    slot = 0;
    hash = zero_hash;
    block_number = 0;
    is_byron_ebb = false;
  };
  old_tip = record {
    origin = false;
    slot = 0;
    hash = zero_hash;
    block_number = 0;
    is_byron_ebb = false;
  };
  old_tip_event_seq = 0;
  descendants = [];
  committed = false;
  noop = false;
  resolved_uncertain = false;
}

abbrev pub nothing_to_do : State → Point → RollbackCommit
nothing_to_do state target = record no_rollback {
  to = target;
  old_tip = state.tip;
  old_tip_event_seq = state.snapshot;
  committed = true;
  noop = true;
}

-- A result: `RollbackCommit`, the error, and the store afterwards.
abbrev pub RolledBack : Type 0 → Type 0
RolledBack E = RollbackCommit × Option (RollbackError E) × Db

module _ {E : Type 0} where
  -- `errors.Is(readbackErr, ErrCommitConflict)`
  unfoldable pub header_failure : E → ReadError E → RollbackError E
  header_failure cause (unread e) = header_indeterminate cause (unread e)
  header_failure cause (duplicate_descendant p) = header_conflict cause (duplicate_descendant p)
  header_failure cause unexpected = header_conflict cause unexpected
  header_failure cause duplicated = header_conflict cause duplicated
  header_failure cause differs = header_conflict cause differs
  header_failure cause duplicate_headers = header_conflict cause duplicate_headers
  header_failure cause header_differs = header_conflict cause header_differs
  header_failure cause (bad_target e) = header_conflict cause (bad_target e)
  header_failure cause (bad_old_tip e) = header_conflict cause (bad_old_tip e)

  -- The membership that a committed header is read back with.
  unfoldable pub settle_membership :
      E → RollbackCommit → Result (ReadError E) Status → RollbackCommit × Option (RollbackError E)
  settle_membership cause commit (err e) = (commit, some (membership_indeterminate cause e))
  settle_membership cause commit (ok absent) = (commit, some (membership_conflict absent))
  settle_membership cause commit (ok partial) = (commit, some (membership_conflict partial))
  settle_membership cause commit (ok complete) =
      (record commit { committed = true; resolved_uncertain = true }, none)

  -- The switch on the header's read-back.
  unfoldable pub settle_header :
      E
      → RollbackCommit
      → Result (ReadError E) Bool
      → Result (ReadError E) Status
      → RollbackCommit × Option (RollbackError E)
  unfolding header_failure settle_membership
  settle_header cause commit (err e) membership = (commit, some (header_failure cause e))
  settle_header cause commit (ok false) membership = (commit, some (header_not_committed cause))
  settle_header cause commit (ok true) membership = settle_membership cause commit membership

  -- From `insertRollbackHeader` on.
  unfoldable pub write_header :
      Fate E → Reading E → Reading E → Rollback → RollbackCommit → Db → RolledBack E
  unfolding settle_header
  write_header acknowledged header_read membership_read r commit db = (
    record commit { committed = true },
    none,
    record db { rollbacks = db.rollbacks ++ kept {E = E} acknowledged (header_row r ∷ []) },
  )
  write_header (failed cause mask) header_read membership_read r commit db =
      let rollbacks = db.rollbacks ++ kept (failed cause mask) (header_row r ∷ []) in
      let (commit', e) =
        settle_header cause commit (rollback_header_committed header_read r rollbacks)
          (invalidations_committed membership_read r db.events) in
      (commit', e, record db { rollbacks = rollbacks })

  -- The second look at the lock.
  unfoldable pub before_header :
      Answers E → Option E → Rollback → RollbackCommit → Db → RolledBack E
  before_header answers (some cause) r commit db = (commit, some (lock_lost cause), db)
  before_header answers none r commit db =
      write_header answers.header answers.header_read answers.membership_read r commit db

  -- The read-back of invalidations whose insert failed.
  unfoldable pub settle_invalidations :
      Answers E
      → InsertError E
      → Rollback
      → RollbackCommit
      → Db
      → Result (ReadError E) Status
      → RolledBack E
  unfolding before_header
  settle_invalidations answers cause r commit db (err e) =
      (commit, some (invalidations_unread cause e), db)
  settle_invalidations answers cause r commit db (ok absent) =
      (commit, some (invalidations_missing cause absent), db)
  settle_invalidations answers cause r commit db (ok partial) =
      (commit, some (invalidations_missing cause partial), db)
  settle_invalidations answers cause r commit db (ok complete) =
      before_header answers answers.lock_again r (record commit { resolved_uncertain = true }) db

  -- `insertInvalidations`: its error, and the events afterwards.
  unfoldable pub insert_invalidations :
      Fate E
      → Rollback
      → List CanonicalBlock
      → List ChainEvent
      → Option (InsertError E) × List ChainEvent
  insert_invalidations fate r [] events = (some no_descendants, events)
  insert_invalidations acknowledged r (d ∷ ds) events =
      (none, events ++ map (invalidation_row r) (d ∷ ds))
  insert_invalidations (failed cause mask) r (d ∷ ds) events = (
    some (not_sent cause),
    events ++ kept (failed cause mask) (map (invalidation_row r) (d ∷ ds)),
  )

  unfoldable pub after_invalidations :
      Answers E → Option (InsertError E) → Rollback → RollbackCommit → Db → RolledBack E
  unfolding settle_invalidations before_header
  after_invalidations answers none r commit db =
      before_header answers answers.lock_again r commit db
  after_invalidations answers (some cause) r commit db =
      settle_invalidations answers cause r commit db
        (invalidations_committed answers.invalidations_read r db.events)

  -- With the record made.
  unfoldable pub perform : Answers E → Rollback → Db → RolledBack E
  unfolding insert_invalidations after_invalidations
  perform answers r db =
      let (e, events) = insert_invalidations answers.invalidations r r.descendants db.events in
      after_invalidations answers e r (rollback_result r) (record db { events = events })

  -- The reservation of the one event.
  unfoldable pub with_event :
      Answers E
      → RollbackRequest
      → State
      → Point
      → List CanonicalBlock
      → Db
      → Result Allocator.Error ℕ × Allocator
      → RolledBack E
  with_event answers request state target descendants db (err e, a) =
      (no_rollback, some (exhausted e), record db { allocator = a })
  with_event answers request state target descendants db (ok seq, a) =
      perform answers
        (new_rollback request state target descendants answers.rollback_id seq db.writer_id
          answers.now)
        (record db { allocator = a })

  unfoldable pub resolved :
      Answers E
      → RollbackRequest
      → State
      → Db
      → Result Resolve.Error (Point × List CanonicalBlock)
      → RolledBack E
  unfolding with_event
  resolved answers request state db (err e) = (no_rollback, some (unresolved e), db)
  resolved answers request state db (ok (target, descendants)) =
      if target == state.tip
      then (nothing_to_do state target, none, db)
      else with_event answers request state target descendants db (reserve_events db.allocator 1)

  unfoldable pub with_state :
      Answers E → RollbackRequest → Db → Result (Recovery.Error E) State → RolledBack E
  unfolding resolved
  with_state answers request db (err e) = (no_rollback, some (no_state e), db)
  with_state answers request db (ok state) =
      resolved answers request state db (resolve_rollback state request)

  unfoldable pub locked : Answers E → Option E → RollbackRequest → Db → RolledBack E
  unfolding with_state
  locked answers (some cause) request db = (no_rollback, some (lock_not_held cause), db)
  locked answers none request db =
      with_state answers request db
        (read_state answers.state db.identity request.maximum_depth db.events db.rollbacks)

  unfoldable pub checked :
      Answers E → RollbackRequest → Db → Result RelayError (Unit {0}) → RolledBack E
  unfolding locked
  checked answers request db (err e) = (no_rollback, some (bad_relays e), db)
  checked answers request db (ok done) = locked answers answers.lock_first request db

  unfoldable pub roll_back : Answers E → RollbackRequest → Db → RolledBack E
  unfolding checked
  roll_back answers request db =
      if request.maximum_depth == 0
      then (no_rollback, some zero_depth, db)
      else if is_blank request.reason
      then (no_rollback, some empty_reason, db)
      else checked answers request db (validate_relays request.relays)
