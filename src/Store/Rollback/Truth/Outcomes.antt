-- ===== src/Store/Rollback/Truth/Outcomes.antt =====
-- Every outcome of `Rollback` of internal/store/rollback.go.
use clicksync.Base.{
  ◌<◌, List, true, false, ◌==◌, nat_eq, Option, none, some, Result, ok, err, Bool-cases, inl, inr,
  All, ◌≡◌, refl, ap, sym, ◌∙◌, subst, arith, ==→eq,
}
use clicksync.Base.Text.{is_blank}
use clicksync.Model.{Point, point_eq}
use clicksync.Store.Allocator.{Allocator, reserve_events}
use clicksync.Store.Allocator.Ranges.{IsValid, free_from, reserve_events_outcome}
use clicksync.Store.Types.{CanonicalBlock, Rollback, RollbackCommit, RollbackRequest, State}
use clicksync.Store.Tables.{ChainEvent, RollbackRow}
use clicksync.Store.Publication.Publish.{Db}
use clicksync.Store.Recovery
use clicksync.Store.Recovery.Candidates.{read_state}
use clicksync.Store.Resolve
use clicksync.Store.Resolve.{resolve_rollback}
use clicksync.Store.Rollback.{RelayError, validate_relays, new_rollback}
use clicksync.Store.Rollback.Perform.{
  Answers, RollbackError, RolledBack, with_event, resolved, with_state, locked, checked, roll_back,
}
use clicksync.Store.Rollback.Truth.{doubtful, Performed, perform-Performed}

module _ {E : Type 0} (answers : Answers E) (request : RollbackRequest) (db : Db) where
  -- What is asked for, in the state that is recovered.
  pub record IsAsked (state : State) (target : Point) (descendants : List CanonicalBlock)
      : Type 0 where
    pub recovered :
        read_state answers.state db.identity request.maximum_depth db.events db.rollbacks ≡ ok state
    pub resolves : resolve_rollback state request ≡ ok (target, descendants)

  -- The rollback of this request, in this state, with the allocator's next event.
  pub record IsForRequest (state : State) (r : Rollback) : Type 0 where
    pub rollback_id : r.rollback_id ≡ answers.rollback_id
    pub event_seq : r.event_seq ≡ db.allocator.next_event
    pub old_tip : r.old_tip ≡ state.tip
    pub old_tip_event_seq : r.old_tip_event_seq ≡ state.snapshot
    pub relays : r.relays ≡ request.relays
    pub reason : r.reason ≡ request.reason
    pub writer_id : r.writer_id ≡ db.writer_id
    pub recorded_at : r.recorded_at ≡ answers.now

  -- The outcome of a call: the commit, the error, and the store afterwards.
  pub data Told : RollbackCommit → Option (RollbackError E) → Db → Type 0 where
    noop :
        {commit : RollbackCommit} {db' : Db} (state : State) (ds : List CanonicalBlock)
        → IsAsked state state.tip ds
        → commit.committed ≡ true
        → commit.noop ≡ true
        → db' ≡ db
        → Told commit none db'
    refused :
        {commit : RollbackCommit} {e : RollbackError E} {db' : Db}
        → doubtful e ≡ false
        → commit.committed ≡ false
        → db' ≡ db
        → Told commit (some e) db'
    due :
        {commit : RollbackCommit} {e : Option (RollbackError E)} {db' : Db} (r : Rollback)
        (state : State) (a : Allocator)
        → IsAsked state r.to r.descendants
        → IsForRequest state r
        → Performed r (record db { allocator = a }) commit e db'
        → Told commit e db'

  abbrev pub Tells : RolledBack E → Type 0
  Tells x = Told x.0 x.1 x.2

  module _ (v : IsValid db.allocator)
      (fresh : All (λ (e : ChainEvent). e.event_seq < free_from db.allocator.next_event) db.events)
      (unused : All
        (λ (rb : RollbackRow). rb.event_seq < free_from db.allocator.next_event)
        db.rollbacks) where
    with_event-Tells :
        (state : State) (target : Point) (ds : List CanonicalBlock)
        → IsAsked state target ds
        → Tells (with_event answers request state target ds db (reserve_events db.allocator 1))
    unfolding with_event new_rollback
    with_event-Tells state target ds asked =
        elim (reserve_events_outcome db.allocator 1 v (omega arith)) [
          | inl (first, next, granted, e) ↦
              let same : free_from db.allocator.next_event ≡ first =
                granted.is_free ∙ sym granted.first_free in
              let r : Rollback =
                new_rollback request state target ds answers.rollback_id first db.writer_id
                  answers.now in
              let a : Allocator = record db.allocator { next_event = next } in
              let for_request : IsForRequest state r = record {
                rollback_id = refl;
                event_seq = granted.first_free;
                old_tip = refl;
                old_tip_event_seq = refl;
                relays = refl;
                reason = refl;
                writer_id = refl;
                recorded_at = refl;
              } in
              rw e (
                due r state a asked for_request (
                  perform-Performed answers r (record db { allocator = a })
                    (subst (λ n. All (λ (e : ChainEvent). e.event_seq < n) db.events) same fresh)
                    (subst (λ n. All (λ (rb : RollbackRow). rb.event_seq < n) db.rollbacks) same
                      unused)))
          | inr (error, why, e) ↦ rw e (refused refl refl refl)
        ]

    resolved-Tells :
        (state : State) (target : Result Resolve.Error (Point × List CanonicalBlock))
        → read_state answers.state db.identity request.maximum_depth db.events db.rollbacks
          ≡ ok state
        → resolve_rollback state request ≡ target
        → Tells (resolved answers request state db target)
    unfolding resolved
    resolved-Tells state (err e) h k = refused refl refl refl
    resolved-Tells state (ok (target, ds)) h k = elim (Bool-cases (target == state.tip)) [
      | inl e ↦
          let same = ==→eq target state.tip e in
          rw e (
            noop state ds (record { recovered = h; resolves = k ∙ ap (λ p. ok (p, ds)) same }) refl
              refl refl)
      | inr e ↦ rw e (with_event-Tells state target ds (record { recovered = h; resolves = k }))
    ]

    with_state-Tells :
        (state : Result (Recovery.Error E) State)
        → read_state answers.state db.identity request.maximum_depth db.events db.rollbacks ≡ state
        → Tells (with_state answers request db state)
    unfolding with_state
    with_state-Tells (err e) h = refused refl refl refl
    with_state-Tells (ok state) h = resolved-Tells state (resolve_rollback state request) h refl

    locked-Tells : (held : Option E) → Tells (locked answers held request db)
    unfolding locked
    locked-Tells (some cause) = refused refl refl refl
    locked-Tells none = with_state-Tells _ refl

    checked-Tells :
        (relays : Result RelayError (Unit {0})) → Tells (checked answers request db relays)
    unfolding checked
    checked-Tells (err e) = refused refl refl refl
    checked-Tells (ok done) = locked-Tells answers.lock_first

    -- Whatever the lock, the clock and the database answer, for a store whose events and rollbacks all
    -- lie below the next event of its allocator: if Rollback returns no error, it says that it
    -- committed, and either the target is the tip of the recovered state and nothing changed, or exactly
    -- one invalidation for each block that resolveRollback takes off, and one header, were added, with
    -- the allocator's next event and every field told from the request and the state. If it returns an
    -- error, it says that it did not commit. A conflict or an indeterminate commit on the header comes
    -- only when all these invalidations are there, and then the header may be. After any other error
    -- every recovery reads the state that it read before, whatever part of the invalidations is there.
    pub roll_back-Tells : Tells (roll_back answers request db)
    unfolding roll_back
    roll_back-Tells = elim (Bool-cases (request.maximum_depth == 0)) [
      | inl e ↦ rw e (refused refl refl refl)
      | inr e ↦ elim (Bool-cases (is_blank request.reason)) [
        | inl blank ↦ rw (e, blank) (refused refl refl refl)
        | inr said ↦ rw (e, said) (checked-Tells (validate_relays request.relays))
      ]
    ]
