-- ===== src/Store/Publication/Publish.antt =====
-- `Publish` of internal/store/publication.go, over a store and what the outside makes of its calls.
use clicksync.Base.{
  ℕ, List, [], ◌∷◌, ◌++◌, map, length, Bool, true, false, nat_eq, Option, none, some, Result, ok,
  err,
}
use clicksync.Base.Int.{ℤ}
use clicksync.Base.Words.{add64, sub64}
use clicksync.Base.Storage.{Fate, acknowledged, failed, Reading, keep}
use clicksync.Store.Allocator
use clicksync.Store.Allocator.{Allocator, reserve_publications, reserve_events}
use clicksync.Store.Types.{Candidate, Commit, Publication, DatasetIdentity}
use clicksync.Store.Tables.{ChainEvent, RollbackRow}
use clicksync.Store.Publication.{
  CandidateError, validate_candidates, number_from, canonical_block, adoption_row,
}
use clicksync.Store.Publication.Facts.{FactTables, FactFates, FactError, insert_facts}
use clicksync.Store.Publication.Readback.{
  ReadError, empty_batch, unreadable, out_of_range, row_differs, partially_committed,
  adoptions_committed,
}

-- `DB`, once initialized, and the database behind it.
pub record Db : Type 0 where
  pub identity : DatasetIdentity
  pub writer_id : ℕ
  pub allocator : Allocator
  pub facts : FactTables
  pub events : List ChainEvent
  pub rollbacks : List RollbackRow

-- What the lock, the clock and the database answer during one call.
pub record Answers (E : Type 0) : Type 0 where
  pub lock_first : Option E
  pub now : ℕ
  pub facts : FactFates E
  pub lock_again : Option E
  pub adoptions : Fate E
  pub readback : Reading E

pub data PublishError (E : Type 0) : Type 0 where
  empty_candidates : PublishError E
  bad_candidate : CandidateError → PublishError E
  lock_not_held lock_lost not_committed : E → PublishError E
  exhausted : Allocator.Error → PublishError E
  facts_failed : List (FactError E) → PublishError E
  -- These have the error of the insert and that of the read-back.
  commit_conflict commit_indeterminate : E → ReadError E → PublishError E

abbrev pub no_commit : Commit
no_commit = record {
  first_publication_id = 0;
  last_publication_id = 0;
  first_event_seq = 0;
  last_event_seq = 0;
  blocks = [];
  committed = false;
  resolved_uncertain = false;
}

-- A result: `Commit`, the error, and the store afterwards.
abbrev pub Published : Type 0 → Type 0
Published E = Commit × Option (PublishError E) × Db

module _ {E : Type 0} where
  -- `errors.Is(readbackErr, ErrCommitConflict)`
  unfoldable pub read_failure : E → ReadError E → PublishError E
  read_failure cause (unreadable e) = commit_indeterminate cause (unreadable e)
  read_failure cause empty_batch = commit_indeterminate cause empty_batch
  read_failure cause (out_of_range n) = commit_conflict cause (out_of_range n)
  read_failure cause (row_differs n) = commit_conflict cause (row_differs n)
  read_failure cause (partially_committed m n) = commit_conflict cause (partially_committed m n)

  -- The switch on the read-back.
  unfoldable pub resolve : Commit → E → Result (ReadError E) Bool → Commit × Option (PublishError E)
  resolve commit cause (err e) = (commit, some (read_failure cause e))
  resolve commit cause (ok true) =
      (record commit { committed = true; resolved_uncertain = true }, none)
  resolve commit cause (ok false) = (commit, some (not_committed cause))

  module _ (byron_ebb : ℤ) where
    -- From `insertAdoptions` on.
    unfoldable pub adopt : Fate E → Reading E → List Publication → Commit → Db → Published E
    unfolding resolve read_failure
    adopt acknowledged reading ps commit db = (
      record commit { committed = true },
      none,
      record db { events = db.events ++ map (adoption_row byron_ebb) ps },
    )
    adopt (failed cause mask) reading ps commit db =
        let events = db.events ++ keep mask (map (adoption_row byron_ebb) ps) in
        let (commit', e) = resolve commit cause (adoptions_committed byron_ebb reading ps events) in
        (commit', e, record db { events = events })

    -- The second look at the lock.
    unfoldable pub adopt_locked :
        Option E → Fate E → Reading E → List Publication → Commit → Db → Published E
    adopt_locked (some cause) fate reading ps commit db = (commit, some (lock_lost cause), db)
    adopt_locked none fate reading ps commit db = adopt fate reading ps commit db

    -- What follows the facts, with their errors.
    unfoldable pub after_facts :
        Answers E → List (FactError E) → List Publication → Commit → Db → Published E
    after_facts answers [] ps commit db =
        adopt_locked answers.lock_again answers.adoptions answers.readback ps commit db
    after_facts answers (e ∷ es) ps commit db = (commit, some (facts_failed (e ∷ es)), db)

    -- With both ranges reserved.
    unfoldable pub publish_at : Answers E → ℕ → ℕ → List Candidate → Db → Published E
    publish_at answers first_publication first_event candidates db =
        let count = length candidates in
        let ps = number_from db.writer_id answers.now first_publication first_event 0 candidates in
        let commit : Commit = record {
          first_publication_id = first_publication;
          last_publication_id = sub64 (add64 first_publication count) 1;
          first_event_seq = first_event;
          last_event_seq = sub64 (add64 first_event count) 1;
          blocks = map (canonical_block byron_ebb) ps;
          committed = false;
          resolved_uncertain = false;
        } in
        let (errors, facts) = insert_facts db.identity.network_magic ps answers.facts db.facts in
        after_facts answers errors ps commit (record db { facts = facts })

    -- The reservation of the events; the publication range remains burned if it fails.
    unfoldable pub with_events :
        Answers E → ℕ → List Candidate → Db → Result Allocator.Error ℕ × Allocator → Published E
    with_events answers first_publication candidates db (err e, a) = (
      record no_commit {
        first_publication_id = first_publication;
        last_publication_id = sub64 (add64 first_publication (length candidates)) 1;
      },
      some (exhausted e),
      record db { allocator = a },
    )
    with_events answers first_publication candidates db (ok first_event, a) =
        publish_at answers first_publication first_event candidates (record db { allocator = a })

    unfoldable pub with_publications :
        Answers E → List Candidate → Db → Result Allocator.Error ℕ × Allocator → Published E
    unfolding with_events
    with_publications answers candidates db (err e, a) =
        (no_commit, some (exhausted e), record db { allocator = a })
    with_publications answers candidates db (ok first_publication, a) =
        with_events answers first_publication candidates (record db { allocator = a })
          (reserve_events a (length candidates))

    -- After the validation, under the mutex.
    unfoldable pub locked : Answers E → Option E → List Candidate → Db → Published E
    unfolding with_publications
    locked answers (some cause) candidates db = (no_commit, some (lock_not_held cause), db)
    locked answers none candidates db =
        with_publications answers candidates db
          (reserve_publications db.allocator (length candidates))

    unfoldable pub validated :
        Answers E → List Candidate → Db → Result CandidateError (Unit {0}) → Published E
    unfolding locked
    validated answers candidates db (err e) = (no_commit, some (bad_candidate e), db)
    validated answers candidates db (ok done) = locked answers answers.lock_first candidates db

    unfoldable pub publish : Answers E → List Candidate → Db → Published E
    unfolding validated
    publish answers [] db = (no_commit, some empty_candidates, db)
    publish answers (c ∷ cs) db = validated answers (c ∷ cs) db (validate_candidates 0 (c ∷ cs))
