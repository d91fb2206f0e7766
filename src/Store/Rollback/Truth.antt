-- ===== src/Store/Rollback/Truth.antt =====
-- What `Rollback` of internal/store/rollback.go reports is what the tables hold afterwards.
pub mod Outcomes
use mathlib.Core.List.{append-nil}
use clicksync.Base.{
  ℕ, suc, ◌≤◌, ◌<◌, List, [], ◌∷◌, ◌++◌, map, Bool, true, false, ◌==◌, nat_eq, Option, none, some,
  Result, ok, err, Result-cases, Option-cases, List-cases, Bool-cases, inl, inr, ◌⊎◌, All, ◌≡◌,
  refl, ap, sym, ◌∙◌, subst, arith, ==→eq,
}
use clicksync.Base.Text.{is_blank}
use clicksync.Base.Words.{max_u64}
use clicksync.Base.Storage.{Fate, acknowledged, failed, Reading, keep}
use clicksync.Model.{Point, point_eq}
use clicksync.Store.Allocator
use clicksync.Store.Allocator.{Allocator, reserve_events}
use clicksync.Store.Allocator.Ranges.{IsValid, free_from, reserve_events_outcome}
use clicksync.Store.Types.{
  CanonicalBlock, DatasetIdentity, Rollback, RollbackCommit, RollbackRequest, State,
}
use clicksync.Store.Tables.{ChainEvent, RollbackRow}
use clicksync.Store.Publication.Publish.{Db}
use clicksync.Store.Recovery
use clicksync.Store.Recovery.Candidates.{Readings, read_state}
use clicksync.Store.Resolve
use clicksync.Store.Resolve.{resolve_rollback}
use clicksync.Store.Rollback.{
  RelayError, validate_relays, invalidation_row, header_row, new_rollback, rollback_result,
}
use clicksync.Store.Rollback.Readback.{
  Status, absent, partial, complete, ReadError, unread, duplicate_descendant, unexpected,
  duplicated, differs, duplicate_headers, header_differs, bad_target, bad_old_tip,
  invalidations_committed, rollback_header_committed,
}
use clicksync.Store.Rollback.Perform.{
  Answers, InsertError, no_descendants, not_sent, RollbackError, header_conflict,
  header_indeterminate, membership_indeterminate, membership_conflict, RolledBack, no_rollback,
  nothing_to_do, header_failure, settle_membership, settle_header, write_header, before_header,
  settle_invalidations, insert_invalidations, after_invalidations, perform, with_event, resolved,
  with_state, locked, checked, roll_back,
}
use clicksync.Store.Rollback.Inert.{
  read_state-headerless, invalidations-IsHeaderless, kept-IsHeaderless,
}
use clicksync.Store.Rollback.Rows.{
  AreInvalidations, IsHeader, invalidation_rows-AreInvalidations, header_row-IsHeader,
}
use clicksync.Store.Rollback.Exact.{
  invalidations_of, invalidations_committed_complete, rollback_header_committed_exact,
}

-- The same state is recovered, however its readings end.
abbrev pub SameState : Type 0 → Db → Db → Type 0
SameState E db db' =
    (readings : Readings E) (identity : DatasetIdentity) (depth : ℕ)
    → read_state readings identity depth db'.events db'.rollbacks
      ≡ read_state readings identity depth db.events db.rollbacks

same_state :
    {E : Type 0} (db db' : Db)
    → db'.events ≡ db.events
    → db'.rollbacks ≡ db.rollbacks
    → SameState E db db'
same_state db db' e rbs readings identity depth = rw (e, rbs) refl

module _ {E : Type 0} where
  -- The errors that leave it open whether the header is there.
  abbrev pub doubtful : RollbackError E → Bool
  doubtful (header_conflict cause e) = true
  doubtful (header_indeterminate cause e) = true
  doubtful (membership_indeterminate cause e) = true
  doubtful (membership_conflict status) = true
  doubtful _ = false

  -- The outcome of a rollback that is due: `rows` are its invalidations and `header` is its header.
  pub data Performed (r : Rollback) (db : Db)
      : RollbackCommit → Option (RollbackError E) → Db → Type 0 where
    rolled_back :
        {commit : RollbackCommit} {db' : Db} (rows : List ChainEvent) (header : RollbackRow)
        → AreInvalidations r r.descendants rows
        → IsHeader r header
        → commit.committed ≡ true
        → commit.descendants ≡ r.descendants
        → db'.events ≡ db.events ++ rows
        → db'.rollbacks ≡ db.rollbacks ++ (header ∷ [])
        → Performed r db commit none db'
    without_effect :
        {commit : RollbackCommit} {db' : Db} {e : RollbackError E}
        → doubtful e ≡ false
        → commit.committed ≡ false
        → SameState E db db'
        → Performed r db commit (some e) db'
    in_doubt :
        {commit : RollbackCommit} {db' : Db} {e : RollbackError E} (rows : List ChainEvent)
        (header : RollbackRow) (mask : List Bool)
        → AreInvalidations r r.descendants rows
        → IsHeader r header
        → doubtful e ≡ true
        → commit.committed ≡ false
        → db'.events ≡ db.events ++ rows
        → db'.rollbacks ≡ db.rollbacks ++ keep mask (header ∷ [])
        → Performed r db commit (some e) db'

  rolled_back_rows :
      (r : Rollback) (db : Db) {commit : RollbackCommit} {db' : Db}
      → commit.committed ≡ true
      → commit.descendants ≡ r.descendants
      → db'.events ≡ db.events ++ invalidations_of r
      → db'.rollbacks ≡ db.rollbacks ++ (header_row r ∷ [])
      → Performed r db commit none db'
  rolled_back_rows r db =
      rolled_back _ _ (invalidation_rows-AreInvalidations r r.descendants) (header_row-IsHeader r)

  in_doubt_rows :
      (r : Rollback) (db : Db) {commit : RollbackCommit} {db' : Db} {e : RollbackError E}
      (mask : List Bool)
      → doubtful e ≡ true
      → commit.committed ≡ false
      → db'.events ≡ db.events ++ invalidations_of r
      → db'.rollbacks ≡ db.rollbacks ++ keep mask (header_row r ∷ [])
      → Performed r db commit (some e) db'
  in_doubt_rows r db mask =
      in_doubt _ _ mask (invalidation_rows-AreInvalidations r r.descendants) (header_row-IsHeader r)

  doubtful-header_failure : (cause : E) (e : ReadError E) → doubtful (header_failure cause e) ≡ true
  unfolding header_failure
  doubtful-header_failure cause (unread e) = refl
  doubtful-header_failure cause (duplicate_descendant p) = refl
  doubtful-header_failure cause unexpected = refl
  doubtful-header_failure cause duplicated = refl
  doubtful-header_failure cause differs = refl
  doubtful-header_failure cause duplicate_headers = refl
  doubtful-header_failure cause header_differs = refl
  doubtful-header_failure cause (bad_target e) = refl
  doubtful-header_failure cause (bad_old_tip e) = refl

  module _ (answers : Answers E) (r : Rollback) (db : Db)
      (fresh : All (λ (e : ChainEvent). e.event_seq < r.event_seq) db.events)
      (unused : All (λ (rb : RollbackRow). rb.event_seq < r.event_seq) db.rollbacks) where
    inert_whole :
        (db' : Db)
        → db'.events ≡ db.events ++ invalidations_of r
        → db'.rollbacks ≡ db.rollbacks
        → SameState E db db'
    inert_whole db' e rbs readings identity depth =
        rw (e, rbs)
          (read_state-headerless db.rollbacks db.events (invalidations_of r)
            (invalidations-IsHeaderless r db.rollbacks unused r.descendants) readings identity
            depth)

    inert_part :
        (mask : List Bool) (db' : Db)
        → db'.events ≡ db.events ++ keep mask (invalidations_of r)
        → db'.rollbacks ≡ db.rollbacks
        → SameState E db db'
    inert_part mask db' e rbs readings identity depth =
        rw (e, rbs)
          (read_state-headerless db.rollbacks db.events (keep mask (invalidations_of r))
            (kept-IsHeaderless r db.rollbacks unused mask r.descendants) readings identity depth)

    abbrev Outcome : RolledBack E → Type 0
    Outcome x = Performed r db x.0 x.1 x.2

    -- From a store that holds all invalidations.
    module _ (commit : RollbackCommit) (db₁ : Db) (not_yet : commit.committed ≡ false)
        (taken : commit.descendants ≡ r.descendants)
        (events : db₁.events ≡ db.events ++ invalidations_of r)
        (rollbacks : db₁.rollbacks ≡ db.rollbacks) where
      settle_membership-Performed :
          (cause : E) (db₂ : Db) (status : Result (ReadError E) Status)
          → db₂.events ≡ db.events ++ invalidations_of r
          → db₂.rollbacks ≡ db.rollbacks ++ (header_row r ∷ [])
          → let (c, e) = settle_membership cause commit status in Performed r db c e db₂
      unfolding settle_membership
      settle_membership-Performed cause db₂ (err e) ev rb =
          in_doubt_rows r db (true ∷ []) refl not_yet ev rb
      settle_membership-Performed cause db₂ (ok absent) ev rb =
          in_doubt_rows r db (true ∷ []) refl not_yet ev rb
      settle_membership-Performed cause db₂ (ok partial) ev rb =
          in_doubt_rows r db (true ∷ []) refl not_yet ev rb
      settle_membership-Performed cause db₂ (ok complete) ev rb =
          rolled_back_rows r db refl taken ev rb

      settle_header-Performed :
          (cause : E) (mask : List Bool) (db₂ : Db) (found : Result (ReadError E) Bool)
          (status : Result (ReadError E) Status)
          → db₂.events ≡ db.events ++ invalidations_of r
          → db₂.rollbacks ≡ db.rollbacks ++ keep mask (header_row r ∷ [])
          → ((b : Bool)
              → found ≡ ok b
              → ((b ≡ true) × (keep mask (header_row r ∷ []) ≡ header_row r ∷ []))
                ⊎ ((b ≡ false) × (keep mask (header_row r ∷ []) ≡ [])))
          → let (c, e) = settle_header cause commit found status in Performed r db c e db₂
      unfolding settle_header
      settle_header-Performed cause mask db₂ (err e) status ev rb exact =
          in_doubt_rows r db mask (doubtful-header_failure cause e) not_yet ev rb
      settle_header-Performed cause mask db₂ (ok false) status ev rb exact =
          elim (exact false refl) [
            | inl (wrong, all) ↦ cc
            | inr (right, nothing) ↦ without_effect refl not_yet (
                inert_whole db₂ ev
                  (rb ∙ (ap (◌++◌ db.rollbacks) nothing ∙ append-nil db.rollbacks)))
          ]
      settle_header-Performed cause mask db₂ (ok true) status ev rb exact = elim (exact true refl) [
        | inl (right, all) ↦
            settle_membership-Performed cause db₂ status ev (rb ∙ ap (◌++◌ db.rollbacks) all)
        | inr (wrong, nothing) ↦ cc
      ]

      write_header-Performed :
          (fate : Fate E)
          → Outcome (write_header fate answers.header_read answers.membership_read r commit db₁)
      unfolding write_header
      write_header-Performed acknowledged =
          rolled_back_rows r db refl taken events (ap (λ l. l ++ (header_row r ∷ [])) rollbacks)
      write_header-Performed (failed cause mask) =
          let same = ap (λ l. l ++ keep mask (header_row r ∷ [])) rollbacks in
          settle_header-Performed cause mask _ _ _ events same (λ b h.
            rollback_header_committed_exact r mask db.rollbacks unused answers.header_read b
              (subst (λ l. rollback_header_committed answers.header_read r l ≡ ok b) same h))

      before_header-Performed :
          (held : Option E) → Outcome (before_header answers held r commit db₁)
      unfolding before_header
      before_header-Performed (some cause) =
          without_effect refl not_yet (inert_whole db₁ events rollbacks)
      before_header-Performed none = write_header-Performed answers.header

    -- After the insert of the invalidations.
    settle_invalidations-Performed :
        (cause : InsertError E) (mask : List Bool) (commit : RollbackCommit) (db₁ : Db)
        (status : Result (ReadError E) Status)
        → commit.committed ≡ false
        → commit.descendants ≡ r.descendants
        → db₁.events ≡ db.events ++ keep mask (invalidations_of r)
        → db₁.rollbacks ≡ db.rollbacks
        → (status ≡ ok complete → keep mask (invalidations_of r) ≡ invalidations_of r)
        → Outcome (settle_invalidations answers cause r commit db₁ status)
    unfolding settle_invalidations
    settle_invalidations-Performed cause mask commit db₁ (err e) n t ev rb exact =
        without_effect refl n (inert_part mask db₁ ev rb)
    settle_invalidations-Performed cause mask commit db₁ (ok absent) n t ev rb exact =
        without_effect refl n (inert_part mask db₁ ev rb)
    settle_invalidations-Performed cause mask commit db₁ (ok partial) n t ev rb exact =
        without_effect refl n (inert_part mask db₁ ev rb)
    settle_invalidations-Performed cause mask commit db₁ (ok complete) n t ev rb exact =
        before_header-Performed (record commit { resolved_uncertain = true }) db₁ n t
          (ev ∙ ap (◌++◌ db.events) (exact refl)) rb answers.lock_again

    after_failed :
        (cause : InsertError E) (mask : List Bool) (commit : RollbackCommit) (db₁ : Db)
        → commit.committed ≡ false
        → commit.descendants ≡ r.descendants
        → db₁.events ≡ db.events ++ keep mask (invalidations_of r)
        → db₁.rollbacks ≡ db.rollbacks
        → Outcome (after_invalidations answers (some cause) r commit db₁)
    unfolding after_invalidations
    after_failed cause mask commit db₁ n t ev rb =
        settle_invalidations-Performed cause mask commit db₁ _ n t ev rb (λ h.
          invalidations_committed_complete r mask db.events fresh answers.invalidations_read (
            subst (λ l. invalidations_committed answers.invalidations_read r l ≡ ok complete) ev h))

    after_stored :
        (commit : RollbackCommit) (db₁ : Db)
        → commit.committed ≡ false
        → commit.descendants ≡ r.descendants
        → db₁.events ≡ db.events ++ invalidations_of r
        → db₁.rollbacks ≡ db.rollbacks
        → Outcome (after_invalidations answers none r commit db₁)
    unfolding after_invalidations
    after_stored commit db₁ n t ev rb =
        before_header-Performed commit db₁ n t ev rb answers.lock_again

    inserted-Performed :
        (fate : Fate E) (ds : List CanonicalBlock) (commit : RollbackCommit)
        → ds ≡ r.descendants
        → commit.committed ≡ false
        → commit.descendants ≡ r.descendants
        → let (e, events) = insert_invalidations fate r ds db.events in
          Outcome (after_invalidations answers e r commit (record db { events = events }))
    unfolding insert_invalidations
    inserted-Performed fate [] commit d n t =
        after_failed no_descendants [] commit db n t (sym (append-nil db.events)) refl
    inserted-Performed acknowledged (x ∷ xs) commit d n t =
        after_stored commit _ n t (ap (λ l. db.events ++ map (invalidation_row r) l) d) refl
    inserted-Performed (failed cause mask) (x ∷ xs) commit d n t =
        after_failed (not_sent cause) mask commit _ n t
          (ap (λ l. db.events ++ keep mask (map (invalidation_row r) l)) d) refl

    pub perform-Performed : Outcome (perform answers r db)
    unfolding perform rollback_result
    perform-Performed =
        inserted-Performed answers.invalidations r.descendants (rollback_result r) refl refl refl
