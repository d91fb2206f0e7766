-- ===== src/Store/Publication/Truth.antt =====
-- What `Publish` of internal/store/publication.go reports is what the tables hold afterwards.
use mathlib.Core.List.{append-nil}
use clicksync.Base.{
  ℕ, ◌+◌, ◌≤◌, ◌<◌, List, [], ◌∷◌, ◌++◌, map, length, length-map, Bool, true, false, ◌==◌, ◌!=◌,
  nat_eq, Option, none, some, Result, ok, err, if◌then◌else◌, All, ◌≡◌, refl, ap, sym, ◌∙◌, subst,
  arith, Bool-cases, Option-cases, List-cases, inl, inr, ==→eq,
}
use clicksync.Base.Int.{ℤ}
use clicksync.Base.Words.{u64_mod, max_u64}
use clicksync.Base.Storage.{Fate, acknowledged, failed, Reading, whole, broken, keep}
use clicksync.Base.Ascending.{Ascends, keep_whole, keep_nothing, length-keep-le, All-map}
use clicksync.Store.Allocator.{Allocator, reserve_events}
use clicksync.Store.Allocator.Ranges.{
  IsValid, free_from, reserve_publications_outcome, reserve_events_outcome,
}
use clicksync.Store.Types.{Candidate, Commit, Publication}
use clicksync.Store.Tables.{ChainEvent}
use clicksync.Store.Publication.{
  CandidateError, number_from, canonical_block, adoption_row, validate_candidates,
}
use clicksync.Store.Publication.Facts.{insert_facts}
use clicksync.Store.Publication.Readback.{ReadError, partially_committed}
use clicksync.Store.Publication.Exact.{
  seq_of, adoptions_committed-whole, adoptions_committed-broken,
}
use clicksync.Store.Publication.Numbered.{
  ArePublications, AreAdoptions, number_from-ArePublications, ArePublications-Ascends,
  adoption_rows-AreAdoptions,
}
use clicksync.Store.Publication.Stored.{FactsStored, insert_facts-FactsStored}
use clicksync.Store.Publication.Publish.{
  Db, Answers, Published, PublishError, commit_conflict, commit_indeterminate, adopt, adopt_locked,
  after_facts, resolve, read_failure, publish_at, with_events, locked, validated, publish,
}

-- The publications of a batch of candidates, from the allocator's next identities on, and their rows.
pub record IsBatch (byron_ebb : ℤ) (now : ℕ) (db : Db) (candidates : List Candidate)
    (ps : List Publication) (rows : List ChainEvent) : Type 0 where
  pub publications :
      ArePublications db.writer_id now db.allocator.next_publication db.allocator.next_event
        candidates ps
  pub adoptions : AreAdoptions byron_ebb ps rows

module _ (byron_ebb : ℤ) where
  abbrev pub rows_of : List Publication → List ChainEvent
  rows_of ps = map (adoption_row byron_ebb) ps

  -- The outcome of a batch: the commit, the error, and the store before and after.
  pub data Told {E : Type 0} (now : ℕ) (candidates : List Candidate) (db : Db)
      : Commit → Option (PublishError E) → Db → Type 0 where
    adopted :
        {commit : Commit} {db' : Db} (ps : List Publication)
        → IsBatch byron_ebb now db candidates ps (rows_of ps)
        → FactsStored db.identity.network_magic ps db.facts db'.facts
        → commit.committed ≡ true
        → commit.blocks ≡ map (canonical_block byron_ebb) ps
        → db'.events ≡ db.events ++ rows_of ps
        → Told now candidates db commit none db'
    unchanged :
        {commit : Commit} {db' : Db} {e : PublishError E}
        → commit.committed ≡ false
        → db'.events ≡ db.events
        → Told now candidates db commit (some e) db'
    in_part :
        {commit : Commit} {db' : Db} {cause : E} {e : ReadError E} (ps : List Publication)
        (mask : List Bool)
        → IsBatch byron_ebb now db candidates ps (rows_of ps)
        → FactsStored db.identity.network_magic ps db.facts db'.facts
        → commit.committed ≡ false
        → 0 < length (keep mask (rows_of ps))
        → length (keep mask (rows_of ps)) < length ps
        → db'.events ≡ db.events ++ keep mask (rows_of ps)
        → Told now candidates db commit (some (commit_conflict cause e)) db'
    unknown :
        {commit : Commit} {db' : Db} {cause : E} {e : ReadError E} (ps : List Publication)
        (mask : List Bool)
        → IsBatch byron_ebb now db candidates ps (rows_of ps)
        → FactsStored db.identity.network_magic ps db.facts db'.facts
        → commit.committed ≡ false
        → db'.events ≡ db.events ++ keep mask (rows_of ps)
        → Told now candidates db commit (some (commit_indeterminate cause e)) db'

  abbrev pub Tells : {E : Type 0} → ℕ → List Candidate → Db → Published E → Type 0
  Tells now candidates db r = Told now candidates db r.0 r.1 r.2

  module _ (now : ℕ) (candidates : List Candidate) (db db₁ : Db) (p : Publication)
      (ps : List Publication) (commit : Commit)
      (numbered : IsBatch byron_ebb now db candidates (p ∷ ps) (rows_of (p ∷ ps)))
      (rising : Ascends seq_of db.allocator.next_event (p ∷ ps))
      (facts_stored : FactsStored db.identity.network_magic (p ∷ ps) db.facts db₁.facts)
      (same : db₁.events ≡ db.events)
      (fresh : All (λ (e : ChainEvent). e.event_seq < db.allocator.next_event) db.events)
      (blocks : commit.blocks ≡ map (canonical_block byron_ebb) (p ∷ ps))
      (not_yet : commit.committed ≡ false) where
    below : All (λ (e : ChainEvent). e.event_seq < p.event_seq) db₁.events
    below = subst (All (λ (e : ChainEvent). e.event_seq < p.event_seq)) (sym same) (
        All-map _ _
          (λ (e : ChainEvent) (h : e.event_seq < db.allocator.next_event).
            let b = rising.0 in omega arith)
          db.events fresh)

    from_first : Ascends seq_of p.event_seq (p ∷ ps)
    from_first = (omega arith, rising.1)

    -- The three answers of a whole read-back.
    resolved_whole :
        {E : Type 0} (cause : E) (mask : List Bool) (db' : Db)
        → db'.events ≡ db.events ++ keep mask (rows_of (p ∷ ps))
        → db'.facts ≡ db₁.facts
        → let n = length (keep mask (rows_of (p ∷ ps))) in
          let (commit', e) = resolve commit cause (
            if n == 0
            then ok false
            else if n != length (p ∷ ps)
            then err (partially_committed n (length (p ∷ ps)))
            else ok true) in
          Told now candidates db commit' e db'
    unfolding resolve read_failure
    resolved_whole cause mask db' h f =
        let n = length (keep mask (rows_of (p ∷ ps))) in
        let stored =
          subst (FactsStored db.identity.network_magic (p ∷ ps) db.facts) (sym f) facts_stored in
        let most = length-keep-le mask (rows_of (p ∷ ps)) in
        let size = length-map (adoption_row byron_ebb) (p ∷ ps) in
        elim (Bool-cases (n == 0)) [
          | inl z ↦
              let nothing = keep_nothing mask (rows_of (p ∷ ps)) (==→eq n 0 z) in
              rw z (unchanged not_yet (h ∙ (ap (◌++◌ db.events) nothing ∙ append-nil db.events)))
          | inr some_kept ↦ elim (Bool-cases (n != length (p ∷ ps))) [
            | inl partly ↦
                rw (some_kept, partly)
                  (in_part (p ∷ ps) mask numbered stored not_yet (ground arith) (ground arith) h)
            | inr all ↦
                let every : n ≡ length (rows_of (p ∷ ps)) = ground arith in
                rw (some_kept, all)
                  (adopted (p ∷ ps) numbered stored refl blocks
                    (h ∙ ap (◌++◌ db.events) (keep_whole mask (rows_of (p ∷ ps)) every)))
          ]
        ]

    adopt-Tells :
        {E : Type 0} (fate : Fate E) (reading : Reading E)
        → Tells now candidates db (adopt byron_ebb fate reading (p ∷ ps) commit db₁)
    unfolding adopt
    adopt-Tells acknowledged reading =
        adopted (p ∷ ps) numbered facts_stored refl blocks (ap (λ l. l ++ rows_of (p ∷ ps)) same)
    adopt-Tells {E} (failed cause mask) whole =
        rw (adoptions_committed-whole byron_ebb p ps mask db₁.events from_first below {E = E})
          (resolved_whole cause mask _ (ap (λ l. l ++ keep mask (rows_of (p ∷ ps))) same) refl)
    adopt-Tells (failed cause mask) (broken n e) =
        rw (adoptions_committed-broken byron_ebb p ps mask db₁.events from_first below n e) (
          unknown (p ∷ ps) mask numbered facts_stored not_yet
            (ap (λ l. l ++ keep mask (rows_of (p ∷ ps))) same))

    after_facts-Tells :
        {E : Type 0} (answers : Answers E)
        → Tells now candidates db (after_facts byron_ebb answers [] (p ∷ ps) commit db₁)
    unfolding after_facts adopt_locked
    after_facts-Tells answers = elim (Option-cases answers.lock_again) [
      | inl held ↦ rw held (adopt-Tells answers.adoptions answers.readback)
      | inr (cause, lost) ↦ rw lost (unchanged not_yet same)
    ]

  module _ {E : Type 0} (answers : Answers E) (c : Candidate) (cs : List Candidate) (db : Db)
      (fresh : All (λ (e : ChainEvent). e.event_seq < free_from db.allocator.next_event) db.events)
      (small : length (c ∷ cs) ≤ max_u64) where
    publish_at-Tells :
        (a : Allocator)
        → free_from db.allocator.next_event ≡ db.allocator.next_event
        → db.allocator.next_publication + length (c ∷ cs) ≤ u64_mod
        → db.allocator.next_event + length (c ∷ cs) ≤ u64_mod
        → Tells answers.now (c ∷ cs) db (
            publish_at byron_ebb answers db.allocator.next_publication db.allocator.next_event
              (c ∷ cs)
              (record db { allocator = a }))
    unfolding publish_at number_from after_facts
    publish_at-Tells a free wide room =
        let first = db.allocator.next_publication in
        let next = db.allocator.next_event in
        let ps = number_from db.writer_id answers.now first next 0 (c ∷ cs) in
        let stored = insert_facts-FactsStored db.identity.network_magic ps answers.facts db.facts in
        let one_by_one =
          number_from-ArePublications db.writer_id answers.now first next 0 first next (c ∷ cs)
            (omega arith) (omega arith) (omega arith) (omega arith) in
        let numbered : IsBatch byron_ebb answers.now db (c ∷ cs) ps (rows_of ps) = record {
          publications = one_by_one;
          adoptions = adoption_rows-AreAdoptions byron_ebb ps;
        } in
        let rising =
          ArePublications-Ascends db.writer_id answers.now first next (c ∷ cs) ps one_by_one in
        let below = subst (λ n. All (λ (e : ChainEvent). e.event_seq < n) db.events) free fresh in
        elim (List-cases (insert_facts db.identity.network_magic ps answers.facts db.facts).0) [
          | inl none_failed ↦ rw none_failed (
              after_facts-Tells answers.now (c ∷ cs) db _ _ _ _ numbered rising (stored none_failed)
                refl below refl refl answers)
          | inr (e, es, some_failed) ↦ rw some_failed (unchanged refl refl)
        ]

    module _ (v : IsValid db.allocator) where
      -- The events are reserved after the publications, from an allocator with the same next event.
      with_events-Tells :
          (first_publication next_publication : ℕ)
          → next_publication ≤ max_u64
          → first_publication ≡ db.allocator.next_publication
          → first_publication + length (c ∷ cs) ≤ u64_mod
          → let a : Allocator = record db.allocator { next_publication = next_publication } in
            Tells answers.now (c ∷ cs) db (
              with_events byron_ebb answers first_publication
                (c ∷ cs)
                (record db { allocator = a })
                (reserve_events a (length (c ∷ cs))))
      unfolding with_events
      with_events-Tells first_publication next_publication n same wide =
          let a : Allocator = record db.allocator { next_publication = next_publication } in
          elim (reserve_events_outcome a (length (c ∷ cs))
            (record { publications = n; events = v.events }) small) [
              | inl (first, next, granted, e) ↦
                  let start = granted.first_free in
                  let fits = granted.fits in
                  rw (e, start, same)
                    (publish_at-Tells (record a { next_event = next }) granted.is_free (omega arith)
                      (omega arith))
              | inr (error, refused, e) ↦ rw e (unchanged refl refl)
            ]

      locked-Tells :
          (held : Option E)
          → Tells answers.now (c ∷ cs) db (locked byron_ebb answers held (c ∷ cs) db)
      unfolding locked
      locked-Tells (some cause) = unchanged refl refl
      locked-Tells none =
          elim (reserve_publications_outcome db.allocator (length (c ∷ cs)) v small) [
            | inl (first, next, granted, e) ↦
                let fits = granted.fits in
                rw e (with_events-Tells first next granted.bounded granted.first_free (omega arith))
            | inr (error, refused, e) ↦ rw e (unchanged refl refl)
          ]

      validated-Tells :
          (checked : Result CandidateError (Unit {0}))
          → Tells answers.now (c ∷ cs) db (validated byron_ebb answers (c ∷ cs) db checked)
      unfolding validated
      validated-Tells (err e) = unchanged refl refl
      validated-Tells (ok done) = locked-Tells answers.lock_first

  -- Whatever the lock, the clock and the database answer, for a store whose events all lie below the
  -- next one that its allocator gives out, and fewer than 2 ^ 64 candidates: if Publish returns no
  -- error, it says that it committed, and its batch is one publication for each candidate, in their
  -- order and numbered one by one from the allocator's next identities, with that candidate's block,
  -- content hash and relays. The tables of facts hold what the nine inserts send for that batch, and
  -- exactly its adoptions, field by field, were added to the events. If it returns an error, it says
  -- that it did not commit, and the events are as they were; but after a conflict they may hold a
  -- proper part of the adoptions, and after an indeterminate commit any part. Even then all facts are
  -- stored.
  pub publish-Tells :
      {E : Type 0} (answers : Answers E) (candidates : List Candidate) (db : Db)
      → IsValid db.allocator
      → All (λ (e : ChainEvent). e.event_seq < free_from db.allocator.next_event) db.events
      → length candidates ≤ max_u64
      → Tells answers.now candidates db (publish byron_ebb answers candidates db)
  unfolding publish
  publish-Tells answers [] db v fresh small = unchanged refl refl
  publish-Tells answers (c ∷ cs) db v fresh small =
      validated-Tells answers c cs db fresh small v (validate_candidates 0 (c ∷ cs))
