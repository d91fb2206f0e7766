-- ===== src/Syncer/StoreSink/Stored.antt =====
-- internal/syncer/store_sink.go over `Publish` and `Rollback` of internal/store.
use clicksync.Base.{
  true, if◌then◌else◌, ==→eq, bytes_eq, ℕ, suc, ◌<◌, List, [], ◌∷◌, ◌++◌, map, ◌==◌, ◌!=◌, nat_eq,
  Option, none, some, All, ◌≡◌, refl, arith, Bool-cases, inl, inr,
}
use clicksync.Base.Int.{ℤ}
use clicksync.Base.Text.{Text, text}
use clicksync.Model.{RelayIdentity, AgreedEvent, event_rollback}
use clicksync.Store.Allocator.Ranges.{IsValid, free_from}
use clicksync.Store.Types.{Relay, Publication, RollbackCommit, RollbackRequest}
use clicksync.Store.Tables.{ChainEvent, RollbackRow}
use clicksync.Store.Publication.Publish
use clicksync.Store.Publication.Publish.{Db, PublishError, publish}
use clicksync.Store.Publication.Numbered.{AreAdoptions}
use clicksync.Store.Publication.Stored.{FactsStored}
use clicksync.Store.Publication.Truth as Publishing
use clicksync.Store.Rollback.Perform
use clicksync.Store.Rollback.Perform.{RollbackError, roll_back}
use clicksync.Store.Rollback.Truth.{Performed}
use clicksync.Store.Rollback.Truth.Outcomes as Rolling
use clicksync.Syncer.Blocks.{DecodedBlock}
use clicksync.Syncer.StoreSink.{
  PublicationStore, StoreSink, SinkError, empty_batch, zero_depth, not_a_rollback, store_failed,
  request_of, after_call, sink_roll_back, store_relay,
}

pub data StoreError (E : Type 0) : Type 0 where
  publishing : PublishError E → StoreError E
  rolling_back : RollbackError E → StoreError E

abbrev wrapped : {A B : Type 0} → (A → B) → Option A → Option B
wrapped wrap none = none
wrapped wrap (some e) = some (wrap e)

-- The store itself, for what the outside answers to the one call and to the other.
unfoldable pub store_of :
    {E : Type 0} → ℤ → Publish.Answers E → Perform.Answers E → PublicationStore Db (StoreError E)
store_of byron_ebb publish_answers rollback_answers = record {
  publish = λ db candidates.
      let (commit, e, db') = publish byron_ebb publish_answers candidates db in
      (commit, wrapped publishing e, db');
  roll_back = λ db request.
      let (commit, e, db') = roll_back rollback_answers request db in
      (commit, wrapped rolling_back e, db');
}

-- The rows of a relay, as the store keeps it.
pub record IsStored (relay : RelayIdentity) (row : Relay) : Type 0 where
  pub host : row.host ≡ relay.host
  pub address : row.address ≡ relay.address
  pub operator : row.operator ≡ relay.operator
  pub n2n_version : row.n2n_version ≡ relay.n2n_version

abbrev pub AreStored : List RelayIdentity → List Relay → Type 0
AreStored [] [] = Unit
AreStored [] (row ∷ rows) = ⊥
AreStored (relay ∷ relays) [] = ⊥
AreStored (relay ∷ relays) (row ∷ rows) = IsStored relay row × AreStored relays rows

store_relays-AreStored : (relays : List RelayIdentity) → AreStored relays (map store_relay relays)
unfolding store_relay
store_relays-AreStored [] = tt
store_relays-AreStored (relay ∷ relays) = (
  record { host = refl; address = refl; operator = refl; n2n_version = refl },
  store_relays-AreStored relays,
)

-- The publication of a block, with the identities given.
pub record IsOfBlock (writer now publication event : ℕ) (b : DecodedBlock) (p : Publication)
    : Type 0 where
  pub publication_id : p.publication_id ≡ publication
  pub event_seq : p.event_seq ≡ event
  pub block : p.block ≡ b.block
  pub content_hash : p.content_hash ≡ b.content_hash
  pub relays : AreStored b.relays p.relays
  pub writer_id : p.writer_id ≡ writer
  pub inserted_at : p.inserted_at ≡ now

-- One for each block, in their order, numbered one by one.
abbrev pub AreOfBlocks : ℕ → ℕ → ℕ → ℕ → List DecodedBlock → List Publication → Type 0
AreOfBlocks writer now publication event [] [] = Unit
AreOfBlocks writer now publication event [] (p ∷ ps) = ⊥
AreOfBlocks writer now publication event (b ∷ bs) [] = ⊥
AreOfBlocks writer now publication event (b ∷ bs) (p ∷ ps) =
    IsOfBlock writer now publication event b p
    × AreOfBlocks writer now (suc publication) (suc event) bs ps

module _ (byron_ebb : ℤ) where
  -- What a batch of blocks is after it is published, or why it is not.
  pub data Sunk {E : Type 0} (now : ℕ) (blocks : List DecodedBlock) (db : Db)
      : Option (SinkError (StoreError E)) → Db → Type 0 where
    published :
        {db' : Db} (ps : List Publication) (rows : List ChainEvent)
        → AreOfBlocks db.writer_id now db.allocator.next_publication db.allocator.next_event blocks
            ps
        → AreAdoptions byron_ebb ps rows
        → FactsStored db.identity.network_magic ps db.facts db'.facts
        → db'.events ≡ db.events ++ rows
        → Sunk now blocks db none db'
    nothing : {db' : Db} → blocks ≡ [] → db' ≡ db → Sunk now blocks db (some empty_batch) db'
    failed : {db' : Db} (e : StoreError E) → Sunk now blocks db (some (store_failed e)) db'

-- The reason that is given for a rollback: a text of its own if the sink has none.
pub data GivesReason (sink : StoreSink) : Text → Type 0 where
  of_sink : (sink.rollback_reason ≡ [] → ⊥) → GivesReason sink sink.rollback_reason
  by_default : sink.rollback_reason ≡ [] → GivesReason sink (text "unanimous relay rollback")

-- The request that a rollback event makes of the store.
pub record IsRequest (sink : StoreSink) (event : AgreedEvent) (request : RollbackRequest)
    : Type 0 where
  pub to : request.to ≡ event.point
  pub relays : AreStored event.relays request.relays
  pub reason : GivesReason sink request.reason
  pub maximum_depth : request.maximum_depth ≡ sink.maximum_depth

request_of-IsRequest :
    (sink : StoreSink) (event : AgreedEvent) → IsRequest sink event (request_of sink event)
unfolding request_of
request_of-IsRequest sink event = record {
  to = refl;
  relays = store_relays-AreStored event.relays;
  reason = reason_of;
  maximum_depth = refl;
}
  where
    reason_of : GivesReason sink (
        if sink.rollback_reason == []
        then text "unanimous relay rollback"
        else sink.rollback_reason)
    reason_of = elim (Bool-cases (sink.rollback_reason == [])) [
      | inl blank ↦ rw blank (by_default (==→eq sink.rollback_reason [] blank))
      | inr said ↦ rw said (of_sink (λ blank. ground arith))
    ]

module _ {E : Type 0} (answers : Perform.Answers E) (sink : StoreSink) (event : AgreedEvent)
    (db : Db) where
  -- What a rollback event does to the store, or why it does nothing.
  pub data Undone : Option (SinkError (StoreError E)) → Db → Type 0 where
    undone :
        {db' : Db} {commit : RollbackCommit} (request : RollbackRequest)
        → event.kind ≡ event_rollback
        → IsRequest sink event request
        → Rolling.Told answers request db commit none db'
        → Undone none db'
    no_depth : {db' : Db} → sink.maximum_depth ≡ 0 → db' ≡ db → Undone (some zero_depth) db'
    other_event :
        {db' : Db}
        → 0 < sink.maximum_depth
        → (event.kind ≡ event_rollback → ⊥)
        → db' ≡ db
        → Undone (some not_a_rollback) db'
    failed :
        {db' : Db} {commit : RollbackCommit} (e : RollbackError E) (request : RollbackRequest)
        → event.kind ≡ event_rollback
        → IsRequest sink event request
        → Rolling.Told answers request db commit (some e) db'
        → Undone (some (store_failed (rolling_back e))) db'

  after_roll_back :
      (commit : RollbackCommit) (e : Option (RollbackError E)) (db' : Db)
      → event.kind ≡ event_rollback
      → Rolling.Told answers (request_of sink event) db commit e db'
      → let (r, w) = after_call commit.committed (wrapped {B = StoreError E} rolling_back e) db' in
        Undone r w
  unfolding after_call
  after_roll_back commit (some e) db' k told =
      failed e (request_of sink event) k (request_of-IsRequest sink event) told
  after_roll_back commit none db' k told =
      let done : commit.committed ≡ true = committed_of told in
      rw done (undone (request_of sink event) k (request_of-IsRequest sink event) told)
    where
      committed_of :
          Rolling.Told answers (request_of sink event) db commit none db' → commit.committed ≡ true
      committed_of (Rolling.noop state ds asked committed idle same) = committed
      committed_of
            (Rolling.due r state a asked made
              (Performed.rolled_back rows header are is committed ds ev rb)) =
          committed

  -- For a store whose events and rollbacks all lie below the next event of its allocator: if the sink's
  -- Rollback returns nil, the event is a rollback, and the store did what Rollback promises when it
  -- returns no error, for a request with the event's point, the host, address, operator and version of
  -- each of its relays, the sink's depth, and the sink's reason or, if it has none, a fixed one. If it
  -- returns an error, then either the sink has no depth or the event is no rollback, and the store is
  -- as it was; or it is the error of that same request, with what Rollback promises for it.
  pub sink_roll_back-Undone :
      (byron_ebb : ℤ) (publish_answers : Publish.Answers E)
      → IsValid db.allocator
      → All (λ (e : ChainEvent). e.event_seq < free_from db.allocator.next_event) db.events
      → All (λ (rb : RollbackRow). rb.event_seq < free_from db.allocator.next_event) db.rollbacks
      → let (r, db') = sink_roll_back (store_of byron_ebb publish_answers answers) sink db event in
        Undone r db'
  unfolding sink_roll_back store_of
  sink_roll_back-Undone byron_ebb pa v fresh unused = elim (Bool-cases (sink.maximum_depth == 0)) [
    | inl z ↦ rw z (no_depth (ground arith) refl)
    | inr n ↦ elim (Bool-cases (event.kind != event_rollback)) [
      | inl other ↦ rw (n, other) (other_event (ground arith) (λ same. ground arith) refl)
      | inr same ↦
          rw (n, same)
            (after_roll_back _ _ _ (ground arith)
              (Rolling.roll_back-Tells answers (request_of sink event) db v fresh unused))
    ]
  ]
