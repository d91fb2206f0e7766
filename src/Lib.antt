-- ===== src/Lib.antt =====
-- A verification library for clicksync, which follows several Cardano relays, agrees on what they
-- deliver, decodes blocks in parallel, batches them and publishes them to ClickHouse.
--
-- Parts, in the order in which an event passes them, each with the Go file that it translates:
--   Relay                internal/relay/types.go: what a relay delivers, forward or rollback.
--   Agreement            internal/agreement/{agreement,errors}.go: `Engine.Next` takes one event from
--                        every relay (engine_next, with collect for the loop, place for its body and
--                        judge for what follows it) and `compare` emits it if all are the same, else
--                        a bounded `Difference`.
--   Pipeline.Ordered     internal/pipeline/ordered.go: `Run` as a transition
--                        function (Steps): a step is one choice of a select, or a worker that sends its
--                        result or leaves as its context is done; emitReady is emit and sent, the body of the loop is body and wait.
--   Pipeline.Budget      internal/pipeline/byte_budget.go: a call of `Acquire` (acquire, attempt, settle)
--                        among the steps of other callers; a new channel is a new generation.
--   Syncer.Batcher       internal/syncer/batcher.go: `Run` (run) as a loop over what its select
--                        receives (Steps: step, with one function for each kind of event). The local
--                        functions flush, fits, add, atLimit and recount keep their names; the local
--                        variables are the record Staged. The sink is the interface Sink over a state
--                        of its own, and an error of it is a value.
--   Syncer.Intersections internal/syncer/runner.go, commonIntersection and doubledDuration.
--   Syncer.Blocks        internal/syncer/decode.go: DecodedBlock and FactRows.
--   Syncer.Decode        internal/syncer/decode.go, DecodeAgreedBlock, over normalize.Decode as a parameter.
--   Syncer.StoreSink     internal/syncer/store_sink.go: the sink that a batcher is given, over the
--                        interface PublicationStore, which Store.Publication and Store.Rollback fill
--                        (Stored).
--   Store.Allocator      internal/store/allocator.go: identities of publications and events.
--   Store.Points         internal/store/encoding.go: points, and the columns that hold them.
--   Store.Resolve        internal/store/rollback.go, resolveRollback: which canonical blocks a
--                        rollback takes off.
--   Store.Inserts        internal/store/inserts.go: the rows of each insert (Rows, Builders), and which
--                        batches are sent.
--   Store.Publication    internal/store/publication.go: `Publish` (Publish) over a store and what the
--                        lock, the clock and the database answer; the facts (Facts), the read-back of
--                        the adoptions (Readback). An insert that fails may have kept any rows.
--   Store.Rollback       internal/store/rollback.go: `Rollback` (Perform) in the same way, with the
--                        read-backs of the invalidations and of the header (Readback).
--   Store.Recovery       internal/store/recovery.go: `State`, its two latest actions, the canonical
--                        window (Window) and the intersection candidates (Candidates). The SQL of a
--                        query is a function of the tables.
--   Model, Model.Facts   internal/model: points, agreed events, decoded blocks.
--   Base                 lists, Boolean tests, results, texts and machine words, shared by all.
--   Tests                runs at concrete inputs.
--
-- The batcher is the client of a sink, of which it knows only whether a call reported an error, and
-- Syncer.Batcher.Published tells what the calls that did not add up to. The program's sink is
-- Syncer.StoreSink, which calls Publish and Rollback of the store.
--
-- Numbers are natural numbers; the unsigned 64-bit sums keep their wrap-around (Base.Words), and where
-- a bound of it matters it is a hypothesis. An int that counts the elements of a slice is a plain
-- number. Hashes are lists of bytes. A `select` is the list of what it chooses, and a clock the list of
-- its readings, so a theorem for all lists covers every schedule. Every loop here is structural
-- recursion on a list of sources, blocks or received values; none needs fuel.
--
-- Not modelled: the ClickHouse driver and the Cardano protocol and ledger libraries, which are
-- parameters where they are used; contexts beyond the error that they cancel with; logs and metrics;
-- the texts of errors, of which only the kind and what was wrapped is kept.
pub mod Base
pub mod Model
pub mod Relay
pub mod Agreement
pub mod Store
pub mod Pipeline
pub mod Syncer
mod Tests
