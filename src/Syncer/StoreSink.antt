-- ===== src/Syncer/StoreSink.antt =====
-- internal/syncer/store_sink.go: the sink of the batcher over a publication store. The checks for nil
-- fields, the progress callback and the metrics are left out.
pub mod Stored
use clicksync.Base.{
  ℕ, List, [], ◌∷◌, map, Bool, true, false, ◌==◌, ◌!=◌, nat_eq, bytes_eq, Option, none, some,
  if◌then◌else◌,
}
use clicksync.Base.Text.{Text, text}
use clicksync.Model.{RelayIdentity, AgreedEvent, event_rollback}
use clicksync.Store.Types.{Relay, Candidate, Commit, RollbackCommit, RollbackRequest}
use clicksync.Syncer.Blocks.{DecodedBlock}
use clicksync.Syncer.Batcher.{Sink}

-- The two methods of the store, whose lock is part of its state.
pub record PublicationStore (W E : Type 0) : Type 0 where
  pub publish : W → List Candidate → Commit × Option E × W
  pub roll_back : W → RollbackRequest → RollbackCommit × Option E × W

pub record StoreSink : Type 0 where
  pub maximum_depth : ℕ  -- uint32
  pub rollback_reason : Text

pub data SinkError (E : Type 0) : Type 0 where
  empty_batch uncommitted zero_depth not_a_rollback : SinkError E
  store_failed : E → SinkError E

unfoldable pub store_relay : RelayIdentity → Relay
store_relay r = record {
  host = r.host;
  address = r.address;
  operator = r.operator;
  n2n_version = r.n2n_version;
}

unfoldable pub candidate_of : DecodedBlock → Candidate
candidate_of b = record {
  block = b.block;
  content_hash = b.content_hash;
  relays = map store_relay b.relays;
  raw_length = b.raw_length;
}

unfoldable pub request_of : StoreSink → AgreedEvent → RollbackRequest
request_of sink event = record {
  to = event.point;
  relays = map store_relay event.relays;
  reason =
      if sink.rollback_reason == [] then text "unanimous relay rollback" else sink.rollback_reason;
  maximum_depth = sink.maximum_depth;
}

module _ {W E : Type 0} where
  -- What follows the call of the store. After a rollback, a Noop returns like any other.
  unfoldable pub after_call : Bool → Option E → W → Option (SinkError E) × W
  after_call committed (some e) w = (some (store_failed e), w)
  after_call true none w = (none, w)
  after_call false none w = (some uncommitted, w)

  unfoldable pub sink_publish :
      PublicationStore W E → W → List DecodedBlock → Option (SinkError E) × W
  unfolding after_call
  sink_publish store w [] = (some empty_batch, w)
  sink_publish store w (b ∷ bs) =
      let (commit, e, w') = store.publish w (map candidate_of (b ∷ bs)) in
      after_call commit.committed e w'

  unfoldable pub sink_roll_back :
      PublicationStore W E → StoreSink → W → AgreedEvent → Option (SinkError E) × W
  unfolding after_call
  sink_roll_back store sink w event =
      let (commit, e, w') = store.roll_back w (request_of sink event) in
      if sink.maximum_depth == 0
      then (some zero_depth, w)
      else if event.kind != event_rollback
      then (some not_a_rollback, w)
      else after_call commit.committed e w'

  -- The `BatchSink` that a batcher is given.
  unfoldable pub store_sink : PublicationStore W E → StoreSink → Sink W (SinkError E)
  unfolding sink_publish sink_roll_back
  store_sink store sink = record {
    publish = sink_publish store;
    rollback = sink_roll_back store sink;
  }
