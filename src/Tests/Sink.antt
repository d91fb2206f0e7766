-- ===== src/Tests/Sink.antt =====
-- The store sink of internal/syncer, at concrete batches, events and stores.
use clicksync.Base.{
  ℕ, suc, ◌+◌, List, [], ◌∷◌, replicate, true, false, none, some, ◌≡◌, refl, ℕ_discrete, arith,
}
use clicksync.Base.Int.{pos}
use clicksync.Base.Text.{text}
use clicksync.Model.{Point, RelayIdentity, AgreedEvent, event_rollback, event_forward}
use clicksync.Syncer.Blocks.{DecodedBlock}
use clicksync.Store.Publication.Publish.{Db}
use clicksync.Syncer.Batcher.{Sink, Limits, Clock}
use clicksync.Syncer.Batcher.Steps.{Received, event, timer_fired, closed}
use clicksync.Syncer.StoreSink.{StoreSink, SinkError, store_sink, not_a_rollback, sink_roll_back}
use clicksync.Syncer.StoreSink.Stored.{StoreError, store_of, Undone, sink_roll_back-Undone}
use clicksync.Tests.Publication as Publication
use clicksync.Tests.Rollback as Rollback

abbrev point_at : ℕ → Point
point_at n = record {
  origin = false;
  slot = 100 + n;
  hash = replicate 32 (suc n);
  block_number = n;
  is_byron_ebb = false;
}

abbrev relay_of : ℕ → RelayIdentity
relay_of n = record {
  host = text "relay";
  address = n ∷ [];
  operator = n ∷ [];
  n2n_version = 14;
  network_magic = 764824073;
}

abbrev block_five : DecodedBlock
block_five = record {
  block = record {
    hash = replicate 32 6;
    parent_hash = none;
    slot = 105;
    number = 5;
    era = text "conway";
    type = pos 7;
    synthetic = false;
    transactions = [];
    datums = [];
    observed_at = 0;
  };
  chain_point = point_at 5;
  content_hash = replicate 32 4;
  raw_length = 200;
  relays = relay_of 1 ∷ relay_of 2 ∷ [];
}

abbrev sink : StoreSink
sink = record { maximum_depth = 5; rollback_reason = [] }

abbrev event_of : ℕ → AgreedEvent
event_of kind = record {
  kind = kind;
  point = point_at 1;
  block_type = 0;
  content_hash = replicate 32 0;
  raw_length = 0;
  raw_cbor = [];
  relays = relay_of 1 ∷ relay_of 2 ∷ [];
  observed_at = 0;
}

sink_roll_back-Undone_example :
    let r =
      sink_roll_back
        (store_of (pos 0) (Publication.uncertain []) (Rollback.uncertain (true ∷ true ∷ [])))
        sink
        Rollback.db_at_four
        (event_of event_rollback) in
    Undone
      (Rollback.uncertain (true ∷ true ∷ []))
      sink
      (event_of event_rollback)
      Rollback.db_at_four
      r.0
      r.1
sink_roll_back-Undone_example =
    sink_roll_back-Undone (Rollback.uncertain (true ∷ true ∷ [])) sink (event_of event_rollback)
      Rollback.db_at_four (pos 0) (Publication.uncertain [])
      (record { publications = omega arith; events = omega arith })
      (omega arith, (omega arith, (omega arith, tt))) tt

-- A forward event is no rollback.
sink_roll_back_forward :
    (sink_roll_back
      (store_of (pos 0) (Publication.uncertain []) (Rollback.uncertain []))
      sink
      Rollback.db_at_four
      (event_of event_forward)).0
    ≡ some not_a_rollback
unfolding sink_roll_back ℕ_discrete
sink_roll_back_forward = refl

abbrev clock : Clock
clock = record { staged_at = 3; armed_at = 4 }

abbrev two_blocks : Limits
two_blocks = record { blocks = 2; bytes = 1000; rows = 100; age = 50 }

-- Block 5, a timer, and the close of the input.
abbrev received : List (Clock × Received (SinkError (StoreError ℕ)))
received =
    (clock, event (record { sequence = 0; forward = some block_five; rollback = none }))
    ∷ (clock, timer_fired)
    ∷ (clock, closed none)
    ∷ []

abbrev program_sink : Sink Db (SinkError (StoreError ℕ))
program_sink =
    store_sink
      (store_of (pos 0) (Publication.uncertain (true ∷ [])) (Rollback.uncertain (true ∷ []))) sink
