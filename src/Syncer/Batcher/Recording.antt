-- ===== src/Syncer/Batcher/Recording.antt =====
-- A sink of internal/syncer/batcher.go with a record of the calls that it reported no error for.
use clicksync.Base.{List, [], ◌∷◌, ◌++◌, Option, none, some}
use clicksync.Model.{AgreedEvent}
use clicksync.Syncer.Blocks.{DecodedBlock}
use clicksync.Syncer.Batcher.{Sink}

-- A call of a sink that reported no error.
pub data Call : Type 0 where
  published : List DecodedBlock → Call
  rolled_back : AgreedEvent → Call

abbrev pub noted : {W E : Type 0} → List Call → Call → Option E × W → Option E × (W × List Call)
noted calls call (none, w) = (none, (w, calls ++ (call ∷ [])))
noted calls call (some e, w) = (some e, (w, calls))

-- A sink with a record of its successful calls, oldest first.
abbrev pub recording : {W E : Type 0} → Sink W E → Sink (W × List Call) E
recording sink = record {
  publish = λ x batch. noted x.1 (published batch) (sink.publish x.0 batch);
  rollback = λ x event. noted x.1 (rolled_back event) (sink.rollback x.0 event);
}

-- What happened, without the record.
abbrev pub without : {O W : Type 0} → O × (W × List Call) → O × W
without r = (r.0, r.1.0)
