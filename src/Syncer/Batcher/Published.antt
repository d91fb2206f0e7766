-- ===== src/Syncer/Batcher/Published.antt =====
-- `Batcher.Run` of internal/syncer/batcher.go over any sink: what its successful calls add up to.
use clicksync.Base.{List, [], ◌∷◌, ◌++◌, none, some, ◌≡◌}
use clicksync.Syncer.Blocks.{DecodedBlock}
use clicksync.Syncer.Batcher.Steps.{Outcome, running, returned}
use clicksync.Syncer.Batcher.Chain.{undo}
use clicksync.Syncer.Batcher.Recording.{Call, published, rolled_back}

-- What these calls make of the chain that was there before them.
abbrev pub held_by : List DecodedBlock → List Call → List DecodedBlock
held_by chain [] = chain
held_by chain (published batch ∷ calls) = held_by (chain ++ batch) calls
held_by chain (rolled_back event ∷ calls) = held_by (undo event.point chain) calls

-- What the calls of a run add up to: while it goes on, the pending blocks are still missing; when it
-- returned nil, nothing is.
abbrev pub AddUp :
    {W E : Type 0} → List DecodedBlock → List DecodedBlock → Outcome E × (W × List Call) → Type 0
AddUp chain whole (running s, (w, calls)) = held_by chain calls ++ s.pending ≡ whole
AddUp chain whole (returned none, (w, calls)) = held_by chain calls ≡ whole
AddUp chain whole (returned (some e), (w, calls)) = Unit
