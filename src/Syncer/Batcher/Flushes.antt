-- ===== src/Syncer/Batcher/Flushes.antt =====
-- The three ways through `flush` of internal/syncer/batcher.go.
use clicksync.Base.{
  List, [], ◌∷◌, true, false, none, some, ◌≡◌, refl, inl, inr, arith, Bool-cases, Option-cases,
}
use clicksync.Syncer.Blocks.{DecodedBlock}
use clicksync.Syncer.Batcher.{Staged, Sink, is_empty}
use clicksync.Syncer.Batcher.Steps.{cleared, flush}

is_empty-nil : (xs : List DecodedBlock) → is_empty xs ≡ true → xs ≡ []
is_empty-nil [] h = refl
is_empty-nil (x ∷ xs) h = cc

module _ {W E : Type 0} (sink : Sink W E) (s : Staged) (w : W) where
  -- Nothing is pending; or the sink takes all that is; or it fails, and the blocks stay pending.
  pub data Flushed : Type 0 where
    idle : s.pending ≡ [] → flush sink s w ≡ (none, s, w) → Flushed
    taken :
        is_empty s.pending ≡ false
        → (sink.publish w s.pending).0 ≡ none
        → flush sink s w ≡ (none, cleared s, (sink.publish w s.pending).1)
        → Flushed
    failed :
        (cause : E)
        → is_empty s.pending ≡ false
        → (sink.publish w s.pending).0 ≡ some cause
        → flush sink s w ≡ (some cause, record s { timer = none }, (sink.publish w s.pending).1)
        → Flushed

  pub flush-Flushed : Flushed
  unfolding flush
  flush-Flushed = elim (Bool-cases (is_empty s.pending)) [
    | inl e ↦ idle (is_empty-nil s.pending e) (ground arith)
    | inr full ↦ elim (Option-cases (sink.publish w s.pending).0) [
      | inl none_wrong ↦ taken full none_wrong (ground arith)
      | inr (cause, wrong) ↦ failed cause full wrong (ground arith)
    ]
  ]
