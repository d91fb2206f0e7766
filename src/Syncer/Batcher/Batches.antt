-- ===== src/Syncer/Batcher/Batches.antt =====
-- Every batch that `Batcher.Run` of internal/syncer/batcher.go hands to its sink is within the limits.
use clicksync.Base.{
  suc, List, [], ◌∷◌, ◌++◌, false, not, ◌&&◌, Option, none, some, take, All, ◌≡◌, refl, inl, inr,
  arith, ◌!=◌, nat_eq, Bool-cases, Option-cases, All-append,
}
use clicksync.Base.Words.{add64}
use clicksync.Model.{AgreedEvent}
use clicksync.Syncer.Blocks.{DecodedBlock}
use clicksync.Syncer.Batcher.{
  Limits, Staged, Error, publish_full, publish_limit, publish_age, publish_final, Sink, Clock,
  is_empty, start, fits, at_limit, add, last_index,
}
use clicksync.Syncer.Batcher.Steps.{
  not_positive, cleared, Received, done, timer_fired, closed, event, Outcome, running, returned,
  flush, flushing, keep_running, stage, on_forward, on_rollback, returned_by, on_value, on_event,
  step, loop, run,
}
use clicksync.Syncer.Batcher.Flushes.{Flushed, flush-Flushed}
use clicksync.Syncer.Batcher.Accounting.{
  IsLimits, Fits, IsCounted, IsStaged, IsCounted-of_SameBatch, take-Fits, add-IsStaged,
  recount-IsStaged,
}

module _ {W E : Type 0} (sink : Sink W E) (limits : Limits) (ok : IsLimits limits)
    (Good : W → Type 0)
    (publish_keeps : (w : W) (batch : List DecodedBlock)
      → is_empty batch ≡ false
      → Fits limits batch
      → Good w
      → Good (sink.publish w batch).1)
    (rollback_keeps : (w : W) (e : AgreedEvent) → Good w → Good (sink.rollback w e).1) where
  abbrev Live : Outcome E → Type 0
  Live (running s) = IsStaged limits s
  Live (returned e) = Unit

  abbrev Kept : Outcome E × W → Type 0
  Kept r = Live r.0 × Good r.1

  IsStaged-cleared : (s : Staged) → IsStaged limits (cleared s)
  IsStaged-cleared s = record {
    counted = record {
      fits = record { blocks = omega arith; bytes = omega arith; rows = omega arith };
      bytes = refl;
      rows = refl;
    };
    timed = inl (refl, refl);
  }

  -- What follows a flush starts with no block pending.
  flushing-Kept :
      (wrap : E → Error E) (continue : Staged → W → Outcome E × W) (s : Staged) (w : W)
      → IsCounted limits s
      → (s.pending ≡ [] → s.timer ≡ none)
      → ((s' : Staged) (w' : W) → IsStaged limits s' → Good w' → Kept (continue s' w'))
      → Good w
      → Kept (flushing wrap continue (flush sink s w))
  unfolding flushing
  flushing-Kept wrap continue s w v t keep g = elim (flush-Flushed sink s w) [
    | Flushed.idle none_pending e ↦
        rw e (keep s w (record { counted = v; timed = inl (none_pending, t none_pending) }) g)
    | Flushed.taken full right e ↦
        rw e (keep (cleared s) _ (IsStaged-cleared s) (publish_keeps w s.pending full v.fits g))
    | Flushed.failed cause full wrong e ↦ rw e (tt, publish_keeps w s.pending full v.fits g)
  ]

  untimed : (s : Staged) → IsStaged limits s → s.pending ≡ [] → s.timer ≡ none
  untimed s v e = elim v.timed [ inl (_, t) ↦ t | inr (full, _) ↦ cc ]

  stage-Kept :
      (clock : Clock) (block : DecodedBlock) (s : Staged) (w : W)
      → IsStaged limits s
      → Good w
      → Kept (stage sink limits clock block s w)
  unfolding stage
  stage-Kept clock block s w v g = elim (Bool-cases (fits limits s block)) [
    | inr refused ↦ rw refused (tt, g)
    | inl admitted ↦
        let (v', _) = add-IsStaged limits clock ok s block v admitted in
        let s' = add limits clock s block in
        elim (Bool-cases (at_limit limits s')) [
          | inl full ↦
              rw (admitted, full)
                (flushing-Kept publish_limit keep_running s' w v'.counted (untimed s' v')
                  (λ t w' u g'. (u, g')) g)
          | inr open_still ↦ rw (admitted, open_still) (v', g)
        ]
  ]

  on_forward-Kept :
      (clock : Clock) (block : DecodedBlock) (s : Staged) (w : W)
      → IsStaged limits s
      → Good w
      → Kept (on_forward sink limits clock block s w)
  unfolding on_forward
  on_forward-Kept clock block s w v g =
      elim (Bool-cases (not (fits limits s block) && not (is_empty s.pending))) [
        | inl full ↦ rw full (
            flushing-Kept publish_full (stage sink limits clock block) s w v.counted (untimed s v)
              (stage-Kept clock block) g)
        | inr room ↦ rw room (stage-Kept clock block s w v g)
      ]

  returned_by-Kept :
      (s : Staged) (r : Option E × W) → IsStaged limits s → Good r.1 → Kept (returned_by s r)
  unfolding returned_by
  returned_by-Kept s (some cause, w) v g = (tt, g)
  returned_by-Kept s (none, w) v g = (v, g)

  on_rollback-Kept :
      (clock : Clock) (rollback : AgreedEvent) (s : Staged) (w : W)
      → IsStaged limits s
      → Good w
      → Kept (on_rollback sink limits clock rollback s w)
  unfolding on_rollback
  on_rollback-Kept clock rollback s w v g =
      elim (Option-cases (last_index rollback.point s.pending)) [
        | inr (i, found) ↦ rw found (
          (recount-IsStaged limits clock ok (record s { pending = take (suc i) s.pending })
              (take-Fits limits (suc i) s.pending v.counted.fits)).0,
          g,
        )
        | inl missing ↦
            let v' =
              (recount-IsStaged limits clock ok (record s { pending = [] })
                (record { blocks = omega arith; bytes = omega arith; rows = omega arith })).0 in
            rw missing
              (returned_by-Kept _ (sink.rollback w rollback) v' (rollback_keeps w rollback g))
      ]

  on_value-Kept :
      (clock : Clock) (f : Option DecodedBlock) (r : Option AgreedEvent) (s : Staged) (w : W)
      → IsStaged limits s
      → Good w
      → Kept (on_value sink limits clock f r s w)
  unfolding on_value
  on_value-Kept clock (some block) none s w v g = on_forward-Kept clock block s w v g
  on_value-Kept clock none (some rollback) s w v g = on_rollback-Kept clock rollback s w v g
  on_value-Kept clock none none s w v g = (tt, g)
  on_value-Kept clock (some block) (some rollback) s w v g = (tt, g)

  step-Kept :
      (clock : Clock) (r : Received E) (s : Staged) (w : W)
      → IsStaged limits s
      → Good w
      → Kept (step sink limits clock r s w)
  unfolding step on_event
  step-Kept clock (done cause) s w v g = (tt, g)
  step-Kept clock timer_fired s w v g =
      flushing-Kept publish_age keep_running (record s { timer = none }) w
        (IsCounted-of_SameBatch limits s (record s { timer = none }) (refl, refl, refl) v.counted)
        (λ e. refl) (λ t w' u g'. (u, g')) g
  step-Kept clock (closed (some cause)) s w v g = (tt, g)
  step-Kept clock (closed none) s w v g =
      flushing-Kept publish_final (λ s' w'. (returned none, w')) s w v.counted (untimed s v)
        (λ t w' u g'. (tt, g')) g
  step-Kept clock (event e) s w v g = elim (Bool-cases (e.sequence != s.next_sequence)) [
    | inl wrong ↦ rw wrong (tt, g)
    | inr right ↦
        let s' : Staged = record s { next_sequence = add64 s.next_sequence 1 } in
        let c = IsCounted-of_SameBatch limits s s' (refl, refl, refl) v.counted in
        rw right (
          on_value-Kept clock e.forward e.rollback s' w (record { counted = c; timed = v.timed }) g)
  ]

  loop-Kept :
      (rs : List (Clock × Received E)) (o : Outcome E) (w : W)
      → Live o
      → Good w
      → Kept (loop sink limits rs o w)
  unfolding loop
  loop-Kept [] o w v g = (v, g)
  loop-Kept (r ∷ rs) (returned e) w v g = (tt, g)
  loop-Kept ((clock, r) ∷ rs) (running s) w v g =
      let (v', g') = step-Kept clock r s w v g in
      loop-Kept rs (step sink limits clock r s w).0 (step sink limits clock r s w).1 v' g'

  -- Whatever holds of the sink's state and survives its rollbacks and the publication of non-empty
  -- batches within the limits on blocks, bytes and rows, holds at every point of a run; and while the
  -- run goes on, the counters are those of the pending blocks, within the limits, and a timer runs
  -- exactly while blocks are pending.
  pub run-Kept : (rs : List (Clock × Received E)) (w : W) → Good w → Kept (run sink limits rs w)
  unfolding run
  run-Kept rs w g = elim (Bool-cases (not_positive limits)) [
    | inl refused ↦ rw refused (tt, g)
    | inr positive ↦ rw positive (loop-Kept rs (running start) w (IsStaged-cleared start) g)
  ]

-- A sink that also notes every batch that it is handed.
abbrev pub noting : {W E : Type 0} → Sink W E → Sink (W × List (List DecodedBlock)) E
noting sink = record {
  publish =
      λ w batch. ((sink.publish w.0 batch).0, ((sink.publish w.0 batch).1, w.1 ++ (batch ∷ [])));
  rollback = λ w e. ((sink.rollback w.0 e).0, ((sink.rollback w.0 e).1, w.1));
}

-- Whatever a run receives, and however it ends: every batch that was handed to the sink is non-empty
-- and within the limits on blocks, bytes and rows.
pub run_batches :
    {W E : Type 0} (sink : Sink W E) (limits : Limits) (rs : List (Clock × Received E)) (w : W)
    → IsLimits limits
    → All
        (λ batch. (is_empty batch ≡ false) × Fits limits batch)
        (run (noting sink) limits rs (w, [])).1.1
run_batches sink limits rs w ok =
    (run-Kept (noting sink) limits ok
      (λ w. All (λ batch. (is_empty batch ≡ false) × Fits limits batch) w.1)
      (λ w' batch full f g. All-append _ w'.1 (batch ∷ []) g ((full, f), tt)) (λ w' e g. g) rs
      (w, []) tt).1
