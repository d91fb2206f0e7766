-- ===== src/Syncer/Batcher/Steps.antt =====
-- The loop of `Batcher.Run` of internal/syncer/batcher.go, over what its select receives.
use clicksync.Base.{
  ℕ, suc, List, [], ◌∷◌, Bool, not, ◌&&◌, ◌||◌, ◌!=◌, nat_eq, leb, ltb, Option, none, some, take,
  if◌then◌else◌,
}
use clicksync.Base.Words.{add64}
use clicksync.Model.{AgreedEvent}
use clicksync.Syncer.Blocks.{DecodedBlock}
use clicksync.Syncer.Batcher.{
  Limits, Event, Staged, Error, limits_not_positive, wrong_sequence, malformed_event,
  exceeds_limits, cancelled, publish_age, publish_final, publish_full, publish_limit,
  commit_rollback, Sink, Clock, is_empty, start, fits, at_limit, add, recount, last_index,
}

-- What the select of the loop receives: `done` and `closed` carry `context.Cause`.
pub data Received (E : Type 0) : Type 0 where
  done : E → Received E
  timer_fired : Received E
  closed : Option E → Received E
  event : Event → Received E

-- The loop goes on, or `Run` returns: nil, or an error.
pub data Outcome (E : Type 0) : Type 0 where
  running : Staged → Outcome E
  returned : Option (Error E) → Outcome E

unfoldable pub not_positive : Limits → Bool
not_positive limits =
    ltb limits.blocks 1 || ltb limits.bytes 1 || ltb limits.rows 1 || leb limits.age 0

abbrev pub cleared : Staged → Staged
cleared s = record s {
  pending = [];
  pending_bytes = 0;
  pending_rows = 0;
  first_staged = 0;
  timer = none;
}

module _ {W E : Type 0} where
  -- A flush, its error wrapped, and what follows it.
  unfoldable pub flushing :
      (E → Error E) → (Staged → W → Outcome E × W) → Option E × Staged × W → Outcome E × W
  flushing wrap continue (some cause, s, w) = (returned (some (wrap cause)), w)
  flushing wrap continue (none, s, w) = continue s w

  abbrev pub keep_running : Staged → W → Outcome E × W
  keep_running s w = (running s, w)

  -- `Rollback` of the sink, its error wrapped.
  unfoldable pub returned_by : Staged → Option E × W → Outcome E × W
  returned_by s (some cause, w) = (returned (some (commit_rollback cause)), w)
  returned_by s (none, w) = (running s, w)

module _ {W E : Type 0} (sink : Sink W E) where
  -- The error of `Publish`, if any, and the variables.
  unfoldable pub flush : Staged → W → Option E × Staged × W
  flush s w =
      if is_empty s.pending
      then (none, s, w)
      else (let (e, w') = sink.publish w s.pending in
          elim e [
            | some cause ↦ (some cause, record s { timer = none }, w')
            | none ↦ (none, cleared s, w')
          ])

  unfoldable pub stage : Limits → Clock → DecodedBlock → Staged → W → Outcome E × W
  stage limits clock block s w =
      if not (fits limits s block)
      then (returned (some exceeds_limits), w)
      else (let s' = add limits clock s block in
          if at_limit limits s'
          then flushing publish_limit keep_running (flush s' w)
          else (running s', w))

  unfoldable pub on_forward : Limits → Clock → DecodedBlock → Staged → W → Outcome E × W
  on_forward limits clock block s w =
      if not (fits limits s block) && not (is_empty s.pending)
      then flushing publish_full (stage limits clock block) (flush s w)
      else stage limits clock block s w

  -- What follows the search for the target among the pending blocks.
  unfoldable pub on_target : Limits → Clock → AgreedEvent → Staged → W → Option ℕ → Outcome E × W
  unfolding returned_by
  on_target limits clock rollback s w (some i) =
      (running (recount limits clock (record s { pending = take (suc i) s.pending })), w)
  on_target limits clock rollback s w none =
      returned_by (recount limits clock (record s { pending = [] })) (sink.rollback w rollback)

  unfoldable pub on_rollback : Limits → Clock → AgreedEvent → Staged → W → Outcome E × W
  unfolding on_target
  on_rollback limits clock rollback s w =
      on_target limits clock rollback s w (last_index rollback.point s.pending)

  unfoldable pub on_value :
      Limits → Clock → Option DecodedBlock → Option AgreedEvent → Staged → W → Outcome E × W
  on_value limits clock (some block) none s w = on_forward limits clock block s w
  on_value limits clock none (some rollback) s w = on_rollback limits clock rollback s w
  on_value limits clock _ _ s w = (returned (some malformed_event), w)

  unfoldable pub on_event : Limits → Clock → Event → Staged → W → Outcome E × W
  on_event limits clock e s w =
      if e.sequence != s.next_sequence
      then (returned (some wrong_sequence), w)
      else on_value limits clock e.forward e.rollback
          (record s { next_sequence = add64 s.next_sequence 1 }) w

  unfoldable pub step : Limits → Clock → Received E → Staged → W → Outcome E × W
  step limits clock (done cause) s w = (returned (some (cancelled cause)), w)
  step limits clock timer_fired s w =
      flushing publish_age keep_running (flush (record s { timer = none }) w)
  step limits clock (closed (some cause)) s w = (returned (some (cancelled cause)), w)
  step limits clock (closed none) s w =
      flushing publish_final (λ s' w'. (returned none, w')) (flush s w)
  step limits clock (event e) s w = on_event limits clock e s w

  -- The loop, over everything that it receives; it stops at the first return.
  unfoldable pub loop : Limits → List (Clock × Received E) → Outcome E → W → Outcome E × W
  loop limits [] o w = (o, w)
  loop limits (r ∷ rs) (returned e) w = (returned e, w)
  loop limits ((clock, r) ∷ rs) (running s) w =
      let (o, w') = step limits clock r s w in loop limits rs o w'

  -- `Run`, with its checks.
  unfoldable pub run : Limits → List (Clock × Received E) → W → Outcome E × W
  run limits received w =
      if not_positive limits
      then (returned (some limits_not_positive), w)
      else loop limits received (running start) w
