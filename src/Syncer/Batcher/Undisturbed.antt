-- ===== src/Syncer/Batcher/Undisturbed.antt =====
-- A run of internal/syncer/batcher.go is the same with and without a record of its sink's calls.
use clicksync.Base.{
  ℕ, List, [], ◌∷◌, not, ◌&&◌, ◌!=◌, nat_eq, Option, none, some, ◌≡◌, refl, ap, ◌∙◌, inl, inr,
  Bool-cases, Option-cases,
}
use clicksync.Base.Words.{add64}
use clicksync.Model.{AgreedEvent}
use clicksync.Syncer.Blocks.{DecodedBlock}
use clicksync.Syncer.Batcher.{
  Limits, Staged, Error, Sink, Clock, publish_full, publish_limit, publish_age, publish_final,
  is_empty, start, fits, at_limit, add, recount, last_index,
}
use clicksync.Syncer.Batcher.Steps.{
  not_positive, Received, done, timer_fired, closed, event, Outcome, running, returned, flush,
  cleared, flushing, keep_running, stage, on_forward, on_target, on_rollback, returned_by, on_value,
  on_event, step, loop, run,
}
use clicksync.Syncer.Batcher.Recording.{Call, published, rolled_back, noted, recording, without}

module _ {W E : Type 0} where
  abbrev flushed : Option E × Staged × (W × List Call) → Option E × Staged × W
  flushed r = (r.0, r.1, r.2.0)

  without-noted :
      (calls : List Call) (call : Call) (r : Option E × W) → without (noted calls call r) ≡ r
  without-noted calls call (none, w) = refl
  without-noted calls call (some e, w) = refl

  without-flushing :
      (wrap : E → Error E) (continue : Staged → W × List Call → Outcome E × (W × List Call))
      (continue' : Staged → W → Outcome E × W)
      → ((s : Staged) (x : W × List Call) → without (continue s x) ≡ continue' s x.0)
      → (r : Option E × Staged × (W × List Call))
      → without (flushing wrap continue r) ≡ flushing wrap continue' (flushed r)
  unfolding flushing
  without-flushing wrap continue continue' same (some cause, s, x) = refl
  without-flushing wrap continue continue' same (none, s, x) = same s x

  without-returned_by :
      (s : Staged) (r : Option E × (W × List Call))
      → without (returned_by s r) ≡ returned_by s (without r)
  unfolding returned_by
  without-returned_by s (some cause, x) = refl
  without-returned_by s (none, x) = refl

module _ {W E : Type 0} (sink : Sink W E) (limits : Limits) where
  flushed-flush :
      (s : Staged) (x : W × List Call) → flushed (flush (recording sink) s x) ≡ flush sink s x.0
  unfolding flush
  flushed-flush s x =
      let after =
        ap (λ (r : Option E × W). r.1)
          (without-noted x.1 (published s.pending) (sink.publish x.0 s.pending)) in
      elim (Bool-cases (is_empty s.pending)) [
        | inl empty ↦ rw empty refl
        | inr full ↦ elim (Option-cases (sink.publish x.0 s.pending).0) [
          | inl right ↦ rw (full, right) (ap (λ w. (none, cleared s, w)) after)
          | inr (cause, wrong) ↦
              rw (full, wrong) (ap (λ w. (some cause, record s { timer = none }, w)) after)
        ]
      ]

  then_flush :
      (wrap : E → Error E) (continue : Staged → W × List Call → Outcome E × (W × List Call))
      (continue' : Staged → W → Outcome E × W) (s : Staged) (x : W × List Call)
      → ((s : Staged) (x : W × List Call) → without (continue s x) ≡ continue' s x.0)
      → without (flushing wrap continue (flush (recording sink) s x))
        ≡ flushing wrap continue' (flush sink s x.0)
  then_flush wrap continue continue' s x same =
      without-flushing wrap continue continue' same (flush (recording sink) s x)
      ∙ ap (flushing wrap continue') (flushed-flush s x)

  without-stage :
      (clock : Clock) (block : DecodedBlock) (s : Staged) (x : W × List Call)
      → without (stage (recording sink) limits clock block s x)
        ≡ stage sink limits clock block s x.0
  unfolding stage
  without-stage clock block s x = elim (Bool-cases (fits limits s block)) [
    | inr refused ↦ rw refused refl
    | inl admitted ↦ elim (Bool-cases (at_limit limits (add limits clock s block))) [
      | inl full ↦
          rw (admitted, full) (then_flush publish_limit keep_running keep_running _ x (λ s x. refl))
      | inr open_still ↦ rw (admitted, open_still) refl
    ]
  ]

  without-on_forward :
      (clock : Clock) (block : DecodedBlock) (s : Staged) (x : W × List Call)
      → without (on_forward (recording sink) limits clock block s x)
        ≡ on_forward sink limits clock block s x.0
  unfolding on_forward
  without-on_forward clock block s x =
      elim (Bool-cases (not (fits limits s block) && not (is_empty s.pending))) [
        | inr room ↦ rw room (without-stage clock block s x)
        | inl full ↦ rw full (
            then_flush publish_full (stage (recording sink) limits clock block)
              (stage sink limits clock block) s x (without-stage clock block))
      ]

  without-on_target :
      (clock : Clock) (rollback : AgreedEvent) (s : Staged) (x : W × List Call) (i : Option ℕ)
      → without (on_target (recording sink) limits clock rollback s x i)
        ≡ on_target sink limits clock rollback s x.0 i
  unfolding on_target
  without-on_target clock rollback s x (some i) = refl
  without-on_target clock rollback s x none =
      let s' = recount limits clock (record s { pending = [] }) in
      without-returned_by s' _
      ∙ ap (returned_by s') (without-noted x.1 (rolled_back rollback) (sink.rollback x.0 rollback))

  without-on_value :
      (clock : Clock) (f : Option DecodedBlock) (r : Option AgreedEvent) (s : Staged)
      (x : W × List Call)
      → without (on_value (recording sink) limits clock f r s x)
        ≡ on_value sink limits clock f r s x.0
  unfolding on_value on_rollback
  without-on_value clock (some block) none s x = without-on_forward clock block s x
  without-on_value clock none (some rollback) s x =
      without-on_target clock rollback s x (last_index rollback.point s.pending)
  without-on_value clock none none s x = refl
  without-on_value clock (some block) (some rollback) s x = refl

  without-step :
      (clock : Clock) (r : Received E) (s : Staged) (x : W × List Call)
      → without (step (recording sink) limits clock r s x) ≡ step sink limits clock r s x.0
  unfolding step on_event
  without-step clock (done cause) s x = refl
  without-step clock timer_fired s x =
      then_flush publish_age keep_running keep_running (record s { timer = none }) x (λ s x. refl)
  without-step clock (closed (some cause)) s x = refl
  without-step clock (closed none) s x =
      then_flush publish_final (λ s' x'. (returned none, x')) (λ s' w'. (returned none, w')) s x
        (λ s x. refl)
  without-step clock (event e) s x = elim (Bool-cases (e.sequence != s.next_sequence)) [
    | inl wrong ↦ rw wrong refl
    | inr right ↦ rw right (
        without-on_value clock e.forward e.rollback
          (record s { next_sequence = add64 s.next_sequence 1 }) x)
  ]

  without-loop :
      (rs : List (Clock × Received E)) (o : Outcome E) (x : W × List Call)
      → without (loop (recording sink) limits rs o x) ≡ loop sink limits rs o x.0
  unfolding loop
  without-loop [] o x = refl
  without-loop (r ∷ rs) (returned e) x = refl
  without-loop ((clock, r) ∷ rs) (running s) x =
      let (o, y) = step (recording sink) limits clock r s x in
      without-loop rs o y
      ∙ ap (λ (q : Outcome E × W). loop sink limits rs q.0 q.1) (without-step clock r s x)

  pub without-run :
      (rs : List (Clock × Received E)) (x : W × List Call)
      → without (run (recording sink) limits rs x) ≡ run sink limits rs x.0
  unfolding run
  without-run rs x = elim (Bool-cases (not_positive limits)) [
    | inl refused ↦ rw refused refl
    | inr positive ↦ rw positive (without-loop rs (running start) x)
  ]
