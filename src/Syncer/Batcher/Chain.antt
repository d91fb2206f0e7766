-- ===== src/Syncer/Batcher/Chain.antt =====
-- `Batcher.Run` of internal/syncer/batcher.go against its specification: the published chain with the
-- pending blocks on top is the chain that the events describe, one by one.
use mathlib.Core.List.{append_assoc, append-nil}
use clicksync.Base.{
  ℕ, zero, suc, ◌≤◌, ◌<◌, ◌+◌, List, [], ◌∷◌, ◌++◌, not, ◌&&◌, Option, none, some, take, length,
  ◌≡◌, refl, sym, ap, ◌∙◌, inl, inr, arith, ◌!=◌, nat_eq, Bool-cases, Option-cases, subst,
}
use clicksync.Base.Words.{add64}
use clicksync.Model.{Point, AgreedEvent}
use clicksync.Syncer.Blocks.{DecodedBlock}
use clicksync.Syncer.Batcher.{
  Limits, Event, Staged, Error, publish_full, publish_limit, publish_age, publish_final, cancelled,
  Sink, Clock, is_empty, start, fits, at_limit, add, recount, last_index, arm_timer,
}
use clicksync.Syncer.Batcher.Steps.{
  not_positive, cleared, Received, done, timer_fired, closed, event, Outcome, running, returned,
  flush, flushing, keep_running, stage, on_forward, on_rollback, returned_by, on_value, on_event,
  step, loop, run,
}
use clicksync.Syncer.Batcher.Flushes.{Flushed, flush-Flushed}

-- A rollback keeps the chain up to the last block at its point. A point that is in no block is the
-- start of the dataset, and nothing is kept.
unfoldable pub kept : List DecodedBlock → Option ℕ → List DecodedBlock
kept chain none = []
kept chain (some i) = take (suc i) chain

unfoldable pub undo : Point → List DecodedBlock → List DecodedBlock
unfolding kept
undo point chain = kept chain (last_index point chain)

-- What one event makes of the chain, oldest block first.
unfoldable pub replay_value :
    Option DecodedBlock → Option AgreedEvent → List DecodedBlock → List DecodedBlock
unfolding undo
replay_value (some block) none chain = chain ++ (block ∷ [])
replay_value none (some rollback) chain = undo rollback.point chain
replay_value _ _ chain = chain

-- What the events up to the close of the input make of it.
unfoldable pub replay :
    {E : Type 0} → List (Clock × Received E) → List DecodedBlock → List DecodedBlock
unfolding replay_value
replay [] chain = chain
replay ((clock, event e) ∷ rs) chain = replay rs (replay_value e.forward e.rollback chain)
replay ((clock, timer_fired) ∷ rs) chain = replay rs chain
replay ((clock, closed c) ∷ rs) chain = chain
replay ((clock, done c) ∷ rs) chain = chain

last_index-append_some :
    (point : Point) (xs ys : List DecodedBlock) (i : ℕ)
    → last_index point ys ≡ some i
    → last_index point (xs ++ ys) ≡ some (length xs + i)
unfolding last_index
last_index-append_some point [] ys i h = h ∙ ap some (omega arith)
last_index-append_some point (x ∷ xs) ys i h =
    rw (last_index-append_some point xs ys i h) (ap some (omega arith))

last_index-append_none :
    (point : Point) (xs ys : List DecodedBlock)
    → last_index point ys ≡ none
    → last_index point (xs ++ ys) ≡ last_index point xs
unfolding last_index
last_index-append_none point [] ys h = h
last_index-append_none point (x ∷ xs) ys h = rw (last_index-append_none point xs ys h)

last_index-lt-length :
    (point : Point) (xs : List DecodedBlock) (i : ℕ) → last_index point xs ≡ some i → i < length xs
unfolding last_index
last_index-lt-length point [] i h = cc
last_index-lt-length point (x ∷ xs) i h = elim (Option-cases (last_index point xs)) [
  | inl missing ↦ ground arith
  | inr (j, found) ↦ ground (arith, last_index-lt-length point xs j found)
]

take_above : (xs ys : List DecodedBlock) (i : ℕ) → take (length xs + i) (xs ++ ys) ≡ xs ++ take i ys
take_above [] ys i = ap (λ n. take n ys) (omega arith)
take_above (x ∷ xs) ys i =
    let e : length (x ∷ xs) + i ≡ suc (length xs + i) = omega arith in
    ap (λ n. take n (x ∷ (xs ++ ys))) e ∙ ap (◌∷◌ x) (take_above xs ys i)

take_below : (i : ℕ) (xs ys : List DecodedBlock) → i ≤ length xs → take i (xs ++ ys) ≡ take i xs
take_below zero xs ys h = refl
take_below (suc i) [] ys h = absurd (omega arith)
take_below (suc i) (x ∷ xs) ys h = ap (◌∷◌ x) (take_below i xs ys (omega arith))

-- A rollback whose target is among the newest blocks leaves those below alone.
undo-append_some :
    (point : Point) (xs ys : List DecodedBlock) (i : ℕ)
    → last_index point ys ≡ some i
    → undo point (xs ++ ys) ≡ xs ++ take (suc i) ys
unfolding undo
undo-append_some point xs ys i h = rw (last_index-append_some point xs ys i h) (
    let shift : suc (length xs + i) ≡ length xs + suc i = omega arith in
    ap (λ n. take n (xs ++ ys)) shift ∙ take_above xs ys (suc i))

-- Otherwise it concerns only those below.
undo-append_none :
    (point : Point) (xs ys : List DecodedBlock)
    → last_index point ys ≡ none
    → undo point (xs ++ ys) ≡ undo point xs
unfolding undo
undo-append_none point xs ys h = elim (Option-cases (last_index point xs)) [
  | inl missing ↦ rw (last_index-append_none point xs ys h, missing)
  | inr (i, found) ↦
      rw (last_index-append_none point xs ys h, found)
        (take_below (suc i) xs ys (last_index-lt-length point xs i found))
]

add-pending :
    (limits : Limits) (clock : Clock) (s : Staged) (block : DecodedBlock)
    → (add limits clock s block).pending ≡ s.pending ++ (block ∷ [])
unfolding add arm_timer
add-pending limits clock s block = ground arith

recount-pending :
    (limits : Limits) (clock : Clock) (s : Staged) → (recount limits clock s).pending ≡ s.pending
unfolding recount arm_timer
recount-pending limits clock s = ground arith

module _ {W E : Type 0} (sink : Sink W E) (limits : Limits) (chain : W → List DecodedBlock)
    (publish_ok : (w : W) (batch : List DecodedBlock)
      → (sink.publish w batch).0 ≡ none
      → chain (sink.publish w batch).1 ≡ chain w ++ batch)
    (rollback_ok : (w : W) (e : AgreedEvent)
      → (sink.rollback w e).0 ≡ none
      → chain (sink.rollback w e).1 ≡ undo e.point (chain w)) where
  -- A step that goes on: the pending blocks complete the chain.
  abbrev Yields : List DecodedBlock → Outcome E × W → Type 0
  Yields whole (running s, w) = chain w ++ s.pending ≡ whole
  Yields whole (returned none, w) = ⊥
  Yields whole (returned (some e), w) = Unit

  -- A run: while it goes on, the pending blocks complete the chain; when it returned nil, all of the
  -- chain is published.
  abbrev pub Completes : List DecodedBlock → Outcome E × W → Type 0
  Completes whole (running s, w) = chain w ++ s.pending ≡ whole
  Completes whole (returned none, w) = chain w ≡ whole
  Completes whole (returned (some e), w) = Unit

  flushing_rule :
      (P : Outcome E × W → Type 0) (wrap : E → Error E) (continue : Staged → W → Outcome E × W)
      (s : Staged) (w : W) (now : List DecodedBlock)
      → ((e : Error E) (w' : W) → P (returned (some e), w'))
      → chain w ++ s.pending ≡ now
      → ((s' : Staged) (w' : W) → s'.pending ≡ [] → chain w' ≡ now → P (continue s' w'))
      → P (flushing wrap continue (flush sink s w))
  unfolding flushing
  flushing_rule P wrap continue s w now fails h keep = elim (flush-Flushed sink s w) [
    | Flushed.idle none_pending e ↦ rw e (
        keep s w none_pending
          (sym (append-nil (chain w)) ∙ ap (◌++◌ (chain w)) (sym none_pending) ∙ h))
    | Flushed.taken full right e ↦ rw e (keep (cleared s) _ refl (publish_ok w s.pending right ∙ h))
    | Flushed.failed cause full wrong e ↦ rw e (fails (wrap cause) _)
  ]

  keep_running-Yields :
      (whole : List DecodedBlock) (s : Staged) (w : W)
      → s.pending ≡ []
      → chain w ≡ whole
      → Yields whole (keep_running {E = E} s w)
  keep_running-Yields whole s w p h = ap (◌++◌ (chain w)) p ∙ append-nil (chain w) ∙ h

  stage-Yields :
      (clock : Clock) (block : DecodedBlock) (s : Staged) (w : W)
      → Yields ((chain w ++ s.pending) ++ (block ∷ [])) (stage sink limits clock block s w)
  unfolding stage
  stage-Yields clock block s w =
      let s' = add limits clock s block in
      let h : chain w ++ s'.pending ≡ (chain w ++ s.pending) ++ (block ∷ []) =
        ap (◌++◌ (chain w)) (add-pending limits clock s block)
        ∙ sym (append_assoc (chain w) s.pending (block ∷ [])) in
      elim (Bool-cases (fits limits s block)) [
        | inr refused ↦ rw refused tt
        | inl admitted ↦ elim (Bool-cases (at_limit limits s')) [
          | inl full ↦
              rw (admitted, full)
                (flushing_rule (Yields _) publish_limit keep_running s' w _ (λ _ _. tt) h
                  (λ t w' p e. keep_running-Yields _ t w' p e))
          | inr open_still ↦ rw (admitted, open_still) h
        ]
      ]

  on_forward-Yields :
      (clock : Clock) (block : DecodedBlock) (s : Staged) (w : W)
      → Yields ((chain w ++ s.pending) ++ (block ∷ [])) (on_forward sink limits clock block s w)
  unfolding on_forward
  on_forward-Yields clock block s w =
      elim (Bool-cases (not (fits limits s block) && not (is_empty s.pending))) [
        | inr room ↦ rw room (stage-Yields clock block s w)
        | inl full ↦ rw full (
            flushing_rule (Yields _) publish_full (stage sink limits clock block) s w _ (λ _ _. tt)
              refl
              (λ t w' p e.
                subst (λ l. Yields (l ++ (block ∷ [])) (stage sink limits clock block t w'))
                  (ap (◌++◌ (chain w')) p ∙ append-nil (chain w') ∙ e)
                  (stage-Yields clock block t w')))
      ]

  returned_by-Yields :
      (whole : List DecodedBlock) (s : Staged) (r : Option E × W)
      → (r.0 ≡ none → chain r.1 ++ s.pending ≡ whole)
      → Yields whole (returned_by s r)
  unfolding returned_by
  returned_by-Yields whole s (some cause, w) h = tt
  returned_by-Yields whole s (none, w) h = h refl

  on_rollback-Yields :
      (clock : Clock) (rollback : AgreedEvent) (s : Staged) (w : W)
      → Yields
          (undo rollback.point (chain w ++ s.pending))
          (on_rollback sink limits clock rollback s w)
  unfolding on_rollback
  on_rollback-Yields clock rollback s w =
      elim (Option-cases (last_index rollback.point s.pending)) [
        | inr (i, found) ↦ rw found (
            ap (◌++◌ (chain w)) (recount-pending limits clock _)
            ∙ sym (undo-append_some rollback.point (chain w) s.pending i found))
        | inl missing ↦ rw missing (
            returned_by-Yields _ _ (sink.rollback w rollback) (λ right.
              ap (◌++◌ (chain (sink.rollback w rollback).1)) (recount-pending limits clock _)
              ∙ append-nil (chain (sink.rollback w rollback).1)
              ∙ rollback_ok w rollback right
              ∙ sym (undo-append_none rollback.point (chain w) s.pending missing)))
      ]

  on_value-Yields :
      (clock : Clock) (f : Option DecodedBlock) (r : Option AgreedEvent) (s : Staged) (w : W)
      → Yields (replay_value f r (chain w ++ s.pending)) (on_value sink limits clock f r s w)
  unfolding on_value replay_value
  on_value-Yields clock (some block) none s w = on_forward-Yields clock block s w
  on_value-Yields clock none (some rollback) s w = on_rollback-Yields clock rollback s w
  on_value-Yields clock none none s w = tt
  on_value-Yields clock (some block) (some rollback) s w = tt

  -- What the rest of a run yields, from any point of it.
  loop_returned :
      (rs : List (Clock × Received E)) (e : Option (Error E)) (w : W)
      → loop sink limits rs (returned e) w ≡ (returned e, w)
  unfolding loop
  loop_returned [] e w = refl
  loop_returned (r ∷ rs) e w = refl

  timer-Yields :
      (clock : Clock) (s : Staged) (w : W)
      → Yields (chain w ++ s.pending) (step sink limits clock timer_fired s w)
  unfolding step
  timer-Yields clock s w =
      flushing_rule (Yields _) publish_age keep_running (record s { timer = none }) w _ (λ _ _. tt)
        refl (λ t w' p e. keep_running-Yields _ t w' p e)

  event-Yields :
      (clock : Clock) (e : Event) (s : Staged) (w : W)
      → Yields
          (replay_value e.forward e.rollback (chain w ++ s.pending))
          (step sink limits clock (event e) s w)
  unfolding step on_event
  event-Yields clock e s w = elim (Bool-cases (e.sequence != s.next_sequence)) [
    | inl wrong ↦ rw wrong tt
    | inr right ↦ rw right (
        on_value-Yields clock e.forward e.rollback
          (record s { next_sequence = add64 s.next_sequence 1 }) w)
  ]

  closed-Completes :
      (clock : Clock) (c : Option E) (s : Staged) (w : W)
      → Completes (chain w ++ s.pending) (step sink limits clock (closed c) s w)
  unfolding step
  closed-Completes clock (some cause) s w = tt
  closed-Completes clock none s w =
      flushing_rule (Completes _) publish_final (λ s' w'. (returned none, w')) s w _ (λ _ _. tt)
        refl (λ t w' p e. e)

  -- A close ends the run, one way or the other.
  closed_ends :
      (clock : Clock) (c : Option E) (s : Staged) (w : W) (rs : List (Clock × Received E))
      → let r = step sink limits clock (closed c) s w in loop sink limits rs r.0 r.1 ≡ r
  unfolding step
  closed_ends clock (some cause) s w rs = loop_returned rs _ w
  closed_ends clock none s w rs =
      flushing_rule (λ r. loop sink limits rs r.0 r.1 ≡ r) publish_final
        (λ s' w'. (returned none, w')) s w _ (λ e w'. loop_returned rs (some e) w') refl
        (λ t w' p e. loop_returned rs none w')

  loop-Completes :
      (rs : List (Clock × Received E)) (whole : List DecodedBlock) (r : Outcome E × W)
      → Yields whole r
      → Completes (replay rs whole) (loop sink limits rs r.0 r.1)
  unfolding loop replay
  loop-Completes rs whole (returned (some e), w) h = rw (loop_returned rs (some e) w) tt
  loop-Completes rs whole (returned none, w) h = absurd h
  loop-Completes [] whole (running s, w) h = h
  loop-Completes ((clock, done c) ∷ rs) whole (running s, w) h =
      unfold step in rw (loop_returned rs (some (cancelled c)) w) tt
  loop-Completes ((clock, timer_fired) ∷ rs) whole (running s, w) h =
      loop-Completes rs whole (step sink limits clock timer_fired s w)
        (subst (λ l. Yields l (step sink limits clock timer_fired s w)) h (timer-Yields clock s w))
  loop-Completes ((clock, closed c) ∷ rs) whole (running s, w) h = rw (closed_ends clock c s w rs) (
      subst (λ l. Completes l (step sink limits clock (closed c) s w)) h
        (closed-Completes clock c s w))
  loop-Completes ((clock, event e) ∷ rs) whole (running s, w) h =
      loop-Completes rs (replay_value e.forward e.rollback whole)
        (step sink limits clock (event e) s w)
        (subst
          (λ l. Yields (replay_value e.forward e.rollback l) (step sink limits clock (event e) s w))
          h (event-Yields clock e s w))

  -- The chain that a sink holds, with the pending blocks on top, is at every point of a run the chain
  -- that the events received so far describe; and when the run returns nil, the sink holds all of
  -- that chain. `publish_ok` and `rollback_ok` say what a sink does that reports no error.
  pub run-Completes :
      (rs : List (Clock × Received E)) (w : W)
      → Completes (replay rs (chain w)) (run sink limits rs w)
  unfolding run
  run-Completes rs w = elim (Bool-cases (not_positive limits)) [
    | inl refused ↦ rw refused tt
    | inr positive ↦
        rw positive (loop-Completes rs (chain w) (running start, w) (append-nil (chain w)))
  ]
