-- ===== src/Pipeline/Ordered/Steps.antt =====
-- The steps of `OrderedMapper.Run` of internal/pipeline/ordered.go. A step is `none` if the choice is not
-- possible where the loop stands.
use clicksync.Base.{
  ℕ, ◌+◌, ◌-◌, List, [], ◌∷◌, ◌++◌, Bool, true, false, not, ◌&&◌, ◌||◌, ◌==◌, nat_eq, bool_eq, ltb,
  leb, Option, none, some, Result, ok, err, length, if◌then◌else◌,
}
use clicksync.Base.Int.{ℤ, pos, negsuc}
use clicksync.Base.Words.{add64}
use clicksync.Pipeline.Ordered.{
  Event, forward, rollback, Item, Job, Decoded, Limits, Mapper, cancelled, accounting_underflow,
  negative_bytes, event_too_large, no_progress, not_one_value, rollback_with_bytes, nil_rollback,
  decode_failed, release_failed, Outcome, going, returned, Choice, go_on, receive, read, cancel,
  accept, finish, Way, in_time, too_late, leaving, find, bad_workers, bad_window, bad_bound, delete,
  put, is_rollback, pick,
}

abbrev pub is_some {ℓ} : {A : Type ℓ} → Option A → Bool
is_some none = false
is_some (some a) = true

abbrev pub is_nil {ℓ} : {A : Type ℓ} → List A → Bool
is_nil [] = true
is_nil (x ∷ xs) = false

abbrev pub is_zero : ℤ → Bool
is_zero (pos n) = n == 0
is_zero (negsuc n) = false

module _ {I O R E : Type 0} where
  -- A place without a select: the only choice is to go on.
  unfoldable pub without_choice : Choice E → Outcome I O R E → Option (Outcome I O R E)
  without_choice go_on o = some o
  without_choice receive o = none
  without_choice read o = none
  without_choice cancel o = none
  without_choice (accept released) o = none
  without_choice (finish way k) o = none

  -- What `emitReady` does once `item` was sent.
  unfoldable pub sent : Item O R → Mapper I O R E → Outcome I O R E
  sent item m =
      let m' : Mapper I O R E = record m {
        output = m.output ++ ((item.sequence, item.value) ∷ []);
        barrier = if is_rollback item.value then false else m.barrier;
        outstanding = m.outstanding - 1;
        outstanding_bytes = m.outstanding_bytes - item.bytes;
      } in
      if ltb m.outstanding 1 || ltb m.outstanding_bytes item.bytes
      then returned (some accounting_underflow) m'
      else going
          (record m' { pending = delete m.next_emit m.pending; next_emit = add64 m.next_emit 1 })

  -- The select of `emitReady`.
  unfoldable pub emit : Choice E → Item O R → Mapper I O R E → Option (Outcome I O R E)
  emit cancel item m = some (returned (some cancelled) m)
  emit go_on item m = some (sent item m)
  emit receive item m = none
  emit read item m = none
  emit (accept released) item m = none
  emit (finish way k) item m = none

  -- `case result := <-results`
  unfoldable pub collected : Decoded O E → Mapper I O R E → Outcome I O R E
  collected r m = elim r.outcome [
    | err cause ↦ returned (some (decode_failed r.sequence cause)) m
    | ok value ↦ going (record m {
      pending =
          put (record { sequence = r.sequence; value = forward value; bytes = r.bytes }) m.pending;
    })
  ]

  unfoldable pub next_result : List (Decoded O E) → Mapper I O R E → Option (Outcome I O R E)
  next_result [] m = none
  next_result (r ∷ rs) m = some (collected r (record m { results = rs }))

  unfoldable pub received : Mapper I O R E → Option (Outcome I O R E)
  unfolding next_result
  received m = next_result m.results m

  -- After `jobs <- job`, with the error of `ReleaseInputBytes`.
  unfoldable pub accepted : Option E → I → ℕ → Mapper I O R E → Outcome I O R E
  accepted (some cause) value bytes m = returned (some (release_failed cause)) m
  accepted none value bytes m = going (record m {
    running = m.running ++ (record { sequence = m.next_assign; value = value; bytes = bytes } ∷ []);
    outstanding = m.outstanding + 1;
    outstanding_bytes = m.outstanding_bytes + bytes;
    next_assign = add64 m.next_assign 1;
    held = none;
  })

  -- The select on `jobs`; a worker takes the job if one is idle.
  unfoldable pub offer : Choice E → I → ℕ → Mapper I O R E → Option (Outcome I O R E)
  offer (accept released) value bytes m =
      if ltb (length m.running) m.alive then some (accepted released value bytes m) else none
  offer receive value bytes m = received m
  offer cancel value bytes m = some (returned (some cancelled) m)
  offer go_on value bytes m = none
  offer read value bytes m = none
  offer (finish way k) value bytes m = none

  -- An event from the input, checked and held.
  unfoldable pub checked : Event I R → Mapper I O R E → Outcome I O R E
  checked e m =
      if is_some e.forward == is_some e.rollback
      then returned (some not_one_value) m
      else if is_some e.rollback && not (is_zero e.bytes)
      then returned (some rollback_with_bytes) m
      else going (record m { held = some e })

  -- The input is closed once nothing is left in it.
  unfoldable pub next_event : List (Event I R) → Mapper I O R E → Outcome I O R E
  next_event [] m = going (record m { input_open = false })
  next_event (e ∷ es) m = checked e (record m { input = es })

  unfoldable pub arrived : Mapper I O R E → Outcome I O R E
  unfolding next_event
  arrived m = next_event m.input m

  -- A rollback takes its place at once and closes the barrier.
  unfoldable pub assign_rollback : R → Mapper I O R E → Outcome I O R E
  assign_rollback r m = going (record m {
    pending = put (record { sequence = m.next_assign; value = rollback r; bytes = 0 }) m.pending;
    outstanding = m.outstanding + 1;
    next_assign = add64 m.next_assign 1;
    held = none;
    barrier = true;
  })

  -- The worker of the k-th job sends its result, if there is room, and returns if that is an error.
  unfoldable pub decoded : Result E O → ℕ → ℕ → List (Job I) → Mapper I O R E → Mapper I O R E
  decoded outcome sequence bytes rest m = record m {
    running = rest;
    results = m.results ++ (record { sequence = sequence; outcome = outcome; bytes = bytes } ∷ []);
    alive = elim outcome [ ok value ↦ m.alive | err cause ↦ m.alive - 1 ];
  }

  -- A choice that is not possible changes nothing.
  abbrev pub or_stay : Mapper I O R E → Option (Outcome I O R E) → Outcome I O R E
  or_stay m none = going m
  or_stay m (some o) = o

module _ {I O R E : Type 0} (limits : Limits) where
  unfoldable pub can_read : Mapper I O R E → Bool
  can_read m =
      m.input_open && not (is_some m.held) && not m.barrier && ltb m.outstanding limits.window

  -- The last select of the loop.
  unfoldable pub select : Choice E → Mapper I O R E → Option (Outcome I O R E)
  unfolding arrived
  select read m = if can_read m then some (arrived m) else none
  select receive m = received m
  select cancel m = some (returned (some cancelled) m)
  select go_on m = none
  select (accept released) m = none
  select (finish way k) m = none

  -- The body from `canRead` on.
  unfoldable pub wait : Choice E → Mapper I O R E → Option (Outcome I O R E)
  wait choice m =
      if not (can_read m) && ltb m.outstanding 1 && is_some m.held
      then without_choice choice (returned (some no_progress) m)
      else if not (can_read m) && ltb m.outstanding 1 && not m.input_open && is_nil m.pending
      then without_choice choice (returned none m)
      else select choice m

  -- The held event: a forward, with its size, or a rollback. Sizes are compared without a wrap-around,
  -- since neither side leaves int64.
  unfoldable pub assign_forward : Choice E → I → ℤ → Mapper I O R E → Option (Outcome I O R E)
  assign_forward choice value (negsuc n) m =
      without_choice choice (returned (some negative_bytes) m)
  assign_forward choice value (pos bytes) m =
      if ltb limits.max_bytes bytes
      then without_choice choice (returned (some event_too_large) m)
      else if leb (bytes + m.outstanding_bytes) limits.max_bytes
      then offer choice value bytes m
      else wait choice m

  unfoldable pub assign_value :
      Choice E → Option I → Option R → ℤ → Mapper I O R E → Option (Outcome I O R E)
  assign_value choice (some value) r bytes m = assign_forward choice value bytes m
  assign_value choice none (some r) bytes m = without_choice choice (assign_rollback r m)
  assign_value choice none none bytes m = without_choice choice (returned (some nil_rollback) m)

  -- The body of the loop after `emitReady`, with the held event.
  unfoldable pub with_held :
      Choice E → Option (Event I R) → Mapper I O R E → Option (Outcome I O R E)
  with_held choice (some e) m = assign_value choice e.forward e.rollback e.bytes m
  with_held choice none m = wait choice m

  unfoldable pub body : Choice E → Mapper I O R E → Option (Outcome I O R E)
  unfolding with_held
  body choice m =
      if not m.barrier && ltb m.outstanding limits.window
      then with_held choice m.held m
      else wait choice m

  -- The condition of the loop.
  unfoldable pub looping : Mapper I O R E → Bool
  looping m = m.input_open || is_some m.held || ltb 0 m.outstanding || not (is_nil m.pending)

  unfoldable pub turn : Choice E → Option (Item O R) → Mapper I O R E → Option (Outcome I O R E)
  turn choice (some item) m = emit choice item m
  turn choice none m = if looping m then body choice m else without_choice choice (returned none m)

  -- The goroutine of `Run` itself: what is next to be sent is sent first.
  unfoldable pub main_step : Choice E → Mapper I O R E → Option (Outcome I O R E)
  unfolding turn
  main_step choice m = turn choice (find m.next_emit m.pending) m

module _ {I O R E : Type 0} (decode : Bool → I → Result E O) (limits : Limits) where
  -- The decoder is asked with whether its context is done.
  unfoldable pub finished :
      Bool → Option (Job I × List (Job I)) → Mapper I O R E → Option (Outcome I O R E)
  finished late none m = none
  finished late (some (job, rest)) m =
      some (going (decoded (decode late job.value) job.sequence job.bytes rest m))

  -- `case <-runCtx.Done()`: the worker returns, and its result is lost.
  unfoldable pub left : Option (Job I × List (Job I)) → Mapper I O R E → Option (Outcome I O R E)
  left none m = none
  left (some (job, rest)) m = some (going (record m { running = rest; alive = m.alive - 1 }))

  unfoldable pub worker_step : Way → ℕ → Mapper I O R E → Option (Outcome I O R E)
  unfolding finished left
  worker_step in_time k m =
      if ltb (length m.results) limits.window then finished false (pick k m.running) m else none
  worker_step too_late k m =
      if ltb (length m.results) limits.window then finished true (pick k m.running) m else none
  worker_step leaving k m = left (pick k m.running) m

  unfoldable pub step : Choice E → Mapper I O R E → Option (Outcome I O R E)
  step (finish way k) m = worker_step way k m
  step go_on m = main_step limits go_on m
  step receive m = main_step limits receive m
  step read m = main_step limits read m
  step cancel m = main_step limits cancel m
  step (accept released) m = main_step limits (accept released) m

  -- A schedule, up to the return.
  unfoldable pub run : List (Choice E) → Outcome I O R E → Outcome I O R E
  run [] o = o
  run (c ∷ cs) (returned e m) = returned e m
  run (c ∷ cs) (going m) = run cs (or_stay m (step c m))

  abbrev pub initial : List (Event I R) → Mapper I O R E
  initial input = record {
    next_assign = 0;
    next_emit = 0;
    outstanding = 0;
    outstanding_bytes = 0;
    input_open = true;
    barrier = false;
    held = none;
    pending = [];
    alive = limits.workers;
    running = [];
    results = [];
    input = input;
    output = [];
  }

  -- From the checks of the mapper's fields on.
  unfoldable pub start : List (Event I R) → Outcome I O R E
  start input =
      if ltb limits.workers 1
      then returned (some bad_workers) (initial input)
      else if ltb limits.window limits.workers
      then returned (some bad_window) (initial input)
      else if ltb limits.max_bytes 1
      then returned (some bad_bound) (initial input)
      else going (initial input)
