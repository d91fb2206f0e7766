-- ===== src/Pipeline/Ordered/Termination.antt =====
-- `OrderedMapper.Run` of internal/pipeline/ordered.go takes a bounded number of steps.
use clicksync.Base.{
  ℕ, zero, suc, ◌+◌, ◌*◌, ◌≤◌, ◌<◌, List, [], ◌∷◌, Bool, true, false, not, ◌&&◌, ◌||◌, ◌==◌,
  bool_eq, nat_eq, Option, none, some, Result, length, length-append, ◌≡◌, refl, arith, Bool-cases,
  Option-cases, Result-cases, ap, ◌∙◌, inl, inr, ltb, leb,
}
use clicksync.Base.Int.{ℤ, pos, negsuc}
use clicksync.Pipeline.Ordered.{
  Event, forward, rollback, Item, Job, Decoded, Limits, Mapper, Outcome, going, returned, Choice,
  go_on, receive, read, cancel, accept, finish, Way, in_time, too_late, leaving, find, delete, put,
  pick,
}
use clicksync.Pipeline.Ordered.Steps.{
  without_choice, emit, sent, collected, next_result, received, accepted, offer, checked,
  next_event, arrived, assign_rollback, decoded, can_read, select, wait, assign_forward,
  assign_value, with_held, body, looping, turn, main_step, finished, left, worker_step, step,
  or_stay, start, is_some, is_nil, is_zero,
}

module _ {A : Type 0} where
  length-pick :
      (k : ℕ) (xs : List A) {x : A} {rest : List A}
      → pick k xs ≡ some (x, rest)
      → length xs ≡ suc (length rest)
  unfolding pick
  length-pick k [] h = cc
  length-pick zero (y ∷ xs) {x} {rest} h = let e : xs ≡ rest = cc in ap (λ l. suc (length l)) e
  length-pick (suc k) (y ∷ xs) {x} {rest} h = elim (Option-cases (pick k xs)) [
    | inl missing ↦ let e : none ≡ some (x, rest) = rw missing at h in cc
    | inr ((z, zs), found) ↦
        let e : some (z, y ∷ zs) ≡ some (x, rest) = rw found at h in
        let others : y ∷ zs ≡ rest = cc in
        ap suc (length-pick k xs found) ∙ ap (λ l. suc (length l)) others
  ]

module _ {O R : Type 0} where
  length-delete : (n : ℕ) (is : List (Item O R)) → length (delete n is) ≤ length is
  unfolding delete
  length-delete n [] = omega arith
  length-delete n (i ∷ is) =
      let rest = length-delete n is in
      elim (Bool-cases (i.sequence == n)) [
        | inl e ↦ rw e (omega arith)
        | inr e ↦ rw e (omega arith)
      ]

  length-delete_found :
      (n : ℕ) (is : List (Item O R)) {i : Item O R}
      → find n is ≡ some i
      → length (delete n is) < length is
  unfolding find delete
  length-delete_found n [] h = cc
  length-delete_found n (j ∷ is) h = elim (Bool-cases (j.sequence == n)) [
    | inl e ↦ let rest = length-delete n is in rw e (omega arith)
    | inr e ↦ let rest = length-delete_found n is (rw e at h) in rw e (omega arith)
  ]

  length-put : (i : Item O R) (is : List (Item O R)) → length (put i is) ≤ suc (length is)
  unfolding put
  length-put i is = let rest = length-delete i.sequence is in omega arith

abbrev held_weight {ℓ} : {A : Type ℓ} → Option A → ℕ
held_weight none = 0
held_weight (some e) = 4

abbrev open_weight : Bool → ℕ
open_weight true = 1
open_weight false = 0

held_weight_of {ℓ} : {A : Type ℓ} (a : Option A) → is_some a ≡ false → held_weight a ≡ 0
held_weight_of none h = refl
held_weight_of (some e) h = cc

abbrev moved {ℓ} : {A : Type ℓ} → Option A → ℕ
moved none = 0
moved (some a) = 1

module _ {I O R E : Type 0} where
  -- Each event passes at most five places: the input, the hand, a worker, the results and the map.
  abbrev pub weight : Mapper I O R E → ℕ
  weight m =
      open_weight m.input_open
      + 5 * length m.input
      + held_weight m.held
      + 3 * length m.running
      + 2 * length m.results
      + length m.pending

  -- A step that goes on from `m` leaves less to do.
  abbrev pub Falls : Mapper I O R E → Option (Outcome I O R E) → Type 0
  Falls m none = Unit
  Falls m (some (returned e m')) = Unit
  Falls m (some (going m')) = weight m' < weight m

  emit-Falls :
      (c : Choice E) (item : Item O R) (m : Mapper I O R E)
      → find m.next_emit m.pending ≡ some item
      → Falls m (emit c item m)
  unfolding emit sent
  emit-Falls go_on item m found =
      let less = length-delete_found m.next_emit m.pending found in
      elim (Bool-cases (ltb m.outstanding 1 || ltb m.outstanding_bytes item.bytes)) [
        | inl under ↦ rw under tt
        | inr enough ↦ rw enough (omega arith)
      ]
  emit-Falls receive item m found = tt
  emit-Falls read item m found = tt
  emit-Falls cancel item m found = tt
  emit-Falls (accept released) item m found = tt
  emit-Falls (finish way k) item m found = tt

  next_result-Falls :
      (rs : List (Decoded O E)) (m : Mapper I O R E) → m.results ≡ rs → Falls m (next_result rs m)
  unfolding next_result collected
  next_result-Falls [] m e = tt
  next_result-Falls (r ∷ rs) m e =
      let one = ap length e in
      elim (Result-cases r.outcome) [
        | inr (cause, failed) ↦ rw failed tt
        | inl (value, right) ↦
            let more =
              length-put (record { sequence = r.sequence; value = forward value; bytes = r.bytes })
                m.pending in
            rw right (omega arith)
      ]

  received-Falls : (m : Mapper I O R E) → Falls m (received m)
  unfolding received
  received-Falls m = next_result-Falls m.results m refl

  offer-Falls :
      (c : Choice E) (value : I) (bytes : ℕ) (m : Mapper I O R E)
      → held_weight m.held ≡ 4
      → Falls m (offer c value bytes m)
  unfolding offer accepted
  offer-Falls go_on value bytes m h = tt
  offer-Falls receive value bytes m h = received-Falls m
  offer-Falls read value bytes m h = tt
  offer-Falls cancel value bytes m h = tt
  offer-Falls (finish way k) value bytes m h = tt
  offer-Falls (accept (some cause)) value bytes m h =
      elim (Bool-cases (ltb (length m.running) m.alive)) [ inl e ↦ rw e tt | inr e ↦ rw e tt ]
  offer-Falls (accept none) value bytes m h =
      let job : Job I = record { sequence = m.next_assign; value = value; bytes = bytes } in
      let more = length-append m.running (job ∷ []) in
      elim (Bool-cases (ltb (length m.running) m.alive)) [
        | inl e ↦ rw e (omega arith)
        | inr e ↦ rw e tt
      ]

  next_event-Falls :
      (es : List (Event I R)) (m : Mapper I O R E)
      → m.input ≡ es
      → held_weight m.held ≡ 0
      → open_weight m.input_open ≡ 1
      → Falls m (some (next_event es m))
  unfolding next_event checked
  next_event-Falls [] m e h o = omega arith
  next_event-Falls (x ∷ es) m e h o =
      let one = ap length e in
      elim (Bool-cases (is_some x.forward == is_some x.rollback)) [
        | inl bad ↦ rw bad tt
        | inr good ↦ elim (Bool-cases (is_some x.rollback && not (is_zero x.bytes))) [
          | inl bad ↦ rw (good, bad) tt
          | inr right ↦ rw (good, right) (omega arith)
        ]
      ]

  assign_rollback-Falls :
      (r : R) (m : Mapper I O R E) → held_weight m.held ≡ 4 → Falls m (some (assign_rollback r m))
  unfolding assign_rollback
  assign_rollback-Falls r m h =
      let more =
        length-put (record { sequence = m.next_assign; value = rollback r; bytes = 0 }) m.pending in
      omega arith

  without_choice-Falls :
      (c : Choice E) (m : Mapper I O R E) (o : Outcome I O R E)
      → Falls m (some o)
      → Falls m (without_choice c o)
  unfolding without_choice
  without_choice-Falls go_on m o h = h
  without_choice-Falls receive m o h = tt
  without_choice-Falls read m o h = tt
  without_choice-Falls cancel m o h = tt
  without_choice-Falls (accept released) m o h = tt
  without_choice-Falls (finish way k) m o h = tt

module _ {I O R E : Type 0} (limits : Limits) where
  can_read_weights :
      (m : Mapper I O R E)
      → can_read limits m ≡ true
      → (held_weight m.held ≡ 0) × (open_weight m.input_open ≡ 1)
  unfolding can_read
  can_read_weights m c =
      let empty : is_some m.held ≡ false = ground arith in
      let still : m.input_open ≡ true = ground arith in
      (held_weight_of m.held empty, ap open_weight still)

  select-Falls : (c : Choice E) (m : Mapper I O R E) → Falls m (select limits c m)
  unfolding select arrived
  select-Falls go_on m = tt
  select-Falls receive m = received-Falls m
  select-Falls cancel m = tt
  select-Falls (accept released) m = tt
  select-Falls (finish way k) m = tt
  select-Falls read m = elim (Bool-cases (can_read limits m)) [
    | inl can ↦ let (h, o) = can_read_weights m can in rw can (next_event-Falls m.input m refl h o)
    | inr shut ↦ rw shut tt
  ]

  wait-Falls : (c : Choice E) (m : Mapper I O R E) → Falls m (wait limits c m)
  unfolding wait
  wait-Falls c m =
      let stuck = not (can_read limits m) && ltb m.outstanding 1 && is_some m.held in
      let done =
        not (can_read limits m) && ltb m.outstanding 1 && not m.input_open && is_nil m.pending in
      elim (Bool-cases stuck) [
        | inl e ↦ rw e (without_choice-Falls c m _ tt)
        | inr f ↦ elim (Bool-cases done) [
          | inl e ↦ rw (f, e) (without_choice-Falls c m _ tt)
          | inr e ↦ rw (f, e) (select-Falls c m)
        ]
      ]

  assign_forward-Falls :
      (c : Choice E) (value : I) (bytes : ℤ) (m : Mapper I O R E)
      → held_weight m.held ≡ 4
      → Falls m (assign_forward limits c value bytes m)
  unfolding assign_forward
  assign_forward-Falls c value (negsuc n) m h = without_choice-Falls c m _ tt
  assign_forward-Falls c value (pos bytes) m h = elim (Bool-cases (ltb limits.max_bytes bytes)) [
    | inl large ↦ rw large (without_choice-Falls c m _ tt)
    | inr fine ↦ elim (Bool-cases (leb (bytes + m.outstanding_bytes) limits.max_bytes)) [
      | inl room ↦ rw (fine, room) (offer-Falls c value bytes m h)
      | inr full ↦ rw (fine, full) (wait-Falls c m)
    ]
  ]

  assign_value-Falls :
      (c : Choice E) (f : Option I) (r : Option R) (bytes : ℤ) (m : Mapper I O R E)
      → held_weight m.held ≡ 4
      → Falls m (assign_value limits c f r bytes m)
  unfolding assign_value
  assign_value-Falls c (some value) r bytes m h = assign_forward-Falls c value bytes m h
  assign_value-Falls c none (some r) bytes m h =
      without_choice-Falls c m _ (assign_rollback-Falls r m h)
  assign_value-Falls c none none bytes m h = without_choice-Falls c m _ tt

  with_held-Falls :
      (c : Choice E) (held : Option (Event I R)) (m : Mapper I O R E)
      → m.held ≡ held
      → Falls m (with_held limits c held m)
  unfolding with_held
  with_held-Falls c none m h = wait-Falls c m
  with_held-Falls c (some e) m h =
      assign_value-Falls c e.forward e.rollback e.bytes m (ap held_weight h)

  body-Falls : (c : Choice E) (m : Mapper I O R E) → Falls m (body limits c m)
  unfolding body
  body-Falls c m = elim (Bool-cases (not m.barrier && ltb m.outstanding limits.window)) [
    | inl free ↦ rw free (with_held-Falls c m.held m refl)
    | inr full ↦ rw full (wait-Falls c m)
  ]

  turn-Falls :
      (c : Choice E) (next : Option (Item O R)) (m : Mapper I O R E)
      → find m.next_emit m.pending ≡ next
      → Falls m (turn limits c next m)
  unfolding turn
  turn-Falls c (some item) m found = emit-Falls c item m found
  turn-Falls c none m found = elim (Bool-cases (looping limits m)) [
    | inl more ↦ rw more (body-Falls c m)
    | inr end ↦ rw end (without_choice-Falls c m _ tt)
  ]

  main_step-Falls : (c : Choice E) (m : Mapper I O R E) → Falls m (main_step limits c m)
  unfolding main_step
  main_step-Falls c m = turn-Falls c (find m.next_emit m.pending) m refl

module _ {I O R E : Type 0} (decode : Bool → I → Result E O) (limits : Limits) where
  finished-Falls :
      (late : Bool) (k : ℕ) (picked : Option (Job I × List (Job I))) (m : Mapper I O R E)
      → pick k m.running ≡ picked
      → Falls m (finished decode limits late picked m)
  unfolding finished decoded
  finished-Falls late k none m p = tt
  finished-Falls late k (some (job, rest)) m p =
      let one_less = length-pick k m.running p in
      let result : Decoded O E = record {
        sequence = job.sequence;
        outcome = decode late job.value;
        bytes = job.bytes;
      } in
      let one_more = length-append m.results (result ∷ []) in omega arith

  left-Falls :
      (k : ℕ) (picked : Option (Job I × List (Job I))) (m : Mapper I O R E)
      → pick k m.running ≡ picked
      → Falls m (left decode limits picked m)
  unfolding left
  left-Falls k none m p = tt
  left-Falls k (some (job, rest)) m p = let one_less = length-pick k m.running p in omega arith

  worker_step-Falls :
      (way : Way) (k : ℕ) (m : Mapper I O R E) → Falls m (worker_step decode limits way k m)
  unfolding worker_step
  worker_step-Falls in_time k m = elim (Bool-cases (ltb (length m.results) limits.window)) [
    | inl room ↦ rw room (finished-Falls false k (pick k m.running) m refl)
    | inr full ↦ rw full tt
  ]
  worker_step-Falls too_late k m = elim (Bool-cases (ltb (length m.results) limits.window)) [
    | inl room ↦ rw room (finished-Falls true k (pick k m.running) m refl)
    | inr full ↦ rw full tt
  ]
  worker_step-Falls leaving k m = left-Falls k (pick k m.running) m refl

  step-Falls : (c : Choice E) (m : Mapper I O R E) → Falls m (step decode limits c m)
  unfolding step
  step-Falls go_on m = main_step-Falls limits go_on m
  step-Falls receive m = main_step-Falls limits receive m
  step-Falls read m = main_step-Falls limits read m
  step-Falls cancel m = main_step-Falls limits cancel m
  step-Falls (accept released) m = main_step-Falls limits (accept released) m
  step-Falls (finish way k) m = worker_step-Falls way k m

  -- The number of choices of a schedule that were possible where they were made.
  unfoldable pub moves : List (Choice E) → Outcome I O R E → ℕ
  moves [] o = 0
  moves (c ∷ cs) (returned e m) = 0
  moves (c ∷ cs) (going m) =
      moved (step decode limits c m) + moves cs (or_stay m (step decode limits c m))

  abbrev bound : Outcome I O R E → ℕ
  bound (going m) = suc (weight m)
  bound (returned e m) = 0

  moved-le :
      (m : Mapper I O R E) (o : Option (Outcome I O R E))
      → Falls m o
      → moved o + bound (or_stay m o) ≤ suc (weight m)
  moved-le m none h = omega arith
  moved-le m (some (returned e m')) h = omega arith
  moved-le m (some (going m')) h = omega arith

  moves-le : (cs : List (Choice E)) (o : Outcome I O R E) → moves cs o ≤ bound o
  unfolding moves
  moves-le [] o = omega arith
  moves-le (c ∷ cs) (returned e m) = omega arith
  moves-le (c ∷ cs) (going m) =
      let o = step decode limits c m in
      let later = moves-le cs (or_stay m o) in
      let now = moved-le m o (step-Falls c m) in omega arith

  start-bound :
      (source : List (Event I R)) → bound (start decode limits source) ≤ 5 * length source + 2
  unfolding start
  start-bound source = elim (Bool-cases (ltb limits.workers 1)) [
    | inl a ↦ rw a (omega arith)
    | inr a ↦ elim (Bool-cases (ltb limits.window limits.workers)) [
      | inl b ↦ rw (a, b) (omega arith)
      | inr b ↦ elim (Bool-cases (ltb limits.max_bytes 1)) [
        | inl c ↦ rw (a, b, c) (omega arith)
        | inr c ↦ rw (a, b, c) (omega arith)
      ]
    ]
  ]

  -- Whatever the workers and the selects choose, whenever the context is done, and however a schedule
  -- goes on: at most five choices for each event of the input, and two more, are ever possible in it.
  -- So there is no endless run.
  pub moves_start-le :
      (source : List (Event I R)) (cs : List (Choice E))
      → moves cs (start decode limits source) ≤ 5 * length source + 2
  moves_start-le source cs =
      let all = moves-le cs (start decode limits source) in
      let most = start-bound source in omega arith
