-- ===== src/Pipeline/Ordered/Invariant.antt =====
-- The invariant of `OrderedMapper.Run` of internal/pipeline/ordered.go, and that sends, results and
-- assignments keep it.
use clicksync.Base.{
  ℕ, suc, ◌+◌, ◌≤◌, ◌<◌, List, [], ◌∷◌, ◌++◌, Bool, true, false, ◌||◌, nat_eq, Option, none, some,
  Result, ok, length, length-append, drop, get_elem?, All, All-append, ◌≡◌, refl, arith, Bool-cases,
  Result-cases, ap, sym, ◌∙◌, subst, inl, inr, ltb,
}
use clicksync.Base.Words.{add64, u64_mod}
use clicksync.Pipeline.Ordered.{
  Event, Value, Item, Job, Decoded, Limits, Mapper, Outcome, going, returned,
}
use clicksync.Pipeline.Ordered.Steps.{
  sent, collected, received, next_result, accepted, assign_rollback, decoded,
}
use clicksync.Pipeline.Ordered.Placement.{
  Gives, IsSteady, InOrder, InOrder-append, drop-next, delete-All, put-All,
}

module _ {I O R E : Type 0} (decode : Bool → I → Result E O) (limits : Limits)
    (source : List (Event I R)) where
  -- What is in flight belongs to the event of its number.
  abbrev pub Runs : Job I → Type 0
  Runs j = (e : Event I R) × (get_elem? source j.sequence ≡ some e) × (e.forward ≡ some j.value)

  abbrev pub Decodes : Decoded O E → Type 0
  Decodes r =
      (late : Bool) × (e : Event I R) × (i : I) × (get_elem? source r.sequence ≡ some e)
      × (e.forward ≡ some i)
      × (decode late i ≡ r.outcome)

  abbrev pub IsReady : Item O R → Type 0
  IsReady i = (e : Event I R) × (get_elem? source i.sequence ≡ some e) × Gives decode e i.value

  pub record Flight (running : List (Job I)) (results : List (Decoded O E))
      (pending : List (Item O R)) : Type 0 where
    pub runs : All Runs running
    pub decodes : All Decodes results
    pub readies : All IsReady pending

  pub record Sent (output : List (ℕ × Value O R)) (next_emit : ℕ) : Type 0 where
    pub in_order : InOrder decode 0 source output
    pub all_sent : length output ≡ next_emit

  abbrev pub waiting : Option (Event I R) → List (Event I R) → List (Event I R)
  waiting none input = input
  waiting (some e) input = e ∷ input

  -- What was not assigned yet is held or still to come.
  pub record Rest (next_assign : ℕ) (held : Option (Event I R)) (input : List (Event I R))
      (input_open : Bool) : Type 0 where
    pub left : drop next_assign source ≡ waiting held input
    pub assigned : next_assign ≤ length source
    pub closed : input_open ≡ false → input ≡ []

  pub record Counts (outstanding next_emit next_assign outstanding_bytes : ℕ) : Type 0 where
    pub numbers : outstanding + next_emit ≡ next_assign
    pub in_window : outstanding ≤ limits.window
    pub in_bound : outstanding_bytes ≤ limits.max_bytes

  pub record IsValid (m : Mapper I O R E) : Type 0 where
    pub flight : Flight m.running m.results m.pending
    pub sent : Sent m.output m.next_emit
    pub rest : Rest m.next_assign m.held m.input m.input_open
    pub counts : Counts m.outstanding m.next_emit m.next_assign m.outstanding_bytes

  -- A run that goes on is valid; one that returned sent its results in order, and if it returned nil,
  -- it sent them all.
  abbrev pub Good : Outcome I O R E → Type 0
  Good (going m) = IsValid m
  Good (returned none m) = InOrder decode 0 source m.output × (length m.output ≡ length source)
  Good (returned (some e) m) = InOrder decode 0 source m.output

  abbrev pub GoodStep : Option (Outcome I O R E) → Type 0
  GoodStep none = Unit
  GoodStep (some o) = Good o

  right_in_time :
      (late : Bool) (i : I) (o : O) → IsSteady decode → decode late i ≡ ok o → decode false i ≡ ok o
  right_in_time true i o steady h = steady i o h
  right_in_time false i o steady h = h

  module _ (small : length source < u64_mod) where
    next-add64 : (n : ℕ) → n < length source → add64 n 1 ≡ suc n
    next-add64 n h = omega arith

    sent-InOrder :
        (item : Item O R) (m : Mapper I O R E)
        → IsValid m
        → item.sequence ≡ m.next_emit
        → IsReady item
        → InOrder decode 0 source (m.output ++ ((item.sequence, item.value) ∷ []))
    sent-InOrder item m v n (e, at, gives) =
        let place : length m.output ≡ item.sequence = v.sent.all_sent ∙ sym n in
        let zero_up : 0 + length m.output ≡ item.sequence = omega arith in
        subst (λ k. InOrder decode 0 source (m.output ++ ((k, item.value) ∷ []))) zero_up
          (InOrder-append decode 0 source m.output e item.value v.sent.in_order
            (ap (get_elem? source) place ∙ at) gives)

    pub sent-Good :
        (item : Item O R) (m : Mapper I O R E)
        → IsValid m
        → item.sequence ≡ m.next_emit
        → IsReady item
        → Good (sent item m)
    unfolding sent
    sent-Good item m v n r =
        let order = sent-InOrder item m v n r in
        elim (Bool-cases (ltb m.outstanding 1 || ltb m.outstanding_bytes item.bytes)) [
          | inl under ↦ rw under order
          | inr enough ↦
              let some_left : 1 ≤ m.outstanding = ground arith in
              let numbers = v.counts.numbers in
              let assigned = v.rest.assigned in
              let next : add64 m.next_emit 1 ≡ suc m.next_emit =
                next-add64 m.next_emit (omega arith) in
              rw enough (record {
                flight = record {
                  runs = v.flight.runs;
                  decodes = v.flight.decodes;
                  readies = delete-All IsReady m.next_emit m.pending v.flight.readies;
                };
                sent = record {
                  in_order = order;
                  all_sent =
                      length-append m.output ((item.sequence, item.value) ∷ [])
                      ∙ (ap (λ k. k + 1) v.sent.all_sent ∙ omega arith);
                };
                rest = v.rest;
                counts = record {
                  numbers = omega arith;
                  in_window = let w = v.counts.in_window in omega arith;
                  in_bound = let b = v.counts.in_bound in omega arith;
                };
              })
        ]

    pub collected-Good :
        (r : Decoded O E) (m : Mapper I O R E)
        → IsSteady decode
        → IsValid m
        → Decodes r
        → Good (collected r m)
    unfolding collected
    collected-Good r m steady v (late, e, i, at, f, d) = elim (Result-cases r.outcome) [
      | inr (cause, failed) ↦ rw failed v.sent.in_order
      | inl (value, right) ↦ rw right (record {
        flight = record {
          runs = v.flight.runs;
          decodes = v.flight.decodes;
          readies =
              put-All IsReady _ m.pending
                (e, at, (i, f, right_in_time late i value steady (d ∙ right))) v.flight.readies;
        };
        sent = v.sent;
        rest = v.rest;
        counts = v.counts;
      })
    ]

    next_result-Good :
        (rs : List (Decoded O E)) (m : Mapper I O R E)
        → IsSteady decode
        → IsValid m
        → All Decodes rs
        → GoodStep (next_result rs m)
    unfolding next_result
    next_result-Good [] m steady v ds = tt
    next_result-Good (r ∷ rs) m steady v (d, ds) =
        collected-Good r (record m { results = rs }) steady
          (record {
            flight = record { runs = v.flight.runs; decodes = ds; readies = v.flight.readies };
            sent = v.sent;
            rest = v.rest;
            counts = v.counts;
          })
          d

    pub received-Good : (m : Mapper I O R E) → IsSteady decode → IsValid m → GoodStep (received m)
    unfolding received
    received-Good m steady v = next_result-Good m.results m steady v v.flight.decodes

    -- What the held event gives way to.
    after_held :
        (m : Mapper I O R E) (e : Event I R)
        → IsValid m
        → m.held ≡ some e
        → (get_elem? source m.next_assign ≡ some e)
          × (m.next_assign < length source)
          × Rest (add64 m.next_assign 1) none m.input m.input_open
    after_held m e v h =
        let left : drop m.next_assign source ≡ e ∷ m.input =
          v.rest.left ∙ ap (λ k. waiting k m.input) h in
        let (here, after, inside) = drop-next m.next_assign source left in
        let next = next-add64 m.next_assign inside in
        (
          here,
          inside,
          record {
            left = ap (λ k. drop k source) next ∙ after;
            assigned = omega arith;
            closed = v.rest.closed;
          },
        )

    pub accepted-Good :
        (released : Option E) (e : Event I R) (value : I) (bytes : ℕ) (m : Mapper I O R E)
        → IsValid m
        → m.held ≡ some e
        → e.forward ≡ some value
        → m.outstanding < limits.window
        → bytes + m.outstanding_bytes ≤ limits.max_bytes
        → Good (accepted released value bytes m)
    unfolding accepted
    accepted-Good (some cause) e value bytes m v h f w b = v.sent.in_order
    accepted-Good none e value bytes m v h f w b =
        let (here, inside, rest) = after_held m e v h in
        let next = next-add64 m.next_assign inside in
        let numbers = v.counts.numbers in
        record {
          flight = record {
            runs = All-append Runs m.running _ v.flight.runs ((e, here, f), tt);
            decodes = v.flight.decodes;
            readies = v.flight.readies;
          };
          sent = v.sent;
          rest = rest;
          counts = record {
            numbers = omega arith;
            in_window = omega arith;
            in_bound = omega arith;
          };
        }

    pub assign_rollback-Good :
        (e : Event I R) (r : R) (m : Mapper I O R E)
        → IsValid m
        → m.held ≡ some e
        → e.forward ≡ none
        → e.rollback ≡ some r
        → m.outstanding < limits.window
        → Good (assign_rollback {E = E} r m)
    unfolding assign_rollback
    assign_rollback-Good e r m v h f k w =
        let (here, inside, rest) = after_held m e v h in
        let next = next-add64 m.next_assign inside in
        let numbers = v.counts.numbers in
        record {
          flight = record {
            runs = v.flight.runs;
            decodes = v.flight.decodes;
            readies = put-All IsReady _ m.pending (e, here, (f, k)) v.flight.readies;
          };
          sent = v.sent;
          rest = rest;
          counts = record {
            numbers = omega arith;
            in_window = omega arith;
            in_bound = v.counts.in_bound;
          };
        }

    pub decoded-Good :
        (late : Bool) (job : Job I) (rest : List (Job I)) (m : Mapper I O R E)
        → IsValid m
        → Runs job
        → All Runs rest
        → IsValid (decoded (decode late job.value) job.sequence job.bytes rest m)
    unfolding decoded
    decoded-Good late job rest m v (e, at, f) rs = record {
      flight = record {
        runs = rs;
        decodes =
            All-append Decodes m.results _ v.flight.decodes ((late, e, job.value, at, f, refl), tt);
        readies = v.flight.readies;
      };
      sent = v.sent;
      rest = v.rest;
      counts = v.counts;
    }
