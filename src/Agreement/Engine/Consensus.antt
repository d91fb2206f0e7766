-- ===== src/Agreement/Engine/Consensus.antt =====
-- What the engine of internal/agreement/agreement.go guarantees of its sources' events.
use mathlib.Core.Path.{subst₂}
use mathlib.Core.Option
use clicksync.Base.{
  length-map, ℕ, zero, suc, List, [], ◌∷◌, map, Result, ok, err, Option, none, some, length, All,
  ◌≡◌, refl, ap, sym, inl, inr, arith, ◌∙◌, subst, ◌≤◌,
}
use clicksync.Model.{AgreedEvent, event_forward}
use clicksync.Relay.{Event, zero_event, forward, rollback}
use clicksync.Agreement.{agreed_forward, agreed_rollback}
use clicksync.Agreement.Emission.{EmitsForward-iff, EmitsRollback-iff}
use clicksync.Agreement.Unanimity.{Agreed, SameForward, SameRollback, compare_iff}
use clicksync.Agreement.Engine.{Failure, Engine, place, collect, judge, engine_next, run}

-- An event that an agreed event speaks for.
pub record Follows (event : Event) (agreed : AgreedEvent) : Type 0 where
  pub kind : event.kind ≡ agreed.kind
  pub point : event.point ≡ agreed.point
  pub block_type : agreed.kind ≡ event_forward → event.block_type ≡ agreed.block_type
  pub raw_length : agreed.kind ≡ event_forward → event.raw_length ≡ agreed.raw_length
  pub digest : agreed.kind ≡ event_forward → event.digest ≡ agreed.content_hash

forward-Follows :
    (first : Event) (rest events : List Event)
    → first.kind ≡ forward
    → All (SameForward first) events
    → All (λ event. Follows event (agreed_forward first rest)) events
unfolding agreed_forward
forward-Follows first rest [] k s = tt
forward-Follows first rest (x ∷ xs) k s = (ground arith, forward-Follows first rest xs k s.1)

rollback-Follows :
    (first : Event) (rest events : List Event)
    → first.kind ≡ rollback
    → All (SameRollback first) events
    → All (λ event. Follows event (agreed_rollback first rest)) events
unfolding agreed_rollback
rollback-Follows first rest [] k s = tt
rollback-Follows first rest (x ∷ xs) k s = (ground arith, rollback-Follows first rest xs k s.1)

Agreed-Follows :
    (first : Event) (rest : List Event) (agreed : AgreedEvent)
    → Agreed first rest agreed
    → All (λ event. Follows event agreed) (first ∷ rest)
unfolding agreed_forward agreed_rollback
Agreed-Follows first rest agreed (inl (s, e)) =
    subst (λ a. All (λ event. Follows event a) (first ∷ rest))
      (sym ((EmitsForward-iff first rest agreed).0 e))
      (ground arith, forward-Follows first rest rest s.kind s.same)
Agreed-Follows first rest agreed (inr (s, e)) =
    subst (λ a. All (λ event. Follows event a) (first ∷ rest))
      (sym ((EmitsRollback-iff first rest agreed).0 e))
      (ground arith, rollback-Follows first rest rest s.kind s.same)

module _ {Src E : Type 0} where
  place-ok :
      (index : ℕ) (got : Result E Event) (s : Src) (ss : List Src)
      (later : Result (Failure E) (List Event) × List Src) (events : List Event)
      → (place index got s ss later).0 ≡ ok events
      → (event : Event) × (rest : List Event) × (got ≡ ok event)
        × (later.0 ≡ ok rest)
        × (events ≡ event ∷ rest)
        × ((place index got s ss later).1 ≡ s ∷ later.1)
  unfolding place
  place-ok index (err cause) s ss later events h = cc
  place-ok index (ok event) s ss (ok rest, sources) events h =
      (event, rest, refl, refl, ground arith, refl)
  place-ok index (ok event) s ss (err e, sources) events h = cc

module _ {Src E : Type 0} (next : Src → Result E Event × Src) where
  -- Each source delivered the event in its place, once.
  abbrev pub Delivers : List Src → List Event → List Src → Type 0
  Delivers [] [] [] = Unit
  Delivers (s ∷ ss) (e ∷ es) (s' ∷ ss') = (next s ≡ (ok e, s')) × Delivers ss es ss'
  Delivers _ _ _ = ⊥

  pub collect-Delivers :
      (index : ℕ) (ss : List Src) (slots events : List Event)
      → length ss ≡ length slots
      → (collect next index ss slots).0 ≡ ok events
      → Delivers ss events (collect next index ss slots).1
  unfolding collect
  collect-Delivers index [] [] [] n h = tt
  collect-Delivers index [] [] (x ∷ xs) n h = cc
  collect-Delivers index [] (slot ∷ slots) events n h = absurd (omega arith)
  collect-Delivers index (s ∷ ss) [] events n h = absurd (omega arith)
  collect-Delivers index (s ∷ ss) (slot ∷ slots) events n h =
      let later = collect next (suc index) ss slots in
      let (event, rest, got, others, e, left) =
        place-ok index (next s).0 (next s).1 ss later events h in
      subst₂ (Delivers (s ∷ ss)) (sym e) (sym left)
        (ground arith, collect-Delivers (suc index) ss slots rest (omega arith) others)

  -- The engine is fit for a call of `Next`: a place for each source, and at least two of them.
  abbrev pub IsReady : Engine Src → Type 0
  IsReady e = (length e.sources ≡ length e.events) × (2 ≤ length e.sources)

  pub Delivers-length :
      (ss : List Src) (es : List Event) (ss' : List Src)
      → Delivers ss es ss'
      → (length ss' ≡ length ss) × (length es ≡ length ss)
  Delivers-length [] [] [] d = (refl, refl)
  Delivers-length [] [] (s' ∷ ss') d = absurd d
  Delivers-length [] (e ∷ es) ss' d = absurd d
  Delivers-length (s ∷ ss) [] ss' d = absurd d
  Delivers-length (s ∷ ss) (e ∷ es) [] d = absurd d
  Delivers-length (s ∷ ss) (e ∷ es) (s' ∷ ss') d =
      let ih = Delivers-length ss es ss' d.1 in (ap suc ih.0, ap suc ih.1)

  judge-ok :
      (got : Result (Failure E) (List Event)) (agreed : AgreedEvent)
      → judge got ≡ ok agreed
      → (first : Event) × (rest : List Event) × (got ≡ ok (first ∷ rest)) × Agreed first rest agreed
  unfolding judge
  judge-ok (err f) agreed h = cc
  judge-ok (ok []) agreed h = cc
  judge-ok (ok (first ∷ rest)) agreed h =
      (first, rest, refl, (compare_iff first rest agreed).0 (ground arith))

  -- A successful `Next` took exactly one event from every source, in order; those events agree on the
  -- event returned; and the engine is ready for the next call, with no event left in its buffer.
  pub engine_next-ok :
      (e : Engine Src) (agreed : AgreedEvent)
      → IsReady e
      → (engine_next next e).0 ≡ ok agreed
      → let e' = (engine_next next e).1 in
        ((first : Event) × (rest : List Event) × Delivers e.sources (first ∷ rest) e'.sources
          × Agreed first rest agreed)
        × IsReady e'
        × (e'.events ≡ map (λ _. zero_event) e.events)
  unfolding engine_next
  engine_next-ok e agreed ready h =
      let (first, rest, got, agree) = judge-ok (collect next 0 e.sources e.events).0 agreed h in
      let delivered = collect-Delivers 0 e.sources e.events (first ∷ rest) ready.0 got in
      let size = (Delivers-length e.sources (first ∷ rest) _ delivered).0 in
      (
        (first, rest, delivered, agree),
        (
          size ∙ ready.0 ∙ sym (length-map (λ (_ : Event). zero_event) e.events),
          subst (λ n. 2 ≤ n) (sym size) ready.1,
        ),
        refl,
      )

  -- The first `n` events of a source, if it delivers as many.
  unfoldable pub history : ℕ → Src → Option (List Event)
  history zero s = some []
  history (suc n) s =
      let later = history n (next s).1 in
      elim (next s).0 [ err _ ↦ none | ok event ↦ Option.map (◌∷◌ event) later ]

  -- The events of a source, one for each agreed event.
  abbrev pub Match : List Event → List AgreedEvent → Type 0
  Match [] [] = Unit
  Match (event ∷ events) (agreed ∷ rest) = Follows event agreed × Match events rest
  Match _ _ = ⊥

  abbrev pub Witnessed : ℕ → List AgreedEvent → Src → Type 0
  Witnessed n agreed s = (es : List Event) × (history n s ≡ some es) × Match es agreed

  Witnessed-zero : (ss : List Src) → All (Witnessed 0 []) ss
  unfolding history
  Witnessed-zero [] = tt
  Witnessed-zero (s ∷ ss) = (([], refl, tt), Witnessed-zero ss)

  Witnessed-suc :
      (n : ℕ) (agreed : AgreedEvent) (rest : List AgreedEvent) (ss : List Src) (es : List Event)
      (ss' : List Src)
      → Delivers ss es ss'
      → All (λ event. Follows event agreed) es
      → All (Witnessed n rest) ss'
      → All (Witnessed (suc n) (agreed ∷ rest)) ss
  unfolding history
  Witnessed-suc n agreed rest [] es ss' d f w = tt
  Witnessed-suc n agreed rest (s ∷ ss) [] ss' d f w = absurd d
  Witnessed-suc n agreed rest (s ∷ ss) (e ∷ es) [] d f w = absurd d
  Witnessed-suc n agreed rest (s ∷ ss) (e ∷ es) (s' ∷ ss') d f w =
      let (events, past, matched) = w.0 in
      (
        (e ∷ events, ground (arith, past), (f.0, matched)),
        Witnessed-suc n agreed rest ss es ss' d.1 f.1 w.1,
      )

  run-ok :
      (n : ℕ) (e : Engine Src) (agreed : List AgreedEvent)
      → run next (suc n) e ≡ ok agreed
      → (a : AgreedEvent) × (rest : List AgreedEvent) × ((engine_next next e).0 ≡ ok a)
        × (run next n (engine_next next e).1 ≡ ok rest)
        × (agreed ≡ a ∷ rest)
  unfolding run
  run-ok n e agreed h = ground arith

  -- However many events the engine agrees on, every relay delivered that very sequence: as many
  -- events, in the same order, each of the agreed kind and point, and for a roll-forward of the agreed
  -- block type, raw length and digest.
  pub consensus :
      (n : ℕ) (e : Engine Src) (agreed : List AgreedEvent)
      → IsReady e
      → run next n e ≡ ok agreed
      → (length agreed ≡ n) × All (Witnessed n agreed) e.sources
  unfolding run
  consensus zero e [] ready h = (refl, Witnessed-zero e.sources)
  consensus zero e (a ∷ rest) ready h = cc
  consensus (suc n) e agreed ready h =
      let (a, rest, now, later, split) = run-ok n e agreed h in
      let ((first, others, delivered, agree), ready', _) = engine_next-ok e a ready now in
      let (size, seen) = consensus n (engine_next next e).1 rest ready' later in
      subst (λ l. (length l ≡ suc n) × All (Witnessed (suc n) l) e.sources) (sym split)
        (
          ap suc size,
          Witnessed-suc n a rest e.sources (first ∷ others) (engine_next next e).1.sources delivered
              (Agreed-Follows first others a agree) seen,
        )
