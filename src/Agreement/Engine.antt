-- ===== src/Agreement/Engine.antt =====
-- `Engine` of internal/agreement/agreement.go: one event from every source, in relay order.
-- A source is any state with a `Next` that delivers an event or fails; a failing `Next` of a
-- cancelled context is such a failure. `Src` and `next` stand for `Source`, which the relay sessions
-- implement.
pub mod Consensus
pub mod Failures
use clicksync.Base.{
  ℕ, suc, List, [], ◌∷◌, map, Result, ok, err, Option, none, some, length, replicate, ltb,
  if◌then◌else◌,
}
use clicksync.Model.{AgreedEvent}
use clicksync.Relay.{Event, zero_event}
use clicksync.Agreement.{Difference, compare}

pub data Failure (E : Type 0) : Type 0 where
  too_few_sources : Failure E
  source_error : ℕ → E → Failure E
  difference : Difference → Failure E
  -- `e.events[index]` or `events[0]` out of range.
  index_panic : Failure E

pub record Engine (Src : Type 0) : Type 0 where
  pub sources : List Src
  pub events : List Event

module _ {Src E : Type 0} where
  -- A nil source or context is not modelled: the callers pass neither.
  unfoldable pub new : List Src → Result (Failure E) (Engine Src)
  new sources =
      if ltb (length sources) 2
      then err too_few_sources
      else ok (record { sources = sources; events = replicate (length sources) zero_event })

module _ {Src E : Type 0} where
  -- One turn of the loop: what the source returned, and what the later turns make of the rest.
  unfoldable pub place :
      ℕ
      → Result E Event
      → Src
      → List Src
      → Result (Failure E) (List Event) × List Src
      → Result (Failure E) (List Event) × List Src
  place index (err cause) s ss later = (err (source_error index cause), s ∷ ss)
  place index (ok event) s ss (ok events, sources) = (ok (event ∷ events), s ∷ sources)
  place index (ok event) s ss (err e, sources) = (err e, s ∷ sources)

module _ {E : Type 0} where
  unfoldable pub judge : Result (Failure E) (List Event) → Result (Failure E) AgreedEvent
  judge (err e) = err e
  judge (ok []) = err index_panic
  judge (ok (first ∷ rest)) = elim (compare first rest) [
    | ok agreed ↦ ok agreed
    | err d ↦ err (difference d)
  ]

module _ {Src E : Type 0} (next : Src → Result E Event × Src) where
  -- The loop over the sources from `index` on, with the places of `e.events` from there on.
  unfoldable pub collect : ℕ → List Src → List Event → Result (Failure E) (List Event) × List Src
  unfolding place
  collect index [] slots = (ok slots, [])
  collect index (s ∷ ss) [] = (err index_panic, s ∷ ss)
  collect index (s ∷ ss) (slot ∷ slots) =
      let later = collect (suc index) ss slots in place index (next s).0 (next s).1 ss later

  -- `clear` sets every place to the zero event, whatever came of the call.
  unfoldable pub engine_next : Engine Src → Result (Failure E) AgreedEvent × Engine Src
  unfolding collect judge compare
  engine_next e =
      let (got, sources) = collect 0 e.sources e.events in
      (judge got, record { sources = sources; events = map (λ _. zero_event) e.events })

  -- Calls of `Next` until `n` events were agreed; the first failure ends the attempt.
  unfoldable pub run : ℕ → Engine Src → Result (Failure E) (List AgreedEvent)
  unfolding engine_next
  run ℕ.zero e = ok []
  run (suc n) e =
      let (got, e') = engine_next e in
      let later = run n e' in
      elim got [
        | err f ↦ err f
        | ok agreed ↦ elim later [ ok rest ↦ ok (agreed ∷ rest) | err f ↦ err f ]
      ]
