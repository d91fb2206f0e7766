-- ===== src/Agreement/Engine/Failures.antt =====
-- How a call of `Next` of internal/agreement/agreement.go fails, and that it has no other outcome.
use clicksync.Base.{
  length-replicate, Result-cases, ℕ, suc, ◌+◌, ◌≤◌, List, [], ◌∷◌, ◌++◌, Result, ok, err, length,
  ◌≡◌, refl, ap, ◌∙◌, ◌⊎◌, inl, inr, arith,
}
use clicksync.Relay.{Event, zero_event}
use clicksync.Agreement.{Difference, compare}
use clicksync.Agreement.Differences.{Differs, compare-Differs}
use clicksync.Agreement.Engine.{
  Failure, source_error, difference, index_panic, Engine, new, place, collect, judge, engine_next,
}
use clicksync.Agreement.Engine.Consensus.{Delivers, IsReady, collect-Delivers, Delivers-length}

module _ {Src E : Type 0} where
  -- `New` refuses fewer than two sources, and makes an engine that is ready for `Next` of all others.
  pub new-IsReady :
      (sources : List Src) (e : Engine Src)
      → new {E = E} sources ≡ ok e
      → (2 ≤ length sources) × (e.sources ≡ sources) × (length e.sources ≡ length e.events)
  unfolding new
  new-IsReady sources e h = ground (arith, length-replicate (length sources) zero_event)

  place-err :
      (index : ℕ) (got : Result E Event) (s : Src) (ss : List Src)
      (later : Result (Failure E) (List Event) × List Src) (f : Failure E)
      → (place index got s ss later).0 ≡ err f
      → ((cause : E) × (got ≡ err cause)
          × (f ≡ source_error index cause)
          × ((place index got s ss later).1 ≡ s ∷ ss))
        ⊎ ((event : Event) × (got ≡ ok event)
            × (later.0 ≡ err f)
            × ((place index got s ss later).1 ≡ s ∷ later.1))
  unfolding place
  place-err index (err cause) s ss later f h = inl (cause, refl, ground arith, refl)
  place-err index (ok event) s ss (ok rest, sources) f h = cc
  place-err index (ok event) s ss (err e, sources) f h = inr (event, refl, ground arith, refl)

module _ {Src E : Type 0} (next : Src → Result E Event × Src) where
  -- Of the sources from `index` on, those before the failing one were asked once, in order, and those
  -- after it were not.
  pub record FailedAt (index i : ℕ) (cause : E) (ss ss' : List Src) : Type 0 where
    pub before : List Src
    pub failing : Src
    pub after : List Src
    pub events : List Event
    pub before' : List Src
    pub failing' : Src
    pub split : ss ≡ before ++ (failing ∷ after)
    pub position : index + length before ≡ i
    pub delivered : Delivers next before events before'
    pub failure : next failing ≡ (err cause, failing')
    pub left : ss' ≡ before' ++ (failing' ∷ after)

  abbrev pub FailsWith : ℕ → Failure E → List Src → List Src → Type 0
  FailsWith index f ss ss' =
      (i : ℕ) × (cause : E) × (f ≡ source_error i cause) × FailedAt index i cause ss ss'

  collect-fails :
      (index : ℕ) (ss : List Src) (slots : List Event) (f : Failure E)
      → length ss ≡ length slots
      → (collect next index ss slots).0 ≡ err f
      → FailsWith index f ss (collect next index ss slots).1
  unfolding collect
  collect-fails index [] slots f n h = cc
  collect-fails index (s ∷ ss) [] f n h = absurd (omega arith)
  collect-fails index (s ∷ ss) (slot ∷ slots) f n h =
      let later = collect next (suc index) ss slots in
      elim (place-err index (next s).0 (next s).1 ss later f h) [
        | inl (cause, got, e, left) ↦ (
          index,
          cause,
          e,
          record {
            before = [];
            failing = s;
            after = ss;
            events = [];
            before' = [];
            failing' = (next s).1;
            split = refl;
            position = omega arith;
            delivered = tt;
            failure = ground arith;
            left = left;
          },
        )
        | inr (event, got, failed, left) ↦
            let (i, cause, e, at) = collect-fails (suc index) ss slots f (omega arith) failed in
            (
              i,
              cause,
              e,
              record {
                before = s ∷ at.before;
                failing = at.failing;
                after = at.after;
                events = event ∷ at.events;
                before' = (next s).1 ∷ at.before';
                failing' = at.failing';
                split = ap (◌∷◌ s) at.split;
                position = omega (arith, at.position);
                delivered = (ground arith, at.delivered);
                failure = at.failure;
                left = left ∙ ap (◌∷◌ (next s).1) at.left;
              },
            )
      ]

  judge-err :
      (got : Result (Failure E) (List Event)) (f : Failure E)
      → judge got ≡ err f
      → (got ≡ err f)
        ⊎ ((got ≡ ok []) × (f ≡ index_panic))
        ⊎ ((first : Event) × (rest : List Event) × (d : Difference) × (got ≡ ok (first ∷ rest))
            × (f ≡ difference d)
            × Differs d.field first rest)
  unfolding judge
  judge-err (err g) f h = inl (ground arith)
  judge-err (ok []) f h = inr (inl (refl, ground arith))
  judge-err (ok (first ∷ rest)) f h = elim (Result-cases (compare first rest)) [
    | inl (a, e) ↦ cc
    | inr (d, e) ↦ inr (inr (first, rest, d, refl, ground arith, compare-Differs first rest d e))
  ]

  -- A `Next` that fails either stopped at the first source that failed, naming its index and its
  -- error, with no later source asked; or every source delivered one event, and they differ in the
  -- field that is reported. It never indexes out of range.
  pub engine_next-err :
      (e : Engine Src) (f : Failure E)
      → IsReady next e
      → (engine_next next e).0 ≡ err f
      → let e' = (engine_next next e).1 in
        FailsWith 0 f e.sources e'.sources
        ⊎ ((first : Event) × (rest : List Event) × (d : Difference) × (f ≡ difference d)
            × Delivers next e.sources (first ∷ rest) e'.sources
            × Differs d.field first rest)
  unfolding engine_next
  engine_next-err e f ready h = elim (judge-err (collect next 0 e.sources e.events).0 f h) [
    | inl failed ↦ inl (collect-fails 0 e.sources e.events f ready.0 failed)
    | inr (inl (got, _)) ↦ absurd (
        omega (
          arith,
          ready.1,
          (Delivers-length next e.sources [] _
              (collect-Delivers next 0 e.sources e.events [] ready.0 got)).1,
        ))
    | inr (inr (first, rest, d, got, e', differs)) ↦ inr (
      first,
      rest,
      d,
      e',
      collect-Delivers next 0 e.sources e.events (first ∷ rest) ready.0 got,
      differs,
    )
  ]
