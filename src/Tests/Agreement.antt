-- ===== src/Tests/Agreement.antt =====
-- internal/agreement at concrete relays and events.
use clicksync.Base.{
  List, [], ◌∷◌, ◌≡◌, ◌↔◌, ◌⊎◌, refl, Result, ok, err, length, All, replicate, arith, false,
  ℕ_discrete, Bytes-dec, map,
}
use clicksync.Model.{Point, AgreedEvent, Point-dec, Hash32}
use clicksync.Relay.{Event, zero_event, forward, rollback}
use clicksync.Agreement.{
  Difference, agreed_forward, agreed_rollback, compare, new_difference, digest,
}
use clicksync.Agreement.Unanimity.{Agreed, compare_iff}
use clicksync.Agreement.Differences.{
  Differs, Describes, compare-Differs, compare_difference-Describes,
}
use clicksync.Agreement.Engine.{Engine, Failure, source_error, difference, engine_next, run}
use clicksync.Agreement.Engine.Consensus.{Delivers, IsReady, Witnessed, engine_next-ok, consensus}
use clicksync.Agreement.Engine.Failures.{FailsWith, engine_next-err}

abbrev some_hash : Hash32
some_hash = replicate 32 7

abbrev some_point : Point
some_point = record {
  origin = false;
  slot = 100;
  hash = some_hash;
  block_number = 9;
  is_byron_ebb = false;
}

-- The event of the relay that retains the raw bytes, and of one that does not.
abbrev retained : Event
retained = record zero_event {
  kind = forward;
  point = some_point;
  block_type = 6;
  raw_length = 2;
  digest = some_hash;
  raw_cbor = 1 ∷ 2 ∷ [];
  observed_at = 5;
}

abbrev confirming : Event
confirming = record retained { raw_cbor = []; observed_at = 8 }

abbrev rolling : Event
rolling = record zero_event { kind = rollback; point = some_point; observed_at = 9 }

abbrev dissenting : Event
dissenting = record confirming { digest = replicate 32 8 }

compare-forward_run :
    compare retained (confirming ∷ []) ≡ ok (agreed_forward retained (confirming ∷ []))
unfolding compare ℕ_discrete Bytes-dec Point-dec
compare-forward_run = refl

compare_iff_example :
    (compare retained (confirming ∷ []) ≡ ok (agreed_forward retained (confirming ∷ [])))
    ↔ Agreed retained (confirming ∷ []) (agreed_forward retained (confirming ∷ []))
compare_iff_example =
    compare_iff retained (confirming ∷ []) (agreed_forward retained (confirming ∷ []))

abbrev split : Difference
split = new_difference digest (retained ∷ dissenting ∷ [])

compare-dissent_run : compare retained (dissenting ∷ []) ≡ err split
unfolding compare ℕ_discrete Bytes-dec Point-dec
compare-dissent_run = refl

compare-Differs_example : Differs split.field retained (dissenting ∷ [])
compare-Differs_example = compare-Differs retained (dissenting ∷ []) split compare-dissent_run

compare_difference-Describes_example : Describes (retained ∷ dissenting ∷ []) split
compare_difference-Describes_example =
    compare_difference-Describes retained (dissenting ∷ []) split compare-dissent_run

-- A source that replays a list, and fails at its end.
pull : List Event → Result (Unit {0}) Event × List Event
pull [] = (err tt, [])
pull (event ∷ events) = (ok event, events)

abbrev two_relays : Engine (List Event)
two_relays = record {
  sources = (retained ∷ rolling ∷ []) ∷ (confirming ∷ rolling ∷ []) ∷ [];
  events = replicate 2 zero_event;
}

abbrev both_agreed : List AgreedEvent
both_agreed =
    agreed_forward retained (confirming ∷ []) ∷ agreed_rollback rolling (rolling ∷ []) ∷ []

run_runs : run pull 2 two_relays ≡ ok both_agreed
unfolding run pull ℕ_discrete Bytes-dec Point-dec
run_runs = refl

consensus_example : (length both_agreed ≡ 2) × All (Witnessed pull 2 both_agreed) two_relays.sources
consensus_example = consensus pull 2 two_relays both_agreed (refl, omega arith) run_runs

first_next : (engine_next pull two_relays).0 ≡ ok (agreed_forward retained (confirming ∷ []))
unfolding engine_next pull ℕ_discrete Bytes-dec Point-dec
first_next = refl

engine_next-ok_example :
    ((first : Event) × (rest : List Event) × Delivers pull two_relays.sources
        (first ∷ rest)
        (engine_next pull two_relays).1.sources
      × Agreed first rest (agreed_forward retained (confirming ∷ [])))
    × IsReady pull (engine_next pull two_relays).1
    × ((engine_next pull two_relays).1.events ≡ map (λ _. zero_event) two_relays.events)
engine_next-ok_example =
    engine_next-ok pull two_relays (agreed_forward retained (confirming ∷ [])) (refl, omega arith)
      first_next

-- The second relay has nothing left.
abbrev one_dry : Engine (List Event)
one_dry = record two_relays { sources = (retained ∷ []) ∷ [] ∷ [] }

abbrev dry_failure : Failure (Unit {0})
dry_failure = source_error 1 tt

dry_next : (engine_next pull one_dry).0 ≡ err dry_failure
unfolding engine_next pull ℕ_discrete Bytes-dec Point-dec
dry_next = refl

engine_next-err_example :
    FailsWith pull 0 dry_failure one_dry.sources (engine_next pull one_dry).1.sources
    ⊎ ((first : Event) × (rest : List Event) × (d : Difference) × (dry_failure ≡ difference d)
        × Delivers pull one_dry.sources (first ∷ rest) (engine_next pull one_dry).1.sources
        × Differs d.field first rest)
engine_next-err_example = engine_next-err pull one_dry dry_failure (refl, omega arith) dry_next
