-- ===== src/Tests/Pipeline.antt =====
-- internal/pipeline at a concrete input and schedule.
use clicksync.Base.{
  ℕ, ◌+◌, ◌*◌, ◌≤◌, ◌++◌, List, [], ◌∷◌, ◌≡◌, refl, ℕ_discrete, Bool-dec, some, none, Result, ok,
  err, Bool, true, false, if◌then◌else◌, Option, length,
}
use clicksync.Base.Int.{pos}
use clicksync.Pipeline.Ordered.{
  Event, Value, forward, rollback, Limits, Outcome, going, returned, Error, Choice, go_on, receive,
  read, accept, finish, in_time, find, delete, put, pick,
}
use clicksync.Pipeline.Ordered.Steps.{
  start, run, step, worker_step, finished, main_step, turn, looping, body, with_held, assign_value,
  assign_forward, wait, select, can_read, decoded, assign_rollback, arrived, next_event, checked,
  offer, accepted, received, next_result, collected, emit, sent, without_choice,
}
use clicksync.Model.Facts.{Block}
use clicksync.Syncer.Decode.{decode_agreed_block}
use clicksync.Pipeline.Ordered.Placement.{IsSteady}
use clicksync.Pipeline.Ordered.Termination.{moves, moves_start-le}

-- A decoder that fails if its context is done.
abbrev shifted : Bool → ℕ → Result ℕ ℕ
shifted true n = err n
shifted false n = ok (n + 100)

-- And so does the decoder of the program, whatever the cause and the normaliser.
decode_agreed_block-IsSteady :
    {E : Type 0} (normalize : ℕ → List ℕ → Result E Block) (cause : E)
    → IsSteady
        (λ done event. decode_agreed_block normalize (if done then some cause else none) event)
unfolding decode_agreed_block
decode_agreed_block-IsSteady normalize cause event block h = cc

abbrev two_workers : Limits
two_workers = record { workers = 2; window = 2; max_bytes = 10 }

abbrev forward_of : ℕ → Event ℕ ℕ
forward_of n = record { forward = some n; rollback = none; bytes = pos 4 }

abbrev events : List (Event ℕ ℕ)
events =
    forward_of 1
    ∷ forward_of 2
    ∷ record { forward = none; rollback = some 9; bytes = pos 0 }
    ∷ forward_of 3
    ∷ []

-- The second job is done before the first, and the rollback waits for both.
abbrev schedule : List (Choice ℕ)
schedule =
    read
    ∷ accept none
    ∷ read
    ∷ accept none
    ∷ finish in_time 1
    ∷ finish in_time 0
    ∷ receive
    ∷ receive
    ∷ go_on
    ∷ go_on
    ∷ read
    ∷ go_on
    ∷ go_on
    ∷ read
    ∷ accept none
    ∷ read
    ∷ finish in_time 0
    ∷ receive
    ∷ go_on
    ∷ go_on
    ∷ []

abbrev output_of : Outcome ℕ ℕ ℕ ℕ → Option (Option (Error ℕ)) × List (ℕ × Value ℕ ℕ)
output_of (going m) = (none, m.output)
output_of (returned e m) = (some e, m.output)

emitted_in_order :
    output_of (run shifted two_workers schedule (start shifted two_workers events))
    ≡ (some none, (0, forward 101) ∷ (1, forward 102) ∷ (2, rollback 9) ∷ (3, forward 103) ∷ [])
unfolding run step worker_step finished start main_step turn looping body with_held assign_value
    assign_forward wait select can_read decoded assign_rollback arrived next_event checked offer
    accepted received next_result collected emit sent without_choice find delete put pick ℕ_discrete
    Bool-dec
emitted_in_order = refl

-- Every choice of the schedule is possible, and one step past the return counts no more.
twenty_moves :
    moves shifted two_workers (schedule ++ (go_on ∷ [])) (start shifted two_workers events) ≡ 20
unfolding moves run step worker_step finished start main_step turn looping body with_held
    assign_value assign_forward wait select can_read decoded assign_rollback arrived next_event
    checked offer accepted received next_result collected emit sent without_choice find delete put
    pick ℕ_discrete Bool-dec
twenty_moves = refl

moves_start-le_example :
    moves shifted two_workers schedule (start shifted two_workers events) ≤ 5 * length events + 2
moves_start-le_example = moves_start-le shifted two_workers events schedule
