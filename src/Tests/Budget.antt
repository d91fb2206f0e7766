-- ===== src/Tests/Budget.antt =====
-- A byte budget with one caller that has to wait.
use clicksync.Base.{◌≡◌, refl, List, [], ◌∷◌, false, ℕ_discrete, none, arith}
use clicksync.Base.Int.{pos}
use clicksync.Pipeline.Budget.{
  ByteBudget, release, returned, waiting, acquire, attempt, settle, Step, pass, look, woken,
  other_attempt, other_release, own, step, run,
}
use clicksync.Pipeline.Budget.Waiting.{IsSafe, run-acquire-IsSafe}

abbrev eight_used : ByteBudget
eight_used = record { limit = 10; used = 8; generation = 0 }

abbrev until_release : List Step
until_release = pass false ∷ woken ∷ other_attempt false 2 ∷ []

abbrev whole_call : List Step
whole_call =
    pass false
    ∷ other_release (pos 4)
    ∷ woken
    ∷ pass false
    ∷ look false
    ∷ other_release (pos 99)
    ∷ []

five_waits :
    run until_release (acquire false (pos 5) eight_used) eight_used
    ≡ (waiting 5 0, record { limit = 10; used = 10; generation = 0 })
unfolding run step own acquire attempt settle release ℕ_discrete
five_waits = refl

five_granted :
    run whole_call (acquire false (pos 5) eight_used) eight_used
    ≡ (returned none, record { limit = 10; used = 9; generation = 1 })
unfolding run step own acquire attempt settle release ℕ_discrete
five_granted = refl

run-acquire-IsSafe_example :
    IsSafe 10
      (run until_release (acquire false (pos 5) eight_used) eight_used).0
      (run until_release (acquire false (pos 5) eight_used) eight_used).1
run-acquire-IsSafe_example = run-acquire-IsSafe eight_used false (pos 5) until_release (omega arith)
