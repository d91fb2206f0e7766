-- ===== src/Pipeline/Ordered.antt =====
-- `OrderedMapper.Run` of internal/pipeline/ordered.go as a transition function: the variables of its
-- loop, the workers and the channels, and one step for each choice that a select or a worker makes.
-- `decode` stands for the field `Decode`; it is a function of the event, as the normaliser is.
pub mod Steps
pub mod Placement
pub mod Invariant
pub mod Schedules
pub mod Termination
use clicksync.Base.{
  ℕ, suc, List, [], ◌∷◌, Bool, true, false, ◌==◌, nat_eq, Option, none, some, Result, if◌then◌else◌,
}
use clicksync.Base.Int.{ℤ}

module _ (I R : Type 0) where
  -- `Event`: one of the two values is there once it was read.
  pub record Event : Type 0 where
    pub forward : Option I
    pub rollback : Option R
    pub bytes : ℤ  -- int64

-- `Result`, with the value that is there.
pub data Value (O R : Type 0) : Type 0 where
  forward : O → Value O R
  rollback : R → Value O R

-- An ordered result: its sequence, its value and the bytes that it retains.
pub record Item (O R : Type 0) : Type 0 where
  pub sequence : ℕ
  pub value : Value O R
  pub bytes : ℕ

pub record Job (I : Type 0) : Type 0 where
  pub sequence : ℕ
  pub value : I
  pub bytes : ℕ

-- `decodeResult`: the value or the error of a job.
pub record Decoded (O E : Type 0) : Type 0 where
  pub sequence : ℕ
  pub outcome : Result E O
  pub bytes : ℕ

pub record Limits : Type 0 where
  pub workers : ℕ
  pub window : ℕ
  pub max_bytes : ℕ

-- The variables of `Run`; `alive` counts the workers that have not returned, `running` are the jobs that
-- workers hold, `input` is what is still to come before the close, and `output` what was sent, oldest
-- first.
pub record Mapper (I O R E : Type 0) : Type 0 where
  pub next_assign : ℕ
  pub next_emit : ℕ
  pub outstanding : ℕ
  pub outstanding_bytes : ℕ
  pub input_open : Bool
  pub barrier : Bool
  pub held : Option (Event I R)
  pub pending : List (Item O R)
  pub alive : ℕ
  pub running : List (Job I)
  pub results : List (Decoded O E)
  pub input : List (Event I R)
  pub output : List (ℕ × Value O R)

pub data Error (E : Type 0) : Type 0 where
  cancelled accounting_underflow negative_bytes event_too_large no_progress : Error E
  bad_workers bad_window bad_bound : Error E
  not_one_value rollback_with_bytes nil_rollback : Error E
  decode_failed : ℕ → E → Error E
  release_failed : E → Error E

pub data Outcome (I O R E : Type 0) : Type 0 where
  going : Mapper I O R E → Outcome I O R E
  returned : Option (Error E) → Mapper I O R E → Outcome I O R E

-- What a select chooses: `go_on` where there is no choice, `accept` when a worker takes the job (with
-- the error of `ReleaseInputBytes`, if any), `receive` from the results, `read` from the input, and
-- `cancel` for `ctx.Done()`, which is ready from some moment on or never. `finish way k` is the worker of
-- the k-th running job, in one of three ways: it sends what a decoder made that looked at its context
-- before that was done, or after; or it returns at `runCtx.Done()` without sending.
pub data Way : Type 0 where
  in_time too_late leaving : Way

pub data Choice (E : Type 0) : Type 0 where
  go_on receive read cancel : Choice E
  accept : Option E → Choice E
  finish : Way → ℕ → Choice E

module _ {O R : Type 0} where
  unfoldable pub find : ℕ → List (Item O R) → Option (Item O R)
  find n [] = none
  find n (i ∷ is) = if i.sequence == n then some i else find n is

  unfoldable pub delete : ℕ → List (Item O R) → List (Item O R)
  delete n [] = []
  delete n (i ∷ is) = let rest = delete n is in if i.sequence == n then rest else i ∷ rest

  -- `pending[n] = item`
  unfoldable pub put : Item O R → List (Item O R) → List (Item O R)
  unfolding delete
  put i is = i ∷ delete i.sequence is

  abbrev pub is_rollback : Value O R → Bool
  is_rollback (forward o) = false
  is_rollback (rollback r) = true

module _ {A : Type 0} where
  -- The k-th element, and the others.
  unfoldable pub pick : ℕ → List A → Option (A × List A)
  pick k [] = none
  pick ℕ.zero (x ∷ xs) = some (x, xs)
  pick (suc k) (x ∷ xs) = elim (pick k xs) [ none ↦ none | some (y, ys) ↦ some (y, x ∷ ys) ]
