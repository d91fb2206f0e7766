-- ===== src/Pipeline/Budget.antt =====
-- internal/pipeline/byte_budget.go: a bound on retained bytes, with callers that wait for room.
pub mod Waiting
use clicksync.Base.{
  ℕ, ◌+◌, ◌-◌, Bool, true, false, ◌&&◌, ◌||◌, ◌==◌, ◌!=◌, nat_eq, ltb, leb, Option, none, some,
  if◌then◌else◌, List, [], ◌∷◌,
}
use clicksync.Base.Int.{ℤ, pos, negsuc}

pub data Error : Type 0 where
  limit_not_positive negative_size item_too_large cancelled : Error
  over_release : Error
  cancelled_and : Error → Error

-- `generation` tells one channel `changed` from the next: closing it and making a new one adds 1.
pub record ByteBudget : Type 0 where
  pub limit : ℕ
  pub used : ℕ
  pub generation : ℕ

unfoldable pub new_byte_budget : ℤ → Option ByteBudget
new_byte_budget (negsuc n) = none
new_byte_budget (pos limit) =
    if limit == 0 then none else some (record { limit = limit; used = 0; generation = 0 })

-- `Release`, with its error.
unfoldable pub release : ℤ → ByteBudget → Option Error × ByteBudget
release (negsuc n) b = (some negative_size, b)
release (pos size) b =
    if size == 0
    then (none, b)
    else if ltb b.used size
    then (some over_release, b)
    else (none, record b { used = b.used - size; generation = b.generation + 1 })

-- Where a call of `Acquire` stands: at the head of its loop, past the unlock with its bytes granted, at
-- its select with the channel of a generation, or returned.
pub data Caller : Type 0 where
  trying holding : ℕ → Caller
  waiting : ℕ → ℕ → Caller
  returned : Option Error → Caller

-- The part of `Acquire` before its loop; the flag is whether the context is done.
unfoldable pub acquire : Bool → ℤ → ByteBudget → Caller
acquire done (negsuc n) b = returned (some negative_size)
acquire done (pos size) b =
    if ltb b.limit size
    then returned (some item_too_large)
    else if size == 0
    then (if done then returned (some cancelled) else returned none)
    else trying size

-- One pass through the loop up to the unlock; the flag is what `ctx.Err()` sees before the lock.
unfoldable pub attempt : Bool → ℕ → ByteBudget → Caller × ByteBudget
attempt done size b =
    if done
    then (returned (some cancelled), b)
    else if leb (b.used + size) b.limit
    then (holding size, record b { used = b.used + size })
    else (waiting size b.generation, b)

abbrev pub joined : Option Error → Error
joined none = cancelled
joined (some e) = cancelled_and e

-- After a grant: a context that is done by then gives the bytes back.
unfoldable pub settle : Bool → ℕ → ByteBudget → Caller × ByteBudget
settle done size b =
    if done
    then (let (e, b') = release (pos size) b in (returned (some (joined e)), b'))
    else (returned none, b)

-- One caller among others: its own steps, and those of the rest on the same budget.
pub data Step : Type 0 where
  pass look : Bool → Step
  woken cancel : Step
  other_attempt : Bool → ℕ → Step
  other_release : ℤ → Step

-- A caller that waits is woken when its channel was closed.
unfoldable pub own : Step → Caller → ByteBudget → Caller × ByteBudget
own (pass done) (trying size) b = attempt done size b
own (look done) (holding size) b = settle done size b
own woken (waiting size g) b = if b.generation != g then (trying size, b) else (waiting size g, b)
own cancel (waiting size g) b = (returned (some cancelled), b)
own step caller b = (caller, b)

unfoldable pub step : Step → Caller → ByteBudget → Caller × ByteBudget
step (other_attempt done size) caller b = (caller, (attempt done size b).1)
step (other_release size) caller b = (caller, (release size b).1)
step (pass done) caller b = own (pass done) caller b
step (look done) caller b = own (look done) caller b
step woken caller b = own woken caller b
step cancel caller b = own cancel caller b

unfoldable pub run : List Step → Caller → ByteBudget → Caller × ByteBudget
run [] caller b = (caller, b)
run (s ∷ ss) caller b = let (caller', b') = step s caller b in run ss caller' b'
