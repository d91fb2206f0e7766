-- ===== src/Syncer/Batcher.antt =====
-- internal/syncer/batcher.go: ordered normalized events become bounded publication batches.
pub mod Steps
pub mod Accounting
pub mod Flushes
pub mod Batches
pub mod Chain
pub mod Recording
pub mod Undisturbed
pub mod Published
use clicksync.Base.{
  ℕ, suc, ◌+◌, ◌-◌, ◌*◌, List, [], ◌∷◌, ◌++◌, Bool, true, false, not, ◌&&◌, ◌||◌, ◌==◌, ◌!=◌,
  nat_eq, bool_eq, bytes_eq, ltb, leb, Option, none, some, length, take, if◌then◌else◌,
}
use clicksync.Base.Words.{add64, sub64}
use clicksync.Model.{Point, AgreedEvent}
use clicksync.Syncer.Blocks.{DecodedBlock, fact_rows}

-- Each is at least 1: `Run` refuses others. `blocks` is an int, `bytes` an int64, `rows` a uint64 and
-- `age` a duration.
pub record Limits : Type 0 where
  pub blocks : ℕ
  pub bytes : ℕ
  pub rows : ℕ
  pub age : ℕ

-- `pipeline.Result`: one of the two values is there.
pub record Event : Type 0 where
  pub sequence : ℕ
  pub forward : Option DecodedBlock
  pub rollback : Option AgreedEvent

-- The variables of `Run`. `pending_bytes` is an int64 that is never negative, and `timer` holds the
-- duration of the running timer.
pub record Staged : Type 0 where
  pub pending : List DecodedBlock
  pub pending_bytes : ℕ
  pub pending_rows : ℕ
  pub first_staged : ℕ
  pub timer : Option ℕ
  pub next_sequence : ℕ

pub data Error (E : Type 0) : Type 0 where
  limits_not_positive wrong_sequence malformed_event exceeds_limits : Error E
  cancelled : E → Error E
  publish_age publish_final publish_full publish_limit commit_rollback : E → Error E

-- `BatchSink`, over the state of whatever receives the batches.
pub record Sink (W E : Type 0) : Type 0 where
  pub publish : W → List DecodedBlock → Option E × W
  pub rollback : W → AgreedEvent → Option E × W

-- Two readings of the clock: `b.Now()` in `add`, and in `armTimer`.
pub record Clock : Type 0 where
  pub staged_at : ℕ
  pub armed_at : ℕ

abbrev pub is_empty : List DecodedBlock → Bool
is_empty [] = true
is_empty (b ∷ bs) = false

abbrev pub start : Staged
start = record {
  pending = [];
  pending_bytes = 0;
  pending_rows = 0;
  first_staged = 0;
  timer = none;
  next_sequence = 0;
}

unfoldable pub same_chain_point : Point → Point → Bool
same_chain_point left right =
    if left.origin || right.origin
    then left.origin == right.origin
    else left.slot == right.slot && left.hash == right.hash

-- The age that is left, at least 0.
unfoldable pub arm_timer : Limits → ℕ → Staged → Staged
arm_timer limits now s =
    if is_empty s.pending
    then record s { timer = none }
    else record s { timer = some (limits.age + s.first_staged - now) }

unfoldable pub fits : Limits → Staged → DecodedBlock → Bool
fits limits s block =
    ltb (length s.pending) limits.blocks
    && leb block.raw_length (sub64 limits.bytes s.pending_bytes)
    && leb (fact_rows block.block) (sub64 limits.rows s.pending_rows)

unfoldable pub at_limit : Limits → Staged → Bool
at_limit limits s =
    leb limits.blocks (length s.pending)
    || leb limits.bytes s.pending_bytes
    || leb limits.rows s.pending_rows

unfoldable pub add : Limits → Clock → Staged → DecodedBlock → Staged
add limits clock s block =
    let first = is_empty s.pending in
    let s' : Staged = record s {
      first_staged = if first then clock.staged_at else s.first_staged;
      pending = s.pending ++ (block ∷ []);
      pending_bytes = add64 s.pending_bytes block.raw_length;
      pending_rows = add64 s.pending_rows (fact_rows block.block);
    } in
    if length s'.pending == 1 then arm_timer limits clock.armed_at s' else s'

unfoldable pub count_bytes : ℕ → List DecodedBlock → ℕ
count_bytes n [] = n
count_bytes n (b ∷ bs) = count_bytes (add64 n b.raw_length) bs

unfoldable pub count_rows : ℕ → List DecodedBlock → ℕ
count_rows n [] = n
count_rows n (b ∷ bs) = count_rows (add64 n (fact_rows b.block)) bs

-- `recount`, after `pending` was cut.
unfoldable pub recount : Limits → Clock → Staged → Staged
recount limits clock s = arm_timer limits clock.armed_at (record s {
  pending_bytes = count_bytes 0 s.pending;
  pending_rows = count_rows 0 s.pending;
  first_staged = if is_empty s.pending then 0 else s.first_staged;
})

-- The loop from the last index down: the last pending block at the point.
unfoldable pub last_index : Point → List DecodedBlock → Option ℕ
unfolding same_chain_point
last_index point [] = none
last_index point (b ∷ bs) =
    let later = last_index point bs in
    elim later [
      | some i ↦ some (suc i)
      | none ↦ if same_chain_point b.chain_point point then some 0 else none
    ]
