-- ===== src/Tests/Syncer.antt =====
-- internal/syncer at concrete blocks, limits and events.
use clicksync.Base.{
  err, ok, ℕ, ◌+◌, List, [], ◌∷◌, ◌++◌, ◌≡◌, refl, replicate, All, false, ℕ_discrete, Bytes-dec,
  Bool-dec, some, none, arith,
}
use clicksync.Base.Int.{pos}
use clicksync.Base.Text.{text}
use clicksync.Model.{Point, Point-dec, AgreedEvent, event_forward, event_rollback, zero_hash}
use clicksync.Syncer.Blocks.{DecodedBlock, fact_rows, rows_of, transaction_rows}
use clicksync.Syncer.Batcher.{
  Limits, Sink, Clock, is_empty, fits, at_limit, add, arm_timer, recount, count_bytes, count_rows,
  last_index, same_chain_point,
}
use clicksync.Syncer.Batcher.Steps.{
  Received, event, timer_fired, closed, returned, run, loop, step, on_event, on_value, on_forward,
  on_rollback, on_target, stage, flush, flushing, returned_by, not_positive,
}
use clicksync.Syncer.Decode.{decode_agreed_block, with_provenance, provenance, not_forward}
use clicksync.Syncer.Intersections.{
  common_intersection, survey, noticed, candidate_index, older, resumed, Common,
  common_intersection-Common,
}
use clicksync.Syncer.Batcher.Accounting.{IsLimits, Fits}
use clicksync.Syncer.Batcher.Batches.{noting, run_batches}
use clicksync.Syncer.Batcher.Chain.{undo, kept}

-- A sink that keeps the published chain itself.
abbrev chain_sink : Sink (List DecodedBlock) ℕ
chain_sink = record {
  publish = λ w batch. (none, w ++ batch);
  rollback = λ w e. (none, undo e.point w);
}

abbrev two_blocks : Limits
two_blocks = record { blocks = 2; bytes = 1000; rows = 100; age = 5 }

two_blocks-IsLimits : IsLimits two_blocks
two_blocks-IsLimits = record {
  blocks = omega arith;
  bytes = omega arith;
  bytes_int64 = omega arith;
  rows = omega arith;
  rows_uint64 = omega arith;
}

abbrev point_at : ℕ → Point
point_at n = record {
  origin = false;
  slot = 100 + n;
  hash = replicate 32 n;
  block_number = n;
  is_byron_ebb = false;
}

abbrev block_at : ℕ → DecodedBlock
block_at n = record {
  block = record {
    hash = replicate 32 n;
    parent_hash = none;
    slot = 100 + n;
    number = n;
    era = text "conway";
    type = pos 7;
    synthetic = false;
    transactions = [];
    datums = [];
    observed_at = 0;
  };
  chain_point = point_at n;
  content_hash = replicate 32 n;
  raw_length = 200;
  relays = [];
}

abbrev clock : Clock
clock = record { staged_at = 3; armed_at = 4 }

abbrev forward_at : ℕ → ℕ → Clock × Received ℕ
forward_at sequence n =
    (clock, event (record { sequence = sequence; forward = some (block_at n); rollback = none }))

abbrev rollback_at : ℕ → ℕ → Clock × Received ℕ
rollback_at sequence n = (
  clock,
  event (record {
    sequence = sequence;
    forward = none;
    rollback = some (record {
      kind = event_rollback;
      point = point_at n;
      block_type = 0;
      content_hash = zero_hash;
      raw_length = 0;
      raw_cbor = [];
      relays = [];
      observed_at = 0;
    });
  }),
)

-- Blocks 1 and 2 are published, 3 is dropped by a rollback to 1, and 4 follows.
abbrev received : List (Clock × Received ℕ)
received =
    forward_at 0 1
    ∷ forward_at 1 2
    ∷ forward_at 2 3
    ∷ rollback_at 3 1
    ∷ forward_at 4 4
    ∷ (clock, timer_fired)
    ∷ (clock, closed none)
    ∷ []

received_result :
    run chain_sink two_blocks received [] ≡ (returned none, block_at 1 ∷ block_at 4 ∷ [])
unfolding run loop step on_event on_value on_forward on_rollback on_target stage flush flushing
    returned_by not_positive fits at_limit add arm_timer recount count_bytes count_rows last_index
    same_chain_point undo kept fact_rows rows_of transaction_rows Bytes-dec Bool-dec ℕ_discrete
received_result = refl

run_batches_example :
    All
      (λ batch. (is_empty batch ≡ false) × Fits two_blocks batch)
      (run (noting chain_sink) two_blocks received ([], [])).1.1
run_batches_example = run_batches chain_sink two_blocks received [] two_blocks-IsLimits

abbrev candidates : List Point
candidates = point_at 4 ∷ point_at 3 ∷ point_at 2 ∷ point_at 1 ∷ []

abbrev chosen : List Point
chosen = point_at 4 ∷ point_at 2 ∷ point_at 3 ∷ []

resume_at_two : common_intersection candidates chosen ≡ ok (point_at 2 ∷ point_at 1 ∷ [], false)
unfolding common_intersection survey noticed candidate_index older resumed Point-dec Bytes-dec
    Bool-dec ℕ_discrete
resume_at_two = refl

common_intersection-Common_example :
    Common candidates
      (point_at 4)
      (point_at 2 ∷ point_at 3 ∷ [])
      (point_at 2 ∷ point_at 1 ∷ [])
      false
common_intersection-Common_example =
    common_intersection-Common candidates (point_at 4) (point_at 2 ∷ point_at 3 ∷ [])
      (point_at 2 ∷ point_at 1 ∷ []) false resume_at_two

abbrev agreed_one : AgreedEvent
agreed_one = record {
  kind = event_forward;
  point = point_at 1;
  block_type = 7;
  content_hash = replicate 32 1;
  raw_length = 200;
  raw_cbor = replicate 200 0;
  relays = [];
  observed_at = 0;
}

decoded_one :
    decode_agreed_block {E = ℕ} (λ type raw. ok (block_at 1).block) none agreed_one
    ≡ ok (block_at 1)
unfolding decode_agreed_block with_provenance provenance ℕ_discrete
decoded_one = refl

decoded_rollback :
    decode_agreed_block {E = ℕ}
      (λ type raw. ok (block_at 1).block)
      none
      (record agreed_one { kind = event_rollback })
    ≡ err not_forward
unfolding decode_agreed_block ℕ_discrete
decoded_rollback = refl
