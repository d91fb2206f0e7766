-- ===== src/Tests/Publication.antt =====
-- Publish and the recovery of internal/store, at concrete batches and stores.
use clicksync.Base.{
  ℕ, suc, ◌+◌, List, [], ◌∷◌, ◌≡◌, refl, ok, length, replicate, Bool, true, false, Option, none,
  some, ℕ_discrete, Bytes-dec, Bool-dec, sum_of, flat_map, arith,
}
use clicksync.Base.Int.{pos, Int-dec}
use clicksync.Base.Text.{Text, text, is_blank}
use clicksync.Base.Storage.{acknowledged, failed, whole, filter_by, insert_by, order_by}
use clicksync.Model.{Point, Point-dec}
use clicksync.Model.Facts.{Block, Transaction, Input}
use clicksync.Syncer.Blocks.{fact_rows, rows_of}
use clicksync.Syncer.Blocks as Blocks
use clicksync.Store.Types.{Candidate, Relay, Publication, CanonicalBlock, DatasetIdentity, State}
use clicksync.Store.Tables.{EventKind-dec}
use clicksync.Store.Inserts
use clicksync.Store.Inserts.{
  count_facts, insert_blocks, insert_transactions, insert_inputs, insert_outputs,
  insert_datum_bodies, insert_datum_observations, insert_withdrawals, insert_redeemers,
  insert_metadata, all_transaction_rows, has_transactions, count_each, each_transaction,
  point_for_block,
}
use clicksync.Store.Inserts.Builders.{count_roles, count_role, transaction_row}
use clicksync.Store.Inserts.Rows.{TransactionRow}
use clicksync.Store.Inserts.Sizes.{sent}
use clicksync.Store.Inserts.Complete.{sum_of-fact_rows}
use clicksync.Store.Allocator.{reserve_publications, reserve_range, reserve_events}
use clicksync.Store.Publication.{
  adoption_row, canonical_block, number_from, validate_candidates, check_candidate, check_relays,
  incomplete, counts_exceed, check_transactions,
}
use clicksync.Store.Publication.Facts.{FactFates, insert_facts, store, store_checked}
use clicksync.Store.Publication.Readback.{
  partially_committed, adoption_differs, adoption_readback, adoptions_committed, check_row,
  conclude, expected, expected_size, later, read_rows, scan_rows,
}
use clicksync.Store.Publication.Publish.{
  Db, Answers, commit_conflict, publish, publish_at, after_facts, adopt, adopt_locked, locked,
  read_failure, resolve, validated, with_events, with_publications,
}
use clicksync.Store.Publication.Truth.{Tells, publish-Tells}
use clicksync.Store.Recovery.Candidates.{
  intersection_candidates, or_tip, sampled_points, append_points, append_point, geometric,
}
use clicksync.Store.Recovery.Intersections.Offers.{Offers}

abbrev input_of : ℕ → Text → Input
input_of n role = record {
  transaction_hash = replicate 32 9;
  transaction_order = 0;
  source_hash = replicate 32 n;
  source_index = 0;
  body_ordinal = n;
  role = role;
  consumed = true;
}

abbrev transfer : Transaction
transfer = record {
  hash = replicate 32 9;
  order = 0;
  parent_hash = none;
  subtransaction_index = none;
  era = text "conway";
  phase2_valid = true;
  flow_kind = text "normal";
  declared_fee = some 170000;
  effective_fee = some 170000;
  mint_applied = true;
  mint = [];
  inputs = input_of 0 (text "regular") ∷ input_of 1 (text "collateral") ∷ [];
  outputs = [];
  withdrawals = [];
  redeemers = [];
  metadata = some (record {
    transaction_hash = replicate 32 9;
    transaction_order = 0;
    labels = 674 ∷ [];
    cbor = [];
    content_hash = replicate 32 3;
  });
  datum_observations = [];
}

abbrev block_at : ℕ → List Transaction → Block
block_at n ts = record {
  hash = replicate 32 (suc n);
  parent_hash = none;
  slot = 100 + n;
  number = n;
  era = text "conway";
  type = pos 7;
  synthetic = false;
  transactions = ts;
  datums = [];
  observed_at = 0;
}

abbrev relay_of : ℕ → Relay
relay_of n = record { host = text "relay"; address = n ∷ []; operator = n ∷ []; n2n_version = 14 }

abbrev publication_of : ℕ → List Transaction → Publication
publication_of n ts = record {
  publication_id = n;
  event_seq = n;
  block = block_at n ts;
  counts = count_facts (block_at n ts);
  content_hash = replicate 32 4;
  relays = relay_of 1 ∷ relay_of 2 ∷ [];
  writer_id = 77;
  inserted_at = 1000;
}

abbrev batch : List Publication
batch = publication_of 5 (transfer ∷ []) ∷ publication_of 6 [] ∷ []

abbrev transfer_rows : Option (List TransactionRow)
transfer_rows = some (
    transaction_row (publication_of 5 (transfer ∷ [])) transfer
      (record { regular = 1; collateral = 1; reference = 0 })
    ∷ [])

insert_transfer : insert_transactions batch ≡ ok transfer_rows
unfolding insert_transactions has_transactions all_transaction_rows Inserts.transaction_rows
    count_roles count_role Bytes-dec ℕ_discrete
insert_transfer = refl

sum_of-fact_rows_example :
    sum_of (λ (p : Publication). fact_rows p.block) batch
    ≡ length (sent (insert_blocks 764824073 batch))
      + length (sent transfer_rows)
      + length (sent (insert_inputs batch))
      + length (sent (insert_outputs batch))
      + length (sent (insert_datum_bodies batch))
      + length (sent (insert_datum_observations batch))
      + length (sent (insert_withdrawals batch))
      + length (sent (insert_redeemers batch))
      + length (sent (insert_metadata batch))
sum_of-fact_rows_example =
    sum_of-fact_rows batch (refl, (refl, tt)) 764824073 transfer_rows insert_transfer

-- Two blocks, a transaction, two inputs and its metadata.
batch_rows : sum_of (λ (p : Publication). fact_rows p.block) batch ≡ 6
unfolding fact_rows rows_of Blocks.transaction_rows
batch_rows = refl

abbrev candidate_at : ℕ → Candidate
candidate_at n = record {
  block = block_at n [];
  content_hash = replicate 32 4;
  relays = relay_of 1 ∷ relay_of 2 ∷ [];
  raw_length = 200;
}

abbrev point_at : ℕ → Point
point_at n = record {
  origin = false;
  slot = 100 + n;
  hash = replicate 32 (suc n);
  block_number = n;
  is_byron_ebb = false;
}

abbrev dataset : DatasetIdentity
dataset = record {
  dataset_id = 1;
  schema_hash = replicate 32 1;
  network_magic = 764824073;
  network_name = text "mainnet";
  start = point_at 0;
  created_at = 0;
  source_build = text "dev";
}

abbrev two_candidates : List Candidate
two_candidates = candidate_at 5 ∷ candidate_at 6 ∷ []

-- Event 4 adopted a block, and 5 is the next one.
abbrev pub db_at_five : Db
db_at_five = record {
  identity = dataset;
  writer_id = 77;
  allocator = record { next_publication = 5; next_event = 5 };
  facts = record {
    blocks = [];
    transactions = [];
    inputs = [];
    outputs = [];
    datum_bodies = [];
    datum_observations = [];
    withdrawals = [];
    redeemers = [];
    transaction_metadata = [];
  };
  events = adoption_row (pos 0) (publication_of 4 []) ∷ [];
  rollbacks = [];
}

abbrev all_stored : FactFates ℕ
all_stored = record {
  blocks = acknowledged;
  transactions = acknowledged;
  inputs = acknowledged;
  outputs = acknowledged;
  datum_bodies = acknowledged;
  datum_observations = acknowledged;
  withdrawals = acknowledged;
  redeemers = acknowledged;
  transaction_metadata = acknowledged;
}

-- The insert of the adoptions fails with error 8, and the table keeps the rows of the mask.
abbrev pub uncertain : List Bool → Answers ℕ
uncertain mask = record {
  lock_first = none;
  now = 1000;
  facts = all_stored;
  lock_again = none;
  adoptions = failed 8 mask;
  readback = whole;
}

-- Both rows were kept, so the batch is committed after all; or one row was: error 8, and that one of
-- two rows is there.
publish_uncertain :
    ((publish (pos 0) (uncertain (true ∷ true ∷ [])) two_candidates db_at_five).1 ≡ none)
    × ((publish (pos 0) (uncertain (true ∷ false ∷ [])) two_candidates db_at_five).1
        ≡ some (commit_conflict 8 (partially_committed 1 2)))
unfolding publish ℕ_discrete Bytes-dec Bool-dec Int-dec EventKind-dec validate_candidates
    check_candidate check_relays incomplete is_blank counts_exceed count_facts check_transactions
    reserve_publications reserve_range reserve_events publish_at after_facts insert_facts
    insert_blocks insert_transactions has_transactions filter_by insert_by order_by count_each
    each_transaction insert_datum_bodies insert_datum_observations insert_inputs insert_metadata
    insert_outputs insert_redeemers insert_withdrawals point_for_block store store_checked adopt
    adopt_locked locked read_failure resolve validated with_events with_publications
    adoption_differs adoption_readback adoptions_committed check_row conclude expected expected_size
    later read_rows scan_rows adoption_row canonical_block number_from flat_map
publish_uncertain = (refl, refl)

publish-Tells_example :
    Tells
      (pos 0)
      1000
      two_candidates
      db_at_five
      (publish (pos 0) (uncertain (true ∷ true ∷ [])) two_candidates db_at_five)
unfolding adoption_row
publish-Tells_example =
    publish-Tells (pos 0) (uncertain (true ∷ true ∷ [])) two_candidates db_at_five
      (record { publications = omega arith; events = omega arith }) (omega arith, tt) (omega arith)

-- A state of three blocks on top of the dataset's start.
abbrev canonical_at : ℕ → CanonicalBlock
canonical_at n = record { publication_id = n; event_seq = n; point = point_at n }

abbrev three_blocks : State
three_blocks = record {
  dataset = dataset;
  snapshot = 6;
  tip = point_at 6;
  canonical = canonical_at 6 ∷ canonical_at 5 ∷ canonical_at 4 ∷ [];
  intersections = [];
}

intersections_three :
    intersection_candidates three_blocks ≡ point_at 6 ∷ point_at 5 ∷ point_at 4 ∷ point_at 0 ∷ []
unfolding intersection_candidates or_tip sampled_points append_points append_point geometric
    Point-dec Bytes-dec Bool-dec ℕ_discrete
intersections_three = refl
