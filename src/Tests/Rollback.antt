-- ===== src/Tests/Rollback.antt =====
-- Rollback of internal/store, at a concrete store.
use clicksync.Base.{
  ℕ, suc, ◌+◌, List, [], ◌∷◌, ◌≡◌, refl, ok, Bool, true, false, none, some, replicate, ℕ_discrete,
  Bytes-dec, Bool-dec, arith,
}
use clicksync.Base.Text.{text, is_blank}
use clicksync.Base.Storage.{failed, whole, filter_by, insert_by, order_by}
use clicksync.Model.{Point, Point-dec}
use clicksync.Store.Allocator.{reserve_events, reserve_range}
use clicksync.Store.Points.{
  valid_point, hash32, scan_point, scan_numbers, scan_present, nullable_point, same_wire_point,
}
use clicksync.Store.Types.{Relay, RollbackRequest, State}
use clicksync.Store.Tables.{ChainEvent, EventKind-dec, adoption}
use clicksync.Store.Publication.{incomplete}
use clicksync.Store.Publication.Publish.{Db}
use clicksync.Store.Resolve.{
  resolve_rollback, resolve_target, descend, supplied_point_metadata_matches, find_block, matched,
}
use clicksync.Store.Recovery
use clicksync.Store.Recovery.Window
use clicksync.Store.Recovery.Candidates.{
  Readings, read_state, state_for_identity, current_tip, intersection_candidates, or_tip,
  sampled_points, append_points, append_point, geometric,
}
use clicksync.Store.Recovery.Sound.{block_of}
use clicksync.Store.Recovery.Sound.Recovered.{Recovered, read_state-Recovered}
use clicksync.Store.Rollback.{
  check_each, validate_relays, invalidation_row, header_row, new_rollback, rollback_result,
}
use clicksync.Store.Rollback.Readback
use clicksync.Store.Rollback.Readback.{partial}
use clicksync.Store.Rollback.Perform
use clicksync.Store.Rollback.Perform.{Answers, invalidations_missing, not_sent, roll_back}
use clicksync.Store.Rollback.Truth.Outcomes.{Tells, roll_back-Tells}

abbrev point_at : ℕ → Point
point_at n = record {
  origin = false;
  slot = 100 + n;
  hash = replicate 32 (suc n);
  block_number = n;
  is_byron_ebb = false;
}

abbrev adopted_at : ℕ → ChainEvent
adopted_at n = record {
  event_seq = n;
  publication_id = n;
  kind = adoption;
  active = true;
  rollback_id = none;
  block_hash = replicate 32 (suc n);
  slot = 100 + n;
  block_number = n;
  is_byron_ebb = false;
  writer_id = 77;
  recorded_at = 1000;
}

-- Blocks 1, 2 and 3 on top of the dataset's start.
abbrev pub db_at_four : Db
db_at_four = record {
  identity = record {
    dataset_id = 1;
    schema_hash = replicate 32 1;
    network_magic = 764824073;
    network_name = text "mainnet";
    start = point_at 0;
    created_at = 0;
    source_build = text "dev";
  };
  writer_id = 77;
  allocator = record { next_publication = 4; next_event = 4 };
  facts = record {
    blocks = [];
    transactions = [];
    inputs = [];
    outputs = [];
    datum_bodies = [];
    datum_observations = [];
    withdrawals = [];
    redeemers = [];
    transaction_metadata = [];
  };
  events = adopted_at 1 ∷ adopted_at 2 ∷ adopted_at 3 ∷ [];
  rollbacks = [];
}

abbrev relay_of : ℕ → Relay
relay_of n = record { host = text "relay"; address = n ∷ []; operator = n ∷ []; n2n_version = 14 }

abbrev to_one : RollbackRequest
to_one = record {
  to = point_at 1;
  relays = relay_of 1 ∷ relay_of 2 ∷ [];
  reason = text "fork";
  maximum_depth = 5;
}

-- The insert of the invalidations fails with error 8 and keeps the rows of the mask; that of the
-- header fails with error 9 and keeps it.
abbrev pub uncertain : List Bool → Answers ℕ
uncertain mask = record {
  lock_first = none;
  state = record { adoptions = whole; rollbacks = whole; window = whole };
  rollback_id = 500;
  now = 2000;
  invalidations = failed 8 mask;
  invalidations_read = whole;
  lock_again = none;
  header = failed 9 (true ∷ []);
  header_read = whole;
  membership_read = whole;
}

roll_back-Tells_example :
    Tells
      (uncertain (true ∷ true ∷ []))
      to_one
      db_at_four
      (roll_back (uncertain (true ∷ true ∷ [])) to_one db_at_four)
roll_back-Tells_example =
    roll_back-Tells (uncertain (true ∷ true ∷ [])) to_one db_at_four
      (record { publications = omega arith; events = omega arith })
      (omega arith, (omega arith, (omega arith, tt))) tt

abbrev all_whole : Readings ℕ
all_whole = record { adoptions = whole; rollbacks = whole; window = whole }

abbrev after_all : Db
after_all = (roll_back (uncertain (true ∷ true ∷ [])) to_one db_at_four).2

-- If all was kept, the rollback is committed after all, and block 1 is recovered as the tip. If one of
-- two invalidations was, it is not.
kept_rows :
    ((roll_back (uncertain (true ∷ true ∷ [])) to_one db_at_four).1 ≡ none)
    × (current_tip all_whole after_all.identity after_all.events after_all.rollbacks
        ≡ ok (point_at 1))
    × ((roll_back (uncertain (true ∷ false ∷ [])) to_one db_at_four).1
        ≡ some (invalidations_missing (not_sent 8) partial))
unfolding roll_back ℕ_discrete Bytes-dec Bool-dec Point-dec EventKind-dec is_blank filter_by
    insert_by order_by reserve_events reserve_range valid_point hash32 scan_point scan_numbers
    scan_present nullable_point same_wire_point incomplete resolve_rollback resolve_target descend
    supplied_point_metadata_matches find_block matched read_state state_for_identity check_each
    validate_relays invalidation_row header_row new_rollback rollback_result current_tip
    Recovery.scan_rollback Recovery.columns Recovery.newest_first Recovery.latest_adoption_query
    Recovery.latest_rollback_query Recovery.scan_adoption Recovery.latest_of Recovery.over
    Recovery.over_latest Recovery.latest_adoption Recovery.latest_rollback Recovery.later_action
    Recovery.latest_committed_action Recovery.validate_recovered_state Recovery.validate_tip
    Window.has_header Window.membership Window.add_latest Window.group_latest
    Window.canonical_window_query Window.scan_member Window.scan_window Window.load_canonical_window
    Readback.by_publication Readback.invalidation_readback Readback.by_rollback
    Readback.rollback_readback Readback.check_distinct Readback.expected_point
    Readback.invalidation_differs Readback.check_invalidation Readback.scan_invalidations
    Readback.read_invalidations Readback.invalidations_committed Readback.equal_strings
    Readback.differing_header Readback.scanned Readback.check_header Readback.scan_headers
    Readback.read_headers Readback.rollback_header_committed Perform.settle_membership
    Perform.settle_header Perform.write_header Perform.before_header Perform.settle_invalidations
    Perform.insert_invalidations Perform.after_invalidations Perform.perform Perform.with_event
    Perform.resolved Perform.with_state Perform.locked Perform.checked
kept_rows = (refl, refl, refl)

-- The state before the rollback.
abbrev at_three : State
at_three = record {
  dataset = db_at_four.identity;
  snapshot = 3;
  tip = point_at 3;
  canonical = block_of (adopted_at 3) ∷ block_of (adopted_at 2) ∷ block_of (adopted_at 1) ∷ [];
  intersections = point_at 3 ∷ point_at 2 ∷ point_at 1 ∷ point_at 0 ∷ [];
}

read_three : read_state all_whole db_at_four.identity 5 db_at_four.events [] ≡ ok at_three
unfolding read_state state_for_identity ℕ_discrete Bytes-dec Bool-dec Point-dec EventKind-dec
    filter_by insert_by order_by valid_point hash32 intersection_candidates or_tip sampled_points
    append_points append_point geometric Recovery.columns Recovery.newest_first
    Recovery.latest_adoption_query Recovery.latest_rollback_query Recovery.scan_adoption
    Recovery.latest_of Recovery.over Recovery.over_latest Recovery.latest_adoption
    Recovery.latest_rollback Recovery.later_action Recovery.latest_committed_action
    Recovery.validate_recovered_state Recovery.validate_tip Window.has_header Window.membership
    Window.add_latest Window.group_latest Window.canonical_window_query Window.scan_member
    Window.scan_window Window.load_canonical_window
read_three = refl

read_state-Recovered_example : Recovered db_at_four.identity 5 db_at_four.events [] at_three
read_state-Recovered_example =
    read_state-Recovered all_whole db_at_four.identity 5 db_at_four.events [] at_three read_three
