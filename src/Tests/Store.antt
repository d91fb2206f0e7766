-- ===== src/Tests/Store.antt =====
-- internal/store at concrete identities, points and windows.
use clicksync.Base.{
  ℕ, suc, ◌+◌, ◌-◌, ◌≤◌, List, [], ◌∷◌, ◌≡◌, ◌≢◌, refl, ok, err, length, replicate, true, false,
  ℕ_discrete, Bytes-dec, Bool-dec, some, arith, inl, if◌then◌else◌, ◌==◌, ◌⊎◌, none,
}
use clicksync.Base.Text.{text}
use clicksync.Base.Words.{max_u64}
use clicksync.Model.{Point, Point-dec, point_eq, zero_hash}
use clicksync.Store.Allocator.{
  Allocator, Error, new_allocator, reserve_publications, reserve_range, publication_space_exhausted,
}
use clicksync.Store.Allocator.Ranges.{Granted, Refused, reserve_publications_outcome}
use clicksync.Store.Allocator.Histories.{
  Call, publications, events, Ascending, run, run_new-Ascending,
}
use clicksync.Store.Points.{
  valid_point, scan_point, nullable_point, origin_point, same_wire_point, scan_point-nullable_point,
  scan_point_sound,
}
use clicksync.Store.Types.{CanonicalBlock, State, RollbackRequest}
use clicksync.Store.Resolve.{
  resolve_rollback, resolve_target, descend, supplied_point_metadata_matches, find_block,
}
use clicksync.Store.Resolve.Soundness.{Takes, resolve_rollback-Takes}
use clicksync.Store.Resolve.Completeness.{resolve_rollback_complete}

abbrev nearly_full : Allocator
nearly_full = record { next_publication = max_u64 - 4; next_event = 6 }

-- The last identity is given out, and then none.
reserve_publications_last :
    reserve_publications nearly_full 5
    ≡ (ok (max_u64 - 4), record { next_publication = 0; next_event = 6 })
unfolding reserve_publications reserve_range ℕ_discrete
reserve_publications_last = refl

reserve_publications_outcome_example :
    ((first next : ℕ) × Granted nearly_full.next_publication 5 first next
      × (reserve_publications nearly_full 5
          ≡ (ok first, record nearly_full { next_publication = next })))
    ⊎ ((e : Error) × Refused publication_space_exhausted nearly_full.next_publication 5 e
        × (reserve_publications nearly_full 5 ≡ (err e, nearly_full)))
reserve_publications_outcome_example =
    reserve_publications_outcome nearly_full 5
      (record { publications = omega arith; events = omega arith }) (omega arith)

abbrev fresh : Allocator
fresh = record { next_publication = 10; next_event = 8 }

abbrev calls : List Call
calls = publications 3 ∷ events 3 ∷ events 1 ∷ publications 2 ∷ []

new_fresh : new_allocator 9 7 ≡ ok fresh
unfolding new_allocator ℕ_discrete
new_fresh = refl

run_new-Ascending_example :
    Ascending 10 (run fresh calls).of_publications × Ascending 8 (run fresh calls).of_events
run_new-Ascending_example =
    run_new-Ascending 9 7 fresh calls (omega arith) (omega arith) new_fresh (omega arith)

abbrev point_at : ℕ → Point
point_at n = record {
  origin = false;
  slot = 100 + n;
  hash = replicate 32 (suc n);
  block_number = n;
  is_byron_ebb = false;
}

valid_five : valid_point (point_at 5) ≡ true
unfolding valid_point Bytes-dec ℕ_discrete
valid_five = refl

scan_point-nullable_point_example :
    (scan_point false (some 105) (replicate 32 6) (some 5) false ≡ ok (point_at 5))
    × (scan_point false (some 105) (replicate 32 6) (some 5) false ≡ ok (point_at 5))
unfolding nullable_point
scan_point-nullable_point_example = scan_point-nullable_point (point_at 5) valid_five refl

scan_origin : scan_point true none [] none false ≡ ok origin_point
unfolding scan_point ℕ_discrete
scan_origin = refl

scan_point_sound_example :
    (valid_point origin_point ≡ true)
    × (length origin_point.hash ≡ 32)
    × (origin_point.origin ≡ true)
scan_point_sound_example = scan_point_sound true none [] none false origin_point scan_origin

abbrev block_at : ℕ → CanonicalBlock
block_at n = record { publication_id = n; event_seq = n; point = point_at n }

-- Blocks 9, 8 and 7 on top of the dataset's start at 6.
abbrev window : State
window = record {
  dataset = record {
    dataset_id = 1;
    schema_hash = replicate 32 1;
    network_magic = 764824073;
    network_name = text "mainnet";
    start = point_at 6;
    created_at = 0;
    source_build = text "dev";
  };
  snapshot = 9;
  tip = point_at 9;
  canonical = block_at 9 ∷ block_at 8 ∷ block_at 7 ∷ [];
  intersections = [];
}

abbrev to_seven : RollbackRequest
to_seven = record {
  to = record (point_at 7) { block_number = 0 };
  relays = [];
  reason = text "fork";
  maximum_depth = 2;
}

resolve_seven : resolve_rollback window to_seven ≡ ok (point_at 7, block_at 9 ∷ block_at 8 ∷ [])
unfolding resolve_rollback resolve_target descend supplied_point_metadata_matches find_block
    same_wire_point Bytes-dec Point-dec Bool-dec ℕ_discrete
resolve_seven = refl

resolve_rollback-Takes_example :
    (same_wire_point to_seven.to (point_at 7) ≡ true)
    × (2 ≤ to_seven.maximum_depth)
    × Takes window to_seven.to (point_at 7) (block_at 9 ∷ block_at 8 ∷ [])
resolve_rollback-Takes_example =
    resolve_rollback-Takes window to_seven (point_at 7) (block_at 9 ∷ block_at 8 ∷ []) (omega arith)
      resolve_seven

not_at_seven :
    (same_wire_point to_seven.to (point_at 9) ≡ false)
    × (same_wire_point to_seven.to (point_at 8) ≡ false)
    × (same_wire_point to_seven.to (point_at 7) ≡ true)
unfolding same_wire_point Bytes-dec Bool-dec ℕ_discrete
not_at_seven = (refl, refl, refl)

real_hash : to_seven.to.hash ≢ zero_hash
real_hash e = cc

resolve_rollback_complete_example :
    resolve_rollback window to_seven
    ≡ ok (point_at 7, if point_at 7 == window.tip then [] else block_at 9 ∷ block_at 8 ∷ [])
resolve_rollback_complete_example =
    resolve_rollback_complete window to_seven (block_at 9 ∷ block_at 8 ∷ []) (block_at 7) [] refl
      (not_at_seven.0, (not_at_seven.1, tt)) not_at_seven.2 refl real_hash
      (record { number = inl refl; ebb = inl refl }) (omega arith)
