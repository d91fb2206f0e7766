-- ===== src/Store/Resolve/Completeness.antt =====
-- Which rollbacks `resolveRollback` of internal/store/rollback.go always accepts.
use clicksync.Base.{
  ℕ, suc, ◌+◌, ◌≤◌, List, [], ◌∷◌, ◌++◌, true, false, ◌==◌, some, ok, length, take,
  take-length_append, ◌≡◌, ◌≢◌, ap, ◌⊎◌, arith, if◌then◌else◌, ◌∙◌,
}
use clicksync.Model.{zero_hash, Point, point_eq}
use clicksync.Store.Points.{same_wire_point}
use clicksync.Store.Types.{CanonicalBlock, State, RollbackRequest}
use clicksync.Store.Resolve.{
  supplied_point_metadata_matches, find_block, resolve_target, descend, resolve_rollback,
}
use clicksync.Store.Resolve.Soundness.{NotIn}

-- The metadata that a request supplies does not conflict with the block's.
pub record Consistent (supplied canonical : Point) : Type 0 where
  pub number : (supplied.block_number ≡ 0) ⊎ (supplied.block_number ≡ canonical.block_number)
  pub ebb : (supplied.is_byron_ebb ≡ false) ⊎ (canonical.is_byron_ebb ≡ true)

find_block_split :
    (requested : Point) (k : ℕ) (above : List CanonicalBlock) (block : CanonicalBlock)
    (below : List CanonicalBlock)
    → NotIn requested above
    → same_wire_point requested block.point ≡ true
    → find_block requested k (above ++ (block ∷ below)) ≡ some (k + length above, block.point)
unfolding find_block
find_block_split requested k [] block below n here = ground arith
find_block_split requested k (b ∷ above) block below n here =
    ground (arith, find_block_split requested (suc k) above block below n.1 here)

matches_of_Consistent :
    (supplied canonical : Point)
    → Consistent supplied canonical
    → supplied_point_metadata_matches supplied canonical ≡ ok tt
unfolding supplied_point_metadata_matches
matches_of_Consistent supplied canonical c = ground arith

module _ (state : State) (request : RollbackRequest) (above : List CanonicalBlock)
    (block : CanonicalBlock) (below : List CanonicalBlock) where
  resolve_target_split :
      state.canonical ≡ above ++ (block ∷ below)
      → NotIn request.to above
      → same_wire_point request.to block.point ≡ true
      → request.to.origin ≡ false
      → request.to.hash ≢ zero_hash
      → Consistent request.to block.point
      → resolve_target state request.to
        ≡ ok (record { point = block.point; in_window = some (length above) })
  unfolding resolve_target
  resolve_target_split split n here real hash c =
      let found : find_block request.to 0 state.canonical ≡ some (length above, block.point) =
        ap (find_block request.to 0) split
        ∙ (find_block_split request.to 0 above block below n here
            ∙ ap (λ k. some (k, block.point)) (omega arith)) in
      ground (arith, matches_of_Consistent request.to block.point c)

  -- A request for a block of the window, at most the maximum depth below the tip, with no
  -- conflicting metadata, is granted: it takes off the blocks above, or none if it is the tip.
  pub resolve_rollback_complete :
      state.canonical ≡ above ++ (block ∷ below)
      → NotIn request.to above
      → same_wire_point request.to block.point ≡ true
      → request.to.origin ≡ false
      → request.to.hash ≢ zero_hash
      → Consistent request.to block.point
      → length above ≤ request.maximum_depth
      → resolve_rollback state request
        ≡ ok (block.point, if block.point == state.tip then [] else above)
  unfolding resolve_rollback descend
  resolve_rollback_complete split n here real hash c shallow =
      let all_above = ap (take (length above)) split ∙ take-length_append above (block ∷ below) in
      ground (arith, resolve_target_split split n here real hash c, all_above)
