-- ===== src/Store/Resolve.antt =====
-- `resolveRollback` of internal/store/rollback.go: which canonical blocks a rollback takes off.
pub mod Soundness
pub mod Completeness
use clicksync.Base.{
  ℕ, suc, List, [], ◌∷◌, Bool, true, false, not, ◌&&◌, ◌==◌, ◌!=◌, nat_eq, bytes_eq, ltb, Option,
  none, some, Result, ok, err, length, take, if◌then◌else◌, ◌>>=◌, ◌>>◌, reject_if,
}
use clicksync.Base.Words.{u32}
use clicksync.Model.{zero_hash, Point, point_eq}
use clicksync.Store.Points.{same_wire_point}
use clicksync.Store.Types.{CanonicalBlock, State, RollbackRequest}

-- Each wraps `ErrInvalidRollback`.
pub data Error : Type 0 where
  below_start empty_hash number_conflict ebb_conflict not_in_window not_canonical : Error
  too_deep : ℕ → Error
  start_too_deep : Error

unfoldable pub supplied_point_metadata_matches : Point → Point → Result Error (Unit {0})
supplied_point_metadata_matches supplied canonical = do
  reject_if (supplied.block_number != 0 && supplied.block_number != canonical.block_number)
      number_conflict
  reject_if (supplied.is_byron_ebb && not canonical.is_byron_ebb) ebb_conflict

-- The loop over `state.Canonical` from `index` on: the first block at the requested wire point.
unfoldable pub find_block : Point → ℕ → List CanonicalBlock → Option (ℕ × Point)
find_block requested index [] = none
find_block requested index (block ∷ blocks) =
    if same_wire_point requested block.point
    then some (index, block.point)
    else find_block requested (suc index) blocks

-- The target, with its place in the window if it is there.
pub record Target : Type 0 where
  pub point : Point
  pub in_window : Option ℕ

-- What follows the loop, or its `return`.
unfoldable pub matched : Point → Point → Option (ℕ × Point) → Result Error Target
matched start requested (some (index, point)) = do
  supplied_point_metadata_matches requested point
  ok (record { point = point; in_window = some index })
matched start requested none =
    if same_wire_point requested start
    then (do
      supplied_point_metadata_matches requested start
      ok (record { point = start; in_window = none }))
    else err not_in_window

unfoldable pub resolve_target : State → Point → Result Error Target
unfolding matched
resolve_target state requested =
    if requested.origin
    then (if not state.dataset.start.origin
        then err below_start
        else ok (record { point = state.dataset.start; in_window = none }))
    else if requested.hash == zero_hash
    then err empty_hash
    else matched state.dataset.start requested (find_block requested 0 state.canonical)

unfoldable pub descend : State → ℕ → Target → Result Error (Point × List CanonicalBlock)
descend state maximum_depth target =
    if target.point == state.tip then ok (target.point, []) else elim target.in_window [
      | some index ↦
          if ltb maximum_depth (u32 index)
          then err (too_deep index)
          else ok (target.point, take index state.canonical)
      | none ↦
          if target.point != state.dataset.start
          then err not_canonical
          else if ltb maximum_depth (length state.canonical)
          then err start_too_deep
          else ok (target.point, state.canonical)
    ]

unfoldable pub resolve_rollback :
    State → RollbackRequest → Result Error (Point × List CanonicalBlock)
resolve_rollback state request = do
  target ← resolve_target state request.to
  descend state request.maximum_depth target
