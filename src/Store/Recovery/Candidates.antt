-- ===== src/Store/Recovery/Candidates.antt =====
-- `intersectionCandidates` of internal/store/recovery.go, and the state that is recovered.
use clicksync.Base.{
  ℕ, zero, suc, ◌+◌, ◌-◌, ◌*◌, List, [], ◌∷◌, ◌++◌, map, take, length, get_elem?, ◌&&◌, ◌==◌, ◌!=◌,
  nat_eq, leb, Option, none, some, Result, ok, err, if◌then◌else◌, ◌>>=◌, ◌>>◌, any,
}
use clicksync.Base.Storage.{Reading}
use clicksync.Model.{Point, point_eq}
use clicksync.Store.Types.{CanonicalBlock, DatasetIdentity, State}
use clicksync.Store.Tables.{ChainEvent, RollbackRow}
use clicksync.Store.Recovery.{
  Error, zero_depth, LatestAction, latest_committed_action, validate_recovered_state,
}
use clicksync.Store.Recovery.Window.{load_canonical_window}

-- `appendPoint`: a point is taken once.
unfoldable pub append_point : List Point → Point → List Point
append_point candidates point =
    if any (λ (p : Point). p == point) candidates then candidates else candidates ++ (point ∷ [])

unfoldable pub append_points : List Point → List Point → List Point
unfolding append_point
append_points candidates [] = candidates
append_points candidates (p ∷ ps) = append_points (append_point candidates p) ps

abbrev pub point_of : Option CanonicalBlock → List Point
point_of none = []
point_of (some block) = block.point ∷ []

abbrev pub at_distance : List CanonicalBlock → ℕ → List Point
at_distance blocks distance = point_of (get_elem? blocks (distance - 1))

-- The points at doubling distances, for as many samples; a distance beyond the list ends the loop.
unfoldable pub geometric : List CanonicalBlock → ℕ → ℕ → List Point
geometric blocks zero distance = []
geometric blocks (suc samples) distance =
    let rest = geometric blocks samples (distance * 2) in
    if leb distance (length blocks) then at_distance blocks distance ++ rest else []

abbrev pub last_point : List CanonicalBlock → List Point
last_point [] = []
last_point (b ∷ []) = b.point ∷ []
last_point (b ∷ c ∷ bs) = last_point (c ∷ bs)

abbrev pub dense : ℕ
dense = 32

abbrev pub geometric_samples : ℕ
geometric_samples = 32

unfoldable pub sampled_points : List CanonicalBlock → List Point
sampled_points canonical =
    let points = map (λ (b : CanonicalBlock). b.point) (take dense canonical) in
    append_points (append_points [] points) (geometric canonical geometric_samples (dense * 2))

-- The tip is offered where there are no blocks.
unfoldable pub or_tip : State → List Point → List Point
or_tip state candidates =
    if length candidates == 0 && state.tip != state.dataset.start
    then append_point candidates state.tip
    else candidates

unfoldable pub intersection_candidates : State → List Point
intersection_candidates state =
    append_point
      (append_points (or_tip state (sampled_points state.canonical)) (last_point state.canonical))
      state.dataset.start

-- What the three queries of a state answer.
pub record Readings (E : Type 0) : Type 0 where
  pub adoptions : Reading E
  pub rollbacks : Reading E
  pub window : Reading E

abbrev pub snapshot_of : Option LatestAction → ℕ
snapshot_of none = 0
snapshot_of (some action) = action.event_seq

abbrev pub tip_of : DatasetIdentity → Option LatestAction → Point
tip_of identity none = identity.start
tip_of identity (some action) = action.point

module _ {E : Type 0} where
  unfoldable pub state_for_identity :
      Readings E → DatasetIdentity → ℕ → List ChainEvent → List RollbackRow → Result (Error E) State
  state_for_identity readings identity maximum_depth events rollbacks = do
    action ← latest_committed_action readings.adoptions readings.rollbacks events rollbacks
    canonical ←
        load_canonical_window readings.window (snapshot_of action) (maximum_depth + 1) events
          rollbacks
    let state : State = record {
      dataset = identity;
      snapshot = snapshot_of action;
      tip = tip_of identity action;
      canonical = canonical;
      intersections = [];
    }
    validate_recovered_state state
    ok (record state { intersections = intersection_candidates state })

  -- `State`
  unfoldable pub read_state :
      Readings E → DatasetIdentity → ℕ → List ChainEvent → List RollbackRow → Result (Error E) State
  read_state readings identity maximum_depth events rollbacks =
      if maximum_depth == 0
      then err zero_depth
      else state_for_identity readings identity maximum_depth events rollbacks

  -- `CommittedSnapshot`
  unfoldable pub committed_snapshot :
      Readings E → List ChainEvent → List RollbackRow → Result (Error E) ℕ
  committed_snapshot readings events rollbacks = do
    action ← latest_committed_action readings.adoptions readings.rollbacks events rollbacks
    ok (snapshot_of action)

  -- `CurrentTip`
  unfoldable pub current_tip :
      Readings E → DatasetIdentity → List ChainEvent → List RollbackRow → Result (Error E) Point
  current_tip readings identity events rollbacks = do
    action ← latest_committed_action readings.adoptions readings.rollbacks events rollbacks
    ok (tip_of identity action)

  -- `Intersections`
  unfoldable pub intersections :
      Readings E
      → DatasetIdentity
      → ℕ
      → List ChainEvent
      → List RollbackRow
      → Result (Error E) (List Point)
  unfolding read_state
  intersections readings identity maximum_depth events rollbacks = do
    state ← read_state readings identity maximum_depth events rollbacks
    ok state.intersections
